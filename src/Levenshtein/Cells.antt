-- ===== src/Levenshtein/Cells.antt =====
-- One cell of the table: each step of the inner loop, and the loop's body.
use native.Mathlib.Numerals.{sub-one}
use pass_keeper.Prelude.{
  ℕ, zero, suc, ◌+◌, ◌-◌, ◌*◌, ◌^◌, ◌≤◌, ◌<◌, min, ◌≡◌, refl, ap, true, false, ◌||◌, List, ok, ltb,
  ◌==◌, length, get_or, set, load, arith, Bool-cases, inl, inr, length-set, store_lem,
  load-set_self, load-set_ne, set-set, load-get_or,
}
use pass_keeper.Levenshtein.{
  to_int, relax, substitution, is_swapped, transposition, deletion, insertion, fill_cell,
}
use pass_keeper.Levenshtein.Script.{swapped, change, dist, after_swap, dist-suc, dist-le}

pub to_int_lem : (x : ℕ) → x < 2 ^ 31 → to_int x ≡ ok x
unfolding to_int
to_int_lem x h = ground arith

relax-set :
    (row : List ℕ) (k c x : ℕ) → k < length row → relax (set row k c) k x ≡ ok (set row k (min c x))
unfolding relax
relax-set row k c x h = elim (Bool-cases (ltb x c)) [
  | inl cheaper ↦
      let low : x ≡ min c x = ground arith in
      rw
        (
          load-set_self row k c h,
          cheaper,
          store_lem (set row k c) k x (rw length-set h),
          set-set row k c x,
        )
        (ap (λ v. ok (set row k v)) low)
  | inr dearer ↦
      let high : c ≡ min c x = ground arith in
      rw (load-set_self row k c h, dearer) (ap (λ v. ok (set row k v)) high)
]

module _ (s t : List ℕ) (iw dw sw tw : ℕ) where
  -- The first `upto` of the cells hold row `i` of the table.
  pub record IsRow (i upto : ℕ) (row : List ℕ) : Type 0 where
    pub size : length row ≡ length t + 1
    pub cells : (j : ℕ) → j < upto → load row j ≡ ok (dist s t iw dw sw tw i j)

  -- What keeps every cost inside an int.
  abbrev pub FitsInt : Type 0
  FitsInt = length s * dw + length t * iw + (iw + dw + sw + tw) < 2 ^ 31

  pub cost_fits :
      (i j w : ℕ)
      → FitsInt
      → i ≤ length s
      → j ≤ length t
      → w ≤ iw + dw + sw + tw
      → dist s t iw dw sw tw i j + w < 2 ^ 31
  cost_fits i j w fits p q r =
      let a : i * dw ≤ length s * dw = grind arith in
      let b : j * iw ≤ length t * iw = grind arith in omega (arith, dist-le s t iw dw sw tw i j)

  is_swapped_lem :
      (i j : ℕ)
      → suc i < length s
      → suc j < length t
      → is_swapped s t iw dw sw tw (suc i) (suc j) ≡ ok (swapped s t iw dw sw tw i j)
  unfolding is_swapped swapped
  is_swapped_lem i j in_s in_t =
      let not_first : ((suc i == 0) || (suc j == 0)) ≡ false = ground arith in
      let back_s : suc i - 1 ≡ i = omega arith in
      let back_t : suc j - 1 ≡ j = omega arith in
      rw (
        not_first,
        back_s,
        back_t,
        load-get_or s i 0 (omega arith),
        load-get_or t (suc j) 0 in_t,
        load-get_or s (suc i) 0 in_s,
        load-get_or t j 0 (omega arith),
      )

  -- `c` is the cost that the cell holds so far.
  transposition_lem :
      FitsInt
      → (i j : ℕ) → i < length s
      → j < length t
      → (v9 v1 : List ℕ) (c : ℕ) → ((i' : ℕ) → i ≡ suc i' → IsRow i' (length t + 1) v9)
      → j + 1 < length v1
      → transposition s t iw dw sw tw i v9 (set v1 (j + 1) c) j
        ≡ ok (set v1 (j + 1) (after_swap s t iw dw sw tw i j c))
  unfolding transposition after_swap
  transposition_lem fits zero j in_s in_t v9 v1 c row9 room = unfold is_swapped in refl
  transposition_lem fits (suc i) zero in_s in_t v9 v1 c row9 room =
      let first : ((suc i == 0) || (0 == 0)) ≡ true = ground arith in unfold is_swapped in rw first
  transposition_lem fits (suc i) (suc j) in_s in_t v9 v1 c row9 room =
      let before : load v9 (suc j - 1) ≡ ok (dist s t iw dw sw tw i j) =
        rw sub-one ((row9 i refl).cells j (omega arith)) in
      elim (Bool-cases (swapped s t iw dw sw tw i j)) [
        | inl swap ↦
            rw
              (
                is_swapped_lem i j in_s in_t,
                swap,
                before,
                to_int_lem _ (cost_fits i j tw fits (omega arith) (omega arith) (omega arith)),
              )
              (relax-set v1 (suc j + 1) c _ room)
        | inr stay ↦ rw (is_swapped_lem i j in_s in_t, stay)
      ]

  module _ (fits : FitsInt) (i j : ℕ) (in_s : i < length s) (in_t : j < length t) where
    abbrev d : ℕ → ℕ → ℕ
    d = dist s t iw dw sw tw

    substitution_lem :
        (v0 v1 : List ℕ)
        → load v0 j ≡ ok (d i j)
        → j + 1 < length v1
        → substitution s t iw dw sw tw i v0 v1 j
          ≡ ok (set v1 (j + 1) (d i j + change s t iw dw sw tw i j))
    unfolding substitution change
    substitution_lem v0 v1 before room = elim (Bool-cases (get_or s i 0 == get_or t j 0)) [
      | inl same ↦
          rw
            (
              load-get_or s i 0 in_s,
              load-get_or t j 0 in_t,
              before,
              same,
              store_lem v1 (j + 1) (d i j) room,
            )
            (ap (λ v. ok (set v1 (j + 1) v)) (omega arith))
      | inr differ ↦ rw (
        load-get_or s i 0 in_s,
        load-get_or t j 0 in_t,
        before,
        differ,
        to_int_lem _ (cost_fits i j sw fits (omega arith) (omega arith) (omega arith)),
        store_lem v1 (j + 1) (d i j + sw) room,
      )
    ]

    deletion_lem :
        (v0 v1 : List ℕ) (c : ℕ)
        → load v0 (j + 1) ≡ ok (d i (suc j))
        → j + 1 < length v1
        → deletion s t iw dw sw tw v0 (set v1 (j + 1) c) j
          ≡ ok (set v1 (j + 1) (min c (d i (suc j) + dw)))
    unfolding deletion
    deletion_lem v0 v1 c above room =
        rw
          (
            above,
            to_int_lem _ (cost_fits i (suc j) dw fits (omega arith) (omega arith) (omega arith)),
          )
          (relax-set v1 (j + 1) c (d i (suc j) + dw) room)

    insertion_lem :
        (v1 : List ℕ) (c : ℕ)
        → load v1 j ≡ ok (d (suc i) j)
        → j + 1 < length v1
        → insertion s t iw dw sw tw (set v1 (j + 1) c) j
          ≡ ok (set v1 (j + 1) (min c (d (suc i) j + iw)))
    unfolding insertion
    insertion_lem v1 c left room =
        rw
          (
            load-set_ne v1 (j + 1) j c (omega arith),
            left,
            to_int_lem _ (cost_fits (suc i) j iw fits (omega arith) (omega arith) (omega arith)),
          )
          (relax-set v1 (j + 1) c (d (suc i) j + iw) room)

    -- The body of the inner loop puts the distance of the longer prefixes into the next cell.
    pub fill_cell_lem :
        (v9 v0 v1 : List ℕ)
        → ((i' : ℕ) → i ≡ suc i' → IsRow i' (length t + 1) v9)
        → IsRow i (length t + 1) v0
        → IsRow (suc i) (suc j) v1
        → fill_cell s t iw dw sw tw i v9 v0 j v1 ≡ ok (set v1 (j + 1) (d (suc i) (suc j)))
    unfolding fill_cell
    fill_cell_lem v9 v0 v1 row9 row0 row1 =
        let room : j + 1 < length v1 = omega (arith, row1.size) in
        let next : j + 1 ≡ suc j = omega arith in
        rw (
          substitution_lem v0 v1 (row0.cells j (omega arith)) room,
          transposition_lem fits i j in_s in_t v9 v1 _ row9 room,
          deletion_lem v0 v1 _ (rw next (row0.cells (suc j) (omega arith))) room,
          insertion_lem v1 _ (row1.cells j (omega arith)) room,
          dist-suc s t iw dw sw tw i j,
        )
