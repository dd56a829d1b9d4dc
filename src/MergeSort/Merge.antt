-- ===== src/MergeSort/Merge.antt =====
-- Merging two sorted lists: what it keeps, and that it is stable.
use mathlib.Core.List.{Perm, perm_middle}
use mathlib.Core.List.Perm
use pass_keeper.Prelude.{
  ◌≡◌, refl, ap, ap₂, sym, ◌∙◌, Bool, true, false, not, ◌&&◌, List, [], ◌∷◌, ◌++◌, append-nil,
  Bool-cases, inl, inr, if◌then◌else◌, arith, length, ◌+◌, length-append,
}

module _ {ℓ} {A : Type ℓ} where
  abbrev pub All : (A → Type 0) → List A → Type 0
  All P [] = Unit
  All P (x ∷ xs) = P x × All P xs

  pub All-map : {P Q : A → Type 0} (xs : List A) → ((x : A) → P x → Q x) → All P xs → All Q xs
  All-map [] f h = tt
  All-map (x ∷ xs) f h = (f x h.0, All-map xs f h.1)

  unfoldable pub filter : (A → Bool) → List A → List A
  filter p [] = []
  filter p (x ∷ xs) = if p x then x ∷ filter p xs else filter p xs

  pub filter-append :
      (p : A → Bool) (xs ys : List A) → filter p (xs ++ ys) ≡ filter p xs ++ filter p ys
  unfolding filter
  filter-append p [] ys = refl
  filter-append p (x ∷ xs) ys = elim (Bool-cases (p x)) [
    | inl yes_p ↦ rw (yes_p, filter-append p xs ys)
    | inr no_p ↦ rw (no_p, filter-append p xs ys)
  ]

  pub filter-none : (p : A → Bool) (xs : List A) → All (λ x. p x ≡ false) xs → filter p xs ≡ []
  unfolding filter
  filter-none p [] h = refl
  filter-none p (x ∷ xs) h = rw (h.0, filter-none p xs h.1)

module _ {ℓ} {A : Type ℓ} (gt : A → A → Bool) where
  -- Ascending: nothing stands above a later element.
  abbrev pub Sorted : List A → Type 0
  Sorted [] = Unit
  Sorted (x ∷ xs) = All (λ y. gt x y ≡ false) xs × Sorted xs

  -- Equivalent to `k` in the order.
  unfoldable pub same : A → A → Bool
  same k x = not (gt k x) && not (gt x k)

  -- `zs` is `xs` in ascending order, and equivalent elements keep their order.
  pub record IsSorting (xs zs : List A) : Type ℓ where
    pub size : length zs ≡ length xs
    pub sorted : Sorted zs
    pub perm : Perm zs xs
    pub stable : (k : A) → filter (same k) zs ≡ filter (same k) xs

  unfoldable pub merge : List A → List A → List A
  merge [] ys = ys
  merge (x ∷ xs) [] = x ∷ xs
  merge (x ∷ xs) (y ∷ ys) = elim (gt x y) [
    | true ↦ y ∷ merge (x ∷ xs) ys
    | false ↦ x ∷ merge xs (y ∷ ys)
  ]

  merge-nil_left : (ys : List A) → merge [] ys ≡ ys
  unfolding merge
  merge-nil_left ys = refl

  merge-nil_right : (xs : List A) → merge xs [] ≡ xs
  unfolding merge
  merge-nil_right [] = refl
  merge-nil_right (x ∷ xs) = refl

  pub merge-gt :
      (x y : A) (xs ys : List A) → gt x y ≡ true → merge (x ∷ xs) (y ∷ ys) ≡ y ∷ merge (x ∷ xs) ys
  unfolding merge
  merge-gt x y xs ys e = rw (e, merge)

  pub merge-le :
      (x y : A) (xs ys : List A) → gt x y ≡ false → merge (x ∷ xs) (y ∷ ys) ≡ x ∷ merge xs (y ∷ ys)
  unfolding merge
  merge-le x y xs ys e = rw (e, merge)

  pub length-merge : (xs ys : List A) → length (merge xs ys) ≡ length xs + length ys
  length-merge [] ys = rw merge-nil_left (omega arith)
  length-merge (x ∷ xs) [] = rw merge-nil_right (omega arith)
  length-merge (x ∷ xs) (y ∷ ys) = elim (Bool-cases (gt x y)) [
    | inl above ↦ rw (merge-gt x y xs ys above) (omega (arith, length-merge (x ∷ xs) ys))
    | inr below ↦ rw (merge-le x y xs ys below) (omega (arith, length-merge xs (y ∷ ys)))
  ]

  merge-perm : (xs ys : List A) → Perm (merge xs ys) (xs ++ ys)
  merge-perm [] ys = rw merge-nil_left (Perm.refl ys)
  merge-perm (x ∷ xs) [] = rw (merge-nil_right, append-nil) (Perm.refl (x ∷ xs))
  merge-perm (x ∷ xs) (y ∷ ys) = elim (Bool-cases (gt x y)) [
    | inl above ↦
        rw (merge-gt x y xs ys above)
          (Perm.trans (Perm.cons y (merge-perm (x ∷ xs) ys)) (Perm.symm (perm_middle (x ∷ xs) ys)))
    | inr below ↦ rw (merge-le x y xs ys below) (Perm.cons x (merge-perm xs (y ∷ ys)))
  ]

  All-merge : (P : A → Type 0) (xs ys : List A) → All P xs → All P ys → All P (merge xs ys)
  All-merge P [] ys h k = rw merge-nil_left k
  All-merge P (x ∷ xs) [] h k = rw merge-nil_right h
  All-merge P (x ∷ xs) (y ∷ ys) h k = elim (Bool-cases (gt x y)) [
    | inl above ↦ rw (merge-gt x y xs ys above) (k.0, All-merge P (x ∷ xs) ys h k.1)
    | inr below ↦ rw (merge-le x y xs ys below) (h.0, All-merge P xs (y ∷ ys) h.1 k)
  ]

  -- The comparison is a total preorder.
  pub record IsOrder : Type ℓ where
    pub asym : (x y : A) → gt x y ≡ true → gt y x ≡ false
    pub trans : (x y z : A) → gt x y ≡ false → gt y z ≡ false → gt x z ≡ false

  module _ (o : IsOrder) where
    merge-Sorted : (xs ys : List A) → Sorted xs → Sorted ys → Sorted (merge xs ys)
    merge-Sorted [] ys h k = rw merge-nil_left k
    merge-Sorted (x ∷ xs) [] h k = rw merge-nil_right h
    merge-Sorted (x ∷ xs) (y ∷ ys) h k = elim (Bool-cases (gt x y)) [
      | inl above ↦
          let low = o.asym x y above in
          rw (merge-gt x y xs ys above) (
            All-merge (λ z. gt y z ≡ false) (x ∷ xs) ys
                (low, All-map xs (λ z q. o.trans y x z low q) h.0) k.0,
            merge-Sorted (x ∷ xs) ys h k.1,
          )
      | inr below ↦ rw (merge-le x y xs ys below) (
        All-merge (λ z. gt x z ≡ false) xs (y ∷ ys) h.0
            (below, All-map ys (λ z q. o.trans x y z below q) k.0),
        merge-Sorted xs (y ∷ ys) h.1 k,
      )
    ]

    -- What is above `y` is not equivalent to anything that `y` is equivalent to.
    not_same : (k y z : A) → same k y ≡ true → gt z y ≡ true → same k z ≡ false
    unfolding same
    not_same k y z e above = ground (arith, o.asym z y above, o.trans z k y)

    higher : (x y z : A) → gt x y ≡ true → gt x z ≡ false → gt z y ≡ true
    higher x y z above q = elim (Bool-cases (gt z y)) [
      | inl yes_gt ↦ yes_gt
      | inr no_gt ↦ absurd (cc (o.trans x z y q no_gt))
    ]

    above-All :
        (k x y : A) (xs : List A)
        → same k y ≡ true
        → gt x y ≡ true
        → Sorted (x ∷ xs)
        → All (λ z. same k z ≡ false) (x ∷ xs)
    above-All k x y xs e above h =
        (not_same k y x e above, All-map xs (λ z q. not_same k y z e (higher x y z above q)) h.0)

    keep_first :
        (k x : A) (zs us vs : List A)
        → filter (same k) zs ≡ us ++ vs
        → filter (same k) (x ∷ zs) ≡ (if same k x then x ∷ us else us) ++ vs
    unfolding filter
    keep_first k x zs us vs e = elim (Bool-cases (same k x)) [
      | inl yes_same ↦ rw (yes_same, e)
      | inr no_same ↦ rw (no_same, e)
    ]

    move_first :
        (k y : A) (zs us vs : List A)
        → filter (same k) zs ≡ us ++ vs
        → (same k y ≡ true → us ≡ [])
        → filter (same k) (y ∷ zs) ≡ us ++ (if same k y then y ∷ vs else vs)
    unfolding filter
    move_first k y zs us vs e empty = elim (Bool-cases (same k y)) [
      | inl yes_same ↦ rw (yes_same, e, empty yes_same)
      | inr no_same ↦ rw (no_same, e)
    ]

    merge_stable :
        (k : A) (xs ys : List A)
        → Sorted xs
        → filter (same k) (merge xs ys) ≡ filter (same k) xs ++ filter (same k) ys
    unfolding filter
    merge_stable k [] ys h = rw merge-nil_left
    merge_stable k (x ∷ xs) [] h = rw (merge-nil_right, append-nil)
    merge_stable k (x ∷ xs) (y ∷ ys) h = elim (Bool-cases (gt x y)) [
      | inl above ↦
          let ih = merge_stable k (x ∷ xs) ys h in
          ap (filter (same k)) (merge-gt x y xs ys above)
          ∙ move_first k y _ _ _ ih
              (λ e. filter-none (same k) (x ∷ xs) (above-All k x y xs e above h))
      | inr below ↦
          let ih = merge_stable k xs (y ∷ ys) h.1 in
          ap (filter (same k)) (merge-le x y xs ys below) ∙ keep_first k x _ _ _ ih
    ]

    pub merge-IsSorting :
        (xs ys xs' ys' : List A)
        → IsSorting xs xs'
        → IsSorting ys ys'
        → IsSorting (xs ++ ys) (merge xs' ys')
    merge-IsSorting xs ys xs' ys' p q = record {
      size = omega (arith, length-merge xs' ys', p.size, q.size, length-append xs ys);
      sorted = merge-Sorted xs' ys' p.sorted q.sorted;
      perm = Perm.trans (merge-perm xs' ys') (Perm.append p.perm q.perm);
      stable = λ k.
          merge_stable k xs' ys' p.sorted
          ∙ ap₂ ◌++◌ (p.stable k) (q.stable k)
          ∙ sym (filter-append (same k) xs ys);
    }
