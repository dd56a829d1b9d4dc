-- ===== src/Strlist/FilterOne.antt =====
-- strlist_filter where one element does not pass, wherever it stands.
use pass_keeper.Prelude.{
  ℕ, suc, ◌+◌, ◌-◌, ◌≡◌, refl, sym, ap, ap₂, ◌∙◌, Bool, true, false, List, [], ◌∷◌, ◌++◌,
  append_assoc, arith, ok, Returns, length, length-append, for_range,
}
use pass_keeper.Strlist.{
  Strlist, Elem, erased, track_round, move_back, run_length, filter_loop, strlist_filter,
}
use pass_keeper.Strlist.Holding.{Holds}
use pass_keeper.Strlist.Moving.{places, track_lem, erase_at_lem, move_lem}
use pass_keeper.Strlist.Filter.{Filtered}

abbrev pub AllKept : (Elem → Bool) → List Elem → Type 0
AllKept compar [] = Unit
AllKept compar (x ∷ xs) = (compar x ≡ true) × AllKept compar xs

places_none :
    (compar : Elem → Bool) (i : ℕ) (xs : List Elem) → AllKept compar xs → places compar i xs ≡ []
unfolding places
places_none compar i [] h = refl
places_none compar i (x ∷ xs) h = rw (h.0) (places_none compar (i + 1) xs h.1)

places_one :
    (compar : Elem → Bool) (i : ℕ) (before : List Elem) (x : Elem) (behind : List Elem)
    → AllKept compar before
    → compar x ≡ false
    → AllKept compar behind
    → places compar i (before ++ x ∷ behind) ≡ (i + length before) ∷ []
unfolding places
places_one compar i [] x behind h fails k =
    rw (fails, places_none compar (i + 1) behind k) (ap (λ n. n ∷ []) {y = i + 0} (omega arith))
places_one compar i (y ∷ before) x behind h fails k = rw (h.0) (
    places_one compar (i + 1) before x behind h.1 fails k
    ∙ ap (λ n. n ∷ []) {y = i + suc (length before)} (omega arith))

-- strlist_filter takes out the only element that does not pass, wherever it stands, and keeps the
-- others in their order.
pub filter_one :
    (compar : Elem → Bool) (rmext : Bool) (sl : Strlist) (before : List Elem) (x : Elem)
    (behind : List Elem)
    → Holds sl (before ++ x ∷ behind)
    → AllKept compar before
    → compar x ≡ false
    → AllKept compar behind
    → Returns (Filtered sl (before ++ behind)) (strlist_filter compar rmext sl)
unfolding strlist_filter filter_loop run_length
filter_one compar rmext sl before x behind (tail, cells, size_eq, whole) h fails k =
    let xs : List Elem = before ++ x ∷ behind in
    let n : ℕ = 0 + length before in
    let dead : Elem = erased sl.dupstr rmext x in
    let tracked : for_range sl.size 0 (track_round compar sl.elvec) [] ≡ ok (n ∷ []) =
      ap₂ (λ m c. for_range m 0 (track_round compar c) []) size_eq cells
      ∙ track_lem compar xs [] tail 0 [] refl
      ∙ ap ok (places_one compar 0 before x behind h fails k) in
    let split : sl.elvec ≡ before ++ x ∷ (behind ++ tail) =
      cells ∙ append_assoc before (x ∷ behind) tail in
    let moved =
      move_lem behind before (dead ∷ []) tail 1 (n + 1) refl (omega arith) (omega arith) in
    let len : length xs ≡ length before + suc (length behind) = length-append before (x ∷ behind) in
    let rounds : sl.size - (n + 1) ≡ length behind = omega (arith, size_eq, len) in
    let ranged : for_range (sl.size - (n + 1)) (n + 1) (move_back 1)
          (before ++ dead ∷ (behind ++ tail))
        ≡ ok (before ++ (behind ++ (moved.0 ++ tail))) =
      ap (λ m. for_range m (n + 1) (move_back 1) (before ++ dead ∷ (behind ++ tail))) rounds
      ∙ moved.1 in
    let rest : List Elem = moved.0 ++ tail in
    (
      record sl { elvec = before ++ (behind ++ rest); size = sl.size - 1 },
      rw (tracked, erase_at_lem sl before x (behind ++ tail) n rmext split (omega arith), ranged),
      (
        (
          rest,
          sym (append_assoc before behind rest),
          omega (arith, size_eq, len, length-append before behind),
          whole
              ∙ ap length split
              ∙ omega (
                arith,
                length-append before (x ∷ (behind ++ tail)),
                length-append behind tail,
                length-append before (behind ++ rest),
                length-append behind rest,
                length-append moved.0 tail,
                moved.2,
              ),
        ),
        refl,
        refl,
      ),
    )
