-- ===== src/Strlist/Holding.antt =====
-- What a list holds, and that a push adds one element to it.
use pass_keeper.Prelude.{
  ℕ, ◌+◌, ◌-◌, ◌^◌, ◌≤◌, ◌<◌, ◌≡◌, refl, sym, ap, subst, ◌∙◌, inl, inr, List, [], ◌∷◌, ◌++◌,
  append_assoc, arith, Bool-cases, ok, Returns, if◌then◌else◌, ltb, length, length-append, store,
  store-append, resize, resize_grow, length-resize, next_capacity_kept, replicate,
  capacity_grow_lem, next_capacity, next_capacity_bounds, First, first,
}
use pass_keeper.Strlist.{Strlist, Elem, live, no_ext, strlist_push_nodup}

-- The elements in use come first; the capacity is what is allocated.
abbrev pub Holds : Strlist → List Elem → Type 0
Holds sl xs =
    (tail : List Elem) × (sl.elvec ≡ xs ++ tail)
    × (sl.size ≡ length xs)
    × (sl.capacity ≡ length sl.elvec)

abbrev pub of_str : List ℕ → Elem
of_str str = record { str = live str; ext = no_ext }

-- After CAPACITY_GROW there is a cell behind the elements.
abbrev Roomy : List Elem → ℕ → List Elem → Type 0
Roomy xs capacity elvec =
    (y : Elem) × (ys : List Elem) × (elvec ≡ xs ++ y ∷ ys) × (length elvec ≡ capacity)

roomy :
    (xs tail : List Elem) (capacity : ℕ)
    → length (xs ++ tail) ≡ capacity
    → length xs < capacity
    → Roomy xs capacity (xs ++ tail)
roomy xs tail capacity len more =
    let n : ℕ = capacity - length xs - 1 in
    let f : First tail n = first tail n (omega (arith, length-append xs tail)) in
    (f.0, f.1.0, ap (xs ++◌) f.1.1.0, len)

grow_full :
    (junk : Elem) (xs tail : List Elem) (capacity : ℕ)
    → length (xs ++ tail) ≤ capacity
    → length xs < capacity
    → Roomy xs capacity (resize junk (xs ++ tail) capacity)
grow_full junk xs tail capacity fits more =
    let unset : List Elem = replicate (capacity - length (xs ++ tail)) junk in
    let grown : resize junk (xs ++ tail) capacity ≡ xs ++ (tail ++ unset) =
      resize_grow junk (xs ++ tail) capacity fits ∙ append_assoc xs tail unset in
    let len : length (xs ++ (tail ++ unset)) ≡ capacity =
      ap length (sym grown) ∙ length-resize junk (xs ++ tail) capacity in
    subst (Roomy xs capacity) (sym grown) (roomy xs (tail ++ unset) capacity len more)

grow_lem :
    (junk : Elem) (xs tail : List Elem) (size capacity : ℕ)
    → size ≡ length xs
    → capacity ≡ length (xs ++ tail)
    → let capacity' = next_capacity (size + 1) capacity in
      Roomy xs capacity'
        (if ltb capacity (size + 1) then resize junk (xs ++ tail) capacity' else xs ++ tail)
grow_lem junk xs tail size capacity size_eq cap_eq =
    let bounds = next_capacity_bounds (size + 1) capacity in
    elim (Bool-cases (ltb capacity (size + 1))) [
      | inl full ↦ rw (full) (
          grow_full junk xs tail (next_capacity (size + 1) capacity)
            (omega (arith, bounds.1, cap_eq)) (omega (arith, bounds.0, size_eq)))
      | inr free ↦
          rw (free, next_capacity_kept (size + 1) capacity free)
            (roomy xs tail capacity (sym cap_eq) (ground (arith, free, size_eq)))
    ]

abbrev pub Pushed : Strlist → List Elem → List ℕ → Strlist × ℕ → Type 0
Pushed sl xs str r =
    Holds r.0 (xs ++ of_str str ∷ []) × (r.1 ≡ length xs) × (r.0.dupstr ≡ sl.dupstr)

-- The array that the element is written into.
abbrev room_for_one : Elem → Strlist → List Elem → List Elem
room_for_one junk sl elvec =
    if ltb sl.capacity (sl.size + 1)
    then resize junk elvec (next_capacity (sl.size + 1) sl.capacity)
    else elvec

pub push_nodup_lem :
    (junk : Elem) (sl : Strlist) (xs : List Elem) (str : List ℕ)
    → Holds sl xs
    → length xs < 2 ^ 55
    → Returns (Pushed sl xs str) (strlist_push_nodup junk sl (live str))
unfolding strlist_push_nodup
push_nodup_lem junk sl xs str (tail, cells, size_eq, cap_eq) small =
    let cap : ℕ = next_capacity (sl.size + 1) sl.capacity in
    let room : Roomy xs cap (room_for_one junk sl sl.elvec) =
      subst (λ e. Roomy xs cap (room_for_one junk sl e)) (sym cells)
        (grow_lem junk xs tail sl.size sl.capacity size_eq (cap_eq ∙ ap length cells)) in
    let ys : List Elem = room.1 in
    let stored : store (room_for_one junk sl sl.elvec) sl.size (of_str str)
        ≡ ok (xs ++ of_str str ∷ ys) =
      ap (λ e. store e sl.size (of_str str)) room.2
      ∙ store-append xs ys room.0 (of_str str) sl.size size_eq in
    let len : cap ≡ length (xs ++ of_str str ∷ ys) =
      sym room.3
      ∙ ap length room.2
      ∙ omega (arith, length-append xs (room.0 ∷ ys), length-append xs (of_str str ∷ ys)) in
    (
      (record sl { elvec = xs ++ of_str str ∷ ys; size = sl.size + 1; capacity = cap }, sl.size),
      rw (
        capacity_grow_lem 16 (sl.size + 1) sl.capacity (omega arith) (omega arith)
            (omega (arith, size_eq, small)),
        stored,
      ),
      (
        (
          ys,
          sym (append_assoc xs (of_str str ∷ []) ys),
          omega (arith, size_eq, length-append xs (of_str str ∷ [])),
          len,
        ),
        size_eq,
        refl,
      ),
    )
