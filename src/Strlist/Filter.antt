-- ===== src/Strlist/Filter.antt =====
-- strlist_filter against the list of the elements that pass.
use pass_keeper.Prelude.{
  ℕ, zero, suc, ◌+◌, ◌-◌, ◌≤◌, ◌≡◌, refl, sym, ap, ap₂, subst, ◌∙◌, Bool, List, [], ◌∷◌, ◌++◌,
  append_assoc, append-nil, arith, ok, Returns, Returns-map, length, length-append, for_range,
}
use pass_keeper.Strlist.{
  Strlist, Elem, erased, track_round, move_back, run_length, filter_loop, strlist_filter,
}
use pass_keeper.Strlist.Moving.{
  kept, places, EndsRejected, track_lem, erase_at_lem, move_lem, find_rejected, Ahead,
}
use pass_keeper.Strlist.Holding.{Holds}

-- The list holds `xs`, in the memory that it had.
abbrev pub Filtered : Strlist → List Elem → Strlist → Type 0
Filtered sl xs sl' = Holds sl' xs × (sl'.capacity ≡ sl.capacity) × (sl'.dupstr ≡ sl.dupstr)

-- The last round: nothing stands behind the rejected element, and nothing moves.
filter_last :
    (rmext : Bool) (sl : Strlist) (front stale : List Elem) (x : Elem) (tail : List Elem)
    (ii iii : ℕ)
    → sl.elvec ≡ front ++ (stale ++ x ∷ tail)
    → sl.capacity ≡ length sl.elvec
    → length stale ≡ iii
    → length front + iii ≡ ii
    → sl.size + iii ≡ ii + 1
    → Returns (Filtered sl front) (filter_loop (ii ∷ []) iii rmext sl)
unfolding filter_loop run_length for_range
filter_last rmext sl front stale x tail ii iii cells whole hs hi hn =
    let before : List Elem = front ++ stale in
    let split : sl.elvec ≡ before ++ x ∷ tail = cells ∙ sym (append_assoc front stale (x ∷ tail)) in
    let dead : Elem = erased sl.dupstr rmext x in
    let none_left : sl.size - (ii + 1) ≡ 0 = omega arith in
    (
      record sl { elvec = before ++ dead ∷ tail; size = sl.size - 1 },
      rw (
        erase_at_lem sl before x tail ii rmext split (omega (arith, length-append front stale)),
        none_left,
      ),
      (
        (
          stale ++ dead ∷ tail,
          append_assoc front stale (dead ∷ tail),
          omega arith,
          whole
              ∙ ap length split
              ∙ omega (arith, length-append before (x ∷ tail), length-append before (dead ∷ tail)),
        ),
        refl,
        refl,
      ),
    )

-- The elements from a rejected one on, behind `front` and the stale cells.
abbrev Remainder : (Elem → Bool) → Bool → ℕ → Type 0
Remainder compar rmext n =
    (sl : Strlist) (front stale : List Elem) (x : Elem) (xs tail : List Elem) (ii iii : ℕ)
    → length xs ≤ n
    → sl.elvec ≡ front ++ (stale ++ x ∷ (xs ++ tail))
    → sl.capacity ≡ length sl.elvec
    → length stale ≡ iii
    → length front + iii ≡ ii
    → sl.size + iii ≡ ii + 1 + length xs
    → EndsRejected compar xs
    → Returns (Filtered sl (front ++ kept compar xs))
        (filter_loop (ii ∷ places compar (ii + 1) xs) iii rmext sl)

-- A round that another follows: the run between the two rejected elements moves to its place.
filter_step :
    (compar : Elem → Bool) (rmext : Bool) (n : ℕ)
    → Remainder compar rmext n
    → (sl : Strlist) (front stale : List Elem) (x : Elem) (xs run : List Elem) (y : Elem)
      (ys tail : List Elem) (ii iii : ℕ)
    → xs ≡ run ++ y ∷ ys
    → length xs ≤ suc n
    → sl.elvec ≡ front ++ (stale ++ x ∷ (xs ++ tail))
    → sl.capacity ≡ length sl.elvec
    → length stale ≡ iii
    → length front + iii ≡ ii
    → sl.size + iii ≡ ii + 1 + length xs
    → EndsRejected compar ys
    → let next = ii + 1 + length run in
      Returns
        (Filtered sl (front ++ (run ++ kept compar ys)))
        (filter_loop (ii ∷ (next ∷ places compar (next + 1) ys)) iii rmext sl)
unfolding filter_loop run_length
filter_step compar rmext n others sl front stale x xs run y ys tail ii iii split small cells whole
      hs hi hn ends =
    let before : List Elem = front ++ stale in
    let dead : Elem = erased sl.dupstr rmext x in
    let rest : List Elem = y ∷ (ys ++ tail) in
    let split_at : sl.elvec ≡ before ++ x ∷ (run ++ rest) =
      cells
      ∙ sym (append_assoc front stale (x ∷ (xs ++ tail)))
      ∙ ap (λ z. before ++ x ∷ z) (ap (λ z. z ++ tail) split ∙ append_assoc run (y ∷ ys) tail) in
    let stale1 : List Elem = stale ++ dead ∷ [] in
    let joined : before ++ dead ∷ (run ++ rest) ≡ front ++ (stale1 ++ (run ++ rest)) =
      append_assoc front stale _
      ∙ ap (front ++◌) (sym (append_assoc stale (dead ∷ []) (run ++ rest))) in
    let moved =
      move_lem run front stale1 rest (iii + 1) (ii + 1)
        (omega (arith, length-append stale (dead ∷ []))) (omega arith) (omega arith) in
    let stale2 : List Elem = moved.0 in
    let cells' : List Elem = front ++ (run ++ (stale2 ++ rest)) in
    let rounds : (ii + 1 + length run) - (ii + 1) ≡ length run = omega arith in
    let len_xs : length xs ≡ length run + suc (length ys) =
      ap length split ∙ length-append run (y ∷ ys) in
    let same : length cells' ≡ length sl.elvec = omega (
      arith,
      length-append front stale,
      length-append before (x ∷ (run ++ rest)),
      length-append run rest,
      moved.2,
      ap length split_at,
      length-append front (run ++ (stale2 ++ rest)),
      length-append run (stale2 ++ rest),
      length-append stale2 rest,
    ) in
    let sl2 : Strlist = record sl { elvec = cells'; size = sl.size - 1 } in
    let r =
      others sl2 (front ++ run) stale2 y ys tail (ii + 1 + length run) (iii + 1) (omega arith)
        (sym (append_assoc front run _)) (whole ∙ sym same) moved.2
        (omega (arith, length-append front run)) (omega arith) ends in
    let ranged : for_range ((ii + 1 + length run) - (ii + 1)) (ii + 1) (move_back (iii + 1))
          (before ++ dead ∷ (run ++ rest))
        ≡ ok cells' =
      ap₂ (λ k c. for_range k (ii + 1) (move_back (iii + 1)) c) rounds joined ∙ moved.1 in
    rw
      (
        erase_at_lem sl before x (run ++ rest) ii rmext split_at
            (omega (arith, length-append front stale)),
        ranged,
      )
      (Returns-map r
        λ t q. (subst (Holds t) (append_assoc front run (kept compar ys)) q.0, q.1, q.2))

filter_tail : (compar : Elem → Bool) (rmext : Bool) (n : ℕ) → Remainder compar rmext n
unfolding kept places
filter_tail compar rmext n sl front stale x [] tail ii iii small cells whole hs hi hn ends =
    subst (λ zs. Returns (Filtered sl zs) (filter_loop (ii ∷ []) iii rmext sl))
      (sym (append-nil front))
      (filter_last rmext sl front stale x tail ii iii cells whole hs hi (omega (arith, hn)))
filter_tail compar rmext zero sl front stale x (y ∷ xs) tail ii iii small cells whole hs hi hn
      ends =
    absurd (omega arith)
filter_tail compar rmext (suc n) sl front stale x (y ∷ xs) tail ii iii small cells whole hs hi hn
      ends =
    let next : Ahead compar (ii + 1) (y ∷ xs) = find_rejected compar (ii + 1) y xs ends in
    rw (next.4, next.5)
      (filter_step compar rmext n (filter_tail compar rmext n) sl front stale x (y ∷ xs) next.0
        next.1 next.2 tail ii iii next.3 small cells whole hs hi hn next.6)

filter_all :
    (compar : Elem → Bool) (rmext : Bool) (sl : Strlist) (xs : List Elem)
    → Holds sl xs
    → EndsRejected compar xs
    → Returns (Filtered sl (kept compar xs)) (filter_loop (places compar 0 xs) 0 rmext sl)
unfolding kept places filter_loop
filter_all compar rmext sl [] h ends = (sl, refl, (h, refl, refl))
filter_all compar rmext sl (y ∷ ys) (tail, cells, size_eq, whole) ends =
    let next : Ahead compar 0 (y ∷ ys) = find_rejected compar 0 y ys ends in
    let run : List Elem = next.0 in
    let split : sl.elvec ≡ run ++ next.1 ∷ (next.2 ++ tail) =
      cells ∙ ap (λ z. z ++ tail) next.3 ∙ append_assoc run (next.1 ∷ next.2) tail in
    rw (next.4, next.5)
      (filter_tail compar rmext (length next.2) sl run [] next.1 next.2 tail (0 + length run) 0
        (omega arith) split whole refl (omega arith)
        (omega (arith, size_eq, ap length next.3, length-append run (next.1 ∷ next.2))) next.6)

-- strlist_filter leaves exactly the elements that pass, in their order, when the last element, if
-- there is one, does not pass, and stays inside its memory.
pub filter_lem :
    (compar : Elem → Bool) (rmext : Bool) (sl : Strlist) (xs : List Elem)
    → Holds sl xs
    → EndsRejected compar xs
    → Returns (Filtered sl (kept compar xs)) (strlist_filter compar rmext sl)
unfolding strlist_filter
filter_lem compar rmext sl xs h ends =
    let tracked : for_range sl.size 0 (track_round compar sl.elvec) [] ≡ ok (places compar 0 xs) =
      ap₂ (λ n c. for_range n 0 (track_round compar c) []) h.2 h.1
      ∙ track_lem compar xs [] h.0 0 [] refl in
    rw (tracked) (filter_all compar rmext sl xs h ends)
