-- ===== src/Strlist/Moving.antt =====
-- The parts of strlist_filter: the tracking of places, the erasing, and the moves between two places.
use pass_keeper.Prelude.{
  ℕ, suc, ◌+◌, ◌-◌, ◌<◌, ◌≡◌, refl, sym, ap, ◌∙◌, inl, inr, Bool, true, false, List, [], ◌∷◌, ◌++◌,
  append_assoc, append-nil, arith, Bool-cases, Outcome, ok, ◌>>=◌, if◌then◌else◌, length,
  length-append, load, store, load-append, store-append, for_range, First, first,
}
use pass_keeper.Strlist.{Strlist, Elem, erased, strlist_erase_at, track_round, move_back}

-- The elements that pass, in their order.
unfoldable pub kept : (Elem → Bool) → List Elem → List Elem
kept compar [] = []
kept compar (x ∷ xs) = if compar x then x ∷ kept compar xs else kept compar xs

-- The places of the others.
unfoldable pub places : (Elem → Bool) → ℕ → List Elem → List ℕ
places compar i [] = []
places compar i (x ∷ xs) =
    if compar x then places compar (i + 1) xs else i ∷ places compar (i + 1) xs

-- The last element, if there is one, does not pass.
abbrev pub EndsRejected : (Elem → Bool) → List Elem → Type 0
EndsRejected compar [] = Unit
EndsRejected compar (x ∷ []) = compar x ≡ false
EndsRejected compar (x ∷ (y ∷ xs)) = EndsRejected compar (y ∷ xs)

pub track_lem :
    (compar : Elem → Bool) (xs front tail : List Elem) (i : ℕ) (track : List ℕ)
    → i ≡ length front
    → for_range (length xs) i (track_round compar (front ++ (xs ++ tail))) track
      ≡ ok (track ++ places compar i xs)
unfolding for_range track_round places
track_lem compar [] front tail i track e = ap ok (sym (append-nil track))
track_lem compar (x ∷ xs) front tail i track e =
    let cells : List Elem = front ++ (x ∷ (xs ++ tail)) in
    let rest : List ℕ → Outcome (List ℕ) =
      for_range (length xs) (suc i) (track_round compar cells) in
    let read : load cells i ≡ ok x = load-append front (xs ++ tail) x i e in
    let further : (t : List ℕ) → rest t ≡ ok (t ++ places compar (i + 1) xs) = λ t.
      ap (λ c. for_range (length xs) (suc i) (track_round compar c) t)
        (sym (append_assoc front (x ∷ []) (xs ++ tail)))
      ∙ track_lem compar xs (front ++ x ∷ []) tail (suc i) t
          (omega (arith, e, length-append front (x ∷ [])))
      ∙ ap (λ k. ok (t ++ places compar k xs)) {y = i + 1} (omega arith) in
    elim (Bool-cases (compar x)) [
      | inl passes ↦ rw (read, passes) (further track)
      | inr fails ↦
          rw (read, fails)
            (further (track ++ i ∷ [])
              ∙ ap ok (append_assoc track (i ∷ []) (places compar (i + 1) xs)))
    ]

pub erase_at_lem :
    (sl : Strlist) (front : List Elem) (x : Elem) (rest : List Elem) (idx : ℕ) (rmext : Bool)
    → sl.elvec ≡ front ++ x ∷ rest
    → idx ≡ length front
    → strlist_erase_at sl idx rmext
      ≡ ok (record sl { elvec = front ++ erased sl.dupstr rmext x ∷ rest })
unfolding strlist_erase_at
erase_at_lem sl front x rest idx rmext e h =
    ap
      (λ c. load c idx >>= λ el.
        store c idx (erased sl.dupstr rmext el) >>= λ c'. ok (record sl { elvec = c' }))
      e
    ∙ rw
        (load-append front rest x idx h, store-append front rest x (erased sl.dupstr rmext x) idx h)

-- Moving a run of elements back over stale cells.
pub move_lem :
    (run front stale rest : List Elem) (iii ii : ℕ)
    → length stale ≡ iii
    → 0 < iii
    → length front + iii ≡ ii
    → (stale' : List Elem) × (for_range
          (length run)
          ii
          (move_back iii)
          (front ++ (stale ++ (run ++ rest)))
        ≡ ok (front ++ (run ++ (stale' ++ rest))))
      × (length stale' ≡ iii)
unfolding for_range move_back
move_lem [] front stale rest iii ii hs pos hi = (stale, refl, hs)
move_lem (r ∷ run) front stale rest iii ii hs pos hi =
    let f : First stale (iii - 1) = first stale (iii - 1) (omega arith) in
    let later : List Elem = run ++ rest in
    let read : load (front ++ (stale ++ r ∷ later)) ii ≡ ok r =
      ap (λ c. load c ii) (sym (append_assoc front stale (r ∷ later)))
      ∙ load-append (front ++ stale) later r ii (omega (arith, length-append front stale)) in
    let written : store (front ++ (stale ++ r ∷ later)) (ii - iii) r
        ≡ ok (front ++ r ∷ (f.1.0 ++ r ∷ later)) =
      ap (λ z. store (front ++ (z ++ r ∷ later)) (ii - iii) r) f.1.1.0
      ∙ store-append front (f.1.0 ++ r ∷ later) f.0 r (ii - iii) (omega arith) in
    let shifted : front ++ r ∷ (f.1.0 ++ r ∷ later)
        ≡ (front ++ r ∷ []) ++ ((f.1.0 ++ r ∷ []) ++ later) =
      ap (λ z. front ++ r ∷ z) (sym (append_assoc f.1.0 (r ∷ []) later))
      ∙ sym (append_assoc front (r ∷ []) _) in
    let t =
      move_lem run (front ++ r ∷ []) (f.1.0 ++ r ∷ []) rest iii (suc ii)
        (omega (arith, f.1.1.1, length-append f.1.0 (r ∷ []))) pos
        (omega (arith, length-append front (r ∷ []))) in
    (
      t.0,
      rw (read, written)
          (ap (for_range (length run) (suc ii) (move_back iii)) shifted
            ∙ t.1
            ∙ ap ok (append_assoc front (r ∷ []) (run ++ (t.0 ++ rest)))),
      t.2,
    )

-- The run of elements that pass, and the next one that does not.
abbrev pub Ahead : (Elem → Bool) → ℕ → List Elem → Type 0
Ahead compar i xs =
    (run : List Elem) × (x : Elem) × (xs' : List Elem) × (xs ≡ run ++ x ∷ xs')
    × (places compar i xs ≡ (i + length run) ∷ places compar (i + length run + 1) xs')
    × (kept compar xs ≡ run ++ kept compar xs')
    × EndsRejected compar xs'

ends_tail :
    (compar : Elem → Bool) (x : Elem) (xs : List Elem)
    → EndsRejected compar (x ∷ xs)
    → EndsRejected compar xs
ends_tail compar x [] h = tt
ends_tail compar x (y ∷ xs) h = h

found_here :
    (compar : Elem → Bool) (i : ℕ) (x : Elem) (xs : List Elem)
    → compar x ≡ false
    → EndsRejected compar (x ∷ xs)
    → Ahead compar i (x ∷ xs)
unfolding places kept
found_here compar i x xs fails h = (
  [],
  x,
  xs,
  refl,
  rw (fails) (ap (λ k. k ∷ places compar (k + 1) xs) {y = i + 0} (omega arith)),
  rw (fails),
  ends_tail compar x xs h,
)

found_further :
    (compar : Elem → Bool) (i : ℕ) (x : Elem) (xs : List Elem)
    → compar x ≡ true
    → Ahead compar (i + 1) xs
    → Ahead compar i (x ∷ xs)
unfolding places kept
found_further compar i x xs passes (run, y, ys, split, at, keeps, ends) = (
  x ∷ run,
  y,
  ys,
  ap (◌∷◌ x) split,
  rw (passes)
      (at ∙ ap (λ k. k ∷ places compar (k + 1) ys) {y = i + length (x ∷ run)} (omega arith)),
  rw (passes, keeps),
  ends,
)

pub find_rejected :
    (compar : Elem → Bool) (i : ℕ) (x : Elem) (xs : List Elem)
    → EndsRejected compar (x ∷ xs)
    → Ahead compar i (x ∷ xs)
find_rejected compar i x [] h = found_here compar i x [] h h
find_rejected compar i x (y ∷ xs) h = elim (Bool-cases (compar x)) [
  | inl passes ↦ found_further compar i x (y ∷ xs) passes (find_rejected compar (i + 1) y xs h)
  | inr fails ↦ found_here compar i x (y ∷ xs) fails h
]
