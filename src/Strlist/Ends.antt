-- ===== src/Strlist/Ends.antt =====
-- strlist_push, strlist_pop and strlist_trunc at the end of a list.
use pass_keeper.Prelude.{
  ℕ, zero, suc, ◌+◌, ◌-◌, ◌^◌, ◌≤◌, ◌<◌, ◌≡◌, refl, sym, ap, ◌∙◌, Bool, false, List, [], ◌∷◌, ◌++◌,
  append_assoc, none, some, arith, ok, ◌>>=◌, Returns, Returns-bind, Returns-map, if◌then◌else◌,
  ◌==◌, length, length-append, length-set, set, get_or, load, store_lem, load-get_or, load-append,
}
use pass_keeper.Strlist.{
  Strlist, Elem, Str, Ext, erased, erase_loop, strlist_erase_at, strlist_trunc, strlist_pop,
  strlist_push,
}
use pass_keeper.Strlist.Holding.{Holds, of_str, push_nodup_lem}

pop_lem :
    (sl : Strlist) (xs : List Elem) (x : Elem)
    → Holds sl (xs ++ x ∷ [])
    → strlist_pop sl ≡ ok (some x, record sl { size = sl.size - 1 })
unfolding strlist_pop
pop_lem sl xs x (tail, cells, size_eq, cap_eq) =
    let len : length (xs ++ x ∷ []) ≡ length xs + 1 = length-append xs (x ∷ []) in
    let some_left : (sl.size == 0) ≡ false = ground (arith, size_eq, len) in
    let read : load sl.elvec (sl.size - 1) ≡ ok x =
      ap (λ c. load c (sl.size - 1)) (cells ∙ append_assoc xs (x ∷ []) tail)
      ∙ load-append xs tail x (sl.size - 1) (omega (arith, size_eq, len)) in
    ap
      (λ b.
        if b
        then ok (none, sl)
        else (load sl.elvec (sl.size - 1) >>= λ el. ok (some el, record sl { size = sl.size - 1 })))
      some_left
    ∙ ap (λ r. r >>= λ el. ok (some el, record sl { size = sl.size - 1 })) read

-- What is pushed on a list of fewer than 2^55 elements is what the next pop gives, and the list
-- holds afterwards what it held before.
pub pop-push :
    (junk : Elem) (sl : Strlist) (xs : List Elem) (str : List ℕ)
    → Holds sl xs
    → length xs < 2 ^ 55
    → Returns
        (λ r. (r.0 ≡ some (of_str str)) × Holds r.1 xs)
        (strlist_push junk sl str >>= λ pushed. strlist_pop pushed.0)
unfolding strlist_push
pop-push junk sl xs str h small =
    Returns-bind _ _ (push_nodup_lem junk sl xs str h small) λ pushed q.
      let held : Holds pushed.0 (xs ++ of_str str ∷ []) = q.0 in
      (
        (some (of_str str), record (pushed.0) { size = pushed.0.size - 1 }),
        pop_lem pushed.0 xs (of_str str) held,
        (
          refl,
          (
            of_str str ∷ held.0,
            held.1 ∙ append_assoc xs (of_str str ∷ []) held.0,
            omega (arith, held.2, length-append xs (of_str str ∷ [])),
            held.3,
          ),
        ),
      )

-- A list of some size, in cells of some number.
abbrev Sized : ℕ → ℕ → Strlist → Type 0
Sized n cells sl = (sl.size ≡ n) × (length sl.elvec ≡ cells) × (sl.capacity ≡ cells)

erase_loop_lem :
    (n cells : ℕ) (sl : Strlist) (rmext : Bool)
    → n ≤ cells
    → Sized n cells sl
    → Returns (Sized 0 cells) (erase_loop n sl rmext)
unfolding erase_loop strlist_erase_at
erase_loop_lem zero cells sl rmext fits sized = (sl, refl, sized)
erase_loop_lem (suc n) cells sl rmext fits sized =
    let el : Elem = get_or sl.elvec n (record { str = Str.dangling; ext = Ext.no_ext }) in
    let inside : n < length sl.elvec = omega (arith, sized.1) in
    let dead : Elem = erased sl.dupstr rmext el in
    let sl' : Strlist = record sl { elvec = set sl.elvec n dead; size = n } in
    rw
      (
        load-get_or sl.elvec n (record { str = Str.dangling; ext = Ext.no_ext }) inside,
        store_lem sl.elvec n dead inside,
      )
      (erase_loop_lem n cells sl' rmext (omega arith)
        (refl, length-set sl.elvec n dead ∙ sized.1, sized.2))

-- strlist_trunc empties the list, whatever it holds, and keeps its memory.
trunc_empties :
    (sl : Strlist) (xs : List Elem) (rmext : Bool)
    → Holds sl xs
    → Returns (λ sl'. Holds sl' [] × (sl'.capacity ≡ sl.capacity)) (strlist_trunc sl rmext)
unfolding strlist_trunc
trunc_empties sl xs rmext (tail, cells, size_eq, cap_eq) =
    let fits : sl.size ≤ length sl.elvec =
      omega (arith, size_eq, ap length cells, length-append xs tail) in
    Returns-map (erase_loop_lem sl.size (length sl.elvec) sl rmext fits (refl, refl, cap_eq))
      λ sl' q. ((sl'.elvec, refl, q.0, q.2 ∙ sym q.1), q.2 ∙ sym cap_eq)
