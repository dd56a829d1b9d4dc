-- ===== src/Strlist/Split.antt =====
-- strlist_split against the fields of a string.
use pass_keeper.Prelude.{
  ℕ, zero, suc, ◌+◌, ◌-◌, ◌^◌, ◌<◌, ◌≡◌, refl, sym, ap, subst, ◌∙◌, inl, inr, true, false, not,
  List, [], ◌∷◌, ◌++◌, append_assoc, map, Option, none, some, arith, Bool-cases, Option-cases, ok,
  bugged, ◌>>=◌, Returns, Returns-bind, Returns-map, if◌then◌else◌, ◌==◌, length, length-append,
}
use mathlib.Core.Bool.{false≢true}
use pass_keeper.Strlist.{
  Strlist, Elem, live, strchr, is_last_split, split_loop, strlist_split, strlist_push,
  strlist_push_nodup,
}
use pass_keeper.Strlist.Holding.{Holds, of_str, push_nodup_lem}
use pass_keeper.Strlist.Fields.{can_cut, less, fields, cuts_left, fields_uncut, Chr, fields-strchr}

-- The list gains the fields, and the count grows by their number.
abbrev pub Splitting : Strlist → List Elem → ℕ → List (List ℕ) → Strlist × ℕ → Type 0
Splitting sl xs count pieces r = Holds r.0 (xs ++ map of_str pieces) × (r.1 ≡ count + length pieces)

-- The last field.
split_last :
    (junk : Elem) (sl : Strlist) (xs : List Elem) (str : List ℕ) (count : ℕ)
    → Holds sl xs
    → length xs < 2 ^ 55
    → Returns
        (Splitting sl xs count (str ∷ []))
        (strlist_push junk sl str >>= λ pushed. ok (pushed.0, count + 1))
unfolding strlist_push
split_last junk sl xs str count h small =
    Returns-bind _ _ (push_nodup_lem junk sl xs str h small)
      λ r q. ((r.0, count + 1), refl, (q.0, refl))

abbrev LoopHolds : ℕ → Type 0
LoopHolds fuel =
    (junk : Elem) (sl : Strlist) (xs : List Elem) (str : List ℕ) (delim : ℕ) (maxsplit : Option ℕ)
    (count : ℕ)
    → Holds sl xs
    → (delim == 0) ≡ false
    → length str < fuel
    → length xs + length str < 2 ^ 55
    → Returns (Splitting sl xs count (fields delim (cuts_left maxsplit count) str))
        (split_loop fuel junk sl str delim maxsplit count)

-- One cut, and the rounds that follow it.
split_cut :
    (fuel : ℕ)
    → LoopHolds fuel
    → (junk : Elem) (sl : Strlist) (xs : List Elem) (str piece rest : List ℕ) (delim : ℕ)
      (maxsplit : Option ℕ) (count : ℕ)
    → Holds sl xs
    → (delim == 0) ≡ false
    → length rest < length str
    → length str < suc fuel
    → length xs + length str < 2 ^ 55
    → Returns (Splitting sl xs count (piece ∷ fields delim (cuts_left maxsplit (count + 1)) rest)) (
        strlist_push_nodup junk sl (live piece) >>= λ pushed.
        split_loop fuel junk pushed.0 rest delim maxsplit (count + 1))
split_cut fuel next junk sl xs str piece rest delim maxsplit count h nz shorter enough small =
    let pieces : List (List ℕ) = fields delim (cuts_left maxsplit (count + 1)) rest in
    Returns-bind _ _ (push_nodup_lem junk sl xs piece h (omega (arith, small))) λ r q.
      Returns-map
        (next junk r.0 (xs ++ of_str piece ∷ []) rest delim maxsplit (count + 1) q.0 nz
          (omega (arith, shorter, enough))
          (omega (arith, shorter, small, length-append xs (of_str piece ∷ []))))
        λ t p. (
          subst (Holds t.0) (append_assoc xs (of_str piece ∷ []) (map of_str pieces)) p.0,
          omega (arith, p.1),
        )

cuts_spent :
    (maxsplit : Option ℕ) (count : ℕ)
    → is_last_split maxsplit (count + 1) ≡ true
    → cuts_left maxsplit count ≡ some 0
unfolding is_last_split
cuts_spent none count e = absurd (false≢true e)
cuts_spent (some m) count e = ap some (ground (arith, e))

cuts_remain :
    (maxsplit : Option ℕ) (count : ℕ)
    → is_last_split maxsplit (count + 1) ≡ false
    → (can_cut (cuts_left maxsplit count) ≡ true)
      × (less (cuts_left maxsplit count) ≡ cuts_left maxsplit (count + 1))
unfolding is_last_split
cuts_remain none count e = (refl, refl)
cuts_remain (some m) count e =
    go (m - (count + 1)) (m - (count + 1 + 1)) (ground (arith, e)) (omega arith)
  where
    go : (n k : ℕ) → 0 < n → k ≡ n - 1 → (can_cut (some n) ≡ true) × (less (some n) ≡ some k)
    go zero k pos h = absurd (omega arith)
    go (suc n) k pos h = (refl, ap some (omega arith))

split_loop_lem : (fuel : ℕ) → LoopHolds fuel
unfolding split_loop
split_loop_lem zero junk sl xs str delim maxsplit count h nz enough small = absurd (omega arith)
split_loop_lem (suc fuel) junk sl xs str delim maxsplit count h nz enough small =
    elim (Bool-cases (is_last_split maxsplit (count + 1))) [
      | inl last ↦
          subst answers
            (sym (
              ap (λ cuts. fields delim cuts str) (cuts_spent maxsplit count last)
              ∙ fields_uncut delim str))
            (rw (split_loop, last) (split_last junk sl xs str count h (omega arith)))
      | inr more ↦
          let remain = cuts_remain maxsplit count more in
          let agree = fields-strchr delim (cuts_left maxsplit count) str remain.0 in
          elim (Option-cases (strchr delim str)) [
            | inl missing ↦ subst answers (sym (subst (Chr delim _ str) missing agree)) (
                rw (split_loop, more, missing, nz)
                  (split_last junk sl xs str count h (omega arith)))
            | inr found ↦
                let halves : List ℕ × List ℕ = found.0 in
                let cut = subst (Chr delim _ str) found.1 agree in
                subst answers
                  (sym (cut.0 ∙ ap (λ cuts. halves.0 ∷ fields delim cuts halves.1) remain.1))
                  (rw (split_loop, more, found.1)
                    (split_cut fuel (split_loop_lem fuel) junk sl xs str halves.0 halves.1 delim
                      maxsplit count h nz cut.1 enough small))
          ]
    ]
  where
    answers : List (List ℕ) → Type 0
    answers pieces =
        Returns (Splitting sl xs count pieces)
          (split_loop (suc fuel) junk sl str delim maxsplit count)

-- strlist_split appends the fields of the string, cut from the left at most maxsplit - 1 times,
-- to a list that owns its strings, and answers with their number; the delimiter is no NUL, and
-- list and string have fewer than 2^55 elements.
pub split_lem :
    (junk : Elem) (sl : Strlist) (xs : List Elem) (str : List ℕ) (delim : ℕ) (maxsplit : Option ℕ)
    → Holds sl xs
    → sl.dupstr ≡ true
    → (delim == 0) ≡ false
    → length xs + length str < 2 ^ 55
    → Returns
        (Splitting sl xs 0 (fields delim (cuts_left maxsplit 0) str))
        (strlist_split junk sl str delim maxsplit)
unfolding strlist_split
split_lem junk sl xs str delim maxsplit h dup nz small =
    let loop = split_loop (length str + 1) junk sl str delim maxsplit 0 in
    let pieces : List (List ℕ) = fields delim (cuts_left maxsplit 0) str in
    subst (λ b. Returns (Splitting sl xs 0 pieces) (if not b then bugged else loop)) (sym dup)
      (split_loop_lem (length str + 1) junk sl xs str delim maxsplit 0 h nz (omega arith) small)
