-- ===== src/Strlist/Join/RoundTrip.antt =====
-- A string that strlist_split cuts and strlist_join puts together again.
use pass_keeper.Prelude.{
  ℕ, ◌+◌, ◌-◌, ◌^◌, ◌<◌, ◌≡◌, refl, sym, ap, ap₂, subst, ◌∙◌, inl, inr, Bool, true, false, ◌&&◌,
  List, [], ◌∷◌, ◌++◌, append-nil, map, Option, arith, Bool-cases, ==_iff, ◌>>=◌, Returns,
  Returns-bind, Returns-map, ◌==◌, length, length-append,
}
use pass_keeper.Strlist.{Elem, strlist_split, init_dupstr}
use pass_keeper.Strlist.Holding.{Holds, of_str}
use pass_keeper.Strlist.Fields.{
  fields, fields_nil, fields_cut, fields-glue, can_cut, less, glue, cuts_left,
}
use pass_keeper.Strlist.Split.{Splitting, split_lem}
use pass_keeper.Strlist.Join.{ext_join_none, strlist_join, chars, ext_chars, head_ext, tail_ext}
use pass_keeper.Strlist.Join.Whole.{joined, ended, ended-joined, ShownAll, join-ShownAll}

abbrev FieldsCons : ℕ → Option ℕ → List ℕ → Type 0
FieldsCons delim cuts str =
    (piece : List ℕ) × (pieces : List (List ℕ)) × (fields delim cuts str ≡ piece ∷ pieces)

fields_cons : (delim : ℕ) (cuts : Option ℕ) (str : List ℕ) → FieldsCons delim cuts str
fields_cons delim cuts [] = ([], [], fields_nil delim cuts)
fields_cons delim cuts (c ∷ str) = elim (Bool-cases (c == delim && can_cut cuts)) [
  | inl cut ↦ ([], fields delim (less cuts) str, fields_cut delim c cuts str cut)
  | inr keep ↦
      let r : FieldsCons delim cuts str = fields_cons delim cuts str in
      (c ∷ r.0, r.1, fields-glue delim c cuts str keep ∙ ap (glue c) r.2)
]

joined-glue :
    (separator : List ℕ) (c : ℕ) (pieces : List (List ℕ))
    → joined separator (glue c pieces) ≡ c ∷ joined separator pieces
unfolding joined
joined-glue separator c [] = refl
joined-glue separator c (piece ∷ []) = refl
joined-glue separator c (piece ∷ (next ∷ pieces)) = refl

joined-cut :
    (delim : ℕ) (piece : List ℕ) (pieces : List (List ℕ))
    → joined (delim ∷ []) ([] ∷ (piece ∷ pieces)) ≡ delim ∷ joined (delim ∷ []) (piece ∷ pieces)
unfolding joined
joined-cut delim piece pieces = refl

joined-fields :
    (delim : ℕ) (cuts : Option ℕ) (str : List ℕ) → joined (delim ∷ []) (fields delim cuts str) ≡ str
unfolding joined
joined-fields delim cuts [] = ap (joined (delim ∷ [])) (fields_nil delim cuts)
joined-fields delim cuts (c ∷ str) = elim (Bool-cases (c == delim && can_cut cuts)) [
  | inl cut ↦
      let sep : List ℕ = delim ∷ [] in
      let rest : List (List ℕ) = fields delim (less cuts) str in
      let r : FieldsCons delim (less cuts) str = fields_cons delim (less cuts) str in
      ap (joined sep) (fields_cut delim c cuts str cut ∙ ap ([] ∷◌) r.2)
      ∙ joined-cut delim r.0 r.1
      ∙ ap₂ ◌∷◌ (sym ((==_iff c delim).0 (first_holds _ _ cut)))
          (ap (joined sep) (sym r.2) ∙ joined-fields delim (less cuts) str)
  | inr keep ↦
      ap (joined (delim ∷ [])) (fields-glue delim c cuts str keep)
      ∙ joined-glue (delim ∷ []) c (fields delim cuts str)
      ∙ ap (◌∷◌ c) (joined-fields delim cuts str)
]
  where
    first_holds : (p q : Bool) → (p && q) ≡ true → p ≡ true
    first_holds p q e = ground arith

shown_strings : (pieces : List (List ℕ)) → ShownAll ext_join_none (map of_str pieces) pieces
unfolding chars ext_chars head_ext tail_ext
shown_strings [] = tt
shown_strings (piece ∷ pieces) =
    ((piece, [], refl, refl, sym (append-nil piece)), shown_strings pieces)

-- Joining what strlist_split made of a string of fewer than 2^55 - 1 characters with the
-- delimiter gives the string and a NUL, however many splits are allowed; the delimiter is no NUL.
pub join-split :
    (junk : Elem) (junk_byte : ℕ) (str : List ℕ) (delim : ℕ) (maxsplit : Option ℕ)
    → (delim == 0) ≡ false
    → length str < 2 ^ 55 - 1
    → Returns
        (λ buf. (rest : List ℕ) × (buf ≡ str ++ 0 ∷ rest))
        (do
          (sl, count) ← strlist_split junk init_dupstr str delim maxsplit
          strlist_join junk_byte sl (delim ∷ []) ext_join_none)
join-split junk junk_byte str delim maxsplit nz small =
    let sep : List ℕ = delim ∷ [] in
    let cuts : Option ℕ = cuts_left maxsplit 0 in
    let r : FieldsCons delim cuts str = fields_cons delim cuts str in
    let back : joined sep (r.0 ∷ r.1) ≡ str =
      ap (joined sep) (sym r.2) ∙ joined-fields delim cuts str in
    let len : length (ended sep (r.0 ∷ r.1)) ≡ length str + 1 =
      ap length (ended-joined sep r.0 r.1) ∙ length-append _ sep ∙ ap (λ z. length z + 1) back in
    let split =
      split_lem junk init_dupstr [] str delim maxsplit ([], refl, refl, refl) refl nz
        (omega (arith, small)) in
    Returns-bind _ _ split λ s (q : Splitting init_dupstr [] 0 (fields delim cuts str) s).
      Returns-map
        (join-ShownAll junk_byte s.0 (map of_str (r.0 ∷ r.1)) delim [] ext_join_none r.0 r.1
          (subst (λ ps. Holds s.0 (map of_str ps)) r.2 q.0) (shown_strings (r.0 ∷ r.1))
          (omega (arith, len, small)))
        λ buf t. (t.0, t.1 ∙ ap (λ z. z ++ 0 ∷ t.0) back)
