-- ===== src/Strlist/Fields.antt =====
-- The fields of a string, and that strchr finds the first of them.
use pass_keeper.Prelude.{
  ℕ, zero, suc, ◌+◌, ◌-◌, ◌<◌, ◌≡◌, refl, sym, ap, ap₂, subst, ◌∙◌, inl, inr, Bool, true, false,
  ◌&&◌, List, [], ◌∷◌, Option, none, some, arith, Bool-cases, if◌then◌else◌, ◌==◌, length,
}
use pass_keeper.Strlist.{strchr}

-- How many cuts may be made; none is no limit.
abbrev pub can_cut : Option ℕ → Bool
can_cut none = true
can_cut (some zero) = false
can_cut (some (suc cuts)) = true

abbrev pub less : Option ℕ → Option ℕ
less none = none
less (some zero) = some zero
less (some (suc cuts)) = some cuts

-- A character in front of the first field.
abbrev pub glue : ℕ → List (List ℕ) → List (List ℕ)
glue c [] = (c ∷ []) ∷ []
glue c (field ∷ fields) = (c ∷ field) ∷ fields

-- The fields between the delimiters, cut from the left.
unfoldable pub fields : (delim : ℕ) → (cuts : Option ℕ) → List ℕ → List (List ℕ)
fields delim cuts [] = [] ∷ []
fields delim cuts (c ∷ str) =
    if c == delim && can_cut cuts
    then [] ∷ fields delim (less cuts) str
    else glue c (fields delim cuts str)

-- The cuts that strlist_split has left after `count` fields.
abbrev pub cuts_left : Option ℕ → ℕ → Option ℕ
cuts_left none count = none
cuts_left (some maxsplit) count = some (maxsplit - (count + 1))

pub fields_nil : (delim : ℕ) (cuts : Option ℕ) → fields delim cuts [] ≡ [] ∷ []
unfolding fields
fields_nil delim cuts = refl

pub fields_cut :
    (delim c : ℕ) (cuts : Option ℕ) (str : List ℕ)
    → (c == delim && can_cut cuts) ≡ true
    → fields delim cuts (c ∷ str) ≡ [] ∷ fields delim (less cuts) str
unfolding fields
fields_cut delim c cuts str e =
    ap (λ b. if b then [] ∷ fields delim (less cuts) str else glue c (fields delim cuts str)) e

pub fields-glue :
    (delim c : ℕ) (cuts : Option ℕ) (str : List ℕ)
    → (c == delim && can_cut cuts) ≡ false
    → fields delim cuts (c ∷ str) ≡ glue c (fields delim cuts str)
unfolding fields
fields-glue delim c cuts str e =
    ap (λ b. if b then [] ∷ fields delim (less cuts) str else glue c (fields delim cuts str)) e

pub fields_uncut : (delim : ℕ) (str : List ℕ) → fields delim (some 0) str ≡ str ∷ []
fields_uncut delim [] = fields_nil delim (some 0)
fields_uncut delim (c ∷ str) =
    fields-glue delim c (some 0) str (never (c == delim)) ∙ ap (glue c) (fields_uncut delim str)
  where
    never : (b : Bool) → (b && false) ≡ false
    never true = refl
    never false = refl

-- A character in front of what strchr found.
abbrev shifted : ℕ → Option (List ℕ × List ℕ) → Option (List ℕ × List ℕ)
shifted c none = none
shifted c (some halves) = some (c ∷ halves.0, halves.1)

strchr_here :
    (delim c : ℕ) (str : List ℕ) → (c == delim) ≡ true → strchr delim (c ∷ str) ≡ some ([], str)
unfolding strchr
strchr_here delim c str e = rw (e)

strchr_further :
    (delim c : ℕ) (str : List ℕ)
    → (c == delim) ≡ false
    → strchr delim (c ∷ str) ≡ shifted c (strchr delim str)
unfolding strchr
strchr_further delim c str e = rw (e) (go (strchr delim str))
  where
    go :
        (r : Option (List ℕ × List ℕ))
        → elim r [ none ↦ none | some halves ↦ some (c ∷ halves.0, halves.1) ] ≡ shifted c r
    go none = refl
    go (some halves) = refl

-- strchr and the fields agree on the first delimiter.
abbrev pub Chr : ℕ → Option ℕ → List ℕ → Option (List ℕ × List ℕ) → Type 0
Chr delim cuts str none = fields delim cuts str ≡ str ∷ []
Chr delim cuts str (some halves) =
    (fields delim cuts str ≡ halves.0 ∷ fields delim (less cuts) halves.1)
    × (length halves.1 < length str)

Chr-shifted :
    (delim c : ℕ) (cuts : Option ℕ) (str : List ℕ) (r : Option (List ℕ × List ℕ))
    → (c == delim) ≡ false
    → Chr delim cuts str r
    → Chr delim cuts (c ∷ str) (shifted c r)
Chr-shifted delim c cuts str none e q =
    fields-glue delim c cuts str (ap (λ b. b && can_cut cuts) e) ∙ ap (glue c) q
Chr-shifted delim c cuts str (some halves) e q = (
  fields-glue delim c cuts str (ap (λ b. b && can_cut cuts) e) ∙ ap (glue c) q.0,
  omega (arith, q.1),
)

pub fields-strchr :
    (delim : ℕ) (cuts : Option ℕ) (str : List ℕ)
    → can_cut cuts ≡ true
    → Chr delim cuts str (strchr delim str)
unfolding strchr
fields-strchr delim cuts [] h = fields_nil delim cuts
fields-strchr delim cuts (c ∷ str) h = elim (Bool-cases (c == delim)) [
  | inl e ↦
      subst (Chr delim cuts (c ∷ str)) (sym (strchr_here delim c str e))
        (fields_cut delim c cuts str (ap₂ ◌&&◌ e h), omega arith)
  | inr e ↦
      subst (Chr delim cuts (c ∷ str)) (sym (strchr_further delim c str e))
        (Chr-shifted delim c cuts str (strchr delim str) e (fields-strchr delim cuts str h))
]
