-- ===== src/Text/Prefix.antt =====
-- starts_with, skip_prefix and concat against appending.
use pass_keeper.Prelude.{
  wrap, ◌^◌, ◌<◌, ℕ, ◌+◌, ◌≤◌, ◌≡◌, refl, sym, ap, ap₂, subst, ◌∙◌, ◌↔◌, inl, inr, true, false,
  List, [], ◌∷◌, ◌++◌, append_assoc, Option, none, some, arith, Bool-cases, ==_iff, ok,
  if◌then◌else◌, ◌==◌, length, length-append, store, store-append, copy_to, copy_to-append, drop,
  drop-append, replicate, length-replicate, replicate_add,
}
use pass_keeper.Text.{starts_with, skip_prefix, concat}

none≢some : {rest : List ℕ} → none ≡ some rest → 1 ≤ 0
none≢some e = subst (λ o. 1 ≤ size o) (sym e) (omega arith)
  where
    size : Option (List ℕ) → ℕ
    size none = 0
    size (some _) = 1

unsome : {a b : List ℕ} → some a ≡ some b → a ≡ b
unsome {a} e = ap (λ o. elim o [ none ↦ a | some x ↦ x ]) e

tail_of : List ℕ → List ℕ
tail_of [] = []
tail_of (c ∷ s) = s

head_of : List ℕ → ℕ
head_of [] = 0
head_of (c ∷ s) = c

skipped : (str prefix rest : List ℕ) → skip_prefix str prefix ≡ some rest → str ≡ prefix ++ rest
unfolding skip_prefix
skipped str [] rest e = unsome e
skipped [] (p ∷ prefix) rest e = absurd (omega (arith, none≢some e))
skipped (c ∷ str) (p ∷ prefix) rest e = elim (Bool-cases (c == p)) [
  | inl same ↦ ap₂ ◌∷◌ ((==_iff c p).0 same) (
      skipped str prefix rest
        (subst (λ b. (if b then skip_prefix str prefix else none) ≡ some rest) same e))
  | inr differs ↦ absurd (
      omega (
        arith,
        none≢some (subst (λ b. (if b then skip_prefix str prefix else none) ≡ some rest) differs e),
      ))
]

skips : (prefix rest : List ℕ) → skip_prefix (prefix ++ rest) prefix ≡ some rest
unfolding skip_prefix
skips [] rest = refl
skips (p ∷ prefix) rest = rw ((==_iff p p).1 refl) (skips prefix rest)

starts-skips :
    (str prefix : List ℕ)
    → starts_with str prefix ≡ elim (skip_prefix str prefix) [ none ↦ false | some _ ↦ true ]
unfolding starts_with skip_prefix
starts-skips str [] = refl
starts-skips [] (p ∷ prefix) = refl
starts-skips (c ∷ str) (p ∷ prefix) = elim (Bool-cases (c == p)) [
  | inl same ↦ rw (same) (starts-skips str prefix)
  | inr differs ↦ rw (differs)
]

-- skip_prefix answers with the rest exactly where the string is the prefix and that rest, and
-- starts_with tells whether it does.
pub skip_prefix_lem :
    (str prefix rest : List ℕ)
    → ((skip_prefix str prefix ≡ some rest) ↔ (str ≡ prefix ++ rest))
      × (starts_with str prefix ≡ elim (skip_prefix str prefix) [ none ↦ false | some _ ↦ true ])
skip_prefix_lem str prefix rest = (
  (skipped str prefix rest, λ e. ap (λ s. skip_prefix s prefix) e ∙ skips prefix rest),
  starts-skips str prefix,
)

-- concat copies both strings behind each other, with a NUL at the end, and fills its array, where
-- the length of both and the NUL is below 2^64.
pub concat_lem :
    (junk : ℕ) (str1 str2 : List ℕ)
    → length str1 + length str2 + 1 < 2 ^ 64
    → concat junk str1 str2 ≡ ok (str1 ++ (str2 ++ 0 ∷ []))
unfolding concat
concat_lem junk str1 str2 small =
    let n : ℕ = length str1 in
    let m : ℕ = length str2 in
    let unwrapped : wrap (n + m) ≡ n + m = omega arith in
    let unwrapped' : wrap (n + m + 1) ≡ n + m + 1 = omega arith in
    let gap1 : List ℕ = replicate n junk in
    let gap2 : List ℕ = replicate m junk in
    let fresh : replicate (n + m + 1) junk ≡ gap1 ++ (gap2 ++ junk ∷ []) =
      ap (λ k. replicate k junk) {y = n + (m + 1)} (omega arith)
      ∙ replicate_add n (m + 1) junk
      ∙ ap (gap1 ++◌) (replicate_add m 1 junk) in
    let len1 : length gap1 ≡ n = length-replicate n junk in
    let len2 : length gap2 ≡ m = length-replicate m junk in
    let tail : List ℕ = gap2 ++ junk ∷ [] in
    let first : copy_to (gap1 ++ tail) 0 str1 ≡ ok (str1 ++ tail) =
      copy_to-append [] (gap1 ++ tail) str1 0 refl (omega (arith, len1, length-append gap1 tail))
      ∙ ap (λ z. ok (str1 ++ z))
          (ap (λ k. drop k (gap1 ++ tail)) (sym len1) ∙ drop-append gap1 tail) in
    let second : copy_to (str1 ++ tail) n str2 ≡ ok (str1 ++ (str2 ++ junk ∷ [])) =
      copy_to-append str1 tail str2 n refl (omega (arith, len2, length-append gap2 (junk ∷ [])))
      ∙ ap (λ z. ok (str1 ++ (str2 ++ z)))
          (ap (λ k. drop k tail) (sym len2) ∙ drop-append gap2 (junk ∷ [])) in
    let third : store (str1 ++ (str2 ++ junk ∷ [])) (n + m) 0 ≡ ok (str1 ++ (str2 ++ 0 ∷ [])) =
      ap (λ z. store z (n + m) 0) (sym (append_assoc str1 str2 (junk ∷ [])))
      ∙ store-append (str1 ++ str2) [] junk 0 (n + m) (omega (arith, length-append str1 str2))
      ∙ ap ok (append_assoc str1 str2 (0 ∷ [])) in
    rw (unwrapped, unwrapped', fresh, first, second, third)
