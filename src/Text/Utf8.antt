-- ===== src/Text/Utf8.antt =====
-- u8substr against the bytes of whole characters.
use pass_keeper.Prelude.{
  ℕ, zero, suc, ◌+◌, ◌-◌, ◌≤◌, ◌<◌, ◌≡◌, refl, sym, ap, subst, ◌∙◌, inl, inr, true, false, List, [],
  ◌∷◌, ◌++◌, append-nil, Option, none, some, arith, Bool-cases, Outcome, ok, bugged, Returns,
  if◌then◌else◌, length, length-append, store-append, copy_to, copy_to-append, copy_from-append,
  drop, drop-append, replicate, length-replicate, replicate_add,
}
use pass_keeper.Text.{is_start_byte, copy_part, u8substr, u8strlen}
use pass_keeper.Text.Scanning.{from_char, take_chars, part, Scanned, from_here, scan_lem}

-- The part is the beginning of what it is taken from.
split_chars : (n : ℕ) (str : List ℕ) → (rest : List ℕ) × (str ≡ take_chars n str ++ rest)
unfolding take_chars
split_chars n [] = ([], refl)
split_chars zero (c ∷ str) = elim (Bool-cases (is_start_byte c)) [
  | inl starts ↦ rw (starts) (c ∷ str, refl)
  | inr inside ↦ let r = split_chars zero str in rw (inside) (r.0, ap (◌∷◌ c) r.1)
]
split_chars (suc n) (c ∷ str) = elim (Bool-cases (is_start_byte c)) [
  | inl starts ↦ let r = split_chars n str in rw (starts) (r.0, ap (◌∷◌ c) r.1)
  | inr inside ↦ let r = split_chars (suc n) str in rw (inside) (r.0, ap (◌∷◌ c) r.1)
]

split_part : (n : ℕ) (str : List ℕ) → (rest : List ℕ) × (str ≡ part n str ++ rest)
split_part zero str = ([], sym (append-nil str))
split_part (suc n) str = split_chars (suc n) str

copy_part_lem :
    (junk : ℕ) (front bytes rest : List ℕ) (head iter : ℕ)
    → head ≡ length front
    → iter ≡ length front + length bytes
    → copy_part junk (front ++ (bytes ++ rest)) head iter ≡ ok (bytes ++ 0 ∷ [])
unfolding copy_part
copy_part_lem junk front bytes rest head iter hh hi =
    let n : ℕ = length bytes in
    let size : iter - head ≡ n = omega arith in
    let gap : List ℕ = replicate n junk in
    let copied : copy_to (gap ++ junk ∷ []) 0 bytes ≡ ok (bytes ++ junk ∷ []) =
      copy_to-append [] (gap ++ junk ∷ []) bytes 0 refl
        (omega (arith, length-replicate n junk, length-append gap (junk ∷ [])))
      ∙ ap (λ z. ok (bytes ++ z))
          (ap (λ k. drop k (gap ++ junk ∷ [])) (sym (length-replicate n junk))
            ∙ drop-append gap (junk ∷ [])) in
    rw (
      size,
      copy_from-append front bytes rest head n hh refl,
      replicate_add n 1 junk,
      copied,
      store-append bytes [] junk 0 n refl,
    )

-- The answer of u8substr, by where the part starts.
abbrev pub Part : ℕ → Option (List ℕ) → Outcome (List ℕ) → Type 0
Part substr_length none r = r ≡ bugged
Part substr_length (some s) r = r ≡ ok (part substr_length s ++ 0 ∷ [])

-- What u8substr does with what the loop answers.
abbrev finish : ℕ → List ℕ → Option ℕ × ℕ → Outcome (List ℕ)
finish junk str found = elim found.0 [ none ↦ bugged | some head ↦ copy_part junk str head found.1 ]

finish_lem :
    (junk : ℕ) (str : List ℕ) (substr_length : ℕ) (o : Option (List ℕ)) (found : Option ℕ × ℕ)
    → Scanned substr_length 0 str o found
    → Part substr_length o (finish junk str found)
finish_lem junk str substr_length none found h =
    ap (λ head. elim head [ none ↦ bugged | some k ↦ copy_part junk str k found.1 ]) h
finish_lem junk str substr_length (some s) found (front, split, e) =
    let bytes : List ℕ = part substr_length s in
    let r = split_part substr_length s in
    let iter : ℕ = 0 + length front + length bytes in
    ap (finish junk str) e
    ∙ ap (λ z. copy_part junk z (0 + length front) iter) (split ∙ ap (front ++◌) r.1)
    ∙ copy_part_lem junk front bytes r.0 (0 + length front) iter (omega arith) (omega arith)

pub u8substr-Part :
    (junk : ℕ) (str : List ℕ) (start_index substr_length : ℕ)
    → Part substr_length (from_char start_index str) (u8substr junk str start_index substr_length)
unfolding u8substr
u8substr-Part junk str start_index substr_length =
    finish_lem junk str substr_length (from_char start_index str) _
      (scan_lem str start_index 0 start_index substr_length 0 (omega arith))

-- Character `n` is there exactly below the number of characters.
abbrev Within : ℕ → List ℕ → Option (List ℕ) → Type 0
Within n str none = u8strlen str ≤ n
Within n str (some s) = n < u8strlen str

count_none : (n : ℕ) → u8strlen [] ≤ n
unfolding u8strlen
count_none n = omega arith

count_start :
    (c : ℕ) (str : List ℕ) → is_start_byte c ≡ true → u8strlen (c ∷ str) ≡ suc (u8strlen str)
unfolding u8strlen
count_start c str starts = rw (starts)

count_inside : (c : ℕ) (str : List ℕ) → is_start_byte c ≡ false → u8strlen (c ∷ str) ≡ u8strlen str
unfolding u8strlen
count_inside c str inside = rw (inside)

Within-start :
    (n c : ℕ) (str : List ℕ) (o : Option (List ℕ))
    → is_start_byte c ≡ true
    → Within n str o
    → Within (suc n) (c ∷ str) o
Within-start n c str none starts h = omega (arith, h, count_start c str starts)
Within-start n c str (some s) starts h = omega (arith, h, count_start c str starts)

Within-inside :
    (n c : ℕ) (str : List ℕ) (o : Option (List ℕ))
    → is_start_byte c ≡ false
    → Within n str o
    → Within n (c ∷ str) o
Within-inside n c str none inside h = omega (arith, h, count_inside c str inside)
Within-inside n c str (some s) inside h = omega (arith, h, count_inside c str inside)

Within-from_char : (n : ℕ) (str : List ℕ) → Within n str (from_char n str)
unfolding from_char
Within-from_char n [] = count_none n
Within-from_char zero (c ∷ str) = elim (Bool-cases (is_start_byte c)) [
  | inl starts ↦
      subst (Within 0 (c ∷ str)) (sym (from_here c str starts))
        (omega (arith, count_start c str starts))
  | inr inside ↦
      subst (Within 0 (c ∷ str))
        (sym (ap (λ b. if b then some (c ∷ str) else from_char 0 str) inside))
        (Within-inside 0 c str _ inside (Within-from_char 0 str))
]
Within-from_char (suc n) (c ∷ str) = elim (Bool-cases (is_start_byte c)) [
  | inl starts ↦
      subst (Within (suc n) (c ∷ str))
        (sym (ap (λ b. if b then from_char n str else from_char (suc n) str) starts))
        (Within-start n c str _ starts (Within-from_char n str))
  | inr inside ↦
      subst (Within (suc n) (c ∷ str))
        (sym (ap (λ b. if b then from_char n str else from_char (suc n) str) inside))
        (Within-inside (suc n) c str _ inside (Within-from_char (suc n) str))
]

-- u8substr answers for every start_index below u8strlen, and exits by bug() for the others.
pub u8substr-u8strlen :
    (junk : ℕ) (str : List ℕ) (start_index substr_length : ℕ)
    → (start_index < u8strlen str
        → Returns {0, 0} (λ dest. Unit) (u8substr junk str start_index substr_length))
      × (u8strlen str ≤ start_index → u8substr junk str start_index substr_length ≡ bugged)
u8substr-u8strlen junk str start_index substr_length =
    decide (from_char start_index str) _ (Within-from_char start_index str)
      (u8substr-Part junk str start_index substr_length)
  where
    decide :
        (o : Option (List ℕ)) (r : Outcome (List ℕ))
        → Within start_index str o
        → Part substr_length o r
        → (start_index < u8strlen str → Returns {0, 0} (λ dest. Unit) r)
          × (u8strlen str ≤ start_index → r ≡ bugged)
    decide none r w e = ((λ less. absurd (omega (arith, w, less))), (λ more. e))
    decide (some s) r w e = ((λ less. (_, e, tt)), (λ more. absurd (omega (arith, w, more))))
