-- ===== src/Strtou/Numerals.antt =====
-- strtou on decimal numerals.
use pass_keeper.Prelude.{
  ℕ, ◌+◌, ◌-◌, ◌*◌, ◌≡◌, refl, sym, ap, append-nil, ◌∙◌, inl, inr, true, false, List, [], ◌∷◌, ◌++◌,
  arith, Bool-cases, if◌then◌else◌, ltb, ◌==◌,
}
use pass_keeper.Strbuf.{isspace}
use pass_keeper.Strtou.{
  uint_max, ulong_max, is_digit, read_digits, starts_digit, signed, read_number, read_sign,
  skip_space, strtoul, Strtoul, Converted, converted, erange, eilseq, is_minus, is_end, strtou,
}

abbrev pub AllDigits : List ℕ → Type 0
AllDigits [] = Unit
AllDigits (c ∷ str) = (is_digit c ≡ true) × AllDigits str

-- What a numeral stands for, behind the digits of `acc`.
unfoldable pub decimal : ℕ → List ℕ → ℕ
decimal acc [] = acc
decimal acc (c ∷ str) = decimal (10 * acc + (c - b'0')) str

read_digits_lem :
    (acc : ℕ) (digits rest : List ℕ)
    → AllDigits digits
    → starts_digit rest ≡ false
    → read_digits acc (digits ++ rest) ≡ (decimal acc digits, rest)
unfolding read_digits decimal starts_digit
read_digits_lem acc [] [] h e = refl
read_digits_lem acc [] (c ∷ rest) h e = rw (e)
read_digits_lem acc (c ∷ digits) rest h e = rw (h.0) (
    read_digits_lem (acc * 10 + (c - b'0')) digits rest h.1 e
    ∙ ap (λ k. (decimal k digits, rest)) {y = 10 * acc + (c - b'0')} (omega arith))

-- A digit is no blank and no sign.
digit_lem :
    (c : ℕ)
    → is_digit c ≡ true
    → (isspace c ≡ false) × ((c == b'-') ≡ false) × ((c == b'+') ≡ false)
unfolding is_digit
digit_lem c h = ground arith

-- What strtoul makes of a numeral and what follows it.
abbrev read_as : ℕ → List ℕ → Strtoul
read_as n rest =
    if ltb ulong_max n
    then record { out_of_range = true; res = ulong_max; end = rest }
    else record { out_of_range = false; res = n; end = rest }

number_lem :
    (c : ℕ) (digits rest str0 : List ℕ)
    → AllDigits (c ∷ digits)
    → starts_digit rest ≡ false
    → read_number str0 false (c ∷ (digits ++ rest)) ≡ read_as (decimal 0 (c ∷ digits)) rest
unfolding read_number signed starts_digit
number_lem c digits rest str0 h e = rw (read_digits_lem 0 (c ∷ digits) rest h e, h.0)

strtoul_lem :
    (c : ℕ) (digits rest : List ℕ)
    → AllDigits (c ∷ digits)
    → starts_digit rest ≡ false
    → strtoul (c ∷ (digits ++ rest)) ≡ read_as (decimal 0 (c ∷ digits)) rest
unfolding strtoul skip_space read_sign
strtoul_lem c digits rest h e =
    let plain = digit_lem c h.0 in
    rw (plain.0, plain.1, plain.2) (number_lem c digits rest (c ∷ (digits ++ rest)) h e)

-- What strtou answers for a number that the string names to its end, and for one that it does not.
abbrev pub whole_number : ℕ → Converted
whole_number n = if ltb uint_max n then erange else converted n

abbrev pub broken_number : ℕ → Converted
broken_number n = if ltb ulong_max n then erange else eilseq

-- What strtou makes of strtoul's answer.
abbrev judged : Strtoul → Converted
judged read =
    if read.out_of_range
    then erange
    else if is_end read.end
    then if ltb uint_max read.res then erange else converted read.res
    else eilseq

judged_whole : (n : ℕ) → judged (read_as n []) ≡ whole_number n
unfolding is_end
judged_whole n = elim (Bool-cases (ltb ulong_max n)) [
  | inl huge ↦ let large : ltb uint_max n ≡ true = ground (arith, huge) in rw (huge, large)
  | inr fits ↦ rw (fits)
]

judged_broken : (n r : ℕ) (rest : List ℕ) → judged (read_as n (r ∷ rest)) ≡ broken_number n
unfolding is_end
judged_broken n r rest = elim (Bool-cases (ltb ulong_max n)) [
  | inl huge ↦ rw (huge)
  | inr fits ↦ rw (fits)
]

-- strtou converts a decimal numeral up to UINT_MAX, answers ERANGE for a larger one, and EILSEQ
-- for a numeral that fits an unsigned long and that another character follows.
pub strtou_lem :
    (c : ℕ) (digits : List ℕ) (r : ℕ) (rest : List ℕ)
    → AllDigits (c ∷ digits)
    → is_digit r ≡ false
    → (strtou (c ∷ digits) ≡ whole_number (decimal 0 (c ∷ digits)))
      × (strtou (c ∷ (digits ++ r ∷ rest)) ≡ broken_number (decimal 0 (c ∷ digits)))
unfolding strtou is_minus is_end starts_digit
strtou_lem c digits r rest h e =
    let minus = (digit_lem c h.0).1 in
    let n : ℕ = decimal 0 (c ∷ digits) in
    (
      rw (minus) (
          ap judged
            (ap (λ z. strtoul (c ∷ z)) (sym (append-nil digits)) ∙ strtoul_lem c digits [] h refl)
          ∙ judged_whole n),
      rw (minus) (ap judged (strtoul_lem c digits (r ∷ rest) h e) ∙ judged_broken n r rest),
    )
