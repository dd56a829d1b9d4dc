-- ===== src/Strtou.antt =====
-- src/strbuf.c: strtou, on the characters of a string without its NUL, with the strtoul of the C
-- library for the base 10 and the C locale.
pub mod Numerals
mod Tests
use pass_keeper.Prelude.{
  ℕ, zero, suc, ◌+◌, ◌-◌, ◌*◌, ◌^◌, Bool, true, false, ◌&&◌, List, [], ◌∷◌, if◌then◌else◌, ltb, leb,
  ◌==◌,
}
use pass_keeper.Strbuf.{isspace}

abbrev pub ulong_max : ℕ
ulong_max = 2 ^ 64 - 1

abbrev pub uint_max : ℕ
uint_max = 2 ^ 32 - 1

unfoldable pub is_digit : ℕ → Bool
is_digit c = leb b'0' c && leb c b'9'

-- The value of the digits from here on, behind those that make `acc`, and what follows them.
unfoldable pub read_digits : ℕ → List ℕ → ℕ × List ℕ
read_digits acc [] = (acc, [])
read_digits acc (c ∷ str) =
    if is_digit c then read_digits (acc * 10 + (c - b'0')) str else (acc, c ∷ str)

unfoldable pub starts_digit : List ℕ → Bool
starts_digit [] = false
starts_digit (c ∷ str) = is_digit c

pub record Strtoul : Type 0 where
  pub out_of_range : Bool
  pub res : ℕ
  pub end : List ℕ

-- A value in range is negated modulo 2 ^ 64 behind a minus sign.
unfoldable pub signed : Bool → ℕ → ℕ
signed negative n = if negative then if n == 0 then 0 else 2 ^ 64 - n else n

unfoldable pub read_number : (str0 : List ℕ) → (negative : Bool) → List ℕ → Strtoul
read_number str0 negative str =
    let number = read_digits 0 str in
    if starts_digit str
    then if ltb ulong_max number.0
      then record { out_of_range = true; res = ulong_max; end = number.1 }
      else record { out_of_range = false; res = signed negative number.0; end = number.1 }
    else record { out_of_range = false; res = 0; end = str0 }

unfoldable pub read_sign : (str0 str : List ℕ) → Strtoul
read_sign str0 [] = read_number str0 false []
read_sign str0 (c ∷ str) =
    if c == b'-'
    then read_number str0 true str
    else if c == b'+'
    then read_number str0 false str
    else read_number str0 false (c ∷ str)

unfoldable pub skip_space : List ℕ → List ℕ
skip_space [] = []
skip_space (c ∷ str) = if isspace c then skip_space str else c ∷ str

unfoldable pub strtoul : List ℕ → Strtoul
strtoul str = read_sign str (skip_space str)

-- `*res0`, or what errno is set to.
pub data Converted : Type 0 where
  converted : ℕ → Converted
  einval : Converted
  eilseq : Converted
  erange : Converted

unfoldable pub is_minus : List ℕ → Bool
is_minus [] = false
is_minus (c ∷ str) = c == b'-'

unfoldable pub is_end : List ℕ → Bool
is_end [] = true
is_end (c ∷ str) = false

unfoldable pub strtou : List ℕ → Converted
strtou str =
    let read = strtoul str in
    if is_minus str
    then einval
    else if read.out_of_range
    then erange
    else if is_end read.end
    then if ltb uint_max read.res then erange else converted read.res
    else eilseq
