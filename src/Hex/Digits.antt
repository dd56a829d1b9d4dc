-- ===== src/Hex/Digits.antt =====
-- Digits of a byte. The tables are checked by evaluation over all bytes.
use pass_keeper.Prelude.{
  ◌%◌, ◌-◌, ltb, ltb→lt, leb, ◌||◌, get_or, bit_or, ap₂, sym, ℕ, zero, suc, ◌*◌, ◌/◌, ◌^◌, ◌<◌,
  bit_and, ◌+◌, if◌then◌else◌, ◌≡◌, refl, ap, ◌∙◌, Bool, true, false, ◌&&◌, List, [], ◌∷◌, ◌++◌,
  arith, ◌==◌, length, ==_iff,
}
use pass_keeper.Hex.{hexchar2decint, decint2hexchar, hex_byte, is_hexchar}

-- The test holds of `count` numbers from `i` on.
unfoldable pub holds_from : (ℕ → Bool) → (i count : ℕ) → Bool
holds_from test i zero = true
holds_from test i (suc count) = if test i then holds_from test (suc i) count else false

pub holds_at :
    (test : ℕ → Bool) (count i k : ℕ)
    → holds_from test i count ≡ true
    → k < count
    → test (i + k) ≡ true
unfolding holds_from
holds_at test zero i k h lt = absurd (omega arith)
holds_at test (suc count) i zero h lt = ap test {y = i} (omega arith) ∙ ground arith
holds_at test (suc count) i (suc k) h lt =
    ap test {y = suc i + k} (omega arith)
    ∙ holds_at test count (suc i) k (ground arith) (omega arith)

-- The two digits of a byte.
abbrev pub high_digit : ℕ → ℕ
high_digit b = decint2hexchar (b / 2 ^ 4)

abbrev pub low_digit : ℕ → ℕ
low_digit b = decint2hexchar (bit_and b 0x0F)

-- The hex digits of bytes.
unfoldable pub hex_of : List ℕ → List ℕ
hex_of [] = []
hex_of (b ∷ bs) = high_digit b ∷ low_digit b ∷ hex_of bs

-- The bytes of hex digits; an odd digit at the end is left out.
unfoldable pub unhex : List ℕ → List ℕ
unhex [] = []
unhex (hi ∷ []) = []
unhex (hi ∷ lo ∷ s) = hex_byte hi lo ∷ unhex s

pub length-hex_of : (bs : List ℕ) → length (hex_of bs) ≡ length bs * 2
unfolding hex_of
length-hex_of [] = refl
length-hex_of (b ∷ bs) = omega (arith, length-hex_of bs)

pub hex_of-append : (xs ys : List ℕ) → hex_of (xs ++ ys) ≡ hex_of xs ++ hex_of ys
unfolding hex_of
hex_of-append [] ys = refl
hex_of-append (x ∷ xs) ys = rw (hex_of-append xs ys)

abbrev pub AllBytes : List ℕ → Type 0
AllBytes [] = Unit
AllBytes (b ∷ bs) = (b < 256) × AllBytes bs

-- Every character passes.
abbrev pub AllPass : (ℕ → Bool) → List ℕ → Type 0
AllPass test [] = Unit
AllPass test (c ∷ s) = (test c ≡ true) × AllPass test s

-- What a byte's two digits have to be: digits, and of that byte.
abbrev has_digits : ℕ → Bool
has_digits b =
    is_hexchar (high_digit b)
    && (is_hexchar (low_digit b) && hex_byte (high_digit b) (low_digit b) == b)

every_byte : holds_from has_digits 0 256 ≡ true
unfolding holds_from is_hexchar hex_byte hexchar2decint decint2hexchar
every_byte = refl

split_test : (p q r : Bool) → (p && (q && r)) ≡ true → (p ≡ true) × (q ≡ true) × (r ≡ true)
split_test p q r e = ground arith

pub byte_digits :
    (b : ℕ)
    → b < 256
    → (is_hexchar (high_digit b) ≡ true)
      × (is_hexchar (low_digit b) ≡ true)
      × ((hex_byte (high_digit b) (low_digit b) == b) ≡ true)
byte_digits b h =
    split_test _ _ _
      (ap has_digits {x = b} {y = 0 + b} (omega arith) ∙ holds_at has_digits 256 0 b every_byte h)

pub hex_of-AllPass : (bs : List ℕ) → AllBytes bs → AllPass is_hexchar (hex_of bs)
unfolding hex_of
hex_of-AllPass [] h = tt
hex_of-AllPass (b ∷ bs) h = let d = byte_digits b h.0 in (d.0, (d.1, hex_of-AllPass bs h.1))

-- Reading the digits back gives the bytes.
pub unhex-hex_of : (bs : List ℕ) → AllBytes bs → unhex (hex_of bs) ≡ bs
unfolding unhex hex_of
unhex-hex_of [] h = refl
unhex-hex_of (b ∷ bs) h = rw ((==_iff _ b).0 (byte_digits b h.0).2, unhex-hex_of bs h.1)

-- The digits by their values.
abbrev pub hex_digit : ℕ → ℕ
hex_digit n =
    get_or
      (b'0' ∷ b'1' ∷ b'2' ∷ b'3' ∷ b'4' ∷ b'5' ∷ b'6' ∷ b'7' ∷ b'8' ∷ b'9' ∷ b'A' ∷ b'B' ∷ b'C'
        ∷ b'D' ∷ b'E' ∷ b'F' ∷ [])
      n 0

-- Two digits for each byte.
abbrev pub digits_of : List ℕ → List ℕ
digits_of [] = []
digits_of (b ∷ bs) = hex_digit (b / 16) ∷ hex_digit (b % 16) ∷ digits_of bs

-- A digit of either case.
abbrev pub is_hex : ℕ → Bool
is_hex c = ltb 47 c && ltb c 58 || (ltb 64 c && ltb c 71 || ltb 96 c && ltb c 103)

-- The value of a digit.
abbrev pub nibble : ℕ → ℕ
nibble c = if ltb c 58 then c - 48 else if ltb c 71 then c - 55 else c - 87

-- The bytes that pairs of digits stand for; an odd digit at the end is left out.
abbrev pub bytes_of_digits : List ℕ → List ℕ
bytes_of_digits [] = []
bytes_of_digits (hi ∷ []) = []
bytes_of_digits (hi ∷ lo ∷ s) = (16 * nibble hi + nibble lo) ∷ bytes_of_digits s

-- The digits of a byte are those of its halves.
abbrev has_halves : ℕ → Bool
has_halves b =
    high_digit b == hex_digit (b / 16)
    && (low_digit b == hex_digit (b % 16) && (is_hex (high_digit b) && is_hex (low_digit b)))

every_half : holds_from has_halves 0 256 ≡ true
unfolding holds_from decint2hexchar
every_half = refl

split_four :
    (p q r t : Bool)
    → (p && (q && (r && t))) ≡ true
    → (p ≡ true) × (q ≡ true) × (r ≡ true) × (t ≡ true)
split_four p q r t e = ground arith

byte_halves :
    (b : ℕ)
    → b < 256
    → ((high_digit b == hex_digit (b / 16)) ≡ true)
      × ((low_digit b == hex_digit (b % 16)) ≡ true)
      × (is_hex (high_digit b) ≡ true)
      × (is_hex (low_digit b) ≡ true)
byte_halves b h =
    split_four _ _ _ _
      (ap has_halves {x = b} {y = 0 + b} (omega arith) ∙ holds_at has_halves 256 0 b every_half h)

pub hex_of-digits_of : (bs : List ℕ) → AllBytes bs → hex_of bs ≡ digits_of bs
unfolding hex_of
hex_of-digits_of [] h = refl
hex_of-digits_of (b ∷ bs) h =
    let d = byte_halves b h.0 in
    ap₂ (λ x y. x ∷ y ∷ hex_of bs) ((==_iff _ _).0 d.0) ((==_iff _ _).0 d.1)
    ∙ ap (λ u. hex_digit (b / 16) ∷ hex_digit (b % 16) ∷ u) (hex_of-digits_of bs h.1)

pub hex_of-AllHex : (bs : List ℕ) → AllBytes bs → AllPass is_hex (hex_of bs)
unfolding hex_of
hex_of-AllHex [] h = tt
hex_of-AllHex (b ∷ bs) h = let d = byte_halves b h.0 in (d.2, (d.3, hex_of-AllHex bs h.1))

-- A digit reads as its value.
abbrev reads : ℕ → Bool
reads c = if is_hex c then hexchar2decint c == nibble c && ltb (nibble c) 16 else true

every_char : holds_from reads 0 128 ≡ true
unfolding holds_from hexchar2decint
every_char = refl

-- The two halves of a byte fit together.
abbrev fits_together : ℕ → Bool
fits_together k = bit_or (k / 16 * 2 ^ 4 % 2 ^ 8) (k % 16) == k

every_pair : holds_from fits_together 0 256 ≡ true
unfolding holds_from
every_pair = refl

char_value : (c : ℕ) → is_hex c ≡ true → (hexchar2decint c ≡ nibble c) × (nibble c < 16)
char_value c h =
    let short : c < 128 = ground arith in
    let known : reads c ≡ true =
      ap reads {x = c} {y = 0 + c} (omega arith) ∙ holds_at reads 128 0 c every_char short in
    let both : (hexchar2decint c == nibble c && ltb (nibble c) 16) ≡ true =
      sym (ap (λ b. if b then hexchar2decint c == nibble c && ltb (nibble c) 16 else true) h)
      ∙ known in
    let parts =
      split_test _ _ true (ap (λ b. hexchar2decint c == nibble c && b) (and_true _) ∙ both) in
    ((==_iff _ _).0 parts.0, ltb→lt _ _ parts.1)
  where
    and_true : (b : Bool) → (b && true) ≡ b
    and_true true = refl
    and_true false = refl

pair_value : (h l : ℕ) → h < 16 → l < 16 → bit_or (h * 2 ^ 4 % 2 ^ 8) l ≡ 16 * h + l
pair_value h l a b =
    let k : ℕ = 16 * h + l in
    let known : fits_together k ≡ true =
      ap fits_together {x = k} {y = 0 + k} (omega arith)
      ∙ holds_at fits_together 256 0 k every_pair (omega arith) in
    ap₂ (λ x y. bit_or (x * 2 ^ 4 % 2 ^ 8) y) {x = h} {y = k / 16} (omega arith) (omega arith)
    ∙ (==_iff _ _).0 known

hex_byte_lem :
    (hi lo : ℕ) → is_hex hi ≡ true → is_hex lo ≡ true → hex_byte hi lo ≡ 16 * nibble hi + nibble lo
unfolding hex_byte
hex_byte_lem hi lo h l =
    let (eh, small) = char_value hi h in
    let (el, small') = char_value lo l in
    ap₂ (λ x y. bit_or (x * 2 ^ 4 % 2 ^ 8) y) eh el
    ∙ pair_value (nibble hi) (nibble lo) small small'

pub unhex-bytes_of_digits : (s : List ℕ) → AllPass is_hex s → unhex s ≡ bytes_of_digits s
unfolding unhex
unhex-bytes_of_digits [] h = refl
unhex-bytes_of_digits (hi ∷ []) h = refl
unhex-bytes_of_digits (hi ∷ (lo ∷ s)) (h, (l, more)) =
    ap₂ ◌∷◌ (hex_byte_lem hi lo h l) (unhex-bytes_of_digits s more)

-- A digit is no character that hex2bin may not shift.
pub shiftable : (c : ℕ) → is_hex c ≡ true → (ltb c b'0' || leb (2 ^ 7) c) ≡ false
shiftable c h = ground arith
