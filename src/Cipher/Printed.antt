-- ===== src/Cipher/Printed.antt =====
-- src/cipher-config.c: the decimal numerals in the SQL.
use pass_keeper.Prelude.{
  ℕ, zero, suc, ◌+◌, ◌/◌, ◌%◌, ◌^◌, ◌≤◌, ◌<◌, ◌≡◌, refl, ap, ◌∙◌, true, false, List, [], ◌∷◌, arith,
  ltb, length, ◌==◌,
}
use pass_keeper.Strtou.{is_digit, strtou, converted}
use pass_keeper.Strtou.Numerals.{AllDigits, decimal, whole_number, strtou_lem}
use pass_keeper.Cipher.Sql.{digits, print_d}

digits-AllDigits : (fuel n : ℕ) (acc : List ℕ) → AllDigits acc → AllDigits (digits fuel n acc)
unfolding digits is_digit
digits-AllDigits zero n acc h = h
digits-AllDigits (suc fuel) n acc h =
    elim (n / 10 == 0)
      as (λ b. AllDigits (elim b [
        | true ↦ (b'0' + n % 10) ∷ acc
        | false ↦ digits fuel (n / 10) ((b'0' + n % 10) ∷ acc)
      ])) [
        | true ↦ (ground arith, h)
        | false ↦ digits-AllDigits fuel (n / 10) ((b'0' + n % 10) ∷ acc) (ground arith, h)
      ]

decimal-digits :
    (fuel n : ℕ) (acc : List ℕ)
    → n < 10 ^ fuel
    → 0 < fuel
    → decimal 0 (digits fuel n acc) ≡ decimal n acc
unfolding digits decimal
decimal-digits zero n acc h k = absurd (omega arith)
decimal-digits (suc fuel) n acc h k =
    (elim (n / 10 == 0)
        as (λ b.
          (n / 10 == 0) ≡ b
          → decimal 0 (elim b [
            | true ↦ (b'0' + n % 10) ∷ acc
            | false ↦ digits fuel (n / 10) ((b'0' + n % 10) ∷ acc)
          ])
            ≡ decimal n acc) [
              | true ↦ λ e. ap (λ m. decimal m acc) {y = n} (ground (arith, e))
              | false ↦ λ e.
                  let less : n / 10 < 10 ^ fuel = grind arith in
                  decimal-digits fuel (n / 10) ((b'0' + n % 10) ∷ acc) less (some_fuel fuel less e)
                  ∙ ap (λ m. decimal m acc) {y = n} (omega arith)
            ])
      refl
  where
    some_fuel : (f : ℕ) → n / 10 < 10 ^ f → (n / 10 == 0) ≡ false → 0 < f
    some_fuel zero less e = ground (arith, less, e)
    some_fuel (suc f) less e = omega arith

strtou-whole :
    (str : List ℕ) → 0 < length str → AllDigits str → strtou str ≡ whole_number (decimal 0 str)
unfolding is_digit
strtou-whole [] h d = absurd (omega arith)
strtou-whole (c ∷ str) h d = (strtou_lem c str b'k' [] d refl).0

more_digits : (fuel n : ℕ) (acc : List ℕ) → length acc ≤ length (digits fuel n acc)
unfolding digits
more_digits zero n acc = omega arith
more_digits (suc fuel) n acc =
    elim (n / 10 == 0)
      as (λ b.
        length acc
        ≤ length (elim b [
          | true ↦ (b'0' + n % 10) ∷ acc
          | false ↦ digits fuel (n / 10) ((b'0' + n % 10) ∷ acc)
        ])) [
          | true ↦ omega arith
          | false ↦ omega (arith, more_digits fuel (n / 10) ((b'0' + n % 10) ∷ acc))
        ]

some_digits : (fuel n : ℕ) → 0 < length (digits (suc fuel) n [])
unfolding digits
some_digits fuel n =
    elim (n / 10 == 0)
      as (λ b.
        0
        < length (elim b [
          | true ↦ (b'0' + n % 10) ∷ []
          | false ↦ digits fuel (n / 10) ((b'0' + n % 10) ∷ [])
        ])) [
          | true ↦ omega arith
          | false ↦ omega (arith, more_digits fuel (n / 10) ((b'0' + n % 10) ∷ []))
        ]

-- A number below 2^31 prints in the SQL as the decimal numeral that strtou reads as that number.
pub strtou-print_d : (n : ℕ) → n < 2 ^ 31 → strtou (print_d n) ≡ converted n
unfolding print_d is_digit decimal
strtou-print_d n h =
    let plain : ltb n (2 ^ 31) ≡ true = ground arith in
    let whole : whole_number n ≡ converted n = ground arith in
    rw (plain) (
      strtou-whole (digits 10 n []) (some_digits 9 n) (digits-AllDigits 10 n [] tt)
      ∙ (ap whole_number (decimal-digits 10 n [] (omega arith) (omega arith)) ∙ whole))
