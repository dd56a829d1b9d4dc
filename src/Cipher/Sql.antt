-- ===== src/Cipher/Sql.antt =====
-- src/cipher-config.c: format_apply_cc_sqlstr, which prints the SQL into a string buffer.
use pass_keeper.Prelude.{
  ℕ, zero, suc, ◌+◌, ◌-◌, ◌/◌, ◌%◌, ◌^◌, true, false, List, [], ◌∷◌, ◌++◌, Option, none, some,
  Outcome, ok, ◌>>=◌, if◌then◌else◌, ltb, ◌==◌, take,
}
use pass_keeper.Strbuf.{Strbuf, init, cells, strbuf_vprintf}
use pass_keeper.Cipher.{
  CipherConfig, c_string, default_compatibility, default_page_size, default_kdf_iter,
}

-- The digits of a number, the last one first into `acc`; each round takes one off.
unfoldable pub digits : (fuel : ℕ) → ℕ → (acc : List ℕ) → List ℕ
digits zero n acc = acc
digits (suc fuel) n acc = elim (n / 10 == 0) [
  | true ↦ (b'0' + n % 10) ∷ acc
  | false ↦ digits fuel (n / 10) ((b'0' + n % 10) ∷ acc)
]

-- `%d` of an unsigned: the upper half prints as negative numbers. Ten digits are enough.
unfoldable pub print_d : ℕ → List ℕ
print_d n = if ltb n (2 ^ 31) then digits 10 n [] else b'-' ∷ digits 10 (2 ^ 32 - n) []

-- `PRAGMA name = `, and what stands behind the value.
unfoldable pub pragma : (name value : List ℕ) → List ℕ
pragma name value =
    b'P'
    ∷ b'R'
    ∷ b'A'
    ∷ b'G'
    ∷ b'M'
    ∷ b'A'
    ∷ b' '
    ∷ (name ++ (b' ' ∷ b'=' ∷ b' ' ∷ (value ++ b';' ∷ [])))

-- "cipher_"
abbrev pub cipher_name : List ℕ → List ℕ
cipher_name name = b'c' ∷ b'i' ∷ b'p' ∷ b'h' ∷ b'e' ∷ b'r' ∷ b'_' ∷ name

-- "algorithm"
abbrev pub algorithm_name : List ℕ
algorithm_name = b'a' ∷ b'l' ∷ b'g' ∷ b'o' ∷ b'r' ∷ b'i' ∷ b't' ∷ b'h' ∷ b'm' ∷ []

-- "cipher_kdf_algorithm"
abbrev pub kdf_name : List ℕ
kdf_name = cipher_name (b'k' ∷ b'd' ∷ b'f' ∷ b'_' ∷ algorithm_name)

-- "cipher_hmac_algorithm"
abbrev pub hmac_name : List ℕ
hmac_name = cipher_name (b'h' ∷ b'm' ∷ b'a' ∷ b'c' ∷ b'_' ∷ algorithm_name)

-- "kdf_iter"
abbrev pub iter_name : List ℕ
iter_name = b'k' ∷ b'd' ∷ b'f' ∷ b'_' ∷ b'i' ∷ b't' ∷ b'e' ∷ b'r' ∷ []

-- "cipher_page_size"
abbrev pub page_name : List ℕ
page_name = cipher_name (b'p' ∷ b'a' ∷ b'g' ∷ b'e' ∷ b'_' ∷ b's' ∷ b'i' ∷ b'z' ∷ b'e' ∷ [])

-- "cipher_compatibility"
abbrev pub compat_name : List ℕ
compat_name =
    cipher_name (
      b'c' ∷ b'o' ∷ b'm' ∷ b'p' ∷ b'a' ∷ b't' ∷ b'i' ∷ b'b' ∷ b'i' ∷ b'l' ∷ b'i' ∷ b't' ∷ b'y' ∷ [])

unfoldable pub apply_algorithm :
    (junk : ℕ) → (name : List ℕ) → Option (List ℕ) → Strbuf → Outcome Strbuf
apply_algorithm junk name none sb = ok sb
apply_algorithm junk name (some array) sb = do
  algorithm ← c_string array
  strbuf_vprintf junk sb (pragma name algorithm)

unfoldable pub apply_number :
    (junk : ℕ) → (name : List ℕ) → (default n : ℕ) → Strbuf → Outcome Strbuf
apply_number junk name default n sb =
    if n == default then ok sb else strbuf_vprintf junk sb (pragma name (print_d n))

-- The prints, in their order.
unfoldable pub apply_settings : (junk : ℕ) → CipherConfig → Strbuf → Outcome Strbuf
apply_settings junk cc sb = do
  sb1 ← apply_algorithm junk kdf_name cc.kdf_algorithm sb
  sb2 ← apply_algorithm junk hmac_name cc.hmac_algorithm sb1
  sb3 ← apply_number junk iter_name default_kdf_iter cc.kdf_iter sb2
  sb4 ← apply_number junk page_name default_page_size cc.page_size sb3
  apply_number junk compat_name default_compatibility cc.compatibility sb4

unfoldable pub format_apply_cc_sqlstr : (junk : ℕ) → CipherConfig → Outcome (Option (List ℕ))
format_apply_cc_sqlstr junk cc = do
  sb ← apply_settings junk cc init
  ok (if sb.capacity == 0 then none else some (take sb.length (cells sb.buf)))
