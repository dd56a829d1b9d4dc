-- ===== src/Cipher/Statements.antt =====
-- src/cipher-config.c: the SQL that format_apply_cc_sqlstr answers, statement by statement.
use pass_keeper.Prelude.{
  ℕ, zero, suc, ◌+◌, ◌-◌, ◌/◌, ◌%◌, ◌^◌, ◌<◌, ◌≡◌, refl, sym, ap, ap₂, subst, ◌∙◌, inl, inr,
  Bool-cases, true, false, List, [], ◌∷◌, ◌++◌, append-nil, append_assoc, Option, none, some, ok,
  if◌then◌else◌, ltb, ltb→lt, ◌==◌, length, arith,
}
use pass_keeper.Cipher.{CipherConfig}
use pass_keeper.Cipher.Sql.{
  digits, print_d, pragma, kdf_name, hmac_name, iter_name, page_name, compat_name,
  format_apply_cc_sqlstr,
}
use pass_keeper.Cipher.Written.{PointsTo}
use pass_keeper.Cipher.Applied.{IsShort, or_null, algorithm_sql, number_sql, sql_of, format-sql_of}

-- PRAGMA name = value;
abbrev pub statement : (name value : List ℕ) → List ℕ
statement name value =
    (b'P' ∷ b'R' ∷ b'A' ∷ b'G' ∷ b'M' ∷ b'A' ∷ b' ' ∷ [])
    ++ (name ++ ((b' ' ∷ b'=' ∷ b' ' ∷ []) ++ (value ++ b';' ∷ [])))

-- The decimal numeral of a number below 10 ^ fuel.
abbrev pub numeral : (fuel n : ℕ) → List ℕ
numeral zero n = []
numeral (suc fuel) n =
    if ltb n 10 then (b'0' + n) ∷ [] else numeral fuel (n / 10) ++ (b'0' + n % 10) ∷ []

-- An unsigned int as an int.
abbrev pub signed : ℕ → List ℕ
signed n = if ltb n 2147483648 then numeral 10 n else b'-' ∷ numeral 10 (4294967296 - n)

abbrev pub string_statement : (name : List ℕ) → Option (List ℕ) → List ℕ
string_statement name none = []
string_statement name (some value) = statement name value

abbrev pub number_statement : (name : List ℕ) → (default n : ℕ) → List ℕ
number_statement name default n = if n == default then [] else statement name (signed n)

-- cipher_kdf_algorithm
abbrev pub kdf_statement : Option (List ℕ) → List ℕ
kdf_statement value =
    string_statement
      (b'c' ∷ b'i' ∷ b'p' ∷ b'h' ∷ b'e' ∷ b'r' ∷ b'_' ∷ b'k' ∷ b'd' ∷ b'f' ∷ b'_' ∷ b'a' ∷ b'l'
        ∷ b'g' ∷ b'o' ∷ b'r' ∷ b'i' ∷ b't' ∷ b'h' ∷ b'm' ∷ [])
      value

-- cipher_hmac_algorithm
abbrev pub hmac_statement : Option (List ℕ) → List ℕ
hmac_statement value =
    string_statement
      (b'c' ∷ b'i' ∷ b'p' ∷ b'h' ∷ b'e' ∷ b'r' ∷ b'_' ∷ b'h' ∷ b'm' ∷ b'a' ∷ b'c' ∷ b'_' ∷ b'a'
        ∷ b'l' ∷ b'g' ∷ b'o' ∷ b'r' ∷ b'i' ∷ b't' ∷ b'h' ∷ b'm' ∷ [])
      value

-- kdf_iter
abbrev pub iter_statement : ℕ → List ℕ
iter_statement n =
    number_statement (b'k' ∷ b'd' ∷ b'f' ∷ b'_' ∷ b'i' ∷ b't' ∷ b'e' ∷ b'r' ∷ []) 256000 n

-- cipher_page_size
abbrev pub page_statement : ℕ → List ℕ
page_statement n =
    number_statement
      (b'c' ∷ b'i' ∷ b'p' ∷ b'h' ∷ b'e' ∷ b'r' ∷ b'_' ∷ b'p' ∷ b'a' ∷ b'g' ∷ b'e' ∷ b'_' ∷ b's'
        ∷ b'i' ∷ b'z' ∷ b'e' ∷ [])
      4096 n

-- cipher_compatibility
abbrev pub compat_statement : ℕ → List ℕ
compat_statement n =
    number_statement
      (b'c' ∷ b'i' ∷ b'p' ∷ b'h' ∷ b'e' ∷ b'r' ∷ b'_' ∷ b'c' ∷ b'o' ∷ b'm' ∷ b'p' ∷ b'a' ∷ b't'
        ∷ b'i' ∷ b'b' ∷ b'i' ∷ b'l' ∷ b'i' ∷ b't' ∷ b'y' ∷ [])
      4 n

-- The statements of some settings.
abbrev pub statements : CipherConfig → (kdf hmac : Option (List ℕ)) → List ℕ
statements cc kdf hmac =
    kdf_statement kdf
    ++ (hmac_statement hmac
        ++ (iter_statement cc.kdf_iter
            ++ (page_statement cc.page_size ++ compat_statement cc.compatibility)))

digits-numeral : (fuel n : ℕ) (acc : List ℕ) → digits fuel n acc ≡ numeral fuel n ++ acc
unfolding digits
digits-numeral zero n acc = refl
digits-numeral (suc fuel) n acc = elim (Bool-cases (ltb n 10)) [
  | inl small ↦
      let none_left : (n / 10 == 0) ≡ true = ground arith in
      let digit : n % 10 ≡ n = omega (arith, ltb→lt n 10 small) in
      rw (digits, none_left, small) (ap (λ d. (b'0' + d) ∷ acc) digit)
  | inr large ↦
      let more_left : (n / 10 == 0) ≡ false = ground arith in
      rw (digits, more_left, large)
        (digits-numeral fuel (n / 10) ((b'0' + n % 10) ∷ acc)
          ∙ sym (append_assoc (numeral fuel (n / 10)) ((b'0' + n % 10) ∷ []) acc))
]

print_d-signed : (n : ℕ) → print_d n ≡ signed n
unfolding print_d
print_d-signed n =
    ap₂ (λ x y. if ltb n (2 ^ 31) then x else b'-' ∷ y) (digits-numeral 10 n [] ∙ append-nil _)
      (digits-numeral 10 (2 ^ 32 - n) [] ∙ append-nil _)

pragma-statement : (name value : List ℕ) → pragma name value ≡ statement name value
unfolding pragma
pragma-statement name value = refl

algorithm_sql-string_statement :
    (name : List ℕ) (value : Option (List ℕ))
    → algorithm_sql name value ≡ string_statement name value
algorithm_sql-string_statement name none = refl
algorithm_sql-string_statement name (some value) = pragma-statement name value

number_sql-number_statement :
    (name : List ℕ) (default n : ℕ) → number_sql name default n ≡ number_statement name default n
number_sql-number_statement name default n =
    ap (λ t. if n == default then [] else t)
      (pragma-statement name (print_d n) ∙ ap (statement name) (print_d-signed n))

sql_of-statements :
    (cc : CipherConfig) (kdf hmac : Option (List ℕ)) → sql_of cc kdf hmac ≡ statements cc kdf hmac
sql_of-statements cc kdf hmac = ap₂ ◌++◌ (algorithm_sql-string_statement kdf_name kdf) (
    ap₂ ◌++◌ (algorithm_sql-string_statement hmac_name hmac) (
      ap₂ ◌++◌ (number_sql-number_statement iter_name 256000 cc.kdf_iter) (
        ap₂ ◌++◌ (number_sql-number_statement page_name 4096 cc.page_size)
          (number_sql-number_statement compat_name 4 cc.compatibility))))

-- format_apply_cc_sqlstr answers the statements PRAGMA name = value; of the settings that are not
-- default, cipher_kdf_algorithm, cipher_hmac_algorithm, kdf_iter, cipher_page_size and
-- cipher_compatibility in this order, a number as the decimal numeral of an int, or null where
-- there is none, for terminated strings of fewer than 2^29 characters and SQL of fewer than 2^53.
pub format_lem :
    (junk : ℕ) (cc : CipherConfig) (kdf hmac : Option (List ℕ))
    → PointsTo cc.kdf_algorithm kdf
    → PointsTo cc.hmac_algorithm hmac
    → IsShort kdf
    → IsShort hmac
    → length (statements cc kdf hmac) < 2 ^ 53
    → format_apply_cc_sqlstr junk cc ≡ ok (or_null (statements cc kdf hmac))
format_lem junk cc kdf hmac p q s s' small =
    let same = sql_of-statements cc kdf hmac in
    format-sql_of junk cc kdf hmac p q s s' (subst (λ t. length t < 2 ^ 53) (sym same) small)
    ∙ ap (λ t. ok (or_null t)) same
