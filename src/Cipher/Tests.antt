-- ===== src/Cipher/Tests.antt =====
-- The cipher settings at concrete inputs.
use pass_keeper.Prelude.{
  ℕ, ◌≡◌, refl, true, false, List, [], ◌∷◌, replicate, length-replicate, none, some, arith, ok,
  fault, Returns,
}
use pass_keeper.Cipher.{
  CipherConfig, CipherKey, bytes, cc_init, ck_init, same_string, to_bytes, complete,
  serialize_cipher_config, deserialize_cipher_config, is_cc_page_size, in_range_i, is_pow2,
}
use pass_keeper.Cipher.Written.{fields_of}
use pass_keeper.Cipher.Reading.{read_all}
use pass_keeper.Cipher.Files.{persist_cipher_config, resolve_cipher_config}
use pass_keeper.Cipher.Persisted.{persisted_lem}
use pass_keeper.Cipher.Stops.{KeyStops}
use pass_keeper.Cipher.Lost.{numbers, key_lost, numbers_shift}
use pass_keeper.Cipher.Unterminated.{with_kdf, with_hmac, algorithm_unterminated}
use pass_keeper.Cipher.Sql.{print_d, pragma, format_apply_cc_sqlstr, page_name}
use pass_keeper.Cipher.Statements.{format_lem}
use pass_keeper.Cipher.Printed.{strtou-print_d}
use pass_keeper.Strtou.{strtou, converted}

-- A stand-in for SHA-256.
abbrev zeros : List ℕ → List ℕ
zeros m = replicate 32 0

abbrev settings : CipherConfig
settings = numbers 3 8192

persisted_lem_example :
    Returns
      (λ file.
        (resolve_cipher_config zeros file ≡ some (file, 26))
        × (deserialize_cipher_config cc_init ck_init file 26
            ≡ read_all (fields_of settings none none ck_init) cc_init ck_init))
      (persist_cipher_config 170 zeros settings ck_init)
unfolding to_bytes
persisted_lem_example =
    persisted_lem 170 zeros (λ m. length-replicate {A = ℕ} 32 0) settings none none ck_init tt tt tt
      (omega arith) (omega arith) cc_init ck_init

-- A passphrase of two bytes.
abbrev key : CipherKey
key = record { buf = bytes (b'h' ∷ b'i' ∷ []); len = 2; is_binary = false }

key_lost_example :
    Returns
      (λ r. KeyStops false (deserialize_cipher_config cc_init ck_init r.0 r.1))
      (serialize_cipher_config 170 cc_init key)
unfolding to_bytes
key_lost_example =
    key_lost 170 cc_init none none key (b'h' ∷ b'i' ∷ []) tt tt refl (omega arith) (omega arith)
      cc_init ck_init

numbers_shift_example :
    Returns
      (λ r.
        deserialize_cipher_config cc_init ck_init r.0 r.1
        ≡ ok (complete (record cc_init { page_size = 3; kdf_iter = 8192 }) ck_init))
      (serialize_cipher_config 170 (numbers 3 8192) ck_init)
numbers_shift_example =
    numbers_shift 170 3 8192 (omega arith) (omega arith) (omega arith) (omega arith)

algorithm_unterminated_example :
    Returns
      (λ r.
        deserialize_cipher_config cc_init ck_init r.0 r.1
        ≡ ok (complete (with_hmac (b'X' ∷ [])) ck_init))
      (serialize_cipher_config 170 (with_kdf (b'X' ∷ [])) ck_init)
    × (format_apply_cc_sqlstr 170 (with_hmac (b'X' ∷ [])) ≡ fault)
unfolding same_string
algorithm_unterminated_example =
    algorithm_unterminated 170 (b'X' ∷ []) (refl, tt) refl (omega arith)

format_lem_example :
    format_apply_cc_sqlstr 170 (record cc_init { page_size = 512 })
    ≡ ok (some (pragma page_name (b'5' ∷ b'1' ∷ b'2' ∷ [])))
unfolding pragma
format_lem_example =
    format_lem 170 (record cc_init { page_size = 512 }) none none tt tt tt tt (omega arith)

strtou-print_d_example : strtou (print_d 4096) ≡ converted 4096
strtou-print_d_example = strtou-print_d 4096 (omega arith)

-- 513 is no power of two, and 3 is not even in the range.
page_sizes : (is_cc_page_size 513 ≡ true) × (is_cc_page_size 3 ≡ true)
unfolding is_cc_page_size in_range_i is_pow2
page_sizes = (refl, refl)
