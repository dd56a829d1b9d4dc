-- ===== src/Cipher/Unterminated.antt =====
-- src/cipher-config.c: the name of an algorithm, written to a file and read back.
use pass_keeper.Prelude.{
  ℕ, ◌+◌, ◌^◌, ◌<◌, ◌≡◌, refl, ap, ◌∙◌, false, List, [], ◌∷◌, ◌++◌, none, some, ok, fault, Returns,
  Returns-map, if_not, ◌==◌, length, length-append, load, arith,
}
use pass_keeper.Cipher.{
  CipherConfig, cc_init, ck_init, c_string, same_string, complete, serialize_cipher_config,
  deserialize_cipher_config, default_kdf_algorithm, set_pointer,
}
use pass_keeper.Cipher.Fields.{bytes_of, length-field, field}
use pass_keeper.Cipher.Written.{fields_of}
use pass_keeper.Cipher.Reading.{read_all}
use pass_keeper.Cipher.Misread.{deserialize-serialize}
use pass_keeper.Cipher.Sql.{apply_algorithm, apply_settings, format_apply_cc_sqlstr}

abbrev pub NoNul : List ℕ → Type 0
NoNul [] = Unit
NoNul (c ∷ str) = ((c == 0) ≡ false) × NoNul str

pub c_string-terminated : (str : List ℕ) → NoNul str → c_string (str ++ 0 ∷ []) ≡ ok str
unfolding c_string
c_string-terminated [] h = refl
c_string-terminated (c ∷ str) h = rw (h.0, c_string-terminated str h.1) refl

c_string-fault : (str : List ℕ) → NoNul str → c_string str ≡ fault
unfolding c_string
c_string-fault [] h = refl
c_string-fault (c ∷ str) h = rw (h.0, c_string-fault str h.1) refl

-- Settings with that algorithm for the key derivation.
abbrev pub with_kdf : List ℕ → CipherConfig
with_kdf str = record cc_init { kdf_algorithm = some (str ++ 0 ∷ []) }

-- What the reader makes of them.
abbrev pub with_hmac : List ℕ → CipherConfig
with_hmac str = record cc_init { hmac_algorithm = some str }

-- A key derivation algorithm other than the default, in fewer than 2^54 characters, where all
-- other settings are default and there is no key, is read back from its file as the HMAC
-- algorithm, in an array without a NUL, behind whose end format_apply_cc_sqlstr then reads.
pub algorithm_unterminated :
    (junk : ℕ) (str : List ℕ)
    → NoNul str
    → same_string str default_kdf_algorithm ≡ false
    → length str < 2 ^ 54
    → Returns
        (λ r.
          deserialize_cipher_config cc_init ck_init r.0 r.1 ≡ ok (complete (with_hmac str) ck_init))
        (serialize_cipher_config junk (with_kdf str) ck_init)
      × (format_apply_cc_sqlstr junk (with_hmac str) ≡ fault)
unfolding load set_pointer format_apply_cc_sqlstr apply_settings apply_algorithm
algorithm_unterminated junk str h other short =
    let one : fields_of (with_kdf str) (some str) none ck_init ≡ (1, str) ∷ [] =
      ap (λ fs. fs ++ [])
        (if_not (same_string str default_kdf_algorithm) other [] ((1, str) ∷ [])) in
    let size : length (bytes_of (fields_of (with_kdf str) (some str) none ck_init))
        ≡ 9 + length str =
      ap (λ fs. length (bytes_of fs)) one
      ∙ omega (arith, length-append (field (1, str)) [], length-field (1, str)) in
    (
      Returns-map
          (deserialize-serialize junk (with_kdf str) (some str) none ck_init
            (c_string-terminated str h) tt tt (omega (arith, size)) cc_init ck_init
            (omega (arith, ap length one)))
          (λ r e. e ∙ ap (λ fs. read_all fs cc_init ck_init) one),
      rw (c_string-fault str h) refl,
    )
