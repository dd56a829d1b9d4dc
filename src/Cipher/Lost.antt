-- ===== src/Cipher/Lost.antt =====
-- src/cipher-config.c: a key does not come back, and a number comes back as another one.
use pass_keeper.Prelude.{
  ℕ, ◌^◌, ◌≤◌, ◌<◌, ◌≡◌, ◌≢◌, refl, sym, ap, ap₂, subst, ◌∙◌, false, List, [], ◌∷◌, ◌++◌,
  append_assoc, Option, none, ok, Returns, Returns-map, if◌then◌else◌, if_not, ◌==◌, length,
  length-append, arith, take, load,
}
use pass_keeper.Cipher.{
  CipherConfig, CipherKey, bytes, default_kdf_algorithm, default_hmac_algorithm, cc_init, ck_init,
  to_bytes, complete, serialize_cipher_config, deserialize_cipher_config, overwrite, set_memory,
}
use pass_keeper.Cipher.Bytes.{of_bytes-to_bytes}
use pass_keeper.Cipher.Fields.{Field, bytes_of}
use pass_keeper.Cipher.Written.{
  PointsTo, IsKey, algorithm_field, number_field, key_field, fields_of,
}
use pass_keeper.Cipher.Reading.{read_all}
use pass_keeper.Cipher.Stops.{
  KeyStops, AreReadable, read_all-key, AreReadable-append, AreReadable-if, AreReadable-algorithm,
  algorithm-readable, hmac-readable, compat-readable, page-readable, iter-readable,
}
use pass_keeper.Cipher.Misread.{deserialize-serialize}

append_five :
    (xs bs cs ds es fs : List Field)
    → (xs ++ (bs ++ (cs ++ (ds ++ es)))) ++ fs ≡ xs ++ (bs ++ (cs ++ (ds ++ (es ++ fs))))
append_five xs bs cs ds es fs =
    append_assoc xs (bs ++ (cs ++ (ds ++ es))) fs
    ∙ ap (xs ++◌) (
        append_assoc bs (cs ++ (ds ++ es)) fs
        ∙ ap (bs ++◌) (append_assoc cs (ds ++ es) fs ∙ ap (cs ++◌) (append_assoc ds es fs)))

module _ (junk : ℕ) (config : CipherConfig) (kdf hmac : Option (List ℕ)) (key : CipherKey)
    (array : List ℕ) (p : PointsTo config.kdf_algorithm kdf)
    (q : PointsTo config.hmac_algorithm hmac) (has_key : key.buf ≡ bytes array)
    (k : key.len ≤ length array)
    (small : length (bytes_of (fields_of config kdf hmac key)) < 2 ^ 55) where
  -- The fields before the key.
  abbrev others : List Field
  others =
      algorithm_field 1 default_kdf_algorithm kdf
      ++ (algorithm_field 2 default_hmac_algorithm hmac
          ++ (number_field 3 4 config.compatibility
              ++ (number_field 4 4096 config.page_size ++ number_field 5 256000 config.kdf_iter)))

  key_last :
      fields_of config kdf hmac key
      ≡ others ++ ((if key.is_binary then 7 else 6), take key.len array) ∷ []
  key_last =
      ap
        (λ u.
          algorithm_field 1 default_kdf_algorithm kdf
          ++ (algorithm_field 2 default_hmac_algorithm hmac
              ++ (number_field 3 4 config.compatibility
                  ++ (number_field 4 4096 config.page_size
                      ++ (number_field 5 256000 config.kdf_iter ++ u)))))
        (ap (key_field key) has_key)
      ∙ sym (
          append_five (algorithm_field 1 default_kdf_algorithm kdf)
            (algorithm_field 2 default_hmac_algorithm hmac) (number_field 3 4 config.compatibility)
            (number_field 4 4096 config.page_size) (number_field 5 256000 config.kdf_iter) _)

  others-AreReadable : AreReadable others
  others-AreReadable =
      AreReadable-append (algorithm_field 1 default_kdf_algorithm kdf) _
        (AreReadable-algorithm 1 default_kdf_algorithm kdf algorithm-readable)
        (AreReadable-append (algorithm_field 2 default_hmac_algorithm hmac) _
          (AreReadable-algorithm 2 default_hmac_algorithm hmac hmac-readable)
          (AreReadable-append (number_field 3 4 config.compatibility) _
            (AreReadable-if (config.compatibility == 4) _ (compat-readable _))
            (AreReadable-append (number_field 4 4096 config.page_size) _
              (AreReadable-if (config.page_size == 4096) _ (page-readable _))
              (AreReadable-if (config.kdf_iter == 256000) _ (iter-readable _)))))

  -- Of a file with a key deserialize_cipher_config never returns, whatever other settings the
  -- file has, for terminated strings, a key as long as it says, and fewer than 2^55 bytes: with a
  -- binary key it reads or writes outside an object, and with a passphrase it does that or exits
  -- by bug().
  pub key_lost :
      (config0 : CipherConfig) (key0 : CipherKey)
      → Returns
          (λ r. KeyStops key.is_binary (deserialize_cipher_config config0 key0 r.0 r.1))
          (serialize_cipher_config junk config key)
  key_lost config0 key0 =
      Returns-map
        (deserialize-serialize junk config kdf hmac key p q (subst (IsKey key) (sym has_key) k)
          small config0 key0
          (omega (
            arith,
            ap length key_last,
            length-append others (((if key.is_binary then 7 else 6), take key.len array) ∷ []),
          )))
        (λ r e.
          subst (KeyStops key.is_binary) (sym (e ∙ ap (λ fs. read_all fs config0 key0) key_last)) (
            read_all-key others key.is_binary (take key.len array) config0 key0 others-AreReadable))

-- The reading of a four-byte number.
overwrite_lem : (old n : ℕ) → n < 2 ^ 32 → overwrite old (to_bytes 4 n) ≡ ok n
unfolding overwrite to_bytes
overwrite_lem old n h = ap ok (of_bytes-to_bytes 4 n h)

-- Settings with these numbers, and the default algorithms and rounds.
abbrev pub numbers : (compatibility page_size : ℕ) → CipherConfig
numbers compat page = record cc_init { compatibility = compat; page_size = page }

number_field_lem :
    (type default n : ℕ) → n ≢ default → number_field type default n ≡ (type, to_bytes 4 n) ∷ []
number_field_lem type default n h =
    let other : (n == default) ≡ false = ground arith in
    if_not (n == default) other [] ((type, to_bytes 4 n) ∷ [])

-- A compatibility that is written to a file is read back as the page size, and a page size as the
-- rounds of the key derivation, where both fit an unsigned and differ from their defaults, all
-- other settings are default, and there is no key.
pub numbers_shift :
    (junk compat page : ℕ)
    → compat < 2 ^ 32
    → page < 2 ^ 32
    → compat ≢ 4
    → page ≢ 4096
    → Returns
        (λ r.
          deserialize_cipher_config cc_init ck_init r.0 r.1
          ≡ ok (complete (record cc_init { page_size = compat; kdf_iter = page }) ck_init))
        (serialize_cipher_config junk (numbers compat page) ck_init)
unfolding load set_memory to_bytes
numbers_shift junk compat page h k c p =
    let both : fields_of (numbers compat page) none none ck_init
        ≡ (3, to_bytes 4 compat) ∷ ((4, to_bytes 4 page) ∷ []) =
      ap₂ (λ fs gs. fs ++ (gs ++ [])) (number_field_lem 3 4 compat c)
        (number_field_lem 4 4096 page p) in
    Returns-map
      (deserialize-serialize junk (numbers compat page) none none ck_init tt tt tt
        (omega (arith, ap (λ fs. length (bytes_of fs)) both)) cc_init ck_init
        (omega (arith, ap length both)))
      (λ r e.
        e
        ∙ (ap (λ fs. read_all fs cc_init ck_init) both
            ∙ rw (overwrite_lem 4096 compat h, overwrite_lem 256000 page k) refl))
