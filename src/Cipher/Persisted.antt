-- ===== src/Cipher/Persisted.antt =====
-- src/cipher-config.c: a file of settings that was written, found whole, and read.
use pass_keeper.Prelude.{
  ℕ, ◌+◌, ◌-◌, ◌^◌, ◌≤◌, ◌<◌, ◌≡◌, refl, sym, ap, subst, ◌∙◌, true, false, List, [], ◌∷◌, ◌++◌,
  append_assoc, Option, some, ok, ◌>>=◌, Returns, Returns-bind, ltb, length, length-append, drop,
  take-append, drop-append, take_all, copy_to, copy_to-append, copy_from, copy_from-append, arith,
}
use pass_keeper.Cipher.{
  CipherConfig, CipherKey, same_string, serialize_cipher_config, deserialize_cipher_config,
}
use pass_keeper.Cipher.Fields.{bytes_of}
use pass_keeper.Cipher.Written.{PointsTo, IsKey, fields_of, serialize_lem}
use pass_keeper.Cipher.Reading.{read_all}
use pass_keeper.Cipher.Misread.{fields_of-KnownTypes, deserialize-bytes_of}
use pass_keeper.Cipher.Files.{verify_digest_sha256, persist_cipher_config, resolve_cipher_config}

same_string_refl : (str : List ℕ) → same_string str str ≡ true
unfolding same_string
same_string_refl [] = refl
same_string_refl (c ∷ str) = ground (arith, same_string_refl str)

module _ (junk : ℕ) (digest : List ℕ → List ℕ) (size : (m : List ℕ) → length (digest m) ≡ 32)
    (config : CipherConfig) (kdf hmac : Option (List ℕ)) (key : CipherKey)
    (p : PointsTo config.kdf_algorithm kdf) (q : PointsTo config.hmac_algorithm hmac)
    (k : IsKey key key.buf) (some_field : 0 < length (fields_of config kdf hmac key))
    (small : length (bytes_of (fields_of config kdf hmac key)) < 2 ^ 55) where
  abbrev text : List ℕ
  text = bytes_of (fields_of config kdf hmac key)

  resolve_lem :
      (t : List ℕ) → resolve_cipher_config digest (t ++ digest t) ≡ some (t ++ digest t, length t)
  unfolding resolve_cipher_config verify_digest_sha256
  resolve_lem t =
      let whole = length-append t (digest t) in
      let enough : ltb (length (t ++ digest t)) 32 ≡ false = ground (arith, size t, whole) in
      let place : length (t ++ digest t) - 32 ≡ length t = omega (arith, size t, whole) in
      rw
        (
          enough,
          place,
          take-append t (digest t),
          drop-append t (digest t),
          take_all (digest t) 32 (omega (arith, size t)),
          same_string_refl (digest t),
        )
        refl

  digest_added :
      (t rest : List ℕ)
      → 32 ≤ length rest
      → (copy_from (t ++ rest) 0 (length t) >>= λ message.
          copy_to (t ++ rest) (length t) (digest message) >>= λ buf'.
          copy_from buf' 0 (length t + 32))
        ≡ ok (t ++ digest t)
  digest_added t rest room =
      let left : List ℕ = drop (length (digest t)) rest in
      rw
        (
          copy_from-append [] t rest 0 (length t) refl refl,
          copy_to-append t rest (digest t) (length t) refl (omega (arith, size t, room)),
        )
        (ap (λ b. copy_from b 0 (length t + 32)) (sym (append_assoc t (digest t) left))
          ∙ copy_from-append [] (t ++ digest t) left 0 (length t + 32) refl
              (omega (arith, size t, length-append t (digest t))))

  -- What is written is the fields and their digest.
  persist_lem :
      Returns (λ file. file ≡ text ++ digest text) (persist_cipher_config junk digest config key)
  unfolding persist_cipher_config
  persist_lem =
      Returns-bind (serialize_cipher_config junk config key) _
        (serialize_lem junk config kdf hmac key p q k small)
        (λ r s. (_, added r.0 r.1 s.rest s.memory s.len s.room, refl))
    where
      added :
          (buf : List ℕ) (len : ℕ) (rest : List ℕ)
          → buf ≡ text ++ rest
          → len ≡ length text
          → 32 ≤ length rest
          → (copy_from buf 0 len >>= λ message.
              copy_to buf len (digest message) >>= λ buf'. copy_from buf' 0 (len + 32))
            ≡ ok (text ++ digest text)
      added buf len rest e n room = rw (e, n) (digest_added text rest room)

  -- The file that init writes of settings that are not all default, or of a key, is accepted by
  -- resolve_cipher_config, for any digest of 32 bytes, with the length of its fields, and
  -- deserialize_cipher_config then takes its fields in their order, each as read_all says;
  -- strings are NUL-terminated, the key is as long as it says, and all fields are shorter than
  -- 2^55 bytes.
  pub persisted_lem :
      (config0 : CipherConfig) (key0 : CipherKey)
      → Returns
          (λ file.
            (resolve_cipher_config digest file ≡ some (file, length text))
            × (deserialize_cipher_config config0 key0 file (length text)
                ≡ read_all (fields_of config kdf hmac key) config0 key0))
          (persist_cipher_config junk digest config key)
  persisted_lem config0 key0 =
      let r = persist_lem in
      (
        r.0,
        r.1,
        (
          subst (λ f. resolve_cipher_config digest f ≡ some (f, length text)) (sym r.2)
              (resolve_lem text),
          ap (λ f. deserialize_cipher_config config0 key0 f (length text)) r.2
              ∙ deserialize-bytes_of (fields_of config kdf hmac key) (digest text) config0 key0
                  some_field small (fields_of-KnownTypes config kdf hmac key),
        ),
      )
