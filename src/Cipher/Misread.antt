-- ===== src/Cipher/Misread.antt =====
-- src/cipher-config.c: what comes back of settings that were written.
use pass_keeper.Prelude.{
  ℕ, ◌^◌, ◌<◌, ◌≡◌, ap, ◌∙◌, Bool, true, false, List, [], ◌∷◌, ◌++◌, Option, none, some, Returns,
  Returns-map, if◌then◌else◌, ◌==◌, length, length-append, arith,
}
use pass_keeper.Cipher.{
  CipherConfig, CipherKey, KeyBuffer, null, clobbered, bytes, to_bytes, same_string,
  serialize_cipher_config, deserialize_cipher_config, default_kdf_algorithm, default_hmac_algorithm,
}
use pass_keeper.Cipher.Fields.{Field, field, bytes_of, length-field}
use pass_keeper.Cipher.Written.{
  PointsTo, IsKey, algorithm_field, number_field, key_field, fields_of, serialize_lem,
}
use pass_keeper.Cipher.Reading.{read_all, AreFields, deserialize_lem}

-- Types that the reader knows.
abbrev pub KnownTypes : List Field → Type 0
KnownTypes [] = Unit
KnownTypes (f ∷ fs) = (0 < f.0) × (f.0 < 9) × KnownTypes fs

KnownTypes-AreFields :
    (fs : List Field) → length (bytes_of fs) < 2 ^ 55 → KnownTypes fs → AreFields fs
KnownTypes-AreFields [] h k = tt
KnownTypes-AreFields (f ∷ fs) h (low, high, k) =
    let whole = length-append (field f) (bytes_of fs) in
    (
      low,
      high,
      omega (arith, whole, length-field f),
      KnownTypes-AreFields fs (omega (arith, whole)) k,
    )

KnownTypes-append : (fs gs : List Field) → KnownTypes fs → KnownTypes gs → KnownTypes (fs ++ gs)
KnownTypes-append [] gs h k = k
KnownTypes-append (f ∷ fs) gs (low, high, h) k = (low, high, KnownTypes-append fs gs h k)

optional : (b : Bool) (f : Field) → 0 < f.0 → f.0 < 9 → KnownTypes (if b then [] else f ∷ [])
optional true f low high = tt
optional false f low high = (low, high, tt)

algorithm_field-KnownTypes :
    (type : ℕ) (default : List ℕ) (str : Option (List ℕ))
    → 0 < type
    → type < 9
    → KnownTypes (algorithm_field type default str)
algorithm_field-KnownTypes type default none low high = tt
algorithm_field-KnownTypes type default (some str) low high =
    optional (same_string str default) (type, str) low high

key_field-KnownTypes : (key : CipherKey) (buf : KeyBuffer) → KnownTypes (key_field key buf)
key_field-KnownTypes key null = tt
key_field-KnownTypes key clobbered = tt
key_field-KnownTypes key (bytes array) = (ground arith, ground arith, tt)

module _ (config : CipherConfig) (kdf hmac : Option (List ℕ)) (key : CipherKey) where
  pub fields_of-KnownTypes : KnownTypes (fields_of config kdf hmac key)
  fields_of-KnownTypes =
      KnownTypes-append (algorithm_field 1 default_kdf_algorithm kdf) _
        (algorithm_field-KnownTypes 1 default_kdf_algorithm kdf (omega arith) (omega arith))
        (KnownTypes-append (algorithm_field 2 default_hmac_algorithm hmac) _
          (algorithm_field-KnownTypes 2 default_hmac_algorithm hmac (omega arith) (omega arith))
          (KnownTypes-append (number_field 3 4 config.compatibility) _
            (optional (config.compatibility == 4) (3, to_bytes 4 config.compatibility) (omega arith)
              (omega arith))
            (KnownTypes-append (number_field 4 4096 config.page_size) _
              (optional (config.page_size == 4096) (4, to_bytes 4 config.page_size) (omega arith)
                (omega arith))
              (KnownTypes-append (number_field 5 256000 config.kdf_iter) _
                (optional (config.kdf_iter == 256000) (5, to_bytes 4 config.kdf_iter) (omega arith)
                  (omega arith))
                (key_field-KnownTypes key key.buf)))))

pub deserialize-bytes_of :
    (fs : List Field) (rest : List ℕ) (config : CipherConfig) (key : CipherKey)
    → 0 < length fs
    → length (bytes_of fs) < 2 ^ 55
    → KnownTypes fs
    → deserialize_cipher_config config key (bytes_of fs ++ rest) (length (bytes_of fs))
      ≡ read_all fs config key
deserialize-bytes_of [] rest config key h s k = absurd (omega arith)
deserialize-bytes_of (f ∷ fs) rest config key h s k =
    deserialize_lem f fs rest config key (KnownTypes-AreFields (f ∷ fs) s k)

module _ (junk : ℕ) (config : CipherConfig) (kdf hmac : Option (List ℕ)) (key : CipherKey)
    (p : PointsTo config.kdf_algorithm kdf) (q : PointsTo config.hmac_algorithm hmac)
    (k : IsKey key key.buf)
    (small : length (bytes_of (fields_of config kdf hmac key)) < 2 ^ 55) where
  -- Of settings that differ from the defaults, or a key, the reader takes up the fields, each as
  -- read_all says.
  pub deserialize-serialize :
      (config0 : CipherConfig) (key0 : CipherKey)
      → 0 < length (fields_of config kdf hmac key)
      → Returns
          (λ r.
            deserialize_cipher_config config0 key0 r.0 r.1
            ≡ read_all (fields_of config kdf hmac key) config0 key0)
          (serialize_cipher_config junk config key)
  deserialize-serialize config0 key0 h =
      Returns-map (serialize_lem junk config kdf hmac key p q k small) (λ r s.
        ap (λ b. deserialize_cipher_config config0 key0 b r.1) s.memory
        ∙ (ap
              (deserialize_cipher_config config0 key0
                (bytes_of (fields_of config kdf hmac key) ++ s.rest))
              s.len
            ∙ deserialize-bytes_of (fields_of config kdf hmac key) s.rest config0 key0 h small
                (fields_of-KnownTypes config kdf hmac key)))
