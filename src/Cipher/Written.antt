-- ===== src/Cipher/Written.antt =====
-- src/cipher-config.c: what serialize_cipher_config writes.
use pass_keeper.Prelude.{
  ℕ, ◌+◌, ◌^◌, ◌≤◌, ◌<◌, ◌≡◌, refl, sym, ap, subst, ◌∙◌, Bool, true, false, List, [], ◌∷◌, ◌++◌,
  append-nil, append_assoc, Option, none, some, Outcome, ok, ◌>>=◌, Returns, Returns-bind,
  if◌then◌else◌, ◌==◌, leb, length, length-append, take, copy_from, wrap, arith,
}
use pass_keeper.Cipher.{
  CipherConfig, CipherKey, KeyBuffer, null, clobbered, bytes, Blob, grow, append_field, to_bytes,
  c_string, same_string, put_algorithm, put_number, put_key, put_fields, serialize_cipher_config,
  default_kdf_algorithm, default_hmac_algorithm, default_compatibility, default_page_size,
  default_kdf_iter, field_kdf_algorithm, field_hmac_algorithm, field_compatibility, field_page_size,
  field_kdf_iter,
}
use pass_keeper.Cipher.Bytes.{blob_of, HasBytes, grow_lem}
use pass_keeper.Cipher.Fields.{Field, bytes_of, bytes_of-append, Adds, append_field-Adds}

-- The pointer is null, or points to that string.
abbrev pub PointsTo : Option (List ℕ) → Option (List ℕ) → Type 0
PointsTo none none = Unit
PointsTo (some array) (some str) = c_string array ≡ ok str
PointsTo _ _ = ⊥

abbrev pub algorithm_field : ℕ → List ℕ → Option (List ℕ) → List Field
algorithm_field type default none = []
algorithm_field type default (some str) = if same_string str default then [] else (type, str) ∷ []

abbrev pub number_field : ℕ → (default n : ℕ) → List Field
number_field type default n = if n == default then [] else (type, to_bytes 4 n) ∷ []

abbrev pub key_field : CipherKey → KeyBuffer → List Field
key_field key null = []
key_field key clobbered = []
key_field key (bytes array) = (if key.is_binary then 7 else 6, take key.len array) ∷ []

-- The key has the bytes that it says.
abbrev pub IsKey : CipherKey → KeyBuffer → Type 0
IsKey key null = Unit
IsKey key clobbered = ⊥
IsKey key (bytes array) = key.len ≤ length array

Adds-none : Adds (λ blob. ok blob) []
Adds-none t rest h = (
  blob_of t rest,
  refl,
  (
    rest,
    ap (λ u. record { buf = u ++ rest; size = length u; cap = length u + length rest })
        (sym (append-nil t)),
    omega arith,
  ),
)

Adds-if :
    (b : Bool) (f g : Blob → Outcome Blob) (fs gs : List Field)
    → Adds f fs
    → Adds g gs
    → Adds (λ blob. if b then f blob else g blob) (if b then fs else gs)
Adds-if true f g fs gs h k = h
Adds-if false f g fs gs h k = k

put_algorithm-Adds :
    (junk type : ℕ) (default : List ℕ) (pointer : Option (List ℕ)) (str : Option (List ℕ))
    → type < 256
    → PointsTo pointer str
    → Adds (put_algorithm junk type default pointer) (algorithm_field type default str)
unfolding put_algorithm
put_algorithm-Adds junk type default none none h p = Adds-none
put_algorithm-Adds junk type default none (some str) h p = absurd p
put_algorithm-Adds junk type default (some array) none h p = absurd p
put_algorithm-Adds junk type default (some array) (some str) h p =
    subst
      (λ m.
        Adds
          (λ blob.
            m >>= λ a. if same_string a default then ok blob else append_field junk blob type a)
          (algorithm_field type default (some str)))
      (sym p)
      (Adds-if (same_string str default) (λ blob. ok blob) (λ blob. append_field junk blob type str)
        [] _ Adds-none (append_field-Adds junk type str h))

put_number-Adds :
    (junk type default n : ℕ)
    → type < 256
    → Adds (put_number junk type default n) (number_field type default n)
unfolding put_number
put_number-Adds junk type default n h =
    Adds-if (n == default) (λ blob. ok blob) (λ blob. append_field junk blob type (to_bytes 4 n)) []
      _ Adds-none (append_field-Adds junk type (to_bytes 4 n) h)

put_key-Adds :
    (junk : ℕ) (key : CipherKey) (buf : KeyBuffer)
    → IsKey key buf
    → Adds (put_key junk key buf) (key_field key buf)
unfolding put_key copy_from
put_key-Adds junk key null k = Adds-none
put_key-Adds junk key clobbered k = absurd k
put_key-Adds junk key (bytes array) k =
    let type : ℕ = if key.is_binary then 7 else 6 in
    let inside : leb (0 + key.len) (length array) ≡ true = ground arith in
    rw (copy_from, inside) (append_field-Adds junk type (take key.len array) (ground arith))

-- The fields of settings and a key, in the order of the file.
abbrev pub fields_of : CipherConfig → (kdf hmac : Option (List ℕ)) → CipherKey → List Field
fields_of config kdf hmac key =
    algorithm_field field_kdf_algorithm default_kdf_algorithm kdf
    ++ (algorithm_field field_hmac_algorithm default_hmac_algorithm hmac
        ++ (number_field field_compatibility default_compatibility config.compatibility
            ++ (number_field field_page_size default_page_size config.page_size
                ++ (number_field field_kdf_iter default_kdf_iter config.kdf_iter
                    ++ key_field key key.buf))))

-- One call, then others.
Adds-then :
    (f g : Blob → Outcome Blob) (fs gs : List Field)
    → Adds f fs
    → Adds g gs
    → Adds (λ blob. f blob >>= g) (fs ++ gs)
Adds-then f g fs gs h k t rest small =
    let split = bytes_of-append fs gs in
    let size = length-append (bytes_of fs) (bytes_of gs) in
    let total = ap length split in
    Returns-bind (f (blob_of t rest)) g (h t rest (omega (arith, size, total))) (λ blob r.
      subst (λ b. Returns (HasBytes (t ++ bytes_of (fs ++ gs)) 0) (g b)) (sym r.1)
        (subst (λ u. Returns (HasBytes u 0) (g (blob_of (t ++ bytes_of fs) r.0)))
          (append_assoc t (bytes_of fs) (bytes_of gs) ∙ ap (t ++◌) (sym split))
          (k (t ++ bytes_of fs) r.0 (omega (arith, size, total, length-append t (bytes_of fs))))))

-- The bytes of the file, and room for a digest behind them.
pub record IsSerialized (fs : List Field) (r : List ℕ × ℕ) : Type 0 where
  pub rest : List ℕ
  pub memory : r.0 ≡ bytes_of fs ++ rest
  pub len : r.1 ≡ length (bytes_of fs)
  pub room : 32 ≤ length rest

module _ (junk : ℕ) (config : CipherConfig) (kdf hmac : Option (List ℕ)) (key : CipherKey) where
  put_fields-Adds :
      PointsTo config.kdf_algorithm kdf
      → PointsTo config.hmac_algorithm hmac
      → IsKey key key.buf
      → Adds (put_fields junk config key) (fields_of config kdf hmac key)
  unfolding put_fields
  put_fields-Adds p q k =
      Adds-then (put_algorithm junk 1 default_kdf_algorithm config.kdf_algorithm) _ _ _
        (put_algorithm-Adds junk 1 default_kdf_algorithm config.kdf_algorithm kdf (omega arith) p)
        (Adds-then (put_algorithm junk 2 default_hmac_algorithm config.hmac_algorithm) _ _ _
          (put_algorithm-Adds junk 2 default_hmac_algorithm config.hmac_algorithm hmac (omega arith)
            q)
          (Adds-then (put_number junk 3 4 config.compatibility) _ _ _
            (put_number-Adds junk 3 4 config.compatibility (omega arith))
            (Adds-then (put_number junk 4 4096 config.page_size) _ _ _
              (put_number-Adds junk 4 4096 config.page_size (omega arith))
              (Adds-then (put_number junk 5 256000 config.kdf_iter) (put_key junk key key.buf) _ _
                (put_number-Adds junk 5 256000 config.kdf_iter (omega arith))
                (put_key-Adds junk key key.buf k)))))

  pub serialize_lem :
      PointsTo config.kdf_algorithm kdf
      → PointsTo config.hmac_algorithm hmac
      → IsKey key key.buf
      → length (bytes_of (fields_of config kdf hmac key)) < 2 ^ 55
      → Returns
          (IsSerialized (fields_of config kdf hmac key))
          (serialize_cipher_config junk config key)
  unfolding serialize_cipher_config
  serialize_lem p q k small =
      let fs = fields_of config kdf hmac key in
      Returns-bind (grow junk (blob_of [] []) 64) _ (grow_lem junk [] [] 64 64 refl (omega arith))
        (λ blob r. Returns-bind (put_fields junk config key blob) _ (start blob r) (λ full r.
          Returns-bind (grow junk full (wrap (full.size + 32))) _ (more full r) (λ roomy r. (
            (roomy.buf, roomy.size),
            refl,
            record {
              rest = r.0;
              memory = ap (λ b. b.buf) r.1;
              len = ap (λ b. b.size) r.1;
              room = r.2;
            },
          ))))
    where
      start :
          (blob : Blob)
          → HasBytes [] 64 blob
          → Returns
              (HasBytes (bytes_of (fields_of config kdf hmac key)) 0)
              (put_fields junk config key blob)
      start blob r =
          subst
            (λ b.
              Returns (HasBytes (bytes_of (fields_of config kdf hmac key)) 0)
                (put_fields junk config key b))
            (sym r.1) (put_fields-Adds p q k [] r.0 (omega arith))

      more :
          (full : Blob)
          → HasBytes (bytes_of (fields_of config kdf hmac key)) 0 full
          → Returns
              (HasBytes (bytes_of (fields_of config kdf hmac key)) 32)
              (grow junk full (wrap (full.size + 32)))
      more full r =
          subst
            (λ b.
              Returns (HasBytes (bytes_of (fields_of config kdf hmac key)) 32)
                (grow junk b (wrap (b.size + 32))))
            (sym r.1)
            (grow_lem junk (bytes_of (fields_of config kdf hmac key)) r.0 32 _ (omega arith)
              (omega arith))
