-- ===== src/Cipher/Reading.antt =====
-- src/cipher-config.c: what deserialize_cipher_config makes of a file of fields.
use pass_keeper.Prelude.{
  ℕ, zero, suc, ◌+◌, ◌^◌, ◌≤◌, ◌<◌, ◌≡◌, refl, sym, ap, ◌∙◌, true, false, ◌&&◌, ◌||◌, List, [], ◌∷◌,
  ◌++◌, append_assoc, Outcome, ok, bugged, fault, ◌>>=◌, if◌then◌else◌, ◌==◌, ltb, leb, length,
  length-append, load, load-append, copy_from, copy_from-append, arith,
}
use pass_keeper.Cipher.{
  CipherConfig, CipherKey, fmap, set_pointer, set_memory, read_field, st_buf_inc, in_range_e,
  to_bytes, of_bytes, Deserialized, complete, deserialize_loop, deserialize_cipher_config,
}
use pass_keeper.Cipher.Bytes.{length-to_bytes, of_bytes-to_bytes}
use pass_keeper.Cipher.Fields.{Field, field, bytes_of, length-field}

-- What a field changes.
abbrev pub absorb : Field → CipherConfig → CipherKey → Outcome (CipherConfig × CipherKey)
absorb f config key =
    if f.0 == 1 || f.0 == 2
    then (load fmap f.0 >>= λ target. set_pointer target f.1 config key)
    else if leb 3 f.0 && leb f.0 5
    then (load fmap f.0 >>= λ target. set_memory target f.1 config key)
    else if f.0 == 7 || f.0 == 8
    then (load fmap 6 >>= λ target. set_pointer target f.1 config key >>= λ r.
        ok (r.0, record (r.1) { len = length f.1; is_binary = f.0 == 8 }))
    else bugged

abbrev pub read_all : List Field → CipherConfig → CipherKey → Outcome Deserialized
read_all [] config key = fault
read_all (f ∷ []) config key = absorb f config key >>= λ r. ok (complete r.0 r.1)
read_all (f ∷ (g ∷ fs)) config key = absorb f config key >>= λ r. read_all (g ∷ fs) r.0 r.1

-- A type that the reader knows, and a number of bytes that a size_t holds.
abbrev pub AreFields : List Field → Type 0
AreFields [] = Unit
AreFields (f ∷ fs) = (0 < f.0) × (f.0 < 9) × (length f.1 < 2 ^ 64) × AreFields fs

read_field-absorb :
    (type : ℕ) (buf : List ℕ) (at dtlen : ℕ) (content : List ℕ) (config : CipherConfig)
    (key : CipherKey)
    → copy_from buf at dtlen ≡ ok content
    → dtlen ≡ length content
    → read_field type buf at dtlen config key ≡ absorb (type, content) config key
unfolding read_field
read_field-absorb type buf at dtlen content config key e n = rw (e, n) refl

-- One round: the field is read, and the next one begins behind it.
round_lem :
    (fuel : ℕ) (pre : List ℕ) (f : Field) (post : List ℕ) (len at : ℕ) (config : CipherConfig)
    (key : CipherKey)
    → at ≡ length pre
    → 0 < f.0
    → f.0 < 9
    → length f.1 < 2 ^ 64
    → length pre + length (field f) ≤ len
    → deserialize_loop (suc fuel) (pre ++ (field f ++ post)) len at config key ≡ (
        absorb f config key >>= λ r. elim (at + length (field f) == len) [
          | true ↦ ok (complete r.0 r.1)
          | false ↦
              deserialize_loop fuel (pre ++ (field f ++ post)) len (at + length (field f)) r.0 r.1
        ])
unfolding deserialize_loop st_buf_inc in_range_e
round_lem fuel pre f post len at config key e low high small inside =
    let n : ℕ = length f.1 in
    let buf = pre ++ (field f ++ post) in
    let size8 : List ℕ = to_bytes 8 n in
    let eight = length-to_bytes 8 n in
    let total = length-field f in
    let typed : load buf at ≡ ok f.0 = load-append pre _ f.0 at e in
    let known : in_range_e f.0 0 9 ≡ true = ground arith in
    let split1 : buf ≡ (pre ++ f.0 ∷ []) ++ (size8 ++ (f.1 ++ post)) =
      ap (λ u. pre ++ f.0 ∷ u) (append_assoc size8 f.1 post)
      ∙ sym (append_assoc pre (f.0 ∷ []) (size8 ++ (f.1 ++ post))) in
    let split2 : buf ≡ ((pre ++ f.0 ∷ []) ++ size8) ++ (f.1 ++ post) =
      split1 ∙ sym (append_assoc (pre ++ f.0 ∷ []) size8 (f.1 ++ post)) in
    let sized : copy_from buf (at + 1) 8 ≡ ok size8 =
      ap (λ b. copy_from b (at + 1) 8) split1
      ∙ copy_from-append (pre ++ f.0 ∷ []) size8 (f.1 ++ post) (at + 1) 8
          (omega (arith, e, length-append pre (f.0 ∷ []))) (sym eight) in
    let exact : of_bytes size8 ≡ n = of_bytes-to_bytes 8 n small in
    let filled : copy_from buf (at + 1 + 8) n ≡ ok f.1 =
      ap (λ b. copy_from b (at + 1 + 8) n) split2
      ∙ copy_from-append ((pre ++ f.0 ∷ []) ++ size8) f.1 post (at + 1 + 8) n
          (omega
            (arith, e, eight, length-append pre (f.0 ∷ []), length-append (pre ++ f.0 ∷ []) size8))
          refl in
    let fits1 : ltb len (at + 1) ≡ false = ground arith in
    let fits2 : ltb len (at + 1 + 8) ≡ false = ground arith in
    let fits3 : ltb len (at + 1 + 8 + n) ≡ false = ground arith in
    rw
      (
        typed,
        known,
        fits1,
        sized,
        fits2,
        exact,
        read_field-absorb f.0 buf (at + 1 + 8) n f.1 config key filled refl,
        fits3,
      )
      (ap
        (λ j. absorb f config key >>= λ r. elim (j == len) [
          | true ↦ ok (complete r.0 r.1)
          | false ↦ deserialize_loop fuel buf len j r.0 r.1
        ])
        {y = at + length (field f)} (omega (arith, total)))

loop-read_all :
    (fs : List Field) (f : Field) (fuel : ℕ) (pre post : List ℕ) (len at : ℕ)
    (config : CipherConfig) (key : CipherKey)
    → at ≡ length pre
    → len ≡ length pre + length (bytes_of (f ∷ fs))
    → length (bytes_of (f ∷ fs)) < fuel
    → AreFields (f ∷ fs)
    → deserialize_loop fuel (pre ++ (bytes_of (f ∷ fs) ++ post)) len at config key
      ≡ read_all (f ∷ fs) config key
loop-read_all fs f zero pre post len at config key e l h fields = absurd (omega arith)
loop-read_all [] f (suc fuel) pre post len at config key e l h (low, high, small, more) =
    let whole = length-append (field f) [] in
    let last : (at + length (field f) == len) ≡ true = ground (arith, e, l, whole) in
    ap (λ u. deserialize_loop (suc fuel) (pre ++ u) len at config key)
      (append_assoc (field f) [] post)
    ∙ (round_lem fuel pre f post len at config key e low high small (omega (arith, l, whole))
        ∙ rw (last) refl)
loop-read_all (g ∷ fs) f (suc fuel) pre post len at config key e l h (low, high, small, more) =
    let tail : List ℕ = bytes_of (g ∷ fs) in
    let whole = length-append (field f) tail in
    let rest_long = length-append (field g) (bytes_of fs) in
    let not_last : (at + length (field f) == len) ≡ false =
      ground (arith, e, l, whole, rest_long, length-field g) in
    let split : pre ++ (field f ++ (tail ++ post)) ≡ (pre ++ field f) ++ (tail ++ post) =
      sym (append_assoc pre (field f) (tail ++ post)) in
    ap (λ u. deserialize_loop (suc fuel) (pre ++ u) len at config key)
      (append_assoc (field f) tail post)
    ∙ (round_lem fuel pre f (tail ++ post) len at config key e low high small
          (omega (arith, l, whole))
        ∙ rw (not_last) (
            ap (λ k. absorb f config key >>= k)
              (λ i r.
                (ap (λ u. deserialize_loop fuel u len (at + length (field f)) r.0 r.1) split
                    ∙ loop-read_all fs g fuel (pre ++ field f) post len (at + length (field f)) r.0
                        r.1 (omega (arith, e, length-append pre (field f)))
                        (omega (arith, l, whole, length-append pre (field f)))
                        (omega (arith, h, whole, length-field f)) more)
                  i)))

-- The reader takes the fields one after the other, whatever stands behind them.
pub deserialize_lem :
    (f : Field) (fs : List Field) (rest : List ℕ) (config : CipherConfig) (key : CipherKey)
    → AreFields (f ∷ fs)
    → deserialize_cipher_config config key (bytes_of (f ∷ fs) ++ rest) (length (bytes_of (f ∷ fs)))
      ≡ read_all (f ∷ fs) config key
unfolding deserialize_cipher_config
deserialize_lem f fs rest config key fields =
    loop-read_all fs f (suc (length (bytes_of (f ∷ fs)))) [] rest (length (bytes_of (f ∷ fs))) 0
      config key refl (omega arith) (omega arith) fields
