-- ===== src/Cipher/Fields.antt =====
-- The fields of a file of cipher settings: a type, the number of bytes, and the bytes.
use pass_keeper.Prelude.{
  ℕ, ◌+◌, ◌%◌, ◌^◌, ◌<◌, ◌≡◌, refl, sym, ap, subst, ◌∙◌, List, [], ◌∷◌, ◌++◌, append-nil,
  append_assoc, Outcome, Returns, Returns-bind, length, length-append, wrap, arith,
}
use pass_keeper.Cipher.{Blob, grow, put, append_field, to_bytes}
use pass_keeper.Cipher.Bytes.{length-to_bytes, blob_of, HasBytes, put_step, grow_lem}

-- A type and its content.
abbrev pub Field : Type 0
Field = ℕ × List ℕ

abbrev pub field : Field → List ℕ
field f = f.0 ∷ (to_bytes 8 (length f.1) ++ f.1)

abbrev pub bytes_of : List Field → List ℕ
bytes_of [] = []
bytes_of (f ∷ fs) = field f ++ bytes_of fs

pub bytes_of-append : (fs gs : List Field) → bytes_of (fs ++ gs) ≡ bytes_of fs ++ bytes_of gs
bytes_of-append [] gs = refl
bytes_of-append (f ∷ fs) gs =
    ap (field f ++◌) (bytes_of-append fs gs)
    ∙ sym (append_assoc (field f) (bytes_of fs) (bytes_of gs))

pub length-field : (f : Field) → length (field f) ≡ 9 + length f.1
length-field f =
    omega (arith, length-append (to_bytes 8 (length f.1)) f.1, length-to_bytes 8 (length f.1))

-- A call that adds `fs` behind what the buffer has.
abbrev pub Adds : (Blob → Outcome Blob) → List Field → Type 0
Adds call fs =
    (t rest : List ℕ)
    → length t + length (bytes_of fs) < 2 ^ 55
    → Returns (HasBytes (t ++ bytes_of fs) 0) (call (blob_of t rest))

pub append_field-Adds :
    (junk type : ℕ) (content : List ℕ)
    → type < 256
    → Adds (λ blob. append_field junk blob type content) ((type, content) ∷ [])
unfolding append_field
append_field-Adds junk type content small t rest h =
    let n : ℕ = length content in
    let total = length-field (type, content) in
    let whole = length-append (field (type, content)) [] in
    let byte : type % 256 ≡ type = omega arith in
    let bytes8 : List ℕ = to_bytes 8 n in
    let eight : length bytes8 ≡ 8 = length-to_bytes 8 n in
    let done : ((t ++ type % 256 ∷ []) ++ bytes8) ++ content
        ≡ t ++ bytes_of ((type, content) ∷ []) =
      rw (byte, append_assoc, append_assoc, append-nil) refl in
    Returns-bind (grow junk (blob_of t rest) (wrap (length t + 1 + 8 + n))) _
      (grow_lem junk t rest (9 + n) (wrap (length t + 1 + 8 + n)) (omega arith) (omega arith))
      (λ grown r.
        Returns-bind (put grown (type % 256 ∷ [])) _
          (put_step t (type % 256 ∷ []) (8 + n) grown (r.0, r.1, omega (arith, r.2)) (omega arith))
          (λ typed r.
            Returns-bind (put typed bytes8) _
              (put_step (t ++ type % 256 ∷ []) bytes8 n typed (r.0, r.1, omega (arith, r.2, eight))
                (omega (arith, eight, length-append t (type % 256 ∷ []))))
              (λ sized r.
                subst (λ u. Returns (HasBytes u 0) (put sized content)) done
                  (put_step ((t ++ type % 256 ∷ []) ++ bytes8) content 0 sized
                    (r.0, r.1, omega (arith, r.2))
                    (omega (
                      arith,
                      eight,
                      length-append t (type % 256 ∷ []),
                      length-append (t ++ type % 256 ∷ []) bytes8,
                    ))))))
