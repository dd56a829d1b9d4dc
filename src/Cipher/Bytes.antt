-- ===== src/Cipher/Bytes.antt =====
-- The growing buffer of serialize_cipher_config, and the bytes of numbers.
use pass_keeper.Prelude.{
  ℕ, zero, suc, ◌+◌, ◌-◌, ◌*◌, ◌/◌, ◌^◌, ◌≤◌, ◌<◌, ◌≡◌, refl, sym, ap, subst, List, ◌++◌,
  append_assoc, ok, Returns, ltb, length, drop, length-append, length-drop, length-replicate,
  replicate, resize_grow, wrap, arith, copy_to-append, capacity_grow, capacity_grow_lem,
  next_capacity, next_capacity_bounds, next_capacity_kept, Bool-cases, inl, inr,
}
use pass_keeper.Cipher.{Blob, grow, put, to_bytes, of_bytes}

pub length-to_bytes : (width n : ℕ) → length (to_bytes width n) ≡ width
unfolding to_bytes
length-to_bytes zero n = refl
length-to_bytes (suc width) n = ap suc (length-to_bytes width (n / 256))

-- A number that fits its bytes is read back from them.
pub of_bytes-to_bytes : (width n : ℕ) → n < 256 ^ width → of_bytes (to_bytes width n) ≡ n
unfolding to_bytes of_bytes
of_bytes-to_bytes zero n h = omega arith
of_bytes-to_bytes (suc width) n h =
    let less : n / 256 < 256 ^ width = grind arith in
    omega (arith, of_bytes-to_bytes width (n / 256) less)

-- The buffer has `t`, then room for `n` bytes or more.
abbrev pub blob_of : (t rest : List ℕ) → Blob
blob_of t rest = record { buf = t ++ rest; size = length t; cap = length t + length rest }

abbrev pub HasBytes : List ℕ → ℕ → Blob → Type 0
HasBytes t n blob = (rest : List ℕ) × (blob ≡ blob_of t rest) × (n ≤ length rest)

put_lem :
    (t rest content : List ℕ) (n : ℕ)
    → length content + n ≤ length rest
    → length t + length content < 2 ^ 64
    → Returns (HasBytes (t ++ content) n) (put (blob_of t rest) content)
unfolding put
put_lem t rest content n h k = (
  record (blob_of t rest) {
    buf = t ++ (content ++ drop (length content) rest);
    size = wrap (length t + length content);
  },
  rw (copy_to-append t rest content (length t) refl (omega (arith, h))) refl,
  (
    drop (length content) rest,
    λ i. record {
      buf = sym (append_assoc t content (drop (length content) rest)) i;
      size = size i;
      cap = cap i;
    },
    omega (arith, length-drop (length content) rest, h),
  ),
)
  where
    size : wrap (length t + length content) ≡ length (t ++ content)
    size = omega (arith, length-append t content, k)

    cap : length t + length rest ≡ length (t ++ content) + length (drop (length content) rest)
    cap = omega (arith, length-append t content, length-drop (length content) rest, h)

-- The same, for a buffer that has what is needed.
pub put_step :
    (t content : List ℕ) (n : ℕ) (blob : Blob)
    → HasBytes t (length content + n) blob
    → length t + length content < 2 ^ 64
    → Returns (HasBytes (t ++ content) n) (put blob content)
put_step t content n blob (rest, e, h) k =
    subst (λ b. Returns (HasBytes (t ++ content) n) (put b content)) (sym e)
      (put_lem t rest content n h k)

pub grow_lem :
    (junk : ℕ) (t rest : List ℕ) (n required : ℕ)
    → required ≡ length t + n
    → required < 2 ^ 56
    → Returns (HasBytes t n) (grow junk (blob_of t rest) required)
unfolding grow
grow_lem junk t rest n required e h = elim (Bool-cases (ltb (length t + length rest) required)) [
  | inl small ↦ (
    record { buf = (t ++ rest) ++ more; size = length t; cap = cap' },
    rw
        (
          grows,
          small,
          resize_grow junk (t ++ rest) cap' (omega (arith, bounds.1, length-append t rest)),
        )
        refl,
    (
      rest ++ more,
      λ i. record { buf = append_assoc t rest more i; size = length t; cap = full i },
      omega (
        arith,
        bounds.0,
        e,
        length-append rest more,
        length-append t rest,
        length-replicate (cap' - length (t ++ rest)) junk,
        bounds.1,
      ),
    ),
  )
  | inr big ↦ (
    blob_of t rest,
    rw (grows, big, next_capacity_kept required (length t + length rest) big) refl,
    (rest, refl, ground (arith, big, e)),
  )
]
  where
    cap' : ℕ
    cap' = next_capacity required (length t + length rest)

    bounds :
        (required ≤ cap')
        × (length t + length rest ≤ cap')
        × (cap' ≤ length t + length rest + 2 * required + 24)
    bounds = next_capacity_bounds required (length t + length rest)

    more : List ℕ
    more = replicate (cap' - length (t ++ rest)) junk

    grows : capacity_grow 1 required (length t + length rest) ≡ ok cap'
    grows = capacity_grow_lem 1 required (length t + length rest) (omega arith) (omega arith) h

    full : cap' ≡ length t + length (rest ++ more)
    full = omega (
      arith,
      length-append rest more,
      length-append t rest,
      length-replicate (cap' - length (t ++ rest)) junk,
      bounds.1,
    )
