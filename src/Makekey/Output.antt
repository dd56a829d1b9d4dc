-- ===== src/Makekey/Output.antt =====
-- What cmd_makekey writes for a key of 32 bytes and more.
use pass_keeper.Prelude.{
  ℕ, ◌+◌, ◌-◌, ◌*◌, ◌%◌, ◌^◌, ◌≤◌, ◌<◌, ◌≡◌, refl, sym, ap, ◌∙◌, List, [], ◌∷◌, ◌++◌, arith, ok,
  length, length-append, length-replicate, replicate, replicate_add, drop, drop-append,
  store-append, copy_to-append, copy_from-append,
}
use pass_keeper.Hex.Digits.{hex_of, length-hex_of}
use pass_keeper.Hex.Encode.{bin2hex-hex_of}
use pass_keeper.Makekey.{cmd_makekey}

-- cmd_makekey writes 0x, the digits of the 32 random bytes, and a newline, for the size 32; for a
-- larger one below 2^31 it writes after the random bytes the digits of bytes that nothing set.
pub makekey_lem :
    (junk : ℕ) (random : List ℕ) (key_size : ℕ)
    → length random ≡ 32
    → 32 ≤ key_size
    → key_size < 2 ^ 31
    → cmd_makekey junk random key_size
      ≡ ok (b'0' ∷ (b'x' ∷ (hex_of (random ++ replicate (key_size - 32) junk) ++ b'\n' ∷ [])))
unfolding cmd_makekey
makekey_lem junk random key_size full enough small =
    let n : ℕ = key_size * 2 in
    let unset : List ℕ = replicate (key_size - length random) junk in
    let hex : List ℕ = hex_of (random ++ unset) in
    let gap : List ℕ = replicate n junk in
    let unwrapped : n % 2 ^ 32 ≡ n = omega arith in
    let len : length hex ≡ n =
      length-hex_of (random ++ unset)
      ∙ omega
          (arith, length-append random unset, length-replicate (key_size - length random) junk) in
    let len_gap : length gap ≡ n = length-replicate n junk in
    let fresh : replicate (n + 3) junk ≡ junk ∷ (junk ∷ (gap ++ junk ∷ [])) =
      ap (λ k. replicate k junk) {y = 2 + (n + 1)} (omega arith)
      ∙ replicate_add 2 (n + 1) junk
      ∙ ap (λ z. junk ∷ (junk ∷ z)) (replicate_add n 1 junk) in
    let after : drop (length hex) (gap ++ junk ∷ []) ≡ junk ∷ [] =
      ap (λ k. drop k (gap ++ junk ∷ [])) {y = length gap} (omega (arith, len, len_gap))
      ∙ drop-append gap (junk ∷ []) in
    rw
      (
        unwrapped,
        fresh,
        bin2hex-hex_of junk random key_size (omega arith) (omega arith),
        store-append [] (junk ∷ (gap ++ junk ∷ [])) junk b'0' 0 refl,
        store-append (b'0' ∷ []) (gap ++ junk ∷ []) junk b'x' 1 refl,
        copy_from-append [] hex (0 ∷ []) 0 n refl (sym len),
        copy_to-append (b'0' ∷ (b'x' ∷ [])) (gap ++ junk ∷ []) hex 2 refl
            (omega (arith, len, len_gap, length-append gap (junk ∷ []))),
        after,
        store-append (b'0' ∷ (b'x' ∷ hex)) [] junk b'\n' (2 + n) (omega (arith, len)),
      )
      (ap
        (λ k. ok (b'0' ∷ (b'x' ∷ (hex_of (random ++ replicate (key_size - k) junk) ++ b'\n' ∷ []))))
        full)
