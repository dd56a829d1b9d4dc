-- ===== src/Hex/Decode.antt =====
-- hex2bin: the loop writes the bytes upwards over digits it has already read.
use pass_keeper.Prelude.{
  ◌^◌, true, ◌||◌, fault, if_not, ltb, leb, subst, First, first, ℕ, zero, suc, ◌+◌, ◌*◌, ◌/◌, ◌≡◌,
  refl, sym, ap, ◌∙◌, List, [], ◌∷◌, ◌++◌, append_assoc, arith, Outcome, ok, ◌>>=◌, length,
  length-append, load, store, load-append, store-append, for_range,
}
use pass_keeper.Hex.{hex2bin_round, hex2bin, hex_byte}
use pass_keeper.Hex.Digits.{
  unhex, AllPass, is_hex, shiftable, bytes_of_digits, unhex-bytes_of_digits,
}

pub length-unhex : (s : List ℕ) → length (unhex s) ≡ length s / 2
unfolding unhex
length-unhex [] = refl
length-unhex (hi ∷ []) = refl
length-unhex (hi ∷ (lo ∷ s)) = omega (arith, length-unhex s)

-- A round, with `front` before the next byte's place, `stale` the digits between that place and
-- the next digits, and the next cell of the array at that place.
round_lem :
    (front stale s stale' : List ℕ) (hi lo c base i : ℕ)
    → length front ≡ base + i
    → length stale ≡ i
    → stale ++ hi ∷ (lo ∷ []) ≡ c ∷ stale'
    → is_hex hi ≡ true
    → hex2bin_round base i (front ++ (stale ++ hi ∷ (lo ∷ s)))
      ≡ ok (front ++ hex_byte hi lo ∷ (stale' ++ s))
unfolding hex2bin_round
round_lem front stale s stale' hi lo c base i hf hs e digit =
    let mem : List ℕ = front ++ (stale ++ hi ∷ (lo ∷ s)) in
    let at_hi : mem ≡ (front ++ stale) ++ hi ∷ (lo ∷ s) =
      sym (append_assoc front stale (hi ∷ (lo ∷ s))) in
    let at_lo : mem ≡ (front ++ (stale ++ hi ∷ [])) ++ lo ∷ s =
      ap (front ++◌) (sym (append_assoc stale (hi ∷ []) (lo ∷ s)))
      ∙ sym (append_assoc front (stale ++ hi ∷ []) (lo ∷ s)) in
    let at_place : mem ≡ front ++ c ∷ (stale' ++ s) =
      ap (front ++◌) (sym (append_assoc stale (hi ∷ (lo ∷ [])) s) ∙ ap (λ z. z ++ s) e) in
    let read_hi : load mem (base + 2 * i) ≡ ok hi =
      ap (λ m. load m (base + 2 * i)) at_hi
      ∙ load-append (front ++ stale) (lo ∷ s) hi (base + 2 * i)
          (omega (arith, length-append front stale)) in
    let read_lo : load mem (base + 2 * i + 1) ≡ ok lo =
      ap (λ m. load m (base + 2 * i + 1)) at_lo
      ∙ load-append (front ++ (stale ++ hi ∷ [])) s lo (base + 2 * i + 1)
          (omega (arith, length-append front (stale ++ hi ∷ []), length-append stale (hi ∷ []))) in
    let written : store mem (base + i) (hex_byte hi lo)
        ≡ ok (front ++ hex_byte hi lo ∷ (stale' ++ s)) =
      ap (λ m. store m (base + i) (hex_byte hi lo)) at_place
      ∙ store-append front (stale' ++ s) c (hex_byte hi lo) (base + i) (sym hf) in
    rw (read_hi, read_lo)
      (if_not (ltb hi b'0' || leb (2 ^ 7) hi) (shiftable hi digit) fault _ ∙ written)

-- What the loop leaves: the bytes, some stale digits, and the rest of the array as it was.
abbrev pub Decoded : (front s stale rest : List ℕ) → Outcome (List ℕ) → Type 0
Decoded front s stale rest r =
    (stale' : List ℕ) × (r ≡ ok (front ++ (unhex s ++ (stale' ++ rest))))
    × (length stale' + length (unhex s) ≡ length stale + length s)

loop_lem :
    (s : List ℕ) (base n i : ℕ) (front stale rest : List ℕ)
    → length front ≡ base + i
    → length stale ≡ i
    → length s / 2 ≡ n
    → AllPass is_hex s
    → Decoded front s stale rest
        (for_range n i (hex2bin_round base) (front ++ (stale ++ (s ++ rest))))
unfolding for_range unhex
loop_lem [] base zero i front stale rest hf hs hn digits = (stale, refl, omega arith)
loop_lem (c ∷ []) base zero i front stale rest hf hs hn digits = (
  stale ++ c ∷ [],
  ap (λ z. ok (front ++ z)) (sym (append_assoc stale (c ∷ []) rest)),
  omega (arith, length-append stale (c ∷ [])),
)
loop_lem (hi ∷ (lo ∷ s)) base zero i front stale rest hf hs hn digits = absurd (omega arith)
loop_lem [] base (suc n) i front stale rest hf hs hn digits = absurd (omega arith)
loop_lem (c ∷ []) base (suc n) i front stale rest hf hs hn digits = absurd (omega arith)
loop_lem (hi ∷ (lo ∷ s)) base (suc n) i front stale rest hf hs hn digits =
    let t : First (stale ++ hi ∷ (lo ∷ [])) (suc i) =
      first _ (suc i) (omega (arith, length-append stale (hi ∷ (lo ∷ [])))) in
    let b : ℕ = hex_byte hi lo in
    let round = round_lem front stale (s ++ rest) t.1.0 hi lo t.0 base i hf hs t.1.1.0 digits.0 in
    let r : Decoded (front ++ b ∷ []) s t.1.0 rest _ =
      loop_lem s base n (suc i) (front ++ b ∷ []) t.1.0 rest
        (omega (arith, length-append front (b ∷ []))) t.1.1.1 (omega arith) digits.1.1 in
    (
      r.0,
      ap (λ m. m >>= for_range n (suc i) (hex2bin_round base)) round
          ∙ ap (for_range n (suc i) (hex2bin_round base))
              (sym (append_assoc front (b ∷ []) (t.1.0 ++ (s ++ rest))))
          ∙ r.1
          ∙ ap ok (append_assoc front (b ∷ []) (unhex s ++ (r.0 ++ rest))),
      omega (arith, r.2, t.1.1.1),
    )

pub hex2bin-unhex :
    (front s rest : List ℕ)
    → AllPass is_hex s
    → (stale : List ℕ) × (hex2bin (front ++ (s ++ rest)) (length front) (length s)
        ≡ ok (front ++ (unhex s ++ (stale ++ rest)), length s / 2))
      × (length stale + length (unhex s) ≡ length s)
unfolding hex2bin
hex2bin-unhex front s rest digits =
    let r =
      loop_lem s (length front) (length s / 2) 0 front [] rest (omega arith) refl refl digits in
    (r.0, rw (r.1), omega (arith, r.2))

-- hex2bin puts the bytes that pairs of hex digits of either case stand for, 16 times the value of
-- the first and that of the second, in the place of the first half of the digits, leaves all
-- before and after the digits as it was, and answers with half their number; an odd digit at the
-- end is left out.
pub hex2bin_lem :
    (front s rest : List ℕ)
    → AllPass is_hex s
    → (stale : List ℕ) × (hex2bin (front ++ (s ++ rest)) (length front) (length s)
        ≡ ok (front ++ (bytes_of_digits s ++ (stale ++ rest)), length s / 2))
      × (length stale + length (bytes_of_digits s) ≡ length s)
hex2bin_lem front s rest digits =
    subst
      (λ u.
        (stale : List ℕ) × (hex2bin (front ++ (s ++ rest)) (length front) (length s)
          ≡ ok (front ++ (u ++ (stale ++ rest)), length s / 2))
        × (length stale + length u ≡ length s))
      (unhex-bytes_of_digits s digits) (hex2bin-unhex front s rest digits)
