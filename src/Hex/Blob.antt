-- ===== src/Hex/Blob.antt =====
-- bin2blob, blob2bin and the test for a blob key.
use pass_keeper.Prelude.{
  ◌^◌, ◌<◌, wrap, ℕ, ◌+◌, ◌-◌, ◌*◌, ◌≡◌, refl, sym, ap, ap₂, ◌∙◌, List, [], ◌∷◌, ◌++◌, append_assoc,
  arith, Bool, true, ok, ◌>>=◌, length, length-append, length-replicate, replicate, replicate_add,
  drop, store, copy_to, load-append, store-append, copy_to-append, copy_from-append, drop-append,
  Returns,
}
use pass_keeper.Hex.{
  bin2blob, blob2bin, hex2bin, is_blob_key, is_blob_body, is_hexchar, is_hexstr, all_chars,
}
use pass_keeper.Hex.Digits.{
  hex_of, length-hex_of, unhex-hex_of, AllBytes, AllPass, hex_of-AllPass, hex_of-AllHex,
}
use pass_keeper.Hex.Encode.{bin2hex_whole}
use pass_keeper.Hex.Decode.{hex2bin-unhex}

-- `x'<digits>'` and a NUL.
abbrev pub blob_of : List ℕ → List ℕ
blob_of bin = b'x' ∷ (39 ∷ (hex_of bin ++ 39 ∷ (0 ∷ [])))

fresh_split :
    (junk n : ℕ)
    → replicate (n * 2 + 3 + 1) junk
      ≡ junk ∷ (junk ∷ (replicate (n * 2) junk ++ junk ∷ (junk ∷ [])))
fresh_split junk n =
    ap (λ k. replicate k junk) {y = 2 + (n * 2 + 2)} (omega arith)
    ∙ replicate_add 2 (n * 2 + 2) junk
    ∙ ap (λ z. junk ∷ (junk ∷ z)) (replicate_add (n * 2) 2 junk)

pub bin2blob_lem :
    (junk : ℕ) (bin : List ℕ)
    → length bin < 2 ^ 62
    → bin2blob junk bin (length bin) ≡ ok (blob_of bin, length bin * 2 + 3)
unfolding bin2blob
bin2blob_lem junk bin small =
    let n : ℕ = length bin in
    let hex : List ℕ = hex_of bin in
    let len : length hex ≡ n * 2 = length-hex_of bin in
    let gap : List ℕ = replicate (n * 2) junk in
    let len_gap : length gap ≡ n * 2 = length-replicate (n * 2) junk in
    let tail : List ℕ = junk ∷ (junk ∷ []) in
    let after : drop (length hex) (gap ++ tail) ≡ tail =
      ap (λ k. drop k (gap ++ tail)) {y = length gap} (omega (arith, len, len_gap))
      ∙ drop-append gap tail in
    let front : List ℕ = b'x' ∷ (39 ∷ hex) in
    let ended : store (front ++ 39 ∷ (junk ∷ [])) (n * 2 + 3) 0 ≡ ok (blob_of bin) =
      ap (λ m. store m (n * 2 + 3) 0) (sym (append_assoc front (39 ∷ []) (junk ∷ [])))
      ∙ store-append (front ++ 39 ∷ []) [] junk 0 (n * 2 + 3)
          (omega (arith, len, length-append front (39 ∷ [])))
      ∙ ap ok (append_assoc front (39 ∷ []) (0 ∷ [])) in
    let unwrapped : wrap (n * 2 + 3) ≡ n * 2 + 3 = omega arith in
    let unwrapped' : wrap (n * 2 + 3 + 1) ≡ n * 2 + 3 + 1 = omega arith in
    rw (
      bin2hex_whole junk bin (omega arith),
      unwrapped,
      unwrapped',
      fresh_split junk n,
      store-append [] (junk ∷ (gap ++ tail)) junk b'x' 0 refl,
      store-append (b'x' ∷ []) (gap ++ tail) junk 39 1 refl,
      copy_from-append [] hex (0 ∷ []) 0 (n * 2) refl (sym len),
      copy_to-append (b'x' ∷ (39 ∷ [])) (gap ++ tail) hex 2 refl
          (omega (arith, len, len_gap, length-append gap tail)),
      after,
      store-append (b'x' ∷ (39 ∷ hex)) (junk ∷ []) junk 39 (n * 2 + 3 - 1) (omega (arith, len)),
      ended,
    )

-- What blob2bin makes of a blob: the bytes of its digits, at the start of the array.
abbrev pub StartsWith : List ℕ → List ℕ × ℕ → Type 0
StartsWith bin r = (tail : List ℕ) × (r ≡ (bin ++ tail, length bin))

-- blob2bin on what bin2blob made of any bytes, fewer than 2^62, gives the same bytes and their
-- number, with every access inside its array.
pub blob2bin-bin2blob :
    (junk : ℕ) (bin : List ℕ)
    → AllBytes bin
    → length bin < 2 ^ 62
    → Returns
        (StartsWith bin)
        (do (blob, blob_len) ← bin2blob junk bin (length bin); blob2bin blob blob_len)
unfolding blob2bin
blob2bin-bin2blob junk bin h small =
    let hex : List ℕ = hex_of bin in
    let n : ℕ = length bin in
    let len : length hex ≡ n * 2 = length-hex_of bin in
    let front : List ℕ = b'x' ∷ (39 ∷ []) in
    let end : List ℕ = 39 ∷ (0 ∷ []) in
    let decoded = hex2bin-unhex front hex end (hex_of-AllHex bin h) in
    let stale : List ℕ = decoded.0 in
    let mem : List ℕ = front ++ (bin ++ (stale ++ end)) in
    let result : hex2bin (blob_of bin) 2 (n * 2 + 3 - 3) ≡ ok (mem, n) =
      ap (hex2bin (blob_of bin) 2) {y = length hex} (omega (arith, len))
      ∙ decoded.1
      ∙ ap₂ (λ z k. ok (front ++ (z ++ (stale ++ end)), k)) (unhex-hex_of bin h)
          (omega (arith, len)) in
    let back : copy_to mem 0 bin ≡ ok (bin ++ drop n mem) =
      copy_to-append [] mem bin 0 refl (omega (arith, length-append bin (stale ++ end))) in
    (
      (bin ++ drop n mem, n),
      rw (
        bin2blob_lem junk bin small,
        result,
        copy_from-append front bin (stale ++ end) 2 n refl refl,
        back,
      ),
      (drop n mem, refl),
    )

all_chars_pass :
    (test : ℕ → Bool) (front s rest : List ℕ) (at : ℕ)
    → at ≡ length front
    → AllPass test s
    → all_chars test (front ++ (s ++ rest)) at (length s) ≡ ok true
unfolding all_chars
all_chars_pass test front [] rest at e h = refl
all_chars_pass test front (c ∷ s) rest at e h =
    let mem : List ℕ = (front ++ c ∷ []) ++ (s ++ rest) in
    rw (load-append front (s ++ rest) c at e, h.0)
      (ap (λ m. all_chars test m (at + 1) (length s)) {y = mem}
          (sym (append_assoc front (c ∷ []) (s ++ rest)))
        ∙ all_chars_pass test (front ++ c ∷ []) s rest (at + 1)
            (omega (arith, e, length-append front (c ∷ []))) h.1)

-- is_blob_key accepts the blob of any 32 bytes.
is_blob_key-bin2blob :
    (bin : List ℕ) → AllBytes bin → length bin ≡ 32 → is_blob_key (blob_of bin) 67 ≡ ok true
unfolding is_blob_key is_blob_body is_hexstr
is_blob_key-bin2blob bin h len =
    let hex : List ℕ = hex_of bin in
    let wide : length hex ≡ 64 = omega (arith, len, length-hex_of bin) in
    let scan : all_chars is_hexchar (blob_of bin) 2 64 ≡ ok true =
      ap (λ k. all_chars is_hexchar (blob_of bin) 2 k) (sym wide)
      ∙ all_chars_pass is_hexchar (b'x' ∷ (39 ∷ [])) hex (39 ∷ (0 ∷ [])) 2 refl
          (hex_of-AllPass bin h) in
    rw (
      load-append [] (39 ∷ (hex ++ 39 ∷ (0 ∷ []))) b'x' 0 refl,
      load-append (b'x' ∷ []) (hex ++ 39 ∷ (0 ∷ [])) 39 1 refl,
      load-append (b'x' ∷ (39 ∷ hex)) (0 ∷ []) 39 66 (omega (arith, wide)),
      scan,
    )
