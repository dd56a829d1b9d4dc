-- ===== src/Hex/Tests.antt =====
-- The conversions at concrete inputs, and runs.
use pass_keeper.Prelude.{
  ℕ, zero, suc, ◌+◌, ◌≡◌, refl, List, [], ◌∷◌, ◌++◌, arith, false, ok, fault, ◌>>=◌, Returns,
  length, load, store, replicate, resize, for_range,
}
use pass_keeper.Hex.{
  bin2hex, bin2hex_loop, decint2hexchar, hexchar2decint, hex_byte, hex2bin, hex2bin_round, bin2blob,
  blob2bin, is_blob_key,
}
use pass_keeper.Hex.Digits.{AllBytes}
use pass_keeper.Hex.Encode.{bin2hex_lem}
use pass_keeper.Hex.Decode.{hex2bin_lem}
use pass_keeper.Hex.Blob.{blob2bin-bin2blob, StartsWith}

-- Three bytes are asked of an array of two.
bin2hex_lem_example :
    bin2hex 7 (0xAB ∷ 0x01 ∷ []) 3 ≡ ok (b'A' ∷ b'B' ∷ b'0' ∷ b'1' ∷ b'0' ∷ b'7' ∷ 0 ∷ [], 6)
bin2hex_lem_example =
    bin2hex_lem 7 (0xAB ∷ 0x01 ∷ []) 3 (omega arith, (omega arith, tt)) (omega arith) (omega arith)
      (omega arith)

hex2bin_lem_example :
    (stale : List ℕ) × (hex2bin (b'x' ∷ b'4' ∷ b'f' ∷ b'A' ∷ b'0' ∷ 39 ∷ []) 1 4
      ≡ ok (b'x' ∷ 0x4F ∷ 0xA0 ∷ (stale ++ 39 ∷ []), 2))
    × (length stale + 2 ≡ 4)
hex2bin_lem_example =
    hex2bin_lem (b'x' ∷ []) (b'4' ∷ b'f' ∷ b'A' ∷ b'0' ∷ []) (39 ∷ [])
      (refl, (refl, (refl, (refl, tt))))

blob2bin-bin2blob_example :
    Returns
      (StartsWith (0xAB ∷ 0x01 ∷ []))
      (do (blob, blob_len) ← bin2blob 7 (0xAB ∷ 0x01 ∷ []) 2; blob2bin blob blob_len)
blob2bin-bin2blob_example =
    blob2bin-bin2blob 7 (0xAB ∷ 0x01 ∷ []) (omega arith, (omega arith, tt)) (omega arith)

-- A quotation mark in the place of a digit.
no_digit : hex2bin (39 ∷ b'0' ∷ []) 0 2 ≡ fault
unfolding hex2bin hex2bin_round load for_range
no_digit = refl

abbrev key_bytes : List ℕ
key_bytes = replicate 32 0x5C

key_bytes-AllBytes : (n : ℕ) → AllBytes (replicate n 0x5C)
key_bytes-AllBytes zero = tt
key_bytes-AllBytes (suc n) = (omega arith, key_bytes-AllBytes n)

two_bytes : bin2hex 0 (0x4F ∷ 0xA0 ∷ []) 2 ≡ ok (b'4' ∷ b'F' ∷ b'A' ∷ b'0' ∷ 0 ∷ [], 4)
unfolding bin2hex bin2hex_loop decint2hexchar load store resize
two_bytes = refl

-- An upper and a lower case digit read the same.
two_cases : hex2bin (b'a' ∷ b'F' ∷ []) 0 2 ≡ ok (0xAF ∷ b'F' ∷ [], 1)
unfolding hex2bin hex2bin_round hex_byte hexchar2decint load store for_range
two_cases = refl

short_key : is_blob_key (b'x' ∷ 39 ∷ 39 ∷ []) 3 ≡ ok false
unfolding is_blob_key
short_key = refl
