-- ===== src/Hex.antt =====
-- src/security.c: the conversions between raw bytes and hex digits, in place over one array of
-- bytes. `junk` is what a byte that realloc or malloc left unset reads as.
pub mod Digits
pub mod Encode
pub mod Decode
pub mod Blob
mod Tests
use pass_keeper.Prelude.{
  ℕ, zero, suc, ◌+◌, ◌-◌, ◌*◌, ◌/◌, ◌%◌, ◌^◌, bit_and, bit_or, Bool, true, false, ◌&&◌, ◌||◌, List,
  [], ◌∷◌, ◌++◌, Outcome, ok, fault, wrap, ◌>>=◌, if◌then◌else◌, ltb, leb, ◌==◌, not, length, load,
  store, copy_to, copy_from, resize, replicate, for_range, take, drop,
}

abbrev pub isupper : ℕ → Bool
isupper c = leb b'A' c && leb c b'Z'

abbrev pub islower : ℕ → Bool
islower c = leb b'a' c && leb c b'z'

-- The difference is an int, and ends in a byte: it is taken modulo 2 ^ 8, so 256 is added first.
unfoldable pub hexchar2decint : ℕ → ℕ
hexchar2decint c =
    if isupper c
    then (c + 256 - b'A' + 10) % 2 ^ 8
    else if islower c
    then (c + 256 - b'a' + 10) % 2 ^ 8
    else (c + 256 - b'0') % 2 ^ 8

unfoldable pub decint2hexchar : ℕ → ℕ
decint2hexchar n = if ltb n 10 then n + b'0' else n - 10 + b'A'

-- The byte that two digits stand for.
unfoldable pub hex_byte : ℕ → ℕ → ℕ
hex_byte hi lo = bit_or (hexchar2decint hi * 2 ^ 4 % 2 ^ 8) (hexchar2decint lo)

-- The loop's body, with `base` the place of `bin0` in the array. The difference of a high digit below
-- '0', or of a char that is negative, is negative, and to shift it is undefined.
unfoldable pub hex2bin_round : ℕ → ℕ → List ℕ → Outcome (List ℕ)
hex2bin_round base i mem = do
  hi ← load mem (base + 2 * i)
  lo ← load mem (base + 2 * i + 1)
  (if ltb hi b'0' || leb (2 ^ 7) hi then fault else store mem (base + i) (hex_byte hi lo))

-- The array afterwards, and the number of bytes from `base` on.
unfoldable pub hex2bin : List ℕ → (base hex_len : ℕ) → Outcome (List ℕ × ℕ)
hex2bin mem base hex_len = do
  let bin_len = hex_len / 2
  mem' ← for_range bin_len 0 (hex2bin_round base) mem
  ok (mem', bin_len)

-- The loop runs down from the last byte; each byte is read once for each of its digits.
unfoldable pub bin2hex_loop : ℕ → List ℕ → Outcome (List ℕ)
bin2hex_loop zero mem = ok mem
bin2hex_loop (suc i) mem = do
  low ← load mem i
  mem1 ← store mem (2 * i + 1) (decint2hexchar (bit_and low 0x0F))
  high ← load mem1 i
  mem2 ← store mem1 (2 * i) (decint2hexchar (high / 2 ^ 4))
  bin2hex_loop i mem2

unfoldable pub bin2hex : ℕ → List ℕ → ℕ → Outcome (List ℕ × ℕ)
bin2hex junk bin0 bin_len = do
  let hex_len = wrap (bin_len * 2)
  hex0 ← bin2hex_loop bin_len (resize junk bin0 (wrap (hex_len + 1)))
  hex ← store hex0 hex_len 0
  ok (hex, hex_len)

unfoldable pub bin2blob : ℕ → List ℕ → ℕ → Outcome (List ℕ × ℕ)
bin2blob junk bin bin_len = do
  (hex, hex_len) ← bin2hex junk bin bin_len
  let blob_len = wrap (hex_len + 3)
  let fresh : List ℕ = replicate (wrap (blob_len + 1)) junk
  blob0 ← store fresh 0 b'x'
  blob1 ← store blob0 1 39
  digits ← copy_from hex 0 hex_len
  blob2 ← copy_to blob1 2 digits
  blob3 ← store blob2 (blob_len - 1) 39
  blob ← store blob3 blob_len 0
  ok (blob, blob_len)

unfoldable pub blob2bin : List ℕ → ℕ → Outcome (List ℕ × ℕ)
blob2bin blob blob_len = do
  (mem, bin_len) ← hex2bin blob 2 (blob_len - 3)
  bytes ← copy_from mem 2 bin_len
  mem' ← copy_to mem 0 bytes
  ok (mem', bin_len)

unfoldable pub is_hexchar : ℕ → Bool
is_hexchar c = leb b'A' c && leb c b'F' || leb b'a' c && leb c b'f' || leb b'0' c && leb c b'9'

-- The loops over `len` characters from `at` on.
unfoldable pub all_chars : (ℕ → Bool) → List ℕ → (at len : ℕ) → Outcome Bool
all_chars test str at zero = ok true
all_chars test str at (suc len) = do
  c ← load str at
  elim (test c) [ false ↦ ok false | true ↦ all_chars test str (at + 1) len ]

unfoldable pub is_hexstr : List ℕ → ℕ → ℕ → Outcome Bool
is_hexstr str at len = all_chars is_hexchar str at len

unfoldable pub is_saltchar : ℕ → Bool
is_saltchar c = c == b'0' || c == b'1'

unfoldable pub is_saltstr : List ℕ → ℕ → ℕ → Outcome Bool
is_saltstr str at len = all_chars is_saltchar str at len

-- BLOBKEY_LEN, HEXKEY_LEN and KEYSALT_LEN
abbrev pub blobkey_len : ℕ
blobkey_len = 67

abbrev pub hexkey_len : ℕ
hexkey_len = 64

abbrev pub keysalt_len : ℕ
keysalt_len = 32

-- The digits of a key, and its salt if it is long enough to have one.
unfoldable pub is_blob_body : List ℕ → ℕ → Outcome Bool
is_blob_body key len = do
  hex ← is_hexstr key 2 hexkey_len
  (if not hex
      then ok false
      else if len == blobkey_len + keysalt_len
      then is_saltstr key (2 + hexkey_len) keysalt_len
      else ok true)

unfoldable pub is_blob_key : List ℕ → ℕ → Outcome Bool
is_blob_key key len =
    if not (len == blobkey_len) && not (len == blobkey_len + keysalt_len) then ok false else (do
      first ← load key 0
      second ← load key 1
      last ← load key (len - 1)
      (if not (first == b'x') || (not (second == 39) || not (last == 39))
          then ok false
          else is_blob_body key len))
