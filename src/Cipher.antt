-- ===== src/Cipher.antt =====
-- src/cipher-config.c and src/cipher-config.h: the file of cipher settings, byte by byte, and the
-- SQL that applies them. A string or a key is the array that its pointer points to; an unsigned has
-- four bytes, a size_t eight, the lowest first.
pub mod Bytes
pub mod Fields
pub mod Written
pub mod Reading
pub mod Misread
pub mod Stops
pub mod Lost
pub mod Sql
pub mod Applied
pub mod Statements
pub mod Unterminated
pub mod Printed
pub mod Files
pub mod Persisted
mod Tests
use pass_keeper.Prelude.{
  ℕ, zero, suc, ◌+◌, ◌-◌, ◌*◌, ◌/◌, ◌%◌, ◌≤◌, Bool, true, false, not, ◌&&◌, ◌||◌, List, [], ◌∷◌,
  ◌++◌, Option, none, some, Outcome, ok, died, bugged, fault, ◌>>=◌, if◌then◌else◌, ltb, leb, ◌==◌,
  length, take, drop, load, copy_to, copy_from, resize, capacity_grow, wrap, bit_and,
}

-- `struct cipher_config`
pub record CipherConfig : Type 0 where
  pub kdf_algorithm : Option (List ℕ)
  pub hmac_algorithm : Option (List ℕ)
  pub compatibility : ℕ
  pub page_size : ℕ
  pub kdf_iter : ℕ

-- What key->buf points to. `clobbered` is a pointer of which some bytes were overwritten.
pub data KeyBuffer : Type 0 where
  null clobbered : KeyBuffer
  bytes : List ℕ → KeyBuffer

-- `struct cipher_key`
pub record CipherKey : Type 0 where
  pub buf : KeyBuffer
  pub len : ℕ
  pub is_binary : Bool

-- "HMAC_SHA512"
abbrev pub default_hmac_algorithm : List ℕ
default_hmac_algorithm =
    b'H' ∷ b'M' ∷ b'A' ∷ b'C' ∷ b'_' ∷ b'S' ∷ b'H' ∷ b'A' ∷ b'5' ∷ b'1' ∷ b'2' ∷ []

abbrev pub default_compatibility : ℕ
default_compatibility = 4

abbrev pub default_page_size : ℕ
default_page_size = 4096

abbrev pub default_kdf_iter : ℕ
default_kdf_iter = 256000

-- "PBKDF2_HMAC_SHA512"
abbrev pub default_kdf_algorithm : List ℕ
default_kdf_algorithm = b'P' ∷ b'B' ∷ b'K' ∷ b'D' ∷ b'F' ∷ b'2' ∷ b'_' ∷ default_hmac_algorithm

-- CC_INIT
abbrev pub cc_init : CipherConfig
cc_init = record {
  kdf_algorithm = none;
  hmac_algorithm = none;
  compatibility = default_compatibility;
  page_size = default_page_size;
  kdf_iter = default_kdf_iter;
}

-- CK_INIT
abbrev pub ck_init : CipherKey
ck_init = record { buf = null; len = 0; is_binary = false }

unfoldable pub in_range_i : (x r1 r2 : ℕ) → Bool
in_range_i x r1 r2 = leb r1 x && leb x r2

unfoldable pub in_range_e : (x r1 r2 : ℕ) → Bool
in_range_e x r1 r2 = ltb r1 x && ltb x r2

unfoldable pub is_pow2 : ℕ → Bool
is_pow2 x = not (x == 0) && bit_and x (x - 1) == 0

unfoldable pub is_cc_page_size : ℕ → Bool
is_cc_page_size sz = in_range_i sz 512 65536 || not (is_pow2 sz)

unfoldable pub is_cc_compatibility : ℕ → Bool
is_cc_compatibility cap = in_range_i cap 1 default_compatibility

-- The bytes of a number in memory.
unfoldable pub to_bytes : (width : ℕ) → ℕ → List ℕ
to_bytes zero n = []
to_bytes (suc width) n = n % 256 ∷ to_bytes width (n / 256)

unfoldable pub of_bytes : List ℕ → ℕ
of_bytes [] = 0
of_bytes (b ∷ bs) = b + 256 * of_bytes bs

-- `enum field_type`. FIELD_KEY_PASSPHRASE is FIELD_KEY + 1, and FIELD_KEY_BINARY FIELD_KEY + 2.
abbrev pub field_kdf_algorithm : ℕ
field_kdf_algorithm = 1

abbrev pub field_hmac_algorithm : ℕ
field_hmac_algorithm = 2

abbrev pub field_compatibility : ℕ
field_compatibility = 3

abbrev pub field_page_size : ℕ
field_page_size = 4

abbrev pub field_kdf_iter : ℕ
field_kdf_iter = 5

abbrev pub field_key : ℕ
field_key = 6

abbrev pub field_type_end : ℕ
field_type_end = 9

-- `struct cipher_file_blob`
pub record Blob : Type 0 where
  pub buf : List ℕ
  pub size : ℕ
  pub cap : ℕ

-- CAPACITY_GROW(blob->buf, required_size, blob->cap)
unfoldable pub grow : (junk : ℕ) → Blob → (required_size : ℕ) → Outcome Blob
grow junk blob required_size = do
  cap' ← capacity_grow 1 required_size blob.cap
  let buf' = if ltb blob.cap required_size then resize junk blob.buf cap' else blob.buf
  ok (record blob { buf = buf'; cap = cap' })

-- `memcpy(blob->buf + blob->size, data, dlen); blob->size += dlen;`
unfoldable pub put : Blob → List ℕ → Outcome Blob
put blob content = do
  buf' ← copy_to blob.buf blob.size content
  ok (record blob { buf = buf'; size = wrap (blob.size + length content) })

unfoldable pub append_field : (junk : ℕ) → Blob → (type : ℕ) → (content : List ℕ) → Outcome Blob
append_field junk blob type content = do
  grown ← grow junk blob (wrap (blob.size + 1 + 8 + length content))
  typed ← put grown (type % 256 ∷ [])
  sized ← put typed (to_bytes 8 (length content))
  put sized content

-- The characters of a string in an array, up to its NUL.
unfoldable pub c_string : List ℕ → Outcome (List ℕ)
c_string [] = fault
c_string (c ∷ array) = if c == 0 then ok [] else (c_string array >>= λ str. ok (c ∷ str))

-- `strcmp(s1, s2) == 0`
unfoldable pub same_string : List ℕ → List ℕ → Bool
same_string [] [] = true
same_string (c ∷ s1) (d ∷ s2) = c == d && same_string s1 s2
same_string _ _ = false

unfoldable pub put_algorithm :
    (junk : ℕ) → (type : ℕ) → (default : List ℕ) → Option (List ℕ) → Blob → Outcome Blob
put_algorithm junk type default none blob = ok blob
put_algorithm junk type default (some array) blob = do
  algorithm ← c_string array
  (if same_string algorithm default then ok blob else append_field junk blob type algorithm)

unfoldable pub put_number : (junk : ℕ) → (type : ℕ) → (default n : ℕ) → Blob → Outcome Blob
put_number junk type default n blob =
    if n == default then ok blob else append_field junk blob type (to_bytes 4 n)

unfoldable pub put_key : (junk : ℕ) → CipherKey → KeyBuffer → Blob → Outcome Blob
put_key junk key null blob = ok blob
put_key junk key clobbered blob = fault
put_key junk key (bytes array) blob = do
  content ← copy_from array 0 key.len
  append_field junk blob (if key.is_binary then field_key + 1 else field_key) content

-- The fields, in their order.
unfoldable pub put_fields : (junk : ℕ) → CipherConfig → CipherKey → Blob → Outcome Blob
put_fields junk config key blob0 = do
  blob1 ← put_algorithm junk field_kdf_algorithm default_kdf_algorithm config.kdf_algorithm blob0
  blob2 ← put_algorithm junk field_hmac_algorithm default_hmac_algorithm config.hmac_algorithm blob1
  blob3 ← put_number junk field_compatibility default_compatibility config.compatibility blob2
  blob4 ← put_number junk field_page_size default_page_size config.page_size blob3
  blob5 ← put_number junk field_kdf_iter default_kdf_iter config.kdf_iter blob4
  put_key junk key key.buf blob5

-- The array and `*outlen`.
unfoldable pub serialize_cipher_config :
    (junk : ℕ) → CipherConfig → CipherKey → Outcome (List ℕ × ℕ)
serialize_cipher_config junk config key = do
  blob ← grow junk (record { buf = []; size = 0; cap = 0 }) 64
  full ← put_fields junk config key blob
  roomy ← grow junk full (wrap (full.size + 32))
  ok (roomy.buf, roomy.size)

-- ST_BUF_INC, on places in the array in place of pointers.
unfoldable pub st_buf_inc : (len buf n : ℕ) → Outcome ℕ
st_buf_inc len buf n = if ltb len (buf + n) then bugged else ok (buf + n)

-- What a field is read into.
pub data Target : Type 0 where
  ref_kdf_algorithm ref_hmac_algorithm ref_compatibility ref_page_size ref_kdf_iter ref_key_buf :
      Target

abbrev pub fmap : List Target
fmap =
    ref_kdf_algorithm ∷ ref_hmac_algorithm ∷ ref_compatibility ∷ ref_page_size ∷ ref_kdf_iter
    ∷ ref_key_buf ∷ []

-- `*(char **)fmap[type] = xmalloc(dtlen)`, then a memcpy into it. A pointer does not belong in an
-- unsigned: that is undefined.
unfoldable pub set_pointer :
    Target → List ℕ → CipherConfig → CipherKey → Outcome (CipherConfig × CipherKey)
set_pointer ref_kdf_algorithm content config key =
    ok (record config { kdf_algorithm = some content }, key)
set_pointer ref_hmac_algorithm content config key =
    ok (record config { hmac_algorithm = some content }, key)
set_pointer ref_key_buf content config key = ok (config, record key { buf = bytes content })
set_pointer _ content config key = fault

-- An unsigned after its first bytes are overwritten; it has four.
unfoldable pub overwrite : ℕ → List ℕ → Outcome ℕ
overwrite n content =
    if leb (length content) 4
    then ok (of_bytes (content ++ drop (length content) (to_bytes 4 n)))
    else fault

-- `memcpy(fmap[type], buf, dtlen)`
unfoldable pub set_memory :
    Target → List ℕ → CipherConfig → CipherKey → Outcome (CipherConfig × CipherKey)
set_memory ref_compatibility content config key = do
  n ← overwrite config.compatibility content
  ok (record config { compatibility = n }, key)
set_memory ref_page_size content config key = do
  n ← overwrite config.page_size content
  ok (record config { page_size = n }, key)
set_memory ref_kdf_iter content config key = do
  n ← overwrite config.kdf_iter content
  ok (record config { kdf_iter = n }, key)
set_memory ref_key_buf [] config key = ok (config, key)
set_memory ref_key_buf (b ∷ content) config key =
    if leb (length (b ∷ content)) 8 then ok (config, record key { buf = clobbered }) else fault
set_memory _ content config key = fault

-- The switch on the type of a field, where `at` and `dtlen` say where its data stand.
unfoldable pub read_field :
    (type : ℕ)
    → (buf : List ℕ) → (at dtlen : ℕ) → CipherConfig
    → CipherKey
    → Outcome (CipherConfig × CipherKey)
read_field type buf at dtlen config key =
    if type == field_kdf_algorithm || type == field_hmac_algorithm
    then (do
      target ← load fmap type
      content ← copy_from buf at dtlen
      set_pointer target content config key)
    else if leb field_compatibility type && leb type field_kdf_iter
    then (do
      target ← load fmap type
      content ← copy_from buf at dtlen
      set_memory target content config key)
    else if type == field_key + 1 || type == field_key + 2
    then (do
      target ← load fmap field_key
      content ← copy_from buf at dtlen
      (config', key') ← set_pointer target content config key
      ok (config', record key' { len = dtlen; is_binary = type == field_key + 2 }))
    else bugged

-- The answer 0 with what was read, or 1.
pub data Deserialized : Type 0 where
  complete : CipherConfig → CipherKey → Deserialized
  refused : Deserialized

-- The loop: each round moves on by nine bytes or more. Running out of rounds is marked by `died`, with
-- which the loop never ends.
unfoldable pub deserialize_loop :
    (fuel : ℕ) → (buf : List ℕ) → (len at : ℕ) → CipherConfig → CipherKey → Outcome Deserialized
deserialize_loop zero buf len at config key = died
deserialize_loop (suc fuel) buf len at config key = do
  type ← load buf at
  (if not (in_range_e type 0 field_type_end) then ok refused else (do
    at1 ← st_buf_inc len at 1
    size ← copy_from buf at1 8
    at2 ← st_buf_inc len at1 8
    (config', key') ← read_field type buf at2 (of_bytes size) config key
    at3 ← st_buf_inc len at2 (of_bytes size)
    elim (at3 == len) [
      | true ↦ ok (complete config' key')
      | false ↦ deserialize_loop fuel buf len at3 config' key'
    ]))

unfoldable pub deserialize_cipher_config :
    CipherConfig → CipherKey → (buf : List ℕ) → (len : ℕ) → Outcome Deserialized
deserialize_cipher_config config key buf len = deserialize_loop (suc len) buf len 0 config key
