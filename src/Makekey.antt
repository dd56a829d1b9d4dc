-- ===== src/Makekey.antt =====
-- src/command/makekey.c: the text that cmd_makekey writes. `random` is what random_bytes gives, and
-- `junk` what a byte that nothing set reads as.
pub mod Output
mod Tests
use pass_keeper.Prelude.{
  ℕ, ◌+◌, ◌*◌, ◌%◌, ◌^◌, List, Outcome, ok, ◌>>=◌, store, copy_to, copy_from, replicate,
}
use pass_keeper.Hex.{bin2hex}

-- The length of the digits is computed as an unsigned int.
unfoldable pub cmd_makekey : ℕ → List ℕ → (key_size : ℕ) → Outcome (List ℕ)
cmd_makekey junk random key_size = do
  let hexkey_len = key_size * 2 % 2 ^ 32
  let buf0 : List ℕ = replicate (hexkey_len + 3) junk
  (hexkey, len) ← bin2hex junk random key_size
  buf1 ← store buf0 0 b'0'
  buf2 ← store buf1 1 b'x'
  digits ← copy_from hexkey 0 hexkey_len
  buf3 ← copy_to buf2 2 digits
  store buf3 (2 + hexkey_len) b'\n'
