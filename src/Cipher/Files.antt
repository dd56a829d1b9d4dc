-- ===== src/Cipher/Files.antt =====
-- src/cipher-config.c, src/security.c and src/command/init.c: the file of cipher settings, with
-- the SHA-256 of OpenSSL as a parameter. A file that is read is given by its bytes.
use pass_keeper.Prelude.{
  ℕ, ◌+◌, ◌-◌, Bool, List, Option, none, some, Outcome, ◌>>=◌, if◌then◌else◌, ltb, length, take,
  drop, copy_to, copy_from,
}
use pass_keeper.Cipher.{CipherConfig, CipherKey, same_string, serialize_cipher_config}

-- memcmp of 32 bytes.
unfoldable pub verify_digest_sha256 :
    (digest : List ℕ → List ℕ) → (message prev_digest : List ℕ) → Bool
verify_digest_sha256 digest message prev_digest = same_string (digest message) (take 32 prev_digest)

-- What populate_file writes to the file.
unfoldable pub persist_cipher_config :
    (junk : ℕ) → (digest : List ℕ → List ℕ) → CipherConfig → CipherKey → Outcome (List ℕ)
persist_cipher_config junk digest cc ck = do
  (buf, len) ← serialize_cipher_config junk cc ck
  message ← copy_from buf 0 len
  buf' ← copy_to buf len (digest message)
  copy_from buf' 0 (len + 32)

-- The buffer and `*len1`, or nothing for a file that is too short or does not end in its digest.
unfoldable pub resolve_cipher_config :
    (digest : List ℕ → List ℕ) → (file : List ℕ) → Option (List ℕ × ℕ)
resolve_cipher_config digest file =
    if ltb (length file) 32
    then none
    else let len = length file - 32 in
      if verify_digest_sha256 digest (take len file) (drop len file) then some (file, len) else none
