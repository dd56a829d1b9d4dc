-- ===== src/Compat.antt =====
-- src/compat/dirname.c, strchrnul.c, strnlen.c, strndup.c and strdup.c, on Linux. A path is the characters of
-- the string in an array that malloc gave. `junk` is what a byte that is not set reads as.
pub mod Dirname
mod Tests
use pass_keeper.Prelude.{
  ℕ, zero, suc, ◌+◌, Bool, true, false, not, ◌&&◌, ◌||◌, List, [], ◌∷◌, ◌++◌, Option, none, some,
  Outcome, ok, fault, ◌>>=◌, if◌then◌else◌, ltb, ◌==◌, length, take, load, store, resize, replicate,
  copy_to,
}
use pass_keeper.Records.Reader.{begins_with}
use pass_keeper.Cipher.{c_string, same_string}

-- `next_sep` and `prev_sep`: the places of the last two separators.
pub record Seps : Type 0 where
  pub next_sep : Option ℕ
  pub prev_sep : Option ℕ

-- The loop over the path, from the place `i` on.
unfoldable pub scan_seps : (i : ℕ) → (iter : List ℕ) → Seps → Seps
scan_seps i [] seps = seps
scan_seps i (c ∷ iter) seps =
    scan_seps (i + 1) iter
      (if c == b'/' then record { next_sep = some i; prev_sep = seps.next_sep } else seps)

-- xrealloc, and the NUL.
unfoldable pub cut_path : ℕ → (path : List ℕ) → (plen : ℕ) → Outcome (List ℕ)
cut_path junk path plen = do buf ← store (resize junk (path ++ 0 ∷ []) plen) plen 0; c_string buf

-- A path that ends with the separator in front of nothing.
unfoldable pub cut_trailing : ℕ → (path : List ℕ) → Option ℕ → Outcome (List ℕ)
cut_trailing junk path none = ok (b'.' ∷ [])
cut_trailing junk path (some prev) = if prev == 0 then ok (b'/' ∷ []) else cut_path junk path prev

unfoldable pub cut_at : ℕ → (path : List ℕ) → Seps → Outcome (List ℕ)
cut_at junk path seps = elim seps.next_sep [
  | none ↦ ok (b'.' ∷ [])
  | some next ↦ if next == 0 then ok (b'/' ∷ []) else (do
    behind ← load (path ++ 0 ∷ []) (next + 1)
    (if behind == 0 then cut_trailing junk path seps.prev_sep else cut_path junk path next))
]

-- The string that pk_dirname returns, for a path that is not null.
unfoldable pub pk_dirname : ℕ → (path : List ℕ) → Outcome (List ℕ)
pk_dirname junk path =
    if length path == 0 || (begins_with b'.' path || same_string path (b'.' ∷ b'.' ∷ []))
    then ok (b'.' ∷ [])
    else cut_at junk path (scan_seps 0 path (record { next_sep = none; prev_sep = none }))

-- The rest of the string from the character on, or its end.
unfoldable pub pk_strchrnul : (s : List ℕ) → ℕ → List ℕ
pk_strchrnul [] c = []
pk_strchrnul (d ∷ s) c = if d == c then d ∷ s else pk_strchrnul s c

-- The loop from `len` on.
unfoldable pub pk_strnlen : (s : List ℕ) → (maxlen len : ℕ) → ℕ
pk_strnlen [] maxlen len = len
pk_strnlen (c ∷ s) maxlen len = if ltb len maxlen then pk_strnlen s maxlen (len + 1) else len

-- The array, or none where malloc fails.
unfoldable pub pk_strndup : ℕ → (has_memory : Bool) → (s : List ℕ) → ℕ → Outcome (Option (List ℕ))
pk_strndup junk has_memory s size =
    let size' = if ltb (length s) size then length s else size in
    (if not has_memory then ok none else (do
      copied ← copy_to (replicate (size' + 1) junk) 0 (take size' s)
      buf ← store copied size' 0
      ok (some buf)))

-- The array, or none where malloc fails.
unfoldable pub pk_strdup : ℕ → (has_memory : Bool) → (s : List ℕ) → Outcome (Option (List ℕ))
pk_strdup junk has_memory s =
    if not has_memory
    then ok none
    else (do buf ← copy_to (replicate (length s + 1) junk) 0 (s ++ 0 ∷ []); ok (some buf))
