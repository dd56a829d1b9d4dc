-- ===== src/Filesys.antt =====
-- src/filesys.c: the names of files, built in a string buffer.
pub mod Names
mod Tests
use pass_keeper.Prelude.{
  ℕ, ◌+◌, Bool, true, false, ◌&&◌, ◌||◌, List, [], ◌∷◌, Outcome, ok, ◌>>=◌, if◌then◌else◌, ◌==◌,
  take,
}
use pass_keeper.Strbuf.{Strbuf, init, cells, strbuf_write, strbuf_vprintf}

-- `is_abs_path` on Linux.
unfoldable pub is_abs_path : List ℕ → Bool
is_abs_path [] = false
is_abs_path (c ∷ path) = c == b'/'

-- A leading ./ or .\ is skipped.
unfoldable pub skip_here : List ℕ → List ℕ
skip_here [] = []
skip_here (c ∷ []) = c ∷ []
skip_here (c ∷ (d ∷ name)) = if c == b'.' && (d == b'/' || d == 92) then name else c ∷ (d ∷ name)

-- The text that the answer points to.
unfoldable pub prefix_filename : ℕ → (prefix filename : List ℕ) → Outcome (List ℕ)
prefix_filename junk prefix filename = if is_abs_path filename then ok filename else (do
  sb ← strbuf_write junk init prefix
  sb' ← strbuf_vprintf junk sb (b'/' ∷ skip_here filename)
  ok (take sb'.length (cells sb'.buf)))
