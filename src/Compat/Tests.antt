-- ===== src/Compat/Tests.antt =====
-- The compatibility functions at concrete inputs.
use pass_keeper.Prelude.{
  ◌≡◌, refl, true, false, [], ◌∷◌, none, some, ok, fault, copy_to, load, store,
}
use pass_keeper.Cipher.{same_string}
use pass_keeper.Records.Reader.{begins_with}
use pass_keeper.Compat.{
  scan_seps, cut_trailing, cut_at, pk_dirname, pk_strchrnul, pk_strnlen, pk_strndup, pk_strdup,
}
use pass_keeper.Compat.Dirname.{dirname_outside}

-- The path a/b.
dirname_outside_example : pk_dirname 170 (b'a' ∷ b'/' ∷ b'b' ∷ []) ≡ fault
dirname_outside_example = dirname_outside 170 b'a' [] b'b' [] refl refl (refl, tt)

dirname_of_root : pk_dirname 170 (b'/' ∷ b'a' ∷ b'/' ∷ []) ≡ ok (b'/' ∷ [])
unfolding pk_dirname begins_with same_string scan_seps cut_at cut_trailing load
dirname_of_root = refl

-- A hidden directory is taken for the current one.
dirname_of_hidden : pk_dirname 170 (b'.' ∷ b'p' ∷ b'/' ∷ b'a' ∷ []) ≡ ok (b'.' ∷ [])
unfolding pk_dirname begins_with same_string
dirname_of_hidden = refl

strchrnul_found : pk_strchrnul (b'a' ∷ b'=' ∷ b'b' ∷ []) b'=' ≡ b'=' ∷ b'b' ∷ []
unfolding pk_strchrnul
strchrnul_found = refl

strnlen_bounded : pk_strnlen (b'a' ∷ b'b' ∷ b'c' ∷ []) 2 0 ≡ 2
unfolding pk_strnlen
strnlen_bounded = refl

strndup_cut : pk_strndup 170 true (b'a' ∷ b'b' ∷ []) 1 ≡ ok (some (b'a' ∷ 0 ∷ []))
unfolding pk_strndup copy_to store
strndup_cut = refl

strndup_failed : pk_strndup 170 false (b'a' ∷ []) 5 ≡ ok none
unfolding pk_strndup
strndup_failed = refl

strdup_copies : pk_strdup 170 true (b'a' ∷ b'b' ∷ []) ≡ ok (some (b'a' ∷ b'b' ∷ 0 ∷ []))
unfolding pk_strdup copy_to
strdup_copies = refl
