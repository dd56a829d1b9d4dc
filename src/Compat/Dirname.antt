-- ===== src/Compat/Dirname.antt =====
-- src/compat/dirname.c: what pk_dirname does with a path that has a directory.
use pass_keeper.Prelude.{
  ℕ, suc, ◌+◌, ◌≡◌, refl, sym, ap, ◌∙◌, false, ◌&&◌, ◌||◌, List, [], ◌∷◌, ◌++◌, append_assoc, none,
  some, Outcome, ok, fault, ◌>>=◌, if◌then◌else◌, if_not, ltb, ◌==◌, length, length-append, load,
  store, resize, length-resize, load-append, arith,
}
use pass_keeper.Cipher.{same_string}
use pass_keeper.Records.Reader.{begins_with}
use pass_keeper.Compat.{Seps, scan_seps, cut_path, cut_trailing, cut_at, pk_dirname}

-- A name in a directory.
abbrev pub IsName : List ℕ → Type 0
IsName [] = Unit
IsName (c ∷ str) = ((c == b'/') ≡ false) × IsName str

scan_seps-name : (i : ℕ) (name : List ℕ) (seps : Seps) → IsName name → scan_seps i name seps ≡ seps
unfolding scan_seps
scan_seps-name i [] seps h = refl
scan_seps-name i (c ∷ name) seps (other, h) =
    ap
      (λ b.
        scan_seps (i + 1) name
          (if b then record { next_sep = some i; prev_sep = seps.next_sep } else seps))
      other
    ∙ scan_seps-name (i + 1) name seps h

-- The last separator stands behind the directory.
next_sep-scan_seps :
    (i : ℕ) (dir name : List ℕ) (seps : Seps)
    → IsName name
    → (scan_seps i (dir ++ b'/' ∷ name) seps).next_sep ≡ some (i + length dir)
unfolding scan_seps
next_sep-scan_seps i [] name seps h =
    ap (λ s. s.next_sep)
      {x = scan_seps (i + 1) name (record { next_sep = some i; prev_sep = seps.next_sep })}
      (scan_seps-name (i + 1) name _ h)
    ∙ ap some (omega arith)
next_sep-scan_seps i (c ∷ dir) name seps h =
    next_sep-scan_seps (i + 1) dir name _ h ∙ ap some (omega arith)

-- The NUL is written behind the bytes that are left.
cut_path-fault : (junk : ℕ) (path : List ℕ) (plen : ℕ) → cut_path junk path plen ≡ fault
unfolding cut_path store
cut_path-fault junk path plen =
    let outside : ltb plen (length (resize junk (path ++ 0 ∷ []) plen)) ≡ false =
      ground (arith, length-resize junk (path ++ 0 ∷ []) plen) in
    rw (outside) refl

cut_at-fault :
    (junk : ℕ) (path : List ℕ) (seps : Seps) (next d : ℕ)
    → seps.next_sep ≡ some (suc next)
    → load (path ++ 0 ∷ []) (suc next + 1) ≡ ok d
    → (d == 0) ≡ false
    → cut_at junk path seps ≡ fault
unfolding cut_at
cut_at-fault junk path seps next d e read nul =
    ap
      (λ o. elim o as (λ x. Outcome (List ℕ)) [
        | none ↦ ok (b'.' ∷ [])
        | some next ↦ if next == 0 then ok (b'/' ∷ []) else (do
          behind ← load (path ++ 0 ∷ []) (next + 1)
          (if behind == 0 then cut_trailing junk path seps.prev_sep else cut_path junk path next))
      ])
      e
    ∙ if_not (suc next == 0) (ground arith) (ok (b'/' ∷ [])) _
    ∙ ap
        (λ m. m >>= λ behind.
          if behind == 0
          then cut_trailing junk path seps.prev_sep
          else cut_path junk path (suc next))
        read
    ∙ if_not (d == 0) nul (cut_trailing junk path seps.prev_sep) (cut_path junk path (suc next))
    ∙ cut_path-fault junk path (suc next)

-- pk_dirname of a path with a nonempty name behind its last separator and something before that
-- separator, which does not begin with a dot, writes its NUL one byte behind the array that
-- xrealloc left.
pub dirname_outside :
    (junk c : ℕ) (dir : List ℕ) (d : ℕ) (name : List ℕ)
    → (c == b'.') ≡ false
    → (d == 0) ≡ false
    → IsName (d ∷ name)
    → pk_dirname junk ((c ∷ dir) ++ b'/' ∷ (d ∷ name)) ≡ fault
unfolding pk_dirname begins_with same_string
dirname_outside junk c dir d name dot nul h =
    let path : List ℕ = (c ∷ dir) ++ b'/' ∷ (d ∷ name) in
    let seps = scan_seps 0 path (record { next_sep = none; prev_sep = none }) in
    let next =
      next_sep-scan_seps 0 (c ∷ dir) (d ∷ name) (record { next_sep = none; prev_sep = none }) h in
    let at : load (path ++ 0 ∷ []) (length (c ∷ dir) + 1) ≡ ok d =
      ap (λ z. load z (length (c ∷ dir) + 1))
        (append_assoc (c ∷ dir) (b'/' ∷ (d ∷ name)) (0 ∷ [])
          ∙ sym (append_assoc (c ∷ dir) (b'/' ∷ []) (d ∷ (name ++ 0 ∷ []))))
      ∙ load-append ((c ∷ dir) ++ b'/' ∷ []) (name ++ 0 ∷ []) d (length (c ∷ dir) + 1)
          (omega (arith, length-append (c ∷ dir) (b'/' ∷ []))) in
    let filled : (length path == 0) ≡ false = ground arith in
    let no_dot : (length path == 0
          || (c == b'.' || (c == b'.' && same_string (dir ++ b'/' ∷ (d ∷ name)) (b'.' ∷ []))))
        ≡ false =
      ap
        (λ b. b || (c == b'.' || (c == b'.' && same_string (dir ++ b'/' ∷ (d ∷ name)) (b'.' ∷ []))))
        filled
      ∙ ap (λ b. b || (b && same_string (dir ++ b'/' ∷ (d ∷ name)) (b'.' ∷ []))) dot in
    if_not _ no_dot (ok (b'.' ∷ [])) (cut_at junk path seps)
    ∙ cut_at-fault junk path seps (length dir) d (next ∙ ap some (omega arith)) at nul
