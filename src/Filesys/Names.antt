-- ===== src/Filesys/Names.antt =====
-- src/filesys.c: the name that prefix_filename answers.
use pass_keeper.Prelude.{
  Bool, true, false, ◌&&◌, ◌||◌, ◌==◌, ℕ, ◌+◌, ◌≤◌, ◌<◌, ◌^◌, ◌≡◌, refl, ap, ◌∙◌, List, [], ◌∷◌,
  ◌++◌, ok, ◌>>=◌, if◌then◌else◌, Bool-cases, inl, inr, take, length, take-append, Returns,
  Returns-bind, arith,
}
use pass_keeper.Strbuf.{Buffer, null, defbuf, heap, init, cells, strbuf_write, strbuf_vprintf}
use pass_keeper.Strbuf.Room.{HoldsIn}
use pass_keeper.Strbuf.Refines.{write_lem}
use pass_keeper.Strbuf.Printf.{printf_lem}
use pass_keeper.Filesys.{is_abs_path, skip_here, prefix_filename}

-- The text of a buffer is what its length says.
pub HoldsIn-text :
    (b : Buffer) (len size : ℕ) (t : List ℕ) → HoldsIn b len size t → take len (cells b) ≡ t
unfolding cells
HoldsIn-text null len size t hold = absurd hold
HoldsIn-text defbuf len size t (et, el, es) = rw (et, el) refl
HoldsIn-text (heap b) len size t (rest, eb, el, es) = rw (eb, el) (take-append t (0 ∷ rest))

length-skip_here : (name : List ℕ) → length (skip_here name) ≤ length name
unfolding skip_here
length-skip_here [] = omega arith
length-skip_here (c ∷ []) = omega arith
length-skip_here (c ∷ (d ∷ name)) = ground arith

answered_lem :
    (junk : ℕ) (prefix filename : List ℕ)
    → length prefix < 2 ^ 53
    → length filename + 1 < 2 ^ 31
    → prefix_filename junk prefix filename
      ≡ ok (if is_abs_path filename then filename else prefix ++ b'/' ∷ skip_here filename)
unfolding prefix_filename
answered_lem junk prefix filename h k = elim (Bool-cases (is_abs_path filename)) [
  | inl absolute ↦ rw (absolute) refl
  | inr relative ↦ rw (relative) (answer.1 ∙ ap ok answer.2)
]
  where
    answer :
        Returns
          (λ path. path ≡ prefix ++ b'/' ∷ skip_here filename)
          (strbuf_write junk init prefix >>= λ sb.
            strbuf_vprintf junk sb (b'/' ∷ skip_here filename) >>= λ sb'.
            ok (take sb'.length (cells sb'.buf)))
    answer =
        Returns-bind (strbuf_write junk init prefix) _
          (write_lem junk init [] prefix (refl, refl, refl) (omega arith))
          (λ sb hold.
            Returns-bind (strbuf_vprintf junk sb (b'/' ∷ skip_here filename)) _
              (printf_lem junk sb prefix (b'/' ∷ skip_here filename) hold h
                (omega (arith, k, length-skip_here filename)))
              (λ sb' hold'. (
                _,
                refl,
                HoldsIn-text sb'.buf sb'.length sb'.capacity (prefix ++ b'/' ∷ skip_here filename)
                    hold',
              )))

-- The rest of a name behind a first character: without that and the next one for ./ and .\.
abbrev pub without_here : ℕ → List ℕ → List ℕ
without_here c [] = c ∷ []
without_here c (d ∷ name) =
    if c == b'.'
    then (if d == b'/' then name else if d == b'\\' then name else c ∷ (d ∷ name))
    else c ∷ (d ∷ name)

-- The name that a file has, seen from elsewhere.
abbrev pub full_name : (prefix filename : List ℕ) → List ℕ
full_name prefix [] = prefix ++ b'/' ∷ []
full_name prefix (c ∷ name) = if c == b'/' then c ∷ name else prefix ++ b'/' ∷ without_here c name

skip_here-without_here : (c : ℕ) (name : List ℕ) → skip_here (c ∷ name) ≡ without_here c name
unfolding skip_here
skip_here-without_here c [] = refl
skip_here-without_here c (d ∷ name) = go (c == b'.') (d == b'/') (d == b'\\')
  where
    go :
        (p q r : Bool)
        → (if p && (q || r) then name else c ∷ (d ∷ name))
          ≡ (if p then (if q then name else if r then name else c ∷ (d ∷ name)) else c ∷ (d ∷ name))
    go true true r = refl
    go true false true = refl
    go true false false = refl
    go false q r = refl

skip_here-nil : skip_here [] ≡ []
unfolding skip_here
skip_here-nil = refl

full_name_lem :
    (prefix filename : List ℕ)
    → (if is_abs_path filename then filename else prefix ++ b'/' ∷ skip_here filename)
      ≡ full_name prefix filename
unfolding is_abs_path
full_name_lem prefix [] = ap (λ n. prefix ++ b'/' ∷ n) skip_here-nil
full_name_lem prefix (c ∷ name) =
    ap (λ n. if c == b'/' then c ∷ name else prefix ++ b'/' ∷ n) (skip_here-without_here c name)

-- prefix_filename answers a name that begins with / as it is, and any other behind the prefix and
-- a slash, without its first two characters where these are ./ or .\, where the name is shorter
-- than 2^31 - 1 bytes and the prefix shorter than 2^53.
pub prefix_filename_lem :
    (junk : ℕ) (prefix filename : List ℕ)
    → length prefix < 2 ^ 53
    → length filename + 1 < 2 ^ 31
    → prefix_filename junk prefix filename ≡ ok (full_name prefix filename)
prefix_filename_lem junk prefix filename h k =
    answered_lem junk prefix filename h k ∙ ap ok (full_name_lem prefix filename)
