-- ===== src/Strlist/Join/Copies.antt =====
-- The copies that strlist_join makes of one element.
use pass_keeper.Prelude.{
  ℕ, ◌+◌, ◌≤◌, ◌≡◌, refl, sym, ap, ◌∙◌, List, ◌++◌, append_assoc, arith, ok, ◌>>=◌, length,
  length-append, copy_to, copy_to-append, drop, length-drop,
}
use pass_keeper.Strlist.Join.{JoinBuffer}

-- A copy to the end of what is there.
copy_next :
    (cells out gap src : List ℕ) (at : ℕ)
    → cells ≡ out ++ gap
    → at ≡ length out
    → length src ≤ length gap
    → (gap' : List ℕ) × (copy_to cells at src ≡ ok ((out ++ src) ++ gap'))
      × (length src + length gap' ≡ length gap)
copy_next cells out gap src at e h fits = (
  drop (length src) gap,
  ap (λ c. copy_to c at src) e
      ∙ copy_to-append out gap src at h fits
      ∙ ap ok (sym (append_assoc out src (drop (length src) gap))),
  omega (arith, length-drop (length src) gap),
)

append_four :
    (out a b c d : List ℕ) → ((((out ++ a) ++ b) ++ c) ++ d) ≡ out ++ ((a ++ (b ++ c)) ++ d)
append_four out a b c d =
    append_assoc ((out ++ a) ++ b) c d
    ∙ append_assoc (out ++ a) b (c ++ d)
    ∙ append_assoc out a (b ++ (c ++ d))
    ∙ ap (out ++◌) (ap (a ++◌) (sym (append_assoc b c d)) ∙ sym (append_assoc a (b ++ c) d))

-- What one copy does, with `gap'` the cells behind it.
abbrev Copied : (cells out gap src : List ℕ) → (at : ℕ) → List ℕ → Type 0
Copied cells out gap src at gap' =
    (copy_to cells at src ≡ ok ((out ++ src) ++ gap')) × (length src + length gap' ≡ length gap)

-- The buffer after four copies.
abbrev pub Filled : JoinBuffer → ℕ → (out gap before str behind separator rest : List ℕ) → Type 0
Filled b prevsz out gap before str behind separator rest =
    ((do
      buf1 ← copy_to b.buf0 prevsz before
      buf2 ← copy_to buf1 (prevsz + length before) str
      buf3 ← copy_to buf2 (prevsz + length before + length str) behind
      buf4 ← copy_to buf3 (prevsz + length before + length str + length behind) separator
      ok (record b { buf0 = buf4 }))
      ≡ ok (record b { buf0 = (out ++ ((before ++ (str ++ behind)) ++ separator)) ++ rest }))
    × (length (out ++ gap) ≡ length ((out ++ ((before ++ (str ++ behind)) ++ separator)) ++ rest))

four_copies :
    (b : JoinBuffer) (prevsz : ℕ) (out gap before str behind separator g1 g2 g3 g4 : List ℕ)
    → Copied b.buf0 out gap before prevsz g1
    → Copied ((out ++ before) ++ g1) (out ++ before) g1 str (prevsz + length before) g2
    → Copied
        (((out ++ before) ++ str) ++ g2)
        ((out ++ before) ++ str)
        g2
        behind
        (prevsz + length before + length str)
        g3
    → Copied
        ((((out ++ before) ++ str) ++ behind) ++ g3)
        (((out ++ before) ++ str) ++ behind)
        g3
        separator
        (prevsz + length before + length str + length behind)
        g4
    → Filled b prevsz out gap before str behind separator g4
four_copies b prevsz out gap before str behind separator g1 g2 g3 g4 c1 c2 c3 c4 =
    let piece : List ℕ = (before ++ (str ++ behind)) ++ separator in
    (
      rw (c1.0, c2.0, c3.0, c4.0)
          (ap (λ z. ok (record b { buf0 = z ++ g4 }))
            (append_four out before str behind separator)),
      omega (
        arith,
        c1.1,
        c2.1,
        c3.1,
        c4.1,
        length-append out gap,
        length-append (out ++ piece) g4,
        length-append out piece,
        length-append (before ++ (str ++ behind)) separator,
        length-append before (str ++ behind),
        length-append str behind,
      ),
    )

pub copies_lem :
    (b : JoinBuffer) (prevsz : ℕ) (out gap before str behind separator : List ℕ)
    → b.buf0 ≡ out ++ gap
    → prevsz ≡ length out
    → length before + length str + length behind + length separator ≤ length gap
    → (rest : List ℕ) × Filled b prevsz out gap before str behind separator rest
copies_lem b prevsz out gap before str behind separator e h fits =
    let out1 : List ℕ = out ++ before in
    let out2 : List ℕ = out1 ++ str in
    let out3 : List ℕ = out2 ++ behind in
    let len1 : length out1 ≡ length out + length before = length-append out before in
    let len2 : length out2 ≡ length out1 + length str = length-append out1 str in
    let len3 : length out3 ≡ length out2 + length behind = length-append out2 behind in
    let c1 = copy_next b.buf0 out gap before prevsz e h (omega arith) in
    let c2 =
      copy_next (out1 ++ c1.0) out1 c1.0 str (prevsz + length before) refl (omega (arith, len1))
        (omega (arith, c1.2)) in
    let c3 =
      copy_next (out2 ++ c2.0) out2 c2.0 behind (prevsz + length before + length str) refl
        (omega (arith, len1, len2)) (omega (arith, c1.2, c2.2)) in
    let c4 =
      copy_next (out3 ++ c3.0) out3 c3.0 separator
        (prevsz + length before + length str + length behind) refl (omega (arith, len1, len2, len3))
        (omega (arith, c1.2, c2.2, c3.2)) in
    (
      c4.0,
      four_copies b prevsz out gap before str behind separator c1.0 c2.0 c3.0 c4.0 (c1.1, c1.2)
          (c2.1, c2.2) (c3.1, c3.2) (c4.1, c4.2),
    )
