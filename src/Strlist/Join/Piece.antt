-- ===== src/Strlist/Join/Piece.antt =====
-- One element that strlist_join adds to the buffer.
use pass_keeper.Prelude.{
  ℕ, ◌+◌, ◌-◌, ◌^◌, ◌≤◌, ◌<◌, ◌≡◌, refl, sym, ap, ◌∙◌, inl, inr, List, ◌++◌, append_assoc, arith,
  Bool-cases, Outcome, ok, Returns, Returns-bind, ltb, length, length-append, load, resize,
  resize_grow, length-resize, replicate, capacity_grow_lem, next_capacity, next_capacity_bounds,
  next_capacity_kept, wrap,
}
use pass_keeper.Strlist.{Elem}
use pass_keeper.Strlist.Join.{
  JoinExtPos, ext_join_none, ext_join_head, ext_join_tail, JoinBuffer, chars, ext_chars, head_ext,
  tail_ext, join_grow, join_round,
}
use pass_keeper.Strlist.Join.Copies.{copies_lem}

-- What an element reads as, with its `ext` in its place.
abbrev pub Shown : JoinExtPos → Elem → List ℕ → Type 0
Shown join_pos el out =
    (str : List ℕ) × (ext : List ℕ) × (chars el.str ≡ ok str)
    × (ext_chars join_pos el.ext ≡ ok ext)
    × (out ≡ head_ext join_pos ext ++ (str ++ tail_ext join_pos ext))

-- The buffer has `out` in it, and its capacity is what is allocated.
abbrev pub Joined : List ℕ → JoinBuffer → Type 0
Joined out b =
    (gap : List ℕ) × (b.buf0 ≡ out ++ gap) × (b.bufsz ≡ length out) × (b.bufcap ≡ length b.buf0)

-- A buffer with room for what is to come.
abbrev Ready : List ℕ → ℕ → JoinBuffer → Type 0
Ready out bufsz b =
    (gap : List ℕ) × (b.buf0 ≡ out ++ gap)
    × (b.bufsz ≡ bufsz)
    × (b.bufcap ≡ length b.buf0)
    × (bufsz ≤ length out + length gap)

join_grow_lem :
    (junk : ℕ) (b : JoinBuffer) (out : List ℕ) (bufsz : ℕ)
    → Joined out b
    → length out ≤ bufsz
    → bufsz < 2 ^ 56
    → Returns (Ready out bufsz) (join_grow junk b bufsz)
unfolding join_grow
join_grow_lem junk b out bufsz (gap, cells, size_eq, cap_eq) more small =
    let capacity : ℕ = next_capacity bufsz b.bufcap in
    let bounds = next_capacity_bounds bufsz b.bufcap in
    let unset : List ℕ = replicate (capacity - length b.buf0) junk in
    let grew = capacity_grow_lem 1 bufsz b.bufcap (omega arith) (omega arith) small in
    elim (Bool-cases (ltb b.bufcap bufsz)) [
      | inl full ↦
          let grown : resize junk b.buf0 capacity ≡ out ++ (gap ++ unset) =
            resize_grow junk b.buf0 capacity (omega (arith, bounds.1, cap_eq))
            ∙ ap (λ z. z ++ unset) cells
            ∙ append_assoc out gap unset in
          let len : length (resize junk b.buf0 capacity) ≡ capacity =
            length-resize junk b.buf0 capacity in
          (
            record { buf0 = resize junk b.buf0 capacity; bufsz = bufsz; bufcap = capacity },
            rw (grew, full),
            (
              gap ++ unset,
              grown,
              refl,
              sym len,
              omega (arith, bounds.0, sym len ∙ ap length grown, length-append out (gap ++ unset)),
            ),
          )
      | inr free ↦ (
        record { buf0 = b.buf0; bufsz = bufsz; bufcap = capacity },
        rw (grew, free),
        (
          gap,
          cells,
          refl,
          next_capacity_kept bufsz b.bufcap free ∙ cap_eq,
          ground (arith, free, cap_eq ∙ ap length cells, length-append out gap),
        ),
      )
    ]

count_ok : Outcome (List ℕ) → ℕ
count_ok (ok xs) = length xs
count_ok _ = 0

-- No more of `ext` is copied than room is made for.
length-ext :
    (join_pos : JoinExtPos) (el : Elem) (ext : List ℕ)
    → ext_chars join_pos el.ext ≡ ok ext
    → length (head_ext join_pos ext) + length (tail_ext join_pos ext) ≡ length ext
unfolding count_ok head_ext tail_ext ext_chars
length-ext ext_join_none el ext e = ap count_ok e
length-ext ext_join_head el ext e = omega arith
length-ext ext_join_tail el ext e = omega arith

pub join_round_lem :
    (junk : ℕ) (elvec : List Elem) (separator : List ℕ) (join_pos : JoinExtPos) (i : ℕ)
    (b : JoinBuffer) (out : List ℕ) (el : Elem) (piece : List ℕ)
    → load elvec i ≡ ok el
    → Shown join_pos el piece
    → Joined out b
    → length out + length piece + length separator < 2 ^ 56
    → Returns (Joined (out ++ (piece ++ separator))) (join_round junk elvec separator join_pos i b)
unfolding join_round
join_round_lem junk elvec separator join_pos i b out el piece read (str, ext, is_str, is_ext, shape)
      joined small =
    let before : List ℕ = head_ext join_pos ext in
    let behind : List ℕ = tail_ext join_pos ext in
    let ext_len : length before + length behind ≡ length ext = length-ext join_pos el ext is_ext in
    let total : ℕ = b.bufsz + (length str + length ext + length separator) in
    let size_eq : b.bufsz ≡ length out = joined.2 in
    let piece_len : length piece ≡ length before + (length str + length behind) =
      ap length shape
      ∙ length-append before (str ++ behind)
      ∙ ap (length before +◌) (length-append str behind) in
    let unwrapped : wrap total ≡ total = omega (arith, size_eq, ext_len, piece_len, small) in
    rw (read, is_str, is_ext, unwrapped)
      (Returns-bind _ _
        (join_grow_lem junk b out total joined (omega (arith, size_eq))
          (omega (arith, size_eq, ext_len, piece_len, small)))
        λ grown (ready : Ready out total grown).
          let c =
            copies_lem grown b.bufsz out ready.0 before str behind separator ready.1 size_eq
              (omega (arith, ready.4, size_eq, ext_len)) in
          let whole : List ℕ = out ++ (piece ++ separator) in
          let shaped : out ++ ((before ++ (str ++ behind)) ++ separator) ≡ whole =
            ap (λ z. out ++ (z ++ separator)) (sym shape) in
          let len_out : length whole ≡ length out + (length piece + length separator) =
            length-append out (piece ++ separator)
            ∙ ap (length out +◌) (length-append piece separator) in
          (
            record grown { buf0 = (out ++ ((before ++ (str ++ behind)) ++ separator)) ++ c.0 },
            c.1.0,
            (
              c.0,
              ap (λ z. z ++ c.0) shaped,
              ready.2 ∙ omega (arith, size_eq, ext_len, piece_len, len_out),
              ready.3 ∙ ap length ready.1 ∙ c.1.1,
            ),
          ))
