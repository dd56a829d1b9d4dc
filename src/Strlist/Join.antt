-- ===== src/Strlist/Join.antt =====
-- src/strlist.c: strlist_join. `junk` is what a byte that realloc left unset reads as.
pub mod Copies
pub mod Piece
pub mod Whole
pub mod Elements
pub mod RoundTrip
use pass_keeper.Prelude.{
  ℕ, zero, suc, ◌+◌, ◌-◌, ◌%◌, ◌^◌, Bool, true, false, List, [], ◌∷◌, ◌++◌, Outcome, ok, fault,
  ◌>>=◌, if◌then◌else◌, ltb, length, load, store, copy_to, resize, for_range, capacity_grow, wrap,
}
use pass_keeper.Strlist.{Strlist, Elem, Str, Ext, live, dangling, no_ext, text, freed}

pub data JoinExtPos : Type 0 where
  ext_join_none : JoinExtPos
  ext_join_head : JoinExtPos
  ext_join_tail : JoinExtPos

-- Reading a string.
unfoldable pub chars : Str → Outcome (List ℕ)
chars (live str) = ok str
chars dangling = fault

-- What of `ext` is joined: nothing where it is 0 or not asked for.
unfoldable pub ext_chars : JoinExtPos → Ext → Outcome (List ℕ)
ext_chars ext_join_none ext = ok []
ext_chars pos no_ext = ok []
ext_chars pos (text str) = ok str
ext_chars pos freed = fault

-- The copies of `ext` that stand before and behind the string.
unfoldable pub head_ext : JoinExtPos → List ℕ → List ℕ
head_ext ext_join_head ext = ext
head_ext _ ext = []

unfoldable pub tail_ext : JoinExtPos → List ℕ → List ℕ
tail_ext ext_join_tail ext = ext
tail_ext _ ext = []

pub record JoinBuffer : Type 0 where
  pub buf0 : List ℕ
  pub bufsz : ℕ
  pub bufcap : ℕ

-- CAPACITY_GROW on the buffer.
unfoldable pub join_grow : ℕ → JoinBuffer → ℕ → Outcome JoinBuffer
join_grow junk b bufsz = do
  bufcap' ← capacity_grow 1 bufsz b.bufcap
  ok (record {
    buf0 = if ltb b.bufcap bufsz then resize junk b.buf0 bufcap' else b.buf0;
    bufsz = bufsz;
    bufcap = bufcap';
  })

-- The loop's body.
unfoldable pub join_round :
    ℕ → List Elem → List ℕ → JoinExtPos → ℕ → JoinBuffer → Outcome JoinBuffer
join_round junk elvec separator join_pos i b = do
  let prevsz = b.bufsz
  el ← load elvec i
  str ← chars el.str
  ext ← ext_chars join_pos el.ext
  grown ← join_grow junk b (wrap (b.bufsz + (length str + length ext + length separator)))
  let before = head_ext join_pos ext
  let behind = tail_ext join_pos ext
  buf1 ← copy_to grown.buf0 prevsz before
  buf2 ← copy_to buf1 (prevsz + length before) str
  buf3 ← copy_to buf2 (prevsz + length before + length str) behind
  buf4 ← copy_to buf3 (prevsz + length before + length str + length behind) separator
  ok (record grown { buf0 = buf4 })

unfoldable pub strlist_join : ℕ → Strlist → List ℕ → JoinExtPos → Outcome (List ℕ)
strlist_join junk sl separator join_pos = do
  b ←
      for_range sl.size 0 (join_round junk sl.elvec separator join_pos)
        (record { buf0 = []; bufsz = 0; bufcap = 0 })
  store b.buf0 (b.bufsz - length separator) 0
