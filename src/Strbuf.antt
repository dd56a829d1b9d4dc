-- ===== src/Strbuf.antt =====
-- src/strbuf.c and src/strbuf.h: the growable string buffer. A `Strbuf` is `struct strbuf`; its
-- `buf` points nowhere, at the one shared byte `strbuf_defbuf`, or at an allocated array. `junk` is
-- what a byte that malloc or realloc left unset reads as. malloc and realloc do not fail here.
pub mod Room
pub mod Refines
pub mod Printf
pub mod Trim
pub mod Run
mod Tests
use pass_keeper.Prelude.{
  ℕ, zero, suc, ◌+◌, ◌-◌, ◌^◌, Bool, true, false, ◌&&◌, ◌||◌, List, [], ◌∷◌, ◌++◌, Option, none,
  some, Outcome, ok, bugged, fault, ◌>>=◌, if◌then◌else◌, ltb, leb, ◌==◌, length, take, load, store,
  copy_to, copy_from, resize, capacity_grow, wrap, min,
}

pub data Buffer : Type 0 where
  null : Buffer
  defbuf : Buffer
  heap : List ℕ → Buffer

pub record Strbuf : Type 0 where
  pub buf : Buffer
  pub length : ℕ
  pub capacity : ℕ

-- STRBUF_INIT
abbrev pub init : Strbuf
init = record { buf = defbuf; length = 0; capacity = 0 }

unfoldable pub cells : Buffer → List ℕ
cells null = []
cells defbuf = 0 ∷ []
cells (heap b) = b

-- `sb->buf[i] = c`. Every buffer without memory of its own shares `strbuf_defbuf`, so a write of
-- anything but its 0 counts as a fault too.
unfoldable pub store_byte : Buffer → ℕ → ℕ → Outcome Buffer
store_byte null i c = fault
store_byte defbuf i c = if i == 0 && c == 0 then ok defbuf else fault
store_byte (heap b) i c = do b' ← store b i c; ok (heap b')

-- `memcpy(sb->buf + at, str, length str)`
unfoldable pub copy_bytes : Buffer → ℕ → List ℕ → Outcome Buffer
copy_bytes null at str = fault
copy_bytes defbuf at str = if length str == 0 then ok defbuf else fault
copy_bytes (heap b) at str = do b' ← copy_to b at str; ok (heap b')

-- `realloc(sb->buf, cap)`
unfoldable pub realloc : ℕ → Buffer → ℕ → Buffer
realloc junk b cap' = heap (resize junk (cells b) cap')

unfoldable pub strbuf_grow : ℕ → Strbuf → ℕ → Outcome Strbuf
strbuf_grow junk sb request_size = do
  let factory_new = sb.capacity == 0
  let old = if factory_new then null else sb.buf
  let size = wrap (sb.length + request_size + 1)
  capacity' ← capacity_grow 1 size sb.capacity
  let grown = if ltb sb.capacity size then realloc junk old capacity' else old
  buf' ← (if factory_new then store_byte grown 0 0 else ok grown)
  ok (record sb { buf = buf'; capacity = capacity' })

unfoldable pub is_defbuf : Buffer → Bool
is_defbuf defbuf = true
is_defbuf _ = false

unfoldable pub strbuf_setlen : Strbuf → ℕ → Outcome Strbuf
strbuf_setlen sb len = do
  buf' ← (if is_defbuf sb.buf then ok sb.buf else store_byte sb.buf len 0)
  ok (record sb { buf = buf'; length = len })

unfoldable pub strbuf_addlen : Strbuf → ℕ → Outcome Strbuf
strbuf_addlen sb newlen = strbuf_setlen sb (wrap (sb.length + newlen))

unfoldable pub strbuf_size_avail : Strbuf → ℕ
strbuf_size_avail sb = if sb.capacity == 0 then 0 else sb.capacity - sb.length - 1

-- vsnprintf at `sb->buf + sb->length` with all the room that is left, for a format and arguments
-- that print `text`: what fits is written, with a 0 behind it.
unfoldable pub vsnprintf_at : Strbuf → List ℕ → Outcome Buffer
vsnprintf_at sb text =
    let room = sb.capacity - sb.length in
    if room == 0 then ok sb.buf else copy_bytes sb.buf sb.length (take (room - 1) text ++ 0 ∷ [])

-- vsnprintf answers with the length of the whole text, or below 0 if an int does not hold it.
unfoldable pub strbuf_vprintf : ℕ → Strbuf → List ℕ → Outcome Strbuf
strbuf_vprintf junk sb0 text = do
  sb ← (if strbuf_size_avail sb0 == 0 then strbuf_grow junk sb0 64 else ok sb0)
  buf' ← vsnprintf_at sb text
  let written = record sb { buf = buf' }
  let wch = length text
  if leb (2 ^ 31) wch
      then bugged
      else (if ltb (strbuf_size_avail written) wch
          then (do
            more ← strbuf_grow junk written wch
            buf'' ← vsnprintf_at more text
            strbuf_addlen (record more { buf = buf'' }) wch)
          else strbuf_addlen written wch)

unfoldable pub strbuf_putchar : ℕ → Strbuf → ℕ → Outcome Strbuf
strbuf_putchar junk sb0 c = do
  sb ← (if strbuf_size_avail sb0 == 0 then strbuf_grow junk sb0 1 else ok sb0)
  buf' ← store_byte sb.buf sb.length c
  buf'' ← store_byte buf' (sb.length + 1) 0
  ok (record sb { buf = buf''; length = sb.length + 1 })

unfoldable pub strbuf_write : ℕ → Strbuf → List ℕ → Outcome Strbuf
strbuf_write junk sb0 str = do
  let sz = length str
  sb ← (if ltb (strbuf_size_avail sb0) sz then strbuf_grow junk sb0 sz else ok sb0)
  buf' ← copy_bytes sb.buf sb.length str
  strbuf_addlen (record sb { buf = buf' }) sz

unfoldable pub strbuf_puts : ℕ → Strbuf → List ℕ → Outcome Strbuf
strbuf_puts junk sb0 str = do
  let size = length str + 1
  sb ← (if ltb (strbuf_size_avail sb0) size then strbuf_grow junk sb0 size else ok sb0)
  buf' ← copy_bytes sb.buf sb.length str
  buf'' ← store_byte buf' (sb.length + (size - 1)) b'\n'
  strbuf_addlen (record sb { buf = buf'' }) size

-- isspace in the C locale.
abbrev pub isspace : ℕ → Bool
isspace c = c == 32 || leb 9 c && leb c 13

-- The loop of `strbuf_trim_end`: the length that it leaves.
unfoldable pub trim_loop : List ℕ → ℕ → Outcome ℕ
trim_loop b zero = ok 0
trim_loop b (suc n) = do
  c ← load b n
  let shorter = trim_loop b n
  if isspace c then shorter else ok (suc n)

unfoldable pub strbuf_trim_end : Strbuf → Outcome Strbuf
strbuf_trim_end sb = do
  len ← trim_loop (cells sb.buf) sb.length
  buf' ← store_byte sb.buf len 0
  ok (record sb { buf = buf'; length = len })

unfoldable pub strbuf_trunc : Strbuf → Outcome Strbuf
strbuf_trunc sb = do buf' ← store_byte sb.buf 0 0; ok (record sb { buf = buf'; length = 0 })

-- The copy that is handed out, and the buffer that is left.
unfoldable pub strbuf_detach : Strbuf → Outcome (List ℕ × Strbuf)
strbuf_detach sb = do
  bufcopy ← copy_from (cells sb.buf) 0 (sb.length + 1)
  sb' ← strbuf_trunc sb
  ok (bufcopy, sb')

-- strlen, over the cells that the pointer reaches.
unfoldable pub strlen : List ℕ → Outcome ℕ
strlen [] = fault
strlen (c ∷ s) = do let rest = strlen s; if c == 0 then ok 0 else (do n ← rest; ok (n + 1))

unfoldable pub is_null : Buffer → Bool
is_null null = true
is_null _ = false

unfoldable pub strbuf_from_buf : ℕ → Strbuf → Option (List ℕ) → Outcome Strbuf
strbuf_from_buf junk sb none = if is_null sb.buf then ok sb else bugged
strbuf_from_buf junk sb (some b) =
    if is_null sb.buf
    then (do
      len ← strlen b
      strbuf_grow junk (record { buf = heap b; length = len; capacity = len + 1 }) 64)
    else bugged
