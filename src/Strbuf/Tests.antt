-- ===== src/Strbuf/Tests.antt =====
-- The buffer's theorems at concrete inputs, and runs.
use pass_keeper.Prelude.{
  ℕ, ◌≡◌, refl, List, [], ◌∷◌, ok, bugged, Returns, arith, some, none, ◌≢◌, load, store, resize,
  capacity_grow, grown_capacity, fixed_growth, st_add, st_mult,
}
use pass_keeper.Strbuf.{
  Strbuf, null, heap, init, cells, store_byte, realloc, strbuf_grow, strbuf_size_avail,
  strbuf_putchar, trim_loop, strbuf_trim_end, strbuf_from_buf, is_null,
}
use pass_keeper.Strbuf.Room.{Holds, HasRoom}
use pass_keeper.Strbuf.Trim.{IsTrimmed, trim_end_lem, from_buf_lem}
use pass_keeper.Strbuf.Run.{Call, putchar, write, puts, printf, perform_all, run_fresh}

abbrev calls : List Call
calls = puts (b'h' ∷ b'i' ∷ []) ∷ putchar b'!' ∷ printf (b'4' ∷ b'2' ∷ []) ∷ write [] ∷ []

run_fresh_example :
    Returns
      (λ sb. Holds sb (b'h' ∷ b'i' ∷ b'\n' ∷ b'!' ∷ b'4' ∷ b'2' ∷ []))
      (perform_all 170 calls init)
run_fresh_example = run_fresh 170 calls (omega arith) (omega arith)

-- `hi` and a blank, in an array of six bytes.
abbrev hi : Strbuf
hi = record { buf = heap (b'h' ∷ b'i' ∷ b' ' ∷ 0 ∷ 7 ∷ 7 ∷ []); length = 3; capacity = 6 }

abbrev hi-Holds : Holds hi (b'h' ∷ b'i' ∷ b' ' ∷ [])
hi-Holds = (7 ∷ 7 ∷ [], refl, refl, refl)

trim_end_lem_example :
    (kept : List ℕ) × IsTrimmed (b'h' ∷ b'i' ∷ b' ' ∷ []) kept
    × Returns (λ sb'. Holds sb' kept) (strbuf_trim_end hi)
trim_end_lem_example = trim_end_lem hi (b'h' ∷ b'i' ∷ b' ' ∷ []) hi-Holds

abbrev no_memory : Strbuf
no_memory = record { buf = null; length = 0; capacity = 0 }

from_buf_lem_example :
    (no_memory.buf ≡ null
      → Returns
          (λ sb'. HasRoom sb' (b'a' ∷ []) 64)
          (strbuf_from_buf 1 no_memory (some (b'a' ∷ 0 ∷ []))))
    × (no_memory.buf ≢ null → strbuf_from_buf 1 no_memory (some (b'a' ∷ 0 ∷ [])) ≡ bugged)
from_buf_lem_example = from_buf_lem 1 no_memory (b'a' ∷ []) (omega arith, tt) (omega arith)

trims :
    strbuf_trim_end hi
    ≡ ok (record { buf = heap (b'h' ∷ b'i' ∷ 0 ∷ 0 ∷ 7 ∷ 7 ∷ []); length = 2; capacity = 6 })
unfolding strbuf_trim_end trim_loop cells load store_byte store
trims = refl

first_growth :
    strbuf_putchar 9 init b'x'
    ≡ ok (record {
      buf = heap (
          b'x' ∷ 0 ∷ 9 ∷ 9 ∷ 9 ∷ 9 ∷ 9 ∷ 9 ∷ 9 ∷ 9 ∷ 9 ∷ 9 ∷ 9 ∷ 9 ∷ 9 ∷ 9 ∷ 9 ∷ 9 ∷ 9 ∷ 9 ∷ 9 ∷ 9
          ∷ 9 ∷ 9 ∷ []);
      length = 1;
      capacity = 24;
    })
unfolding strbuf_putchar strbuf_grow strbuf_size_avail capacity_grow grown_capacity fixed_growth
    st_add st_mult cells realloc resize store_byte store
first_growth = refl

-- STRBUF_INIT points at `strbuf_defbuf`, so the guard of `strbuf_from_buf` refuses it.
from_buf_init : strbuf_from_buf 0 init none ≡ bugged
unfolding strbuf_from_buf is_null
from_buf_init = refl
