-- ===== src/Prelude/SizeT.antt =====
-- src/helper.h: size_t arithmetic with its overflow checks, and the growth of a capacity.
use Prim.Native.Nat.{ℕ, ◌+◌, ◌-◌, ◌*◌, ◌/◌, ◌%◌, ◌^◌}
use pass_keeper.Prelude.Tests.{ltb, ◌==◌, if◌then◌else◌}
use pass_keeper.Prelude.Calls.{Outcome, ok, died, fault, ◌>>=◌}

-- SIZE_MAX, with a size_t of 64 bits.
abbrev pub size_max : ℕ
size_max = 2 ^ 64 - 1

-- A sum that the source leaves unchecked wraps around.
abbrev pub wrap : ℕ → ℕ
wrap n = n % 2 ^ 64

unfoldable pub st_add : ℕ → ℕ → Outcome ℕ
st_add x y = if ltb (size_max - x) y then died else ok (x + y)

-- `SIZE_MAX / x` faults at 0.
unfoldable pub st_mult : ℕ → ℕ → Outcome ℕ
st_mult x y = if x == 0 then fault else if ltb (size_max / x) y then died else ok (x * y)

unfoldable pub fixed_growth : ℕ → Outcome ℕ
fixed_growth len = do sum ← st_add len 16; product ← st_mult sum 3; ok (product / 2)

-- What CAPACITY_GROW makes of a capacity that is too small, with REALLOC_ARRAY's check of the
-- byte count.
unfoldable pub grown_capacity : (elem_size size cap : ℕ) → Outcome ℕ
grown_capacity elem_size size cap = do
  grown ← fixed_growth cap
  let cap' = if ltb grown size then size else grown
  bytes ← st_mult elem_size cap'
  ok cap'

-- CAPACITY_GROW on the capacity alone.
unfoldable pub capacity_grow : (elem_size size cap : ℕ) → Outcome ℕ
capacity_grow elem_size size cap =
    if ltb cap size then grown_capacity elem_size size cap else ok cap
