-- ===== src/Prelude/Growth.antt =====
-- CAPACITY_GROW never dies on sizes that fit the address space, and makes room.
use Prim.Native.Nat.{ℕ, ◌+◌, ◌*◌, ◌/◌, ◌^◌, ◌≤◌, ◌<◌}
use mathlib.Core.Path.{◌≡◌}
use mathlib.Core.Bool.{false}
use native.Mathlib.Omega.{arith}
use native.Mathlib.Nat.{le-div_iff_mul-le}
use mathlib.Core.Logic.{inl, inr}
use pass_keeper.Prelude.Tests.{tests, Bool-cases, ltb, if◌then◌else◌, ◌==◌}
use pass_keeper.Prelude.Calls.{ok}
use pass_keeper.Prelude.SizeT.{
  size_max, st_add, st_mult, fixed_growth, grown_capacity, capacity_grow,
}

pub st_add_lem : (x y : ℕ) → x + y ≤ size_max → st_add x y ≡ ok (x + y)
unfolding st_add
st_add_lem x y h = ground arith

pub st_mult_lem : (x y : ℕ) → 0 < x → y * x ≤ size_max → st_mult x y ≡ ok (x * y)
unfolding st_mult
st_mult_lem x y p h =
    let q : y ≤ size_max / x = (le-div_iff_mul-le p).1 h in
    let positive : (x == 0) ≡ false = ground arith in
    let fits : ltb (size_max / x) y ≡ false = ground arith in rw (positive, fits)

pub fixed_growth_lem : (n : ℕ) → n < 2 ^ 61 → fixed_growth n ≡ ok ((n + 16) * 3 / 2)
unfolding fixed_growth
fixed_growth_lem n h =
    rw (st_add_lem n 16 (omega arith), st_mult_lem (n + 16) 3 (omega arith) (omega arith))

-- The capacity that CAPACITY_GROW leaves.
unfoldable pub next_capacity : ℕ → ℕ → ℕ
next_capacity size cap =
    if ltb cap size then if ltb ((cap + 16) * 3 / 2) size then size else (cap + 16) * 3 / 2 else cap

pub next_capacity_bounds :
    (size cap : ℕ)
    → (size ≤ next_capacity size cap)
      × (cap ≤ next_capacity size cap)
      × (next_capacity size cap ≤ cap + 2 * size + 24)
unfolding next_capacity
next_capacity_bounds size cap = ground arith

pub next_capacity_kept : (size cap : ℕ) → ltb cap size ≡ false → next_capacity size cap ≡ cap
unfolding next_capacity
next_capacity_kept size cap h = rw (h)

-- Elements of up to 64 bytes each.
grown_capacity_lem :
    (elem_size size cap : ℕ)
    → 0 < elem_size
    → elem_size ≤ 64
    → cap < size
    → size < 2 ^ 56
    → grown_capacity elem_size size cap
      ≡ ok (if ltb ((cap + 16) * 3 / 2) size then size else (cap + 16) * 3 / 2)
unfolding grown_capacity
grown_capacity_lem es size old p q less h =
    let next : ℕ = if ltb ((old + 16) * 3 / 2) size then size else (old + 16) * 3 / 2 in
    let bound : next ≤ 2 ^ 57 = ground arith in
    let fits : next * es ≤ size_max = grind arith in
    rw (fixed_growth_lem old (omega arith), st_mult_lem es next p fits)

pub capacity_grow_lem :
    (elem_size size cap : ℕ)
    → 0 < elem_size
    → elem_size ≤ 64
    → size < 2 ^ 56
    → capacity_grow elem_size size cap ≡ ok (next_capacity size cap)
unfolding capacity_grow next_capacity
capacity_grow_lem es size old p q h = elim (Bool-cases (ltb old size)) [
  | inl small ↦ rw (small, grown_capacity_lem es size old p q (omega tests) h)
  | inr big ↦ rw big
]
