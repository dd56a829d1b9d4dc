-- ===== src/Prelude/Memory.antt =====
-- C arrays as lists of cells. A read or a write outside the array is a `fault`.
use Prim.Native.Nat.{ℕ, ◌+◌, ◌-◌}
use mathlib.Core.List.{List, ◌++◌}
use mathlib.Core.Option.{none, some}
use pass_keeper.Prelude.Tests.{ltb, leb, if◌then◌else◌}
use pass_keeper.Prelude.Lists.{length, get_elem?, set, take, drop, replicate}
use pass_keeper.Prelude.Calls.{Outcome, ok, fault}

module _ {ℓ} {A : Type ℓ} where
  -- `a[i]`
  unfoldable pub load : List A → ℕ → Outcome A
  load a i = elim (get_elem? a i) [ none ↦ fault | some v ↦ ok v ]

  -- `a[i] = v`
  unfoldable pub store : List A → ℕ → A → Outcome (List A)
  store a i v = if ltb i (length a) then ok (set a i v) else fault

  -- `memcpy(a + at, src, length src)`
  unfoldable pub copy_to : List A → ℕ → List A → Outcome (List A)
  copy_to a at src =
      if leb (at + length src) (length a)
      then ok (take at a ++ (src ++ drop (at + length src) a))
      else fault

  -- The `n` cells from `at` on, read as the source of a memcpy.
  unfoldable pub copy_from : List A → ℕ → ℕ → Outcome (List A)
  copy_from a at n = if leb (at + n) (length a) then ok (take n (drop at a)) else fault

  -- `realloc`: the first cells are kept, the new ones read as `junk`.
  unfoldable pub resize : A → List A → ℕ → List A
  resize junk a n = take n a ++ replicate (n - length a) junk
