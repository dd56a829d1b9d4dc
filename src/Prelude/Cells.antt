-- ===== src/Prelude/Cells.antt =====
-- Reads after writes.
use Prim.Native.Nat.{ℕ, zero, suc, ◌+◌, ◌<◌}
use mathlib.Core.Path.{◌≡◌, refl, ap}
use mathlib.Core.Logic.{◌≢◌}
use mathlib.Core.List.{List, [], ◌∷◌, ◌++◌}
use native.Mathlib.Omega.{arith}
use pass_keeper.Prelude.Tests.{ltb, leb, lt→ltb}
use pass_keeper.Prelude.Lists.{
  length, get_elem?, get_or, take, drop, set, get_elem?-set_self, get_elem?-set_ne,
}
use pass_keeper.Prelude.Memory.{load, store, copy_from, copy_to}
use pass_keeper.Prelude.Calls.{ok, fault, Ensures, Ensures-if}
use mathlib.Core.Option.{none, some}

module _ {ℓ} {A : Type ℓ} where
  pub store_lem : (a : List A) (i : ℕ) (v : A) → i < length a → store a i v ≡ ok (set a i v)
  unfolding store
  store_lem a i v h = rw (lt→ltb i (length a) h)

  pub load-set_self : (a : List A) (i : ℕ) (v : A) → i < length a → load (set a i v) i ≡ ok v
  unfolding load
  load-set_self a i v h = rw (load, get_elem?-set_self a i v h)

  pub load-set_ne : (a : List A) (i j : ℕ) (v : A) → i ≢ j → load (set a i v) j ≡ load a j
  unfolding load
  load-set_ne a i j v h = rw (load, get_elem?-set_ne a v h)

  pub set-set : (a : List A) (i : ℕ) (v w : A) → set (set a i v) i w ≡ set a i w
  set-set [] i v w = refl
  set-set (x ∷ a) zero v w = refl
  set-set (x ∷ a) (suc i) v w = ap (◌∷◌ x) (set-set a i v w)

  pub load-get_or : (a : List A) (i : ℕ) (d : A) → i < length a → load a i ≡ ok (get_or a i d)
  unfolding load
  load-get_or [] i d h = elim h [ ]
  load-get_or (x ∷ a) zero d h = refl
  load-get_or (x ∷ a) (suc i) d h = load-get_or a i d (omega arith)

  -- A read or a write that is not out of bounds.
  pub Ensures-load : (a : List A) (i : ℕ) → Ensures (λ v. get_elem? a i ≡ some v) (load a i)
  unfolding load
  Ensures-load a i =
      elim (get_elem? a i)
        as (λ x. Ensures (λ v. x ≡ some v) (elim x [ none ↦ fault | some v ↦ ok v ])) [
          | none ↦ tt
          | some v ↦ refl
        ]

  pub Ensures-store : (a : List A) (i : ℕ) (v : A) → Ensures (λ a'. a' ≡ set a i v) (store a i v)
  unfolding store
  Ensures-store a i v =
      Ensures-if (λ a'. a' ≡ set a i v) (ltb i (length a)) _ _ (λ h. refl) (λ h. tt)

  pub Ensures-copy_from :
      (a : List A) (i n : ℕ) → Ensures (λ src. src ≡ take n (drop i a)) (copy_from a i n)
  unfolding copy_from
  Ensures-copy_from a i n =
      Ensures-if (λ src. src ≡ take n (drop i a)) (leb (i + n) (length a)) _ _ (λ h. refl) (λ h. tt)

  pub Ensures-copy_to :
      (a : List A) (i : ℕ) (src : List A)
      → Ensures (λ a'. a' ≡ take i a ++ (src ++ drop (i + length src) a)) (copy_to a i src)
  unfolding copy_to
  Ensures-copy_to a i src =
      Ensures-if (λ a'. a' ≡ take i a ++ (src ++ drop (i + length src) a))
        (leb (i + length src) (length a)) _ _ (λ h. refl) (λ h. tt)
