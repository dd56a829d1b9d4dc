-- ===== src/Prelude/Loop.antt =====
-- Counting loops over calls that may fail, with their rule.
use Prim.Native.Nat.{ℕ, zero, suc, ◌+◌, ◌≤◌, ◌<◌}
use mathlib.Core.Path.{◌≡◌, refl, subst}
use native.Mathlib.Omega.{arith}
use pass_keeper.Prelude.Calls.{Outcome, ok, ◌>>=◌, Returns, Returns-bind}

-- `for (k = i; k < i + rounds; k++)`
unfoldable pub for_range {ℓ} : {S : Type ℓ} (rounds i : ℕ) → (ℕ → S → Outcome S) → S → Outcome S
for_range zero i body s = ok s
for_range (suc n) i body s = body i s >>= for_range n (suc i) body

-- An invariant that every round keeps holds at the end, and every round returns.
pub for_range-Returns {ℓ κ} :
    {S : Type ℓ} (P : ℕ → S → Type κ) (stop : ℕ) (body : ℕ → S → Outcome S) (n i : ℕ) (s : S)
    → i + n ≡ stop
    → ((k : ℕ) (u : S) → i ≤ k → k < stop → P k u → Returns (P (suc k)) (body k u))
    → P i s
    → Returns (P stop) (for_range n i body s)
unfolding for_range
for_range-Returns P stop body zero i s e keep p = (s, refl, subst (λ k. P k s) (omega arith) p)
for_range-Returns P stop body (suc n) i s e keep p =
    Returns-bind (body i s) _ (keep i s (omega arith) (omega arith) p) λ u q.
      for_range-Returns P stop body n (suc i) u (omega arith) (λ k v lo. keep k v (omega arith)) q
