-- ===== src/Levenshtein/Script.antt =====
-- The distance as a recursion on prefixes, and as the least price of an edit script.
use pass_keeper.Prelude.{
  ℕ, zero, suc, ◌+◌, ◌*◌, ◌≤◌, min, ◌≡◌, refl, List, if◌then◌else◌, ◌==◌, ◌&&◌, Bool, arith, get_or,
  Bool-cases, inl, inr,
}
use native.Mathlib.Decide.{dec_le}

module _ (s t : List ℕ) (iw dw sw tw : ℕ) where
  -- The last characters of two prefixes are swapped.
  unfoldable pub swapped : ℕ → ℕ → Bool
  swapped i j = (get_or s i 0 == get_or t (suc j) 0) && (get_or s (suc i) 0 == get_or t j 0)

  unfoldable pub change : ℕ → ℕ → ℕ
  change i j = if get_or s i 0 == get_or t j 0 then 0 else sw

  -- The distance between the first `i` bytes of `s` and the first `j` bytes of `t`.
  unfoldable pub dist : ℕ → ℕ → ℕ
  dist zero j = j * iw
  dist (suc i) zero = suc i * dw
  dist (suc zero) (suc j) =
      min (min (dist zero j + change zero j) (dist zero (suc j) + dw)) (dist (suc zero) j + iw)
  dist (suc (suc i)) (suc zero) =
      min (min (dist (suc i) zero + change (suc i) zero) (dist (suc i) (suc zero) + dw))
        (dist (suc (suc i)) zero + iw)
  dist (suc (suc i)) (suc (suc j)) =
      let base = dist (suc i) (suc j) + change (suc i) (suc j) in
      let swap = dist i j + tw in
      min (min (if swapped i j then min base swap else base) (dist (suc i) (suc (suc j)) + dw))
        (dist (suc (suc i)) (suc j) + iw)

  unfoldable pub after_swap : ℕ → ℕ → ℕ → ℕ
  after_swap zero j c = c
  after_swap (suc i) zero c = c
  after_swap (suc i) (suc j) c = if swapped i j then min c (dist i j + tw) else c

  pub dist-suc :
      (i j : ℕ)
      → dist (suc i) (suc j)
        ≡ min
            (min (after_swap i j (dist i j + change i j)) (dist i (suc j) + dw))
            (dist (suc i) j + iw)
  unfolding dist after_swap
  dist-suc zero j = refl
  dist-suc (suc i) zero = refl
  dist-suc (suc i) (suc j) = refl

  pub dist-zero_right : (i : ℕ) → dist i 0 ≡ i * dw
  unfolding dist
  dist-zero_right zero = omega arith
  dist-zero_right (suc i) = refl

  dist-zero_left : (j : ℕ) → dist 0 j ≡ j * iw
  unfolding dist
  dist-zero_left j = refl

  pub dist-le : (i j : ℕ) → dist i j ≤ i * dw + j * iw
  unfolding dist
  dist-le zero j = omega arith
  dist-le (suc i) zero = omega arith
  dist-le (suc i) (suc j) = omega (arith, dist-suc i j, dist-le (suc i) j)

  -- An edit script that turns the first `i` bytes of `s` into the first `j` bytes of `t`.
  pub data Script : ℕ → ℕ → Type 0 where
    done : Script 0 0
    delete : {i j : ℕ} → Script i j → Script (suc i) j
    insert : {i j : ℕ} → Script i j → Script i (suc j)
    keep : {i j : ℕ} → get_or s i 0 ≡ get_or t j 0 → Script i j → Script (suc i) (suc j)
    replace : {i j : ℕ} → Script i j → Script (suc i) (suc j)
    swap :
        {i j : ℕ}
        → get_or s i 0 ≡ get_or t (suc j) 0
        → get_or s (suc i) 0 ≡ get_or t j 0
        → Script i j
        → Script (suc (suc i)) (suc (suc j))

  unfoldable pub price : {i j : ℕ} → Script i j → ℕ
  price done = 0
  price (delete p) = price p + dw
  price (insert p) = price p + iw
  price (keep e p) = price p
  price (replace p) = price p + sw
  price (swap e f p) = price p + tw

  change-le : (i j : ℕ) → change i j ≤ sw
  unfolding change
  change-le i j = ground arith

  pub after_swap-le : (i j c : ℕ) → after_swap i j c ≤ c
  unfolding after_swap
  after_swap-le zero j c = omega arith
  after_swap-le (suc i) zero c = omega arith
  after_swap-le (suc i) (suc j) c = ground arith

  change_same : (i j : ℕ) → get_or s i 0 ≡ get_or t j 0 → change i j ≡ 0
  unfolding change
  change_same i j e = ground arith

  after_swap-swapped :
      (i j c : ℕ)
      → get_or s i 0 ≡ get_or t (suc j) 0
      → get_or s (suc i) 0 ≡ get_or t j 0
      → after_swap (suc i) (suc j) c ≤ dist i j + tw
  unfolding after_swap swapped
  after_swap-swapped i j c e f = ground arith

  -- No script is cheaper than the distance.
  pub dist-le-price : {i j : ℕ} (p : Script i j) → dist i j ≤ price p
  unfolding price
  dist-le-price done = omega (arith, dist-zero_left 0)
  dist-le-price (delete {i} {j = zero} p) =
      omega (arith, dist-le-price p, dist-zero_right i, dist-zero_right (suc i))
  dist-le-price (delete {i} {j = suc j} p) = omega (arith, dist-le-price p, dist-suc i j)
  dist-le-price (insert {i = zero} {j} p) =
      omega (arith, dist-le-price p, dist-zero_left j, dist-zero_left (suc j))
  dist-le-price (insert {i = suc i} {j} p) = omega (arith, dist-le-price p, dist-suc i j)
  dist-le-price (keep {i} {j} e p) = omega (
    arith,
    dist-le-price p,
    dist-suc i j,
    change_same i j e,
    after_swap-le i j (dist i j + change i j),
  )
  dist-le-price (replace {i} {j} p) = omega (
    arith,
    dist-le-price p,
    dist-suc i j,
    change-le i j,
    after_swap-le i j (dist i j + change i j),
  )
  dist-le-price (swap {i} {j} e f p) =
      omega (arith, dist-le-price p, dist-suc (suc i) (suc j), after_swap-swapped i j _ e f)

  abbrev HasPrice : ℕ → ℕ → ℕ → Type 0
  HasPrice i j c = (p : Script i j) × (price p ≡ c)

  HasPrice-min : {i j c d : ℕ} → HasPrice i j c → HasPrice i j d → HasPrice i j (min c d)
  HasPrice-min {c} {d} p q = elim (dec_le c d) [
    | yes h ↦ (p.0, omega (arith, p.1))
    | no h ↦ (q.0, omega (arith, q.1))
  ]

  HasPrice-change :
      (i j : ℕ) → HasPrice i j (dist i j) → HasPrice (suc i) (suc j) (dist i j + change i j)
  unfolding price change
  HasPrice-change i j (p, e) = elim (Bool-cases (get_or s i 0 == get_or t j 0)) [
    | inl same ↦ (keep (ground arith) p, rw same (omega arith))
    | inr differ ↦ (replace p, rw differ (omega arith))
  ]

  HasPrice-swap :
      (i j c : ℕ)
      → HasPrice (suc (suc i)) (suc (suc j)) c
      → HasPrice i j (dist i j)
      → HasPrice (suc (suc i)) (suc (suc j)) (after_swap (suc i) (suc j) c)
  unfolding price after_swap swapped
  HasPrice-swap i j c q (p, e) = elim (Bool-cases (swapped i j)) [
    | inl yes_swap ↦
        rw yes_swap (HasPrice-min q (swap (ground arith) (ground arith) p, omega arith))
    | inr no_swap ↦ rw no_swap q
  ]

  HasPrice-suc :
      (i j : ℕ)
      → HasPrice (suc i) (suc j) (after_swap i j (dist i j + change i j))
      → HasPrice i (suc j) (dist i (suc j))
      → HasPrice (suc i) j (dist (suc i) j)
      → HasPrice (suc i) (suc j) (dist (suc i) (suc j))
  unfolding price
  HasPrice-suc i j diagonal (above, e) (left, f) =
      rw (dist-suc i j)
        (HasPrice-min (HasPrice-min diagonal (delete above, rw e)) (insert left, rw f))

  -- Some script costs exactly the distance.
  pub dist_attained : (i j : ℕ) → HasPrice i j (dist i j)
  unfolding price dist after_swap
  dist_attained zero zero = (done, omega arith)
  dist_attained zero (suc j) = let (p, e) = dist_attained zero j in (insert p, omega arith)
  dist_attained (suc i) zero =
      let (p, e) = dist_attained i zero in (delete p, omega (arith, dist-zero_right i))
  dist_attained (suc zero) (suc j) =
      HasPrice-suc zero j (HasPrice-change zero j (dist_attained zero j))
        (dist_attained zero (suc j)) (dist_attained (suc zero) j)
  dist_attained (suc (suc i)) (suc zero) =
      HasPrice-suc (suc i) zero (HasPrice-change (suc i) zero (dist_attained (suc i) zero))
        (dist_attained (suc i) (suc zero)) (dist_attained (suc (suc i)) zero)
  dist_attained (suc (suc i)) (suc (suc j)) =
      HasPrice-suc (suc i) (suc j)
        (HasPrice-swap i j _ (HasPrice-change (suc i) (suc j) (dist_attained (suc i) (suc j)))
          (dist_attained i j))
        (dist_attained (suc i) (suc (suc j))) (dist_attained (suc (suc i)) (suc j))
