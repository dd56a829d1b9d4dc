-- ===== src/Levenshtein.antt =====
-- src/levenshtein.c: the weighted edit distance with transpositions, on three rotating rows.
-- Costs are C ints: a value that an int does not hold counts as a fault. malloc does not fail, and
-- leaves `junk` in the rows.
pub mod Script
pub mod Cells
pub mod Filling
mod Tests
use pass_keeper.Prelude.{
  ℕ, zero, suc, ◌+◌, ◌-◌, ◌*◌, ◌^◌, Bool, true, false, ◌&&◌, ◌||◌, List, Outcome, ok, fault, ◌>>=◌,
  if◌then◌else◌, ltb, ◌==◌, length, replicate, load, store, st_mult, wrap, for_range,
}

unfoldable pub to_int : ℕ → Outcome ℕ
to_int x = if ltb x (2 ^ 31) then ok x else fault

-- `if (row[k] > cost) row[k] = cost`
unfoldable pub relax : List ℕ → ℕ → ℕ → Outcome (List ℕ)
relax row k cost = do c ← load row k; (if ltb cost c then store row k cost else ok row)

pub record RowBuffers : Type 0 where
  pub v9 : List ℕ
  pub v0 : List ℕ
  pub v1 : List ℕ

module _ (s t : List ℕ) (iw dw sw tw : ℕ) where
  unfoldable pub substitution : ℕ → List ℕ → List ℕ → ℕ → Outcome (List ℕ)
  substitution i v0 v1 ii = do
    x ← load s i
    y ← load t ii
    before ← load v0 ii
    (if x == y
        then store v1 (ii + 1) before
        else (do cost ← to_int (before + sw); store v1 (ii + 1) cost))

  -- The test of the transposition step.
  unfoldable pub is_swapped : ℕ → ℕ → Outcome Bool
  is_swapped i ii = if i == 0 || ii == 0 then ok false else (do
    a ← load s (i - 1)
    b ← load t ii
    c ← load s i
    d ← load t (ii - 1)
    ok (a == b && c == d))

  unfoldable pub transposition : ℕ → List ℕ → List ℕ → ℕ → Outcome (List ℕ)
  transposition i v9 v1 ii = do
    swapped ← is_swapped i ii
    (if swapped
        then (do before ← load v9 (ii - 1); cost ← to_int (before + tw); relax v1 (ii + 1) cost)
        else ok v1)

  unfoldable pub deletion : List ℕ → List ℕ → ℕ → Outcome (List ℕ)
  deletion v0 v1 ii = do
    above ← load v0 (ii + 1)
    cost ← to_int (above + dw)
    relax v1 (ii + 1) cost

  unfoldable pub insertion : List ℕ → ℕ → Outcome (List ℕ)
  insertion v1 ii = do left ← load v1 ii; cost ← to_int (left + iw); relax v1 (ii + 1) cost

  -- The body of the inner loop.
  unfoldable pub fill_cell : ℕ → List ℕ → List ℕ → ℕ → List ℕ → Outcome (List ℕ)
  fill_cell i v9 v0 ii v1 = do
    a ← substitution i v0 v1 ii
    b ← transposition i v9 a ii
    c ← deletion v0 b ii
    insertion c ii

  -- The body of the outer loop: one row, and the rotation of the rows.
  unfoldable pub next_rows : ℕ → RowBuffers → Outcome RowBuffers
  next_rows i r = do
    first ← to_int (wrap ((i + 1) * dw))
    started ← store r.v1 0 first
    filled ← for_range (length t) 0 (fill_cell i r.v9 r.v0) started
    ok (record { v9 = r.v0; v0 = filled; v1 = r.v9 })

  unfoldable pub first_row : List ℕ → Outcome (List ℕ)
  first_row v0 =
      for_range (length t + 1) 0 (λ i row. do cost ← to_int (wrap (i * iw)); store row i cost) v0

  unfoldable pub levenshtein_w : ℕ → Outcome ℕ
  levenshtein_w junk = do
    let fresh : List ℕ = replicate (length t + 1) junk
    bytes ← st_mult 4 (length t + 1)
    v0 ← first_row fresh
    r ← for_range (length s) 0 next_rows (record { v9 = fresh; v0 = v0; v1 = fresh })
    load r.v0 (length t)
