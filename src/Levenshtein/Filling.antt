-- ===== src/Levenshtein/Filling.antt =====
-- The loops: the rows hold the table, and the result is the least price of an edit script.
use native.Mathlib.Numerals.{add-one}
use pass_keeper.Prelude.{
  ℕ, suc, ◌+◌, ◌*◌, ◌^◌, ◌≤◌, ◌<◌, ◌≡◌, refl, ap, ◌∙◌, List, ok, Returns, Returns-bind, length, set,
  arith, replicate, length-replicate, length-set, store_lem, load-set_self, load-set_ne, wrap,
  for_range-Returns, st_mult_lem, subst,
}
use pass_keeper.Levenshtein.{RowBuffers, next_rows, first_row, levenshtein_w}
use pass_keeper.Levenshtein.Script.{
  dist, Script, price, dist-le-price, dist_attained, dist-zero_right,
}
use pass_keeper.Levenshtein.Cells.{IsRow, FitsInt, cost_fits, to_int_lem, fill_cell_lem}

module _ (s t : List ℕ) (iw dw sw tw : ℕ) where
  -- A row gains a cell.
  IsRow-set :
      (i k : ℕ) (row : List ℕ)
      → IsRow s t iw dw sw tw i k row
      → k < length t + 1
      → IsRow s t iw dw sw tw i (suc k) (set row k (dist s t iw dw sw tw i k))
  IsRow-set i k row r h = record {
    size = length-set row k (dist s t iw dw sw tw i k) ∙ r.size;
    cells = λ j p. ground (
      arith,
      r.cells j,
      load-set_self row k (dist s t iw dw sw tw i k),
      load-set_ne row k j (dist s t iw dw sw tw i k),
      r.size,
    );
  }

  IsRow-zero : (i : ℕ) (row : List ℕ) → length row ≡ length t + 1 → IsRow s t iw dw sw tw i 0 row
  IsRow-zero i row size = record { size = size; cells = λ j p. absurd (omega arith) }

  module _ (fits : FitsInt s t iw dw sw tw) where
    first_row_lem :
        (row : List ℕ)
        → length row ≡ length t + 1
        → Returns (IsRow s t iw dw sw tw 0 (length t + 1)) (first_row s t iw dw sw tw row)
    unfolding first_row dist
    first_row_lem row size =
        for_range-Returns (IsRow s t iw dw sw tw 0) (length t + 1) _ (length t + 1) 0 row
          (omega arith)
          (λ k u lo hi r.
            let small : k * iw + 0 < 2 ^ 31 =
              cost_fits s t iw dw sw tw 0 k 0 fits (omega arith) (omega arith) (omega arith) in
            let exact : wrap (k * iw) ≡ k * iw = omega arith in
            (
              set u k (k * iw),
              rw (
                exact,
                to_int_lem (k * iw) (omega arith),
                store_lem u k (k * iw) (omega (arith, r.size)),
              ),
              IsRow-set 0 k u r hi,
            ))
          (IsRow-zero 0 row size)

    -- What the rows hold before round `i`.
    record IsReady (i : ℕ) (r : RowBuffers) : Type 0 where
      done0 : IsRow s t iw dw sw tw i (length t + 1) r.v0
      done9 : (i' : ℕ) → i ≡ suc i' → IsRow s t iw dw sw tw i' (length t + 1) r.v9
      size9 : length r.v9 ≡ length t + 1
      size1 : length r.v1 ≡ length t + 1

    next_rows_lem :
        (i : ℕ) (r : RowBuffers)
        → i < length s
        → IsReady i r
        → Returns (IsReady (suc i)) (next_rows s t iw dw sw tw i r)
    unfolding next_rows
    next_rows_lem i r in_s ready =
        let zeroth : (i + 1) * dw ≡ dist s t iw dw sw tw (suc i) 0 =
          ap (λ (k : ℕ). k * dw) (add-one i) ∙ dist-zero_right' (suc i) in
        let small : dist s t iw dw sw tw (suc i) 0 + 0 < 2 ^ 31 =
          cost_fits s t iw dw sw tw (suc i) 0 0 fits in_s (omega arith) (omega arith) in
        let exact : wrap ((i + 1) * dw) ≡ (i + 1) * dw = omega arith in
        rw
          (
            exact,
            to_int_lem ((i + 1) * dw) (omega arith),
            zeroth,
            store_lem r.v1 0 (dist s t iw dw sw tw (suc i) 0) (omega (arith, ready.size1)),
          )
          (Returns-bind _ _
            (for_range-Returns (λ j. IsRow s t iw dw sw tw (suc i) (suc j)) (length t) _ (length t)
              0 _ (omega arith)
              (λ j u lo hi row. (
                set u (j + 1) (dist s t iw dw sw tw (suc i) (suc j)),
                fill_cell_lem s t iw dw sw tw fits i j in_s hi r.v9 r.v0 u ready.done9 ready.done0
                    row,
                rw add-one (IsRow-set (suc i) (suc j) u row (omega arith)),
              ))
              (IsRow-set (suc i) 0 r.v1 (IsRow-zero (suc i) r.v1 ready.size1) (omega arith)))
            (λ filled row. (
              record { v9 = r.v0; v0 = filled; v1 = r.v9 },
              refl,
              record {
                done0 = subst (λ k. IsRow s t iw dw sw tw (suc i) k filled) (omega arith) row;
                done9 = λ i' e.
                    subst (λ k. IsRow s t iw dw sw tw k (length t + 1) r.v0) (omega arith)
                      ready.done0;
                size9 = ready.done0.size;
                size1 = ready.size9;
              },
            )))
      where
        dist-zero_right' : (k : ℕ) → k * dw ≡ dist s t iw dw sw tw k 0
        dist-zero_right' k = omega (arith, dist-zero_right s t iw dw sw tw k)

    levenshtein_w-dist :
        (junk : ℕ)
        → length t < 2 ^ 32
        → levenshtein_w s t iw dw sw tw junk ≡ ok (dist s t iw dw sw tw (length s) (length t))
    unfolding levenshtein_w
    levenshtein_w-dist junk short =
        let size : length (replicate (length t + 1) junk) ≡ length t + 1 =
          length-replicate (length t + 1) junk in
        let filled : Returns (λ d. d ≡ dist s t iw dw sw tw (length s) (length t))
            (levenshtein_w s t iw dw sw tw junk) =
          rw (st_mult_lem 4 (length t + 1) (omega arith) (omega arith)) (
            Returns-bind _ _ (first_row_lem (replicate (length t + 1) junk) size) (λ v0 row.
              Returns-bind _ _
                (for_range-Returns IsReady (length s) _ (length s) 0 _ (omega arith)
                  (λ i r lo hi ready. next_rows_lem i r hi ready)
                  (record {
                    done0 = row;
                    done9 = λ i' e. absurd (omega arith);
                    size9 = size;
                    size1 = size;
                  }))
                (λ r ready. (
                  dist s t iw dw sw tw (length s) (length t),
                  ready.done0.cells (length t) (omega arith),
                  refl,
                )))) in
        filled.1 ∙ ap ok filled.2

    -- levenshtein_w answers with the least price of an edit script (delete, insert, keep,
    -- replace, swap) between two strings whose costs fit an int, with no access outside its rows
    -- and no int overflow.
    pub levenshtein_w_least :
        (junk : ℕ)
        → length t < 2 ^ 32
        → Returns
            (λ d.
              ((p : Script s t iw dw sw tw (length s) (length t)) → d ≤ price s t iw dw sw tw p)
              × ((p : Script s t iw dw sw tw (length s) (length t)) × (price s t iw dw sw tw p
                    ≡ d)))
            (levenshtein_w s t iw dw sw tw junk)
    levenshtein_w_least junk short = (
      dist s t iw dw sw tw (length s) (length t),
      levenshtein_w-dist junk short,
      (λ p. dist-le-price s t iw dw sw tw p, dist_attained s t iw dw sw tw (length s) (length t)),
    )
