-- ===== src/MergeSort.antt =====
-- src/sort.c: the merge sort behind MSORT, in place over one array with one scratch buffer. The
-- elements have `size` bytes; the model's arrays have a cell for each. `gt x y` is the comparison
-- callback's `compar(x, y) > 0`. malloc does not fail, and leaves `junk` in the buffer.
pub mod Merge
pub mod Loop
pub mod Sorts
mod Tests
use pass_keeper.Prelude.{
  ℕ, zero, suc, ◌+◌, ◌-◌, ◌*◌, ◌/◌, Bool, true, false, List, Outcome, ok, fault, ◌>>=◌,
  if◌then◌else◌, ltb, leb, length, replicate, load, store, copy_to, copy_from, st_mult,
}

-- The variables of the merging loop.
pub record Merging {ℓ} (A : Type ℓ) : Type ℓ where
  pub al : ℕ
  pub nl : ℕ
  pub ar : ℕ
  pub nr : ℕ
  pub buf : ℕ
  pub buf0 : List A

module _ {ℓ} {A : Type ℓ} (gt : A → A → Bool) where
  unfoldable pub merge_loop : List A → (nl nr al ar buf : ℕ) → List A → Outcome (Merging A)
  merge_loop array zero nr al ar buf buf0 =
      ok (record { al = al; nl = zero; ar = ar; nr = nr; buf = buf; buf0 = buf0 })
  merge_loop array (suc nl) zero al ar buf buf0 =
      ok (record { al = al; nl = suc nl; ar = ar; nr = zero; buf = buf; buf0 = buf0 })
  merge_loop array (suc nl) (suc nr) al ar buf buf0 = do
    x ← load array al
    y ← load array ar
    elim (gt x y) [
      | true ↦
          store buf0 buf y >>= λ buf0'. merge_loop array (suc nl) nr al (ar + 1) (buf + 1) buf0'
      | false ↦
          store buf0 buf x >>= λ buf0'. merge_loop array nl (suc nr) (al + 1) ar (buf + 1) buf0'
    ]

  -- What follows the loop: the rest of the left run joins the buffer, and the buffer is copied
  -- back. The rest of the right run is in its place already.
  unfoldable pub copy_back : List A → (base nmemb : ℕ) → Merging A → Outcome (List A × List A)
  copy_back array base nmemb m = do
    left ← copy_from array m.al m.nl
    buf0' ← (if ltb 0 m.nl then copy_to m.buf0 m.buf left else ok m.buf0)
    merged ← copy_from buf0' 0 (nmemb - m.nr)
    array' ← copy_to array base merged
    ok (array', buf0')

  -- What follows the two recursive calls.
  unfoldable pub merge_halves : List A → (base nmemb : ℕ) → List A → Outcome (List A × List A)
  merge_halves array base nmemb buf0 = do
    let nl = nmemb / 2
    m ← merge_loop array nl (nmemb - nl) base (base + nl) 0 buf0
    copy_back array base nmemb m

  -- `nmemb` cells from `base` on. The fuel bounds the depth of the calls.
  unfoldable pub merge_sort_next :
      (fuel : ℕ) → List A → (base nmemb : ℕ) → List A → Outcome (List A × List A)
  merge_sort_next zero array base nmemb buf0 = if leb nmemb 1 then ok (array, buf0) else fault
  merge_sort_next (suc fuel) array base nmemb buf0 =
      let halves : Outcome (List A × List A) = (do
        let nl = nmemb / 2
        (array1, buf1) ← merge_sort_next fuel array base nl buf0
        (array2, buf2) ← merge_sort_next fuel array1 (base + nl) (nmemb - nl) buf1
        merge_halves array2 base nmemb buf2) in
      if leb nmemb 1 then ok (array, buf0) else halves

  unfoldable pub merge_sort : (junk : A) (size : ℕ) → List A → Outcome (List A)
  merge_sort junk size array = do
    bytes ← st_mult (length array) size
    (array', buf) ←
        merge_sort_next (length array) array 0 (length array) (replicate (length array) junk)
    ok array'
