-- ===== src/MergeSort/Sorts.antt =====
-- The whole sort: sorted, a permutation, stable, and inside its arrays.
use mathlib.Core.List.Perm
use pass_keeper.Prelude.{
  ℕ, zero, suc, ◌+◌, ◌-◌, ◌*◌, ◌/◌, ◌≤◌, ◌<◌, ◌≡◌, refl, ap, sym, ◌∙◌, Bool, true, false, List, [],
  ◌∷◌, ◌++◌, append-nil, append_assoc, Bool-cases, inl, inr, if◌then◌else◌, ltb, leb, arith, length,
  ok, Returns, Returns-bind, Returns-map, drop, take, copy_to, copy_from, copy_to-append,
  copy_from-append, drop-append, length-append, length-drop, st_mult_lem, size_max, replicate,
  length-replicate, take-append-drop, length-take, subst,
}
use pass_keeper.MergeSort.{Merging, copy_back, merge_halves, merge_sort_next, merge_sort}
use pass_keeper.MergeSort.Merge.{merge, length-merge, IsSorting, IsOrder, merge-IsSorting}
use pass_keeper.MergeSort.Loop.{At, IsMerged, merge_loop_lem}

module _ {ℓ} {A : Type ℓ} where
  copy_left :
      (out left unused : List A) (n pos : ℕ)
      → n ≡ length left
      → pos ≡ length out
      → length left ≤ length unused
      → (rest : List A) × ((if ltb 0 n
            then copy_to (out ++ unused) pos left
            else ok (out ++ unused))
          ≡ ok ((out ++ left) ++ rest))
        × (length rest + length left ≡ length unused)
  copy_left out [] unused n pos e f h =
      let nothing : ltb 0 n ≡ false = ground arith in
      (unused, rw (nothing, append-nil), omega arith)
  copy_left out (x ∷ left) unused n pos e f h =
      let some_left : ltb 0 n ≡ true = ground arith in
      (
        drop (length (x ∷ left)) unused,
        rw (
          some_left,
          copy_to-append out unused (x ∷ left) pos f h,
          append_assoc out (x ∷ left) (drop (length (x ∷ left)) unused),
        ),
        omega (arith, length-drop (length (x ∷ left)) unused),
      )

module _ {ℓ} {A : Type ℓ} (gt : A → A → Bool) where
  -- Sorted in place: the cells outside are left alone, and the buffer keeps its size.
  abbrev InPlace : List A → List A → List A → ℕ → List A × List A → Type ℓ
  InPlace before zs after size r = (r.0 ≡ before ++ (zs ++ after)) × (length r.1 ≡ size)

  copy_back_lem :
      (array before xs ys after : List A) (base nmemb : ℕ) (buf0 : List A) (m : Merging A)
      → array ≡ before ++ ((xs ++ ys) ++ after)
      → length before ≡ base
      → length xs + length ys ≡ nmemb
      → nmemb ≤ length buf0
      → IsMerged gt array xs ys [] buf0 m
      → Returns
          (InPlace before (merge gt xs ys) after (length buf0))
          (copy_back gt array base nmemb m)
  unfolding copy_back
  copy_back_lem array before xs ys after base nmemb buf0 m e start all room r =
      let total : length r.out + (length r.left + length r.right) ≡ nmemb = omega (
        arith,
        length-merge gt xs ys,
        ap length r.merged,
        length-append r.out (r.left ++ r.right),
        length-append r.left r.right,
      ) in
      let (unused, ran, same_size) =
        copy_left r.out r.left r.unused m.nl m.buf r.count_left r.position
          (omega (arith, r.size)) in
      let merged = r.out ++ r.left in
      let merged_size : length merged ≡ length r.out + length r.left = length-append r.out r.left in
      let untouched : array ≡ before ++ ((xs ++ r.taken) ++ (r.right ++ after)) =
        e ∙ ap (λ v. before ++ ((xs ++ v) ++ after)) r.split ∙ simp append_assoc in
      let skip : length merged ≡ length (xs ++ r.taken) =
        omega (arith, length-append xs r.taken, ap length r.split, length-append r.taken r.right) in
      let tail : drop (length merged) ((xs ++ r.taken) ++ (r.right ++ after)) ≡ r.right ++ after =
        ap (λ k. drop k ((xs ++ r.taken) ++ (r.right ++ after))) skip
        ∙ drop-append (xs ++ r.taken) (r.right ++ after) in
      let at_left = r.at_left in
      let left_read : copy_from array m.al m.nl ≡ ok r.left =
        ap (λ b. copy_from b m.al m.nl) at_left.whole
        ∙ copy_from-append at_left.before r.left at_left.after m.al m.nl (sym at_left.start)
            r.count_left in
      (
        (before ++ (merged ++ (r.right ++ after)), merged ++ unused),
        rw (
          left_read,
          r.buffer,
          ran,
          copy_from-append [] merged unused 0 (nmemb - m.nr) refl (omega (arith, r.count_right)),
          untouched,
          copy_to-append before ((xs ++ r.taken) ++ (r.right ++ after)) merged base (sym start)
              (omega (arith, length-append (xs ++ r.taken) (r.right ++ after))),
          tail,
        ),
        (
          ap (λ v. before ++ v)
              (sym (append_assoc merged r.right after)
                ∙ ap (λ v. v ++ after) (append_assoc r.out r.left r.right ∙ sym r.merged)),
          omega (arith, length-append merged unused, r.size),
        ),
      )

  merge_halves_lem :
      (array before xs ys after : List A) (base nmemb : ℕ) (buf0 : List A)
      → array ≡ before ++ ((xs ++ ys) ++ after)
      → length before ≡ base
      → length xs ≡ nmemb / 2
      → length xs + length ys ≡ nmemb
      → nmemb ≤ length buf0
      → Returns
          (InPlace before (merge gt xs ys) after (length buf0))
          (merge_halves gt array base nmemb buf0)
  unfolding merge_halves
  merge_halves_lem array before xs ys after base nmemb buf0 e start half all room =
      let at_xs : At array base xs = record {
        before = before;
        after = ys ++ after;
        whole = e ∙ ap (λ v. before ++ v) (append_assoc xs ys after);
        start = start;
      } in
      let at_ys : At array (base + length xs) ys = record {
        before = before ++ xs;
        after = after;
        whole = at_xs.whole ∙ sym (append_assoc before xs (ys ++ after));
        start = omega (arith, length-append before xs);
      } in
      let upper : nmemb - length xs ≡ length ys = omega arith in
      rw (← half, upper)
        (Returns-bind _ _
          (merge_loop_lem gt array xs ys base (base + length xs) 0 [] buf0 buf0 at_xs at_ys refl
            refl (omega arith))
          (λ m r. copy_back_lem array before xs ys after base nmemb buf0 m e start all room r))

  module _ (o : IsOrder gt) where
    abbrev Sorts : List A → List A → List A → ℕ → List A × List A → Type ℓ
    Sorts before xs after size r =
        (zs : List A) × IsSorting gt xs zs × InPlace before zs after size r

    short-IsSorting : (xs : List A) → length xs ≤ 1 → IsSorting gt xs xs
    short-IsSorting [] h = record {
      size = refl;
      sorted = tt;
      perm = Perm.refl [];
      stable = λ k. refl;
    }
    short-IsSorting (x ∷ []) h = record {
      size = refl;
      sorted = (tt, tt);
      perm = Perm.refl (x ∷ []);
      stable = λ k. refl;
    }
    short-IsSorting (x ∷ y ∷ xs) h = absurd (omega arith)

    merge_sort_next_lem :
        (fuel : ℕ) (array before xs after : List A) (base nmemb : ℕ) (buf0 : List A)
        → array ≡ before ++ (xs ++ after)
        → length before ≡ base
        → length xs ≡ nmemb
        → nmemb ≤ fuel
        → nmemb ≤ length buf0
        → Returns
            (Sorts before xs after (length buf0))
            (merge_sort_next gt fuel array base nmemb buf0)
    unfolding merge_sort_next
    merge_sort_next_lem zero array before xs after base nmemb buf0 e start count fuel room =
        let short : leb nmemb 1 ≡ true = ground arith in
        rw short ((array, buf0), refl, (xs, short-IsSorting xs (omega arith), (e, refl)))
    merge_sort_next_lem (suc fuel) array before xs after base nmemb buf0 e start count enough room =
        elim (Bool-cases (leb nmemb 1)) [
          | inl short ↦
              let few : nmemb ≤ 1 = ground arith in
              rw short ((array, buf0), refl, (xs, short-IsSorting xs (omega arith), (e, refl)))
          | inr long ↦
              let k = nmemb / 2 in
              let some_left : 1 < nmemb = ground arith in
              let left_size : length (take k xs) ≡ k = omega (arith, length-take k xs) in
              let right_size : length (drop k xs) ≡ nmemb - k = omega (arith, length-drop k xs) in
              let whole : take k xs ++ drop k xs ≡ xs = take-append-drop k xs in
              let cut : array ≡ before ++ (take k xs ++ (drop k xs ++ after)) =
                e
                ∙ ap (λ v. before ++ (v ++ after)) (sym whole)
                ∙ ap (λ v. before ++ v) (append_assoc (take k xs) (drop k xs) after) in
              rw long (
                Returns-bind _ _
                  (merge_sort_next_lem fuel array before (take k xs) (drop k xs ++ after) base k
                    buf0 cut start left_size (omega arith) (omega arith))
                  (λ r1 (zl, left, q1).
                    Returns-bind _ _
                      (merge_sort_next_lem fuel r1.0 (before ++ zl) (drop k xs) after (base + k)
                        (nmemb - k) r1.1 (q1.0 ∙ sym (append_assoc before zl (drop k xs ++ after)))
                        (omega (arith, length-append before zl, left.size)) right_size (omega arith)
                        (omega (arith, q1.1)))
                      (λ r2 (zr, right, q2).
                        Returns-map
                          (merge_halves_lem r2.0 before zl zr after base nmemb r2.1
                            (q2.0
                              ∙ append_assoc before zl (zr ++ after)
                              ∙ ap (λ v. before ++ v) (sym (append_assoc zl zr after)))
                            start (omega (arith, left.size)) (omega (arith, left.size, right.size))
                            (omega (arith, q1.1, q2.1)))
                          (λ r (e3, size3). (
                            merge gt zl zr,
                            subst (λ v. IsSorting gt v (merge gt zl zr)) whole
                                (merge-IsSorting gt o (take k xs) (drop k xs) zl zr left right),
                            (e3, size3 ∙ q2.1 ∙ q1.1),
                          )))))
        ]

    -- merge_sort returns a sorted, stable permutation of a nonempty array whose byte count fits a
    -- size_t, with every access inside its arrays, for a comparison that is an order.
    pub merge_sort_sorts :
        (junk : A) (size : ℕ) (xs : List A)
        → 0 < length xs
        → size * length xs ≤ size_max
        → Returns (IsSorting gt xs) (merge_sort gt junk size xs)
    unfolding merge_sort
    merge_sort_sorts junk size xs some_left fits =
        let fresh = replicate (length xs) junk in
        rw (st_mult_lem (length xs) size some_left fits) (
          Returns-bind _ _
            (merge_sort_next_lem (length xs) xs [] xs [] 0 (length xs) fresh (sym (append-nil xs))
              refl refl (omega arith) (omega (arith, length-replicate (length xs) junk)))
            (λ r (zs, sorting, q).
              (r.0, refl, subst (IsSorting gt xs) (sym (q.0 ∙ append-nil zs)) sorting)))
