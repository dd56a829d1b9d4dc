-- ===== src/MergeSort/Loop.antt =====
-- The merging loop writes the merge of the two runs into the buffer.
use pass_keeper.Prelude.{
  ℕ, ◌+◌, ◌≤◌, ◌≡◌, refl, ap, sym, ◌∙◌, Bool, List, [], ◌∷◌, ◌++◌, append-nil, append_assoc,
  Bool-cases, inl, inr, arith, length, ok, Returns, load, load-append, store-append, length-append,
}
use pass_keeper.MergeSort.{Merging, merge_loop}
use pass_keeper.MergeSort.Merge.{merge, merge-gt, merge-le}

module _ {ℓ} {A : Type ℓ} where
  -- The cells from `i` on begin with `xs`.
  pub record At (array : List A) (i : ℕ) (xs : List A) : Type ℓ where
    pub before : List A
    pub after : List A
    pub whole : array ≡ before ++ (xs ++ after)
    pub start : length before ≡ i

  At-load : {array xs : List A} {i : ℕ} {x : A} → At array i (x ∷ xs) → load array i ≡ ok x
  At-load {xs} {i} {x} p = rw p.whole (load-append p.before (xs ++ p.after) x i (sym p.start))

  At-tail : {array xs : List A} {i : ℕ} {x : A} → At array i (x ∷ xs) → At array (i + 1) xs
  At-tail {xs} {i} {x} p = record {
    before = p.before ++ x ∷ [];
    after = p.after;
    whole = p.whole ∙ sym (append_assoc p.before (x ∷ []) (xs ++ p.after));
    start = omega (arith, p.start, length-append p.before (x ∷ []));
  }

module _ {ℓ} {A : Type ℓ} (gt : A → A → Bool) where
  -- The loop has written `out`, and one run is used up.
  pub record IsMerged (array xs ys done rest : List A) (m : Merging A) : Type ℓ where
    pub out : List A
    pub left : List A
    pub taken : List A
    pub right : List A
    pub unused : List A
    pub merged : merge gt xs ys ≡ out ++ (left ++ right)
    pub split : ys ≡ taken ++ right
    pub at_left : At array m.al left
    pub count_left : m.nl ≡ length left
    pub count_right : m.nr ≡ length right
    pub buffer : m.buf0 ≡ (done ++ out) ++ unused
    pub position : m.buf ≡ length (done ++ out)
    pub size : length out + length unused ≡ length rest

  -- The larger head of the two runs stays; the other moves to the buffer.
  advance :
      {array xs ys xs' ys' done rest : List A} {m : Merging A} (c r : A)
      → merge gt xs ys ≡ c ∷ merge gt xs' ys'
      → (used : List A) × (ys ≡ used ++ ys')
      → IsMerged array xs' ys' (done ++ c ∷ []) rest m
      → IsMerged array xs ys done (r ∷ rest) m
  advance {done} c r e (used, f) p = record {
    out = c ∷ p.out;
    left = p.left;
    taken = used ++ p.taken;
    right = p.right;
    unused = p.unused;
    merged = e ∙ ap (◌∷◌ c) p.merged;
    split = f ∙ ap (λ v. used ++ v) p.split ∙ sym (append_assoc used p.taken p.right);
    at_left = p.at_left;
    count_left = p.count_left;
    count_right = p.count_right;
    buffer = p.buffer ∙ ap (λ v. v ++ p.unused) (append_assoc done (c ∷ []) p.out);
    position = p.position ∙ ap length (append_assoc done (c ∷ []) p.out);
    size = omega (arith, p.size);
  }

  pub merge_loop_lem :
      (array xs ys : List A) (al ar buf : ℕ) (done rest buf0 : List A)
      → At array al xs
      → At array ar ys
      → buf0 ≡ done ++ rest
      → buf ≡ length done
      → length xs + length ys ≤ length rest
      → Returns
          (IsMerged array xs ys done rest)
          (merge_loop gt array (length xs) (length ys) al ar buf buf0)
  unfolding merge_loop
  merge_loop_lem array [] ys al ar buf done rest buf0 p q e f h = (
    record { al = al; nl = 0; ar = ar; nr = length ys; buf = buf; buf0 = buf0 },
    refl,
    record {
      out = [];
      left = [];
      taken = [];
      right = ys;
      unused = rest;
      merged = unfold merge in refl;
      split = refl;
      at_left = p;
      count_left = refl;
      count_right = refl;
      buffer = e ∙ ap (λ v. v ++ rest) (sym (append-nil done));
      position = f ∙ ap length (sym (append-nil done));
      size = omega arith;
    },
  )
  merge_loop_lem array (x ∷ xs) [] al ar buf done rest buf0 p q e f h = (
    record { al = al; nl = length (x ∷ xs); ar = ar; nr = 0; buf = buf; buf0 = buf0 },
    refl,
    record {
      out = [];
      left = x ∷ xs;
      taken = [];
      right = [];
      unused = rest;
      merged = unfold merge in sym (append-nil (x ∷ xs));
      split = refl;
      at_left = p;
      count_left = refl;
      count_right = refl;
      buffer = e ∙ ap (λ v. v ++ rest) (sym (append-nil done));
      position = f ∙ ap length (sym (append-nil done));
      size = omega arith;
    },
  )
  merge_loop_lem array (x ∷ xs) (y ∷ ys) al ar buf done [] buf0 p q e f h = absurd (omega arith)
  merge_loop_lem array (x ∷ xs) (y ∷ ys) al ar buf done (r ∷ rest) buf0 p q e f h =
      elim (Bool-cases (gt x y)) [
        | inl above ↦
            let (m, run, merged) =
              merge_loop_lem array (x ∷ xs) ys al (ar + 1) (buf + 1) (done ++ y ∷ []) rest
                (done ++ y ∷ rest) p (At-tail q) (sym (append_assoc done (y ∷ []) rest))
                (omega (arith, length-append done (y ∷ []))) (omega arith) in
            (
              m,
              rw (At-load p, At-load q, above, e, store-append done rest r y buf f) run,
              advance y r (merge-gt gt x y xs ys above) (y ∷ [], refl) merged,
            )
        | inr below ↦
            let (m, run, merged) =
              merge_loop_lem array xs (y ∷ ys) (al + 1) ar (buf + 1) (done ++ x ∷ []) rest
                (done ++ x ∷ rest) (At-tail p) q (sym (append_assoc done (x ∷ []) rest))
                (omega (arith, length-append done (x ∷ []))) (omega arith) in
            (
              m,
              rw (At-load p, At-load q, below, e, store-append done rest r x buf f) run,
              advance x r (merge-le gt x y xs ys below) ([], refl) merged,
            )
      ]
