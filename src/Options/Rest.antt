-- ===== src/Options/Rest.antt =====
-- The end of parse_options: the arguments that were not read move behind those that are kept.
use pass_keeper.Prelude.{
  ℕ, zero, suc, ◌+◌, ◌-◌, ◌≤◌, ◌≡◌, refl, sym, ap, subst, ◌∙◌, List, [], ◌∷◌, ◌++◌, append_assoc,
  none, arith, length, set, take, drop, length-set, length-take, length-drop, length-append,
  take-append, get_elem?-set_self, store, copy_to, copy_from, Ensures, Ensures-bind,
  Ensures-copy_from, Ensures-copy_to, Ensures-store,
}
use pass_keeper.Options.{Context, Settings}
use pass_keeper.Options.Next.{keep_rest}
use pass_keeper.Options.Kept.{Arg, Sieve, Stop, Parsing, Leaves}

module _ {A : Type 0} where
  -- A write at a place leaves what stands before it.
  take-set_self : (xs : List A) (i : ℕ) (v : A) → take i (set xs i v) ≡ take i xs
  take-set_self [] i v = refl
  take-set_self (x ∷ xs) zero v = refl
  take-set_self (x ∷ xs) (suc i) v = ap (x ∷◌) (take-set_self xs i v)

  -- The first part of three.
  take_two :
      (xs ys zs : List A) (n : ℕ) → n ≡ length xs + length ys → take n (xs ++ (ys ++ zs)) ≡ xs ++ ys
  take_two xs ys zs n h =
      ap (take n) (sym (append_assoc xs ys zs))
      ∙ (ap (λ k. take k ((xs ++ ys) ++ zs)) {y = length (xs ++ ys)}
            (omega (arith, h, length-append xs ys))
          ∙ take-append (xs ++ ys) zs)

module _ (env : Settings) (given : List Arg) where
  -- `kept`, then what was not read, then a null pointer.
  Leaves-moved :
      (read argc : ℕ) (kept tail args : List Arg)
      → Sieve kept (take read given)
      → Stop env given read argc
      → read + argc + 1 ≡ length given
      → args ≡ kept ++ (take argc (drop read given) ++ tail)
      → length args ≡ length given
      → length kept ≤ read
      → Leaves env given (length kept + argc) (set args (length kept + argc) none)
  Leaves-moved read argc kept tail args s stop h e l k = record {
    read = read;
    kept = kept;
    sieve = s;
    stop =
        subst (Stop env given read) {x = argc} {y = length kept + argc - length kept} (omega arith)
          stop;
    all =
        take-set_self args (length kept + argc) none
        ∙ (ap (take (length kept + argc)) e
            ∙ (take_two kept (take argc (drop read given)) tail (length kept + argc)
                  (omega (arith, h, length-take argc (drop read given), length-drop read given))
                ∙ ap (λ n. kept ++ take n (drop read given)) {y = length kept + argc - length kept}
                    (omega arith)));
    rest = omega (arith, h);
    null = get_elem?-set_self args (length kept + argc) none (omega (arith, h, l, k));
    size = length-set args (length kept + argc) none ∙ l;
  }

  pub keep_rest-Leaves :
      (ctx : Context)
      → Parsing given ctx
      → Stop env given ctx.argv ctx.argc
      → Ensures (λ r. Leaves env given r.0 r.1) (keep_rest ctx)
  unfolding keep_rest
  keep_rest-Leaves ctx p stop =
      Ensures-bind (λ rest. rest ≡ take ctx.argc (drop ctx.argv ctx.args))
        (λ r. Leaves env given r.0 r.1) (copy_from ctx.args ctx.argv ctx.argc) _
        (Ensures-copy_from ctx.args ctx.argv ctx.argc)
        (λ rest e.
          Ensures-bind
            (λ args.
              args ≡ take ctx.idx ctx.args ++ (rest ++ drop (ctx.idx + length rest) ctx.args))
            (λ r. Leaves env given r.0 r.1) (copy_to ctx.args ctx.idx rest) _
            (Ensures-copy_to ctx.args ctx.idx rest)
            (λ args e'.
              Ensures-bind (λ x. x ≡ set args (ctx.idx + ctx.argc) none)
                (λ r. Leaves env given r.0 r.1) (store args (ctx.idx + ctx.argc) none) _
                (Ensures-store args (ctx.idx + ctx.argc) none)
                (λ x e''. moved rest args x e e' e'')))
    where
      moved :
          (rest args x : List Arg)
          → rest ≡ take ctx.argc (drop ctx.argv ctx.args)
          → args ≡ take ctx.idx ctx.args ++ (rest ++ drop (ctx.idx + length rest) ctx.args)
          → x ≡ set args (ctx.idx + ctx.argc) none
          → Leaves env given (ctx.idx + ctx.argc) x
      moved rest args x e e' e'' =
          let size : length (take ctx.idx ctx.args) ≡ ctx.idx =
            omega (arith, length-take ctx.idx ctx.args, p.size, p.left, p.behind) in
          let rest_size : length rest ≡ ctx.argc = omega (
            arith,
            ap length e,
            length-take ctx.argc (drop ctx.argv ctx.args),
            length-drop ctx.argv ctx.args,
            p.size,
            p.left,
          ) in
          let tail : List Arg = drop (ctx.idx + length rest) ctx.args in
          let whole : length args ≡ length given = omega (
            arith,
            ap length e',
            length-append (take ctx.idx ctx.args) (rest ++ tail),
            length-append rest tail,
            length-drop (ctx.idx + length rest) ctx.args,
            size,
            rest_size,
            p.size,
            p.left,
            p.behind,
          ) in
          let kept_first : args
              ≡ take ctx.idx ctx.args ++ (take ctx.argc (drop ctx.argv given) ++ tail) =
            e' ∙ ap (λ r. take ctx.idx ctx.args ++ (r ++ tail)) (e ∙ ap (take ctx.argc) p.unread) in
          subst (λ y. Leaves env given (ctx.idx + ctx.argc) y) (sym e'')
            (subst (λ i. Leaves env given (i + ctx.argc) (set args (i + ctx.argc) none)) size
              (Leaves-moved ctx.argv ctx.argc (take ctx.idx ctx.args) tail args p.sieve stop p.left
                kept_first whole (omega (arith, size, p.behind))))
