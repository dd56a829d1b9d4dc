-- ===== src/Options/Kept.antt =====
-- The array of arguments between two of them: some that were read are kept at its start, those that
-- were not read stand where they stood.
use pass_keeper.Prelude.{
  ℕ, zero, suc, ◌+◌, ◌-◌, ◌≤◌, ◌<◌, ◌≡◌, refl, sym, ap, subst, ◌∙◌, true, false, List, [], ◌∷◌,
  ◌++◌, append_assoc, Option, none, some, arith, length, get_elem?, set, take, drop, length-set,
  length-take,
}
use pass_keeper.Options.{Context, Settings}
use pass_keeper.Options.Next.{is_dashed, step}
use pass_keeper.Options.Progress.{Advance}

abbrev pub Arg : Type 0
Arg = Option (List ℕ)

-- The arguments that are kept, of those that were read: every one but the options, which begin with
-- a dash, each with the value behind it if it took that.
pub data Sieve : List Arg → List Arg → Type 0 where
  nothing_read : Sieve [] []
  option_read :
      {kept given : List Arg}
      → Sieve kept given
      → (arg : List ℕ) → is_dashed arg ≡ true
      → (values : List Arg) → length values ≤ 1
      → Sieve kept (given ++ some arg ∷ values)
  kept :
      {kept given : List Arg}
      → Sieve kept given
      → (arg : List ℕ) → is_dashed arg ≡ false
      → Sieve (kept ++ some arg ∷ []) (given ++ some arg ∷ [])

-- Why no more arguments are read: there are none; one was read, with PARSER_ONE_SHOT; the next one is
-- no option, with PARSER_UNTIL_NON_OPTION; or the last one was two dashes.
pub data Stop (env : Settings) (given : List Arg) (read argc : ℕ) : Type 0 where
  all_read : argc ≡ 0 → Stop env given read argc
  one_read : env.flags.one_shot ≡ true → env.argc0 - argc ≡ 1 → Stop env given read argc
  at_argument :
      env.flags.until_non_option ≡ true
      → (arg : List ℕ) → get_elem? given read ≡ some (some arg)
      → is_dashed arg ≡ false
      → Stop env given read argc
  behind_dashes :
      (before : ℕ)
      → read ≡ before + 1
      → get_elem? given before ≡ some (some (b'-' ∷ b'-' ∷ []))
      → Stop env given read argc

module _ {ℓ} {A : Type ℓ} where
  drop-nil : (n : ℕ) → drop {A = A} n [] ≡ []
  drop-nil zero = refl
  drop-nil (suc n) = refl

  pub take-nil : (n : ℕ) → take {A = A} n [] ≡ []
  take-nil zero = refl
  take-nil (suc n) = refl

  pub drop_add : (m n : ℕ) (xs : List A) → drop (m + n) xs ≡ drop n (drop m xs)
  drop_add zero n xs = ap (λ k. drop k xs) {y = n} (omega arith)
  drop_add (suc m) n [] = drop-nil (suc m + n) ∙ sym (drop-nil n)
  drop_add (suc m) n (x ∷ xs) =
      ap (λ k. drop k (x ∷ xs)) {y = suc (m + n)} (omega arith) ∙ drop_add m n xs

  take_add : (m n : ℕ) (xs : List A) → take (m + n) xs ≡ take m xs ++ take n (drop m xs)
  take_add zero n xs = ap (λ k. take k xs) {y = n} (omega arith)
  take_add (suc m) n [] = take-nil (suc m + n) ∙ sym (take-nil n)
  take_add (suc m) n (x ∷ xs) =
      ap (λ k. take k (x ∷ xs)) {y = suc (m + n)} (omega arith) ∙ ap (x ∷◌) (take_add m n xs)

  -- A write before a place leaves what stands from there on.
  drop-set : (xs : List A) (i n : ℕ) (v : A) → i < n → drop n (set xs i v) ≡ drop n xs
  drop-set [] i n v h = refl
  drop-set (x ∷ xs) i zero v h = absurd (omega arith)
  drop-set (x ∷ xs) zero (suc n) v h = refl
  drop-set (x ∷ xs) (suc i) (suc n) v h = drop-set xs i n v (omega arith)

  take-set :
      (xs : List A) (i : ℕ) (v : A)
      → i < length xs
      → take (i + 1) (set xs i v) ≡ take i xs ++ v ∷ []
  take-set [] i v h = absurd (omega arith)
  take-set (x ∷ xs) zero v h = refl
  take-set (x ∷ xs) (suc i) v h =
      ap (λ k. take k (x ∷ set xs i v)) {y = suc (i + 1)} (omega arith)
      ∙ ap (x ∷◌) (take-set xs i v (omega arith))

  take_snoc :
      (xs : List A) (i : ℕ) (v : A)
      → get_elem? xs i ≡ some v
      → take (i + 1) xs ≡ take i xs ++ v ∷ []
  take_snoc [] i v h = absurd (cc)
  take_snoc (x ∷ xs) zero v h = ap (λ y. y ∷ []) (cc)
  take_snoc (x ∷ xs) (suc i) v h =
      ap (λ k. take k (x ∷ xs)) {y = suc (i + 1)} (omega arith) ∙ ap (x ∷◌) (take_snoc xs i v h)

  get_elem?-drop : (xs : List A) (n : ℕ) → get_elem? xs n ≡ get_elem? (drop n xs) 0
  get_elem?-drop [] zero = refl
  get_elem?-drop [] (suc n) = refl
  get_elem?-drop (x ∷ xs) zero = refl
  get_elem?-drop (x ∷ xs) (suc n) = get_elem?-drop xs n

-- What holds between two arguments, of the array, `idx`, and the place and the number of the unread.
pub record Between (given args : List Arg) (idx argv argc : ℕ) : Type 0 where
  pub sieve : Sieve (take idx args) (take argv given)
  pub unread : drop argv args ≡ drop argv given
  pub size : length args ≡ length given
  pub behind : idx ≤ argv
  pub left : argv + argc + 1 ≡ length given

abbrev pub Parsing : List Arg → Context → Type 0
Parsing given ctx = Between given ctx.args ctx.idx ctx.argv ctx.argc

module _ (given : List Arg) where
  pub Between-start : (n : ℕ) → n + 1 ≡ length given → Between given given 0 0 n
  Between-start n h = record {
    sieve = nothing_read;
    unread = refl;
    size = refl;
    behind = omega arith;
    left = omega (arith, h);
  }

  -- What stands at an argument that was not read.
  pub unread_at :
      {args : List Arg} {idx argv argc : ℕ} (arg : Arg)
      → get_elem? args argv ≡ some arg
      → Between given args idx argv argc
      → get_elem? given argv ≡ some arg
  unread_at {args} {idx} {argv} arg e p =
      get_elem?-drop given argv
      ∙ ap (λ xs. get_elem? xs 0) (sym p.unread)
      ∙ sym (get_elem?-drop args argv)
      ∙ e

  -- An option and the values that it took.
  pub Between-option :
      {args : List Arg} {idx argv argc : ℕ} (arg : List ℕ) (s n : ℕ)
      → s ≤ 1
      → n + (1 + s) ≡ argc
      → get_elem? args argv ≡ some (some arg)
      → is_dashed arg ≡ true
      → Between given args idx argv argc
      → Between given args idx (argv + (1 + s)) n
  Between-option {args} {idx} {argv} arg s n one h e d p = record {
    sieve =
        subst (Sieve (take idx args))
          (sym (
            ap (λ k. take k given) {y = (argv + 1) + s} (omega arith)
            ∙ take_add (argv + 1) s given
            ∙ ap (λ xs. xs ++ take s (drop (argv + 1) given))
                (take_snoc given argv (some arg) (unread_at (some arg) e p))
            ∙ append_assoc (take argv given) (some arg ∷ []) (take s (drop (argv + 1) given))))
          (option_read p.sieve arg d (take s (drop (argv + 1) given))
            (omega (arith, one, length-take s (drop (argv + 1) given))));
    unread =
        drop_add argv (1 + s) args ∙ ap (drop (1 + s)) p.unread ∙ sym (drop_add argv (1 + s) given);
    size = p.size;
    behind = omega (arith, p.behind);
    left = omega (arith, p.left, h);
  }

  -- An argument that is kept.
  pub Between-keep :
      {args : List Arg} {idx argv argc : ℕ} (arg : List ℕ) (n : ℕ)
      → n + 1 ≡ argc
      → get_elem? args argv ≡ some (some arg)
      → is_dashed arg ≡ false
      → Between given args idx argv argc
      → Between given (set args idx (some arg)) (idx + 1) (argv + 1) n
  Between-keep {args} {idx} {argv} arg n h e d p = record {
    sieve =
        rw
          (
            take-set args idx (some arg) (omega (arith, p.behind, p.left, p.size)),
            take_snoc given argv (some arg) (unread_at (some arg) e p),
          )
          (kept p.sieve arg d);
    unread =
        drop-set args idx (argv + 1) (some arg) (omega (arith, p.behind))
        ∙ drop_add argv 1 args
        ∙ ap (drop 1) p.unread
        ∙ sym (drop_add argv 1 given);
    size = length-set args idx (some arg) ∙ p.size;
    behind = omega (arith, p.behind);
    left = omega (arith, p.left, h);
  }

  -- A round that takes an option.
  pub Parsing-option :
      (a b : Context) (arg : List ℕ)
      → 0 < b.argc
      → Advance a b
      → get_elem? a.args a.argv ≡ some (some arg)
      → is_dashed arg ≡ true
      → Parsing given a
      → Parsing given (step b)
  unfolding step
  Parsing-option a b arg more q e d p =
      subst (λ args. Between given args b.idx (b.argv + 1) (b.argc - 1)) (sym q.args)
        (subst (λ idx. Between given a.args idx (b.argv + 1) (b.argc - 1)) (sym q.idx)
          (subst (λ argv. Between given a.args a.idx argv (b.argc - 1)) {x = a.argv + (1 + q.steps)}
            {y = b.argv + 1} (omega (arith, q.argv))
            (Between-option arg q.steps (b.argc - 1) q.once (omega (arith, q.argc, more)) e d p)))

module _ (env : Settings) (given : List Arg) where
  -- What holds behind the loop: the arguments end with a null pointer.
  pub record Leaves (n : ℕ) (args : List Arg) : Type 0 where
    pub read : ℕ
    pub kept : List Arg
    pub sieve : Sieve kept (take read given)
    pub stop : Stop env given read (n - length kept)
    pub all : take n args ≡ kept ++ take (n - length kept) (drop read given)
    pub rest : read + (n - length kept) + 1 ≡ length given
    pub null : get_elem? args n ≡ some none
    pub size : length args ≡ length given
