-- ===== src/Options/Plain.antt =====
-- src/parse-option.c: parse_options where no argument begins with a dash.
use pass_keeper.Prelude.{
  ℕ, zero, suc, ◌+◌, ◌-◌, ◌≤◌, ◌≡◌, refl, sym, ap, ap₂, ◌∙◌, false, ◌&&◌, List, [], ◌∷◌, ◌++◌,
  append_assoc, Option, none, some, map, arith, ok, if_not, ◌==◌, length, length-append, length-map,
  get_elem?, get_elem?-append, store-append, copy_to-append, copy_from-append,
}
use pass_keeper.Options.{Opt, Context, Settings, Value, parsing_done, parsing_complete}
use pass_keeper.Options.Numbers.{arg_at_lem}
use pass_keeper.Options.Rounds.{options_loop-done}
use pass_keeper.Options.Next.{
  is_dashed, is_done, non_option, parse_option_next, step, options_loop, keep_rest,
  make_cmdmode_list, parse_options,
}

abbrev pub AllPlain : List (List ℕ) → Type 0
AllPlain [] = Unit
AllPlain (arg ∷ args) = (is_dashed arg ≡ false) × AllPlain args

abbrev pub NoModes : List Opt → Type 0
NoModes [] = Unit
NoModes (opt ∷ options) = (opt.flags.is_cmdmode ≡ false) × NoModes options

no_modes :
    (vars : List Value) (options : List Opt)
    → NoModes options
    → make_cmdmode_list vars options [] ≡ ok []
unfolding make_cmdmode_list
no_modes vars [] h = refl
no_modes vars (opt ∷ options) h = rw (make_cmdmode_list, h.0) (no_modes vars options h.1)

-- The array of some arguments.
abbrev pub argv_of : List (List ℕ) → List (Option (List ℕ))
argv_of args = map some args ++ none ∷ []

module _ (env : Settings) (options : List Opt) (vars : List Value)
    (one : env.flags.one_shot ≡ false) (abort : env.flags.abort_non_option ≡ false)
    (until : env.flags.until_non_option ≡ false) where
  abbrev at : List (Option (List ℕ)) → (i n : ℕ) → Context
  at args i n = record {
    argc = n;
    argv = i;
    args = args;
    idx = i;
    optstr = none;
    cmdmode = [];
    vars = vars;
  }

  next_plain :
      (before after : List (Option (List ℕ))) (arg : List ℕ) (i n : ℕ)
      → i ≡ length before
      → is_dashed arg ≡ false
      → parse_option_next env options (at (before ++ some arg ∷ after) i n)
        ≡ ok (parsing_done, record (at (before ++ some arg ∷ after) i n) { idx = i + 1 })
  unfolding parse_option_next non_option
  next_plain before after arg i n e d =
      let args = before ++ some arg ∷ after in
      rw
        (arg_at_lem (at args i n) i arg
          (ap (get_elem? args) e ∙ get_elem?-append before after (some arg)))
        (if_not (env.flags.one_shot && env.argc0 - n == 1) (ground arith)
            (ok (parsing_complete, at args i n)) _
          ∙ rw (d) (
              if_not env.flags.abort_non_option abort _ _
              ∙ (if_not env.flags.until_non_option until _ _
                  ∙ rw (store-append before after (some arg) (some arg) i e) refl)))

  none_left :
      (before : List (Option (List ℕ))) (fuel i n : ℕ)
      → n ≡ 0
      → options_loop fuel env options (at (before ++ argv_of []) i n)
        ≡ ok (at (before ++ argv_of []) (i + n) 0)
  none_left before fuel i n k =
      options_loop-done env options fuel (at (before ++ argv_of []) i n) (omega (arith, k))
      ∙ ap₂ (λ j m. ok (at (before ++ argv_of []) j m)) {y = i + n} (omega (arith, k)) k

  kept_all :
      (before : List (Option (List ℕ))) (args : List (List ℕ)) (fuel i n : ℕ)
      → i ≡ length before
      → n ≡ length args
      → n ≤ fuel
      → AllPlain args
      → options_loop fuel env options (at (before ++ argv_of args) i n)
        ≡ ok (at (before ++ argv_of args) (i + n) 0)
  unfolding options_loop step is_done
  kept_all before [] zero i n e k h p = none_left before zero i n k
  kept_all before [] (suc fuel) i n e k h p = none_left before (suc fuel) i n k
  kept_all before (arg ∷ args) zero i n e k h p = absurd (omega arith)
  kept_all before (arg ∷ args) (suc fuel) i n e k h p =
      let cells = before ++ argv_of (arg ∷ args) in
      let some_left : (n == 0) ≡ false = ground (arith, k) in
      let split : (before ++ some arg ∷ []) ++ argv_of args ≡ cells =
        append_assoc before (some arg ∷ []) (argv_of args) in
      rw (options_loop, some_left, next_plain before (argv_of args) arg i n e p.0)
        (ap (λ a. options_loop fuel env options (at a (i + 1) (n - 1))) (sym split)
          ∙ (kept_all (before ++ some arg ∷ []) args fuel (i + 1) (n - 1)
                (omega (arith, e, length-append before (some arg ∷ []))) (omega (arith, k))
                (omega (arith, h)) p.1
              ∙ ap₂ (λ j a. ok (at a j 0)) {y = i + n} (omega (arith, k)) split))

  nothing_moves :
      (args : List (List ℕ)) (n : ℕ)
      → n ≡ length args
      → keep_rest (at (argv_of args) n 0) ≡ ok (n, argv_of args)
  unfolding keep_rest
  nothing_moves args n h =
      let cells : List (Option (List ℕ)) = map some args in
      let size : n ≡ length cells = omega (arith, h, length-map args (λ x. some x)) in
      rw
        (
          copy_from-append cells [] (none ∷ []) n 0 size refl,
          copy_to-append cells (none ∷ []) [] n size (omega arith),
          store-append cells [] none none (n + 0) (omega (arith, size)),
        )
        (ap (λ m. ok (m, argv_of args)) {y = n} (omega arith))

  -- Where no argument begins with a dash, no option is one of a command mode, and the flags
  -- neither stop at a first argument nor refuse it, parse_options returns with all arguments and
  -- all variables as they were.
  pub parse_options-plain :
      (args : List (List ℕ))
      → env.argc0 ≡ length args
      → AllPlain args
      → NoModes options
      → parse_options env options (argv_of args) vars ≡ ok (env.argc0, argv_of args, vars)
  unfolding parse_options
  parse_options-plain args h p m =
      rw
        (
          no_modes vars options m,
          kept_all [] args env.argc0 0 env.argc0 refl h (omega arith) p,
          nothing_moves args (0 + env.argc0) (omega (arith, h)),
        )
        (ap (λ m. ok (m, argv_of args, vars)) {y = env.argc0} (omega arith))
