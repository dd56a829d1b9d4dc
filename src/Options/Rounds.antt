-- ===== src/Options/Rounds.antt =====
-- The loop of parse_options ends: each round takes an argument or more.
use pass_keeper.Prelude.{
  ℕ, zero, suc, ◌-◌, ◌≤◌, ◌<◌, ◌≡◌, refl, sym, ◌∙◌, true, false, not, ◌&&◌, List, [], ◌∷◌, none,
  some, arith, ◌==◌, length, store, Outcome, ok, ◌>>=◌, bind_cong, Ensures, Ensures-bind,
  Ensures-any, Ensures-if, Ensures-map,
}
use pass_keeper.Options.{Opt, Context, Settings, ParseResult, arg_at}
use pass_keeper.Options.Progress.{Advance, Moves}
use pass_keeper.Options.Next.{
  is_done, switch_loop, is_help, dashed_option, option_argument, non_option, is_dashed, behind_dash,
  is_lone_h, parse_option_next, step, options_stop, options_loop,
}
use pass_keeper.Options.Walk.{switch_loop-Moves, long_option-Moves}

-- The loop without fuel: a round, then whatever `rest` does.
abbrev pub options_round :
    Settings → List Opt → (rest : Context → Outcome Context) → Context → Outcome Context
options_round env options rest ctx = elim (ctx.argc == 0) [
  | true ↦ ok ctx
  | false ↦ parse_option_next env options ctx >>= λ r. elim (is_done r.0) [
    | true ↦ rest (step r.1)
    | false ↦ options_stop r.1 r.0
  ]
]

module _ (env : Settings) (options : List Opt) where
  abbrev NoMore : Context → Outcome (ParseResult × Context) → Type 0
  NoMore ctx m = Ensures (λ a. a.1.argc ≤ ctx.argc) m

  Moves-NoMore : (ctx : Context) (m : Outcome (ParseResult × Context)) → Moves ctx m → NoMore ctx m
  Moves-NoMore ctx m h =
      Ensures-map (λ a. Advance ctx a.1) (λ a. a.1.argc ≤ ctx.argc) m h
        (λ a q. omega (arith, q.argc))

  dashed_option-NoMore :
      (argstr : List ℕ) (ctx : Context) → NoMore ctx (dashed_option env options argstr ctx)
  unfolding dashed_option
  dashed_option-NoMore [] ctx = omega arith
  dashed_option-NoMore (c ∷ argstr) ctx =
      Ensures-if (λ a. a.1.argc ≤ ctx.argc) (is_help (c ∷ argstr)) _ _ (λ h. omega arith)
        (λ h. Moves-NoMore ctx _ (long_option-Moves env options (c ∷ argstr) ctx))

  switches-NoMore :
      (fuel : ℕ) (str : List ℕ) (ctx : Context)
      → NoMore ctx (switch_loop fuel env options (record ctx { optstr = some str }) (some str) none)
  switches-NoMore fuel str ctx =
      Moves-NoMore (record ctx { optstr = some str }) _
        (switch_loop-Moves env fuel options (record ctx { optstr = some str }) (some str) none)

  option_argument-NoMore :
      (argstr : List ℕ) (ctx : Context) → NoMore ctx (option_argument env options argstr ctx)
  unfolding option_argument
  option_argument-NoMore [] ctx = switches-NoMore 1 [] ctx
  option_argument-NoMore (c ∷ argstr) ctx =
      Ensures-if (λ a. a.1.argc ≤ ctx.argc) (c == b'-') _ _ (λ h. dashed_option-NoMore argstr ctx)
        (λ h. switches-NoMore (suc (length (c ∷ argstr))) (c ∷ argstr) ctx)

  non_option-NoMore : (ctx : Context) (arg : List ℕ) → NoMore ctx (non_option env ctx arg)
  unfolding non_option
  non_option-NoMore ctx arg =
      Ensures-if (λ a. a.1.argc ≤ ctx.argc) env.flags.abort_non_option _ _ (λ h. omega arith)
        (λ h.
          Ensures-if (λ a. a.1.argc ≤ ctx.argc) env.flags.until_non_option _ _ (λ h. omega arith)
            (λ h.
              Ensures-bind (λ args. Unit {0}) (λ a. a.1.argc ≤ ctx.argc)
                (store ctx.args ctx.idx (some arg)) _ (Ensures-any _) (λ args u. omega arith)))

  parse_option_next-NoMore : (ctx : Context) → NoMore ctx (parse_option_next env options ctx)
  unfolding parse_option_next
  parse_option_next-NoMore ctx =
      Ensures-bind (λ arg. Unit {0}) (λ a. a.1.argc ≤ ctx.argc) (arg_at ctx ctx.argv) _
        (Ensures-any _)
        (λ arg u.
          Ensures-if (λ a. a.1.argc ≤ ctx.argc) (env.flags.one_shot && env.argc0 - ctx.argc == 1) _
            _ (λ h. omega arith)
            (λ h.
              Ensures-if (λ a. a.1.argc ≤ ctx.argc) (not (is_dashed arg)) _ _
                (λ d. non_option-NoMore ctx arg)
                (λ d.
                  Ensures-if (λ a. a.1.argc ≤ ctx.argc)
                    (env.argc0 == 1 && (is_lone_h (behind_dash arg) && not env.flags.no_short_help))
                    _ _ (λ k. omega arith) (λ k. option_argument-NoMore (behind_dash arg) ctx))))

  options_round_cong :
      (f g : Context → Outcome Context) (ctx : Context)
      → ((c : Context) → c.argc < ctx.argc → f c ≡ g c)
      → options_round env options f ctx ≡ options_round env options g ctx
  unfolding step
  options_round_cong f g ctx h =
      (elim (ctx.argc == 0)
          as (λ z.
            (ctx.argc == 0) ≡ z
            → elim z [
              | true ↦ ok ctx
              | false ↦ parse_option_next env options ctx >>= λ r. elim (is_done r.0) [
                | true ↦ f (step r.1)
                | false ↦ options_stop r.1 r.0
              ]
            ]
              ≡ elim z [
                | true ↦ ok ctx
                | false ↦ parse_option_next env options ctx >>= λ r. elim (is_done r.0) [
                  | true ↦ g (step r.1)
                  | false ↦ options_stop r.1 r.0
                ]
              ]) [
                | true ↦ λ z. refl
                | false ↦ λ z.
                    bind_cong (λ a. a.1.argc ≤ ctx.argc) (parse_option_next env options ctx) _ _
                      (parse_option_next-NoMore ctx)
                      (λ a k.
                        elim (is_done a.0)
                          as (λ b.
                            elim b [ true ↦ f (step a.1) | false ↦ options_stop a.1 a.0 ]
                            ≡ elim b [ true ↦ g (step a.1) | false ↦ options_stop a.1 a.0 ]) [
                              | true ↦ h (step a.1) (ground (arith, k, z))
                              | false ↦ refl
                            ])
              ])
        refl

  -- Without an argument nothing is left to do, with fuel or without.
  options_round-done :
      (f : Context → Outcome Context) (ctx : Context)
      → ctx.argc ≤ 0
      → options_round env options f ctx ≡ ok ctx
  options_round-done f ctx h =
      let none_left : (ctx.argc == 0) ≡ true = ground arith in rw (options_round, none_left) refl

  pub options_loop-done :
      (n : ℕ) (ctx : Context) → ctx.argc ≤ 0 → options_loop n env options ctx ≡ ok ctx
  unfolding options_loop
  options_loop-done zero ctx h =
      let none_left : (ctx.argc == 0) ≡ true = ground arith in rw (none_left) refl
  options_loop-done (suc n) ctx h = options_round-done (options_loop n env options) ctx h

  options_loop_stable :
      (m n : ℕ) (ctx : Context)
      → ctx.argc ≤ m
      → ctx.argc ≤ n
      → options_loop m env options ctx ≡ options_loop n env options ctx
  unfolding options_loop
  options_loop_stable zero n ctx h k =
      options_loop-done zero ctx h ∙ sym (options_loop-done n ctx h)
  options_loop_stable (suc m) zero ctx h k =
      options_loop-done (suc m) ctx k ∙ sym (options_loop-done zero ctx k)
  options_loop_stable (suc m) (suc n) ctx h k =
      options_round_cong (options_loop m env options) (options_loop n env options) ctx
        (λ c l. options_loop_stable m n c (omega (arith, h, l)) (omega (arith, k, l)))

  -- The loop with the fuel that parse_options gives it.
  abbrev pub arguments : Context → Outcome Context
  arguments ctx = options_loop ctx.argc env options ctx

  arguments_solve : (ctx : Context) → arguments ctx ≡ options_round env options arguments ctx
  unfolding options_loop
  arguments_solve ctx =
      options_loop_stable ctx.argc (suc ctx.argc) ctx (omega arith) (omega arith)
      ∙ options_round_cong (options_loop ctx.argc env options) arguments ctx
          (λ c l. options_loop_stable ctx.argc c.argc c (omega arith) (omega arith))

  module _ (f : Context → Outcome Context)
      (s : (ctx : Context) → f ctx ≡ options_round env options f ctx) where
    options_loop-solution :
        (n : ℕ) (ctx : Context) → ctx.argc ≤ n → f ctx ≡ options_loop n env options ctx
    unfolding options_loop
    options_loop-solution zero ctx h =
        s ctx ∙ (options_round-done f ctx h ∙ sym (options_loop-done zero ctx h))
    options_loop-solution (suc n) ctx h =
        s ctx
        ∙ options_round_cong f (options_loop n env options) ctx
            (λ c l. options_loop-solution n c (omega (arith, h, l)))

  -- The loop of parse_options, run for as many rounds as there are arguments, satisfies the
  -- equation of the C loop, and it is the one function that does.
  pub options_loop_ends :
      ((ctx : Context) → arguments ctx ≡ options_round env options arguments ctx)
      × ((f : Context → Outcome Context)
          → ((ctx : Context) → f ctx ≡ options_round env options f ctx)
          → (ctx : Context) → f ctx ≡ arguments ctx)
  options_loop_ends =
      (arguments_solve, λ f s ctx. options_loop-solution f s ctx.argc ctx (omega arith))
