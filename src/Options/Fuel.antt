-- ===== src/Options/Fuel.antt =====
-- The loops of src/parse-option.c end: each round takes an argument, or a switch of an argument.
use pass_keeper.Prelude.{
  ℕ, zero, suc, ◌<◌, ◌≡◌, refl, ◌∙◌, true, false, List, [], ◌∷◌, Option, none, some, arith, ◌==◌,
  length, Outcome, ok, ◌>>=◌, bind_cong, Ensures, Ensures-bind,
}
use pass_keeper.Options.{Opt, Context, Settings, ParseResult, get_arg}
use pass_keeper.Options.Taking.{opt_size, Taken, get_arg-Takes}
use pass_keeper.Options.Next.{
  behind_first, first_char, short_category, parse_short_option, finish, is_done, switch_stop,
  switch_loop,
}

-- The loops without fuel: a round, then whatever `rest` does.
abbrev pub switch_round :
    Settings
    → List Opt
    → (rest : Context → Option Opt → Outcome (ParseResult × Context)) → Context
    → Option (List ℕ)
    → Option Opt
    → Outcome (ParseResult × Context)
switch_round env options rest ctx none parsed = finish env ctx parsed
switch_round env options rest ctx (some str) parsed =
    parse_short_option env str options ctx >>= λ r. elim (is_done r.0) [
      | true ↦ rest r.1 r.2
      | false ↦ switch_stop env str r.1 r.0
    ]

module _ (env : Settings) (options : List Opt) where
  behind_first-shorter :
      (str : List ℕ) → Ensures (λ rest. opt_size rest < length str) (behind_first str)
  unfolding behind_first
  behind_first-shorter [] = tt
  behind_first-shorter (c ∷ []) = omega arith
  behind_first-shorter (c ∷ (d ∷ str)) = omega arith

  -- A switch that is taken is taken off.
  abbrev Shorter : List ℕ → ParseResult × Context × Option Opt → Type 0
  Shorter str a = is_done a.0 ≡ true → opt_size a.1.optstr < length str

  parse_short_option-Shorter :
      (str : List ℕ) (options : List Opt) (ctx : Context)
      → Ensures (Shorter str) (parse_short_option env str options ctx)
  unfolding parse_short_option is_done
  parse_short_option-Shorter str [] ctx = λ e. cc
  parse_short_option-Shorter str (opt ∷ options) ctx =
      elim (opt.alias == first_char str)
        as (λ b. Ensures (Shorter str) (elim b [
          | true ↦ behind_first str >>= λ rest.
              get_arg env (record ctx { optstr = rest }) opt short_category >>= λ r.
              ok (r.0, r.1, some opt)
          | false ↦ parse_short_option env str options ctx
        ])) [
          | true ↦
              Ensures-bind (λ rest. opt_size rest < length str) (Shorter str) (behind_first str) _
                (behind_first-shorter str)
                (λ rest h.
                  let c : Context = record ctx { optstr = rest } in
                  Ensures-bind (λ a. Taken c a.1) (Shorter str) (get_arg env c opt short_category) _
                    (get_arg-Takes env c opt short_category) (λ a t e. omega (arith, t.shorter, h)))
          | false ↦ parse_short_option-Shorter str options ctx
        ]

  -- A round looks at what follows only where a switch was taken off.
  switch_round_cong :
      (f g : Context → Option Opt → Outcome (ParseResult × Context)) (ctx : Context) (str : List ℕ)
      (parsed : Option Opt)
      → ((c : Context) (parsed : Option Opt)
          → opt_size c.optstr < length str
          → f c parsed ≡ g c parsed)
      → switch_round env options f ctx (some str) parsed
        ≡ switch_round env options g ctx (some str) parsed
  switch_round_cong f g ctx str parsed h =
      bind_cong (Shorter str) (parse_short_option env str options ctx) _ _
        (parse_short_option-Shorter str options ctx)
        (λ a k.
          (elim (is_done a.0)
              as (λ b.
                is_done a.0 ≡ b
                → elim b [ true ↦ f a.1 a.2 | false ↦ switch_stop env str a.1 a.0 ]
                  ≡ elim b [ true ↦ g a.1 a.2 | false ↦ switch_stop env str a.1 a.0 ]) [
                    | true ↦ λ e. h a.1 a.2 (k e)
                    | false ↦ λ e. refl
                  ])
            refl)

  switch_loop_stable :
      (m n : ℕ) (ctx : Context) (o : Option (List ℕ)) (parsed : Option Opt)
      → opt_size o < m
      → opt_size o < n
      → switch_loop m env options ctx o parsed ≡ switch_loop n env options ctx o parsed
  unfolding switch_loop
  switch_loop_stable zero n ctx o parsed h k = absurd (omega arith)
  switch_loop_stable (suc m) zero ctx o parsed h k = absurd (omega arith)
  switch_loop_stable (suc m) (suc n) ctx none parsed h k = refl
  switch_loop_stable (suc m) (suc n) ctx (some str) parsed h k =
      switch_round_cong (λ c p. switch_loop m env options c c.optstr p)
        (λ c p. switch_loop n env options c c.optstr p) ctx str parsed
        (λ c p l. switch_loop_stable m n c c.optstr p (omega arith) (omega arith))

  -- The loop with the fuel that option_argument gives it.
  abbrev pub switches : Context → Option (List ℕ) → Option Opt → Outcome (ParseResult × Context)
  switches ctx o parsed = switch_loop (suc (opt_size o)) env options ctx o parsed

  switches_solve :
      (ctx : Context) (o : Option (List ℕ)) (parsed : Option Opt)
      → switches ctx o parsed ≡ switch_round env options (λ c. switches c c.optstr) ctx o parsed
  unfolding switch_loop
  switches_solve ctx none parsed = refl
  switches_solve ctx (some str) parsed =
      switch_round_cong (λ c p. switch_loop (length str) env options c c.optstr p)
        (λ c. switches c c.optstr) ctx str parsed
        (λ c p l.
          switch_loop_stable (length str) (suc (opt_size c.optstr)) c c.optstr p l (omega arith))

  module _ (f : Context → Option (List ℕ) → Option Opt → Outcome (ParseResult × Context))
      (s : (ctx : Context) (o : Option (List ℕ)) (parsed : Option Opt)
        → f ctx o parsed ≡ switch_round env options (λ c. f c c.optstr) ctx o parsed) where
    switch_loop-solution :
        (fuel : ℕ) (ctx : Context) (o : Option (List ℕ)) (parsed : Option Opt)
        → opt_size o < fuel
        → f ctx o parsed ≡ switch_loop fuel env options ctx o parsed
    unfolding switch_loop
    switch_loop-solution zero ctx o parsed h = absurd (omega arith)
    switch_loop-solution (suc fuel) ctx none parsed h = s ctx none parsed
    switch_loop-solution (suc fuel) ctx (some str) parsed h =
        s ctx (some str) parsed
        ∙ switch_round_cong (λ c. f c c.optstr) (λ c p. switch_loop fuel env options c c.optstr p)
            ctx str parsed (λ c p l. switch_loop-solution fuel c c.optstr p (omega arith))

    switches_only :
        (ctx : Context) (o : Option (List ℕ)) (parsed : Option Opt)
        → f ctx o parsed ≡ switches ctx o parsed
    switches_only ctx o parsed = switch_loop-solution (suc (opt_size o)) ctx o parsed (omega arith)

  -- The loop over the switches of an argument, run for one round more than the argument has
  -- characters, satisfies the equation of the C loop, and it is the one function that does.
  pub switch_loop_ends :
      ((ctx : Context) (o : Option (List ℕ)) (parsed : Option Opt)
        → switches ctx o parsed ≡ switch_round env options (λ c. switches c c.optstr) ctx o parsed)
      × ((f : Context → Option (List ℕ) → Option Opt → Outcome (ParseResult × Context))
          → ((ctx : Context) (o : Option (List ℕ)) (parsed : Option Opt)
              → f ctx o parsed ≡ switch_round env options (λ c. f c c.optstr) ctx o parsed)
          → (ctx : Context) (o : Option (List ℕ)) (parsed : Option Opt)
          → f ctx o parsed ≡ switches ctx o parsed)
  switch_loop_ends = (switches_solve, switches_only)
