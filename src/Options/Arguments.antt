-- ===== src/Options/Arguments.antt =====
-- parse_options as a whole: what it leaves in the array of arguments.
use pass_keeper.Prelude.{
  ap, ap₂, ◌∙◌, ==_iff, died, bugged, exited, fault, ℕ, zero, suc, ◌+◌, ◌-◌, ◌<◌, ◌≡◌, refl, sym,
  subst, true, false, not, ◌&&◌, List, [], ◌∷◌, none, some, arith, ◌==◌, length, get_elem?, set,
  load, store, Outcome, ok, ◌>>=◌, Ensures, Ensures-load, Ensures-store, Ensures-bind, Ensures-any,
  Ensures-if, Ensures-map,
}
use pass_keeper.Options.{
  Opt, Context, Settings, Value, ParseResult, parsing_done, parsing_error, parsing_complete,
  parsing_help, parsing_non_option, parsing_unknown, arg_at,
}
use pass_keeper.Options.Next.{
  is_done, switch_loop, is_help, dashed_option, option_argument, non_option, is_dashed, behind_dash,
  is_lone_h, parse_option_next, step, options_stop, options_loop, make_cmdmode_list, keep_rest,
  parse_options,
}
use pass_keeper.Options.Progress.{Advance, Advance-from, Unmoved-still, Moves}
use pass_keeper.Options.Walk.{switch_loop-Moves, long_option-Moves}
use pass_keeper.Options.Going.{Continues, switch_loop-Goes, long_option-Goes}
use pass_keeper.Options.Rest.{keep_rest-Leaves}
use pass_keeper.Options.Kept.{
  Arg, Stop, all_read, one_read, at_argument, behind_dashes, Between, Between-start, Between-option,
  Between-keep, Parsing, Parsing-option, unread_at, Leaves,
}

arg_at-get_elem? :
    (ctx : Context) (i : ℕ) → Ensures (λ arg. get_elem? ctx.args i ≡ some (some arg)) (arg_at ctx i)
unfolding arg_at
arg_at-get_elem? ctx i =
    Ensures-bind (λ cell. get_elem? ctx.args i ≡ some cell)
      (λ arg. get_elem? ctx.args i ≡ some (some arg)) (load ctx.args i) _ (Ensures-load ctx.args i)
      (elim [ none ↦ λ e. tt | some arg ↦ λ e. e ])

-- One character, and another one.
dash_behind : (c d : ℕ) (arg : List ℕ) → (c == d) ≡ true → c ∷ arg ≡ d ∷ arg
dash_behind c d arg h = ap (λ k. k ∷ arg) ((==_iff c d).0 h)

-- The argument is two dashes.
two_dashes :
    (arg argstr : List ℕ)
    → is_dashed arg ≡ true
    → behind_dash arg ≡ b'-' ∷ argstr
    → arg ≡ b'-' ∷ b'-' ∷ argstr
unfolding is_dashed behind_dash
two_dashes [] argstr d e = absurd (cc)
two_dashes (c ∷ arg) argstr d e = ap₂ ◌∷◌ ((==_iff c b'-').0 d) e

module _ (env : Settings) (given : List Arg) where
  -- What an argument leaves, by the answer.
  abbrev pub Read : ParseResult → Context → Type 0
  Read parsing_done c = Parsing given (step c)
  Read parsing_complete c = Parsing given c × Stop env given c.argv c.argc
  Read _ c = Unit

  module _ (ctx : Context) (more : 0 < ctx.argc) (p : Parsing given ctx) where
    module _ (arg : List ℕ) (e : get_elem? ctx.args ctx.argv ≡ some (some arg))
        (d : is_dashed arg ≡ true) where
      Advance-Read :
          (c : Context) → Advance ctx c → (res : ParseResult) → Continues res → Read res c
      Advance-Read c q parsing_done g = Parsing-option given ctx c arg (q.some_left more) q e d p
      Advance-Read c q parsing_complete g = absurd g
      Advance-Read c q parsing_help g = tt
      Advance-Read c q parsing_error g = tt
      Advance-Read c q parsing_non_option g = tt
      Advance-Read c q parsing_unknown g = tt

      Moves-Read :
          (m : Outcome (ParseResult × Context))
          → Moves ctx m
          → Ensures (λ a. Continues a.0) m
          → Ensures (λ a. Read a.0 a.1) m
      Moves-Read (ok a) h g = Advance-Read a.1 h a.0 g
      Moves-Read died h g = tt
      Moves-Read bugged h g = tt
      Moves-Read exited h g = tt
      Moves-Read fault h g = tt

      dashed_option-Read :
          (options : List Opt) (argstr : List ℕ)
          → behind_dash arg ≡ b'-' ∷ argstr
          → Ensures (λ a. Read a.0 a.1) (dashed_option env options argstr ctx)
      unfolding dashed_option
      dashed_option-Read options [] b = (
        Between-option given arg 0 (ctx.argc - 1) (omega arith) (omega (arith, more)) e d p,
        behind_dashes ctx.argv refl
            (unread_at given (some arg) e p ∙ ap (λ a. some (some a)) (two_dashes arg [] d b)),
      )
      dashed_option-Read options (c ∷ argstr) b =
          Ensures-if (λ a. Read a.0 a.1) (is_help (c ∷ argstr)) _ _ (λ h. tt)
            (λ h.
              Moves-Read _ (long_option-Moves env options (c ∷ argstr) ctx)
                (long_option-Goes env options (c ∷ argstr) ctx))

      switches-Read :
          (options : List Opt) (fuel : ℕ) (str : List ℕ)
          → Ensures
              (λ a. Read a.0 a.1)
              (switch_loop fuel env options (record ctx { optstr = some str }) (some str) none)
      switches-Read options fuel str =
          let c : Context = record ctx { optstr = some str } in
          Moves-Read _
            (Ensures-map (λ a. Advance c a.1) (λ a. Advance ctx a.1) _
              (switch_loop-Moves env fuel options c (some str) none)
              (λ a q. Advance-from ctx c a.1 (Unmoved-still ctx (some str) ctx.cmdmode ctx.vars) q))
            (switch_loop-Goes env fuel options c (some str) none)

      option_argument-Read :
          (options : List Opt) (argstr : List ℕ)
          → behind_dash arg ≡ argstr
          → Ensures (λ a. Read a.0 a.1) (option_argument env options argstr ctx)
      unfolding option_argument
      option_argument-Read options [] b = switches-Read options 1 []
      option_argument-Read options (c ∷ argstr) b =
          Ensures-if (λ a. Read a.0 a.1) (c == b'-') _ _
            (λ h. dashed_option-Read options argstr (b ∙ dash_behind c b'-' argstr h))
            (λ h. switches-Read options (suc (length (c ∷ argstr))) (c ∷ argstr))

    non_option-Read :
        (arg : List ℕ)
        → get_elem? ctx.args ctx.argv ≡ some (some arg)
        → is_dashed arg ≡ false
        → Ensures (λ a. Read a.0 a.1) (non_option env ctx arg)
    unfolding non_option step
    non_option-Read arg e d =
        Ensures-if (λ a. Read a.0 a.1) env.flags.abort_non_option _ _ (λ h. tt)
          (λ h.
            Ensures-if (λ a. Read a.0 a.1) env.flags.until_non_option _ _
              (λ h. (p, at_argument h arg (unread_at given (some arg) e p) d))
              (λ h.
                Ensures-bind (λ args. args ≡ set ctx.args ctx.idx (some arg)) (λ a. Read a.0 a.1)
                  (store ctx.args ctx.idx (some arg)) _ (Ensures-store ctx.args ctx.idx (some arg))
                  (λ args k.
                    subst (λ x. Between given x (ctx.idx + 1) (ctx.argv + 1) (ctx.argc - 1)) (sym k)
                      (Between-keep given arg (ctx.argc - 1) (omega (arith, more)) e d p))))

    parse_option_next-Read :
        (options : List Opt) → Ensures (λ a. Read a.0 a.1) (parse_option_next env options ctx)
    unfolding parse_option_next
    parse_option_next-Read options =
        Ensures-bind (λ arg. get_elem? ctx.args ctx.argv ≡ some (some arg)) (λ a. Read a.0 a.1)
          (arg_at ctx ctx.argv) _ (arg_at-get_elem? ctx ctx.argv)
          (λ arg e.
            Ensures-if (λ a. Read a.0 a.1) (env.flags.one_shot && env.argc0 - ctx.argc == 1) _ _
              (λ h. (p, one_read (ground arith) (ground arith)))
              (λ h.
                Ensures-if (λ a. Read a.0 a.1) (not (is_dashed arg)) _ _
                  (λ d. non_option-Read arg e (ground arith))
                  (λ d.
                    Ensures-if (λ a. Read a.0 a.1)
                      (env.argc0 == 1
                        && (is_lone_h (behind_dash arg) && not env.flags.no_short_help))
                      _ _ (λ k. tt)
                      (λ k.
                        option_argument-Read arg e (ground arith) options (behind_dash arg) refl))))

  Read-done :
      (c : Context) (res : ParseResult) → is_done res ≡ true → Read res c → Parsing given (step c)
  unfolding is_done
  Read-done c parsing_done d r = r
  Read-done c parsing_complete d r = cc
  Read-done c parsing_help d r = cc
  Read-done c parsing_error d r = cc
  Read-done c parsing_non_option d r = cc
  Read-done c parsing_unknown d r = cc

  -- What holds behind the loop.
  abbrev Stopped : Context → Type 0
  Stopped c = Parsing given c × Stop env given c.argv c.argc

  options_stop-Stopped :
      (c : Context) (res : ParseResult)
      → is_done res ≡ false
      → Read res c
      → Ensures Stopped (options_stop c res)
  unfolding options_stop is_done
  options_stop-Stopped c parsing_complete d r = r
  options_stop-Stopped c parsing_done d r = cc
  options_stop-Stopped c parsing_help d r = tt
  options_stop-Stopped c parsing_error d r = tt
  options_stop-Stopped c parsing_non_option d r = tt
  options_stop-Stopped c parsing_unknown d r = tt

  options_loop-Stopped :
      (fuel : ℕ) (options : List Opt) (ctx : Context)
      → Parsing given ctx
      → Ensures Stopped (options_loop fuel env options ctx)
  unfolding options_loop
  options_loop-Stopped zero options ctx p =
      Ensures-if Stopped (ctx.argc == 0) _ _ (λ h. (p, all_read (ground arith))) (λ h. tt)
  options_loop-Stopped (suc fuel) options ctx p =
      (elim (ctx.argc == 0)
          as (λ b.
            (ctx.argc == 0) ≡ b
            → Ensures Stopped (elim b [
              | true ↦ ok ctx
              | false ↦ parse_option_next env options ctx >>= λ r. elim (is_done r.0) [
                | true ↦ options_loop fuel env options (step r.1)
                | false ↦ options_stop r.1 r.0
              ]
            ])) [
              | true ↦ λ e. (p, all_read (ground arith))
              | false ↦ λ e.
                  Ensures-bind (λ a. Read a.0 a.1) Stopped (parse_option_next env options ctx) _
                    (parse_option_next-Read ctx (ground arith) p options)
                    (λ a r.
                      (elim (is_done a.0)
                          as (λ b.
                            is_done a.0 ≡ b
                            → Ensures Stopped (elim b [
                              | true ↦ options_loop fuel env options (step a.1)
                              | false ↦ options_stop a.1 a.0
                            ])) [
                              | true ↦ λ d.
                                  options_loop-Stopped fuel options (step a.1)
                                    (Read-done a.1 a.0 d r)
                              | false ↦ λ d. options_stop-Stopped a.1 a.0 d r
                            ])
                        refl)
            ])
        refl

-- Whenever parse_options returns, for an array of argc arguments and a null pointer, the array
-- has as many cells and begins with the arguments that were kept: of those that were read all but
-- the options, which begin with a dash, and at most one argument behind each, its value. Then
-- come those that were not read, as they stood, and a null pointer where the answer says.
-- Arguments are left unread only behind one that is two dashes, before one without a leading dash
-- with PARSER_UNTIL_NON_OPTION, or behind one argument with PARSER_ONE_SHOT.
pub parse_options_lem :
    (env : Settings) (options : List Opt) (args : List Arg) (vars : List Value)
    → env.argc0 + 1 ≡ length args
    → Ensures (λ r. Leaves env args r.0 r.1) (parse_options env options args vars)
unfolding parse_options
parse_options_lem env options args vars h =
    Ensures-bind (λ m. Unit {0}) (λ r. Leaves env args r.0 r.1) (make_cmdmode_list vars options [])
      _ (Ensures-any _)
      (λ cmdmode u.
        Ensures-bind (λ c. Parsing args c × Stop env args c.argv c.argc)
          (λ r. Leaves env args r.0 r.1) _ _
          (options_loop-Stopped env args env.argc0 options _ (Between-start args env.argc0 h))
          (λ ctx p.
            Ensures-bind (λ r. Leaves env args r.0 r.1) (λ r. Leaves env args r.0 r.1)
              (keep_rest ctx) _ (keep_rest-Leaves env args ctx p.0 p.1) (λ r l. l)))
