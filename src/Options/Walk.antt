-- ===== src/Options/Walk.antt =====
-- How far a whole argument with its options moves along the arguments.
use pass_keeper.Prelude.{
  ◌≡◌, refl, ℕ, zero, suc, Bool, true, false, not, ◌&&◌, List, [], ◌∷◌, Option, none, some, Outcome,
  ok, ◌>>=◌, Ensures, Ensures-bind, Ensures-any, Ensures-if, Ensures-map, ◌==◌,
}
use pass_keeper.Options.{
  Opt, Category, Context, Settings, ParseResult, parsing_done, parsing_error, parsing_complete,
  parsing_help, parsing_non_option, parsing_unknown, get_arg,
}
use pass_keeper.Options.Progress.{
  Advance, Unmoved, Advance-refl, Advance-from, Advance-Unmoved, Unmoved-Advance, Unmoved-refl,
  Unmoved-still, Moves,
}
use pass_keeper.Options.Taking.{get_arg-Moves}
use pass_keeper.Options.Long.{
  Abbreviations, unfit, abbreviated, named, fit, finish_long, set_optstr, value_after, from_equal,
  long_category, parse_long_option,
}
use pass_keeper.Options.Next.{
  behind_first, first_char, short_category, parse_short_option, validate_parsed_value, finish, is_h,
  is_done, switch_stop, switch_loop, long_answer, long_option,
}

-- The answer, with the option taken, stands further on.
abbrev MovesOpt : Context → Outcome (ParseResult × Context × Option Opt) → Type 0
MovesOpt ctx r = Ensures (λ a. Advance ctx a.1) r

module _ (env : Settings) where
  with_opt-MovesOpt :
      (ctx c : Context) (opt : Opt) (category : Category)
      → Unmoved ctx c
      → MovesOpt ctx (get_arg env c opt category >>= λ r. ok (r.0, r.1, some opt))
  with_opt-MovesOpt ctx c opt category p =
      Ensures-bind (λ a. Advance c a.1) (λ a. Advance ctx a.1) (get_arg env c opt category) _
        (get_arg-Moves env c opt category) (λ a q. Advance-from ctx c a.1 p q)

  parse_short_option-MovesOpt :
      (str : List ℕ) (options : List Opt) (ctx : Context)
      → MovesOpt ctx (parse_short_option env str options ctx)
  unfolding parse_short_option
  parse_short_option-MovesOpt str [] ctx = Advance-refl ctx
  parse_short_option-MovesOpt str (opt ∷ options) ctx =
      elim (opt.alias == first_char str)
        as (λ b. MovesOpt ctx (elim b [
          | true ↦ behind_first str >>= λ rest.
              get_arg env (record ctx { optstr = rest }) opt short_category >>= λ r.
              ok (r.0, r.1, some opt)
          | false ↦ parse_short_option env str options ctx
        ])) [
          | true ↦
              Ensures-bind (λ rest. Unit {0}) (λ a. Advance ctx a.1) (behind_first str) _
                (Ensures-any _)
                (λ rest h.
                  with_opt-MovesOpt ctx _ opt short_category
                    (Unmoved-still ctx rest ctx.cmdmode ctx.vars))
          | false ↦ parse_short_option-MovesOpt str options ctx
        ]

  finish-Moves :
      (ctx c : Context) (parsed : Option Opt) → Advance ctx c → Moves ctx (finish env c parsed)
  unfolding finish
  finish-Moves ctx c parsed p =
      Ensures-bind (λ a. Unit {0}) (λ a. Advance ctx a.1) (validate_parsed_value env c parsed) _
        (Ensures-any _) (λ a h. p)

  switch_stop-Moves :
      (str : List ℕ) (ctx c : Context) (res : ParseResult)
      → Advance ctx c
      → Moves ctx (switch_stop env str c res)
  unfolding switch_stop
  switch_stop-Moves str ctx c parsing_error p = p
  switch_stop-Moves str ctx c parsing_unknown p =
      Ensures-if (λ a. Advance ctx a.1) (is_h (first_char str) && not env.flags.no_short_help) _ _
        (λ h. p) (λ h. p)
  switch_stop-Moves str ctx c parsing_complete p = tt
  switch_stop-Moves str ctx c parsing_help p = tt
  switch_stop-Moves str ctx c parsing_done p = tt
  switch_stop-Moves str ctx c parsing_non_option p = tt

  MovesOpt-then :
      (ctx : Context) (m : Outcome (ParseResult × Context × Option Opt))
      (f : ParseResult × Context × Option Opt → Outcome (ParseResult × Context))
      → MovesOpt ctx m
      → ((res : ParseResult) (c : Context) (parsed : Option Opt)
          → Advance ctx c
          → Moves ctx (f (res, c, parsed)))
      → Moves ctx (m >>= f)
  MovesOpt-then ctx m f h k =
      Ensures-bind (λ a. Advance ctx a.1) (λ b. Advance ctx b.1) m f h (λ a p. k a.0 a.1 a.2 p)

  -- Where switches are left, nothing was taken before.
  switches_left :
      (fuel : ℕ) (options : List Opt) (ctx c : Context) (optstr : Option (List ℕ))
      (parsed : Option Opt)
      → Advance ctx c
      → c.optstr ≡ optstr
      → ((str : List ℕ) → Moves c (switch_loop fuel env options c (some str) parsed))
      → Moves ctx (switch_loop fuel env options c optstr parsed)
  unfolding switch_loop
  switches_left zero options ctx c none parsed p e more = tt
  switches_left (suc fuel) options ctx c none parsed p e more = finish-Moves ctx c parsed p
  switches_left fuel options ctx c (some str) parsed p e more =
      Ensures-map (λ a. Advance c a.1) (λ a. Advance ctx a.1) _ (more str)
        (λ a q. Advance-from ctx c a.1 (Advance-Unmoved ctx c p (p.attached str e)) q)

  pub switch_loop-Moves :
      (fuel : ℕ) (options : List Opt) (ctx : Context) (optstr : Option (List ℕ))
      (parsed : Option Opt)
      → Moves ctx (switch_loop fuel env options ctx optstr parsed)
  unfolding switch_loop
  switch_loop-Moves zero options ctx optstr parsed = tt
  switch_loop-Moves (suc fuel) options ctx none parsed =
      finish-Moves ctx ctx parsed (Advance-refl ctx)
  switch_loop-Moves (suc fuel) options ctx (some str) parsed =
      MovesOpt-then ctx (parse_short_option env str options ctx)
        (λ r. elim (is_done r.0) [
          | true ↦ switch_loop fuel env options r.1 r.1.optstr r.2
          | false ↦ switch_stop env str r.1 r.0
        ])
        (parse_short_option-MovesOpt str options ctx)
        (λ res c parsed' p.
          elim (is_done res)
            as (λ b. Moves {A = ParseResult} ctx (elim b [
              | true ↦ switch_loop fuel env options c c.optstr parsed'
              | false ↦ switch_stop env str c res
            ])) [
              | true ↦
                  switches_left fuel options ctx c c.optstr parsed' p refl
                    (λ str'. switch_loop-Moves fuel options c (some str') parsed')
              | false ↦ switch_stop-Moves str ctx c res p
            ])

  set_optstr-Unmoved :
      (value : List ℕ) (unset : Bool) (ctx : Context) → Unmoved ctx (set_optstr value unset ctx)
  unfolding set_optstr
  set_optstr-Unmoved [] unset ctx = Unmoved-refl ctx
  set_optstr-Unmoved (c ∷ value) true ctx = Unmoved-refl ctx
  set_optstr-Unmoved (c ∷ value) false ctx = Unmoved-still ctx (some value) ctx.cmdmode ctx.vars

  value_after-Unmoved : (value : List ℕ) (ctx : Context) → Unmoved ctx (value_after value ctx)
  unfolding value_after
  value_after-Unmoved [] ctx = Unmoved-refl ctx
  value_after-Unmoved (c ∷ value) ctx = Unmoved-still ctx (some value) ctx.cmdmode ctx.vars

  finish_long-MovesOpt :
      (argstr : List ℕ) (found : Abbreviations) (ctx : Context)
      → MovesOpt ctx (finish_long env argstr found ctx)
  unfolding finish_long
  finish_long-MovesOpt argstr found ctx =
      Ensures-if (λ a. Advance ctx a.1) found.is_ambiguous _ _ (λ h. Advance-refl ctx)
        (λ h.
          elim found.abbrev_option
            as (λ o. MovesOpt ctx (elim o [
              | some abbrev_option ↦ get_arg env ctx abbrev_option.0 abbrev_option.1 >>= λ r.
                  ok (r.0, r.1, some abbrev_option.0)
              | none ↦ ok (parsing_unknown, record ctx { optstr = some argstr }, none)
            ])) [
              | some found ↦ with_opt-MovesOpt ctx ctx found.0 found.1 (Unmoved-refl ctx)
              | none ↦ Unmoved-Advance ctx _ (Unmoved-still ctx (some argstr) ctx.cmdmode ctx.vars)
            ])

  parse_long_option-MovesOpt :
      (argstr : List ℕ) (options : List Opt) (found : Abbreviations) (ctx : Context)
      → MovesOpt ctx (parse_long_option env argstr options found ctx)
  unfolding parse_long_option
  parse_long_option-MovesOpt argstr [] found ctx = finish_long-MovesOpt argstr found ctx
  parse_long_option-MovesOpt argstr (opt ∷ options) found ctx =
      Ensures-bind (λ how. Unit {0}) (λ a. Advance ctx a.1) (fit argstr opt) _ (Ensures-any _)
        (elim [
          | unfit ↦ λ h. parse_long_option-MovesOpt argstr options found ctx
          | abbreviated arg_unset opt_unset ↦ λ h.
              let c : Context = set_optstr (from_equal argstr) arg_unset ctx in
              Ensures-map (λ a. Advance c a.1) (λ a. Advance ctx a.1) _
                (parse_long_option-MovesOpt argstr options _ c)
                (λ a q.
                  Advance-from ctx c a.1 (set_optstr-Unmoved (from_equal argstr) arg_unset ctx) q)
          | named rest arg_unset opt_unset ↦ λ h.
              with_opt-MovesOpt ctx _ opt (long_category arg_unset opt_unset)
                (value_after-Unmoved rest ctx)
        ])

  long_answer-Moves :
      (ctx c : Context) (parsed : Option Opt) (res : ParseResult)
      → Advance ctx c
      → Moves ctx (long_answer env c parsed res)
  unfolding long_answer
  long_answer-Moves ctx c parsed parsing_done p = finish-Moves ctx c parsed p
  long_answer-Moves ctx c parsed parsing_error p = p
  long_answer-Moves ctx c parsed parsing_help p = p
  long_answer-Moves ctx c parsed parsing_unknown p = p
  long_answer-Moves ctx c parsed parsing_complete p = tt
  long_answer-Moves ctx c parsed parsing_non_option p = tt

  pub long_option-Moves :
      (options : List Opt) (argstr : List ℕ) (ctx : Context)
      → Moves ctx (long_option env options argstr ctx)
  unfolding long_option
  long_option-Moves options argstr ctx =
      MovesOpt-then ctx (parse_long_option env argstr options _ ctx) _
        (parse_long_option-MovesOpt argstr options _ ctx)
        (λ res c parsed p. long_answer-Moves ctx c parsed res p)
