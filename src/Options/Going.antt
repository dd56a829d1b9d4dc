-- ===== src/Options/Going.antt =====
-- src/parse-option.c: an option never answers PARSING_COMPLETE.
use pass_keeper.Prelude.{
  ℕ, zero, suc, true, false, not, ◌&&◌, List, Option, none, some, Outcome, ok, fault, load, Ensures,
  Ensures-bind, Ensures-any, Ensures-if,
}
use pass_keeper.Options.{
  Opt, Context, Settings, Value, int, string, FileKind, missing, directory, regular, ParseResult,
  parsing_done, parsing_error, parsing_complete, parsing_help, parsing_non_option, parsing_unknown,
}
use pass_keeper.Options.Long.{parse_long_option}
use pass_keeper.Options.Next.{
  first_char, is_h, check_file, parse_short_option, validate_parsed_value, finish, is_done,
  switch_stop, switch_loop, long_answer, long_option,
}

abbrev pub Continues : ParseResult → Type 0
Continues parsing_complete = ⊥
Continues _ = Unit

abbrev Goes : Outcome (ParseResult × Context) → Type 0
Goes r = Ensures (λ a. Continues a.0) r

check_file-Continues : (kind : FileKind) → Continues (check_file kind)
unfolding check_file
check_file-Continues missing = tt
check_file-Continues directory = tt
check_file-Continues regular = tt

module _ (env : Settings) where
  file-Continues :
      (v : Value)
      → Ensures Continues (elim v as (λ v. Outcome ParseResult) [
        | string path ↦ elim path [ some name ↦ ok (check_file (env.stat name)) | none ↦ fault ]
        | int n ↦ fault
      ])
  file-Continues (int n) = tt
  file-Continues (string none) = tt
  file-Continues (string (some name)) = check_file-Continues (env.stat name)

  validate-Continues :
      (ctx : Context) (parsed : Option Opt)
      → Ensures Continues (validate_parsed_value env ctx parsed)
  unfolding validate_parsed_value
  validate-Continues ctx none = tt
  validate-Continues ctx (some opt) =
      Ensures-if Continues opt.flags.realpath _ _
        (λ h.
          Ensures-bind (λ v. Unit {0}) Continues (load ctx.vars opt.value) _ (Ensures-any _)
            (λ v u. file-Continues v))
        (λ h. tt)

  finish-Goes : (ctx : Context) (parsed : Option Opt) → Goes (finish env ctx parsed)
  unfolding finish
  finish-Goes ctx parsed =
      Ensures-bind Continues (λ a. Continues a.0) (validate_parsed_value env ctx parsed) _
        (validate-Continues ctx parsed) (λ a h. h)

  switch_stop-Goes :
      (str : List ℕ) (ctx : Context) (res : ParseResult) → Goes (switch_stop env str ctx res)
  unfolding switch_stop
  switch_stop-Goes str ctx parsing_error = tt
  switch_stop-Goes str ctx parsing_unknown =
      Ensures-if (λ a. Continues a.0) (is_h (first_char str) && not env.flags.no_short_help) _ _
        (λ h. tt) (λ h. tt)
  switch_stop-Goes str ctx parsing_complete = tt
  switch_stop-Goes str ctx parsing_help = tt
  switch_stop-Goes str ctx parsing_done = tt
  switch_stop-Goes str ctx parsing_non_option = tt

  pub switch_loop-Goes :
      (fuel : ℕ) (options : List Opt) (ctx : Context) (optstr : Option (List ℕ))
      (parsed : Option Opt)
      → Goes (switch_loop fuel env options ctx optstr parsed)
  unfolding switch_loop
  switch_loop-Goes zero options ctx optstr parsed = tt
  switch_loop-Goes (suc fuel) options ctx none parsed = finish-Goes ctx parsed
  switch_loop-Goes (suc fuel) options ctx (some str) parsed =
      Ensures-bind (λ r. Unit {0}) (λ a. Continues a.0) (parse_short_option env str options ctx) _
        (Ensures-any _)
        (λ r u.
          elim (is_done r.0)
            as (λ b. Goes (elim b [
              | true ↦ switch_loop fuel env options r.1 r.1.optstr r.2
              | false ↦ switch_stop env str r.1 r.0
            ])) [
              | true ↦ switch_loop-Goes fuel options r.1 r.1.optstr r.2
              | false ↦ switch_stop-Goes str r.1 r.0
            ])

  long_answer-Goes :
      (ctx : Context) (parsed : Option Opt) (res : ParseResult)
      → Goes (long_answer env ctx parsed res)
  unfolding long_answer
  long_answer-Goes ctx parsed parsing_done = finish-Goes ctx parsed
  long_answer-Goes ctx parsed parsing_error = tt
  long_answer-Goes ctx parsed parsing_help = tt
  long_answer-Goes ctx parsed parsing_unknown = tt
  long_answer-Goes ctx parsed parsing_complete = tt
  long_answer-Goes ctx parsed parsing_non_option = tt

  pub long_option-Goes :
      (options : List Opt) (argstr : List ℕ) (ctx : Context)
      → Goes (long_option env options argstr ctx)
  unfolding long_option
  long_option-Goes options argstr ctx =
      Ensures-bind (λ r. Unit {0}) (λ a. Continues a.0) (parse_long_option env argstr options _ ctx)
        _ (Ensures-any _) (λ r u. long_answer-Goes r.1 r.2 r.0)
