-- ===== src/Options/Next.antt =====
-- src/parse-option.c: parse_short_option, parse_option_next and parse_options.
use pass_keeper.Prelude.{
  ℕ, zero, suc, ◌+◌, ◌-◌, Bool, true, false, not, ◌&&◌, List, [], ◌∷◌, Option, none, some, Outcome,
  ok, bugged, exited, fault, ◌>>=◌, if◌then◌else◌, ◌==◌, length, load, store, copy_to, copy_from,
}
use pass_keeper.Options.{
  Opt, Category, Context, CommandMode, Settings, Value, int, string, FileKind, missing, directory,
  regular, ParseResult, parsing_complete, parsing_help, parsing_error, parsing_done,
  parsing_non_option, parsing_unknown, get_arg, arg_at,
}
use pass_keeper.Options.Long.{parse_long_option}

abbrev pub short_category : Category
short_category = record { is_short = true; unset = false }

-- `*str`, the NUL at the end included.
abbrev pub first_char : List ℕ → ℕ
first_char [] = 0
first_char (c ∷ str) = c

-- `ctx->optstr[1] ? ctx->optstr + 1 : NULL`; behind the NUL nothing may be read.
unfoldable pub behind_first : List ℕ → Outcome (Option (List ℕ))
behind_first [] = fault
behind_first (c ∷ []) = ok none
behind_first (c ∷ (d ∷ str)) = ok (some (d ∷ str))

-- `str` is what optstr points to.
unfoldable pub parse_short_option :
    Settings → List ℕ → List Opt → Context → Outcome (ParseResult × Context × Option Opt)
parse_short_option env str [] ctx = ok (parsing_unknown, ctx, none)
parse_short_option env str (opt ∷ options) ctx = elim (opt.alias == first_char str) [
  | true ↦ behind_first str >>= λ rest.
      get_arg env (record ctx { optstr = rest }) opt short_category >>= λ r. ok (r.0, r.1, some opt)
  | false ↦ parse_short_option env str options ctx
]

-- What S_ISDIR and stat() say of the file.
unfoldable pub check_file : FileKind → ParseResult
check_file missing = parsing_error
check_file directory = parsing_error
check_file regular = parsing_done

unfoldable pub validate_parsed_value : Settings → Context → Option Opt → Outcome ParseResult
validate_parsed_value env ctx none = fault
validate_parsed_value env ctx (some opt) =
    if opt.flags.realpath
    then (do
      v ← load ctx.vars opt.value
      elim v [
        | string path ↦ elim path [ some name ↦ ok (check_file (env.stat name)) | none ↦ fault ]
        | int n ↦ fault
      ])
    else ok parsing_done

-- At `finish`.
unfoldable pub finish : Settings → Context → Option Opt → Outcome (ParseResult × Context)
finish env ctx parsed = do answer ← validate_parsed_value env ctx parsed; ok (answer, ctx)

unfoldable pub is_h : ℕ → Bool
is_h c = c == b'h'

-- What the loop over the switches does when one is not taken.
unfoldable pub switch_stop :
    Settings → (str : List ℕ) → Context → ParseResult → Outcome (ParseResult × Context)
switch_stop env str ctx parsing_error = ok (parsing_error, ctx)
switch_stop env str ctx parsing_unknown =
    if is_h (first_char str) && not env.flags.no_short_help
    then ok (parsing_help, ctx)
    else ok (parsing_unknown, ctx)
switch_stop env str ctx _ = bugged

unfoldable pub is_done : ParseResult → Bool
is_done parsing_done = true
is_done _ = false

-- The loop over the switches of one argument, by optstr. Each round takes a character off it, so one
-- more round than it has is enough.
unfoldable pub switch_loop :
    (fuel : ℕ)
    → Settings
    → List Opt
    → Context
    → (optstr : Option (List ℕ)) → Option Opt
    → Outcome (ParseResult × Context)
switch_loop zero env options ctx optstr parsed = fault
switch_loop (suc fuel) env options ctx none parsed = finish env ctx parsed
switch_loop (suc fuel) env options ctx (some str) parsed = do
  (res, ctx', parsed') ← parse_short_option env str options ctx
  elim (is_done res) [
    | true ↦ switch_loop fuel env options ctx' ctx'.optstr parsed'
    | false ↦ switch_stop env str ctx' res
  ]

-- "help"
unfoldable pub is_help : List ℕ → Bool
is_help (c ∷ (d ∷ (e ∷ (f ∷ [])))) = c == b'h' && (d == b'e' && (e == b'l' && f == b'p'))
is_help _ = false

-- What follows parse_long_option.
unfoldable pub long_answer :
    Settings → Context → Option Opt → ParseResult → Outcome (ParseResult × Context)
long_answer env ctx parsed parsing_done = finish env ctx parsed
long_answer env ctx parsed parsing_error = ok (parsing_error, ctx)
long_answer env ctx parsed parsing_help = ok (parsing_help, ctx)
long_answer env ctx parsed parsing_unknown = ok (parsing_unknown, ctx)
long_answer env ctx parsed _ = bugged

unfoldable pub long_option :
    Settings → List Opt → List ℕ → Context → Outcome (ParseResult × Context)
long_option env options argstr ctx = do
  (res, ctx', parsed) ←
      parse_long_option env argstr options (record { abbrev_option = none; is_ambiguous = false })
        ctx
  long_answer env ctx' parsed res

-- An argument that begins with two dashes, by what stands behind them.
unfoldable pub dashed_option :
    Settings → List Opt → List ℕ → Context → Outcome (ParseResult × Context)
dashed_option env options [] ctx =
    ok (parsing_complete, record ctx { argc = ctx.argc - 1; argv = ctx.argv + 1 })
dashed_option env options (c ∷ argstr) ctx =
    if is_help (c ∷ argstr)
    then ok (parsing_help, ctx)
    else long_option env options (c ∷ argstr) ctx

-- An argument that begins with a dash, by what stands behind it.
unfoldable pub option_argument :
    Settings → List Opt → List ℕ → Context → Outcome (ParseResult × Context)
option_argument env options [] ctx =
    switch_loop 1 env options (record ctx { optstr = some [] }) (some []) none
option_argument env options (c ∷ argstr) ctx =
    if c == b'-'
    then dashed_option env options argstr ctx
    else switch_loop (suc (length (c ∷ argstr))) env options
        (record ctx { optstr = some (c ∷ argstr) }) (some (c ∷ argstr)) none

unfoldable pub non_option : Settings → Context → List ℕ → Outcome (ParseResult × Context)
non_option env ctx arg =
    if env.flags.abort_non_option
    then ok (parsing_non_option, ctx)
    else if env.flags.until_non_option
    then ok (parsing_complete, ctx)
    else (do
      args' ← store ctx.args ctx.idx (some arg)
      ok (parsing_done, record ctx { args = args'; idx = ctx.idx + 1 }))

-- "-h" and nothing else.
unfoldable pub is_lone_h : List ℕ → Bool
is_lone_h (c ∷ []) = is_h c
is_lone_h _ = false

-- Whether an argument is no option.
unfoldable pub is_dashed : List ℕ → Bool
is_dashed [] = false
is_dashed (c ∷ argstr) = c == b'-'

-- The argument behind its first character.
unfoldable pub behind_dash : List ℕ → List ℕ
behind_dash [] = []
behind_dash (c ∷ argstr) = argstr

unfoldable pub parse_option_next : Settings → List Opt → Context → Outcome (ParseResult × Context)
parse_option_next env options ctx = do
  arg ← arg_at ctx ctx.argv
  (if env.flags.one_shot && env.argc0 - ctx.argc == 1
      then ok (parsing_complete, ctx)
      else if not (is_dashed arg)
      then non_option env ctx arg
      else if env.argc0 == 1 && (is_lone_h (behind_dash arg) && not env.flags.no_short_help)
      then ok (parsing_help, ctx)
      else option_argument env options (behind_dash arg) ctx)

-- The list is built from its end; the walk to the last node has no effect.
unfoldable pub make_cmdmode_list :
    List Value → List Opt → List CommandMode → Outcome (List CommandMode)
make_cmdmode_list vars [] cmdmode = ok cmdmode
make_cmdmode_list vars (opt ∷ options) cmdmode = elim opt.flags.is_cmdmode [
  | false ↦ make_cmdmode_list vars options cmdmode
  | true ↦ load vars opt.value >>= λ now.
      make_cmdmode_list vars options
        (record { val = now; valptr = opt.value; opt = none } ∷ cmdmode)
]

-- `ctx.argc--; ctx.argv++`
unfoldable pub step : Context → Context
step ctx = record ctx { argc = ctx.argc - 1; argv = ctx.argv + 1 }

-- What the loop of parse_options does with an answer other than PARSING_DONE.
unfoldable pub options_stop : Context → ParseResult → Outcome Context
options_stop ctx parsing_complete = ok ctx
options_stop ctx _ = exited

-- The loop of parse_options: each round takes an argument or more.
unfoldable pub options_loop : (fuel : ℕ) → Settings → List Opt → Context → Outcome Context
options_loop zero env options ctx = if ctx.argc == 0 then ok ctx else fault
options_loop (suc fuel) env options ctx = elim (ctx.argc == 0) [
  | true ↦ ok ctx
  | false ↦ parse_option_next env options ctx >>= λ r. elim (is_done r.0) [
    | true ↦ options_loop fuel env options (step r.1)
    | false ↦ options_stop r.1 r.0
  ]
]

-- What follows the loop: the arguments that are left move behind those that were kept, and the
-- answer is how many there are.
unfoldable pub keep_rest : Context → Outcome (ℕ × List (Option (List ℕ)))
keep_rest ctx = do
  rest ← copy_from ctx.args ctx.argv ctx.argc
  args' ← copy_to ctx.args ctx.idx rest
  args'' ← store args' (ctx.idx + ctx.argc) none
  ok (ctx.idx + ctx.argc, args'')

-- The number of arguments, their array, and the variables. `argv` has argc arguments and a null
-- pointer.
unfoldable pub parse_options :
    Settings
    → List Opt
    → List (Option (List ℕ))
    → List Value
    → Outcome (ℕ × List (Option (List ℕ)) × List Value)
parse_options env options args vars = do
  cmdmode ← make_cmdmode_list vars options []
  ctx ← options_loop env.argc0 env options (record {
    argc = env.argc0;
    argv = 0;
    args = args;
    idx = 0;
    optstr = none;
    cmdmode = cmdmode;
    vars = vars;
  })
  (n, args') ← keep_rest ctx
  ok (n, args', ctx.vars)
