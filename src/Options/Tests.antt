-- ===== src/Options/Tests.antt =====
-- The option parser at concrete inputs, and runs.
use pass_keeper.Prelude.{
  ℕ, ◌≡◌, ◌≢◌, refl, true, false, List, [], ◌∷◌, none, some, arith, ok, fault, ◌>>=◌, Ensures, load,
  store, copy_to, copy_from,
}
use pass_keeper.Options.{
  Opt, OptionFlags, Context, Settings, regular, option_countup, option_integer, int, parsing_done,
  parsing_error, get_arg, get_arg_uint, set_var, get_arg_value, get_arg_routine, is_refused,
  is_some, if_done, count_up, done_with, check_cmdmode, arg_at,
}
use pass_keeper.Options.Kept.{Arg, Leaves}
use pass_keeper.Options.Arguments.{parse_options_lem}
use pass_keeper.Options.Fuel.{switches, switch_round, switch_loop_ends}
use pass_keeper.Options.Rounds.{arguments, options_round, options_loop_ends}
use pass_keeper.Options.Conflicts.{get_arg-fails}
use pass_keeper.Options.Numbers.{get_arg_uint_lem, lone_dash}
use pass_keeper.Options.Plain.{argv_of, parse_options-plain}
use pass_keeper.Options.Exact.{exact_name}
use pass_keeper.Options.Long.{
  parse_long_option, fit, fit_opt, until_equal, fit_name, positive_name, is_group,
}
use pass_keeper.Options.Next.{
  parse_options, parse_option_next, options_loop, switch_loop, option_argument, non_option,
  is_dashed, behind_dash, is_lone_h, step, is_done, options_stop, finish, validate_parsed_value,
  parse_short_option, behind_first, keep_rest, make_cmdmode_list,
}
use pass_keeper.Text.{skip_prefix, starts_with}
use pass_keeper.Strtou.{is_digit}
use pass_keeper.Strtou.Numerals.{decimal}

abbrev no_flags : OptionFlags
no_flags = record {
  optarg = false;
  noarg = false;
  alloneg = false;
  realpath = false;
  is_unsigned = false;
  is_cmdmode = false;
  noemdash = false;
}

-- A counter, `-v` and `--verbose`.
abbrev verbose : Opt
verbose = record {
  type = option_countup;
  alias = b'v';
  name = some (b'v' ∷ b'e' ∷ b'r' ∷ []);
  value = 0;
  defval = int 0;
  flags = record no_flags { noarg = true };
}

-- An unsigned number without an alias.
abbrev size : Opt
size = record {
  type = option_integer;
  alias = 0;
  name = some (b's' ∷ b'i' ∷ []);
  value = 1;
  defval = int 0;
  flags = record no_flags { is_unsigned = true };
}

abbrev settings : ℕ → Settings
settings n = record {
  junk = 170;
  prefix = [];
  flags = record {
    abort_non_option = false;
    one_shot = false;
    until_non_option = false;
    no_short_help = false;
  };
  argc0 = n;
  stat = λ name. regular;
}

-- `a -vv b`
abbrev args : List Arg
args = some (b'a' ∷ []) ∷ some (b'-' ∷ b'v' ∷ b'v' ∷ []) ∷ some (b'b' ∷ []) ∷ none ∷ []

abbrev start : Context
start = record {
  argc = 3;
  argv = 0;
  args = args;
  idx = 0;
  optstr = none;
  cmdmode = [];
  vars = int 0 ∷ int 0 ∷ [];
}

parse_options_lem_example :
    Ensures
      (λ r. Leaves (settings 3) args r.0 r.1)
      (parse_options (settings 3) (verbose ∷ size ∷ []) args (int 0 ∷ int 0 ∷ []))
parse_options_lem_example =
    parse_options_lem (settings 3) (verbose ∷ size ∷ []) args (int 0 ∷ int 0 ∷ []) refl

-- The run: both switches count, and the other two arguments stay.
run_counts :
    parse_options (settings 3) (verbose ∷ size ∷ []) args (int 0 ∷ int 0 ∷ [])
    ≡ ok (2, some (b'a' ∷ []) ∷ some (b'b' ∷ []) ∷ none ∷ none ∷ [], int 2 ∷ int 0 ∷ [])
unfolding parse_options parse_option_next options_loop switch_loop option_argument non_option
    is_dashed behind_dash is_lone_h step is_done options_stop finish validate_parsed_value
    parse_short_option behind_first keep_rest make_cmdmode_list get_arg get_arg_routine
    get_arg_value is_refused is_some if_done check_cmdmode count_up done_with set_var arg_at load
    store copy_to copy_from
run_counts = refl

switch_loop_ends_example :
    switches (settings 3) (verbose ∷ []) start (some (b'v' ∷ [])) none
    ≡ switch_round
        (settings 3)
        (verbose ∷ [])
        (λ c. switches (settings 3) (verbose ∷ []) c c.optstr)
        start
        (some (b'v' ∷ []))
        none
switch_loop_ends_example =
    (switch_loop_ends (settings 3) (verbose ∷ [])).0 start (some (b'v' ∷ [])) none

options_loop_ends_example :
    arguments (settings 3) (verbose ∷ []) start
    ≡ options_round (settings 3) (verbose ∷ []) (arguments (settings 3) (verbose ∷ [])) start
options_loop_ends_example = (options_loop_ends (settings 3) (verbose ∷ [])).0 start

-- The list of one command mode, as make_cmdmode_list builds it.
abbrev in_mode : Context
in_mode = record start { cmdmode = record { val = int 0; valptr = 1; opt = none } ∷ [] }

get_arg-fails_example :
    Ensures
      (λ a. a.0 ≢ parsing_done)
      (get_arg (settings 3) in_mode verbose (record { is_short = true; unset = false }))
get_arg-fails_example =
    get_arg-fails (settings 3) in_mode verbose (record { is_short = true; unset = false })
      (omega arith)

-- `--si 42`
abbrev separate : Context
separate = record start {
  argc = 2;
  args = some (b'-' ∷ b'-' ∷ b's' ∷ b'i' ∷ []) ∷ some (b'4' ∷ b'2' ∷ []) ∷ none ∷ [];
}

get_arg_uint_lem_example :
    get_arg_uint separate size
    ≡ ok (parsing_error, record separate { argc = 1; argv = 1; vars = int 0 ∷ int 42 ∷ [] })
unfolding decimal is_digit
get_arg_uint_lem_example =
    get_arg_uint_lem separate size b'4' (b'2' ∷ []) [] (record separate { argc = 1; argv = 1 })
      (refl, (refl, tt)) tt (omega arith, refl, refl) (omega arith)

-- `-`
abbrev dash : Context
dash = record start { argc = 1; args = some (b'-' ∷ []) ∷ none ∷ [] }

lone_dash_example : parse_option_next (settings 1) (size ∷ []) dash ≡ fault
lone_dash_example = lone_dash (settings 1) (size ∷ []) dash refl refl refl

-- `--si=7`, with an option before it whose name does not fit.
exact_name_example :
    parse_long_option
      (settings 3)
      (b's' ∷ b'i' ∷ b'=' ∷ b'7' ∷ [])
      (verbose ∷ size ∷ [])
      (record { abbrev_option = none; is_ambiguous = false })
      start
    ≡ (get_arg
          (settings 3)
          (record start { optstr = some (b'7' ∷ []) })
          size
          (record { is_short = false; unset = false })
        >>= λ r. ok (r.0, r.1, some size))
unfolding is_group fit fit_opt fit_name positive_name skip_prefix starts_with until_equal
exact_name_example =
    exact_name (settings 3) size (verbose ∷ []) [] (b's' ∷ b'i' ∷ []) (some (b'7' ∷ []))
      (record { abbrev_option = none; is_ambiguous = false }) start refl refl refl
      (refl, (refl, tt)) (tt, tt)

parse_options-plain_example :
    parse_options (settings 2) (verbose ∷ []) (argv_of ((b'a' ∷ []) ∷ [] ∷ [])) (int 0 ∷ [])
    ≡ ok (2, argv_of ((b'a' ∷ []) ∷ [] ∷ []), int 0 ∷ [])
unfolding is_dashed
parse_options-plain_example =
    parse_options-plain (settings 2) (verbose ∷ []) (int 0 ∷ []) refl refl refl
      ((b'a' ∷ []) ∷ [] ∷ []) refl (refl, (refl, tt)) (refl, tt)
