-- ===== src/Options.antt =====
-- src/parse-option.h and src/parse-option.c: the options of a command, and how one of them takes its
-- argument. The variables that the options set stand in one array of values, an option's `value` is
-- a place in it; a string is its characters. Messages are not modelled.
pub mod Progress
pub mod Modes
pub mod Taking
pub mod Long
pub mod Next
pub mod Walk
pub mod Going
pub mod Kept
pub mod Rest
pub mod Arguments
pub mod Fuel
pub mod Rounds
pub mod Conflicts
pub mod Numbers
pub mod Exact
pub mod Plain
mod Tests
use pass_keeper.Prelude.{
  ℕ, zero, suc, ◌+◌, ◌-◌, ◌^◌, ◌%◌, Bool, true, false, not, ◌&&◌, ◌||◌, List, [], ◌∷◌, Option, none,
  some, Outcome, ok, bugged, fault, ◌>>=◌, if◌then◌else◌, ltb, ◌==◌, load, store,
}
use pass_keeper.Strtou.{strtou, Converted, converted}
use pass_keeper.Filesys.{prefix_filename}

pub data OptionType : Type 0 where
  option_group option_integer option_countup option_string option_filename : OptionType

pub record OptionFlags : Type 0 where
  pub optarg : Bool
  pub noarg : Bool
  pub alloneg : Bool
  pub realpath : Bool
  pub is_unsigned : Bool
  pub is_cmdmode : Bool
  pub noemdash : Bool

-- What a variable holds: the 32 bits of an int, or a pointer to a string.
pub data Value : Type 0 where
  int : ℕ → Value
  string : Option (List ℕ) → Value

-- `struct option`. An array of options ends where the list does, in place of OPTION_END.
pub record Opt : Type 0 where
  pub type : OptionType
  pub alias : ℕ
  pub name : Option (List ℕ)
  pub value : ℕ
  pub defval : Value
  pub flags : OptionFlags

pub record ParserFlags : Type 0 where
  pub abort_non_option : Bool
  pub one_shot : Bool
  pub until_non_option : Bool
  pub no_short_help : Bool

pub data ParseResult : Type 0 where
  parsing_complete parsing_help parsing_error parsing_done parsing_non_option parsing_unknown :
      ParseResult

-- `enum option_category`, bit by bit.
pub record Category : Type 0 where
  pub is_short : Bool
  pub unset : Bool

-- `opt` is none while malloc's memory is unset.
pub record CommandMode : Type 0 where
  pub val : Value
  pub valptr : ℕ
  pub opt : Option (Opt × Category)

-- The part of `struct parser_context` that changes, with the arrays behind its pointers: `argv` is a
-- place in `args`, which ends with a null pointer, and `out` its start.
pub record Context : Type 0 where
  pub argc : ℕ
  pub argv : ℕ
  pub args : List (Option (List ℕ))
  pub idx : ℕ
  pub optstr : Option (List ℕ)
  pub cmdmode : List CommandMode
  pub vars : List Value

pub data FileKind : Type 0 where
  missing directory regular : FileKind

-- What stays as it is, with the answers of stat().
pub record Settings : Type 0 where
  pub junk : ℕ
  pub prefix : List ℕ
  pub flags : ParserFlags
  pub argc0 : ℕ
  pub stat : List ℕ → FileKind

-- The string that a pointer in `args` points to.
unfoldable pub arg_at : Context → ℕ → Outcome (List ℕ)
arg_at ctx i = do cell ← load ctx.args i; elim cell [ none ↦ fault | some arg ↦ ok arg ]

-- The beginning of get_arg_str and get_arg_uint: the argument, if there is one, by optstr.
unfoldable pub take_arg : Context → Option (List ℕ) → Outcome (Option (List ℕ) × Context)
take_arg ctx (some arg) = ok (some arg, record ctx { optstr = none })
take_arg ctx none =
    if ltb 1 ctx.argc
    then (arg_at ctx (ctx.argv + 1) >>= λ arg.
        ok (some arg, record ctx { argc = ctx.argc - 1; argv = ctx.argv + 1 }))
    else ok (none, ctx)

unfoldable pub next_arg : Context → Outcome (Option (List ℕ) × Context)
next_arg ctx = take_arg ctx ctx.optstr

unfoldable pub set_var : Context → ℕ → Value → Outcome Context
set_var ctx i v = do vars' ← store ctx.vars i v; ok (record ctx { vars = vars' })

unfoldable pub get_arg_str : Context → Opt → Outcome (ParseResult × Context)
get_arg_str ctx opt = do
  (arg, ctx') ← next_arg ctx
  elim arg [
    | none ↦ ok (parsing_error, ctx')
    | some str ↦ set_var ctx' opt.value (string (some str)) >>= λ ctx''. ok (parsing_done, ctx'')
  ]

-- What follows strtou. errno is 0 where strtou answers 0.
unfoldable pub uint_answer : Context → Opt → Converted → Outcome (ParseResult × Context)
uint_answer ctx opt (converted n) = do
  ctx' ← set_var ctx opt.value (int n)
  ok (parsing_error, ctx')
uint_answer ctx opt _ = ok (parsing_done, ctx)

unfoldable pub get_arg_uint : Context → Opt → Outcome (ParseResult × Context)
get_arg_uint ctx opt = do
  (arg, ctx') ← next_arg ctx
  elim arg [ none ↦ ok (parsing_error, ctx') | some str ↦ uint_answer ctx' opt (strtou str) ]

unfoldable pub is_some : Option (List ℕ) → Bool
is_some none = false
is_some (some str) = true

-- The guards of get_arg_routine.
unfoldable pub is_refused : Context → Opt → Category → Bool
is_refused ctx opt category =
    category.unset && is_some ctx.optstr
    || category.unset && not opt.flags.alloneg
    || not category.is_short && (is_some ctx.optstr && opt.flags.noarg)

abbrev pub int_max : ℕ
int_max = 2 ^ 31 - 1

-- An int is its 32 bits; one more than INT_MAX is undefined.
unfoldable pub count_up : Context → Opt → Outcome Context
count_up ctx opt = do
  v ← load ctx.vars opt.value
  elim v [
    | int n ↦ if n == int_max then fault else set_var ctx opt.value (int ((n + 1) % 2 ^ 32))
    | string str ↦ fault
  ]

unfoldable pub get_filename : Settings → Context → Opt → Outcome (ParseResult × Context)
get_filename env ctx opt = do
  (arg, ctx') ← next_arg ctx
  elim arg [
    | none ↦ ok (parsing_error, ctx')
    | some str ↦ prefix_filename env.junk env.prefix str >>= λ path.
        set_var ctx' opt.value (string (some path)) >>= λ ctx''. ok (parsing_done, ctx'')
  ]

unfoldable pub done_with : Outcome Context → Outcome (ParseResult × Context)
done_with r = r >>= λ ctx. ok (parsing_done, ctx)

-- The switch of get_arg_routine, by the type of the option.
unfoldable pub get_arg_value :
    Settings → Context → Opt → Category → OptionType → Outcome (ParseResult × Context)
get_arg_value env ctx opt category option_group = bugged
get_arg_value env ctx opt category option_integer =
    if opt.flags.is_unsigned
    then get_arg_uint ctx opt
    else done_with (set_var ctx opt.value (if category.unset then int 0 else opt.defval))
get_arg_value env ctx opt category option_countup = done_with (count_up ctx opt)
get_arg_value env ctx opt category option_string =
    if category.unset
    then done_with (set_var ctx opt.value (string none))
    else if opt.flags.optarg && not (is_some ctx.optstr)
    then done_with (set_var ctx opt.value opt.defval)
    else get_arg_str ctx opt
get_arg_value env ctx opt category option_filename = get_filename env ctx opt

unfoldable pub get_arg_routine :
    Settings → Context → Opt → Category → Outcome (ParseResult × Context)
get_arg_routine env ctx opt category =
    if is_refused ctx opt category
    then ok (parsing_error, ctx)
    else get_arg_value env ctx opt category opt.type

unfoldable pub same_value : Value → Value → Bool
same_value (int m) (int n) = m == n
same_value _ _ = false

-- One node of the loop of verify_cmdmode: true stops it. Reading a pointer that malloc left unset is
-- undefined.
unfoldable pub verify_node : Context → Opt → Category → CommandMode → Outcome (Bool × CommandMode)
verify_node ctx opt category node = do
  now ← load ctx.vars node.valptr
  (if same_value now node.val then ok (false, node) else elim node.opt [
    | none ↦ fault
    | some previous ↦
        if previous.0.flags.is_cmdmode || opt.flags.is_cmdmode
        then ok (true, node)
        else ok (false, record node { opt = some (opt, category); val = now })
  ])

-- The option that the report names, behind the loop.
unfoldable pub report_conflict : CommandMode → Outcome ParseResult
report_conflict node = elim node.opt [ none ↦ fault | some previous ↦ ok parsing_error ]

-- list_for_each stops at the last node, with `iter` on it, so that `iter` is null for no list.
unfoldable pub verify_cmdmode :
    Context → Opt → Category → List CommandMode → Outcome (ParseResult × List CommandMode)
verify_cmdmode ctx opt category [] = fault
verify_cmdmode ctx opt category (node ∷ []) = do
  answer ← report_conflict node
  ok (answer, node ∷ [])
verify_cmdmode ctx opt category (node ∷ (next ∷ nodes)) = do
  (stop, node') ← verify_node ctx opt category node
  elim stop [
    | true ↦ report_conflict node' >>= λ answer. ok (answer, node' ∷ (next ∷ nodes))
    | false ↦ verify_cmdmode ctx opt category (next ∷ nodes) >>= λ r. ok (r.0, node' ∷ r.1)
  ]

-- What get_arg does once the argument is taken.
unfoldable pub check_cmdmode :
    Context → Opt → Category → List CommandMode → Outcome (ParseResult × Context)
check_cmdmode ctx opt category [] = ok (parsing_done, ctx)
check_cmdmode ctx opt category (node ∷ nodes) = do
  (answer, modes) ← verify_cmdmode ctx opt category (node ∷ nodes)
  ok (answer, record ctx { cmdmode = modes })

-- What follows get_arg_routine.
unfoldable pub if_done : Context → Opt → Category → ParseResult → Outcome (ParseResult × Context)
if_done ctx opt category parsing_done = check_cmdmode ctx opt category ctx.cmdmode
if_done ctx opt category res = ok (res, ctx)

unfoldable pub get_arg : Settings → Context → Opt → Category → Outcome (ParseResult × Context)
get_arg env ctx opt category = do
  (res, ctx') ← get_arg_routine env ctx opt category
  if_done ctx' opt category res
