-- ===== src/Options/Long.antt =====
-- src/parse-option.c: parse_long_option, on the text behind the two dashes.
use pass_keeper.Prelude.{
  ℕ, Bool, true, false, not, ◌&&◌, ◌||◌, List, [], ◌∷◌, Option, none, some, Outcome, ok, fault,
  ◌>>=◌, if◌then◌else◌, ◌==◌, drop,
}
use pass_keeper.Text.{starts_with, skip_prefix}
use pass_keeper.Options.{
  Opt, OptionType, option_group, Category, Context, Settings, ParseResult, parsing_help,
  parsing_unknown, get_arg,
}

-- strchrnul(argstr, '=')
unfoldable pub from_equal : List ℕ → List ℕ
from_equal [] = []
from_equal (c ∷ str) = if c == b'=' then c ∷ str else from_equal str

-- What stands before it.
unfoldable pub until_equal : List ℕ → List ℕ
until_equal [] = []
until_equal (c ∷ str) = if c == b'=' then [] else c ∷ until_equal str

-- "no-"
abbrev pub no_dash : List ℕ
no_dash = b'n' ∷ b'o' ∷ b'-' ∷ []

unfoldable pub is_group : OptionType → Bool
is_group option_group = true
is_group _ = false

-- How one option fits the text: not, by an abbreviation, or by its name with `rest` behind it. The
-- Booleans are the bits UNSET_OPTION of arg_category and opt_category.
pub data Fit : Type 0 where
  unfit : Fit
  abbreviated : (arg_unset opt_unset : Bool) → Fit
  named : (rest : List ℕ) → (arg_unset opt_unset : Bool) → Fit

-- The name to compare with, and the bit of opt_category.
unfoldable pub positive_name : List ℕ → Opt → List ℕ → List ℕ × Bool
positive_name argstr opt name =
    if not (starts_with argstr no_dash) && opt.flags.alloneg
    then elim (skip_prefix name no_dash) [ none ↦ (name, false) | some rest ↦ (rest, true) ]
    else (name, false)

-- `option written in form xxx=xxx?`
unfoldable pub named_if_ended : List ℕ → Bool → Bool → Fit
named_if_ended [] arg_unset opt_unset = named [] arg_unset opt_unset
named_if_ended (c ∷ rest) arg_unset opt_unset =
    if c == b'=' then named (c ∷ rest) arg_unset opt_unset else unfit

-- The text behind "no-", where the text itself is neither the name nor short for it.
unfoldable pub fit_negated : List ℕ → List ℕ → Bool → Fit
fit_negated argstr optname opt_unset =
    if starts_with no_dash argstr
    then abbreviated true opt_unset
    else if not (starts_with argstr no_dash)
    then unfit
    else elim (skip_prefix (drop 3 argstr) optname) [
      | some rest ↦ named_if_ended rest true opt_unset
      | none ↦ if starts_with optname (drop 3 argstr) then abbreviated true opt_unset else unfit
    ]

-- The body of the loop up to the jumps. strncmp compares as far as the first =.
unfoldable pub fit_name : List ℕ → Opt → List ℕ → Bool → Fit
fit_name argstr opt optname opt_unset = elim (skip_prefix argstr optname) [
  | some rest ↦ named_if_ended rest false opt_unset
  | none ↦
      if starts_with optname (until_equal argstr)
      then abbreviated false opt_unset
      else if not opt.flags.alloneg
      then unfit
      else fit_negated argstr optname opt_unset
]

unfoldable pub fit_opt : List ℕ → Opt → (name : Option (List ℕ)) → Outcome Fit
fit_opt argstr opt none = fault
fit_opt argstr opt (some name) =
    let target = positive_name argstr opt name in ok (fit_name argstr opt target.0 target.1)

unfoldable pub fit : List ℕ → Opt → Outcome Fit
fit argstr opt =
    if is_group opt.type || opt.flags.noemdash then ok unfit else fit_opt argstr opt opt.name

unfoldable pub xor : Bool → Bool → Bool
xor a b = if a then not b else b

abbrev pub long_category : Bool → Bool → Category
long_category arg_unset opt_unset = record { is_short = false; unset = xor arg_unset opt_unset }

-- abbrev_option with abbrev_category, and whether ambiguous_option is set.
pub record Abbreviations : Type 0 where
  pub abbrev_option : Option (Opt × Category)
  pub is_ambiguous : Bool

unfoldable pub is_set : Option (Opt × Category) → Bool
is_set none = false
is_set (some opt) = true

-- At `is_abbreviated`.
unfoldable pub set_optstr : List ℕ → Bool → Context → Context
set_optstr [] arg_unset ctx = ctx
set_optstr (c ∷ value) arg_unset ctx = if arg_unset then ctx else record ctx { optstr = some value }

-- Behind the loop.
unfoldable pub finish_long :
    Settings → List ℕ → Abbreviations → Context → Outcome (ParseResult × Context × Option Opt)
finish_long env argstr found ctx =
    if found.is_ambiguous then ok (parsing_help, ctx, none) else elim found.abbrev_option [
      | some abbrev_option ↦ get_arg env ctx abbrev_option.0 abbrev_option.1 >>= λ r.
          ok (r.0, r.1, some abbrev_option.0)
      | none ↦ ok (parsing_unknown, record ctx { optstr = some argstr }, none)
    ]

-- `*argstr_rest ? argstr_rest + 1`
unfoldable pub value_after : List ℕ → Context → Context
value_after [] ctx = ctx
value_after (c ∷ value) ctx = record ctx { optstr = some value }

-- The answer, and `*parsed` if it is set.
unfoldable pub parse_long_option :
    Settings
    → List ℕ
    → List Opt
    → Abbreviations
    → Context
    → Outcome (ParseResult × Context × Option Opt)
parse_long_option env argstr [] found ctx = finish_long env argstr found ctx
parse_long_option env argstr (opt ∷ options) found ctx = do
  how ← fit argstr opt
  elim how [
    | unfit ↦ parse_long_option env argstr options found ctx
    | abbreviated arg_unset opt_unset ↦
        parse_long_option env argstr options
          (record {
            abbrev_option = some (opt, long_category arg_unset opt_unset);
            is_ambiguous = found.is_ambiguous || is_set found.abbrev_option;
          })
          (set_optstr (from_equal argstr) arg_unset ctx)
    | named rest arg_unset opt_unset ↦
        get_arg env (value_after rest ctx) opt (long_category arg_unset opt_unset) >>= λ r.
        ok (r.0, r.1, some opt)
  ]
