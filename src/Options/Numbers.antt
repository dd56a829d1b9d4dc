-- ===== src/Options/Numbers.antt =====
-- src/parse-option.c: get_arg_uint on decimal numerals, and the argument that is a dash alone.
use pass_keeper.Prelude.{
  ◌+◌, sym, subst, append-nil, Option, ltb, if◌then◌else◌, ℕ, ◌-◌, ◌<◌, ◌≡◌, refl, ap, ◌∙◌, Bool,
  true, false, ◌&&◌, not, ◌||◌, List, [], ◌∷◌, ◌++◌, none, some, arith, Outcome, ok, fault, ◌>>=◌,
  ◌==◌, length, get_elem?, load, inl, inr, Bool-cases, if_not, set, store_lem,
}
use pass_keeper.Strtou.{strtou, is_digit, converted, erange, uint_max, ulong_max}
use pass_keeper.Strtou.Numerals.{AllDigits, decimal, broken_number, strtou_lem}
use pass_keeper.Options.{
  Opt, Context, Settings, ParseResult, int, parsing_done, parsing_error, parsing_complete,
  parsing_help, take_arg, next_arg, set_var, uint_answer, get_arg_uint, arg_at,
}
use pass_keeper.Options.Next.{
  parse_short_option, behind_first, behind_dash, switch_loop, option_argument, is_dashed, is_lone_h,
  parse_option_next,
}

pub arg_at_lem :
    (ctx : Context) (i : ℕ) (arg : List ℕ)
    → get_elem? ctx.args i ≡ some (some arg)
    → arg_at ctx i ≡ ok arg
unfolding arg_at load
arg_at_lem ctx i arg e = rw (load, e) refl

-- Where the argument of an option comes from: what stands in optstr, or the next argument where
-- one is left, which is used up.
abbrev pub Supplies : Option (List ℕ) → Context → List ℕ → Context → Type 0
Supplies (some given) ctx str ctx' = (given ≡ str) × (ctx' ≡ record ctx { optstr = none })
Supplies none ctx str ctx' =
    (1 < ctx.argc)
    × (get_elem? ctx.args (ctx.argv + 1) ≡ some (some str))
    × (ctx' ≡ record ctx { argc = ctx.argc - 1; argv = ctx.argv + 1 })

take_arg_lem :
    (o : Option (List ℕ)) (ctx ctx' : Context) (str : List ℕ)
    → Supplies o ctx str ctx'
    → take_arg ctx o ≡ ok (some str, ctx')
unfolding take_arg
take_arg_lem (some given) ctx ctx' str (e, e') = rw (e, e') refl
take_arg_lem none ctx ctx' str (more, here, e') =
    let left : ltb 1 ctx.argc ≡ true = ground arith in
    rw (left, arg_at_lem ctx (ctx.argv + 1) str here, e') refl

-- What stands behind a numeral begins with no digit.
abbrev pub EndsNumeral : List ℕ → Type 0
EndsNumeral [] = Unit
EndsNumeral (r ∷ rest) = is_digit r ≡ false

-- The answer for a numeral and what stands behind it.
abbrev pub uint_read : Context → Opt → ℕ → List ℕ → ParseResult × Context
uint_read ctx opt n [] =
    if ltb uint_max n
    then (parsing_done, ctx)
    else (parsing_error, record ctx { vars = set ctx.vars opt.value (int n) })
uint_read ctx opt n (r ∷ rest) = (parsing_done, ctx)

uint_answer-converted :
    (ctx : Context) (opt : Opt) (n : ℕ)
    → opt.value < length ctx.vars
    → uint_answer ctx opt (if ltb uint_max n then erange else converted n)
      ≡ ok (uint_read ctx opt n [])
unfolding uint_answer set_var
uint_answer-converted ctx opt n inside = elim (Bool-cases (ltb uint_max n)) [
  | inl large ↦ rw (large) refl
  | inr fits ↦ rw (fits) (rw (store_lem ctx.vars opt.value (int n) inside) refl)
]

uint_answer-broken :
    (ctx : Context) (opt : Opt) (n r : ℕ) (rest : List ℕ)
    → uint_answer ctx opt (broken_number n) ≡ ok (uint_read ctx opt n (r ∷ rest))
unfolding uint_answer
uint_answer-broken ctx opt n r rest = elim (Bool-cases (ltb ulong_max n)) [
  | inl large ↦ rw (large) refl
  | inr fits ↦ rw (fits) refl
]

Supplies-vars :
    (o : Option (List ℕ)) (ctx ctx' : Context) (str : List ℕ)
    → Supplies o ctx str ctx'
    → ctx'.vars ≡ ctx.vars
Supplies-vars (some given) ctx ctx' str (e, e') = ap (λ c. c.vars) e'
Supplies-vars none ctx ctx' str (more, here, e') = ap (λ c. c.vars) e'

-- get_arg_uint takes what stands in optstr, or else the next argument, which is used up; where
-- that is a decimal numeral up to UINT_MAX it stores it in the variable of the option and answers
-- PARSING_ERROR, and where it is a larger one, or one with another character behind its digits,
-- it answers PARSING_DONE, with every variable as it was; there is such an argument, and the
-- variable is in the array.
pub get_arg_uint_lem :
    (ctx : Context) (opt : Opt) (c : ℕ) (digits rest : List ℕ) (ctx' : Context)
    → AllDigits (c ∷ digits)
    → EndsNumeral rest
    → Supplies ctx.optstr ctx ((c ∷ digits) ++ rest) ctx'
    → opt.value < length ctx.vars
    → get_arg_uint ctx opt ≡ ok (uint_read ctx' opt (decimal 0 (c ∷ digits)) rest)
unfolding get_arg_uint next_arg is_digit
get_arg_uint_lem ctx opt c digits [] ctx' h e from inside =
    rw (take_arg_lem ctx.optstr ctx ctx' _ from) (
      ap (λ t. uint_answer ctx' opt (strtou (c ∷ t))) (append-nil digits)
      ∙ ap (uint_answer ctx' opt) (strtou_lem c digits 0 [] h refl).0
      ∙ uint_answer-converted ctx' opt (decimal 0 (c ∷ digits)) (
          subst (λ v. opt.value < length v) (sym (Supplies-vars ctx.optstr ctx ctx' _ from))
            inside))
get_arg_uint_lem ctx opt c digits (r ∷ rest) ctx' h e from inside =
    rw (take_arg_lem ctx.optstr ctx ctx' _ from) (
      ap (uint_answer ctx' opt) (strtou_lem c digits r rest h e).1
      ∙ uint_answer-broken ctx' opt (decimal 0 (c ∷ digits)) r rest)

-- Whether an option of the list has no alias, which is stored as NUL.
abbrev pub lacks_alias : List Opt → Bool
lacks_alias [] = false
lacks_alias (opt ∷ options) = opt.alias == 0 || lacks_alias options

lone_switch :
    (env : Settings) (options : List Opt) (ctx : Context)
    → lacks_alias options ≡ true
    → parse_short_option env [] options ctx ≡ fault
unfolding parse_short_option behind_first
lone_switch env [] ctx h = cc
lone_switch env (opt ∷ options) ctx h = elim (Bool-cases (opt.alias == 0)) [
  | inl none_here ↦ rw (parse_short_option, none_here) refl
  | inr other ↦ rw (parse_short_option, other) (lone_switch env options ctx (ground arith))
]

bind_fault : {A B : Type 0} {m : Outcome A} (f : A → Outcome B) → m ≡ fault → m >>= f ≡ fault
bind_fault f e = ap (λ m. m >>= f) e

-- An argument that is a dash alone makes parse_option_next read behind its NUL, where an option
-- of the command has no alias and the parser is not PARSER_ONE_SHOT.
pub lone_dash :
    (env : Settings) (options : List Opt) (ctx : Context)
    → get_elem? ctx.args ctx.argv ≡ some (some (b'-' ∷ []))
    → env.flags.one_shot ≡ false
    → lacks_alias options ≡ true
    → parse_option_next env options ctx ≡ fault
unfolding parse_option_next arg_at load option_argument switch_loop is_lone_h is_dashed behind_dash
lone_dash env options ctx e o h = rw (arg_at_lem ctx ctx.argv (b'-' ∷ []) e) (
    if_not (env.flags.one_shot && env.argc0 - ctx.argc == 1) (ground arith)
      (ok (parsing_complete, ctx)) _
    ∙ (if_not (env.argc0 == 1 && (false && not env.flags.no_short_help)) (ground arith)
          (ok (parsing_help, ctx)) _
        ∙ bind_fault _ (lone_switch env options (record ctx { optstr = some [] }) h)))
