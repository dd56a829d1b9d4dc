-- ===== src/Options/Exact.antt =====
-- src/parse-option.c: an option that is given by its whole name.
use pass_keeper.Prelude.{
  none, sym, subst, append-nil, ℕ, ◌≡◌, refl, ap, ◌∙◌, Bool, true, false, not, ◌&&◌, ◌||◌, List, [],
  ◌∷◌, ◌++◌, Option, some, Outcome, ok, died, bugged, exited, fault, ◌>>=◌, if◌then◌else◌, ◌==◌,
  Option-cases, if_not, inl, inr, arith,
}
use pass_keeper.Text.{starts_with, skip_prefix}
use pass_keeper.Text.Prefix.{skip_prefix_lem}
use pass_keeper.Options.{Opt, Context, Settings, ParseResult, get_arg}
use pass_keeper.Options.Long.{
  from_equal, is_group, no_dash, Fit, unfit, abbreviated, named, positive_name, named_if_ended,
  fit_name, fit, fit_opt, long_category, Abbreviations, set_optstr, value_after, is_set, xor,
  parse_long_option,
}

-- The text does not hold the whole name of the option.
abbrev pub Unnamed : Outcome Fit → Type 0
Unnamed (ok unfit) = Unit
Unnamed (ok (abbreviated arg_unset opt_unset)) = Unit
Unnamed (ok (named rest arg_unset opt_unset)) = ⊥
Unnamed died = ⊥
Unnamed bugged = ⊥
Unnamed exited = ⊥
Unnamed fault = ⊥

abbrev pub NoneNamed : List ℕ → List Opt → Type 0
NoneNamed argstr [] = Unit
NoneNamed argstr (opt ∷ options) = Unnamed (fit argstr opt) × NoneNamed argstr options

-- Nothing, or an equals sign with what stands behind it.
abbrev pub IsValue : List ℕ → Type 0
IsValue [] = Unit
IsValue (c ∷ value) = (c == b'=') ≡ true

abbrev pub NoEqual : List ℕ → Type 0
NoEqual [] = Unit
NoEqual (c ∷ name) = ((c == b'=') ≡ false) × NoEqual name

from_equal-append :
    (name value : List ℕ) → NoEqual name → IsValue value → from_equal (name ++ value) ≡ value
unfolding from_equal
from_equal-append [] [] h v = refl
from_equal-append [] (c ∷ value) h v = rw (v) refl
from_equal-append (c ∷ name) value h v = rw (h.0) (from_equal-append name value h.1 v)

value_after-set_optstr :
    (value : List ℕ) (unset : Bool) (ctx : Context)
    → value_after value (set_optstr value unset ctx) ≡ value_after value ctx
unfolding value_after set_optstr
value_after-set_optstr [] unset ctx = refl
value_after-set_optstr (c ∷ value) true ctx = refl
value_after-set_optstr (c ∷ value) false ctx = refl

ended :
    (value : List ℕ) → IsValue value → named_if_ended value false false ≡ named value false false
unfolding named_if_ended
ended [] v = refl
ended (c ∷ value) v = rw (v) refl

if-same : {A : Type 0} (b : Bool) (x : A) → (if b then x else x) ≡ x
if-same true x = refl
if-same false x = refl

begins_no : (rest value : List ℕ) → starts_with ((no_dash ++ rest) ++ value) no_dash ≡ true
unfolding starts_with
begins_no rest value = refl

positive_whole :
    (opt : Opt) (name value : List ℕ) → positive_name (name ++ value) opt name ≡ (name, false)
unfolding positive_name
positive_whole opt name value = elim (Option-cases (skip_prefix name no_dash)) [
  | inl none_there ↦
      rw (none_there)
        (if-same (not (starts_with (name ++ value) no_dash) && opt.flags.alloneg) (name, false))
  | inr (rest, there) ↦
      let split : name ≡ no_dash ++ rest = ((skip_prefix_lem name no_dash rest).0).0 there in
      let begins : starts_with (name ++ value) no_dash ≡ true =
        ap (λ n. starts_with (n ++ value) no_dash) split ∙ begins_no rest value in
      if_not (not (starts_with (name ++ value) no_dash) && opt.flags.alloneg) (ground arith) _
        (name, false)
]

fit_whole :
    (opt : Opt) (name value : List ℕ)
    → opt.name ≡ some name
    → is_group opt.type ≡ false
    → opt.flags.noemdash ≡ false
    → IsValue value
    → fit (name ++ value) opt ≡ ok (named value false false)
unfolding fit fit_opt fit_name
fit_whole opt name value n g d v =
    if_not (is_group opt.type || opt.flags.noemdash) (ground arith) (ok unfit) _
    ∙ (ap (fit_opt (name ++ value) opt) n
        ∙ (ap (λ t. ok (fit_name (name ++ value) opt t.0 t.1)) (positive_whole opt name value)
            ∙ rw (fit_name, ((skip_prefix_lem (name ++ value) name value).0).1 refl)
                (ap ok (ended value v))))

module _ (env : Settings) (opt : Opt) (after : List Opt) (name value : List ℕ)
    (n : opt.name ≡ some name) (g : is_group opt.type ≡ false) (d : opt.flags.noemdash ≡ false)
    (plain : NoEqual name) (v : IsValue value) where
  abbrev taken : Context → Outcome (ParseResult × Context × Option Opt)
  taken ctx = get_arg env (value_after value ctx) opt (long_category false false) >>= λ r.
      ok (r.0, r.1, some opt)

  same_value :
      (ctx : Context) (unset : Bool)
      → taken (set_optstr (from_equal (name ++ value)) unset ctx) ≡ taken ctx
  same_value ctx unset =
      ap (λ c. get_arg env c opt (long_category false false) >>= λ r. ok (r.0, r.1, some opt))
        (ap (λ w. value_after value (set_optstr w unset ctx)) (from_equal-append name value plain v)
          ∙ value_after-set_optstr value unset ctx)

  whole_name :
      (before : List Opt) (found : Abbreviations) (ctx : Context)
      → NoneNamed (name ++ value) before
      → parse_long_option env (name ++ value) (before ++ opt ∷ after) found ctx ≡ (
          get_arg env (value_after value ctx) opt (long_category false false) >>= λ r.
          ok (r.0, r.1, some opt))
  unfolding parse_long_option
  whole_name [] found ctx h = rw (fit_whole opt name value n g d v) refl
  whole_name (other ∷ before) found ctx h =
      (elim (fit (name ++ value) other)
          as (λ m.
            Unnamed m
            → (m >>= λ how. elim how [
              | unfit ↦ parse_long_option env (name ++ value) (before ++ opt ∷ after) found ctx
              | abbreviated arg_unset opt_unset ↦
                  parse_long_option env (name ++ value) (before ++ opt ∷ after)
                    (record {
                      abbrev_option = some (other, long_category arg_unset opt_unset);
                      is_ambiguous = found.is_ambiguous || is_set found.abbrev_option;
                    })
                    (set_optstr (from_equal (name ++ value)) arg_unset ctx)
              | named rest arg_unset opt_unset ↦
                  get_arg env (value_after rest ctx) other (long_category arg_unset opt_unset)
                  >>= λ r. ok (r.0, r.1, some other)
            ])
              ≡ taken ctx) [
                | ok unfit ↦ λ u. whole_name before found ctx h.1
                | ok (abbreviated arg_unset opt_unset) ↦ λ u.
                    whole_name before
                      (record {
                        abbrev_option = some (other, long_category arg_unset opt_unset);
                        is_ambiguous = found.is_ambiguous || is_set found.abbrev_option;
                      })
                      (set_optstr (from_equal (name ++ value)) arg_unset ctx) h.1
                    ∙ same_value ctx arg_unset
                | ok (named rest arg_unset opt_unset) ↦ λ u. absurd u
                | died ↦ λ u. absurd u
                | bugged ↦ λ u. absurd u
                | exited ↦ λ u. absurd u
                | fault ↦ λ u. absurd u
              ])
        h.0

-- A name alone, or with an equals sign and a value behind it.
abbrev pub spelled : List ℕ → Option (List ℕ) → List ℕ
spelled name none = name
spelled name (some value) = name ++ b'=' ∷ value

-- The value stands in optstr.
abbrev pub valued : Option (List ℕ) → Context → Context
valued none ctx = ctx
valued (some value) ctx = record ctx { optstr = some value }

-- --name or --name=value takes the option of that name by get_arg, not unset, with what stands
-- behind the equals sign in optstr, or with optstr as it is where there is no equals sign,
-- whatever options before it the text is short for and whatever options stand behind it; the
-- option is no group and may be spelled out, no option before it is named by the text, and the
-- name has no equals sign.
pub exact_name :
    (env : Settings) (opt : Opt) (before after : List Opt) (name : List ℕ) (value : Option (List ℕ))
    (found : Abbreviations) (ctx : Context)
    → opt.name ≡ some name
    → is_group opt.type ≡ false
    → opt.flags.noemdash ≡ false
    → NoEqual name
    → NoneNamed (spelled name value) before
    → parse_long_option env (spelled name value) (before ++ opt ∷ after) found ctx ≡ (
        get_arg env (valued value ctx) opt (record { is_short = false; unset = false }) >>= λ r.
        ok (r.0, r.1, some opt))
unfolding value_after xor
exact_name env opt before after name none found ctx n g d plain h =
    ap (λ t. parse_long_option env t (before ++ opt ∷ after) found ctx) (sym (append-nil name))
    ∙ whole_name env opt after name [] n g d plain tt before found ctx
        (subst (λ t. NoneNamed t before) (sym (append-nil name)) h)
exact_name env opt before after name (some value) found ctx n g d plain h =
    whole_name env opt after name (b'=' ∷ value) n g d plain refl before found ctx h
