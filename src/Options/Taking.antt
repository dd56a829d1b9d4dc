-- ===== src/Options/Taking.antt =====
-- How far one option moves along the arguments, and along the switches of its own argument.
use pass_keeper.Prelude.{
  sym, ap, ◌^◌, ◌%◌, ◌==◌, ℕ, ◌+◌, ◌≤◌, ◌≡◌, refl, ◌∙◌, not, ◌&&◌, List, [], ◌∷◌, Option, none,
  some, arith, Outcome, ok, ◌>>=◌, Ensures, Ensures-bind, Ensures-any, Ensures-if, Ensures-map, ltb,
  ltb→lt, load, store, length,
}
use pass_keeper.Strtou.{strtou, Converted, converted, einval, eilseq, erange}
use pass_keeper.Filesys.{prefix_filename}
use pass_keeper.Options.{
  Opt, OptionType, option_group, option_integer, option_countup, option_string, option_filename,
  Category, CommandMode, Context, Settings, Value, int, string, ParseResult, parsing_done,
  parsing_error, parsing_complete, parsing_help, parsing_non_option, parsing_unknown, arg_at,
  take_arg, next_arg, set_var, uint_answer, if_done, get_arg_str, get_arg_uint, is_some, is_refused,
  int_max, count_up, get_filename, done_with, get_arg_value, get_arg_routine, verify_cmdmode,
  check_cmdmode, get_arg,
}
use pass_keeper.Options.Modes.{Conflict, verify_cmdmode-Conflict}
use pass_keeper.Options.Progress.{
  Advance, Unmoved, Unmoved-refl, Unmoved-still, Unmoved-Advance, Moves,
}

-- How much of optstr is left.
abbrev pub opt_size : Option (List ℕ) → ℕ
opt_size none = 0
opt_size (some str) = length str

-- `b` is `a` after an argument was taken.
pub record Taken (a b : Context) : Type 0 where
  pub advance : Advance a b
  pub shorter : opt_size b.optstr ≤ opt_size a.optstr
  pub modes : length b.cmdmode ≡ length a.cmdmode

-- `b` is `a` after variables and command modes were set.
record Stayed (a b : Context) : Type 0 where
  unmoved : Unmoved a b
  optstr : b.optstr ≡ a.optstr
  modes : length b.cmdmode ≡ length a.cmdmode

Stayed-refl : (a : Context) → Stayed a a
Stayed-refl a = record { unmoved = Unmoved-refl a; optstr = refl; modes = refl }

Stayed-Taken : (a b : Context) → Stayed a b → Taken a b
Stayed-Taken a b q = record {
  advance = Unmoved-Advance a b q.unmoved;
  shorter = omega (arith, ap opt_size q.optstr);
  modes = q.modes;
}

Taken-refl : (a : Context) → Taken a a
Taken-refl a = Stayed-Taken a a (Stayed-refl a)

Taken-Stayed : (a b c : Context) → Taken a b → Stayed b c → Taken a c
Taken-Stayed a b c p q = record {
  advance = record {
    steps = p.advance.steps;
    once = p.advance.once;
    attached = λ str e. p.advance.attached str (sym q.optstr ∙ e);
    argv = omega (arith, p.advance.argv, q.unmoved.argv);
    argc = omega (arith, p.advance.argc, q.unmoved.argc);
    some_left = λ h. omega (arith, p.advance.some_left h, q.unmoved.argc);
    args = q.unmoved.args ∙ p.advance.args;
    idx = q.unmoved.idx ∙ p.advance.idx;
  };
  shorter = omega (arith, p.shorter, ap opt_size q.optstr);
  modes = q.modes ∙ p.modes;
}

abbrev pub Takes {ℓ} : {A : Type ℓ} → Context → Outcome (A × Context) → Type 0
Takes ctx r = Ensures (λ a. Taken ctx a.1) r

abbrev Stays {ℓ} : {A : Type ℓ} → Context → Outcome (A × Context) → Type 0
Stays ctx r = Ensures (λ a. Stayed ctx a.1) r

module _ {A B : Type 0} (ctx : Context) where
  Takes-then :
      (m : Outcome (A × Context)) (f : A × Context → Outcome (B × Context))
      → Takes ctx m
      → ((a : A) (c : Context) → Stays c (f (a, c)))
      → Takes ctx (m >>= f)
  Takes-then m f h k =
      Ensures-bind (λ a. Taken ctx a.1) (λ b. Taken ctx b.1) m f h
        (λ a p.
          Ensures-map (λ b. Stayed a.1 b.1) (λ b. Taken ctx b.1) (f a) (k a.0 a.1)
            (λ b q. Taken-Stayed ctx a.1 b.1 p q))

some≢none : {str : List ℕ} {B : Type 0} → some str ≡ none → B
some≢none e = absurd (cc)

take_arg-Takes : (ctx : Context) (o : Option (List ℕ)) → ctx.optstr ≡ o → Takes ctx (take_arg ctx o)
unfolding take_arg
take_arg-Takes ctx (some arg) e = record {
  advance = Unmoved-Advance ctx _ (Unmoved-still ctx none ctx.cmdmode ctx.vars);
  shorter = omega arith;
  modes = refl;
}
take_arg-Takes ctx none e =
    Ensures-if (λ a. Taken ctx a.1) (ltb 1 ctx.argc) _ _
      (λ more.
        Ensures-bind (λ arg. Unit {0}) (λ a. Taken ctx a.1) (arg_at ctx (ctx.argv + 1)) _
          (Ensures-any _)
          (λ arg h. record {
            advance = record {
              steps = 1;
              once = omega arith;
              attached = λ str k. some≢none (sym k ∙ e);
              argv = refl;
              argc = omega (arith, ltb→lt 1 ctx.argc more);
              some_left = λ h. omega (arith, ltb→lt 1 ctx.argc more);
              args = refl;
              idx = refl;
            };
            shorter = omega arith;
            modes = refl;
          }))
      (λ last. Taken-refl ctx)

set_var-Stayed : (ctx : Context) (i : ℕ) (v : Value) → Ensures (Stayed ctx) (set_var ctx i v)
unfolding set_var
set_var-Stayed ctx i v =
    Ensures-bind (λ vars. Unit {0}) (Stayed ctx) (store ctx.vars i v) _ (Ensures-any _)
      (λ vars h. record {
        unmoved = Unmoved-still ctx ctx.optstr ctx.cmdmode vars;
        optstr = refl;
        modes = refl;
      })

module _ (ctx : Context) where
  -- Whatever answer goes with the change.
  answer-Stays :
      (m : Outcome Context) (res : ParseResult)
      → Ensures (Stayed ctx) m
      → Stays ctx (m >>= λ c. ok (res, c))
  answer-Stays m res h = Ensures-bind (Stayed ctx) (λ a. Stayed ctx a.1) m _ h (λ c p. p)

  Stays-Takes : {A : Type 0} (m : Outcome (A × Context)) → Stays ctx m → Takes ctx m
  Stays-Takes m h =
      Ensures-map (λ a. Stayed ctx a.1) (λ a. Taken ctx a.1) m h (λ a q. Stayed-Taken ctx a.1 q)

get_arg_str-Takes : (ctx : Context) (opt : Opt) → Takes ctx (get_arg_str ctx opt)
unfolding get_arg_str next_arg
get_arg_str-Takes ctx opt =
    Takes-then ctx (take_arg ctx ctx.optstr) _ (take_arg-Takes ctx ctx.optstr refl) (elim [
      | none ↦ λ c. Stayed-refl c
      | some str ↦ λ c. answer-Stays c _ _ (set_var-Stayed c opt.value (string (some str)))
    ])

uint_answer-Stays : (ctx : Context) (opt : Opt) (x : Converted) → Stays ctx (uint_answer ctx opt x)
unfolding uint_answer
uint_answer-Stays ctx opt (converted n) =
    answer-Stays ctx _ _ (set_var-Stayed ctx opt.value (int n))
uint_answer-Stays ctx opt einval = Stayed-refl ctx
uint_answer-Stays ctx opt eilseq = Stayed-refl ctx
uint_answer-Stays ctx opt erange = Stayed-refl ctx

get_arg_uint-Takes : (ctx : Context) (opt : Opt) → Takes ctx (get_arg_uint ctx opt)
unfolding get_arg_uint next_arg
get_arg_uint-Takes ctx opt =
    Takes-then ctx (take_arg ctx ctx.optstr) _ (take_arg-Takes ctx ctx.optstr refl)
      (elim [ none ↦ λ c. Stayed-refl c | some str ↦ λ c. uint_answer-Stays c opt (strtou str) ])

get_filename-Takes :
    (env : Settings) (ctx : Context) (opt : Opt) → Takes ctx (get_filename env ctx opt)
unfolding get_filename next_arg
get_filename-Takes env ctx opt =
    Takes-then ctx (take_arg ctx ctx.optstr) _ (take_arg-Takes ctx ctx.optstr refl) (elim [
      | none ↦ λ c. Stayed-refl c
      | some str ↦ λ c.
          Ensures-bind (λ path. Unit {0}) (λ a. Stayed c a.1)
            (prefix_filename env.junk env.prefix str) _ (Ensures-any _)
            (λ path h. answer-Stays c _ _ (set_var-Stayed c opt.value (string (some path))))
    ])

count_up-Stayed : (ctx : Context) (opt : Opt) → Ensures (Stayed ctx) (count_up ctx opt)
unfolding count_up
count_up-Stayed ctx opt =
    Ensures-bind (λ v. Unit {0}) (Stayed ctx) (load ctx.vars opt.value) _ (Ensures-any _)
      (elim [
        | int n ↦ λ h.
            Ensures-if (Stayed ctx) (n == int_max) _ _ (λ e. tt)
              (λ e. set_var-Stayed ctx opt.value (int ((n + 1) % 2 ^ 32)))
        | string str ↦ λ h. tt
      ])

done_with-Takes :
    (ctx : Context) (m : Outcome Context) → Ensures (Stayed ctx) m → Takes ctx (done_with m)
unfolding done_with
done_with-Takes ctx m h = Stays-Takes ctx _ (answer-Stays ctx m parsing_done h)

set_var-Takes : (ctx : Context) (i : ℕ) (v : Value) → Takes ctx (done_with (set_var ctx i v))
set_var-Takes ctx i v = done_with-Takes ctx _ (set_var-Stayed ctx i v)

get_arg_value-Takes :
    (env : Settings) (ctx : Context) (opt : Opt) (category : Category) (t : OptionType)
    → Takes ctx (get_arg_value env ctx opt category t)
unfolding get_arg_value
get_arg_value-Takes env ctx opt category option_group = tt
get_arg_value-Takes env ctx opt category option_integer =
    Ensures-if (λ a. Taken ctx a.1) opt.flags.is_unsigned _ _ (λ h. get_arg_uint-Takes ctx opt)
      (λ h. set_var-Takes ctx opt.value _)
get_arg_value-Takes env ctx opt category option_countup =
    done_with-Takes ctx _ (count_up-Stayed ctx opt)
get_arg_value-Takes env ctx opt category option_string =
    Ensures-if (λ a. Taken ctx a.1) category.unset _ _ (λ h. set_var-Takes ctx opt.value _)
      (λ h.
        Ensures-if (λ a. Taken ctx a.1) (opt.flags.optarg && not (is_some ctx.optstr)) _ _
          (λ k. set_var-Takes ctx opt.value _) (λ k. get_arg_str-Takes ctx opt))
get_arg_value-Takes env ctx opt category option_filename = get_filename-Takes env ctx opt

check_cmdmode-Stays :
    (ctx : Context) (opt : Opt) (category : Category) (modes : List CommandMode)
    → length modes ≡ length ctx.cmdmode
    → Stays ctx (check_cmdmode ctx opt category modes)
unfolding check_cmdmode
check_cmdmode-Stays ctx opt category [] l = Stayed-refl ctx
check_cmdmode-Stays ctx opt category (node ∷ nodes) l =
    Ensures-bind (Conflict (node ∷ nodes)) (λ a. Stayed ctx a.1)
      (verify_cmdmode ctx opt category (node ∷ nodes)) _
      (verify_cmdmode-Conflict ctx opt category (node ∷ nodes))
      (λ r h. record {
        unmoved = Unmoved-still ctx ctx.optstr r.1 ctx.vars;
        optstr = refl;
        modes = h.1 ∙ l;
      })

pub get_arg_routine-Takes :
    (env : Settings) (ctx : Context) (opt : Opt) (category : Category)
    → Takes ctx (get_arg_routine env ctx opt category)
unfolding get_arg_routine
get_arg_routine-Takes env ctx opt category =
    Ensures-if (λ a. Taken ctx a.1) (is_refused ctx opt category) _ _ (λ h. Taken-refl ctx)
      (λ h. get_arg_value-Takes env ctx opt category opt.type)

if_done-Stays :
    (ctx : Context) (opt : Opt) (category : Category) (res : ParseResult)
    → Stays ctx (if_done ctx opt category res)
unfolding if_done
if_done-Stays ctx opt category parsing_done = check_cmdmode-Stays ctx opt category ctx.cmdmode refl
if_done-Stays ctx opt category parsing_complete = Stayed-refl ctx
if_done-Stays ctx opt category parsing_help = Stayed-refl ctx
if_done-Stays ctx opt category parsing_error = Stayed-refl ctx
if_done-Stays ctx opt category parsing_non_option = Stayed-refl ctx
if_done-Stays ctx opt category parsing_unknown = Stayed-refl ctx

pub get_arg-Takes :
    (env : Settings) (ctx : Context) (opt : Opt) (category : Category)
    → Takes ctx (get_arg env ctx opt category)
unfolding get_arg
get_arg-Takes env ctx opt category =
    Takes-then ctx (get_arg_routine env ctx opt category) _
      (get_arg_routine-Takes env ctx opt category) (λ res c. if_done-Stays c opt category res)

pub get_arg-Moves :
    (env : Settings) (ctx : Context) (opt : Opt) (category : Category)
    → Moves ctx (get_arg env ctx opt category)
get_arg-Moves env ctx opt category =
    Ensures-map (λ a. Taken ctx a.1) (λ a. Advance ctx a.1) (get_arg env ctx opt category)
      (get_arg-Takes env ctx opt category) (λ a p. p.advance)
