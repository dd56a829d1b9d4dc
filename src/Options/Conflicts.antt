-- ===== src/Options/Conflicts.antt =====
-- src/parse-option.c: get_arg where a command has an option of a command mode.
use pass_keeper.Prelude.{◌<◌, ◌≢◌, List, [], ◌∷◌, arith, length, Ensures, Ensures-bind}
use pass_keeper.Options.{
  Opt, Category, CommandMode, Context, Settings, ParseResult, parsing_done, parsing_error,
  parsing_complete, parsing_help, parsing_non_option, parsing_unknown, verify_cmdmode,
  check_cmdmode, get_arg_routine, if_done, get_arg,
}
use pass_keeper.Options.Taking.{Taken, get_arg_routine-Takes}
use pass_keeper.Options.Modes.{Conflict, verify_cmdmode-Conflict}

check_cmdmode-fails :
    (ctx : Context) (opt : Opt) (category : Category) (modes : List CommandMode)
    → 0 < length modes
    → Ensures (λ a. a.0 ≢ parsing_done) (check_cmdmode ctx opt category modes)
unfolding check_cmdmode
check_cmdmode-fails ctx opt category [] h = absurd (omega arith)
check_cmdmode-fails ctx opt category (node ∷ nodes) h =
    Ensures-bind (Conflict (node ∷ nodes)) (λ a. a.0 ≢ parsing_done)
      (verify_cmdmode ctx opt category (node ∷ nodes)) _
      (verify_cmdmode-Conflict ctx opt category (node ∷ nodes)) (λ r c e. cc)

if_done-fails :
    (ctx : Context) (opt : Opt) (category : Category) (res : ParseResult)
    → 0 < length ctx.cmdmode
    → Ensures (λ a. a.0 ≢ parsing_done) (if_done ctx opt category res)
unfolding if_done
if_done-fails ctx opt category parsing_done h = check_cmdmode-fails ctx opt category ctx.cmdmode h
if_done-fails ctx opt category parsing_complete h = λ e. cc
if_done-fails ctx opt category parsing_help h = λ e. cc
if_done-fails ctx opt category parsing_error h = λ e. cc
if_done-fails ctx opt category parsing_non_option h = λ e. cc
if_done-fails ctx opt category parsing_unknown h = λ e. cc

-- While the list of command modes has a node, get_arg takes no option: it never returns with
-- PARSING_DONE.
pub get_arg-fails :
    (env : Settings) (ctx : Context) (opt : Opt) (category : Category)
    → 0 < length ctx.cmdmode
    → Ensures (λ a. a.0 ≢ parsing_done) (get_arg env ctx opt category)
unfolding get_arg
get_arg-fails env ctx opt category h =
    Ensures-bind (λ a. Taken ctx a.1) (λ a. a.0 ≢ parsing_done)
      (get_arg_routine env ctx opt category) _ (get_arg_routine-Takes env ctx opt category)
      (λ a t. if_done-fails a.1 opt category a.0 (omega (arith, t.modes, h)))
