-- ===== src/Options/Progress.antt =====
-- How far one option moves along the arguments.
use pass_keeper.Prelude.{
  ℕ, ◌+◌, ◌<◌, ◌≤◌, some, ◌≡◌, refl, ◌∙◌, List, Option, arith, Outcome, Ensures,
}
use pass_keeper.Options.{CommandMode, Context, Value}

-- `b` is `a` at the same argument, with the array as it was.
pub record Unmoved (a b : Context) : Type 0 where
  pub argv : b.argv ≡ a.argv
  pub argc : b.argc ≡ a.argc
  pub args : b.args ≡ a.args
  pub idx : b.idx ≡ a.idx

-- `b` is `a` at most one argument further on, which is there and is the whole value of an option, with
-- the array as it was.
pub record Advance (a b : Context) : Type 0 where
  pub steps : ℕ
  pub once : steps ≤ 1
  pub attached : (str : List ℕ) → b.optstr ≡ some str → steps ≡ 0
  pub argv : b.argv ≡ a.argv + steps
  pub argc : b.argc + steps ≡ a.argc
  pub some_left : 0 < a.argc → 0 < b.argc
  pub args : b.args ≡ a.args
  pub idx : b.idx ≡ a.idx

pub Unmoved-Advance : (a b : Context) → Unmoved a b → Advance a b
Unmoved-Advance a b u = record {
  steps = 0;
  once = omega arith;
  attached = λ str e. refl;
  argv = omega (arith, u.argv);
  argc = omega (arith, u.argc);
  some_left = λ h. omega (arith, u.argc);
  args = u.args;
  idx = u.idx;
}

pub Unmoved-refl : (a : Context) → Unmoved a a
Unmoved-refl a = record { argv = refl; argc = refl; args = refl; idx = refl }

pub Advance-refl : (a : Context) → Advance a a
Advance-refl a = Unmoved-Advance a a (Unmoved-refl a)

pub Advance-from : (a b c : Context) → Unmoved a b → Advance b c → Advance a c
Advance-from a b c u q = record {
  steps = q.steps;
  once = q.once;
  attached = q.attached;
  argv = omega (arith, u.argv, q.argv);
  argc = omega (arith, u.argc, q.argc);
  some_left = λ h. q.some_left (omega (arith, h, u.argc));
  args = q.args ∙ u.args;
  idx = q.idx ∙ u.idx;
}

-- Nothing was taken.
pub Advance-Unmoved : (a b : Context) (p : Advance a b) → p.steps ≡ 0 → Unmoved a b
Advance-Unmoved a b p none_yet = record {
  argv = omega (arith, p.argv, none_yet);
  argc = omega (arith, p.argc, none_yet);
  args = p.args;
  idx = p.idx;
}

-- The answer stands further on.
abbrev pub Moves {ℓ} : {A : Type ℓ} → Context → Outcome (A × Context) → Type 0
Moves ctx r = Ensures (λ a. Advance ctx a.1) r

-- What an option does besides taking arguments.
pub Unmoved-still :
    (ctx : Context) (o : Option (List ℕ)) (modes : List CommandMode) (vars : List Value)
    → Unmoved ctx (record ctx { optstr = o; cmdmode = modes; vars = vars })
Unmoved-still ctx o modes vars = record { argv = refl; argc = refl; args = refl; idx = refl }
