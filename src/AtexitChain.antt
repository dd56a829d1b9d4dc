-- ===== src/AtexitChain.antt =====
-- src/atexit-chain.c: the chain of functions that are called at the end of the program. `call` is
-- what a function does, to the chain and to the rest of the program's state.
pub mod Reversed
mod Tests
use pass_keeper.Prelude.{ℕ, zero, suc, List, [], ◌∷◌, Option, none, some, Outcome, ok, fault}

module _ {F : Type 0} where
  unfoldable pub atexit_chain_push : F → List F → List F
  atexit_chain_push fn atexit_func = fn ∷ atexit_func

  -- The function, if there is one, and the chain without its node.
  unfoldable pub atexit_chain_pop : List F → Option F × List F
  atexit_chain_pop [] = (none, [])
  atexit_chain_pop (fn ∷ atexit_func) = (some fn, atexit_func)

module _ {F S : Type 0} where
  -- The fuel bounds the number of rounds: a function may push others.
  unfoldable pub apply_atexit_chain :
      (fuel : ℕ) → (F → List F → S → List F × S) → List F → S → Outcome (List F × S)
  apply_atexit_chain zero call atexit_func state = fault
  apply_atexit_chain (suc fuel) call atexit_func state =
      let popped = atexit_chain_pop atexit_func in
      elim popped.0 [
        | none ↦ ok (popped.1, state)
        | some fn ↦
            let after = call fn popped.1 state in apply_atexit_chain fuel call after.0 after.1
      ]
