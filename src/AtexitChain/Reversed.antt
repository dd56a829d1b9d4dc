-- ===== src/AtexitChain/Reversed.antt =====
-- The order of the calls.
use pass_keeper.Prelude.{ℕ, zero, suc, ◌+◌, ◌≡◌, refl, ap, ◌∙◌, List, [], ◌∷◌, ok, arith, length}
use pass_keeper.AtexitChain.{atexit_chain_push, atexit_chain_pop, apply_atexit_chain}

module _ {F : Type 0} where
  -- One push after the other.
  unfoldable pub push_all : List F → List F → List F
  push_all [] chain = chain
  push_all (fn ∷ fns) chain = push_all fns (atexit_chain_push fn chain)

  length-push_all : (fns chain : List F) → length (push_all fns chain) ≡ length fns + length chain
  unfolding push_all atexit_chain_push
  length-push_all [] chain = omega arith
  length-push_all (fn ∷ fns) chain = omega (arith, length-push_all fns (fn ∷ chain))

module _ {F S : Type 0} where
  -- The last function acts first.
  unfoldable pub backwards : (F → S → S) → List F → S → S
  backwards act [] state = state
  backwards act (fn ∷ fns) state = act fn (backwards act fns state)

  forwards : (F → S → S) → List F → S → S
  forwards act [] state = state
  forwards act (fn ∷ fns) state = forwards act fns (act fn state)

  forwards-push_all :
      (act : F → S → S) (fns chain : List F) (state : S)
      → forwards act (push_all fns chain) state ≡ forwards act chain (backwards act fns state)
  unfolding forwards push_all backwards atexit_chain_push
  forwards-push_all act [] chain state = refl
  forwards-push_all act (fn ∷ fns) chain state = forwards-push_all act fns (fn ∷ chain) state

  apply_lem :
      (act : F → S → S) (chain : List F) (state : S) (fuel : ℕ)
      → fuel ≡ suc (length chain)
      → apply_atexit_chain fuel (λ fn c s. (c, act fn s)) chain state
        ≡ ok ([], forwards act chain state)
  unfolding forwards apply_atexit_chain atexit_chain_pop
  apply_lem act chain state zero e = absurd (omega arith)
  apply_lem act [] state (suc fuel) e = refl
  apply_lem act (fn ∷ chain) state (suc fuel) e =
      apply_lem act chain (act fn state) fuel (omega arith)

  -- At the end of the program, functions that leave the chain alone are called in the reverse of
  -- the order in which they were pushed, each once, and the chain is empty; one round more than
  -- there are functions is enough.
  pub apply-push_all :
      (act : F → S → S) (fns : List F) (state : S)
      → apply_atexit_chain (suc (length fns)) (λ fn c s. (c, act fn s)) (push_all fns []) state
        ≡ ok ([], backwards act fns state)
  unfolding forwards
  apply-push_all act fns state =
      apply_lem act (push_all fns []) state (suc (length fns))
        (omega (arith, length-push_all fns []))
      ∙ ap (λ s. ok ([], s)) (forwards-push_all act fns [] state)
