-- ===== src/AtexitChain/Tests.antt =====
-- The order of the calls at a concrete chain.
use pass_keeper.Prelude.{ℕ, ◌≡◌, refl, List, [], ◌∷◌, ◌++◌, ok, if◌then◌else◌, ◌==◌}
use pass_keeper.AtexitChain.{apply_atexit_chain, atexit_chain_push, atexit_chain_pop}
use pass_keeper.AtexitChain.Reversed.{push_all, backwards, apply-push_all}

-- Each function leaves its number.
abbrev log : ℕ → List ℕ → List ℕ
log n seen = seen ++ n ∷ []

apply-push_all_example :
    apply_atexit_chain 4 (λ fn c s. (c, log fn s)) (push_all (1 ∷ 2 ∷ 3 ∷ []) []) []
    ≡ ok ([], 3 ∷ 2 ∷ 1 ∷ [])
unfolding backwards
apply-push_all_example = apply-push_all log (1 ∷ 2 ∷ 3 ∷ []) []

-- Function 1 pushes function 9, which is called next.
pushed_late :
    apply_atexit_chain 4
      (λ fn c s. (if fn == 1 then atexit_chain_push 9 c else c, log fn s))
      (2 ∷ 1 ∷ [])
      []
    ≡ ok ([], 2 ∷ 1 ∷ 9 ∷ [])
unfolding apply_atexit_chain atexit_chain_pop atexit_chain_push
pushed_late = refl
