-- ===== src/Options/Modes.antt =====
-- src/parse-option.c: verify_cmdmode on the list of command modes.
use pass_keeper.Prelude.{
  suc, ◌≡◌, refl, ap, true, false, List, [], ◌∷◌, none, some, ok, fault, ◌>>=◌, length, Ensures,
  Ensures-bind, Ensures-any,
}
use pass_keeper.Options.{
  Opt, Category, CommandMode, Context, ParseResult, parsing_error, report_conflict, verify_node,
  verify_cmdmode,
}

-- An error, and as many nodes.
abbrev pub Conflict : List CommandMode → ParseResult × List CommandMode → Type 0
Conflict modes r = (r.0 ≡ parsing_error) × (length r.1 ≡ length modes)

report_conflict-error :
    (node : CommandMode) → Ensures (λ r. r ≡ parsing_error) (report_conflict node)
unfolding report_conflict
report_conflict-error node =
    elim node.opt
      as (λ o.
        Ensures (λ r. r ≡ parsing_error)
          (elim o [ none ↦ fault | some previous ↦ ok parsing_error ])) [
            | none ↦ tt
            | some previous ↦ refl
          ]

pub verify_cmdmode-Conflict :
    (ctx : Context) (opt : Opt) (category : Category) (modes : List CommandMode)
    → Ensures (Conflict modes) (verify_cmdmode ctx opt category modes)
unfolding verify_cmdmode
verify_cmdmode-Conflict ctx opt category [] = tt
verify_cmdmode-Conflict ctx opt category (node ∷ []) =
    Ensures-bind (λ r. r ≡ parsing_error) (Conflict (node ∷ [])) (report_conflict node) _
      (report_conflict-error node) (λ r e. (e, refl))
verify_cmdmode-Conflict ctx opt category (node ∷ (next ∷ nodes)) =
    Ensures-bind (λ a. Unit {0}) (Conflict (node ∷ (next ∷ nodes)))
      (verify_node ctx opt category node) _ (Ensures-any _)
      (λ a u.
        elim a.0
          as (λ stop. Ensures (Conflict (node ∷ (next ∷ nodes))) (elim stop [
            | true ↦ report_conflict a.1 >>= λ answer. ok (answer, a.1 ∷ (next ∷ nodes))
            | false ↦ verify_cmdmode ctx opt category (next ∷ nodes) >>= λ r. ok (r.0, a.1 ∷ r.1)
          ])) [
            | true ↦
                Ensures-bind (λ r. r ≡ parsing_error) (Conflict (node ∷ (next ∷ nodes)))
                  (report_conflict a.1) _ (report_conflict-error a.1) (λ r e. (e, refl))
            | false ↦
                Ensures-bind (Conflict (next ∷ nodes)) (Conflict (node ∷ (next ∷ nodes)))
                  (verify_cmdmode ctx opt category (next ∷ nodes)) _
                  (verify_cmdmode-Conflict ctx opt category (next ∷ nodes))
                  (λ r c. (c.0, ap suc c.1))
          ])
