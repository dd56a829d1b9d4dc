-- ===== src/Levenshtein/Tests.antt =====
-- The distance at concrete words.
use pass_keeper.Prelude.{
  ℕ, ◌≡◌, ◌≤◌, refl, List, [], ◌∷◌, ok, Returns, arith, load, store, st_mult, for_range,
}
use pass_keeper.Levenshtein.{
  to_int, relax, substitution, is_swapped, transposition, deletion, insertion, fill_cell, next_rows,
  first_row, levenshtein_w,
}
use pass_keeper.Levenshtein.Script.{Script, price}
use pass_keeper.Levenshtein.Filling.{levenshtein_w_least}

-- "raed" and "read".
abbrev raed : List ℕ
raed = b'r' ∷ b'a' ∷ b'e' ∷ b'd' ∷ []

abbrev read : List ℕ
read = b'r' ∷ b'e' ∷ b'a' ∷ b'd' ∷ []

abbrev init : List ℕ
init = b'i' ∷ b'n' ∷ b'i' ∷ b't' ∷ []

levenshtein_w_least_example :
    Returns
      (λ d.
        ((p : Script raed read 1 3 2 0 4 4) → d ≤ price raed read 1 3 2 0 p)
        × ((p : Script raed read 1 3 2 0 4 4) × (price raed read 1 3 2 0 p ≡ d)))
      (levenshtein_w raed read 1 3 2 0 77)
levenshtein_w_least_example = levenshtein_w_least raed read 1 3 2 0 (omega arith) 77 (omega arith)

-- A swap is free under the weights of `get_approximate_command`.
distances :
    (levenshtein_w raed read 1 3 2 0 77 ≡ ok 0)
    × (levenshtein_w raed read 1 1 1 1 77 ≡ ok 1)
    × (levenshtein_w read init 1 3 2 0 77 ≡ ok 8)
unfolding levenshtein_w next_rows first_row fill_cell substitution transposition is_swapped deletion
    insertion relax to_int for_range st_mult load store
distances = (refl, refl, refl)
