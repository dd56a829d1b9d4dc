-- ===== src/Strlist/Join/Whole.antt =====
-- strlist_join against the joined text, and against strlist_split.
use pass_keeper.Prelude.{
  ℕ, suc, ◌+◌, ◌-◌, ◌^◌, ◌≤◌, ◌<◌, ◌≡◌, refl, sym, ap, subst, ◌∙◌, List, [], ◌∷◌, ◌++◌,
  append_assoc, append-nil, arith, Returns, Returns-bind, length, length-append, load-append, store,
  store-append, for_range,
}
use pass_keeper.Strlist.{Strlist, Elem}
use pass_keeper.Strlist.Holding.{Holds}
use pass_keeper.Strlist.Join.{JoinExtPos, JoinBuffer, join_round, strlist_join}
use pass_keeper.Strlist.Join.Piece.{Shown, Joined, join_round_lem}

-- The pieces with the separator between them.
unfoldable pub joined : List ℕ → List (List ℕ) → List ℕ
joined separator [] = []
joined separator (piece ∷ []) = piece
joined separator (piece ∷ (next ∷ pieces)) =
    piece ++ (separator ++ joined separator (next ∷ pieces))

-- The pieces with the separator behind each.
unfoldable pub ended : List ℕ → List (List ℕ) → List ℕ
ended separator [] = []
ended separator (piece ∷ pieces) = (piece ++ separator) ++ ended separator pieces

pub ended-joined :
    (separator piece : List ℕ) (pieces : List (List ℕ))
    → ended separator (piece ∷ pieces) ≡ joined separator (piece ∷ pieces) ++ separator
unfolding ended joined
ended-joined separator piece [] = append-nil (piece ++ separator)
ended-joined separator piece (next ∷ pieces) =
    let rest : List ℕ = joined separator (next ∷ pieces) in
    append_assoc piece separator (ended separator (next ∷ pieces))
    ∙ ap (λ z. piece ++ (separator ++ z)) (ended-joined separator next pieces)
    ∙ ap (piece ++◌) (sym (append_assoc separator rest separator))
    ∙ sym (append_assoc piece (separator ++ rest) separator)

-- What the elements read as.
abbrev pub ShownAll : JoinExtPos → List Elem → List (List ℕ) → Type 0
ShownAll join_pos [] [] = Unit
ShownAll join_pos [] (piece ∷ pieces) = 1 ≤ 0
ShownAll join_pos (x ∷ xs) [] = 1 ≤ 0
ShownAll join_pos (x ∷ xs) (piece ∷ pieces) = Shown join_pos x piece × ShownAll join_pos xs pieces

loop_lem :
    (junk : ℕ) (separator : List ℕ) (join_pos : JoinExtPos) (xs front tail : List Elem)
    (pieces : List (List ℕ)) (b : JoinBuffer) (out : List ℕ) (i : ℕ)
    → i ≡ length front
    → ShownAll join_pos xs pieces
    → Joined out b
    → length out + length (ended separator pieces) < 2 ^ 56
    → Returns
        (Joined (out ++ ended separator pieces))
        (for_range (length xs) i (join_round junk (front ++ (xs ++ tail)) separator join_pos) b)
unfolding ended for_range
loop_lem junk separator join_pos [] front tail [] b out i hi shown j small =
    (b, refl, subst (λ z. Joined z b) (sym (append-nil out)) j)
loop_lem junk separator join_pos [] front tail (piece ∷ pieces) b out i hi shown j small =
    absurd (omega arith)
loop_lem junk separator join_pos (x ∷ xs) front tail [] b out i hi shown j small =
    absurd (omega arith)
loop_lem junk separator join_pos (x ∷ xs) front tail (piece ∷ pieces) b out i hi shown j small =
    let one : List ℕ = piece ++ separator in
    let rest : List ℕ = ended separator pieces in
    let len : length (one ++ rest) ≡ length piece + length separator + length rest =
      length-append one rest ∙ ap (λ k. k + length rest) (length-append piece separator) in
    let cells : List Elem = front ++ x ∷ (xs ++ tail) in
    let round =
      join_round_lem junk cells separator join_pos i b out x piece
        (load-append front (xs ++ tail) x i hi) shown.0 j (omega (arith, len, small)) in
    let later : (b' : JoinBuffer)
        → Joined (out ++ one) b'
        → Returns (Joined (out ++ (one ++ rest)))
            (for_range (length xs) (suc i) (join_round junk cells separator join_pos) b') =
      λ b' j'.
        subst
          (λ c.
            Returns (Joined (out ++ (one ++ rest)))
              (for_range (length xs) (suc i) (join_round junk c separator join_pos) b'))
          (append_assoc front (x ∷ []) (xs ++ tail))
          (subst
            (λ z. Returns (Joined z) (
              for_range (length xs) (suc i)
                (join_round junk ((front ++ x ∷ []) ++ (xs ++ tail)) separator join_pos) b'))
            (append_assoc out one rest)
            (loop_lem junk separator join_pos xs (front ++ x ∷ []) tail pieces b' (out ++ one)
              (suc i) (omega (arith, hi, length-append front (x ∷ []))) shown.1 j'
              (omega (arith, len, small, length-append out one, length-append piece separator)))) in
    Returns-bind _ _ round later

pub join-ShownAll :
    (junk : ℕ) (sl : Strlist) (xs : List Elem) (c : ℕ) (separator : List ℕ) (join_pos : JoinExtPos)
    (piece : List ℕ) (pieces : List (List ℕ))
    → Holds sl xs
    → ShownAll join_pos xs (piece ∷ pieces)
    → length (ended (c ∷ separator) (piece ∷ pieces)) < 2 ^ 56
    → Returns
        (λ buf. (rest : List ℕ) × (buf ≡ joined (c ∷ separator) (piece ∷ pieces) ++ 0 ∷ rest))
        (strlist_join junk sl (c ∷ separator) join_pos)
unfolding strlist_join
join-ShownAll junk sl xs c separator join_pos piece pieces h shown small =
    let sep : List ℕ = c ∷ separator in
    let all : List ℕ = ended sep (piece ∷ pieces) in
    let text : List ℕ = joined sep (piece ∷ pieces) in
    let start : JoinBuffer = record { buf0 = []; bufsz = 0; bufcap = 0 } in
    let loop : Returns (Joined all)
        (for_range sl.size 0 (join_round junk sl.elvec sep join_pos) start) =
      subst
        (λ n. Returns (Joined all) (for_range n 0 (join_round junk sl.elvec sep join_pos) start))
        (sym h.2)
        (subst
          (λ e.
            Returns (Joined all) (for_range (length xs) 0 (join_round junk e sep join_pos) start))
          (sym h.1)
          (loop_lem junk sep join_pos xs [] h.0 (piece ∷ pieces) start [] 0 refl shown
            ([], refl, refl, refl) (omega (arith, small)))) in
    Returns-bind _ _ loop λ b (j : Joined all b).
      let shape : b.buf0 ≡ text ++ c ∷ (separator ++ j.0) =
        j.1 ∙ ap (λ z. z ++ j.0) (ended-joined sep piece pieces) ∙ append_assoc text sep j.0 in
      let len : length all ≡ length text + length sep =
        ap length (ended-joined sep piece pieces) ∙ length-append text sep in
      (
        text ++ 0 ∷ (separator ++ j.0),
        ap (λ z. store z (b.bufsz - length sep) 0) shape
            ∙ store-append text (separator ++ j.0) c 0 (b.bufsz - length sep)
                (omega (arith, j.2, len)),
        (separator ++ j.0, refl),
      )
