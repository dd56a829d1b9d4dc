-- ===== src/Strlist/Join/Elements.antt =====
-- strlist_join, by the string and the `ext` of each element.
use pass_keeper.Prelude.{
  ℕ, ◌^◌, ◌<◌, ◌≡◌, refl, sym, ap, ◌∙◌, List, [], ◌∷◌, ◌++◌, append-nil, Returns, length,
}
use pass_keeper.Strlist.{Strlist, Elem, Str, Ext, live, dangling, no_ext, text, freed}
use pass_keeper.Strlist.Holding.{Holds}
use pass_keeper.Strlist.Join.{
  JoinExtPos, ext_join_none, ext_join_head, ext_join_tail, chars, ext_chars, head_ext, tail_ext,
  strlist_join,
}
use pass_keeper.Strlist.Join.Piece.{Shown}
use pass_keeper.Strlist.Join.Whole.{joined, ended, ShownAll, join-ShownAll}

-- A string that is not freed, with an `ext` that is asked for before or behind it.
abbrev pub Reads : JoinExtPos → Str → Ext → List ℕ → Type 0
Reads join_pos dangling ext piece = ⊥
Reads ext_join_none (live str) ext piece = piece ≡ str
Reads ext_join_head (live str) no_ext piece = piece ≡ str
Reads ext_join_head (live str) (text ext) piece = piece ≡ ext ++ str
Reads ext_join_head (live str) freed piece = ⊥
Reads ext_join_tail (live str) no_ext piece = piece ≡ str
Reads ext_join_tail (live str) (text ext) piece = piece ≡ str ++ ext
Reads ext_join_tail (live str) freed piece = ⊥

abbrev pub ReadsAll : JoinExtPos → List Elem → List (List ℕ) → Type 0
ReadsAll join_pos [] [] = Unit
ReadsAll join_pos [] (piece ∷ pieces) = ⊥
ReadsAll join_pos (x ∷ xs) [] = ⊥
ReadsAll join_pos (x ∷ xs) (piece ∷ pieces) =
    Reads join_pos x.str x.ext piece × ReadsAll join_pos xs pieces

Reads-Shown :
    (join_pos : JoinExtPos) (str : Str) (ext : Ext) (piece : List ℕ)
    → Reads join_pos str ext piece
    → Shown join_pos (record { str = str; ext = ext }) piece
unfolding chars ext_chars head_ext tail_ext
Reads-Shown ext_join_none dangling ext piece h = absurd h
Reads-Shown ext_join_head dangling ext piece h = absurd h
Reads-Shown ext_join_tail dangling ext piece h = absurd h
Reads-Shown ext_join_none (live str) ext piece h = (str, [], refl, refl, h ∙ sym (append-nil str))
Reads-Shown ext_join_head (live str) no_ext piece h =
    (str, [], refl, refl, h ∙ sym (append-nil str))
Reads-Shown ext_join_head (live str) (text ext) piece h =
    (str, ext, refl, refl, h ∙ ap (ext ++◌) (sym (append-nil str)))
Reads-Shown ext_join_head (live str) freed piece h = absurd h
Reads-Shown ext_join_tail (live str) no_ext piece h =
    (str, [], refl, refl, h ∙ sym (append-nil str))
Reads-Shown ext_join_tail (live str) (text ext) piece h = (str, ext, refl, refl, h)
Reads-Shown ext_join_tail (live str) freed piece h = absurd h

ReadsAll-ShownAll :
    (join_pos : JoinExtPos) (xs : List Elem) (pieces : List (List ℕ))
    → ReadsAll join_pos xs pieces
    → ShownAll join_pos xs pieces
ReadsAll-ShownAll join_pos [] [] h = tt
ReadsAll-ShownAll join_pos [] (piece ∷ pieces) h = absurd h
ReadsAll-ShownAll join_pos (x ∷ xs) [] h = absurd h
ReadsAll-ShownAll join_pos (x ∷ xs) (piece ∷ pieces) (h, k) =
    (Reads-Shown join_pos x.str x.ext piece h, ReadsAll-ShownAll join_pos xs pieces k)

-- strlist_join answers with the strings of the elements, each with its ext before it, behind it
-- or without it as the position says, the separator between them and a NUL at the end, inside its
-- buffer; the list and the separator are not empty, no string and no ext that is asked for is
-- freed, and the text is shorter than 2^56.
pub join_lem :
    (junk : ℕ) (sl : Strlist) (xs : List Elem) (c : ℕ) (separator : List ℕ) (join_pos : JoinExtPos)
    (piece : List ℕ) (pieces : List (List ℕ))
    → Holds sl xs
    → ReadsAll join_pos xs (piece ∷ pieces)
    → length (ended (c ∷ separator) (piece ∷ pieces)) < 2 ^ 56
    → Returns
        (λ buf. (rest : List ℕ) × (buf ≡ joined (c ∷ separator) (piece ∷ pieces) ++ 0 ∷ rest))
        (strlist_join junk sl (c ∷ separator) join_pos)
join_lem junk sl xs c separator join_pos piece pieces h reads small =
    join-ShownAll junk sl xs c separator join_pos piece pieces h
      (ReadsAll-ShownAll join_pos xs (piece ∷ pieces) reads) small
