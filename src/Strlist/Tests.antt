-- ===== src/Strlist/Tests.antt =====
-- The list's theorems at concrete inputs, and runs.
use pass_keeper.Prelude.{
  ℕ, ◌≡◌, refl, Bool, true, false, List, [], ◌∷◌, ◌++◌, arith, none, some, ok, fault, copy_to,
  resize, capacity_grow, grown_capacity, fixed_growth, st_add, st_mult, ◌>>=◌, Returns, length,
  load, store, for_range, replicate,
}
use pass_keeper.Strlist.{
  Strlist, Str, Elem, live, dangling, text, init_dupstr, erased, strlist_split, strlist_filter,
  strlist_erase_at, track_round, move_back, run_length, filter_loop,
}
use pass_keeper.Strlist.Holding.{Holds, of_str}
use pass_keeper.Strlist.{strlist_push, strlist_pop}
use pass_keeper.Strlist.Ends.{pop-push}
use pass_keeper.Strlist.Fields.{fields}
use pass_keeper.Strlist.Split.{Splitting, split_lem}
use pass_keeper.Strlist.Moving.{kept}
use pass_keeper.Strlist.Join.{
  strlist_join, join_round, join_grow, chars, ext_chars, head_ext, tail_ext, ext_join_none,
  ext_join_head,
}
use pass_keeper.Strlist.Join.Whole.{joined, ended}
use pass_keeper.Strlist.Join.Elements.{join_lem}
use pass_keeper.Strlist.Join.RoundTrip.{join-split}
use pass_keeper.Strlist.FilterOne.{filter_one}
use pass_keeper.Strlist.Filter.{Filtered, filter_lem}

abbrev unset : Elem
unset = of_str []

-- At most two fields.
split_lem_example :
    Returns
      (Splitting init_dupstr [] 0 ((b'a' ∷ []) ∷ (b'b' ∷ b',' ∷ b'c' ∷ []) ∷ []))
      (strlist_split unset init_dupstr (b'a' ∷ b',' ∷ b'b' ∷ b',' ∷ b'c' ∷ []) b',' (some 2))
unfolding fields
split_lem_example =
    split_lem unset init_dupstr [] (b'a' ∷ b',' ∷ b'b' ∷ b',' ∷ b'c' ∷ []) b',' (some 2)
      ([], refl, refl, refl) refl refl (omega arith)

abbrev is_live : Str → Bool
is_live (live []) = false
is_live (live _) = true
is_live dangling = false

-- The lines that are not empty.
abbrev has_text : Elem → Bool
has_text el = is_live el.str

abbrev lines : List Elem → Strlist
lines xs = record { elvec = xs; size = length xs; capacity = length xs; dupstr = true }

abbrev a_line : Elem
a_line = of_str (b'a' ∷ [])

abbrev b_line : Elem
b_line = of_str (b'b' ∷ [])

abbrev empty_line : Elem
empty_line = of_str []

abbrev text_lines : List Elem
text_lines = empty_line ∷ a_line ∷ empty_line ∷ b_line ∷ empty_line ∷ []

filter_lem_example :
    Returns
      (Filtered (lines text_lines) (kept has_text text_lines))
      (strlist_filter has_text false (lines text_lines))
filter_lem_example =
    filter_lem has_text false (lines text_lines) text_lines ([], refl, refl, refl) refl

abbrev unterminated : List Elem
unterminated = empty_line ∷ a_line ∷ empty_line ∷ b_line ∷ []

-- The list is shortened before its last elements move: b does not, and a stands twice.
filter_unterminated :
    strlist_filter has_text false (lines unterminated)
    ≡ ok (record {
      elvec = a_line ∷ a_line ∷ erased true false empty_line ∷ b_line ∷ [];
      size = 2;
      capacity = 4;
      dupstr = true;
    })
unfolding strlist_filter strlist_erase_at track_round move_back run_length filter_loop for_range
    load store
filter_unterminated = refl

-- Two lines, the second with an ext that goes before it.
abbrev with_ext : Elem
with_ext = record { str = live (b'b' ∷ []); ext = text (b'>' ∷ []) }

join_lem_example :
    Returns
      (λ buf.
        (rest : List ℕ) × (buf
          ≡ joined (b',' ∷ []) ((b'a' ∷ []) ∷ (b'>' ∷ b'b' ∷ []) ∷ []) ++ 0 ∷ rest))
      (strlist_join 7 (lines (a_line ∷ with_ext ∷ [])) (b',' ∷ []) ext_join_head)
unfolding ended
join_lem_example =
    join_lem 7 (lines (a_line ∷ with_ext ∷ [])) (a_line ∷ with_ext ∷ []) b',' [] ext_join_head
      (b'a' ∷ []) ((b'>' ∷ b'b' ∷ []) ∷ []) ([], refl, refl, refl) (refl, (refl, tt)) (omega arith)

join-split_example :
    Returns
      (λ buf. (rest : List ℕ) × (buf ≡ (b'a' ∷ b',' ∷ b',' ∷ []) ++ 0 ∷ rest))
      (do
        (sl, count) ← strlist_split unset init_dupstr (b'a' ∷ b',' ∷ b',' ∷ []) b',' none
        strlist_join 7 sl (b',' ∷ []) ext_join_none)
join-split_example = join-split unset 7 (b'a' ∷ b',' ∷ b',' ∷ []) b',' none refl (omega arith)

-- No buffer is there to end with a NUL.
join_nothing : strlist_join 7 init_dupstr (b',' ∷ []) ext_join_none ≡ fault
unfolding strlist_join for_range store
join_nothing = refl

-- 24 characters and no separator: the NUL goes behind the buffer.
join_unseparated : strlist_join 7 (lines (of_str (replicate 24 b'a') ∷ [])) [] ext_join_none ≡ fault
unfolding strlist_join join_round join_grow chars ext_chars head_ext tail_ext for_range load store
    copy_to resize capacity_grow grown_capacity fixed_growth st_add st_mult
join_unseparated = refl

pop-push_example :
    Returns
      (λ r. (r.0 ≡ some (of_str (b'z' ∷ []))) × Holds r.1 (a_line ∷ b_line ∷ []))
      (strlist_push unset (lines (a_line ∷ b_line ∷ [])) (b'z' ∷ []) >>= λ pushed.
        strlist_pop pushed.0)
pop-push_example =
    pop-push unset (lines (a_line ∷ b_line ∷ [])) (a_line ∷ b_line ∷ []) (b'z' ∷ [])
      ([], refl, refl, refl) (omega arith)

filter_one_example :
    Returns
      (Filtered (lines (a_line ∷ empty_line ∷ b_line ∷ [])) (a_line ∷ b_line ∷ []))
      (strlist_filter has_text false (lines (a_line ∷ empty_line ∷ b_line ∷ [])))
filter_one_example =
    filter_one has_text false (lines (a_line ∷ empty_line ∷ b_line ∷ [])) (a_line ∷ []) empty_line
      (b_line ∷ []) ([], refl, refl, refl) (refl, tt) refl (refl, tt)
