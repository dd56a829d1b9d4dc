-- ===== src/Records/Cancelled.antt =====
-- src/handle-record.c: read_record_file on a file whose ids have no values.
use pass_keeper.Prelude.{
  ℕ, zero, suc, ◌+◌, ◌^◌, ◌≤◌, ◌<◌, ◌≡◌, refl, sym, ap, subst, ◌∙◌, inl, inr, Bool-cases, Bool,
  true, false, not, ◌&&◌, List, [], ◌∷◌, ◌++◌, append_assoc, map, Option, none, some, ok, ◌>>=◌,
  Returns, Returns-bind, if◌then◌else◌, ltb, ◌==◌, length, length-append, length-map, arith,
}
use pass_keeper.Text.{is_blank_str}
use pass_keeper.Strbuf.{Strbuf, init}
use pass_keeper.Strbuf.Room.{Holds}
use pass_keeper.Strlist.{Strlist, Elem, init_dupstr, strlist_split, strlist_filter}
use pass_keeper.Strlist.Holding.{of_str, Holds as Contains}
use pass_keeper.Strlist.Moving.{kept, EndsRejected}
use pass_keeper.Strlist.Split.{split_lem}
use pass_keeper.Strlist.Filter.{filter_lem}
use pass_keeper.Records.{Record, Member, members, init_record, is_incomplete_record}
use pass_keeper.Records.Reader.{
  begins_with, find_member, is_line, recfile_line_filter, recfile_line_filter_all, reassign_round,
  reassign_loop, reassign_record, cancelled, judge_record, read_record_file,
}
use pass_keeper.Records.Lines.{HasLines, EndsValue, Took, take_value_none}
use pass_keeper.Records.Values.{round_at, reassign_round_id}
use pass_keeper.Records.Pieces.{lines_in, lines_in_newline}

-- Ids, known ones or not.
abbrev AreIds : List (List ℕ) → Type 0
AreIds [] = Unit
AreIds (l ∷ ls) = (begins_with b':' l ≡ true) × AreIds ls

AreIds-EndsValue : (ls : List (List ℕ)) → AreIds ls → EndsValue ls
AreIds-EndsValue [] h = tt
AreIds-EndsValue (l ∷ ls) h = h.0

module _ (junk : ℕ) (lines : Strlist) where
  round_at_lem :
      (i : ℕ) (pre : List (List ℕ)) (l : List ℕ) (post : List (List ℕ)) (field : Strbuf)
      (rec : Record) (o : Option Member)
      → HasLines lines (pre ++ l ∷ post)
      → i ≡ length pre
      → AreIds post
      → Holds field []
      → Returns (Took (i + 1) rec) (round_at junk lines i field rec o)
  round_at_lem i pre l post field rec none h at ids hold =
      ((i + 1, field, rec), refl, (refl, hold, refl))
  round_at_lem i pre l post field rec (some member) h at ids hold =
      take_value_none junk lines i pre post l member field rec h at (AreIds-EndsValue post ids) hold

  reassign_loop_ids :
      (ls : List (List ℕ)) (fuel i : ℕ) (pre : List (List ℕ)) (field : Strbuf) (rec : Record)
      → HasLines lines (pre ++ ls)
      → i ≡ length pre
      → length ls ≤ fuel
      → AreIds ls
      → Holds field []
      → Returns (λ r. r ≡ rec) (reassign_loop fuel junk lines i field rec)
  unfolding reassign_loop
  reassign_loop_ids [] zero i pre field rec h e enough ids hold =
      let done : ltb i lines.size ≡ false = ground (arith, h.2, e, length-append pre []) in
      rw (done) (rec, refl, refl)
  reassign_loop_ids [] (suc fuel) i pre field rec h e enough ids hold =
      let done : ltb i lines.size ≡ false = ground (arith, h.2, e, length-append pre []) in
      rw (reassign_loop, done) (rec, refl, refl)
  reassign_loop_ids (l ∷ ls) zero i pre field rec h e enough ids hold = absurd (omega arith)
  reassign_loop_ids (l ∷ ls) (suc fuel) i pre field rec h e enough (colon, ids) hold =
      let inside : ltb i lines.size ≡ true = ground (arith, h.2, e, length-append pre (l ∷ ls)) in
      let split : pre ++ l ∷ ls ≡ (pre ++ l ∷ []) ++ ls = sym (append_assoc pre (l ∷ []) ls) in
      rw (reassign_loop, inside)
        (Returns-bind (reassign_round junk lines i field rec) _
          (subst (Returns (Took (i + 1) rec))
            (sym (reassign_round_id junk lines i pre l ls field rec h e colon))
            (round_at_lem i pre l ls field rec (find_member l members) h e ids hold))
          (λ r t.
            subst (λ c. Returns (λ a. a ≡ c) (reassign_loop fuel junk lines r.0 r.1 r.2)) t.2
              (reassign_loop_ids ls fuel r.0 (pre ++ l ∷ []) r.1 r.2
                (subst (HasLines lines) split h) (omega (arith, t.0, e, length-append pre (l ∷ [])))
                (omega arith) ids t.1)))

-- The lines that the first filter keeps.
abbrev lines_kept : List (List ℕ) → List (List ℕ)
lines_kept [] = []
lines_kept (l ∷ ls) = if is_line l then l ∷ lines_kept ls else lines_kept ls

-- Every line is empty, a comment or an id.
abbrev pub HasNoValues : List (List ℕ) → Type 0
HasNoValues [] = Unit
HasNoValues (l ∷ ls) = ((is_line l && not (begins_with b':' l)) ≡ false) × HasNoValues ls

lines_kept_lem :
    (ls : List (List ℕ)) → kept recfile_line_filter (map of_str ls) ≡ map of_str (lines_kept ls)
unfolding kept recfile_line_filter
lines_kept_lem [] = refl
lines_kept_lem (l ∷ ls) = elim (Bool-cases (is_line l)) [
  | inl e ↦ rw (e) (ap (of_str l ∷◌) (lines_kept_lem ls))
  | inr e ↦ rw (e) (lines_kept_lem ls)
]

lines_kept-AreIds : (ls : List (List ℕ)) → HasNoValues ls → AreIds (lines_kept ls)
lines_kept-AreIds [] h = tt
lines_kept-AreIds (l ∷ ls) (no_value, h) =
    go (is_line l) (begins_with b':' l) refl no_value (lines_kept-AreIds ls h)
  where
    go :
        (b c : Bool)
        → c ≡ begins_with b':' l
        → (b && not c) ≡ false
        → AreIds (lines_kept ls)
        → AreIds (if b then l ∷ lines_kept ls else lines_kept ls)
    go true true e n ids = (sym e, ids)
    go true false e n ids = absurd (cc)
    go false c e n ids = ids

no_id : (l : List ℕ) → begins_with b':' l ≡ true → recfile_line_filter_all (of_str l) ≡ false
unfolding recfile_line_filter_all recfile_line_filter
no_id l colon = ap (λ b. is_line l && not b) colon ∙ never (is_line l)
  where
    never : (b : Bool) → (b && false) ≡ false
    never true = refl
    never false = refl

-- The second filter keeps nothing of ids.
kept-ids : (ls : List (List ℕ)) → AreIds ls → kept recfile_line_filter_all (map of_str ls) ≡ []
unfolding kept
kept-ids [] h = refl
kept-ids (l ∷ ls) (colon, h) = rw (no_id l colon) (kept-ids ls h)

EndsRejected-ids :
    (ls : List (List ℕ)) → AreIds ls → EndsRejected recfile_line_filter_all (map of_str ls)
EndsRejected-ids [] h = tt
EndsRejected-ids (l ∷ []) h = no_id l h.0
EndsRejected-ids (l ∷ (k ∷ ls)) h = EndsRejected-ids (k ∷ ls) h.1

EndsRejected-blank :
    (xs : List (List ℕ)) → EndsRejected recfile_line_filter (map of_str (xs ++ [] ∷ []))
unfolding recfile_line_filter is_line
EndsRejected-blank [] = refl
EndsRejected-blank (x ∷ []) = refl
EndsRejected-blank (x ∷ (y ∷ xs)) = EndsRejected-blank (y ∷ xs)

HasNoValues-blank : (ls : List (List ℕ)) → HasNoValues ls → HasNoValues (ls ++ [] ∷ [])
unfolding is_line
HasNoValues-blank [] h = (refl, tt)
HasNoValues-blank (l ∷ ls) h = (h.0, HasNoValues-blank ls h.1)

judge_ids :
    (lines : Strlist) (ls : List (List ℕ)) (r : Record)
    → Contains lines (map of_str ls)
    → AreIds ls
    → r ≡ init_record
    → judge_record lines r ≡ ok cancelled
unfolding judge_record is_incomplete_record is_blank_str
judge_ids lines ls r hold ids e =
    let f =
      filter_lem recfile_line_filter_all false lines (map of_str ls) hold
        (EndsRejected-ids ls ids) in
    let empty : (f.0.size == 0) ≡ true = ground (arith, f.2.0.2, ap length (kept-ids ls ids)) in
    rw (e, f.1, empty) refl

read_ids :
    (byte_junk : ℕ) (lines : Strlist) (ls : List (List ℕ))
    → Contains lines (map of_str ls)
    → AreIds ls
    → Returns
        (λ x. x ≡ cancelled)
        (if lines.size == 0
          then ok cancelled
          else (reassign_record byte_junk lines >>= λ r. judge_record lines r))
unfolding reassign_record
read_ids byte_junk lines ls (cells, e, n, whole) ids =
    let count = length-map ls of_str in
    elim (Bool-cases (lines.size == 0)) [
      | inl empty ↦ rw (empty) (cancelled, refl, refl)
      | inr more ↦ rw (more) (
          Returns-bind (reassign_record byte_junk lines) _
            (reassign_loop_ids byte_junk lines ls lines.size 0 [] init init_record
              (cells, e, n ∙ count) refl (omega (arith, n, count)) ids (refl, refl, refl))
            (λ r same. (cancelled, judge_ids lines ls r (cells, e, n, whole) ids same, refl)))
    ]

-- read_record_file answers that the creation is aborted on every text of fewer than 2^55 - 1
-- characters and a final line feed whose lines are each empty, a comment or begin with a colon.
pub cancelled_lem :
    (byte_junk : ℕ) (junk : Elem) (text : List ℕ)
    → HasNoValues (lines_in text)
    → length text + 1 < 2 ^ 55
    → Returns (λ x. x ≡ cancelled) (read_record_file byte_junk junk (text ++ b'\n' ∷ []))
unfolding read_record_file
cancelled_lem byte_junk junk text h short =
    let file = text ++ b'\n' ∷ [] in
    let ls = lines_in text ++ [] ∷ [] in
    let long = length-append text (b'\n' ∷ []) in
    let some_text : (length file == 0) ≡ false = ground (arith, long) in
    rw (some_text) (
      Returns-bind (strlist_split junk init_dupstr file b'\n' none) _
        (split_lem junk init_dupstr [] file b'\n' none ([], refl, refl, refl) refl refl
          (omega (arith, long)))
        (λ r split.
          let held = subst (λ z. Contains r.0 (map of_str z)) (lines_in_newline text) split.0 in
          Returns-bind (strlist_filter recfile_line_filter false r.0) _
            (filter_lem recfile_line_filter false r.0 (map of_str ls) held
              (EndsRejected-blank (lines_in text)))
            (λ sl f.
              read_ids byte_junk sl (lines_kept ls) (subst (Contains sl) (lines_kept_lem ls) f.0)
                (lines_kept-AreIds ls (HasNoValues-blank (lines_in text) h)))))
