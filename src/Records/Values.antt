-- ===== src/Records/Values.antt =====
-- src/handle-record.c: reassign_record on the lines of a record.
use pass_keeper.Prelude.{
  ℕ, zero, suc, ◌+◌, ◌^◌, ◌≤◌, ◌<◌, ◌≡◌, refl, sym, ap, subst, ◌∙◌, true, false, not, List, [], ◌∷◌,
  ◌++◌, append_assoc, Option, none, some, Outcome, ok, ◌>>=◌, Returns, Returns-bind, Returns-map,
  if◌then◌else◌, ltb, length, length-append, get_elem?, get_elem?-append, arith,
}
use pass_keeper.Strbuf.{Strbuf, init}
use pass_keeper.Strbuf.Room.{Holds}
use pass_keeper.Strlist.{Strlist}
use pass_keeper.Cipher.Unterminated.{NoNul}
use pass_keeper.Records.{Record, Member, members, init_record, set_member}
use pass_keeper.Records.Reader.{
  begins_with, find_member, take_value, reassign_round, reassign_loop, reassign_record,
}
use pass_keeper.Records.Lines.{
  HasLines, line_at_lem, EndsValue, IsPlain, Took, take_value_none, take_value_some,
}

-- A line with an id, the member that it names, and its value.
pub record Entry : Type 0 where
  pub key : List ℕ
  pub member : Member
  pub value : Option (List ℕ)

abbrev pub IsShortLine : Option (List ℕ) → Type 0
IsShortLine none = Unit
IsShortLine (some v) = IsPlain v × NoNul v × (length v < 2 ^ 53)

-- The id is one, and the value a line that stands for itself.
abbrev pub AreEntries : List Entry → Type 0
AreEntries [] = Unit
AreEntries (e ∷ es) =
    (begins_with b':' e.key ≡ true)
    × (find_member e.key members ≡ some e.member)
    × IsShortLine e.value
    × AreEntries es

abbrev pub lines_of_value : Option (List ℕ) → List (List ℕ)
lines_of_value none = []
lines_of_value (some v) = v ∷ []

abbrev pub lines_of : List Entry → List (List ℕ)
lines_of [] = []
lines_of (e ∷ es) = e.key ∷ (lines_of_value e.value ++ lines_of es)

abbrev pub assign : Member → Option (List ℕ) → Record → Record
assign member none rec = rec
assign member (some v) rec = set_member member v rec

abbrev pub assign_all : List Entry → Record → Record
assign_all [] rec = rec
assign_all (e ∷ es) rec = assign_all es (assign e.member e.value rec)

lines_of-EndsValue : (es : List Entry) → AreEntries es → EndsValue (lines_of es)
lines_of-EndsValue [] h = tt
lines_of-EndsValue (e ∷ es) h = h.0

module _ (junk : ℕ) (lines : Strlist) where
  take_value_lem :
      (i : ℕ) (pre : List (List ℕ)) (key : List ℕ) (value : Option (List ℕ)) (post : List (List ℕ))
      (member : Member) (field : Strbuf) (rec : Record)
      → HasLines lines (pre ++ key ∷ (lines_of_value value ++ post))
      → i ≡ length pre
      → IsShortLine value
      → EndsValue post
      → Holds field []
      → Returns
          (Took (i + 1 + length (lines_of_value value)) (assign member value rec))
          (take_value junk lines i member field rec)
  take_value_lem i pre key none post member field rec h e v ends hold =
      Returns-map (take_value_none junk lines i pre post key member field rec h e ends hold)
        (λ r t. (omega (arith, t.0), t.1, t.2))
  take_value_lem i pre key (some v) post member field rec h e (plain, no_nul, short) ends hold =
      Returns-map
        (take_value_some junk lines i pre post key v member field rec h e plain no_nul short ends
          hold)
        (λ r t. (omega (arith, t.0), t.1, t.2))

  -- The round on a line that is an id, after the loop over the members.
  abbrev pub round_at : ℕ → Strbuf → Record → Option Member → Outcome (ℕ × Strbuf × Record)
  round_at i field rec none = ok (i + 1, field, rec)
  round_at i field rec (some member) = take_value junk lines i member field rec

  pub reassign_round_id :
      (i : ℕ) (pre : List (List ℕ)) (l : List ℕ) (post : List (List ℕ)) (field : Strbuf)
      (rec : Record)
      → HasLines lines (pre ++ l ∷ post)
      → i ≡ length pre
      → begins_with b':' l ≡ true
      → reassign_round junk lines i field rec ≡ round_at i field rec (find_member l members)
  unfolding reassign_round
  reassign_round_id i pre l post field rec h at colon =
      let ls = pre ++ l ∷ post in
      ap
        (λ m. m >>= λ line.
          if not (begins_with b':' line)
          then ok (i + 1, field, rec)
          else elim (find_member line members) as (λ x. Outcome (ℕ × Strbuf × Record)) [
            | none ↦ ok (i + 1, field, rec)
            | some member ↦ take_value junk lines i member field rec
          ])
        (line_at_lem lines ls i l h (ap (get_elem? ls) at ∙ get_elem?-append pre post l))
      ∙ ap
          (λ b.
            if not b
            then ok (i + 1, field, rec)
            else elim (find_member l members) as (λ x. Outcome (ℕ × Strbuf × Record)) [
              | none ↦ ok (i + 1, field, rec)
              | some member ↦ take_value junk lines i member field rec
            ])
          colon
      ∙ either (find_member l members)
    where
      either :
          (o : Option Member)
          → (elim o as (λ x. Outcome (ℕ × Strbuf × Record)) [
            | none ↦ ok (i + 1, field, rec)
            | some member ↦ take_value junk lines i member field rec
          ])
            ≡ round_at i field rec o
      either none = refl
      either (some member) = refl

  reassign_round_lem :
      (i : ℕ) (pre : List (List ℕ)) (e : Entry) (post : List (List ℕ)) (field : Strbuf)
      (rec : Record)
      → HasLines lines (pre ++ e.key ∷ (lines_of_value e.value ++ post))
      → i ≡ length pre
      → begins_with b':' e.key ≡ true
      → find_member e.key members ≡ some e.member
      → IsShortLine e.value
      → EndsValue post
      → Holds field []
      → Returns
          (Took (i + 1 + length (lines_of_value e.value)) (assign e.member e.value rec))
          (reassign_round junk lines i field rec)
  reassign_round_lem i pre e post field rec h at colon found short ends hold =
      subst (Returns (Took (i + 1 + length (lines_of_value e.value)) (assign e.member e.value rec)))
        (sym (
          reassign_round_id i pre e.key (lines_of_value e.value ++ post) field rec h at colon
          ∙ ap (round_at i field rec) found))
        (take_value_lem i pre e.key e.value post e.member field rec h at short ends hold)

  reassign_loop_lem :
      (es : List Entry) (fuel i : ℕ) (pre : List (List ℕ)) (field : Strbuf) (rec : Record)
      → HasLines lines (pre ++ lines_of es)
      → i ≡ length pre
      → length (lines_of es) ≤ fuel
      → AreEntries es
      → Holds field []
      → Returns (λ r. r ≡ assign_all es rec) (reassign_loop fuel junk lines i field rec)
  unfolding reassign_loop
  reassign_loop_lem [] zero i pre field rec h e enough entries hold =
      let done : ltb i lines.size ≡ false = ground (arith, h.2, e, length-append pre []) in
      rw (done) (rec, refl, refl)
  reassign_loop_lem [] (suc fuel) i pre field rec h e enough entries hold =
      let done : ltb i lines.size ≡ false = ground (arith, h.2, e, length-append pre []) in
      rw (reassign_loop, done) (rec, refl, refl)
  reassign_loop_lem (x ∷ es) zero i pre field rec h e enough entries hold = absurd (omega arith)
  reassign_loop_lem (x ∷ es) (suc fuel) i pre field rec h e enough (colon, found, short, entries)
        hold =
      let inside : ltb i lines.size ≡ true =
        ground (arith, h.2, e, length-append pre (lines_of (x ∷ es))) in
      let here : List (List ℕ) = x.key ∷ lines_of_value x.value in
      let split : pre ++ lines_of (x ∷ es) ≡ (pre ++ here) ++ lines_of es =
        sym (append_assoc pre here (lines_of es)) in
      rw (reassign_loop, inside)
        (Returns-bind (reassign_round junk lines i field rec) _
          (reassign_round_lem i pre x (lines_of es) field rec h e colon found short
            (lines_of-EndsValue es entries) hold)
          (λ r t.
            subst
              (λ c. Returns (λ a. a ≡ assign_all es c) (reassign_loop fuel junk lines r.0 r.1 r.2))
              t.2
              (reassign_loop_lem es fuel r.0 (pre ++ here) r.1 r.2 (subst (HasLines lines) split h)
                (omega (arith, t.0, e, length-append pre here))
                (omega (arith, enough, length-append (lines_of_value x.value) (lines_of es)))
                entries t.1)))

  pub reassign_record_lem :
      (es : List Entry)
      → HasLines lines (lines_of es)
      → AreEntries es
      → Returns (λ r. r ≡ assign_all es init_record) (reassign_record junk lines)
  unfolding reassign_record
  reassign_record_lem es h entries =
      reassign_loop_lem es lines.size 0 [] init init_record h refl (omega (arith, h.2)) entries
        (refl, refl, refl)
