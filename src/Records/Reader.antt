-- ===== src/Records/Reader.antt =====
-- src/handle-record.c: read_record_file, on the content of the file.
use pass_keeper.Prelude.{
  ℕ, zero, suc, ◌+◌, Bool, true, false, not, ◌&&◌, List, [], ◌∷◌, Option, none, some, Outcome, ok,
  fault, ◌>>=◌, if◌then◌else◌, ltb, ◌==◌, load, length,
}
use pass_keeper.Strbuf.{Strbuf, init, strbuf_puts, strbuf_write, strbuf_detach}
use pass_keeper.Strlist.{Strlist, Elem, live, dangling, init_dupstr, strlist_split, strlist_filter}
use pass_keeper.Cipher.{c_string, same_string}
use pass_keeper.Records.{Record, init_record, Member, members, set_member, is_incomplete_record}

-- The string of an element that is not freed.
unfoldable pub str_of : Elem → Outcome (List ℕ)
str_of el = elim el.str [ live str ↦ ok str | dangling ↦ fault ]

unfoldable pub line_at : Strlist → ℕ → Outcome (List ℕ)
line_at lines i = do el ← load lines.elvec i; str_of el

-- `*str`, which is NUL for an empty string.
unfoldable pub begins_with : ℕ → List ℕ → Bool
begins_with c [] = false
begins_with c (d ∷ str) = d == c

unfoldable pub is_line : List ℕ → Bool
is_line [] = false
is_line (c ∷ str) = not (c == 0) && not (c == b'#')

-- On strings that are not freed.
unfoldable pub recfile_line_filter : Elem → Bool
recfile_line_filter el = elim el.str [ live str ↦ is_line str | dangling ↦ false ]

unfoldable pub recfile_line_filter_all : Elem → Bool
recfile_line_filter_all el =
    recfile_line_filter el
    && elim el.str [ live str ↦ not (begins_with b':' str) | dangling ↦ false ]

-- The loop with strcmp.
unfoldable pub find_member : List ℕ → List (List ℕ × Member) → Option Member
find_member line [] = none
find_member line (fmap ∷ fmaps) =
    if same_string line fmap.0 then some fmap.1 else find_member line fmaps

-- A line of a value.
unfoldable pub put_line : ℕ → Strbuf → List ℕ → Outcome Strbuf
put_line junk field [] = strbuf_write junk field []
put_line junk field (c ∷ line) =
    if c == b'|' then strbuf_puts junk field line else strbuf_write junk field (c ∷ line)

-- The inner loop: the place behind the lines of a value. Each round takes a line, so that more
-- rounds than the list has lines are enough.
unfoldable pub value_loop : (fuel : ℕ) → ℕ → Strlist → ℕ → Strbuf → Outcome (ℕ × Strbuf)
value_loop zero junk lines ii field = fault
value_loop (suc fuel) junk lines ii field = elim (ltb ii lines.size) [
  | false ↦ ok (ii, field)
  | true ↦ line_at lines ii >>= λ line. elim (begins_with b':' line) [
    | true ↦ ok (ii, field)
    | false ↦ put_line junk field line >>= λ field'. value_loop fuel junk lines (ii + 1) field'
  ]
]

-- What follows a line that is an id: the place of the next id, and the record.
unfoldable pub take_value :
    ℕ → Strlist → ℕ → Member → Strbuf → Record → Outcome (ℕ × Strbuf × Record)
take_value junk lines i member field rec = do
  (ii, field') ← value_loop (suc (suc lines.size)) junk lines (i + 1) field
  (if ii == i + 1 then ok (i + 1, field', rec) else (do
    (array, field'') ← strbuf_detach field'
    value ← c_string array
    ok (ii, field'', set_member member value rec)))

-- One round of the outer loop.
unfoldable pub reassign_round : ℕ → Strlist → ℕ → Strbuf → Record → Outcome (ℕ × Strbuf × Record)
reassign_round junk lines i field rec = do
  line ← line_at lines i
  (if not (begins_with b':' line) then ok (i + 1, field, rec) else elim (find_member line members) [
    | none ↦ ok (i + 1, field, rec)
    | some member ↦ take_value junk lines i member field rec
  ])

-- Each round takes a line or more.
unfoldable pub reassign_loop : (fuel : ℕ) → ℕ → Strlist → ℕ → Strbuf → Record → Outcome Record
reassign_loop zero junk lines i field rec = if ltb i lines.size then fault else ok rec
reassign_loop (suc fuel) junk lines i field rec = elim (ltb i lines.size) [
  | false ↦ ok rec
  | true ↦ reassign_round junk lines i field rec >>= λ r. reassign_loop fuel junk lines r.0 r.1 r.2
]

unfoldable pub reassign_record : ℕ → Strlist → Outcome Record
reassign_record junk lines = reassign_loop lines.size junk lines 0 init init_record

-- 0 with the record; 1 for a file without content; or the error of a record that is not complete.
pub data Reading : Type 0 where
  complete : Record → Reading
  cancelled : Reading
  incomplete : Record → Reading

-- What is done with a record.
unfoldable pub judge_record : Strlist → Record → Outcome Reading
judge_record lines rec =
    if is_incomplete_record rec
    then (do
      lines' ← strlist_filter recfile_line_filter_all false lines
      (if lines'.size == 0 then ok cancelled else ok (incomplete rec)))
    else ok (complete rec)

-- `rec_buf` is the content of the file, without a NUL. For an empty file the code jumps to `cancelled`
-- past the initialisation of the list, and destroys what the pointer then happens to be: undefined.
-- The other calls of strlist_destroy only free.
unfoldable pub read_record_file : (byte_junk : ℕ) → Elem → (rec_buf : List ℕ) → Outcome Reading
read_record_file byte_junk junk rec_buf = if length rec_buf == 0 then fault else (do
  (rec_line, count) ← strlist_split junk init_dupstr rec_buf b'\n' none
  lines ← strlist_filter recfile_line_filter false rec_line
  (if lines.size == 0
      then ok cancelled
      else (reassign_record byte_junk lines >>= λ rec. judge_record lines rec)))
