-- ===== src/Records/Back.antt =====
-- src/handle-record.c: read_record_file on the text of format_recfile_content.
use pass_keeper.Prelude.{
  ℕ, ◌^◌, ◌<◌, ◌≡◌, refl, sym, ap, subst, ◌∙◌, false, List, [], ◌∷◌, ◌++◌, map, none, ok, ◌>>=◌,
  Returns, Returns-bind, Returns-map, if◌then◌else◌, if_not, ◌==◌, length, length-append,
  length-map, arith,
}
use pass_keeper.Strlist.{Strlist, Elem, init_dupstr, strlist_split, strlist_filter}
use pass_keeper.Strlist.Holding.{of_str, Holds}
use pass_keeper.Strlist.Moving.{kept, EndsRejected}
use pass_keeper.Strlist.Split.{split_lem}
use pass_keeper.Strlist.Filter.{filter_lem}
use pass_keeper.Records.{Record, members, format_recfile_content, is_incomplete_record}
use pass_keeper.Records.Reader.{
  recfile_line_filter, complete, cancelled, judge_record, reassign_record, read_record_file,
}
use pass_keeper.Records.Values.{lines_of, reassign_record_lem}
use pass_keeper.Records.Written.{text_of, whole_text, format_recfile_lem}
use pass_keeper.Records.Pieces.{
  lines_in, lines_of_members, lines_in-text_of, AreComments, AreComments-blank, lines_in_newline,
  entries_of, kept_members, EndsRejected-lines, EndsRejected-members,
}
use pass_keeper.Records.OneLine.{
  HasOneLines, members-AreIds, AreUncut-lines, AreKept-lines, AreEntries-lines,
}
use pass_keeper.Records.Assigned.{assigned}

-- Reading the lines of a record's text: the lines that the filter keeps, and the record.
module _ (message : List ℕ) (rec : Record) where
  kept_lem :
      HasOneLines rec members
      → AreComments (lines_in (message ++ b'\n' ∷ []))
      → kept recfile_line_filter (map of_str (lines_in (whole_text message rec)))
        ≡ map of_str (lines_of (entries_of rec members))
  kept_lem lines comments =
      let ls = lines_in (message ++ b'\n' ∷ []) in
      ap (λ z. kept recfile_line_filter (map of_str z))
        (lines_in-text_of rec members (message ++ b'\n' ∷ [])
          (AreUncut-lines rec members members-AreIds lines))
      ∙ kept_members rec members ls (AreKept-lines rec members members-AreIds lines) comments

  ends_lem :
      HasOneLines rec members
      → AreComments (lines_in (message ++ b'\n' ∷ []))
      → EndsRejected recfile_line_filter (map of_str (lines_in (whole_text message rec)))
  ends_lem lines comments =
      subst (λ z. EndsRejected recfile_line_filter (map of_str z))
        (sym (
          lines_in-text_of rec members (message ++ b'\n' ∷ [])
            (AreUncut-lines rec members members-AreIds lines)))
        (EndsRejected-lines (lines_of_members rec members) (lines_in (message ++ b'\n' ∷ []))
          (EndsRejected-members rec members) comments)

  judge_lem :
      (lines : Strlist) (r : Record)
      → r ≡ rec
      → is_incomplete_record rec ≡ false
      → Returns (λ x. x ≡ complete rec) (judge_record lines r)
  unfolding judge_record
  judge_lem lines r e full =
      subst (λ t. Returns (λ x. x ≡ complete rec) (judge_record lines t)) (sym e)
        (complete rec, if_not (is_incomplete_record rec) full _ _, refl)

  rest_lem :
      (byte_junk : ℕ) (lines : Strlist)
      → Holds lines (map of_str (lines_of (entries_of rec members)))
      → HasOneLines rec members
      → is_incomplete_record rec ≡ false
      → length (whole_text message rec) < 2 ^ 53
      → Returns
          (λ x. x ≡ complete rec)
          (if lines.size == 0
            then ok cancelled
            else (reassign_record byte_junk lines >>= λ r. judge_record lines r))
  rest_lem byte_junk lines (cells, e, n, whole) one full short =
      let es = entries_of rec members in
      let count = length-map (lines_of es) of_str in
      let total = length-append (text_of rec members) (message ++ b'\n' ∷ []) in
      let filled : (lines.size == 0) ≡ false = ground (arith, n, count) in
      rw (filled) (
        Returns-bind (reassign_record byte_junk lines) _
          (reassign_record_lem byte_junk lines es (cells, e, n ∙ count)
            (AreEntries-lines rec members members-AreIds one (omega (arith, total))))
          (λ r same. judge_lem lines r (same ∙ assigned rec) full))

  read_lem :
      (byte_junk : ℕ) (junk : Elem)
      → HasOneLines rec members
      → is_incomplete_record rec ≡ false
      → AreComments (lines_in (message ++ b'\n' ∷ []))
      → length (whole_text message rec) < 2 ^ 53
      → Returns (λ x. x ≡ complete rec) (read_record_file byte_junk junk (whole_text message rec))
  unfolding read_record_file
  read_lem byte_junk junk one full comments short =
      let text = whole_text message rec in
      let total = length-append (text_of rec members) (message ++ b'\n' ∷ []) in
      let tail = length-append message (b'\n' ∷ []) in
      let some_text : (length text == 0) ≡ false = ground (arith, total, tail) in
      rw (some_text) (
        Returns-bind (strlist_split junk init_dupstr text b'\n' none) _
          (split_lem junk init_dupstr [] text b'\n' none ([], refl, refl, refl) refl refl
            (omega arith))
          (λ r h.
            Returns-bind (strlist_filter recfile_line_filter false r.0) _
              (filter_lem recfile_line_filter false r.0 (map of_str (lines_in text)) h.0
                (ends_lem one comments))
              (λ sl f.
                rest_lem byte_junk sl (subst (Holds sl) (kept_lem one comments) f.0) one full
                  short)))

-- format_recfile_content writes, and read_record_file reads of that text the same record, for a
-- record that is complete and whose values are null or one line that is not blank and begins with
-- none of #, : and |, where every line of COMMON_RECORD_MESSAGE is empty or a comment and the
-- whole text is shorter than 2^53.
pub record_roundtrip_lem :
    (byte_junk : ℕ) (junk : Elem) (message : List ℕ) (rec : Record)
    → HasOneLines rec members
    → is_incomplete_record rec ≡ false
    → AreComments (lines_in message)
    → length (whole_text message rec) < 2 ^ 53
    → Returns
        (λ text. Returns (λ x. x ≡ complete rec) (read_record_file byte_junk junk text))
        (format_recfile_content byte_junk message rec)
record_roundtrip_lem byte_junk junk message rec one full comments short =
    Returns-map (format_recfile_lem byte_junk message rec short) (λ text e.
      subst (λ t. Returns (λ x. x ≡ complete rec) (read_record_file byte_junk junk t)) (sym e)
        (read_lem message rec byte_junk junk one full
          (subst AreComments (sym (lines_in_newline message))
            (AreComments-blank (lines_in message) comments))
          short))
