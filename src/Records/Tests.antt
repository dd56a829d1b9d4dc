-- ===== src/Records/Tests.antt =====
-- The text of records at concrete inputs.
use pass_keeper.Prelude.{
  ℕ, ◌≡◌, refl, true, false, List, [], ◌∷◌, ◌++◌, none, some, arith, ok, ◌>>=◌, Returns,
  capacity_grow, grown_capacity, fixed_growth, st_add, st_mult, store, resize, copy_to, for_range,
  copy_from, load,
}
use pass_keeper.Text.{is_blank_str, is_empty_str, all_space}
use pass_keeper.Strlist.{
  Elem, dangling, no_ext, erased, filter_loop, free_ext, is_last_split, move_back, run_length,
  split_loop, strchr, strlist_erase_at, strlist_filter, strlist_push, strlist_push_nodup,
  strlist_split, track_round,
}
use pass_keeper.Strbuf.{
  strbuf_puts, strbuf_size_avail, strbuf_grow, store_byte, realloc, cells, copy_bytes,
  strbuf_addlen, is_defbuf, strbuf_detach, strbuf_putchar, strbuf_setlen, strbuf_trunc,
  strbuf_write,
}
use pass_keeper.Strlist.Fields.{fields}
use pass_keeper.Cipher.{same_string, c_string}
use pass_keeper.Records.{
  Record, init_record, get_member, format_recfile_content, is_incomplete_record,
  is_need_transaction, not_null, one_if, have_security_group, have_misc_group, put_members,
  put_value, set_member,
}
use pass_keeper.Records.Reader.{
  is_line, begins_with, complete, cancelled, incomplete, read_record_file, find_member,
  judge_record, line_at, put_line, reassign_loop, reassign_record, reassign_round,
  recfile_line_filter, recfile_line_filter_all, str_of, take_value, value_loop,
}
use pass_keeper.Records.Back.{record_roundtrip_lem}
use pass_keeper.Records.Cancelled.{cancelled_lem}
use pass_keeper.Records.Missing.{format_missing_field, missing_field_lem, sitename_field}

-- What an element that is not set reads as.
abbrev unset : Elem
unset = record { str = dangling; ext = no_ext }

-- A site and a password.
abbrev account : Record
account = record init_record {
  sitename = some (b'a' ∷ b'b' ∷ []);
  password = some (b'#' ∷ []);
  comment = some (b'c' ∷ []);
}

abbrev readable : Record
readable = record init_record {
  sitename = some (b'a' ∷ b' ' ∷ b'b' ∷ []);
  password = some (b'x' ∷ b'#' ∷ []);
  comment = some (b'c' ∷ []);
}

-- A line of the message, and its last line.
abbrev notice : List ℕ
notice = b'#' ∷ b'n' ∷ b'\n' ∷ b'#' ∷ []

record_roundtrip_lem_example :
    Returns
      (λ text. Returns (λ x. x ≡ complete readable) (read_record_file 170 unset text))
      (format_recfile_content 170 notice readable)
unfolding is_line is_blank_str is_empty_str all_space fields is_incomplete_record get_member
record_roundtrip_lem_example =
    record_roundtrip_lem 170 unset notice readable
      (
        ((refl, refl), (refl, (refl, (refl, tt))), (refl, (refl, (refl, tt))), refl, refl),
        (
          tt,
          (
            tt,
            (
              ((refl, refl), (refl, (refl, tt)), (refl, (refl, tt)), refl, refl),
              (tt, (tt, (tt, (((refl, refl), (refl, tt), (refl, tt), refl, refl), tt)))),
            ),
          ),
        ),
      )
      refl (refl, (refl, tt)) (omega arith)

-- An id that is not one of a member, a comment and an id without a value.
abbrev no_values : List ℕ
no_values = b':' ∷ b'x' ∷ b'\n' ∷ b'#' ∷ b'y' ∷ b'\n' ∷ b':' ∷ b'm' ∷ b'e' ∷ b'm' ∷ b'o' ∷ b':' ∷ []

cancelled_lem_example :
    Returns (λ x. x ≡ cancelled) (read_record_file 170 unset (no_values ++ b'\n' ∷ []))
unfolding is_line begins_with fields
cancelled_lem_example = cancelled_lem 170 unset no_values (refl, (refl, (refl, tt))) (omega arith)

-- Both fields are missing.
missing_field_lem_example : format_missing_field 170 unset init_record ≡ ok sitename_field
unfolding is_incomplete_record is_blank_str
missing_field_lem_example = missing_field_lem 170 unset init_record refl

-- A password that begins with the sign of a comment is not read back.
hash_lost :
    (format_recfile_content 170 notice account >>= read_record_file 170 unset)
    ≡ ok (incomplete (record account { password = none }))
unfolding format_recfile_content read_record_file put_members strbuf_puts strbuf_size_avail
    strbuf_grow capacity_grow grown_capacity fixed_growth st_add st_mult store_byte realloc store
    resize cells copy_bytes copy_to strbuf_addlen c_string same_string for_range copy_from load
    begins_with find_member get_member is_incomplete_record is_line judge_record line_at put_line
    put_value reassign_loop reassign_record reassign_round recfile_line_filter
    recfile_line_filter_all set_member str_of take_value value_loop is_defbuf strbuf_detach
    strbuf_putchar strbuf_setlen strbuf_trunc strbuf_write erased filter_loop free_ext is_last_split
    move_back run_length split_loop strchr strlist_erase_at strlist_filter strlist_push
    strlist_push_nodup strlist_split track_round all_space is_blank_str is_empty_str
hash_lost = refl

two_groups : is_need_transaction account ≡ true
unfolding is_need_transaction not_null one_if have_security_group have_misc_group
two_groups = refl

one_group : is_need_transaction (record account { comment = none }) ≡ false
unfolding is_need_transaction not_null one_if have_security_group have_misc_group
one_group = refl
