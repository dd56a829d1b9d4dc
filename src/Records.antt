-- ===== src/Records.antt =====
-- src/handle-record.c and src/handle-record.h: a record as the text of a file that the user edits. A
-- string is its characters; COMMON_RECORD_MESSAGE is a parameter, and so is the file's content.
pub mod Reader
pub mod Lines
pub mod Values
pub mod Written
pub mod Pieces
pub mod OneLine
pub mod Assigned
pub mod Back
pub mod Cancelled
pub mod Missing
mod Tests
use pass_keeper.Prelude.{
  ℕ, zero, suc, ◌+◌, ◌-◌, Bool, true, false, not, ◌&&◌, ◌||◌, List, [], ◌∷◌, ◌++◌, Option, none,
  some, Outcome, ok, bugged, fault, ◌>>=◌, if◌then◌else◌, ltb, ◌==◌, take, load, length,
}
use pass_keeper.Text.{is_blank_str}
use pass_keeper.Strbuf.{
  Strbuf, init, cells, strbuf_puts, strbuf_putchar, strbuf_write, strbuf_detach,
}
use pass_keeper.Strlist.{
  Strlist, Elem, Str, live, dangling, init_dupstr, strlist_split, strlist_filter,
}
use pass_keeper.Cipher.{c_string, same_string}

-- `struct record`
pub record Record : Type 0 where
  pub sitename : Option (List ℕ)
  pub siteurl : Option (List ℕ)
  pub username : Option (List ℕ)
  pub password : Option (List ℕ)
  pub guard : Option (List ℕ)
  pub recovery : Option (List ℕ)
  pub memo : Option (List ℕ)
  pub comment : Option (List ℕ)

-- INIT_RECORD, and the memset of reassign_record.
abbrev pub init_record : Record
init_record = record {
  sitename = none;
  siteurl = none;
  username = none;
  password = none;
  guard = none;
  recovery = none;
  memo = none;
  comment = none;
}

-- A name between colons.
abbrev pub id : List ℕ → List ℕ
id name = b':' ∷ (name ++ b':' ∷ [])

-- SITENAME_ID
abbrev pub sitename_id : List ℕ
sitename_id = id (b's' ∷ b'i' ∷ b't' ∷ b'e' ∷ b'n' ∷ b'a' ∷ b'm' ∷ b'e' ∷ [])

-- SITEURL_ID
abbrev pub siteurl_id : List ℕ
siteurl_id = id (b's' ∷ b'i' ∷ b't' ∷ b'e' ∷ b'u' ∷ b'r' ∷ b'l' ∷ [])

-- USERNAME_ID
abbrev pub username_id : List ℕ
username_id = id (b'u' ∷ b's' ∷ b'e' ∷ b'r' ∷ b'n' ∷ b'a' ∷ b'm' ∷ b'e' ∷ [])

-- PASSWORD_ID
abbrev pub password_id : List ℕ
password_id = id (b'p' ∷ b'a' ∷ b's' ∷ b's' ∷ b'w' ∷ b'o' ∷ b'r' ∷ b'd' ∷ [])

-- GUARD_ID
abbrev pub guard_id : List ℕ
guard_id = id (b'g' ∷ b'u' ∷ b'a' ∷ b'r' ∷ b'd' ∷ [])

-- RECOVERY_ID
abbrev pub recovery_id : List ℕ
recovery_id = id (b'r' ∷ b'e' ∷ b'c' ∷ b'o' ∷ b'v' ∷ b'e' ∷ b'r' ∷ b'y' ∷ [])

-- MEMO_ID
abbrev pub memo_id : List ℕ
memo_id = id (b'm' ∷ b'e' ∷ b'm' ∷ b'o' ∷ [])

-- COMMENT_ID
abbrev pub comment_id : List ℕ
comment_id = id (b'c' ∷ b'o' ∷ b'm' ∷ b'm' ∷ b'e' ∷ b'n' ∷ b't' ∷ [])

-- A member of the record.
pub data Member : Type 0 where
  at_sitename at_siteurl at_username at_password at_guard at_recovery at_memo at_comment : Member

-- fmap0 of reassign_record.
abbrev pub members : List (List ℕ × Member)
members =
    (sitename_id, at_sitename)
    ∷ ((siteurl_id, at_siteurl)
        ∷ ((username_id, at_username)
            ∷ ((password_id, at_password)
                ∷ ((guard_id, at_guard)
                    ∷ ((recovery_id, at_recovery)
                        ∷ ((memo_id, at_memo) ∷ ((comment_id, at_comment) ∷ [])))))))

unfoldable pub get_member : Member → Record → Option (List ℕ)
get_member at_sitename rec = rec.sitename
get_member at_siteurl rec = rec.siteurl
get_member at_username rec = rec.username
get_member at_password rec = rec.password
get_member at_guard rec = rec.guard
get_member at_recovery rec = rec.recovery
get_member at_memo rec = rec.memo
get_member at_comment rec = rec.comment

-- `*fmap->value = `
unfoldable pub set_member : Member → List ℕ → Record → Record
set_member at_sitename value rec = record rec { sitename = some value }
set_member at_siteurl value rec = record rec { siteurl = some value }
set_member at_username value rec = record rec { username = some value }
set_member at_password value rec = record rec { password = some value }
set_member at_guard value rec = record rec { guard = some value }
set_member at_recovery value rec = record rec { recovery = some value }
set_member at_memo value rec = record rec { memo = some value }
set_member at_comment value rec = record rec { comment = some value }

-- The value, or an empty line for a blank one.
unfoldable pub put_value : ℕ → Strbuf → Option (List ℕ) → Outcome Strbuf
put_value junk sb none = strbuf_putchar junk sb b'\n'
put_value junk sb (some val) =
    if not (is_blank_str (some val)) then strbuf_puts junk sb val else strbuf_putchar junk sb b'\n'

-- The loop of format_recfile_content.
unfoldable pub put_members : ℕ → Record → List (List ℕ × Member) → Strbuf → Outcome Strbuf
put_members junk rec [] message = ok message
put_members junk rec (fmap ∷ fmaps) message = do
  keyed ← strbuf_puts junk message fmap.0
  valued ← put_value junk keyed (get_member fmap.1 rec)
  closed ← strbuf_putchar junk valued b'\n'
  put_members junk rec fmaps closed

-- The text, without its NUL, whose length is `*outlen`.
unfoldable pub format_recfile_content :
    ℕ → (common_record_message : List ℕ) → Record → Outcome (List ℕ)
format_recfile_content junk common_record_message rec = do
  message ← put_members junk rec members init
  whole ← strbuf_puts junk message common_record_message
  (if whole.length == 0 then bugged else ok (take whole.length (cells whole.buf)))

unfoldable pub is_incomplete_record : Record → Bool
is_incomplete_record rec = is_blank_str rec.sitename || is_blank_str rec.password

unfoldable pub not_null : Option (List ℕ) → Bool
not_null none = false
not_null (some str) = true

unfoldable pub have_security_group : Record → Bool
have_security_group rec = not_null rec.guard || (not_null rec.recovery || not_null rec.memo)

unfoldable pub have_misc_group : Record → Bool
have_misc_group rec = not_null rec.comment

unfoldable pub one_if : Bool → ℕ
one_if true = 1
one_if false = 0

unfoldable pub is_need_transaction : Record → Bool
is_need_transaction rec = ltb 1 (
    one_if (
      not_null rec.sitename
      || (not_null rec.siteurl || (not_null rec.username || not_null rec.password)))
    + one_if (have_security_group rec)
    + one_if (have_misc_group rec))
