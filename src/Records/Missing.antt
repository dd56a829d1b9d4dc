-- ===== src/Records/Missing.antt =====
-- src/handle-record.c: format_missing_field, the required field that an incomplete record lacks.
use pass_keeper.Prelude.{
  ℕ, ◌≡◌, refl, sym, ap, inl, inr, Bool-cases, true, false, ◌||◌, List, [], ◌∷◌, Outcome, ok,
  bugged, ◌>>=◌, if◌then◌else◌, load, store, for_range, ◌∙◌, capacity_grow, grown_capacity,
  fixed_growth, st_add, st_mult, resize, copy_to,
}
use pass_keeper.Text.{is_blank_str}
use pass_keeper.Strlist.{Strlist, Elem, strlist_push, strlist_push_nodup}
use pass_keeper.Strlist.Join.{
  strlist_join, ext_join_tail, chars, ext_chars, head_ext, tail_ext, join_grow, join_round,
}
use pass_keeper.Cipher.{c_string}
use pass_keeper.Records.{Record, is_incomplete_record}

abbrev pub sitename_field : List ℕ
sitename_field = b's' ∷ b'i' ∷ b't' ∷ b'e' ∷ b'n' ∷ b'a' ∷ b'm' ∷ b'e' ∷ []

abbrev pub password_field : List ℕ
password_field = b'p' ∷ b'a' ∷ b's' ∷ b's' ∷ b'w' ∷ b'o' ∷ b'r' ∷ b'd' ∷ []

-- STRLIST_INIT_PTR_NODUP
abbrev pub init_nodup : Strlist
init_nodup = record { elvec = []; size = 0; capacity = 0; dupstr = false }

-- The names in fmap0, as many as `fcount`.
unfoldable pub missing_fields : Record → Outcome (List (List ℕ))
missing_fields rec =
    if is_blank_str rec.sitename
    then ok (sitename_field ∷ [])
    else (if is_blank_str rec.password then ok (password_field ∷ []) else bugged)

-- The switch on `fcount`.
unfoldable pub push_fields : Elem → Strlist → List (List ℕ) → Outcome Strlist
push_fields junk message (field ∷ []) = do pushed ← strlist_push junk message field; ok pushed.0
push_fields junk message (first ∷ (second ∷ [])) = do
  pushed ← strlist_push junk message first
  joined ← strlist_push junk pushed.0 (b'a' ∷ b'n' ∷ b'd' ∷ [])
  last ← strlist_push junk joined.0 second
  ok last.0
push_fields junk message _ = bugged

unfoldable pub format_missing_field : (byte_junk : ℕ) → (junk : Elem) → Record → Outcome (List ℕ)
format_missing_field byte_junk junk rec = do
  fields ← missing_fields rec
  message ← push_fields junk init_nodup fields
  buf ← strlist_join byte_junk message (b' ' ∷ []) ext_join_tail
  c_string buf

-- One name, joined.
abbrev named : ℕ → Elem → List ℕ → Outcome (List ℕ)
named byte_junk junk field = do
  message ← push_fields junk init_nodup (field ∷ [])
  buf ← strlist_join byte_junk message (b' ' ∷ []) ext_join_tail
  c_string buf

named_sitename :
    (byte_junk : ℕ) (junk : Elem) → named byte_junk junk sitename_field ≡ ok sitename_field
unfolding push_fields strlist_push strlist_push_nodup strlist_join join_round join_grow chars
    ext_chars head_ext tail_ext for_range load store c_string capacity_grow grown_capacity
    fixed_growth st_add st_mult resize copy_to
named_sitename byte_junk junk = refl

named_password :
    (byte_junk : ℕ) (junk : Elem) → named byte_junk junk password_field ≡ ok password_field
unfolding push_fields strlist_push strlist_push_nodup strlist_join join_round join_grow chars
    ext_chars head_ext tail_ext for_range load store c_string capacity_grow grown_capacity
    fixed_growth st_add st_mult resize copy_to
named_password byte_junk junk = refl

-- format_missing_field of an incomplete record returns sitename where the sitename is blank, and
-- password otherwise.
pub missing_field_lem :
    (byte_junk : ℕ) (junk : Elem) (rec : Record)
    → is_incomplete_record rec ≡ true
    → format_missing_field byte_junk junk rec
      ≡ ok (if is_blank_str rec.sitename then sitename_field else password_field)
unfolding format_missing_field missing_fields is_incomplete_record
missing_field_lem byte_junk junk rec h = elim (Bool-cases (is_blank_str rec.sitename)) [
  | inl e ↦ rw (e) (named_sitename byte_junk junk)
  | inr e ↦
      let p : is_blank_str rec.password ≡ true =
        sym (ap (λ b. b || is_blank_str rec.password) e) ∙ h in
      rw (e, p) (named_password byte_junk junk)
]
