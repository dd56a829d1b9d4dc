-- ===== src/Records/Assigned.antt =====
-- src/handle-record.c: the record that its own entries make.
use pass_keeper.Prelude.{ℕ, ◌≡◌, refl, ap, ◌∙◌, List, [], ◌∷◌, Option, none, some}
use pass_keeper.Records.{
  Record, Member, members, init_record, get_member, set_member, at_sitename, at_siteurl,
  at_username, at_password, at_guard, at_recovery, at_memo, at_comment,
}
use pass_keeper.Records.Values.{assign, assign_all}
use pass_keeper.Records.Pieces.{entries_of}

-- `*fmap->value = ` with a value that may be null.
abbrev put : Member → Option (List ℕ) → Record → Record
put at_sitename value rec = record rec { sitename = value }
put at_siteurl value rec = record rec { siteurl = value }
put at_username value rec = record rec { username = value }
put at_password value rec = record rec { password = value }
put at_guard value rec = record rec { guard = value }
put at_recovery value rec = record rec { recovery = value }
put at_memo value rec = record rec { memo = value }
put at_comment value rec = record rec { comment = value }

assign-put :
    (m : Member) (value : Option (List ℕ)) (rec : Record)
    → get_member m rec ≡ none
    → assign m value rec ≡ put m value rec
unfolding get_member set_member
assign-put at_sitename none rec h = ap (λ o. put at_sitename o rec) h
assign-put at_siteurl none rec h = ap (λ o. put at_siteurl o rec) h
assign-put at_username none rec h = ap (λ o. put at_username o rec) h
assign-put at_password none rec h = ap (λ o. put at_password o rec) h
assign-put at_guard none rec h = ap (λ o. put at_guard o rec) h
assign-put at_recovery none rec h = ap (λ o. put at_recovery o rec) h
assign-put at_memo none rec h = ap (λ o. put at_memo o rec) h
assign-put at_comment none rec h = ap (λ o. put at_comment o rec) h
assign-put at_sitename (some v) rec h = refl
assign-put at_siteurl (some v) rec h = refl
assign-put at_username (some v) rec h = refl
assign-put at_password (some v) rec h = refl
assign-put at_guard (some v) rec h = refl
assign-put at_recovery (some v) rec h = refl
assign-put at_memo (some v) rec h = refl
assign-put at_comment (some v) rec h = refl

abbrev put_all : Record → List (List ℕ × Member) → Record → Record
put_all rec [] acc = acc
put_all rec (f ∷ fs) acc = put_all rec fs (put f.1 (get_member f.1 rec) acc)

-- The members are null until their turn.
abbrev AreNull : Record → List (List ℕ × Member) → Record → Type 0
AreNull rec [] acc = Unit
AreNull rec (f ∷ fs) acc =
    (get_member f.1 acc ≡ none) × AreNull rec fs (put f.1 (get_member f.1 rec) acc)

assign_all-put_all :
    (rec : Record) (fs : List (List ℕ × Member)) (acc : Record)
    → AreNull rec fs acc
    → assign_all (entries_of rec fs) acc ≡ put_all rec fs acc
assign_all-put_all rec [] acc h = refl
assign_all-put_all rec (f ∷ fs) acc (null, h) =
    ap (assign_all (entries_of rec fs)) (assign-put f.1 (get_member f.1 rec) acc null)
    ∙ assign_all-put_all rec fs (put f.1 (get_member f.1 rec) acc) h

pub assigned : (rec : Record) → assign_all (entries_of rec members) init_record ≡ rec
unfolding get_member
assigned rec =
    assign_all-put_all rec members init_record
      (refl, (refl, (refl, (refl, (refl, (refl, (refl, (refl, tt))))))))
