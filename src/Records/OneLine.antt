-- ===== src/Records/OneLine.antt =====
-- src/handle-record.c: records whose values are single lines.
use pass_keeper.Prelude.{
  ℕ, ◌^◌, ◌<◌, ◌≡◌, refl, sym, subst, true, false, List, [], ◌∷◌, ◌++◌, Option, none, some, length,
  length-append, arith,
}
use pass_keeper.Text.{is_blank_str}
use pass_keeper.Cipher.{same_string}
use pass_keeper.Cipher.Unterminated.{NoNul}
use pass_keeper.Records.{Record, Member, members, get_member}
use pass_keeper.Records.Reader.{begins_with, find_member, is_line}
use pass_keeper.Records.Lines.{IsPlain}
use pass_keeper.Records.Values.{IsShortLine, AreEntries}
use pass_keeper.Records.Written.{shown, text_of_member, text_of}
use pass_keeper.Records.Pieces.{NoNewline, AreUncut, entries_of, IsKept, AreKept}

-- No value, or one line that is neither a comment nor blank and has no sign in front.
abbrev pub IsOneLine : Option (List ℕ) → Type 0
IsOneLine none = Unit
IsOneLine (some v) =
    IsPlain v × NoNul v × NoNewline v × (is_line v ≡ true) × (is_blank_str (some v) ≡ false)

abbrev pub HasOneLines : Record → List (List ℕ × Member) → Type 0
HasOneLines rec [] = Unit
HasOneLines rec (f ∷ fs) = IsOneLine (get_member f.1 rec) × HasOneLines rec fs

-- Ids that the loops find.
abbrev AreIds : List (List ℕ × Member) → Type 0
AreIds [] = Unit
AreIds (f ∷ fs) =
    (NoNewline f.0
      × (is_line f.0 ≡ true)
      × (begins_with b':' f.0 ≡ true)
      × (find_member f.0 members ≡ some f.1))
    × AreIds fs

pub members-AreIds : AreIds members
unfolding is_line begins_with find_member same_string
members-AreIds = (
  (
    (refl, (refl, (refl, (refl, (refl, (refl, (refl, (refl, (refl, (refl, tt)))))))))),
    refl,
    refl,
    refl,
  ),
  (
    ((refl, (refl, (refl, (refl, (refl, (refl, (refl, (refl, (refl, tt))))))))), refl, refl, refl),
    (
      (
        (refl, (refl, (refl, (refl, (refl, (refl, (refl, (refl, (refl, (refl, tt)))))))))),
        refl,
        refl,
        refl,
      ),
      (
        (
          (refl, (refl, (refl, (refl, (refl, (refl, (refl, (refl, (refl, (refl, tt)))))))))),
          refl,
          refl,
          refl,
        ),
        (
          ((refl, (refl, (refl, (refl, (refl, (refl, (refl, tt))))))), refl, refl, refl),
          (
            (
              (refl, (refl, (refl, (refl, (refl, (refl, (refl, (refl, (refl, (refl, tt)))))))))),
              refl,
              refl,
              refl,
            ),
            (
              ((refl, (refl, (refl, (refl, (refl, (refl, tt)))))), refl, refl, refl),
              (
                (
                  (refl, (refl, (refl, (refl, (refl, (refl, (refl, (refl, (refl, tt))))))))),
                  refl,
                  refl,
                  refl,
                ),
                tt,
              ),
            ),
          ),
        ),
      ),
    ),
  ),
)

shown_line : (v : List ℕ) → is_blank_str (some v) ≡ false → shown (some v) ≡ v
shown_line v h = rw (h) refl

AreUncut-value : (value : Option (List ℕ)) → IsOneLine value → NoNewline (shown value)
AreUncut-value none h = tt
AreUncut-value (some v) (_, _, uncut, _, filled) = subst NoNewline (sym (shown_line v filled)) uncut

pub AreUncut-lines :
    (rec : Record) (fs : List (List ℕ × Member)) → AreIds fs → HasOneLines rec fs → AreUncut rec fs
AreUncut-lines rec [] ids h = tt
AreUncut-lines rec (f ∷ fs) (id, ids) (v, h) =
    (id.0, AreUncut-value (get_member f.1 rec) v, AreUncut-lines rec fs ids h)

IsKept-value : (value : Option (List ℕ)) → IsOneLine value → IsKept value
IsKept-value none h = tt
IsKept-value (some v) (_, _, _, passes, filled) = (filled, passes)

pub AreKept-lines :
    (rec : Record) (fs : List (List ℕ × Member)) → AreIds fs → HasOneLines rec fs → AreKept rec fs
AreKept-lines rec [] ids h = tt
AreKept-lines rec (f ∷ fs) (id, ids) (v, h) =
    (id.1, IsKept-value (get_member f.1 rec) v, AreKept-lines rec fs ids h)

IsShortLine-value :
    (value : Option (List ℕ)) → IsOneLine value → length (shown value) < 2 ^ 53 → IsShortLine value
IsShortLine-value none h short = tt
IsShortLine-value (some v) (plain, no_nul, _, _, filled) short =
    (plain, no_nul, subst (λ l. length l < 2 ^ 53) (shown_line v filled) short)

pub AreEntries-lines :
    (rec : Record) (fs : List (List ℕ × Member))
    → AreIds fs
    → HasOneLines rec fs
    → length (text_of rec fs) < 2 ^ 53
    → AreEntries (entries_of rec fs)
AreEntries-lines rec [] ids h short = tt
AreEntries-lines rec (f ∷ fs) (id, ids) (v, h) short =
    let value : List ℕ = shown (get_member f.1 rec) in
    let line : List ℕ = value ++ b'\n' ∷ [] in
    let n1 = length-append value (b'\n' ∷ []) in
    let n2 = length-append line (b'\n' ∷ []) in
    let n3 = length-append (f.0 ++ b'\n' ∷ []) (line ++ b'\n' ∷ []) in
    let n4 = length-append (text_of_member f.0 (get_member f.1 rec)) (text_of rec fs) in
    (
      id.2,
      id.3,
      IsShortLine-value (get_member f.1 rec) v (omega (arith, n1, n2, n3, n4)),
      AreEntries-lines rec fs ids h (omega (arith, n4)),
    )
