-- ===== src/Text/Characters.antt =====
-- u8substr against the characters of UTF-8: a byte from 128 to 191 goes on with a character, and any
-- other begins one.
use pass_keeper.Prelude.{
  ℕ, zero, suc, ◌+◌, ◌<◌, ◌≡◌, refl, ap, ap₂, subst, ◌∙◌, Bool, true, false, not, ◌&&◌, List, [],
  ◌∷◌, ◌++◌, Option, none, some, arith, Outcome, ok, bugged, if◌then◌else◌, leb,
}
use pass_keeper.Text.{is_start_byte, u8substr}
use pass_keeper.Text.Scanning.{from_char, take_chars, part}
use pass_keeper.Text.Utf8.{Part, u8substr-Part}
use pass_keeper.Hex.Digits.{AllBytes, holds_from, holds_at}

abbrev pub begins_char : ℕ → Bool
begins_char c = not (leb 128 c && leb c 191)

-- The bytes from the beginning of a character on.
abbrev pub character : ℕ → List ℕ → Option (List ℕ)
character n [] = none
character zero (c ∷ str) = if begins_char c then some (c ∷ str) else character zero str
character (suc n) (c ∷ str) = if begins_char c then character n str else character (suc n) str

-- The bytes before the beginning of a character.
abbrev pub before_char : ℕ → List ℕ → List ℕ
before_char n [] = []
before_char zero (c ∷ str) = if begins_char c then [] else c ∷ before_char zero str
before_char (suc n) (c ∷ str) =
    c ∷ (if begins_char c then before_char n str else before_char (suc n) str)

-- All bytes for a length of 0, or those of as many characters.
abbrev pub characters : ℕ → List ℕ → List ℕ
characters zero str = str
characters (suc n) str = before_char (suc n) str

-- The answer for a part that begins there.
abbrev pub answer : ℕ → Option (List ℕ) → Outcome (List ℕ)
answer substr_length none = bugged
answer substr_length (some str) = ok (characters substr_length str ++ 0 ∷ [])

abbrev same_bool : Bool → Bool → Bool
same_bool true b = b
same_bool false b = not b

abbrev agrees : ℕ → Bool
agrees c = same_bool (is_start_byte c) (begins_char c)

every_byte : holds_from agrees 0 256 ≡ true
unfolding holds_from is_start_byte
every_byte = refl

same_bool_lem : (a b : Bool) → same_bool a b ≡ true → a ≡ b
same_bool_lem true true h = refl
same_bool_lem true false h = absurd (cc)
same_bool_lem false true h = absurd (cc)
same_bool_lem false false h = refl

begins : (c : ℕ) → c < 256 → is_start_byte c ≡ begins_char c
begins c h =
    same_bool_lem _ _
      (ap agrees {x = c} {y = 0 + c} (omega arith) ∙ holds_at agrees 256 0 c every_byte h)

from_char-character : (n : ℕ) (str : List ℕ) → AllBytes str → from_char n str ≡ character n str
unfolding from_char
from_char-character zero [] h = refl
from_char-character (suc n) [] h = refl
from_char-character zero (c ∷ str) h =
    ap₂ (λ b o. if b then some (c ∷ str) else o) (begins c h.0) (from_char-character zero str h.1)
from_char-character (suc n) (c ∷ str) h =
    ap₂ (λ b o. if b then from_char n str else o) (begins c h.0)
      (from_char-character (suc n) str h.1)
    ∙ ap (λ o. if begins_char c then o else character (suc n) str) (from_char-character n str h.1)

take_chars-before_char :
    (n : ℕ) (str : List ℕ) → AllBytes str → take_chars n str ≡ before_char n str
unfolding take_chars
take_chars-before_char zero [] h = refl
take_chars-before_char (suc n) [] h = refl
take_chars-before_char zero (c ∷ str) h =
    ap₂ (λ b o. if b then [] else c ∷ o) (begins c h.0) (take_chars-before_char zero str h.1)
take_chars-before_char (suc n) (c ∷ str) h =
    ap₂ (λ b o. c ∷ (if b then take_chars n str else o)) (begins c h.0)
      (take_chars-before_char (suc n) str h.1)
    ∙ ap (λ o. c ∷ (if begins_char c then o else before_char (suc n) str))
        (take_chars-before_char n str h.1)

part-characters : (n : ℕ) (str : List ℕ) → AllBytes str → part n str ≡ characters n str
part-characters zero str h = refl
part-characters (suc n) str h = take_chars-before_char (suc n) str h

-- A part of bytes is one of bytes.
abbrev HasBytes : Option (List ℕ) → Type 0
HasBytes none = Unit
HasBytes (some str) = AllBytes str

HasBytes-if :
    (b : Bool) (o o' : Option (List ℕ)) → HasBytes o → HasBytes o' → HasBytes (if b then o else o')
HasBytes-if true o o' h k = h
HasBytes-if false o o' h k = k

HasBytes-character : (n : ℕ) (str : List ℕ) → AllBytes str → HasBytes (character n str)
HasBytes-character zero [] h = tt
HasBytes-character (suc n) [] h = tt
HasBytes-character zero (c ∷ str) h =
    HasBytes-if (begins_char c) (some (c ∷ str)) (character zero str) h
      (HasBytes-character zero str h.1)
HasBytes-character (suc n) (c ∷ str) h =
    HasBytes-if (begins_char c) (character n str) (character (suc n) str)
      (HasBytes-character n str h.1) (HasBytes-character (suc n) str h.1)

Part-answer :
    (n : ℕ) (o : Option (List ℕ)) (r : Outcome (List ℕ)) → HasBytes o → Part n o r → r ≡ answer n o
Part-answer n none r h p = p
Part-answer n (some s) r h p = p ∙ ap (λ t. ok (t ++ 0 ∷ [])) (part-characters n s h)

-- u8substr copies the bytes of substr_length characters, or of all for a length of 0, from the
-- beginning of the character start_index on, with a NUL, and exits by bug() where no such
-- character is, for a string of bytes, of which those from 128 to 191 go on with a character and
-- the others begin one.
pub u8substr_lem :
    (junk : ℕ) (str : List ℕ) (start_index substr_length : ℕ)
    → AllBytes str
    → u8substr junk str start_index substr_length ≡ answer substr_length (character start_index str)
u8substr_lem junk str start_index substr_length h =
    Part-answer substr_length (character start_index str) _ (HasBytes-character start_index str h) (
      subst (λ o. Part substr_length o (u8substr junk str start_index substr_length))
        (from_char-character start_index str h) (u8substr-Part junk str start_index substr_length))
