-- ===== src/Text/Tests.antt =====
-- The string functions at concrete inputs, and runs.
use pass_keeper.Prelude.{
  arith, ℕ, ◌≡◌, refl, ◌↔◌, true, false, List, [], ◌∷◌, ◌++◌, none, some, ok, bugged, Returns, ◌<◌,
  ◌≤◌, store, copy_to, copy_from,
}
use pass_keeper.Text.{
  starts_with, skip_prefix, concat, u8strlen, u8substr, is_start_byte, scan_char, scan_loop,
  copy_part, replace_char, is_blank_str, is_empty_str, all_space,
}
use pass_keeper.Text.Prefix.{skip_prefix_lem, concat_lem}
use pass_keeper.Text.Utf8.{u8substr-u8strlen}
use pass_keeper.Text.Characters.{u8substr_lem}

abbrev dashes : List ℕ
dashes = b'-' ∷ b'-' ∷ []

abbrev option_x : List ℕ
option_x = b'-' ∷ b'-' ∷ b'x' ∷ []

skip_prefix_lem_example :
    ((skip_prefix option_x dashes ≡ some (b'x' ∷ [])) ↔ (option_x ≡ dashes ++ (b'x' ∷ [])))
    × (starts_with option_x dashes
        ≡ elim (skip_prefix option_x dashes) [ none ↦ false | some _ ↦ true ])
skip_prefix_lem_example = skip_prefix_lem option_x dashes (b'x' ∷ [])

concat_lem_example : concat 7 (b'a' ∷ []) (b'b' ∷ b'c' ∷ []) ≡ ok (b'a' ∷ b'b' ∷ b'c' ∷ 0 ∷ [])
concat_lem_example = concat_lem 7 (b'a' ∷ []) (b'b' ∷ b'c' ∷ []) (omega arith)

-- `a`, e with an acute accent, and `b`.
abbrev accent : List ℕ
accent = b'a' ∷ 0xC3 ∷ 0xA9 ∷ b'b' ∷ []

u8substr_lem_example : u8substr 7 accent 1 1 ≡ ok (0xC3 ∷ 0xA9 ∷ 0 ∷ [])
u8substr_lem_example =
    u8substr_lem 7 accent 1 1 (omega arith, (omega arith, (omega arith, (omega arith, tt))))

u8substr-u8strlen_example :
    (3 < u8strlen accent → Returns {0, 0} (λ dest. Unit) (u8substr 7 accent 3 0))
    × (u8strlen accent ≤ 3 → u8substr 7 accent 3 0 ≡ bugged)
u8substr-u8strlen_example = u8substr-u8strlen 7 accent 3 0

three_characters : u8strlen accent ≡ 3
unfolding u8strlen is_start_byte
three_characters = refl

second_character : u8substr 7 accent 1 1 ≡ ok (0xC3 ∷ 0xA9 ∷ 0 ∷ [])
unfolding u8substr scan_loop scan_char is_start_byte copy_part copy_from copy_to store
second_character = refl

all_but_one : u8substr 7 accent 1 0 ≡ ok (0xC3 ∷ 0xA9 ∷ b'b' ∷ 0 ∷ [])
unfolding u8substr scan_loop scan_char is_start_byte copy_part copy_from copy_to store
all_but_one = refl

to_dash : replace_char (b'a' ∷ b'_' ∷ b'b' ∷ []) b'_' b'-' ≡ b'a' ∷ b'-' ∷ b'b' ∷ []
unfolding replace_char
to_dash = refl

blank : is_blank_str (some (b' ' ∷ b'\n' ∷ [])) ≡ true
unfolding is_blank_str is_empty_str all_space
blank = refl
