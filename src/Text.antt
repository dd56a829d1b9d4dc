-- ===== src/Text.antt =====
-- src/strbuf.c and src/strbuf.h: the functions on plain C strings. A string is its characters without
-- the NUL, and none of them is 0; `junk` is what a byte that malloc left unset reads as.
pub mod Prefix
pub mod Scanning
pub mod Utf8
pub mod Characters
mod Tests
use pass_keeper.Prelude.{
  wrap, ℕ, zero, suc, ◌+◌, ◌-◌, bit_and, Bool, true, false, not, ◌&&◌, ◌||◌, List, [], ◌∷◌, ◌++◌,
  map, Option, none, some, Outcome, ok, bugged, ◌>>=◌, if◌then◌else◌, ltb, ◌==◌, length, store,
  copy_to, copy_from, replicate,
}
use pass_keeper.Strbuf.{isspace}

unfoldable pub starts_with : (str prefix : List ℕ) → Bool
starts_with str [] = true
starts_with [] (p ∷ prefix) = false
starts_with (c ∷ str) (p ∷ prefix) = if not (c == p) then false else starts_with str prefix

-- What `*out` is set to, if it is.
unfoldable pub skip_prefix : (str prefix : List ℕ) → Option (List ℕ)
skip_prefix str [] = some str
skip_prefix [] (p ∷ prefix) = none
skip_prefix (c ∷ str) (p ∷ prefix) = if c == p then skip_prefix str prefix else none

-- The new array, with its NUL.
unfoldable pub concat : ℕ → (str1 str2 : List ℕ) → Outcome (List ℕ)
concat junk str1 str2 = do
  let destlen = wrap (length str1 + length str2)
  dest1 ← copy_to (replicate (wrap (destlen + 1)) junk) 0 str1
  dest2 ← copy_to dest1 (length str1) str2
  store dest2 destlen 0

unfoldable pub is_start_byte : ℕ → Bool
is_start_byte c = not (bit_and c 0xC0 == 0x80)

unfoldable pub u8strlen : List ℕ → ℕ
u8strlen [] = 0
u8strlen (c ∷ iter) = if is_start_byte c then suc (u8strlen iter) else u8strlen iter

-- The variables of u8substr's loop, with `head` as the place that it points to.
pub record Scan : Type 0 where
  pub head : Option ℕ
  pub char_count : ℕ
  pub substr_length : ℕ
  pub finish_calc : Bool

-- What a start byte at `iter` does to them.
unfoldable pub scan_char : (start_index : ℕ) → (unknow_length : Bool) → (iter : ℕ) → Scan → Scan
scan_char start_index unknow_length iter scan =
    let index = scan.char_count in
    let head' : Option ℕ = if index == start_index then some iter else scan.head in
    let left : ℕ = scan.substr_length - 1 in
    if ltb index start_index
    then record scan { char_count = index + 1 }
    else if unknow_length
    then record scan { head = head'; char_count = index + 1 }
    else record {
      head = head';
      char_count = index + 1;
      substr_length = left;
      finish_calc = if left == 0 then true else scan.finish_calc;
    }

-- The loop: `head` and `iter` at its end.
unfoldable pub scan_loop :
    (start_index : ℕ) → (unknow_length : Bool) → List ℕ → (iter : ℕ) → Scan → Option ℕ × ℕ
scan_loop start_index unknow_length [] iter scan = (scan.head, iter)
scan_loop start_index unknow_length (c ∷ str) iter scan =
    if not (is_start_byte c)
    then scan_loop start_index unknow_length str (iter + 1) scan
    else if scan.finish_calc
    then (scan.head, iter)
    else scan_loop start_index unknow_length str (iter + 1)
        (scan_char start_index unknow_length iter scan)

-- The copy of the bytes from `head` up to `iter`.
unfoldable pub copy_part : ℕ → List ℕ → (head iter : ℕ) → Outcome (List ℕ)
copy_part junk str head iter = do
  let destsz = iter - head
  part ← copy_from str head destsz
  dest ← copy_to (replicate (destsz + 1) junk) 0 part
  store dest destsz 0

unfoldable pub u8substr : ℕ → List ℕ → (start_index substr_length : ℕ) → Outcome (List ℕ)
u8substr junk str start_index substr_length =
    let found = scan_loop start_index (substr_length == 0) str 0 (record {
      head = none;
      char_count = 0;
      substr_length = substr_length;
      finish_calc = false;
    }) in
    elim found.0 [ none ↦ bugged | some head ↦ copy_part junk str head found.1 ]

unfoldable pub replace_char : List ℕ → (c1 c2 : ℕ) → List ℕ
replace_char [] c1 c2 = []
replace_char (c ∷ str) c1 c2 = (if c == c1 then c2 else c) ∷ replace_char str c1 c2

-- The null pointer, or a string.
unfoldable pub is_empty_str : Option (List ℕ) → Bool
is_empty_str none = true
is_empty_str (some []) = true
is_empty_str (some (c ∷ str)) = false

-- The loop reaches the end.
unfoldable pub all_space : List ℕ → Bool
all_space [] = true
all_space (c ∷ str) = if isspace c then all_space str else false

unfoldable pub is_blank_str : Option (List ℕ) → Bool
is_blank_str none = true
is_blank_str (some str) = if is_empty_str (some str) then true else all_space str
