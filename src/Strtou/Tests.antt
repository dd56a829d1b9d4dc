-- ===== src/Strtou/Tests.antt =====
-- strtou at concrete inputs, and runs.
use pass_keeper.Prelude.{◌≡◌, refl, [], ◌∷◌}
use pass_keeper.Strtou.{
  converted, eilseq, strtou, strtoul, skip_space, read_sign, read_number, signed, read_digits,
  starts_digit, is_digit, is_minus, is_end,
}
use pass_keeper.Strtou.Numerals.{decimal, strtou_lem}

strtou_lem_example :
    (strtou (b'4' ∷ b'2' ∷ []) ≡ converted 42) × (strtou (b'4' ∷ b'2' ∷ b'k' ∷ []) ≡ eilseq)
unfolding decimal is_digit
strtou_lem_example = strtou_lem b'4' (b'2' ∷ []) b'k' [] (refl, (refl, tt)) refl

-- No digits at all: the end is the start, and both are the NUL.
no_digits : strtou [] ≡ converted 0
unfolding strtou strtoul skip_space read_sign read_number read_digits starts_digit is_minus is_end
no_digits = refl

-- ` -18446744073709551615`: the blank hides the minus sign, and the value wraps around.
hidden_minus :
    strtou (
      b' ' ∷ b'-' ∷ b'1' ∷ b'8' ∷ b'4' ∷ b'4' ∷ b'6' ∷ b'7' ∷ b'4' ∷ b'4' ∷ b'0' ∷ b'7' ∷ b'3'
      ∷ b'7' ∷ b'0' ∷ b'9' ∷ b'5' ∷ b'5' ∷ b'1' ∷ b'6' ∷ b'1' ∷ b'5' ∷ [])
    ≡ converted 1
unfolding strtou strtoul skip_space read_sign read_number read_digits starts_digit signed is_digit
    is_minus is_end
hidden_minus = refl
