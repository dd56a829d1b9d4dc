-- ===== src/Makekey/Tests.antt =====
-- cmd_makekey at a concrete key.
use pass_keeper.Prelude.{◌≡◌, refl, [], ◌∷◌, ◌++◌, ok, arith, replicate}
use pass_keeper.Hex.Digits.{hex_of}
use pass_keeper.Makekey.{cmd_makekey}
use pass_keeper.Makekey.Output.{makekey_lem}

-- 40 bytes are asked for.
makekey_lem_example :
    cmd_makekey 7 (replicate 32 0xA5) 40
    ≡ ok (b'0' ∷ (b'x' ∷ (hex_of (replicate 32 0xA5 ++ replicate 8 7) ++ b'\n' ∷ [])))
makekey_lem_example = makekey_lem 7 (replicate 32 0xA5) 40 refl (omega arith) (omega arith)
