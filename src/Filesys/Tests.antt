-- ===== src/Filesys/Tests.antt =====
-- prefix_filename at a concrete input.
use pass_keeper.Prelude.{◌≡◌, [], ◌∷◌, ok, arith}
use pass_keeper.Filesys.{is_abs_path, skip_here, prefix_filename}
use pass_keeper.Filesys.Names.{prefix_filename_lem}

prefix_filename_lem_example :
    prefix_filename 170 (b'/' ∷ b'h' ∷ []) (b'.' ∷ b'/' ∷ b'a' ∷ [])
    ≡ ok (b'/' ∷ b'h' ∷ b'/' ∷ b'a' ∷ [])
unfolding is_abs_path skip_here
prefix_filename_lem_example =
    prefix_filename_lem 170 (b'/' ∷ b'h' ∷ []) (b'.' ∷ b'/' ∷ b'a' ∷ []) (omega arith) (omega arith)
