-- ===== src/Vfs/Namespace/Tests.antt =====
-- The paths `/a`, `/a/b` and `/a/b/c`.
use vertex_os.Base.{ℕ, ◌≡◌, ◌↔◌, refl, true, List, [], ◌∷◌}
use vertex_os.Vfs.Path.{slash}
use vertex_os.Vfs.Namespace.{vfs_authority_path_covers}
use vertex_os.Vfs.Namespace.Covers.{Below, covers-iff-Below, covers_trans}

abbrev a : List ℕ
a = slash ∷ 97 ∷ []

abbrev a_b : List ℕ
a_b = slash ∷ 97 ∷ slash ∷ 98 ∷ []

abbrev a_b_c : List ℕ
a_b_c = slash ∷ 97 ∷ slash ∷ 98 ∷ slash ∷ 99 ∷ []

covers-iff-Below_example : (vfs_authority_path_covers a a_b ≡ true) ↔ Below a a_b
covers-iff-Below_example = covers-iff-Below a a_b

covers_trans_example : vfs_authority_path_covers a a_b_c ≡ true
unfolding vfs_authority_path_covers
covers_trans_example = covers_trans a a_b a_b_c refl refl
