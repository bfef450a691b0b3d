-- ===== src/Vfs/Path/Tests.antt =====
-- The path `/a`.
use vertex_os.Base.{ℕ, ◌≡◌, ◌↔◌, ◌⊎◌, ◌<◌, true, false, List, [], ◌∷◌, ok, err, length}
use vertex_os.Ids.{vfs_bad_path}
use vertex_os.Vfs.Path.{
  slash, VfsPath, max_vfs_path_bytes, valid_vfs_root_path, from_root_path, path_bytes,
}
use vertex_os.Vfs.Path.Components.{IsRootPath, valid_vfs_root_path-iff-IsRootPath}
use vertex_os.Vfs.Path.Stored.{from_root_path_reads_back}

abbrev a : List ℕ
a = slash ∷ 97 ∷ []

valid_vfs_root_path-iff-IsRootPath_example : (valid_vfs_root_path a ≡ true) ↔ IsRootPath a
valid_vfs_root_path-iff-IsRootPath_example = valid_vfs_root_path-iff-IsRootPath a

from_root_path_reads_back_example :
    ((p : VfsPath) × (from_root_path a ≡ ok p)
      × (path_bytes p ≡ a)
      × (length p.bytes ≡ max_vfs_path_bytes)
      × (valid_vfs_root_path a ≡ true))
    ⊎ ((from_root_path a ≡ err vfs_bad_path)
        × ((max_vfs_path_bytes < length a) ⊎ (valid_vfs_root_path a ≡ false)))
from_root_path_reads_back_example = from_root_path_reads_back a
