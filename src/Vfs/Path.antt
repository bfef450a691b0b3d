-- ===== src/Vfs/Path.antt =====
-- Names and root paths: kernel/krust/src/vfs/path.rs. A path is its bytes; the program stores them
-- at the front of a zeroed array with their number, and reads them back by `as_bytes`.
pub mod Components
pub mod Stored
mod Tests
use vertex_os.Base.{
  ℕ, zero, suc, ◌+◌, ◌≡◌, Bool, true, false, not, ◌&&◌, ◌||◌, List, [], ◌∷◌, ◌++◌, Option, none,
  some, Result, ok, err, ◌==◌, ltb, if◌then◌else◌, length, get_elem?, take, drop, replicate, any,
}
use vertex_os.Ids.{InitError, invalid_boot_manifest, IpcError, bad_capability, vfs_bad_path}

abbrev pub max_vfs_path_bytes : ℕ
max_vfs_path_bytes = 128

abbrev pub max_vfs_name_bytes : ℕ
max_vfs_name_bytes = 64

-- `b'/'` and `b'.'`
abbrev pub slash : ℕ
slash = 47

abbrev pub dot : ℕ
dot = 46

-- `left == right` on byte slices
abbrev pub bytes_eq : List ℕ → List ℕ → Bool
bytes_eq [] [] = true
bytes_eq [] (y ∷ ys) = false
bytes_eq (x ∷ xs) [] = false
bytes_eq (x ∷ xs) (y ∷ ys) = if x == y then bytes_eq xs ys else false

pub record VfsName : Type 0 where
  pub bytes : List ℕ
  pub len : ℕ

pub record VfsPath : Type 0 where
  pub bytes : List ℕ
  pub len : ℕ

-- `as_bytes` of both
abbrev pub name_bytes : VfsName → List ℕ
name_bytes n = take n.len n.bytes

abbrev pub path_bytes : VfsPath → List ℕ
path_bytes p = take p.len p.bytes

-- `VfsPath::empty()`
unfoldable pub empty_path : VfsPath
empty_path = record { bytes = replicate max_vfs_path_bytes 0; len = 0 }

-- The array that the copying loops fill: the value at the front of zeros.
unfoldable pub stored : ℕ → List ℕ → List ℕ
stored capacity value = value ++ drop (length value) (replicate capacity 0)

-- `VfsName::from_bytes`; the error carries nothing.
unfoldable pub name_from_bytes : List ℕ → Result (Unit {0}) VfsName
unfolding stored
name_from_bytes value =
    if length value == 0 || ltb max_vfs_name_bytes (length value)
    then err tt
    else if bytes_eq value (slash ∷ []) || not (any (λ byte. byte == slash || byte == 0) value)
    then ok (record { bytes = stored max_vfs_name_bytes value; len = length value })
    else err tt

-- `from_static`
unfoldable pub name_from_static : List ℕ → Result InitError VfsName
unfolding name_from_bytes
name_from_static value = elim (name_from_bytes value) [
  | ok name ↦ ok name
  | err _ ↦ err invalid_boot_manifest
]

-- `from_user_component`
unfoldable pub name_from_user_component : List ℕ → Result IpcError VfsName
unfolding name_from_bytes
name_from_user_component value =
    if bytes_eq value (dot ∷ []) || bytes_eq value (dot ∷ dot ∷ [])
    then err vfs_bad_path
    else elim (name_from_bytes value) [ ok name ↦ ok name | err _ ↦ err bad_capability ]

-- The tests on one component, `path[start..end]`.
unfoldable pub is_component : List ℕ → Bool
is_component component = not (
    length component == 0
    || ltb max_vfs_name_bytes (length component)
    || bytes_eq component (dot ∷ [])
    || bytes_eq component (dot ∷ dot ∷ []))

-- Both loops of `valid_vfs_root_path`, from `start` on. The inner one walks to the next slash or to
-- the end, past the bytes that `component` collects; the outer one goes on behind the slash if a
-- byte is left there.
unfoldable pub components_valid : List ℕ → List ℕ → Bool
unfolding is_component
components_valid component [] = is_component component
components_valid component (byte ∷ []) =
    if byte == slash
    then is_component component
    else if byte == 0
    then false
    else is_component (component ++ byte ∷ [])
components_valid component (byte ∷ next ∷ rest) =
    let behind = components_valid [] (next ∷ rest) in
    let onward = components_valid (component ++ byte ∷ []) (next ∷ rest) in
    if byte == slash then is_component component && behind else if byte == 0 then false else onward

-- `path[path.len() - 1] == b'/'`
abbrev pub ends_in_slash : List ℕ → Bool
ends_in_slash [] = false
ends_in_slash (byte ∷ []) = byte == slash
ends_in_slash (byte ∷ next ∷ rest) = ends_in_slash (next ∷ rest)

unfoldable pub valid_vfs_root_path : List ℕ → Bool
unfolding components_valid
valid_vfs_root_path [] = false
valid_vfs_root_path (first ∷ []) = first == slash
valid_vfs_root_path (first ∷ next ∷ rest) =
    if not (first == slash) || ends_in_slash (next ∷ rest)
    then false
    else components_valid [] (next ∷ rest)

-- `VfsPath::from_root_path`
unfoldable pub from_root_path : List ℕ → Result IpcError VfsPath
unfolding stored valid_vfs_root_path
from_root_path path =
    if ltb max_vfs_path_bytes (length path) || not (valid_vfs_root_path path)
    then err vfs_bad_path
    else ok (record { bytes = stored max_vfs_path_bytes path; len = length path })

-- `VfsPath::from_boot_root_path`
unfoldable pub from_boot_root_path : List ℕ → Result InitError VfsPath
unfolding stored valid_vfs_root_path
from_boot_root_path path =
    if ltb max_vfs_path_bytes (length path) || not (valid_vfs_root_path path)
    then err invalid_boot_manifest
    else ok (record { bytes = stored max_vfs_path_bytes path; len = length path })
