-- ===== src/Vfs/Namespace.antt =====
-- Namespaces, mounts and the paths that an authority covers: kernel/krust/src/vfs/namespace.rs.
-- Labels and the paths of namespace entries are byte lists.
pub mod Covers
mod Tests
use Prim.Native.String.{String}
use text.Mathlib.Text.{◌==◌ as str_eq, starts_with}
use vertex_os.Base.{
  ℕ, zero, suc, ◌+◌, ◌≡◌, Bool, true, false, ◌&&◌, ◌||◌, List, [], ◌∷◌, Option, none, some, ◌==◌,
  ltb, if◌then◌else◌, length, get_elem?, take, find_map,
}
use vertex_os.Ids.{KernelObjectId, ProcessId, VfsNodeId}
use vertex_os.Vfs.Path.{VfsPath, slash, bytes_eq}

abbrev pub max_namespace_entries : ℕ
max_namespace_entries = 4

pub record NamespaceEntry : Type 0 where
  pub path : List ℕ
  pub object : KernelObjectId
  pub rights : ℕ

pub record NamespaceObject : Type 0 where
  pub id : KernelObjectId
  pub name : String
  pub entries : List (Option NamespaceEntry)
  pub entry_count : ℕ

-- One round of the loop of `resolve`.
abbrev pub entry_at : List ℕ → Option NamespaceEntry → Option NamespaceEntry
entry_at path none = none
entry_at path (some entry) = if bytes_eq entry.path path then some entry else none

unfoldable pub resolve : NamespaceObject → List ℕ → Option NamespaceEntry
resolve namespace path = find_map (entry_at path) (take namespace.entry_count namespace.entries)

pub data VfsMountSourceKind : Type 0 where
  root store state device proc vertex_fs service_fs state_fs volatile unknown : VfsMountSourceKind

pub record VfsMountSource : Type 0 where
  pub kind : VfsMountSourceKind
  pub id : ℕ

unfoldable pub vfs_mount_source_kind : String → VfsMountSourceKind
vfs_mount_source_kind source =
    if str_eq source "rootfs"
    then root
    else if str_eq source "storefs"
    then store
    else if str_eq source "devfs"
    then device
    else if str_eq source "procfs"
    then proc
    else if str_eq source "vertexfs"
    then vertex_fs
    else if str_eq source "servicefs"
    then service_fs
    else if str_eq source "statefs"
    then state_fs
    else if str_eq source "volatilefs" || str_eq source "state:volatile"
    then volatile
    else if starts_with source "state:"
    then state
    else unknown

unfoldable pub vfs_mount_source_kind_label : VfsMountSourceKind → String
vfs_mount_source_kind_label root = "root"
vfs_mount_source_kind_label store = "store"
vfs_mount_source_kind_label state = "state"
vfs_mount_source_kind_label device = "device"
vfs_mount_source_kind_label proc = "proc"
vfs_mount_source_kind_label vertex_fs = "vertexfs"
vfs_mount_source_kind_label service_fs = "servicefs"
vfs_mount_source_kind_label state_fs = "statefs"
vfs_mount_source_kind_label volatile = "volatile"
vfs_mount_source_kind_label unknown = "unknown"

-- `VfsMountSource::from_label`
unfoldable pub mount_source_from_label : String → VfsNodeId → VfsMountSource
unfolding vfs_mount_source_kind
mount_source_from_label source root_node = record {
  kind = vfs_mount_source_kind source;
  id = root_node;
}

pub record VfsRootObject : Type 0 where
  pub id : KernelObjectId
  pub name : String
  pub root_path : VfsPath
  pub derived : Bool

pub record VfsMountObject : Type 0 where
  pub id : KernelObjectId
  pub name : String
  pub root_node : VfsNodeId
  pub root_path : VfsPath
  pub source : String
  pub source_info : VfsMountSource
  pub flags : ℕ
  pub dynamic : Bool
  pub owner : ProcessId

-- `VfsMountObject::new`
unfoldable pub new_vfs_mount :
    KernelObjectId → String → VfsNodeId → VfsPath → String → ℕ → Bool → ProcessId → VfsMountObject
unfolding mount_source_from_label
new_vfs_mount id name root_node root_path source flags dynamic owner = record {
  id = id;
  name = name;
  root_node = root_node;
  root_path = root_path;
  source = source;
  source_info = mount_source_from_label source root_node;
  flags = flags;
  dynamic = dynamic;
  owner = owner;
}

-- `path.starts_with(authority)`
abbrev pub has_prefix : List ℕ → List ℕ → Bool
has_prefix [] path = true
has_prefix (a ∷ as') [] = false
has_prefix (a ∷ as') (p ∷ ps) = if a == p then has_prefix as' ps else false

-- `path[index] == byte`, which panics out of range; here that is no match.
abbrev pub has_byte_at : List ℕ → ℕ → ℕ → Bool
has_byte_at path index byte = elim (get_elem? path index) [ none ↦ false | some b ↦ b == byte ]

unfoldable pub vfs_authority_path_covers : List ℕ → List ℕ → Bool
vfs_authority_path_covers authority path =
    if bytes_eq authority (slash ∷ [])
    then has_byte_at path 0 slash
    else if bytes_eq authority path
    then true
    else ltb (length authority) (length path)
      && has_prefix authority path
      && has_byte_at path (length authority) slash
