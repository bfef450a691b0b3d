-- ===== src/ObjectTable/Remove.antt =====
-- The removing methods of object_table.rs, which clear a slot and drop the empty slots at the end.
use vertex_os.Base.{
  ℕ, zero, suc, Bool, true, false, ◌&&◌, Option, none, some, List, [], ◌∷◌, ◌==◌, if◌then◌else◌,
  set, get_elem?, position, is_some,
}
use vertex_os.Ids.{KernelObjectId, ProcessId, VfsNodeId}
use vertex_os.Vfs.Path.{path_bytes, bytes_eq}
use vertex_os.Object.{KernelObject, ipc_endpoint, vfs_root, vfs_mount}
use vertex_os.ObjectTable.Table.{ObjectTable, used, in_slot, find_object}

-- The loop of `trim_empty_tail`: the count that it leaves.
unfoldable pub trimmed_count : List (Option KernelObject) → ℕ → ℕ
trimmed_count objects zero = 0
trimmed_count objects (suc count) = elim (get_elem? objects count) [
  | none ↦ suc count
  | some slot ↦ elim slot [ none ↦ trimmed_count objects count | some _ ↦ suc count ]
]

unfoldable pub trim_empty_tail : ObjectTable → ObjectTable
unfolding trimmed_count
trim_empty_tail t = record t { count = trimmed_count t.objects t.count }

-- `self.objects[index] = None; self.trim_empty_tail();` at the first slot that passes a test, with
-- whether there was one.
unfoldable pub remove_first : (Option KernelObject → Bool) → ObjectTable → Bool × ObjectTable
unfolding trim_empty_tail
remove_first test t = elim (position test (used t)) [
  | none ↦ (false, t)
  | some index ↦ (true, trim_empty_tail (record t { objects = set t.objects index none }))
]

abbrev pub is_owned_endpoint : KernelObjectId → ProcessId → Option KernelObject → Bool
is_owned_endpoint id owner (some (ipc_endpoint endpoint)) =
    endpoint.id == id && endpoint.owner == owner
is_owned_endpoint id owner _ = false

unfoldable pub remove_owned_endpoint : KernelObjectId → ProcessId → ObjectTable → Bool × ObjectTable
unfolding remove_first
remove_owned_endpoint id owner t = remove_first (is_owned_endpoint id owner) t

abbrev pub is_derived_root : KernelObjectId → Option KernelObject → Bool
is_derived_root id (some (vfs_root root)) = root.id == id && root.derived
is_derived_root id _ = false

unfoldable pub remove_derived_vfs_root : KernelObjectId → ObjectTable → Bool × ObjectTable
unfolding remove_first
remove_derived_vfs_root id t = remove_first (is_derived_root id) t

abbrev pub owned_by : ProcessId → Option KernelObject → Bool
owned_by owner (some (ipc_endpoint endpoint)) = endpoint.owner == owner
owned_by owner _ = false

-- The loop of `remove_owned_endpoints` over `0..count`, with the number of slots that it cleared.
unfoldable pub clear_owned :
    ProcessId → ℕ → List (Option KernelObject) → ℕ × List (Option KernelObject)
clear_owned owner zero slots = (0, slots)
clear_owned owner (suc count) [] = (0, [])
clear_owned owner (suc count) (slot ∷ slots) =
    let (removed, rest) = clear_owned owner count slots in
    if owned_by owner slot then (suc removed, none ∷ rest) else (removed, slot ∷ rest)

unfoldable pub remove_owned_endpoints : ProcessId → ObjectTable → ℕ × ObjectTable
unfolding clear_owned trim_empty_tail
remove_owned_endpoints owner t =
    let (removed, objects) = clear_owned owner t.count t.objects in
    (removed, trim_empty_tail (record t { objects = objects }))

abbrev pub dynamic_mount_of_node : VfsNodeId → KernelObject → Option KernelObjectId
dynamic_mount_of_node root_node (vfs_mount mount) =
    if mount.root_node == root_node && mount.dynamic then some mount.id else none
dynamic_mount_of_node root_node _ = none

-- The mounts are removed at the first slot that holds what is looked for, whose identifier returns.
unfoldable pub remove_selected :
    (KernelObject → Option KernelObjectId) → ObjectTable → Option KernelObjectId × ObjectTable
unfolding remove_first
remove_selected select t =
    (find_object select t, (remove_first (λ slot. is_some (in_slot select slot)) t).1)

unfoldable pub remove_dynamic_vfs_mount :
    VfsNodeId → ObjectTable → Option KernelObjectId × ObjectTable
unfolding remove_selected
remove_dynamic_vfs_mount root_node t = remove_selected (dynamic_mount_of_node root_node) t

abbrev pub dynamic_mount_at : List ℕ → KernelObject → Option KernelObjectId
dynamic_mount_at path (vfs_mount mount) =
    if bytes_eq (path_bytes mount.root_path) path && mount.dynamic then some mount.id else none
dynamic_mount_at path _ = none

unfoldable pub remove_dynamic_vfs_mount_by_path :
    List ℕ → ObjectTable → Option KernelObjectId × ObjectTable
unfolding remove_selected
remove_dynamic_vfs_mount_by_path path t = remove_selected (dynamic_mount_at path) t
