-- ===== src/ObjectTable/Steps.antt =====
-- The operations of object_table.rs as steps, and what every one of them keeps.
use Prim.Native.String.{String}
use vertex_os.Base.{
  ℕ, ◌+◌, ◌≡◌, refl, inl, inr, Bool, true, false, Option, none, List, Result, ok, err, arith, ◌==◌,
  length, length-replicate, >>=-ok, past_err, is_some, if◌then◌else◌,
}
use vertex_os.Ids.{
  KernelObjectId, ProcessId, VfsNodeId, InitError, object_table_full, IpcError, bad_capability,
}
use vertex_os.Transport.{new_endpoint}
use vertex_os.Vfs.Path.{VfsPath, from_boot_root_path}
use vertex_os.Vfs.Namespace.{NamespaceEntry, new_vfs_mount}
use vertex_os.Object.{
  max_objects, BootStateVolumeConfig, KernelObject, object_id, ipc_endpoint, vfs_root, vfs_mount,
}
use vertex_os.ObjectTable.Table.{
  ObjectTable, new_table, reset, in_slot, append_object, insert_object,
}
use vertex_os.ObjectTable.Add.{
  add_endpoint_owned, add_vfs_root, add_derived_vfs_root, add_vfs_mount, add_boot_module,
  add_store_object, add_state_volume, add_timer, add_network_port, add_io_port, add_mmio_region,
  add_framebuffer, add_interrupt_line, add_dma_region, add_pci_device, add_virtio_device,
  add_namespace, add_process_control, add_secret,
}
use vertex_os.ObjectTable.Remove.{
  remove_first, remove_owned_endpoint, remove_derived_vfs_root, remove_owned_endpoints,
  remove_selected, remove_dynamic_vfs_mount, remove_dynamic_vfs_mount_by_path, is_owned_endpoint,
  is_derived_root, dynamic_mount_of_node, dynamic_mount_at,
}
use vertex_os.ObjectTable.Valid.{IsTable, IsTable-next}
use vertex_os.ObjectTable.Placed.{Added, Added-IsTable, append_object-Added, insert_object-Placed}
use vertex_os.ObjectTable.Removed.{Taken-IsTable, remove_first-Taken}
use vertex_os.ObjectTable.Owned.{remove_owned_endpoints-keeps}
use vertex_os.ObjectTable.Additions.{
  add_boot_module-Added, add_store_object-Added, add_state_volume-Added, add_timer-Added,
  add_network_port-Added, add_io_port-Added, add_mmio_region-Added, add_framebuffer-Added,
  add_interrupt_line-Added, add_dma_region-Added, add_pci_device-Added, add_virtio_device-Added,
  add_namespace-Added, add_process_control-Added, add_secret-Added,
}

-- A call of an adding method that succeeds with an identifier and a table.
pub data Adds (t : ObjectTable) (r : KernelObjectId × ObjectTable) : Type 0 where
  by_endpoint :
      (name : String) (owner : ProcessId) → add_endpoint_owned name owner t ≡ ok r → Adds t r
  by_boot_module :
      (name : String) (base length : ℕ) → add_boot_module name base length t ≡ ok r → Adds t r
  by_store_object :
      (name : String) (base length : ℕ) (hash : String)
      → add_store_object name base length hash t ≡ ok r
      → Adds t r
  by_state_volume : (state : BootStateVolumeConfig) → add_state_volume state t ≡ ok r → Adds t r
  by_timer : (name : String) → add_timer name t ≡ ok r → Adds t r
  by_network_port : (name : String) → add_network_port name t ≡ ok r → Adds t r
  by_io_port : (name : String) (base length : ℕ) → add_io_port name base length t ≡ ok r → Adds t r
  by_mmio_region :
      (name : String) (base length : ℕ) → add_mmio_region name base length t ≡ ok r → Adds t r
  by_framebuffer :
      (name : String) (b l w h p d rs rh gs gh bs bh : ℕ)
      → add_framebuffer name b l w h p d rs rh gs gh bs bh t ≡ ok r
      → Adds t r
  by_interrupt_line : (name : String) (line : ℕ) → add_interrupt_line name line t ≡ ok r → Adds t r
  by_dma_region :
      (name : String) (base length : ℕ) → add_dma_region name base length t ≡ ok r → Adds t r
  by_pci_device : (name kind : String) → add_pci_device name kind t ≡ ok r → Adds t r
  by_virtio_device :
      (name transport : String) → add_virtio_device name transport t ≡ ok r → Adds t r
  by_namespace :
      (name : String) (entries : List (Option NamespaceEntry)) (entry_count : ℕ)
      → add_namespace name entries entry_count t ≡ ok r
      → Adds t r
  by_process_control : (name : String) → add_process_control name t ≡ ok r → Adds t r
  by_secret : (name : String) (value : List ℕ) → add_secret name value t ≡ ok r → Adds t r
  by_vfs_root : (name : String) (path : List ℕ) → add_vfs_root name path t ≡ ok r → Adds t r
  by_derived_vfs_root : (path : VfsPath) → add_derived_vfs_root path t ≡ ok r → Adds t r
  by_vfs_mount :
      (name : String) (node : VfsNodeId) (path : VfsPath) (source : String) (flags : ℕ)
      (dynamic : Bool) (owner : ProcessId)
      → add_vfs_mount name node path source flags dynamic owner t ≡ ok r
      → Adds t r

pub add_endpoint_owned-Added :
    (name : String) (owner : ProcessId) (t : ObjectTable) {r : KernelObjectId × ObjectTable}
    → IsTable t
    → add_endpoint_owned name owner t ≡ ok r
    → Added t r.0 (ipc_endpoint (new_endpoint t.next_id name owner)) r.1
unfolding add_endpoint_owned object_id new_endpoint
add_endpoint_owned-Added name owner t {r} v e =
    let object = ipc_endpoint (new_endpoint t.next_id name owner) in
    let (t', inserted, rest) = >>=-ok (insert_object object t) _ e in
    let p = insert_object-Placed object t v inserted in
    rw (← placed t' rest) (record {
      fresh = refl;
      own = refl;
      next = omega (arith, p.next);
      slots = p.slots;
      within = p.within;
      inserted = p.inserted;
    })
  where
    placed :
        (s : ObjectTable)
        → ◌≡◌ {A = Result InitError (KernelObjectId × ObjectTable)}
            (ok (t.next_id, record s { next_id = s.next_id + 1 }))
            (ok r)
        → (t.next_id, record s { next_id = s.next_id + 1 }) ≡ r
    placed s q = cc

add_vfs_root-Added :
    (name : String) (path : List ℕ) (t : ObjectTable) {r : KernelObjectId × ObjectTable}
    → IsTable t
    → add_vfs_root name path t ≡ ok r
    → (o : KernelObject) × Added t r.0 o r.1
unfolding add_vfs_root object_id
add_vfs_root-Added name path t {r} v e =
    let (_, rest) = past_err (t.count == length t.objects) object_table_full _ e in
    let (root_path, _, appended) = >>=-ok (from_boot_root_path path) _ rest in
    (
      _,
      append_object-Added
          (λ id. vfs_root (record { id = id; name = name; root_path = root_path; derived = false }))
          t (λ n. refl) v appended,
    )

-- The method repeats the code of `append_object` with another error.
add_derived_vfs_root-Added :
    (path : VfsPath) (t : ObjectTable) {r : KernelObjectId × ObjectTable}
    → IsTable t
    → add_derived_vfs_root path t ≡ ok r
    → (o : KernelObject) × Added t r.0 o r.1
unfolding add_derived_vfs_root append_object object_id
add_derived_vfs_root-Added path t {r} v e = (
  _,
  append_object-Added
      (λ id.
        vfs_root (record { id = id; name = "vfs-root:derived"; root_path = path; derived = true }))
      t (λ n. refl) v (same (t.count == length t.objects) _ e),
)
  where
    same :
        (b : Bool) (a : KernelObjectId × ObjectTable)
        → ◌≡◌ {A = Result IpcError (KernelObjectId × ObjectTable)}
            (if b then err bad_capability else ok a)
            (ok r)
        → ◌≡◌ {A = Result InitError (KernelObjectId × ObjectTable)}
            (if b then err object_table_full else ok a)
            (ok r)
    same true a p = cc
    same false a p = cc

add_vfs_mount-Added :
    (name : String) (node : VfsNodeId) (path : VfsPath) (source : String) (flags : ℕ)
    (dynamic : Bool) (owner : ProcessId) (t : ObjectTable) {r : KernelObjectId × ObjectTable}
    → IsTable t
    → add_vfs_mount name node path source flags dynamic owner t ≡ ok r
    → (o : KernelObject) × Added t r.0 o r.1
unfolding add_vfs_mount object_id new_vfs_mount
add_vfs_mount-Added name node path source flags dynamic owner t {r} v e =
    let object = vfs_mount (new_vfs_mount t.next_id name node path source flags dynamic owner) in
    let counted = record t { next_id = t.next_id + 1 } in
    let (_, rest) = past_err (t.count == length t.objects) object_table_full _ e in
    let (t', inserted, last) = >>=-ok (insert_object object counted) _ rest in
    let p = insert_object-Placed object counted (IsTable-next v) inserted in
    (
      object,
      rw (← placed t' last) (record {
        fresh = refl;
        own = refl;
        next = p.next;
        slots = p.slots;
        within = p.within;
        inserted = p.inserted;
      }),
    )
  where
    placed :
        (s : ObjectTable)
        → ◌≡◌ {A = Result InitError (KernelObjectId × ObjectTable)} (ok (t.next_id, s)) (ok r)
        → (t.next_id, s) ≡ r
    placed s q = cc

-- Each adding call gives the identifier that was next, puts one object in under it, and leaves the
-- others as they are and in order.
Adds-Added :
    {t : ObjectTable} {r : KernelObjectId × ObjectTable}
    → IsTable t
    → Adds t r
    → (o : KernelObject) × Added t r.0 o r.1
Adds-Added {t} v (by_endpoint name owner e) = (_, add_endpoint_owned-Added name owner t v e)
Adds-Added {t} v (by_boot_module name base length e) = add_boot_module-Added name base length t v e
Adds-Added {t} v (by_store_object name base length hash e) =
    add_store_object-Added name base length hash t v e
Adds-Added {t} v (by_state_volume state e) = add_state_volume-Added state t v e
Adds-Added {t} v (by_timer name e) = add_timer-Added name t v e
Adds-Added {t} v (by_network_port name e) = add_network_port-Added name t v e
Adds-Added {t} v (by_io_port name base length e) = add_io_port-Added name base length t v e
Adds-Added {t} v (by_mmio_region name base length e) = add_mmio_region-Added name base length t v e
Adds-Added {t} v (by_framebuffer name b l w h p d rs rh gs gh bs bh e) =
    add_framebuffer-Added name b l w h p d rs rh gs gh bs bh t v e
Adds-Added {t} v (by_interrupt_line name line e) = add_interrupt_line-Added name line t v e
Adds-Added {t} v (by_dma_region name base length e) = add_dma_region-Added name base length t v e
Adds-Added {t} v (by_pci_device name kind e) = add_pci_device-Added name kind t v e
Adds-Added {t} v (by_virtio_device name transport e) = add_virtio_device-Added name transport t v e
Adds-Added {t} v (by_namespace name entries entry_count e) =
    add_namespace-Added name entries entry_count t v e
Adds-Added {t} v (by_process_control name e) = add_process_control-Added name t v e
Adds-Added {t} v (by_secret name value e) = add_secret-Added name value t v e
Adds-Added {t} v (by_vfs_root name path e) = add_vfs_root-Added name path t v e
Adds-Added {t} v (by_derived_vfs_root path e) = add_derived_vfs_root-Added path t v e
Adds-Added {t} v (by_vfs_mount name node path source flags dynamic owner e) =
    add_vfs_mount-Added name node path source flags dynamic owner t v e

-- An operation of the table that succeeds, or a reset.
pub data Step (t : ObjectTable) : ObjectTable → Type 0 where
  adds : (r : KernelObjectId × ObjectTable) → Adds t r → Step t r.1
  removes_endpoint :
      (id : KernelObjectId) (owner : ProcessId) → Step t (remove_owned_endpoint id owner t).1
  removes_derived_root : (id : KernelObjectId) → Step t (remove_derived_vfs_root id t).1
  removes_owned : (owner : ProcessId) → Step t (remove_owned_endpoints owner t).1
  removes_mount : (node : VfsNodeId) → Step t (remove_dynamic_vfs_mount node t).1
  removes_mount_at : (path : List ℕ) → Step t (remove_dynamic_vfs_mount_by_path path t).1
  resets : Step t (reset t)

pub data Reach (s : ObjectTable) : ObjectTable → Type 0 where
  here : Reach s s
  next : {t u : ObjectTable} → Reach s t → Step t u → Reach s u

remove_first-IsTable :
    (test : Option KernelObject → Bool) (t : ObjectTable)
    → test none ≡ false
    → IsTable t
    → IsTable (remove_first test t).1
remove_first-IsTable test t quiet v = elim (remove_first-Taken test t quiet) [
  | inl (same, _) ↦ rw same v
  | inr (_, _, _, taken) ↦ Taken-IsTable taken v
]

-- Every operation keeps the table well formed.
pub Step-IsTable : {t u : ObjectTable} → Step t u → IsTable t → IsTable u
unfolding remove_owned_endpoint remove_derived_vfs_root remove_dynamic_vfs_mount
    remove_dynamic_vfs_mount_by_path remove_selected reset
Step-IsTable (adds r a) v = Added-IsTable (Adds-Added v a).1 v
Step-IsTable {t} (removes_endpoint id owner) v =
    remove_first-IsTable (is_owned_endpoint id owner) t refl v
Step-IsTable {t} (removes_derived_root id) v = remove_first-IsTable (is_derived_root id) t refl v
Step-IsTable {t} (removes_owned owner) v = (remove_owned_endpoints-keeps owner t v).0
Step-IsTable {t} (removes_mount node) v =
    remove_first-IsTable (λ slot. is_some (in_slot (dynamic_mount_of_node node) slot)) t refl v
Step-IsTable {t} (removes_mount_at path) v =
    remove_first-IsTable (λ slot. is_some (in_slot (dynamic_mount_at path) slot)) t refl v
Step-IsTable resets v = record { slots = v.slots; within = omega arith; below = tt; distinct = tt }

pub new_table-IsTable : IsTable new_table
unfolding new_table
new_table-IsTable = record {
  slots = length-replicate {A = Option KernelObject} max_objects none;
  within = omega arith;
  below = tt;
  distinct = tt;
}

-- From the empty table on, whatever the operations, the table has its 128 slots and a count within
-- them, and the live objects have identifiers that differ from one another and lie below the next one.
pub Reach-IsTable : {t : ObjectTable} → Reach new_table t → IsTable t
Reach-IsTable here = new_table-IsTable
Reach-IsTable (next r s) = Step-IsTable s (Reach-IsTable r)
