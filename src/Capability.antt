-- ===== src/Capability.antt =====
-- Capabilities and the capability space of a process: kernel/krust/src/kernel/process_runtime.rs.
-- A slot is an index of the array of a space.
use vertex_os.Base.{
  ℕ, Bool, true, ◌&&◌, Option, none, some, List, map, Result, ok, err, ◌==◌, ltb, if◌then◌else◌,
  length, get_elem?, set, replicate, is_some, is_none, find_map,
}
use Prim.Native.String.{String}
use vertex_os.Ids.{
  ProcessId, KernelObjectId, InitError, capability_table_full, invalid_boot_manifest, IpcError,
  bad_capability,
}

abbrev pub max_caps : ℕ
max_caps = 32

pub record Capability : Type 0 where
  pub id : ℕ
  pub object : KernelObjectId
  pub rights : ℕ
  pub owner_process : ProcessId
  pub parent_cap_id : ℕ
  pub generation_id : String
  pub delegated_by : ProcessId
  pub revoked : Bool

pub record CapabilitySpace : Type 0 where
  pub caps : List (Option Capability)

-- `CapabilitySpace::new()`
unfoldable pub new_space : CapabilitySpace
new_space = record { caps = replicate max_caps none }

-- `self.caps.get(slot).copied().flatten()`
unfoldable pub lookup : ℕ → CapabilitySpace → Option Capability
lookup slot space = elim (get_elem? space.caps slot) [ none ↦ none | some entry ↦ entry ]

unfoldable pub grant : ℕ → Capability → CapabilitySpace → Result InitError CapabilitySpace
unfolding lookup
grant slot cap space =
    if ltb slot (length space.caps)
    then (if is_some (lookup slot space)
        then err invalid_boot_manifest
        else ok (record { caps = set space.caps slot (some cap) }))
    else err capability_table_full

-- The capability that was in the slot, and the space without it.
unfoldable pub clear : ℕ → CapabilitySpace → Result IpcError (Capability × CapabilitySpace)
unfolding lookup
clear slot space = elim (lookup slot space) [
  | none ↦ err bad_capability
  | some cap ↦ ok (cap, record { caps = set space.caps slot none })
]

unfoldable pub can_grant : ℕ → CapabilitySpace → Bool
unfolding lookup
can_grant slot space = ltb slot (length space.caps) && is_none (lookup slot space)

unfoldable pub mark_entry : ℕ → Option Capability → Option Capability
mark_entry cap_id none = none
mark_entry cap_id (some cap) =
    if cap.id == cap_id then some (record cap { revoked = true }) else some cap

unfoldable pub mark_revoked : ℕ → CapabilitySpace → CapabilitySpace
unfolding mark_entry
mark_revoked cap_id space = record { caps = map (mark_entry cap_id) space.caps }

-- The test of `find_cap_parent_in_space`.
unfoldable pub parent_if_id : ℕ → Option Capability → Option ℕ
parent_if_id cap_id none = none
parent_if_id cap_id (some cap) = if cap.id == cap_id then some cap.parent_cap_id else none

unfoldable pub find_cap_parent_in_space : ℕ → CapabilitySpace → Option ℕ
unfolding parent_if_id
find_cap_parent_in_space cap_id space = find_map (parent_if_id cap_id) space.caps
