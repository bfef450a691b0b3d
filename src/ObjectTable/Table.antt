-- ===== src/ObjectTable/Table.antt =====
-- The table, a search of its slots, and the two ways to place an object: object_table.rs. A loop over
-- `0..count` is a recursion on `used`. Identifiers are not bounded here: the program's
-- `next_id += 1` would need 2^64 additions to overflow.
use vertex_os.Base.{
  ℕ, suc, ◌+◌, Bool, true, false, Option, none, some, List, [], ◌∷◌, Result, ok, err, ◌==◌,
  if◌then◌else◌, length, set, take, replicate, find_map, position, is_some, is_none,
}
use vertex_os.Ids.{KernelObjectId, InitError, object_table_full}
use vertex_os.Object.{boot_endpoint_id, max_objects, KernelObject, ipc_endpoint}

pub record ObjectTable : Type 0 where
  pub objects : List (Option KernelObject)
  pub count : ℕ
  pub next_id : ℕ

-- The slots that the loops look at, `objects[..count]`.
abbrev pub used : ObjectTable → List (Option KernelObject)
used t = take t.count t.objects

-- `ObjectTable::new()`
unfoldable pub new_table : ObjectTable
new_table = record { objects = replicate max_objects none; count = 0; next_id = boot_endpoint_id }

unfoldable pub reset : ObjectTable → ObjectTable
reset t = record t { count = 0; next_id = boot_endpoint_id }

-- `insert_object`: the first free slot below `count`, or the slot behind it.
unfoldable pub insert_object : KernelObject → ObjectTable → Result InitError ObjectTable
insert_object object t = elim (position is_none (used t)) [
  | some index ↦ ok (record t { objects = set t.objects index (some object) })
  | none ↦
      if t.count == length t.objects
      then err object_table_full
      else ok (record t { objects = set t.objects t.count (some object); count = t.count + 1 })
]

-- What most of the adding methods do with the object that they build from a fresh identifier.
unfoldable pub append_object :
    (KernelObjectId → KernelObject) → ObjectTable → Result InitError (KernelObjectId × ObjectTable)
append_object object t =
    if t.count == length t.objects
    then err object_table_full
    else ok (
      t.next_id,
      record {
        next_id = t.next_id + 1;
        objects = set t.objects t.count (some (object t.next_id));
        count = t.count + 1;
      },
    )

-- One round of a searching loop: a slot that is empty or holds another kind is passed over.
abbrev pub in_slot {ℓ} : {A : Type ℓ} → (KernelObject → Option A) → Option KernelObject → Option A
in_slot select none = none
in_slot select (some object) = select object

unfoldable pub find_object {ℓ} : {A : Type ℓ} → (KernelObject → Option A) → ObjectTable → Option A
find_object select t = find_map (in_slot select) (used t)

-- The number of slots that pass a test, as the counting loops find it.
unfoldable pub count_slots : (Option KernelObject → Bool) → List (Option KernelObject) → ℕ
count_slots test [] = 0
count_slots test (slot ∷ slots) =
    if test slot then suc (count_slots test slots) else count_slots test slots

abbrev pub is_endpoint : Option KernelObject → Bool
is_endpoint (some (ipc_endpoint _)) = true
is_endpoint _ = false

unfoldable pub endpoint_count : ObjectTable → ℕ
unfolding count_slots
endpoint_count t = count_slots is_endpoint (used t)

unfoldable pub live_count : ObjectTable → ℕ
unfolding count_slots
live_count t = count_slots is_some (used t)
