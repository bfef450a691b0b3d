-- ===== src/Arena.antt =====
-- The typed arena and the kernel heap: kernel/krust/src/arena.rs.
pub mod Slots
pub mod Handles
pub mod Heap
mod Tests
use vertex_os.Base.{
  ℕ, ◌+◌, ◌-◌, ◌%◌, Bool, true, false, Option, none, some, List, Result, ok, err, ◌==◌, ltb,
  if◌then◌else◌, get_elem?, set, replicate, position, is_none,
}
use vertex_os.Ids.{u64_max, saturating_add}

pub data ArenaError : Type 0 where
  full invalid_handle slot_empty : ArenaError

pub record ArenaHandle : Type 0 where
  pub index : ℕ
  pub generation : ℕ

pub record ArenaSlot (T : Type 0) : Type 0 where
  pub value : Option T
  pub generation : ℕ

pub record TypedArena (T : Type 0) : Type 0 where
  pub slots : List (ArenaSlot T)
  pub live : ℕ

-- `TypedArena::new()`, for `n` slots
unfoldable pub new_arena : (T : Type 0) → ℕ → TypedArena T
new_arena T n = record { slots = replicate n (record { value = none; generation = 1 }); live = 0 }

abbrev pub is_vacant : {T : Type 0} → ArenaSlot T → Bool
is_vacant slot = is_none slot.value

module _ {T : Type 0} where
  unfoldable pub alloc : T → TypedArena T → Result ArenaError (ArenaHandle × TypedArena T)
  alloc value a = elim (position is_vacant a.slots) [
    | none ↦ err full
    | some index ↦ elim (get_elem? a.slots index) [
      | none ↦ err full
      | some slot ↦ ok (
        record { index = index; generation = slot.generation },
        record {
          slots = set a.slots index (record slot { value = some value });
          live = a.live + 1;
        },
      )
    ]
  ]

  -- The slot that is freed.
  unfoldable pub vacated : ArenaSlot T → ArenaSlot T
  vacated slot = record { value = none; generation = saturating_add slot.generation 1 }

  unfoldable pub free : ArenaHandle → TypedArena T → Result ArenaError (TypedArena T)
  unfolding vacated
  free handle a = elim (get_elem? a.slots handle.index) [
    | none ↦ err invalid_handle
    | some slot ↦ elim (slot.generation == handle.generation) [
      | false ↦ err invalid_handle
      | true ↦ elim (is_vacant slot) [
        | true ↦ err slot_empty
        | false ↦ ok (record { slots = set a.slots handle.index (vacated slot); live = a.live - 1 })
      ]
    ]
  ]

pub record KernelHeap : Type 0 where
  pub base : ℕ
  pub length : ℕ
  pub next : ℕ

-- `KernelHeap::new(base, length)`
unfoldable pub new_heap : ℕ → ℕ → KernelHeap
new_heap base length = record { base = base; length = length; next = base }

-- `align_up` of arena.rs
unfoldable pub aligned_up : ℕ → ℕ → ℕ
aligned_up value align =
    if value % align == 0 then value else saturating_add value (align - value % align)

-- `align.max(1)`
abbrev pub at_least_one : ℕ → ℕ
at_least_one align = if ltb align 1 then 1 else align

-- `end > self.base.checked_add(self.length)?`, and true where a sum is no u64
abbrev pub is_past_end : ℕ → KernelHeap → Bool
is_past_end end h =
    if ltb u64_max end
    then true
    else if ltb u64_max (h.base + h.length)
    then true
    else ltb (h.base + h.length) end

unfoldable pub heap_alloc : ℕ → ℕ → KernelHeap → Option ℕ × KernelHeap
unfolding aligned_up
heap_alloc bytes align h =
    let start = aligned_up h.next (at_least_one align) in
    elim (is_past_end (start + bytes) h) [
      | true ↦ (none, h)
      | false ↦ (some start, record h { next = start + bytes })
    ]
