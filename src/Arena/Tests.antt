-- ===== src/Arena/Tests.antt =====
-- An arena of two slots, and a heap of one page.
use vertex_os.Base.{ℕ, ◌+◌, ◌%◌, ◌≡◌, ◌≤◌, refl, [], some, Result, ok, err, arith}
use vertex_os.Arena.{
  ArenaError, invalid_handle, ArenaHandle, TypedArena, new_arena, alloc, vacated, free, KernelHeap,
  aligned_up, at_least_one, heap_alloc,
}
use vertex_os.Arena.Slots.{IsArena}
use vertex_os.Arena.Handles.{here, next, allocates, frees, Reach-IsArena, freed_handle_refused}
use vertex_os.Arena.Heap.{heap_alloc_within}

abbrev page : KernelHeap
page = record { base = 4096; length = 4096; next = 4100 }

after_sixteen : KernelHeap
after_sixteen = record page { next = 4120 }

page_alloc : heap_alloc 16 8 page ≡ (some 4104, after_sixteen)
unfolding heap_alloc aligned_up after_sixteen
page_alloc = refl

heap_alloc_within_example :
    (4100 ≤ 4104)
    × (4104 % at_least_one 8 ≡ 0)
    × (4104 + 16 ≡ after_sixteen.next)
    × (after_sixteen.next ≤ 4096 + 4096)
    × ((after_sixteen.base ≡ 4096) × (after_sixteen.length ≡ 4096))
heap_alloc_within_example = heap_alloc_within 16 8 4104 page after_sixteen (omega arith) page_alloc

arena_of : Result ArenaError (ArenaHandle × TypedArena ℕ) → TypedArena ℕ
arena_of (ok (_, a)) = a
arena_of (err e) = record { slots = []; live = 0 }

freed_of : Result ArenaError (TypedArena ℕ) → TypedArena ℕ
freed_of (ok a) = a
freed_of (err e) = record { slots = []; live = 0 }

abbrev first_handle : ArenaHandle
first_handle = record { index = 0; generation = 1 }

abbrev later_handle : ArenaHandle
later_handle = record { index = 0; generation = 2 }

one_value : TypedArena ℕ
unfolding alloc new_arena
one_value = arena_of (alloc 5 (new_arena ℕ 2))

no_value : TypedArena ℕ
unfolding freed_of one_value free vacated arena_of
no_value = freed_of (free first_handle one_value)

other_value : TypedArena ℕ
unfolding no_value alloc freed_of
other_value = arena_of (alloc 6 no_value)

one_value-alloc : alloc 5 (new_arena ℕ 2) ≡ ok (first_handle, one_value)
unfolding one_value alloc arena_of new_arena
one_value-alloc = refl

no_value-free : free first_handle one_value ≡ ok no_value
unfolding no_value freed_of
no_value-free = refl

other_value-alloc : alloc 6 no_value ≡ ok (later_handle, other_value)
unfolding other_value arena_of
other_value-alloc = refl

new_arena-IsArena : IsArena (new_arena ℕ 2)
unfolding new_arena
new_arena-IsArena = refl

Reach-IsArena_example : IsArena other_value
Reach-IsArena_example = Reach-IsArena new_arena-IsArena (
    next
      (next (next here (allocates 5 first_handle one_value one_value-alloc))
        (frees first_handle no_value no_value-free))
      (allocates 6 later_handle other_value other_value-alloc))

freed_handle_refused_example : free first_handle other_value ≡ err invalid_handle
freed_handle_refused_example =
    freed_handle_refused first_handle one_value (omega arith) no_value-free
      (next here (allocates 6 later_handle other_value other_value-alloc))
