-- ===== src/Memory/Steps.antt =====
-- All operations of the frame allocator together: kernel/krust/src/memory.rs.
use vertex_os.Base.{ℕ, ◌≡◌, ◌∙◌, refl, Option, ok}
use vertex_os.Memory.{PhysicalFrame, FrameOwner, FrameAllocator}
use vertex_os.Memory.Allocate.{allocate_owned, allocate_contiguous_owned}
use vertex_os.Memory.Release.{free_with_owner, set_owner}
use vertex_os.Memory.Places.{IsAllocator, Conserves, AllocCase, taken, refused}
use vertex_os.Memory.Taken.{allocate_owned-AllocCase}
use vertex_os.Memory.Run.{allocate_contiguous_owned-AllocCase}
use vertex_os.Memory.Freed.{free_with_owner-Conserves, set_owner-Conserves}

pub data Step (a : FrameAllocator) : FrameAllocator → Type 0 where
  allocates : (owner : FrameOwner) → Step a (allocate_owned owner a).1
  allocates_run : (n : ℕ) (owner : FrameOwner) → Step a (allocate_contiguous_owned n owner a).1
  frees :
      (frame : PhysicalFrame) (expected : Option FrameOwner) (b : FrameAllocator)
      → free_with_owner frame expected a ≡ ok b
      → Step a b
  sets_owner :
      (frame : PhysicalFrame) (owner : FrameOwner) (b : FrameAllocator)
      → set_owner frame owner a ≡ ok b
      → Step a b

pub data Reach (a : FrameAllocator) : FrameAllocator → Type 0 where
  here : Reach a a
  next : {b c : FrameAllocator} → Reach a b → Step b c → Reach a c

AllocCase-Conserves :
    (n : ℕ) (owner : FrameOwner) (a : FrameAllocator) (r : Option PhysicalFrame × FrameAllocator)
    → AllocCase n owner a r
    → Conserves a r.1
AllocCase-Conserves n owner a r (taken first b c grown) = c
AllocCase-Conserves n owner a r (refused b c same) = c

Step-Conserves : {a b : FrameAllocator} → Step a b → IsAllocator a → Conserves a b
Step-Conserves {a} (allocates owner) v =
    AllocCase-Conserves 1 owner a _ (allocate_owned-AllocCase owner a v)
Step-Conserves {a} (allocates_run n owner) v =
    AllocCase-Conserves n owner a _ (allocate_contiguous_owned-AllocCase n owner a v)
Step-Conserves {a} (frees frame expected b e) v = free_with_owner-Conserves frame expected a b v e
Step-Conserves {a} (sets_owner frame owner b e) v = set_owner-Conserves frame owner a b v e

-- Along any sequence of single requests, requests for a run, releases and changes of owner, an
-- allocator that is well formed stays well formed, and every frame keeps the number of its
-- places among the unused parts of the ranges, the free stack and the ledger of records: none is
-- lost and none is made.
pub Reach-Conserves : {a b : FrameAllocator} → IsAllocator a → Reach a b → Conserves a b
Reach-Conserves v here = record { valid = v; same_places = λ frame. refl }
Reach-Conserves v (next r s) =
    let earlier = Reach-Conserves v r in
    let last = Step-Conserves s earlier.valid in
    record {
      valid = last.valid;
      same_places = λ frame. last.same_places frame ∙ earlier.same_places frame;
    }
