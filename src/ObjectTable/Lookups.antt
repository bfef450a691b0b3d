-- ===== src/ObjectTable/Lookups.antt =====
-- The lookups of object_table.rs after an endpoint is added or a derived root is removed.
use Prim.Native.String.{String}
use vertex_os.Base.{
  ◌≡◌, ◌≢◌, refl, sym, ap, ◌∙◌, Option, none, some, List, [], ◌∷◌, ◌++◌, ok, arith, All, find_map,
}
use vertex_os.Ids.{KernelObjectId, ProcessId}
use vertex_os.Transport.{IpcEndpoint, new_endpoint}
use vertex_os.Object.{KernelObject, object_id, ipc_endpoint, vfs_root}
use vertex_os.ObjectTable.Table.{ObjectTable, used, in_slot, find_object}
use vertex_os.ObjectTable.Add.{add_endpoint_owned}
use vertex_os.ObjectTable.Find.{ipc_endpoint_with, get_endpoint, vfs_root_with}
use vertex_os.ObjectTable.Live.{live, Inserts}
use vertex_os.ObjectTable.Valid.{live_objects, IdBelow, IsTable}
use vertex_os.ObjectTable.Steps.{add_endpoint_owned-Added}

module _ {A : Type 0} (select : KernelObject → Option A) where
  find_map-live :
      (slots : List (Option KernelObject))
      → find_map (in_slot select) slots ≡ find_map select (live slots)
  find_map-live [] = refl
  find_map-live (none ∷ slots) = find_map-live slots
  find_map-live (some o ∷ slots) = ground (arith, find_map-live slots)

  find_map-skip :
      (xs : List KernelObject) (o : KernelObject) (ys : List KernelObject)
      → select o ≡ none
      → find_map select (xs ++ o ∷ ys) ≡ find_map select (xs ++ ys)
  find_map-skip [] o ys h = rw (h, find_map)
  find_map-skip (x ∷ xs) o ys h = ground (arith, find_map-skip xs o ys h)

  find_map-hit :
      (xs : List KernelObject) (o : KernelObject) (ys : List KernelObject) (a : A)
      → All (λ p. select p ≡ none) (xs ++ ys)
      → select o ≡ some a
      → find_map select (xs ++ o ∷ ys) ≡ some a
  find_map-hit [] o ys a quiet h = rw (h, find_map)
  find_map-hit (x ∷ xs) o ys a quiet h = rw (quiet.0, find_map) (find_map-hit xs o ys a quiet.1 h)

  -- An object that the search passes over can come and go.
  find_object-skip :
      (t t' : ObjectTable) (o : KernelObject)
      → Inserts o (live_objects t) (live_objects t')
      → select o ≡ none
      → find_object select t' ≡ find_object select t
  unfolding find_object
  find_object-skip t t' o i h =
      find_map-live (used t')
      ∙ ap (find_map select) i.present
      ∙ find_map-skip i.front o i.back h
      ∙ ap (find_map select) (sym i.absent)
      ∙ sym (find_map-live (used t))

  find_object-hit :
      (t t' : ObjectTable) (o : KernelObject) (a : A)
      → Inserts o (live_objects t) (live_objects t')
      → All (λ p. select p ≡ none) (live_objects t)
      → select o ≡ some a
      → find_object select t' ≡ some a
  unfolding find_object
  find_object-hit t t' o a i quiet h =
      find_map-live (used t')
      ∙ ap (find_map select) i.present
      ∙ find_map-hit i.front o i.back a (rw i.absent at quiet) h

  find_object-none :
      (t : ObjectTable) → All (λ p. select p ≡ none) (live_objects t) → find_object select t ≡ none
  unfolding find_object
  find_object-none t quiet = find_map-live (used t) ∙ none_of (live_objects t) quiet
    where
      none_of : (xs : List KernelObject) → All (λ p. select p ≡ none) xs → find_map select xs ≡ none
      none_of [] q = refl
      none_of (x ∷ xs) q = rw (q.0, find_map) (none_of xs q.1)

-- A search by identifier passes over the objects with another one.
endpoint_differs :
    (id : KernelObjectId) (o : KernelObject) → object_id o ≢ id → ipc_endpoint_with id o ≡ none
unfolding object_id
endpoint_differs id (ipc_endpoint e) h = ground arith
endpoint_differs id _ h = refl

root_differs :
    (id : KernelObjectId) (o : KernelObject) → object_id o ≢ id → vfs_root_with id o ≡ none
unfolding object_id
root_differs id (vfs_root r) h = ground arith
root_differs id _ h = refl

All-imp :
    (P Q : KernelObject → Type 0)
    → ((o : KernelObject) → P o → Q o)
    → (xs : List KernelObject) → All P xs
    → All Q xs
All-imp P Q f [] a = tt
All-imp P Q f (x ∷ xs) a = (f x a.0, All-imp P Q f xs a.1)

-- Where `add_endpoint_owned` succeeds on a well-formed table, the new endpoint is found under its
-- identifier, as it was made, and a lookup of an endpoint by another identifier gives what it gave.
pub get_endpoint-add_endpoint_owned :
    (name : String) (owner : ProcessId) (t : ObjectTable) (r : KernelObjectId × ObjectTable)
    (id : KernelObjectId)
    → IsTable t
    → add_endpoint_owned name owner t ≡ ok r
    → id ≢ r.0
    → (get_endpoint r.0 r.1 ≡ some (new_endpoint r.0 name owner))
      × (get_endpoint id r.1 ≡ get_endpoint id t)
unfolding get_endpoint new_endpoint
get_endpoint-add_endpoint_owned name owner t r id v e other =
    let a = add_endpoint_owned-Added name owner t v e in
    let object = ipc_endpoint (new_endpoint t.next_id name owner) in
    (
      rw a.fresh (
          find_object-hit (ipc_endpoint_with t.next_id) t r.1 object
            (new_endpoint t.next_id name owner) a.inserted
            (All-imp (IdBelow t.next_id) (λ p. ipc_endpoint_with t.next_id p ≡ none)
              (λ p h. endpoint_differs t.next_id p (λ s. absurd (omega arith))) (live_objects t)
              v.below)
            (own (new_endpoint t.next_id name owner) t.next_id refl)),
      find_object-skip (ipc_endpoint_with id) t r.1 object a.inserted
          (endpoint_differs id object (λ s. other (sym s ∙ a.own))),
    )
  where
    own :
        (endpoint : IpcEndpoint) (id : KernelObjectId)
        → endpoint.id ≡ id
        → ipc_endpoint_with id (ipc_endpoint endpoint) ≡ some endpoint
    own endpoint id s = ground arith
