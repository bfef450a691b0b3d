-- ===== src/ObjectTable/Placed.antt =====
-- What the two ways to place an object, and the removals, do to the live objects.
use mathlib.Core.List.{append-nil}
use vertex_os.Base.{
  ℕ, suc, ◌+◌, ◌≤◌, ◌<◌, ◌≡◌, refl, sym, ap, ◌∙◌, inl, inr, true, Option, none, some, List, [], ◌∷◌,
  Result, ok, arith, ◌==◌, length, set, take, is_none, length-set, take-set_end, Bool-cases,
}
use vertex_os.Base.Search.{Found, position-cases}
use vertex_os.Ids.{KernelObjectId, InitError}
use vertex_os.Object.{KernelObject, object_id, max_objects}
use vertex_os.ObjectTable.Table.{ObjectTable, used, insert_object, append_object}
use vertex_os.ObjectTable.Live.{live, Inserts, live-append, live-fill, take-set}
use vertex_os.ObjectTable.Valid.{
  live_objects, IdBelow, IdDiffers, IsTable, All-mono, All-Inserts, Distinct-Inserts,
}

-- One object more, under the identifier that was next.
pub record Added (t : ObjectTable) (id : KernelObjectId) (o : KernelObject) (t' : ObjectTable)
    : Type 0 where
  pub fresh : id ≡ t.next_id
  pub own : object_id o ≡ id
  pub next : t'.next_id ≡ t.next_id + 1
  pub slots : length t'.objects ≡ length t.objects
  pub within : t'.count ≤ max_objects
  pub inserted : Inserts o (live_objects t) (live_objects t')

pub Added-IsTable :
    {t t' : ObjectTable} {id : KernelObjectId} {o : KernelObject}
    → Added t id o t'
    → IsTable t
    → IsTable t'
Added-IsTable {t} {t'} {id} {o} a v = record {
  slots = a.slots ∙ v.slots;
  within = a.within;
  below =
      All-Inserts o (live_objects t) (live_objects t') a.inserted (IdBelow t'.next_id)
        (omega (arith, a.fresh, a.own, a.next))
        (All-mono (IdBelow t.next_id) (IdBelow t'.next_id) (λ p h. omega (arith, a.next))
          (live_objects t) v.below);
  distinct =
      Distinct-Inserts o (live_objects t) (live_objects t') a.inserted
        (All-mono (IdBelow t.next_id) (IdDiffers (object_id o))
          (λ p h e. absurd (omega (arith, a.fresh, a.own))) (live_objects t) v.below)
        v.distinct;
}

append_end :
    (o : KernelObject) (xs : List (Option KernelObject)) (n : ℕ)
    → n < length xs
    → Inserts o (live (take n xs)) (live (take (n + 1) (set xs n (some o))))
append_end o xs n h =
    let one_more : n + 1 ≡ suc n = omega arith in
    record {
      front = live (take n xs);
      back = [];
      absent = sym (append-nil (live (take n xs)));
      present =
          ap (λ (k : ℕ). live (take k (set xs n (some o)))) one_more
          ∙ ap live (take-set_end xs n (some o) h)
          ∙ live-append (take n xs) (some o ∷ []);
    }

pub append_object-Added :
    (object : KernelObjectId → KernelObject) (t : ObjectTable) {r : KernelObjectId × ObjectTable}
    → ((n : ℕ) → object_id (object n) ≡ n)
    → IsTable t
    → append_object object t ≡ ok r
    → Added t r.0 (object r.0) r.1
unfolding append_object
append_object-Added object t {r} own v e = elim (Bool-cases (t.count == length t.objects)) [
  | inl full ↦ cc (rw full at e)
  | inr room ↦ rw (← placed (rw room at e)) (added (ground (arith, v.slots, v.within)))
]
  where
    after : ObjectTable
    after = record {
      next_id = t.next_id + 1;
      objects = set t.objects t.count (some (object t.next_id));
      count = t.count + 1;
    }

    placed :
        ◌≡◌ {A = Result InitError (KernelObjectId × ObjectTable)} (ok (t.next_id, after)) (ok r)
        → (t.next_id, after) ≡ r
    placed p = cc

    added : t.count < length t.objects → Added t t.next_id (object t.next_id) after
    added h = record {
      fresh = refl;
      own = own t.next_id;
      next = refl;
      slots = length-set t.objects t.count (some (object t.next_id));
      within = omega (arith, v.slots);
      inserted = append_end (object t.next_id) t.objects t.count h;
    }

-- `insert_object` puts the object in and leaves the next identifier alone.
pub record Placed (t : ObjectTable) (o : KernelObject) (t' : ObjectTable) : Type 0 where
  pub next : t'.next_id ≡ t.next_id
  pub slots : length t'.objects ≡ length t.objects
  pub within : t'.count ≤ max_objects
  pub inserted : Inserts o (live_objects t) (live_objects t')

is_none→none : (slot : Option KernelObject) → is_none slot ≡ true → slot ≡ none
is_none→none none h = refl
is_none→none (some o) h = cc

fill-Placed :
    (o : KernelObject) (t : ObjectTable) (i : ℕ)
    → IsTable t
    → Found is_none (used t) i
    → Placed t o (record t { objects = set t.objects i (some o) })
fill-Placed o t i v f = record {
  next = refl;
  slots = length-set t.objects i (some o);
  within = v.within;
  inserted =
      rw (take-set t.count t.objects i (some o))
        (live-fill o (used t) i (f.here ∙ ap some (is_none→none f.item f.passes)));
}

end-Placed :
    (o : KernelObject) (t : ObjectTable)
    → IsTable t
    → t.count < length t.objects
    → Placed t o (record t { objects = set t.objects t.count (some o); count = t.count + 1 })
end-Placed o t v h = record {
  next = refl;
  slots = length-set t.objects t.count (some o);
  within = omega (arith, v.slots);
  inserted = append_end o t.objects t.count h;
}

pub insert_object-Placed :
    (o : KernelObject) (t : ObjectTable) {t' : ObjectTable}
    → IsTable t
    → insert_object o t ≡ ok t'
    → Placed t o t'
unfolding insert_object
insert_object-Placed o t {t'} v e = elim (position-cases is_none (used t)) [
  | inr (i, found, f) ↦
      rw
        (← placed (record t { objects = set t.objects i (some o) })
          (rw (found, insert_object) at e))
        (fill-Placed o t i v f)
  | inl (missing, _) ↦ elim (Bool-cases (t.count == length t.objects)) [
    | inl full ↦ cc (rw (missing, insert_object, full) at e)
    | inr room ↦
        rw
          (← placed (record t { objects = set t.objects t.count (some o); count = t.count + 1 })
            (rw (missing, insert_object, room) at e))
          (end-Placed o t v (ground (arith, v.slots, v.within)))
  ]
]
  where
    placed : (s : ObjectTable) → ◌≡◌ {A = Result InitError ObjectTable} (ok s) (ok t') → s ≡ t'
    placed s p = cc
