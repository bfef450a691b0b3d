-- ===== src/Arena/Handles.antt =====
-- Handles that were freed: alloc and free of kernel/krust/src/arena.rs.
use vertex_os.Base.{
  ℕ, ◌+◌, ◌-◌, ◌≤◌, ◌<◌, ◌≡◌, ◌∙◌, refl, sym, ap, subst, inl, inr, false, some, ok, err, ◌==◌,
  get_elem?, get_elem?-lt, get_elem?-set_self, get_elem?-set_ne, set, Bool-cases, ==→eq, arith,
}
use vertex_os.Ids.{u64_max}
use vertex_os.Arena.{invalid_handle, ArenaHandle, ArenaSlot, TypedArena, alloc, vacated, free}
use vertex_os.Arena.Slots.{IsArena, alloc-IsArena, free-IsArena, alloc-Allocated, free-Freed}

module _ {T : Type 0} where
  pub data Step (a : TypedArena T) : TypedArena T → Type 0 where
    allocates :
        (value : T) (handle : ArenaHandle) (b : TypedArena T)
        → alloc value a ≡ ok (handle, b)
        → Step a b
    frees : (handle : ArenaHandle) (b : TypedArena T) → free handle a ≡ ok b → Step a b

  pub data Reach (a : TypedArena T) : TypedArena T → Type 0 where
    here : Reach a a
    next : {b c : TypedArena T} → Reach a b → Step b c → Reach a c

  -- Along any sequence of allocations and releases that succeed, the count of live values of an
  -- arena stays the number of its occupied slots.
  pub Reach-IsArena : {a b : TypedArena T} → IsArena a → Reach a b → IsArena b
  Reach-IsArena v here = v
  Reach-IsArena v (next r (allocates value handle c h)) =
      alloc-IsArena value _ handle c h (Reach-IsArena v r)
  Reach-IsArena v (next r (frees handle c h)) = free-IsArena handle _ c h (Reach-IsArena v r)

  -- The slot has moved on from a generation.
  record IsPast (index generation : ℕ) (a : TypedArena T) : Type 0 where
    slot : ArenaSlot T
    here : get_elem? a.slots index ≡ some slot
    later : generation < slot.generation
    word : slot.generation ≤ u64_max

  set-IsPast :
      (index generation i n : ℕ) (a : TypedArena T) (old new : ArenaSlot T)
      → get_elem? a.slots i ≡ some old
      → (old.generation ≤ u64_max → (old.generation ≤ new.generation) × (new.generation ≤ u64_max))
      → IsPast index generation a
      → IsPast index generation (record { slots = set a.slots i new; live = n })
  set-IsPast index generation i n a old new was grows p = elim (Bool-cases (i == index)) [
    | inl same ↦
        let at : i ≡ index = ==→eq i index same in
        let one : old ≡ p.slot = entry (sym was ∙ (ap (get_elem? a.slots) at ∙ p.here)) in
        let level : old.generation ≡ p.slot.generation =
          ap (λ (s : ArenaSlot T). s.generation) one in
        let bounds = grows (omega (arith, level, p.word)) in
        record {
          slot = new;
          here =
              ap (get_elem? (set a.slots i new)) (sym at)
              ∙ get_elem?-set_self a.slots i new (get_elem?-lt a.slots i old was);
          later = omega (arith, p.later, level, bounds.0);
          word = bounds.1;
        }
    | inr other ↦ record {
      slot = p.slot;
      here = get_elem?-set_ne a.slots i index new (λ e. absurd (ground (arith, e, other))) ∙ p.here;
      later = p.later;
      word = p.word;
    }
  ]
    where
      entry : {a b : ArenaSlot T} → some a ≡ some b → a ≡ b
      entry e = cc

  -- The generation that a freed slot gets.
  vacated-grows :
      (slot : ArenaSlot T)
      → slot.generation ≤ u64_max
      → (slot.generation ≤ (vacated slot).generation) × ((vacated slot).generation ≤ u64_max)
  unfolding vacated
  vacated-grows slot h = (ground (arith, h), ground (arith, h))

  Step-IsPast :
      (index generation : ℕ) {a b : TypedArena T}
      → Step a b
      → IsPast index generation a
      → IsPast index generation b
  Step-IsPast index generation {a} {b} (allocates value handle _ h) p =
      let r = alloc-Allocated value a handle b h in
      subst (IsPast index generation) (sym r.now) (
        set-IsPast index generation handle.index (a.live + 1) a r.slot
          (record r.slot { value = some value }) r.was (λ w. (omega arith, w)) p)
  Step-IsPast index generation {a} {b} (frees handle _ h) p =
      let r = free-Freed handle a b h in
      subst (IsPast index generation) (sym r.now) (
        set-IsPast index generation handle.index (a.live - 1) a r.slot (vacated r.slot) r.was
          (vacated-grows r.slot) p)

  Reach-IsPast :
      (index generation : ℕ) {a b : TypedArena T}
      → Reach a b
      → IsPast index generation a
      → IsPast index generation b
  Reach-IsPast index generation here p = p
  Reach-IsPast index generation (next r s) p =
      Step-IsPast index generation s (Reach-IsPast index generation r p)

  free-IsPast :
      (handle : ArenaHandle) (a b : TypedArena T)
      → handle.generation < u64_max
      → free handle a ≡ ok b
      → IsPast handle.index handle.generation b
  unfolding vacated
  free-IsPast handle a b small h =
      let r = free-Freed handle a b h in
      subst (IsPast handle.index handle.generation) (sym r.now) (record {
        slot = vacated r.slot;
        here =
            get_elem?-set_self a.slots handle.index (vacated r.slot)
              (get_elem?-lt a.slots handle.index r.slot r.was);
        later = ground (arith, r.generation, small);
        word = ground (arith, r.generation, small);
      })

  past-refused :
      (handle : ArenaHandle) (a : TypedArena T)
      → IsPast handle.index handle.generation a
      → free handle a ≡ err invalid_handle
  unfolding free
  past-refused handle a p =
      let other : (p.slot.generation == handle.generation) ≡ false = ground (arith, p.later) in
      rw (p.here, other, free) refl

  -- After a release that succeeds, with a handle whose generation is below the largest word, the
  -- handle is refused as invalid for ever: after any further allocations and releases, a slot
  -- that is used again included.
  pub freed_handle_refused :
      (handle : ArenaHandle) (a : TypedArena T) {b c : TypedArena T}
      → handle.generation < u64_max
      → free handle a ≡ ok b
      → Reach b c
      → free handle c ≡ err invalid_handle
  freed_handle_refused handle a {b} {c} small h r =
      past-refused handle c
        (Reach-IsPast handle.index handle.generation r (free-IsPast handle a b small h))
