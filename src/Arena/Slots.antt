-- ===== src/Arena/Slots.antt =====
-- Handles of the typed arena: alloc and free of kernel/krust/src/arena.rs.
use vertex_os.Base.{
  ℕ, suc, zero, ◌+◌, ◌-◌, ◌≡◌, ◌∙◌, refl, sym, ap, subst, inl, inr, true, false, some, List, [],
  ◌∷◌, Result, ok, err, ◌==◌, ==→eq, if◌then◌else◌, get_elem?, set, Bool-cases, Option-cases, arith,
}
use vertex_os.Base.Search.{position-cases}
use vertex_os.Arena.{
  ArenaError, full, invalid_handle, slot_empty, ArenaHandle, ArenaSlot, TypedArena, is_vacant,
  alloc, vacated, free,
}

module _ {T : Type 0} where
  abbrev occupied : ArenaSlot T → ℕ
  occupied slot = if is_vacant slot then 0 else 1

  abbrev pub occupied_count : List (ArenaSlot T) → ℕ
  occupied_count [] = 0
  occupied_count (slot ∷ slots) = occupied slot + occupied_count slots

  -- The count of live slots is right.
  abbrev pub IsArena : TypedArena T → Type 0
  IsArena a = a.live ≡ occupied_count a.slots

  occupied_count-set :
      (slots : List (ArenaSlot T)) (i : ℕ) (slot v : ArenaSlot T)
      → get_elem? slots i ≡ some slot
      → occupied_count (set slots i v) + occupied slot ≡ occupied_count slots + occupied v
  occupied_count-set [] i slot v h = cc
  occupied_count-set (x ∷ slots) zero slot v h =
      let same : occupied x ≡ occupied slot = ap occupied (entry h) in omega (arith, same)
    where
      entry : {a b : ArenaSlot T} → some a ≡ some b → a ≡ b
      entry e = cc
  occupied_count-set (x ∷ slots) (suc i) slot v h =
      omega (arith, occupied_count-set slots i slot v h)

  -- What `alloc` returns.
  pub record Allocated (value : T) (a : TypedArena T) (handle : ArenaHandle) (b : TypedArena T)
      : Type 0 where
    pub slot : ArenaSlot T
    pub was : get_elem? a.slots handle.index ≡ some slot
    pub vacant : is_vacant slot ≡ true
    pub generation : handle.generation ≡ slot.generation
    pub now : b ≡ record {
      slots = set a.slots handle.index (record slot { value = some value });
      live = a.live + 1;
    }

  pub alloc-Allocated :
      (value : T) (a : TypedArena T) (handle : ArenaHandle) (b : TypedArena T)
      → alloc value a ≡ ok (handle, b)
      → Allocated value a handle b
  unfolding alloc
  alloc-Allocated value a handle b h = elim (position-cases is_vacant a.slots) [
    | inl (e, _) ↦ absurd (not_ok (sym (rw (e, alloc) refl) ∙ h))
    | inr (i, e, f) ↦ go i f.item f.here f.passes (sym (rw (e, f.here, alloc) refl) ∙ h)
  ]
    where
      not_ok :
          ◌≡◌ {A = Result ArenaError (ArenaHandle × TypedArena T)} (err full) (ok (handle, b)) → ⊥
      not_ok e = cc

      go :
          (i : ℕ) (slot : ArenaSlot T)
          → get_elem? a.slots i ≡ some slot
          → is_vacant slot ≡ true
          → ◌≡◌ {A = Result ArenaError (ArenaHandle × TypedArena T)}
              (ok (
                record { index = i; generation = slot.generation },
                record {
                  slots = set a.slots i (record slot { value = some value });
                  live = a.live + 1;
                },
              ))
              (ok (handle, b))
          → Allocated value a handle b
      go i slot was vacant e =
          let same_handle : record { index = i; generation = slot.generation } ≡ handle = cc in
          let same_state : record {
            slots = set a.slots i (record slot { value = some value });
            live = a.live + 1;
          }
              ≡ b =
            cc in
          let index : i ≡ handle.index = ap (λ (x : ArenaHandle). x.index) same_handle in
          record {
            slot = slot;
            was = ap (get_elem? a.slots) (sym index) ∙ was;
            vacant = vacant;
            generation = sym (ap (λ (x : ArenaHandle). x.generation) same_handle);
            now =
                sym same_state
                ∙ ap
                    (λ (n : ℕ). record {
                      slots = set a.slots n (record slot { value = some value });
                      live = a.live + 1;
                    })
                    index;
          }

  -- What `free` returns.
  pub record Freed (a : TypedArena T) (handle : ArenaHandle) (b : TypedArena T) : Type 0 where
    pub slot : ArenaSlot T
    pub was : get_elem? a.slots handle.index ≡ some slot
    pub held : is_vacant slot ≡ false
    pub generation : slot.generation ≡ handle.generation
    pub now : b ≡ record { slots = set a.slots handle.index (vacated slot); live = a.live - 1 }

  pub free-Freed :
      (handle : ArenaHandle) (a b : TypedArena T) → free handle a ≡ ok b → Freed a handle b
  unfolding free
  free-Freed handle a b h = elim (Option-cases (get_elem? a.slots handle.index)) [
    | inl e ↦ absurd (not_ok invalid_handle (sym (rw (e, free) refl) ∙ h))
    | inr (slot, e) ↦ elim (Bool-cases (slot.generation == handle.generation)) [
      | inr f ↦ absurd (not_ok invalid_handle (sym (rw (e, f, free) refl) ∙ h))
      | inl f ↦ elim (Bool-cases (is_vacant slot)) [
        | inl g ↦ absurd (not_ok slot_empty (sym (rw (e, f, g, free) refl) ∙ h))
        | inr g ↦ record {
          slot = slot;
          was = e;
          held = g;
          generation = ==→eq slot.generation handle.generation f;
          now =
              same (record { slots = set a.slots handle.index (vacated slot); live = a.live - 1 })
                (sym (rw (e, f, g, free) refl) ∙ h);
        }
      ]
    ]
  ]
    where
      not_ok : (e : ArenaError) → ◌≡◌ {A = Result ArenaError (TypedArena T)} (err e) (ok b) → ⊥
      not_ok e h = cc

      same : (c : TypedArena T) → ◌≡◌ {A = Result ArenaError (TypedArena T)} (ok c) (ok b) → b ≡ c
      same c e = cc

  pub alloc-IsArena :
      (value : T) (a : TypedArena T) (handle : ArenaHandle) (b : TypedArena T)
      → alloc value a ≡ ok (handle, b)
      → IsArena a
      → IsArena b
  alloc-IsArena value a handle b h v =
      let r = alloc-Allocated value a handle b h in
      let filled : ArenaSlot T = record r.slot { value = some value } in
      let before : occupied r.slot ≡ 0 = rw r.vacant refl in
      subst (λ (c : TypedArena T). IsArena c) (sym r.now)
        (omega (arith, v, before, occupied_count-set a.slots handle.index r.slot filled r.was))

  pub free-IsArena :
      (handle : ArenaHandle) (a b : TypedArena T) → free handle a ≡ ok b → IsArena a → IsArena b
  unfolding vacated
  free-IsArena handle a b h v =
      let r = free-Freed handle a b h in
      let before : occupied r.slot ≡ 1 = rw r.held refl in
      subst (λ (c : TypedArena T). IsArena c) (sym r.now)
        (omega
          (arith, v, before, occupied_count-set a.slots handle.index r.slot (vacated r.slot) r.was))
