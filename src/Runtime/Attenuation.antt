-- ===== src/Runtime/Attenuation.antt =====
-- A copied capability grants no right that its source does not: cap_copy and cap_derive of
-- kernel/krust/src/ipc/capability_syscalls.rs.
use vertex_os.Base.{
  ℕ, ◌-◌, ◌≤◌, ◌≡◌, ◌∙◌, refl, sym, subst, inl, inr, true, false, ◌||◌, some, Result, ok, err, ◌==◌,
  ==→eq, ltb, ltb→lt, bit_and, Bool-cases, Option-cases, length, set, get_elem?-set_self, is_some,
  arith,
}
use vertex_os.Base.Bits.{ones, mask_subset}
use vertex_os.Ids.{
  IpcError, ProcessId, InitError, capability_table_full, invalid_boot_manifest, bad_capability,
  u64_max,
}
use vertex_os.Capability.{Capability, CapabilitySpace, lookup, grant, can_grant}
use vertex_os.Process.{Process, current_process, write_process}
use vertex_os.Runtime.{RuntimeState, Outcome, done, fails, record_cap_lineage, new_capability}
use vertex_os.Runtime.Syscalls.{
  current_cap, lookup_capability, grant_current, exceeds, copy_of, with_cap, cap_copy, cap_derive,
}
use vertex_os.Runtime.Written.{current_process-write_process}

-- The capability that a copy of `source` puts into a slot.
pub record Attenuated (source : Capability) (target_slot rights_mask : ℕ) (s s' : RuntimeState)
    : Type 0 where
  pub child : Capability
  pub placed : current_cap target_slot s' ≡ some child
  pub new_id : child.id ≡ s.next_cap_id
  pub same_object : child.object ≡ source.object
  pub parent : child.parent_cap_id ≡ source.id
  pub mask : child.rights ≡ rights_mask
  pub within :
      (right : ℕ)
      → right ≤ ones 64
      → bit_and child.rights right ≡ right
      → bit_and source.rights right ≡ right

pub lookup-grant :
    (slot : ℕ) (cap : Capability) (space space' : CapabilitySpace)
    → grant slot cap space ≡ ok space'
    → lookup slot space' ≡ some cap
unfolding grant lookup
lookup-grant slot cap space space' h = elim (Bool-cases (ltb slot (length space.caps))) [
  | inr far ↦ absurd (not_ok capability_table_full (sym (rw (far, grant) refl) ∙ h))
  | inl near ↦ elim (Bool-cases (is_some (lookup slot space))) [
    | inl taken ↦ absurd (not_ok invalid_boot_manifest (sym (rw (near, taken, grant) refl) ∙ h))
    | inr free ↦ found near (sym (rw (near, free, grant) refl) ∙ h)
  ]
]
  where
    not_ok : (e : InitError) → ◌≡◌ {A = Result InitError CapabilitySpace} (err e) (ok space') → ⊥
    not_ok e f = cc

    same_space :
        {t : CapabilitySpace}
        → ◌≡◌ {A = Result InitError CapabilitySpace} (ok t) (ok space')
        → t ≡ space'
    same_space e = cc

    found :
        ltb slot (length space.caps) ≡ true
        → ◌≡◌ {A = Result InitError CapabilitySpace}
            (ok (record { caps = set space.caps slot (some cap) }))
            (ok space')
        → lookup slot space' ≡ some cap
    found near e =
        subst (λ (t : CapabilitySpace). lookup slot t ≡ some cap) (same_space e)
          (rw
            (
              get_elem?-set_self space.caps slot (some cap) (ltb→lt slot (length space.caps) near),
              lookup,
            )
            refl)

-- What a successful grant leaves in the slot of the current process.
grant_current-placed :
    (slot : ℕ) (cap : Capability) (s s' : RuntimeState)
    → grant_current slot cap s ≡ done tt s'
    → current_cap slot s' ≡ some cap
unfolding grant_current current_cap
grant_current-placed slot cap s s' h = elim (Option-cases (current_process s.processes)) [
  | inl nobody ↦ absurd (not_done {t = s} (sym (rw (nobody, grant_current) refl) ∙ h))
  | inr (p, at) ↦ go p at (grant slot cap p.caps) refl (sym (rw (at, grant_current) refl) ∙ h)
]
  where
    not_done :
        {t : RuntimeState} → ◌≡◌ {A = Outcome (Unit {0})} (fails bad_capability t) (done tt s') → ⊥
    not_done e = cc

    same_state : {t : RuntimeState} → ◌≡◌ {A = Outcome (Unit {0})} (done tt t) (done tt s') → t ≡ s'
    same_state e = cc

    go :
        (p : Process)
        → current_process s.processes ≡ some p
        → (g : Result InitError CapabilitySpace) → grant slot cap p.caps ≡ g
        → (elim g [
          | err _ ↦ fails bad_capability s
          | ok caps ↦
              done tt (record s {
                processes = write_process p.pid (record p { caps = caps }) s.processes;
              })
        ])
          ≡ done tt s'
        → current_cap slot s' ≡ some cap
    go p at (err e) granted f = absurd (not_done f)
    go p at (ok caps) granted f =
        subst (λ (t : RuntimeState). current_cap slot t ≡ some cap) (same_state f)
          (rw
            (
              current_process-write_process s.processes p (record p { caps = caps }) refl at,
              current_cap,
            )
            (lookup-grant slot cap p.caps caps granted))

-- What `new_capability` returns.
pub data NewCase (object rights owner parent delegated_by : ℕ) (s : RuntimeState)
    : Outcome Capability → Type 0 where
  made :
      (cap : Capability) (next : RuntimeState)
      → cap.id ≡ s.next_cap_id
      → cap.object ≡ object
      → cap.rights ≡ rights
      → cap.parent_cap_id ≡ parent
      → NewCase object rights owner parent delegated_by s (done cap next)
  unmade :
      (e : IpcError) (next : RuntimeState)
      → NewCase object rights owner parent delegated_by s (fails e next)

pub new_capability-NewCase :
    (object rights owner parent delegated_by : ℕ) (s : RuntimeState)
    → NewCase object rights owner parent delegated_by s
        (new_capability object rights owner parent delegated_by s)
unfolding new_capability record_cap_lineage
new_capability-NewCase object rights owner parent delegated_by s =
    elim (Bool-cases (s.next_cap_id == 0 || s.next_cap_id == u64_max)) [
      | inl e ↦ rw (e, new_capability) (unmade _ _)
      | inr e ↦ elim (Bool-cases (s.cap_lineage_count == length s.cap_lineage)) [
        | inl f ↦ rw (e, f, new_capability, record_cap_lineage) (unmade _ _)
        | inr f ↦ rw (e, f, new_capability, record_cap_lineage) (made _ _ refl refl refl refl)
      ]
    ]

pub within_mask :
    (rights_mask rights : ℕ)
    → rights_mask ≤ ones 64
    → rights ≤ ones 64
    → exceeds rights_mask rights ≡ false
    → (right : ℕ) → right ≤ ones 64
    → bit_and rights_mask right ≡ right
    → bit_and rights right ≡ right
within_mask rights_mask rights hm hr e right h has =
    mask_subset 64 rights_mask rights right hm hr h
      (==→eq (bit_and rights_mask (ones 64 - rights)) 0 (ground (arith, e))) has

copy_of-Attenuated :
    (source : Capability) (target_slot rights_mask : ℕ) (s s' : RuntimeState)
    → source.rights ≤ ones 64
    → rights_mask ≤ ones 64
    → copy_of source target_slot rights_mask s ≡ done tt s'
    → Attenuated source target_slot rights_mask s s'
unfolding copy_of
copy_of-Attenuated source target_slot rights_mask s s' hr hm h =
    elim (Bool-cases (exceeds rights_mask source.rights)) [
      | inl over ↦ absurd (not_done bad_capability s (sym (rw (over, copy_of) refl) ∙ h))
      | inr inside ↦ elim (Option-cases (current_process s.processes)) [
        | inl nobody ↦
            absurd (not_done bad_capability s (sym (rw (inside, nobody, copy_of) refl) ∙ h))
        | inr (p, at) ↦ elim (Bool-cases (can_grant target_slot p.caps)) [
          | inr closed ↦
              absurd (not_done bad_capability s (sym (rw (inside, at, closed, copy_of) refl) ∙ h))
          | inl open_slot ↦
              go inside _ (new_capability-NewCase source.object rights_mask p.pid source.id p.pid s)
                (sym (rw (inside, at, open_slot, copy_of) refl) ∙ h)
        ]
      ]
    ]
  where
    not_done :
        (e : IpcError) (t : RuntimeState)
        → ◌≡◌ {A = Outcome (Unit {0})} (fails e t) (done tt s')
        → ⊥
    not_done e t f = cc

    go :
        {pid : ProcessId}
        → exceeds rights_mask source.rights ≡ false
        → (o : Outcome Capability) → NewCase source.object rights_mask pid source.id pid s o
        → (elim o [
          | fails e next ↦ fails e next
          | done copied next ↦ grant_current target_slot copied next
        ])
          ≡ done tt s'
        → Attenuated source target_slot rights_mask s s'
    go inside o (unmade e next) f = absurd (not_done e next f)
    go inside o (made copied next a b c d) f = record {
      child = copied;
      placed = grant_current-placed target_slot copied next s' f;
      new_id = a;
      same_object = b;
      parent = d;
      mask = c;
      within = λ right small has.
          within_mask rights_mask source.rights hm hr inside right small
            (subst (λ (r : ℕ). bit_and r right ≡ right) c has);
    }

-- Where the lookup of the source slot gives `source`, rights and mask are words of 64 bits, and
-- `cap_copy` returns without an error: the target slot of the current process holds a capability with
-- the next identifier, the object of `source`, `source` as its parent and the mask as its rights, and
-- `source` has every right that it has.
pub cap_copy-Attenuated :
    (source_slot target_slot rights_mask : ℕ) (s s' : RuntimeState) (source : Capability)
    → lookup_capability source_slot 0 s ≡ some (ok source)
    → source.rights ≤ ones 64
    → rights_mask ≤ ones 64
    → cap_copy source_slot target_slot rights_mask s ≡ some (done tt s')
    → Attenuated source target_slot rights_mask s s'
unfolding cap_copy with_cap
cap_copy-Attenuated source_slot target_slot rights_mask s s' source found hr hm h =
    copy_of-Attenuated source target_slot rights_mask s s' hr hm
      (same (sym (rw (found, cap_copy) refl) ∙ h))
  where
    same : {a b : Outcome (Unit {0})} → some a ≡ some b → a ≡ b
    same e = cc

-- Where the lookup of the parent slot gives `source`, rights and mask are words of 64 bits, and
-- `cap_derive` returns without an error: the new slot of the current process holds a capability with
-- the next identifier, the object of `source`, `source` as its parent and the mask as its rights, and
-- `source` has every right that it has.
pub cap_derive-Attenuated :
    (parent_slot new_slot rights_mask : ℕ) (s s' : RuntimeState) (source : Capability)
    → lookup_capability parent_slot 0 s ≡ some (ok source)
    → source.rights ≤ ones 64
    → rights_mask ≤ ones 64
    → cap_derive parent_slot new_slot rights_mask s ≡ some (done tt s')
    → Attenuated source new_slot rights_mask s s'
unfolding cap_derive with_cap
cap_derive-Attenuated parent_slot new_slot rights_mask s s' source found hr hm h =
    copy_of-Attenuated source new_slot rights_mask s s' hr hm
      (same (sym (rw (found, cap_derive) refl) ∙ h))
  where
    same : {a b : Outcome (Unit {0})} → some a ≡ some b → a ≡ b
    same e = cc
