-- ===== src/Runtime/Moved.antt =====
-- A capability that is moved leaves its slot: cap_move of
-- kernel/krust/src/ipc/capability_syscalls.rs.
use vertex_os.Base.{
  ℕ, ◌<◌, ◌≡◌, ◌≢◌, ◌∙◌, refl, sym, ap, subst, inl, inr, true, Option, none, some, Result, ok, err,
  ltb, length, get_elem?, get_elem?-lt, get_elem?-set_self, get_elem?-set_ne, set, is_some,
  Bool-cases, Option-cases, arith,
}
use vertex_os.Ids.{
  IpcError, InitError, bad_capability, capability_table_full, invalid_boot_manifest,
}
use vertex_os.Capability.{Capability, CapabilitySpace, lookup, grant, clear, can_grant}
use vertex_os.Process.{Process, current_process, write_process}
use vertex_os.Runtime.{RuntimeState, Outcome, done, fails}
use vertex_os.Runtime.Syscalls.{current_cap, cap_move}
use vertex_os.Runtime.Written.{current_process-write_process}
use vertex_os.Runtime.Attenuation.{lookup-grant}

get_elem?-of_lookup :
    (slot : ℕ) (space : CapabilitySpace) (held : Capability)
    → lookup slot space ≡ some held
    → get_elem? space.caps slot ≡ some (some held)
unfolding lookup
get_elem?-of_lookup slot space held h = elim (Option-cases (get_elem? space.caps slot)) [
  | inl e ↦ absurd (none_some (sym (rw (e, lookup) refl) ∙ h))
  | inr (entry, e) ↦ e ∙ ap (λ (x : Option Capability). some x) (sym (rw (e, lookup) refl) ∙ h)
]
  where
    none_some : none ≡ some held → ⊥
    none_some e = cc

lookup-cleared :
    (slot : ℕ) (space : CapabilitySpace) (held : Capability)
    → lookup slot space ≡ some held
    → lookup slot (record { caps = set space.caps slot none }) ≡ none
unfolding lookup
lookup-cleared slot space held h =
    let inside : slot < length space.caps =
      get_elem?-lt space.caps slot (some held) (get_elem?-of_lookup slot space held h) in
    rw (get_elem?-set_self space.caps slot none inside, lookup) refl

-- A grant to one slot leaves the others.
lookup-grant_ne :
    (slot other : ℕ) (held : Capability) (space space' : CapabilitySpace)
    → slot ≢ other
    → grant slot held space ≡ ok space'
    → lookup other space' ≡ lookup other space
unfolding grant lookup
lookup-grant_ne slot other held space space' differs h =
    elim (Bool-cases (ltb slot (length space.caps))) [
      | inr far ↦ absurd (not_ok capability_table_full (sym (rw (far, grant) refl) ∙ h))
      | inl near ↦ elim (Bool-cases (is_some (lookup slot space))) [
        | inl taken ↦ absurd (not_ok invalid_boot_manifest (sym (rw (near, taken, grant) refl) ∙ h))
        | inr free ↦ found (sym (rw (near, free, grant) refl) ∙ h)
      ]
    ]
  where
    not_ok : (e : InitError) → ◌≡◌ {A = Result InitError CapabilitySpace} (err e) (ok space') → ⊥
    not_ok e f = cc

    same_space :
        {t : CapabilitySpace}
        → ◌≡◌ {A = Result InitError CapabilitySpace} (ok t) (ok space')
        → t ≡ space'
    same_space e = cc

    found :
        ◌≡◌ {A = Result InitError CapabilitySpace}
          (ok (record { caps = set space.caps slot (some held) }))
          (ok space')
        → lookup other space' ≡ lookup other space
    found e =
        subst (λ (t : CapabilitySpace). lookup other t ≡ lookup other space) (same_space e)
          (rw (get_elem?-set_ne space.caps slot other (some held) differs, lookup) refl)

-- What a move leaves in the two slots.
pub record Moved (source_slot target_slot : ℕ) (s s' : RuntimeState) : Type 0 where
  pub held : Capability
  pub was_there : current_cap source_slot s ≡ some held
  pub is_there : current_cap target_slot s' ≡ some held
  pub left : current_cap source_slot s' ≡ none

-- Once the checks have passed.
cap_move-granted :
    (source_slot target_slot : ℕ) (s s' : RuntimeState) (p : Process) (held : Capability)
    (granted : CapabilitySpace)
    → current_process s.processes ≡ some p
    → lookup target_slot p.caps ≡ none
    → lookup source_slot p.caps ≡ some held
    → grant target_slot held (record { caps = set p.caps.caps source_slot none }) ≡ ok granted
    → record s { processes = write_process p.pid (record p { caps = granted }) s.processes } ≡ s'
    → Moved source_slot target_slot s s'
unfolding current_cap
cap_move-granted source_slot target_slot s s' p held granted at empty full g e =
    let cleared : CapabilitySpace = record { caps = set p.caps.caps source_slot none } in
    let now : current_process (write_process p.pid (record p { caps = granted }) s.processes)
        ≡ some (record p { caps = granted }) =
      current_process-write_process s.processes p (record p { caps = granted }) refl at in
    record {
      held = held;
      was_there = rw (at, current_cap) full;
      is_there =
          subst (λ (t : RuntimeState). current_cap target_slot t ≡ some held) e
            (rw (now, current_cap) (lookup-grant target_slot held cleared granted g));
      left =
          subst (λ (t : RuntimeState). current_cap source_slot t ≡ none) e
            (rw (now, current_cap)
              (lookup-grant_ne target_slot source_slot held cleared granted differs g
                ∙ lookup-cleared source_slot p.caps held full));
    }
  where
    none_some : none ≡ some held → ⊥
    none_some f = cc

    differs : target_slot ≢ source_slot
    differs f = none_some (sym empty ∙ (ap (λ (n : ℕ). lookup n p.caps) f ∙ full))

-- Where `cap_move` returns without an error, the source slot of the current process held a capability,
-- the target slot holds it afterwards, and the source slot is empty.
pub cap_move-Moved :
    (source_slot target_slot : ℕ) (s s' : RuntimeState)
    → cap_move source_slot target_slot s ≡ done tt s'
    → Moved source_slot target_slot s s'
unfolding cap_move can_grant clear
cap_move-Moved source_slot target_slot s s' h = elim (Option-cases (current_process s.processes)) [
  | inl nobody ↦ absurd (not_done bad_capability s (sym (rw (nobody, cap_move) refl) ∙ h))
  | inr (p, at) ↦ elim (Bool-cases (can_grant target_slot p.caps)) [
    | inr closed ↦ absurd (not_done bad_capability s (sym (rw (at, closed, cap_move) refl) ∙ h))
    | inl open_slot ↦ elim (Option-cases (lookup source_slot p.caps)) [
      | inl nothing_held ↦ absurd (
          not_done bad_capability s
            (sym (rw (at, open_slot, nothing_held, cap_move, clear) refl) ∙ h))
      | inr (held, full) ↦
          go p held at (open_none p open_slot) full
            (grant target_slot held (record { caps = set p.caps.caps source_slot none })) refl
            (sym (rw (at, open_slot, full, cap_move, clear) refl) ∙ h)
    ]
  ]
]
  where
    not_done :
        (e : IpcError) (t : RuntimeState)
        → ◌≡◌ {A = Outcome (Unit {0})} (fails e t) (done tt s')
        → ⊥
    not_done e t f = cc

    same_state : {t : RuntimeState} → ◌≡◌ {A = Outcome (Unit {0})} (done tt t) (done tt s') → t ≡ s'
    same_state e = cc

    open_none :
        (p : Process) → can_grant target_slot p.caps ≡ true → lookup target_slot p.caps ≡ none
    open_none p open_slot = elim (Option-cases (lookup target_slot p.caps)) [
      | inl e ↦ e
      | inr (x, e) ↦ absurd (ground (arith, open_slot, e))
    ]

    go :
        (p : Process) (held : Capability)
        → current_process s.processes ≡ some p
        → lookup target_slot p.caps ≡ none
        → lookup source_slot p.caps ≡ some held
        → (g : Result InitError CapabilitySpace)
        → grant target_slot held (record { caps = set p.caps.caps source_slot none }) ≡ g
        → (elim g [
          | err _ ↦ fails bad_capability (record s {
            processes =
                write_process p.pid
                  (record p { caps = record { caps = set p.caps.caps source_slot none } })
                  s.processes;
          })
          | ok granted ↦ done tt (record s {
            processes = write_process p.pid (record p { caps = granted }) s.processes;
          })
        ])
          ≡ done tt s'
        → Moved source_slot target_slot s s'
    go p held at empty full (err e) eq f = absurd (not_done bad_capability _ f)
    go p held at empty full (ok granted) eq f =
        cap_move-granted source_slot target_slot s s' p held granted at empty full eq (same_state f)
