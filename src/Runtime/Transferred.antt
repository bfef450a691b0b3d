-- ===== src/Runtime/Transferred.antt =====
-- What a transfer leaves with its target: cap_transfer of kernel/krust/src/ipc/capability_syscalls.rs.
use vertex_os.Base.{
  ℕ, ◌≡◌, ◌≤◌, ◌∙◌, refl, sym, subst, inl, inr, Bool, true, false, Option, none, some, Result, ok,
  err, bit_and, Bool-cases, Option-cases,
}
use vertex_os.Base.Bits.{ones}
use vertex_os.Ids.{ProcessId, InitError, IpcError, bad_capability}
use vertex_os.Object.{ProcessControlObject}
use vertex_os.Capability.{Capability, CapabilitySpace, lookup, grant}
use vertex_os.Process.{Process, is_declared, process, current_process, write_process}
use vertex_os.Runtime.{RuntimeState, Outcome, done, fails}
use vertex_os.Runtime.Syscalls.{lookup_capability, exceeds, with_cap}
use vertex_os.Runtime.Transfer.{
  right_delegate, process_control_from_cap, cannot_take, place_transferred, transfer_of,
  packed_cap_slot, packed_target_slot, packed_rights, cap_transfer,
}
use vertex_os.Runtime.Attenuation.{
  NewCase, made, unmade, new_capability-NewCase, within_mask, lookup-grant,
}
use vertex_os.Runtime.Written.{process-write}

-- The capability that a transfer gives to the target.
pub record Transferred (source : Capability) (target_pid : ProcessId) (target_slot rights_mask : ℕ)
    (s s' : RuntimeState) : Type 0 where
  pub target : Process
  pub child : Capability
  pub there : process target_pid s'.processes ≡ some target
  pub placed : lookup target_slot target.caps ≡ some child
  pub new_id : child.id ≡ s.next_cap_id
  pub same_object : child.object ≡ source.object
  pub parent : child.parent_cap_id ≡ source.id
  pub mask : child.rights ≡ rights_mask
  pub within :
      (right : ℕ)
      → right ≤ ones 64
      → bit_and child.rights right ≡ right
      → bit_and source.rights right ≡ right

-- The slot of the target after the write.
record Placed (target_slot : ℕ) (target_pid : ProcessId) (child : Capability) (s' : RuntimeState)
    : Type 0 where
  target : Process
  there : process target_pid s'.processes ≡ some target
  placed : lookup target_slot target.caps ≡ some child

place_transferred-Placed :
    (target_slot : ℕ) (target_pid : ProcessId) (persist : Bool) (child : Capability)
    (s s' : RuntimeState)
    → place_transferred target_slot target_pid persist child s ≡ done tt s'
    → Placed target_slot target_pid child s'
unfolding place_transferred
place_transferred-Placed target_slot target_pid persist child s s' h =
    elim (Option-cases (process target_pid s.processes)) [
      | inl e ↦ absurd (not_done (sym (rw (e, place_transferred) refl) ∙ h))
      | inr (p, at) ↦ granted_case p at (grant target_slot child p.caps) refl
    ]
  where
    not_done : ◌≡◌ {A = Outcome (Unit {0})} (fails bad_capability s) (done tt s') → ⊥
    not_done e = cc

    written :
        (p q : Process)
        → process target_pid s.processes ≡ some p
        → q.pid ≡ p.pid
        → lookup target_slot q.caps ≡ some child
        → ◌≡◌ {A = Outcome (Unit {0})}
            (done tt (record s { processes = write_process p.pid q s.processes }))
            (done tt s')
        → Placed target_slot target_pid child s'
    written p q at same slot e =
        let state : record s { processes = write_process p.pid q s.processes } ≡ s' = cc in
        record {
          target = q;
          there =
              subst (λ (t : RuntimeState). process target_pid t.processes ≡ some q) state
                (process-write target_pid s.processes p q same at);
          placed = slot;
        }

    granted_case :
        (p : Process)
        → process target_pid s.processes ≡ some p
        → (g : Result InitError CapabilitySpace) → grant target_slot child p.caps ≡ g
        → Placed target_slot target_pid child s'
    granted_case p at (err _) e = absurd (not_done (sym (rw (at, e, place_transferred) refl) ∙ h))
    granted_case p at (ok caps) e = elim (Bool-cases persist) [
      | inr f ↦
          written p (record p { caps = caps }) at refl
            (lookup-grant target_slot child p.caps caps e)
            (sym (rw (at, e, f, place_transferred) refl) ∙ h)
      | inl f ↦ initial_case p at caps e f (grant target_slot child p.initial_caps) refl
    ]
      where
        initial_case :
            (p : Process)
            → process target_pid s.processes ≡ some p
            → (caps : CapabilitySpace) → grant target_slot child p.caps ≡ ok caps
            → persist ≡ true
            → (g : Result InitError CapabilitySpace) → grant target_slot child p.initial_caps ≡ g
            → Placed target_slot target_pid child s'
        initial_case p at caps e f (err _) k =
            absurd (not_done (sym (rw (at, e, f, k, place_transferred) refl) ∙ h))
        initial_case p at caps e f (ok initial) k =
            written p (record p { caps = caps; initial_caps = initial }) at refl
              (lookup-grant target_slot child p.caps caps e)
              (sym (rw (at, e, f, k, place_transferred) refl) ∙ h)

transfer_of-Transferred :
    (source : Capability) (target_pid : ProcessId) (target_slot rights_mask : ℕ)
    (s s' : RuntimeState)
    → source.rights ≤ ones 64
    → rights_mask ≤ ones 64
    → transfer_of source target_pid target_slot rights_mask s ≡ done tt s'
    → Transferred source target_pid target_slot rights_mask s s'
unfolding transfer_of
transfer_of-Transferred source target_pid target_slot rights_mask s s' hr hm h =
    elim (Bool-cases (exceeds rights_mask source.rights)) [
      | inl over ↦ absurd (not_done bad_capability s (sym (rw (over, transfer_of) refl) ∙ h))
      | inr inside ↦ elim (Option-cases (current_process s.processes)) [
        | inl e ↦ absurd (not_done bad_capability s (sym (rw (inside, e, transfer_of) refl) ∙ h))
        | inr (caller, e) ↦ elim (Option-cases (process target_pid s.processes)) [
          | inl f ↦
              absurd (not_done bad_capability s (sym (rw (inside, e, f, transfer_of) refl) ∙ h))
          | inr (target, f) ↦ elim (Bool-cases (cannot_take target_slot target)) [
            | inl g ↦
                absurd
                  (not_done bad_capability s (sym (rw (inside, e, f, g, transfer_of) refl) ∙ h))
            | inr g ↦
                go (is_declared target.state) inside _
                  (new_capability-NewCase source.object rights_mask target_pid source.id caller.pid
                    s)
                  (sym (rw (inside, e, f, g, transfer_of) refl) ∙ h)
          ]
        ]
      ]
    ]
  where
    not_done :
        (e : IpcError) (t : RuntimeState)
        → ◌≡◌ {A = Outcome (Unit {0})} (fails e t) (done tt s')
        → ⊥
    not_done e t f = cc

    go :
        {pid : ProcessId} (persist : Bool)
        → exceeds rights_mask source.rights ≡ false
        → (o : Outcome Capability) → NewCase source.object rights_mask target_pid source.id pid s o
        → (elim o [
          | fails e next ↦ fails e next
          | done transferred next ↦
              place_transferred target_slot target_pid persist transferred next
        ])
          ≡ done tt s'
        → Transferred source target_pid target_slot rights_mask s s'
    go persist inside o (unmade e next) f = absurd (not_done e next f)
    go persist inside o (made child next a b c d) f =
        let w = place_transferred-Placed target_slot target_pid persist child next s' f in
        record {
          target = w.target;
          child = child;
          there = w.there;
          placed = w.placed;
          new_id = a;
          same_object = b;
          parent = d;
          mask = c;
          within = λ right small has.
              within_mask rights_mask source.rights hm hr inside right small
                (subst (λ (r : ℕ). bit_and r right ≡ right) c has);
        }

-- Where the lookup of the source slot gives a capability, its rights and those of the packed
-- transfer are words of 64 bits, and the transfer returns without an error: the caller holds a
-- process control with the right to delegate, and the target process holds, in the target slot,
-- a capability with the next identifier, the object of the source, the source as its parent and
-- the rights asked for, each of which the source has.
pub cap_transfer-Transferred :
    (control_slot : ℕ) (target_pid : ProcessId) (packed : ℕ) (s s' : RuntimeState)
    (source : Capability)
    → lookup_capability (packed_cap_slot packed) 0 s ≡ some (ok source)
    → source.rights ≤ ones 64
    → packed_rights packed ≤ ones 64
    → cap_transfer control_slot target_pid packed s ≡ some (done tt s')
    → ((control : ProcessControlObject) × (process_control_from_cap control_slot right_delegate s
          ≡ some (ok control)))
      × Transferred source target_pid (packed_target_slot packed) (packed_rights packed) s s'
unfolding cap_transfer with_cap
cap_transfer-Transferred control_slot target_pid packed s s' source found hr hm h =
    go (process_control_from_cap control_slot right_delegate s) refl
  where
    not_done :
        {o : Option (Outcome (Unit {0}))}
        → o ≡ some (done tt s')
        → (e : IpcError) → o ≡ some (fails e s)
        → ⊥
    not_done e f g = cc

    none_some : ◌≡◌ {A = Option (Outcome (Unit {0}))} none (some (done tt s')) → ⊥
    none_some e = cc

    same : {a b : Outcome (Unit {0})} → some a ≡ some b → a ≡ b
    same e = cc

    go :
        (r : Option (Result IpcError ProcessControlObject))
        → process_control_from_cap control_slot right_delegate s ≡ r
        → ((control : ProcessControlObject) × (process_control_from_cap control_slot right_delegate
                s
              ≡ some (ok control)))
          × Transferred source target_pid (packed_target_slot packed) (packed_rights packed) s s'
    go none e = absurd (none_some (sym (rw (e, cap_transfer) refl) ∙ h))
    go (some (err k)) e = absurd (not_done h k (rw (e, cap_transfer) refl))
    go (some (ok control)) e = (
      (control, e),
      transfer_of-Transferred source target_pid (packed_target_slot packed) (packed_rights packed) s
          s' hr hm (same (sym (rw (e, found, cap_transfer) refl) ∙ h)),
    )
