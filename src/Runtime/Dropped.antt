-- ===== src/Runtime/Dropped.antt =====
-- What a drop of a capability leaves: cap_drop of kernel/krust/src/ipc/capability_syscalls.rs.
use vertex_os.Base.{
  ℕ, zero, suc, ◌≡◌, ◌∙◌, refl, sym, ap, subst, inl, inr, Bool, true, false, Option, none, some,
  List, [], ◌∷◌, ok, All, get_elem?, get_elem?-lt, get_elem?-set_self, set, Bool-cases,
  Option-cases, arith,
}
use text.Mathlib.Text.{◌==◌ as ◌==ₛ◌}
use vertex_os.Base.Prefix.{All-take_get, All-take-set}
use vertex_os.Ids.{KernelObjectId, bad_capability}
use vertex_os.ObjectTable.Remove.{remove_derived_vfs_root}
use vertex_os.Capability.{Capability, CapabilitySpace, lookup, clear}
use vertex_os.Process.{Process, ProcessTable, live, current_process, write_process}
use vertex_os.Runtime.{RuntimeState, Outcome, done, fails}
use vertex_os.Runtime.Ancestors.{
  IsDescending, ProcessDescends, CapDescends, has_revoked_ancestor_returns,
}
use vertex_os.Runtime.Syscalls.{current_cap, capability_has_revoked_ancestor}
use vertex_os.Runtime.Release.{
  names_object, cap_space_reaches_live_object, own_caps_reach, process_reaches, any_process_reaches,
  object_reachable_by_cap, release_unreferenced_derived_vfs_root, cleared_current, cap_drop,
  is_exited, is_empty_state,
}
use vertex_os.Runtime.Written.{current_process-write_process}
use vertex_os.Scheduler.Pids.{current_process-Place}
use vertex_os.Scheduler.Preempted.{write_process-Place}

space_reaches_returns :
    (s : RuntimeState) (caps : List (Option Capability)) (object_id : KernelObjectId)
    → IsDescending s
    → (b : Bool) × (cap_space_reaches_live_object caps object_id s ≡ some b)
unfolding cap_space_reaches_live_object capability_has_revoked_ancestor
space_reaches_returns s [] object_id d = (false, refl)
space_reaches_returns s (none ∷ caps) object_id d = space_reaches_returns s caps object_id d
space_reaches_returns s (some c ∷ caps) object_id d =
    let (b, rest) = space_reaches_returns s caps object_id d in
    elim (Bool-cases (names_object object_id c s)) [
      | inr e ↦ (b, rw (e, cap_space_reaches_live_object) rest)
      | inl e ↦
          let (walked, w) =
            has_revoked_ancestor_returns (suc c.parent_cap_id) c.parent_cap_id s d (omega arith) in
          elim (Bool-cases walked) [
            | inl r ↦ (b, rw (e, w ∙ ap some r, cap_space_reaches_live_object) rest)
            | inr r ↦ elim (Bool-cases (c.generation_id ==ₛ s.generation_id)) [
              | inl f ↦ (true, rw (e, w ∙ ap some r, f, cap_space_reaches_live_object) refl)
              | inr f ↦ (b, rw (e, w ∙ ap some r, f, cap_space_reaches_live_object) rest)
            ]
          ]
    ]

own_caps_returns :
    (s : RuntimeState) (p : Process) (object_id : KernelObjectId)
    → IsDescending s
    → (b : Bool) × (own_caps_reach p object_id s ≡ some b)
unfolding own_caps_reach
own_caps_returns s p object_id d = elim (Bool-cases (is_exited p.state)) [
  | inl e ↦ (false, rw (e, own_caps_reach) refl)
  | inr e ↦
      let (b, h) = space_reaches_returns s p.caps.caps object_id d in (b, rw (e, own_caps_reach) h)
]

process_reaches_returns :
    (s : RuntimeState) (p : Process) (object_id : KernelObjectId)
    → IsDescending s
    → (b : Bool) × (process_reaches p object_id s ≡ some b)
unfolding process_reaches
process_reaches_returns s p object_id d =
    let (b, h) = own_caps_returns s p object_id d in
    let (c, k) = space_reaches_returns s p.initial_caps.caps object_id d in
    elim (Bool-cases (is_empty_state p.state)) [
      | inl e ↦ (false, rw (e, process_reaches) refl)
      | inr e ↦ elim (Bool-cases b) [
        | inl f ↦ (true, rw (e, h ∙ ap some f, process_reaches) refl)
        | inr f ↦ (c, rw (e, h ∙ ap some f, process_reaches) k)
      ]
    ]

any_process_returns :
    (s : RuntimeState) (slots : List (Option Process)) (object_id : KernelObjectId)
    → IsDescending s
    → (b : Bool) × (any_process_reaches slots object_id s ≡ some b)
unfolding any_process_reaches
any_process_returns s [] object_id d = (false, refl)
any_process_returns s (none ∷ slots) object_id d = any_process_returns s slots object_id d
any_process_returns s (some p ∷ slots) object_id d =
    let (b, h) = process_reaches_returns s p object_id d in
    let (c, rest) = any_process_returns s slots object_id d in
    elim (Bool-cases b) [
      | inl f ↦ (true, rw (h ∙ ap some f, any_process_reaches) refl)
      | inr f ↦ (c, rw (h ∙ ap some f, any_process_reaches) rest)
    ]

-- A derived root goes where no live capability reaches it.
pub data Releases (object : KernelObjectId) (s : RuntimeState) : RuntimeState → Type 0 where
  reached : object_reachable_by_cap object s ≡ some true → Releases object s s
  unreached :
      object_reachable_by_cap object s ≡ some false
      → Releases object s (record s { objects = (remove_derived_vfs_root object s.objects).1 })

release-Releases :
    (object : KernelObjectId) (s : RuntimeState)
    → IsDescending s
    → (t : RuntimeState) × ((release_unreferenced_derived_vfs_root object s ≡ some t)
        × Releases object s t)
unfolding release_unreferenced_derived_vfs_root object_reachable_by_cap
release-Releases object s d =
    let (b, h) = any_process_returns s (live s.processes) object d in
    elim (Bool-cases b) [
      | inl e ↦ (
        s,
        (rw (h ∙ ap some e, release_unreferenced_derived_vfs_root) refl, reached (h ∙ ap some e)),
      )
      | inr e ↦ (
        record s { objects = (remove_derived_vfs_root object s.objects).1 },
        (rw (h ∙ ap some e, release_unreferenced_derived_vfs_root) refl, unreached (h ∙ ap some e)),
      )
    ]

All-set-none :
    (caps : List (Option Capability)) (slot : ℕ)
    → All CapDescends caps
    → All CapDescends (set caps slot none)
All-set-none [] slot d = tt
All-set-none (c ∷ caps) zero (here, rest) = (tt, rest)
All-set-none (c ∷ caps) (suc slot) (here, rest) = (here, All-set-none caps slot rest)

lookup-get_elem? :
    (slot : ℕ) (space : CapabilitySpace) (c : Capability)
    → lookup slot space ≡ some c
    → get_elem? space.caps slot ≡ some (some c)
unfolding lookup
lookup-get_elem? slot space c h = elim (Option-cases (get_elem? space.caps slot)) [
  | inl e ↦ absurd (none_some (sym (rw (e, lookup) refl) ∙ h))
  | inr (entry, e) ↦ e ∙ ap some (sym (rw (e, lookup) refl) ∙ h)
]
  where
    none_some : none ≡ some c → ⊥
    none_some e = cc

lookup-set-none :
    (slot : ℕ) (space : CapabilitySpace) (c : Capability)
    → lookup slot space ≡ some c
    → lookup slot (record { caps = set space.caps slot none }) ≡ none
unfolding lookup
lookup-set-none slot space c h =
    rw
      (
        get_elem?-set_self space.caps slot none
            (get_elem?-lt space.caps slot (some c) (lookup-get_elem? slot space c h)),
        lookup,
      )
      refl

-- The state with the slot of the current process cleared.
record Vacated (p : Process) (slot : ℕ) (s : RuntimeState) (c : Capability) (next : RuntimeState)
    : Type 0 where
  result : cleared_current p slot s ≡ ok (c, next)
  gone : current_cap slot next ≡ none
  same_objects : next.objects ≡ s.objects
  descends : IsDescending next

cleared_current-Vacated :
    (s : RuntimeState) (p : Process) (slot : ℕ) (c : Capability)
    → IsDescending s
    → current_process s.processes ≡ some p
    → lookup slot p.caps ≡ some c
    → (next : RuntimeState) × Vacated p slot s c next
unfolding cleared_current clear current_cap
cleared_current-Vacated s p slot c d at held = (
  next,
  record {
    result = rw (held, cleared_current) refl;
    gone =
        rw (current_process-write_process s.processes p q refl at, current_cap)
          (lookup-set-none slot p.caps c held);
    same_objects = refl;
    descends = record { entries = d.entries; slots = slots_descend };
  },
)
  where
    q : Process
    q = record p { caps = record { caps = set p.caps.caps slot none } }

    next : RuntimeState
    next = record s { processes = write_process p.pid q s.processes }

    slots_descend : All ProcessDescends (live next.processes)
    slots_descend =
        let (pid, found) = current_process-Place s.processes p at in
        let (_, place) = found in
        let own =
          All-take_get ProcessDescends s.processes.processes s.processes.count place.index (some p)
            d.slots place.inside place.here in
        subst (λ (t : ProcessTable). All ProcessDescends (live t))
          (sym (write_process-Place s.processes pid p q place))
          (All-take-set ProcessDescends s.processes.processes s.processes.count place.index (some q)
            d.slots (All-set-none p.caps.caps slot own.0, own.1))

-- How a drop ends.
pub data DropCase (slot : ℕ) (s : RuntimeState) : Outcome (Unit {0}) → Type 0 where
  refused : current_cap slot s ≡ none → DropCase slot s (fails bad_capability s)
  dropped :
      (c : Capability) (next t : RuntimeState)
      → current_cap slot s ≡ some c
      → current_cap slot next ≡ none
      → next.objects ≡ s.objects
      → Releases c.object next t
      → DropCase slot s (done tt t)

-- Where every parent of a capability was made before its child, a drop returns: it is refused,
-- and changes nothing, where the current process has no capability in the slot; otherwise the
-- slot is empty afterwards, and the object of the capability is removed as a derived root
-- exactly where no live capability reaches it any more.
pub cap_drop-DropCase :
    (slot : ℕ) (s : RuntimeState)
    → IsDescending s
    → (o : Outcome (Unit {0})) × ((cap_drop slot s ≡ some o) × DropCase slot s o)
unfolding cap_drop cleared_current clear current_cap
cap_drop-DropCase slot s d = elim (Option-cases (current_process s.processes)) [
  | inl e ↦ (fails bad_capability s, (rw (e, cap_drop) refl, refused (rw (e, current_cap) refl)))
  | inr (p, e) ↦ elim (Option-cases (lookup slot p.caps)) [
    | inl f ↦ (fails bad_capability s, (rw (e, f, cap_drop) refl, refused (rw (e, current_cap) f)))
    | inr (c, f) ↦
        let (next, w) = cleared_current-Vacated s p slot c d e f in
        let (t, released) = release-Releases c.object next w.descends in
        let (r, how) = released in
        (
          done tt t,
          (
            drop_result p c next t e w.result r,
            dropped c next t (rw (e, current_cap) f) w.gone w.same_objects how,
          ),
        )
  ]
]
  where
    drop_result :
        (p : Process) (c : Capability) (next t : RuntimeState)
        → current_process s.processes ≡ some p
        → cleared_current p slot s ≡ ok (c, next)
        → release_unreferenced_derived_vfs_root c.object next ≡ some t
        → cap_drop slot s ≡ some (done tt t)
    drop_result p c next t e f g = rw (e, f, g, cap_drop) refl
