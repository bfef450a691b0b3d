-- ===== src/Scheduler/Receivers.antt =====
-- The authority that a receiver waits with: process_has_live_endpoint_cap of
-- kernel/krust/src/ipc/scheduler.rs.
use vertex_os.Base.{
  ℕ, zero, suc, ◌^◌, ◌≡◌, ◌∙◌, refl, sym, ap, subst, inl, inr, Bool, true, false, Option, none,
  some, List, [], ◌∷◌, eq→==, get_elem?, bit_and, Bool-cases, Option-cases, arith,
}
use text.Mathlib.TextEquality.{eq_iff}
use vertex_os.Ids.{KernelObjectId}
use vertex_os.Transport.{IpcEndpoint}
use vertex_os.Capability.{Capability}
use vertex_os.ObjectTable.Find.{get_endpoint}
use vertex_os.Process.{Process, blocked_on_endpoint}
use vertex_os.Runtime.{RuntimeState, cap_id_revoked}
use vertex_os.Runtime.Lineage.{
  RevokedFrom, capability_has_revoked_ancestor-true, capability_has_revoked_ancestor-false,
}
use vertex_os.Runtime.Syscalls.{capability_has_revoked_ancestor}
use vertex_os.Scheduler.Waiters.{right_receive, names_endpoint, has_right, any_live_cap}

-- The process waits as a receiver on the endpoint, with the capability that it called with.
pub record Waits (p : Process) (endpoint : KernelObjectId) (cap_id : ℕ) : Type 0 where
  pub destination : ℕ
  pub max_len : ℕ
  pub timeout : Option ℕ
  pub state : p.state ≡ blocked_on_endpoint endpoint cap_id destination max_len timeout

-- A capability to receive (right 2^5) that is in force: it names the endpoint, neither it nor an
-- ancestor is revoked, and it is of the running generation.
pub record IsLive (s : RuntimeState) (endpoint : KernelObjectId) (cap_id : ℕ) (c : Capability)
    : Type 0 where
  pub same_id : c.id ≡ cap_id
  pub same_object : c.object ≡ endpoint
  pub not_marked : c.revoked ≡ false
  pub not_listed : cap_id_revoked c.id s ≡ false
  pub no_ancestor : RevokedFrom s c.parent_cap_id → ⊥
  pub same_generation : c.generation_id ≡ s.generation_id
  pub receives : bit_and c.rights (2 ^ 5) ≡ 2 ^ 5

-- One of the slots holds such a capability.
pub record Holds (s : RuntimeState) (endpoint : KernelObjectId) (cap_id : ℕ)
    (caps : List (Option Capability)) : Type 0 where
  pub slot : ℕ
  pub cap : Capability
  pub held : get_elem? caps slot ≡ some (some cap)
  pub live : IsLive s endpoint cap_id cap

-- The endpoint exists and the process holds such a capability.
pub record CanReceive (s : RuntimeState) (p : Process) (endpoint : KernelObjectId) (cap_id : ℕ)
    : Type 0 where
  pub object : IpcEndpoint
  pub exists : get_endpoint endpoint s.objects ≡ some object
  pub holds : Holds s endpoint cap_id p.caps.caps

tests-IsLive :
    (s : RuntimeState) (endpoint : KernelObjectId) (cap_id : ℕ) (c : Capability)
    → names_endpoint endpoint cap_id c s ≡ true
    → capability_has_revoked_ancestor c s ≡ some false
    → has_right right_receive c s ≡ true
    → IsLive s endpoint cap_id c
unfolding names_endpoint has_right
tests-IsLive s endpoint cap_id c n a r = record {
  same_id = ground (arith, n);
  same_object = ground (arith, n);
  not_marked = ground (arith, n);
  not_listed = ground (arith, n);
  no_ancestor = capability_has_revoked_ancestor-false c s a;
  same_generation = (eq_iff c.generation_id s.generation_id).0 (ground (arith, r));
  receives = ground (arith, r);
}

IsLive-names_endpoint :
    (s : RuntimeState) (endpoint : KernelObjectId) (cap_id : ℕ) (c : Capability)
    → IsLive s endpoint cap_id c
    → names_endpoint endpoint cap_id c s ≡ true
unfolding names_endpoint
IsLive-names_endpoint s endpoint cap_id c v =
    rw
      (
        eq→== c.id cap_id v.same_id,
        eq→== c.object endpoint v.same_object,
        v.not_marked,
        v.not_listed,
      )
      refl

IsLive-has_right :
    (s : RuntimeState) (endpoint : KernelObjectId) (cap_id : ℕ) (c : Capability)
    → IsLive s endpoint cap_id c
    → has_right right_receive c s ≡ true
unfolding has_right
IsLive-has_right s endpoint cap_id c v =
    rw ((eq_iff c.generation_id s.generation_id).1 v.same_generation, v.receives) refl

Holds-later :
    (s : RuntimeState) (endpoint : KernelObjectId) (cap_id : ℕ) (o : Option Capability)
    (caps : List (Option Capability))
    → Holds s endpoint cap_id caps
    → Holds s endpoint cap_id (o ∷ caps)
Holds-later s endpoint cap_id o caps h = record {
  slot = suc h.slot;
  cap = h.cap;
  held = h.held;
  live = h.live;
}

pub decided : some false ≡ some true → ⊥
decided e = cc

any_live_cap-other :
    (s : RuntimeState) (endpoint : KernelObjectId) (cap_id : ℕ) (c : Capability)
    (caps : List (Option Capability))
    → names_endpoint endpoint cap_id c s ≡ false
    → any_live_cap endpoint cap_id right_receive (some c ∷ caps) s
      ≡ any_live_cap endpoint cap_id right_receive caps s
unfolding any_live_cap
any_live_cap-other s endpoint cap_id c caps n = rw (n, any_live_cap) refl

any_live_cap-unknown :
    (s : RuntimeState) (endpoint : KernelObjectId) (cap_id : ℕ) (c : Capability)
    (caps : List (Option Capability))
    → names_endpoint endpoint cap_id c s ≡ true
    → capability_has_revoked_ancestor c s ≡ none
    → any_live_cap endpoint cap_id right_receive (some c ∷ caps) s ≡ none
unfolding any_live_cap
any_live_cap-unknown s endpoint cap_id c caps n a = rw (n, a, any_live_cap) refl

any_live_cap-revoked :
    (s : RuntimeState) (endpoint : KernelObjectId) (cap_id : ℕ) (c : Capability)
    (caps : List (Option Capability))
    → names_endpoint endpoint cap_id c s ≡ true
    → capability_has_revoked_ancestor c s ≡ some true
    → any_live_cap endpoint cap_id right_receive (some c ∷ caps) s
      ≡ any_live_cap endpoint cap_id right_receive caps s
unfolding any_live_cap
any_live_cap-revoked s endpoint cap_id c caps n a = rw (n, a, any_live_cap) refl

any_live_cap-has_right :
    (s : RuntimeState) (endpoint : KernelObjectId) (cap_id : ℕ) (c : Capability)
    (caps : List (Option Capability))
    → names_endpoint endpoint cap_id c s ≡ true
    → capability_has_revoked_ancestor c s ≡ some false
    → any_live_cap endpoint cap_id right_receive (some c ∷ caps) s
      ≡ elim (has_right right_receive c s) [
        | true ↦ some true
        | false ↦ any_live_cap endpoint cap_id right_receive caps s
      ]
unfolding any_live_cap
any_live_cap-has_right s endpoint cap_id c caps n a = rw (n, a, any_live_cap) refl

any_live_cap-allowed :
    (s : RuntimeState) (endpoint : KernelObjectId) (cap_id : ℕ) (c : Capability)
    (caps : List (Option Capability))
    → names_endpoint endpoint cap_id c s ≡ true
    → capability_has_revoked_ancestor c s ≡ some false
    → has_right right_receive c s ≡ true
    → any_live_cap endpoint cap_id right_receive (some c ∷ caps) s ≡ some true
any_live_cap-allowed s endpoint cap_id c caps n a f =
    any_live_cap-has_right s endpoint cap_id c caps n a ∙ rw f refl

any_live_cap-denied :
    (s : RuntimeState) (endpoint : KernelObjectId) (cap_id : ℕ) (c : Capability)
    (caps : List (Option Capability))
    → names_endpoint endpoint cap_id c s ≡ true
    → capability_has_revoked_ancestor c s ≡ some false
    → has_right right_receive c s ≡ false
    → any_live_cap endpoint cap_id right_receive (some c ∷ caps) s
      ≡ any_live_cap endpoint cap_id right_receive caps s
any_live_cap-denied s endpoint cap_id c caps n a f =
    any_live_cap-has_right s endpoint cap_id c caps n a ∙ rw f refl

-- What the loop does with the first slot.
data First (s : RuntimeState) (endpoint : KernelObjectId) (cap_id : ℕ) (c : Capability)
    (caps : List (Option Capability)) : Type 0 where
  passed :
      any_live_cap endpoint cap_id right_receive (some c ∷ caps) s
        ≡ any_live_cap endpoint cap_id right_receive caps s
      → First s endpoint cap_id c caps
  unknown :
      any_live_cap endpoint cap_id right_receive (some c ∷ caps) s ≡ none
      → First s endpoint cap_id c caps
  found :
      any_live_cap endpoint cap_id right_receive (some c ∷ caps) s ≡ some true
      → IsLive s endpoint cap_id c
      → First s endpoint cap_id c caps

any_live_cap-First :
    (s : RuntimeState) (endpoint : KernelObjectId) (cap_id : ℕ) (c : Capability)
    (caps : List (Option Capability))
    → First s endpoint cap_id c caps
any_live_cap-First s endpoint cap_id c caps =
    elim (Bool-cases (names_endpoint endpoint cap_id c s)) [
      | inr n ↦ passed (any_live_cap-other s endpoint cap_id c caps n)
      | inl n ↦ elim (Option-cases (capability_has_revoked_ancestor c s)) [
        | inl a ↦ unknown (any_live_cap-unknown s endpoint cap_id c caps n a)
        | inr (walked, a) ↦ elim (Bool-cases walked) [
          | inl r ↦ passed (any_live_cap-revoked s endpoint cap_id c caps n (a ∙ ap some r))
          | inr r ↦ elim (Bool-cases (has_right right_receive c s)) [
            | inr f ↦ passed (any_live_cap-denied s endpoint cap_id c caps n (a ∙ ap some r) f)
            | inl f ↦
                found (any_live_cap-allowed s endpoint cap_id c caps n (a ∙ ap some r) f)
                  (tests-IsLive s endpoint cap_id c n (a ∙ ap some r) f)
          ]
        ]
      ]
    ]

pub unknown_known : {b : Bool} → ◌≡◌ {A = Option Bool} none (some b) → ⊥
unknown_known e = cc

pub any_live_cap-true :
    (s : RuntimeState) (endpoint : KernelObjectId) (cap_id : ℕ) (caps : List (Option Capability))
    → any_live_cap endpoint cap_id right_receive caps s ≡ some true
    → Holds s endpoint cap_id caps
unfolding any_live_cap
any_live_cap-true s endpoint cap_id [] h = absurd (decided h)
any_live_cap-true s endpoint cap_id (none ∷ caps) h =
    Holds-later s endpoint cap_id none caps (any_live_cap-true s endpoint cap_id caps h)
any_live_cap-true s endpoint cap_id (some c ∷ caps) h =
    elim (any_live_cap-First s endpoint cap_id c caps) [
      | passed e ↦
          Holds-later s endpoint cap_id (some c) caps
            (any_live_cap-true s endpoint cap_id caps (sym e ∙ h))
      | unknown e ↦ absurd (unknown_known (sym e ∙ h))
      | found _ v ↦ record { slot = 0; cap = c; held = refl; live = v }
    ]

pub any_live_cap-false :
    (s : RuntimeState) (endpoint : KernelObjectId) (cap_id slot : ℕ) (c : Capability)
    (caps : List (Option Capability))
    → get_elem? caps slot ≡ some (some c)
    → IsLive s endpoint cap_id c
    → any_live_cap endpoint cap_id right_receive caps s ≡ some false
    → ⊥
unfolding any_live_cap
any_live_cap-false s endpoint cap_id slot c [] at v h = cc
any_live_cap-false s endpoint cap_id zero c (none ∷ caps) at v h = cc
any_live_cap-false s endpoint cap_id zero c (some k ∷ caps) at v h =
    let w = subst (IsLive s endpoint cap_id) (own (sym at)) v in
    let n = IsLive-names_endpoint s endpoint cap_id k w in
    elim (Option-cases (capability_has_revoked_ancestor k s)) [
      | inl a ↦ unknown_known (sym (any_live_cap-unknown s endpoint cap_id k caps n a) ∙ h)
      | inr (walked, a) ↦ elim (Bool-cases walked) [
        | inl r ↦ w.no_ancestor (capability_has_revoked_ancestor-true k s (a ∙ ap some r))
        | inr r ↦ decided (
            sym h
            ∙ any_live_cap-allowed s endpoint cap_id k caps n (a ∙ ap some r)
                (IsLive-has_right s endpoint cap_id k w))
      ]
    ]
  where
    own :
        {a b : Capability}
        → ◌≡◌ {A = Option (Option Capability)} (some (some a)) (some (some b))
        → a ≡ b
    own e = cc
any_live_cap-false s endpoint cap_id (suc slot) c (none ∷ caps) at v h =
    any_live_cap-false s endpoint cap_id slot c caps at v h
any_live_cap-false s endpoint cap_id (suc slot) c (some k ∷ caps) at v h =
    elim (any_live_cap-First s endpoint cap_id k caps) [
      | passed e ↦ any_live_cap-false s endpoint cap_id slot c caps at v (sym e ∙ h)
      | unknown e ↦ unknown_known (sym e ∙ h)
      | found e _ ↦ decided (sym h ∙ e)
    ]
