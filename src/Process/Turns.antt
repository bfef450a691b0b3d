-- ===== src/Process/Turns.antt =====
-- The processes that the search for the next one may choose, in the order of their turns:
-- next_ready_index_round_robin of kernel/krust/src/kernel/process_runtime.rs.
use vertex_os.Base.{
  ℕ, ◌+◌, ◌%◌, ◌≡◌, ◌≢◌, ◌∙◌, refl, sym, ap, inl, inr, Bool, true, false, not, ◌&&◌, Option, none,
  some, ◌==◌, eq→==, ==→eq, get_elem?, Bool-cases, Option-cases,
}
use vertex_os.Process.{
  Process, ProcessState, is_ready, empty, declared, ready, running, exited, blocked_on_endpoint,
  blocked_on_interrupt, blocked_on_vfs_read, blocked_on_vfs_state, blocked_on_vertex_fs_sync,
  blocked_on_network_port, sleeping, ProcessTable, is_skipped, is_ready_at, current_index,
}

-- The search may choose the index.
abbrev pub eligible : ProcessTable → Bool → ℕ → Bool
eligible t include_current index =
    not (is_skipped include_current (current_index t) index) && is_ready_at t index

-- The slot holds a ready process, which the search may choose.
pub record Eligible (include_current : Bool) (t : ProcessTable) (index : ℕ) : Type 0 where
  pub process : Process
  pub here : get_elem? t.processes index ≡ some (some process)
  pub state : process.state ≡ ready
  pub other : include_current ≡ false → current_index t ≢ some index

-- The slots in the order of their turns: from the one behind the current process round the table,
-- and from the first one where no process is current.
abbrev pub turn : ProcessTable → ℕ → ℕ
turn t offset = elim (current_index t) [
  | none ↦ offset
  | some current ↦ (current + 1 + offset) % t.count
]

is_ready-ready : (state : ProcessState) → is_ready state ≡ true → state ≡ ready
is_ready-ready empty h = cc
is_ready-ready declared h = cc
is_ready-ready ready h = refl
is_ready-ready running h = cc
is_ready-ready exited h = cc
is_ready-ready (blocked_on_endpoint _ _ _ _ _) h = cc
is_ready-ready (blocked_on_interrupt _ _) h = cc
is_ready-ready (blocked_on_vfs_read _ _ _ _) h = cc
is_ready-ready (blocked_on_vfs_state _ _ _ _ _ _ _ _ _ _) h = cc
is_ready-ready (blocked_on_vertex_fs_sync _ _ _ _ _ _ _ _) h = cc
is_ready-ready (blocked_on_network_port _ _ _) h = cc
is_ready-ready (sleeping _) h = cc

pub decided : ◌≡◌ {A = Bool} false true → ⊥
decided e = cc

skipped-current :
    (t : ProcessTable) (index : ℕ)
    → current_index t ≡ some index
    → is_skipped false (current_index t) index ≡ true
skipped-current t index e = rw (e, eq→== index index refl) refl

-- The test of the loop is right.
pub eligible→Eligible :
    (include_current : Bool) (t : ProcessTable) (index : ℕ)
    → eligible t include_current index ≡ true
    → Eligible include_current t index
unfolding is_ready_at
eligible→Eligible include_current t index h =
    elim (Bool-cases (is_skipped include_current (current_index t) index)) [
      | inl skip ↦ absurd (decided (sym (rw (skip, eligible) refl) ∙ h))
      | inr keep ↦ at_slot keep (get_elem? t.processes index) refl
    ]
  where
    own :
        is_skipped include_current (current_index t) index ≡ false
        → include_current ≡ false
        → current_index t ≢ some index
    own keep e at = decided (
        sym keep
        ∙ (ap (λ (b : Bool). is_skipped b (current_index t) index) e ∙ skipped-current t index at))

    at_slot :
        is_skipped include_current (current_index t) index ≡ false
        → (o : Option (Option Process)) → get_elem? t.processes index ≡ o
        → Eligible include_current t index
    at_slot keep none e = absurd (decided (sym (rw (keep, e, eligible, is_ready_at) refl) ∙ h))
    at_slot keep (some none) e =
        absurd (decided (sym (rw (keep, e, eligible, is_ready_at) refl) ∙ h))
    at_slot keep (some (some p)) e = record {
      process = p;
      here = e;
      state = is_ready-ready p.state (sym (rw (keep, e, eligible, is_ready_at) refl) ∙ h);
      other = own keep;
    }

pub Eligible→eligible :
    (include_current : Bool) (t : ProcessTable) (index : ℕ)
    → Eligible include_current t index
    → eligible t include_current index ≡ true
unfolding is_ready_at
Eligible→eligible include_current t index v =
    rw (v.here, not_skipped include_current v.other, eligible, is_ready_at) (rw v.state refl)
  where
    not_skipped :
        (b : Bool)
        → (b ≡ false → current_index t ≢ some index)
        → is_skipped b (current_index t) index ≡ false
    not_skipped true _ = refl
    not_skipped false other = elim (Option-cases (current_index t)) [
      | inl e ↦ rw e refl
      | inr (c, e) ↦ elim (Bool-cases (c == index)) [
        | inl same ↦ absurd (other refl (e ∙ ap some (==→eq c index same)))
        | inr apart ↦ rw (e, apart) refl
      ]
    ]
