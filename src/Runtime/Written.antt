-- ===== src/Runtime/Written.antt =====
-- A write to the current process is what the next read finds: process and process_mut of
-- kernel/krust/src/kernel/process_runtime.rs.
use vertex_os.Base.{
  ℕ, zero, suc, ◌≡◌, ◌∙◌, refl, sym, subst, inl, inr, Option, none, some, List, [], ◌∷◌, ◌==◌,
  eq→==, ==→eq, set, take, find_map, position, Bool-cases, Option-cases,
}
use vertex_os.Ids.{ProcessId}
use vertex_os.Process.{
  Process, ProcessTable, live, holds_pid, process_if_pid, process, current_process, write_process,
}

find_written :
    (pid : ProcessId) (n : ℕ) (slots : List (Option Process)) (p q : Process)
    → q.pid ≡ pid
    → find_map (process_if_pid pid) (take n slots) ≡ some p
    → (p.pid ≡ pid)
      × ((i : ℕ) × (position (holds_pid pid) (take n slots) ≡ some i)
          × (find_map (process_if_pid pid) (take n (set slots i (some q))) ≡ some q))
unfolding holds_pid process_if_pid
find_written pid zero slots p q e h = cc
find_written pid (suc n) [] p q e h = cc
find_written pid (suc n) (none ∷ slots) p q e h =
    let (same, (i, at, found)) = find_written pid n slots p q e h in
    (same, (suc i, rw (at, position) refl, found))
find_written pid (suc n) (some r ∷ slots) p q e h = elim (Bool-cases (r.pid == pid)) [
  | inl hit ↦
      let same : some r ≡ some p = sym (rw (hit, find_map) refl) ∙ h in
      (
        pid_of r p same (==→eq r.pid pid hit),
        (0, rw (hit, position) refl, rw (eq→== q.pid pid e, find_map) refl),
      )
  | inr miss ↦
      let (same, (i, at, found)) =
        find_written pid n slots p q e (sym (rw (miss, find_map) refl) ∙ h) in
      (same, (suc i, rw (miss, at, position) refl, rw (miss, find_map) found))
]
  where
    pid_of : (a b : Process) → some a ≡ some b → a.pid ≡ pid → b.pid ≡ pid
    pid_of a b s t = cc

-- The process that a pid reads, written in its place.
pub process-write :
    (pid : ProcessId) (t : ProcessTable) (p q : Process)
    → q.pid ≡ p.pid
    → process pid t ≡ some p
    → process pid (write_process p.pid q t) ≡ some q
unfolding process write_process
process-write pid t p q e h =
    let (same, (i, at, found)) = find_written pid t.count t.processes p q (e ∙ same_pid) h in
    subst (λ (x : ProcessId). process pid (write_process x q t) ≡ some q) (sym same)
      (rw (at, write_process) found)
  where
    same_pid : p.pid ≡ pid
    same_pid = (find_written pid t.count t.processes p (record p { pid = pid }) refl h).0

current_process-some :
    (t : ProcessTable) (pid : ProcessId) → t.current ≡ some pid → current_process t ≡ process pid t
unfolding current_process
current_process-some t pid at = rw (at, current_process) refl

write_process-current :
    (pid : ProcessId) (t : ProcessTable) (q : Process) → (write_process pid q t).current ≡ t.current
unfolding write_process
write_process-current pid t q = elim (Option-cases (position (holds_pid pid) (live t))) [
  | inl e ↦ rw (e, write_process) refl
  | inr (i, e) ↦ rw (e, write_process) refl
]

process_none : (t : ProcessTable) → t.current ≡ none → current_process t ≡ none
unfolding current_process
process_none t nobody = rw (nobody, current_process) refl

pub current_process-write_process :
    (t : ProcessTable) (p q : Process)
    → q.pid ≡ p.pid
    → current_process t ≡ some p
    → current_process (write_process p.pid q t) ≡ some q
current_process-write_process t p q e h = elim (Option-cases t.current) [
  | inl nobody ↦ absurd (none_else nobody)
  | inr (pid, at) ↦
      current_process-some (write_process p.pid q t) pid (write_process-current p.pid t q ∙ at)
      ∙ process-write pid t p q e (sym (current_process-some t pid at) ∙ h)
]
  where
    none_some : none ≡ some p → ⊥
    none_some f = cc

    none_else : t.current ≡ none → ⊥
    none_else nobody = none_some (sym (process_none t nobody) ∙ h)
