-- ===== src/Process/RoundRobin.antt =====
-- The choice of the next process: next_ready_index_round_robin of
-- kernel/krust/src/kernel/process_runtime.rs.
use vertex_os.Base.{
  ℕ, zero, suc, ◌+◌, ◌-◌, ◌%◌, ◌<◌, ◌≡◌, ◌∙◌, refl, sym, ap, subst, inl, inr, Bool, true, false,
  Option, none, some, ◌==◌, Bool-cases, Option-cases, ltb, ltb→lt, arith,
}
use native.Mathlib.Nat.{mod-eq_of_lt, mod-lt, add-mod_right, mod-add-mod}
use vertex_os.Process.Turns.{
  eligible, Eligible, turn, decided, eligible→Eligible, Eligible→eligible,
}
use vertex_os.Process.{
  ProcessTable, is_skipped, is_ready_at, current_index, search_ready, search_start,
  next_ready_index_round_robin,
}

-- The index that the search looks at after so many others.
abbrev pub looked_at : ProcessTable → ℕ → ℕ
looked_at t offset = (search_start t + offset) % t.count

-- What the search returns from an offset.
data SearchCase (t : ProcessTable) (include_current : Bool) (offset rounds : ℕ)
    : Option ℕ → Type 0 where
  chose :
      (k : ℕ)
      → k < rounds
      → eligible t include_current (looked_at t (offset + k)) ≡ true
      → ((j : ℕ) → j < k → eligible t include_current (looked_at t (offset + j)) ≡ false)
      → SearchCase t include_current offset rounds (some (looked_at t (offset + k)))
  nothing :
      ((j : ℕ) → j < rounds → eligible t include_current (looked_at t (offset + j)) ≡ false)
      → SearchCase t include_current offset rounds none

misses :
    (t : ProcessTable) (include_current : Bool) (offset n : ℕ)
    → eligible t include_current (looked_at t offset) ≡ false
    → ((j : ℕ) → j < n → eligible t include_current (looked_at t (suc offset + j)) ≡ false)
    → (j : ℕ) → j < suc n
    → eligible t include_current (looked_at t (offset + j)) ≡ false
misses t include_current offset n miss all zero h =
    subst (λ (m : ℕ). eligible t include_current (looked_at t m) ≡ false) (omega arith) miss
misses t include_current offset n miss all (suc j) h =
    subst (λ (m : ℕ). eligible t include_current (looked_at t m) ≡ false) (omega arith)
      (all j (omega arith))

-- One index that is not chosen, before the others.
SearchCase-later :
    (t : ProcessTable) (include_current : Bool) (offset rounds : ℕ) (o : Option ℕ)
    → eligible t include_current (looked_at t offset) ≡ false
    → SearchCase t include_current (suc offset) rounds o
    → SearchCase t include_current offset (suc rounds) o
SearchCase-later t include_current offset rounds o miss (chose k h fits before) =
    let next : suc offset + k ≡ offset + suc k = omega arith in
    subst (λ (n : ℕ). SearchCase t include_current offset (suc rounds) (some (looked_at t n)))
      (sym next)
      (chose (suc k) (omega arith)
        (subst (λ (n : ℕ). eligible t include_current (looked_at t n) ≡ true) next fits)
        (misses t include_current offset k miss before))
SearchCase-later t include_current offset rounds o miss (nothing all) =
    nothing (misses t include_current offset rounds miss all)

search_ready-SearchCase :
    (t : ProcessTable) (include_current : Bool) (offset rounds : ℕ)
    → SearchCase t include_current offset rounds
        (search_ready t include_current (current_index t) (search_start t) offset rounds)
unfolding search_ready
search_ready-SearchCase t include_current offset zero = nothing (λ j h. absurd (omega arith))
search_ready-SearchCase t include_current offset (suc rounds) =
    let later = search_ready-SearchCase t include_current (suc offset) rounds in
    elim (Bool-cases (is_skipped include_current (current_index t) (looked_at t offset))) [
      | inl skip ↦
          rw (skip, search_ready)
            (SearchCase-later t include_current offset rounds _ (rw skip refl) later)
      | inr keep ↦ elim (Bool-cases (is_ready_at t (looked_at t offset))) [
        | inr idle ↦
            rw (keep, idle, search_ready)
              (SearchCase-later t include_current offset rounds _ (rw (keep, idle) refl) later)
        | inl fits ↦ rw (keep, fits, search_ready) (now fits keep)
      ]
    ]
  where
    now :
        is_ready_at t (looked_at t offset) ≡ true
        → is_skipped include_current (current_index t) (looked_at t offset) ≡ false
        → SearchCase t include_current offset (suc rounds) (some (looked_at t offset))
    now fits keep =
        let here : offset ≡ offset + 0 = omega arith in
        subst (λ (n : ℕ). SearchCase t include_current offset (suc rounds) (some (looked_at t n)))
          (sym here)
          (chose 0 (omega arith)
            (subst (λ (n : ℕ). eligible t include_current (looked_at t n) ≡ true) here
              (rw (keep, fits) refl))
            (λ j h. absurd (omega arith)))

-- Every index is looked at.
looked_at-onto :
    (t : ProcessTable) (index : ℕ)
    → search_start t < t.count
    → index < t.count
    → (k : ℕ) × (k < t.count) × (looked_at t k ≡ index)
looked_at-onto t index h i = elim (Bool-cases (ltb index (search_start t))) [
  | inr behind ↦
      let k = index - search_start t in
      (k, ground arith, ap (λ (n : ℕ). n % t.count) (ground arith) ∙ mod-eq_of_lt i)
  | inl ahead ↦
      let before : index < search_start t = ltb→lt index (search_start t) ahead in
      let k = index + t.count - search_start t in
      let there : search_start t + k ≡ index + t.count = omega arith in
      (
        k,
        omega arith,
        ap (λ (n : ℕ). n % t.count) there ∙ (add-mod_right index t.count ∙ mod-eq_of_lt i),
      )
]

search_start-lt : (t : ProcessTable) → 0 < t.count → search_start t < t.count
unfolding search_start
search_start-lt t h = elim (Option-cases (current_index t)) [
  | inl e ↦ rw (e, search_start) h
  | inr (i, e) ↦ rw (e, search_start) (mod-lt (i + 1) h)
]

looked_at-zero : (t : ProcessTable) (n : ℕ) → looked_at t (0 + n) ≡ looked_at t n
looked_at-zero t n = ap (looked_at t) (omega arith)

-- What the choice returns.
pub record Chosen (include_current : Bool) (t : ProcessTable) (index : ℕ) : Type 0 where
  pub offset : ℕ
  pub inside : offset < t.count
  pub at : index ≡ turn t offset
  pub eligible_here : Eligible include_current t index
  pub first : (j : ℕ) → j < offset → Eligible include_current t (turn t j) → ⊥

looked_at-turn : (t : ProcessTable) (j : ℕ) → j < t.count → looked_at t j ≡ turn t j
unfolding search_start
looked_at-turn t j h = elim (Option-cases (current_index t)) [
  | inl e ↦ rw (e, search_start, turn) (ap (λ (n : ℕ). n % t.count) (omega arith) ∙ mod-eq_of_lt h)
  | inr (current, e) ↦ rw (e, search_start, turn) (mod-add-mod (current + 1) t.count j)
]

-- The index that the search returns is that of a ready process, which is not the current one
-- unless the search includes it, and it is the first such index from the one behind the current
-- process round the table, or from the first one where no process is current.
pub next_ready_index_round_robin-Chosen :
    (include_current : Bool) (t : ProcessTable) (index : ℕ)
    → next_ready_index_round_robin include_current t ≡ some index
    → Chosen include_current t index
unfolding next_ready_index_round_robin
next_ready_index_round_robin-Chosen include_current t index h = elim (Bool-cases (t.count == 0)) [
  | inl nobody ↦ absurd (none_some (sym (rw (nobody, next_ready_index_round_robin) refl) ∙ h))
  | inr some_process ↦
      go _ (search_ready-SearchCase t include_current 0 t.count)
        (sym (rw (some_process, next_ready_index_round_robin) refl) ∙ h)
]
  where
    none_some : none ≡ some index → ⊥
    none_some e = cc

    same_index : {i : ℕ} → some i ≡ some index → i ≡ index
    same_index e = cc

    go :
        (o : Option ℕ)
        → SearchCase t include_current 0 t.count o
        → o ≡ some index
        → Chosen include_current t index
    go o (nothing all) e = absurd (none_some e)
    go o (chose k inside fits before) e =
        let same = same_index e in
        record {
          offset = k;
          inside = inside;
          at = sym same ∙ (looked_at-zero t k ∙ looked_at-turn t k inside);
          eligible_here =
              eligible→Eligible include_current t index
                (subst (λ (i : ℕ). eligible t include_current i ≡ true) same fits);
          first = λ j h v. decided (
              sym (before j h)
              ∙ Eligible→eligible include_current t (looked_at t (0 + j)) (
                  subst (Eligible include_current t)
                    (sym (looked_at-zero t j ∙ looked_at-turn t j (omega (arith, h, inside)))) v));
        }

-- Where the search returns none, no index below the count is eligible: each holds no ready process or
-- is the current one, left out.
pub next_ready_index_round_robin-none :
    (include_current : Bool) (t : ProcessTable)
    → next_ready_index_round_robin include_current t ≡ none
    → (index : ℕ) → index < t.count
    → eligible t include_current index ≡ false
unfolding next_ready_index_round_robin
next_ready_index_round_robin-none include_current t h index i =
    go _ (search_ready-SearchCase t include_current 0 t.count)
      (sym (rw (other, next_ready_index_round_robin) refl) ∙ h)
  where
    other : (t.count == 0) ≡ false
    other = ground arith

    go :
        (o : Option ℕ)
        → SearchCase t include_current 0 t.count o
        → o ≡ none
        → eligible t include_current index ≡ false
    go o (chose k inside fits before) e = cc
    go o (nothing all) e =
        let (k, inside, at) = looked_at-onto t index (search_start-lt t (omega arith)) i in
        subst (λ (n : ℕ). eligible t include_current n ≡ false) (looked_at-zero t k ∙ at)
          (all k inside)
