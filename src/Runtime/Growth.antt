-- ===== src/Runtime/Growth.antt =====
-- How the table of revoked identifiers grows: add_revoked_cap of ipc/runtime_state.rs.
use vertex_os.Base.{
  ℕ, suc, ◌+◌, ◌≤◌, ◌<◌, ◌≡◌, ◌≢◌, ◌∙◌, refl, sym, ap, ◌⊎◌, inl, inr, Bool, true, false, ◌||◌, List,
  [], ◌∷◌, ◌++◌, ◌==◌, eq→==, ==→eq, length, set, take, any, Bool-cases, arith, length-set,
  take-set_end,
}
use vertex_os.Ids.{bad_capability}
use vertex_os.Runtime.{
  RuntimeState, Outcome, done, fails, lineage, revoked_ids, cap_id_revoked, add_revoked_cap,
}

pub any-append {ℓ} :
    {A : Type ℓ} (p : A → Bool) (xs ys : List A) → any p (xs ++ ys) ≡ (any p xs || any p ys)
any-append p [] ys = refl
any-append p (x ∷ xs) ys = ground (arith, any-append p xs ys)

-- The count of revoked identifiers is within their array.
abbrev pub Fits : RuntimeState → Type 0
Fits s = s.revoked_cap_count ≤ length s.revoked_caps

-- A state that others grow to: the same lineage, and every revoked identifier still is.
pub record Grows (s s' : RuntimeState) : Type 0 where
  pub same_lineage : lineage s' ≡ lineage s
  pub size : length s'.revoked_caps ≡ length s.revoked_caps
  pub fits : Fits s'
  pub counted : s.revoked_cap_count ≤ s'.revoked_cap_count
  pub keeps : (y : ℕ) → cap_id_revoked y s ≡ true → cap_id_revoked y s' ≡ true

-- Every revoked identifier has the property.
abbrev pub RevokedAre : (ℕ → Type 0) → RuntimeState → Type 0
RevokedAre P s = (y : ℕ) → cap_id_revoked y s ≡ true → P y

pub Grows-refl : (s : RuntimeState) → Fits s → Grows s s
Grows-refl s h = record {
  same_lineage = refl;
  size = refl;
  fits = h;
  counted = omega arith;
  keeps = λ y r. r;
}

pub Grows-trans : (s t u : RuntimeState) → Grows s t → Grows t u → Grows s u
Grows-trans s t u g h = record {
  same_lineage = h.same_lineage ∙ g.same_lineage;
  size = h.size ∙ g.size;
  fits = h.fits;
  counted = omega (arith, g.counted, h.counted);
  keeps = λ y r. h.keeps y (g.keeps y r);
}

-- What an addition that writes leaves.
pub record Added (x : ℕ) (s s' : RuntimeState) : Type 0 where
  pub grows : Grows s s'
  pub more : s.revoked_cap_count < s'.revoked_cap_count
  pub revoked : cap_id_revoked x s' ≡ true
  pub only : (y : ℕ) → cap_id_revoked y s' ≡ true → (x ≡ y) ⊎ (cap_id_revoked y s ≡ true)

-- The three ways in which `add_revoked_cap` returns.
pub data AddCase (x : ℕ) (s : RuntimeState) : Outcome Bool → Type 0 where
  known : ((x ≡ 0) ⊎ (cap_id_revoked x s ≡ true)) → AddCase x s (done false s)
  full : s.revoked_cap_count ≡ length s.revoked_caps → AddCase x s (fails bad_capability s)
  added : (s' : RuntimeState) → x ≢ 0 → Added x s s' → AddCase x s (done true s')

abbrev with_id : ℕ → RuntimeState → RuntimeState
with_id x s = record s {
  revoked_caps = set s.revoked_caps s.revoked_cap_count x;
  revoked_cap_count = s.revoked_cap_count + 1;
}

revoked-with_id :
    (x : ℕ) (s : RuntimeState)
    → s.revoked_cap_count < length s.revoked_caps
    → (y : ℕ) → cap_id_revoked y (with_id x s) ≡ (cap_id_revoked y s || (x == y))
unfolding cap_id_revoked
revoked-with_id x s h y =
    let test : ℕ → Bool = λ id. id == y in
    let next : s.revoked_cap_count + 1 ≡ suc s.revoked_cap_count = omega arith in
    let ids : revoked_ids (with_id x s) ≡ revoked_ids s ++ x ∷ [] =
      ap (λ n. take n (set s.revoked_caps s.revoked_cap_count x)) next
      ∙ take-set_end s.revoked_caps s.revoked_cap_count x h in
    let last : any test (x ∷ []) ≡ (x == y) = ground arith in
    ap (any test) ids
    ∙ (any-append test (revoked_ids s) (x ∷ []) ∙ ap (λ b. any test (revoked_ids s) || b) last)

with_id-Added :
    (x : ℕ) (s : RuntimeState)
    → s.revoked_cap_count < length s.revoked_caps
    → Added x s (with_id x s)
with_id-Added x s h =
    let size : length (set s.revoked_caps s.revoked_cap_count x) ≡ length s.revoked_caps =
      length-set s.revoked_caps s.revoked_cap_count x in
    let now : (y : ℕ) → cap_id_revoked y (with_id x s) ≡ (cap_id_revoked y s || (x == y)) =
      revoked-with_id x s h in
    record {
      grows = record {
        same_lineage = refl;
        size = size;
        fits = omega (arith, size);
        counted = omega arith;
        keeps = λ y r. now y ∙ ground (arith, r);
      };
      more = omega arith;
      revoked = now x ∙ ground (arith, eq→== x x refl);
      only = λ y r. elim (Bool-cases (cap_id_revoked y s)) [
        | inl e ↦ inr e
        | inr e ↦
            let same : (x == y) ≡ true = ground (arith, sym (now y) ∙ r, e) in inl (==→eq x y same)
      ];
    }

pub add_revoked_cap-AddCase :
    (x : ℕ) (s : RuntimeState) → Fits s → AddCase x s (add_revoked_cap x s)
unfolding add_revoked_cap
add_revoked_cap-AddCase x s h = elim (Bool-cases (x == 0)) [
  | inl zero_id ↦ rw zero_id (known (inl (==→eq x 0 zero_id)))
  | inr other_id ↦ elim (Bool-cases (cap_id_revoked x s)) [
    | inl already ↦ rw (other_id, already) (known (inr already))
    | inr fresh ↦ elim (Bool-cases (s.revoked_cap_count == length s.revoked_caps)) [
      | inl e ↦ rw (other_id, fresh, e) (full (==→eq s.revoked_cap_count (length s.revoked_caps) e))
      | inr e ↦
          rw (other_id, fresh, e)
            (added (with_id x s) (ground arith) (with_id-Added x s (ground arith)))
    ]
  ]
]
