-- ===== src/Vfs/Namespace/Covers.antt =====
-- The paths that an authority path covers (`vfs_authority_path_covers`): itself and what lies below
-- it in the tree, so that attenuation of a root by a path can be repeated.
use mathlib.Core.List.{append_assoc}
use vertex_os.Base.{
  ℕ, ◌<◌, ◌≡◌, ◌↔◌, ◌⊎◌, inl, inr, refl, sym, ap, ◌∙◌, true, List, [], ◌∷◌, ◌++◌, arith, length,
  length-append, Bool-cases, lt→ltb,
}
use vertex_os.Vfs.Path.{slash, bytes_eq}
use vertex_os.Vfs.Namespace.{has_prefix, has_byte_at, vfs_authority_path_covers}

pub bytes_eq→eq : (xs ys : List ℕ) → bytes_eq xs ys ≡ true → xs ≡ ys
bytes_eq→eq [] [] h = refl
bytes_eq→eq [] (y ∷ ys) h = cc
bytes_eq→eq (x ∷ xs) [] h = cc
bytes_eq→eq (x ∷ xs) (y ∷ ys) h = ground (arith, bytes_eq→eq xs ys)

pub bytes_eq_self : (xs : List ℕ) → bytes_eq xs xs ≡ true
bytes_eq_self [] = refl
bytes_eq_self (x ∷ xs) = ground (arith, bytes_eq_self xs)

-- The covered paths, described without the code's tests.
abbrev pub Below : List ℕ → List ℕ → Type 0
Below authority path =
    ((authority ≡ slash ∷ []) × ((rest : List ℕ) × (path ≡ slash ∷ rest)))
    ⊎ (path ≡ authority)
    ⊎ ((rest : List ℕ) × (path ≡ authority ++ slash ∷ rest))

-- What the three tests of the last branch find: the authority, a slash and a rest.
has_prefix→split :
    (authority path : List ℕ)
    → has_prefix authority path ≡ true
    → has_byte_at path (length authority) slash ≡ true
    → (rest : List ℕ) × (path ≡ authority ++ slash ∷ rest)
has_prefix→split [] [] h s = cc
has_prefix→split [] (p ∷ ps) h s = (ps, ground arith)
has_prefix→split (a ∷ authority) [] h s = cc
has_prefix→split (a ∷ authority) (p ∷ ps) h s =
    let (rest, e) = has_prefix→split authority ps (ground arith) (ground arith) in
    (rest, ground arith)

split→tests :
    (authority rest : List ℕ)
    → (has_prefix authority (authority ++ slash ∷ rest) ≡ true)
      × (has_byte_at (authority ++ slash ∷ rest) (length authority) slash ≡ true)
      × (length authority < length (authority ++ slash ∷ rest))
split→tests [] rest = (refl, refl, omega arith)
split→tests (a ∷ authority) rest =
    let (p, s, l) = split→tests authority rest in (ground arith, s, omega arith)

covers→Below :
    (authority path : List ℕ)
    → vfs_authority_path_covers authority path ≡ true
    → Below authority path
unfolding vfs_authority_path_covers
covers→Below authority path h = elim (Bool-cases (bytes_eq authority (slash ∷ []))) [
  | inl root ↦ inl (bytes_eq→eq _ _ root, first path (rw root at h))
  | inr other ↦ elim (Bool-cases (bytes_eq authority path)) [
    | inl same ↦ inr (inl (sym (bytes_eq→eq _ _ same)))
    | inr differs ↦ inr (inr (has_prefix→split authority path (ground arith) (ground arith)))
  ]
]
  where
    first : (xs : List ℕ) → has_byte_at xs 0 slash ≡ true → (rest : List ℕ) × (xs ≡ slash ∷ rest)
    first [] e = cc
    first (x ∷ xs) e = (xs, ground arith)

Below→covers :
    (authority path : List ℕ)
    → Below authority path
    → vfs_authority_path_covers authority path ≡ true
unfolding vfs_authority_path_covers
Below→covers authority path (inl (e, (rest, f))) = rw (e, f) refl
Below→covers authority path (inr (inl e)) = rw e (itself authority)
  where
    itself : (a : List ℕ) → vfs_authority_path_covers a a ≡ true
    itself a = elim (Bool-cases (bytes_eq a (slash ∷ []))) [
      | inl root ↦ rw (bytes_eq→eq a (slash ∷ []) root) refl
      | inr other ↦ rw (other, bytes_eq_self a) refl
    ]
Below→covers authority path (inr (inr (rest, e))) = rw e (below authority rest)
  where
    below : (a r : List ℕ) → vfs_authority_path_covers a (a ++ slash ∷ r) ≡ true
    below a r = elim (Bool-cases (bytes_eq a (slash ∷ []))) [
      | inl root ↦ rw (bytes_eq→eq a (slash ∷ []) root) refl
      | inr other ↦
          let (p, s, l) = split→tests a r in
          elim (Bool-cases (bytes_eq a (a ++ slash ∷ r))) [
            | inl same ↦ rw (other, same) refl
            | inr differs ↦ rw (other, differs, lt→ltb _ _ l, p, s) refl
          ]
    ]

-- A path is covered exactly when it is the authority itself, when it is the authority followed by a
-- slash and a rest, or when the authority is the root and the path starts with a slash.
pub covers-iff-Below :
    (authority path : List ℕ)
    → (vfs_authority_path_covers authority path ≡ true) ↔ Below authority path
covers-iff-Below authority path = (covers→Below authority path, Below→covers authority path)

Below-trans : (a b c : List ℕ) → Below a b → Below b c → Below a c
Below-trans a b c (inl (ea, (r, eb))) (inl (fb, (s, fc))) = inl (ea, (s, fc))
Below-trans a b c (inl (ea, (r, eb))) (inr (inl fc)) = inl (ea, (r, fc ∙ eb))
Below-trans a b c (inl (ea, (r, eb))) (inr (inr (s, fc))) =
    inl (ea, (r ++ slash ∷ s, fc ∙ ap (λ (xs : List ℕ). xs ++ slash ∷ s) eb))
Below-trans a b c (inr (inl eb)) rest = rw (← eb) rest
Below-trans a b c (inr (inr (r, eb))) (inl (fb, (s, fc))) =
    inr (inr (s, fc ∙ ap (λ (xs : List ℕ). xs ++ slash ∷ s) (sym (short a r (sym eb ∙ fb)))))
  where
    short : (xs ys : List ℕ) → xs ++ slash ∷ ys ≡ slash ∷ [] → xs ≡ []
    short [] ys e = refl
    short (x ∷ xs) ys e =
        absurd (omega (arith, ap (length {A = ℕ}) e, length-append xs (slash ∷ ys)))
Below-trans a b c (inr (inr (r, eb))) (inr (inl fc)) = inr (inr (r, fc ∙ eb))
Below-trans a b c (inr (inr (r, eb))) (inr (inr (s, fc))) = inr (
    inr (
      r ++ slash ∷ s,
      fc ∙ ap (λ (xs : List ℕ). xs ++ slash ∷ s) eb ∙ append_assoc a (slash ∷ r) (slash ∷ s),
    ))

-- Covering is transitive: what a covered path covers is covered too.
pub covers_trans :
    (a b c : List ℕ)
    → vfs_authority_path_covers a b ≡ true
    → vfs_authority_path_covers b c ≡ true
    → vfs_authority_path_covers a c ≡ true
covers_trans a b c ab bc =
    Below→covers a c (Below-trans a b c (covers→Below a b ab) (covers→Below b c bc))
