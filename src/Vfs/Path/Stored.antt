-- ===== src/Vfs/Path/Stored.antt =====
-- Names and paths are read back from their arrays as they were given (vfs/path.rs).
use vertex_os.Base.{
  ℕ, zero, suc, ◌-◌, ◌≤◌, ◌<◌, ◌≡◌, refl, ap, ◌⊎◌, inl, inr, true, false, List, [], ◌∷◌, ◌++◌, ok,
  err, arith, ltb, length, take, drop, replicate, length-append, length-replicate, Bool-cases,
  ltb→lt,
}
use vertex_os.Ids.{vfs_bad_path}
use vertex_os.Vfs.Path.{
  VfsPath, max_vfs_path_bytes, path_bytes, stored, valid_vfs_root_path, from_root_path,
}

take-append {ℓ} : {A : Type ℓ} (xs ys : List A) → take (length xs) (xs ++ ys) ≡ xs
take-append [] ys = refl
take-append (x ∷ xs) ys = ap (◌∷◌ x) (take-append xs ys)

length-drop {ℓ} : {A : Type ℓ} (n : ℕ) (xs : List A) → length (drop n xs) ≡ length xs - n
length-drop zero xs = omega arith
length-drop (suc n) [] = omega arith
length-drop (suc n) (x ∷ xs) = omega (arith, length-drop n xs)

take-stored : (capacity : ℕ) (value : List ℕ) → take (length value) (stored capacity value) ≡ value
unfolding stored
take-stored capacity value = take-append value (drop (length value) (replicate capacity 0))

length-stored :
    (capacity : ℕ) (value : List ℕ)
    → length value ≤ capacity
    → length (stored capacity value) ≡ capacity
unfolding stored
length-stored capacity value h = omega (
  arith,
  length-append value (drop (length value) (replicate capacity 0)),
  length-drop (length value) (replicate {A = ℕ} capacity 0),
  length-replicate {A = ℕ} capacity 0,
)

-- Either `from_root_path` builds a path that is read back as it was given, is valid, and fills its
-- array of 128 bytes exactly; or it refuses the path, which is longer than that or not valid.
pub from_root_path_reads_back :
    (path : List ℕ)
    → ((p : VfsPath) × (from_root_path path ≡ ok p)
        × (path_bytes p ≡ path)
        × (length p.bytes ≡ max_vfs_path_bytes)
        × (valid_vfs_root_path path ≡ true))
      ⊎ ((from_root_path path ≡ err vfs_bad_path)
          × ((max_vfs_path_bytes < length path) ⊎ (valid_vfs_root_path path ≡ false)))
unfolding from_root_path
from_root_path_reads_back path = elim (Bool-cases (ltb max_vfs_path_bytes (length path))) [
  | inl long ↦ inr (rw long refl, inl (ltb→lt _ _ long))
  | inr fits ↦ elim (Bool-cases (valid_vfs_root_path path)) [
    | inl valid ↦ inl (
      record { bytes = stored max_vfs_path_bytes path; len = length path },
      rw (fits, valid) refl,
      take-stored max_vfs_path_bytes path,
      length-stored max_vfs_path_bytes path (ground arith),
      valid,
    )
    | inr invalid ↦ inr (rw (fits, invalid) refl, inr invalid)
  ]
]
