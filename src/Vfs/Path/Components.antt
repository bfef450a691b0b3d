-- ===== src/Vfs/Path/Components.antt =====
-- What `valid_vfs_root_path` accepts: the root, and paths of one or more names behind slashes.
use mathlib.Core.List.{append_assoc, append-nil}
use vertex_os.Base.{
  ℕ, ◌≡◌, ◌≢◌, ◌⊎◌, ◌↔◌, inl, inr, refl, ap, true, false, List, [], ◌∷◌, ◌++◌, arith, ◌==◌,
  Bool-cases, ==→eq, Bool, ◌≤◌, length, ◌∙◌, sym,
}
use vertex_os.Vfs.Namespace.Covers.{bytes_eq→eq, bytes_eq_self}
use vertex_os.Vfs.Path.{
  bytes_eq, dot, slash, is_component, components_valid, ends_in_slash, valid_vfs_root_path,
}

-- No byte is a slash or 0.
abbrev pub Plain : List ℕ → Type 0
Plain [] = Unit
Plain (b ∷ bs) = (b ≢ slash) × (b ≢ 0) × Plain bs

abbrev Accepted : List ℕ → Type 0
Accepted c = Plain c × (is_component c ≡ true)

abbrev AllAccepted : List (List ℕ) → Type 0
AllAccepted [] = Unit
AllAccepted (c ∷ cs) = Accepted c × AllAccepted cs

-- A name of 1 to 64 bytes, none of them a slash or 0, and not `.` or `..`.
pub record Name (c : List ℕ) : Type 0 where
  pub plain : Plain c
  pub some_byte : 1 ≤ length c
  pub fits : length c ≤ 64
  pub not_dot : c ≢ 46 ∷ []
  pub not_dot_dot : c ≢ 46 ∷ 46 ∷ []

abbrev pub Names : List (List ℕ) → Type 0
Names [] = Unit
Names (c ∷ cs) = Name c × Names cs

-- The names, each behind a slash.
abbrev pub join : List (List ℕ) → List ℕ
join [] = []
join (c ∷ cs) = slash ∷ c ++ join cs

Plain-append : (xs ys : List ℕ) → Plain xs → Plain ys → Plain (xs ++ ys)
Plain-append [] ys hx hy = hy
Plain-append (x ∷ xs) ys hx hy = (hx.0, hx.1, Plain-append xs ys hx.2 hy)

-- What the loops accept behind a slash: the bytes collected and a first name, then names.
record Splits (component path : List ℕ) : Type 0 where
  more : List ℕ
  rest : List (List ℕ)
  whole : path ≡ more ++ join rest
  name : Accepted (component ++ more)
  names : AllAccepted rest

Splits-end : (component : List ℕ) → Accepted component → Splits component []
Splits-end component name = record {
  more = [];
  rest = [];
  whole = refl;
  name = rw append-nil name;
  names = tt;
}

Splits-slash :
    (component path : List ℕ)
    → Accepted component
    → Splits [] path
    → Splits component (slash ∷ path)
Splits-slash component path name s = record {
  more = [];
  rest = s.more ∷ s.rest;
  whole = ap (◌∷◌ slash) s.whole;
  name = rw append-nil name;
  names = (s.name, s.names);
}

Splits-byte :
    (component : List ℕ) (byte : ℕ) (path : List ℕ)
    → Splits (component ++ byte ∷ []) path
    → Splits component (byte ∷ path)
Splits-byte component byte path s = record {
  more = byte ∷ s.more;
  rest = s.rest;
  whole = ap (◌∷◌ byte) s.whole;
  name = rw append_assoc at s.name;
  names = s.names;
}

Plain-snoc :
    (component : List ℕ) (byte : ℕ)
    → Plain component
    → byte ≢ slash
    → byte ≢ 0
    → Plain (component ++ byte ∷ [])
Plain-snoc component byte plain s z = Plain-append component (byte ∷ []) plain (s, z, tt)

components_valid→Splits :
    (component path : List ℕ)
    → Plain component
    → components_valid component path ≡ true
    → ends_in_slash path ≡ false
    → Splits component path
unfolding components_valid
components_valid→Splits component [] plain h last = Splits-end component (plain, h)
components_valid→Splits component (byte ∷ []) plain h last = Splits-byte component byte [] (
    Splits-end (component ++ byte ∷ [])
      (Plain-snoc component byte plain (ground arith) (ground arith), ground arith))
components_valid→Splits component (byte ∷ next ∷ rest) plain h last =
    elim (Bool-cases (byte == slash)) [
      | inl at_slash ↦ rw (==→eq byte slash at_slash) (
          Splits-slash component (next ∷ rest) (plain, ground arith)
            (components_valid→Splits [] (next ∷ rest) tt (ground arith) last))
      | inr inside ↦ Splits-byte component byte (next ∷ rest) (
          components_valid→Splits (component ++ byte ∷ []) (next ∷ rest)
            (Plain-snoc component byte plain (ground arith) (ground arith)) (ground arith) last)
    ]

valid_vfs_root_path_sound :
    (path : List ℕ)
    → valid_vfs_root_path path ≡ true
    → (path ≡ slash ∷ [])
      ⊎ ((c : List ℕ) × (cs : List (List ℕ)) × AllAccepted (c ∷ cs) × (path ≡ join (c ∷ cs)))
unfolding valid_vfs_root_path
valid_vfs_root_path_sound [] h = cc
valid_vfs_root_path_sound (first ∷ []) h = inl (ground arith)
valid_vfs_root_path_sound (first ∷ next ∷ rest) h = inr (
    joined first (ground arith)
      (components_valid→Splits [] (next ∷ rest) tt (ground arith) (ground arith)))
  where
    joined :
        (b : ℕ)
        → b ≡ slash
        → Splits [] (next ∷ rest)
        → (c : List ℕ) × (cs : List (List ℕ)) × AllAccepted (c ∷ cs)
          × (b ∷ next ∷ rest ≡ join (c ∷ cs))
    joined b e s = (s.more, s.rest, (s.name, s.names), rw e (ap (◌∷◌ slash) s.whole))

components_valid-join :
    (cs : List (List ℕ)) (acc c : List ℕ)
    → Plain c
    → is_component (acc ++ c) ≡ true
    → AllAccepted cs
    → components_valid acc (c ++ join cs) ≡ true
unfolding components_valid
components_valid-join [] acc [] plain name names = rw append-nil at name
components_valid-join ([] ∷ ds) acc [] plain name names = cc (names.0.1)
components_valid-join ((b ∷ bs) ∷ ds) acc [] plain name names =
    let here : is_component acc ≡ true = rw append-nil at name in
    rw (here, components_valid-join ds [] (b ∷ bs) names.0.0 names.0.1 names.1)
components_valid-join [] acc (b ∷ []) plain name names = ground arith
components_valid-join (d ∷ ds) acc (b ∷ []) plain name names =
    let onward = components_valid-join (d ∷ ds) (acc ++ b ∷ []) [] tt (rw append-nil name) names in
    ground arith
components_valid-join cs acc (b ∷ e ∷ es) plain name names =
    let onward =
      components_valid-join cs (acc ++ b ∷ []) (e ∷ es) plain.2 (rw append_assoc name) names in
    ground arith

Plain-ends : (b : ℕ) (bs : List ℕ) → Plain (b ∷ bs) → ends_in_slash (b ∷ bs) ≡ false
Plain-ends b [] plain = ground arith
Plain-ends b (e ∷ es) plain = Plain-ends e es plain.2

-- The last byte of a join of names is that of the last name.
ends_in_slash-join :
    (cs : List (List ℕ)) (b : ℕ) (bs : List ℕ)
    → Plain (b ∷ bs)
    → AllAccepted cs
    → ends_in_slash (b ∷ bs ++ join cs) ≡ false
unfolding is_component
ends_in_slash-join [] b bs plain names = rw append-nil (Plain-ends b bs plain)
ends_in_slash-join ([] ∷ ds) b bs plain names = cc (names.0.1)
ends_in_slash-join ((d ∷ ds) ∷ cs) b [] plain names = ends_in_slash-join cs d ds names.0.0 names.1
ends_in_slash-join ((d ∷ ds) ∷ cs) b (e ∷ es) plain names =
    ends_in_slash-join ((d ∷ ds) ∷ cs) e es plain.2 names

valid-join :
    (c : List ℕ) (cs : List (List ℕ))
    → AllAccepted (c ∷ cs)
    → valid_vfs_root_path (join (c ∷ cs)) ≡ true
unfolding valid_vfs_root_path
valid-join [] cs names = cc (names.0.1)
valid-join (b ∷ bs) cs names = rw (
  ends_in_slash-join cs b bs names.0.0 names.1,
  components_valid-join cs [] (b ∷ bs) names.0.0 names.0.1 names.1,
)

-- The root, or one or more names, each behind a slash.
abbrev pub IsRootPath : List ℕ → Type 0
IsRootPath path =
    (path ≡ slash ∷ [])
    ⊎ ((c : List ℕ) × (cs : List (List ℕ)) × Names (c ∷ cs) × (path ≡ join (c ∷ cs)))

bytes_eq-ne : (xs ys : List ℕ) → bytes_eq xs ys ≡ false → xs ≢ ys
bytes_eq-ne xs ys h e = differ (sym h ∙ (ap (λ zs. bytes_eq xs zs) (sym e) ∙ bytes_eq_self xs))
  where
    differ : ◌≡◌ {A = Bool} false true → ⊥
    differ f = cc

ne-bytes_eq : (xs ys : List ℕ) → xs ≢ ys → bytes_eq xs ys ≡ false
ne-bytes_eq xs ys n = elim (Bool-cases (bytes_eq xs ys)) [
  | inl same ↦ absurd (n (bytes_eq→eq xs ys same))
  | inr other ↦ other
]

-- The tests on a component are those of a name.
Accepted→Name : (c : List ℕ) → Accepted c → Name c
unfolding is_component
Accepted→Name c (plain, h) = record {
  plain = plain;
  some_byte = ground (arith, h);
  fits = ground (arith, h);
  not_dot = bytes_eq-ne c (dot ∷ []) (ground (arith, h));
  not_dot_dot = bytes_eq-ne c (dot ∷ dot ∷ []) (ground (arith, h));
}

Name→Accepted : (c : List ℕ) → Name c → Accepted c
unfolding is_component
Name→Accepted c n =
    let one = ne-bytes_eq c (dot ∷ []) n.not_dot in
    let two = ne-bytes_eq c (dot ∷ dot ∷ []) n.not_dot_dot in
    (n.plain, rw (one, two) (ground (arith, n.some_byte, n.fits)))

AllAccepted→Names : (cs : List (List ℕ)) → AllAccepted cs → Names cs
AllAccepted→Names [] h = tt
AllAccepted→Names (c ∷ cs) (here, rest) = (Accepted→Name c here, AllAccepted→Names cs rest)

Names→AllAccepted : (cs : List (List ℕ)) → Names cs → AllAccepted cs
Names→AllAccepted [] h = tt
Names→AllAccepted (c ∷ cs) (here, rest) = (Name→Accepted c here, Names→AllAccepted cs rest)

-- `valid_vfs_root_path` accepts the root, and one or more names of 1 to 64 bytes, each behind a
-- slash, where no name is `.` or `..` and none holds a slash or a zero byte; and nothing else.
pub valid_vfs_root_path-iff-IsRootPath :
    (path : List ℕ) → (valid_vfs_root_path path ≡ true) ↔ IsRootPath path
unfolding valid_vfs_root_path
valid_vfs_root_path-iff-IsRootPath path = (sound, complete)
  where
    sound : valid_vfs_root_path path ≡ true → IsRootPath path
    sound h = elim (valid_vfs_root_path_sound path h) [
      | inl root ↦ inl root
      | inr (c, cs, names, e) ↦ inr (c, cs, AllAccepted→Names (c ∷ cs) names, e)
    ]

    complete : IsRootPath path → valid_vfs_root_path path ≡ true
    complete (inl root) = ap valid_vfs_root_path root
    complete (inr (c, cs, names, e)) = rw e (valid-join c cs (Names→AllAccepted (c ∷ cs) names))
