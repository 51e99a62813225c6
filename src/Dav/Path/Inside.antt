-- ===== src/Dav/Path/Inside.antt =====
-- The targets of src/web/dav.rs and the root: what the segments of a decoded path are, and where
-- the entries stand that are written.
use ii.Prelude.{
  ℕ, ◌≢◌, Bool, ◌||◌, not, refl, ap, ◌==◌, ==_iff, ◌≡◌, sym, subst, true, false, Option, some, List,
  [], ◌∷◌, ◌++◌, All, arith, Option-cases, Bool-cases, inl, inr,
}
use ii.Prelude.Text.{Str, codes, contains, str_eq_refl, str_eq, split, trim_end}
use ii.Dav.Path.{
  FilePath, parent, file_name, is_bad_segment, is_one_normal, components, is_slash, decode_segments,
  dav_relative_path, starts_with, writable_target,
}

-- A segment that names an entry of one directory.
abbrev pub IsSafe : Str → Type 0
IsSafe segment =
    (segment ≢ [])
    × (segment ≢ codes ".")
    × (segment ≢ codes "..")
    × All (λ c. (c ≢ b'/') × (c ≢ b'\\') × (c ≢ 0)) segment

neither : (a b : Bool) → (a || b) ≡ false → (a ≡ false) × (b ≡ false)
neither true b h = absurd (ground arith)
neither false b h = (refl, h)

different : (s t : Str) → str_eq s t ≡ false → s ≢ t
different s t h e = let same : str_eq s t ≡ true = rw e (str_eq_refl t) in absurd (ground arith)

contains-free : (c : ℕ) (s : Str) → contains c s ≡ false → All (λ d. d ≢ c) s
contains-free c [] h = tt
contains-free c (d ∷ s) h =
    let (apart, rest) = neither (d == c) (contains c s) h in
    (
      λ e. let same : (d == c) ≡ true = (==_iff d c).1 e in absurd (ground arith),
      contains-free c s rest,
    )

all_three :
    (s : Str)
    → All (λ c. c ≢ b'/') s
    → All (λ c. c ≢ b'\\') s
    → All (λ c. c ≢ 0) s
    → All (λ c. (c ≢ b'/') × (c ≢ b'\\') × (c ≢ 0)) s
all_three [] f g h = tt
all_three (c ∷ s) (f, fs) (g, gs) (h, hs) = ((f, g, h), all_three s fs gs hs)

is_bad_segment-IsSafe : (segment : Str) → is_bad_segment segment ≡ false → IsSafe segment
unfolding is_bad_segment
is_bad_segment-IsSafe segment h =
    let (h6, _) = neither _ (not (is_one_normal (components segment))) h in
    let (h5, zeros) = neither _ (contains 0 segment) h6 in
    let (h4, backslashes) = neither _ (contains b'\\' segment) h5 in
    let (h3, slashes) = neither _ (contains b'/' segment) h4 in
    let (h2, dots) = neither _ (str_eq segment (codes "..")) h3 in
    let (empty, dot) = neither (str_eq segment []) (str_eq segment (codes ".")) h2 in
    (
      different segment [] empty,
      different segment (codes ".") dot,
      different segment (codes "..") dots,
      all_three segment (contains-free b'/' segment slashes)
          (contains-free b'\\' segment backslashes) (contains-free 0 segment zeros),
    )

module _ (percent_decode : Str → Option Str) where
  decode_segments-IsSafe :
      (segments : List Str) (path : FilePath)
      → decode_segments percent_decode segments ≡ some path
      → All IsSafe path
  unfolding decode_segments
  decode_segments-IsSafe [] [] h = tt
  decode_segments-IsSafe [] (a ∷ path) h = absurd (ground arith)
  decode_segments-IsSafe (segment ∷ segments) path h = elim (Bool-cases (str_eq segment [])) [
    | inl e ↦ decode_segments-IsSafe segments path (rw (e, decode_segments) at h)
    | inr e ↦ elim (Option-cases (percent_decode segment)) [
      | inl f ↦ absurd (ground arith)
      | inr (decoded, f) ↦ elim (Bool-cases (is_bad_segment decoded)) [
        | inl g ↦ absurd (ground arith)
        | inr g ↦ elim (Option-cases (decode_segments percent_decode segments)) [
          | inl k ↦ absurd (ground arith)
          | inr (rest, k) ↦
              let same : path ≡ decoded ∷ rest = ground arith in
              subst (All IsSafe) (sym same)
                (is_bad_segment-IsSafe decoded g, decode_segments-IsSafe segments rest k)
        ]
      ]
    ]
  ]

  -- Every segment of a path that a request names is the name of an entry of one directory: not
  -- empty, not a dot or two dots, and without a slash, a backslash or a zero.
  pub dav_relative_path-IsSafe :
      (text : Str) (path : FilePath)
      → dav_relative_path percent_decode text ≡ some path
      → All IsSafe path
  unfolding dav_relative_path
  dav_relative_path-IsSafe text path h =
      decode_segments-IsSafe (split b'/' (trim_end is_slash text)) path (ground arith)

file_name-IsSafe :
    (root : FilePath) (first : Str) (rest : FilePath) (name : Str)
    → All IsSafe (first ∷ rest)
    → file_name (root ++ first ∷ rest) ≡ some name
    → IsSafe name
unfolding file_name
file_name-IsSafe [] first [] name (h, hs) e =
    let same : first ≡ name = ground arith in subst IsSafe same h
file_name-IsSafe [] first (next ∷ rest) name (h, hs) e = file_name-IsSafe [] next rest name hs e
file_name-IsSafe (a ∷ []) first rest name h e = file_name-IsSafe [] first rest name h e
file_name-IsSafe (a ∷ b ∷ root) first rest name h e =
    file_name-IsSafe (b ∷ root) first rest name h e

-- A path is its parent and its last component.
parent-append :
    (path above : FilePath) (name : Str)
    → parent path ≡ some above
    → file_name path ≡ some name
    → path ≡ above ++ name ∷ []
unfolding parent file_name
parent-append [] above name e f = absurd (ground arith)
parent-append (a ∷ []) above name e f = ground arith
parent-append (a ∷ b ∷ path) above name e f = elim (Option-cases (parent (b ∷ path))) [
  | inl g ↦ absurd (ground arith)
  | inr (p, g) ↦
      let same : a ∷ p ≡ above = ground arith in
      let ih = parent-append (b ∷ path) p name g f in
      subst (λ q. a ∷ b ∷ path ≡ q ++ name ∷ []) same (ap (λ q. a ∷ q) ih)
]

module _ (percent_decode : Str → Option Str) (canonicalize : FilePath → Option FilePath) where
  -- For a request whose path has a segment, the path that PUT, MKCOL or LOCK writes, or that a MOVE
  -- or a COPY writes to, is the entry of a directory: its name is a segment that is not empty, not a
  -- dot or two dots, and without a slash, a backslash or a zero, and the directory, with all links
  -- resolved, is at or below the root. If the entry is itself a link, nothing is said of what it
  -- leads to.
  pub writable_target-inside :
      (root : FilePath) (text first : Str) (rest target : FilePath)
      → dav_relative_path percent_decode text ≡ some (first ∷ rest)
      → writable_target canonicalize root (first ∷ rest) ≡ some target
      → (above directory : FilePath) × (name : Str) × (target ≡ directory ++ name ∷ [])
        × IsSafe name
        × (root ++ first ∷ rest ≡ above ++ name ∷ [])
        × (canonicalize above ≡ some directory)
        × (starts_with directory root ≡ true)
  unfolding writable_target
  writable_target-inside root text first rest target decoded h =
      let whole = root ++ first ∷ rest in
      elim (Option-cases (parent whole)) [
        | inl e ↦ absurd (ground arith)
        | inr (above, e) ↦ elim (Option-cases (canonicalize above)) [
          | inl f ↦ absurd (ground arith)
          | inr (c, f) ↦ elim (Option-cases (file_name whole)) [
            | inl g ↦ absurd (ground arith)
            | inr (name, g) ↦ elim (Bool-cases (starts_with c root)) [
              | inl k ↦
                  let same : target ≡ c ++ name ∷ [] = ground arith in
                  let safe = dav_relative_path-IsSafe percent_decode text (first ∷ rest) decoded in
                  (
                    above,
                    c,
                    name,
                    same,
                    file_name-IsSafe root first rest name safe g,
                    parent-append whole above name e g,
                    f,
                    k,
                  )
              | inr k ↦ absurd (ground arith)
            ]
          ]
        ]
      ]
