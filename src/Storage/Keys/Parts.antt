-- ===== src/Storage/Keys/Parts.antt =====
-- The components of the object keys in src/storage/profiles.rs, as src/backend/mod.rs takes them
-- apart.
use ii.Prelude.{
  ℕ, ◌==◌, ◌≡◌, Bool, false, ◌||◌, none, some, List, [], ◌∷◌, ◌++◌, if◌then◌else◌, refl, sym, ◌∙◌,
  ap, Bool-cases, inl, inr, arith, append-nil, ==_iff, subst,
}
use mathlib.Core.List.{reverse, reverse-append, reverse-reverse}
use ii.Prelude.Text.{Str, codes, str_eq, trim_start, trim_matches, split, contains}
use ii.Storage.{is_empty, is_blank}
use ii.Storage.Keys.{
  cleaned, is_unsafe, safe_key_component, normalized_object_key, join_key, present, is_dots,
  checked_parts, remote_path_parts,
}

abbrev slash : ℕ → Bool
slash c = c == b'/'

abbrev pub parts_of : Str → List Str
parts_of path = present (split b'/' path)

present-append : (xs ys : List Str) → present (xs ++ ys) ≡ present xs ++ present ys
present-append [] ys = refl
present-append (x ∷ xs) ys = elim (Bool-cases (is_empty x)) [
  | inl e ↦ rw (e, present-append xs ys) refl
  | inr e ↦ rw (e, present-append xs ys) refl
]

split-cons : (s : Str) → (part : Str) × (parts : List Str) × (split b'/' s ≡ part ∷ parts)
split-cons [] = ([], [], refl)
split-cons (c ∷ s) = elim (Bool-cases (c == b'/')) [
  | inl e ↦ rw e ([], split b'/' s, refl)
  | inr e ↦ let (part, parts, h) = split-cons s in rw (e, h) (c ∷ part, parts, refl)
]

split-append : (s t : Str) → split b'/' (s ++ b'/' ∷ t) ≡ split b'/' s ++ split b'/' t
split-append [] t = refl
split-append (c ∷ s) t = elim (Bool-cases (c == b'/')) [
  | inl e ↦ rw (e, split-append s t) refl
  | inr e ↦ let (part, parts, h) = split-cons s in rw (e, split-append s t, h) refl
]

parts_of-append : (s t : Str) → parts_of (s ++ b'/' ∷ t) ≡ parts_of s ++ parts_of t
parts_of-append s t = ap present (split-append s t) ∙ present-append (split b'/' s) (split b'/' t)

parts_of-trim_start : (s : Str) → parts_of (trim_start slash s) ≡ parts_of s
parts_of-trim_start [] = refl
parts_of-trim_start (c ∷ s) = elim (Bool-cases (c == b'/')) [
  | inl e ↦ rw e (parts_of-trim_start s)
  | inr e ↦ rw (e, e) refl
]

parts_of-reverse : (s : Str) → parts_of (reverse (trim_start slash s)) ≡ parts_of (reverse s)
parts_of-reverse [] = refl
parts_of-reverse (c ∷ s) = elim (Bool-cases (c == b'/')) [
  | inl e ↦
      let same : c ≡ b'/' = (==_iff c b'/').0 e in
      rw e (parts_of-reverse s)
      ∙ sym (
          ap parts_of (reverse-append (c ∷ []) s ∙ ap (λ d. reverse s ++ d ∷ []) same)
          ∙ parts_of-append (reverse s) []
          ∙ append-nil (parts_of (reverse s)))
  | inr e ↦ rw e refl
]

parts_of-trim : (s : Str) → parts_of (trim_matches slash s) ≡ parts_of s
parts_of-trim s =
    parts_of-reverse (reverse (trim_start slash s))
    ∙ ap parts_of (reverse-reverse (trim_start slash s))
    ∙ parts_of-trim_start s

split_one : (s : Str) → contains b'/' s ≡ false → split b'/' s ≡ s ∷ []
split_one [] h = refl
split_one (c ∷ s) h = elim (Bool-cases (c == b'/')) [
  | inl e ↦ absurd (ground arith)
  | inr e ↦ rw (e, split_one s (rw e at h)) refl
]

contains-append :
    (s t : Str) → contains b'/' s ≡ false → contains b'/' t ≡ false → contains b'/' (s ++ t) ≡ false
contains-append [] t h k = k
contains-append (c ∷ s) t h k = elim (Bool-cases (c == b'/')) [
  | inl e ↦ absurd (ground arith)
  | inr e ↦ rw e (contains-append s t (rw e at h) k)
]

contains-cleaned : (s : Str) → contains b'/' (cleaned s) ≡ false
contains-cleaned [] = refl
contains-cleaned (c ∷ s) = elim (Bool-cases (is_unsafe c)) [
  | inl e ↦ rw e (contains-cleaned s)
  | inr e ↦ elim (Bool-cases (c == b'/')) [
    | inl g ↦
        let h = subst (λ d. is_unsafe d ≡ false) ((==_iff c b'/').0 g) e in absurd (ground arith)
    | inr g ↦ rw (e, g) (contains-cleaned s)
  ]
]

contains-safe_key_component : (name : Str) → contains b'/' (safe_key_component name) ≡ false
unfolding safe_key_component
contains-safe_key_component name = elim (Bool-cases (is_blank (cleaned name))) [
  | inl e ↦ rw (e, safe_key_component) refl
  | inr e ↦ rw (e, safe_key_component) (contains-cleaned name)
]

-- The component that a name becomes.
abbrev pub key_name : Str → Str → Str
key_name random_id name = random_id ++ b'-' ∷ safe_key_component name

is_empty-append : (s t : Str) (c : ℕ) → is_empty (s ++ c ∷ t) ≡ false
is_empty-append [] t c = refl
is_empty-append (d ∷ s) t c = refl

parts_of-key_name :
    (random_id name : Str)
    → contains b'/' random_id ≡ false
    → parts_of (key_name random_id name) ≡ key_name random_id name ∷ []
parts_of-key_name random_id name h =
    let free =
      contains-append random_id (b'-' ∷ safe_key_component name) h
        (contains-safe_key_component name) in
    ap present (split_one (key_name random_id name) free)
    ∙ rw (is_empty-append random_id (safe_key_component name) b'-') refl

parts_of-join_key : (s t : Str) → parts_of (join_key s t) ≡ parts_of s ++ parts_of t
parts_of-join_key [] t = refl
parts_of-join_key (c ∷ s) t = parts_of-append (c ∷ s) t

parts_of-normalized_object_key :
    (prefix random_id name : Str)
    → contains b'/' random_id ≡ false
    → parts_of (normalized_object_key prefix random_id name)
      ≡ parts_of prefix ++ key_name random_id name ∷ []
unfolding normalized_object_key
parts_of-normalized_object_key prefix random_id name h =
    parts_of-join_key (trim_matches slash prefix) (key_name random_id name)
    ∙ ap (λ parts. parts ++ parts_of (key_name random_id name)) (parts_of-trim prefix)
    ∙ ap (λ last. parts_of prefix ++ last) (parts_of-key_name random_id name h)

is_dot : Str → Bool
is_dot part = str_eq part (codes ".") || str_eq part (codes "..")

key_name-is_dot : (random_id rest : Str) → is_dot (random_id ++ b'-' ∷ rest) ≡ false
unfolding is_dot
key_name-is_dot [] rest = refl
key_name-is_dot (a ∷ []) rest = ground arith
key_name-is_dot (a ∷ b ∷ []) rest = ground arith
key_name-is_dot (a ∷ b ∷ c ∷ s) rest = ground arith

is_dots-append :
    (parts : List Str) (last : Str)
    → is_dot last ≡ false
    → is_dots (parts ++ last ∷ []) ≡ is_dots parts
unfolding is_dot
is_dots-append [] last h = rw h refl
is_dots-append (part ∷ parts) last h = rw (is_dots-append parts last h) refl

checked_parts-append :
    (parts : List Str) (last : Str)
    → is_dot last ≡ false
    → checked_parts (parts ++ last ∷ [])
      ≡ (if is_dots parts then none else some (parts ++ last ∷ []))
checked_parts-append [] last h = rw (is_dots-append [] last h) refl
checked_parts-append (part ∷ parts) last h = rw (is_dots-append (part ∷ parts) last h) refl

-- The path of a stored object has the components of the prefix and one more, whatever the name of
-- the file is, if the random part of the name has no slash; the path is refused only for a prefix
-- with a component of dots.
pub remote_path_parts-normalized_object_key :
    (prefix random_id name : Str)
    → contains b'/' random_id ≡ false
    → remote_path_parts (normalized_object_key prefix random_id name) ≡ (
        if is_dots (parts_of prefix)
        then none
        else some (parts_of prefix ++ key_name random_id name ∷ []))
unfolding remote_path_parts
remote_path_parts-normalized_object_key prefix random_id name h =
    ap checked_parts (
      parts_of-trim (normalized_object_key prefix random_id name)
      ∙ parts_of-normalized_object_key prefix random_id name h)
    ∙ checked_parts-append (parts_of prefix) (key_name random_id name)
        (key_name-is_dot random_id (safe_key_component name))
