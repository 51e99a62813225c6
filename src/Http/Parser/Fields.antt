-- ===== src/Http/Parser/Fields.antt =====
-- What each header of a request of src/web/http.rs does to the fields that say the same.
use ii.Prelude.{
  ℕ, ◌≡◌, ◌⊎◌, ◌∙◌, refl, sym, subst, true, false, Option, none, some, List, [], ◌∷◌, ◌++◌, map,
  arith, ok, Option-cases, if◌then◌else◌, inl, inr, is_some,
}
use ii.Prelude.Text.{Str, codes, lower, eq_ignore_ascii_case, str_eq, str_eq_iff}
use ii.Prelude.Number.{parse_uint, max_u64}
use ii.Http.Request.{WebRange, absent, ranged, invalid, find_header}
use ii.Http.Parser.{next_length, next_range}

-- The length is that of the Content-Length header, which is the only one, and the range that of the
-- Range header, unless there are several.
abbrev pub LengthAgrees : Option ℕ → List (Str × Str) → Type 0
LengthAgrees length headers =
    ((length ≡ none) × (find_header headers (codes "content-length") ≡ none))
    ⊎ ((value : Str) × (n : ℕ) × (length ≡ some n)
        × (find_header headers (codes "content-length") ≡ some value)
        × (parse_uint max_u64 value ≡ some n))

abbrev pub RangeAgrees : WebRange → List (Str × Str) → Type 0
RangeAgrees absent headers = find_header headers (codes "range") ≡ none
RangeAgrees (ranged value) headers = find_header headers (codes "range") ≡ some value
RangeAgrees invalid headers = is_some (find_header headers (codes "range")) ≡ true

lower_twice : (s t : Str) → eq_ignore_ascii_case (map lower s) t ≡ eq_ignore_ascii_case s t
lower_twice [] t = refl
lower_twice (c ∷ s) [] = refl
lower_twice (c ∷ s) (d ∷ t) = ground (arith, lower_twice s t)

find_header-append :
    (headers : List (Str × Str)) (name value key : Str)
    → find_header headers key ≡ none
    → find_header (headers ++ (map lower name, value) ∷ []) key
      ≡ (if eq_ignore_ascii_case name key then some value else none)
unfolding find_header
find_header-append [] name value key h = rw (lower_twice name key) refl
find_header-append ((n, v) ∷ headers) name value key h =
    ground (arith, find_header-append headers name value key)

-- A header that is there stays.
find_header-stays :
    (headers more : List (Str × Str)) (key found : Str)
    → find_header headers key ≡ some found
    → find_header (headers ++ more) key ≡ some found
unfolding find_header
find_header-stays [] more key found h = absurd (ground arith)
find_header-stays ((n, v) ∷ headers) more key found h =
    ground (arith, find_header-stays headers more key found)

-- Another header leaves what agrees.
pub length_other :
    (length : Option ℕ) (headers : List (Str × Str)) (name value : Str)
    → eq_ignore_ascii_case name (codes "content-length") ≡ false
    → LengthAgrees length headers
    → LengthAgrees length (headers ++ (map lower name, value) ∷ [])
length_other length headers name value e (inl (h, k)) =
    inl (h, find_header-append headers name value (codes "content-length") k ∙ rw e refl)
length_other length headers name value e (inr (v, n, h, k, parsed)) =
    inr (v, n, h, find_header-stays headers _ (codes "content-length") v k, parsed)

pub length_new :
    (length next : Option ℕ) (headers : List (Str × Str)) (name value : Str)
    → eq_ignore_ascii_case name (codes "content-length") ≡ true
    → LengthAgrees length headers
    → next_length length value ≡ ok next
    → LengthAgrees next (headers ++ (map lower name, value) ∷ [])
unfolding next_length
length_new length next headers name value e (inr (v, n, h, k, g)) f =
    elim (Option-cases (parse_uint max_u64 value)) [
      | inl w ↦ absurd (ground arith)
      | inr (m, w) ↦ absurd (ground arith)
    ]
length_new length next headers name value e (inl (h, k)) f =
    elim (Option-cases (parse_uint max_u64 value)) [
      | inl g ↦ absurd (ground arith)
      | inr (m, g) ↦ inr (
        value,
        m,
        ground arith,
        find_header-append headers name value (codes "content-length") k ∙ rw e refl,
        g,
      )
    ]

pub range_other :
    (range : WebRange) (headers : List (Str × Str)) (name value : Str)
    → eq_ignore_ascii_case name (codes "range") ≡ false
    → RangeAgrees range headers
    → RangeAgrees range (headers ++ (map lower name, value) ∷ [])
range_other absent headers name value e h =
    find_header-append headers name value (codes "range") h ∙ rw e refl
range_other (ranged v) headers name value e h = find_header-stays headers _ (codes "range") v h
range_other invalid headers name value e h =
    elim (Option-cases (find_header headers (codes "range"))) [
      | inl f ↦ absurd (ground arith)
      | inr (v, f) ↦
          rw (find_header-stays headers ((map lower name, value) ∷ []) (codes "range") v f) refl
    ]

pub range_new :
    (range : WebRange) (headers : List (Str × Str)) (name value : Str)
    → eq_ignore_ascii_case name (codes "range") ≡ true
    → RangeAgrees range headers
    → RangeAgrees (next_range range value) (headers ++ (map lower name, value) ∷ [])
unfolding next_range
range_new absent headers name value e h =
    find_header-append headers name value (codes "range") h ∙ rw e refl
range_new (ranged v) headers name value e h =
    rw (find_header-stays headers ((map lower name, value) ∷ []) (codes "range") v h) refl
range_new invalid headers name value e h =
    elim (Option-cases (find_header headers (codes "range"))) [
      | inl f ↦ absurd (ground arith)
      | inr (v, f) ↦
          rw (find_header-stays headers ((map lower name, value) ∷ []) (codes "range") v f) refl
    ]

pub not_range :
    (name : Str)
    → eq_ignore_ascii_case name (codes "content-length") ≡ true
    → eq_ignore_ascii_case name (codes "range") ≡ false
not_range name e =
    let same = (str_eq_iff (map lower name) (codes "content-length")).0 e in
    subst (λ t. str_eq t (codes "range") ≡ false) (sym same) refl
