-- ===== src/Web/Range/Forms.antt =====
-- The three forms of a range, as src/web/directory.rs answers them.
use ii.Prelude.{
  ℕ, ◌-◌, ◌≤◌, ◌<◌, ◌≡◌, refl, false, some, if◌then◌else◌, [], ◌∷◌, ◌++◌, ltb, leb, ◌==◌, All,
  arith, ◌∙◌,
}
use ii.Prelude.Text.{Str, codes, str_eq, contains, split_once}
use ii.Prelude.Number.{
  max_u64, to_string, to_string-cons, to_string-IsDigit, parse_uint-to_string, IsDigit,
}
use ii.Http.Request.{ranged}
use ii.Web.Range.{
  WebFileRange, partial, unsatisfiable, min, suffix_range, range_to, spec_range, web_file_range,
}

contains-append :
    (c : ℕ) (s t : Str) → contains c s ≡ false → contains c t ≡ false → contains c (s ++ t) ≡ false
contains-append c [] t h k = k
contains-append c (d ∷ s) t h k = ground (arith, contains-append c s t)

digits_without : (c : ℕ) (s : Str) → c < b'0' → All IsDigit s → contains c s ≡ false
digits_without c [] h a = refl
digits_without c (d ∷ s) h (i, a) = ground (arith, digits_without c s h a)

split_once-append :
    (c : ℕ) (s t : Str) → contains c s ≡ false → split_once c (s ++ c ∷ t) ≡ some (s, t)
split_once-append c [] t h = ground arith
split_once-append c (d ∷ s) t h = ground (arith, split_once-append c s t)

abbrev pub header : Str → Str → Str
header start end = codes "bytes=" ++ (start ++ b'-' ∷ end)

header_spec :
    (start end : Str) (size : ℕ)
    → 0 < size
    → All IsDigit start
    → All IsDigit end
    → web_file_range (ranged (header start end)) size ≡ spec_range start end size
unfolding web_file_range
header_spec start end size h a b =
    let found = split_once-append b'-' start end (digits_without b'-' start (omega arith) a) in
    let plain =
      contains-append b',' start (b'-' ∷ end) (digits_without b',' start (omega arith) a)
        (digits_without b',' end (omega arith) b) in
    let some_bytes : (size == 0) ≡ false = ground arith in
    rw some_bytes (rw plain (rw (found, web_file_range) refl))

not_empty : (s : Str) (d : ℕ) (rest : Str) → s ≡ d ∷ rest → str_eq s [] ≡ false
not_empty s d rest e = rw e refl

range_to_last :
    (first last size : ℕ)
    → first ≤ last
    → last ≤ max_u64
    → range_to first (to_string last) size ≡ partial first (min last (size - 1))
unfolding range_to
range_to_last first last size h k =
    let (d, rest, e, _) = to_string-cons last in
    let in_order : ltb last first ≡ false = ground arith in
    rw (not_empty (to_string last) d rest e)
      (rw (parse_uint-to_string max_u64 last k, range_to) (rw in_order refl))

cut :
    (first size : ℕ) (part : WebFileRange)
    → (if leb size first then unsatisfiable else part)
      ≡ (if ltb first size then part else unsatisfiable)
cut first size part = ground arith

-- A client that asks for the bytes from `first` to `last`, from `first` on, or for the last `count`
-- ones gets these, cut at the end of the file, if the file is not empty, `first` is in it, and the
-- numbers have 64 bits; and a range that begins behind the file is refused.
pub web_file_range_forms :
    (first last count size : ℕ)
    → first ≤ last
    → last ≤ max_u64
    → 0 < count
    → count ≤ max_u64
    → 0 < size
    → (web_file_range (ranged (header (to_string first) (to_string last))) size
        ≡ (if ltb first size then partial first (min last (size - 1)) else unsatisfiable))
      × (web_file_range (ranged (header (to_string first) [])) size
          ≡ (if ltb first size then partial first (size - 1) else unsatisfiable))
      × (web_file_range (ranged (header [] (to_string count))) size
          ≡ partial (size - count) (size - 1))
unfolding spec_range range_to suffix_range
web_file_range_forms first last count size h k c d z =
    let (f1, f2, fe, fd) = to_string-cons first in
    let first_read = parse_uint-to_string max_u64 first (omega arith) in
    let count_read = parse_uint-to_string max_u64 count d in
    let first_there = not_empty (to_string first) f1 f2 fe in
    (
      header_spec (to_string first) (to_string last) size z (to_string-IsDigit first)
            (to_string-IsDigit last)
          ∙ rw first_there (
              rw (first_read, spec_range)
                (rw (range_to_last first last size h k) (cut first size _))),
      header_spec (to_string first) [] size z (to_string-IsDigit first) tt
          ∙ rw first_there (rw (first_read, spec_range) (cut first size _)),
      header_spec [] (to_string count) size z tt (to_string-IsDigit count)
          ∙ rw (count_read, suffix_range) (ground arith),
    )
