-- ===== src/Web/Range/Slices.antt =====
-- The bounds of the ranges of src/web/directory.rs.
use ii.Prelude.{
  ℕ, ◌+◌, ◌-◌, ◌≤◌, ◌<◌, ◌≡◌, zero, suc, refl, false, ◌||◌, [], ◌∷◌, ltb, leb, ◌==◌, length,
  length-take, drop, arith, Bool-cases, Option-cases, inl, inr,
}
use ii.Prelude.Text.{Str, Bytes, codes, str_eq, contains, split_once, strip_prefix}
use ii.Prelude.Number.{parse_uint, max_u64}
use ii.Http.Request.{WebRange, absent, ranged, invalid}
use ii.Web.Range.{
  WebFileRange, full, partial, unsatisfiable, suffix_range, range_to, spec_range, web_file_range,
  answer_range, write_web_file,
}

-- A part is of the file: its last byte is one of the file, and not before its first.
abbrev pub Proper : ℕ → WebFileRange → Type 0
Proper size full = Unit
Proper size unsatisfiable = Unit
Proper size (partial start end) = (start ≤ end) × (end < size)

suffix_range-Proper : (end : Str) (size : ℕ) → 0 < size → Proper size (suffix_range end size)
unfolding suffix_range
suffix_range-Proper end size h = elim (Option-cases (parse_uint max_u64 end)) [
  | inl e ↦ rw (e, suffix_range) tt
  | inr (n, e) ↦ elim (Bool-cases (n == 0)) [
    | inl f ↦ rw (e, suffix_range) (rw f tt)
    | inr f ↦ rw (e, suffix_range) (rw f (ground arith, ground arith))
  ]
]

range_to-Proper :
    (start : ℕ) (end : Str) (size : ℕ) → start < size → Proper size (range_to start end size)
unfolding range_to
range_to-Proper start end size h = elim (Bool-cases (str_eq end [])) [
  | inl e ↦ rw (e, range_to) (omega arith, omega arith)
  | inr e ↦ elim (Option-cases (parse_uint max_u64 end)) [
    | inl f ↦ rw (e, range_to) (rw (f, range_to) tt)
    | inr (n, f) ↦ elim (Bool-cases (ltb n start)) [
      | inl g ↦ rw (e, range_to) (rw (f, range_to) (rw g tt))
      | inr g ↦ rw (e, range_to) (rw (f, range_to) (rw g (ground arith, ground arith)))
    ]
  ]
]

spec_range-Proper :
    (start end : Str) (size : ℕ) → 0 < size → Proper size (spec_range start end size)
unfolding spec_range
spec_range-Proper start end size h = elim (Bool-cases (str_eq start [])) [
  | inl e ↦ rw (e, spec_range) (suffix_range-Proper end size h)
  | inr e ↦ elim (Option-cases (parse_uint max_u64 start)) [
    | inl f ↦ rw (e, spec_range) (rw (f, spec_range) tt)
    | inr (n, f) ↦ elim (Bool-cases (leb size n)) [
      | inl g ↦ rw (e, spec_range) (rw (f, spec_range) (rw g tt))
      | inr g ↦
          rw (e, spec_range) (rw (f, spec_range) (rw g (range_to-Proper n end size (ground arith))))
    ]
  ]
]

web_file_range-Proper : (range : WebRange) (size : ℕ) → Proper size (web_file_range range size)
unfolding web_file_range
web_file_range-Proper absent size = tt
web_file_range-Proper invalid size = tt
web_file_range-Proper (ranged value) size =
    elim (Option-cases (strip_prefix (codes "bytes=") value)) [
      | inl e ↦ rw (e, web_file_range) tt
      | inr (spec, e) ↦ elim (Bool-cases (size == 0 || contains b',' spec)) [
        | inl f ↦ rw (e, web_file_range) (rw f tt)
        | inr f ↦ elim (Option-cases (split_once b'-' spec)) [
          | inl g ↦ rw (e, web_file_range) (rw f (rw (g, web_file_range) tt))
          | inr ((start, end), g) ↦
              rw (e, web_file_range)
                (rw f (rw (g, web_file_range) (spec_range-Proper start end size (ground arith))))
        ]
      ]
    ]

length-drop : (n : ℕ) (xs : Bytes) → length (drop n xs) ≡ length xs - n
length-drop zero xs = omega arith
length-drop (suc n) [] = omega arith
length-drop (suc n) (x ∷ xs) = omega (arith, length-drop n xs)

length-answer_range :
    (content_type : Str) (content : Bytes) (size : ℕ) (range : WebFileRange)
    → length content ≡ size
    → Proper size range
    → length (answer_range content_type content size false range).body
      ≡ (answer_range content_type content size false range).content_length
unfolding answer_range
length-answer_range content_type content size full e p = length-take size content (omega arith)
length-answer_range content_type content size (partial start end) e p =
    length-take (end - start + 1) (drop start content) (omega (arith, length-drop start content))
length-answer_range content_type content size unsatisfiable e p = refl

-- Whatever range a request asks for, a part that is answered begins in the file, ends in it, and is
-- not empty, and if the file has the length that its metadata gave, as many bytes are sent as the
-- answer announces.
pub write_web_file_bounds :
    (content_type : Str) (content : Bytes) (size : ℕ) (range : WebRange)
    → length content ≡ size
    → Proper size (web_file_range range size)
      × (length (write_web_file content_type content size range false).body
          ≡ (write_web_file content_type content size range false).content_length)
unfolding write_web_file
write_web_file_bounds content_type content size range e =
    let proper = web_file_range-Proper range size in
    (proper, length-answer_range content_type content size (web_file_range range size) e proper)
