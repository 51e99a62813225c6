-- ===== src/Http/Parser/Segments.antt =====
-- `read_web_request` of src/web/http.rs does not depend on how the connection cuts the bytes.
use ii.Prelude.{
  ℕ, ◌+◌, ◌<◌, ◌≤◌, ◌≡◌, ◌∙◌, refl, sym, ap, false, Option, none, some, List, [], ◌∷◌, ◌++◌, length,
  leb, length-append, append_assoc, append-nil, arith, ok, Option-cases, inl, inr,
}
use ii.Prelude.Text.{Bytes, strip_prefix, strip_prefix_sound, before_cons}
use ii.Http.Parser.{Reads, Head, blank_line, here_or_later, find_end, max_head, read_head}

-- Reads that do not fail and are not empty, and their bytes.
abbrev pub reads_of : List (ℕ × Bytes) → Reads
reads_of [] = []
reads_of ((c, chunk) ∷ chunks) = some (c ∷ chunk) ∷ reads_of chunks

abbrev pub bytes_of : List (ℕ × Bytes) → Bytes
bytes_of [] = []
bytes_of ((c, chunk) ∷ chunks) = c ∷ chunk ++ bytes_of chunks

strip_prefix-more :
    (p s more t : Bytes) → strip_prefix p s ≡ some t → strip_prefix p (s ++ more) ≡ some (t ++ more)
strip_prefix-more [] s more t h = ground arith
strip_prefix-more (a ∷ p) [] more t h = absurd (ground arith)
strip_prefix-more (a ∷ p) (b ∷ s) more t h = ground (arith, strip_prefix-more p s more t)

-- A prefix that only shows with more bytes is longer than what there was.
strip_prefix-short :
    (p s more t : Bytes)
    → strip_prefix p s ≡ none
    → strip_prefix p (s ++ more) ≡ some t
    → length s < length p
strip_prefix-short [] s more t h e = absurd (ground arith)
strip_prefix-short (a ∷ p) [] more t h e = omega arith
strip_prefix-short (a ∷ p) (b ∷ s) more t h e = ground (arith, strip_prefix-short p s more t)

find_end-here :
    (c : ℕ) (s after : Bytes)
    → strip_prefix blank_line (c ∷ s) ≡ some after
    → find_end (c ∷ s) ≡ some ([], after)
unfolding find_end
find_end-here c s after h = ap (λ o. here_or_later c o (find_end s)) h

find_end-later :
    (c : ℕ) (s : Bytes)
    → strip_prefix blank_line (c ∷ s) ≡ none
    → find_end (c ∷ s) ≡ before_cons c (find_end s)
unfolding find_end
find_end-later c s h = ap (λ o. here_or_later c o (find_end s)) h

before_cons-some :
    (c : ℕ) (found : Option (Bytes × Bytes)) (text body : Bytes)
    → before_cons c found ≡ some (text, body)
    → (rest : Bytes) × (found ≡ some (rest, body)) × (text ≡ c ∷ rest)
before_cons-some c none text body h = absurd (ground arith)
before_cons-some c (some (rest, after)) text body h = (rest, ground arith, ground arith)

before_cons-none :
    (c : ℕ) (found : Option (Bytes × Bytes)) → before_cons c found ≡ none → found ≡ none
before_cons-none c none h = refl
before_cons-none c (some (rest, after)) h = absurd (ground arith)

find_end-length :
    (s text body : Bytes) → find_end s ≡ some (text, body) → length text + 4 ≤ length s
find_end-length [] text body h = absurd (unfold find_end in ground arith)
find_end-length (c ∷ s) text body h = elim (Option-cases (strip_prefix blank_line (c ∷ s))) [
  | inl e ↦
      let (rest, f, g) =
        before_cons-some c (find_end s) text body (sym (find_end-later c s e) ∙ h) in
      let ih = find_end-length s rest body f in rw g (omega arith)
  | inr (after, e) ↦
      let sizes = ap length (strip_prefix_sound blank_line (c ∷ s) after e) in
      let here = sym (find_end-here c s after e) ∙ h in
      let empty : text ≡ [] = ground arith in
      rw empty (omega (arith, length-append blank_line after))
]

-- More bytes do not move the blank line.
find_end-append :
    (s more text body : Bytes)
    → find_end s ≡ some (text, body)
    → find_end (s ++ more) ≡ some (text, body ++ more)
find_end-append [] more text body h = absurd (unfold find_end in ground arith)
find_end-append (c ∷ s) more text body h = elim (Option-cases (strip_prefix blank_line (c ∷ s))) [
  | inl e ↦
      let (rest, f, g) =
        before_cons-some c (find_end s) text body (sym (find_end-later c s e) ∙ h) in
      let ih = find_end-append s more rest body f in
      let long = find_end-length s rest body f in
      elim (Option-cases (strip_prefix blank_line (c ∷ s ++ more))) [
        | inl k ↦ find_end-later c (s ++ more) k ∙ rw (ih, g) refl
        | inr (t, k) ↦ absurd (omega (arith, strip_prefix-short blank_line (c ∷ s) more t e k))
      ]
  | inr (after, e) ↦
      let here = sym (find_end-here c s after e) ∙ h in
      let there =
        find_end-here c (s ++ more) (after ++ more)
          (strip_prefix-more blank_line (c ∷ s) more after e) in
      let empty : text ≡ [] = ground arith in
      let same : body ≡ after = ground arith in there ∙ rw (empty, same) refl
]

-- Before the blank line is complete less has been read than the head is long.
find_end-bound :
    (s more text body : Bytes)
    → find_end s ≡ none
    → find_end (s ++ more) ≡ some (text, body)
    → length s < length text + 4
find_end-bound [] more text body h e = omega arith
find_end-bound (c ∷ s) more text body h e = elim (Option-cases (strip_prefix blank_line (c ∷ s))) [
  | inl f ↦
      let gone : find_end s ≡ none =
        before_cons-none c (find_end s) (sym (find_end-later c s f) ∙ h) in
      elim (Option-cases (strip_prefix blank_line (c ∷ s ++ more))) [
        | inl k ↦
            let (rest, u, v) =
              before_cons-some c (find_end (s ++ more)) text body
                (sym (find_end-later c (s ++ more) k) ∙ e) in
            let ih = find_end-bound s more rest body gone u in rw v (omega arith)
        | inr (t, k) ↦ omega (arith, strip_prefix-short blank_line (c ∷ s) more t f k)
      ]
  | inr (after, f) ↦ absurd (ground (arith, find_end-here c s after f))
]

-- The loop at a buffer that holds the blank line, and at one that does not.
read_head-found :
    (reads : Reads) (buffer text body : Bytes)
    → find_end buffer ≡ some (text, body)
    → read_head reads buffer ≡ ok (record { text = text; body = body; unread = reads })
unfolding read_head
read_head-found [] buffer text body h = rw (h, read_head) refl
read_head-found (r ∷ reads) buffer text body h = rw (h, read_head) refl

read_head-next :
    (c : ℕ) (chunk : Bytes) (reads : Reads) (buffer : Bytes)
    → find_end buffer ≡ none
    → length buffer < max_head
    → read_head (some (c ∷ chunk) ∷ reads) buffer ≡ read_head reads (buffer ++ c ∷ chunk)
unfolding read_head
read_head-next c chunk reads buffer h short =
    let within : leb max_head (length buffer) ≡ false = ground arith in
    rw (h, within, read_head) refl

-- What the loop finds in the reads, with the bytes in the buffer before them.
abbrev pub Found : List (ℕ × Bytes) → Bytes → Bytes → Bytes → Type 0
Found chunks buffer text body =
    (head : Head) × (left : List (ℕ × Bytes)) × (read_head (reads_of chunks) buffer ≡ ok head)
    × (head.text ≡ text)
    × (head.unread ≡ reads_of left)
    × (head.body ++ bytes_of left ≡ body)

read_head-some :
    (chunks : List (ℕ × Bytes)) (buffer text body : Bytes)
    → find_end (buffer ++ bytes_of chunks) ≡ some (text, body)
    → length text + 4 ≤ max_head
    → Found chunks buffer text body
read_head-some [] buffer text body h small =
    let found : find_end buffer ≡ some (text, body) = rw append-nil at h in
    (
      record { text = text; body = body; unread = [] },
      [],
      read_head-found [] buffer text body found,
      refl,
      refl,
      append-nil body,
    )
read_head-some ((c, chunk) ∷ chunks) buffer text body h small =
    let later = bytes_of ((c, chunk) ∷ chunks) in
    elim (Option-cases (find_end buffer)) [
      | inl e ↦
          let short : length buffer < max_head =
            omega (arith, find_end-bound buffer later text body e h) in
          let (head, left, same, one, two, three) =
            read_head-some chunks (buffer ++ c ∷ chunk) text body
              (rw (append_assoc buffer (c ∷ chunk) (bytes_of chunks)) h) small in
          (
            head,
            left,
            read_head-next c chunk (reads_of chunks) buffer e short ∙ same,
            one,
            two,
            three,
          )
      | inr ((t, b), e) ↦
          let both = sym (find_end-append buffer later t b e) ∙ h in
          (
            record { text = t; body = b; unread = reads_of ((c, chunk) ∷ chunks) },
            (c, chunk) ∷ chunks,
            read_head-found _ buffer t b e,
            ground arith,
            refl,
            ground arith,
          )
    ]

-- However the bytes of a connection are cut into reads that are not empty, and if the head with its
-- blank line has at most 16 KiB, the loop finds the same text of the headers, and what it has read
-- of the body and what is still to be read make up the bytes behind the blank line.
pub read_head-segments :
    (chunks : List (ℕ × Bytes)) (text body : Bytes)
    → find_end (bytes_of chunks) ≡ some (text, body)
    → length text + 4 ≤ max_head
    → Found chunks [] text body
read_head-segments chunks text body h small = read_head-some chunks [] text body h small
