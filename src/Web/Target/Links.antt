-- ===== src/Web/Target/Links.antt =====
-- Where the links of the pages of src/web/directory.rs lead.
use ii.Prelude.{
  ℕ, ◌≡◌, ◌≢◌, refl, ap, subst, ◌∙◌, Bool, true, false, Option, none, some, List, [], ◌∷◌, ◌++◌,
  map, All, arith, append-nil, is_some,
}
use ii.Prelude.Text.{Str, str_eq, contains, split, strip_prefix}
use ii.Dav.Path.{FilePath, is_bad_segment}
use ii.Web.Target.{
  strip_slash, join_slash, web_directory_href, decode_parts, parts_of, directory_segments,
}

-- A segment that the code does not refuse.
abbrev pub IsAccepted : Str → Type 0
IsAccepted segment = is_bad_segment segment ≡ false

-- A character that ends no segment and no path.
abbrev pub IsPlain : ℕ → Type 0
IsPlain c = (c ≢ b'/') × (c ≢ b'?')

-- A part of a path: at least one character, all plain.
abbrev IsPart : Str → Type 0
IsPart [] = ⊥
IsPart (c ∷ s) = IsPlain c × All IsPlain s

split-plain : (s : Str) → All IsPlain s → split b'/' s ≡ s ∷ []
split-plain [] a = refl
split-plain (c ∷ s) (p, a) = ground (arith, split-plain s a)

split-part : (s rest : Str) → All IsPlain s → split b'/' (s ++ b'/' ∷ rest) ≡ s ∷ split b'/' rest
split-part [] rest a = refl
split-part (c ∷ s) rest (p, a) = ground (arith, split-part s rest a)

All-IsPart : (s : Str) → IsPart s → All IsPlain s
All-IsPart [] h = absurd h
All-IsPart (c ∷ s) h = h

split-join_slash :
    (part : Str) (parts : List Str)
    → All IsPart (part ∷ parts)
    → split b'/' (join_slash (part ∷ parts)) ≡ part ∷ parts
unfolding join_slash
split-join_slash part [] (p, a) = split-plain part (All-IsPart part p)
split-join_slash part (next ∷ parts) (p, a) =
    split-part part (join_slash (next ∷ parts)) (All-IsPart part p)
    ∙ ap (λ q. part ∷ q) (split-join_slash next parts a)

strip_slash-append : (t : Str) → strip_slash (t ++ b'/' ∷ []) ≡ some t
unfolding strip_slash
strip_slash-append [] = refl
strip_slash-append (c ∷ []) = refl
strip_slash-append (c ∷ d ∷ t) = rw (strip_slash-append (d ∷ t), strip_slash) refl

strip_slash-plain : (s : Str) → All IsPlain s → strip_slash s ≡ none
unfolding strip_slash
strip_slash-plain [] a = refl
strip_slash-plain (c ∷ []) (p, a) = ground arith
strip_slash-plain (c ∷ d ∷ s) (p, a) = rw (strip_slash-plain (d ∷ s) a, strip_slash) refl

strip_slash-behind :
    (s : Str) (d : ℕ) (t : Str) → strip_slash (d ∷ t) ≡ none → strip_slash (s ++ d ∷ t) ≡ none
unfolding strip_slash
strip_slash-behind [] d t h = h
strip_slash-behind (c ∷ []) d t h = rw (h, strip_slash) refl
strip_slash-behind (c ∷ e ∷ s) d t h = rw (strip_slash-behind (e ∷ s) d t h, strip_slash) refl

-- A path of parts starts with a plain character and does not end with a slash.
abbrev Shape : Str → Type 0
Shape t = (d : ℕ) × (rest : Str) × (t ≡ d ∷ rest) × IsPlain d

join_slash-Shape :
    (part : Str) (parts : List Str) → All IsPart (part ∷ parts) → Shape (join_slash (part ∷ parts))
unfolding join_slash
join_slash-Shape [] parts (p, a) = absurd p
join_slash-Shape (c ∷ s) [] (p, a) = (c, s, refl, p.0)
join_slash-Shape (c ∷ s) (next ∷ parts) (p, a) = (c, _, refl, p.0)

strip_slash-join_slash :
    (part : Str) (parts : List Str)
    → All IsPart (part ∷ parts)
    → strip_slash (join_slash (part ∷ parts)) ≡ none
unfolding join_slash strip_slash
strip_slash-join_slash part [] (p, a) = strip_slash-plain part (All-IsPart part p)
strip_slash-join_slash part (next ∷ parts) (p, a) =
    let (d, rest, e, q) = join_slash-Shape next parts a in
    strip_slash-behind part b'/' (join_slash (next ∷ parts))
      (rw e (rw (rw e at (strip_slash-join_slash next parts a), strip_slash) refl))

contains-append :
    (c : ℕ) (s t : Str) → contains c s ≡ false → contains c t ≡ false → contains c (s ++ t) ≡ false
contains-append c [] t h k = k
contains-append c (d ∷ s) t h k = ground (arith, contains-append c s t)

contains-plain : (s : Str) → All IsPlain s → contains b'?' s ≡ false
contains-plain [] a = refl
contains-plain (c ∷ s) (p, a) = ground (arith, contains-plain s a)

contains-join_slash :
    (part : Str) (parts : List Str)
    → All IsPart (part ∷ parts)
    → contains b'?' (join_slash (part ∷ parts)) ≡ false
unfolding join_slash
contains-join_slash part [] (p, a) = contains-plain part (All-IsPart part p)
contains-join_slash part (next ∷ parts) (p, a) =
    contains-append b'?' part _ (contains-plain part (All-IsPart part p))
      (contains-join_slash next parts a)

part_of : (t : Str) → t ≢ [] → All IsPlain t → IsPart t
part_of [] h a = absurd (h refl)
part_of (c ∷ t) h a = a

not_empty : (t : Str) → t ≢ [] → str_eq t [] ≡ false
not_empty [] h = absurd (h refl)
not_empty (c ∷ t) h = refl

no_lead : (d : ℕ) (t : Str) → IsPlain d → is_some (strip_prefix (b'/' ∷ []) (d ∷ t)) ≡ false
no_lead d t p = ground arith

module _ (percent_encode : Str → Str) (percent_decode : Str → Option Str)
    (decode-encode : (s : Str) → percent_decode (percent_encode s) ≡ some s)
    (encode-IsPlain : (s : Str) → All IsPlain (percent_encode s))
    (encode_nonempty : (s : Str) → s ≢ [] → percent_encode s ≢ []) where
  safe_nonempty : (s : Str) → IsAccepted s → s ≢ []
  unfolding is_bad_segment
  safe_nonempty s h e = absurd (ground (arith, subst IsAccepted e h))

  encode-IsPart : (s : Str) → IsAccepted s → IsPart (percent_encode s)
  encode-IsPart s h =
      part_of (percent_encode s) (encode_nonempty s (safe_nonempty s h)) (encode-IsPlain s)

  encoded :
      (segments : FilePath) → All IsAccepted segments → All IsPart (map percent_encode segments)
  encoded [] a = tt
  encoded (s ∷ segments) (h, a) = (encode-IsPart s h, encoded segments a)

  decode_parts-encode :
      (segments : FilePath)
      → All IsAccepted segments
      → decode_parts percent_decode (map percent_encode segments) ≡ some segments
  unfolding decode_parts
  decode_parts-encode [] a = refl
  decode_parts-encode (s ∷ segments) (h, a) =
      let there : str_eq (percent_encode s) [] ≡ false =
        not_empty (percent_encode s) (encode_nonempty s (safe_nonempty s h)) in
      rw there (rw (decode-encode s) (rw h (rw (decode_parts-encode segments a) refl)))

  parts_of-href :
      (segment : Str) (segments : FilePath)
      → All IsAccepted (segment ∷ segments)
      → parts_of percent_decode (join_slash (map percent_encode (segment ∷ segments)))
        ≡ some (segment ∷ segments)
  unfolding parts_of
  parts_of-href segment segments a =
      let ps = encoded (segment ∷ segments) a in
      let first = percent_encode segment in
      let (d, rest, e, q) = join_slash-Shape first (map percent_encode segments) ps in
      let there : str_eq (join_slash (first ∷ map percent_encode segments)) [] ≡ false =
        rw e refl in
      rw there (
        rw (split-join_slash first (map percent_encode segments) ps)
          (decode_parts-encode (segment ∷ segments) a))

  -- A link on the page of a directory leads where it says: its path is decoded to the segments it
  -- was made of, of which none is refused, and ends with a slash exactly for a directory, if the
  -- percent coding is reversible and leaves no slash and no question mark.
  pub directory_segments-href :
      (segment : Str) (segments : FilePath) (is_dir : Bool)
      → All IsAccepted (segment ∷ segments)
      → directory_segments percent_decode
          (web_directory_href percent_encode (segment ∷ segments) is_dir)
        ≡ some (segment ∷ segments, is_dir)
  unfolding directory_segments web_directory_href
  directory_segments-href segment segments true a =
      let ps = encoded (segment ∷ segments) a in
      let t = join_slash (map percent_encode (segment ∷ segments)) in
      let (d, rest, e, q) =
        join_slash-Shape (percent_encode segment) (map percent_encode segments) ps in
      let lead : is_some (strip_prefix (b'/' ∷ []) (t ++ b'/' ∷ [])) ≡ false =
        rw e (no_lead d _ q) in
      let query =
        contains-append b'?' t (b'/' ∷ [])
          (contains-join_slash (percent_encode segment) (map percent_encode segments) ps) refl in
      rw lead (
        rw query (
          rw (strip_slash-append t, directory_segments)
            (rw (parts_of-href segment segments a) refl)))
  directory_segments-href segment segments false a =
      let ps = encoded (segment ∷ segments) a in
      let t = join_slash (map percent_encode (segment ∷ segments)) in
      let (d, rest, e, q) =
        join_slash-Shape (percent_encode segment) (map percent_encode segments) ps in
      let lead : is_some (strip_prefix (b'/' ∷ []) t) ≡ false = rw e (no_lead d _ q) in
      let query = contains-join_slash (percent_encode segment) (map percent_encode segments) ps in
      let open_end =
        strip_slash-join_slash (percent_encode segment) (map percent_encode segments) ps in
      let href = web_directory_href percent_encode (segment ∷ segments) false in
      let read : parts_of percent_decode href ≡ some (segment ∷ segments) =
        rw (append-nil t) (parts_of-href segment segments a) in
      rw (append-nil t) (rw lead (rw query (rw (open_end, directory_segments) (rw read refl))))
