-- ===== src/Web/Directory/Inside.antt =====
-- The files that src/web/directory.rs sends.
use ii.Prelude.{
  ◌≡◌, Bool, true, false, Option, some, ◌++◌, arith, List, [], ◌∷◌, ◌||◌, ◌⊎◌, is_some, subst,
  Bool-cases, Option-cases, inl, inr, ℕ,
}
use ii.Prelude.Text.{Str, Bytes, str_eq, str_eq_sound, split, strip_prefix, contains}
use ii.Http.Request.{WebRange}
use ii.Dav.Path.{FilePath, starts_with, is_bad_segment}
use ii.Web.Range.{FileAnswer, write_web_file}
use ii.Web.Target.{directory_segments, decode_parts, parts_of, strip_slash, web_directory_target}
use ii.Web.Directory.{Metadata, WebFiles, web_file_content_type, file_answer, file, write_directory}

module _ (percent_decode : Str → Option Str) where
  -- The segments are what the parts stand for, one by one.
  abbrev Names : List Str → FilePath → Type 0
  Names [] [] = Unit
  Names [] (segment ∷ segments) = ⊥
  Names (part ∷ parts) [] = ⊥
  Names (part ∷ parts) (segment ∷ segments) =
      (percent_decode part ≡ some segment) × Names parts segments

  -- The segments between the slashes of the path; the empty path has none.
  abbrev pub IsPathOf : Str → FilePath → Type 0
  IsPathOf path segments = ((path ≡ []) × (segments ≡ [])) ⊎ Names (split b'/' path) segments

  decode_parts-Names :
      (parts : List Str) (segments : FilePath)
      → decode_parts percent_decode parts ≡ some segments
      → Names parts segments
  unfolding decode_parts
  decode_parts-Names [] [] h = tt
  decode_parts-Names [] (segment ∷ segments) h = absurd (ground arith)
  decode_parts-Names (part ∷ parts) segments h = elim (Bool-cases (str_eq part [])) [
    | inl e ↦ absurd (ground arith)
    | inr e ↦ elim (Option-cases (percent_decode part)) [
      | inl f ↦ absurd (ground arith)
      | inr (segment, f) ↦ elim (Bool-cases (is_bad_segment segment)) [
        | inl g ↦ absurd (ground arith)
        | inr g ↦ elim (Option-cases (decode_parts percent_decode parts)) [
          | inl k ↦ absurd (ground arith)
          | inr (rest, k) ↦
              let same : segment ∷ rest ≡ segments = ground arith in
              subst (Names (part ∷ parts)) same (f, decode_parts-Names parts rest k)
        ]
      ]
    ]
  ]

  parts_of-IsPathOf :
      (path : Str) (segments : FilePath)
      → parts_of percent_decode path ≡ some segments
      → IsPathOf path segments
  unfolding parts_of
  parts_of-IsPathOf path segments h = elim (Bool-cases (str_eq path [])) [
    | inl f ↦ inl (str_eq_sound path [] f, ground arith)
    | inr f ↦ inr (decode_parts-Names (split b'/' path) segments (rw (f, parts_of) at h))
  ]

  directory_segments-IsPathOf :
      (path : Str) (segments : FilePath)
      → directory_segments percent_decode path ≡ some (segments, false)
      → IsPathOf path segments
  unfolding directory_segments
  directory_segments-IsPathOf path segments h =
      elim (Bool-cases (is_some (strip_prefix (b'/' ∷ []) path) || contains b'?' path)) [
        | inl bad ↦ let h1 = rw (bad, directory_segments) at h in absurd (ground arith)
        | inr good ↦
            let h1 = rw (good, directory_segments) at h in
            elim (Option-cases (strip_slash path)) [
              | inr (rest, e) ↦
                  let h2 = rw (e, directory_segments) at h1 in
                  elim (Option-cases (parts_of percent_decode rest)) [
                    | inl f ↦ let h3 = rw f at h2 in absurd (ground arith)
                    | inr (found, f) ↦ let h3 = rw f at h2 in absurd (ground arith)
                  ]
              | inl e ↦
                  let h2 = rw (e, directory_segments) at h1 in
                  elim (Option-cases (parts_of percent_decode path)) [
                    | inl f ↦ let h3 = rw f at h2 in absurd (ground arith)
                    | inr (found, f) ↦
                        let h3 = rw f at h2 in
                        let same : found ≡ segments = ground arith in
                        subst (IsPathOf path) same (parts_of-IsPathOf path found f)
                  ]
            ]
      ]

web_directory_target_inside :
    (percent_decode : Str → Option Str) (canonicalize : FilePath → Option FilePath)
    (root target segments : FilePath) (slash : Bool) (path : Str)
    → web_directory_target percent_decode canonicalize root path ≡ some (target, segments, slash)
    → (starts_with target root ≡ true)
      × (canonicalize (root ++ segments) ≡ some target)
      × (directory_segments percent_decode path ≡ some (segments, slash))
unfolding web_directory_target
web_directory_target_inside percent_decode canonicalize root target segments slash path h =
    elim (Option-cases (directory_segments percent_decode path)) [
      | inl e ↦ absurd (ground arith)
      | inr (found, e) ↦ elim (Option-cases (canonicalize (root ++ found.0))) [
        | inl f ↦ absurd (ground arith)
        | inr (t, f) ↦ elim (Bool-cases (starts_with t root)) [
          | inl g ↦
              let same : target ≡ t = ground arith in
              let named : segments ≡ found.0 = ground arith in
              let ended : slash ≡ found.1 = ground arith in rw same (rw named (rw ended (g, f, e)))
          | inr g ↦ absurd (ground arith)
        ]
      ]
    ]

-- What a request for a file is answered with: the file that stands at the segments of its path,
-- which lies inside the root.
abbrev pub SentFile :
    (Str → Option Str) → WebFiles → FilePath → Str → WebRange → Bool → FileAnswer → Type 0
SentFile percent_decode fs root path range head answer =
    (target : FilePath) × (segments : FilePath) × (metadata : Metadata) × (content : Bytes)
    × IsPathOf percent_decode path segments
    × (starts_with target root ≡ true)
    × (fs.canonicalize (root ++ segments) ≡ some target)
    × (fs.metadata target ≡ some metadata)
    × (fs.open_file target ≡ some content)
    × (answer ≡ write_web_file (web_file_content_type target) content metadata.len range head)

module _ (fs : WebFiles) (fmt_bytes : ℕ → Str) (percent_encode : Str → Str)
    (percent_decode : Str → Option Str) (page_head html_controls : Str) where
  file_answer_lem :
      (root target segments : FilePath) (slash : Bool) (path : Str) (metadata : Metadata)
      (range : WebRange) (head : Bool) (answer : FileAnswer)
      → directory_segments percent_decode path ≡ some (segments, slash)
      → starts_with target root ≡ true
      → fs.canonicalize (root ++ segments) ≡ some target
      → fs.metadata target ≡ some metadata
      → file_answer fs fmt_bytes percent_encode percent_decode page_head html_controls target slash
          metadata range head
        ≡ file answer
      → SentFile percent_decode fs root path range head answer
  unfolding file_answer
  file_answer_lem root target segments true path metadata range head answer d i c m h =
      absurd (ground arith)
  file_answer_lem root target segments false path metadata range head answer d i c m h =
      elim (Option-cases (fs.open_file target)) [
        | inl e ↦ absurd (ground arith)
        | inr (content, e) ↦
            let sent : answer
                ≡ write_web_file (web_file_content_type target) content metadata.len range head =
              ground arith in
            (
              target,
              segments,
              metadata,
              content,
              directory_segments-IsPathOf percent_decode path segments d,
              i,
              c,
              m,
              e,
              sent,
            )
      ]

  -- A request that is answered by a file, whatever its path and whatever links the file system
  -- resolves, is sent the file whose path, below the root, is made of what the parts of the path
  -- between its slashes stand for, with all links resolved; the file lies inside the root, and is
  -- cut to the range that the request asks for.
  pub write_directory-SentFile :
      (root : FilePath) (token : Option Str) (path request_target : Str) (range : WebRange)
      (head upload_enabled : Bool) (answer : FileAnswer)
      → write_directory fs fmt_bytes percent_encode percent_decode page_head html_controls root
          token path request_target range head upload_enabled
        ≡ file answer
      → SentFile percent_decode fs root path range head answer
  unfolding write_directory
  write_directory-SentFile root token path request_target range head upload_enabled answer h =
      elim (Option-cases (web_directory_target percent_decode fs.canonicalize root path)) [
        | inl e ↦ absurd (ground arith)
        | inr ((target, segments, slash), e) ↦
            let (within, canonical, named) =
              web_directory_target_inside percent_decode fs.canonicalize root target segments slash
                path e in
            let h1 = rw (e, write_directory) at h in
            elim (Option-cases (fs.metadata target)) [
              | inl f ↦ absurd (ground arith)
              | inr (metadata, f) ↦
                  let h2 = rw (f, write_directory) at h1 in
                  elim (Bool-cases metadata.is_dir) [
                    | inr g ↦
                        file_answer_lem root target segments slash path metadata range head answer
                          named within canonical f (rw g at h2)
                    | inl g ↦ absurd (ground arith)
                  ]
            ]
      ]
