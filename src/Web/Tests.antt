-- ===== src/Web/Tests.antt =====
-- Runs of src/web/directory.rs on small files, and instances of the theorems.
use ii.Prelude.{
  ℕ, ◌≡◌, refl, true, false, Option, none, some, [], ◌∷◌, All, arith, length, ◌≢◌, ap, ◌+◌, ◌-◌,
}
use ii.Prelude.Text.{Str, Bytes, codes}
use ii.Prelude.Number.{to_string, parse_uint}
use ii.Http.Request.{ranged}
use ii.Dav.Path.{FilePath, is_bad_segment}
use ii.Web.Range.{
  FileAnswer, partial, suffix_range, range_to, spec_range, web_file_range, answer_range,
  write_web_file,
}
use ii.Web.Range.Slices.{Proper, write_web_file_bounds}
use ii.Web.Range.Forms.{header, web_file_range_forms}
use ii.Web.Target.{
  strip_slash, web_directory_href, decode_parts, directory_segments, web_directory_target,
}
use ii.Web.Target.Links.{IsAccepted, IsPlain, directory_segments-href}
use ii.Web.Directory.{
  WebFiles, extension, web_file_content_type, file, file_answer, write_directory,
}
use ii.Web.Directory.Inside.{SentFile, write_directory-SentFile}

abbrev content : Bytes
content = codes "0123456789"

write_web_file_bounds_example :
    Proper 10 (web_file_range (ranged (codes "bytes=2-4")) 10)
    × (length (write_web_file (codes "text") content 10 (ranged (codes "bytes=2-4")) false).body
        ≡ (write_web_file
            (codes "text")
            content
            10
            (ranged (codes "bytes=2-4"))
            false).content_length)
write_web_file_bounds_example =
    write_web_file_bounds (codes "text") content 10 (ranged (codes "bytes=2-4")) refl

web_file_range_forms_example :
    web_file_range (ranged (header (to_string 2) (to_string 40))) 10 ≡ partial 2 9
web_file_range_forms_example =
    (web_file_range_forms 2 40 3 10 (omega arith) (omega arith) (omega arith) (omega arith)
      (omega arith)).0

three_bytes :
    (write_web_file (codes "text") content 10 (ranged (codes "bytes=2-4")) false).body ≡ codes "234"
unfolding write_web_file answer_range web_file_range spec_range range_to suffix_range parse_uint
three_bytes = refl

-- A coding of text that leaves no slash and no question mark.
abbrev shifted : Str → Str
shifted [] = []
shifted (c ∷ s) = (c + 64) ∷ shifted s

abbrev unshifted : Str → Str
unshifted [] = []
unshifted (c ∷ s) = (c - 64) ∷ unshifted s

abbrev decoded : Str → Option Str
decoded s = some (unshifted s)

unshifted-shifted : (s : Str) → unshifted (shifted s) ≡ s
unshifted-shifted [] = refl
unshifted-shifted (c ∷ s) = ground (arith, unshifted-shifted s)

shifted-IsPlain : (s : Str) → All IsPlain (shifted s)
shifted-IsPlain [] = tt
shifted-IsPlain (c ∷ s) =
    ((λ e. absurd (omega arith), λ e. absurd (omega arith)), shifted-IsPlain s)

shifted_nonempty : (s : Str) → s ≢ [] → shifted s ≢ []
shifted_nonempty [] h e = h refl
shifted_nonempty (c ∷ s) h e = cc

abbrev song : FilePath
song = codes "music" ∷ codes "a song?" ∷ []

song-IsAccepted : All IsAccepted song
unfolding is_bad_segment
song-IsAccepted = (refl, (refl, tt))

directory_segments-href_example :
    directory_segments decoded (web_directory_href shifted song false) ≡ some (song, false)
directory_segments-href_example =
    directory_segments-href shifted decoded (λ s. ap (λ t. some t) (unshifted-shifted s))
      shifted-IsPlain shifted_nonempty (codes "music") (codes "a song?" ∷ []) false song-IsAccepted

-- A file system with one file, to which every path leads.
abbrev one_file : WebFiles
one_file = record {
  canonicalize = λ path. some path;
  metadata = λ path. some (record { is_dir = false; is_file = true; len = 10; modified = none });
  read_dir = λ path. none;
  open_file = λ path. some content;
}

abbrev plain : Str → Option Str
plain s = some s

abbrev same : Str → Str
same s = s

abbrev size_text : ℕ → Str
size_text n = to_string n

abbrev root : FilePath
root = codes "srv" ∷ []

abbrev answer : FileAnswer
answer =
    write_web_file (codes "application/octet-stream") content 10 (ranged (codes "bytes=2-4")) false

file_is_sent :
    write_directory one_file size_text same plain [] [] root none
      (codes "a.bin")
      (codes "/a.bin")
      (ranged (codes "bytes=2-4"))
      false
      false
    ≡ file answer
unfolding write_directory file_answer web_directory_target directory_segments strip_slash
    decode_parts is_bad_segment web_file_content_type extension
file_is_sent = refl

write_directory-SentFile_example :
    SentFile plain one_file root (codes "a.bin") (ranged (codes "bytes=2-4")) false answer
write_directory-SentFile_example =
    write_directory-SentFile one_file size_text same plain [] [] root none (codes "a.bin")
      (codes "/a.bin") (ranged (codes "bytes=2-4")) false false answer file_is_sent
