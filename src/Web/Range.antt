-- ===== src/Web/Range.antt =====
-- The ranges of a file in src/web/directory.rs, and the answer that sends a file.
pub mod Slices
pub mod Forms
use ii.Prelude.{
  ℕ, ◌+◌, ◌-◌, Bool, true, false, ◌||◌, none, some, [], ◌++◌, if◌then◌else◌, ltb, leb, ◌==◌, take,
  drop,
}
use ii.Prelude.Text.{Str, Bytes, codes, str_eq, contains, split_once, strip_prefix}
use ii.Prelude.Number.{parse_uint, max_u64, to_string}
use ii.Http.Request.{WebRange, absent, ranged, invalid}

pub data WebFileRange : Type 0 where
  full : WebFileRange
  partial : ℕ → ℕ → WebFileRange
  unsatisfiable : WebFileRange

abbrev pub min : ℕ → ℕ → ℕ
min a b = if leb a b then a else b

-- `bytes=-n`: the last n bytes.
unfoldable pub suffix_range : Str → ℕ → WebFileRange
suffix_range end size = elim (parse_uint max_u64 end) [
  | none ↦ unsatisfiable
  | some suffix ↦ if suffix == 0 then unsatisfiable else partial (size - suffix) (size - 1)
]

-- The end of a range that starts at a byte of the file.
unfoldable pub range_to : ℕ → Str → ℕ → WebFileRange
range_to start end size =
    if str_eq end [] then partial start (size - 1) else elim (parse_uint max_u64 end) [
      | none ↦ unsatisfiable
      | some last ↦ if ltb last start then unsatisfiable else partial start (min last (size - 1))
    ]

unfoldable pub spec_range : Str → Str → ℕ → WebFileRange
unfolding suffix_range range_to
spec_range start end size =
    if str_eq start [] then suffix_range end size else elim (parse_uint max_u64 start) [
      | none ↦ unsatisfiable
      | some first ↦ if leb size first then unsatisfiable else range_to first end size
    ]

unfoldable pub web_file_range : WebRange → ℕ → WebFileRange
unfolding spec_range
web_file_range absent size = full
web_file_range invalid size = unsatisfiable
web_file_range (ranged value) size = elim (strip_prefix (codes "bytes=") value) [
  | none ↦ unsatisfiable
  | some spec ↦
      if size == 0 || contains b',' spec then unsatisfiable else elim (split_once b'-' spec) [
        | none ↦ unsatisfiable
        | some (start, end) ↦ spec_range start end size
      ]
]

-- What is sent: the head in its parts, and the bytes behind it.
pub record FileAnswer : Type 0 where
  pub status : Str
  pub content_type : Str
  pub headers : Str
  pub content_length : ℕ
  pub body : Bytes

abbrev content_range : Str → ℕ → Str
content_range span size =
    codes "Content-Range: bytes " ++ span ++ codes "/" ++ to_string size ++ codes "\r\n"

abbrev accept_ranges : Str
accept_ranges = codes "Accept-Ranges: bytes\r\n"

-- What a seek to `start` and a copy of at most `length` bytes send, unless only the head is asked.
abbrev slice : Bool → ℕ → ℕ → Bytes → Bytes
slice true start length content = []
slice false start length content = take length (drop start content)

unfoldable pub answer_range : Str → Bytes → ℕ → Bool → WebFileRange → FileAnswer
answer_range content_type content size head full = record {
  status = codes "200 OK";
  content_type = content_type;
  headers = accept_ranges;
  content_length = size;
  body = slice head 0 size content;
}
answer_range content_type content size head (partial start end) = record {
  status = codes "206 Partial Content";
  content_type = content_type;
  headers = accept_ranges ++ content_range (to_string start ++ codes "-" ++ to_string end) size;
  content_length = end - start + 1;
  body = slice head start (end - start + 1) content;
}
answer_range content_type content size head unsatisfiable = record {
  status = codes "416 Range Not Satisfiable";
  content_type = codes "text/plain; charset=utf-8";
  headers = accept_ranges ++ content_range (codes "*") size;
  content_length = 0;
  body = [];
}

-- `size` is the length that the metadata gave before the file was opened.
unfoldable pub write_web_file : Str → Bytes → ℕ → WebRange → Bool → FileAnswer
unfolding answer_range
write_web_file content_type content size range head =
    answer_range content_type content size head (web_file_range range size)
