-- ===== src/Http/Escape.antt =====
-- The escaping of text in the pages and headers of src/web/http.rs and src/web/dav.rs.
use ii.Prelude.{
  ℕ, ◌≡◌, ◌≢◌, ◌∙◌, refl, Bool, ◌||◌, [], ◌∷◌, ◌++◌, arith, append_assoc, append-nil, Bool-cases,
  inl, inr, if◌then◌else◌, ◌==◌, All,
}
use ii.Prelude.Text.{Str, codes}

-- `replace` of a character by a text.
unfoldable pub replace : ℕ → Str → Str → Str
replace c text [] = []
replace c text (d ∷ s) = (if d == c then text else d ∷ []) ++ replace c text s

unfoldable pub html_escape : Str → Str
html_escape value =
    replace b'"' (codes "&quot;") (
      replace b'>' (codes "&gt;")
        (replace b'<' (codes "&lt;") (replace b'&' (codes "&amp;") value)))

unfoldable pub xml_escape : Str → Str
xml_escape value = replace b'\'' (codes "&apos;") (html_escape value)

is_unsafe : ℕ → Bool
is_unsafe c = c == 13 || c == 10 || c == b'\\' || c == b'"'

-- `replace` of a set of characters by an underscore.
unfoldable pub content_disposition_name : Str → Str
unfolding is_unsafe
content_disposition_name [] = []
content_disposition_name (c ∷ name) =
    (if is_unsafe c then b'_' else c) ∷ content_disposition_name name

replace-append :
    (c : ℕ) (text s t : Str) → replace c text (s ++ t) ≡ replace c text s ++ replace c text t
unfolding replace
replace-append c text [] t = refl
replace-append c text (d ∷ s) t = simp (replace-append c text s, append_assoc)

-- What a character is escaped as.
abbrev entity : ℕ → Str
entity c =
    if c == b'&'
    then codes "&amp;"
    else if c == b'<'
    then codes "&lt;"
    else if c == b'>'
    then codes "&gt;"
    else if c == b'"'
    then codes "&quot;"
    else if c == b'\''
    then codes "&apos;"
    else c ∷ []

abbrev entities : Str → Str
entities [] = []
entities (c ∷ s) = entity c ++ entities s

xml_escape-append : (s t : Str) → xml_escape (s ++ t) ≡ xml_escape s ++ xml_escape t
unfolding xml_escape html_escape
xml_escape-append s t = simp replace-append

replace_one : (c d : ℕ) (text : Str) → replace c text (d ∷ []) ≡ (if d == c then text else d ∷ [])
unfolding replace
replace_one c d text = append-nil _

-- A character that is not the first one replaced goes through that replacement unchanged.
xml_escape-entity : (c : ℕ) → xml_escape (c ∷ []) ≡ entity c
unfolding xml_escape html_escape
xml_escape-entity c = rw (replace_one b'&' c) (elim (Bool-cases (c == b'&')) [
  | inl e ↦ rw e (unfold replace in refl)
  | inr e ↦ rw e (
      rw (replace_one b'<' c) (elim (Bool-cases (c == b'<')) [
        | inl f ↦ rw f (unfold replace in refl)
        | inr f ↦ rw f (
            rw (replace_one b'>' c) (elim (Bool-cases (c == b'>')) [
              | inl g ↦ rw g (unfold replace in refl)
              | inr g ↦ rw g (
                  rw (replace_one b'"' c) (elim (Bool-cases (c == b'"')) [
                    | inl h ↦ rw h (unfold replace in refl)
                    | inr h ↦ rw h (replace_one b'\'' c (codes "&apos;"))
                  ]))
            ]))
      ]))
])

-- The five replacements one after the other do what one pass does that replaces every character by
-- its entity: no replacement touches what an earlier one wrote.
xml_escape-entities : (s : Str) → xml_escape s ≡ entities s
xml_escape-entities [] = unfold xml_escape html_escape replace in refl
xml_escape-entities (c ∷ s) =
    xml_escape-append (c ∷ []) s ∙ (rw xml_escape-entity (rw (xml_escape-entities s) refl))

-- A character that neither ends a quoted text of a header nor its line, nor quotes another one.
abbrev IsQuotable : ℕ → Type 0
IsQuotable c = (c ≢ 13) × (c ≢ 10) × (c ≢ b'\\') × (c ≢ b'"')

-- A file name in a Content-Disposition header neither ends the quoted text nor the line.
content_disposition_name-IsQuotable : (name : Str) → All IsQuotable (content_disposition_name name)
unfolding content_disposition_name
content_disposition_name-IsQuotable [] = tt
content_disposition_name-IsQuotable (c ∷ name) =
    (ground arith, content_disposition_name-IsQuotable name)
