-- ===== src/WebRtc/Query.antt =====
-- What src/web/webrtc.rs reads from the path of a request.
use ii.Prelude.{ℕ, Option, none, some, List, [], ◌∷◌, if◌then◌else◌, ◌==◌, and_then}
use ii.Prelude.Text.{Str, codes, str_eq, split, split_once, strip_prefix}
use ii.Prelude.Number.{parse_uint, max_u64}

unfoldable pub parse_webrtc_peer_id : Str → Option ℕ
parse_webrtc_peer_id value =
    and_then (parse_uint max_u64 value) λ peer_id. if peer_id == 0 then none else some peer_id

unfoldable pub webrtc_single_peer_path : Str → Str → Option ℕ
webrtc_single_peer_path path endpoint =
    and_then (strip_prefix endpoint path)
      λ rest. and_then (strip_prefix (codes "?id=") rest) parse_webrtc_peer_id

-- The end of `webrtc_signal_path`: both are there, and they differ.
abbrev distinct : Option ℕ → Option ℕ → Option (ℕ × ℕ)
distinct none to = none
distinct (some from) none = none
distinct (some from) (some to) = if from == to then none else some (from, to)

-- `replace`, refused where there is a value already.
abbrev fresh : Option ℕ → Str → Option ℕ
fresh old value =
    and_then (parse_webrtc_peer_id value) λ id. elim old [ none ↦ some id | some other ↦ none ]

-- The loop of `webrtc_signal_path`.
unfoldable pub signal_parts : List Str → Option ℕ → Option ℕ → Option (ℕ × ℕ)
signal_parts [] from to = distinct from to
signal_parts (part ∷ parts) from to = and_then (split_once b'=' part) λ pair.
    if str_eq pair.0 (codes "from")
    then and_then (fresh from pair.1) (λ id. signal_parts parts (some id) to)
    else if str_eq pair.0 (codes "to")
    then and_then (fresh to pair.1) (λ id. signal_parts parts from (some id))
    else none

unfoldable pub webrtc_signal_path : Str → Option (ℕ × ℕ)
unfolding signal_parts
webrtc_signal_path path =
    and_then (strip_prefix (codes "signal?") path)
      λ query. signal_parts (split b'&' query) none none
