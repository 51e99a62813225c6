-- ===== src/Cli/Valid.antt =====
-- The options of `send` that go together, said without an order of checks, and `validate_send` of
-- src/cli/common.rs, which accepts these and no others.
use ii.Prelude.{
  ◌≡◌, ◌↔◌, ◌⊎◌, refl, Bool, true, false, not, ◌&&◌, ◌||◌, none, [], any, ltb, is_some, is_some_and,
  ok, arith, Bool-cases, inl, inr,
}
use ii.Prelude.Text.{Str}
use ii.Cli.Options.{
  follow, SendArgs, is_empty, is_follow, count, backends, is_insecure, is_bad_token, send_checks,
  validate_send,
}
use ii.Cli.Counting.{
  AtMostOne, first_error_iff, count-AtMostOne, count_le_one, and_false, is_empty-eq, is_some-none,
  is_follow-eq,
}

-- What --web needs, and what needs it.
abbrev WebAlone : {Url : Type 0} → SendArgs Url → Type 0
WebAlone a =
    (a.web ≡ true)
    × (is_some a.path ≡ true)
    × (a.extra_paths ≡ [])
    × (a.include_globs ≡ [])
    × (a.exclude_globs ≡ [])
    × (a.preserve_metadata ≡ false)
    × (a.symlinks ≡ follow)
    × (a.copy ≡ false)
    × (a.output ≡ none)
    × (a.quic_port ≡ none)

abbrev NoWeb : {Url : Type 0} → SendArgs Url → Type 0
NoWeb a =
    (a.web ≡ false)
    × (a.web_token ≡ none)
    × (a.web_upload ≡ false)
    × (a.web_upload_dir ≡ none)
    × (a.web_port ≡ none)
    × (a.web_bind ≡ none)

module _ {Url : Type 0} (scheme : Url → Str) where
  -- The options that may be given together.
  abbrev pub IsValid : SendArgs Url → Type 0
  IsValid a =
      AtMostOne (backends scheme a)
      × ((a.portable_webdav ≡ false) ⊎ ((a.webdav || a.ftp || a.sftp) ≡ true))
      × ((a.accept_self_signed_relay ≡ false)
          ⊎ ((is_empty a.relay ≡ false) × (any (is_insecure scheme) a.relay ≡ false)))
      × ((a.preserve_metadata ≡ false) ⊎ ((is_some a.path ≡ true) × (a.extra_paths ≡ [])))
      × ((a.quic_port ≡ none)
          ⊎ ((a.s3 || a.r2 || a.azure || a.webdav || a.ftp || a.sftp || a.web) ≡ false))
      × (WebAlone a ⊎ NoWeb a)
      × (is_some_and a.web_token is_bad_token ≡ false)

  web_options_sound :
      (a : SendArgs Url)
      → (a.web && not (is_some a.path)) ≡ false
      → (a.web && not (is_empty a.extra_paths)) ≡ false
      → (a.web && (not (is_empty a.include_globs) || not (is_empty a.exclude_globs))) ≡ false
      → (a.web && a.preserve_metadata) ≡ false
      → (a.web && not (is_follow a.symlinks)) ≡ false
      → (is_some a.quic_port && (a.s3 || a.r2 || a.azure || a.webdav || a.ftp || a.sftp || a.web))
        ≡ false
      → (a.web && (a.copy || is_some a.output)) ≡ false
      → (is_some a.web_token && not a.web) ≡ false
      → (a.web_upload && not a.web) ≡ false
      → (is_some a.web_upload_dir && not a.web) ≡ false
      → (is_some a.web_port && not a.web) ≡ false
      → (is_some a.web_bind && not a.web) ≡ false
      → WebAlone a ⊎ NoWeb a
  web_options_sound a e1 e2 e3 e4 e5 e6 e7 e8 e9 e10 e11 e12 = elim (Bool-cases a.web) [
    | inl w ↦ inl (
      w,
      ground arith,
      is_empty-eq a.extra_paths (ground arith),
      is_empty-eq a.include_globs (ground arith),
      is_empty-eq a.exclude_globs (ground arith),
      ground arith,
      is_follow-eq a.symlinks (ground arith),
      ground arith,
      is_some-none a.output (ground arith),
      is_some-none a.quic_port (ground arith),
    )
    | inr w ↦ inr (
      w,
      is_some-none a.web_token (ground arith),
      ground arith,
      is_some-none a.web_upload_dir (ground arith),
      is_some-none a.web_port (ground arith),
      is_some-none a.web_bind (ground arith),
    )
  ]

  preserve_sound :
      (a : SendArgs Url)
      → (a.preserve_metadata && (not (is_some a.path) || not (is_empty a.extra_paths))) ≡ false
      → (a.preserve_metadata ≡ false) ⊎ ((is_some a.path ≡ true) × (a.extra_paths ≡ []))
  preserve_sound a e = elim (Bool-cases a.preserve_metadata) [
    | inr p ↦ inl p
    | inl p ↦ inr (ground arith, is_empty-eq a.extra_paths (ground arith))
  ]

  quic_sound :
      (a : SendArgs Url) (b : Bool)
      → (is_some a.quic_port && b) ≡ false
      → (a.quic_port ≡ none) ⊎ (b ≡ false)
  quic_sound a b e = elim (Bool-cases b) [
    | inr p ↦ inr p
    | inl p ↦ inl (is_some-none a.quic_port (ground arith))
  ]

  portable_sound :
      (a : SendArgs Url)
      → (a.portable_webdav && not a.webdav && not a.ftp && not a.sftp) ≡ false
      → (a.portable_webdav ≡ false) ⊎ ((a.webdav || a.ftp || a.sftp) ≡ true)
  portable_sound a e = elim (Bool-cases a.portable_webdav) [
    | inr p ↦ inl p
    | inl p ↦ inr (ground arith)
  ]

  relay_sound :
      (a : SendArgs Url)
      → (a.accept_self_signed_relay && is_empty a.relay) ≡ false
      → (a.accept_self_signed_relay && any (is_insecure scheme) a.relay) ≡ false
      → (a.accept_self_signed_relay ≡ false)
        ⊎ ((is_empty a.relay ≡ false) × (any (is_insecure scheme) a.relay ≡ false))
  relay_sound a e f = elim (Bool-cases a.accept_self_signed_relay) [
    | inr p ↦ inl p
    | inl p ↦ inr (ground arith, ground arith)
  ]

  validate_send_sound :
      (help : Str) (a : SendArgs Url) → validate_send scheme help a ≡ ok tt → IsValid a
  unfolding validate_send send_checks
  validate_send_sound help a h =
      let (
        e0,
        (
          e1,
          (
            e2,
            (
              e3,
              (
                w1,
                (w2, (w3, (w4, (w5, (e4, (e5, (w6, (w7, (w8, (w9, (w10, (w11, (e6, _))))))))))))),
              ),
            ),
          ),
        ),
      ) =
        (first_error_iff help (send_checks scheme a)).0 h in
      (
        count-AtMostOne (backends scheme a) (ground arith),
        portable_sound a e1,
        relay_sound a e2 e3,
        preserve_sound a e4,
        quic_sound a _ e5,
        web_options_sound a w1 w2 w3 w4 w5 e5 w6 w7 w8 w9 w10 w11,
        e6,
      )

  -- The checks about --web, from the options as they may be given together.
  abbrev WebChecks : SendArgs Url → Type 0
  WebChecks a =
      ((a.web && not (is_some a.path)) ≡ false)
      × ((a.web && not (is_empty a.extra_paths)) ≡ false)
      × ((a.web && (not (is_empty a.include_globs) || not (is_empty a.exclude_globs))) ≡ false)
      × ((a.web && a.preserve_metadata) ≡ false)
      × ((a.web && not (is_follow a.symlinks)) ≡ false)
      × ((a.web && (a.copy || is_some a.output)) ≡ false)
      × ((is_some a.web_token && not a.web) ≡ false)
      × ((a.web_upload && not a.web) ≡ false)
      × ((is_some a.web_upload_dir && not a.web) ≡ false)
      × ((is_some a.web_port && not a.web) ≡ false)
      × ((is_some a.web_bind && not a.web) ≡ false)

  web_checks : (a : SendArgs Url) → WebAlone a ⊎ NoWeb a → WebChecks a
  web_checks a (inl (w, path, extra, inc, exc, meta, links, copy, out, quic)) =
      rw (w, path, extra, inc, exc, meta, links, copy, out)
        (
          refl,
          refl,
          refl,
          refl,
          refl,
          refl,
          and_false _,
          and_false _,
          and_false _,
          and_false _,
          and_false _,
        )
  web_checks a (inr (w, token, upload, dir, port, bind)) =
      rw (w, token, upload, dir, port, bind)
        (refl, refl, refl, refl, refl, refl, refl, refl, refl, refl, refl)

  portable_check :
      (a : SendArgs Url)
      → (a.portable_webdav ≡ false) ⊎ ((a.webdav || a.ftp || a.sftp) ≡ true)
      → (a.portable_webdav && not a.webdav && not a.ftp && not a.sftp) ≡ false
  portable_check a (inl e) = ground arith
  portable_check a (inr e) = ground arith

  relay_checks :
      (a : SendArgs Url)
      → (a.accept_self_signed_relay ≡ false)
        ⊎ ((is_empty a.relay ≡ false) × (any (is_insecure scheme) a.relay ≡ false))
      → ((a.accept_self_signed_relay && is_empty a.relay) ≡ false)
        × ((a.accept_self_signed_relay && any (is_insecure scheme) a.relay) ≡ false)
  relay_checks a (inl e) = rw e (refl, refl)
  relay_checks a (inr (e, f)) = rw (e, f) (and_false _, and_false _)

  preserve_check :
      (a : SendArgs Url)
      → (a.preserve_metadata ≡ false) ⊎ ((is_some a.path ≡ true) × (a.extra_paths ≡ []))
      → (a.preserve_metadata && (not (is_some a.path) || not (is_empty a.extra_paths))) ≡ false
  preserve_check a (inl e) = rw e refl
  preserve_check a (inr (e, f)) = rw (e, f) (and_false _)

  quic_check :
      (a : SendArgs Url) (b : Bool)
      → (a.quic_port ≡ none) ⊎ (b ≡ false)
      → (is_some a.quic_port && b) ≡ false
  quic_check a b (inl e) = rw e refl
  quic_check a b (inr e) = rw e (and_false _)

  validate_send_complete :
      (help : Str) (a : SendArgs Url) → IsValid a → validate_send scheme help a ≡ ok tt
  unfolding validate_send send_checks
  validate_send_complete help a (one, portable, self_signed, preserved, quic, web, token) =
      let (w1, w2, w3, w4, w5, w6, w7, w8, w9, w10, w11) = web_checks a web in
      let (e2, e3) = relay_checks a self_signed in
      let most = count_le_one (backends scheme a) one in
      let e0 : ltb 1 (count (backends scheme a)) ≡ false = ground arith in
      let e1 = portable_check a portable in
      let e4 = preserve_check a preserved in
      let e5 =
        quic_check a (a.s3 || a.r2 || a.azure || a.webdav || a.ftp || a.sftp || a.web) quic in
      let e6 = token in
      (first_error_iff help (send_checks scheme a)).1 (
        e0,
        (
          e1,
          (
            e2,
            (
              e3,
              (
                w1,
                (w2, (w3, (w4, (w5, (e4, (e5, (w6, (w7, (w8, (w9, (w10, (w11, (e6, tt))))))))))))),
              ),
            ),
          ),
        ),
      )

  -- The options of a send are accepted exactly if at most one of the ten backends is chosen, -p comes
  -- with --webdav, --ftp or --sftp, -k has relays and all of them by https, metadata is kept of
  -- exactly one path, a QUIC port comes with none of --s3, --r2, --azure, --webdav, --ftp, --sftp and
  -- --web, --web has one path and nothing that does not go with it, or is absent with all that needs
  -- it, and a token is well formed.
  pub validate_send_iff :
      (help : Str) (a : SendArgs Url) → (validate_send scheme help a ≡ ok tt) ↔ IsValid a
  validate_send_iff help a = (validate_send_sound help a, validate_send_complete help a)
