-- ===== src/RtspMessage/Fields.antt =====
-- The header lines of a request of rtsp/mk_rtsp_packet.cpp, each read back.
use lib_media_service.Common.{
  ℕ, ◌<◌, ◌%◌, ◌≡◌, refl, ap, ◌∙◌, false, Option, List, ◌∷◌, arith, ◌==◌, Status, ok, codes,
  u32_mod, strtoull, trim_front,
}
use lib_media_service.RtspMessage.{RtspMessage, rtsp_headers, header_line}
use lib_media_service.RtspMessage.Parse.{
  trim, header_loop, store_header, parse_rtsp_header_value, before_semicolon, one_header,
}
use lib_media_service.RtspMessage.Lines.{Tidy, no_space-Tidy, trim-value}
use lib_media_service.RtspMessage.Numbers.{Prints}

-- A header of the table.
one_header-known :
    (atof : List ℕ → ℕ) (c : ℕ) (s : List ℕ) (m m' : RtspMessage)
    (next : RtspMessage → Option (Status × RtspMessage))
    → (header_loop rtsp_headers 0 (c ∷ s) == 12) ≡ false
    → parse_rtsp_header_value atof m (header_loop rtsp_headers 0 (c ∷ s)) (c ∷ s) ≡ (ok, m')
    → one_header atof (c ∷ s) m next ≡ next m'
unfolding one_header
one_header-known atof c s m m' next h e = rw (h, e) refl

module _ (atof : List ℕ → ℕ) (m : RtspMessage)
    (next : RtspMessage → Option (Status × RtspMessage)) where
  pub session-header :
      (text : List ℕ) (n : ℕ)
      → Prints text n
      → one_header atof (header_line (codes "Session") text) m next
        ≡ next (record m { session_id = n })
  unfolding parse_rtsp_header_value header_loop before_semicolon store_header
  session-header text n h =
      let tidy = no_space-Tidy text h.compact in
      let only : before_semicolon text ≡ text = rw (before_semicolon, h.plain) refl in
      let stored : store_header atof 2 m text ≡ (ok, record m { session_id = n }) =
        ap (λ v. (ok, record m { session_id = strtoull (trim v) })) only
        ∙ ap (λ v. (ok, record m { session_id = strtoull v }))
            (ap trim_front tidy.back ∙ tidy.front)
        ∙ ap (λ k. (ok, record m { session_id = k })) h.reads in
      one_header-known atof _ _ m (record m { session_id = n }) next refl
        (ap (store_header atof 2 m) (trim-value text tidy) ∙ stored)

  pub cseq-header :
      (text : List ℕ) (n : ℕ)
      → Prints text n
      → n < 4294967296
      → one_header atof (header_line (codes "CSeq") text) m next ≡ next (record m { cseq = n })
  unfolding parse_rtsp_header_value header_loop store_header
  cseq-header text n h l =
      let tidy = no_space-Tidy text h.compact in
      let same : strtoull text % u32_mod ≡ n = ap (λ k. k % u32_mod) h.reads ∙ omega (arith, l) in
      one_header-known atof _ _ m (record m { cseq = n }) next refl
        (ap (store_header atof 0 m) (trim-value text tidy)
          ∙ ap (λ k. (ok, record m { cseq = k })) same)

  pub agent-header :
      one_header atof (header_line (codes "User-Agent") (codes "H.Kernel 2020.06.08")) m next
      ≡ next m
  unfolding parse_rtsp_header_value header_loop store_header
  agent-header = one_header-known atof _ _ m m next refl refl

  pub range-header :
      (c : ℕ) (s : List ℕ)
      → Tidy (c ∷ s)
      → one_header atof (header_line (codes "Range") (c ∷ s)) m next
        ≡ next (record m { range = c ∷ s })
  unfolding parse_rtsp_header_value header_loop store_header
  range-header c s h =
      one_header-known atof _ _ m (record m { range = c ∷ s }) next refl
        (ap (store_header atof 3 m) (trim-value (c ∷ s) h))

  pub transport-header :
      (c : ℕ) (s : List ℕ)
      → Tidy (c ∷ s)
      → one_header atof (header_line (codes "Transport") (c ∷ s)) m next
        ≡ next (record m { transport = c ∷ s })
  unfolding parse_rtsp_header_value header_loop store_header
  transport-header c s h =
      one_header-known atof _ _ m (record m { transport = c ∷ s }) next refl
        (ap (store_header atof 7 m) (trim-value (c ∷ s) h))

  pub authorization-header :
      (c : ℕ) (s : List ℕ)
      → Tidy (c ∷ s)
      → one_header atof (header_line (codes "Authorization") (c ∷ s)) m next
        ≡ next (record m { authorization = c ∷ s })
  unfolding parse_rtsp_header_value header_loop store_header
  authorization-header c s h =
      one_header-known atof _ _ m (record m { authorization = c ∷ s }) next refl
        (ap (store_header atof 11 m) (trim-value (c ∷ s) h))
