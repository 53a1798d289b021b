-- ===== src/Sdp/Answer.antt =====
-- What encode200Sdp of rtsp/mk_media_sdp.cpp prints, decoded by decodeSdp.
use lib_media_service.Common.{
  ℕ, ◌<◌, ◌≡◌, subst, refl, sym, ap, ◌∙◌, true, false, Bool, Option, none, some, List, [], ◌∷◌,
  ◌++◌, ◌==◌, arith, codes, skip_spaces, print_u32, print_lld, ok, atoi,
}
use lib_media_service.RtspMessage.Numbers.{print_u32-Prints}
use lib_media_service.Session.{MediaKind, audio_media}
use lib_media_service.Sdp.{
  Direction, recvonly, sendonly, sendrecv, direction_max, audio_info_status, Sdp, SdpMedia,
  Decoding, new_sdp, parse_conn_desc, parse_media_desc, parse_attributes, parse_media_attributes,
  add_media, read_payload_type,
}
use lib_media_service.Sdp.Decode.{decode_line, decode_behind, decode_value, decode_sdp}
use lib_media_service.Sdp.Encode.{
  owner_line, direction_line, ssrc_line, origin, times, encode_200_sdp,
}
use lib_media_service.Sdp.Lines.{
  in_line, in_line-append, Steps, done, step, Steps-append, print_u32-in_line, print_lld-in_line,
  print_u32-IsDigit, skip_spaces-digit,
}
use lib_media_service.Sdp.Media.{IsStrsep}
use lib_media_service.Sdp.Decoded.{decode_sdp-Steps}

-- The texts of a description that are printed.
pub record IsPrintable (sdp : Sdp) : Type 0 where
  pub owner : in_line sdp.owner ≡ true
  pub conn_addr : in_line sdp.conn_addr ≡ true
  pub ssrc : in_line sdp.ssrc ≡ true

-- The medium of the answer.
abbrev pub pcma : SdpMedia
pcma = record {
  media_type = audio_media;
  payload_type = 8;
  port = 0;
  rtpmap = codes "PCMA/8000";
  fmtp = [];
  control = [];
}

-- What is read of an answer.
abbrev answered_url : List ℕ → Bool → List ℕ
answered_url owner true = skip_spaces (owner ++ codes ":255")
answered_url owner false = []

abbrev pub answered_sdp : Sdp → ℕ → List ℕ → Sdp
answered_sdp sdp isplayback ip = record new_sdp {
  session_name = codes "BroadCast";
  url = answered_url sdp.owner (isplayback == 1);
  conn_addr = skip_spaces ip;
  audio_info_list = pcma ∷ [];
  parse_status = audio_info_status;
}

address-in_line :
    (address : List ℕ)
    → in_line address ≡ true
    → in_line (elim address [ [] ↦ codes "vds.allcam.com" | c ∷ s ↦ c ∷ s ]) ≡ true
address-in_line [] k = refl
address-in_line (c ∷ s) k = k

origin-in_line : (sdp : Sdp) → IsPrintable sdp → in_line (origin sdp) ≡ true
origin-in_line sdp h =
    let address = address-in_line sdp.conn_addr h.conn_addr in
    in_line-append sdp.owner _ h.owner
      (in_line-append (print_u32 sdp.session) _ (print_u32-in_line sdp.session) address)

times-in_line : (playback : Bool) (from to : ℕ) → in_line (times playback from to) ≡ true
times-in_line true from to =
    in_line-append (print_lld from) (32 ∷ print_lld to) (print_lld-in_line from)
      (print_lld-in_line to)
times-in_line false from to = refl

abbrev At : Sdp → Option MediaKind → Decoding
At sdp current = record { sdp = sdp; current = current; first = false }

module _ (strsep : List ℕ → List ℕ × Option (List ℕ)) (h : IsStrsep strsep) where
  owner_line-Steps :
      (sdp d : Sdp) (playback : Bool)
      → in_line sdp.owner ≡ true
      → d.url ≡ []
      → Steps strsep
          (At d none)
          (owner_line sdp playback)
          (At (record d { url = answered_url sdp.owner playback }) none)
  unfolding decode_line decode_behind decode_value
  owner_line-Steps sdp d true k e =
      step _ (At (record d { url = skip_spaces (sdp.owner ++ codes ":255") }) none)
        (in_line-append sdp.owner (codes ":255") k refl) refl done
  owner_line-Steps sdp d false k e =
      subst (λ url. Steps strsep (At d none) [] (At (record d { url = url }) none)) e done

  -- Attributes and other letters that change nothing behind an audio.
  attribute_lem :
      (d : Sdp) (text : List ℕ)
      → d.parse_status ≡ audio_info_status
      → skip_spaces text ≡ text
      → parse_media_attributes strsep d audio_media text ≡ (ok, d)
      → decode_line strsep (At d (some audio_media)) (codes "a=" ++ text)
        ≡ (ok, At d (some audio_media))
  unfolding decode_line decode_behind decode_value parse_attributes
  attribute_lem d text e k f =
      rw (e, k, f)
        (ap (λ status. (ok, At (record d { parse_status = status }) (some audio_media))) e)

  direction_line-Steps :
      (direction : Direction) (d : Sdp)
      → d.parse_status ≡ audio_info_status
      → Steps strsep (At d (some audio_media)) (direction_line direction) (At d (some audio_media))
  unfolding parse_media_attributes
  direction_line-Steps recvonly d e =
      step _ _ refl (attribute_lem d (codes "recvonly") e refl refl) done
  direction_line-Steps sendonly d e =
      step _ _ refl (attribute_lem d (codes "sendonly") e refl refl) done
  direction_line-Steps sendrecv d e =
      step _ _ refl (attribute_lem d (codes "sendrecv") e refl refl) done
  direction_line-Steps direction_max d e = done

  ssrc_line-Steps :
      (ssrc : List ℕ) (sdp : Sdp) (current : Option MediaKind)
      → in_line ssrc ≡ true
      → Steps strsep (At sdp current) (ssrc_line ssrc) (At sdp current)
  unfolding decode_line decode_behind decode_value
  ssrc_line-Steps [] sdp current k = done
  ssrc_line-Steps (c ∷ s) sdp current k = step _ _ k refl done

  conn_line_lem :
      (d : Sdp) (ip : List ℕ)
      → decode_line strsep (At d none) (codes "c=IN IP4 " ++ ip)
        ≡ (ok, At (record d { conn_addr = skip_spaces ip }) none)
  unfolding decode_line decode_behind decode_value parse_conn_desc
  conn_line_lem d ip =
      let network = h.splits (codes "IN") (codes "IP4 " ++ ip) refl in
      let address = h.splits (codes "IP4") ip refl in rw (network, address) refl

  times-ignored :
      (d : Sdp) (playback : Bool) (from to : ℕ)
      → decode_line strsep (At d none) (times playback from to) ≡ (ok, At d none)
  unfolding decode_line decode_behind decode_value
  times-ignored d true from to = refl
  times-ignored d false from to = refl

  audio_line :
      (d : Sdp) (port : ℕ)
      → port < 65536
      → decode_line strsep (At d none) (codes "m=audio " ++ (print_u32 port ++ codes " RTP/AVP 8"))
        ≡ (
          ok,
          At
              (record d {
                parse_status = audio_info_status;
                audio_info_list = d.audio_info_list ++ (record pcma { rtpmap = [] } ∷ []);
              })
              (some audio_media),
        )
  unfolding decode_line decode_behind decode_value parse_media_desc read_payload_type add_media atoi
  audio_line d port l =
      let (c, t, e, low, high) = print_u32-IsDigit port in
      let kind = h.splits (codes "audio") (print_u32 port ++ codes " RTP/AVP 8") refl in
      let digits =
        ap (λ (p : List ℕ). skip_spaces (p ++ codes " RTP/AVP 8")) e
        ∙ skip_spaces-digit c (t ++ codes " RTP/AVP 8") low
        ∙ ap (λ (p : List ℕ). p ++ codes " RTP/AVP 8") (sym e) in
      let number =
        h.splits (print_u32 port) (codes "RTP/AVP 8")
          (print_u32-Prints port (omega (arith, l))).compact in
      let profile = h.splits (codes "RTP/AVP") (codes "8") refl in
      rw (kind, digits, number, profile) refl

  rtpmap_line :
      (d : Sdp)
      → decode_line strsep
          (At
            (record d {
              parse_status = audio_info_status;
              audio_info_list = record pcma { rtpmap = [] } ∷ [];
            })
            (some audio_media))
          (codes "a=rtpmap:8 PCMA/8000")
        ≡ (
          ok,
          At
              (record d { parse_status = audio_info_status; audio_info_list = pcma ∷ [] })
              (some audio_media),
        )
  unfolding decode_line decode_behind decode_value parse_attributes parse_media_attributes
  rtpmap_line d = rw (h.splits (codes "rtpmap:8") (codes "PCMA/8000") refl) refl

  encode_200_sdp-Steps :
      (sdp : Sdp) (isplayback from to : ℕ) (ip : List ℕ) (port : ℕ)
      → IsPrintable sdp
      → in_line ip ≡ true
      → port < 65536
      → Steps strsep
          (record { sdp = new_sdp; current = none; first = true })
          (codes "v=0"
            ∷ origin sdp
            ∷ codes "s=BroadCast"
            ∷ (owner_line sdp (isplayback == 1)
                ++ ((codes "c=IN IP4 " ++ ip)
                    ∷ times (isplayback == 1) from to
                    ∷ (codes "m=audio " ++ (print_u32 port ++ codes " RTP/AVP 8"))
                    ∷ codes "a=rtpmap:8 PCMA/8000"
                    ∷ (direction_line sdp.trans_direct ++ ssrc_line sdp.ssrc))))
          (At (answered_sdp sdp isplayback ip) (some audio_media))
  unfolding decode_line decode_behind decode_value
  encode_200_sdp-Steps sdp isplayback from to ip port p i l =
      let playback = isplayback == 1 in
      let named : Sdp = record new_sdp { session_name = codes "BroadCast" } in
      let owned : Sdp = record named { url = answered_url sdp.owner playback } in
      let addressed : Sdp = record owned { conn_addr = skip_spaces ip } in
      let result = answered_sdp sdp isplayback ip in
      let audio_print =
        in_line-append (print_u32 port) (codes " RTP/AVP 8") (print_u32-in_line port) refl in
      let ends =
        Steps-append strsep (direction_line-Steps sdp.trans_direct result refl)
          (ssrc_line-Steps sdp.ssrc result (some audio_media) p.ssrc) in
      step _ (At new_sdp none) refl refl (
        step _ (At new_sdp none) (origin-in_line sdp p) refl (
          step _ (At named none) refl refl (
            Steps-append strsep (owner_line-Steps sdp named playback p.owner refl) (
              step _ (At addressed none) i (conn_line_lem owned ip) (
                step _ (At addressed none) (times-in_line playback from to)
                  (times-ignored addressed playback from to)
                  (step _ _ audio_print (audio_line addressed port l)
                    (step _ (At result (some audio_media)) refl (rtpmap_line addressed) ends)))))))

  -- What encode200Sdp prints, of texts without line ends and a port of 16 bits, decodeSdp reads
  -- with OK, where as_strsep splits at the first space. Of the text it keeps the name, the address,
  -- the medium with its map, and for a playback, as the url, what the line of the owner has: the
  -- owner and ":255", without spaces in front. The o= line, the times, the ssrc, the port and the
  -- direction are not kept.
  pub decode_sdp-encode_200_sdp :
      (sdp : Sdp) (isplayback from to : ℕ) (ip : List ℕ) (port : ℕ)
      → IsPrintable sdp
      → in_line ip ≡ true
      → port < 65536
      → decode_sdp strsep new_sdp (encode_200_sdp sdp isplayback from to ip port)
        ≡ some (ok, answered_sdp sdp isplayback ip)
  unfolding encode_200_sdp
  decode_sdp-encode_200_sdp sdp isplayback from to ip port p i l =
      decode_sdp-Steps strsep h new_sdp _ _ _ _
        (encode_200_sdp-Steps sdp isplayback from to ip port p i l) (omega arith)
