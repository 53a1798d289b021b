-- ===== src/Sdp/Decode.antt =====
-- decodeSdp of rtsp/mk_media_sdp.cpp: the lines of a description, one by one.
use lib_media_service.Common.{
  ℕ, zero, suc, true, false, not, ◌&&◌, Option, none, some, List, [], ◌∷◌, ◌++◌, length, ◌==◌,
  if◌then◌else◌, on_some, skip_spaces, to_lower, Status, ok, fail, is_ok,
}
use lib_media_service.Sdp.{
  SdpMedia, Sdp, Decoding, get_next_line, parse_conn_desc, parse_media_desc, parse_attributes,
}

-- The loop of decodeSdp goes on behind a line that was decoded.
unfoldable pub after_line :
    (List ℕ → Decoding → Option (Status × Decoding))
    → List ℕ
    → Status × Decoding
    → Option (Status × Decoding)
after_line next text r = elim (is_ok r.0) [ true ↦ next text r.1 | false ↦ some r ]

-- The end of decodeSdp: a description without a medium is refused.
abbrev pub if_any : List SdpMedia → Status × Sdp → Status × Sdp
if_any [] r = (fail, r.1)
if_any (m ∷ ms) r = r

module _ (strsep : List ℕ → List ℕ × Option (List ℕ)) where
  -- The switch of decodeSdp over the letter in front of '='.
  unfoldable pub decode_value : Decoding → ℕ → List ℕ → Status × Decoding
  unfolding parse_conn_desc parse_media_desc parse_attributes
  decode_value d letter text =
      if letter == 115
      then (ok, record d { sdp = record d.sdp { session_name = text } })
      else if letter == 99
      then (let r = parse_conn_desc strsep d.sdp text in (r.0, record d { sdp = r.1 }))
      else if letter == 109
      then parse_media_desc strsep d text
      else if letter == 97
      then parse_attributes strsep d text
      else if letter == 117
      then (ok, record d { sdp = record d.sdp { url = text } })
      else (ok, d)

  -- What is behind the letter of a line.
  unfoldable pub decode_behind : Decoding → ℕ → List ℕ → Status × Decoding
  unfolding decode_value
  decode_behind d letter [] = (fail, d)
  decode_behind d letter (e ∷ s) =
      if not (e == 61)
      then (fail, d)
      else if not (letter == 118) && d.first
      then (fail, d)
      else let r = decode_value d letter (skip_spaces s) in (r.0, record r.1 { first = false })

  -- A line: an empty one is skipped.
  unfoldable pub decode_line : Decoding → List ℕ → Status × Decoding
  unfolding decode_behind
  decode_line d line = elim (skip_spaces line) [
    | [] ↦ (ok, d)
    | c ∷ s ↦ decode_behind d (to_lower c) (skip_spaces s)
  ]

  -- The loop of decodeSdp; `none` is a run out of fuel.
  unfoldable pub decode_loop : ℕ → List ℕ → Decoding → Option (Status × Decoding)
  unfolding get_next_line after_line
  decode_loop zero text d = none
  decode_loop (suc fuel) text d =
      let next = decode_loop fuel in
      on_some (get_next_line text) (some (ok, d)) λ r. after_line next r.1 (decode_line d r.0)

  -- decodeSdp: the loop has one round more than the text has characters.
  unfoldable pub decode_sdp : Sdp → List ℕ → Option (Status × Sdp)
  unfolding decode_loop
  decode_sdp sdp [] = some (fail, sdp)
  decode_sdp sdp (c ∷ s) =
      on_some
        (decode_loop (suc (length (c ∷ s))) (c ∷ s)
          (record { sdp = sdp; current = none; first = true }))
        none λ r. some (if_any (r.1.sdp.video_info_list ++ r.1.sdp.audio_info_list) (r.0, r.1.sdp))
