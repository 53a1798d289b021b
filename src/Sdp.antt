-- ===== src/Sdp.antt =====
-- rtsp/mk_media_sdp.cpp and .h: a description of media, decoded. as_strsep is of as_common: it is an
-- argument, which gives the text in front of a space, and the text behind it if there is one. Memory
-- is granted.
pub mod Decode
pub mod Encode
pub mod Lines
pub mod Media
pub mod Decoded
pub mod Answer
pub mod Added
mod Examples
use lib_media_service.Common.{
  ℕ, zero, suc, ◌+◌, ◌%◌, Bool, true, false, not, ◌&&◌, Option, none, some, List, [], ◌∷◌, ◌++◌,
  length, drop, ltb, ◌==◌, if◌then◌else◌, on_some, byte_at, codes, starts_with, skip_spaces,
  to_lower, atoi, Status, ok, fail, is_ok,
}
use lib_media_service.Session.{
  MediaKind, video_media, audio_media, other_media, MediaInfo, Description,
}

-- `a == b` for two std::strings.
abbrev pub same_text : List ℕ → List ℕ → Bool
same_text [] [] = true
same_text [] (d ∷ t) = false
same_text (c ∷ s) [] = false
same_text (c ∷ s) (d ∷ t) = c == d && same_text s t

-- SDP_END_TAG, and lines with it.
abbrev pub end_tag : List ℕ
end_tag = 13 ∷ 10 ∷ []

abbrev pub print_lines : List (List ℕ) → List ℕ
print_lines [] = []
print_lines (line ∷ lines) = line ++ (end_tag ++ print_lines lines)

-- TRANS_DIRECTION.
pub data Direction : Type 0 where
  recvonly sendonly sendrecv direction_max : Direction

-- The parser's state: _enSDP_STATUS.
pub data ParseStatus : Type 0 where
  global_info video_info_status audio_info_status : ParseStatus

-- SDP_MEDIA_INFO.
pub record SdpMedia : Type 0 where
  pub media_type : MediaKind
  pub payload_type : ℕ
  pub port : ℕ
  pub rtpmap : List ℕ
  pub fmtp : List ℕ
  pub control : List ℕ

-- mk_media_sdp.
pub record Sdp : Type 0 where
  pub session : ℕ
  pub owner : List ℕ
  pub session_name : List ℕ
  pub url : List ℕ
  pub conn_addr : List ℕ
  pub range : List ℕ
  pub ssrc : List ℕ
  pub trans_direct : Direction
  pub video_info_list : List SdpMedia
  pub audio_info_list : List SdpMedia
  pub parse_status : ParseStatus

-- The constructor.
abbrev pub new_sdp : Sdp
new_sdp = record {
  session = 0;
  owner = codes "vds";
  session_name = codes "hx media kernel";
  url = [];
  conn_addr = [];
  range = [];
  ssrc = [];
  trans_direct = direction_max;
  video_info_list = [];
  audio_info_list = [];
  parse_status = global_info;
}

-- decodeSdp between two lines: the object, pMediaInfo, which points to the last medium of a list, and
-- bFirst.
pub record Decoding : Type 0 where
  pub sdp : Sdp
  pub current : Option MediaKind
  pub first : Bool

-- getNextLine: a line, and what is behind the character that ends it. The last line is dropped if
-- nothing ends it.
unfoldable pub get_next_line : List ℕ → Option (List ℕ × List ℕ)
get_next_line [] = none
get_next_line (c ∷ s) =
    let later = on_some (get_next_line s) none λ r. some (c ∷ r.0, r.1) in
    if c == 0
    then some ([], s)
    else if c == 10
    then some ([], s)
    else if c == 13
    then some ([], s)
    else later

abbrev pub change_last : (SdpMedia → SdpMedia) → List SdpMedia → List SdpMedia
change_last f [] = []
change_last f (m ∷ []) = f m ∷ []
change_last f (m ∷ n ∷ ms) = m ∷ change_last f (n ∷ ms)

-- A change through pMediaInfo.
abbrev pub change_media : (SdpMedia → SdpMedia) → MediaKind → Sdp → Sdp
change_media f video_media sdp = record sdp { video_info_list = change_last f sdp.video_info_list }
change_media f audio_media sdp = record sdp { audio_info_list = change_last f sdp.audio_info_list }
change_media f other_media sdp = sdp

-- The attributes of a direction, of eight characters each.
abbrev pub direction_of : List ℕ → Option Direction
direction_of text =
    if starts_with (codes "recvonly") text
    then some recvonly
    else if starts_with (codes "sendonly") text
    then some sendonly
    else if starts_with (codes "sendrecv") text
    then some sendrecv
    else none

-- parseGlobalAttributes.
unfoldable pub parse_global_attributes : Sdp → List ℕ → Sdp
parse_global_attributes sdp text =
    if not (ltb 8 (length text))
    then sdp
    else if starts_with (codes "control:") text
    then record sdp { url = drop 8 text }
    else on_some (direction_of text) sdp λ d. record sdp { trans_direct = d }

-- A new medium behind those of its kind.
unfoldable pub add_media : Decoding → MediaKind → ℕ → Decoding
add_media d kind pt =
    let media : SdpMedia = record {
      media_type = kind;
      payload_type = pt % 256;
      port = 0;
      rtpmap = [];
      fmtp = [];
      control = [];
    } in
    elim kind [
      | video_media ↦ record d {
        sdp = record d.sdp {
          parse_status = video_info_status;
          video_info_list = d.sdp.video_info_list ++ (media ∷ []);
        };
        current = some video_media;
      }
      | _ ↦ record d {
        sdp = record d.sdp {
          parse_status = audio_info_status;
          audio_info_list = d.sdp.audio_info_list ++ (media ∷ []);
        };
        current = some audio_media;
      }
    ]

-- The end of parseMediaDesc.
unfoldable pub read_payload_type : Decoding → MediaKind → List ℕ → Status × Decoding
unfolding add_media
read_payload_type d kind [] = (fail, d)
read_payload_type d kind (c ∷ s) = (ok, add_media d kind (atoi (c ∷ s)))

module _ (strsep : List ℕ → List ℕ × Option (List ℕ)) where
  -- parseConnDesc.
  unfoldable pub parse_conn_desc : Sdp → List ℕ → Status × Sdp
  parse_conn_desc sdp text =
      on_some (strsep text).1 (fail, sdp)
        λ r.
          on_some (strsep (skip_spaces r)).1 (fail, sdp)
            λ r'. (ok, record sdp { conn_addr = skip_spaces r' })

  -- parseMediaDesc: its payload types are read up to the first that is no number.
  unfoldable pub parse_media_desc : Decoding → List ℕ → Status × Decoding
  unfolding read_payload_type
  parse_media_desc d text =
      let type = to_lower (byte_at text 0) in
      if not (type == 118) && not (type == 97)
      then (ok, record d { sdp = record d.sdp { parse_status = global_info } })
      else on_some (strsep text).1 (fail, d)
          λ r.
            on_some (strsep (skip_spaces r)).1 (fail, d)
              λ r'.
                on_some (strsep (skip_spaces r')).1 (fail, d)
                  λ r''.
                    let kind = if type == 118 then video_media else audio_media in
                    read_payload_type d kind (skip_spaces r'')

  -- parseMediaAttributes of the medium that pMediaInfo points to.
  unfoldable pub parse_media_attributes : Sdp → MediaKind → List ℕ → Status × Sdp
  parse_media_attributes sdp kind text =
      let others =
        if ltb 7 (length text) && starts_with (codes "rtpmap:") text
        then (on_some (strsep text).1 (fail, sdp)
            λ r. (ok, change_media (λ m. record m { rtpmap = r }) kind sdp))
        else if ltb 5 (length text) && starts_with (codes "fmtp:") text
        then (on_some (strsep text).1 (fail, sdp)
            λ r. (ok, change_media (λ m. record m { fmtp = r }) kind sdp))
        else if ltb 8 (length text) && starts_with (codes "control:") text
        then (ok, change_media (λ m. record m { control = drop 8 text }) kind sdp)
        else if starts_with (codes "range") text
        then (ok, record sdp { range = text })
        else (ok, sdp) in
      if ltb 8 (length text)
      then (on_some (direction_of text) others λ d. (ok, record sdp { trans_direct = d }))
      else others

  -- parseAttributes.
  unfoldable pub parse_attributes : Decoding → List ℕ → Status × Decoding
  unfolding parse_media_attributes parse_global_attributes
  parse_attributes d text =
      let global : Status × Decoding =
        (ok, record d { sdp = parse_global_attributes d.sdp text }) in
      let media : Status × Decoding =
        on_some d.current (fail, d)
          λ kind. let r = parse_media_attributes d.sdp kind text in (r.0, record d { sdp = r.1 }) in
      elim d.sdp.parse_status [
        | global_info ↦ global
        | video_info_status ↦ media
        | audio_info_status ↦ media
      ]

-- getPayloadTypeByRtpmap: PT_TYPE_MAX if no medium has the map.
unfoldable pub find_payload_type : List ℕ → List SdpMedia → ℕ
find_payload_type rtpmap [] = 255
find_payload_type rtpmap (m ∷ ms) =
    let rest = find_payload_type rtpmap ms in
    if same_text m.rtpmap rtpmap then m.payload_type else rest

unfoldable pub get_payload_type_by_rtpmap : Sdp → List ℕ → ℕ
unfolding find_payload_type
get_payload_type_by_rtpmap sdp rtpmap =
    find_payload_type rtpmap (sdp.video_info_list ++ sdp.audio_info_list)

-- What the connection reads of the media.
abbrev pub media_of : List SdpMedia → List MediaInfo
media_of [] = []
media_of (m ∷ ms) = record { media_type = m.media_type; control = m.control } ∷ media_of ms

-- getVideoInfo, getAudioInfo and getPayloadTypeByRtpmap, as handleRtspDescribeResp calls them.
unfoldable pub described : Sdp → Description
unfolding get_payload_type_by_rtpmap
described sdp = record {
  h264 = get_payload_type_by_rtpmap sdp (codes "H264/90000");
  h265 = get_payload_type_by_rtpmap sdp (codes "H265/90000");
  media = media_of (sdp.video_info_list ++ sdp.audio_info_list);
}
