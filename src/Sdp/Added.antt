-- ===== src/Sdp/Added.antt =====
-- rtsp/mk_media_sdp.cpp: addVideoInfo, addAudioInfo and makeRtpmap, for the media that a server adds to
-- its description. Memory is granted.
use lib_media_service.Common.{
  ℕ, ◌≡◌, ◌⊎◌, inl, inr, refl, ◌∙◌, true, false, Option, none, some, List, [], ◌∷◌, ◌++◌, All, ◌==◌,
  if◌then◌else◌, codes, print_u32, ltb, ◌-◌, arith,
}
use lib_media_service.Session.{MediaKind}
use lib_media_service.Sdp.{same_text, SdpMedia, Sdp, find_payload_type, get_payload_type_by_rtpmap}

-- The map of a video that is added without one.
abbrev pub video_rtpmap : ℕ → List ℕ
video_rtpmap pt =
    if pt == 26
    then codes "JPEG/90000"
    else if pt == 96
    then codes "PS/90000"
    else if pt == 97
    then codes "MP4V-ES/90000"
    else if pt == 98
    then codes "H264/90000"
    else if pt == 99
    then codes "H265/90000"
    else codes "H264/90000"

abbrev pub audio_rtpmap : ℕ → List ℕ
audio_rtpmap pt = if pt == 0 then codes "PCMU/8000" else if pt == 8 then codes "PCMA/8000" else []

-- What is kept of a medium: the map that is given, or that of the payload type. ucMediaType is not set,
-- so it is what the memory of the new medium holds.
abbrev pub with_rtpmap : (ℕ → List ℕ) → MediaKind → SdpMedia → SdpMedia
with_rtpmap map memory info = elim info.rtpmap [
  | [] ↦ record info { media_type = memory; rtpmap = map info.payload_type }
  | c ∷ s ↦ record info { media_type = memory }
]

unfoldable pub add_video_info : MediaKind → SdpMedia → Sdp → Sdp
add_video_info memory info sdp = record sdp {
  video_info_list = sdp.video_info_list ++ (with_rtpmap video_rtpmap memory info ∷ []);
}

unfoldable pub add_audio_info : MediaKind → SdpMedia → Sdp → Sdp
add_audio_info memory info sdp = record sdp {
  audio_info_list = sdp.audio_info_list ++ (with_rtpmap audio_rtpmap memory info ∷ []);
}

-- snprintf with %d of a uint32_t.
abbrev print_int : ℕ → List ℕ
print_int n = if ltb n 2147483648 then print_u32 n else 45 ∷ print_u32 (4294967296 - n)

-- makeRtpmap: `none` leaves the text of the caller.
abbrev codec_name : ℕ → Option (List ℕ)
codec_name pt =
    if pt == 0
    then some (codes "PCMU")
    else if pt == 8
    then some (codes "PCMA")
    else if pt == 100
    then some (codes "MPEG4-GENERIC")
    else if pt == 26
    then some (codes "JPEG")
    else if pt == 97
    then some (codes "MP4V-ES")
    else if pt == 98
    then some (codes "H264")
    else if pt == 99
    then some (codes "H265")
    else none

unfoldable pub make_rtpmap : ℕ → ℕ → Option (List ℕ)
make_rtpmap pt clock = elim (codec_name pt) [
  | none ↦ none
  | some name ↦ some (name ++ (47 ∷ print_int clock))
]

same_text_refl : (s : List ℕ) → same_text s s ≡ true
same_text_refl [] = refl
same_text_refl (c ∷ s) =
    let same : (c == c) ≡ true = ground arith in rw (same, same_text_refl s) refl

-- No medium has a map.
abbrev pub NoneHas : List ℕ → List SdpMedia → Type 0
NoneHas rtpmap = All (λ m. same_text m.rtpmap rtpmap ≡ false)

find_payload_type-last :
    (rtpmap : List ℕ) (ms : List SdpMedia) (m : SdpMedia) (more : List SdpMedia)
    → NoneHas rtpmap ms
    → m.rtpmap ≡ rtpmap
    → find_payload_type rtpmap ((ms ++ (m ∷ [])) ++ more) ≡ m.payload_type
unfolding find_payload_type
find_payload_type-last rtpmap [] m more h e = rw (e, same_text_refl rtpmap) refl
find_payload_type-last rtpmap (n ∷ ms) m more (h, hs) e =
    rw (h, find_payload_type-last rtpmap ms m more hs e) refl

-- The payload types that both add_video_info and make_rtpmap know.
abbrev pub IsVideoType : ℕ → Type 0
IsVideoType pt = (pt ≡ 26) ⊎ ((pt ≡ 97) ⊎ ((pt ≡ 98) ⊎ (pt ≡ 99)))

make_rtpmap-video : (pt : ℕ) → IsVideoType pt → make_rtpmap pt 90000 ≡ some (video_rtpmap pt)
unfolding make_rtpmap print_u32
make_rtpmap-video pt h = elim h [
  | inl e ↦ rw e refl
  | inr (inl e) ↦ rw e refl
  | inr (inr (inl e)) ↦ rw e refl
  | inr (inr (inr e)) ↦ rw e refl
]

-- A video of payload type 26, 97, 98 or 99 (JPEG, MP4V-ES, H264 and H265) that is added without a
-- map is found by the map that makeRtpmap makes for its type and a clock of 90000, if no video
-- before it has that map.
pub get_payload_type_by_rtpmap-add_video_info :
    (memory : MediaKind) (info : SdpMedia) (sdp : Sdp)
    → IsVideoType info.payload_type
    → info.rtpmap ≡ []
    → NoneHas (video_rtpmap info.payload_type) sdp.video_info_list
    → (rtpmap : List ℕ) × (make_rtpmap info.payload_type 90000 ≡ some rtpmap)
      × (get_payload_type_by_rtpmap (add_video_info memory info sdp) rtpmap ≡ info.payload_type)
unfolding get_payload_type_by_rtpmap add_video_info
get_payload_type_by_rtpmap-add_video_info memory info sdp t e h =
    let kept = with_rtpmap video_rtpmap memory info in
    let map : kept.rtpmap ≡ video_rtpmap info.payload_type = rw e refl in
    let type : kept.payload_type ≡ info.payload_type = rw e refl in
    (
      video_rtpmap info.payload_type,
      make_rtpmap-video info.payload_type t,
      find_payload_type-last _ sdp.video_info_list kept sdp.audio_info_list h map ∙ type,
    )
