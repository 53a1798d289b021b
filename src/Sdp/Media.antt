-- ===== src/Sdp/Media.antt =====
-- The lines of a medium in a description, decoded by decodeSdp of rtsp/mk_media_sdp.cpp.
use lib_media_service.Common.{
  ℕ, ◌%◌, ◌<◌, ◌≡◌, ◌⊎◌, inl, inr, refl, sym, ap, ◌∙◌, Bool, true, false, Option, none, some, List,
  [], ◌∷◌, ◌++◌, length, length-append, arith, if◌then◌else◌, codes, skip_spaces, print_u32, atoi,
  ltb, Status, ok,
}
use lib_media_service.RtspMessage.Lines.{no_space}
use lib_media_service.RtspMessage.Numbers.{print_u32-Prints}
use lib_media_service.Session.{MediaKind, video_media, audio_media, other_media}
use lib_media_service.Sdp.{
  Sdp, SdpMedia, Decoding, video_info_status, audio_info_status, change_last, change_media,
  add_media, parse_media_desc, parse_media_attributes,
}
use lib_media_service.Sdp.Decode.{decode_line}
use lib_media_service.Sdp.Lines.{
  in_line, in_line-append, print_u32-in_line, Steps, done, step, print_u32-IsDigit,
  skip_spaces-digit, atoi-print_u32,
}

-- What the code relies on of as_strsep with a space: of a text with a space, it gives what is in front
-- of the first, and what is behind it.
pub record IsStrsep (strsep : List ℕ → List ℕ × Option (List ℕ)) : Type 0 where
  pub splits :
      (front behind : List ℕ)
      → no_space front ≡ true
      → strsep (front ++ (32 ∷ behind)) ≡ (front, some behind)

-- A medium that a server offers.
pub record Offer : Type 0 where
  pub kind : MediaKind
  pub payload_type : ℕ
  pub rtpmap : List ℕ
  pub control : List ℕ

abbrev kind_name : MediaKind → List ℕ
kind_name video_media = codes "video"
kind_name _ = codes "audio"

-- Its lines, as RFC 4566 has them.
abbrev pub offer_lines : Offer → List (List ℕ)
offer_lines o =
    (codes "m=" ++ (kind_name o.kind ++ (codes " 0 RTP/AVP " ++ print_u32 o.payload_type)))
    ∷ (codes "a=rtpmap:" ++ (print_u32 o.payload_type ++ (32 ∷ o.rtpmap)))
    ∷ (codes "a=control:" ++ o.control)
    ∷ []

-- A medium that can be offered: a video or an audio, with texts that are parts of lines.
pub record IsOffer (o : Offer) : Type 0 where
  pub kind : (o.kind ≡ video_media) ⊎ (o.kind ≡ audio_media)
  pub type : o.payload_type < 256
  pub rtpmap : in_line o.rtpmap ≡ true
  pub control : in_line o.control ≡ true
  pub controlled : 0 < length o.control

-- What is kept of it.
abbrev pub media_info : Offer → SdpMedia
media_info o = record {
  media_type = o.kind;
  payload_type = o.payload_type;
  port = 0;
  rtpmap = o.rtpmap;
  fmtp = [];
  control = o.control;
}

change_last-snoc :
    (f : SdpMedia → SdpMedia) (ms : List SdpMedia) (m : SdpMedia)
    → change_last f (ms ++ (m ∷ [])) ≡ ms ++ (f m ∷ [])
change_last-snoc f [] m = refl
change_last-snoc f (a ∷ []) m = refl
change_last-snoc f (a ∷ b ∷ ms) m = ap (◌∷◌ a) (change_last-snoc f (b ∷ ms) m)

-- A description whose last medium is `m`.
abbrev pub with_medium : Sdp → SdpMedia → MediaKind → Sdp
with_medium sdp m video_media = record sdp {
  parse_status = video_info_status;
  video_info_list = sdp.video_info_list ++ (m ∷ []);
}
with_medium sdp m audio_media = record sdp {
  parse_status = audio_info_status;
  audio_info_list = sdp.audio_info_list ++ (m ∷ []);
}
with_medium sdp m other_media = sdp

abbrev pub pointed : MediaKind → Option MediaKind
pointed other_media = none
pointed kind = some kind

abbrev pub holding : Sdp → SdpMedia → MediaKind → Decoding
holding sdp m kind = record { sdp = with_medium sdp m kind; current = pointed kind; first = false }

abbrev decoded : Status × Decoding → Status × Decoding
decoded r = (r.0, record r.1 { first = false })

if-same {ℓ} : {A : Type ℓ} (b : Bool) (x : A) → (if b then x else x) ≡ x
if-same true x = refl
if-same false x = refl

media-in_line :
    (kind : MediaKind) (pt : ℕ)
    → in_line (codes "m=" ++ (kind_name kind ++ (codes " 0 RTP/AVP " ++ print_u32 pt))) ≡ true
media-in_line video_media pt =
    in_line-append (codes "m=video 0 RTP/AVP ") (print_u32 pt) refl (print_u32-in_line pt)
media-in_line audio_media pt =
    in_line-append (codes "m=audio 0 RTP/AVP ") (print_u32 pt) refl (print_u32-in_line pt)
media-in_line other_media pt =
    in_line-append (codes "m=audio 0 RTP/AVP ") (print_u32 pt) refl (print_u32-in_line pt)

rtpmap-in_line :
    (pt : ℕ) (rtpmap : List ℕ)
    → in_line rtpmap ≡ true
    → in_line (codes "a=rtpmap:" ++ (print_u32 pt ++ (32 ∷ rtpmap))) ≡ true
rtpmap-in_line pt rtpmap h = in_line-append (print_u32 pt) (32 ∷ rtpmap) (print_u32-in_line pt) h

module _ (strsep : List ℕ → List ℕ × Option (List ℕ)) (h : IsStrsep strsep) where
  -- The line of a medium, behind its letter.
  parse_media_desc-offer :
      (d : Decoding) (kind : MediaKind) (pt : ℕ)
      → (kind ≡ video_media) ⊎ (kind ≡ audio_media)
      → pt < 256
      → parse_media_desc strsep d (kind_name kind ++ (codes " 0 RTP/AVP " ++ print_u32 pt))
        ≡ (ok, add_media d kind pt)
  unfolding parse_media_desc
  parse_media_desc-offer d kind pt w l =
      let (c, t, e, low, high) = print_u32-IsDigit pt in
      let behind = codes "0 RTP/AVP " ++ print_u32 pt in
      let port = h.splits (codes "0") (codes "RTP/AVP " ++ print_u32 pt) refl in
      let profile = h.splits (codes "RTP/AVP") (print_u32 pt) refl in
      let digits = ap skip_spaces e ∙ skip_spaces-digit c t low in
      let value = ap atoi (sym e) ∙ atoi-print_u32 pt (omega (arith, l)) in
      elim w [
        | inl k ↦ rw (k, h.splits (codes "video") behind refl, port, profile, digits, value) refl
        | inr k ↦ rw (k, h.splits (codes "audio") behind refl, port, profile, digits, value) refl
      ]

  rtpmap-offer :
      (sdp : Sdp) (kind : MediaKind) (pt : ℕ) (rtpmap : List ℕ)
      → pt < 256
      → parse_media_attributes strsep sdp kind (codes "rtpmap:" ++ (print_u32 pt ++ (32 ∷ rtpmap)))
        ≡ (ok, change_media (λ m. record m { rtpmap = rtpmap }) kind sdp)
  unfolding parse_media_attributes
  rtpmap-offer sdp kind pt rtpmap l =
      let text = codes "rtpmap:" ++ (print_u32 pt ++ (32 ∷ rtpmap)) in
      let size = length-append (print_u32 pt) (32 ∷ rtpmap) in
      let long : ltb 7 (length text) ≡ true = ground (arith, size) in
      let split =
        h.splits (codes "rtpmap:" ++ print_u32 pt) rtpmap
          (print_u32-Prints pt (omega (arith, l))).compact in
      rw (long, split) (if-same (ltb 8 (length text)) _)

  control-offer :
      (sdp : Sdp) (kind : MediaKind) (control : List ℕ)
      → 0 < length control
      → parse_media_attributes strsep sdp kind (codes "control:" ++ control)
        ≡ (ok, change_media (λ m. record m { control = control }) kind sdp)
  unfolding parse_media_attributes
  control-offer sdp kind control l =
      let text = codes "control:" ++ control in
      let seven : ltb 7 (length text) ≡ true = ground (arith, l) in
      let five : ltb 5 (length text) ≡ true = ground (arith, l) in
      let eight : ltb 8 (length text) ≡ true = ground (arith, l) in rw (seven, five, eight) refl

  media_line :
      (sdp : Sdp) (current : Option MediaKind) (kind : MediaKind) (pt : ℕ)
      → (kind ≡ video_media) ⊎ (kind ≡ audio_media)
      → pt < 256
      → decode_line strsep
          (record { sdp = sdp; current = current; first = false })
          (codes "m=" ++ (kind_name kind ++ (codes " 0 RTP/AVP " ++ print_u32 pt)))
        ≡ (
          ok,
          holding sdp
              (record {
                media_type = kind;
                payload_type = pt;
                port = 0;
                rtpmap = [];
                fmtp = [];
                control = [];
              })
              kind,
        )
  unfolding decode_line add_media
  media_line sdp current video_media pt w l =
      ap decoded (
        parse_media_desc-offer (record { sdp = sdp; current = current; first = false }) video_media
          pt w l)
      ∙ ap
          (λ n. (
            ok,
            holding sdp
                (record {
                  media_type = video_media;
                  payload_type = n;
                  port = 0;
                  rtpmap = [];
                  fmtp = [];
                  control = [];
                })
                video_media,
          ))
          {x = pt % 256} {y = pt} (omega (arith, l))
  media_line sdp current audio_media pt w l =
      ap decoded (
        parse_media_desc-offer (record { sdp = sdp; current = current; first = false }) audio_media
          pt w l)
      ∙ ap
          (λ n. (
            ok,
            holding sdp
                (record {
                  media_type = audio_media;
                  payload_type = n;
                  port = 0;
                  rtpmap = [];
                  fmtp = [];
                  control = [];
                })
                audio_media,
          ))
          {x = pt % 256} {y = pt} (omega (arith, l))
  media_line sdp current other_media pt w l = absurd (elim w [ inl k ↦ cc | inr k ↦ cc ])

  attribute_line :
      (sdp : Sdp) (m : SdpMedia) (kind : MediaKind) (f : SdpMedia → SdpMedia) (text : List ℕ)
      → (kind ≡ video_media) ⊎ (kind ≡ audio_media)
      → skip_spaces text ≡ text
      → parse_media_attributes strsep (holding sdp m kind).sdp kind text
        ≡ (ok, change_media f kind (holding sdp m kind).sdp)
      → decode_line strsep (holding sdp m kind) (codes "a=" ++ text) ≡ (ok, holding sdp (f m) kind)
  unfolding decode_line
  attribute_line sdp m video_media f text w e g =
      rw (e, g, change_last-snoc f sdp.video_info_list m) refl
  attribute_line sdp m audio_media f text w e g =
      rw (e, g, change_last-snoc f sdp.audio_info_list m) refl
  attribute_line sdp m other_media f text w e g = absurd (elim w [ inl k ↦ cc | inr k ↦ cc ])

  -- The lines of an offer leave its medium.
  pub offer-Steps :
      (sdp : Sdp) (current : Option MediaKind) (o : Offer)
      → IsOffer o
      → Steps strsep
          (record { sdp = sdp; current = current; first = false })
          (offer_lines o)
          (holding sdp (media_info o) o.kind)
  offer-Steps sdp current o i =
      let m0 : SdpMedia = record {
        media_type = o.kind;
        payload_type = o.payload_type;
        port = 0;
        rtpmap = [];
        fmtp = [];
        control = [];
      } in
      let m1 = record m0 { rtpmap = o.rtpmap } in
      step _ (holding sdp m0 o.kind) (media-in_line o.kind o.payload_type)
        (media_line sdp current o.kind o.payload_type i.kind i.type)
        (step _ (holding sdp m1 o.kind) (rtpmap-in_line o.payload_type o.rtpmap i.rtpmap)
          (attribute_line sdp m0 o.kind (λ m. record m { rtpmap = o.rtpmap }) _ i.kind refl
            (rtpmap-offer _ o.kind o.payload_type o.rtpmap i.type))
          (step _ (holding sdp (media_info o) o.kind)
            (in_line-append (codes "a=control:") o.control refl i.control)
            (attribute_line sdp m1 o.kind (λ m. record m { control = o.control }) _ i.kind refl
              (control-offer _ o.kind o.control i.controlled))
            done))
