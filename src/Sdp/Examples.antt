-- ===== src/Sdp/Examples.antt =====
-- A description, for rtsp/mk_media_sdp.cpp.
use lib_media_service.Common.{
  ℕ, ◌≡◌, refl, Option, none, some, List, [], ◌∷◌, ◌++◌, codes, ◌==◌, if◌then◌else◌, atoi, ok,
  &&-true, true, not, inl, inr, arith,
}
use lib_media_service.Session.{video_media, audio_media, other_media}
use lib_media_service.RtspMessage.Lines.{no_space}
use lib_media_service.Sdp.Media.{IsStrsep, Offer, media_info}
use lib_media_service.Sdp.Decoded.{print_offers, decode_sdp-print_offers}
use lib_media_service.Sdp.Encode.{encode_200_sdp}
use lib_media_service.Sdp.Answer.{answered_sdp, decode_sdp-encode_200_sdp}
use lib_media_service.Sdp.Added.{
  add_video_info, make_rtpmap, get_payload_type_by_rtpmap-add_video_info,
}
use lib_media_service.Sdp.{
  described, get_payload_type_by_rtpmap, SdpMedia, end_tag, Sdp, new_sdp, recvonly,
  audio_info_status,
}
use lib_media_service.Sdp.Decode.{decode_line, decode_sdp}

-- strsep of the C library with a space.
abbrev strsep : List ℕ → List ℕ × Option (List ℕ)
strsep [] = ([], none)
strsep (c ∷ s) = let later = strsep s in if c == 32 then ([], some s) else (c ∷ later.0, later.1)

abbrev text : List ℕ
text =
    codes "v=0"
    ++ end_tag
    ++ codes "s=live"
    ++ end_tag
    ++ codes "c=IN IP4 10.0.0.1"
    ++ end_tag
    ++ codes "a=recvonly "
    ++ end_tag
    ++ codes "m=video 0 RTP/AVP 96"
    ++ end_tag
    ++ codes "a=rtpmap:96 H264/90000"
    ++ end_tag
    ++ codes "a=control:track1"
    ++ end_tag
    ++ codes "m=audio 0 RTP/AVP 8"
    ++ end_tag

decode_text :
    decode_sdp strsep new_sdp text
    ≡ some (
      ok,
      record new_sdp {
        session_name = codes "live";
        conn_addr = codes "10.0.0.1";
        trans_direct = recvonly;
        video_info_list =
            record {
              media_type = video_media;
              payload_type = 96;
              port = 0;
              rtpmap = codes "H264/90000";
              fmtp = [];
              control = codes "track1";
            }
            ∷ [];
        audio_info_list =
            record {
              media_type = audio_media;
              payload_type = 8;
              port = 0;
              rtpmap = [];
              fmtp = [];
              control = [];
            }
            ∷ [];
        parse_status = audio_info_status;
      },
    )
unfolding decode_sdp decode_line atoi
decode_text = refl

strsep-splits :
    (front behind : List ℕ)
    → no_space front ≡ true
    → strsep (front ++ (32 ∷ behind)) ≡ (front, some behind)
strsep-splits [] behind h = refl
strsep-splits (c ∷ front) behind h =
    let parts = &&-true (not (c == 32)) (no_space front) h in
    let other = parts.0 in rw (strsep-splits front behind parts.1) (ground (arith, other))

strsep-IsStrsep : IsStrsep strsep
strsep-IsStrsep = record { splits = strsep-splits }

-- A video and an audio.
abbrev video : Offer
video = record {
  kind = video_media;
  payload_type = 96;
  rtpmap = codes "H264/90000";
  control = codes "track1";
}

abbrev audio : Offer
audio = record {
  kind = audio_media;
  payload_type = 8;
  rtpmap = codes "PCMA/8000";
  control = codes "track2";
}

decode_sdp-print_offers_example :
    (sdp : Sdp) × (decode_sdp strsep new_sdp (print_offers (codes "live") (video ∷ audio ∷ []))
      ≡ some (ok, sdp))
    × (sdp.session_name ≡ codes "live")
    × (sdp.video_info_list ≡ media_info video ∷ [])
    × (sdp.audio_info_list ≡ media_info audio ∷ [])
    × ((described sdp).media
        ≡ record { media_type = video_media; control = codes "track1" }
          ∷ record { media_type = audio_media; control = codes "track2" }
          ∷ [])
decode_sdp-print_offers_example =
    decode_sdp-print_offers strsep strsep-IsStrsep (codes "live") video (audio ∷ []) refl
      (record {
        kind = inl refl;
        type = omega arith;
        rtpmap = refl;
        control = refl;
        controlled = omega arith;
      })
      (
        record {
          kind = inr refl;
          type = omega arith;
          rtpmap = refl;
          control = refl;
          controlled = omega arith;
        },
        tt,
      )

-- A session that plays back.
abbrev session : Sdp
session = record new_sdp {
  session = 7;
  conn_addr = codes "10.0.0.1";
  trans_direct = recvonly;
  ssrc = codes "0100000001";
}

decode_sdp-encode_200_sdp_example :
    decode_sdp strsep new_sdp (encode_200_sdp session 1 100 200 (codes "10.0.0.2") 9000)
    ≡ some (ok, answered_sdp session 1 (codes "10.0.0.2"))
decode_sdp-encode_200_sdp_example =
    decode_sdp-encode_200_sdp strsep strsep-IsStrsep session 1 100 200 (codes "10.0.0.2") 9000
      (record { owner = refl; conn_addr = refl; ssrc = refl }) refl (omega arith)

-- An H.264 video, behind a video of another map.
abbrev added : SdpMedia
added = record {
  media_type = video_media;
  payload_type = 98;
  port = 0;
  rtpmap = [];
  fmtp = [];
  control = [];
}

get_payload_type_by_rtpmap-add_video_info_example :
    (rtpmap : List ℕ) × (make_rtpmap 98 90000 ≡ some rtpmap)
    × (get_payload_type_by_rtpmap
          (add_video_info other_media added
            (record new_sdp { video_info_list = record added { rtpmap = codes "PS/90000" } ∷ [] }))
          rtpmap
        ≡ 98)
get_payload_type_by_rtpmap-add_video_info_example =
    get_payload_type_by_rtpmap-add_video_info other_media added
      (record new_sdp { video_info_list = record added { rtpmap = codes "PS/90000" } ∷ [] })
      (inr (inr (inl refl))) refl (refl, tt)
