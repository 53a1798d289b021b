-- ===== src/Sdp/Encode.antt =====
-- rtsp/mk_media_sdp.cpp: encodeSdp and encode200Sdp, as lists of lines.
use lib_media_service.Common.{
  ℕ, Option, none, some, List, [], ◌∷◌, ◌++◌, ◌==◌, codes, print_u32, print_lld, Bool, true, false,
}
use lib_media_service.Sdp.{print_lines, Direction, recvonly, sendonly, sendrecv, direction_max, Sdp}

-- The lines that are printed only in some cases.
abbrev pub owner_line : Sdp → Bool → List (List ℕ)
owner_line sdp true = (codes "u=" ++ (sdp.owner ++ codes ":255")) ∷ []
owner_line sdp false = []

abbrev pub conn_line : Sdp → List (List ℕ)
conn_line sdp = elim sdp.conn_addr [ [] ↦ [] | c ∷ s ↦ (codes "c=IN IP4 " ++ (c ∷ s)) ∷ [] ]

abbrev pub direction_line : Direction → List (List ℕ)
direction_line recvonly = codes "a=recvonly" ∷ []
direction_line sendonly = codes "a=sendonly" ∷ []
direction_line sendrecv = codes "a=sendrecv" ∷ []
direction_line direction_max = []

abbrev pub ssrc_line : List ℕ → List (List ℕ)
ssrc_line [] = []
ssrc_line (c ∷ s) = (codes "y=" ++ (c ∷ s)) ∷ []

-- The lines o= and t=.
abbrev pub origin : Sdp → List ℕ
origin sdp =
    let address : List ℕ = elim sdp.conn_addr [ [] ↦ codes "vds.allcam.com" | c ∷ s ↦ c ∷ s ] in
    codes "o=" ++ (sdp.owner ++ (32 ∷ (print_u32 sdp.session ++ (codes " 0 IN IP4 " ++ address))))

abbrev pub times : Bool → ℕ → ℕ → List ℕ
times true start_time end_time = codes "t=" ++ (print_lld start_time ++ (32 ∷ print_lld end_time))
times false start_time end_time = codes "t=0 0"

-- encode200Sdp: the answer to a request for the output of audio. The times are longs, as their bits.
unfoldable pub encode_200_sdp : Sdp → ℕ → ℕ → ℕ → List ℕ → ℕ → List ℕ
encode_200_sdp sdp isplayback start_time end_time ip port = print_lines (
    codes "v=0"
    ∷ origin sdp
    ∷ codes "s=BroadCast"
    ∷ (owner_line sdp (isplayback == 1)
        ++ ((codes "c=IN IP4 " ++ ip)
            ∷ times (isplayback == 1) start_time end_time
            ∷ (codes "m=audio " ++ (print_u32 port ++ codes " RTP/AVP 8"))
            ∷ codes "a=rtpmap:8 PCMA/8000"
            ∷ (direction_line sdp.trans_direct ++ ssrc_line sdp.ssrc))))

-- encodeSdp. For a medium, encodeMediaDesc takes the address of the list's pointer for the address of a
-- SDP_MEDIA_INFO and reads behind it: `none`.
unfoldable pub encode_sdp : Sdp → ℕ → ℕ → ℕ → Option (List ℕ)
encode_sdp sdp isplayback start_time end_time = elim (sdp.video_info_list ++ sdp.audio_info_list) [
  | [] ↦ some (
      print_lines (
        codes "v=0"
        ∷ origin sdp
        ∷ (codes "s=" ++ sdp.session_name)
        ∷ (owner_line sdp (isplayback == 1)
            ++ (conn_line sdp
                ++ (times (isplayback == 1) start_time end_time
                    ∷ (direction_line sdp.trans_direct ++ ssrc_line sdp.ssrc))))))
  | m ∷ ms ↦ none
]
