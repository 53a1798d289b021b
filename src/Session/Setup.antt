-- ===== src/Session/Setup.antt =====
-- sendRtspSetupReq of rtsp/mk_rtsp_connection.cpp: the transport of one medium, over the RTSP
-- connection itself or over a pair of UDP ports taken from the pool.
use lib_media_service.Common.{
  ℕ, true, not, Option, none, some, List, ◌++◌, if◌then◌else◌, on_some, codes, print_u32, fail,
  is_ok,
}
use lib_media_service.UdpHandle.{
  HandleType, UdpHandle, video_rtp, audio_rtp, type_max, start_handle,
}
use lib_media_service.RtspService.{RtspService, get_rtp_rtcp_pair}
use lib_media_service.Session.{
  Session, Outside, Result, MediaKind, video_media, audio_media, other_media, MediaInfo,
  setup_method, silent, send_rtsp_req,
}

-- The interleaved channels of a medium; the RTCP channel of audio is RTSP_INTERLEAVE_NUM_AUDIO_RTCP + 1.
abbrev pub channels : MediaKind → List ℕ
channels video_media = codes "0-1"
channels audio_media = codes "2-4"
channels other_media = codes "-"

unfoldable pub tcp_transport : MediaKind → List ℕ
tcp_transport kind = codes "RTP/AVP/TCP;unicast;interleaved=" ++ channels kind

unfoldable pub udp_transport : ℕ → ℕ → List ℕ
udp_transport rtp_port rtcp_port =
    codes "RTP/AVP;unicast;client_port=" ++ print_u32 rtp_port ++ codes "-" ++ print_u32 rtcp_port

-- The handles of a medium, which replace those of an earlier medium of its kind.
abbrev pub place_handles : Session → MediaKind → UdpHandle → UdpHandle → Option Session
place_handles s video_media rtp rtcp =
    some (record s { video_rtp_handle = some rtp; video_rtcp_handle = some rtcp })
place_handles s audio_media rtp rtcp =
    some (record s { audio_rtp_handle = some rtp; audio_rtcp_handle = some rtcp })
place_handles s other_media rtp rtcp = none

abbrev pub rtp_type : MediaKind → HandleType
rtp_type video_media = video_rtp
rtp_type audio_media = audio_rtp
rtp_type other_media = type_max

-- The handles of a pair are started, both with the type of the RTP handle. A handle is a value here:
-- that of the connection stands for the object, of which the pool reads only the index.
unfoldable pub setup_udp :
    Outside → Session → RtspService → MediaInfo → UdpHandle → UdpHandle → Option Result
unfolding start_handle udp_transport send_rtsp_req
setup_udp o s service info rtp rtcp =
    let type = rtp_type info.media_type in
    let (code, rtp') = start_handle rtp type true o.register_rtp in
    let (code2, rtcp') = start_handle rtcp type true o.register_rtcp in
    on_some (place_handles s info.media_type rtp' rtcp) (some (silent fail s service)) λ s1.
      if not (is_ok code)
      then some (silent fail s1 service)
      else on_some (place_handles s info.media_type rtp' rtcp') (some (silent fail s service)) λ s2.
        if not (is_ok code2)
        then some (silent fail s2 service)
        else send_rtsp_req o s2 service setup_method info.control (udp_transport rtp.port rtcp.port)
            0

-- The UDP branch. A pair without its handles, which the pool never gives, is undefined.
unfoldable pub setup_over_udp : Outside → Session → RtspService → MediaInfo → Option Result
unfolding get_rtp_rtcp_pair setup_udp
setup_over_udp o s service info =
    let (pair, service') = get_rtp_rtcp_pair service in
    on_some pair (some (silent fail s service')) λ handles.
      on_some handles.0 none
        λ rtp. on_some handles.1 none λ rtcp. setup_udp o s service' info rtp rtcp

-- sendRtspSetupReq(info).
unfoldable pub send_rtsp_setup_req : Outside → Session → RtspService → MediaInfo → Option Result
unfolding tcp_transport setup_over_udp send_rtsp_req
send_rtsp_setup_req o s service info =
    if s.setup_tcp
    then send_rtsp_req o s service setup_method info.control (tcp_transport info.media_type) 0
    else setup_over_udp o s service info
