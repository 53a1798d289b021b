-- ===== src/Session/Response.antt =====
-- handleRtspResp, handleRtspDescribeResp and handleRtspSetUpResp of rtsp/mk_rtsp_connection.cpp: what an
-- answer of the server makes the session do.
use lib_media_service.Common.{
  ◌+◌, not, Option, none, some, List, [], ◌∷◌, ◌++◌, ltb, ◌==◌, if◌then◌else◌, on_some, ok, fail,
  is_ok,
}
use lib_media_service.Client.{ClientStatus, handshake, running, teardown, handle_connection_status}
use lib_media_service.RtspService.{RtspService}
use lib_media_service.RtspMessage.{RtspMessage, get_rtsp_status_code, get_authenticate}
use lib_media_service.Session.{
  Session, SessionStatus, status_init, status_setup, status_play, status_pause, status_teardown,
  Outside, Result, MediaInfo, Method, describe_method, setup_method, teardown_method, play_method,
  pause_method, options_method, announce_method, get_parameter_method, set_parameter_method,
  redirect_method, record_method, response_method, illegal_method, find_method, silent,
  send_plain_req,
}
use lib_media_service.Session.Setup.{send_rtsp_setup_req}

-- A SETUP request for the medium `info`, in front of `rest`, which stays in the list unless the request
-- was sent.
unfoldable pub next_setup :
    Outside → Session → RtspService → MediaInfo → List MediaInfo → Option Result
unfolding send_rtsp_setup_req
next_setup o s service info rest = on_some (send_rtsp_setup_req o s service info) none λ r.
    if is_ok r.code
    then some (record r { session = record r.session { media_info_list = rest } })
    else some (record r { code = fail })

-- The end of handleRtspDescribeResp: the first SETUP, of a description with any media.
unfoldable pub first_setup : Outside → Session → RtspService → List MediaInfo → Option Result
unfolding next_setup
first_setup o s service [] = some (silent fail s service)
first_setup o s service (info ∷ rest) = next_setup o s service info rest

-- handleRtspDescribeResp.
unfoldable pub handle_rtsp_describe_resp :
    Outside → Session → RtspService → RtspMessage → Option Result
unfolding first_setup
handle_rtsp_describe_resp o s service m =
    let s1 = record s { sdp_info = m.content } in
    on_some (o.decode_sdp m.content) (some (silent fail s1 service)) λ d.
      first_setup o
        (record s1 {
          h264_payload_type = d.h264;
          h265_payload_type = d.h265;
          media_info_list = d.media;
        })
        service d.media

-- handle_connection_status in front of what follows.
abbrev pub report : Session → ClientStatus → Session × List ClientStatus
report s status =
    let (client, calls) = handle_connection_status s.client status in
    (record s { client = client }, calls)

-- The reports of a call in front of those of what it calls.
abbrev pub after_report : List ClientStatus → Option Result → Option Result
after_report calls none = none
after_report calls (some r) = some (record r { reported = calls ++ r.reported })

-- handleRtspSetUpResp, of the media that are left: the next SETUP, or PLAY.
unfoldable pub setup_or_play :
    Outside → Session → RtspService → RtspMessage → List MediaInfo → Option Result
unfolding next_setup send_plain_req handle_connection_status
setup_or_play o s service m (info ∷ rest) = next_setup o s service info rest
setup_or_play o s service m [] =
    let (s1, calls) = report (record s { status = status_setup }) handshake in
    after_report calls (send_plain_req o s1 service play_method m.session_id)

unfoldable pub handle_rtsp_set_up_resp :
    Outside → Session → RtspService → RtspMessage → Option Result
unfolding setup_or_play
handle_rtsp_set_up_resp o s service m = setup_or_play o s service m s.media_info_list

-- An answer to OPTIONS: DESCRIBE, in the first state only.
unfoldable pub describe_first : Outside → Session → RtspService → SessionStatus → Option Result
unfolding send_plain_req
describe_first o s service status_init = send_plain_req o s service describe_method 0
describe_first o s service status_setup = some (silent ok s service)
describe_first o s service status_play = some (silent ok s service)
describe_first o s service status_pause = some (silent ok s service)
describe_first o s service status_teardown = some (silent ok s service)

-- The switch of handleRtspResp over the method of the request that was answered.
unfoldable pub handle_success :
    Outside → Session → RtspService → RtspMessage → Method → Option Result
unfolding handle_rtsp_describe_resp handle_rtsp_set_up_resp handle_connection_status describe_first
handle_success o s service m describe_method = handle_rtsp_describe_resp o s service m
handle_success o s service m setup_method = handle_rtsp_set_up_resp o s service m
handle_success o s service m teardown_method =
    let (s1, calls) = report (record s { status = status_teardown }) teardown in
    after_report calls (some (silent ok s1 service))
handle_success o s service m play_method =
    let (s1, calls) = report (record s { status = status_play }) running in
    after_report calls (some (silent ok s1 service))
handle_success o s service m pause_method =
    some (silent ok (record s { status = status_pause }) service)
handle_success o s service m options_method = describe_first o s service s.status
handle_success o s service m announce_method = some (silent ok s service)
handle_success o s service m get_parameter_method = some (silent ok s service)
handle_success o s service m set_parameter_method = some (silent ok s service)
handle_success o s service m redirect_method = some (silent ok s service)
handle_success o s service m record_method =
    some (silent ok (record s { status = status_play }) service)
handle_success o s service m response_method = some (silent ok s service)
handle_success o s service m illegal_method = some (silent fail s service)

-- RTSP_STATUS_UNAUTHORIZED: the request again, with the digest. A challenge that as_digest_client_parse
-- takes is refused.
unfoldable pub handle_unauthorized :
    Outside → Session → RtspService → RtspMessage → Method → Option Result
unfolding send_plain_req get_authenticate
handle_unauthorized o s service m method =
    if ltb 3 s.authen_time
    then some (silent fail s service)
    else on_some (get_authenticate m) (some (silent fail s service)) λ challenge.
      let s1 = record s { authenticate = challenge } in
      if not (is_ok (o.is_digest challenge))
      then some (silent fail s1 service)
      else if is_ok (o.client_parse challenge)
      then some (silent fail s1 service)
      else send_plain_req o (record s1 { authen_time = s.authen_time + 1 }) service method 0

-- handleRtspResp.
unfoldable pub handle_rtsp_resp : Outside → Session → RtspService → RtspMessage → Option Result
unfolding find_method get_rtsp_status_code handle_unauthorized handle_success
handle_rtsp_resp o s service m =
    on_some (find_method m.cseq s.seq_method_map) (some (silent fail s service)) λ method.
      let code = get_rtsp_status_code m o.ok_code in
      if code == 401
      then handle_unauthorized o s service m method
      else if not (code == 200)
      then some (silent fail s service)
      else handle_success o s service m method
