-- ===== src/Session/Lifecycle.antt =====
-- The constructor, destructor, start, stop and check_client of rtsp/mk_rtsp_connection.cpp, and
-- start_recv, stop_recv and handle_timeout of mk_client_connection.cpp, which call them.
use lib_media_service.Common.{
  ℕ, ◌-◌, Bool, true, false, not, Option, none, some, List, [], ltb, if◌then◌else◌, on_some, Status,
  ok, fail, timeout, is_ok,
}
use lib_media_service.Client.{
  ClientStatus, MediaCallBack, new_client_connection, connected, timed_out,
  handle_connection_status,
}
use lib_media_service.UdpHandle.{UdpHandle, stop_handle}
use lib_media_service.RtspService.{RtspService, free_rtp_rtcp_pair}
use lib_media_service.Session.{
  Session, Url, Outside, Result, status_init, options_method, silent, send_plain_req,
}
use lib_media_service.Session.Response.{report, after_report}

-- The constructor at the time `now`: as_init_url and port 554, and PT_TYPE_MAX.
unfoldable pub new_session : MediaCallBack → ℕ → Session
new_session cb now = record {
  client = new_client_connection cb;
  status = status_init;
  setup_tcp = false;
  video_rtp_handle = none;
  video_rtcp_handle = none;
  audio_rtp_handle = none;
  audio_rtcp_handle = none;
  url = record { host = []; port = 554; uri = []; username = []; password = [] };
  media_info_list = [];
  seq = 0;
  seq_method_map = [];
  h264_payload_type = 255;
  h265_payload_type = 255;
  last_recv = now;
  authen_time = 0;
  authenticate = [];
  sdp_info = [];
}

-- The pair of an RTP handle goes back to the pool, if there is one.
abbrev pub free_pair_of : Option UdpHandle → RtspService → RtspService
free_pair_of none service = service
free_pair_of (some rtp) service = free_rtp_rtcp_pair service rtp

-- The destructor.
unfoldable pub delete_session : Session → RtspService → RtspService
unfolding free_rtp_rtcp_pair
delete_session s service = free_pair_of s.audio_rtp_handle (free_pair_of s.video_rtp_handle service)

unfoldable pub set_rtp_over_tcp : Session → Session
set_rtp_over_tcp s = record s { setup_tcp = true }

-- What start is answered: as_digest_init, as_parse_url of the client's URL, and regTcpClient.
pub record Opening : Type 0 where
  pub digest_init : Status
  pub parse_url : List ℕ → Option Url
  pub register_tcp : Status

unfoldable pub start : Outside → Opening → Session → RtspService → Option Result
unfolding handle_connection_status send_plain_req
start o p s service =
    if not (is_ok p.digest_init)
    then some (silent fail s service)
    else on_some (p.parse_url s.client.url) (some (silent fail s service)) λ url.
      let s1 = record s { url = url } in
      if not (is_ok p.register_tcp)
      then some (silent fail s1 service)
      else let (s2, calls) = report s1 connected in
        after_report calls (
          on_some (send_plain_req o s2 service options_method 0) none
            λ r. if is_ok r.code then some r else some (record r { code = fail }))

-- A handle that is stopped, if there is one.
abbrev stop_one : Option UdpHandle → Option UdpHandle
stop_one none = none
stop_one (some h) = some (stop_handle h).0

-- stop, whose removal of the TCP client from the network service is not part of the state.
unfoldable pub stop : Session → Session
unfolding stop_handle
stop s = record s {
  video_rtp_handle = stop_one s.video_rtp_handle;
  video_rtcp_handle = stop_one s.video_rtcp_handle;
  audio_rtp_handle = stop_one s.audio_rtp_handle;
  audio_rtcp_handle = stop_one s.audio_rtcp_handle;
}

-- check_client at the time `now`, a time_t, which is signed: a clock set back is no timeout.
unfoldable pub check_client : Session → ℕ → Status × Session × List ClientStatus
unfolding handle_connection_status
check_client s now =
    let (s1, calls) = report s timed_out in
    if ltb 20 (now - s.last_recv) then (timeout, s1, calls) else (ok, s, [])

abbrev set_registered : Session → Bool → Session
set_registered s flag = record s { client = record s.client { timer_registered = flag } }

-- start_recv: `registered` is the answer of registerTimer.
unfoldable pub start_recv : Outside → Opening → Status → Session → RtspService → Option Result
unfolding start
start_recv o p registered s service = on_some (start o p s service) none λ r.
    if not (is_ok r.code)
    then some (record r { code = fail })
    else if not (is_ok registered)
    then some (record r { code = fail; session = set_registered r.session false })
    else some (record r { code = ok; session = set_registered r.session true })

-- cancelTimer if the timer is registered: the flag says whether it is called.
abbrev cancel_timer : Session → Session × Bool
cancel_timer s = if s.client.timer_registered then (set_registered s false, true) else (s, false)

-- stop_recv: the session, and whether the timer is cancelled.
unfoldable pub stop_recv : Session → Session × Bool
unfolding stop
stop_recv s = let (s1, cancelled) = cancel_timer s in (stop s1, cancelled)

-- handle_timeout at the time `now`: the session, whether the timer is cancelled, and the reports.
unfoldable pub handle_timeout : Session → ℕ → Session × Bool × List ClientStatus
unfolding check_client
handle_timeout s now =
    let (code, s1, calls) = check_client s now in
    let (s2, cancelled) = cancel_timer s1 in
    if not (is_ok code) then (s2, cancelled, calls) else (s1, false, calls)
