-- ===== src/Session/Kept.antt =====
-- handleRtspResp of rtsp/mk_rtsp_connection.cpp, handler by handler, on a valid session.
use lib_media_service.Common.{
  ◌+◌, ◌<◌, ◌≡◌, refl, inl, inr, true, not, Option, none, some, List, [], ◌∷◌, ltb, ◌==◌, arith,
  All-map, is_ok,
}
use lib_media_service.UdpHandle.{UdpHandle, start_handle}
use lib_media_service.RtspService.{RtspService, get_rtp_rtcp_pair}
use lib_media_service.RtspMessage.{RtspMessage, get_rtsp_status_code, get_authenticate}
use lib_media_service.Client.{ClientStatus, handshake, running, handle_connection_status}
use lib_media_service.Session.{
  Session, SessionStatus, status_init, status_setup, status_play, status_pause, status_teardown,
  Outside, Result, MediaInfo, Method, describe_method, setup_method, play_method, find_method,
  send_plain_req,
}
use lib_media_service.Session.Setup.{
  place_handles, rtp_type, udp_transport, tcp_transport, setup_udp, setup_over_udp,
  send_rtsp_setup_req,
}
use lib_media_service.Session.Response.{
  next_setup, first_setup, setup_or_play, describe_first, handle_rtsp_describe_resp,
  handle_rtsp_set_up_resp, handle_success, handle_unauthorized, handle_rtsp_resp, report,
  after_report,
}
use lib_media_service.Session.Invariant.{
  IsSent, sends_options, sends_describe, sends_setup, sends_play, IsActive, Logged, IsValid, Keeps,
  undefined, leaves, Same-IsValid, alike, MaySend, find_method-All, on_some-Keeps, if-Keeps,
  then-Keeps, send_rtsp_req-Keeps, place_handles-Same, may_set_up,
}

module _ (o : Outside) where
  setup_udp-Keeps :
      (s : Session) (service : RtspService) (info : MediaInfo) (rtp rtcp : UdpHandle)
      → IsValid s
      → s.seq + 1 < 4294967296
      → Keeps (setup_udp o s service info rtp rtcp)
  unfolding setup_udp
  setup_udp-Keeps s service info rtp rtcp v w =
      let type = rtp_type info.media_type in
      let first = start_handle rtp type true o.register_rtp in
      let second = start_handle rtcp type true o.register_rtcp in
      on_some-Keeps (place_handles s info.media_type first.1 rtcp) (leaves v) λ s1 e1.
        let v1 = Same-IsValid s s1 (place_handles-Same s s1 info.media_type first.1 rtcp e1) v in
        if-Keeps (not (is_ok first.0)) (λ _. leaves v1)
          λ _. on_some-Keeps (place_handles s info.media_type first.1 second.1) (leaves v) λ s2 e2.
            let same = place_handles-Same s s2 info.media_type first.1 second.1 e2 in
            let v2 = Same-IsValid s s2 same v in
            if-Keeps (not (is_ok second.0)) (λ _. leaves v2)
              λ _.
                send_rtsp_req-Keeps o s2 service setup_method info.control
                  (udp_transport rtp.port rtcp.port) 0 v2 (omega (arith, w, same.seq))
                  (may_set_up s2)

  send_rtsp_setup_req-Keeps :
      (s : Session) (service : RtspService) (info : MediaInfo)
      → IsValid s
      → s.seq + 1 < 4294967296
      → Keeps (send_rtsp_setup_req o s service info)
  unfolding send_rtsp_setup_req setup_over_udp
  send_rtsp_setup_req-Keeps s service info v w =
      let (pair, service') = get_rtp_rtcp_pair service in
      if-Keeps s.setup_tcp
        (λ _.
          send_rtsp_req-Keeps o s service setup_method info.control (tcp_transport info.media_type)
            0 v w (may_set_up s))
        λ _. on_some-Keeps pair (leaves v) λ handles _. on_some-Keeps handles.0 undefined λ rtp _.
          on_some-Keeps handles.1 undefined λ rtcp _. setup_udp-Keeps s service' info rtp rtcp v w

  next_setup-Keeps :
      (s : Session) (service : RtspService) (info : MediaInfo) (rest : List MediaInfo)
      → IsValid s
      → s.seq + 1 < 4294967296
      → Keeps (next_setup o s service info rest)
  unfolding next_setup
  next_setup-Keeps s service info rest v w =
      then-Keeps (send_rtsp_setup_req o s service info)
        (send_rtsp_setup_req-Keeps s service info v w)
        λ r v1.
          if-Keeps (is_ok r.code) (λ _. leaves (alike r.session _ refl refl refl refl v1))
            (λ _. leaves v1)

  first_setup-Keeps :
      (s : Session) (service : RtspService) (media : List MediaInfo)
      → IsValid s
      → s.seq + 1 < 4294967296
      → Keeps (first_setup o s service media)
  unfolding first_setup
  first_setup-Keeps s service [] v w = leaves v
  first_setup-Keeps s service (info ∷ rest) v w = next_setup-Keeps s service info rest v w

  handle_rtsp_describe_resp-Keeps :
      (s : Session) (service : RtspService) (m : RtspMessage)
      → IsValid s
      → s.seq + 1 < 4294967296
      → Keeps (handle_rtsp_describe_resp o s service m)
  unfolding handle_rtsp_describe_resp
  handle_rtsp_describe_resp-Keeps s service m v w =
      on_some-Keeps (o.decode_sdp m.content) (leaves (alike s _ refl refl refl refl v))
        λ d _. first_setup-Keeps _ service d.media (alike s _ refl refl refl refl v) w

  -- A session that leaves the first state.
  moves_on :
      (s : Session) (st : SessionStatus) (status : ClientStatus)
      → IsActive st
      → ¬ (st ≡ status_init)
      → IsValid s
      → IsValid (report (record s { status = st }) status).0
  moves_on s st status a n v = record {
    logged = All-map s.seq_method_map (λ entry l. (l.0, l.1, λ e. absurd (n e))) v.logged;
    active = a;
    tries = v.tries;
  }

  pub after_report-Keeps :
      (calls : List ClientStatus) (r : Option Result) → Keeps r → Keeps (after_report calls r)
  after_report-Keeps calls none h = undefined
  after_report-Keeps calls (some r) (leaves h) = leaves (alike r.session _ refl refl refl refl h)

  setup_or_play-Keeps :
      (s : Session) (service : RtspService) (m : RtspMessage) (media : List MediaInfo)
      → IsValid s
      → s.seq + 1 < 4294967296
      → Keeps (setup_or_play o s service m media)
  unfolding setup_or_play send_plain_req handle_connection_status
  setup_or_play-Keeps s service m (info ∷ rest) v w = next_setup-Keeps s service info rest v w
  setup_or_play-Keeps s service m [] v w =
      let next = report (record s { status = status_setup }) handshake in
      after_report-Keeps next.1 (send_plain_req o next.0 service play_method m.session_id) (
        send_rtsp_req-Keeps o next.0 service play_method [] [] m.session_id
          (moves_on s status_setup handshake (inr (inl refl)) (λ e. cc) v) w
          (sends_play, λ e _. cc))

  describe_first-Keeps :
      (s : Session) (service : RtspService) (st : SessionStatus)
      → IsValid s
      → s.seq + 1 < 4294967296
      → Keeps (describe_first o s service st)
  unfolding describe_first send_plain_req
  describe_first-Keeps s service status_init v w =
      send_rtsp_req-Keeps o s service describe_method [] [] 0 v w (sends_describe, λ _ e. cc)
  describe_first-Keeps s service status_setup v w = leaves v
  describe_first-Keeps s service status_play v w = leaves v
  describe_first-Keeps s service status_pause v w = leaves v
  describe_first-Keeps s service status_teardown v w = leaves v

  handle_success-Keeps :
      (s : Session) (service : RtspService) (m : RtspMessage) (method : Method)
      → IsValid s
      → s.seq + 1 < 4294967296
      → IsSent method
      → Keeps (handle_success o s service m method)
  unfolding handle_success handle_rtsp_set_up_resp handle_connection_status
  handle_success-Keeps s service m _ v w sends_describe =
      handle_rtsp_describe_resp-Keeps s service m v w
  handle_success-Keeps s service m _ v w sends_setup =
      setup_or_play-Keeps s service m s.media_info_list v w
  handle_success-Keeps s service m _ v w sends_play =
      leaves (moves_on s status_play running (inr (inr refl)) (λ e. cc) v)
  handle_success-Keeps s service m _ v w sends_options = describe_first-Keeps s service s.status v w

  handle_unauthorized-Keeps :
      (s : Session) (service : RtspService) (m : RtspMessage) (method : Method)
      → IsValid s
      → s.seq + 1 < 4294967296
      → MaySend s method
      → Keeps (handle_unauthorized o s service m method)
  unfolding handle_unauthorized send_plain_req
  handle_unauthorized-Keeps s service m method v w p =
      if-Keeps (ltb 3 s.authen_time) (λ _. leaves v)
        λ few. on_some-Keeps (get_authenticate m) (leaves v) λ challenge _.
          let s1 = record s { authenticate = challenge } in
          let v1 = alike s s1 refl refl refl refl v in
          if-Keeps (not (is_ok (o.is_digest challenge))) (λ _. leaves v1)
            λ _.
              if-Keeps (is_ok (o.client_parse challenge)) (λ _. leaves v1)
                λ _.
                  send_rtsp_req-Keeps o (record s1 { authen_time = s.authen_time + 1 }) service
                    method [] [] 0
                    (record { logged = v1.logged; active = v.active; tries = ground arith }) w p

  -- handleRtspResp of any message keeps a session valid: the numbers of its log are already given out,
  -- its methods are OPTIONS, DESCRIBE, SETUP and PLAY, it has no PLAY as long as the session is in its
  -- first state, the session is in one of the states before, after SETUP or in PLAY, and it was
  -- challenged at most four times. The numbers given out must be below the last of a uint32_t.
  pub handle_rtsp_resp-Keeps :
      (s : Session) (service : RtspService) (m : RtspMessage)
      → IsValid s
      → s.seq + 1 < 4294967296
      → Keeps (handle_rtsp_resp o s service m)
  unfolding handle_rtsp_resp
  handle_rtsp_resp-Keeps s service m v w =
      on_some-Keeps (find_method m.cseq s.seq_method_map) (leaves v) λ method e.
        let found = find_method-All (Logged s) m.cseq method s.seq_method_map v.logged e in
        let code = get_rtsp_status_code m o.ok_code in
        if-Keeps (code == 401)
          (λ _. handle_unauthorized-Keeps s service m method v w (found.1, found.2))
          (λ _.
            if-Keeps (not (code == 200)) (λ _. leaves v)
              (λ _. handle_success-Keeps s service m method v w found.1))
