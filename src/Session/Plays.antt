-- ===== src/Session/Plays.antt =====
-- A server that accepts every request: rtsp/mk_rtsp_connection.cpp from the answer to OPTIONS to the
-- stream, with the media over the RTSP connection.
use lib_media_service.Common.{
  ℕ, suc, ◌+◌, ◌<◌, ◌≡◌, refl, ap, ◌∙◌, true, some, List, [], ◌∷◌, ◌++◌, length, All, arith, ok,
}
use lib_media_service.Client.{handshake, running, handle_connection_status}
use lib_media_service.RtspService.{RtspService}
use lib_media_service.RtspMessage.{RtspMessage}
use lib_media_service.Session.{
  Session, status_init, status_setup, status_play, Outside, Description, MediaInfo, describe_method,
  setup_method, play_method, options_method, request_url, send_plain_req,
}
use lib_media_service.Session.Response.{
  next_setup, first_setup, setup_or_play, describe_first, handle_rtsp_describe_resp,
  handle_rtsp_set_up_resp, handle_success, handle_rtsp_resp, report, after_report,
}
use lib_media_service.Session.Requests.{Welcome, logged, send_rtsp_req-sends, next_setup-tcp}
use lib_media_service.Session.Serve.{
  accepted, serve, Awaits, logged-Awaits, respond, Plays, plays, serve-step,
}

-- Every medium's URL fits its buffer.
abbrev pub Short : Session → List MediaInfo → Type 0
Short s media = All (λ info. length (request_url s.url info.control) < 512) media

-- A session that has sent the SETUP of a medium and has `media` left.
record Ready (o : Outside) (s : Session) (media : List MediaInfo) : Type 0 where
  welcome : Welcome o s
  tcp : s.setup_tcp ≡ true
  left : s.media_info_list ≡ media
  short : Short s media
  plain : length (request_url s.url []) < 512
  room : s.seq + length media + 1 < 4294967296

on_setup :
    (o : Outside) (s : Session) (service : RtspService) (session_id : ℕ) (content : List ℕ)
    (media : List MediaInfo)
    → Awaits s setup_method
    → s.media_info_list ≡ media
    → handle_rtsp_resp o s service (accepted s session_id content)
      ≡ setup_or_play o s service (accepted s session_id content) media
unfolding handle_success handle_rtsp_set_up_resp
on_setup o s service session_id content media a e =
    respond o s service session_id content setup_method a
    ∙ ap (setup_or_play o s service (accepted s session_id content)) e

-- The answer to PLAY.
play-Plays :
    (o : Outside) (session_id : ℕ) (content : List ℕ) (s : Session) (service : RtspService)
    → Awaits s play_method
    → Plays 0 (serve o 1 session_id content s service)
unfolding serve handle_success handle_connection_status
play-Plays o session_id content s service a =
    let answer = respond o s service session_id content play_method a in
    let next = report (record s { status = status_play }) running in
    let active : next.0.client.status ≡ running = ground arith in
    serve-step o 0 0 0 session_id content s service
      (record {
        code = ok;
        session = next.0;
        service = service;
        sent = [];
        reported = next.1 ++ [];
      })
      refl answer (plays next.0 [] refl active refl)

setups-Plays :
    (o : Outside) (session_id : ℕ) (content : List ℕ) (media : List MediaInfo) (s : Session)
    (service : RtspService)
    → Ready o s media
    → Awaits s setup_method
    → Plays (suc (length media)) (serve o (suc (suc (length media))) session_id content s service)
unfolding setup_or_play send_plain_req handle_connection_status
setups-Plays o session_id content [] s service h a =
    let answer = on_setup o s service session_id content [] a h.left in
    let next = report (record s { status = status_setup }) handshake in
    let sends =
      send_rtsp_req-sends o next.0 service play_method [] [] session_id
        (record { takes = h.welcome.takes; unchallenged = h.welcome.unchallenged }) h.plain
        (omega arith) in
    let room = h.room in
    let await = logged-Awaits next.0 play_method a.fresh (omega (arith, room)) in
    serve-step o 1 0 1 session_id content s service _ refl (answer ∙ ap (after_report next.1) sends)
      (play-Plays o session_id content (logged next.0 play_method) service await)
setups-Plays o session_id content (info ∷ media) s service h a =
    let next : Session = record (logged s setup_method) { media_info_list = media } in
    let answer = on_setup o s service session_id content (info ∷ media) a h.left in
    let sends = next_setup-tcp o s service info media h.welcome h.tcp h.short.0 in
    let room = h.room in
    let await = logged-Awaits s setup_method a.fresh (omega (arith, room)) in
    let rest =
      setups-Plays o session_id content media next service
        (record {
          welcome = record { takes = h.welcome.takes; unchallenged = h.welcome.unchallenged };
          tcp = h.tcp;
          left = refl;
          short = h.short.1;
          plain = h.plain;
          room = omega (arith, room);
        })
        (record { last = await.last; fresh = await.fresh }) in
    serve-step o (suc (suc (length media))) (suc (length media)) (suc (suc (length media)))
      session_id content s service _ (omega arith) (answer ∙ sends) rest

-- The session once a description is decoded.
abbrev described : Session → List ℕ → Description → Session
described s content d = record s {
  sdp_info = content;
  h264_payload_type = d.h264;
  h265_payload_type = d.h265;
  media_info_list = d.media;
}

on_describe :
    (o : Outside) (s : Session) (service : RtspService) (m : RtspMessage) (d : Description)
    (info : MediaInfo) (media : List MediaInfo)
    → o.decode_sdp m.content ≡ some d
    → d.media ≡ info ∷ media
    → handle_rtsp_describe_resp o s service m
      ≡ next_setup o (described s m.content d) service info media
unfolding handle_rtsp_describe_resp first_setup
on_describe o s service m d info media dec med =
    rw dec (ap (first_setup o (described s m.content d) service) med)

-- Over the RTSP connection, a client that has sent OPTIONS, and whose server takes every byte, answers
-- every request with 200, challenges none, and describes at least one medium, has its stream running
-- after the answers to OPTIONS, DESCRIBE, a SETUP for each medium, and PLAY, and sends no other request.
-- The URLs must be shorter than their buffer, and the numbers of the requests stay in a uint32_t.
pub serve-Plays :
    (o : Outside) (session_id : ℕ) (content : List ℕ) (d : Description) (info : MediaInfo)
    (media : List MediaInfo) (s : Session) (service : RtspService)
    → Welcome o s
    → Awaits s options_method
    → s.status ≡ status_init
    → s.setup_tcp ≡ true
    → o.decode_sdp content ≡ some d
    → d.media ≡ info ∷ media
    → Short s (info ∷ media)
    → length (request_url s.url []) < 512
    → s.seq + length media + 4 < 4294967296
    → Plays
        (suc (suc (suc (length media))))
        (serve o (suc (suc (suc (suc (length media))))) session_id content s service)
unfolding handle_success handle_rtsp_describe_resp describe_first first_setup send_plain_req
serve-Plays o session_id content d info media s service h a st tcp dec med short plain room =
    let n = length media in
    let first : Session = logged s describe_method in
    let ask =
      respond o s service session_id content options_method a
      ∙ ap (describe_first o s service) st
      ∙ send_rtsp_req-sends o s service describe_method [] [] 0 h plain (omega arith) in
    let await = logged-Awaits s describe_method a.fresh (omega (arith, room)) in
    let known : Session = described first content d in
    let welcome : Welcome o known = record { takes = h.takes; unchallenged = h.unchallenged } in
    let next : Session = record (logged known setup_method) { media_info_list = media } in
    let set_up =
      respond o first service session_id content describe_method await
      ∙ on_describe o first service (accepted first session_id content) d info media dec med
      ∙ next_setup-tcp o known service info media welcome tcp short.0 in
    let later = logged-Awaits known setup_method await.fresh (omega (arith, room)) in
    let rest =
      setups-Plays o session_id content media next service
        (record {
          welcome = record { takes = h.takes; unchallenged = h.unchallenged };
          tcp = tcp;
          left = refl;
          short = short.1;
          plain = plain;
          room = omega (arith, room);
        })
        (record { last = later.last; fresh = later.fresh }) in
    serve-step o (suc (suc (suc n))) (suc (suc n)) (suc (suc (suc n))) session_id content s service
      _ (omega arith) ask
      (serve-step o (suc (suc n)) (suc n) (suc (suc n)) session_id content first service _
        (omega arith) set_up rest)
