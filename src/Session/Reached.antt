-- ===== src/Session/Reached.antt =====
-- A client of rtsp/mk_rtsp_connection.cpp from its constructor on: start, the answers of the server in any
-- order, timeouts and stop, with whatever the outside answers each time.
use lib_media_service.Common.{
  ℕ, ◌+◌, ◌<◌, ◌≡◌, refl, subst, inl, not, some, List, [], Status, is_ok, arith,
}
use lib_media_service.Client.{MediaCallBack, connected, teardown, set_url, handle_connection_status}
use lib_media_service.RtspService.{RtspService}
use lib_media_service.RtspMessage.{RtspMessage}
use lib_media_service.Session.{Session, Outside, Result, options_method, send_plain_req}
use lib_media_service.Session.Response.{handle_rtsp_resp, report}
use lib_media_service.Session.Lifecycle.{
  Opening, new_session, set_rtp_over_tcp, start, start_recv, stop, stop_recv, check_client,
  handle_timeout,
}
use lib_media_service.Session.Invariant.{
  IsValid, Keeps, leaves, alike, sends_options, on_some-Keeps, if-Keeps, then-Keeps,
  send_rtsp_req-Keeps,
}
use lib_media_service.Session.Kept.{after_report-Keeps, handle_rtsp_resp-Keeps}

-- The sessions that come about. `heard` and `given_up` are what handle_recv does to a session apart from
-- the answers. Each number given out stays below the last of a uint32_t.
pub data Reached : Session → Type 0 where
  created : (cb : MediaCallBack) (now : ℕ) → Reached (new_session cb now)
  over_tcp : {s : Session} → Reached s → Reached (set_rtp_over_tcp s)
  given_url :
      {s : Session} (url : List ℕ)
      → Reached s
      → Reached (record s { client = set_url s.client url })
  heard : {s : Session} (now : ℕ) → Reached s → Reached (record s { last_recv = now })
  given_up :
      {s : Session}
      → Reached s
      → Reached (record s { client = (handle_connection_status s.client teardown).0 })
  started :
      {s : Session} {r : Result} (o : Outside) (p : Opening) (registered : Status)
      (service : RtspService)
      → Reached s
      → s.seq + 1 < 4294967296
      → start_recv o p registered s service ≡ some r
      → Reached r.session
  answered :
      {s : Session} {r : Result} (o : Outside) (service : RtspService) (m : RtspMessage)
      → Reached s
      → s.seq + 1 < 4294967296
      → handle_rtsp_resp o s service m ≡ some r
      → Reached r.session
  timed : {s : Session} (now : ℕ) → Reached s → Reached (handle_timeout s now).0
  stopped : {s : Session} → Reached s → Reached (stop_recv s).0

start-Keeps :
    (o : Outside) (p : Opening) (s : Session) (service : RtspService)
    → IsValid s
    → s.seq + 1 < 4294967296
    → Keeps (start o p s service)
unfolding start send_plain_req handle_connection_status
start-Keeps o p s service v w =
    if-Keeps (not (is_ok p.digest_init)) (λ _. leaves v)
      λ _. on_some-Keeps (p.parse_url s.client.url) (leaves v) λ url _.
        let s1 : Session = record s { url = url } in
        let v1 = alike s s1 refl refl refl refl v in
        if-Keeps (not (is_ok p.register_tcp)) (λ _. leaves v1)
          λ _.
            let next = report s1 connected in
            let v2 = alike s next.0 refl refl refl refl v in
            after_report-Keeps o next.1 _ (
              then-Keeps (send_plain_req o next.0 service options_method 0)
                (send_rtsp_req-Keeps o next.0 service options_method [] [] 0 v2 w
                  (sends_options, λ _ e. cc))
                λ r v3. if-Keeps (is_ok r.code) (λ _. leaves v3) (λ _. leaves v3))

start_recv-Keeps :
    (o : Outside) (p : Opening) (registered : Status) (s : Session) (service : RtspService)
    → IsValid s
    → s.seq + 1 < 4294967296
    → Keeps (start_recv o p registered s service)
unfolding start_recv
start_recv-Keeps o p registered s service v w =
    then-Keeps (start o p s service) (start-Keeps o p s service v w) λ r v1.
      if-Keeps (not (is_ok r.code)) (λ _. leaves v1)
        λ _.
          if-Keeps (not (is_ok registered)) (λ _. leaves (alike r.session _ refl refl refl refl v1))
            λ _. leaves (alike r.session _ refl refl refl refl v1)

inside : {r : Result} → Keeps (some r) → IsValid r.session
inside (leaves v) = v

new_session-IsValid : (cb : MediaCallBack) (now : ℕ) → IsValid (new_session cb now)
unfolding new_session
new_session-IsValid cb now = record { logged = tt; active = inl refl; tries = omega arith }

handle_timeout-IsValid : (s : Session) (now : ℕ) → IsValid s → IsValid (handle_timeout s now).0
unfolding handle_timeout check_client handle_connection_status
handle_timeout-IsValid s now v =
    alike s _ (ground arith) (ground arith) (ground arith) (ground arith) v

stop_recv-IsValid : (s : Session) → IsValid s → IsValid (stop_recv s).0
unfolding stop_recv stop
stop_recv-IsValid s v = alike s _ (ground arith) (ground arith) (ground arith) (ground arith) v

-- However a session has come about, from its constructor by start, answers, timeouts, teardown and
-- stop in any order, with any URL: the numbers of its log are given out, its methods are OPTIONS,
-- DESCRIBE, SETUP and PLAY, there is no PLAY as long as the session is in its first state, it is in
-- that state, after SETUP or in PLAY, and m_ulAuthenTime, which counts the challenges that a
-- request was sent again for, is at most four. The numbers given out stay below the last of a
-- uint32_t.
pub Reached-IsValid : {s : Session} → Reached s → IsValid s
unfolding set_rtp_over_tcp
Reached-IsValid (created cb now) = new_session-IsValid cb now
Reached-IsValid (over_tcp {s} r) = alike s _ refl refl refl refl (Reached-IsValid r)
Reached-IsValid (given_url {s} url r) = alike s _ refl refl refl refl (Reached-IsValid r)
Reached-IsValid (heard {s} now r) = alike s _ refl refl refl refl (Reached-IsValid r)
Reached-IsValid (given_up {s} r) = alike s _ refl refl refl refl (Reached-IsValid r)
Reached-IsValid (started {s} o p registered service r w e) =
    inside (subst Keeps e (start_recv-Keeps o p registered s service (Reached-IsValid r) w))
Reached-IsValid (answered {s} o service m r w e) =
    inside (subst Keeps e (handle_rtsp_resp-Keeps o s service m (Reached-IsValid r) w))
Reached-IsValid (timed {s} now r) = handle_timeout-IsValid s now (Reached-IsValid r)
Reached-IsValid (stopped {s} r) = stop_recv-IsValid s (Reached-IsValid r)
