-- ===== src/Session/Refusals.antt =====
-- What stops a session of rtsp/mk_rtsp_connection.cpp: answers that are refused, and the timer of
-- mk_client_connection.cpp.
use lib_media_service.Common.{
  ℕ, ◌-◌, ◌≤◌, ◌<◌, ◌≡◌, refl, ◌≢◌, ◌↔◌, ◌⊎◌, inl, inr, true, some, All-map, arith, fail,
}
use lib_media_service.Client.{handle_connection_status}
use lib_media_service.RtspService.{RtspService}
use lib_media_service.RtspMessage.{RtspMessage, get_rtsp_status_code}
use lib_media_service.Session.{Session, Outside, silent}
use lib_media_service.Session.Response.{handle_rtsp_resp}
use lib_media_service.Session.Lifecycle.{check_client, handle_timeout}
use lib_media_service.Session.Invariant.{IsValid}
use lib_media_service.Session.Serve.{find_method-above}

-- An answer with a number that was not given out, or with a code but 200 and 401, fails and leaves the
-- session and the pools as they were, and nothing is sent.
pub handle_rtsp_resp-refused :
    (o : Outside) (s : Session) (service : RtspService) (m : RtspMessage)
    → IsValid s
    → (s.seq ≤ m.cseq)
      ⊎ ((get_rtsp_status_code m o.ok_code ≢ 401) × (get_rtsp_status_code m o.ok_code ≢ 200))
    → handle_rtsp_resp o s service m ≡ some (silent fail s service)
unfolding handle_rtsp_resp
handle_rtsp_resp-refused o s service m v (inl above) =
    let unknown =
      find_method-above m.cseq s.seq_method_map
        (All-map s.seq_method_map (λ entry l. omega (arith, l.0, above)) v.logged) in
    rw unknown refl
handle_rtsp_resp-refused o s service m v (inr code) = ground (arith, code)

-- handle_timeout cancels the check timer exactly if it is registered and nothing was received for more
-- than 20 seconds, and never leaves it registered then.
pub handle_timeout-cancels_iff :
    (s : Session) (now : ℕ)
    → ((handle_timeout s now).1 ≡ true)
      ↔ ((s.client.timer_registered ≡ true) × (20 < now - s.last_recv))
unfolding handle_timeout check_client handle_connection_status
handle_timeout-cancels_iff s now = ground arith
