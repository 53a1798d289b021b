-- ===== src/Session/Serve.antt =====
-- A server that accepts every request, for rtsp/mk_rtsp_connection.cpp: what it answers, and what an
-- answer finds in the session.
use lib_media_service.Common.{
  ℕ, zero, suc, ◌+◌, ◌-◌, ◌%◌, ◌<◌, ◌≡◌, refl, Option, none, some, List, [], ◌∷◌, ◌++◌, length,
  length-append, All, All-map, on_some, arith,
}
use lib_media_service.Client.{running}
use lib_media_service.RtspService.{RtspService}
use lib_media_service.RtspMessage.{RtspMessage, new_rtsp_message, get_rtsp_status_code}
use lib_media_service.Session.{
  Session, status_play, Outside, Result, Method, find_method, insert_method,
}
use lib_media_service.Session.Response.{handle_success, handle_rtsp_resp}
use lib_media_service.Session.Requests.{logged}

-- What a server answers to the last request: 200, with a session and a content.
abbrev pub accepted : Session → ℕ → List ℕ → RtspMessage
accepted s session_id content = record new_rtsp_message {
  method_index = 11;
  status_code_index = 1;
  cseq = s.seq - 1;
  session_id = session_id;
  content = content;
}

-- A server that answers `n` requests so.
unfoldable pub serve :
    Outside → ℕ → ℕ → List ℕ → Session → RtspService → Option (Session × List (List ℕ))
unfolding handle_rtsp_resp
serve o zero session_id content s service = some (s, [])
serve o (suc n) session_id content s service =
    on_some (handle_rtsp_resp o s service (accepted s session_id content)) none λ r.
      on_some (serve o n session_id content r.session r.service) none
        λ rest. some (rest.0, r.sent ++ rest.1)

-- The session waits for the answer to a request with this method.
pub record Awaits (s : Session) (method : Method) : Type 0 where
  pub last : find_method (s.seq - 1) s.seq_method_map ≡ some method
  pub fresh : All (λ entry. entry.0 < s.seq) s.seq_method_map

pub find_method-above :
    (key : ℕ) (m : List (ℕ × Method)) → All (λ entry. entry.0 < key) m → find_method key m ≡ none
unfolding find_method
find_method-above key [] h = refl
find_method-above key (entry ∷ m) h =
    let rest = find_method-above key m h.1 in ground (arith, rest, h.0)

pub logged-Awaits :
    (s : Session) (method : Method)
    → All (λ entry. entry.0 < s.seq) s.seq_method_map
    → s.seq + 1 < 4294967296
    → Awaits (logged s method) method
unfolding insert_method find_method
logged-Awaits s method h w =
    let unknown = find_method-above s.seq s.seq_method_map h in
    let inserted : insert_method s.seq method s.seq_method_map
        ≡ (s.seq, method) ∷ s.seq_method_map =
      rw (unknown, insert_method) refl in
    let before : (s.seq + 1) % 4294967296 - 1 ≡ s.seq = omega (arith, w) in
    record {
      last = rw (inserted, before) (ground arith);
      fresh =
          rw inserted
            (omega (arith, w), All-map s.seq_method_map (λ entry l. omega (arith, l, w)) h);
    }

pub respond :
    (o : Outside) (s : Session) (service : RtspService) (session_id : ℕ) (content : List ℕ)
    (method : Method)
    → Awaits s method
    → handle_rtsp_resp o s service (accepted s session_id content)
      ≡ handle_success o s service (accepted s session_id content) method
unfolding handle_rtsp_resp get_rtsp_status_code
respond o s service session_id content method a = rw a.last refl

-- What a server that accepts everything leads to: the stream runs, after `n` requests.
pub data Plays (n : ℕ) : Option (Session × List (List ℕ)) → Type 0 where
  plays :
      (s : Session) (sent : List (List ℕ))
      → s.status ≡ status_play
      → s.client.status ≡ running
      → length sent ≡ n
      → Plays n (some (s, sent))

pub serve-step :
    (o : Outside) (m n k session_id : ℕ) (content : List ℕ) (s : Session) (service : RtspService)
    (r : Result)
    → length r.sent + n ≡ m
    → handle_rtsp_resp o s service (accepted s session_id content) ≡ some r
    → Plays n (serve o k session_id content r.session r.service)
    → Plays m (serve o (suc k) session_id content s service)
unfolding serve
serve-step o m n k session_id content s service r c e p = rw e (go _ p)
  where
    go :
        (x : Option (Session × List (List ℕ)))
        → Plays n x
        → Plays m (on_some x none λ rest. some (rest.0, r.sent ++ rest.1))
    go none p = elim p [ ]
    go (some _) (plays t sent st run l) =
        plays t (r.sent ++ sent) st run (omega (arith, length-append r.sent sent, l, c))
