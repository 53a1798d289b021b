-- ===== src/Session/Requests.antt =====
-- The requests of rtsp/mk_rtsp_connection.cpp to a server that takes every byte and challenges none.
use lib_media_service.Common.{
  ℕ, ◌+◌, ◌%◌, ◌≤◌, ◌<◌, ◌≡◌, refl, ◌∙◌, Bool, true, false, some, List, [], ◌∷◌, length,
  if◌then◌else◌, arith, c_string, ok,
}
use lib_media_service.RtspService.{RtspService}
use lib_media_service.RtspMessage.{set_rtsp_url, url_text, request_text, generate_rtsp_req}
use lib_media_service.Session.{
  Session, Outside, MediaInfo, Method, method_number, setup_method, insert_method, authorization,
  request_message, request_url, send_msg, send_rtsp_req,
}
use lib_media_service.Session.Setup.{send_rtsp_setup_req, setup_over_udp, tcp_transport}
use lib_media_service.Session.Response.{next_setup}

length-c_string : (s : List ℕ) → length (c_string s) ≤ length s
length-c_string [] = omega arith
length-c_string (c ∷ s) = let rest = length-c_string s in ground (arith, rest)

-- The text of a request.
abbrev pub text_of : (ℕ → List ℕ) → Session → Method → List ℕ → List ℕ → List ℕ → ℕ → List ℕ
text_of print_double s method url transport digest session_id =
    request_text print_double (request_message s method url transport digest session_id)
      (c_string (c_string url))

pub generate_rtsp_req-total :
    (print_double : ℕ → List ℕ) (s : Session) (method : Method) (url transport digest : List ℕ)
    (session_id : ℕ)
    → length url < 512
    → method_number method < 12
    → generate_rtsp_req print_double (request_message s method url transport digest session_id)
      ≡ some (ok, text_of print_double s method url transport digest session_id)
unfolding generate_rtsp_req url_text request_message set_rtsp_url
generate_rtsp_req-total print_double s method url transport digest session_id h k =
    let short = length-c_string url in
    let shorter = length-c_string (c_string url) in ground (arith, short, shorter)

-- The session once a request has been given its number.
abbrev pub logged : Session → Method → Session
logged s method = record s {
  seq_method_map = insert_method s.seq method s.seq_method_map;
  seq = (s.seq + 1) % 4294967296;
}

-- A server that takes every byte, and a session that it has not challenged.
pub record Welcome (o : Outside) (s : Session) : Type 0 where
  pub takes : (text : List ℕ) → o.send text ≡ length text
  pub unchallenged : s.authenticate ≡ []

pub send_rtsp_req-sends :
    (o : Outside) (s : Session) (service : RtspService) (method : Method) (uri transport : List ℕ)
    (session_id : ℕ)
    → Welcome o s
    → length (request_url s.url uri) < 512
    → method_number method < 12
    → send_rtsp_req o s service method uri transport session_id
      ≡ some (record {
        code = ok;
        session = logged s method;
        service = service;
        sent = text_of o.print_double s method (request_url s.url uri) transport [] session_id ∷ [];
        reported = [];
      })
unfolding send_rtsp_req authorization send_msg
send_rtsp_req-sends o s service method uri transport session_id h short k =
    let url = request_url s.url uri in
    let plain : authorization o s method url ≡ some [] = rw h.unchallenged (ground arith) in
    let made =
      generate_rtsp_req-total o.print_double s method url transport [] session_id short k in
    let text = text_of o.print_double s method url transport [] session_id in
    let taken : send_msg o text ≡ ok = rw h.takes (ground arith) in rw (plain, made, taken) refl

if_true {ℓ} : {A : Type ℓ} (b : Bool) (x y : A) → b ≡ true → (if b then x else y) ≡ x
if_true true x y e = refl
if_true false x y e = cc

pub next_setup-tcp :
    (o : Outside) (s : Session) (service : RtspService) (info : MediaInfo) (rest : List MediaInfo)
    → Welcome o s
    → s.setup_tcp ≡ true
    → length (request_url s.url info.control) < 512
    → next_setup o s service info rest
      ≡ some (record {
        code = ok;
        session = record (logged s setup_method) { media_info_list = rest };
        service = service;
        sent =
            text_of o.print_double s setup_method
              (request_url s.url info.control)
              (tcp_transport info.media_type)
              []
              0
            ∷ [];
        reported = [];
      })
unfolding next_setup send_rtsp_setup_req
next_setup-tcp o s service info rest h tcp short =
    let sends =
      send_rtsp_req-sends o s service setup_method info.control (tcp_transport info.media_type) 0 h
        short (omega arith) in
    rw (if_true s.setup_tcp _ (setup_over_udp o s service info) tcp ∙ sends) refl
