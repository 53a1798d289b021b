-- ===== src/Session.antt =====
-- rtsp/mk_rtsp_connection.cpp: the RTSP session of a client, from OPTIONS to PLAY. Each request gets a
-- sequence number, under which its method is kept until the answer comes. `none` is undefined
-- behaviour: a URL that fills its buffer, which is then read past its end.
pub mod Setup
pub mod Response
pub mod Lifecycle
pub mod Invariant
pub mod Kept
pub mod Reached
pub mod Requests
pub mod Serve
pub mod Plays
pub mod Refusals
mod Examples
use lib_media_service.Common.{
  ℕ, ◌+◌, ◌%◌, Bool, true, false, not, ◌&&◌, ◌||◌, Option, none, some, List, [], ◌∷◌, ◌++◌, length,
  ◌==◌, if◌then◌else◌, on_some, u32_mod, codes, c_string, print_u32, Status, ok, fail, is_ok,
}
use lib_media_service.Client.{ClientConnection, ClientStatus, new_client_connection, MediaCallBack}
use lib_media_service.UdpHandle.{UdpHandle}
use lib_media_service.RtspService.{RtspService}
use lib_media_service.RtspMessage.{RtspMessage, new_rtsp_message, set_rtsp_url, generate_rtsp_req}

-- enRtspMethods, which only names its values.
pub data Method : Type 0 where
  describe_method setup_method teardown_method play_method pause_method options_method
        announce_method get_parameter_method set_parameter_method redirect_method record_method
        response_method illegal_method :
      Method

abbrev pub method_number : Method → ℕ
method_number describe_method = 0
method_number setup_method = 1
method_number teardown_method = 2
method_number play_method = 3
method_number pause_method = 4
method_number options_method = 5
method_number announce_method = 6
method_number get_parameter_method = 7
method_number set_parameter_method = 8
method_number redirect_method = 9
method_number record_method = 10
method_number response_method = 11
method_number illegal_method = 12

-- RTSP_STATUS.
pub data SessionStatus : Type 0 where
  status_init status_setup status_play status_pause status_teardown : SessionStatus

-- What is read of as_url_t.
pub record Url : Type 0 where
  pub host : List ℕ
  pub port : ℕ
  pub uri : List ℕ
  pub username : List ℕ
  pub password : List ℕ

-- MEDIA_TYPE_VALUE_VIDEO, MEDIA_TYPE_VALUE_AUDIO or another one.
pub data MediaKind : Type 0 where
  video_media audio_media other_media : MediaKind

-- What is read of SDP_MEDIA_INFO.
pub record MediaInfo : Type 0 where
  pub media_type : MediaKind
  pub control : List ℕ

-- What is read of a description once decoded: the payload types of H.264 and H.265, and the media.
pub record Description : Type 0 where
  pub h264 : ℕ
  pub h265 : ℕ
  pub media : List MediaInfo

-- mk_rtsp_connection without its media path and receive buffer.
pub record Session : Type 0 where
  pub client : ClientConnection
  pub status : SessionStatus
  pub setup_tcp : Bool
  pub video_rtp_handle : Option UdpHandle
  pub video_rtcp_handle : Option UdpHandle
  pub audio_rtp_handle : Option UdpHandle
  pub audio_rtcp_handle : Option UdpHandle
  pub url : Url
  pub media_info_list : List MediaInfo
  pub seq : ℕ
  pub seq_method_map : List (ℕ × Method)
  pub h264_payload_type : ℕ
  pub h265_payload_type : ℕ
  pub last_recv : ℕ
  pub authen_time : ℕ
  pub authenticate : List ℕ
  pub sdp_info : List ℕ

-- What the session is answered from outside during one call: the bytes that send takes of a text, the
-- digest's header for a method and a URL and its two tests of a challenge, the value of
-- AS_ERROR_CODE_OK, regUdpSocket for the two handles of a pair, the text of a double, and what
-- mk_media_sdp makes of a description.
pub record Outside : Type 0 where
  pub send : List ℕ → ℕ
  pub digest_header : Method → List ℕ → Option (List ℕ)
  pub is_digest : List ℕ → Status
  pub client_parse : List ℕ → Status
  pub ok_code : ℕ
  pub register_rtp : Status
  pub register_rtcp : Status
  pub print_double : ℕ → List ℕ
  pub decode_sdp : List ℕ → Option Description

-- What a call leaves: its code, the session and the pools, the texts sent, and the states reported.
pub record Result : Type 0 where
  pub code : Status
  pub session : Session
  pub service : RtspService
  pub sent : List (List ℕ)
  pub reported : List ClientStatus

-- `m.find(key)`.
unfoldable pub find_method : ℕ → List (ℕ × Method) → Option Method
find_method key [] = none
find_method key (entry ∷ m) =
    let rest = find_method key m in if entry.0 == key then some entry.1 else rest

-- `m.insert(value)`, which leaves an entry with the same key alone.
unfoldable pub insert_method : ℕ → Method → List (ℕ × Method) → List (ℕ × Method)
unfolding find_method
insert_method key method m = elim (find_method key m) [ none ↦ (key, method) ∷ m | some _ ↦ m ]

abbrev pub is_empty : List ℕ → Bool
is_empty [] = true
is_empty (c ∷ s) = false

-- sendMsg.
unfoldable pub send_msg : Outside → List ℕ → Status
send_msg o text = if o.send text == length text then ok else fail

-- The URL of a request: the given one, or that of the connection.
unfoldable pub request_url : Url → List ℕ → List ℕ
request_url url uri =
    let port = if url.port == 0 then [] else codes ":" ++ print_u32 url.port in
    if is_empty uri then codes "rtsp://" ++ url.host ++ port ++ url.uri else uri

-- Whether sendRtspReq adds the digest, and with what: `none` is a digest that fails.
unfoldable pub authorization : Outside → Session → Method → List ℕ → Option (List ℕ)
authorization o s method url =
    if is_empty s.url.username || (is_empty s.url.password || is_empty s.authenticate)
    then some []
    else o.digest_header method url

-- The message of a request.
unfoldable pub request_message : Session → Method → List ℕ → List ℕ → List ℕ → ℕ → RtspMessage
unfolding set_rtsp_url
request_message s method url transport authorization session_id =
    record (set_rtsp_url new_rtsp_message url) {
      method_index = method_number method;
      cseq = s.seq;
      transport = transport;
      authorization = authorization;
      session_id = session_id;
    }

-- A call that sends nothing.
abbrev pub silent : Status → Session → RtspService → Result
silent code s service = record {
  code = code;
  session = s;
  service = service;
  sent = [];
  reported = [];
}

-- sendRtspReq(enMethod, strUri, strTransport, ullSessionId).
unfoldable pub send_rtsp_req :
    Outside → Session → RtspService → Method → List ℕ → List ℕ → ℕ → Option Result
unfolding send_msg request_url authorization request_message insert_method generate_rtsp_req
send_rtsp_req o s service method uri transport session_id =
    let url = request_url s.url uri in
    on_some (authorization o s method url) (some (silent fail s service)) λ digest.
      on_some
        (generate_rtsp_req o.print_double
          (request_message s method url transport digest session_id))
        none
        λ generated.
          if not (is_ok generated.0)
          then some (silent fail s service)
          else some (record {
            code = send_msg o generated.1;
            session = record s {
              seq_method_map = insert_method s.seq method s.seq_method_map;
              seq = (s.seq + 1) % u32_mod;
            };
            service = service;
            sent = generated.1 ∷ [];
            reported = [];
          })

-- The requests with no URL of their own: sendRtspOptionsReq, sendRtspDescribeReq, sendRtspRecordReq,
-- sendRtspGetParameterReq, sendRtspAnnounceReq, sendRtspPauseReq and sendRtspTeardownReq by their
-- method, and sendRtspPlayReq with a session.
unfoldable pub send_plain_req : Outside → Session → RtspService → Method → ℕ → Option Result
unfolding send_rtsp_req
send_plain_req o s service method session_id = send_rtsp_req o s service method [] [] session_id
