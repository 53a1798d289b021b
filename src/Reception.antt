-- ===== src/Reception.antt =====
-- handle_recv and processRecvedMessage of rtsp/mk_rtsp_connection.cpp: the TCP stream of a connection,
-- which carries interleaved packets and RTSP messages. `none` is undefined behaviour.
pub mod Frames
pub mod Split
pub mod Rounds
pub mod Calls
pub mod Chunks
pub mod Overrun
mod Examples
use lib_media_service.Common.{
  ℕ, zero, suc, ◌+◌, ◌-◌, ◌^◌, Bool, true, false, not, Option, none, some, List, [], ◌∷◌, ◌++◌,
  length, take, drop, ltb, leb, ◌==◌, if◌then◌else◌, on_some, byte_at, Status, ok, is_ok,
}
use lib_media_service.Client.{ClientStatus, MediaData, teardown, handle_connection_status}
use lib_media_service.RtspService.{RtspService}
use lib_media_service.Organizer.{Organizer}
use lib_media_service.RtcpPacket.{RtcpPacket, create_sender_report, rtcp_message}
use lib_media_service.RtspMessage.{RtspMessage, new_rtsp_message}
use lib_media_service.RtspMessage.Check.{check_rtsp}
use lib_media_service.RtspMessage.Parse.{parse}
use lib_media_service.MediaPath.{MediaPath, Used, broken, used, handle_rtp_rtcp_data}
use lib_media_service.Session.{Session, Outside}
use lib_media_service.Session.Response.{handle_rtsp_resp}

-- MAX_BYTES_PER_RECEIVE.
abbrev pub max_bytes_per_receive : ℕ
max_bytes_per_receive = 524288

-- mk_rtsp_connection: the session, the frames, m_RecvTcpBuf with m_ulRecvSize bytes to process,
-- m_rtcpPacket and m_ulLastRtcpSend.
pub record Connection : Type 0 where
  pub session : Session
  pub organizer : Organizer
  pub recv_tcp_buf : List ℕ
  pub recv_size : ℕ
  pub rtcp : RtcpPacket
  pub last_rtcp_send : ℕ

-- What a call is answered from outside when it processes the stream from an offset on: what the
-- buffers of the pool hold before a packet is copied to them, the answers to the session, and the
-- time; whether a description has TRANS_DIRECTION_SENDONLY; and atof.
pub record Arrival : Type 0 where
  pub memory : ℕ → ℕ → List ℕ
  pub outside : ℕ → Outside
  pub time : ℕ → ℕ
  pub sends_only : List ℕ → Bool
  pub atof : List ℕ → ℕ

-- What processing leaves: its answer, the connection and the pools, what was sent, what the
-- application was given, and the states reported.
pub record Processed : Type 0 where
  pub answer : Used
  pub connection : Connection
  pub service : RtspService
  pub sent : List (List ℕ)
  pub media : List MediaData
  pub reported : List ClientStatus

abbrev pub answered : Used → Connection → RtspService → Processed
answered answer c s = record {
  answer = answer;
  connection = c;
  service = s;
  sent = [];
  media = [];
  reported = [];
}

-- The media path of the connection.
abbrev pub media_path : Connection → MediaPath
media_path c = record {
  call_back = c.session.client.call_back;
  h264_payload_type = c.session.h264_payload_type;
  h265_payload_type = c.session.h265_payload_type;
  organizer = c.organizer;
}

-- m_rtcpPacket after sendRtcpMessage.
abbrev reported_rtcp : RtcpPacket → Bool → RtcpPacket
reported_rtcp m sends_only = if sends_only then (create_sender_report m [] 4 1020 0).1 else m

-- The report that is due every MK_CLIENT_SEND_RTCP_INTERVAL seconds, in front of a packet. The times
-- are time_t, which is signed: a clock set back makes none due.
unfoldable pub rtcp_if_due : Arrival → ℕ → Connection → Option (Connection × List (List ℕ))
unfolding create_sender_report rtcp_message
rtcp_if_due a at c =
    let only = a.sends_only c.session.sdp_info in
    if not c.session.client.send_rtcp
    then some (c, [])
    else if not (leb 3 (a.time at - c.last_rtcp_send))
    then some (c, [])
    else on_some (rtcp_message c.rtcp only) none λ text.
      some (record c { rtcp = reported_rtcp c.rtcp only; last_rtcp_send = a.time at }, text ∷ [])

-- The bytes from an offset on that are to be processed.
abbrev pub stream_at : Connection → ℕ → List ℕ
stream_at c at = take (c.recv_size - at) (drop at c.recv_tcp_buf)

-- A packet at `at`.
unfoldable pub process_interleaved : Arrival → ℕ → Connection → RtspService → Option Processed
process_interleaved a at c s = on_some (rtcp_if_due a at c) none λ due.
    on_some (handle_rtp_rtcp_data (a.memory at) (media_path due.0) s (stream_at due.0 at)) none λ r.
      some (record {
        answer = r.answer;
        connection = record due.0 { organizer = r.path.organizer };
        service = r.service;
        sent = due.1;
        media = r.media;
        reported = [];
      })

-- What a message makes of the session; ulMsgLen is returned as an int32_t.
unfoldable pub respond_to :
    Arrival → ℕ → Connection → RtspService → ℕ → RtspMessage → Option Processed
respond_to a at c s msg_len m =
    if not (m.method_index == 11)
    then some (answered broken c s)
    else on_some (handle_rtsp_resp (a.outside at) c.session s m) none λ r. some (record {
      answer =
          if not (is_ok r.code)
          then broken
          else if ltb msg_len (2 ^ 31)
          then used msg_len
          else broken;
      connection = record c { session = r.session };
      service = r.service;
      sent = r.sent;
      media = [];
      reported = r.reported;
    })

-- A message at `at`, which checkRtsp may change a letter of.
unfoldable pub process_message : Arrival → ℕ → Connection → RtspService → Option Processed
unfolding respond_to
process_message a at c s =
    let size = c.recv_size - at in
    let checked = check_rtsp (drop at c.recv_tcp_buf) size 0 in
    let c1 = record c { recv_tcp_buf = take at c.recv_tcp_buf ++ checked.buf } in
    if not (is_ok checked.code)
    then some (answered broken c1 s)
    else if checked.msg_len == 0
    then some (answered (used 0) c1 s)
    else on_some (parse a.atof new_rtsp_message checked.buf size) none λ p.
      if not (is_ok p.0)
      then some (answered broken c1 s)
      else respond_to a at c1 s checked.msg_len p.1

-- processRecvedMessage; RTSP_INTERLEAVE_FLAG is '$'.
unfoldable pub process_recved_message : Arrival → ℕ → Connection → RtspService → Option Processed
process_recved_message a at c s =
    if not (ltb at c.recv_size)
    then some (answered broken c s)
    else if byte_at (drop at c.recv_tcp_buf) 0 == 36
    then process_interleaved a at c s
    else process_message a at c s

-- What was left by one call in front of what the next ones leave.
abbrev pub before : Processed → Processed → Processed
before r q = record q {
  sent = r.sent ++ q.sent;
  media = r.media ++ q.media;
  reported = r.reported ++ q.reported;
}

-- The end of a round of the loop, and the next ones.
unfoldable pub go_on :
    (ℕ → Connection → RtspService → Option Processed) → ℕ → ℕ → Processed → Used → Option Processed
go_on next size at r broken = some (record r { answer = broken })
go_on next size at r (used zero) = some (record r { answer = used at })
go_on next size at r (used (suc n)) =
    if ltb (at + suc n) size
    then (on_some (next (at + suc n) r.connection r.service) none λ q. some (before r q))
    else some (record r { answer = used (at + suc n) })

-- The loop of handle_recv over the stream, at `at`; `none` is also a run out of fuel.
unfoldable pub receive_loop : Arrival → ℕ → ℕ → Connection → RtspService → Option Processed
unfolding go_on
receive_loop a zero at c s = none
receive_loop a (suc fuel) at c s =
    let next = receive_loop a fuel in
    on_some (process_recved_message a at c s) none λ r. go_on next c.recv_size at r r.answer

-- What handle_recv leaves, and whether it asks for more with setHandleRecv.
pub record Handled : Type 0 where
  pub connection : Connection
  pub service : RtspService
  pub sent : List (List ℕ)
  pub media : List MediaData
  pub reported : List ClientStatus
  pub recv_next : Bool

-- The connection is given up: MR_CLIENT_STATUS_TEARDOWN is reported.
unfoldable pub give_up : Processed → Handled
unfolding handle_connection_status
give_up r =
    let (client, calls) = handle_connection_status r.connection.session.client teardown in
    record {
      connection = record r.connection {
        session = record r.connection.session { client = client };
      };
      service = r.service;
      sent = r.sent;
      media = r.media;
      reported = r.reported ++ calls;
      recv_next = false;
    }

-- The rest of the stream is moved to the front. A stream that is said to be used beyond its end has a
-- negative rest, which as a uint32_t makes memmove leave the buffer.
unfoldable pub keep_rest : Arrival → Processed → Used → Option Handled
unfolding give_up
keep_rest a r broken = some (give_up r)
keep_rest a r (used at) =
    let c = r.connection in
    let rest = c.recv_size - at in
    if ltb c.recv_size at
    then none
    else some (record {
      connection = record c {
        recv_tcp_buf = take rest (drop at c.recv_tcp_buf) ++ drop rest c.recv_tcp_buf;
        recv_size = rest;
        session = record c.session { last_recv = a.time at };
      };
      service = r.service;
      sent = r.sent;
      media = r.media;
      reported = r.reported;
      recv_next = true;
    })

-- recv into the buffer behind the bytes that are there.
abbrev pub received : Connection → List ℕ → Connection
received c bytes = record c {
  recv_tcp_buf =
      take c.recv_size c.recv_tcp_buf
      ++ (bytes ++ drop (c.recv_size + length bytes) c.recv_tcp_buf);
  recv_size = c.recv_size + length bytes;
}

-- handle_recv. `bytes` is what recv gives, `none` where it answers 0 or less. The loop has one round
-- more than the stream has bytes.
unfoldable pub handle_recv : Arrival → Connection → RtspService → Option (List ℕ) → Option Handled
handle_recv a c s bytes =
    if not (ltb c.recv_size max_bytes_per_receive)
    then some (record {
      connection = c;
      service = s;
      sent = [];
      media = [];
      reported = [];
      recv_next = false;
    })
    else elim bytes [
      | none ↦ some (give_up (answered broken c s))
      | some text ↦
          let c1 = received c text in
          on_some (receive_loop a (suc c1.recv_size) 0 c1 s) none λ r. keep_rest a r r.answer
    ]
