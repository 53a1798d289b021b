-- ===== src/Reception/Examples.antt =====
-- A connection that receives a packet in two parts, and one that receives an answer without its
-- content, for handle_recv of rtsp/mk_rtsp_connection.cpp.
use lib_media_service.Common.{
  ◌+◌, ◌++◌, ℕ, inl, ◌≡◌, refl, true, Option, none, some, List, [], ◌∷◌, length, length-replicate,
  replicate, arith, codes, strtoull, atoi, print_u32, print_lld, ok,
}
use lib_media_service.Client.{
  MediaData, h264, code_ok, handle_connection_databuf, handle_connection_media, parse_media_info,
}
use lib_media_service.RtpPacket.{parse_packet, get_time_stamp, get_payload_type}
use lib_media_service.RtspService.{
  RtspService, new_rtsp_service, get_rtp_recv_buf, free_rtp_recv_buf,
}
use lib_media_service.Organizer.{new_organizer, update_total_rtp_packet_num}
use lib_media_service.Depacketizer.{copy, put, deliver}
use lib_media_service.RtcpPacket.{new_rtcp_packet}
use lib_media_service.RtspMessage.{
  RtspMessage, new_rtsp_message, end_line, get_rtsp_status_code, generate_rtsp_req,
}
use lib_media_service.RtspMessage.Check.{check_rtsp}
use lib_media_service.RtspMessage.Parse.{parse}
use lib_media_service.MediaPath.{
  Received, used, handle_rtp_rtcp_data, dispatch_channel, free_refused, handle_rtp_packet,
  video_packet, send_direct,
}
use lib_media_service.Session.{Outside, Result, options_method, find_method, request_url}
use lib_media_service.Session.Response.{handle_rtsp_resp}
use lib_media_service.Session.Lifecycle.{new_session}
use lib_media_service.Reception.{Connection, Arrival, media_path, received, stream_at, handle_recv}
use lib_media_service.Reception.Frames.{Consumed, Delivers, rest, packet}
use lib_media_service.Reception.Rounds.{IsReady}
use lib_media_service.Reception.Chunks.{receive_all, whole_of, Agrees, receive_all-Agrees}
use lib_media_service.Reception.Overrun.{Says, handle_recv-overruns}

abbrev outside : Outside
outside = record {
  send = length;
  digest_header = λ _ _. none;
  is_digest = λ _. ok;
  client_parse = λ _. ok;
  ok_code = 0;
  register_rtp = ok;
  register_rtcp = ok;
  print_double = λ _. [];
  decode_sdp = λ _. none;
}

abbrev arrival : Arrival
arrival = record {
  memory = λ _ _. [];
  outside = λ _. outside;
  time = λ _. 9;
  sends_only = λ _. true;
  atof = λ _. 0;
}

-- A buffer of `n` bytes.
buffer_of : (n : ℕ) → (buf : List ℕ) × (length buf ≡ n)
buffer_of n = (replicate n 0, length-replicate n 0)

abbrev connection : Connection
connection = record {
  session =
      record (new_session
        (record { registered = true; gives_buffer = λ _. true; buffer_size = λ n. n + 4 }) 0) {
          url = record {
            host = codes "10.0.0.1";
            port = 554;
            uri = codes "/live";
            username = [];
            password = [];
          };
          seq_method_map = (0, options_method) ∷ [];
          seq = 1;
          h264_payload_type = 96;
        };
  organizer = new_organizer;
  recv_tcp_buf = (buffer_of 524288).0;
  recv_size = 0;
  rtcp = new_rtcp_packet;
  last_rtcp_send = 0;
}

abbrev service : RtspService
service = record new_rtsp_service { rtp_recv_buf_list = 3 ∷ 5 ∷ [] }

abbrev frame : List ℕ
frame = 36 ∷ 0 ∷ 0 ∷ 15 ∷ 128 ∷ 96 ∷ 0 ∷ 7 ∷ 0 ∷ 0 ∷ 0 ∷ 90 ∷ 1 ∷ 2 ∷ 3 ∷ 4 ∷ 101 ∷ 11 ∷ 12 ∷ []

abbrev parts : List (Arrival × List ℕ)
parts =
    (arrival, 36 ∷ 0 ∷ 0 ∷ 15 ∷ 128 ∷ 96 ∷ 0 ∷ [])
    ∷ (arrival, 7 ∷ 0 ∷ 0 ∷ 0 ∷ 90 ∷ 1 ∷ 2 ∷ 3 ∷ 4 ∷ 101 ∷ 11 ∷ 12 ∷ 36 ∷ [])
    ∷ []

abbrev handled : Received
handled = record {
  answer = used 19;
  path = record (media_path connection) { organizer = update_total_rtp_packet_num new_organizer };
  service = record new_rtsp_service { rtp_recv_buf_list = 5 ∷ 3 ∷ [] };
  media =
      record {
        info = record { type = h264; code = code_ok; is_key_frame = true; pts = 1 };
        bytes = 0 ∷ 0 ∷ 0 ∷ 1 ∷ 101 ∷ 11 ∷ 12 ∷ [];
      }
      ∷ [];
}

abbrev consumed : Consumed
consumed = record {
  path = handled.path;
  service = handled.service;
  media = handled.media;
  rest = 36 ∷ [];
}

frame-handled : handle_rtp_rtcp_data (λ _. []) (media_path connection) service frame ≡ some handled
unfolding handle_rtp_rtcp_data get_rtp_recv_buf dispatch_channel free_refused handle_rtp_packet
    parse_packet video_packet send_direct update_total_rtp_packet_num copy put deliver
    get_time_stamp get_payload_type handle_connection_databuf handle_connection_media
    parse_media_info free_rtp_recv_buf new_session
frame-handled = refl

stream-Delivers :
    Delivers
      (λ _ _. [])
      (media_path connection)
      service
      (stream_at connection 0 ++ whole_of parts)
      consumed
stream-Delivers =
    packet frame (36 ∷ []) handled refl (record { starts = refl; size = refl }) refl frame-handled
      (rest (refl, inl (omega arith)))

connection-IsReady : IsReady connection
unfolding new_session
connection-IsReady = record { buffer = (buffer_of 524288).1; size = omega arith; silent = refl }

receive_all-Agrees_example :
    (r : Connection × RtspService × List MediaData) × (receive_all connection service parts
      ≡ some r)
    × Agrees consumed r
receive_all-Agrees_example =
    receive_all-Agrees (λ _ _. []) parts connection service consumed
      ((omega arith, omega arith, omega arith), ((omega arith, omega arith, omega arith), tt))
      (λ _. refl, λ h _. (λ _. refl, λ _ _. tt)) connection-IsReady tt tt stream-Delivers

-- The answer to OPTIONS, whose five bytes of content have not come.
abbrev answer : List ℕ
answer =
    codes "RTSP/1.0 200 OK"
    ++ end_line
    ++ codes "CSeq: 0"
    ++ end_line
    ++ codes "Content-Length: 5"
    ++ end_line
    ++ end_line

abbrev waiting : Connection
waiting = record connection { recv_tcp_buf = [] }

abbrev message : RtspMessage
message = record new_rtsp_message { method_index = 11; status_code_index = 1; content_length = 5 }

-- The DESCRIBE that the session sends.
abbrev describe : Option Result
describe = handle_rtsp_resp outside waiting.session service message

describe-sent : (r : Result) × (describe ≡ some r) × (r.code ≡ ok)
unfolding handle_rtsp_resp find_method request_url get_rtsp_status_code new_session
    generate_rtsp_req print_u32 print_lld
describe-sent = (_, refl, refl)

answer-Says : Says arrival (received waiting answer) service 52
unfolding check_rtsp parse atoi strtoull
answer-Says = record {
  message = message;
  buffer = answer;
  result = describe-sent.0;
  starts = λ e. absurd (omega (arith, e));
  checked = refl;
  parsed = refl;
  response = refl;
  taken = describe-sent.1;
  accepted = describe-sent.2;
}

handle_recv-overruns_example : handle_recv arrival waiting service (some answer) ≡ none
handle_recv-overruns_example =
    handle_recv-overruns arrival waiting service answer 52 (omega arith) (omega arith) (omega arith)
      (omega arith) answer-Says
