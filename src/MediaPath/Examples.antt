-- ===== src/MediaPath/Examples.antt =====
-- A connection that receives a short interleaved packet, for rtsp/mk_rtsp_connection.cpp.
use lib_media_service.Common.{ℕ, ◌+◌, ◌≡◌, refl, true, some, List, [], ◌∷◌, arith, leb, ok}
use lib_media_service.RtpPacket.{parse_packet, get_time_stamp, get_payload_type}
use lib_media_service.UdpHandle.{video_rtp, new_udp_handle, start_handle}
use lib_media_service.UdpHandle
use lib_media_service.RtspService.{
  RtspService, new_rtsp_service, get_rtp_recv_buf, free_rtp_recv_buf,
}
use lib_media_service.Organizer.Frames.{Block}
use lib_media_service.Organizer.Lifetime.{init-IsValid}
use lib_media_service.Organizer.{get_small_frame, new_organizer, init, update_total_rtp_packet_num}
use lib_media_service.Client.{
  h264, code_ok, handle_connection_databuf, handle_connection_media, parse_media_info,
}
use lib_media_service.Depacketizer.{copy, put, deliver}
use lib_media_service.Depacketizer.Room.{HasRoom}
use lib_media_service.Organizer.Invariant.{Admits, IsCounted}
use lib_media_service.MediaPath.{
  udp_handle_recv, MediaPath, Outcome, Received, used, handle_rtp_packet, handle_rtp_rtcp_data,
  video_packet, send_direct, dispatch_channel, free_refused,
}
use lib_media_service.MediaPath.Balance.{Settles}
use lib_media_service.Depacketizer.Total.{IsPlain}
use lib_media_service.MediaPath.Total.{StoresPlain, handle_rtp_packet-returns}
use lib_media_service.MediaPath.Datagram.{udp_handle_recv-started}

-- Payload type 96 is H.264, and the application has buffers of up to 100 bytes.
abbrev path : MediaPath
path = record {
  call_back = record { registered = true; gives_buffer = λ n. leb n 100; buffer_size = λ n. n + 4 };
  h264_payload_type = 96;
  h265_payload_type = 98;
  organizer = (init (λ _. true) new_organizer true 2).1;
}

-- The pool has the buffers 3 and 5.
abbrev service : RtspService
service = record new_rtsp_service { rtp_recv_buf_list = 3 ∷ 5 ∷ [] }

-- A packet with a NAL unit of three bytes, and the interleaved packet with a byte of the next.
abbrev packet : List ℕ
packet = 128 ∷ 96 ∷ 0 ∷ 7 ∷ 0 ∷ 0 ∷ 0 ∷ 90 ∷ 1 ∷ 2 ∷ 3 ∷ 4 ∷ 101 ∷ 11 ∷ 12 ∷ []

abbrev stream : List ℕ
stream =
    36 ∷ 0 ∷ 0 ∷ 15 ∷ 128 ∷ 96 ∷ 0 ∷ 7 ∷ 0 ∷ 0 ∷ 0 ∷ 90 ∷ 1 ∷ 2 ∷ 3 ∷ 4 ∷ 101 ∷ 11 ∷ 12 ∷ 36 ∷ []

abbrev after : MediaPath
after = record path { organizer = record (path.organizer) { total_rtp_packet_num = 1 } }

abbrev block : Block
block = record { address = 3; bytes = packet }

abbrev outcome : Outcome
outcome = record {
  code = ok;
  path = after;
  service = record new_rtsp_service { rtp_recv_buf_list = 5 ∷ 3 ∷ [] };
  media =
      record {
        info = record { type = h264; code = code_ok; is_key_frame = true; pts = 1 };
        bytes = 0 ∷ 0 ∷ 0 ∷ 1 ∷ 101 ∷ 11 ∷ 12 ∷ [];
      }
      ∷ [];
}

abbrev lent : RtspService
lent = record new_rtsp_service { rtp_recv_buf_list = 5 ∷ [] }

abbrev received : Received
received = record {
  answer = used 19;
  path = outcome.path;
  service = outcome.service;
  media = outcome.media;
}

direct : handle_rtp_packet path lent video_rtp block 15 ≡ some outcome
unfolding handle_rtp_packet parse_packet video_packet send_direct update_total_rtp_packet_num copy
    put deliver get_time_stamp get_payload_type handle_connection_databuf handle_connection_media
    parse_media_info free_rtp_recv_buf init
direct = refl

interleaved : handle_rtp_rtcp_data (λ _. []) path service stream ≡ some received
unfolding handle_rtp_rtcp_data get_rtp_recv_buf dispatch_channel free_refused handle_rtp_packet
    parse_packet video_packet send_direct update_total_rtp_packet_num copy put deliver
    get_time_stamp get_payload_type handle_connection_databuf handle_connection_media
    parse_media_info free_rtp_recv_buf init
interleaved = refl

nothing_stored : StoresPlain path
unfolding init
nothing_stored = tt

no_frame-IsCounted : IsCounted path.organizer
unfolding get_small_frame init
no_frame-IsCounted f e = cc

path-Admits : Admits path.organizer
path-Admits = record { valid = init-IsValid 2 (omega arith); counted = no_frame-IsCounted }

has_room : HasRoom path.call_back
has_room len = omega arith

packet-IsPlain : IsPlain packet 15
packet-IsPlain = record {
  rtp = record { version_two = refl; head_fits = omega arith };
  loaded = omega arith;
  inside = omega arith;
  small = omega arith;
  unpadded = omega arith;
}

handle_rtp_packet-returns_example :
    (r : Outcome) × (handle_rtp_packet path lent video_rtp block 15 ≡ some r)
    × StoresPlain r.path
    × Settles path lent block r
handle_rtp_packet-returns_example =
    handle_rtp_packet-returns path lent video_rtp block 15 path-Admits has_room nothing_stored
      (λ _. packet-IsPlain)

udp_handle_recv-started_example :
    udp_handle_recv
      (start_handle (UdpHandle.init new_udp_handle 3 10006) video_rtp true ok).1
      (λ _. [])
      path
      service
      (some packet)
    ≡ some (record { code = ok; path = path; service = service; media = [] })
udp_handle_recv-started_example =
    udp_handle_recv-started 3 10006 video_rtp true ok (λ _. []) path service (some packet)
