-- ===== src/MediaPath.antt =====
-- rtsp/mk_rtsp_connection.cpp: the way of a media packet through a connection. handleRTPRTCPData
-- takes an interleaved packet out of the TCP stream into a receive buffer, handle_rtp_packet hands
-- it to the application or to the frame organizer, and whoever is left with the buffer frees it.
-- `none` is undefined behaviour.
pub mod Balance
pub mod Interleaved
pub mod Total
pub mod Arrival
pub mod Datagram
mod Examples
use lib_media_service.Common.{
  ℕ, ◌+◌, ◌-◌, ◌*◌, ◌/◌, ◌%◌, Bool, true, false, Option, none, some, List, [], ◌∷◌, ◌++◌, not,
  length, take, drop, ltb, ◌==◌, if◌then◌else◌, byte_at, net16, sub32, Status, ok, fail, is_ok,
}
use lib_media_service.RtpPacket.{
  RtpPacket, new_rtp_packet, parse_packet, get_payload_type, get_time_stamp,
}
use lib_media_service.UdpHandle.{
  HandleType, UdpHandle, video_rtp, video_rtcp, audio_rtp, audio_rtcp, type_max,
}
use lib_media_service.RtspService.{RtspService, get_rtp_recv_buf, free_rtp_recv_buf}
use lib_media_service.Organizer.Frames.{Block}
use lib_media_service.Organizer.{
  Organizer, Delivery, Result, update_total_rtp_packet_num, insert_rtp_packet,
}
use lib_media_service.Client.{
  MediaType, MediaData, MediaCallBack, h264, h265, g711a, g711u, handle_connection_databuf,
}
use lib_media_service.Depacketizer.{
  copy, put, start_code, payload_len, deliver, handle_rtp_frame, ◌>>=◌,
}

-- The callbacks, m_ucH264PayloadType, m_ucH265PayloadType and m_rtpFrameOrganizer.
pub record MediaPath : Type 0 where
  pub call_back : MediaCallBack
  pub h264_payload_type : ℕ
  pub h265_payload_type : ℕ
  pub organizer : Organizer

-- What an operation leaves: its code, the path, the buffer pool, and what the application was given.
pub record Outcome : Type 0 where
  pub code : Status
  pub path : MediaPath
  pub service : RtspService
  pub media : List MediaData

-- The handler calls that an insertRtpPacket makes.
unfoldable pub handle_frames : MediaPath → List Delivery → Option (List MediaData)
handle_frames c [] = some []
handle_frames c (d ∷ ds) = do
  front ← handle_rtp_frame c.call_back c.h264_payload_type c.h265_payload_type d
  rest ← handle_frames c ds
  some (front ++ rest)

-- `return m_rtpFrameOrganizer.insertRtpPacket(pData, len)`.
unfoldable pub to_organizer : MediaPath → RtspService → Block → ℕ → Option Outcome
unfolding handle_frames
to_organizer c s block len = do
  r ← insert_rtp_packet c.organizer s (some block) len
  media ← handle_frames c r.delivered
  some (record {
    code = r.code;
    path = record c { organizer = r.organizer };
    service = r.service;
    media = media;
  })

-- The packet's payload goes to the application at once, behind `front`, and its buffer to the pool.
unfoldable pub send_direct :
    MediaPath → RtspService → Block → ℕ → RtpPacket → MediaType → List ℕ → Option Outcome
send_direct c s block len packet type front =
    let size = payload_len packet len in
    let rest = copy block.bytes packet.head_len size >>= λ payload.
    put (c.call_back.buffer_size size) front payload >>= λ filled. some (record {
      code = ok;
      path = c;
      service = free_rtp_recv_buf s (some block.address);
      media = deliver c.call_back type (get_time_stamp packet) filled;
    }) in
    if not (handle_connection_databuf c.call_back size)
    then some (record { code = fail; path = c; service = s; media = [] })
    else rest

abbrev refused : MediaPath → RtspService → Option Outcome
refused c s = some (record { code = fail; path = c; service = s; media = [] })

-- The video branch of handle_rtp_packet: a fragment (FU-A is type 28, an H.265 fragmentation unit is
-- type 49) goes to the organizer, any other packet straight to the application.
unfoldable pub video_packet : MediaPath → RtspService → Block → ℕ → RtpPacket → Option Outcome
unfolding to_organizer send_direct
video_packet c s block len packet =
    let c1 = record c { organizer = update_total_rtp_packet_num c.organizer } in
    let nal = byte_at block.bytes packet.head_len in
    if c.h264_payload_type == get_payload_type packet
    then if not (nal % 32 == 28)
      then send_direct c1 s block len packet h264 start_code
      else to_organizer c1 s block len
    else if c.h265_payload_type == get_payload_type packet
    then if not (nal / 2 % 64 == 49)
      then send_direct c1 s block len packet h265 start_code
      else to_organizer c1 s block len
    else refused c1 s

-- The audio branch: RTSP_PT_TYPE_PCMU is 0 and RTSP_PT_TYPE_PCMA is 8.
unfoldable pub audio_packet : MediaPath → RtspService → Block → ℕ → RtpPacket → Option Outcome
unfolding send_direct
audio_packet c s block len packet =
    if get_payload_type packet == 0
    then send_direct c s block len packet g711u []
    else if get_payload_type packet == 8
    then send_direct c s block len packet g711a []
    else refused c s

unfoldable pub handle_rtp_packet : MediaPath → RtspService → HandleType → Block → ℕ → Option Outcome
unfolding video_packet audio_packet
handle_rtp_packet c s video_rtp block len =
    let (code, packet) = parse_packet new_rtp_packet (some block.bytes) len in
    if not (is_ok code) then refused c s else video_packet c s block len packet
handle_rtp_packet c s audio_rtp block len =
    let (code, packet) = parse_packet new_rtp_packet (some block.bytes) len in
    if not (is_ok code) then refused c s else audio_packet c s block len packet
handle_rtp_packet c s video_rtcp block len = refused c s
handle_rtp_packet c s audio_rtcp block len = refused c s
handle_rtp_packet c s type_max block len = refused c s

unfoldable pub handle_rtcp_packet : MediaPath → RtspService → Block → Option Outcome
handle_rtcp_packet c s block =
    some (record {
      code = ok;
      path = c;
      service = free_rtp_recv_buf s (some block.address);
      media = [];
    })

-- The callers of the two: a packet that was not accepted is freed here.
unfoldable pub free_refused : Block → Outcome → Outcome
free_refused block r =
    if not (is_ok r.code)
    then record r { service = free_rtp_recv_buf r.service (some block.address) }
    else r

-- The channel of an interleaved packet (RTSP_INTERLEAVE_NUM). A packet of another channel is freed,
-- as handle_rtcp_packet frees it.
unfoldable pub dispatch_channel : MediaPath → RtspService → ℕ → Block → ℕ → Option Outcome
dispatch_channel c s channel block len =
    if channel == 0
    then handle_rtp_packet c s video_rtp block len
    else if channel == 2
    then handle_rtp_packet c s audio_rtp block len
    else if channel == 1
    then handle_rtcp_packet c s block
    else if channel == 3
    then handle_rtcp_packet c s block
    else handle_rtcp_packet c s block

-- RTSP_INTERLEAVE_HEADER_LEN and RTP_RECV_BUF_SIZE.
abbrev pub interleave_header_len : ℕ
interleave_header_len = 4

abbrev pub rtp_recv_buf_size : ℕ
rtp_recv_buf_size = 1500

-- What handleRTPRTCPData answers: a failure, or how many bytes of the stream it used, 0 if it needs
-- more of them.
pub data Used : Type 0 where
  broken : Used
  used : ℕ → Used

pub record Received : Type 0 where
  pub answer : Used
  pub path : MediaPath
  pub service : RtspService
  pub media : List MediaData

-- handleRTPRTCPData(pData, unDataSize). `memory` is what the buffer at an address holds before the
-- memcpy into it.
unfoldable pub handle_rtp_rtcp_data :
    (ℕ → List ℕ) → MediaPath → RtspService → List ℕ → Option Received
unfolding dispatch_channel free_refused
handle_rtp_rtcp_data memory c s stream =
    let size = net16 stream 2 in
    let (buf, s1) = get_rtp_recv_buf s in
    if ltb (length stream) interleave_header_len
    then some (record { answer = used 0; path = c; service = s; media = [] })
    else if ltb (length stream - interleave_header_len) size
    then some (record { answer = used 0; path = c; service = s; media = [] })
    else if ltb rtp_recv_buf_size size
    then some (record { answer = broken; path = c; service = s; media = [] })
    else elim buf [
      | none ↦ some (record {
        answer = used (size + interleave_header_len);
        path = c;
        service = s1;
        media = [];
      })
      | some address ↦
          let block : Block = record {
            address = address;
            bytes = take size (drop 4 stream) ++ drop size (memory address);
          } in
          dispatch_channel c s1 (byte_at stream 1) block size >>= λ r.
          let r' = free_refused block r in
          some (record {
            answer = used (size + interleave_header_len);
            path = r'.path;
            service = r'.service;
            media = r'.media;
          })
    ]

-- The observer's function for the type of the socket; a datagram of another type is freed.
unfoldable pub observe : HandleType → MediaPath → RtspService → Block → ℕ → Option Outcome
observe video_rtp c s block len = handle_rtp_packet c s video_rtp block len
observe audio_rtp c s block len = handle_rtp_packet c s audio_rtp block len
observe video_rtcp c s block len = handle_rtcp_packet c s block
observe audio_rtcp c s block len = handle_rtcp_packet c s block
observe type_max c s block len = handle_rtcp_packet c s block

-- mk_rtsp_udp_handle::handle_recv. `received` is the datagram that the socket has, `none` where recv
-- answers 0 or less; recv takes RTP_RECV_BUF_SIZE bytes of it at most. recv_dummy_data drops a
-- datagram.
unfoldable pub udp_handle_recv :
    UdpHandle → (ℕ → List ℕ) → MediaPath → RtspService → Option (List ℕ) → Option Outcome
unfolding free_refused
udp_handle_recv h memory c s received =
    let dropped : Option Outcome = some (record { code = ok; path = c; service = s; media = [] }) in
    if not h.running
    then dropped
    else if not h.observer
    then dropped
    else let (buf, s1) = get_rtp_recv_buf s in
      elim buf [
        | none ↦ dropped
        | some address ↦ elim received [
          | none ↦ some (record {
            code = ok;
            path = c;
            service = free_rtp_recv_buf s1 (some address);
            media = [];
          })
          | some sent ↦
              let bytes = take 1500 sent in
              let block : Block = record {
                address = address;
                bytes = bytes ++ drop (length bytes) (memory address);
              } in
              observe h.type c s1 block (length bytes) >>= λ r. some (free_refused block r)
        ]
      ]
