-- ===== src/RtcpPacket/Examples.antt =====
-- Reports of rtsp/mk_rtsp_rtcp_packet.cpp.
use lib_media_service.Common.{
  ◌≡◌, refl, some, false, [], ◌∷◌, codes, ◌*◌, arith, replicate, net16, ok,
}
use lib_media_service.RtcpPacket.{
  RtcpPacket, rtcp_message, get_ntp_time, Report, sdes_len, create_sdes_packet,
  create_receiver_report, create_sender_report,
}
use lib_media_service.RtcpPacket.Reports.{Fits, create_receiver_report-Fits}
use lib_media_service.RtcpPacket.Messages.{
  Framed, create_sender_report-Fits, rtcp_message-Framed, create_sdes_packet-counts_first,
}

abbrev local : RtcpPacket
local = record { reporter_ssrc = 1; reportee_ssrc = 2; cname = codes "ab"; ntp_time = 0 }

never-timed : get_ntp_time ≡ 0
unfolding get_ntp_time
never-timed = refl

local-message :
    rtcp_message local false
    ≡ some (
        36 ∷ 1 ∷ 0 ∷ 48 ∷ 129 ∷ 201 ∷ 0 ∷ 7 ∷ 0 ∷ 0 ∷ 0 ∷ 1 ∷ 0 ∷ 0 ∷ 0 ∷ 2 ∷ 0 ∷ 0 ∷ 0 ∷ 0 ∷ 0 ∷ 0
        ∷ 0 ∷ 0 ∷ 0 ∷ 0 ∷ 0 ∷ 0 ∷ 0 ∷ 0 ∷ 0 ∷ 0 ∷ 0 ∷ 0 ∷ 0 ∷ 0 ∷ 129 ∷ 202 ∷ 0 ∷ 4 ∷ 0 ∷ 0 ∷ 0 ∷ 1
        ∷ 1 ∷ 2 ∷ 97 ∷ 98 ∷ 0 ∷ 0 ∷ 0 ∷ 0 ∷ [])
unfolding rtcp_message
local-message = refl

create_receiver_report-Fits_example :
    Fits 4 1020 (replicate 1024 0) (create_receiver_report local (replicate 1024 0) 4 1020 0)
create_receiver_report-Fits_example =
    create_receiver_report-Fits local (replicate 1024 0) 4 1020 (omega arith) (omega arith)
      (omega arith)

create_sender_report-Fits_example :
    Fits 4 1020 (replicate 1024 0) (create_sender_report local (replicate 1024 0) 4 1020 0).0
create_sender_report-Fits_example =
    create_sender_report-Fits local (replicate 1024 0) 4 1020 (omega arith) (omega arith)
      (omega arith)

rtcp_message-Framed_example : Framed (rtcp_message local false)
rtcp_message-Framed_example = rtcp_message-Framed local false (omega arith)

create_sdes_packet-counts_first_example :
    (r : Report) × (create_sdes_packet local (replicate 16 0) 0 16 0 ≡ some r)
    × (r.code ≡ ok)
    × (4 * net16 r.buf 2 ≡ r.len)
unfolding sdes_len
create_sdes_packet-counts_first_example =
    create_sdes_packet-counts_first local (replicate 16 0) 0 16 (omega arith) (omega arith)
      (omega arith)
