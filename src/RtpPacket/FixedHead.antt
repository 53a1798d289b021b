-- ===== src/RtpPacket/FixedHead.antt =====
-- rtsp/mk_rtsp_rtp_head.h: the bit fields of RTP_FIXED_HEADER in the first two bytes.
use lib_media_service.Common.{ℕ, ◌/◌, ◌%◌, List, byte_at}

abbrev pub csrc_len : List ℕ → ℕ
csrc_len bs = byte_at bs 0 % 16

abbrev pub extension : List ℕ → ℕ
extension bs = byte_at bs 0 / 16 % 2

abbrev pub padding : List ℕ → ℕ
padding bs = byte_at bs 0 / 32 % 2

abbrev pub version : List ℕ → ℕ
version bs = byte_at bs 0 / 64 % 4

abbrev pub payload : List ℕ → ℕ
payload bs = byte_at bs 1 % 128

abbrev pub marker : List ℕ → ℕ
marker bs = byte_at bs 1 / 128 % 2
