-- ===== src/RtpPacket/Parse.antt =====
-- ParsePacket of rtsp/mk_rtsp_rtp_packet.cpp against the layout of an RTP packet.
use lib_media_service.Common.{
  ℕ, ◌+◌, ◌*◌, ◌≤◌, ◌≡◌, ◌≢◌, ◌↔◌, true, some, List, arith, ◌==◌, if◌then◌else◌, net16, false, ok,
  fail, param, is_ok,
}
use lib_media_service.RtpPacket.{RtpPacket, parse_packet}
use lib_media_service.RtpPacket.FixedHead

-- The fixed header and the contributing sources; then what the extension adds.
abbrev pub base_size : List ℕ → ℕ
base_size bs = 12 + FixedHead.csrc_len bs * 4

abbrev pub head_size : List ℕ → ℕ
head_size bs =
    base_size bs + (if FixedHead.extension bs == 1 then 4 + net16 bs (base_size bs + 2) * 4 else 0)

-- What RFC 3550 asks of a packet: version 2, and a header that lies inside the packet.
pub record IsRtp (bs : List ℕ) (len : ℕ) : Type 0 where
  pub version_two : FixedHead.version bs ≡ 2
  pub head_fits : head_size bs ≤ len

-- ParsePacket of a non-null buffer returns OK exactly when the packet has version 2 and a header,
-- with its sources and its extension, of at most `len` bytes.
pub parse_packet-ok_iff :
    (p : RtpPacket) (bs : List ℕ) (len : ℕ)
    → (is_ok (parse_packet p (some bs) len).0 ≡ true) ↔ IsRtp bs len
unfolding parse_packet
parse_packet-ok_iff p bs len = (λ h. ground arith, λ h. ground arith)

-- After a ParsePacket that returns OK the head length is that of the header that the packet has, the
-- buffer and its length are those given, and the getters read from that buffer.
pub parse_packet-ok :
    (p : RtpPacket) (bs : List ℕ) (len : ℕ)
    → (parse_packet p (some bs) len).0 ≡ ok
    → ((parse_packet p (some bs) len).1.head_len ≡ head_size bs)
      × (head_size bs ≤ len)
      × ((parse_packet p (some bs) len).1.rtp_data ≡ bs)
      × ((parse_packet p (some bs) len).1.packet_len ≡ len)
      × ((parse_packet p (some bs) len).1.fixed_head ≡ true)
unfolding parse_packet
parse_packet-ok p bs len h = ground arith

-- ParsePacket returns FAIL exactly when the fixed header and the sources fit and the version is not
-- 2; any other refusal is PARAM. A refused packet leaves the head length as it was.
pub parse_packet-refused :
    (p : RtpPacket) (bs : List ℕ) (len : ℕ)
    → let r = parse_packet p (some bs) len in
      ((r.0 ≡ fail) ↔ ((base_size bs ≤ len) × (FixedHead.version bs ≢ 2)))
      × (is_ok r.0 ≡ false → r.1.head_len ≡ p.head_len)
      × (is_ok r.0 ≡ false → r.0 ≢ fail → r.0 ≡ param)
unfolding parse_packet
parse_packet-refused p bs len =
    ((λ h. ground arith, λ h. ground arith), λ h. ground arith, λ h k. ground arith)
