-- ===== src/RtpPacket/Stale.antt =====
-- A mk_rtp_packet that parses several packets, as handleH264Frame, handleH265Frame and
-- checkFrameTotalDataLen of rtsp/mk_rtsp_connection.cpp use it.
use lib_media_service.Common.{ℕ, ◌-◌, ◌≤◌, ◌≡◌, ◌≢◌, ◌∙◌, some, List, arith, byte_at}
use lib_media_service.RtpPacket.{RtpPacket, new_rtp_packet, parse_packet}
use lib_media_service.RtpPacket.FixedHead

-- ParsePacket of a packet of 12 bytes or more without padding keeps the tail length that the object
-- had before, and with padding sets it to the last byte of the packet.
pub tail_len-parse_packet :
    (p : RtpPacket) (bs : List ℕ) (len : ℕ)
    → 12 ≤ len
    → let q = (parse_packet p (some bs) len).1 in
      (FixedHead.padding bs ≢ 1 → q.tail_len ≡ p.tail_len)
      × (FixedHead.padding bs ≡ 1 → q.tail_len ≡ byte_at bs (len - 1))
unfolding parse_packet
tail_len-parse_packet p bs len h = (λ k. ground arith, λ k. ground arith)

-- The object that first parsed a padded packet reports that padding for a packet without any.
pub stale_tail :
    (padded plain : List ℕ) (n m : ℕ)
    → 12 ≤ n
    → 12 ≤ m
    → FixedHead.padding padded ≡ 1
    → FixedHead.padding plain ≢ 1
    → (parse_packet (parse_packet new_rtp_packet (some padded) n).1 (some plain) m).1.tail_len
      ≡ byte_at padded (n - 1)
stale_tail padded plain n m hn hm hp hq =
    (tail_len-parse_packet _ plain m hm).0 hq
    ∙ (tail_len-parse_packet new_rtp_packet padded n hn).1 hp
