-- ===== src/RtpPacket/Examples.antt =====
-- Packets of a few bytes, for class mk_rtp_packet of rtsp/mk_rtsp_rtp_packet.cpp.
use lib_media_service.Common.{
  ℕ, ◌≤◌, ◌≡◌, ◌≢◌, ◌↔◌, refl, true, false, some, List, [], ◌∷◌, arith, is_ok, ok, fail, param,
}
use lib_media_service.RtpPacket.{
  new_rtp_packet, parse_packet, get_seq_num, get_time_stamp, get_payload_type, get_marker, get_ssrc,
}
use lib_media_service.RtpPacket.FixedHead
use lib_media_service.RtpPacket.Parse.{
  IsRtp, base_size, parse_packet-ok_iff, parse_packet-ok, parse_packet-refused,
}
use lib_media_service.RtpPacket.Stale.{tail_len-parse_packet, stale_tail}
use lib_media_service.RtpPacket.RoundTrip.{compose, parse_packet-compose}

-- One source, an extension of one word, and a payload of two bytes.
abbrev extended : List ℕ
extended =
    145 ∷ 96 ∷ 0 ∷ 7 ∷ 0 ∷ 0 ∷ 0 ∷ 90 ∷ 1 ∷ 2 ∷ 3 ∷ 4 ∷ 9 ∷ 9 ∷ 9 ∷ 9 ∷ 0 ∷ 0 ∷ 0 ∷ 1 ∷ 5 ∷ 5 ∷ 5
    ∷ 5 ∷ 101 ∷ 102 ∷ []

-- No source and no extension; with two bytes of padding, and without.
abbrev padded : List ℕ
padded = 160 ∷ 96 ∷ 0 ∷ 7 ∷ 0 ∷ 0 ∷ 0 ∷ 90 ∷ 1 ∷ 2 ∷ 3 ∷ 4 ∷ 101 ∷ 102 ∷ 0 ∷ 2 ∷ []

abbrev plain : List ℕ
plain = 128 ∷ 96 ∷ 0 ∷ 8 ∷ 0 ∷ 0 ∷ 0 ∷ 90 ∷ 1 ∷ 2 ∷ 3 ∷ 4 ∷ 103 ∷ 104 ∷ 105 ∷ 106 ∷ []

-- The version is 1.
abbrev foreign : List ℕ
foreign = 64 ∷ 96 ∷ 0 ∷ 8 ∷ 0 ∷ 0 ∷ 0 ∷ 90 ∷ 1 ∷ 2 ∷ 3 ∷ 4 ∷ []

extended_head : (parse_packet new_rtp_packet (some extended) 26).1.head_len ≡ 24
unfolding parse_packet
extended_head = refl

short_extension : (parse_packet new_rtp_packet (some extended) 20).0 ≡ param
unfolding parse_packet
short_extension = refl

parse_packet-ok_iff_example :
    (is_ok (parse_packet new_rtp_packet (some extended) 26).0 ≡ true) ↔ IsRtp extended 26
parse_packet-ok_iff_example = parse_packet-ok_iff new_rtp_packet extended 26

extended-ok : (parse_packet new_rtp_packet (some extended) 26).0 ≡ ok
unfolding parse_packet
extended-ok = refl

parse_packet-ok_example :
    ((parse_packet new_rtp_packet (some extended) 26).1.head_len ≡ 24)
    × (24 ≤ 26)
    × ((parse_packet new_rtp_packet (some extended) 26).1.rtp_data ≡ extended)
    × ((parse_packet new_rtp_packet (some extended) 26).1.packet_len ≡ 26)
    × ((parse_packet new_rtp_packet (some extended) 26).1.fixed_head ≡ true)
parse_packet-ok_example = parse_packet-ok new_rtp_packet extended 26 extended-ok

parse_packet-refused_example :
    let r = parse_packet new_rtp_packet (some foreign) 12 in
    ((r.0 ≡ fail) ↔ ((base_size foreign ≤ 12) × (FixedHead.version foreign ≢ 2)))
    × (is_ok r.0 ≡ false → r.1.head_len ≡ 0)
    × (is_ok r.0 ≡ false → r.0 ≢ fail → r.0 ≡ param)
parse_packet-refused_example = parse_packet-refused new_rtp_packet foreign 12

tail_len-parse_packet_example :
    let q = (parse_packet new_rtp_packet (some padded) 16).1 in
    (FixedHead.padding padded ≢ 1 → q.tail_len ≡ 0)
    × (FixedHead.padding padded ≡ 1 → q.tail_len ≡ 2)
tail_len-parse_packet_example = tail_len-parse_packet new_rtp_packet padded 16 (omega arith)

stale_tail_example :
    (parse_packet (parse_packet new_rtp_packet (some padded) 16).1 (some plain) 16).1.tail_len ≡ 2
stale_tail_example = stale_tail padded plain 16 16 (omega arith) (omega arith) refl (omega arith)

parse_packet-compose_example :
    let r = parse_packet new_rtp_packet (some (compose 14 513 70000 96 99 true).rtp_data) 14 in
    (r.0 ≡ ok)
    × (r.1.head_len ≡ 12)
    × (r.1.tail_len ≡ 0)
    × ((get_seq_num r.1 ≡ 513)
        × (get_time_stamp r.1 ≡ 70000)
        × (get_payload_type r.1 ≡ 96)
        × (get_ssrc r.1 ≡ 99)
        × (get_marker r.1 ≡ true))
parse_packet-compose_example =
    parse_packet-compose 14 513 70000 96 99 true (omega arith) (omega arith) (omega arith)
      (omega arith) (omega arith)
