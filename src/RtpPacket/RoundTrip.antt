-- ===== src/RtpPacket/RoundTrip.antt =====
-- GeneratePacket, the setters and ParsePacket of rtsp/mk_rtsp_rtp_packet.cpp together.
use lib_media_service.Common.{
  ℕ, suc, ◌+◌, ◌-◌, ◌*◌, ◌/◌, ◌%◌, ◌≤◌, ◌<◌, ◌≡◌, ◌∙◌, refl, Bool, true, false, some, List, ◌∷◌,
  arith, Status, ok, ◌==◌, if◌then◌else◌, replicate,
}
use lib_media_service.RtpPacket.{
  RtpPacket, new_rtp_packet, parse_packet, generate_packet, set_seq_num, set_time_stamp,
  set_payload_type, set_marker, set_ssrc, get_seq_num, get_time_stamp, get_payload_type, get_marker,
  get_ssrc,
}

-- A packet of `len` bytes with its fields filled in.
pub compose : ℕ → (seq ts pt ssrc : ℕ) → Bool → RtpPacket
compose len seq ts pt ssrc m =
    let p = (generate_packet new_rtp_packet true len).1 in
    let p = (set_seq_num p seq).1 in
    let p = (set_time_stamp p ts).1 in
    let p = (set_payload_type p pt).1 in let p = (set_marker p m).1 in set_ssrc p ssrc

abbrev Reads : RtpPacket → ℕ → ℕ → ℕ → ℕ → Bool → Type 0
Reads q seq ts pt ssrc m =
    (get_seq_num q ≡ seq)
    × (get_time_stamp q ≡ ts)
    × (get_payload_type q ≡ pt)
    × (get_ssrc q ≡ ssrc)
    × (get_marker q ≡ m)

abbrev twelve_more : ℕ → ℕ
twelve_more n = suc (suc (suc (suc (suc (suc (suc (suc (suc (suc (suc (suc n)))))))))))

-- The bytes of such a packet: the fixed header, then zeros.
abbrev wire : ℕ → (b1 b2 b3 b4 b5 b6 b7 b8 b9 b10 b11 : ℕ) → List ℕ
wire n b1 b2 b3 b4 b5 b6 b7 b8 b9 b10 b11 =
    128 ∷ b1 ∷ b2 ∷ b3 ∷ b4 ∷ b5 ∷ b6 ∷ b7 ∷ b8 ∷ b9 ∷ b10 ∷ b11 ∷ replicate n 0

rtp_data-compose :
    (n seq ts pt ssrc : ℕ) (m : Bool)
    → (compose (twelve_more n) seq ts pt ssrc m).rtp_data
      ≡ wire n
          ((0 + pt % 128) % 128 + (if m then 128 else 0))
          (seq / 256 % 256)
          (seq % 256)
          (ts / 65536 / 256 % 256)
          (ts / 65536 % 256)
          (ts / 256 % 256)
          (ts % 256)
          (ssrc % 256)
          (ssrc / 256 % 256)
          (ssrc / 65536 % 256)
          (ssrc / 16777216 % 256)
unfolding compose generate_packet set_seq_num set_time_stamp set_payload_type set_marker set_ssrc
rtp_data-compose n seq ts pt ssrc m = refl

module _ (n b1 b2 b3 b4 b5 b6 b7 b8 b9 b10 b11 : ℕ) where
  abbrev parsed : Status × RtpPacket
  parsed =
      parse_packet new_rtp_packet (some (wire n b1 b2 b3 b4 b5 b6 b7 b8 b9 b10 b11)) (twelve_more n)

  parsed-ok : (parsed.0 ≡ ok) × (parsed.1.head_len ≡ 12) × (parsed.1.tail_len ≡ 0)
  unfolding parse_packet
  parsed-ok = ground arith

  parsed-data :
      (parsed.1.fixed_head ≡ true) × (parsed.1.rtp_data ≡ wire n b1 b2 b3 b4 b5 b6 b7 b8 b9 b10 b11)
  unfolding parse_packet
  parsed-data = ground arith

  parsed_words :
      (get_seq_num parsed.1 ≡ b2 * 256 + b3)
      × (get_time_stamp parsed.1 ≡ (b4 * 256 + b5) * 65536 + (b6 * 256 + b7))
      × (get_ssrc parsed.1 ≡ b8 + b9 * 256 + b10 * 65536 + b11 * 16777216)
  unfolding get_seq_num get_time_stamp get_ssrc
  parsed_words = rw (parsed-data.0, parsed-data.1) (refl, refl, refl)

  parsed_flags :
      (get_payload_type parsed.1 ≡ b1 % 128) × (get_marker parsed.1 ≡ (b1 / 128 % 2 == 1))
  unfolding get_payload_type get_marker
  parsed_flags = rw (parsed-data.0, parsed-data.1) (refl, refl)

marker_bit :
    (pt : ℕ) (m : Bool) → (((0 + pt % 128) % 128 + (if m then 128 else 0)) / 128 % 2 == 1) ≡ m
marker_bit pt false = ground arith
marker_bit pt true = ground arith

payload_bits :
    (pt : ℕ) (m : Bool) → pt < 128 → ((0 + pt % 128) % 128 + (if m then 128 else 0)) % 128 ≡ pt
payload_bits pt false h = omega arith
payload_bits pt true h = omega arith

net16_bytes : (v : ℕ) → v < 65536 → v / 256 % 256 * 256 + v % 256 ≡ v
net16_bytes v h = omega arith

net32_bytes :
    (v : ℕ)
    → v < 4294967296
    → (v / 65536 / 256 % 256 * 256 + v / 65536 % 256) * 65536 + (v / 256 % 256 * 256 + v % 256) ≡ v
net32_bytes v h = omega arith

host32_bytes :
    (v : ℕ)
    → v < 4294967296
    → v % 256 + v / 256 % 256 * 256 + v / 65536 % 256 * 65536 + v / 16777216 % 256 * 16777216 ≡ v
host32_bytes v h = omega arith

parse_packet-compose_at :
    (n seq ts pt ssrc : ℕ) (m : Bool)
    → seq < 65536
    → ts < 4294967296
    → pt < 128
    → ssrc < 4294967296
    → let len = twelve_more n in
      let r = parse_packet new_rtp_packet (some (compose len seq ts pt ssrc m).rtp_data) len in
      (r.0 ≡ ok) × (r.1.head_len ≡ 12) × (r.1.tail_len ≡ 0) × Reads r.1 seq ts pt ssrc m
parse_packet-compose_at n seq ts pt ssrc m hs ht hp hc =
    let words = parsed_words n _ _ _ _ _ _ _ _ _ _ _ in
    let flags = parsed_flags n _ _ _ _ _ _ _ _ _ _ _ in
    let (good, head, tail) = parsed-ok n _ _ _ _ _ _ _ _ _ _ _ in
    rw rtp_data-compose (
      good,
      head,
      tail,
      (
        words.0 ∙ net16_bytes seq hs,
        words.1 ∙ net32_bytes ts ht,
        flags.0 ∙ payload_bits pt m hp,
        words.2 ∙ host32_bytes ssrc hc,
        flags.1 ∙ marker_bit pt m,
      ),
    )

-- Of what GeneratePacket and the setters write into a buffer of 12 bytes or more, a new object's
-- ParsePacket returns OK, and its getters return the values set, each in its field's range.
pub parse_packet-compose :
    (len seq ts pt ssrc : ℕ) (m : Bool)
    → 12 ≤ len
    → seq < 65536
    → ts < 4294967296
    → pt < 128
    → ssrc < 4294967296
    → let r = parse_packet new_rtp_packet (some (compose len seq ts pt ssrc m).rtp_data) len in
      (r.0 ≡ ok) × (r.1.head_len ≡ 12) × (r.1.tail_len ≡ 0) × Reads r.1 seq ts pt ssrc m
parse_packet-compose len seq ts pt ssrc m hl hs ht hp hc =
    let e : len ≡ twelve_more (len - 12) = omega arith in
    rw e (parse_packet-compose_at (len - 12) seq ts pt ssrc m hs ht hp hc)
