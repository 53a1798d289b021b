-- ===== src/RtpPacket.antt =====
-- rtsp/mk_rtsp_rtp_packet.cpp, mk_rtsp_rtp_packet.h and mk_rtsp_rtp_head.h: class mk_rtp_packet,
-- a view of one RTP packet in a byte buffer. The pointers m_pFixedHead and m_pExtHead into the
-- buffer are kept as "is set" and as an offset; a little-endian host lays the bit fields of
-- RTP_FIXED_HEADER out from the low bit.
pub mod FixedHead
pub mod Parse
pub mod Stale
pub mod RoundTrip
mod Examples
use lib_media_service.Common.{
  ℕ, ◌+◌, ◌-◌, ◌*◌, ◌/◌, ◌%◌, Bool, true, false, Option, none, some, List, ltb, ◌==◌, if◌then◌else◌,
  not, replicate, set, byte_at, net16, net32, host32, put_net16, put_net32, put_host32, Status, ok,
  fail, param, is_ok,
}

-- sizeof(RTP_FIXED_HEADER), sizeof(RTP_EXTEND_HEADER), RTP_CSRC_LEN, RTP_EXTEND_PROFILE_LEN.
abbrev pub fixed_header_size : ℕ
fixed_header_size = 12

abbrev pub extend_header_size : ℕ
extend_header_size = 4

abbrev pub rtp_csrc_len : ℕ
rtp_csrc_len = 4

abbrev pub rtp_extend_profile_len : ℕ
rtp_extend_profile_len = 4

abbrev pub rtp_packet_version : ℕ
rtp_packet_version = 2

-- m_pRtpData with the bytes it points to, m_ulPacketLen, m_ulHeadLen, m_ulTailLen, whether
-- m_pFixedHead is set (it is m_pRtpData then), and m_pExtHead as an offset.
pub record RtpPacket : Type 0 where
  pub rtp_data : List ℕ
  pub packet_len : ℕ
  pub head_len : ℕ
  pub tail_len : ℕ
  pub fixed_head : Bool
  pub ext_head : Option ℕ

-- The constructor.
abbrev pub new_rtp_packet : RtpPacket
new_rtp_packet = record {
  rtp_data = List.[];
  packet_len = 0;
  head_len = 0;
  tail_len = 0;
  fixed_head = false;
  ext_head = none;
}

-- GetVersion leaves `cVersion` alone when it fails, so the value is there on success only.
unfoldable pub get_version : RtpPacket → Option ℕ
get_version p = if p.fixed_head then some (FixedHead.version p.rtp_data) else none

unfoldable pub check_version : RtpPacket → Status
unfolding get_version
check_version p = elim (get_version p) [
  | none ↦ fail
  | some v ↦ if v == rtp_packet_version then ok else fail
]

-- From the test of `ulHeadLen` against `ulLen` to the end of ParsePacket. The largest head is
-- 12 + 15 * 4 + 4 + 65535 * 4 bytes, so the uint32_t sum does not wrap.
unfoldable pub parse_heads : RtpPacket → List ℕ → ℕ → ℕ → Status × RtpPacket
unfolding check_version
parse_heads p bs len head_len =
    if ltb len head_len
    then (param, p)
    else if not (is_ok (check_version p))
    then (fail, p)
    else if not (FixedHead.extension bs == 1)
    then (ok, record p { head_len = head_len })
    else if ltb len (head_len + extend_header_size)
    then (param, p)
    else let p' = record p { ext_head = some head_len } in
      let full_len =
        head_len + (extend_header_size + net16 bs (head_len + 2) * rtp_extend_profile_len) in
      if ltb len full_len then (param, p') else (ok, record p' { head_len = full_len })

-- ParsePacket(pRtpData, ulLen); `none` is the null pointer. The buffer is one of `len` bytes or more,
-- as ParsePacket takes it to be: each byte that it reads lies below `len`.
unfoldable pub parse_packet : RtpPacket → Option (List ℕ) → ℕ → Status × RtpPacket
unfolding parse_heads
parse_packet p none len = (param, p)
parse_packet p (some bs) len =
    if ltb len fixed_header_size
    then (param, p)
    else let head = record p { rtp_data = bs; packet_len = len; fixed_head = true } in
      let padded =
        if FixedHead.padding bs == 1
        then record head { tail_len = byte_at bs (len - 1) }
        else head in
      parse_heads padded bs len (fixed_header_size + FixedHead.csrc_len bs * rtp_csrc_len)

-- GeneratePacket(pRtpPacket, ulLen), on a buffer of `len` bytes: memset, then the fixed fields.
unfoldable pub generate_packet : RtpPacket → Bool → ℕ → Status × RtpPacket
generate_packet p false len = (param, p)
generate_packet p true len = (
  ok,
  record p {
    rtp_data = set (set (replicate len 0) 0 (rtp_packet_version * 64)) 1 96;
    packet_len = len;
    fixed_head = true;
    head_len = fixed_header_size;
  },
)

-- The getters answer 0 while there is no packet.
abbrev get_field : RtpPacket → (List ℕ → ℕ) → ℕ
get_field p field = if p.fixed_head then field p.rtp_data else 0

unfoldable pub get_seq_num : RtpPacket → ℕ
get_seq_num p = get_field p (λ bs. net16 bs 2)

unfoldable pub get_time_stamp : RtpPacket → ℕ
get_time_stamp p = get_field p (λ bs. net32 bs 4)

unfoldable pub get_payload_type : RtpPacket → ℕ
get_payload_type p = get_field p FixedHead.payload

unfoldable pub get_marker : RtpPacket → Bool
get_marker p = get_field p FixedHead.marker == 1

-- No ntohl here, and no htonl in SetSSRC.
unfoldable pub get_ssrc : RtpPacket → ℕ
get_ssrc p = get_field p (λ bs. host32 bs 8)

-- GetSeqNum(pMb), the static one.
unfoldable pub get_seq_num_of : Option (List ℕ) → ℕ
get_seq_num_of none = 0
get_seq_num_of (some bs) = net16 bs 2

-- The setters write into the buffer, and fail while there is no packet.
abbrev set_field : RtpPacket → List ℕ → Status × RtpPacket
set_field p bs = if p.fixed_head then (ok, record p { rtp_data = bs }) else (fail, p)

unfoldable pub set_version : RtpPacket → ℕ → Status × RtpPacket
set_version p v = set_field p (set p.rtp_data 0 (byte_at p.rtp_data 0 % 64 + v % 4 * 64))

unfoldable pub set_padding : RtpPacket → ℕ → Status × RtpPacket
set_padding p v =
    let b = byte_at p.rtp_data 0 in
    set_field p (set p.rtp_data 0 (b / 64 * 64 + v % 2 * 32 + b % 32))

unfoldable pub set_seq_num : RtpPacket → ℕ → Status × RtpPacket
set_seq_num p v = set_field p (put_net16 p.rtp_data 2 v)

unfoldable pub set_time_stamp : RtpPacket → ℕ → Status × RtpPacket
set_time_stamp p v = set_field p (put_net32 p.rtp_data 4 v)

unfoldable pub set_ssrc : RtpPacket → ℕ → RtpPacket
set_ssrc p v = if p.fixed_head then record p { rtp_data = put_host32 p.rtp_data 8 v } else p

unfoldable pub set_payload_type : RtpPacket → ℕ → Status × RtpPacket
set_payload_type p v = set_field p (set p.rtp_data 1 (byte_at p.rtp_data 1 / 128 * 128 + v % 128))

unfoldable pub set_marker : RtpPacket → Bool → Status × RtpPacket
set_marker p m =
    set_field p (set p.rtp_data 1 (byte_at p.rtp_data 1 % 128 + (if m then 128 else 0)))
