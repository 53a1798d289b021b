-- ===== src/RtcpPacket.antt =====
-- rtsp/mk_rtsp_rtcp_packet.cpp and .h: the RTCP reports of a client, and sendRtcpMessage of
-- rtsp/mk_rtsp_connection.cpp, which sends one over the RTSP connection. The layout of the structs is that
-- of a 64-bit little-endian machine. A write outside the buffer is undefined: `none`.
pub mod Reports
pub mod Messages
mod Examples
use lib_media_service.Common.{
  ℕ, zero, suc, ◌+◌, ◌-◌, ◌^◌, ◌*◌, ◌/◌, ◌%◌, Bool, Option, none, some, List, [], ◌∷◌, ◌++◌, length,
  take, replicate, ltb, leb, ◌==◌, if◌then◌else◌, on_some, u32_mod, sub32, codes, Status, ok, fail,
  is_ok, not,
}

-- m_unReporterSSRC, m_unReporteeSSRC, m_strCname and m_ullNtpTime.
pub record RtcpPacket : Type 0 where
  pub reporter_ssrc : ℕ
  pub reportee_ssrc : ℕ
  pub cname : List ℕ
  pub ntp_time : ℕ

abbrev pub new_rtcp_packet : RtcpPacket
new_rtcp_packet = record { reporter_ssrc = 0; reportee_ssrc = 0; cname = []; ntp_time = 0 }

unfoldable pub set_local_ssrc : RtcpPacket → ℕ → RtcpPacket
set_local_ssrc m ssrc = record m { reporter_ssrc = ssrc }

unfoldable pub set_peer_ssrc : RtcpPacket → ℕ → RtcpPacket
set_peer_ssrc m ssrc = record m { reportee_ssrc = ssrc }

-- setLocalIp: `host` is the text that as_network_addr gives for the address.
unfoldable pub set_local_ip : RtcpPacket → List ℕ → RtcpPacket
set_local_ip m host = record m { cname = codes "stream@" ++ host }

-- The bytes of htons and htonl of a value, and of a 64-bit value as it is.
abbrev pub bytes16 : ℕ → List ℕ
bytes16 v = v / 256 % 256 ∷ v % 256 ∷ []

abbrev pub bytes32 : ℕ → List ℕ
bytes32 v = v / 16777216 % 256 ∷ v / 65536 % 256 ∷ v / 256 % 256 ∷ v % 256 ∷ []

abbrev pub low_bytes : ℕ → List ℕ
low_bytes v = v % 256 ∷ v / 256 % 256 ∷ v / 65536 % 256 ∷ v / 16777216 % 256 ∷ []

abbrev pub host64 : ℕ → List ℕ
host64 v = low_bytes (v % u32_mod) ++ low_bytes (v / u32_mod)

-- RTCP_FIXED_HEADER with version 2, no padding and a count of 1.
abbrev pub rtcp_head : ℕ → ℕ → List ℕ
rtcp_head packet_type len = 129 ∷ packet_type ∷ bytes16 len

-- The bytes `new` over those of the buffer from `at` on.
unfoldable pub over : List ℕ → ℕ → List ℕ → List ℕ
over [] at new = []
over (b ∷ buf) (suc at) new = b ∷ over buf at new
over (b ∷ buf) zero [] = b ∷ buf
over (b ∷ buf) zero (c ∷ new) = c ∷ over buf zero new

unfoldable pub write_at : List ℕ → ℕ → List ℕ → Option (List ℕ)
unfolding over
write_at buf at new = if leb (at + length new) (length buf) then some (over buf at new) else none

-- The length of the source description: its header, a CNAME item and the end, in whole words.
unfoldable pub sdes_len : RtcpPacket → ℕ
sdes_len m =
    let len = (8 + (2 + length m.cname) + 2) % u32_mod in
    if len % 4 == 0 then len else (len + (4 - len % 4)) % u32_mod

-- What a report leaves: its code, the buffer, and reportLength.
pub record Report : Type 0 where
  pub code : Status
  pub buf : List ℕ
  pub len : ℕ

-- createSdesPacket at `at` of the buffer, with the old value of reportLength.
unfoldable pub create_sdes_packet : RtcpPacket → List ℕ → (at max report_len : ℕ) → Option Report
unfolding write_at sdes_len
create_sdes_packet m buf at max report_len =
    if max == 0
    then some (record { code = fail; buf = buf; len = report_len })
    else if ltb max (sdes_len m)
    then some (record { code = fail; buf = buf; len = report_len })
    else on_some
        (write_at buf at (
          rtcp_head 202 (sdes_len m / 4)
          ++ bytes32 m.reporter_ssrc
          ++ (1 ∷ length m.cname % 256 ∷ [])
          ++ m.cname
          ++ (0 ∷ 0 ∷ [])))
        none λ buf'. some (record { code = ok; buf = buf'; len = sdes_len m })

-- The end of both reports: the source description behind the `size` bytes of the report.
unfoldable pub add_sdes : RtcpPacket → List ℕ → (at max size : ℕ) → Option Report
unfolding create_sdes_packet
add_sdes m buf at max size =
    on_some (create_sdes_packet m buf (at + size) (sub32 max size) 0) none λ r.
      if not (is_ok r.code)
      then some (record { code = fail; buf = r.buf; len = 0 })
      else some (record { code = ok; buf = r.buf; len = (size + r.len) % u32_mod })

-- createReceiverReport: the statistics are all 0.
unfoldable pub create_receiver_report :
    RtcpPacket → List ℕ → (at max report_len : ℕ) → Option Report
unfolding write_at add_sdes
create_receiver_report m buf at max report_len =
    if leb max 32
    then some (record { code = fail; buf = buf; len = report_len })
    else on_some
        (write_at buf at
          (rtcp_head 201 7 ++ bytes32 m.reporter_ssrc ++ bytes32 m.reportee_ssrc ++ replicate 20 0))
        none λ buf'. add_sdes m buf' at max 32

-- `a | b` of the low `n` bits, and htonl on a little-endian machine.
unfoldable pub bit_or : ℕ → ℕ → ℕ → ℕ
bit_or zero a b = 0
bit_or (suc n) a b =
    let bit = if a % 2 + b % 2 == 0 then 0 else 1 in bit + 2 * bit_or n (a / 2) (b / 2)

abbrev pub htonl : ℕ → ℕ
htonl v = v % 256 * 16777216 + v / 256 % 256 * 65536 + v / 65536 % 256 * 256 + v / 16777216 % 256

-- getNtpTimeforRtcp, of the time 100. htonl takes a uint32_t.
unfoldable pub get_ntp_time : ℕ
unfolding bit_or
get_ntp_time =
    bit_or 64 (htonl (100 % 2 ^ 32 * 2 ^ 32 % 2 ^ 64 % 2 ^ 32)) (htonl (100 / 2 ^ 32 % 2 ^ 32))

-- createSenderReport: its struct has 28 bytes of fields and 4 of padding, which are not written.
unfoldable pub create_sender_report :
    RtcpPacket → List ℕ → (at max report_len : ℕ) → Option Report × RtcpPacket
unfolding write_at add_sdes get_ntp_time
create_sender_report m buf at max report_len =
    let m' = if m.ntp_time == 0 then record m { ntp_time = get_ntp_time } else m in
    (
      if leb max 32
          then some (record { code = fail; buf = buf; len = report_len })
          else on_some
              (write_at buf at (
                rtcp_head 200 7 ++ bytes32 m.reporter_ssrc ++ host64 m'.ntp_time ++ replicate 12 0))
              none λ buf'. add_sdes m' buf' at max 32,
      if leb max 32 then m else m',
    )

-- sendRtcpMessage: the bytes given to sendMsg, which has the channel of the video's RTCP. `send_only` is
-- whether the description's direction is TRANS_DIRECTION_SENDONLY.
unfoldable pub rtcp_message : RtcpPacket → Bool → Option (List ℕ)
unfolding create_receiver_report create_sender_report
rtcp_message m send_only =
    let empty = replicate 1024 0 in
    let report =
      if send_only
      then (create_sender_report m empty 4 1020 0).0
      else create_receiver_report m empty 4 1020 0 in
    on_some report none λ r.
      on_some (write_at r.buf 0 (36 ∷ 1 ∷ bytes16 (r.len % 65536))) none
        λ buf. some (take (r.len + 4) buf)
