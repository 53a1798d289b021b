-- ===== src/Depacketizer.antt =====
-- rtsp/mk_rtsp_connection.cpp: handleRtpFrame and the three functions that turn the packets of a
-- complete frame into one buffer for the application, and checkFrameTotalDataLen.
-- Each loop parses its packets with one mk_rtp_packet, as the source does. A block's bytes are the
-- whole receive buffer; a copy from outside it is undefined behaviour, `none`, and so is a write past
-- the end of the application's buffer.
pub mod Payload
pub mod Join264
pub mod Total
pub mod Room
mod Examples
use lib_media_service.Common.{
  ℕ, zero, suc, ◌+◌, ◌-◌, ◌*◌, ◌/◌, ◌%◌, Bool, true, false, Option, none, some, List, [], ◌∷◌, ◌++◌,
  length, take, drop, leb, ltb, ◌==◌, if◌then◌else◌, not, byte_at, add32, sub32, is_ok,
}
use lib_media_service.RtpPacket.{RtpPacket, new_rtp_packet, parse_packet, get_time_stamp}
use lib_media_service.Organizer.Frames.{RtpPackInfo}
use lib_media_service.Organizer.{Delivery}
use lib_media_service.Client.{
  MediaType, MediaData, MediaCallBack, h264, h265, g711a, g711u, handle_connection_databuf,
  handle_connection_media, parse_media_info,
}

infixl 5 ◌>>=◌
abbrev pub ◌>>=◌ {ℓ κ} : {A : Type ℓ} {B : Type κ} → Option A → (A → Option B) → Option B
none >>= f = none
some a >>= f = f a

-- memcpy of `n` bytes from `from` on.
unfoldable pub copy : List ℕ → ℕ → ℕ → Option (List ℕ)
copy bs from n = if leb (from + n) (length bs) then some (take n (drop from bs)) else none

-- What recBuf holds when `piece` is written behind `buf`, in a buffer of `room` bytes. A write past
-- the buffer is undefined behaviour.
unfoldable pub put : ℕ → List ℕ → List ℕ → Option (List ℕ)
put room buf piece = if leb (length buf + length piece) room then some (buf ++ piece) else none

abbrev pub start_code : List ℕ
start_code = 0 ∷ 0 ∷ 0 ∷ 1 ∷ []

-- `DataLen - rtpHeadLen - rtpPacket.GetTailLen()`, and the test behind it, in uint32_t.
abbrev pub payload_len : RtpPacket → ℕ → ℕ
payload_len packet len = sub32 (sub32 len packet.head_len) packet.tail_len

abbrev pub too_short : RtpPacket → ℕ → Bool
too_short packet len = ltb (sub32 len 2) (add32 packet.head_len packet.tail_len)

-- The loop of checkFrameTotalDataLen.
unfoldable pub total_len_loop : RtpPacket → ℕ → List RtpPackInfo → ℕ
total_len_loop packet sum [] = sum
total_len_loop packet sum (p ∷ ps) =
    let (code, packet') = parse_packet packet (some p.block.bytes) p.len in
    let rest = total_len_loop packet' (add32 sum (payload_len packet' p.len)) ps in
    if not (is_ok code) then 0 else rest

unfoldable pub check_frame_total_data_len : List RtpPackInfo → ℕ
unfolding total_len_loop
check_frame_total_data_len ps = total_len_loop new_rtp_packet 0 ps

-- The end of each handler: parse_media_info and handle_connection_media on the filled buffer.
unfoldable pub deliver : MediaCallBack → MediaType → ℕ → List ℕ → List MediaData
unfolding handle_connection_media
deliver cb type ts buf =
    handle_connection_media cb (record { info = parse_media_info type ts buf; bytes = buf })

-- A frame of one packet, in handleH264Frame and handleH265Frame: the payload is a whole NAL unit.
unfoldable pub single_packet :
    MediaCallBack → ℕ → MediaType → List ℕ → RtpPackInfo → Option (List MediaData)
single_packet cb room type buf p =
    let (code, packet) = parse_packet new_rtp_packet (some p.block.bytes) p.len in
    if not (is_ok code) then some [] else if too_short packet p.len then some [] else do
      payload ← copy p.block.bytes packet.head_len (payload_len packet p.len)
      filled ← put room buf payload
      some (deliver cb type (get_time_stamp packet) filled)

-- The header byte of the NAL unit: F and NRI of the FU indicator, TYPE of the FU header.
abbrev pub nal_header : ℕ → ℕ → ℕ
nal_header fu_ind fu_hdr = fu_ind / 32 * 32 + fu_hdr % 32

-- The loop of handleH264Frame; `room` is the size of recBuf, `buf` what was written to it, and `ts` is
-- TimeStam. The header byte is written with the first piece.
unfoldable pub h264_loop :
    MediaCallBack → ℕ → RtpPacket → Bool → ℕ → List ℕ → List RtpPackInfo → Option (List MediaData)
h264_loop cb room packet first ts buf [] = some (deliver cb h264 ts buf)
h264_loop cb room packet first ts buf (p ∷ ps) =
    let (code, packet') = parse_packet packet (some p.block.bytes) p.len in
    let at = packet'.head_len in
    let header = nal_header (byte_at p.block.bytes at) (byte_at p.block.bytes (at + 1)) in
    let front = if first then buf ++ (header ∷ []) else buf in
    let rest = copy p.block.bytes (at + 2) (sub32 (payload_len packet' p.len) 2) >>= λ payload.
    put room front payload >>= λ filled.
    h264_loop cb room packet' false (get_time_stamp packet') filled ps in
    if not (is_ok code) then some [] else if too_short packet' p.len then some [] else rest

unfoldable pub handle_h264_frame : MediaCallBack → List RtpPackInfo → Option (List MediaData)
handle_h264_frame cb [] = some []
handle_h264_frame cb (p ∷ []) =
    let total = check_frame_total_data_len (p ∷ []) in
    let room = cb.buffer_size total in
    if not (handle_connection_databuf cb total)
    then some []
    else put room [] start_code >>= λ buf. single_packet cb room h264 buf p
handle_h264_frame cb (p ∷ q ∷ ps) =
    let total = check_frame_total_data_len (p ∷ q ∷ ps) in
    let room = cb.buffer_size total in
    if not (handle_connection_databuf cb total)
    then some []
    else put room [] start_code >>= λ buf. h264_loop cb room new_rtp_packet true 0 buf (p ∷ q ∷ ps)

-- The first byte of the two of an H.265 NAL header, from the payload header and the FU header.
abbrev pub h265_header : ℕ → ℕ → ℕ
h265_header b fu_hdr = b / 128 * 128 + b % 2 + fu_hdr % 64 * 2

-- The loop of handleH265Frame. `(pData[0] & 0x81) | (nal_unit_type << 1)` joins disjoint bits. Only
-- the first packet sets TimeStam.
unfoldable pub h265_loop :
    MediaCallBack → ℕ → RtpPacket → Bool → ℕ → List ℕ → List RtpPackInfo → Option (List MediaData)
h265_loop cb room packet first ts buf [] = some (deliver cb h265 ts buf)
h265_loop cb room packet first ts buf (p ∷ ps) =
    let (code, packet') = parse_packet packet (some p.block.bytes) p.len in
    let at = packet'.head_len in
    let header = h265_header (byte_at p.block.bytes at) (byte_at p.block.bytes (at + 2)) in
    let front = if first then buf ++ (header ∷ byte_at p.block.bytes (at + 1) ∷ []) else buf in
    let ts' = if first then get_time_stamp packet' else ts in
    let rest = copy p.block.bytes (at + 3) (sub32 (payload_len packet' p.len) 3) >>= λ payload.
    put room front payload >>= λ filled. h265_loop cb room packet' false ts' filled ps in
    if not (is_ok code) then some [] else if too_short packet' p.len then some [] else rest

unfoldable pub handle_h265_frame : MediaCallBack → List RtpPackInfo → Option (List MediaData)
handle_h265_frame cb [] = some []
handle_h265_frame cb (p ∷ []) =
    let total = check_frame_total_data_len (p ∷ []) in
    let room = cb.buffer_size total in
    if not (handle_connection_databuf cb total)
    then some []
    else put room [] start_code >>= λ buf. single_packet cb room h265 buf p
handle_h265_frame cb (p ∷ q ∷ ps) =
    let total = check_frame_total_data_len (p ∷ q ∷ ps) in
    let room = cb.buffer_size total in
    if not (handle_connection_databuf cb total)
    then some []
    else put room [] start_code >>= λ buf. h265_loop cb room new_rtp_packet true 0 buf (p ∷ q ∷ ps)

-- The loop of handleOtherFrame, which does not take the padding off.
unfoldable pub other_loop :
    MediaCallBack
    → ℕ
    → MediaType
    → RtpPacket
    → ℕ
    → List ℕ
    → List RtpPackInfo
    → Option (List MediaData)
other_loop cb room type packet ts buf [] = some (deliver cb type ts buf)
other_loop cb room type packet ts buf (p ∷ ps) =
    let (code, packet') = parse_packet packet (some p.block.bytes) p.len in
    let rest = copy p.block.bytes packet'.head_len (sub32 p.len packet'.head_len) >>= λ payload.
    put room buf payload >>= λ filled.
    other_loop cb room type packet' (get_time_stamp packet') filled ps in
    if not (is_ok code) then some [] else rest

unfoldable pub other_frame : MediaCallBack → MediaType → List RtpPackInfo → Option (List MediaData)
other_frame cb type ps =
    let total = check_frame_total_data_len ps in
    if not (handle_connection_databuf cb total)
    then some []
    else other_loop cb (cb.buffer_size total) type new_rtp_packet 0 [] ps

-- PT_TYPE_PCMU and PT_TYPE_PCMA.
unfoldable pub handle_other_frame : MediaCallBack → ℕ → List RtpPackInfo → Option (List MediaData)
unfolding other_frame
handle_other_frame cb pt [] = some []
handle_other_frame cb pt (p ∷ ps) =
    if pt == 0
    then other_frame cb g711u (p ∷ ps)
    else if pt == 8
    then other_frame cb g711a (p ∷ ps)
    else some []

-- handleRtpFrame, with the connection's two payload types.
unfoldable pub handle_rtp_frame : MediaCallBack → ℕ → ℕ → Delivery → Option (List MediaData)
handle_rtp_frame cb h264_pt h265_pt d =
    if h264_pt == d.payload_type
    then handle_h264_frame cb d.packets
    else if h265_pt == d.payload_type
    then handle_h265_frame cb d.packets
    else handle_other_frame cb d.payload_type d.packets
