-- ===== src/Depacketizer/Room.antt =====
-- The frame handlers of rtsp/mk_rtsp_connection.cpp on packets without padding, and what
-- checkFrameTotalDataLen asks the application for.
use lib_media_service.Common.{
  ℕ, ◌+◌, ◌*◌, ◌-◌, ◌≤◌, ◌<◌, ◌≡◌, refl, ◌∙◌, true, some, List, [], ◌∷◌, All, arith, length, add32,
}
use lib_media_service.RtpPacket.{RtpPacket, new_rtp_packet, parse_packet}
use lib_media_service.RtpPacket.Parse.{parse_packet-ok_iff, head_size}
use lib_media_service.Organizer.Frames.{RtpPackInfo}
use lib_media_service.Organizer.{Delivery}
use lib_media_service.Client.{MediaType, MediaCallBack, h264, h265, g711a, g711u}
use lib_media_service.Depacketizer.{
  payload_len, start_code, total_len_loop, check_frame_total_data_len, handle_h264_frame,
  handle_h265_frame, other_frame, handle_other_frame, handle_rtp_frame,
}
use lib_media_service.Depacketizer.Total.{
  Plain, IsPlain-IsPlainly, Returns, returns, if-Returns, start-Returns, loads, h264_loop-Returns,
  h265_loop-Returns, other_loop-Returns, single_packet-Returns,
}

-- The application's buffers have room for a start code more than they are asked for.
abbrev pub HasRoom : MediaCallBack → Type 0
HasRoom cb = (len : ℕ) → len + 4 ≤ cb.buffer_size len

-- No more packets than there are sequence numbers, none of them with padding.
pub record IsHandable (ps : List RtpPackInfo) : Type 0 where
  pub plain : All Plain ps
  pub few : length ps ≤ 65536

loads-bound : (ps : List RtpPackInfo) → All Plain ps → loads ps ≤ 65535 * length ps
loads-bound [] h = omega arith
loads-bound (p ∷ ps) h = omega (arith, h.0.small, loads-bound ps h.1)

-- The loop adds up the payloads, where their sum is a uint32_t.
total_len_loop-loads :
    (packet : RtpPacket) (sum : ℕ) (ps : List RtpPackInfo)
    → packet.tail_len ≡ 0
    → All Plain ps
    → sum + loads ps < 4294967296
    → total_len_loop packet sum ps ≡ sum + loads ps
unfolding total_len_loop
total_len_loop-loads packet sum [] t h small = omega arith
total_len_loop-loads packet sum (p ∷ ps) t h small =
    let r = IsPlain-IsPlainly packet p.block.bytes p.len h.0 t in
    let packet' = (parse_packet packet (some p.block.bytes) p.len).1 in
    let good = (parse_packet-ok_iff packet p.block.bytes p.len).1 h.0.rtp in
    let next : add32 sum (payload_len packet' p.len) ≡ sum + (p.len - head_size p.block.bytes) =
      omega (arith, r.size, small) in
    let rest =
      total_len_loop-loads packet' (add32 sum (payload_len packet' p.len)) ps r.untailed h.1
        (omega (arith, next, small)) in
    rw good (rest ∙ omega (arith, next))

-- checkFrameTotalDataLen is the sum of the payloads.
pub check_frame_total_data_len-loads :
    (ps : List RtpPackInfo) → IsHandable ps → check_frame_total_data_len ps ≡ loads ps
unfolding check_frame_total_data_len
check_frame_total_data_len-loads ps h =
    let bound = loads-bound ps h.plain in
    total_len_loop-loads new_rtp_packet 0 ps refl h.plain (omega (arith, bound, h.few))
    ∙ omega arith

frame-fits :
    (cb : MediaCallBack) (ps : List RtpPackInfo)
    → HasRoom cb
    → IsHandable ps
    → 4 + loads ps ≤ cb.buffer_size (check_frame_total_data_len ps)
frame-fits cb ps room h =
    let total = check_frame_total_data_len-loads ps h in
    omega (arith, total, room (check_frame_total_data_len ps))

handle_h264_frame-Returns :
    (cb : MediaCallBack) (ps : List RtpPackInfo)
    → HasRoom cb
    → IsHandable ps
    → Returns (handle_h264_frame cb ps)
unfolding handle_h264_frame
handle_h264_frame-Returns cb [] room h = returns _
handle_h264_frame-Returns cb (p ∷ []) room h =
    let fits = frame-fits cb (p ∷ []) room h in
    if-Returns _ _ _ (returns []) (
      start-Returns _ _ (omega (arith, fits))
        (single_packet-Returns cb _ h264 start_code p h.plain.0 fits))
handle_h264_frame-Returns cb (p ∷ q ∷ ps) room h =
    let fits = frame-fits cb (p ∷ q ∷ ps) room h in
    if-Returns _ _ _ (returns []) (
      start-Returns _ _ (omega (arith, fits))
        (h264_loop-Returns cb _ _ true 0 start_code (p ∷ q ∷ ps) refl h.plain fits))

handle_h265_frame-Returns :
    (cb : MediaCallBack) (ps : List RtpPackInfo)
    → HasRoom cb
    → IsHandable ps
    → Returns (handle_h265_frame cb ps)
unfolding handle_h265_frame
handle_h265_frame-Returns cb [] room h = returns _
handle_h265_frame-Returns cb (p ∷ []) room h =
    let fits = frame-fits cb (p ∷ []) room h in
    if-Returns _ _ _ (returns []) (
      start-Returns _ _ (omega (arith, fits))
        (single_packet-Returns cb _ h265 start_code p h.plain.0 fits))
handle_h265_frame-Returns cb (p ∷ q ∷ ps) room h =
    let fits = frame-fits cb (p ∷ q ∷ ps) room h in
    if-Returns _ _ _ (returns []) (
      start-Returns _ _ (omega (arith, fits))
        (h265_loop-Returns cb _ _ true 0 start_code (p ∷ q ∷ ps) refl h.plain fits))

other_frame-Returns :
    (cb : MediaCallBack) (type : MediaType) (ps : List RtpPackInfo)
    → HasRoom cb
    → IsHandable ps
    → Returns (other_frame cb type ps)
unfolding other_frame
other_frame-Returns cb type ps room h =
    let fits = frame-fits cb ps room h in
    if-Returns _ _ _ (returns [])
      (other_loop-Returns cb _ type _ 0 [] ps refl h.plain (omega (arith, fits)))

handle_other_frame-Returns :
    (cb : MediaCallBack) (pt : ℕ) (ps : List RtpPackInfo)
    → HasRoom cb
    → IsHandable ps
    → Returns (handle_other_frame cb pt ps)
unfolding handle_other_frame
handle_other_frame-Returns cb pt [] room h = returns _
handle_other_frame-Returns cb pt (p ∷ ps) room h =
    if-Returns _ _ _ (other_frame-Returns cb g711u (p ∷ ps) room h)
      (if-Returns _ _ _ (other_frame-Returns cb g711a (p ∷ ps) room h) (returns []))

-- handleRtpFrame returns on a frame of any payload type, of at most 65536 packets, that have version
-- 2, no padding, three bytes of payload or more, and lie inside their buffers, if the application's
-- buffers have room for four bytes more than they are asked for: no copy is from outside a receive
-- buffer, and no write past the application's.
pub handle_rtp_frame-Returns :
    (cb : MediaCallBack) (h264_pt h265_pt : ℕ) (d : Delivery)
    → HasRoom cb
    → IsHandable d.packets
    → Returns (handle_rtp_frame cb h264_pt h265_pt d)
unfolding handle_rtp_frame
handle_rtp_frame-Returns cb h264_pt h265_pt d room h =
    if-Returns _ _ _ (handle_h264_frame-Returns cb d.packets room h) (
      if-Returns _ _ _ (handle_h265_frame-Returns cb d.packets room h)
        (handle_other_frame-Returns cb d.payload_type d.packets room h))
