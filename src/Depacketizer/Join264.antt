-- ===== src/Depacketizer/Join264.antt =====
-- handleH264Frame of rtsp/mk_rtsp_connection.cpp puts the fragments of a NAL unit together.
use mathlib.Core.List.{append_assoc, append-nil}
use native.Mathlib.Nat.{add-zero}
use lib_media_service.Common.{
  ℕ, ◌+◌, ◌≤◌, ◌≡◌, refl, sym, ap, ◌∙◌, Bool, true, false, some, List, [], ◌∷◌, ◌++◌, arith, length,
  length-append, sub32, if◌then◌else◌,
}
use lib_media_service.RtpPacket.{RtpPacket, new_rtp_packet, parse_packet}
use lib_media_service.Organizer.Frames.{RtpPackInfo}
use lib_media_service.Client.{MediaCallBack, h264, handle_connection_databuf}
use lib_media_service.Depacketizer.Payload.{
  HasPayload, HasPayload-IsRead, byte_at-load, copy-load, put-fits,
}
use lib_media_service.Depacketizer.{
  start_code, nal_header, deliver, h264_loop, handle_h264_frame, check_frame_total_data_len,
}

-- The packets carry the pieces, one each, in order.
abbrev pub Carries : ℕ → List RtpPackInfo → List (List ℕ) → Type 0
Carries ts [] [] = Unit {0}
Carries ts [] (c ∷ cs) = ⊥
Carries ts (p ∷ ps) [] = ⊥
Carries ts (p ∷ ps) (c ∷ cs) =
    ((ind : ℕ) × (hdr : ℕ) × HasPayload ts p (ind ∷ hdr ∷ c)) × Carries ts ps cs

abbrev pub join : List (List ℕ) → List ℕ
join [] = []
join (c ∷ cs) = c ++ join cs

-- One round of the loop on such a packet.
h264_loop-step :
    (cb : MediaCallBack) (room : ℕ) (packet : RtpPacket) (first : Bool) (ts t ind hdr : ℕ)
    (buf c : List ℕ) (p : RtpPackInfo) (ps : List RtpPackInfo)
    → HasPayload t p (ind ∷ hdr ∷ c)
    → packet.tail_len ≡ 0
    → length (if first then buf ++ (nal_header ind hdr ∷ []) else buf) + length c ≤ room
    → (packet' : RtpPacket) × (packet'.tail_len ≡ 0)
      × (h264_loop cb room packet first ts buf (p ∷ ps)
          ≡ h264_loop cb room packet' false t
              ((if first then buf ++ (nal_header ind hdr ∷ []) else buf) ++ c)
              ps)
unfolding h264_loop
h264_loop-step cb room packet first ts t ind hdr buf c p ps h tail fits =
    let r = HasPayload-IsRead packet t p (ind ∷ hdr ∷ c) h tail in
    let copied =
      copy-load p.block.bytes h.head (ind ∷ hdr ∷ []) c h.slack _ _ h.split
        (ap (λ (n : ℕ). n + 2) r.at) (ap (λ (n : ℕ). sub32 n 2) r.size ∙ two_less) in
    let byte_0 = byte_at-load p.block.bytes h.head [] ind _ _ h.split (r.at ∙ sym (add-zero _)) in
    let byte_1 =
      byte_at-load p.block.bytes h.head (ind ∷ []) hdr _ _ h.split (ap (λ (n : ℕ). n + 1) r.at) in
    (
      (parse_packet packet (some p.block.bytes) p.len).1,
      r.untailed,
      rw (
        r.accepted,
        r.enough (omega arith),
        copied,
        byte_0,
        byte_1,
        r.stamp,
        put-fits room _ c fits,
      ),
    )
  where
    two_less : sub32 (length (ind ∷ hdr ∷ c)) 2 ≡ length c
    two_less = omega (arith, h.fits, h.small)

-- The packets after the first: each piece is appended.
h264_loop-joins :
    (cb : MediaCallBack) (room : ℕ) (packet : RtpPacket) (ts : ℕ) (buf : List ℕ)
    (ps : List RtpPackInfo) (cs : List (List ℕ))
    → packet.tail_len ≡ 0
    → Carries ts ps cs
    → length (buf ++ join cs) ≤ room
    → h264_loop cb room packet false ts buf ps ≡ some (deliver cb h264 ts (buf ++ join cs))
h264_loop-joins cb room packet ts buf [] [] t h fits = unfold h264_loop in rw append-nil
h264_loop-joins cb room packet ts buf [] (c ∷ cs) t h fits = absurd h
h264_loop-joins cb room packet ts buf (p ∷ ps) [] t h fits = absurd h
h264_loop-joins cb room packet ts buf (p ∷ ps) (c ∷ cs) t ((ind, hdr, load), rest) fits =
    let now : length buf + length c ≤ room =
      omega (arith, fits, length-append buf (c ++ join cs), length-append c (join cs)) in
    let later : length ((buf ++ c) ++ join cs) ≤ room = rw append_assoc fits in
    let (packet', t', step) =
      h264_loop-step cb room packet false ts ts ind hdr buf c p ps load t now in
    step
    ∙ h264_loop-joins cb room packet' ts (buf ++ c) ps cs t' rest later
    ∙ ap (λ b. some (deliver cb h264 ts b)) (append_assoc buf c (join cs))

-- A NAL unit that came in two or more FU-A packets of one timestamp, with no padding, reaches the
-- application whole, if the application gives a buffer that has room for it, start code included:
-- the start code, the header byte with F and NRI of the first packet's indicator and TYPE of its FU
-- header, and the pieces in order.
pub handle_h264_frame-joins :
    (cb : MediaCallBack) (ts ind hdr : ℕ) (c : List ℕ) (cs : List (List ℕ)) (p q : RtpPackInfo)
    (ps : List RtpPackInfo)
    → HasPayload ts p (ind ∷ hdr ∷ c)
    → Carries ts (q ∷ ps) cs
    → handle_connection_databuf cb (check_frame_total_data_len (p ∷ q ∷ ps)) ≡ true
    → length (start_code ++ (nal_header ind hdr ∷ (c ++ join cs)))
      ≤ cb.buffer_size (check_frame_total_data_len (p ∷ q ∷ ps))
    → handle_h264_frame cb (p ∷ q ∷ ps)
      ≡ some (deliver cb h264 ts (start_code ++ (nal_header ind hdr ∷ (c ++ join cs))))
unfolding handle_h264_frame
handle_h264_frame-joins cb ts ind hdr c cs p q ps h rest given fits =
    let room = cb.buffer_size (check_frame_total_data_len (p ∷ q ∷ ps)) in
    let sizes = length-append c (join cs) in
    let (packet, t, step) =
      h264_loop-step cb room new_rtp_packet true 0 ts ind hdr start_code c p (q ∷ ps) h refl
        (omega (arith, fits, sizes)) in
    rw (given, put-fits room [] start_code (omega (arith, fits, sizes)))
      (step ∙ h264_loop-joins cb room packet ts _ (q ∷ ps) cs t rest fits)
