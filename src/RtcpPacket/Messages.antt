-- ===== src/RtcpPacket/Messages.antt =====
-- What a peer reads of the reports of rtsp/mk_rtsp_rtcp_packet.cpp, and of the frame that sendRtcpMessage
-- of rtsp/mk_rtsp_connection.cpp puts round one.
use lib_media_service.Common.{
  ℕ, zero, suc, ◌+◌, ◌-◌, ◌*◌, ◌/◌, ◌%◌, ◌≤◌, ◌<◌, ◌≡◌, refl, ap, ◌∙◌, Bool, true, false, Option,
  none, some, List, [], ◌∷◌, ◌++◌, arith, length, take, replicate, length-append, length-take, leb,
  ◌==◌, if◌then◌else◌, on_some, byte_at, net16, ok,
}
use lib_media_service.RtcpPacket.{
  RtcpPacket, Report, over, write_at, sdes_len, create_sdes_packet, create_sender_report,
  get_ntp_time, bytes16, bytes32, rtcp_head, host64, rtcp_message,
}
use lib_media_service.RtcpPacket.Reports.{
  Fits, fits, if-Fits, same, length-over, over-Within, write_at-over, sdes_len-words, add_sdes-Fits,
  create_receiver_report-Fits,
}

over-read :
    (buf : List ℕ) (at : ℕ) (new : List ℕ) (j : ℕ)
    → at + length new ≤ length buf
    → at ≤ j
    → j < at + length new
    → byte_at (over buf at new) j ≡ byte_at new (j - at)
unfolding over
over-read [] at new j h k l = absurd (omega arith)
over-read (b ∷ buf) zero [] j h k l = absurd (omega arith)
over-read (b ∷ buf) zero (c ∷ new) zero h k l = refl
over-read (b ∷ buf) zero (c ∷ new) (suc j) h k l =
    over-read buf zero new j (omega arith) (omega arith) (omega arith)
    ∙ ap (byte_at new) {x = j - 0} {y = j} (omega arith)
    ∙ ap (byte_at (c ∷ new)) {x = suc j} {y = suc j - 0} (omega arith)
over-read (b ∷ buf) (suc at) new zero h k l = absurd (omega arith)
over-read (b ∷ buf) (suc at) new (suc j) h k l =
    over-read buf at new j (omega arith) (omega arith) (omega arith)
    ∙ ap (byte_at new) {x = j - at} {y = suc j - suc at} (omega arith)

-- createSenderReport, given `max` bytes from `at` on of a buffer that has them, writes to no other byte,
-- and reports a length that these bytes have room for, in whole words.
pub create_sender_report-Fits :
    (m : RtcpPacket) (buf : List ℕ) (at max : ℕ)
    → length m.cname < 1048576
    → max < 4294967296
    → at + max ≤ length buf
    → Fits at max buf (create_sender_report m buf at max 0).0
unfolding create_sender_report
create_sender_report-Fits m buf at max h w l =
    let m' = if m.ntp_time == 0 then record m { ntp_time = get_ntp_time } else m in
    let named : length m'.cname ≡ length m.cname = ground arith in
    let new : List ℕ =
      rtcp_head 200 7 ++ bytes32 m.reporter_ssrc ++ host64 m'.ntp_time ++ replicate 12 0 in
    if-Fits (leb max 32) at max buf (λ _. fits _ (omega arith) refl (same at max buf))
      λ e.
        let room : 32 < max = ground (arith, e) in
        rw (write_at-over buf new at (omega (arith, room))) (
          add_sdes-Fits m' buf (over buf at new) at max (omega (arith, named, h)) room w l
            (over-Within buf new at at max (omega arith) (omega (arith, room))))

-- A frame of the interleaved channel 1: the flag, the channel, the length in network order, and as
-- many bytes, in whole words.
pub data Framed : Option (List ℕ) → Type 0 where
  framed :
      (bytes : List ℕ)
      → length bytes ≤ 1024
      → byte_at bytes 0 ≡ 36
      → byte_at bytes 1 ≡ 1
      → 4 + net16 bytes 2 ≡ length bytes
      → length bytes % 4 ≡ 0
      → Framed (some bytes)

byte_at-take : (k : ℕ) (bs : List ℕ) (i : ℕ) → i < k → byte_at (take k bs) i ≡ byte_at bs i
byte_at-take zero bs i h = absurd (omega arith)
byte_at-take (suc k) [] i h = refl
byte_at-take (suc k) (b ∷ bs) zero h = refl
byte_at-take (suc k) (b ∷ bs) (suc i) h = byte_at-take k bs i (omega arith)

frames :
    (buf : List ℕ) (n : ℕ)
    → length buf ≡ 1024
    → n ≤ 1020
    → n % 4 ≡ 0
    → Framed (some (take (n + 4) (over buf 0 (36 ∷ 1 ∷ bytes16 (n % 65536)))))
frames buf n h k l =
    let head : List ℕ = 36 ∷ 1 ∷ bytes16 (n % 65536) in
    let whole = over buf 0 head in
    let size = length-take (n + 4) whole in
    let kept = length-over buf 0 head in
    let read : (i : ℕ) → i < 4 → byte_at (take (n + 4) whole) i ≡ byte_at head i = λ i c.
      byte_at-take (n + 4) whole i (omega arith)
      ∙ over-read buf 0 head i (omega (arith, h)) (omega arith) (omega arith)
      ∙ ap (byte_at head) {x = i - 0} {y = i} (omega arith) in
    framed (take (n + 4) whole) (omega (arith, size, kept, h, k)) (read 0 (omega arith))
      (read 1 (omega arith))
      (omega (arith, read 2 (omega arith), read 3 (omega arith), size, kept, h, k))
      (omega (arith, size, kept, h, k, l))

-- sendRtcpMessage, with either report, is defined and sends one frame of at most 1024 bytes.
pub rtcp_message-Framed :
    (m : RtcpPacket) (send_only : Bool)
    → length m.cname < 1048576
    → Framed (rtcp_message m send_only)
unfolding rtcp_message
rtcp_message-Framed m send_only h = go send_only
  where
    finish :
        (x : Option Report)
        → Fits 4 1020 (replicate 1024 0) x
        → Framed (
            on_some x none λ r.
              on_some
                (write_at r.buf 0 (36 ∷ 1 ∷ bytes16 (r.len % 65536)))
                none
                λ buf. some (take (r.len + 4) buf))
    finish none f = elim f [ ]
    finish (some _) (fits r a b v) =
        rw (write_at-over r.buf (36 ∷ 1 ∷ bytes16 (r.len % 65536)) 0 (omega (arith, v.size)))
          (frames r.buf r.len v.size a b)

    go : (flag : Bool) → Framed (rtcp_message m flag)
    go true =
        finish _
          (create_sender_report-Fits m (replicate 1024 0) 4 1020 h (omega arith) (omega arith))
    go false =
        finish _
          (create_receiver_report-Fits m (replicate 1024 0) 4 1020 h (omega arith) (omega arith))

-- Where the source description has room, createSdesPacket returns OK, and the length field that it writes
-- is the number of the words of the packet, the first one included.
pub create_sdes_packet-counts_first :
    (m : RtcpPacket) (buf : List ℕ) (at max : ℕ)
    → length m.cname < 65536
    → sdes_len m ≤ max
    → at + max ≤ length buf
    → (r : Report) × (create_sdes_packet m buf at max 0 ≡ some r)
      × (r.code ≡ ok)
      × (4 * net16 r.buf (at + 2) ≡ r.len)
unfolding create_sdes_packet
create_sdes_packet-counts_first m buf at max h k l =
    let words = sdes_len-words m (omega (arith, h)) in
    let new : List ℕ =
      rtcp_head 202 (sdes_len m / 4)
      ++ bytes32 m.reporter_ssrc
      ++ (1 ∷ length m.cname % 256 ∷ [])
      ++ m.cname
      ++ (0 ∷ 0 ∷ []) in
    let size : length new ≡ length m.cname + 12 =
      omega (arith, length-append m.cname (0 ∷ 0 ∷ [])) in
    let fits : at + length new ≤ length buf = omega (arith, size, words.1, k, l) in
    let made = write_at-over buf new at fits in
    let read = λ (i : ℕ) (c : i < length new).
      over-read buf at new (at + i) fits (omega arith) (omega (arith, c))
      ∙ ap (byte_at new) {x = at + i - at} {y = i} (omega arith) in
    let high = read 2 (omega (arith, size)) in
    let low =
      ap (byte_at (over buf at new)) {x = at + 2 + 1} {y = at + 3} (omega arith)
      ∙ read 3 (omega (arith, size)) in
    (
      record { code = ok; buf = over buf at new; len = sdes_len m },
      ground (arith, made, words),
      refl,
      omega (arith, high, low, words, h),
    )
