-- ===== src/MediaPath/Balance.antt =====
-- The receive buffers on the way of a media packet through rtsp/mk_rtsp_connection.cpp: each one is
-- in the pool or in the frame organizer, exactly once.
use mathlib.Core.Path.{subst}
use lib_media_service.Common.{
  byte_at, not, ◌/◌, ◌%◌, ℕ, ◌+◌, ◌≡◌, Bool, true, false, Option, none, some, List, [], ◌∷◌, arith,
  count, count-append, ok, fail, is_ok, Bool-cases, Option-cases, inl, inr, if◌then◌else◌, ◌==◌,
}
use lib_media_service.RtpPacket.{RtpPacket, new_rtp_packet, parse_packet, get_payload_type}
use lib_media_service.UdpHandle.{HandleType, video_rtp, video_rtcp, audio_rtp, audio_rtcp, type_max}
use lib_media_service.RtspService.{RtspService, free_rtp_recv_buf}
use lib_media_service.Organizer.Frames.{Block}
use lib_media_service.Organizer.Frames.Map.{held}
use lib_media_service.Organizer.Invariant.{IsValid, Admits}
use lib_media_service.Organizer.Insert.{insert_rtp_packet-kept}
use lib_media_service.Organizer.{get_small_frame, Organizer, update_total_rtp_packet_num}
use lib_media_service.Client.{
  h264, h265, g711a, g711u, MediaType, MediaData, handle_connection_databuf,
}
use lib_media_service.Depacketizer.{start_code, copy, put, payload_len}
use lib_media_service.MediaPath.{
  MediaPath, Outcome, handle_frames, to_organizer, send_direct, video_packet, audio_packet,
  handle_rtp_packet,
}

-- How often a buffer is in the frames or in the pool.
abbrev pub owned : ℕ → MediaPath → RtspService → ℕ
owned a c s = count a (held c.organizer.rtp_frame_map) + count a s.rtp_recv_buf_list

-- The operation, which was lent the buffer of `block`, leaves a valid organizer, and the buffer in
-- the frames or in the pool if and only if it returned OK.
pub record Settles (c : MediaPath) (s : RtspService) (block : Block) (r : Outcome) : Type 0 where
  pub valid : IsValid r.path.organizer
  pub balance :
      (a : ℕ)
      → owned a r.path r.service
        ≡ count a (if is_ok r.code then block.address ∷ [] else []) + owned a c s

-- Where there is a result, it settles the buffer.
pub data SettlesIf (c : MediaPath) (s : RtspService) (block : Block) : Option Outcome → Type 0 where
  fault : SettlesIf c s block none
  settled : {r : Outcome} → Settles c s block r → SettlesIf c s block (some r)

pub count-free_rtp_recv_buf :
    (a : ℕ) (s : RtspService) (b : ℕ)
    → count a (free_rtp_recv_buf s (some b)).rtp_recv_buf_list
      ≡ count a s.rtp_recv_buf_list + count a (b ∷ [])
unfolding free_rtp_recv_buf
count-free_rtp_recv_buf a s b = count-append a s.rtp_recv_buf_list (b ∷ [])

pub refused-Settles :
    (c : MediaPath) (s : RtspService) (block : Block)
    → IsValid c.organizer
    → Settles c s block (record { code = fail; path = c; service = s; media = [] })
refused-Settles c s block v = record { valid = v; balance = λ a. omega arith }

pub freed-Settles :
    (c : MediaPath) (s : RtspService) (block : Block) (media : List MediaData)
    → IsValid c.organizer
    → Settles c s block (record {
      code = ok;
      path = c;
      service = free_rtp_recv_buf s (some block.address);
      media = media;
    })
freed-Settles c s block media v = record {
  valid = v;
  balance = λ a. omega (arith, count-free_rtp_recv_buf a s block.address);
}

to_organizer-Settles :
    (c : MediaPath) (s : RtspService) (block : Block) (len : ℕ)
    → Admits c.organizer
    → SettlesIf c s block (to_organizer c s block len)
unfolding to_organizer
to_organizer-Settles c s block len v =
    let (r, eq, keeps) = insert_rtp_packet-kept c.organizer s block len v.valid v.counted in
    rw (eq, to_organizer)
      (elim (Option-cases (handle_frames c r.delivered)) [
        | inl e ↦ rw e fault
        | inr (media, e) ↦ rw e (settled (record { valid = keeps.valid; balance = keeps.balance }))
      ])

send_direct-Settles :
    (c : MediaPath) (s : RtspService) (block : Block) (len : ℕ) (packet : RtpPacket)
    (type : MediaType) (front : List ℕ)
    → IsValid c.organizer
    → SettlesIf c s block (send_direct c s block len packet type front)
unfolding send_direct
send_direct-Settles c s block len packet type front v =
    elim (Bool-cases (handle_connection_databuf c.call_back (payload_len packet len))) [
      | inr missing ↦ rw missing (settled (refused-Settles c s block v))
      | inl given ↦
          elim (Option-cases (copy block.bytes packet.head_len (payload_len packet len))) [
            | inl e ↦ rw (given, e) fault
            | inr (payload, e) ↦
                elim (Option-cases
                  (put (c.call_back.buffer_size (payload_len packet len)) front payload)) [
                    | inl full ↦ rw (given, e, full) fault
                    | inr (filled, f) ↦ rw (given, e, f) (settled (freed-Settles c s block _ v))
                  ]
          ]
    ]

-- The packet is counted before it is handed on.
pub counted-IsValid : (o : Organizer) → IsValid o → IsValid (update_total_rtp_packet_num o)
unfolding update_total_rtp_packet_num
counted-IsValid o v = record {
  frames = v.frames;
  spares = v.spares;
  total = v.total;
  room = v.room;
}

pub counted-Admits : (o : Organizer) → Admits o → Admits (update_total_rtp_packet_num o)
unfolding update_total_rtp_packet_num get_small_frame
counted-Admits o v = record { valid = counted-IsValid o v.valid; counted = v.counted }

counted-Settles :
    (c : MediaPath) (s : RtspService) (block : Block) (r : Option Outcome)
    → SettlesIf (record c { organizer = update_total_rtp_packet_num c.organizer }) s block r
    → SettlesIf c s block r
unfolding update_total_rtp_packet_num
counted-Settles c s block none h = fault
counted-Settles c s block (some r) (settled h) =
    settled (record { valid = h.valid; balance = h.balance })

pub if-Settles :
    (c : MediaPath) (s : RtspService) (block : Block) (b : Bool) (x y : Option Outcome)
    → SettlesIf c s block x
    → SettlesIf c s block y
    → SettlesIf c s block (if b then x else y)
if-Settles c s block true x y h k = h
if-Settles c s block false x y h k = k

video_packet-Settles :
    (c : MediaPath) (s : RtspService) (block : Block) (len : ℕ) (packet : RtpPacket)
    → Admits c.organizer
    → SettlesIf c s block (video_packet c s block len packet)
unfolding video_packet
video_packet-Settles c s block len packet v =
    let c1 = record c { organizer = update_total_rtp_packet_num c.organizer } in
    let v1 = counted-Admits c.organizer v in
    let nal = byte_at block.bytes packet.head_len in
    let organized = to_organizer-Settles c1 s block len v1 in
    counted-Settles c s block _ (
      if-Settles c1 s block (c.h264_payload_type == get_payload_type packet) _ _
        (if-Settles c1 s block (not (nal % 32 == 28)) _ _
          (send_direct-Settles c1 s block len packet h264 start_code v1.valid) organized)
        (if-Settles c1 s block (c.h265_payload_type == get_payload_type packet) _ _
          (if-Settles c1 s block (not (nal / 2 % 64 == 49)) _ _
            (send_direct-Settles c1 s block len packet h265 start_code v1.valid) organized)
          (settled (refused-Settles c1 s block v1.valid))))

audio_packet-Settles :
    (c : MediaPath) (s : RtspService) (block : Block) (len : ℕ) (packet : RtpPacket)
    → IsValid c.organizer
    → SettlesIf c s block (audio_packet c s block len packet)
unfolding audio_packet
audio_packet-Settles c s block len packet v =
    if-Settles c s block (get_payload_type packet == 0) _ _
      (send_direct-Settles c s block len packet g711u [] v)
      (if-Settles c s block (get_payload_type packet == 8) _ _
        (send_direct-Settles c s block len packet g711a [] v)
        (settled (refused-Settles c s block v)))

pub handle_rtp_packet-SettlesIf :
    (c : MediaPath) (s : RtspService) (type : HandleType) (block : Block) (len : ℕ)
    → Admits c.organizer
    → SettlesIf c s block (handle_rtp_packet c s type block len)
unfolding handle_rtp_packet
handle_rtp_packet-SettlesIf c s video_rtp block len v =
    let (code, packet) = parse_packet new_rtp_packet (some block.bytes) len in
    if-Settles c s block (not (is_ok code)) _ _ (settled (refused-Settles c s block v.valid))
      (video_packet-Settles c s block len packet v)
handle_rtp_packet-SettlesIf c s audio_rtp block len v =
    let (code, packet) = parse_packet new_rtp_packet (some block.bytes) len in
    if-Settles c s block (not (is_ok code)) _ _ (settled (refused-Settles c s block v.valid))
      (audio_packet-Settles c s block len packet v.valid)
handle_rtp_packet-SettlesIf c s video_rtcp block len v = settled (refused-Settles c s block v.valid)
handle_rtp_packet-SettlesIf c s audio_rtcp block len v = settled (refused-Settles c s block v.valid)
handle_rtp_packet-SettlesIf c s type_max block len v = settled (refused-Settles c s block v.valid)

SettlesIf-some :
    {c : MediaPath} {s : RtspService} {block : Block} (o : Option Outcome) (r : Outcome)
    → SettlesIf c s block o
    → o ≡ some r
    → Settles c s block r
SettlesIf-some none r h e = cc
SettlesIf-some {c} {s} {block} (some q) r (settled h) e = subst (Settles c s block) (ground arith) h

-- A handle_rtp_packet that returns leaves a valid organizer and settles the packet's buffer: it is in
-- the organizer or in the pool, once, if the call returns OK; otherwise it is left to the caller.
-- Every other buffer stays where it was counted.
pub handle_rtp_packet-Settles :
    (c : MediaPath) (s : RtspService) (type : HandleType) (block : Block) (len : ℕ) (r : Outcome)
    → Admits c.organizer
    → handle_rtp_packet c s type block len ≡ some r
    → Settles c s block r
handle_rtp_packet-Settles c s type block len r v e =
    SettlesIf-some _ r (handle_rtp_packet-SettlesIf c s type block len v) e
