-- ===== src/MediaPath/Total.antt =====
-- The way of a media packet through rtsp/mk_rtsp_connection.cpp returns, if the packets have no
-- padding: no step reaches undefined behaviour.
use lib_media_service.Common.{
  ℕ, ◌+◌, ◌≤◌, length, ◌++◌, ◌≡◌, refl, Bool, true, false, Option, none, some, List, [], ◌∷◌, All,
  arith, not, ◌%◌, ◌/◌, ◌==◌, Bool-cases, inl, inr, if◌then◌else◌, byte_at, is_ok,
}
use lib_media_service.RtpPacket.{RtpPacket, new_rtp_packet, parse_packet, get_payload_type}
use lib_media_service.UdpHandle.{HandleType, video_rtp, video_rtcp, audio_rtp, audio_rtcp, type_max}
use lib_media_service.RtspService.{RtspService}
use lib_media_service.Organizer.Frames.{Block, RtpPackInfo}
use lib_media_service.Organizer.Invariant.{Admits, IsComplete}
use lib_media_service.Organizer.Insert.{insert_rtp_packet-kept}
use lib_media_service.Organizer.Packets.{Stored}
use lib_media_service.Organizer.Packets.Handed.{insert_rtp_packet-Hands}
use lib_media_service.Organizer.{Delivery, update_total_rtp_packet_num}
use lib_media_service.Client.{MediaType, h264, h265, g711a, g711u}
use lib_media_service.Depacketizer.{start_code, copy, put, payload_len, ◌>>=◌}
use lib_media_service.Depacketizer.Total.{
  IsPlain, Plain, Returns, returns, copy-some, bind-Returns, IsPlain-IsPlainly,
}
use lib_media_service.Depacketizer.Payload.{put-fits}
use lib_media_service.Depacketizer.Room.{HasRoom, handle_rtp_frame-Returns}
use lib_media_service.MediaPath.{
  MediaPath, Outcome, handle_frames, to_organizer, send_direct, video_packet, audio_packet,
  handle_rtp_packet,
}
use lib_media_service.MediaPath.Balance.{Settles, handle_rtp_packet-Settles, counted-Admits}

-- All packets that the connection's organizer has.
abbrev pub StoresPlain : MediaPath → Type 0
StoresPlain c = Stored Plain c.organizer.rtp_frame_map

-- There is an outcome, and it keeps packets without padding only.
pub data Goes : Option Outcome → Type 0 where
  goes : {r : Outcome} → StoresPlain r.path → Goes (some r)

pub if-Goes : (b : Bool) (x y : Option Outcome) → Goes x → Goes y → Goes (if b then x else y)
if-Goes true x y h k = h
if-Goes false x y h k = k

bind-Goes {ℓ} :
    {A : Type ℓ} (o : Option A) (f : A → Option Outcome)
    → Returns o
    → ((a : A) → Goes (f a))
    → Goes (o >>= f)
bind-Goes o f (returns a) h = h a

-- A copy from inside a receive buffer into a buffer that has room for it.
fill-Goes :
    (bs : List ℕ) (from n room : ℕ) (buf : List ℕ) (k : List ℕ → Option Outcome)
    → from + n ≤ length bs
    → length buf + n ≤ room
    → ((filled : List ℕ) → Goes (k filled))
    → Goes (copy bs from n >>= λ payload. put room buf payload >>= k)
fill-Goes bs from n room buf k h fits next =
    let (payload, copied, size) = copy-some bs from n h in
    rw (copied, put-fits room buf payload (rw size fits)) (next (buf ++ payload))

handle_frames-Returns :
    (c : MediaPath) (ds : List Delivery)
    → HasRoom c.call_back
    → All (λ d. All Plain d.packets) ds
    → All IsComplete ds
    → Returns (handle_frames c ds)
unfolding handle_frames
handle_frames-Returns c [] room h k = returns []
handle_frames-Returns c (d ∷ ds) room h k =
    bind-Returns _ _
      (handle_rtp_frame-Returns c.call_back c.h264_payload_type c.h265_payload_type d room
        (record { plain = h.0; few = k.0.few }))
      λ front. bind-Returns _ _ (handle_frames-Returns c ds room h.1 k.1) λ rest. returns _

to_organizer-Goes :
    (c : MediaPath) (s : RtspService) (block : Block) (len : ℕ)
    → Admits c.organizer
    → HasRoom c.call_back
    → StoresPlain c
    → IsPlain block.bytes len
    → Goes (to_organizer c s block len)
unfolding to_organizer
to_organizer-Goes c s block len v room h plain =
    let (r, eq, keeps) = insert_rtp_packet-kept c.organizer s block len v.valid v.counted in
    let all : (info : RtpPackInfo) → info.block ≡ block → info.len ≡ len → Plain info =
      λ info e f. rw (e, f) plain in
    let hands =
      insert_rtp_packet-Hands Plain c.organizer s block len r v.valid h (λ good. all) eq in
    rw (eq, to_organizer)
      (bind-Goes _ _ (handle_frames-Returns c r.delivered room hands.handed keeps.complete)
        λ media. goes hands.stored)

send_direct-Goes :
    (c : MediaPath) (s : RtspService) (block : Block) (len : ℕ) (type : MediaType) (front : List ℕ)
    → HasRoom c.call_back
    → length front ≤ 4
    → StoresPlain c
    → IsPlain block.bytes len
    → Goes (
        send_direct c s block len (parse_packet new_rtp_packet (some block.bytes) len).1 type front)
unfolding send_direct
send_direct-Goes c s block len type front room short h plain =
    let r = IsPlain-IsPlainly new_rtp_packet block.bytes len plain refl in
    if-Goes _ _ _ (goes h) (
      fill-Goes block.bytes _ _ _ front _
        (omega (arith, r.at, r.size, plain.loaded, plain.inside, plain.small))
        (omega (
          arith,
          short,
          room (payload_len (parse_packet new_rtp_packet (some block.bytes) len).1 len),
        ))
        λ filled. goes h)

counted-StoresPlain :
    (c : MediaPath)
    → StoresPlain c
    → StoresPlain (record c { organizer = update_total_rtp_packet_num c.organizer })
unfolding update_total_rtp_packet_num
counted-StoresPlain c h = h

video_packet-Goes :
    (c : MediaPath) (s : RtspService) (block : Block) (len : ℕ)
    → Admits c.organizer
    → HasRoom c.call_back
    → StoresPlain c
    → IsPlain block.bytes len
    → Goes (video_packet c s block len (parse_packet new_rtp_packet (some block.bytes) len).1)
unfolding video_packet
video_packet-Goes c s block len v room h plain =
    let c1 : MediaPath = record c { organizer = update_total_rtp_packet_num c.organizer } in
    let v1 = counted-Admits c.organizer v in
    let h1 = counted-StoresPlain c h in
    let packet : RtpPacket = (parse_packet new_rtp_packet (some block.bytes) len).1 in
    let nal = byte_at block.bytes packet.head_len in
    let organized = to_organizer-Goes c1 s block len v1 room h1 plain in
    if-Goes (c.h264_payload_type == get_payload_type packet) _ _
      (if-Goes (not (nal % 32 == 28)) _ _
        (send_direct-Goes c1 s block len h264 start_code room (omega arith) h1 plain) organized)
      (if-Goes (c.h265_payload_type == get_payload_type packet) _ _
        (if-Goes (not (nal / 2 % 64 == 49)) _ _
          (send_direct-Goes c1 s block len h265 start_code room (omega arith) h1 plain) organized)
        (goes h1))

audio_packet-Goes :
    (c : MediaPath) (s : RtspService) (block : Block) (len : ℕ)
    → HasRoom c.call_back
    → StoresPlain c
    → IsPlain block.bytes len
    → Goes (audio_packet c s block len (parse_packet new_rtp_packet (some block.bytes) len).1)
unfolding audio_packet
audio_packet-Goes c s block len room h plain =
    if-Goes _ _ _ (send_direct-Goes c s block len g711u [] room (omega arith) h plain)
      (if-Goes _ _ _ (send_direct-Goes c s block len g711a [] room (omega arith) h plain) (goes h))

-- Either ParsePacket refuses the packet, or it has no padding.
abbrev pub PlainIfRead : Block → ℕ → Type 0
PlainIfRead block len =
    is_ok (parse_packet new_rtp_packet (some block.bytes) len).0 ≡ true → IsPlain block.bytes len

pub handle_rtp_packet-Goes :
    (c : MediaPath) (s : RtspService) (type : HandleType) (block : Block) (len : ℕ)
    → Admits c.organizer
    → HasRoom c.call_back
    → StoresPlain c
    → PlainIfRead block len
    → Goes (handle_rtp_packet c s type block len)
unfolding handle_rtp_packet
handle_rtp_packet-Goes c s video_rtp block len v room h p =
    elim (Bool-cases (is_ok (parse_packet new_rtp_packet (some block.bytes) len).0)) [
      | inl good ↦ rw good (video_packet-Goes c s block len v room h (p good))
      | inr bad ↦ rw bad (goes h)
    ]
handle_rtp_packet-Goes c s audio_rtp block len v room h p =
    elim (Bool-cases (is_ok (parse_packet new_rtp_packet (some block.bytes) len).0)) [
      | inl good ↦ rw good (audio_packet-Goes c s block len room h (p good))
      | inr bad ↦ rw bad (goes h)
    ]
handle_rtp_packet-Goes c s video_rtcp block len v room h p = goes h
handle_rtp_packet-Goes c s audio_rtcp block len v room h p = goes h
handle_rtp_packet-Goes c s type_max block len v room h p = goes h

Goes-some : (o : Option Outcome) → Goes o → (r : Outcome) × (o ≡ some r) × StoresPlain r.path
Goes-some none g = elim g [ ]
Goes-some (some r) (goes h) = (r, refl, h)

-- handle_rtp_packet returns, on a connection with a valid organizer whose oldest frame has fewer
-- than 65536 packets, if the packet and those that the organizer has carry no padding and three
-- bytes of payload or more and lie inside their buffers, or ParsePacket refuses the packet, and if
-- the application's buffers have room for four bytes more than they are asked for: no copy then
-- leaves a receive buffer, and no write the application's. The organizer is valid then and has such
-- packets only, and the packet's buffer is in the organizer or the pool if and only if the call
-- returns OK.
pub handle_rtp_packet-returns :
    (c : MediaPath) (s : RtspService) (type : HandleType) (block : Block) (len : ℕ)
    → Admits c.organizer
    → HasRoom c.call_back
    → StoresPlain c
    → PlainIfRead block len
    → (r : Outcome) × (handle_rtp_packet c s type block len ≡ some r)
      × StoresPlain r.path
      × Settles c s block r
handle_rtp_packet-returns c s type block len v room h p =
    let (r, e, stored) = Goes-some _ (handle_rtp_packet-Goes c s type block len v room h p) in
    (r, e, stored, handle_rtp_packet-Settles c s type block len r v e)
