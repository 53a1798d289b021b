-- ===== src/Rtmp/Packets.antt =====
-- The packets that handle_recv of rtmp/mk_rtmp_connection.cpp reads: each is memory of librtmp, which the
-- caller frees.
use lib_media_service.Common.{
  ℕ, ◌≡◌, ◌↔◌, refl, Bool, true, false, Option, none, some, on_some, [], ◌∷◌, if◌then◌else◌, length,
  arith,
}
use lib_media_service.Client.{
  MediaType, handle_connection_databuf, handle_connection_media, parse_media_info,
}
use lib_media_service.Rtmp.{
  Rtmp, Packet, Received, kept, media_type, hand_over, read_packet, handle_recv,
}

-- The application was given the bytes of a packet, with the time and the type that librtmp finds in it.
abbrev pub Handed : Packet → Received → Type 0
Handed p d =
    (pts : ℕ) × (type : MediaType) × (p.pts ≡ some pts)
    × (media_type p ≡ some type)
    × (d.media ≡ record { info = parse_media_info type pts p.bytes; bytes = p.bytes } ∷ [])

-- What is known behind each step.
abbrev Settles : Packet → Received → Type 0
Settles p d = (d.freed ≡ true → Handed p d) × (Handed p d → d.freed ≡ true)

kept-Settles : (r : Rtmp) (b : Bool) (p : Packet) → Settles p (kept r b)
kept-Settles r b p = (λ e. cc, λ h. let media = h.4 in cc)

hand_over-Settles :
    (r : Rtmp) (now : ℕ) (p : Packet) (pts : ℕ) (type : Option MediaType)
    → handle_connection_databuf r.client.call_back (length p.bytes) ≡ true
    → p.pts ≡ some pts
    → media_type p ≡ type
    → Settles p (hand_over r now p pts type)
unfolding hand_over handle_connection_databuf handle_connection_media
hand_over-Settles r now p pts none b e t = kept-Settles r true p
hand_over-Settles r now p pts (some type) b e t =
    let registered : r.client.call_back.registered ≡ true = ground arith in
    (λ k. (pts, type, e, t, rw registered refl), λ h. refl)

read_packet-Settles :
    (r : Rtmp) (now : ℕ) (p : Packet) (pts : Option ℕ)
    → p.pts ≡ pts
    → Settles p (read_packet r now p pts)
unfolding read_packet
read_packet-Settles r now p none e = kept-Settles r false p
read_packet-Settles r now p (some pts) e =
    choose (handle_connection_databuf r.client.call_back (length p.bytes)) refl
  where
    choose :
        (b : Bool)
        → handle_connection_databuf r.client.call_back (length p.bytes) ≡ b
        → Settles p (if b then hand_over r now p pts (media_type p) else kept r false)
    choose true k = hand_over-Settles r now p pts (media_type p) k e refl
    choose false k = kept-Settles r false p

with_handle :
    (r : Rtmp) (now : ℕ) (p : Packet) (h : Option ℕ)
    → Settles p (on_some h (kept r false) λ _. read_packet r now p p.pts)
with_handle r now p none = kept-Settles r false p
with_handle r now p (some h) = read_packet-Settles r now p p.pts refl

-- A packet is freed exactly where the application is given its bytes: of any other kind, without a time or
-- without a buffer of the application, its memory is lost.
pub handle_recv-frees_iff :
    (r : Rtmp) (now : ℕ) (p : Packet)
    → ((handle_recv r now (some p)).freed ≡ true) ↔ Handed p (handle_recv r now (some p))
unfolding handle_recv
handle_recv-frees_iff r now p = with_handle r now p r.handle
