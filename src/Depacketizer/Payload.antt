-- ===== src/Depacketizer/Payload.antt =====
-- What the handlers of rtsp/mk_rtsp_connection.cpp read of a packet that has no padding.
use mathlib.Core.List.{append_assoc}
use lib_media_service.Common.{
  ℕ, ◌+◌, ◌≤◌, ◌<◌, ◌≡◌, ◌≢◌, refl, sym, ◌∙◌, true, false, some, List, [], ◌∷◌, ◌++◌, arith, length,
  length-append, take-append, drop-append, get_or, byte_at, net32, leb, ok, ok_of_is_ok,
}
use lib_media_service.RtpPacket.{RtpPacket, parse_packet, get_time_stamp}
use lib_media_service.RtpPacket.FixedHead
use lib_media_service.RtpPacket.Parse.{IsRtp, head_size, parse_packet-ok, parse_packet-ok_iff}
use lib_media_service.RtpPacket.Stale.{tail_len-parse_packet}
use lib_media_service.Organizer.Frames.{RtpPackInfo}
use lib_media_service.Depacketizer.{copy, put, payload_len, too_short}

-- A packet of version 2 and of timestamp `ts`, with no padding: a header, then `load`. The rest of
-- the receive buffer is `slack`.
pub record HasPayload (ts : ℕ) (p : RtpPackInfo) (load : List ℕ) : Type 0 where
  pub head : List ℕ
  pub slack : List ℕ
  pub split : p.block.bytes ≡ head ++ (load ++ slack)
  pub headed : length head ≡ head_size p.block.bytes
  pub fits : p.len ≡ length head + length load
  pub small : p.len < 65536
  pub version_two : FixedHead.version p.block.bytes ≡ 2
  pub unpadded : FixedHead.padding p.block.bytes ≢ 1
  pub stamped : net32 p.block.bytes 4 ≡ ts

-- What ParsePacket makes of it, in an object that has met no padding.
pub record IsRead (packet : RtpPacket) (ts : ℕ) (p : RtpPackInfo) (head load : List ℕ)
    : Type 0 where
  pub accepted : (parse_packet packet (some p.block.bytes) p.len).0 ≡ ok
  pub at : (parse_packet packet (some p.block.bytes) p.len).1.head_len ≡ length head
  pub untailed : (parse_packet packet (some p.block.bytes) p.len).1.tail_len ≡ 0
  pub stamp : get_time_stamp (parse_packet packet (some p.block.bytes) p.len).1 ≡ ts
  pub size : payload_len (parse_packet packet (some p.block.bytes) p.len).1 p.len ≡ length load
  pub enough :
      2 ≤ length load → too_short (parse_packet packet (some p.block.bytes) p.len).1 p.len ≡ false

pub HasPayload-IsRead :
    (packet : RtpPacket) (ts : ℕ) (p : RtpPackInfo) (load : List ℕ)
    → (h : HasPayload ts p load) → packet.tail_len ≡ 0
    → IsRead packet ts p h.head load
unfolding get_time_stamp
HasPayload-IsRead packet ts p load h t =
    let rtp : IsRtp p.block.bytes p.len = record {
      version_two = h.version_two;
      head_fits = omega (arith, h.fits, h.headed);
    } in
    let good = ok_of_is_ok _ ((parse_packet-ok_iff packet p.block.bytes p.len).1 rtp) in
    let (headed, fits, same, length, fixed) = parse_packet-ok packet p.block.bytes p.len good in
    let long : 12 ≤ p.len = omega (arith, rtp.head_fits) in
    let tail = (tail_len-parse_packet packet p.block.bytes p.len long).0 h.unpadded in
    let at = headed ∙ sym h.headed in
    record {
      accepted = good;
      at = at;
      untailed = tail ∙ t;
      stamp = rw (fixed, same) h.stamped;
      size = omega (arith, at, tail ∙ t, h.fits, h.small);
      enough = λ two. ground (arith, at, tail ∙ t, h.fits, h.small);
    }

-- A copy that lies inside the buffer.
pub copy-middle :
    (bs xs ys zs : List ℕ) (from n : ℕ)
    → bs ≡ xs ++ (ys ++ zs)
    → from ≡ length xs
    → n ≡ length ys
    → copy bs from n ≡ some ys
unfolding copy
copy-middle bs xs ys zs from n e f g =
    rw (e, f, g, inside, drop-append xs (ys ++ zs), take-append ys zs)
  where
    inside : leb (length xs + length ys) (length (xs ++ (ys ++ zs))) ≡ true
    inside = ground (arith, length-append xs (ys ++ zs), length-append ys zs)

get_or-middle : (xs ys : List ℕ) (y : ℕ) → get_or (xs ++ (y ∷ ys)) (length xs) 0 ≡ y
get_or-middle [] ys y = refl
get_or-middle (x ∷ xs) ys y = get_or-middle xs ys y

-- The byte of the load behind `front`.
pub byte_at-load :
    (bs head front : List ℕ) (y : ℕ) (ys : List ℕ) (i : ℕ)
    → bs ≡ head ++ (front ++ (y ∷ ys))
    → i ≡ length head + length front
    → byte_at bs i ≡ y
byte_at-load bs head front y ys i e f =
    rw (e, f, ← append_assoc head front (y ∷ ys), ← length-append head front)
      (get_or-middle (head ++ front) ys y)

-- The copy of the load behind `front`.
pub copy-load :
    (bs head front ys slack : List ℕ) (from n : ℕ)
    → bs ≡ head ++ ((front ++ ys) ++ slack)
    → from ≡ length head + length front
    → n ≡ length ys
    → copy bs from n ≡ some ys
copy-load bs head front ys slack from n e f g =
    copy-middle bs (head ++ front) ys slack from n (e ∙ simp append_assoc)
      (f ∙ sym (length-append head front)) g

-- A write that the buffer has room for.
pub put-fits :
    (room : ℕ) (buf piece : List ℕ)
    → length buf + length piece ≤ room
    → put room buf piece ≡ some (buf ++ piece)
unfolding put
put-fits room buf piece h =
    let inside : leb (length buf + length piece) room ≡ true = ground arith in rw inside refl
