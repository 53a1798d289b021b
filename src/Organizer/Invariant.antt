-- ===== src/Organizer/Invariant.antt =====
-- What holds of a mk_rtp_frame_organizer between two calls, and what a call may do to it.
use lib_media_service.Common.{
  ◌≤◌, ℕ, ◌+◌, ◌<◌, ◌≡◌, ◌≢◌, some, true, List, [], ◌∷◌, All, count, length,
}
use lib_media_service.RtspService.{RtspService}
use lib_media_service.Organizer.Frames.{RtpPackInfo, RtpFrameInfo}
use lib_media_service.Organizer.Frames.Map.{KeysFrom, held}
use lib_media_service.Organizer.Queue.Insertion.{SortedFrom}
use lib_media_service.Organizer.Queue.Runs.{Run, any_marker}
use lib_media_service.Organizer.{get_small_frame, Organizer, Delivery, Result}

-- A frame of the map: it carries its key, its packets are in order and of its timestamp, there is
-- one at least, and its marker says whether one of them has the RTP marker.
pub record IsFrame (ts : ℕ) (f : RtpFrameInfo) : Type 0 where
  pub keyed : f.timestamp ≡ ts
  pub sorted : SortedFrom 0 f.packet_queue
  pub filled : f.packet_queue ≢ []
  pub same_time : All (λ p. p.timestamp ≡ ts) f.packet_queue
  pub marked : f.marker ≡ any_marker f.packet_queue

-- A frame of the free list.
abbrev pub IsSpare : RtpFrameInfo → Type 0
IsSpare f = f.packet_queue ≡ []

pub record IsValid (o : Organizer) : Type 0 where
  pub frames : KeysFrom IsFrame 0 o.rtp_frame_map
  pub spares : All IsSpare o.rtp_frame_free_list
  pub total : length o.rtp_frame_map + length o.rtp_frame_free_list ≡ o.max_cache_frame_num
  pub room : 0 < o.max_cache_frame_num

-- The oldest frame, which is given up where a packet of a new frame finds no room, has a size that is
-- a uint16_t.
abbrev pub IsCounted : Organizer → Type 0
IsCounted o = (f : RtpFrameInfo) → get_small_frame o ≡ some f → length f.packet_queue < 65536

-- An organizer that insertRtpPacket can be called on.
pub record Admits (o : Organizer) : Type 0 where
  pub valid : IsValid o
  pub counted : IsCounted o

-- What the handler is promised: at least one packet and not more than there are sequence numbers, all
-- of one timestamp, one with the marker, and sequence numbers that count up by one.
abbrev pub IsRun : List RtpPackInfo → Type 0
IsRun [] = ⊥
IsRun (p ∷ ps) = Run p.seq (p ∷ ps) × All (λ q. q.timestamp ≡ p.timestamp) ps

pub record IsComplete (d : Delivery) : Type 0 where
  pub run : IsRun d.packets
  pub ended : any_marker d.packets ≡ true
  pub few : length d.packets ≤ 65536

-- A call that is given the buffers `extra` leaves a valid organizer, hands over complete frames, and
-- has every buffer in the frames or in the pool as often as before.
pub record Keeps (o : Organizer) (s : RtspService) (extra : List ℕ) (r : Result) : Type 0 where
  pub valid : IsValid r.organizer
  pub complete : All IsComplete r.delivered
  pub balance :
      (a : ℕ)
      → count a (held r.organizer.rtp_frame_map) + count a r.service.rtp_recv_buf_list
        ≡ count a extra + (count a (held o.rtp_frame_map) + count a s.rtp_recv_buf_list)
