-- ===== src/Organizer/Packets.antt =====
-- A property of all packets in the frames of rtsp/mk_rtsp_rtp_frame_organizer.cpp, and what the
-- operations on the map and on a queue do to it.
pub mod Handed
use mathlib.Core.Path.{subst}
use lib_media_service.Common.{
  is_ok, sym, ℕ, ◌≡◌, refl, true, false, Bool, Option, none, some, List, [], ◌∷◌, ◌++◌, All,
  All-snoc, arith, ltb, leb, ◌==◌, Bool-cases, Option-cases, inl, inr, not, if◌then◌else◌, add32,
  ok,
}
use lib_media_service.RtpPacket.{
  RtpPacket, get_time_stamp, get_seq_num, get_marker, get_payload_type, parse_packet,
  new_rtp_packet,
}
use lib_media_service.RtspService.{RtspService}
use lib_media_service.Organizer.Frames.{
  Block, RtpPackInfo, RtpFrameInfo, FrameMap, find_frame, insert_entry, store_frame, erase_frame,
  smallest_from, last_seq,
}
use lib_media_service.Organizer.Queue.{insert_range, insert_queue, consecutive, lost_packets}
use lib_media_service.Organizer.Invariant.{IsSpare, IsValid}
use lib_media_service.Organizer.{
  Organizer, Delivery, Result, insert_frame, get_small_frame, release_rtp_packet,
  handle_finished_frame, check_small_frame, check_frame, give_up_frame, add_to_frame, insert_parsed,
  insert_rtp_packet, update_total_rtp_packet_num,
}

module _ (P : RtpPackInfo → Type 0) where
  -- Every packet of every frame.
  abbrev pub Stored : FrameMap → Type 0
  Stored [] = Unit {0}
  Stored ((k, f) ∷ m) = All P f.packet_queue × Stored m

  pub find_frame-Stored :
      (k : ℕ) (m : FrameMap) (f : RtpFrameInfo)
      → Stored m
      → find_frame k m ≡ some f
      → All P f.packet_queue
  unfolding find_frame
  find_frame-Stored k [] f h e = cc
  find_frame-Stored k ((j, g) ∷ m) f h e = elim (Bool-cases (j == k)) [
    | inl hit ↦
        let same : g ≡ f = ground arith in
        subst (λ (x : RtpFrameInfo). All P x.packet_queue) same h.0
    | inr miss ↦ find_frame-Stored k m f h.1 (ground arith)
  ]

  pub insert_entry-Stored :
      (k : ℕ) (f : RtpFrameInfo) (m : FrameMap)
      → All P f.packet_queue
      → Stored m
      → Stored (insert_entry k f m)
  unfolding insert_entry
  insert_entry-Stored k f [] p h = (p, tt)
  insert_entry-Stored k f ((j, g) ∷ m) p h = elim (Bool-cases (ltb k j)) [
    | inl lt ↦ rw lt (p, h)
    | inr ge ↦ elim (Bool-cases (k == j)) [
      | inl same ↦ rw (ge, same) h
      | inr other ↦ rw (ge, other) (h.0, insert_entry-Stored k f m p h.1)
    ]
  ]

  pub store_frame-Stored :
      (k : ℕ) (f : RtpFrameInfo) (m : FrameMap)
      → All P f.packet_queue
      → Stored m
      → Stored (store_frame k f m)
  unfolding store_frame
  store_frame-Stored k f [] p h = tt
  store_frame-Stored k f ((j, g) ∷ m) p h = elim (Bool-cases (j == k)) [
    | inl hit ↦ rw hit (p, h.1)
    | inr miss ↦ rw miss (h.0, store_frame-Stored k f m p h.1)
  ]

  pub erase_frame-Stored : (k : ℕ) (m : FrameMap) → Stored m → Stored (erase_frame k m)
  unfolding erase_frame
  erase_frame-Stored k [] h = tt
  erase_frame-Stored k ((j, g) ∷ m) h = elim (Bool-cases (j == k)) [
    | inl hit ↦ rw hit h.1
    | inr miss ↦ rw miss (h.0, erase_frame-Stored k m h.1)
  ]

  pub smallest_from-All :
      (f : RtpFrameInfo) (m : FrameMap)
      → All P f.packet_queue
      → Stored m
      → All P (smallest_from f m).packet_queue
  unfolding smallest_from
  smallest_from-All f [] p h = p
  smallest_from-All f ((j, g) ∷ m) p h =
      choose (ltb g.timestamp f.timestamp) (smallest_from-All g m h.0 h.1)
        (smallest_from-All f m p h.1)
    where
      choose :
          (b : Bool)
          → All P (smallest_from g m).packet_queue
          → All P (smallest_from f m).packet_queue
          → All P (smallest_from (if b then g else f) m).packet_queue
      choose true k l = k
      choose false k l = l

  -- A queue that there is has such packets only.
  data AllIf : Option (List RtpPackInfo) → Type 0 where
    no_queue : AllIf none
    ranged : {q : List RtpPackInfo} → All P q → AllIf (some q)

  pub data InsertsIf : Option (List RtpPackInfo × ℕ) → Type 0 where
    no_insert : InsertsIf none
    inserted : {q : List RtpPackInfo} {d : ℕ} → All P q → InsertsIf (some (q, d))

  insert_range-AllIf :
      (x : RtpPackInfo) (q : List RtpPackInfo) → P x → All P q → AllIf (insert_range x q)
  unfolding insert_range
  insert_range-AllIf x [] p h = no_queue
  insert_range-AllIf x (y ∷ ys) p h =
      place (leb x.seq y.seq) (insert_range x ys) (insert_range-AllIf x ys p h.1)
    where
      place :
          (b : Bool) (r : Option (List RtpPackInfo))
          → AllIf r
          → AllIf
              (if b then some (x ∷ y ∷ ys) else elim r [ none ↦ none | some qs ↦ some (y ∷ qs) ])
      place true r k = ranged (p, h)
      place false none k = no_queue
      place false (some q) (ranged k) = ranged (h.0, k)

  append-All : (xs ys : List RtpPackInfo) → All P xs → All P ys → All P (xs ++ ys)
  append-All [] ys h k = k
  append-All (x ∷ xs) ys h k = (h.0, append-All xs ys h.1 k)

  pub insert_queue-InsertsIf :
      (q : List RtpPackInfo) (x : RtpPackInfo) → P x → All P q → InsertsIf (insert_queue q x)
  unfolding insert_queue
  insert_queue-InsertsIf [] x p h = inserted (p, tt)
  insert_queue-InsertsIf (y ∷ ys) x p h =
      place (leb (last_seq y ys) x.seq) (ltb x.seq y.seq) (insert_range x (y ∷ ys))
        (insert_range-AllIf x (y ∷ ys) p h)
    where
      place :
          (b c : Bool) (r : Option (List RtpPackInfo))
          → AllIf r
          → InsertsIf (
              if b
              then some ((y ∷ ys) ++ (x ∷ []), 0)
              else if c
              then some (x ∷ y ∷ ys, 1)
              else elim r [ none ↦ none | some qs ↦ some (qs, 1) ])
      place true c r k = inserted (append-All (y ∷ ys) (x ∷ []) h (p, tt))
      place false true r k = inserted (p, h)
      place false false none k = no_insert
      place false false (some q) (ranged k) = inserted k
