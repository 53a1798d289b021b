-- ===== src/Organizer/Queue.antt =====
-- rtsp/mk_rtsp_rtp_frame_organizer.cpp: what the organizer does with the packets of one frame, a
-- std::deque in the order of sequence numbers. `none` is a read past the end.
pub mod Insertion
pub mod Runs
use lib_media_service.Common.{
  ℕ, zero, suc, ◌+◌, ◌-◌, ◌%◌, Bool, true, ◌&&◌, Option, none, some, List, [], ◌∷◌, ◌++◌, length,
  ltb, leb, ◌==◌, if◌then◌else◌, u16_mod,
}
use lib_media_service.RtspService.{RtspService, free_rtp_recv_buf}
use lib_media_service.Organizer.Frames.{RtpPackInfo, last_seq}

-- The loop of insertRange. Past the last element the source reads PacketQueue[unSize].
unfoldable pub insert_range : RtpPackInfo → List RtpPackInfo → Option (List RtpPackInfo)
insert_range info [] = none
insert_range info (p ∷ ps) =
    let rest = insert_range info ps in
    if leb info.seq p.seq
    then some (info ∷ p ∷ ps)
    else elim rest [ none ↦ none | some qs ↦ some (p ∷ qs) ]

-- insert(pFrameinfo, info) on the frame's queue; the second part is 1 where the source counts a
-- packet out of order.
unfoldable pub insert_queue : List RtpPackInfo → RtpPackInfo → Option (List RtpPackInfo × ℕ)
unfolding insert_range
insert_queue [] info = some (info ∷ [], 0)
insert_queue (p ∷ ps) info =
    if leb (last_seq p ps) info.seq
    then some ((p ∷ ps) ++ (info ∷ []), 0)
    else if ltb info.seq p.seq
    then some (info ∷ p ∷ ps, 1)
    else elim (insert_range info (p ∷ ps)) [ none ↦ none | some qs ↦ some (qs, 1) ]

-- The loop of checkFrame: the sequence numbers count up from `seq`, as a uint16_t.
unfoldable pub consecutive : ℕ → List RtpPackInfo → Bool
consecutive seq [] = true
consecutive seq (p ∷ ps) = seq == p.seq && consecutive ((seq + 1) % u16_mod) ps

-- PacketQueue[i].usSeq.
abbrev pub seq_at : List RtpPackInfo → ℕ → ℕ
seq_at [] i = 0
seq_at (p ∷ ps) zero = p.seq
seq_at (p ∷ ps) (suc i) = seq_at ps i

-- The packets that a frame given up lacks between its first and its last, by insertRtpPacket. The size
-- of the queue, usCount, is a uint16_t: for 65536 packets it is 0, and PacketQueue[usCount - 1] is
-- outside the queue.
unfoldable pub lost_packets : List RtpPackInfo → Option ℕ
lost_packets q =
    let count = length q % u16_mod in
    let seq_len = (seq_at q (count - 1) + u16_mod - seq_at q 0 + 1) % u16_mod in
    if count == 0 then none else some (if ltb count seq_len then seq_len - count else 0)

-- The loop of releaseRtpPacket: each packet's buffer goes back to the pool, first packet first.
unfoldable pub free_queue : List RtpPackInfo → RtspService → RtspService
free_queue [] s = s
free_queue (p ∷ ps) s = free_queue ps (free_rtp_recv_buf s (some p.block.address))
