-- ===== src/RtspService/Release.antt =====
-- release of rtsp/mk_rtsp_service.cpp on the pairs that create_rtp_rtcp_udp_pairs made.
use lib_media_service.Common.{
  ℕ, zero, suc, ◌+◌, ◌*◌, ◌/◌, ◌≤◌, ◌<◌, ◌≡◌, Bool, true, Option, none, arith, length, set,
  replicate, length-set, length-replicate, ltb-cases, if◌then◌else◌, inl, inr, ok, [], ◌∙◌,
}
use lib_media_service.UdpHandle.{UdpHandle}
use lib_media_service.RtspService.{
  RtspService, create_rtp_rtcp_udp_pairs, destory_pairs_loop, destory_rtp_rtcp_udp_pairs,
  destory_rtp_recv_bufs, create_pairs_loop,
}
use lib_media_service.RtspService

-- A loop that has more rounds left than the array has entries leaves the array.
destory_pairs_loop-overruns :
    (alloc : ℕ → Bool) (n i : ℕ) (s : RtspService)
    → i ≤ length s.udp_rtp_array
    → length s.udp_rtp_array < i + n
    → destory_pairs_loop alloc n i s ≡ none
unfolding destory_pairs_loop
destory_pairs_loop-overruns alloc zero i s h k = absurd (omega arith)
destory_pairs_loop-overruns alloc (suc n) i s h k =
    let rtps = if alloc (2 * i) then set s.udp_rtp_array i none else s.udp_rtp_array in
    let rtcps = if alloc (2 * i + 1) then set s.udp_rtcp_array i none else s.udp_rtcp_array in
    let kept : length rtps ≡ length s.udp_rtp_array =
      ground (arith, length-set s.udp_rtp_array i none) in
    let rest =
      destory_pairs_loop-overruns alloc n (i + 1)
        (record s { udp_rtp_array = rtps; udp_rtcp_array = rtcps }) in
    elim (ltb-cases i (length s.udp_rtp_array)) [
      | inl e ↦ let r = rest (omega (arith, kept)) (omega (arith, kept)) in ground (arith, r)
      | inr e ↦ ground arith
    ]

-- The loop that creates the pairs changes neither the pair count nor the length of its array.
record KeepsRoom (s t : RtspService) : Type 0 where
  count : t.udp_pair_count ≡ s.udp_pair_count
  room : length t.udp_rtp_array ≡ length s.udp_rtp_array

create_pairs_loop-KeepsRoom :
    (n i port : ℕ) (s t : RtspService)
    → create_pairs_loop (λ _. true) n i port s ≡ (ok, t)
    → KeepsRoom s t
unfolding create_pairs_loop
create_pairs_loop-KeepsRoom zero i port s t e = record { count = ground arith; room = ground arith }
create_pairs_loop-KeepsRoom (suc n) i port s t e =
    let rest = create_pairs_loop-KeepsRoom n (i + 1) (port + 2) _ t e in
    record { count = rest.count; room = rest.room ∙ length-set s.udp_rtp_array i _ }

-- release of a service whose port pairs were created, with any pair count but 0, leaves the arrays of
-- handles: its loop takes the configured count for their length, which is half of it.
pub release-overruns :
    (alloc : ℕ → Bool) (s t : RtspService)
    → create_rtp_rtcp_udp_pairs (λ _. true) s ≡ (ok, t)
    → 0 < s.udp_pair_count
    → RtspService.release alloc t ≡ none
unfolding create_rtp_rtcp_udp_pairs RtspService.release destory_rtp_rtcp_udp_pairs
    destory_rtp_recv_bufs
release-overruns alloc s t e h =
    let empty : RtspService = record s {
      udp_rtp_array = replicate (s.udp_pair_count / 2) none;
      udp_rtcp_array = replicate (s.udp_pair_count / 2) none;
    } in
    let half = create_pairs_loop-KeepsRoom (s.udp_pair_count / 2) 0 s.udp_start_port empty t e in
    let size = half.room ∙ length-replicate {A = Option UdpHandle} (s.udp_pair_count / 2) none in
    destory_pairs_loop-overruns alloc t.udp_pair_count 0 (record t { rtp_recv_buf_list = [] })
      (omega arith) (omega (arith, half.count, size))
