-- ===== src/RtspService.antt =====
-- rtsp/mk_rtsp_service.cpp and .h: the pool of receive buffers and the pool of RTP/RTCP port pairs.
-- A buffer is its address. Every operation holds the mutex for its whole body, so each is one step.
-- AS_NEW of as.h is not in the repository: `alloc k` is its answer to the k-th call of a loop.
pub mod Pairs
pub mod Release
mod Examples
use lib_media_service.Common.{
  ℕ, zero, suc, ◌+◌, ◌*◌, ◌/◌, ◌%◌, Bool, true, false, Option, none, some, List, [], ◌∷◌, ◌++◌, not,
  ◌==◌, if◌then◌else◌, u32_mod, set, replicate, length, ltb, ◌&&◌, is_ok, Status, ok, fail,
}
use lib_media_service.UdpHandle.{UdpHandle, new_udp_handle, stop_handle}
use lib_media_service.UdpHandle

pub record RtspService : Type 0 where
  pub udp_start_port : ℕ
  pub udp_pair_count : ℕ
  pub udp_rtp_array : List (Option UdpHandle)
  pub udp_rtcp_array : List (Option UdpHandle)
  pub rtp_rtcp_free_list : List ℕ
  pub rtp_recv_buf_list : List ℕ
  pub rtp_buf_count : ℕ

-- RTP_RTCP_START_PORT and RTP_RTCP_PORT_COUNT.
abbrev pub new_rtsp_service : RtspService
new_rtsp_service = record {
  udp_start_port = 10000;
  udp_pair_count = 8000;
  udp_rtp_array = [];
  udp_rtcp_array = [];
  rtp_rtcp_free_list = [];
  rtp_recv_buf_list = [];
  rtp_buf_count = 0;
}

abbrev pub elem_at {ℓ} : {A : Type ℓ} → List (Option A) → ℕ → Option A
elem_at [] i = none
elem_at (x ∷ xs) zero = x
elem_at (x ∷ xs) (suc i) = elem_at xs i

unfoldable pub set_rtp_rtcp_udp_port : RtspService → ℕ → ℕ → RtspService
set_rtp_rtcp_udp_port s port count = record s { udp_start_port = port; udp_pair_count = count }

unfoldable pub get_rtp_rtcp_pair :
    RtspService → Option (Option UdpHandle × Option UdpHandle) × RtspService
get_rtp_rtcp_pair s = elim s.rtp_rtcp_free_list [
  | [] ↦ (none, s)
  | index ∷ rest ↦ (
    some (elem_at s.udp_rtp_array index, elem_at s.udp_rtcp_array index),
    record s { rtp_rtcp_free_list = rest },
  )
]

unfoldable pub free_rtp_rtcp_pair : RtspService → UdpHandle → RtspService
free_rtp_rtcp_pair s h = record s { rtp_rtcp_free_list = s.rtp_rtcp_free_list ++ (h.index ∷ []) }

unfoldable pub get_rtp_recv_buf : RtspService → Option ℕ × RtspService
get_rtp_recv_buf s = elim s.rtp_recv_buf_list [
  | [] ↦ (none, s)
  | buf ∷ rest ↦ (some buf, record s { rtp_recv_buf_list = rest })
]

unfoldable pub free_rtp_recv_buf : RtspService → Option ℕ → RtspService
free_rtp_recv_buf s none = s
free_rtp_recv_buf s (some buf) = record s { rtp_recv_buf_list = s.rtp_recv_buf_list ++ (buf ∷ []) }

-- The loop of create_rtp_recv_bufs: `n` rounds are left, the next is round `i`.
unfoldable pub create_bufs_loop : (ℕ → Option ℕ) → ℕ → ℕ → RtspService → Status × RtspService
create_bufs_loop alloc zero i s = (ok, s)
create_bufs_loop alloc (suc n) i s = elim (alloc i) [
  | none ↦ (fail, s)
  | some buf ↦
      create_bufs_loop alloc n (i + 1)
        (record s { rtp_recv_buf_list = s.rtp_recv_buf_list ++ (buf ∷ []) })
]

-- create_rtp_recv_bufs(MaxClient, RtpBufCountPerClient), whose product is a uint32_t.
unfoldable pub create_rtp_recv_bufs : (ℕ → Option ℕ) → RtspService → ℕ → ℕ → Status × RtspService
unfolding create_bufs_loop
create_rtp_recv_bufs alloc s clients per_client =
    let count = clients * per_client % u32_mod in
    let s' = record s { rtp_buf_count = count } in
    if count == 0 then (fail, s') else create_bufs_loop alloc count 0 s'

-- destory_rtp_recv_bufs: every pooled buffer is deleted.
unfoldable pub destory_rtp_recv_bufs : RtspService → RtspService
destory_rtp_recv_bufs s = record s { rtp_recv_buf_list = [] }

-- The loop of create_rtp_rtcp_udp_pairs: `n` rounds are left, the next is round `i`, and `port` is
-- the uint32_t port counter.
unfoldable pub create_pairs_loop : (ℕ → Bool) → ℕ → ℕ → ℕ → RtspService → Status × RtspService
unfolding UdpHandle.init
create_pairs_loop alloc zero i port s = (ok, s)
create_pairs_loop alloc (suc n) i port s = elim (alloc (2 * i + 2)) [
  | false ↦ (fail, s)
  | true ↦ elim (alloc (2 * i + 3)) [
    | false ↦ (fail, s)
    | true ↦ create_pairs_loop alloc n (i + 1) (port + 2) (record s {
      udp_rtp_array = set s.udp_rtp_array i (some (UdpHandle.init new_udp_handle i port));
      udp_rtcp_array = set s.udp_rtcp_array i (some (UdpHandle.init new_udp_handle i (port + 1)));
      rtp_rtcp_free_list = s.rtp_rtcp_free_list ++ (i ∷ []);
    })
  ]
]

-- create_rtp_rtcp_udp_pairs: two arrays of `m_ulUdpPairCount / 2` pointers, then the pairs.
unfoldable pub create_rtp_rtcp_udp_pairs : (ℕ → Bool) → RtspService → Status × RtspService
unfolding create_pairs_loop
create_rtp_rtcp_udp_pairs alloc s =
    let pairs = s.udp_pair_count / 2 in
    if not (alloc 0)
    then (fail, s)
    else let s1 = record s { udp_rtp_array = replicate pairs none } in
      if not (alloc 1)
      then (fail, s1)
      else create_pairs_loop alloc pairs 0 s.udp_start_port
          (record s1 { udp_rtcp_array = replicate pairs none })

-- The loop of destory_rtp_rtcp_udp_pairs from round `i` on, which reads both arrays at `i` and
-- then replaces what it read by a new handle, stops that and deletes it. `alloc` answers AS_NEW as
-- above. An index outside the arrays is undefined: `none`.
unfoldable pub destory_pairs_loop : (ℕ → Bool) → ℕ → ℕ → RtspService → Option RtspService
destory_pairs_loop alloc zero i s = some s
destory_pairs_loop alloc (suc n) i s =
    let inside = ltb i (length s.udp_rtp_array) && ltb i (length s.udp_rtcp_array) in
    let rtps = if alloc (2 * i) then set s.udp_rtp_array i none else s.udp_rtp_array in
    let rtcps = if alloc (2 * i + 1) then set s.udp_rtcp_array i none else s.udp_rtcp_array in
    let rest =
      destory_pairs_loop alloc n (i + 1)
        (record s { udp_rtp_array = rtps; udp_rtcp_array = rtcps }) in
    if inside then rest else none

unfoldable pub destory_rtp_rtcp_udp_pairs : (ℕ → Bool) → RtspService → Option RtspService
unfolding destory_pairs_loop
destory_rtp_rtcp_udp_pairs alloc s = destory_pairs_loop alloc s.udp_pair_count 0 s

unfoldable pub set_rtp_recv_buf_info : RtspService → ℕ → RtspService
set_rtp_recv_buf_info s count = record s { rtp_buf_count = count }

-- init(MaxClient, RtpBufCountPerClient): `mutex` is whether as_create_mutex gives one.
unfoldable pub init :
    Bool → (ℕ → Option ℕ) → (ℕ → Bool) → RtspService → ℕ → ℕ → Status × RtspService
unfolding create_rtp_recv_bufs create_rtp_rtcp_udp_pairs
init mutex bufs pairs s clients per_client =
    if not mutex
    then (fail, s)
    else let (code, s1) = create_rtp_recv_bufs bufs s clients per_client in
      if not (is_ok code)
      then (fail, s1)
      else let (code2, s2) = create_rtp_rtcp_udp_pairs pairs s1 in
        if not (is_ok code2) then (fail, s2) else (ok, s2)

unfoldable pub release : (ℕ → Bool) → RtspService → Option RtspService
unfolding destory_rtp_recv_bufs destory_rtp_rtcp_udp_pairs
release alloc s = destory_rtp_rtcp_udp_pairs alloc (destory_rtp_recv_bufs s)
