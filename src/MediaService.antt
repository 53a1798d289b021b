-- ===== src/MediaService.antt =====
-- mk_media_service.cpp and .h: the indices of the clients, the network services that the clients
-- share by index, and the frame buffers. create_client and destory_client hold the mutex for their
-- whole body, so each is one step.
pub mod Clients
pub mod View
mod Examples
use lib_media_service.Common.{
  ℕ, zero, suc, ◌+◌, ◌%◌, Bool, true, false, not, ◌||◌, Option, none, some, List, [], ◌∷◌, ◌++◌,
  set, replicate, codes, starts_with, ◌==◌, if◌then◌else◌, Status, ok, fail, is_ok,
}
use lib_media_service.Client.{
  MediaCallBack, ClientConnection, new_client_connection, set_index, set_status_callback, set_url,
}
use lib_media_service.RtspService.{RtspService, elem_at}
use lib_media_service.RtspService

-- A network service and a frame buffer are their addresses.
pub record MediaService : Type 0 where
  pub evn_count : ℕ
  pub network_array : List (Option ℕ)
  pub client_free_list : List ℕ
  pub frame_buf_size : ℕ
  pub frame_buf_count : ℕ
  pub frame_buf_list : List ℕ

-- The constructor: FRAME_RECV_BUF_SIZE and FRAME_RECV_BUF_COUNT.
abbrev pub new_media_service : MediaService
new_media_service = record {
  evn_count = 0;
  network_array = [];
  client_free_list = [];
  frame_buf_size = 1048576;
  frame_buf_count = 4000;
  frame_buf_list = [];
}

-- What as_common and the allocator answer to init: the mutexes, the array, for each network service
-- its address, its init and its run, the timer, and the buffers and handles of the RTSP service.
pub record Platform : Type 0 where
  pub mutex : Bool
  pub array : Bool
  pub network : ℕ → Option ℕ
  pub network_init : ℕ → Status
  pub network_run : ℕ → Status
  pub timer_init : Status
  pub timer_run : Status
  pub rtsp_mutex : Bool
  pub rtp_bufs : ℕ → Option ℕ
  pub udp_pairs : ℕ → Bool

-- The loop of init over the network services: `n` rounds are left, the next is round `i`.
unfoldable pub network_loop : Platform → ℕ → ℕ → MediaService → Status × MediaService
network_loop p zero i s = (ok, s)
network_loop p (suc n) i s = elim (p.network i) [
  | none ↦ (fail, s)
  | some net ↦
      let rest =
        network_loop p n (i + 1) (record s { network_array = set s.network_array i (some net) }) in
      if not (is_ok (p.network_init i))
      then (fail, s)
      else if not (is_ok (p.network_run i))
      then (fail, s)
      else rest
]

-- The loop of init over the clients.
unfoldable pub index_loop : ℕ → ℕ → List ℕ → List ℕ
index_loop zero i free = free
index_loop (suc n) i free = index_loop n (i + 1) (free ++ (i ∷ []))

-- init(EvnCount, MaxClient, RtpBufCountPerClient).
unfoldable pub init :
    Platform → MediaService → RtspService → ℕ → ℕ → ℕ → Status × MediaService × RtspService
unfolding network_loop index_loop
init p s rtsp evn_count clients per_client =
    let s0 = record s { evn_count = evn_count } in
    if not p.mutex
    then (fail, s0, rtsp)
    else if not p.array
    then (fail, record s0 { network_array = [] }, rtsp)
    else let (code, s1) =
        network_loop p evn_count 0 (record s0 { network_array = replicate evn_count none }) in
      if not (is_ok code)
      then (fail, s1, rtsp)
      else let s2 = record s1 { client_free_list = index_loop clients 0 s1.client_free_list } in
        if not (is_ok p.timer_init)
        then (fail, s2, rtsp)
        else if not (is_ok p.timer_run)
        then (fail, s2, rtsp)
        else let (code2, rtsp') =
            RtspService.init p.rtsp_mutex p.rtp_bufs p.udp_pairs rtsp clients per_client in
          (code2, s2, rtsp')

-- The class of a client.
pub data ClientKind : Type 0 where
  rtsp_connection rtmp_connection : ClientKind

-- RTSP_URL_PREFIX and RTMP_URL_PREFIX.
unfoldable pub kind_of_url : List ℕ → Option ClientKind
kind_of_url url =
    if starts_with (codes "rtsp://") url
    then some rtsp_connection
    else if starts_with (codes "rtmp://") url
    then some rtmp_connection
    else none

-- create_client: `alloc` is whether AS_NEW gives a client. The constructor of its class is not here.
unfoldable pub create_client :
    Bool
    → MediaService
    → List ℕ
    → MediaCallBack
    → Option (ClientKind × ClientConnection) × MediaService
unfolding kind_of_url set_index set_status_callback set_url
create_client alloc s url cb = elim s.client_free_list [
  | [] ↦ (none, s)
  | idx ∷ rest ↦ elim (kind_of_url url) [
    | none ↦ (none, s)
    | some kind ↦ if not alloc then (none, s) else (
      some (kind, set_url (set_status_callback (set_index (new_client_connection cb) idx) cb) url),
      record s { client_free_list = rest },
    )
  ]
]

unfoldable pub destory_client : MediaService → Option ClientConnection → MediaService
destory_client s none = s
destory_client s (some c) = record s { client_free_list = s.client_free_list ++ (c.index ∷ []) }

-- get_client_network_svr: with no network service the remainder by 0 is undefined.
unfoldable pub get_client_network_svr : MediaService → ℕ → Option (Option ℕ)
get_client_network_svr s index =
    if s.evn_count == 0 then none else some (elem_at s.network_array (index % s.evn_count))

unfoldable pub set_media_frame_buffer : MediaService → ℕ → ℕ → MediaService
set_media_frame_buffer s max_size max_count = record s {
  frame_buf_size = max_size;
  frame_buf_count = max_count;
}

unfoldable pub get_frame_buf : MediaService → Option ℕ × MediaService
get_frame_buf s = elim s.frame_buf_list [
  | [] ↦ (none, s)
  | buf ∷ rest ↦ (some buf, record s { frame_buf_list = rest })
]

unfoldable pub free_frame_buf : MediaService → Option ℕ → MediaService
free_frame_buf s none = s
free_frame_buf s (some buf) = record s { frame_buf_list = s.frame_buf_list ++ (buf ∷ []) }

-- The loop of create_frame_recv_bufs: `alloc k` is AS_NEW's answer to its k-th round.
unfoldable pub frame_bufs_loop : (ℕ → Option ℕ) → ℕ → ℕ → MediaService → Status × MediaService
frame_bufs_loop alloc zero i s = (ok, s)
frame_bufs_loop alloc (suc n) i s = elim (alloc i) [
  | none ↦ (fail, s)
  | some buf ↦
      frame_bufs_loop alloc n (i + 1) (record s { frame_buf_list = s.frame_buf_list ++ (buf ∷ []) })
]

unfoldable pub create_frame_recv_bufs : (ℕ → Option ℕ) → MediaService → Status × MediaService
unfolding frame_bufs_loop
create_frame_recv_bufs alloc s =
    if s.frame_buf_size == 0 || s.frame_buf_count == 0
    then (fail, s)
    else frame_bufs_loop alloc s.frame_buf_count 0 s

unfoldable pub destory_frame_recv_bufs : MediaService → MediaService
destory_frame_recv_bufs s = record s { frame_buf_list = [] }

-- release: every network service is deleted, and the RTSP service released.
unfoldable pub release : (ℕ → Bool) → MediaService → RtspService → MediaService × Option RtspService
release alloc s rtsp =
    (record s { network_array = replicate s.evn_count none }, RtspService.release alloc rtsp)
