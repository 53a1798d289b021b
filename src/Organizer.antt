-- ===== src/Organizer.antt =====
-- rtsp/mk_rtsp_rtp_frame_organizer.cpp: class mk_rtp_frame_organizer, which gathers the RTP packets
-- of a frame (those of one timestamp), orders them by sequence number, and hands a frame over when
-- it is complete. The types and the frame map are in the child Frames.
-- `none` is undefined behaviour of the source: a null pointer or an element past the end.
pub mod Frames
pub mod Queue
pub mod Invariant
pub mod Steps
pub mod Insert
pub mod Lifetime
pub mod Packets
mod Examples
use lib_media_service.Common.{
  ℕ, zero, suc, ◌+◌, ◌-◌, ◌%◌, Bool, true, false, ◌&&◌, Option, none, some, List, [], ◌∷◌, ◌++◌,
  length, ltb, leb, ◌==◌, if◌then◌else◌, u16_mod, u32_mod, add32, not, Status, ok, fail, is_ok,
}
use lib_media_service.RtpPacket.{
  RtpPacket, new_rtp_packet, parse_packet, get_seq_num, get_time_stamp, get_payload_type,
  get_marker,
}
use lib_media_service.RtspService.{RtspService, free_rtp_recv_buf}
use Queue.{insert_queue, consecutive, lost_packets, free_queue}
use Frames.{
  Block, RtpPackInfo, RtpFrameInfo, new_frame_info, FrameMap, find_frame, insert_entry, store_frame,
  erase_frame, smallest_from, last_seq,
}

pub record Organizer : Type 0 where
  pub max_cache_frame_num : ℕ
  pub rtp_frame_handler : Bool
  pub rtp_frame_map : FrameMap
  pub rtp_frame_free_list : List RtpFrameInfo
  pub total_rtp_packet_num : ℕ
  pub lost_rtp_packet_num : ℕ
  pub lost_frame_num : ℕ
  pub disorder_seq_counts : ℕ

abbrev pub new_organizer : Organizer
new_organizer = record {
  max_cache_frame_num = 0;
  rtp_frame_handler = false;
  rtp_frame_map = [];
  rtp_frame_free_list = [];
  total_rtp_packet_num = 0;
  lost_rtp_packet_num = 0;
  lost_frame_num = 0;
  disorder_seq_counts = 0;
}

-- A call of the handler's handleRtpFrame: the payload type and the packets, in order.
pub record Delivery : Type 0 where
  pub payload_type : ℕ
  pub packets : List RtpPackInfo

-- What an operation leaves: its code, the organizer, the buffer pool, and the calls of the handler.
pub record Result : Type 0 where
  pub code : Status
  pub organizer : Organizer
  pub service : RtspService
  pub delivered : List Delivery

-- The loop of init: `alloc k` says whether the k-th AS_NEW succeeds.
unfoldable pub init_loop : (ℕ → Bool) → ℕ → ℕ → Organizer → Status × Organizer
init_loop alloc zero i o = (ok, o)
init_loop alloc (suc n) i o = elim (alloc i) [
  | false ↦ (fail, o)
  | true ↦
      init_loop alloc n (i + 1)
        (record o { rtp_frame_free_list = o.rtp_frame_free_list ++ (new_frame_info ∷ []) })
]

-- init(pHandler, unMaxFrameCache); the flag says that the handler is not null.
unfoldable pub init : (ℕ → Bool) → Organizer → Bool → ℕ → Status × Organizer
unfolding init_loop
init alloc o false n = (fail, o)
init alloc o true n =
    if n == 0
    then (fail, o)
    else init_loop alloc n 0 (record o { rtp_frame_handler = true; max_cache_frame_num = n })

unfoldable pub update_total_rtp_packet_num : Organizer → Organizer
update_total_rtp_packet_num o = record o { total_rtp_packet_num = add32 o.total_rtp_packet_num 1 }

-- InsertFrame(PayloadType, unTimestamp); `none` is the null pointer.
unfoldable pub insert_frame : Organizer → ℕ → ℕ → Option (RtpFrameInfo × Organizer)
insert_frame o pt ts = elim o.rtp_frame_free_list [
  | [] ↦ none
  | f ∷ rest ↦
      let f' = record f { marker = false; payload_type = pt; timestamp = ts } in
      some (
        f',
        record o { rtp_frame_free_list = rest; rtp_frame_map = insert_entry ts f' o.rtp_frame_map },
      )
]

-- GetSmallFrame.
unfoldable pub get_small_frame : Organizer → Option RtpFrameInfo
get_small_frame o = elim o.rtp_frame_map [
  | [] ↦ none
  | (ts, f) ∷ rest ↦ some (smallest_from f rest)
]

unfoldable pub release_rtp_packet : Organizer → RtspService → RtpFrameInfo → Organizer × RtspService
release_rtp_packet o s f = elim (find_frame f.timestamp o.rtp_frame_map) [
  | none ↦ (o, s)
  | some g ↦ (
    record o {
      rtp_frame_map = erase_frame f.timestamp o.rtp_frame_map;
      rtp_frame_free_list = o.rtp_frame_free_list ++ (record f { packet_queue = [] } ∷ []);
    },
    free_queue f.packet_queue s,
  )
]

-- handleFinishedFrame.
unfoldable pub handle_finished_frame : Organizer → RtpFrameInfo → List Delivery
handle_finished_frame o f = elim f.packet_queue [
  | [] ↦ []
  | p ∷ ps ↦
      if o.rtp_frame_handler
      then record { payload_type = f.payload_type; packets = p ∷ ps } ∷ []
      else []
]

unfoldable pub check_small_frame :
    Organizer → RtspService → RtpFrameInfo → List RtpPackInfo → Result
check_small_frame o s f [] = record { code = ok; organizer = o; service = s; delivered = [] }
check_small_frame o s f (p ∷ ps) =
    if not f.marker
    then record { code = ok; organizer = o; service = s; delivered = [] }
    else if not (consecutive p.seq (p ∷ ps))
    then record { code = ok; organizer = o; service = s; delivered = [] }
    else let (o', s') = release_rtp_packet o s f in
      record { code = ok; organizer = o'; service = s'; delivered = handle_finished_frame o f }

-- checkFrame, after which insertRtpPacket returns OK.
unfoldable pub check_frame : Organizer → RtspService → Result
unfolding check_small_frame
check_frame o s = elim (get_small_frame o) [
  | none ↦ record { code = ok; organizer = o; service = s; delivered = [] }
  | some f ↦ check_small_frame o s f f.packet_queue
]

-- The branch of insertRtpPacket for `pFrameInfo == NULL`: the oldest frame is given up.
unfoldable pub give_up_frame : Organizer → RtspService → Option Result
give_up_frame o s = elim (get_small_frame o) [
  | none ↦ none
  | some f ↦ elim f.packet_queue [
    | [] ↦ none
    | p ∷ ps ↦ elim (lost_packets (p ∷ ps)) [
      | none ↦ none
      | some lost ↦
          let o1 = record o {
            lost_rtp_packet_num = add32 o.lost_rtp_packet_num lost;
            lost_frame_num = add32 o.lost_frame_num 1;
          } in
          let (o2, s2) = release_rtp_packet o1 s f in
          some (record { code = fail; organizer = o2; service = s2; delivered = [] })
    ]
  ]
]

-- The rest of insertRtpPacket, on the frame that the packet belongs to: the frame's marker, insert,
-- checkFrame. The frame is changed where it stands in the map.
unfoldable pub add_to_frame : Organizer → RtspService → RtpFrameInfo → RtpPackInfo → Option Result
add_to_frame o s f info =
    let f1 = record f { marker = if f.marker then f.marker else info.marker } in
    elim (insert_queue f1.packet_queue info) [
      | none ↦ none
      | some (queue, disorder) ↦
          let f2 = record f1 { packet_queue = queue } in
          some (
            check_frame
              (record o {
                rtp_frame_map = store_frame f1.timestamp f2 o.rtp_frame_map;
                disorder_seq_counts = add32 o.disorder_seq_counts disorder;
              })
              s)
    ]

-- insertRtpPacket after ParsePacket returned OK.
unfoldable pub insert_parsed : Organizer → RtspService → Block → ℕ → RtpPacket → Option Result
insert_parsed o s block len packet =
    let o1 = update_total_rtp_packet_num o in
    let ts = get_time_stamp packet in
    let info : RtpPackInfo = record {
      seq = get_seq_num packet;
      timestamp = ts;
      marker = get_marker packet;
      block = block;
      len = len;
    } in
    elim (find_frame ts o1.rtp_frame_map) [
      | some f ↦ add_to_frame o1 s f info
      | none ↦ elim (insert_frame o1 (get_payload_type packet) ts) [
        | some (f, o2) ↦ add_to_frame o2 s f info
        | none ↦ give_up_frame o1 s
      ]
    ]

-- insertRtpPacket(pRtpBlock, len); `none` for the block is the null pointer.
unfoldable pub insert_rtp_packet : Organizer → RtspService → Option Block → ℕ → Option Result
insert_rtp_packet o s none len =
    some (record { code = fail; organizer = o; service = s; delivered = [] })
insert_rtp_packet o s (some block) len =
    let (code, packet) = parse_packet new_rtp_packet (some block.bytes) len in
    if is_ok code
    then insert_parsed o s block len packet
    else some (record { code = fail; organizer = o; service = s; delivered = [] })

-- The loop of release over the frames of the map.
unfoldable pub free_frames : FrameMap → RtspService → RtspService
free_frames [] s = s
free_frames ((ts, f) ∷ rest) s = free_frames rest (free_queue f.packet_queue s)

unfoldable pub release : Organizer → RtspService → Organizer × RtspService
unfolding free_frames
release o s =
    (record o { rtp_frame_map = []; rtp_frame_free_list = [] }, free_frames o.rtp_frame_map s)
