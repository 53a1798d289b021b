-- ===== src/Organizer/Frames.antt =====
-- rtsp/mk_rtsp_rtp_frame_organizer.h: the packets and frames that the organizer keeps, and the
-- std::map from timestamps to frames, as a list in the order of its keys. A frame is a pointer in
-- the source: a change through the pointer is a `store_frame` under its key.
pub mod Map
use lib_media_service.Common.{
  ℕ, Bool, false, Option, none, some, List, [], ◌∷◌, ltb, ◌==◌, if◌then◌else◌,
}

-- A receive buffer: its address in the pool and the bytes that it holds.
pub record Block : Type 0 where
  pub address : ℕ
  pub bytes : List ℕ

-- RTP_PACK_INFO_S; insertRtpPacket refuses the null pointer, so a block is always there.
pub record RtpPackInfo : Type 0 where
  pub seq : ℕ
  pub timestamp : ℕ
  pub marker : Bool
  pub block : Block
  pub len : ℕ

-- RTP_FRAME_INFO_S.
pub record RtpFrameInfo : Type 0 where
  pub timestamp : ℕ
  pub marker : Bool
  pub payload_type : ℕ
  pub packet_queue : List RtpPackInfo

-- AS_NEW of a frame leaves the scalars unset; InsertFrame sets them before use.
abbrev pub new_frame_info : RtpFrameInfo
new_frame_info = record { timestamp = 0; marker = false; payload_type = 0; packet_queue = [] }

-- RTP_FRAME_MAP_S.
abbrev pub FrameMap : Type 0
FrameMap = List (ℕ × RtpFrameInfo)

-- map::find.
unfoldable pub find_frame : ℕ → FrameMap → Option RtpFrameInfo
find_frame k [] = none
find_frame k ((j, f) ∷ m) = if j == k then some f else find_frame k m

-- map::insert, which leaves a key that is there alone.
unfoldable pub insert_entry : ℕ → RtpFrameInfo → FrameMap → FrameMap
insert_entry k f [] = (k, f) ∷ []
insert_entry k f ((j, g) ∷ m) =
    if ltb k j
    then (k, f) ∷ (j, g) ∷ m
    else if k == j
    then (j, g) ∷ m
    else (j, g) ∷ insert_entry k f m

-- A change of the frame that the map has under the key.
unfoldable pub store_frame : ℕ → RtpFrameInfo → FrameMap → FrameMap
store_frame k f [] = []
store_frame k f ((j, g) ∷ m) = if j == k then (j, f) ∷ m else (j, g) ∷ store_frame k f m

-- map::erase.
unfoldable pub erase_frame : ℕ → FrameMap → FrameMap
erase_frame k [] = []
erase_frame k ((j, f) ∷ m) = if j == k then m else (j, f) ∷ erase_frame k m

-- The loop of GetSmallFrame after its first frame.
unfoldable pub smallest_from : RtpFrameInfo → FrameMap → RtpFrameInfo
smallest_from f [] = f
smallest_from f ((j, g) ∷ m) = smallest_from (if ltb g.timestamp f.timestamp then g else f) m

-- The sequence number of the last packet of a queue.
abbrev pub last_seq : RtpPackInfo → List RtpPackInfo → ℕ
last_seq p [] = p.seq
last_seq p (q ∷ qs) = last_seq q qs
