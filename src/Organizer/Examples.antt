-- ===== src/Organizer/Examples.antt =====
-- Small organizers and frames, for rtsp/mk_rtsp_rtp_frame_organizer.cpp.
use mathlib.Core.List.{Perm}
use lib_media_service.Common.{
  ℕ, ◌≤◌, ◌≡◌, ◌↔◌, refl, ok, true, false, some, List, [], ◌∷◌, All, arith,
}
use lib_media_service.RtspService.{new_rtsp_service, free_rtp_recv_buf}
use lib_media_service.Organizer.Frames.{
  Block, RtpPackInfo, new_frame_info, find_frame, store_frame, insert_entry, smallest_from,
  erase_frame,
}
use lib_media_service.Organizer.Queue.{insert_queue, consecutive, free_queue}
use lib_media_service.Organizer.Queue.Insertion.{SortedFrom, insert_queue-sorts}
use lib_media_service.Organizer.Queue.Runs.{Run, consecutive-iff_Run}
use lib_media_service.Organizer.Invariant.{IsValid, IsCounted, Keeps}
use lib_media_service.Organizer.Insert.{taken, insert_rtp_packet-Keeps}
use lib_media_service.Organizer.Lifetime.{init-IsValid}
use lib_media_service.RtpPacket.{
  parse_packet, get_time_stamp, get_marker, get_seq_num, get_payload_type,
}
use lib_media_service.Organizer.{
  Organizer, Result, new_organizer, init, insert_rtp_packet, insert_parsed, add_to_frame,
  check_frame, handle_finished_frame, update_total_rtp_packet_num, insert_frame, get_small_frame,
  release_rtp_packet, check_small_frame,
}

abbrev two_frames : Organizer
two_frames = (init (λ _. true) new_organizer true 2).1

-- The last packet of a frame.
abbrev fragment : Block
fragment = record {
  address = 7;
  bytes = 128 ∷ 224 ∷ 0 ∷ 7 ∷ 0 ∷ 0 ∷ 0 ∷ 90 ∷ 1 ∷ 2 ∷ 3 ∷ 4 ∷ 124 ∷ 69 ∷ 11 ∷ 12 ∷ [];
}

abbrev numbered : ℕ → RtpPackInfo
numbered n = record { seq = n; timestamp = 90; marker = false; block = fragment; len = 16 }

init-IsValid_example : IsValid two_frames
init-IsValid_example = init-IsValid 2 (omega arith)

no_frame-IsCounted : IsCounted two_frames
unfolding get_small_frame init
no_frame-IsCounted f e = cc

-- A frame of one packet that has the marker is handed over at once, and its buffer is in the pool.
one_packet :
    insert_rtp_packet two_frames new_rtsp_service (some fragment) 16
    ≡ some (record {
      code = ok;
      organizer = record two_frames {
        total_rtp_packet_num = 1;
        rtp_frame_free_list =
            new_frame_info
            ∷ record new_frame_info { timestamp = 90; marker = true; payload_type = 96 }
            ∷ [];
      };
      service = record new_rtsp_service { rtp_recv_buf_list = 7 ∷ [] };
      delivered =
          record {
            payload_type = 96;
            packets =
                record { seq = 7; timestamp = 90; marker = true; block = fragment; len = 16 } ∷ [];
          }
          ∷ [];
    })
unfolding insert_rtp_packet insert_parsed add_to_frame check_frame handle_finished_frame
    parse_packet find_frame update_total_rtp_packet_num init insert_frame insert_queue
    get_small_frame store_frame insert_entry get_time_stamp smallest_from get_marker consecutive
    get_seq_num release_rtp_packet get_payload_type erase_frame free_queue free_rtp_recv_buf
    check_small_frame
one_packet = refl

insert_rtp_packet-Keeps_example :
    (r : Result) × (insert_rtp_packet two_frames new_rtsp_service (some fragment) 16 ≡ some r)
    × Keeps two_frames new_rtsp_service (taken fragment r.code) r
insert_rtp_packet-Keeps_example =
    insert_rtp_packet-Keeps two_frames new_rtsp_service fragment 16 (init-IsValid 2 (omega arith))
      no_frame-IsCounted (omega arith)

insert_queue-sorts_example :
    (r : List RtpPackInfo) × (d : ℕ) × (insert_queue (numbered 3 ∷ numbered 9 ∷ []) (numbered 5)
      ≡ some (r, d))
    × Perm r (numbered 5 ∷ numbered 3 ∷ numbered 9 ∷ [])
    × SortedFrom 0 r
    × ((d ≡ 0) ↔ All (λ p. p.seq ≤ 5) (numbered 3 ∷ numbered 9 ∷ []))
    × (d ≤ 1)
insert_queue-sorts_example =
    insert_queue-sorts (numbered 3 ∷ numbered 9 ∷ []) (numbered 5) (omega arith, (omega arith, tt))

consecutive-iff_Run_example :
    (consecutive 3 (numbered 3 ∷ numbered 4 ∷ []) ≡ true) ↔ Run 3 (numbered 3 ∷ numbered 4 ∷ [])
consecutive-iff_Run_example =
    consecutive-iff_Run (numbered 3) (numbered 4 ∷ []) (omega arith, (omega arith, tt))
      (omega arith, (omega arith, tt))

-- An organizer that holds a frame of two packets.
abbrev filled : Organizer
filled = record two_frames {
  rtp_frame_map =
      (90, record new_frame_info { timestamp = 90; packet_queue = numbered 3 ∷ numbered 4 ∷ [] })
      ∷ [];
}
