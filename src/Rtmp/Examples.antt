-- ===== src/Rtmp/Examples.antt =====
-- A client that fails to play, and one that plays and receives a packet, for rtmp/mk_rtmp_connection.cpp.
use lib_media_service.Common.{◌+◌, ◌≡◌, ◌↔◌, refl, true, none, some, [], ◌∷◌, ok, fail}
use lib_media_service.Client.{MediaCallBack}
use lib_media_service.Rtmp.{
  Rtmp, Opening, Packet, created, destroyed, new_rtmp, start, stop, handle_recv,
}
use lib_media_service.Rtmp.Handles.{constructed, started, read, living, Reached-living}
use lib_media_service.Rtmp.Packets.{Handed, handle_recv-frees_iff}

abbrev call_back : MediaCallBack
call_back = record { registered = true; gives_buffer = λ _. true; buffer_size = λ n. n + 4 }

abbrev opening : Opening
opening = record {
  create = some 5;
  connect_app = ok;
  play_stream = ok;
  socket = some 3;
  register = ok;
  time = 100;
}

-- A server that has no such stream, and then one that plays it.
abbrev refused : Opening
refused = record opening { create = some 4; play_stream = fail }

abbrev failed : Rtmp
failed = (start refused (new_rtmp call_back 90)).rtmp

abbrev playing : Rtmp
playing = (start opening failed).rtmp

-- A NAL unit of H.264.
abbrev packet : Packet
packet = record {
  is_video = true;
  bytes = 0 ∷ 0 ∷ 0 ∷ 1 ∷ 103 ∷ [];
  pts = some 900;
  video_codec_id = 7;
  sound_format = 0;
}

playing-handle : playing.handle ≡ some 5
unfolding start
playing-handle = refl

Reached-living_example :
    (living none (created 4 ∷ destroyed 4 ∷ created 5 ∷ []) ≡ some playing.handle)
    × (living none (created 4 ∷ destroyed 4 ∷ created 5 ∷ destroyed 5 ∷ []) ≡ some none)
unfolding start stop new_rtmp handle_recv
Reached-living_example =
    Reached-living (handle_recv playing 110 (some packet)).rtmp
      (created 4 ∷ destroyed 4 ∷ created 5 ∷ [])
      (read 110 (some packet)
        (started opening refl (started refused refl (constructed call_back 90))))

handle_recv-frees_iff_example :
    ((handle_recv playing 110 (some packet)).freed ≡ true)
    ↔ Handed packet (handle_recv playing 110 (some packet))
handle_recv-frees_iff_example = handle_recv-frees_iff playing 110 packet
