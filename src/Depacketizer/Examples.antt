-- ===== src/Depacketizer/Examples.antt =====
-- A NAL unit in two FU-A packets, for handleH264Frame of rtsp/mk_rtsp_connection.cpp.
use lib_media_service.Common.{
  ℕ, ◌+◌, ◌≤◌, length, ◌≡◌, refl, true, false, some, List, [], ◌∷◌, arith, leb,
}
use lib_media_service.RtpPacket.{parse_packet}
use lib_media_service.Organizer.Frames.{RtpPackInfo}
use lib_media_service.Client.{MediaCallBack, h264, handle_connection_databuf}
use lib_media_service.Depacketizer.{check_frame_total_data_len, deliver, handle_h264_frame}
use lib_media_service.Depacketizer.Payload.{HasPayload}
use lib_media_service.Depacketizer.Total.{Plain}
use lib_media_service.Depacketizer.Join264.{handle_h264_frame-joins}

-- An application that has buffers of up to 100 bytes.
abbrev hundred : MediaCallBack
hundred = record { registered = true; gives_buffer = λ n. leb n 100; buffer_size = λ n. n + 3 }

abbrev header : ℕ → List ℕ
header seq = 128 ∷ 96 ∷ 0 ∷ seq ∷ 0 ∷ 0 ∷ 0 ∷ 90 ∷ 1 ∷ 2 ∷ 3 ∷ 4 ∷ []

abbrev first : RtpPackInfo
first = record {
  seq = 7;
  timestamp = 90;
  marker = false;
  block = record {
    address = 1;
    bytes = 128 ∷ 96 ∷ 0 ∷ 7 ∷ 0 ∷ 0 ∷ 0 ∷ 90 ∷ 1 ∷ 2 ∷ 3 ∷ 4 ∷ 124 ∷ 133 ∷ 11 ∷ 12 ∷ 0 ∷ 0 ∷ [];
  };
  len = 16;
}

abbrev second : RtpPackInfo
second = record {
  seq = 8;
  timestamp = 90;
  marker = true;
  block = record {
    address = 2;
    bytes = 128 ∷ 96 ∷ 0 ∷ 8 ∷ 0 ∷ 0 ∷ 0 ∷ 90 ∷ 1 ∷ 2 ∷ 3 ∷ 4 ∷ 124 ∷ 69 ∷ 13 ∷ 0 ∷ 0 ∷ [];
  };
  len = 15;
}

first-HasPayload : HasPayload 90 first (124 ∷ 133 ∷ 11 ∷ 12 ∷ [])
first-HasPayload = record {
  head = header 7;
  slack = 0 ∷ 0 ∷ [];
  split = refl;
  headed = refl;
  fits = refl;
  small = omega arith;
  version_two = refl;
  unpadded = omega arith;
  stamped = refl;
}

second-HasPayload : HasPayload 90 second (124 ∷ 69 ∷ 13 ∷ [])
second-HasPayload = record {
  head = header 8;
  slack = 0 ∷ 0 ∷ [];
  split = refl;
  headed = refl;
  fits = refl;
  small = omega arith;
  version_two = refl;
  unpadded = omega arith;
  stamped = refl;
}

given : handle_connection_databuf hundred (check_frame_total_data_len (first ∷ second ∷ [])) ≡ true
unfolding handle_connection_databuf check_frame_total_data_len parse_packet
given = refl

room :
    length {A = ℕ} (0 ∷ 0 ∷ 0 ∷ 1 ∷ 101 ∷ 11 ∷ 12 ∷ 13 ∷ [])
    ≤ hundred.buffer_size (check_frame_total_data_len (first ∷ second ∷ []))
unfolding check_frame_total_data_len parse_packet
room = omega arith

handle_h264_frame-joins_example :
    handle_h264_frame hundred (first ∷ second ∷ [])
    ≡ some (deliver hundred h264 90 (0 ∷ 0 ∷ 0 ∷ 1 ∷ 101 ∷ 11 ∷ 12 ∷ 13 ∷ []))
handle_h264_frame-joins_example =
    handle_h264_frame-joins hundred 90 124 133 (11 ∷ 12 ∷ []) ((13 ∷ []) ∷ []) first second []
      first-HasPayload ((124, 69, second-HasPayload), tt) given room

first-IsPlain : Plain first
first-IsPlain = record {
  rtp = record { version_two = refl; head_fits = omega arith };
  loaded = omega arith;
  inside = omega arith;
  small = omega arith;
  unpadded = omega arith;
}

second-IsPlain : Plain second
second-IsPlain = record {
  rtp = record { version_two = refl; head_fits = omega arith };
  loaded = omega arith;
  inside = omega arith;
  small = omega arith;
  unpadded = omega arith;
}
