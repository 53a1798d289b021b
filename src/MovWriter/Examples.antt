-- ===== src/MovWriter/Examples.antt =====
-- A file that gets two frames of H.264, for mk_mov_file_writer.cpp.
use lib_media_service.Common.{ℕ, ◌≡◌, inl, refl, true, false, some, List, [], ◌∷◌, arith, ok}
use lib_media_service.Client.{h264, g711a, code_ok, MediaDataInfo}
use lib_media_service.MovWriter.{
  avc, Library, MovWriter, MovCall, new_writer, open_writer, write_media_frame,
}
use lib_media_service.MovWriter.Lifetime.{
  Reached, constructed, opened, written, write_media_frame-drops_audio,
}
use lib_media_service.MovWriter.Timing.{Frame, written_times, write_all, write_all-Growing}

-- A library for which each frame has all parameter sets and is not converted.
abbrev library : Library ℕ
library = record {
  convert = λ codec c bytes. record { context = c; bytes = bytes; vcl = 1 };
  has_parameters = λ codec c. true;
  save_record = λ codec c. some [];
  decode_sps = λ codec bytes. some (640, 480);
  new_video_track = λ codec w h. some 0;
  new_audio_track = λ type. some 1;
  accepts = λ call. ok;
}

abbrev info : ℕ → MediaDataInfo
info pts = record { type = h264; code = code_ok; is_key_frame = true; pts = pts }

abbrev audio : MediaDataInfo
audio = record { type = g711a; code = code_ok; is_key_frame = false; pts = 1000 }

abbrev bytes : List ℕ
bytes = 0 ∷ 0 ∷ 0 ∷ 1 ∷ 103 ∷ []

abbrev empty : MovWriter ℕ
empty = (open_writer true true (new_writer 0)).1

-- Behind its first frame.
abbrev begun : MovWriter ℕ
begun = record empty {
  video_track = some 0;
  width = 640;
  height = 480;
  video_pts = 1000;
  video_pts_last = 40;
}

begun-Reached : Reached library begun true
unfolding write_media_frame open_writer new_writer
begun-Reached = written (info 1000) bytes (opened true true (constructed 0)) refl

abbrev frames : List Frame
frames = (info 1040, bytes) ∷ (info 1100, bytes) ∷ []

write_all-Growing_example :
    (r : MovWriter ℕ × List MovCall) × (write_all library begun frames ≡ some r)
    × (written_times r.1 ≡ 80 ∷ 140 ∷ [])
unfolding open_writer new_writer
write_all-Growing_example =
    write_all-Growing library avc begun frames
      (record { mov = refl; track = 0; tracked = refl; known = omega arith })
      (refl, omega arith, (refl, omega arith, tt)) (omega arith)

write_media_frame-drops_audio_example :
    write_media_frame library begun audio bytes
    ≡ some (record { code = ok; writer = begun; calls = [] })
write_media_frame-drops_audio_example =
    write_media_frame-drops_audio library begun true audio bytes begun-Reached (inl refl)
