-- ===== src/MovWriter.antt =====
-- mk_mov_file_writer.cpp: frames written to an MP4 file. The calls of libmov, of the file and of the
-- parsers of parameter sets are arguments: what a call of libmov is asked for is listed, in order. The
-- buffer of 2 MB for a converted frame is taken to be large enough.
pub mod Lifetime
pub mod Timing
mod Examples
use lib_media_service.Common.{
  ℕ, zero, suc, ◌+◌, ◌-◌, ◌%◌, Bool, true, false, not, ◌&&◌, ◌||◌, Option, none, some, List, [],
  ◌∷◌, ◌++◌, length, take, drop, ltb, leb, ◌==◌, if◌then◌else◌, on_some, Status, ok, fail,
}
use lib_media_service.Client.{
  MediaType, h264, h265, g711a, g711u, raw_data, invalid, MediaCode, code_ok, memory_oom, code_max,
  MediaDataInfo,
}

pub data VideoCodec : Type 0 where
  avc hevc : VideoCodec

-- What libmov is asked for: a track for a video of a width and a height with its parameter sets, a track
-- for an audio, and the bytes of a track with a time and the flag of a key frame.
pub data MovCall : Type 0 where
  add_video : VideoCodec → ℕ → ℕ → List ℕ → MovCall
  add_audio : MediaType → MovCall
  write : ℕ → List ℕ → ℕ → Bool → MovCall

-- A frame that h264_annexbtomp4 or h265_annexbtomp4 has converted: mpeg4_avc_t or mpeg4_hevc_t, the bytes,
-- and vcl.
pub record Converted (Context : Type 0) : Type 0 where
  pub context : Context
  pub bytes : List ℕ
  pub vcl : ℕ

-- The outside. A track is `none` for an error; save_record gives the record of the parameter sets, and
-- decode_sps the width and the height of a payload that begins with a parameter set.
pub record Library (Context : Type 0) : Type 0 where
  pub convert : VideoCodec → Context → List ℕ → Converted Context
  pub has_parameters : VideoCodec → Context → Bool
  pub save_record : VideoCodec → Context → Option (List ℕ)
  pub decode_sps : VideoCodec → List ℕ → Option (ℕ × ℕ)
  pub new_video_track : VideoCodec → ℕ → ℕ → Option ℕ
  pub new_audio_track : MediaType → Option ℕ
  pub accepts : MovCall → Status

-- mk_mov_file_writer: whether m_szMp4Path, m_fp and m_mov are there, and the rest of its state.
pub record MovWriter (Context : Type 0) : Type 0 where
  pub path : Bool
  pub file : Bool
  pub mov : Bool
  pub video_track : Option ℕ
  pub width : ℕ
  pub height : ℕ
  pub video_pts : ℕ
  pub video_pts_last : ℕ
  pub avc_context : Context
  pub hevc_context : Context
  pub audio_track : Option ℕ
  pub audio_pts : ℕ
  pub audio_pts_last : ℕ

-- What a call leaves.
pub record Written (Context : Type 0) : Type 0 where
  pub code : Status
  pub writer : MovWriter Context
  pub calls : List MovCall

-- MR_MEDIA_TYPE and MR_MEDIA_CODE as numbers.
abbrev pub type_number : MediaType → ℕ
type_number h264 = 0
type_number h265 = 1
type_number g711a = 2
type_number g711u = 3
type_number raw_data = 4
type_number invalid = 5

abbrev pub code_number : MediaCode → ℕ
code_number code_ok = 0
code_number memory_oom = 4097
code_number code_max = 4098

-- The time of a frame, in milliseconds from the first: the time since the frame before, or 40 where the
-- time does not grow. For H.265 a time that is equal counts as grown.
abbrev pub since : VideoCodec → ℕ → ℕ → Bool
since avc before pts = ltb before pts
since hevc before pts = leb before pts

abbrev pub next_pts : VideoCodec → ℕ → ℕ → ℕ → ℕ
next_pts codec before last pts =
    let from = if before == 0 then pts else before in
    if since codec from pts then (last + (pts - from)) % 4294967296 else (last + 40) % 4294967296

-- The pieces of at most 320 bytes that the bytes of G.711 are written in, on fuel.
unfoldable pub write_pieces : ℕ → ℕ → ℕ → List ℕ → List MovCall
write_pieces zero track pts bytes = []
write_pieces (suc fuel) track pts bytes =
    let rest = write_pieces fuel track pts (drop 320 bytes) in
    if ltb 0 (length bytes) then write track (take 320 bytes) pts false ∷ rest else []

module _ {Context : Type 0} where
  -- The constructor: `context` is the contexts' memory, zeroed.
  unfoldable pub new_writer : Context → MovWriter Context
  new_writer context = record {
    path = false;
    file = false;
    mov = false;
    video_track = none;
    width = 0;
    height = 0;
    video_pts = 0;
    video_pts_last = 0;
    avc_context = context;
    hevc_context = context;
    audio_track = none;
    audio_pts = 0;
    audio_pts_last = 0;
  }

  -- The destructor. `frees` says whether delete[] can release what strdup gave, which C++ leaves
  -- undefined; and the file is closed before libmov finishes it, which then writes to a closed file.
  unfoldable pub delete_writer : Bool → MovWriter Context → Option (MovWriter Context)
  delete_writer frees w =
      if w.path && not frees
      then none
      else if w.mov
      then none
      else some (record w { path = false; file = false })

  -- open_writer, with the answers of fopen and mov_writer_create. A path that is there is not released.
  unfoldable pub open_writer : Bool → Bool → MovWriter Context → Status × MovWriter Context
  open_writer opens creates w =
      if not opens
      then (fail, record w { path = true; file = false })
      else if not creates
      then (fail, record w { path = true; file = false; mov = false })
      else (ok, record w { path = true; file = true; mov = true })

  -- close_writer, with `frees` as above.
  unfoldable pub close_writer : Bool → MovWriter Context → Option (MovWriter Context)
  close_writer frees w =
      if w.path && not frees
      then none
      else some (record w { path = false; file = false; mov = false })

  abbrev pub context_of : VideoCodec → MovWriter Context → Context
  context_of avc w = w.avc_context
  context_of hevc w = w.hevc_context

  abbrev pub set_context : VideoCodec → Context → MovWriter Context → MovWriter Context
  set_context avc c w = record w { avc_context = c }
  set_context hevc c w = record w { hevc_context = c }

  module _ (lib : Library Context) where
    -- mov_writer_write of a converted frame.
    unfoldable pub write_frame : MovWriter Context → Converted Context → ℕ → ℕ → Written Context
    write_frame w frame pts track =
        let call = write track frame.bytes pts (frame.vcl == 1) in
        record { code = lib.accepts call; writer = w; calls = call ∷ [] }

    -- The width and the height, if they are not known, of a frame that begins with a parameter set. `none`
    -- is a read behind a frame of less than five bytes.
    unfoldable pub read_size : VideoCodec → MovWriter Context → List ℕ → Option (MovWriter Context)
    read_size codec w bytes =
        if not (w.width == 0) && not (w.height == 0)
        then some w
        else if ltb (length bytes) 5
        then none
        else (on_some (lib.decode_sps codec (drop 4 bytes)) (some w)
            λ size. some (record w { width = size.0; height = size.1 }))

    -- A new track, and the frame on it.
    unfoldable pub write_first :
        VideoCodec → MovWriter Context → Converted Context → ℕ → List ℕ → Option ℕ → Written Context
    unfolding write_frame
    write_first codec w frame pts extra none = record {
      code = fail;
      writer = w;
      calls = add_video codec w.width w.height extra ∷ [];
    }
    write_first codec w frame pts extra (some track) =
        let r = write_frame (record w { video_track = some track }) frame pts track in
        record r { calls = add_video codec w.width w.height extra ∷ r.calls }

    -- Without a track: the frame waits for the parameter sets.
    unfoldable pub begin_track :
        VideoCodec → MovWriter Context → Converted Context → ℕ → Written Context
    unfolding write_first
    begin_track codec w frame pts =
        let waits : Written Context = record { code = ok; writer = w; calls = [] } in
        if not (lib.has_parameters codec frame.context)
        then waits
        else on_some (lib.save_record codec frame.context) waits λ extra.
          write_first codec w frame pts extra (lib.new_video_track codec w.width w.height)

    unfoldable pub put_frame :
        VideoCodec
        → MovWriter Context
        → Converted Context
        → ℕ
        → List ℕ
        → Option ℕ
        → Option (Written Context)
    unfolding write_frame read_size begin_track
    put_frame codec w frame pts bytes (some track) = some (write_frame w frame pts track)
    put_frame codec w frame pts bytes none =
        on_some (read_size codec w bytes) none λ w'. some (begin_track codec w' frame pts)

    -- write_h264_frame and write_h265_frame.
    unfoldable pub write_video_frame :
        VideoCodec → MovWriter Context → MediaDataInfo → List ℕ → Option (Written Context)
    unfolding put_frame
    write_video_frame codec w info bytes =
        let pts = next_pts codec w.video_pts w.video_pts_last info.pts in
        let frame = lib.convert codec (context_of codec w) bytes in
        let w' =
          set_context codec frame.context
            (record w { video_pts = info.pts; video_pts_last = pts }) in
        if not w.mov
        then some (record { code = fail; writer = w; calls = [] })
        else put_frame codec w' frame pts bytes w.video_track

    -- The bytes of an audio on its track, with the answers of mov_writer_write not looked at.
    unfoldable pub put_audio : MovWriter Context → MediaDataInfo → List ℕ → ℕ → Written Context
    put_audio w info bytes track =
        let from = if w.audio_pts == 0 then info.pts else w.audio_pts in
        let pts =
          if ltb from info.pts then (w.audio_pts_last + (info.pts - from)) % 4294967296 else 0 in
        record {
          code = ok;
          writer = record w { audio_pts = info.pts; audio_pts_last = pts };
          calls = write_pieces (length bytes) track pts bytes;
        }

    -- The first bytes of an audio: m_lAudioTrack is that of libmov, if it gives one.
    unfoldable pub first_audio :
        MovWriter Context → MediaDataInfo → List ℕ → MediaType → Option ℕ → Written Context
    unfolding put_audio
    first_audio w info bytes object none = record {
      code = fail;
      writer = w;
      calls = add_audio object ∷ [];
    }
    first_audio w info bytes object (some track) =
        let r = put_audio (record w { audio_track = some track }) info bytes track in
        record r { calls = add_audio object ∷ r.calls }

    -- write_g711_frame: the type of the audio is compared with info->code. `none` is a call of libmov
    -- without a file.
    unfoldable pub begin_audio :
        MovWriter Context → MediaDataInfo → List ℕ → MediaType → Option (Written Context)
    unfolding first_audio
    begin_audio w info bytes object =
        if not w.mov
        then none
        else some (first_audio w info bytes object (lib.new_audio_track object))

    unfoldable pub write_g711_frame :
        MovWriter Context → MediaDataInfo → List ℕ → Option ℕ → Option (Written Context)
    unfolding begin_audio put_audio
    write_g711_frame w info bytes (some track) =
        if not w.mov && ltb 0 (length bytes) then none else some (put_audio w info bytes track)
    write_g711_frame w info bytes none =
        if code_number info.code == type_number g711a
        then begin_audio w info bytes g711a
        else if code_number info.code == type_number g711u
        then begin_audio w info bytes g711u
        else some (record { code = ok; writer = w; calls = [] })

    -- write_media_frame.
    unfoldable pub write_media_frame :
        MovWriter Context → MediaDataInfo → List ℕ → Option (Written Context)
    unfolding write_video_frame write_g711_frame
    write_media_frame w info bytes = elim info.type [
      | h264 ↦ write_video_frame avc w info bytes
      | h265 ↦ write_video_frame hevc w info bytes
      | g711a ↦ write_g711_frame w info bytes w.audio_track
      | g711u ↦ write_g711_frame w info bytes w.audio_track
      | _ ↦ some (record { code = ok; writer = w; calls = [] })
    ]
