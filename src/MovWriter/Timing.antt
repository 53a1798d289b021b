-- ===== src/MovWriter/Timing.antt =====
-- The times that write_h264_frame and write_h265_frame of mk_mov_file_writer.cpp give to frames.
use lib_media_service.Common.{
  ℕ, ◌+◌, ◌-◌, ◌≤◌, ◌<◌, ◌≡◌, refl, sym, ap, ◌∙◌, subst, true, not, Option, none, some, on_some,
  List, [], ◌∷◌, ◌++◌, if◌then◌else◌, arith, fail,
}
use lib_media_service.Client.{MediaType, h264, h265, MediaDataInfo}
use lib_media_service.MovWriter.{
  VideoCodec, avc, hevc, MovCall, add_video, add_audio, write, Converted, Library, MovWriter,
  Written, next_pts, context_of, set_context, write_frame, put_frame, write_video_frame,
  write_media_frame,
}

-- A frame that the application writes.
abbrev pub Frame : Type 0
Frame = MediaDataInfo × List ℕ

abbrev pub type_of : VideoCodec → MediaType
type_of avc = h264
type_of hevc = h265

-- The times of the bytes that libmov is given.
abbrev pub written_times : List MovCall → List ℕ
written_times [] = []
written_times (write track bytes pts key ∷ calls) = pts ∷ written_times calls
written_times (_ ∷ calls) = written_times calls

-- Frames of a codec whose times grow from `pts` on.
abbrev pub Growing : VideoCodec → ℕ → List Frame → Type 0
Growing codec pts [] = Unit
Growing codec pts (f ∷ fs) = (f.0.type ≡ type_of codec) × (pts < f.0.pts) × Growing codec f.0.pts fs

abbrev pub last_time : ℕ → List Frame → ℕ
last_time pts [] = pts
last_time pts (f ∷ fs) = last_time f.0.pts fs

-- The times of the frames, moved so that `pts` is at `last`.
abbrev pub moved : ℕ → ℕ → List Frame → List ℕ
moved pts last [] = []
moved pts last (f ∷ fs) = (last + (f.0.pts - pts)) ∷ moved pts last fs

module _ {Context : Type 0} (lib : Library Context) where
  -- Calls of write_media_frame, one behind the other, with all calls of libmov.
  abbrev pub write_all : MovWriter Context → List Frame → Option (MovWriter Context × List MovCall)
  write_all w [] = some (w, [])
  write_all w (f ∷ fs) =
      on_some (write_media_frame lib w f.0 f.1) none
        λ r. on_some (write_all r.writer fs) none λ s. some (s.0, r.calls ++ s.1)

  -- A file with a track for its video, at a time of the video that is known.
  pub record IsStarted (w : MovWriter Context) : Type 0 where
    pub mov : w.mov ≡ true
    pub track : ℕ
    pub tracked : w.video_track ≡ some track
    pub known : 0 < w.video_pts

last_time-least :
    (codec : VideoCodec) (pts : ℕ) (fs : List Frame) → Growing codec pts fs → pts ≤ last_time pts fs
last_time-least codec pts [] g = omega arith
last_time-least codec pts (f ∷ fs) (t, l, g) =
    let later = last_time-least codec f.0.pts fs g in omega (arith, later, l)

moved-again :
    (codec : VideoCodec) (pts last q from : ℕ) (fs : List Frame)
    → pts < q
    → q ≤ from
    → Growing codec from fs
    → moved q (last + (q - pts)) fs ≡ moved pts last fs
moved-again codec pts last q from [] l u g = refl
moved-again codec pts last q from (f ∷ fs) l u (t, m, g) =
    let later = moved-again codec pts last q f.0.pts fs l (omega (arith, u, m)) g in
    let time : last + (q - pts) + (f.0.pts - q) ≡ last + (f.0.pts - pts) = omega (arith, l, u, m) in
    ap (λ (n : ℕ). n ∷ moved q (last + (q - pts)) fs) time
    ∙ ap (λ (ns : List ℕ). (last + (f.0.pts - pts)) ∷ ns) later

next_pts-moves :
    (codec : VideoCodec) (before last pts : ℕ)
    → 0 < before
    → before < pts
    → last + (pts - before) < 4294967296
    → next_pts codec before last pts ≡ last + (pts - before)
next_pts-moves avc before last pts p l b = ground (arith, p, l, b)
next_pts-moves hevc before last pts p l b = ground (arith, p, l, b)

written_times-append :
    (cs ds : List MovCall) → written_times (cs ++ ds) ≡ written_times cs ++ written_times ds
written_times-append [] ds = refl
written_times-append (write track bytes pts key ∷ cs) ds =
    ap (λ (ns : List ℕ). pts ∷ ns) (written_times-append cs ds)
written_times-append (add_video codec width height extra ∷ cs) ds = written_times-append cs ds
written_times-append (add_audio type ∷ cs) ds = written_times-append cs ds

module _ {Context : Type 0} (lib : Library Context) where
  write_media_frame-video :
      (codec : VideoCodec) (w : MovWriter Context) (info : MediaDataInfo) (bytes : List ℕ)
      → info.type ≡ type_of codec
      → write_media_frame lib w info bytes ≡ write_video_frame lib codec w info bytes
  unfolding write_media_frame
  write_media_frame-video avc w info bytes e =
      subst
        (λ t.
          write_media_frame lib w (record info { type = t }) bytes
          ≡ write_video_frame lib avc w (record info { type = t }) bytes)
        (sym e) refl
  write_media_frame-video hevc w info bytes e =
      subst
        (λ t.
          write_media_frame lib w (record info { type = t }) bytes
          ≡ write_video_frame lib hevc w (record info { type = t }) bytes)
        (sym e) refl

  -- The writer behind a frame, and the frame that libmov gets.
  abbrev frame_of : VideoCodec → MovWriter Context → List ℕ → Converted Context
  frame_of codec w bytes = lib.convert codec (context_of codec w) bytes

  abbrev behind : VideoCodec → MovWriter Context → Frame → ℕ → MovWriter Context
  behind codec w f pts =
      set_context codec (frame_of codec w f.1).context
        (record w { video_pts = f.0.pts; video_pts_last = pts })

  write_video_frame-tracked :
      (codec : VideoCodec) (w : MovWriter Context) (f : Frame) (s : IsStarted lib w)
      → write_video_frame lib codec w f.0 f.1 ≡ (
          let pts = next_pts codec w.video_pts w.video_pts_last f.0.pts in
          some (write_frame lib (behind codec w f pts) (frame_of codec w f.1) pts s.track))
  unfolding write_video_frame put_frame
  write_video_frame-tracked codec w f s =
      let pts = next_pts codec w.video_pts w.video_pts_last f.0.pts in
      let put : Option ℕ → Option (Written Context) =
        put_frame lib codec (behind codec w f pts) (frame_of codec w f.1) pts f.1 in
      let failed : Option (Written Context) =
        some (record { code = fail; writer = w; calls = [] }) in
      ap (λ m. if not m then failed else put w.video_track) s.mov ∙ ap put s.tracked

  behind-IsStarted :
      (codec : VideoCodec) (w : MovWriter Context) (f : Frame) (pts : ℕ)
      → IsStarted lib w
      → 0 < f.0.pts
      → IsStarted lib (behind codec w f pts)
        × ((behind codec w f pts).video_pts ≡ f.0.pts)
        × ((behind codec w f pts).video_pts_last ≡ pts)
  behind-IsStarted avc w f pts s p =
      (record { mov = s.mov; track = s.track; tracked = s.tracked; known = p }, refl, refl)
  behind-IsStarted hevc w f pts s p =
      (record { mov = s.mov; track = s.track; tracked = s.tracked; known = p }, refl, refl)

  -- A frame on a track that is there.
  write_media_frame-Started :
      (codec : VideoCodec) (w : MovWriter Context) (f : Frame) (s : IsStarted lib w)
      → f.0.type ≡ type_of codec
      → w.video_pts < f.0.pts
      → w.video_pts_last + (f.0.pts - w.video_pts) < 4294967296
      → (r : Written Context) × (write_media_frame lib w f.0 f.1 ≡ some r)
        × (written_times r.calls ≡ (w.video_pts_last + (f.0.pts - w.video_pts)) ∷ [])
        × IsStarted lib r.writer
        × (r.writer.video_pts ≡ f.0.pts)
        × (r.writer.video_pts_last ≡ w.video_pts_last + (f.0.pts - w.video_pts))
  unfolding write_frame
  write_media_frame-Started codec w f s t l b =
      let pts = next_pts codec w.video_pts w.video_pts_last f.0.pts in
      let time = next_pts-moves codec w.video_pts w.video_pts_last f.0.pts s.known l b in
      let kept = behind-IsStarted codec w f pts s (omega (arith, l)) in
      (
        write_frame lib (behind codec w f pts) (frame_of codec w f.1) pts s.track,
        write_media_frame-video codec w f.0 f.1 t ∙ write_video_frame-tracked codec w f s,
        ap (λ (n : ℕ). n ∷ []) time,
        kept.0,
        kept.1,
        kept.2 ∙ time,
      )

  -- On an open file with a track for its video, behind a frame whose time is not 0: frames of a
  -- codec whose times grow, and stay within 32 bits in the file, are all written, and the file
  -- has their times, moved by a constant, so that what lay between two frames lies between them
  -- in the file.
  pub write_all-Growing :
      (codec : VideoCodec) (w : MovWriter Context) (fs : List Frame)
      → IsStarted lib w
      → Growing codec w.video_pts fs
      → w.video_pts_last + (last_time w.video_pts fs - w.video_pts) < 4294967296
      → (r : MovWriter Context × List MovCall) × (write_all lib w fs ≡ some r)
        × (written_times r.1 ≡ moved w.video_pts w.video_pts_last fs)
  write_all-Growing codec w [] s g b = ((w, []), refl, refl)
  write_all-Growing codec w (f ∷ fs) s (t, l, g) b =
      let least = last_time-least codec f.0.pts fs g in
      let (r, e, time, s', before, last) =
        write_media_frame-Started codec w f s t l (omega (arith, b, least, l)) in
      let span = ap (λ p. last_time p fs) before in
      let grows = subst (λ p. Growing codec p fs) (sym before) g in
      let (v, e', written_times') =
        write_all-Growing codec r.writer fs s' grows
          (omega (arith, b, least, l, before, last, span)) in
      let at =
        ap (λ p. moved p r.writer.video_pts_last fs) before ∙ ap (λ p. moved f.0.pts p fs) last in
      let same =
        at ∙ moved-again codec w.video_pts w.video_pts_last f.0.pts f.0.pts fs l (omega arith) g in
      let later =
        ap (λ (ns : List ℕ). (w.video_pts_last + (f.0.pts - w.video_pts)) ∷ ns)
          (written_times' ∙ same) in
      (
        (v.0, r.calls ++ v.1),
        rw (e, e') refl,
        written_times-append r.calls v.1
            ∙ ap (λ (ns : List ℕ). ns ++ written_times v.1) time
            ∙ later,
      )
