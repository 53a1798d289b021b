-- ===== src/MovWriter/Lifetime.antt =====
-- A writer of mk_mov_file_writer.cpp from its constructor on: files that are opened and closed, and frames
-- of all kinds.
use lib_media_service.Common.{
  ℕ, ◌≡◌, ◌⊎◌, inl, inr, refl, sym, ◌∙◌, subst, Bool, true, false, not, ◌&&◌, Option, none, some,
  on_some, List, [], length, ltb, ◌==◌, if◌then◌else◌, drop, ok,
}
use lib_media_service.Client.{
  MediaType, h264, h265, g711a, g711u, raw_data, invalid, MediaCode, code_ok, memory_oom, code_max,
  MediaDataInfo,
}
use lib_media_service.MovWriter.{
  VideoCodec, avc, hevc, Converted, Library, MovWriter, Written, new_writer, open_writer,
  close_writer, context_of, set_context, next_pts, write_frame, read_size, write_first, begin_track,
  put_frame, write_video_frame, write_g711_frame, write_media_frame,
}

-- A predicate of both branches, and of both cases, holds of the whole.
either {ℓ ℓ'} :
    {A : Type ℓ} (P : A → Type ℓ') (b : Bool) (x y : A) → P x → P y → P (if b then x else y)
either P true x y p q = p
either P false x y p q = q

each {ℓ ℓ'} :
    {A B : Type ℓ} (P : B → Type ℓ') (o : Option A) (x : B) (f : A → B)
    → P x
    → ((a : A) → P (f a))
    → P (on_some o x f)
each P none x f p q = p
each P (some a) x f p q = q a

module _ {Context : Type 0} (lib : Library Context) where
  -- The writers that come about, with whether a file is open. A file is opened only where none is.
  pub data Reached : MovWriter Context → Bool → Type 0 where
    constructed : (context : Context) → Reached (new_writer context) false
    opened :
        {w : MovWriter Context} (opens creates : Bool)
        → Reached w false
        → Reached (open_writer opens creates w).1 (opens && creates)
    written :
        {w : MovWriter Context} {b : Bool} {r : Written Context} (info : MediaDataInfo)
        (bytes : List ℕ)
        → Reached w b
        → write_media_frame lib w info bytes ≡ some r
        → Reached r.writer b
    closed :
        {w v : MovWriter Context} {b : Bool} (frees : Bool)
        → Reached w b
        → close_writer frees w ≡ some v
        → Reached v false

  -- A call leaves the file and the track for audio as they were.
  abbrev Same : MovWriter Context → MovWriter Context → Type 0
  Same w w' = (w'.mov ≡ w.mov) × (w'.audio_track ≡ w.audio_track)

  abbrev Leaves : MovWriter Context → Option (Written Context) → Type 0
  Leaves w none = Unit
  Leaves w (some r) = Same w r.writer

  set_context-Same :
      (codec : VideoCodec) (c : Context) (w : MovWriter Context) → Same w (set_context codec c w)
  set_context-Same avc c w = (refl, refl)
  set_context-Same hevc c w = (refl, refl)

  write_first-Same :
      (codec : VideoCodec) (w : MovWriter Context) (frame : Converted Context) (pts : ℕ)
      (extra : List ℕ) (track : Option ℕ)
      → Same w (write_first lib codec w frame pts extra track).writer
  unfolding write_first write_frame
  write_first-Same codec w frame pts extra none = (refl, refl)
  write_first-Same codec w frame pts extra (some track) = (refl, refl)

  begin_track-Same :
      (codec : VideoCodec) (w : MovWriter Context) (frame : Converted Context) (pts : ℕ)
      → Same w (begin_track lib codec w frame pts).writer
  unfolding begin_track
  begin_track-Same codec w frame pts =
      let Kept : Written Context → Type 0 = λ r. Same w r.writer in
      either Kept (not (lib.has_parameters codec frame.context)) _ _ (refl, refl)
        (each Kept (lib.save_record codec frame.context) _ _ (refl, refl)
          λ extra.
            write_first-Same codec w frame pts extra (lib.new_video_track codec w.width w.height))

  begun :
      (codec : VideoCodec) (w v : MovWriter Context) (frame : Converted Context) (pts : ℕ)
      → Same w v
      → Same w (begin_track lib codec v frame pts).writer
  begun codec w v frame pts (m, a) =
      let (m', a') = begin_track-Same codec v frame pts in (m' ∙ m, a' ∙ a)

  put_frame-Leaves :
      (codec : VideoCodec) (w v : MovWriter Context) (frame : Converted Context) (pts : ℕ)
      (bytes : List ℕ) (track : Option ℕ)
      → Same w v
      → Leaves w (put_frame lib codec v frame pts bytes track)
  unfolding put_frame read_size write_frame
  put_frame-Leaves codec w v frame pts bytes (some track) k = k
  put_frame-Leaves codec w v frame pts bytes none k =
      let After : Option (MovWriter Context) → Type 0 =
        λ o. Leaves w (on_some o none λ v'. some (begin_track lib codec v' frame pts)) in
      either After (not (v.width == 0) && not (v.height == 0)) _ _ (begun codec w v frame pts k) (
        either After (ltb (length bytes) 5) _ _ tt (
          each After (lib.decode_sps codec (drop 4 bytes)) _ _ (begun codec w v frame pts k)
            λ size. begun codec w (record v { width = size.0; height = size.1 }) frame pts k))

  write_video_frame-Leaves :
      (codec : VideoCodec) (w : MovWriter Context) (info : MediaDataInfo) (bytes : List ℕ)
      → Leaves w (write_video_frame lib codec w info bytes)
  unfolding write_video_frame
  write_video_frame-Leaves codec w info bytes =
      let pts = next_pts codec w.video_pts w.video_pts_last info.pts in
      let frame = lib.convert codec (context_of codec w) bytes in
      let w' : MovWriter Context = record w { video_pts = info.pts; video_pts_last = pts } in
      let next = set_context codec frame.context w' in
      either (Leaves w) (not w.mov) _ _ (refl, refl)
        (put_frame-Leaves codec w next frame pts bytes w.video_track
          (set_context-Same codec frame.context w'))

  -- A frame of G.711 that finds no track.
  write_g711_frame-drops :
      (w : MovWriter Context) (info : MediaDataInfo) (bytes : List ℕ)
      → write_g711_frame lib w info bytes none ≡ some (record { code = ok; writer = w; calls = [] })
  unfolding write_g711_frame
  write_g711_frame-drops w info bytes = go info.code
    where
      go :
          (code : MediaCode)
          → write_g711_frame lib w (record info { code = code }) bytes none
            ≡ some (record { code = ok; writer = w; calls = [] })
      go code_ok = refl
      go memory_oom = refl
      go code_max = refl

  write_media_frame-Leaves :
      (w : MovWriter Context) (info : MediaDataInfo) (bytes : List ℕ)
      → w.audio_track ≡ none
      → Leaves w (write_media_frame lib w info bytes)
  unfolding write_media_frame
  write_media_frame-Leaves w info bytes e =
      let dropped =
        subst (λ o. Leaves w o) (sym (write_g711_frame-drops w info bytes)) (refl, refl) in
      let audio = subst (λ t. Leaves w (write_g711_frame lib w info bytes t)) (sym e) dropped in
      elim info.type as (λ t. Leaves w (write_media_frame lib w (record info { type = t }) bytes)) [
        | h264 ↦ write_video_frame-Leaves avc w info bytes
        | h265 ↦ write_video_frame-Leaves hevc w info bytes
        | g711a ↦ audio
        | g711u ↦ audio
        | raw_data ↦ (refl, refl)
        | invalid ↦ (refl, refl)
      ]

  -- What holds of every writer that comes about.
  abbrev IsReached : MovWriter Context → Bool → Type 0
  IsReached w b = (w.mov ≡ b) × (w.audio_track ≡ none)

  leaves :
      (w : MovWriter Context) (o : Option (Written Context)) (r : Written Context)
      → o ≡ some r
      → Leaves w o
      → Same w r.writer
  leaves w o r e k = subst (Leaves w) e k

  opened-IsReached :
      (w : MovWriter Context) (opens creates : Bool)
      → IsReached w false
      → IsReached (open_writer opens creates w).1 (opens && creates)
  unfolding open_writer
  opened-IsReached w false creates k = k
  opened-IsReached w true false k = (refl, k.1)
  opened-IsReached w true true k = (refl, k.1)

  close_writer-IsReached :
      (frees : Bool) (w v : MovWriter Context)
      → w.audio_track ≡ none
      → close_writer frees w ≡ some v
      → IsReached v false
  unfolding close_writer
  close_writer-IsReached frees w v h e = go (w.path && not frees) e
    where
      done : MovWriter Context
      done = record w { path = false; file = false; mov = false }

      go : (b : Bool) → (if b then none else some done) ≡ some v → IsReached v false
      go true e = cc
      go false e =
          let same : done ≡ v = cc in
          subst (λ (x : MovWriter Context). IsReached x false) same (refl, h)

  Reached-IsReached : (w : MovWriter Context) (b : Bool) → Reached w b → IsReached w b
  unfolding new_writer
  Reached-IsReached w b (constructed context) = (refl, refl)
  Reached-IsReached w b (opened {w = v} opens creates k) =
      opened-IsReached v opens creates (Reached-IsReached v false k)
  Reached-IsReached w b (written {w = v} {r = r} info bytes k e) =
      let before = Reached-IsReached v b k in
      let same = leaves v _ r e (write_media_frame-Leaves v info bytes before.1) in
      (same.0 ∙ before.0, same.1 ∙ before.1)
  Reached-IsReached w b (closed {w = v} {b = c} frees k e) =
      close_writer-IsReached frees v w (Reached-IsReached v c k).1 e

  -- However a writer has come about, opened only where no file was open, with frames of all kinds
  -- and a code of MR_MEDIA_CODE: a frame of G.711 is dropped, with OK, no call of libmov and the
  -- writer as it was.
  pub write_media_frame-drops_audio :
      (w : MovWriter Context) (b : Bool) (info : MediaDataInfo) (bytes : List ℕ)
      → Reached w b
      → (info.type ≡ g711a) ⊎ (info.type ≡ g711u)
      → write_media_frame lib w info bytes ≡ some (record { code = ok; writer = w; calls = [] })
  unfolding write_media_frame
  write_media_frame-drops_audio w b info bytes k t =
      let track = (Reached-IsReached w b k).1 in
      let Drops : MediaType → Type 0 = λ type.
        write_media_frame lib w (record info { type = type }) bytes
        ≡ some (record { code = ok; writer = w; calls = [] }) in
      let dropped : (info' : MediaDataInfo)
          → write_g711_frame lib w info' bytes w.audio_track
            ≡ some (record { code = ok; writer = w; calls = [] }) =
        λ info'.
          subst
            (λ t.
              write_g711_frame lib w info' bytes t
              ≡ some (record { code = ok; writer = w; calls = [] }))
            (sym track) (write_g711_frame-drops w info' bytes) in
      elim t [
        | inl e ↦ subst Drops (sym e) (dropped (record info { type = g711a }))
        | inr e ↦ subst Drops (sym e) (dropped (record info { type = g711u }))
      ]
