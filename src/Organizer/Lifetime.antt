-- ===== src/Organizer/Lifetime.antt =====
-- The start and the end of a mk_rtp_frame_organizer: init and release.
use mathlib.Core.Path.{subst}
use lib_media_service.Common.{
  sym, ap, ℕ, zero, suc, ◌+◌, ◌<◌, ◌≡◌, refl, true, [], ◌∷◌, ◌++◌, All, All-snoc, arith, count,
  length, length-append,
}
use lib_media_service.RtspService.{RtspService}
use lib_media_service.Organizer.Frames.{RtpFrameInfo, FrameMap, new_frame_info}
use lib_media_service.Organizer.Frames.Map.{KeysFrom, held, count-held-cons}
use lib_media_service.Organizer.Queue.{free_queue}
use lib_media_service.Organizer.Queue.Runs.{count-free_queue}
use lib_media_service.Organizer.Invariant.{IsFrame, IsSpare, IsValid}
use lib_media_service.Organizer.{Organizer, new_organizer, init, init_loop, free_frames, release}

init_loop-spares :
    (n i : ℕ) (o : Organizer)
    → All IsSpare o.rtp_frame_free_list
    → let p = (init_loop (λ _. true) n i o).1 in
      All IsSpare p.rtp_frame_free_list
      × (length p.rtp_frame_free_list ≡ length o.rtp_frame_free_list + n)
      × (p.rtp_frame_map ≡ o.rtp_frame_map)
      × (p.max_cache_frame_num ≡ o.max_cache_frame_num)
unfolding init_loop
init_loop-spares zero i o h = (h, omega arith, refl, refl)
init_loop-spares (suc n) i o h =
    let o' : Organizer = record o {
      rtp_frame_free_list = o.rtp_frame_free_list ++ (new_frame_info ∷ []);
    } in
    let (spares, count, same, max) =
      init_loop-spares n (i + 1) o' (All-snoc IsSpare o.rtp_frame_free_list _ h refl) in
    (
      spares,
      omega (arith, count, length-append o.rtp_frame_free_list (new_frame_info ∷ [])),
      same,
      max,
    )

ready : ℕ → Organizer
ready n = record new_organizer { rtp_frame_handler = true; max_cache_frame_num = n }

init-ready :
    (n : ℕ) → 0 < n → init (λ _. true) new_organizer true n ≡ init_loop (λ _. true) n 0 (ready n)
unfolding init ready
init-ready n h = ground arith

-- init of a new organizer, with a handler, a cache of at least one frame, and all its allocations
-- granted, gives a valid organizer.
pub init-IsValid : (n : ℕ) → 0 < n → IsValid (init (λ _. true) new_organizer true n).1
unfolding ready
init-IsValid n h =
    let (spares, number, same, max) = init_loop-spares n 0 (ready n) tt in
    rw (init-ready n h) (record {
      frames = subst (KeysFrom IsFrame 0) (sym same) tt;
      spares = spares;
      total = omega (arith, number, max, ap (length {A = ℕ × RtpFrameInfo}) same);
      room = omega (arith, max);
    })

free_frames-count :
    (a : ℕ) (m : FrameMap) (s : RtspService)
    → count a (free_frames m s).rtp_recv_buf_list ≡ count a (held m) + count a s.rtp_recv_buf_list
unfolding free_frames
free_frames-count a [] s = omega arith
free_frames-count a ((k, f) ∷ m) s = omega (
  arith,
  free_frames-count a m (free_queue f.packet_queue s),
  count-free_queue a f.packet_queue s,
  count-held-cons a k f m,
)

-- release gives every buffer of every frame back to the pool once, and leaves no frame.
pub release_returns :
    (o : Organizer) (s : RtspService)
    → ((a : ℕ)
        → count a (release o s).1.rtp_recv_buf_list
          ≡ count a (held o.rtp_frame_map) + count a s.rtp_recv_buf_list)
      × ((release o s).0.rtp_frame_map ≡ [])
      × ((release o s).0.rtp_frame_free_list ≡ [])
unfolding release
release_returns o s = (λ a. free_frames-count a o.rtp_frame_map s, refl, refl)
