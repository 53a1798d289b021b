-- ===== src/Organizer/Steps.antt =====
-- The parts of insertRtpPacket in rtsp/mk_rtsp_rtp_frame_organizer.cpp, one lemma each.
use mathlib.Core.Path.{subst}
use lib_media_service.Common.{
  ℕ, suc, ◌+◌, ◌≡◌, refl, sym, ap, true, none, some, List, [], ◌∷◌, All, All-map, All-snoc, ◌∙◌,
  arith, count, length-append, Bool-cases, Option-cases, inl, inr, ok,
}
use lib_media_service.RtspService.{RtspService}
use lib_media_service.Organizer.Frames.{RtpPackInfo, RtpFrameInfo, FrameMap, find_frame}
use lib_media_service.Organizer.Frames.Map.{
  KeysFrom, held, erase_frame-KeysFrom, smallest_from-first, length-erase_frame,
  count-held-erase_frame,
}
use lib_media_service.Organizer.Queue.{consecutive}
use lib_media_service.Organizer.Queue.Insertion.{SortedFrom}
use lib_media_service.Organizer.Queue.Runs.{
  consecutive-Run_all, consecutive-length, any_marker, count-free_queue,
}
use lib_media_service.Organizer.Invariant.{IsFrame, IsSpare, IsValid, IsComplete, Keeps}
use lib_media_service.Organizer.{
  Organizer, get_small_frame, release_rtp_packet, handle_finished_frame, check_small_frame,
  check_frame,
}

-- On a valid organizer GetSmallFrame is null exactly when there is no frame, and otherwise the first
-- frame of the map.
pub get_small_frame-first :
    (o : Organizer) (k : ℕ) (f : RtpFrameInfo) (m : FrameMap)
    → o.rtp_frame_map ≡ (k, f) ∷ m
    → IsValid o
    → (get_small_frame o ≡ some f) × (find_frame k o.rtp_frame_map ≡ some f) × IsFrame k f
unfolding get_small_frame find_frame
get_small_frame-first o k f m e v =
    let frames : KeysFrom IsFrame 0 ((k, f) ∷ m) = subst (KeysFrom IsFrame 0) e v.frames in
    let is : IsFrame k f = frames.1 in
    (
      rw (e, get_small_frame)
          (ap some (
            smallest_from-first IsFrame (λ j g h. h.keyed) f (suc k) m (omega (arith, is.keyed))
              frames.2)),
      rw e (ground arith),
      is,
    )

get_small_frame-none : (o : Organizer) → o.rtp_frame_map ≡ [] → get_small_frame o ≡ none
unfolding get_small_frame
get_small_frame-none o e = rw (e, get_small_frame)

-- releaseRtpPacket of a frame of the map: the frame moves to the free list, its buffers to the pool.
pub release_rtp_packet-IsValid :
    (o : Organizer) (s : RtspService) (f : RtpFrameInfo)
    → IsValid o
    → find_frame f.timestamp o.rtp_frame_map ≡ some f
    → IsValid (release_rtp_packet o s f).0
unfolding release_rtp_packet
release_rtp_packet-IsValid o s f v e =
    rw (e, release_rtp_packet)
      (record {
        frames = erase_frame-KeysFrom IsFrame 0 f.timestamp o.rtp_frame_map v.frames;
        spares = All-snoc IsSpare o.rtp_frame_free_list _ v.spares refl;
        total = omega (
          arith,
          v.total,
          length-erase_frame f.timestamp f o.rtp_frame_map e,
          length-append o.rtp_frame_free_list (record f { packet_queue = [] } ∷ []),
        );
        room = v.room;
      })

pub release_rtp_packet-balance :
    (o : Organizer) (s : RtspService) (f : RtpFrameInfo) (a : ℕ)
    → find_frame f.timestamp o.rtp_frame_map ≡ some f
    → count a (held (release_rtp_packet o s f).0.rtp_frame_map)
        + count a (release_rtp_packet o s f).1.rtp_recv_buf_list
      ≡ count a (held o.rtp_frame_map) + count a s.rtp_recv_buf_list
unfolding release_rtp_packet
release_rtp_packet-balance o s f a e =
    rw (e, release_rtp_packet)
      (omega (
        arith,
        count-held-erase_frame a f.timestamp f o.rtp_frame_map e,
        count-free_queue a f.packet_queue s,
      ))

-- What handleFinishedFrame hands over of a frame whose packets are accepted by checkFrame.
handle_finished_frame-IsComplete :
    (o : Organizer) (k : ℕ) (f : RtpFrameInfo) (p : RtpPackInfo) (ps : List RtpPackInfo)
    → f.packet_queue ≡ p ∷ ps
    → IsFrame k f
    → f.marker ≡ true
    → consecutive p.seq (p ∷ ps) ≡ true
    → All IsComplete (handle_finished_frame o f)
unfolding handle_finished_frame
handle_finished_frame-IsComplete o k f p ps e is m c = elim (Bool-cases o.rtp_frame_handler) [
  | inl set ↦
      rw (e, handle_finished_frame, set)
        (
          record {
            run = (
              consecutive-Run_all p ps (subst (SortedFrom 0) e is.sorted) c,
              All-map ps (λ q h. h ∙ sym same_time.0) same_time.1,
            );
            ended = subst (λ q. any_marker q ≡ true) e (sym is.marked ∙ m);
            few = consecutive-length p ps (subst (SortedFrom 0) e is.sorted) c;
          },
          tt,
        )
  | inr null ↦ rw (e, handle_finished_frame, null) tt
]
  where
    same_time : All (λ q. q.timestamp ≡ k) (p ∷ ps)
    same_time = subst (All (λ q. q.timestamp ≡ k)) e is.same_time

unchanged-Keeps :
    (o : Organizer) (s : RtspService)
    → IsValid o
    → Keeps o s [] (record { code = ok; organizer = o; service = s; delivered = [] })
unchanged-Keeps o s v = record { valid = v; complete = tt; balance = λ a. omega arith }

-- checkFrame on the oldest frame.
check_small_frame-Keeps :
    (o : Organizer) (s : RtspService) (k : ℕ) (f : RtpFrameInfo) (q : List RtpPackInfo)
    → IsValid o
    → IsFrame k f
    → find_frame k o.rtp_frame_map ≡ some f
    → f.packet_queue ≡ q
    → Keeps o s [] (check_small_frame o s f q)
unfolding check_small_frame
check_small_frame-Keeps o s k f [] v is e eq = absurd (is.filled eq)
check_small_frame-Keeps o s k f (p ∷ ps) v is e eq = elim (Bool-cases f.marker) [
  | inr more ↦ simp more (unchanged-Keeps o s v)
  | inl m ↦ elim (Bool-cases (consecutive p.seq (p ∷ ps))) [
    | inr gap ↦ simp (m, gap) (unchanged-Keeps o s v)
    | inl full ↦
        simp (m, full)
          (record {
            valid = release_rtp_packet-IsValid o s f v there';
            complete = handle_finished_frame-IsComplete o k f p ps eq is m full;
            balance = λ a. omega (arith, release_rtp_packet-balance o s f a there');
          })
  ]
]
  where
    there' : find_frame f.timestamp o.rtp_frame_map ≡ some f
    there' = subst (λ j. find_frame j o.rtp_frame_map ≡ some f) (sym is.keyed) e

-- checkFrame keeps a valid organizer valid, hands over complete frames only, and loses no buffer.
pub check_frame-Keeps :
    (o : Organizer) (s : RtspService) → IsValid o → Keeps o s [] (check_frame o s)
unfolding check_frame
check_frame-Keeps o s v = go o.rtp_frame_map refl
  where
    go : (m : FrameMap) → o.rtp_frame_map ≡ m → Keeps o s [] (check_frame o s)
    go [] e = rw (get_small_frame-none o e, check_frame) (unchanged-Keeps o s v)
    go ((k, f) ∷ m) e =
        let (small, found, is) = get_small_frame-first o k f m e v in
        rw (small, check_frame) (check_small_frame-Keeps o s k f f.packet_queue v is found refl)

check_small_frame-code :
    (o : Organizer) (s : RtspService) (f : RtpFrameInfo) (q : List RtpPackInfo)
    → (check_small_frame o s f q).code ≡ ok
unfolding check_small_frame
check_small_frame-code o s f [] = refl
check_small_frame-code o s f (p ∷ ps) = ground arith

-- insertRtpPacket returns OK after checkFrame.
pub check_frame-code : (o : Organizer) (s : RtspService) → (check_frame o s).code ≡ ok
unfolding check_frame
check_frame-code o s = elim (Option-cases (get_small_frame o)) [
  | inl e ↦ rw (e, check_frame)
  | inr (f, e) ↦ rw (e, check_frame) (check_small_frame-code o s f f.packet_queue)
]
