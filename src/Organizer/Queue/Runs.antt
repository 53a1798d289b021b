-- ===== src/Organizer/Queue/Runs.antt =====
-- The loop of checkFrame in rtsp/mk_rtsp_rtp_frame_organizer.cpp: when it finds a frame full.
use mathlib.Core.Path.{subst}
use lib_media_service.Common.{
  ◌<◌, ◌≤◌, ◌-◌, All, ◌↔◌, refl, sym, inl, inr, &&-true, ==_iff, Bool-cases, ℕ, ◌+◌, ◌%◌, ◌≡◌, ◌≢◌,
  Bool, true, false, ◌||◌, List, [], ◌∷◌, arith, length, count-append, count, Option,
}
use lib_media_service.Organizer.Frames.{RtpPackInfo, last_seq}
use lib_media_service.Organizer.Frames.Map.{addresses}
use lib_media_service.RtspService.{RtspService, free_rtp_recv_buf}
use lib_media_service.Organizer.Queue.{consecutive, free_queue}
use lib_media_service.Organizer.Queue.Insertion.{SortedFrom, Insertion, here, there}

-- The sequence numbers count up by one from `n`, with no wrap.
abbrev pub Run : ℕ → List RtpPackInfo → Type 0
Run n [] = Unit {0}
Run n (p ∷ ps) = (p.seq ≡ n) × Run (n + 1) ps

-- A queue in order that the loop accepts counts up without a wrap: behind 65535 the loop wants 0,
-- and a queue in order has no lower number there.
pub consecutive-Run :
    (n : ℕ) (ps : List RtpPackInfo)
    → SortedFrom n ps
    → consecutive ((n + 1) % 65536) ps ≡ true
    → Run (n + 1) ps
unfolding consecutive
consecutive-Run n [] s c = tt
consecutive-Run n (p ∷ ps) s c =
    let (first, rest) = &&-true _ _ c in
    let now : (n + 1) % 65536 ≡ p.seq = (==_iff _ _).0 first in
    let next : p.seq ≡ n + 1 = omega (arith, s.0) in
    (next, subst (λ k. Run (k + 1) ps) next (consecutive-Run p.seq ps s.1 (rw now at rest)))

-- Only the first number of an accepted queue is not below 65536 by itself.
consecutive-short :
    (n : ℕ) (ps : List RtpPackInfo)
    → SortedFrom n ps
    → consecutive ((n + 1) % 65536) ps ≡ true
    → length ps ≤ 65535 - n
unfolding consecutive
consecutive-short n [] s c = omega arith
consecutive-short n (p ∷ ps) s c =
    let (first, rest) = &&-true _ _ c in
    let now : (n + 1) % 65536 ≡ p.seq = (==_iff _ _).0 first in
    let later = consecutive-short p.seq ps s.1 (rw now at rest) in omega (arith, later, now, s.0)

-- Such a queue is no longer than there are sequence numbers.
pub consecutive-length :
    (p : RtpPackInfo) (ps : List RtpPackInfo)
    → SortedFrom 0 (p ∷ ps)
    → consecutive p.seq (p ∷ ps) ≡ true
    → length (p ∷ ps) ≤ 65536
unfolding consecutive
consecutive-length p ps s c = omega (arith, consecutive-short p.seq ps s.1 (&&-true _ _ c).1)

pub Run-consecutive :
    (n : ℕ) (ps : List RtpPackInfo)
    → All (λ p. p.seq < 65536) ps
    → Run n ps
    → consecutive n ps ≡ true
unfolding consecutive
Run-consecutive n [] small r = refl
Run-consecutive n (p ∷ []) small (e, r) = rw ((==_iff n p.seq).1 (sym e))
Run-consecutive n (p ∷ q ∷ qs) small (e, r) =
    let next : (n + 1) % 65536 ≡ n + 1 = omega (arith, small.1.0, r.0) in
    let rest = Run-consecutive (n + 1) (q ∷ qs) small.1 r in
    rw ((==_iff n p.seq).1 (sym e), next, rest)

pub consecutive-Run_all :
    (p : RtpPackInfo) (ps : List RtpPackInfo)
    → SortedFrom 0 (p ∷ ps)
    → consecutive p.seq (p ∷ ps) ≡ true
    → Run p.seq (p ∷ ps)
unfolding consecutive
consecutive-Run_all p ps s c =
    let rest = (&&-true _ _ c).1 in (refl, consecutive-Run p.seq ps s.1 rest)

-- On a queue of uint16_t sequence numbers that do not fall, the test of checkFrame for a full frame
-- is that the numbers count up by one from the first, without the wrap from 65535 to 0.
pub consecutive-iff_Run :
    (p : RtpPackInfo) (ps : List RtpPackInfo)
    → SortedFrom 0 (p ∷ ps)
    → All (λ q. q.seq < 65536) (p ∷ ps)
    → (consecutive p.seq (p ∷ ps) ≡ true) ↔ Run p.seq (p ∷ ps)
consecutive-iff_Run p ps s small =
    (consecutive-Run_all p ps s, Run-consecutive p.seq (p ∷ ps) small)

pub Run-last :
    (p : RtpPackInfo) (ps : List RtpPackInfo)
    → Run p.seq (p ∷ ps)
    → last_seq p ps + 1 ≡ p.seq + length (p ∷ ps)
Run-last p [] r = omega arith
Run-last p (q ∷ qs) r =
    let e : q.seq ≡ p.seq + 1 = r.1.0 in
    omega (arith, Run-last q qs (refl, subst (λ k. Run (k + 1) qs) (sym e) r.1.1))

-- A queue in order whose numbers span more than it holds is not accepted. So a frame whose packets
-- 65535 and 0 have both arrived is not, though a sender numbers such packets one after the other.
pub consecutive-gap :
    (p : RtpPackInfo) (ps : List RtpPackInfo)
    → SortedFrom 0 (p ∷ ps)
    → last_seq p ps + 1 ≢ p.seq + length (p ∷ ps)
    → consecutive p.seq (p ∷ ps) ≡ false
consecutive-gap p ps s h = elim (Bool-cases (consecutive p.seq (p ∷ ps))) [
  | inl full ↦ absurd (h (Run-last p ps (consecutive-Run_all p ps s full)))
  | inr gap ↦ gap
]

abbrev pub any_marker : List RtpPackInfo → Bool
any_marker [] = false
any_marker (p ∷ ps) = p.marker || any_marker ps

pub any_marker-Insertion :
    {x : RtpPackInfo} {xs ys : List RtpPackInfo}
    → Insertion x xs ys
    → any_marker ys ≡ (any_marker xs || x.marker)
any_marker-Insertion {xs = xs} here = ground arith
any_marker-Insertion {x} (there {y = y} {xs = xs} {ys = ys} i) =
    ground (arith, any_marker-Insertion i)

pub count-Insertion :
    (a : ℕ) {x : RtpPackInfo} {xs ys : List RtpPackInfo}
    → Insertion x xs ys
    → count a (addresses ys) ≡ count a (x.block.address ∷ []) + count a (addresses xs)
count-Insertion a here = omega arith
count-Insertion a (there i) = omega (arith, count-Insertion a i)

-- Each buffer of the queue is put back once.
pub count-free_queue :
    (a : ℕ) (ps : List RtpPackInfo) (s : RtspService)
    → count a (free_queue ps s).rtp_recv_buf_list
      ≡ count a (addresses ps) + count a s.rtp_recv_buf_list
unfolding free_queue free_rtp_recv_buf
count-free_queue a [] s = omega arith
count-free_queue a (p ∷ ps) s = omega (
  arith,
  count-free_queue a ps (free_rtp_recv_buf s (Option.some p.block.address)),
  count-append a s.rtp_recv_buf_list (p.block.address ∷ []),
)
