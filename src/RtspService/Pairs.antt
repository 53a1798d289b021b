-- ===== src/RtspService/Pairs.antt =====
-- create_rtp_rtcp_udp_pairs of rtsp/mk_rtsp_service.cpp: the ports and indices of the pairs.
use mathlib.Core.List.{append_assoc, append-nil}
use lib_media_service.Common.{
  ℕ, zero, suc, ◌+◌, ◌*◌, ◌/◌, ◌%◌, ◌≤◌, ◌<◌, ◌≡◌, refl, sym, ap, ◌∙◌, true, Option, none, some,
  List, [], ◌∷◌, ◌++◌, arith, length, set, replicate, length-set, length-replicate, ok,
}
use lib_media_service.UdpHandle.{UdpHandle, new_udp_handle}
use lib_media_service.UdpHandle
use lib_media_service.RtspService.{
  RtspService, elem_at, create_pairs_loop, create_rtp_rtcp_udp_pairs,
}

-- The numbers from `i` on.
abbrev pub range : ℕ → ℕ → List ℕ
range i zero = []
range i (suc n) = i ∷ range (i + 1) n

-- The handle of an index and a port that has just been initialised.
abbrev pub idle : ℕ → ℕ → UdpHandle
idle index port = record new_udp_handle { index = index; port = port % 65536 }

elem_at-set_same :
    (xs : List (Option UdpHandle)) (i : ℕ) (h : UdpHandle)
    → i < length xs
    → elem_at (set xs i (some h)) i ≡ some h
elem_at-set_same [] i h l = absurd (omega arith)
elem_at-set_same (x ∷ xs) zero h l = refl
elem_at-set_same (x ∷ xs) (suc i) h l = elem_at-set_same xs i h (omega arith)

elem_at-set_below :
    (xs : List (Option UdpHandle)) (i j : ℕ) (v : Option UdpHandle)
    → j < i
    → elem_at (set xs i v) j ≡ elem_at xs j
elem_at-set_below [] i j v l = refl
elem_at-set_below (x ∷ xs) zero j v l = absurd (omega arith)
elem_at-set_below (x ∷ xs) (suc i) zero v l = refl
elem_at-set_below (x ∷ xs) (suc i) (suc j) v l = elem_at-set_below xs i j v (omega arith)

-- What the loop leaves that has `n` rounds left and is at round `i`.
pub record Fills (s t : RtspService) (n i port : ℕ) : Type 0 where
  rtp_below : (j : ℕ) → j < i → elem_at t.udp_rtp_array j ≡ elem_at s.udp_rtp_array j
  rtcp_below : (j : ℕ) → j < i → elem_at t.udp_rtcp_array j ≡ elem_at s.udp_rtcp_array j
  rtp : (j : ℕ) → j < n → elem_at t.udp_rtp_array (i + j) ≡ some (idle (i + j) (port + 2 * j))
  rtcp : (j : ℕ) → j < n → elem_at t.udp_rtcp_array (i + j) ≡ some (idle (i + j) (port + 1 + 2 * j))
  free : t.rtp_rtcp_free_list ≡ s.rtp_rtcp_free_list ++ range i n

moved :
    (xs : List (Option UdpHandle)) (a b p q : ℕ)
    → a ≡ b
    → p ≡ q
    → elem_at xs b ≡ some (idle b q)
    → elem_at xs a ≡ some (idle a p)
moved xs a b p q e f h = rw (e, f) h

-- An array whose next entry has been set, and whose further ones the rest of the loop has set.
filled :
    (xs ys : List (Option UdpHandle)) (n i port : ℕ)
    → i < length xs
    → ((j : ℕ) → j < i + 1 → elem_at ys j ≡ elem_at (set xs i (some (idle i port))) j)
    → ((j : ℕ) → j < n → elem_at ys (i + 1 + j) ≡ some (idle (i + 1 + j) (port + 2 + 2 * j)))
    → (j : ℕ) → j < suc n
    → elem_at ys (i + j) ≡ some (idle (i + j) (port + 2 * j))
filled xs ys n i port l below above zero k =
    moved ys (i + 0) i (port + 2 * 0) port (omega arith) (omega arith)
      (below i (omega arith) ∙ elem_at-set_same xs i (idle i port) l)
filled xs ys n i port l below above (suc j) k =
    moved ys (i + suc j) (i + 1 + j) (port + 2 * suc j) (port + 2 + 2 * j) (omega arith)
      (omega arith) (above j (omega arith))

pub create_pairs_loop-Fills :
    (n i port : ℕ) (s : RtspService)
    → i + n ≤ length s.udp_rtp_array
    → i + n ≤ length s.udp_rtcp_array
    → (t : RtspService) × (create_pairs_loop (λ _. true) n i port s ≡ (ok, t)) × Fills s t n i port
unfolding create_pairs_loop UdpHandle.init
create_pairs_loop-Fills zero i port s h k = (
  s,
  refl,
  record {
    rtp_below = λ j l. refl;
    rtcp_below = λ j l. refl;
    rtp = λ j l. absurd (omega arith);
    rtcp = λ j l. absurd (omega arith);
    free = sym (append-nil s.rtp_rtcp_free_list);
  },
)
create_pairs_loop-Fills (suc n) i port s h k =
    let s1 : RtspService = record s {
      udp_rtp_array = set s.udp_rtp_array i (some (idle i port));
      udp_rtcp_array = set s.udp_rtcp_array i (some (idle i (port + 1)));
      rtp_rtcp_free_list = s.rtp_rtcp_free_list ++ (i ∷ []);
    } in
    let (t, e, f) =
      create_pairs_loop-Fills n (i + 1) (port + 2) s1
        (omega (arith, length-set s.udp_rtp_array i (some (idle i port))))
        (omega (arith, length-set s.udp_rtcp_array i (some (idle i (port + 1))))) in
    (
      t,
      e,
      record {
        rtp_below = λ j l.
            f.rtp_below j (omega arith)
            ∙ elem_at-set_below s.udp_rtp_array i j (some (idle i port)) l;
        rtcp_below = λ j l.
            f.rtcp_below j (omega arith)
            ∙ elem_at-set_below s.udp_rtcp_array i j (some (idle i (port + 1))) l;
        rtp = filled s.udp_rtp_array t.udp_rtp_array n i port (omega arith) f.rtp_below f.rtp;
        rtcp =
            filled s.udp_rtcp_array t.udp_rtcp_array n i (port + 1) (omega arith) f.rtcp_below
              λ j l.
                moved t.udp_rtcp_array _ _ (port + 1 + 2 + 2 * j) (port + 2 + 1 + 2 * j) refl
                  (omega arith) (f.rtcp j l);
        free = f.free ∙ append_assoc s.rtp_rtcp_free_list (i ∷ []) (range (i + 1) n);
      },
    )

-- create_rtp_rtcp_udp_pairs of a service that has no pairs yet, with all its allocations granted,
-- returns OK. Of the half of the configured count that it makes, pair j has index j, its RTP handle
-- has the port 2 * j behind the start port, its RTCP handle the next port, each as a uint16_t, and the
-- free list has every index once, in order.
pub create_rtp_rtcp_udp_pairs-ports :
    (s : RtspService)
    → s.rtp_rtcp_free_list ≡ []
    → let n = s.udp_pair_count / 2 in
      (t : RtspService) × (create_rtp_rtcp_udp_pairs (λ _. true) s ≡ (ok, t))
      × (t.rtp_rtcp_free_list ≡ range 0 n)
      × ((j : ℕ)
          → j < n
          → (elem_at t.udp_rtp_array j ≡ some (idle j (s.udp_start_port + 2 * j)))
            × (elem_at t.udp_rtcp_array j ≡ some (idle j (s.udp_start_port + 1 + 2 * j))))
unfolding create_rtp_rtcp_udp_pairs
create_rtp_rtcp_udp_pairs-ports s none_free =
    let n = s.udp_pair_count / 2 in
    let empty : RtspService = record s {
      udp_rtp_array = replicate n none;
      udp_rtcp_array = replicate n none;
    } in
    let room : 0 + n ≤ length (replicate {A = Option UdpHandle} n none) =
      omega (arith, length-replicate {A = Option UdpHandle} n none) in
    let (t, e, f) = create_pairs_loop-Fills n 0 s.udp_start_port empty room room in
    (
      t,
      e,
      f.free ∙ ap (λ l. l ++ range 0 n) none_free,
      λ j l. (
        moved t.udp_rtp_array j (0 + j) _ _ (omega arith) refl (f.rtp j l),
        moved t.udp_rtcp_array j (0 + j) _ _ (omega arith) refl (f.rtcp j l),
      ),
    )
