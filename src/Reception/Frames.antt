-- ===== src/Reception/Frames.antt =====
-- The interleaved packets of a TCP stream, for handle_recv of rtsp/mk_rtsp_connection.cpp: a stream is a
-- sequence of packets and the beginning of another.
use lib_media_service.Common.{
  ℕ, zero, suc, ◌+◌, ◌-◌, ◌≤◌, ◌<◌, ◌≡◌, ◌⊎◌, inl, inr, refl, ap, ◌∙◌, true, false, Option-cases,
  length-drop, some, List, [], ◌∷◌, ◌++◌, length, length-append, take, drop, arith, byte_at, net16,
  get_or-append_left, ltb, ltb-cases,
}
use lib_media_service.Client.{MediaData}
use lib_media_service.RtspService.{RtspService, get_rtp_recv_buf}
use lib_media_service.MediaPath.{MediaPath, Received, used, handle_rtp_rtcp_data}

-- An interleaved packet: '$', the channel, the length, and as many bytes.
pub record IsFrame (frame : List ℕ) : Type 0 where
  pub starts : byte_at frame 0 ≡ 36
  pub size : length frame ≡ 4 + net16 frame 2

-- The beginning of a packet.
abbrev pub Incomplete : List ℕ → Type 0
Incomplete [] = Unit {0}
Incomplete (c ∷ stream) =
    (c ≡ 36) × ((length (c ∷ stream) < 4) ⊎ (length (c ∷ stream) < 4 + net16 (c ∷ stream) 2))

-- What a stream comes to: the path and the pools, what the application was given, and the beginning of
-- a packet that is left.
pub record Consumed : Type 0 where
  pub path : MediaPath
  pub service : RtspService
  pub media : List MediaData
  pub rest : List ℕ

-- What the application was given before, in front.
abbrev pub after_media : List MediaData → Consumed → Consumed
after_media media q = record q { media = media ++ q.media }

-- The path after a packet, which only the organizer of can have changed.
abbrev pub moved : MediaPath → Received → MediaPath
moved c r = record c { organizer = r.path.organizer }

-- The packets of a stream, handled one by one. `memory n` is what the buffers of the pool hold where `n`
-- bytes of the stream are left.
pub data Delivers (memory : ℕ → ℕ → List ℕ)
    : MediaPath → RtspService → List ℕ → Consumed → Type 0 where
  rest :
      {c : MediaPath} {s : RtspService} {stream : List ℕ}
      → Incomplete stream
      → Delivers memory c s stream (record { path = c; service = s; media = []; rest = stream })
  packet :
      {c : MediaPath} {s : RtspService} {stream : List ℕ} {q : Consumed} (frame behind : List ℕ)
      (r : Received)
      → stream ≡ frame ++ behind
      → IsFrame frame
      → r.answer ≡ used (length frame)
      → handle_rtp_rtcp_data (memory (length stream)) c s frame ≡ some r
      → Delivers memory (moved c r) r.service behind q
      → Delivers memory c s stream (after_media r.media q)

pub byte_at-append : (xs ys : List ℕ) (i : ℕ) → i < length xs → byte_at (xs ++ ys) i ≡ byte_at xs i
byte_at-append xs ys i h = get_or-append_left xs ys i 0 h

pub take-append_left : (n : ℕ) (xs ys : List ℕ) → n ≤ length xs → take n (xs ++ ys) ≡ take n xs
take-append_left zero xs ys h = refl
take-append_left (suc n) [] ys h = absurd (omega arith)
take-append_left (suc n) (x ∷ xs) ys h = ap (◌∷◌ x) (take-append_left n xs ys (omega arith))

pub drop-append_left :
    (n : ℕ) (xs ys : List ℕ) → n ≤ length xs → drop n (xs ++ ys) ≡ drop n xs ++ ys
drop-append_left zero xs ys h = refl
drop-append_left (suc n) [] ys h = absurd (omega arith)
drop-append_left (suc n) (x ∷ xs) ys h = drop-append_left n xs ys (omega arith)

-- What is behind a packet does not matter to it.
pub handle_rtp_rtcp_data-frame :
    (memory : ℕ → List ℕ) (c : MediaPath) (s : RtspService) (frame behind : List ℕ)
    → IsFrame frame
    → handle_rtp_rtcp_data memory c s (frame ++ behind) ≡ handle_rtp_rtcp_data memory c s frame
unfolding handle_rtp_rtcp_data
handle_rtp_rtcp_data-frame memory c s frame behind h =
    let whole = length-append frame behind in
    let payload =
      ap (take (net16 frame 2)) (drop-append_left 4 frame behind (omega (arith, h.size)))
      ∙ take-append_left (net16 frame 2) (drop 4 frame) behind
          (omega (arith, h.size, length-drop 4 frame)) in
    let headed : ltb (length (frame ++ behind)) 4 ≡ false = ground (arith, h.size, whole) in
    let headed' : ltb (length frame) 4 ≡ false = ground (arith, h.size) in
    let full : ltb (length (frame ++ behind) - 4) (net16 frame 2) ≡ false =
      ground (arith, h.size, whole) in
    let full' : ltb (length frame - 4) (net16 frame 2) ≡ false = ground (arith, h.size) in
    let second = byte_at-append frame behind 2 (omega (arith, h.size)) in
    let third = byte_at-append frame behind 3 (omega (arith, h.size)) in
    let first = byte_at-append frame behind 1 (omega (arith, h.size)) in
    elim (Option-cases (get_rtp_recv_buf s).0) [
      | inl e ↦ rw (e, headed, headed', second, third, full, full') refl
      | inr (a, e) ↦ rw (e, headed, headed', second, third, full, full', first, payload) refl
    ]

-- The beginning of a packet has to wait for more.
pub handle_rtp_rtcp_data-Incomplete :
    (memory : ℕ → List ℕ) (c : MediaPath) (s : RtspService) (b : ℕ) (stream : List ℕ)
    → Incomplete (b ∷ stream)
    → handle_rtp_rtcp_data memory c s (b ∷ stream)
      ≡ some (record { answer = used 0; path = c; service = s; media = [] })
unfolding handle_rtp_rtcp_data
handle_rtp_rtcp_data-Incomplete memory c s b stream h = elim (ltb-cases (length (b ∷ stream)) 4) [
  | inl (e, short) ↦ rw e refl
  | inr (e, headed) ↦ elim h.1 [
    | inl short ↦ absurd (omega (arith, short, headed))
    | inr short ↦
        let partial : ltb (length (b ∷ stream) - 4) (net16 (b ∷ stream) 2) ≡ true =
          ground (arith, short, headed) in
        rw (e, partial) refl
  ]
]
