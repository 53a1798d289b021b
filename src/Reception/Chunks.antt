-- ===== src/Reception/Chunks.antt =====
-- handle_recv of rtsp/mk_rtsp_connection.cpp, called again and again: however the network cuts a
-- stream of interleaved packets, the same packets are handled.
use mathlib.Core.Path.{subst}
use mathlib.Core.List.{append_assoc, append-nil}
use lib_media_service.Common.{
  ℕ, zero, suc, ◌+◌, ◌-◌, ◌≤◌, ◌<◌, ◌≡◌, inl, inr, refl, sym, ap, ◌∙◌, Option, none, some, on_some,
  List, [], ◌∷◌, ◌++◌, All, IsByte, length, length-append, drop, arith, byte_at,
}
use lib_media_service.Client.{MediaData}
use lib_media_service.RtspService.{RtspService}
use lib_media_service.MediaPath.{MediaPath}
use lib_media_service.Reception.{Connection, Arrival, Handled, media_path, stream_at, handle_recv}
use lib_media_service.Reception.Frames.{
  Incomplete, Consumed, after_media, Delivers, rest, packet, byte_at-append,
}
use lib_media_service.Reception.Split.{Delivers-Parted, Delivers-Left}
use lib_media_service.Reception.Calls.{Continues, handle_recv-Continues}
use lib_media_service.Reception.Rounds.{IsReady, stream_size}

-- handle_recv for each part of a stream, with what it is answered each time: `none` is undefined.
unfoldable pub receive_all :
    Connection
    → RtspService
    → List (Arrival × List ℕ)
    → Option (Connection × RtspService × List MediaData)
receive_all c s [] = some (c, s, [])
receive_all c s (part ∷ parts) = on_some (handle_recv part.0 c s (some part.1)) none λ h.
    on_some (receive_all h.connection h.service parts) none λ r. some (r.0, r.1, h.media ++ r.2)

abbrev pub whole_of : List (Arrival × List ℕ) → List ℕ
whole_of [] = []
whole_of (part ∷ parts) = part.1 ++ whole_of parts

-- A part as recv gives it: some bytes, not so many that the buffer is too small for them behind the
-- beginning of a packet.
abbrev pub Part : Arrival × List ℕ → Type 0
Part part = (0 < length part.1) × (length part.1 ≤ 458749) × All IsByte part.1

-- What the buffers of the pool hold before a packet is copied to one of them goes by the place in the
-- stream: `memory n` where `n` bytes of all the parts are left to handle. The calls are those of
-- receive_all.
abbrev pub Recalls : (ℕ → ℕ → List ℕ) → Connection → RtspService → List (Arrival × List ℕ) → Type 0
Recalls memory c s [] = Unit {0}
Recalls memory c s (part ∷ parts) =
    ((at : ℕ)
      → part.0.memory at ≡ memory (c.recv_size + length part.1 - at + length (whole_of parts)))
    × ((h : Handled)
        → handle_recv part.0 c s (some part.1) ≡ some h
        → Recalls memory h.connection h.service parts)

byte_at-IsByte : (xs : List ℕ) (i : ℕ) → All IsByte xs → byte_at xs i < 256
byte_at-IsByte [] i h = omega arith
byte_at-IsByte (x ∷ xs) zero h = h.0
byte_at-IsByte (x ∷ xs) (suc i) h = byte_at-IsByte xs i h.1

Incomplete-length :
    (stream : List ℕ) → Incomplete stream → All IsByte stream → length stream ≤ 65538
Incomplete-length [] h b = omega arith
Incomplete-length (x ∷ stream) h b =
    let second = byte_at-IsByte (x ∷ stream) 2 b in
    let third = byte_at-IsByte (x ∷ stream) 3 b in
    elim h.1 [ inl short ↦ omega (arith, short) | inr short ↦ omega (arith, short, second, third) ]

All-append : (xs ys : List ℕ) → All IsByte xs → All IsByte ys → All IsByte (xs ++ ys)
All-append [] ys h k = k
All-append (x ∷ xs) ys h k = (h.0, All-append xs ys h.1 k)

All-drop : (n : ℕ) (xs : List ℕ) → All IsByte xs → All IsByte (drop n xs)
All-drop zero xs h = h
All-drop (suc n) [] h = h
All-drop (suc n) (x ∷ xs) h = All-drop n xs h.1

-- The beginning of a packet is not handled.
Delivers-Incomplete :
    {memory : ℕ → ℕ → List ℕ} {c : MediaPath} {s : RtspService} {stream : List ℕ} {q : Consumed}
    → Incomplete stream
    → Delivers memory c s stream q
    → q ≡ record { path = c; service = s; media = []; rest = stream }
Delivers-Incomplete h (rest w) = refl
Delivers-Incomplete {stream = []} h (packet frame behind r e i a g d) =
    absurd (omega (arith, i.size, ap length e, length-append frame behind))
Delivers-Incomplete {stream = x ∷ stream} h (packet frame behind r e i a g d) =
    let sizes = ap length e ∙ length-append frame behind in
    let second = ap (λ t. byte_at t 2) e ∙ byte_at-append frame behind 2 (omega (arith, i.size)) in
    let third = ap (λ t. byte_at t 3) e ∙ byte_at-append frame behind 3 (omega (arith, i.size)) in
    elim h.1 [
      | inl short ↦ absurd (omega (arith, short, sizes, i.size))
      | inr short ↦ absurd (omega (arith, short, sizes, i.size, second, third))
    ]

-- What all the calls leave.
pub record Agrees (q : Consumed) (r : Connection × RtspService × List MediaData) : Type 0 where
  pub ready : IsReady r.0
  pub path : media_path r.0 ≡ q.path
  pub service : r.1 ≡ q.service
  pub media : r.2 ≡ q.media
  pub pending : stream_at r.0 0 ≡ q.rest

Agrees-after :
    (h : Handled) (middle last q : Consumed) (r : Connection × RtspService × List MediaData)
    → Continues middle h
    → q ≡ after_media middle.media last
    → Agrees last r
    → Agrees q (r.0, r.1, h.media ++ r.2)
Agrees-after h middle last q r k e g = record {
  ready = g.ready;
  path = g.path ∙ ap (λ (q : Consumed). q.path) (sym e);
  service = g.service ∙ ap (λ (q : Consumed). q.service) (sym e);
  media =
      ap (λ m. m ++ r.2) k.media
      ∙ ap (λ m. middle.media ++ m) g.media
      ∙ ap (λ (q : Consumed). q.media) (sym e);
  pending = g.pending ∙ ap (λ (q : Consumed). q.rest) (sym e);
}

resume :
    {memory : ℕ → ℕ → List ℕ} (h : Handled) (middle last : Consumed) (b : List ℕ)
    → Continues middle h
    → Delivers memory middle.path middle.service (middle.rest ++ b) last
    → Delivers memory (media_path h.connection) h.service (stream_at h.connection 0 ++ b) last
resume {memory} h middle last b k d =
    subst (λ t. Delivers memory (media_path h.connection) h.service (t ++ b) last) (sym k.pending)
      (subst (λ z. Delivers memory (media_path h.connection) z (middle.rest ++ b) last)
        (sym k.service)
        (subst (λ z. Delivers memory z middle.service (middle.rest ++ b) last) (sym k.path) d))

-- However a stream is cut into parts of 1 to 458749 bytes, with a call of handle_recv for each, on
-- a connection that sends no reports and holds no more than the beginning of an interleaved packet,
-- the calls return, and leave what handling the packets one by one leaves: the same frames, the
-- same pools, the same media for the application in the same order, and the rest of the stream in
-- the buffer. The stream consists of whole interleaved packets and the beginning of one; handling
-- each of them alone is defined and uses it up, which a packet over 1500 bytes does not; and what
-- the receive buffers hold before a packet is copied to one depends on the packet's place in the
-- stream only, not on the cuts.
pub receive_all-Agrees :
    (memory : ℕ → ℕ → List ℕ) (parts : List (Arrival × List ℕ)) (c : Connection) (s : RtspService)
    (q : Consumed)
    → All Part parts
    → Recalls memory c s parts
    → IsReady c
    → Incomplete (stream_at c 0)
    → All IsByte (stream_at c 0)
    → Delivers memory (media_path c) s (stream_at c 0 ++ whole_of parts) q
    → (r : Connection × RtspService × List MediaData) × (receive_all c s parts ≡ some r)
      × Agrees q r
unfolding receive_all
receive_all-Agrees memory [] c s q p m h w b d =
    let same =
      Delivers-Incomplete w
        (subst (λ t. Delivers memory (media_path c) s t q) (append-nil (stream_at c 0)) d) in
    (
      (c, s, []),
      refl,
      record {
        ready = h;
        path = ap (λ (q : Consumed). q.path) (sym same);
        service = ap (λ (q : Consumed). q.service) (sym same);
        media = ap (λ (q : Consumed). q.media) (sym same);
        pending = ap (λ (q : Consumed). q.rest) (sym same);
      },
    )
receive_all-Agrees memory (part ∷ parts) c s q p m h w b d =
    let text = part.1 in
    let before = stream_at c 0 ++ text in
    let halves =
      Delivers-Parted before (whole_of parts)
        (sym (append_assoc (stream_at c 0) text (whole_of parts))) d in
    let small = Incomplete-length (stream_at c 0) w b in
    let size = stream_size 0 c h refl in
    let one =
      handle_recv-Continues part.0 (λ n. memory (n + length (whole_of parts))) c s text
        halves.middle m.0 h p.0.0 (omega (arith, small, size, p.0.1)) halves.first in
    let step = one.0 in
    let k = one.2 in
    let left = Delivers-Left halves.first in
    let bytes = subst (All IsByte) (left.end ∙ sym k.pending) (
      All-drop (length before - length halves.middle.rest) before
        (All-append (stream_at c 0) text b p.0.2)) in
    let next = resume step halves.middle halves.last (whole_of parts) k halves.second in
    let others =
      receive_all-Agrees memory parts step.connection step.service halves.last p.1 (m.1 step one.1)
        k.ready (subst Incomplete (sym k.pending) left.incomplete) bytes next in
    let r = others.0 in
    (
      (r.0, r.1, step.media ++ r.2),
      rw (one.1, others.1) refl,
      Agrees-after step halves.middle halves.last q r k halves.same others.2,
    )
