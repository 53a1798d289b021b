-- ===== src/Reception/Rounds.antt =====
-- The loop of handle_recv of rtsp/mk_rtsp_connection.cpp over a stream of interleaved packets.
use mathlib.Core.List.{append-nil}
use lib_media_service.Common.{
  ℕ, zero, suc, ◌+◌, ◌-◌, ◌≤◌, ◌<◌, ◌≡◌, inl, inr, refl, sym, ap, ◌∙◌, true, false, Option, none,
  some, on_some, List, [], ◌∷◌, ◌++◌, length, length-append, length-take, length-drop, take, drop,
  drop-drop, drop-append, arith, byte_at, ltb, ltb-cases, ◌==◌,
}
use lib_media_service.Organizer.{Organizer}
use lib_media_service.RtspService.{RtspService}
use lib_media_service.MediaPath.{MediaPath, Received, used, handle_rtp_rtcp_data}
use lib_media_service.Reception.{
  Connection, Arrival, Processed, answered, media_path, stream_at, rtcp_if_due, process_interleaved,
  process_recved_message, go_on, receive_loop,
}
use lib_media_service.Reception.Frames.{
  Consumed, after_media, Delivers, rest, packet, moved, handle_rtp_rtcp_data-frame,
  handle_rtp_rtcp_data-Incomplete,
}

-- The connection has its buffer whole, and sends no reports.
pub record IsReady (c : Connection) : Type 0 where
  pub buffer : length c.recv_tcp_buf ≡ 524288
  pub size : c.recv_size ≤ 524288
  pub silent : c.session.client.send_rtcp ≡ false

-- What the loop leaves of a stream of packets.
abbrev pub left_by : Connection → Consumed → Processed
left_by c q = record {
  answer = used (c.recv_size - length q.rest);
  connection = record c { organizer = q.path.organizer };
  service = q.service;
  sent = [];
  media = q.media;
  reported = [];
}

-- What a round leaves.
abbrev after_packet : Connection → Received → Processed
after_packet c r = record {
  answer = r.answer;
  connection = record c { organizer = r.path.organizer };
  service = r.service;
  sent = [];
  media = r.media;
  reported = [];
}

byte_at-take : (n : ℕ) (xs : List ℕ) → 0 < n → byte_at (take n xs) 0 ≡ byte_at xs 0
byte_at-take zero xs h = absurd (omega arith)
byte_at-take (suc n) [] h = refl
byte_at-take (suc n) (x ∷ xs) h = refl

take-nil : (n : ℕ) → take {A = ℕ} n [] ≡ []
take-nil zero = refl
take-nil (suc n) = refl

pub drop-take : (k n : ℕ) (xs : List ℕ) → drop k (take n xs) ≡ take (n - k) (drop k xs)
drop-take zero n xs = ap (λ m. take m xs) {x = n} {y = n - 0} (omega arith)
drop-take (suc k) zero xs = ap (λ m. take m (drop (suc k) xs)) {x = 0} {y = 0 - suc k} (omega arith)
drop-take (suc k) (suc n) [] = sym (take-nil (suc n - suc k))
drop-take (suc k) (suc n) (x ∷ xs) =
    drop-take k n xs ∙ ap (λ m. take m (drop k xs)) {x = n - k} {y = suc n - suc k} (omega arith)

-- The stream behind a packet.
stream_at-behind :
    (at : ℕ) (c : Connection) (o : Organizer) (frame behind : List ℕ)
    → stream_at c at ≡ frame ++ behind
    → stream_at (record c { organizer = o }) (at + length frame) ≡ behind
stream_at-behind at c o frame behind e =
    let buf = c.recv_tcp_buf in
    let left = c.recv_size - (at + length frame) in
    ap (take left) (drop-drop at (length frame) buf)
    ∙ ap (λ n. take n (drop (length frame) (drop at buf))) {x = left}
        {y = c.recv_size - at - length frame} (omega arith)
    ∙ sym (drop-take (length frame) (c.recv_size - at) (drop at buf))
    ∙ ap (drop (length frame)) e
    ∙ drop-append frame behind

pub stream_size :
    {stream : List ℕ} (at : ℕ) (c : Connection)
    → IsReady c
    → stream_at c at ≡ stream
    → length stream ≡ c.recv_size - at
stream_size at c h f =
    let whole = length-take (c.recv_size - at) (drop at c.recv_tcp_buf) in
    let back = length-drop at c.recv_tcp_buf in
    let same = ap length f in omega (arith, whole, back, same, h.buffer, h.size)

module _ (a : Arrival) (memory : ℕ → ℕ → List ℕ) (size : ℕ)
    (steady : (at : ℕ) → a.memory at ≡ memory (size - at)) where
  rtcp_if_due-silent : (at : ℕ) (c : Connection) → IsReady c → rtcp_if_due a at c ≡ some (c, [])
  unfolding rtcp_if_due
  rtcp_if_due-silent at c h = ground (arith, h.silent)

  -- A round that has a packet, or the beginning of one, in front of it.
  process_interleaved-stream :
      (at : ℕ) (c : Connection) (s : RtspService) (r : Received)
      → IsReady c
      → handle_rtp_rtcp_data (memory (size - at)) (media_path c) s (stream_at c at) ≡ some r
      → process_interleaved a at c s ≡ some (after_packet c r)
  unfolding process_interleaved
  process_interleaved-stream at c s r h g =
      let same =
        ap (λ held. handle_rtp_rtcp_data held (media_path c) s (stream_at c at)) (steady at) ∙ g in
      rw (rtcp_if_due-silent at c h, same) refl

  process_recved_message-stream :
      (at : ℕ) (c : Connection) (s : RtspService) (r : Received)
      → IsReady c
      → at < c.recv_size
      → byte_at (stream_at c at) 0 ≡ 36
      → handle_rtp_rtcp_data (memory (size - at)) (media_path c) s (stream_at c at) ≡ some r
      → process_recved_message a at c s ≡ some (after_packet c r)
  unfolding process_recved_message
  process_recved_message-stream at c s r h l e g =
      let more : ltb at c.recv_size ≡ true = ground arith in
      let starts : (byte_at (drop at c.recv_tcp_buf) 0 == 36) ≡ true =
        ground (arith, byte_at-take (c.recv_size - at) (drop at c.recv_tcp_buf), e) in
      rw (more, starts) (process_interleaved-stream at c s r h g)

  Delivers-nothing :
      {p : MediaPath} {s : RtspService} {stream : List ℕ} {q : Consumed}
      → length stream ≡ 0
      → Delivers memory p s stream q
      → q ≡ record { path = p; service = s; media = []; rest = stream }
  Delivers-nothing h (rest w) = refl
  Delivers-nothing h (packet frame behind r g i b j d) =
      absurd (omega (arith, h, i.size, ap length g, length-append frame behind))

  pub receive_loop-Delivers :
      (fuel at : ℕ) (c : Connection) {p : MediaPath} {s : RtspService} {stream : List ℕ}
      {q : Consumed}
      → IsReady c
      → p ≡ media_path c
      → c.recv_size ≡ size
      → stream_at c at ≡ stream
      → at < c.recv_size
      → c.recv_size < at + fuel
      → Delivers memory p s stream q
      → receive_loop a fuel at c s ≡ some (left_by c q)
  unfolding receive_loop
  receive_loop-Delivers zero at c h e n f l m d = absurd (omega arith)
  receive_loop-Delivers (suc fuel) at c {stream = []} h e n f l m (rest w) =
      absurd (omega (arith, stream_size at c h f))
  receive_loop-Delivers (suc fuel) at c {p} {s} {stream = b ∷ t} h e n f l m (rest w) =
      let sizes = stream_size at c h f in
      let r0 : Received = record {
        answer = used 0;
        path = media_path c;
        service = s;
        media = [];
      } in
      let waits =
        ap (handle_rtp_rtcp_data (memory (size - at)) (media_path c) s) f
        ∙ handle_rtp_rtcp_data-Incomplete (memory (size - at)) (media_path c) s b t w in
      let step =
        process_recved_message-stream at c s r0 h l (ap (λ x. byte_at x 0) f ∙ w.0) waits in
      ap (λ o. on_some o none λ r. go_on (receive_loop a fuel) c.recv_size at r r.answer) step
      ∙ ap (λ n. some (answered (used n) c s)) {x = at} {y = c.recv_size - length (b ∷ t)}
          (omega (arith, sizes, l))
      ∙ ap
          (λ (p' : MediaPath).
            some (left_by c (record { path = p'; service = s; media = []; rest = b ∷ t })))
          (sym e)
  receive_loop-Delivers (suc fuel) at c h e n f l m (packet [] behind r g i b j d) =
      absurd (omega (arith, i.size))
  receive_loop-Delivers (suc fuel) at c {p} {s} {stream = stream} {q = q} h e n f l m
        (packet (y ∷ ys) behind r g i b j d) =
      let frame = y ∷ ys in
      let c' = record c { organizer = r.path.organizer } in
      let sizes = stream_size at c h (f ∙ g) in
      let parts = length-append frame behind in
      let left : size - at ≡ length stream = omega (arith, n, stream_size at c h f) in
      let handled =
        ap (handle_rtp_rtcp_data (memory (size - at)) (media_path c) s) (f ∙ g)
        ∙ handle_rtp_rtcp_data-frame (memory (size - at)) (media_path c) s frame behind i
        ∙ ap (λ (p' : MediaPath). handle_rtp_rtcp_data (memory (size - at)) p' s frame) (sym e)
        ∙ ap (λ k. handle_rtp_rtcp_data (memory k) p s frame) left
        ∙ j in
      let step =
        process_recved_message-stream at c s r h l (ap (λ x. byte_at x 0) (f ∙ g) ∙ i.starts)
          handled in
      ap (λ o. on_some o none λ r. go_on (receive_loop a fuel) c.recv_size at r r.answer) step
      ∙ ap (go_on (receive_loop a fuel) c.recv_size at (after_packet c r)) b
      ∙ elim (ltb-cases (at + length frame) c.recv_size) [
        | inl (t, less) ↦
            let next =
              receive_loop-Delivers fuel (at + length frame) c'
                (record { buffer = h.buffer; size = h.size; silent = h.silent })
                (ap (λ (p' : MediaPath). moved p' r) e) n
                (stream_at-behind at c c'.organizer frame behind (f ∙ g)) less (omega (arith, m))
                d in
            rw (t, next) refl
        | inr (t, all) ↦
            let nothing = Delivers-nothing (omega (arith, sizes, parts, all)) d in
            rw t (
              ap (λ n. some (record (after_packet c r) { answer = used n })) {x = at + length frame}
                {y = c.recv_size - length behind} (omega (arith, sizes, parts, all))
              ∙ ap {B = Option Processed}
                  (λ media.
                    some
                      (record (left_by c (record {
                        path = moved p r;
                        service = r.service;
                        media = [];
                        rest = behind;
                      })) { media = media }))
                  (sym (append-nil r.media))
              ∙ ap (λ q'. some (left_by c (after_media r.media q'))) (sym nothing))
      ]
