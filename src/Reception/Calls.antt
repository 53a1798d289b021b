-- ===== src/Reception/Calls.antt =====
-- One call of handle_recv of rtsp/mk_rtsp_connection.cpp on a stream of interleaved packets.
use mathlib.Core.Path.{subst}
use lib_media_service.Common.{
  ℕ, suc, ◌+◌, ◌-◌, ◌≤◌, ◌<◌, ◌≡◌, refl, sym, ap, ◌∙◌, true, false, some, List, [], ◌∷◌, ◌++◌,
  length, length-append, length-take, length-drop, take, take-append, drop, arith, ltb,
}
use lib_media_service.RtspService.{RtspService}
use lib_media_service.Reception.{
  Connection, Arrival, Handled, media_path, stream_at, received, keep_rest, handle_recv,
}
use lib_media_service.Reception.Frames.{Consumed, Delivers}
use lib_media_service.Reception.Split.{Left, Delivers-Left, Delivers-path}
use lib_media_service.Reception.Rounds.{
  IsReady, left_by, stream_size, drop-take, receive_loop-Delivers,
}

take-length_add : (xs ys : List ℕ) (n : ℕ) → take (length xs + n) (xs ++ ys) ≡ xs ++ take n ys
take-length_add [] ys n = ap (λ k. take k ys) {x = 0 + n} {y = n} (omega arith)
take-length_add (x ∷ xs) ys n =
    ap (λ k. take k (x ∷ (xs ++ ys))) {x = suc (length xs) + n} {y = suc (length xs + n)}
      (omega arith)
    ∙ ap (◌∷◌ x) (take-length_add xs ys n)

-- The stream after recv.
stream_at-received :
    (c : Connection) (text : List ℕ)
    → IsReady c
    → stream_at (received c text) 0 ≡ stream_at c 0 ++ text
stream_at-received c text h =
    let front = take c.recv_size c.recv_tcp_buf in
    let back = drop (c.recv_size + length text) c.recv_tcp_buf in
    let size = length-take c.recv_size c.recv_tcp_buf in
    ap (λ n. take n (front ++ (text ++ back))) {x = c.recv_size + length text - 0}
      {y = length front + length text} (omega (arith, size, h.size, h.buffer))
    ∙ take-length_add front (text ++ back) (length text)
    ∙ ap (λ t. front ++ t) (take-append text back)
    ∙ ap (λ n. take n c.recv_tcp_buf ++ text) {x = c.recv_size} {y = c.recv_size - 0} (omega arith)

-- What a call leaves.
pub record Continues (q : Consumed) (h : Handled) : Type 0 where
  pub ready : IsReady h.connection
  pub path : media_path h.connection ≡ q.path
  pub service : h.service ≡ q.service
  pub media : h.media ≡ q.media
  pub pending : stream_at h.connection 0 ≡ q.rest
  pub goes_on : h.recv_next ≡ true

-- The connection with the rest of its stream in front.
abbrev rested : Arrival → Connection → Consumed → Handled
rested a c q =
    let at = c.recv_size - length q.rest in
    let size = c.recv_size - at in
    record {
      connection = record c {
        organizer = q.path.organizer;
        recv_tcp_buf = take size (drop at c.recv_tcp_buf) ++ drop size c.recv_tcp_buf;
        recv_size = size;
        session = record c.session { last_recv = a.time at };
      };
      service = q.service;
      sent = [];
      media = q.media;
      reported = [];
      recv_next = true;
    }

keep_rest-rested :
    (a : Arrival) (c : Connection) (q : Consumed)
    → keep_rest a (left_by c q) (left_by c q).answer ≡ some (rested a c q)
unfolding keep_rest
keep_rest-rested a c q =
    let inside : ltb c.recv_size (c.recv_size - length q.rest) ≡ false = ground arith in
    rw inside refl

rested-Continues :
    (a : Arrival) (c : Connection) (q : Consumed)
    → IsReady c
    → Left (stream_at c 0) q
    → q.path ≡ record (media_path c) { organizer = q.path.organizer }
    → Continues q (rested a c q)
rested-Continues a c q h l p =
    let buf = c.recv_tcp_buf in
    let at = c.recv_size - length q.rest in
    let size = c.recv_size - at in
    let whole = stream_size 0 c h refl in
    let kept = length-take size (drop at buf) in
    let shifted = length-drop at buf in
    let others = length-drop size buf in
    let joined = length-append (take size (drop at buf)) (drop size buf) in
    let front : take size (drop at buf) ≡ q.rest =
      sym (drop-take at c.recv_size buf)
      ∙ ap (λ n. drop at (take n buf)) {x = c.recv_size} {y = c.recv_size - 0} (omega arith)
      ∙ ap (λ n. drop n (stream_at c 0)) {x = at} {y = length (stream_at c 0) - length q.rest}
          (omega (arith, whole))
      ∙ l.end in
    record {
      ready = record {
        buffer = omega (arith, joined, others, kept, shifted, h.buffer, h.size);
        size = omega (arith, h.size);
        silent = h.silent;
      };
      path = sym p;
      service = refl;
      media = refl;
      pending =
          ap (λ n. take n (take size (drop at buf) ++ drop size buf)) {x = size - 0}
            {y = length (take size (drop at buf))} (omega (arith, kept, shifted, h.buffer, h.size))
          ∙ take-append (take size (drop at buf)) (drop size buf)
          ∙ front;
      goes_on = refl;
    }

received-IsReady :
    (c : Connection) (text : List ℕ)
    → IsReady c
    → c.recv_size + length text ≤ 524288
    → IsReady (received c text)
received-IsReady c text h l =
    let front = length-take c.recv_size c.recv_tcp_buf in
    let back = length-drop (c.recv_size + length text) c.recv_tcp_buf in
    let outer =
      length-append (take c.recv_size c.recv_tcp_buf)
        (text ++ drop (c.recv_size + length text) c.recv_tcp_buf) in
    let inner = length-append text (drop (c.recv_size + length text) c.recv_tcp_buf) in
    record {
      buffer = omega (arith, front, back, outer, inner, h.buffer, h.size, l);
      size = l;
      silent = h.silent;
    }

-- One call.
pub handle_recv-Continues :
    (a : Arrival) (memory : ℕ → ℕ → List ℕ) (c : Connection) (s : RtspService) (text : List ℕ)
    (q : Consumed)
    → ((at : ℕ) → a.memory at ≡ memory (c.recv_size + length text - at))
    → IsReady c
    → 0 < length text
    → c.recv_size + length text ≤ 524288
    → Delivers memory (media_path c) s (stream_at c 0 ++ text) q
    → (h : Handled) × (handle_recv a c s (some text) ≡ some h) × Continues q h
unfolding handle_recv
handle_recv-Continues a memory c s text q steady h pos fits d =
    let c1 = received c text in
    let ready = received-IsReady c text h fits in
    let room : ltb c.recv_size 524288 ≡ true = ground (arith, pos, fits) in
    let stream = stream_at-received c text h in
    let loop =
      receive_loop-Delivers a memory c1.recv_size steady (suc c1.recv_size) 0 c1 ready refl refl
        stream (omega (arith, pos)) (omega arith) d in
    let left = subst (λ t. Left t q) (sym stream) (Delivers-Left d) in
    (
      rested a c1 q,
      rw (room, loop) (keep_rest-rested a c1 q),
      rested-Continues a c1 q ready left (Delivers-path d),
    )
