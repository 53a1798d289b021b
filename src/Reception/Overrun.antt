-- ===== src/Reception/Overrun.antt =====
-- handle_recv of rtsp/mk_rtsp_connection.cpp when a message says that it is longer than what was
-- received.
use lib_media_service.Common.{
  ℕ, zero, suc, ◌+◌, ◌-◌, ◌^◌, ◌<◌, ◌≡◌, ◌≢◌, refl, ap, ◌∙◌, true, false, Option, none, some, List,
  [], ◌++◌, length, take, is_ok, arith, byte_at, ltb, ◌==◌, ok,
}
use lib_media_service.RtspService.{RtspService}
use lib_media_service.RtspMessage.{RtspMessage, new_rtsp_message}
use lib_media_service.RtspMessage.Check.{check_rtsp}
use lib_media_service.RtspMessage.Parse.{parse}
use lib_media_service.MediaPath.{used}
use lib_media_service.Session.{Result}
use lib_media_service.Session.Response.{handle_rtsp_resp}
use lib_media_service.Reception.{
  Connection, Arrival, Processed, received, respond_to, process_message, process_recved_message,
  go_on, receive_loop, keep_rest, handle_recv,
}

-- A message at the front of the stream that the session takes, and whose length checkRtsp says to be `n`.
pub record Says (a : Arrival) (c : Connection) (s : RtspService) (n : ℕ) : Type 0 where
  pub message : RtspMessage
  pub buffer : List ℕ
  pub result : Result
  pub starts : byte_at c.recv_tcp_buf 0 ≢ 36
  pub checked :
      check_rtsp c.recv_tcp_buf c.recv_size 0 ≡ record { code = ok; msg_len = n; buf = buffer }
  pub parsed : parse a.atof new_rtsp_message buffer c.recv_size ≡ some (ok, message)
  pub response : message.method_index ≡ 11
  pub taken : handle_rtsp_resp (a.outside 0) c.session s message ≡ some result
  pub accepted : result.code ≡ ok

go_on-beyond :
    (next : ℕ → Connection → RtspService → Option Processed) (size n : ℕ) (r : Processed)
    → size < n
    → go_on next size 0 r (used n) ≡ some (record r { answer = used (0 + n) })
unfolding go_on
go_on-beyond next size zero r l = absurd (omega arith)
go_on-beyond next size (suc n) r l =
    let beyond : ltb (0 + suc n) size ≡ false = ground (arith, l) in rw beyond refl

module _ (a : Arrival) (c : Connection) (s : RtspService) (n : ℕ) (h : Says a c s n)
    (l : c.recv_size < n) (w : n < 2147483648) where
  -- What the message leaves.
  abbrev left : Processed
  left = record {
    answer = used n;
    connection = record c {
      recv_tcp_buf = take 0 c.recv_tcp_buf ++ h.buffer;
      session = h.result.session;
    };
    service = h.result.service;
    sent = h.result.sent;
    media = [];
    reported = h.result.reported;
  }

  respond_to-left :
      respond_to a 0 (record c { recv_tcp_buf = take 0 c.recv_tcp_buf ++ h.buffer }) s n h.message
      ≡ some left
  unfolding respond_to
  respond_to-left =
      let small : ltb n (2 ^ 31) ≡ true = ground (arith, w) in
      let response : (h.message.method_index == 11) ≡ true = ground (arith, h.response) in
      let good = ap is_ok h.accepted in rw (response, h.taken, good, small) refl

  process_message-left : process_message a 0 c s ≡ some left
  unfolding process_message
  process_message-left =
      let size : c.recv_size - 0 ≡ c.recv_size = omega arith in
      let checked = ap (λ k. check_rtsp c.recv_tcp_buf k 0) size ∙ h.checked in
      let parsed = ap (parse a.atof new_rtsp_message h.buffer) size ∙ h.parsed in
      let long : (n == 0) ≡ false = ground (arith, l) in rw (checked, long, parsed) respond_to-left

  receive_loop-left :
      (fuel : ℕ)
      → 0 < c.recv_size
      → receive_loop a (suc fuel) 0 c s ≡ some (record left { answer = used (0 + n) })
  unfolding receive_loop process_recved_message
  receive_loop-left fuel p =
      let more : ltb 0 c.recv_size ≡ true = ground (arith, p) in
      let other : (byte_at c.recv_tcp_buf 0 == 36) ≡ false = ground (arith, h.starts) in
      rw (more, other, process_message-left)
        (go_on-beyond (receive_loop a fuel) c.recv_size n left l)

-- Where less than the whole buffer was filled and more is received, and the message at the front of
-- the buffer, which the session takes, says by its Content-Length to be n bytes long, with n below
-- 2 ^ 31 but more than all that was received, handle_recv is undefined: the rest of the stream,
-- which it moves to the front of the buffer, has a negative size.
pub handle_recv-overruns :
    (a : Arrival) (c : Connection) (s : RtspService) (text : List ℕ) (n : ℕ)
    → c.recv_size < 524288
    → 0 < length text
    → c.recv_size + length text < n
    → n < 2147483648
    → Says a (received c text) s n
    → handle_recv a c s (some text) ≡ none
unfolding handle_recv keep_rest
handle_recv-overruns a c s text n p q l w h =
    let room : ltb c.recv_size 524288 ≡ true = ground (arith, p) in
    let size = c.recv_size + length text in
    let beyond : ltb size (0 + n) ≡ true = ground (arith, l) in
    rw (room, receive_loop-left a (received c text) s n h l w size (omega (arith, q)), beyond) refl
