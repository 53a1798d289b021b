-- ===== src/Rtmp/Handles.antt =====
-- The handles of librtmp that a client of rtmp/mk_rtmp_connection.cpp makes and ends.
use lib_media_service.Common.{
  ℕ, ◌≡◌, subst, refl, sym, ap, ◌∙◌, Bool, true, false, Option, none, some, on_some, List, [], ◌∷◌,
  ◌++◌, ◌==◌, if◌then◌else◌, arith, is_ok, fail,
}
use lib_media_service.Client.{connected, handshake, running, MediaCallBack, ClientStatus}
use lib_media_service.Rtmp.{
  Rtmp, Opening, Result, HandleCall, created, destroyed, Packet, new_rtmp, destroy_handle, close,
  report, register_client, play, open_handle, stage, start, stop, recv_next, check_client,
  handle_recv, hand_over, read_packet,
}

-- The handle that lives behind the calls: `none` where a handle is made while one lives, or ended that does
-- not live.
abbrev after_call : Option ℕ → HandleCall → Option (Option ℕ)
after_call none (created h) = some (some h)
after_call (some g) (created h) = none
after_call none (destroyed h) = none
after_call (some g) (destroyed h) = if g == h then some none else none

abbrev pub living : Option ℕ → List HandleCall → Option (Option ℕ)
living h [] = some h
living h (c ∷ cs) = on_some (after_call h c) none λ h'. living h' cs

-- The connections that come about, with all calls so far. start is called only where no handle is held.
pub data Reached : Rtmp → List HandleCall → Type 0 where
  constructed : (cb : MediaCallBack) (now : ℕ) → Reached (new_rtmp cb now) []
  started :
      {r : Rtmp} {calls : List HandleCall} (o : Opening)
      → r.handle ≡ none
      → Reached r calls
      → Reached (start o r).rtmp (calls ++ (start o r).calls)
  read :
      {r : Rtmp} {calls : List HandleCall} (now : ℕ) (packet : Option Packet)
      → Reached r calls
      → Reached (handle_recv r now packet).rtmp calls
  waited :
      {r : Rtmp} {calls : List HandleCall} (now : ℕ)
      → Reached r calls
      → Reached (recv_next r now) calls
  checked :
      {r : Rtmp} {calls : List HandleCall} (now : ℕ)
      → Reached r calls
      → Reached (check_client r now).1 calls
  stopped :
      {r : Rtmp} {calls : List HandleCall}
      → Reached r calls
      → Reached (stop r).0 (calls ++ (stop r).1)

through :
    (o : Option (Option ℕ)) (f g k : Option ℕ → Option (Option ℕ))
    → ((h : Option ℕ) → f h ≡ on_some (g h) none k)
    → on_some o none f ≡ on_some (on_some o none g) none k
through none f g k e = refl
through (some h) f g k e = e h

living-append :
    (h : Option ℕ) (cs ds : List HandleCall)
    → living h (cs ++ ds) ≡ on_some (living h cs) none (λ g. living g ds)
living-append h [] ds = refl
living-append h (c ∷ cs) ds = through (after_call h c) _ _ _ λ g. living-append g cs ds

-- The handle that lives is the one that is held.
abbrev Holds : Option ℕ → List HandleCall → Rtmp → Type 0
Holds h calls r = living h calls ≡ some r.handle

destroy_handle-living : (r : Rtmp) → living r.handle (destroy_handle r).1 ≡ some none
unfolding destroy_handle
destroy_handle-living r = go r.handle
  where
    go : (h : Option ℕ) → living h (on_some h [] λ g. destroyed g ∷ []) ≡ some none
    go none = refl
    go (some h) = let same : (h == h) ≡ true = ground arith in rw same refl

more-Holds :
    (h : Option ℕ) (calls more : List HandleCall) (r r' : Rtmp)
    → Holds h calls r
    → Holds r.handle more r'
    → Holds h (calls ++ more) r'
more-Holds h calls more r r' k l =
    living-append h calls more ∙ ap (λ o. on_some o none λ g. living g more) k ∙ l

abbrev HoldsResult : Result → Type 0
HoldsResult r = Holds none r.calls r.rtmp

close-Holds : (r : Result) → HoldsResult r → HoldsResult (close r)
unfolding close
close-Holds r k =
    more-Holds none r.calls (destroy_handle r.rtmp).1 r.rtmp (close r).rtmp k
      (destroy_handle-living r.rtmp)

report-Holds : (status : ClientStatus) (r : Result) → HoldsResult r → HoldsResult (report status r)
unfolding report
report-Holds status r k = k

stage-Holds :
    (b : Bool) (r next : Result) → HoldsResult r → HoldsResult next → HoldsResult (stage b r next)
unfolding stage
stage-Holds true r next k l = l
stage-Holds false r next k l = close-Holds r k

register_client-Holds :
    (o : Opening) (r : Result) → HoldsResult r → HoldsResult (register_client o r)
unfolding register_client
register_client-Holds o r k =
    stage-Holds (on_some o.socket false λ _. true) r _ k (stage-Holds (is_ok o.register) r _ k k)

play-Holds : (o : Opening) (r : Result) → HoldsResult r → HoldsResult (play o r)
unfolding play
play-Holds o r k =
    stage-Holds (is_ok o.play_stream) r _ k (register_client-Holds o _ (report-Holds running r k))

open_handle-Holds : (o : Opening) (h : Option ℕ) (r : Rtmp) → HoldsResult (open_handle o h r)
unfolding open_handle
open_handle-Holds o none r = refl
open_handle-Holds o (some h) r =
    let made : Result = record {
      code = fail;
      rtmp = record r { handle = some h };
      calls = created h ∷ [];
      reported = [];
    } in
    let opened = report-Holds connected made refl in
    stage-Holds (is_ok o.connect_app) (report connected made) _ opened
      (play-Holds o _ (report-Holds handshake (report connected made) opened))

start-Holds : (o : Opening) (r : Rtmp) → HoldsResult (start o r)
unfolding start
start-Holds o r = open_handle-Holds o o.create r

handle_recv-handle :
    (r : Rtmp) (now : ℕ) (packet : Option Packet)
    → (handle_recv r now packet).rtmp.handle ≡ r.handle
unfolding handle_recv read_packet hand_over
handle_recv-handle r now none = refl
handle_recv-handle r now (some p) = ground arith

check_client-handle : (r : Rtmp) (now : ℕ) → (check_client r now).1.handle ≡ r.handle
unfolding check_client
check_client-handle r now = ground arith

Reached-Holds : (r : Rtmp) (calls : List HandleCall) → Reached r calls → Holds none calls r
unfolding new_rtmp recv_next stop destroy_handle
Reached-Holds r calls (constructed cb now) = refl
Reached-Holds r calls (started {r = s} {calls = cs} o e k) =
    more-Holds none cs (start o s).calls s (start o s).rtmp (Reached-Holds s cs k)
      (subst (λ h. Holds h (start o s).calls (start o s).rtmp) (sym e) (start-Holds o s))
Reached-Holds r calls (read {r = s} now packet k) =
    Reached-Holds s calls k ∙ ap (λ h. some h) (sym (handle_recv-handle s now packet))
Reached-Holds r calls (waited {r = s} now k) = Reached-Holds s calls k
Reached-Holds r calls (checked {r = s} now k) =
    Reached-Holds s calls k ∙ ap (λ h. some h) (sym (check_client-handle s now))
Reached-Holds r calls (stopped {r = s} {calls = cs} k) =
    more-Holds none cs (stop s).1 s (stop s).0 (Reached-Holds s cs k) (destroy_handle-living s)

-- Of whatever is called, start only where no handle is held: no handle is made while another one lives or
-- ended where it does not live, and the one that lives is the one that is held. The destructor leaves none.
pub Reached-living :
    (r : Rtmp) (calls : List HandleCall)
    → Reached r calls
    → (living none calls ≡ some r.handle) × (living none (calls ++ (stop r).1) ≡ some none)
unfolding stop
Reached-living r calls k =
    let holds = Reached-Holds r calls k in
    (holds, more-Holds none calls (stop r).1 r (stop r).0 holds (destroy_handle-living r))
