-- ===== src/Session/Invariant.antt =====
-- What every answer leaves true of a session of rtsp/mk_rtsp_connection.cpp: handleRtspResp and what
-- it calls.
use lib_media_service.Common.{
  ℕ, ◌+◌, ◌%◌, ◌≤◌, ◌<◌, ◌≡◌, refl, subst, ◌⊎◌, inl, inr, Bool, true, false, not, Option, none,
  some, List, [], ◌∷◌, ◌==◌, if◌then◌else◌, on_some, arith, All, All-map, is_ok, Bool-cases,
}
use lib_media_service.UdpHandle.{UdpHandle}
use lib_media_service.RtspService.{RtspService}
use lib_media_service.RtspMessage.{generate_rtsp_req}
use lib_media_service.Session.{
  Session, SessionStatus, status_init, status_setup, status_play, Outside, Result, MediaKind,
  video_media, audio_media, other_media, Method, describe_method, setup_method, play_method,
  options_method, find_method, insert_method, authorization, request_message, request_url,
  send_rtsp_req,
}
use lib_media_service.Session.Setup.{place_handles}

-- The methods that a client sends on its own.
pub data IsSent : Method → Type 0 where
  sends_options : IsSent options_method
  sends_describe : IsSent describe_method
  sends_setup : IsSent setup_method
  sends_play : IsSent play_method

-- The states that their answers lead to.
abbrev pub IsActive : SessionStatus → Type 0
IsActive st = (st ≡ status_init) ⊎ (st ≡ status_setup) ⊎ (st ≡ status_play)

-- An entry of the map is for a number already given out, and a PLAY is not sent before all SETUPs are
-- answered.
abbrev pub Logged : Session → ℕ × Method → Type 0
Logged s entry =
    (entry.0 < s.seq) × IsSent entry.1 × ((s.status ≡ status_init) → ¬ (entry.1 ≡ play_method))

pub record IsValid (s : Session) : Type 0 where
  pub logged : All (Logged s) s.seq_method_map
  pub active : IsActive s.status
  pub tries : s.authen_time ≤ 4

-- What a call promises of the session it leaves, where it is defined.
pub data Keeps : Option Result → Type 0 where
  undefined : Keeps none
  leaves : {r : Result} → IsValid r.session → Keeps (some r)

pub find_method-All :
    (P : ℕ × Method → Type 0) (key : ℕ) (method : Method) (m : List (ℕ × Method))
    → All P m
    → find_method key m ≡ some method
    → P (key, method)
unfolding find_method
find_method-All P key method [] h e = cc
find_method-All P key method ((k, x) ∷ m) h e =
    let rest = find_method-All P key method m h.1 in
    elim (Bool-cases (k == key)) [
      | inl hit ↦
          let same : k ≡ key = ground (arith, hit) in
          let which : x ≡ method = ground (arith, e, hit) in
          subst (λ a. P (a, method)) same (subst (λ b. P (k, b)) which h.0)
      | inr miss ↦ rest (ground (arith, e, miss))
    ]

insert_method-All :
    (P : ℕ × Method → Type 0) (key : ℕ) (method : Method) (m : List (ℕ × Method))
    → All P m
    → P (key, method)
    → All P (insert_method key method m)
unfolding insert_method
insert_method-All P key method m h p = go (find_method key m) refl
  where
    go : (o : Option Method) → find_method key m ≡ o → All P (insert_method key method m)
    go none e = rw (e, insert_method) (p, h)
    go (some x) e = rw (e, insert_method) h

-- The map of a session that has given out one more number.
later :
    (s : Session) (m : List (ℕ × Method))
    → s.seq + 1 < 4294967296
    → All (Logged s) m
    → All (Logged (record s { seq = (s.seq + 1) % 4294967296 })) m
later s m w h = All-map m (λ entry l. (omega (arith, l.0, w), l.1, l.2)) h

-- A request may be sent that is not a PLAY in the first state.
abbrev pub MaySend : Session → Method → Type 0
MaySend s method = IsSent method × ((s.status ≡ status_init) → ¬ (method ≡ play_method))

pub on_some-Keeps {ℓ} :
    {A : Type ℓ} (o : Option A) {b : Option Result} {f : A → Option Result}
    → Keeps b
    → ((a : A) → o ≡ some a → Keeps (f a))
    → Keeps (on_some o b f)
on_some-Keeps none h k = h
on_some-Keeps (some a) h k = k a refl

pub if-Keeps :
    (b : Bool) {x y : Option Result}
    → (b ≡ true → Keeps x)
    → (b ≡ false → Keeps y)
    → Keeps (if b then x else y)
if-Keeps true h k = h refl
if-Keeps false h k = k refl

pub then-Keeps :
    (x : Option Result) {f : Result → Option Result}
    → Keeps x
    → ((r : Result) → IsValid r.session → Keeps (f r))
    → Keeps (on_some x none f)
then-Keeps none h k = undefined
then-Keeps (some r) (leaves h) k = k r h

pub send_rtsp_req-Keeps :
    (o : Outside) (s : Session) (service : RtspService) (method : Method) (uri transport : List ℕ)
    (session_id : ℕ)
    → IsValid s
    → s.seq + 1 < 4294967296
    → MaySend s method
    → Keeps (send_rtsp_req o s service method uri transport session_id)
unfolding send_rtsp_req
send_rtsp_req-Keeps o s service method uri transport session_id v w p =
    on_some-Keeps (authorization o s method (request_url s.url uri)) (leaves v) λ digest _.
      on_some-Keeps
        (generate_rtsp_req o.print_double
          (request_message s method (request_url s.url uri) transport digest session_id))
        undefined
        λ generated _.
          if-Keeps (not (is_ok generated.0)) (λ _. leaves v)
            λ _. leaves (record {
              logged =
                  insert_method-All _ s.seq method s.seq_method_map
                    (later s s.seq_method_map w v.logged) (omega (arith, w), p.0, p.1);
              active = v.active;
              tries = v.tries;
            })

-- Whatever state has the same log and status is as valid.
pub record Same (s t : Session) : Type 0 where
  pub seq : t.seq ≡ s.seq
  pub map : t.seq_method_map ≡ s.seq_method_map
  pub status : t.status ≡ s.status
  pub tries : t.authen_time ≡ s.authen_time

pub Same-IsValid : (s t : Session) → Same s t → IsValid s → IsValid t
Same-IsValid s t e v = record {
  logged = rw e.map (All-map s.seq_method_map (λ entry l. rw (e.seq, e.status) l) v.logged);
  active = rw e.status v.active;
  tries = rw e.tries v.tries;
}

-- A session with the same log, status and number of tries.
pub alike :
    (s t : Session)
    → t.seq ≡ s.seq
    → t.seq_method_map ≡ s.seq_method_map
    → t.status ≡ s.status
    → t.authen_time ≡ s.authen_time
    → IsValid s
    → IsValid t
alike s t seq map status tries v =
    Same-IsValid s t (record { seq = seq; map = map; status = status; tries = tries }) v

pub place_handles-Same :
    (s t : Session) (kind : MediaKind) (rtp rtcp : UdpHandle)
    → place_handles s kind rtp rtcp ≡ some t
    → Same s t
place_handles-Same s t video_media rtp rtcp e = record {
  seq = ground arith;
  map = ground arith;
  status = ground arith;
  tries = ground arith;
}
place_handles-Same s t audio_media rtp rtcp e = record {
  seq = ground arith;
  map = ground arith;
  status = ground arith;
  tries = ground arith;
}
place_handles-Same s t other_media rtp rtcp e = cc

pub may_set_up : (s : Session) → MaySend s setup_method
may_set_up s = (sends_setup, λ _ e. cc)
