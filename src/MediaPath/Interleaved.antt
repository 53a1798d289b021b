-- ===== src/MediaPath/Interleaved.antt =====
-- handleRTPRTCPData of rtsp/mk_rtsp_connection.cpp: what it takes from the stream, and that no
-- receive buffer is lost or freed twice on any of its paths.
use mathlib.Core.Path.{subst}
use lib_media_service.Common.{
  ltb-cases, ◌⊎◌, ℕ, ◌+◌, ◌-◌, ◌≤◌, ◌<◌, ◌≡◌, refl, sym, Option, none, some, List, [], ◌∷◌, arith,
  count, length, ◌==◌, inl, inr, byte_at, net16,
}
use lib_media_service.UdpHandle.{video_rtp, audio_rtp}
use lib_media_service.RtspService.{RtspService, get_rtp_recv_buf}
use lib_media_service.Organizer.Frames.{Block}
use lib_media_service.Organizer.Invariant.{IsValid, Admits}
use lib_media_service.Depacketizer.{◌>>=◌}
use lib_media_service.MediaPath.Balance.{
  owned, Settles, SettlesIf, settled, if-Settles, freed-Settles, count-free_rtp_recv_buf,
  handle_rtp_packet-SettlesIf,
}
use lib_media_service.MediaPath.{
  MediaPath, Outcome, Received, Used, used, broken, free_refused, dispatch_channel,
  handle_rtcp_packet, handle_rtp_rtcp_data,
}

-- After the caller has freed a refused packet the buffer is back in any case.
pub free_refused-balance :
    (c : MediaPath) (s : RtspService) (block : Block) (r : Outcome) (a : ℕ)
    → Settles c s block r
    → owned a (free_refused block r).path (free_refused block r).service
      ≡ count a (block.address ∷ []) + owned a c s
unfolding free_refused
free_refused-balance c s block r a h =
    ground (arith, h.balance a, count-free_rtp_recv_buf a r.service block.address)

pub free_refused-path : (block : Block) (r : Outcome) → (free_refused block r).path ≡ r.path
unfolding free_refused
free_refused-path block r = ground arith

pub handle_rtcp_packet-SettlesIf :
    (c : MediaPath) (s : RtspService) (block : Block)
    → IsValid c.organizer
    → SettlesIf c s block (handle_rtcp_packet c s block)
unfolding handle_rtcp_packet
handle_rtcp_packet-SettlesIf c s block v = settled (freed-Settles c s block [] v)

dispatch_channel-SettlesIf :
    (c : MediaPath) (s : RtspService) (channel : ℕ) (block : Block) (len : ℕ)
    → Admits c.organizer
    → SettlesIf c s block (dispatch_channel c s channel block len)
unfolding dispatch_channel
dispatch_channel-SettlesIf c s channel block len v =
    let rtcp = handle_rtcp_packet-SettlesIf c s block v.valid in
    if-Settles c s block (channel == 0) _ _ (handle_rtp_packet-SettlesIf c s video_rtp block len v)
      (if-Settles c s block (channel == 2) _ _
        (handle_rtp_packet-SettlesIf c s audio_rtp block len v)
        (if-Settles c s block (channel == 1) _ _ rtcp
          (if-Settles c s block (channel == 3) _ _ rtcp rtcp)))

-- A buffer taken from the pool, if it has one.
abbrev pub TakesBuf : RtspService → Type 0
TakesBuf s =
    (((get_rtp_recv_buf s).0 ≡ none)
      × ((a : ℕ) → count a s.rtp_recv_buf_list ≡ count a (get_rtp_recv_buf s).1.rtp_recv_buf_list))
    ⊎ ((b : ℕ) × ((get_rtp_recv_buf s).0 ≡ some b)
        × ((a : ℕ)
            → count a s.rtp_recv_buf_list
              ≡ count a (b ∷ []) + count a (get_rtp_recv_buf s).1.rtp_recv_buf_list))

pub get_rtp_recv_buf-TakesBuf : (s : RtspService) → TakesBuf s
unfolding get_rtp_recv_buf
get_rtp_recv_buf-TakesBuf s = go s.rtp_recv_buf_list
  where
    go : (l : List ℕ) → TakesBuf (record s { rtp_recv_buf_list = l })
    go [] = inl (refl, λ a. refl)
    go (b ∷ bs) = inr (b, refl, λ a. omega arith)

-- What the answer says of the stream.
pub data Framing (stream : List ℕ) : Used → Type 0 where
  headless : length stream < 4 → Framing stream (used 0)
  partial : 4 ≤ length stream → length stream < 4 + net16 stream 2 → Framing stream (used 0)
  oversized : 4 + net16 stream 2 ≤ length stream → 1500 < net16 stream 2 → Framing stream broken
  whole :
      4 + net16 stream 2 ≤ length stream
      → net16 stream 2 ≤ 1500
      → Framing stream (used (net16 stream 2 + 4))

-- What a call of handleRTPRTCPData leaves.
pub record Receives (c : MediaPath) (s : RtspService) (stream : List ℕ) (r : Received)
    : Type 0 where
  pub framing : Framing stream r.answer
  pub valid : IsValid r.path.organizer
  pub balance : (a : ℕ) → owned a r.path r.service ≡ owned a c s

pub data ReceivesIf (c : MediaPath) (s : RtspService) (stream : List ℕ)
    : Option Received → Type 0 where
  crash : ReceivesIf c s stream none
  received : {r : Received} → Receives c s stream r → ReceivesIf c s stream (some r)

finish :
    (c : MediaPath) (s s1 : RtspService) (stream : List ℕ) (block : Block) (o : Option Outcome)
    → Framing stream (used (net16 stream 2 + 4))
    → ((a : ℕ)
        → count a s.rtp_recv_buf_list ≡ count a (block.address ∷ []) + count a s1.rtp_recv_buf_list)
    → SettlesIf c s1 block o
    → ReceivesIf c s stream (
        o >>= λ r. some (record {
          answer = used (net16 stream 2 + 4);
          path = (free_refused block r).path;
          service = (free_refused block r).service;
          media = (free_refused block r).media;
        }))
finish c s s1 stream block none f t h = crash
finish c s s1 stream block (some r) f t (settled h) = received (record {
  framing = f;
  valid = subst (λ p. IsValid p.organizer) (sym (free_refused-path block r)) h.valid;
  balance = λ a. omega (arith, free_refused-balance c s1 block r a h, t a);
})

handle_rtp_rtcp_data-ReceivesIf :
    (memory : ℕ → List ℕ) (c : MediaPath) (s : RtspService) (stream : List ℕ)
    → Admits c.organizer
    → ReceivesIf c s stream (handle_rtp_rtcp_data memory c s stream)
unfolding handle_rtp_rtcp_data
handle_rtp_rtcp_data-ReceivesIf memory c s stream v = elim (ltb-cases (length stream) 4) [
  | inl (a, short) ↦ rw a (received (unchanged (used 0) (headless short)))
  | inr (a, headed) ↦ elim (ltb-cases (length stream - 4) (net16 stream 2)) [
    | inl (b, short) ↦ rw (a, b) (received (unchanged (used 0) (partial headed (omega arith))))
    | inr (b, full) ↦ elim (ltb-cases 1500 (net16 stream 2)) [
      | inl (d, long) ↦ rw (a, b, d) (received (unchanged broken (oversized (omega arith) long)))
      | inr (d, fits) ↦ elim (get_rtp_recv_buf-TakesBuf s) [
        | inl (e, t) ↦
            rw (a, b, d, e)
              (received (record {
                framing = whole (omega arith) fits;
                valid = v.valid;
                balance = λ a. omega (arith, t a);
              }))
        | inr (address, e, t) ↦
            rw (a, b, d, e)
              (finish c s _ stream _ _ (whole (omega arith) fits) t
                (dispatch_channel-SettlesIf c _ (byte_at stream 1) _ (net16 stream 2) v))
      ]
    ]
  ]
]
  where
    unchanged :
        (answer : Used)
        → Framing stream answer
        → Receives c s stream (record { answer = answer; path = c; service = s; media = [] })
    unchanged answer f = record { framing = f; valid = v.valid; balance = λ a. refl }

ReceivesIf-some :
    {c : MediaPath} {s : RtspService} {stream : List ℕ} (o : Option Received) (r : Received)
    → ReceivesIf c s stream o
    → o ≡ some r
    → Receives c s stream r
ReceivesIf-some none r h e = cc
ReceivesIf-some {c} {s} {stream} (some q) r (received h) e =
    subst (Receives c s stream) (ground arith) h

-- A call of handleRTPRTCPData on a connection with a valid organizer, where it returns: the answer
-- is 0 exactly if the stream has no whole packet, a failure if the packet is longer than a receive
-- buffer, and the packet's length with its header otherwise. The organizer stays valid, and each
-- buffer is in the frames or the pool as often as before: the one that the packet was copied to is
-- neither lost nor freed twice, whether the packet was accepted, refused or of an unknown channel.
pub handle_rtp_rtcp_data-Receives :
    (memory : ℕ → List ℕ) (c : MediaPath) (s : RtspService) (stream : List ℕ) (r : Received)
    → Admits c.organizer
    → handle_rtp_rtcp_data memory c s stream ≡ some r
    → Receives c s stream r
handle_rtp_rtcp_data-Receives memory c s stream r v e =
    ReceivesIf-some _ r (handle_rtp_rtcp_data-ReceivesIf memory c s stream v) e
