-- ===== src/MediaService/Clients.antt =====
-- create_client and destory_client of mk_media_service.cpp: the service together with the clients
-- that the application holds, over any sequence of calls.
use mathlib.Core.List.{map-append}
use lib_media_service.Common.{
  ℕ, zero, suc, ◌+◌, ◌≡◌, refl, ap, ◌∙◌, ◌↔◌, inl, inr, Bool, true, none, some, List, [], ◌∷◌, ◌++◌,
  map, arith, length, length-append, count, count-append, leb, ltb, ◌&&◌, set, replicate,
  Option-cases, if◌then◌else◌, ok,
}
use lib_media_service.Client.{
  MediaCallBack, ClientConnection, set_index, set_status_callback, set_url,
}
use lib_media_service.RtspService.{RtspService}
use lib_media_service.MediaService.{
  MediaService, Platform, ClientKind, index_loop, network_loop, init, new_media_service,
  kind_of_url, create_client, destory_client,
}

abbrev pub Client : Type 0
Client = ClientKind × ClientConnection

-- The service, and the clients created and not destroyed, newest first.
pub record World : Type 0 where
  pub service : MediaService
  pub clients : List Client

abbrev pub indices : List Client → List ℕ
indices = map λ c. c.1.index

-- A call by the application, which destroys only a client that it holds.
pub data Step : World → World → Type 0 where
  creates :
      {s s' : MediaService} {clients : List Client} (alloc : Bool) (url : List ℕ)
      (cb : MediaCallBack) (c : Client)
      → create_client alloc s url cb ≡ (some c, s')
      → Step
          (record { service = s; clients = clients })
          (record { service = s'; clients = c ∷ clients })
  refuses :
      {s s' : MediaService} {clients : List Client} (alloc : Bool) (url : List ℕ)
      (cb : MediaCallBack)
      → create_client alloc s url cb ≡ (none, s')
      → Step
          (record { service = s; clients = clients })
          (record { service = s'; clients = clients })
  destroys :
      {s : MediaService} (front back : List Client) (c : Client)
      → Step
          (record { service = s; clients = front ++ (c ∷ back) })
          (record { service = destory_client s (some c.1); clients = front ++ back })

pub data Reaches (w : World) : World → Type 0 where
  here : Reaches w w
  step : {v u : World} → Reaches w v → Step v u → Reaches w u

-- A client that is created has the first free index, and the other free ones stay.
pub created-front :
    (alloc : Bool) (s s' : MediaService) (url : List ℕ) (cb : MediaCallBack) (c : Client)
    → create_client alloc s url cb ≡ (some c, s')
    → s.client_free_list ≡ c.1.index ∷ s'.client_free_list
unfolding create_client set_index set_status_callback set_url
created-front alloc s s' url cb c e = ground arith

-- A refused call changes nothing.
pub refused-same :
    (alloc : Bool) (s s' : MediaService) (url : List ℕ) (cb : MediaCallBack)
    → create_client alloc s url cb ≡ (none, s')
    → s' ≡ s
unfolding create_client
refused-same alloc s s' url cb e = ground arith

-- Index `i` is free or some client's, once.
abbrev held : World → ℕ → ℕ
held w i = count i w.service.client_free_list + count i (indices w.clients)

held-Step : {v w : World} → Step v w → (i : ℕ) → held w i ≡ held v i
unfolding destory_client
held-Step (creates {s} {s'} {clients} alloc url cb c e) i =
    rw (created-front alloc s s' url cb c e) (omega arith)
held-Step (refuses {s} {s'} {clients} alloc url cb e) i = rw (refused-same alloc s s' url cb e) refl
held-Step (destroys {s} front back c) i =
    let index : Client → ℕ = λ d. d.1.index in
    rw (map-append index front back, map-append index front (c ∷ back))
      (omega (
        arith,
        count-append i s.client_free_list (c.1.index ∷ []),
        count-append i (map index front) (map index back),
        count-append i (map index front) (c.1.index ∷ map index back),
      ))

pub held-Reaches : {v w : World} → Reaches v w → (i : ℕ) → held w i ≡ held v i
held-Reaches here i = refl
held-Reaches (step r s) i = held-Step s i ∙ held-Reaches r i

-- The free indices and the clients are as many as before.
total : World → ℕ
total w = length w.service.client_free_list + length w.clients

total-Step : {v w : World} → Step v w → total w ≡ total v
unfolding total destory_client
total-Step (creates {s} {s'} {clients} alloc url cb c e) =
    rw (created-front alloc s s' url cb c e) (omega arith)
total-Step (refuses {s} {s'} {clients} alloc url cb e) = rw (refused-same alloc s s' url cb e) refl
total-Step (destroys {s} front back c) = omega (
  arith,
  length-append s.client_free_list (c.1.index ∷ []),
  length-append front back,
  length-append front (c ∷ back),
)

total-Reaches : {v w : World} → Reaches v w → total w ≡ total v
total-Reaches here = refl
total-Reaches (step r s) = total-Step s ∙ total-Reaches r

abbrev among : ℕ → ℕ → ℕ → ℕ
among i k n = if leb k i && ltb i (k + n) then 1 else 0

count-index_loop :
    (i n k : ℕ) (free : List ℕ) → count i (index_loop n k free) ≡ count i free + among i k n
unfolding index_loop
count-index_loop i zero k free = ground arith
count-index_loop i (suc n) k free =
    let rest = count-index_loop i n (k + 1) (free ++ (k ∷ [])) in
    let snoc = count-append i free (k ∷ []) in ground (arith, rest, snoc)

length-index_loop : (n k : ℕ) (free : List ℕ) → length (index_loop n k free) ≡ length free + n
unfolding index_loop
length-index_loop zero k free = omega arith
length-index_loop (suc n) k free =
    omega (arith, length-index_loop n (k + 1) (free ++ (k ∷ [])), length-append free (k ∷ []))

network_loop-keeps :
    (p : Platform) (n i : ℕ) (s : MediaService)
    → (network_loop p n i s).1.client_free_list ≡ s.client_free_list
unfolding network_loop
network_loop-keeps p zero i s = refl
network_loop-keeps p (suc n) i s =
    let placed = λ (a : ℕ). record s { network_array = set s.network_array i (some a) } in
    elim (Option-cases (p.network i)) [
      | inl e ↦ rw (e, network_loop) refl
      | inr (a, e) ↦
          let rest = network_loop-keeps p n (i + 1) (placed a) in
          rw (e, network_loop) (ground (arith, rest))
    ]

-- A service that init set up has the indices below MaxClient.
pub init-free :
    (p : Platform) (rtsp rtsp' : RtspService) (s : MediaService) (evn_count clients per_client : ℕ)
    → init p new_media_service rtsp evn_count clients per_client ≡ (ok, s, rtsp')
    → s.client_free_list ≡ index_loop clients 0 []
unfolding init
init-free p rtsp rtsp' s evn_count clients per_client e =
    let start : MediaService = record new_media_service {
      evn_count = evn_count;
      network_array = replicate evn_count none;
    } in
    ground (arith, network_loop-keeps p evn_count 0 start)

-- The service as init of a new object left it, with no client yet.
pub record IsReady (s : MediaService) (clients : ℕ) : Type 0 where
  pub platform : Platform
  pub rtsp : RtspService
  pub rtsp' : RtspService
  pub evn_count : ℕ
  pub per_client : ℕ
  pub succeeds : init platform new_media_service rtsp evn_count clients per_client ≡ (ok, s, rtsp')

abbrev pub no_clients : MediaService → World
no_clients s = record { service = s; clients = [] }

-- From an init that returns OK on, whatever clients are created and destroyed, each index below
-- MaxClient is free or the index of one client, only one of them and once, and no other index is
-- free or a client's.
pub clients-Own :
    (s : MediaService) (clients : ℕ) (w : World)
    → IsReady s clients
    → Reaches (no_clients s) w
    → (i : ℕ)
    → count i w.service.client_free_list + count i (indices w.clients)
      ≡ (if ltb i clients then 1 else 0)
clients-Own s clients w h r i =
    let ready = init-free h.platform h.rtsp h.rtsp' s h.evn_count clients h.per_client h.succeeds in
    let begin = ap (count i) ready ∙ count-index_loop i clients 0 [] in
    let all = held-Reaches r i in ground (arith, begin, all)

refuses_iff :
    (s : MediaService) (url : List ℕ) (cb : MediaCallBack) (kind : ClientKind)
    → kind_of_url url ≡ some kind
    → ((create_client true s url cb).0 ≡ none) ↔ (length s.client_free_list ≡ 0)
unfolding create_client
refuses_iff s url cb kind k = ground arith

-- In such a service create_client with an RTSP or RTMP URL and enough memory returns NULL exactly
-- when as many clients as MaxClient are in use.
pub create_client-full_iff :
    (s : MediaService) (clients : ℕ) (w : World) (url : List ℕ) (cb : MediaCallBack)
    (kind : ClientKind)
    → IsReady s clients
    → Reaches (no_clients s) w
    → kind_of_url url ≡ some kind
    → ((create_client true w.service url cb).0 ≡ none) ↔ (length w.clients ≡ clients)
unfolding total
create_client-full_iff s clients w url cb kind h r k =
    let ready = init-free h.platform h.rtsp h.rtsp' s h.evn_count clients h.per_client h.succeeds in
    let begin = ap length ready ∙ length-index_loop clients 0 [] in
    let all = total-Reaches r in
    let empty = refuses_iff w.service url cb kind k in
    (λ e. omega (arith, begin, all, empty.0 e), λ e. empty.1 (omega (arith, begin, all)))
