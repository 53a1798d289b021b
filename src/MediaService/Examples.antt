-- ===== src/MediaService/Examples.antt =====
-- A service for two clients, for mk_media_service.cpp.
use mathlib.Core.Bool.{true, false}
use lib_media_service.Common.{
  ℕ, ◌+◌, ◌≡◌, refl, ◌↔◌, none, some, List, [], ◌∷◌, length, count, codes, ok,
}
use lib_media_service.Client.{
  MediaCallBack, ClientConnection, new_client_connection, set_index, set_status_callback, set_url,
}
use lib_media_service.RtspService.{RtspService, new_rtsp_service}
use lib_media_service.RtspService
use lib_media_service.MediaService.{
  MediaService, Platform, rtsp_connection, init, new_media_service, network_loop, index_loop,
  create_client, destory_client, kind_of_url,
}
use lib_media_service.MediaService.Clients.{
  World, Reaches, here, step, creates, destroys, IsReady, no_clients, clients-Own,
  create_client-full_iff,
}
use lib_media_service.MediaService.View.{Promise, identifiers, Step-Promise}

abbrev granting : Platform
granting = record {
  mutex = true;
  array = true;
  network = λ i. some i;
  network_init = λ _. ok;
  network_run = λ _. ok;
  timer_init = ok;
  timer_run = ok;
  rtsp_mutex = true;
  rtp_bufs = λ i. some i;
  udp_pairs = λ _. true;
}

abbrev two_ports : RtspService
two_ports = record new_rtsp_service { udp_pair_count = 2 }

abbrev for_two : MediaService
for_two = record new_media_service {
  evn_count = 1;
  network_array = some 0 ∷ [];
  client_free_list = 0 ∷ 1 ∷ [];
}

for_two-IsReady : IsReady for_two 2
unfolding init network_loop index_loop RtspService.init RtspService.create_rtp_recv_bufs
    RtspService.create_rtp_rtcp_udp_pairs RtspService.create_bufs_loop RtspService.create_pairs_loop
for_two-IsReady = record {
  platform = granting;
  rtsp = two_ports;
  rtsp' = (init granting new_media_service two_ports 1 2 1).2;
  evn_count = 1;
  per_client = 1;
  succeeds = refl;
}

abbrev unregistered : MediaCallBack
unregistered = record { registered = false; gives_buffer = λ _. false; buffer_size = λ n. n + 4 }

abbrev url : List ℕ
url = codes "rtsp://10.0.0.1/live"

abbrev client : ℕ → ClientConnection
client i = record (new_client_connection unregistered) { index = i; url = url }

-- Two clients are created and the first is destroyed.
abbrev one_left : World
one_left = record {
  service = record for_two { client_free_list = 0 ∷ [] };
  clients = (rtsp_connection, client 1) ∷ [];
}

one_left-Reaches : Reaches (no_clients for_two) one_left
unfolding create_client kind_of_url set_index set_status_callback set_url destory_client
one_left-Reaches =
    step
      (step (step here (creates true url unregistered (rtsp_connection, client 0) refl))
        (creates true url unregistered (rtsp_connection, client 1) refl))
      (destroys ((rtsp_connection, client 1) ∷ []) [] (rtsp_connection, client 0))

clients-Own_example : count 1 (0 ∷ []) + count 1 (1 ∷ []) ≡ 1
clients-Own_example = clients-Own for_two 2 one_left for_two-IsReady one_left-Reaches 1

create_client-full_iff_example :
    ((create_client true one_left.service url unregistered).0 ≡ none)
    ↔ (length one_left.clients ≡ 2)
unfolding kind_of_url
create_client-full_iff_example =
    create_client-full_iff for_two 2 one_left url unregistered rtsp_connection for_two-IsReady
      one_left-Reaches refl

Step-Promise_example : Promise (identifiers one_left) (identifiers (no_clients for_two))
unfolding destory_client
Step-Promise_example =
    Step-Promise (destroys {s = one_left.service} [] [] (rtsp_connection, client 1))
