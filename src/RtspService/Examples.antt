-- ===== src/RtspService/Examples.antt =====
-- A service with two port pairs, for rtsp/mk_rtsp_service.cpp.
use lib_media_service.Common.{ℕ, ◌+◌, ◌*◌, ◌<◌, ◌≡◌, refl, true, none, arith, some, [], ◌∷◌, ok}
use lib_media_service.RtspService.{
  RtspService, new_rtsp_service, elem_at, create_rtp_rtcp_udp_pairs,
}
use lib_media_service.RtspService
use lib_media_service.RtspService.Release.{release-overruns}
use lib_media_service.RtspService.Pairs.{idle, create_rtp_rtcp_udp_pairs-ports}

abbrev four_ports : RtspService
four_ports = record new_rtsp_service { udp_pair_count = 4 }

create_rtp_rtcp_udp_pairs-ports_example :
    (t : RtspService) × (create_rtp_rtcp_udp_pairs (λ _. true) four_ports ≡ (ok, t))
    × (t.rtp_rtcp_free_list ≡ 0 ∷ 1 ∷ [])
    × ((j : ℕ)
        → j < 2
        → (elem_at t.udp_rtp_array j ≡ some (idle j (10000 + 2 * j)))
          × (elem_at t.udp_rtcp_array j ≡ some (idle j (10000 + 1 + 2 * j))))
create_rtp_rtcp_udp_pairs-ports_example = create_rtp_rtcp_udp_pairs-ports four_ports refl

release-overruns_example :
    RtspService.release (λ _. true) (create_rtp_rtcp_udp_pairs (λ _. true) four_ports).1 ≡ none
unfolding create_rtp_rtcp_udp_pairs RtspService.create_pairs_loop
release-overruns_example =
    release-overruns (λ _. true) four_ports (create_rtp_rtcp_udp_pairs (λ _. true) four_ports).1
      refl (omega arith)
