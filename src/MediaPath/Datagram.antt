-- ===== src/MediaPath/Datagram.antt =====
-- handle_recv of rtsp/mk_rtsp_udp_handle.cpp, of a handle that has been started.
use lib_media_service.Common.{
  ℕ, ◌≡◌, Bool, Option, some, List, [], Bool-cases, inl, inr, Status, ok, is_ok,
}
use lib_media_service.UdpHandle.{HandleType, new_udp_handle, init, start_handle}
use lib_media_service.RtspService.{RtspService}
use lib_media_service.MediaPath.{MediaPath, udp_handle_recv}

-- A handle is started, whatever regUdpSocket answers, with m_bRunning false as the constructor left it:
-- handle_recv of such a handle drops every datagram and changes nothing.
pub udp_handle_recv-started :
    (index port : ℕ) (type : HandleType) (observer : Bool) (registered : Status)
    (memory : ℕ → List ℕ) (c : MediaPath) (s : RtspService) (received : Option (List ℕ))
    → let h = (start_handle (init new_udp_handle index port) type observer registered).1 in
      udp_handle_recv h memory c s received
      ≡ some (record { code = ok; path = c; service = s; media = [] })
unfolding start_handle init udp_handle_recv
udp_handle_recv-started index port type observer registered memory c s received =
    elim (Bool-cases (is_ok registered)) [ inl good ↦ rw good | inr bad ↦ rw bad ]
