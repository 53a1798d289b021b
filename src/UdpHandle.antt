-- ===== src/UdpHandle.antt =====
-- rtsp/mk_rtsp_udp_handle.cpp and .h: a UDP socket of a port pair, which hands what it receives to
-- its observer. The network service (regUdpSocket, removeUdpSocket, recv) is not in the repository:
-- its answers are arguments.
use lib_media_service.Common.{
  ℕ, ◌%◌, Bool, true, false, u16_mod, Status, ok, fail, is_ok, if◌then◌else◌,
}

-- MK_RTSP_HANDLE_TYPE.
pub data HandleType : Type 0 where
  video_rtp video_rtcp audio_rtp audio_rtcp type_max : HandleType

-- m_enType, m_ulIdx, m_usPort, whether m_RtpObserver is set, and m_bRunning.
pub record UdpHandle : Type 0 where
  pub type : HandleType
  pub index : ℕ
  pub port : ℕ
  pub observer : Bool
  pub running : Bool

-- The constructor, then init(idx, port), whose port is a uint16_t.
abbrev pub new_udp_handle : UdpHandle
new_udp_handle = record { type = type_max; index = 0; port = 0; observer = false; running = false }

unfoldable pub init : UdpHandle → ℕ → ℕ → UdpHandle
init h idx port = record h { index = idx; port = port % u16_mod }

-- start_handle(type, pObserver): `registered` is the answer of regUdpSocket.
unfoldable pub start_handle : UdpHandle → HandleType → Bool → Status → Status × UdpHandle
start_handle h type observer registered =
    let h' = record h { type = type; observer = observer } in
    if is_ok registered then (ok, h') else (fail, h')

-- stop_handle(): the flag says whether removeUdpSocket is called.
unfoldable pub stop_handle : UdpHandle → UdpHandle × Bool
stop_handle h = if h.running then (record h { running = false }, true) else (h, false)
