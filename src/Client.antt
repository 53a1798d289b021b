-- ===== src/Client.antt =====
-- mk_client_connection.cpp and libMediaService.h: what a client hands to the application.
use lib_media_service.Common.{
  ℕ, ◌/◌, ◌%◌, Bool, false, not, ◌&&◌, ◌||◌, List, [], ◌∷◌, leb, ◌==◌, if◌then◌else◌, byte_at,
}

-- MR_MEDIA_TYPE.
pub data MediaType : Type 0 where
  h264 h265 g711a g711u raw_data invalid : MediaType

-- MR_MEDIA_CODE.
pub data MediaCode : Type 0 where
  code_ok memory_oom code_max : MediaCode

-- MEDIA_DATA_INFO.
pub record MediaDataInfo : Type 0 where
  pub type : MediaType
  pub code : MediaCode
  pub is_key_frame : Bool
  pub pts : ℕ

-- MR_CLIENT_STATUS.
pub data ClientStatus : Type 0 where
  connected handshake running teardown timed_out status_max : ClientStatus

-- A call of m_cb_data: the information, the first `len` bytes of the buffer, and `len`.
pub record MediaData : Type 0 where
  pub info : MediaDataInfo
  pub bytes : List ℕ

-- MEDIA_CALL_BACK: whether the table and its m_cb_status are set, which is what the source tests
-- before each of the three calls, whether m_cb_buffer gives a buffer when asked for `len` bytes, and
-- how many bytes the buffer has that it gives then.
pub record MediaCallBack : Type 0 where
  pub registered : Bool
  pub gives_buffer : ℕ → Bool
  pub buffer_size : ℕ → ℕ

-- mk_client_connection: m_ulIndex, m_strurl, m_bSendRtcp, m_enStatus, the callback table, and
-- m_bRegister of the check timer.
pub record ClientConnection : Type 0 where
  pub index : ℕ
  pub url : List ℕ
  pub send_rtcp : Bool
  pub status : ClientStatus
  pub call_back : MediaCallBack
  pub timer_registered : Bool

-- The constructor. m_ClientCallBack is not initialised there: create_client sets it before the
-- client is handed out, to the table given here.
abbrev pub new_client_connection : MediaCallBack → ClientConnection
new_client_connection cb = record {
  index = 0;
  url = [];
  send_rtcp = false;
  status = status_max;
  call_back = cb;
  timer_registered = false;
}

unfoldable pub set_index : ClientConnection → ℕ → ClientConnection
set_index c idx = record c { index = idx }

unfoldable pub set_status_callback : ClientConnection → MediaCallBack → ClientConnection
set_status_callback c cb = record c { call_back = cb }

unfoldable pub set_url : ClientConnection → List ℕ → ClientConnection
set_url c url = record c { url = url }

unfoldable pub set_client_send_rtcp : ClientConnection → Bool → ClientConnection
set_client_send_rtcp c bsend = record c { send_rtcp = bsend }

-- handle_connection_status: the state, and the calls of m_cb_status.
unfoldable pub handle_connection_status :
    ClientConnection → ClientStatus → ClientConnection × List ClientStatus
handle_connection_status c status =
    let c' = record c { status = status } in
    if not c.call_back.registered then (c', []) else (c', status ∷ [])

-- handle_connection_databuf: whether there is a buffer. Its bytes are counted by `buffer_size`.
unfoldable pub handle_connection_databuf : MediaCallBack → ℕ → Bool
handle_connection_databuf cb len = if not cb.registered then false else cb.gives_buffer len

-- handle_connection_media.
unfoldable pub handle_connection_media : MediaCallBack → MediaData → List MediaData
handle_connection_media cb m = if not cb.registered then [] else m ∷ []

-- parse_media_info(enType, pts, buf, dataInfo), whose caller has zeroed dataInfo. For a video it reads
-- buf[4], the first byte behind the start code: it is 0 here where the payload is empty, and nothing has
-- been written there.
unfoldable pub parse_media_info : MediaType → ℕ → List ℕ → MediaDataInfo
parse_media_info h264 pts buf =
    let nal_type = byte_at buf 4 % 32 in
    record {
      type = h264;
      code = code_ok;
      is_key_frame = nal_type == 7 || (nal_type == 8 || (nal_type == 6 || nal_type == 5));
      pts = pts / 90;
    }
parse_media_info h265 pts buf =
    let nal_type = byte_at buf 4 / 2 % 64 in
    record {
      type = h265;
      code = code_ok;
      is_key_frame = leb 16 nal_type && leb nal_type 21;
      pts = pts / 90;
    }
parse_media_info g711a pts buf = record {
  type = g711a;
  code = code_ok;
  is_key_frame = false;
  pts = pts / 8;
}
parse_media_info g711u pts buf = record {
  type = g711u;
  code = code_ok;
  is_key_frame = false;
  pts = pts / 8;
}
parse_media_info raw_data pts buf = record {
  type = raw_data;
  code = code_ok;
  is_key_frame = false;
  pts = pts;
}
parse_media_info invalid pts buf = record {
  type = invalid;
  code = code_ok;
  is_key_frame = false;
  pts = pts;
}
