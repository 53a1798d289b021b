-- ===== src/Rtmp.antt =====
-- rtmp/mk_rtmp_connection.cpp: a client that plays over RTMP. The calls of librtmp (srs_rtmp_* and
-- srs_utils_*) and of the network are of other projects: their answers are arguments. A handle of librtmp
-- is a number.
pub mod Handles
pub mod Packets
mod Examples
use lib_media_service.Common.{
  ℕ, ◌-◌, Bool, true, false, Option, none, some, List, [], ◌∷◌, ◌++◌, ltb, ◌==◌, if◌then◌else◌,
  on_some, length, Status, ok, fail, timeout, is_ok,
}
use lib_media_service.Client.{
  MediaType, h264, g711a, g711u, MediaData, MediaCallBack, ClientStatus, connected, handshake,
  running, timed_out, ClientConnection, new_client_connection, handle_connection_status,
  handle_connection_databuf, handle_connection_media, parse_media_info,
}

-- mk_rtmp_connection: m_rtmpHandle is `none` for NULL.
pub record Rtmp : Type 0 where
  pub client : ClientConnection
  pub handle : Option ℕ
  pub last_recv : ℕ

-- The constructor, at the time `now`.
unfoldable pub new_rtmp : MediaCallBack → ℕ → Rtmp
new_rtmp cb now = record { client = new_client_connection cb; handle = none; last_recv = now }

-- The calls that make and end a handle.
pub data HandleCall : Type 0 where
  created destroyed : ℕ → HandleCall

-- What start meets: srs_rtmp_create, srs_rtmp_connect_app, srs_rtmp_play_stream, srs_rtmp_get_socket,
-- regTcpMonitorClient, and the time.
pub record Opening : Type 0 where
  pub create : Option ℕ
  pub connect_app : Status
  pub play_stream : Status
  pub socket : Option ℕ
  pub register : Status
  pub time : ℕ

-- What an operation leaves: its code, the connection, the calls of librtmp, and the states reported.
pub record Result : Type 0 where
  pub code : Status
  pub rtmp : Rtmp
  pub calls : List HandleCall
  pub reported : List ClientStatus

-- srs_rtmp_destroy if there is a handle.
unfoldable pub destroy_handle : Rtmp → Rtmp × List HandleCall
destroy_handle r = (record r { handle = none }, on_some r.handle [] λ h. destroyed h ∷ [])

-- A stage of start that failed.
unfoldable pub close : Result → Result
unfolding destroy_handle
close r =
    let (rtmp, calls) = destroy_handle r.rtmp in
    record r { code = fail; rtmp = rtmp; calls = r.calls ++ calls }

-- A state that start reports.
unfoldable pub report : ClientStatus → Result → Result
unfolding handle_connection_status
report status r =
    let (client, reported) = handle_connection_status r.rtmp.client status in
    record r { rtmp = record r.rtmp { client = client }; reported = r.reported ++ reported }

-- A call of start that must succeed: `next` if it does.
unfoldable pub stage : Bool → Result → Result → Result
unfolding close
stage true r next = next
stage false r next = close r

-- start: from RUNNING on, from HANDSHAKE on, from the handle on, and all of it.
unfoldable pub register_client : Opening → Result → Result
unfolding stage
register_client o r = stage (on_some o.socket false λ _. true) r (
    stage (is_ok o.register) r
      (record r { code = ok; rtmp = record r.rtmp { last_recv = o.time } }))

unfoldable pub play : Opening → Result → Result
unfolding register_client report
play o r = stage (is_ok o.play_stream) r (register_client o (report running r))

unfoldable pub open_handle : Opening → Option ℕ → Rtmp → Result
unfolding play
open_handle o none r = record {
  code = fail;
  rtmp = record r { handle = none };
  calls = [];
  reported = [];
}
open_handle o (some h) r =
    let made : Result = record {
      code = fail;
      rtmp = record r { handle = some h };
      calls = created h ∷ [];
      reported = [];
    } in
    let opened = report connected made in
    stage (is_ok o.connect_app) opened (play o (report handshake opened))

unfoldable pub start : Opening → Rtmp → Result
unfolding open_handle
start o r = open_handle o o.create r

-- stop, behind removeTcpClient; the destructor does the same.
unfoldable pub stop : Rtmp → Rtmp × List HandleCall
unfolding destroy_handle
stop r = destroy_handle r

-- recv_next.
unfoldable pub recv_next : Rtmp → ℕ → Rtmp
recv_next r now = record r { last_recv = now }

-- check_client: MK_CLIENT_RECV_TIMEOUT is 20 seconds. The times are
-- time_t: a clock set back is no timeout.
unfoldable pub check_client : Rtmp → ℕ → Status × Rtmp × List ClientStatus
unfolding handle_connection_status
check_client r now =
    let (client, reported) = handle_connection_status r.client timed_out in
    if ltb 20 (now - r.last_recv)
    then (timeout, record r { client = client }, reported)
    else (ok, r, [])

-- A packet of srs_rtmp_read_packet, which the caller frees: its type and bytes, and what librtmp says of
-- it: srs_utils_parse_timestamp, srs_utils_flv_video_codec_id and srs_utils_flv_audio_sound_format.
pub record Packet : Type 0 where
  pub is_video : Bool
  pub bytes : List ℕ
  pub pts : Option ℕ
  pub video_codec_id : ℕ
  pub sound_format : ℕ

-- The media that are handed over: AVC, G.711 A and G.711 u.
unfoldable pub media_type : Packet → Option MediaType
media_type p =
    if p.is_video
    then (if p.video_codec_id == 7 then some h264 else none)
    else if p.sound_format == 7
    then some g711a
    else if p.sound_format == 8
    then some g711u
    else none

-- What handle_recv leaves: the connection, whether the packet was freed, whether the application gave a
-- buffer, and the media that it was given.
pub record Received : Type 0 where
  pub rtmp : Rtmp
  pub freed : Bool
  pub took_buffer : Bool
  pub media : List MediaData

-- A packet that stays where it is: librtmp's memory is not freed, and a buffer is not given back.
abbrev pub kept : Rtmp → Bool → Received
kept r took_buffer = record { rtmp = r; freed = false; took_buffer = took_buffer; media = [] }

-- handle_recv of a packet, at the time `now`: from its type on, from its time on, and all of it. The
-- application is asked for its buffer before the type is known.
unfoldable pub hand_over : Rtmp → ℕ → Packet → ℕ → Option MediaType → Received
unfolding handle_connection_media
hand_over r now p pts none = kept r true
hand_over r now p pts (some type) = record {
  rtmp = record r { last_recv = now };
  freed = true;
  took_buffer = true;
  media =
      handle_connection_media r.client.call_back
        (record { info = parse_media_info type pts p.bytes; bytes = p.bytes });
}

unfoldable pub read_packet : Rtmp → ℕ → Packet → Option ℕ → Received
unfolding hand_over media_type handle_connection_databuf
read_packet r now p none = kept r false
read_packet r now p (some pts) =
    if handle_connection_databuf r.client.call_back (length p.bytes)
    then hand_over r now p pts (media_type p)
    else kept r false

unfoldable pub handle_recv : Rtmp → ℕ → Option Packet → Received
unfolding read_packet
handle_recv r now none = kept r false
handle_recv r now (some p) = on_some r.handle (kept r false) λ h. read_packet r now p p.pts
