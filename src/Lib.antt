-- ===== src/Lib.antt =====
-- libMediaService receives media over RTSP: it sets a stream up by requests, takes the RTP
-- packets out of the connection or off a UDP socket, gathers them into frames, hands the frames
-- to the application, and reports to the server by RTCP. It also plays over RTMP and writes MP4
-- files. This library models the way from the application's start to the frames it gets, the RTMP
-- client, the writer of files, and the parser of H.264 parameter sets.
--
-- The parts, each with its file here and its file in the repository:
--   Common       numbers of 16 and 32 bits, bytes of a buffer, lists, status codes, and what the code
--                takes from the C library on texts: strstr, strtoull, atoi, the printing of numbers
--   RtpPacket    rtsp/mk_rtsp_rtp_packet.cpp: mk_rtp_packet, a view of one RTP packet in a buffer
--                (parse_packet is ParsePacket, get_* and set_* are the getters and setters)
--   UdpHandle    rtsp/mk_rtsp_udp_handle.cpp: the state of a UDP socket of a port pair
--   RtspService  rtsp/mk_rtsp_service.cpp: the pools of receive buffers and of port pairs, with init
--                and release
--   Organizer    rtsp/mk_rtsp_rtp_frame_organizer.cpp: the frames that are not complete yet; its
--                child Frames is the map of frames, and Queue the packets of one frame
--   Client       mk_client_connection.cpp: the callbacks of the application and the status it sees
--   MediaService mk_media_service.cpp: the pool of clients
--   Depacketizer rtsp/mk_rtsp_connection.cpp: from the packets of a complete frame to one buffer
--   MediaPath    rtsp/mk_rtsp_connection.cpp: handleRTPRTCPData, handle_rtp_packet; and handle_recv of
--                rtsp/mk_rtsp_udp_handle.cpp
--   RtspMessage  rtsp/mk_rtsp_packet.cpp: RTSP messages as text; its child Check is checkRtsp, which
--                finds a message in the stream, and Parse is parse (generate_rtsp_req is
--                generateRtspReq)
--   RtcpPacket   rtsp/mk_rtsp_rtcp_packet.cpp: sender and receiver reports
--   Session      rtsp/mk_rtsp_connection.cpp: the requests of a client, the log of those sent, and the
--                state machine that their answers drive; its child Setup sends SETUP, Response takes
--                answers, Lifecycle has start, stop and the check timer
--   Sdp          rtsp/mk_media_sdp.cpp: the description of the media, and described, what Session takes of
--                one; its child Decode is decodeSdp, Encode prints the answer to a request for audio,
--                and Added adds media
--   Reception    rtsp/mk_rtsp_connection.cpp: handle_recv and processRecvedMessage, which cut the
--                stream of the connection into packets for MediaPath and messages for Session
--   Rtmp         rtmp/mk_rtmp_connection.cpp: a client that plays over RTMP by librtmp
--   MovWriter    mk_mov_file_writer.cpp: frames written to an MP4 file by libmov
--   Nal          mk_nal_sps_parse.cpp: the bit readers u, Ue and Se; its child Sps is
--                mk_h264_decode_sps
--
-- A client of MediaService is a Session for a URL of RTSP, and an Rtmp for one of RTMP. Session
-- sends OPTIONS and goes on by the answers, which Reception finds in the stream and RtspMessage
-- has parsed; once it plays, packets arrive. A packet is copied into a buffer of the service's
-- pool. MediaPath sends it to the application at once, or gives it to the organizer, which keeps
-- it until its frame is complete and then has the depacketizer join the frame. Each step returns
-- the buffer to the pool, keeps it, or leaves it to its caller.
--
-- How the code is written down: the state of an object is a record, and an operation takes the record
-- and returns the new one, with its status code and with the calls that it makes of its handler, in
-- order. A buffer is an address in the pool and the bytes that it holds. A std::map is a list in the
-- order of its keys, and a frame that is changed through a pointer is stored back under its key.
-- uint32_t arithmetic is written with its wrap, and a double is its 64 bits. `none` is undefined
-- behaviour of the source: a read past the end, a copy from outside a buffer, a write past the end
-- of the application's buffer, whose size is a field of the callbacks, an overflow of an int. A
-- length that is passed beside a receive buffer is taken to be no more than the buffer has, except
-- where a theorem says so; ParsePacket reads nothing behind it.
--
-- Bounds and fuel: most loops run over a list or a number of rounds known before. The loop of Ue
-- that counts zeros has as fuel the bits left before bit nLen * 8, where the source's loop ends
-- too. The loop of parse has one round more than the message has bytes, and each round takes a
-- line and the two bytes of its end. The loop of decodeSdp has one round more than the text has
-- characters, and that of handle_recv one more than there are bytes; each round takes one or
-- ends. The loop of write_g711_frame has a round for each byte, and takes 320. The digits of a
-- number are printed in 10 rounds for 32 bits and 20 for 64.
--
-- Not modelled: parseRtspUrl and the range of a playback; the making of server connections;
-- mk_hevc_decode_sps. Session has as an argument what becomes of a description, which decode_sdp
-- and described give. The network, timers, digests and allocations of as_common are not in the
-- repository; what they answer is an argument, as is what the C library prints and reads for a
-- double. The libraries librtmp and libmov are other projects' code, and their answers are
-- arguments too, as is what MovWriter takes from the parsers of parameter sets, and
-- whether delete[] can release what strdup gave. Logging is left
-- out.
pub mod Common
pub mod RtpPacket
pub mod UdpHandle
pub mod RtspService
pub mod Organizer
pub mod Client
pub mod Depacketizer
pub mod MediaPath
pub mod MediaService
pub mod RtspMessage
pub mod RtcpPacket
pub mod Session
pub mod Sdp
pub mod Reception
pub mod Rtmp
pub mod MovWriter
pub mod Nal
