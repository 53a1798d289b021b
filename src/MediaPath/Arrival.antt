-- ===== src/MediaPath/Arrival.antt =====
-- handleRTPRTCPData of rtsp/mk_rtsp_connection.cpp returns on packets without padding.
use lib_media_service.Common.{ℕ, Option, some, List, ◌++◌, take, drop, net16}
use lib_media_service.RtspService.{RtspService}
use lib_media_service.Organizer.Frames.{Block}
use lib_media_service.MediaPath.Total.{StoresPlain, Goes, goes}
use lib_media_service.MediaPath.{MediaPath, Received, handle_rtcp_packet}

-- The block that the packet at the start of the stream is copied to.
abbrev pub arrived : (ℕ → List ℕ) → List ℕ → ℕ → Block
arrived memory stream address =
    let size = net16 stream 2 in
    record { address = address; bytes = take size (drop 4 stream) ++ drop size (memory address) }

pub handle_rtcp_packet-Goes :
    (c : MediaPath) (s : RtspService) (block : Block)
    → StoresPlain c
    → Goes (handle_rtcp_packet c s block)
unfolding handle_rtcp_packet
handle_rtcp_packet-Goes c s block h = goes h

-- There is an answer, and the connection has packets without padding only.
data Arrives : Option Received → Type 0 where
  arrives : {r : Received} → StoresPlain r.path → Arrives (some r)
