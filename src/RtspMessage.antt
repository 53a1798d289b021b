-- ===== src/RtspMessage.antt =====
-- rtsp/mk_rtsp_packet.cpp and .h: an RTSP message, its tables and fields, and its text. Enumerators
-- are their numbers, a text the list of its bytes, a double its 64 bits: what the C library prints
-- for a double is an argument.
pub mod Check
pub mod Parse
pub mod Total
pub mod Lines
pub mod Numbers
pub mod Headers
pub mod Fields
pub mod MethodLine
pub mod RoundTrip
mod Examples
use lib_media_service.Common.{
  ℕ, ◌+◌, ◌^◌, Bool, true, false, Option, none, some, List, [], ◌∷◌, ◌++◌, length, get_or, take,
  drop, replicate, ltb, leb, ◌==◌, if◌then◌else◌, on_some, codes, c_string, print_u32, print_lld,
  Status, ok, fail,
}

-- m_strRtspMethods, whose entry 11 is the version that a response starts with.
abbrev pub rtsp_methods : List (List ℕ)
rtsp_methods =
    codes "DESCRIBE"
    ∷ codes "SETUP"
    ∷ codes "TEARDOWN"
    ∷ codes "PLAY"
    ∷ codes "PAUSE"
    ∷ codes "OPTIONS"
    ∷ codes "ANNOUNCE"
    ∷ codes "GET_PARAMETER"
    ∷ codes "SET_PARAMETER"
    ∷ codes "REDIRECT"
    ∷ codes "RECORD"
    ∷ codes "RTSP/1.0"
    ∷ []

abbrev pub rtsp_version : List ℕ
rtsp_version = codes "RTSP/1.0"

-- m_strRtspHeaders.
abbrev pub rtsp_headers : List (List ℕ)
rtsp_headers =
    codes "CSeq"
    ∷ codes "User-Agent"
    ∷ codes "Session"
    ∷ codes "Range"
    ∷ codes "Scale"
    ∷ codes "Speed"
    ∷ codes "Content-Length"
    ∷ codes "Transport"
    ∷ codes "RTP-Info"
    ∷ codes "Content-Type"
    ∷ codes "WWW-Authenticate"
    ∷ codes "Authorization"
    ∷ []

-- RTSP_END_LINE and RTSP_END_MSG.
abbrev pub end_line : List ℕ
end_line = 13 ∷ 10 ∷ []

abbrev pub end_msg : List ℕ
end_msg = 13 ∷ 10 ∷ 13 ∷ 10 ∷ []

-- m_ulRtspStatusCode and m_strRtspStatusCode up to the last entry of each: a code and the reason.
abbrev pub rtsp_status_codes : List (ℕ × List ℕ)
rtsp_status_codes =
    (100, codes "100 Continue")
    ∷ (200, codes "200 OK")
    ∷ (201, codes "201 Created")
    ∷ (250, codes "250 Low on Storage Space")
    ∷ (300, codes "300 Multiple Choices")
    ∷ (301, codes "301 Moved Permanently")
    ∷ (302, codes "302 Moved Temporarily")
    ∷ (303, codes "303 See Other")
    ∷ (304, codes "304 Not Modified")
    ∷ (305, codes "305 Use Proxy")
    ∷ (400, codes "400 Bad Request")
    ∷ (401, codes "401 Unauthorized")
    ∷ (402, codes "402 Payment Required")
    ∷ (403, codes "403 Forbidden")
    ∷ (404, codes "404 Not Found")
    ∷ (405, codes "405 Method Not Allowed")
    ∷ (406, codes "406 Not Acceptable")
    ∷ (407, codes "407 Proxy Authentication Required")
    ∷ (408, codes "408 Request Time-out")
    ∷ (410, codes "410 Gone")
    ∷ (411, codes "411 Length Required")
    ∷ (412, codes "412 Precondition Failed")
    ∷ (413, codes "413 Request Entity Too Large")
    ∷ (414, codes "414 Request URI Too Large")
    ∷ (415, codes "415 Unsupported Media Type")
    ∷ (451, codes "451 Parameter Not Understood")
    ∷ (452, codes "452 Conference Not Found")
    ∷ (453, codes "453 Not Enough Bandwidth")
    ∷ (454, codes "454 Session Not Found")
    ∷ (455, codes "455 Method Not Valid in This State")
    ∷ (456, codes "456 Header Field Not Valid for Resource")
    ∷ (457, codes "457 Invalid Range")
    ∷ (458, codes "458 Parameter Is Read-Only")
    ∷ (459, codes "459 Aggregate Operation no Allowed")
    ∷ (460, codes "460 Only Aggregate Operation Allowed")
    ∷ (461, codes "461 Unsupported Transport")
    ∷ (462, codes "462 Destination Unreachable")
    ∷ (500, codes "500 Internal Server Error")
    ∷ (501, codes "501 Not Implemented")
    ∷ (502, codes "502 Bad Gateway")
    ∷ (503, codes "503 Service Unavailable")
    ∷ (504, codes "504 Gateway Time-out")
    ∷ (505, codes "505 RTSP Version not Supported")
    ∷ (551, codes "551 Option not supported")
    ∷ []

-- mk_rtsp_packet. `rtsp_url` is the buffer RtspUrl without the zeros at its end.
pub record RtspMessage : Type 0 where
  pub method_index : ℕ
  pub rtsp_url : List ℕ
  pub session_id : ℕ
  pub cseq : ℕ
  pub status_code_index : ℕ
  pub content_length : ℕ
  pub content_type : List ℕ
  pub content : List ℕ
  pub range : List ℕ
  pub speed : ℕ
  pub scale : ℕ
  pub authenticate : List ℕ
  pub authorization : List ℕ
  pub rtp_info : List ℕ
  pub transport : List ℕ

-- The constructor: RtspIllegalMethod and RtspNotAcceptedStatus.
abbrev pub new_rtsp_message : RtspMessage
new_rtsp_message = record {
  method_index = 12;
  rtsp_url = [];
  session_id = 0;
  cseq = 0;
  status_code_index = 44;
  content_length = 0;
  content_type = [];
  content = [];
  range = [];
  speed = 0;
  scale = 0;
  authenticate = [];
  authorization = [];
  rtp_info = [];
  transport = [];
}

unfoldable pub get_rtsp_status_code : RtspMessage → ℕ → ℕ
get_rtsp_status_code m ok_code =
    if leb 44 m.status_code_index
    then ok_code
    else (get_or rtsp_status_codes m.status_code_index (0, [])).0

unfoldable pub set_rtsp_status_code : RtspMessage → ℕ → RtspMessage
set_rtsp_status_code m code = if leb 44 code then m else record m { status_code_index = code }

-- setRtspUrl: a text longer than the buffer leaves it empty.
unfoldable pub set_rtsp_url : RtspMessage → List ℕ → RtspMessage
set_rtsp_url m url =
    if ltb 512 (length url)
    then record m { rtsp_url = [] }
    else record m { rtsp_url = c_string url }

-- The buffer read as a C string: one that is full has no end, which is undefined.
unfoldable pub url_text : RtspMessage → Option (List ℕ)
url_text m = if ltb (length (c_string m.rtsp_url)) 512 then some (c_string m.rtsp_url) else none

unfoldable pub set_rtp_info : RtspMessage → List ℕ → ℕ → ℕ → RtspMessage
set_rtp_info m url seq timestamp = record m {
  rtp_info = url ++ codes ";seq=" ++ print_u32 seq ++ codes ";rtptime=" ++ print_u32 timestamp;
}

-- getAuthenticate.
unfoldable pub get_authenticate : RtspMessage → Option (List ℕ)
get_authenticate m = elim m.authenticate [ [] ↦ none | c ∷ s ↦ some (c ∷ s) ]

-- A header line, without its end.
abbrev pub header_line : List ℕ → List ℕ → List ℕ
header_line name value = name ++ (58 ∷ 32 ∷ value)

-- A header that is left out if its value is empty.
abbrev pub text_header : List ℕ → List ℕ → List (List ℕ)
text_header name [] = []
text_header name (c ∷ value) = header_line name (c ∷ value) ∷ []

-- `0 != d` for a double: its bits are those of neither zero.
abbrev pub double_header : (ℕ → List ℕ) → List ℕ → ℕ → List (List ℕ)
double_header print_double name d =
    if d == 0 then [] else if d == 2 ^ 63 then [] else header_line name (print_double d) ∷ []

-- generateCommonHeader: its lines.
unfoldable pub generate_common_header : RtspMessage → List (List ℕ)
generate_common_header m =
    header_line (codes "Session") (print_lld m.session_id)
    ∷ header_line (codes "CSeq") (print_u32 m.cseq)
    ∷ (text_header (codes "Range") m.range
        ++ (header_line (codes "User-Agent") (codes "H.Kernel 2020.06.08") ∷ []))

-- generateAcceptedHeader: its lines, with double2Str of the two doubles.
unfoldable pub generate_accepted_header : (ℕ → List ℕ) → RtspMessage → List (List ℕ)
generate_accepted_header print_double m =
    double_header print_double (codes "Speed") m.speed
    ++ (double_header print_double (codes "Scale") m.scale
        ++ text_header (codes "Transport") m.transport)

-- Each line with its end, and an empty one.
unfoldable pub join_lines : List (List ℕ) → List ℕ
join_lines [] = end_line
join_lines (line ∷ lines) = line ++ (end_line ++ join_lines lines)

-- The first line of a request.
abbrev pub request_line : RtspMessage → List ℕ → List ℕ
request_line m url = get_or rtsp_methods m.method_index [] ++ (32 ∷ (url ++ (32 ∷ rtsp_version)))

-- The text of generateRtspReq, with the URL `url`.
unfoldable pub request_text : (ℕ → List ℕ) → RtspMessage → List ℕ → List ℕ
unfolding generate_common_header generate_accepted_header join_lines
request_text print_double m url = join_lines (
    request_line m url
    ∷ (generate_common_header m
        ++ (generate_accepted_header print_double m
            ++ text_header (codes "Authorization") m.authorization)))

-- generateRtspReq: `none` where the URL buffer has no end.
unfoldable pub generate_rtsp_req : (ℕ → List ℕ) → RtspMessage → Option (Status × List ℕ)
unfolding url_text request_text
generate_rtsp_req print_double m =
    if leb 12 m.method_index
    then some (fail, [])
    else on_some (url_text m) none λ url. some (ok, request_text print_double m url)

unfoldable pub generate_rtsp_resp : (ℕ → List ℕ) → RtspMessage → Status × List ℕ
unfolding generate_common_header generate_accepted_header join_lines
generate_rtsp_resp print_double m = if leb 44 m.status_code_index then (fail, []) else (
  ok,
  join_lines (
      (rtsp_version ++ (32 ∷ (get_or rtsp_status_codes m.status_code_index (0, [])).1))
      ∷ (generate_common_header m
          ++ (generate_accepted_header print_double m
              ++ (text_header (codes "RTP-Info") m.rtp_info
                  ++ text_header (codes "WWW-Authenticate") m.authenticate)))),
)
