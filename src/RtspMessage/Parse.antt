-- ===== src/RtspMessage/Parse.antt =====
-- parse of rtsp/mk_rtsp_packet.cpp: the method line, then the headers, then the content.
use lib_media_service.Common.{
  ℕ, zero, suc, ◌+◌, ◌%◌, Option, none, some, List, [], ◌∷◌, ◌++◌, length, get_or, take, drop, ltb,
  leb, ◌==◌, if◌then◌else◌, on_some, u32_mod, codes, c_string, starts_with, starts_with_nocase,
  find, trim_back, trim_front, strtoull, atoi, Status, ok, fail, is_ok, not,
}
use lib_media_service.RtspMessage.{
  RtspMessage, rtsp_methods, rtsp_headers, rtsp_status_codes, rtsp_version, end_line, end_msg,
}
use lib_media_service.RtspMessage.Check.{method_loop}

abbrev pub trim : List ℕ → List ℕ
trim s = trim_front (trim_back s)

-- readRtspLine: the line up to its end, and how many bytes it takes with it.
unfoldable pub read_rtsp_line : List ℕ → Option (List ℕ × ℕ)
read_rtsp_line buf = on_some (find end_line (c_string buf)) none λ at. some (take at buf, at + 2)

-- The loop over the status codes, which compares three characters.
unfoldable pub status_loop : List (ℕ × List ℕ) → ℕ → List ℕ → ℕ
status_loop [] i text = i
status_loop (code ∷ codes) i text =
    let rest = status_loop codes (i + 1) text in
    if starts_with (take 3 code.1) text then i else rest

-- memcpy of a URL over the front of the buffer.
abbrev pub over_front : List ℕ → List ℕ → List ℕ
over_front url buf = url ++ drop (length url) buf

-- The request line behind the method.
unfoldable pub parse_request_url : RtspMessage → List ℕ → Status × RtspMessage
parse_request_url m least = elim (find rtsp_version least) [
  | none ↦ (fail, m)
  | some at ↦
      let url = trim (take at least) in
      if ltb 512 (length url)
      then (fail, m)
      else (ok, record m { rtsp_url = over_front url m.rtsp_url })
]

unfoldable pub parse_rtsp_method_line : RtspMessage → List ℕ → Status × RtspMessage
unfolding method_loop status_loop parse_request_url
parse_rtsp_method_line m line =
    let index = method_loop rtsp_methods 0 line in
    let m1 = record m { method_index = index } in
    let name_size = length (get_or rtsp_methods index []) in
    if index == 12
    then (fail, m1)
    else if leb (length line) (name_size + 1)
    then (fail, m1)
    else let least = trim (drop (name_size + 1) line) in
      if index == 11
      then (ok, record m1 { status_code_index = status_loop rtsp_status_codes 0 least })
      else parse_request_url m1 least

-- parseRtspHeaderIndex, from entry `i` on.
unfoldable pub header_loop : List (List ℕ) → ℕ → List ℕ → ℕ
header_loop [] i line = i
header_loop (name ∷ names) i line =
    let rest = header_loop names (i + 1) line in if starts_with_nocase name line then i else rest

-- A value that must not be empty.
abbrev pub nonempty : List ℕ → RtspMessage → RtspMessage → Status × RtspMessage
nonempty [] m m' = (fail, m)
nonempty (c ∷ s) m m' = (ok, m')

-- The session identifier stands in front of a semicolon.
unfoldable pub before_semicolon : List ℕ → List ℕ
before_semicolon value = elim (find (codes ";") value) [ none ↦ value | some at ↦ take at value ]

-- The switch of parseRtspHeaderValue over the header's index; `atof` is the C library's.
unfoldable pub store_header : (List ℕ → ℕ) → ℕ → RtspMessage → List ℕ → Status × RtspMessage
unfolding before_semicolon
store_header atof index m value =
    if index == 0
    then (ok, record m { cseq = strtoull value % u32_mod })
    else if index == 2
    then (ok, record m { session_id = strtoull (trim (before_semicolon value)) })
    else if index == 3
    then (ok, record m { range = value })
    else if index == 4
    then (ok, record m { scale = atof value })
    else if index == 5
    then (ok, record m { speed = atof value })
    else if index == 6
    then (ok, record m { content_length = atoi value })
    else if index == 7
    then nonempty value m (record m { transport = value })
    else if index == 8
    then nonempty value m (record m { rtp_info = value })
    else if index == 9
    then nonempty value m (record m { content_type = value })
    else if index == 10
    then nonempty value m (record m { authenticate = value })
    else if index == 11
    then nonempty value m (record m { authorization = value })
    else (ok, m)

unfoldable pub parse_rtsp_header_value :
    (List ℕ → ℕ) → RtspMessage → ℕ → List ℕ → Status × RtspMessage
unfolding store_header
parse_rtsp_header_value atof m index line =
    let behind = drop (length (get_or rtsp_headers index [])) line in
    elim (find (codes ":") behind) [
      | none ↦ (fail, m)
      | some at ↦ store_header atof index m (trim (drop (at + 1) behind))
    ]

-- A round of the loop of parse over the headers: an empty line ends it, a header that is not in the
-- table is skipped.
unfoldable pub one_header :
    (List ℕ → ℕ)
    → List ℕ
    → RtspMessage
    → (RtspMessage → Option (Status × RtspMessage))
    → Option (Status × RtspMessage)
unfolding header_loop parse_rtsp_header_value
one_header atof [] m next = some (ok, m)
one_header atof (c ∷ s) m next =
    let index = header_loop rtsp_headers 0 (c ∷ s) in
    let r = parse_rtsp_header_value atof m index (c ∷ s) in
    if index == 12 then next m else if is_ok r.0 then next r.1 else some (fail, r.1)

-- The loop, at `offset`; `none` is a run out of fuel.
unfoldable pub headers_loop :
    (List ℕ → ℕ) → ℕ → List ℕ → ℕ → ℕ → RtspMessage → Option (Status × RtspMessage)
unfolding read_rtsp_line one_header
headers_loop atof zero buf size offset m = none
headers_loop atof (suc fuel) buf size offset m =
    if not (ltb offset size)
    then some (ok, m)
    else on_some (read_rtsp_line (drop offset buf)) (some (fail, m))
        λ r. one_header atof r.0 m λ m'. headers_loop atof fuel buf size (offset + r.1) m'

-- The content is all that follows the first empty line.
unfoldable pub take_content : RtspMessage → List ℕ → Status × RtspMessage
take_content m msg = if m.content_length == 0 then (ok, m) else elim (find end_msg msg) [
  | none ↦ (fail, m)
  | some at ↦ (ok, record m { content = drop (at + 4) msg })
]

-- parse(pszRtsp, unRtspSize): the fuel is one more than the size.
unfoldable pub parse : (List ℕ → ℕ) → RtspMessage → List ℕ → ℕ → Option (Status × RtspMessage)
unfolding read_rtsp_line parse_rtsp_method_line headers_loop take_content
parse atof m buf size =
    if size == 0
    then some (fail, m)
    else on_some (read_rtsp_line buf) (some (fail, m)) λ r.
      let first = parse_rtsp_method_line m r.0 in
      if not (is_ok first.0)
      then some (fail, first.1)
      else on_some (headers_loop atof (suc size) buf size r.1 first.1) none
          λ h. if not (is_ok h.0) then some (fail, h.1) else some (take_content h.1 (take size buf))
