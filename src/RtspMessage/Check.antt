-- ===== src/RtspMessage/Check.antt =====
-- checkRtsp of rtsp/mk_rtsp_packet.cpp: whether the buffer has a whole message, and its length.
use lib_media_service.Common.{
  ℕ, ◌+◌, ◌%◌, Option, none, some, List, [], ◌∷◌, set, take, drop, leb, if◌then◌else◌, u32_mod,
  codes, starts_with, find, trim_back, trim_front, atoi, Status, ok, fail,
}
use lib_media_service.RtspMessage.{rtsp_methods, end_line, end_msg}

-- The loop over the methods, from entry `i` on: the first that the memory starts with, or the length
-- of the table.
unfoldable pub method_loop : List (List ℕ) → ℕ → List ℕ → ℕ
method_loop [] i buf = i
method_loop (name ∷ names) i buf =
    let rest = method_loop names (i + 1) buf in if starts_with name buf then i else rest

-- What checkRtsp leaves: its code, unMsgLen, and the buffer, in which it may change a letter.
pub record Checked : Type 0 where
  pub code : Status
  pub msg_len : ℕ
  pub buf : List ℕ

-- Where the value of Content-Length starts, and the buffer then.
unfoldable pub find_content_length : List ℕ → List ℕ → Option (ℕ × List ℕ)
find_content_length msg buf = elim (find (codes "Content-Length:") msg) [
  | some at ↦ some (at, buf)
  | none ↦ elim (find (codes "Content-length:") msg) [
    | some at ↦ some (at, set buf (at + 8) 76)
    | none ↦ none
  ]
]

-- The number behind Content-Length. Its text is cut at the end of the message's first line.
unfoldable pub content_length_at : List ℕ → ℕ → Option ℕ
content_length_at msg at = elim (find end_line msg) [
  | none ↦ none
  | some line_end ↦ some (atoi (trim_front (trim_back (take line_end (drop (at + 15) msg)))))
]

-- checkRtsp(pszRtsp, unRtspSize, unMsgLen), of the memory `buf` and the old value of unMsgLen.
unfoldable pub check_rtsp : List ℕ → ℕ → ℕ → Checked
unfolding method_loop find_content_length content_length_at
check_rtsp buf size msg_len =
    let msg = take size buf in
    if leb 12 (method_loop rtsp_methods 0 buf)
    then record { code = fail; msg_len = msg_len; buf = buf }
    else elim (find end_msg msg) [
      | none ↦
          if leb 2048 size
          then record { code = fail; msg_len = msg_len; buf = buf }
          else record { code = ok; msg_len = 0; buf = buf }
      | some end ↦ elim (find_content_length msg buf) [
        | none ↦ record { code = ok; msg_len = (end + 4) % u32_mod; buf = buf }
        | some place ↦ elim (content_length_at msg place.0) [
          | none ↦ record { code = fail; msg_len = (end + 4) % u32_mod; buf = place.1 }
          | some extra ↦ record { code = ok; msg_len = (end + 4 + extra) % u32_mod; buf = place.1 }
        ]
      ]
    ]
