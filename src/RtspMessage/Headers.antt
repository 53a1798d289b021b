-- ===== src/RtspMessage/Headers.antt =====
-- The headers of rtsp/mk_rtsp_packet.cpp: the loop of parse over lines that were joined.
use lib_media_service.Common.{
  ℕ, zero, suc, ◌+◌, ◌<◌, ◌≡◌, refl, sym, ap, ◌∙◌, true, false, not, Option, some, List, [], ◌∷◌,
  ◌++◌, All, length, length-append, length-drop, drop, drop-append, drop-drop, arith, ltb, Status,
  ok,
}
use lib_media_service.RtspMessage.{RtspMessage, end_line, join_lines}
use lib_media_service.RtspMessage.Parse.{one_header, headers_loop}
use lib_media_service.RtspMessage.Lines.{in_line, read_rtsp_line-line}

-- The headers, one line after the other.
abbrev pub each_header : (List ℕ → ℕ) → List (List ℕ) → RtspMessage → Option (Status × RtspMessage)
each_header atof [] m = some (ok, m)
each_header atof (line ∷ lines) m = one_header atof line m (each_header atof lines)

abbrev pub LinesHold : List (List ℕ) → Type 0
LinesHold lines = All (λ line. in_line line ≡ true) lines

pub drop-line : (line rest : List ℕ) → drop (length line + 2) (line ++ (end_line ++ rest)) ≡ rest
drop-line line rest =
    drop-drop (length line) 2 (line ++ (end_line ++ rest))
    ∙ ap (drop 2) (drop-append line (end_line ++ rest))

pub headers_loop-join :
    (atof : List ℕ → ℕ) (lines : List (List ℕ)) (fuel : ℕ) (buf : List ℕ) (offset : ℕ)
    (m : RtspMessage)
    → LinesHold lines
    → drop offset buf ≡ join_lines lines
    → length buf < offset + fuel
    → headers_loop atof fuel buf (length buf) offset m ≡ each_header atof lines m
unfolding headers_loop join_lines
headers_loop-join atof [] zero buf offset m h e l =
    let size = ap length (sym e) ∙ length-drop offset buf in absurd (omega (arith, size, l))
headers_loop-join atof (line ∷ lines) zero buf offset m h e l =
    let size = ap length (sym e) ∙ length-drop offset buf in
    let parts = length-append line (end_line ++ join_lines lines) in
    absurd (omega (arith, size, l, parts))
headers_loop-join atof [] (suc fuel) buf offset m h e l =
    let size = ap length (sym e) ∙ length-drop offset buf in
    let more : not (ltb offset (length buf)) ≡ false = ground (arith, size) in rw (more, e) refl
headers_loop-join atof (line ∷ lines) (suc fuel) buf offset m h e l =
    let size = ap length (sym e) ∙ length-drop offset buf in
    let parts = length-append line (end_line ++ join_lines lines) in
    let more : not (ltb offset (length buf)) ≡ false = ground (arith, size, parts) in
    let later : (m' : RtspMessage)
        → headers_loop atof fuel buf (length buf) (offset + (length line + 2)) m'
          ≡ each_header atof lines m' =
      λ m'.
        headers_loop-join atof lines fuel buf (offset + (length line + 2)) m' h.1
          (drop-drop offset (length line + 2) buf
            ∙ ap (drop (length line + 2)) e
            ∙ drop-line line (join_lines lines))
          (omega (arith, l)) in
    rw (more, e, read_rtsp_line-line line (join_lines lines) h.0)
      (ap (one_header atof line m) (λ i m'. later m' i))
