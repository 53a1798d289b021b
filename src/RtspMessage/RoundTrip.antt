-- ===== src/RtspMessage/RoundTrip.antt =====
-- What generateRtspReq of rtsp/mk_rtsp_packet.cpp writes is read back by parse.
use mathlib.Core.List.{append_assoc, append-nil}
use lib_media_service.Common.{
  ℕ, zero, suc, ◌+◌, ◌<◌, ◌≡◌, refl, sym, ap, ◌∙◌, subst, true, false, not, ◌&&◌, &&-true, Option,
  some, List, [], ◌∷◌, ◌++◌, get_or, length, length-append, drop, arith, ltb, ◌==◌, leb, Status, ok,
  codes, print_u32, print_lld, c_string,
}
use lib_media_service.RtspMessage.{
  RtspMessage, rtsp_methods, new_rtsp_message, header_line, text_header, double_header,
  generate_common_header, generate_accepted_header, join_lines, request_line, request_text,
  generate_rtsp_req, url_text, rtsp_version, end_line,
}
use lib_media_service.RtspMessage.Parse.{one_header, take_content, parse, read_rtsp_line}
use lib_media_service.RtspMessage.Lines.{in_line, in_line-append, Tidy, read_rtsp_line-line}
use lib_media_service.RtspMessage.Numbers.{print_u32-Prints, print_lld-Prints}
use lib_media_service.RtspMessage.Headers.{each_header, LinesHold, headers_loop-join, drop-line}
use lib_media_service.RtspMessage.MethodLine.{IsUrl, parse_rtsp_method_line-target}
use lib_media_service.RtspMessage.Fields.{
  session-header, cseq-header, agent-header, range-header, transport-header, authorization-header,
}

-- A request, as the connection makes them: the two numbers are in range, the texts are parts of
-- lines that nothing is trimmed from, and speed and scale are not set.
pub record IsRequest (m : RtspMessage) : Type 0 where
  pub method : m.method_index < 11
  pub url : IsUrl m.rtsp_url
  pub url_line : in_line m.rtsp_url ≡ true
  pub url_ends : length m.rtsp_url < 512
  pub session : m.session_id < 9223372036854775808
  pub cseq : m.cseq < 4294967296
  pub range : Tidy m.range
  pub range_line : in_line m.range ≡ true
  pub transport : Tidy m.transport
  pub transport_line : in_line m.transport ≡ true
  pub authorization : Tidy m.authorization
  pub authorization_line : in_line m.authorization ≡ true
  pub speed : m.speed ≡ 0
  pub scale : m.scale ≡ 0

-- What a request has to say.
abbrev pub said : RtspMessage → RtspMessage
said m = record new_rtsp_message {
  method_index = m.method_index;
  rtsp_url = m.rtsp_url;
  session_id = m.session_id;
  cseq = m.cseq;
  range = m.range;
  transport = m.transport;
  authorization = m.authorization;
}

-- The header lines of a request.
header_lines : RtspMessage → List (List ℕ)
header_lines m =
    header_line (codes "Session") (print_lld m.session_id)
    ∷ header_line (codes "CSeq") (print_u32 m.cseq)
    ∷ (text_header (codes "Range") m.range
        ++ (header_line (codes "User-Agent") (codes "H.Kernel 2020.06.08")
            ∷ (text_header (codes "Transport") m.transport
                ++ (text_header (codes "Authorization") m.authorization ++ []))))

request_text-lines :
    (print : ℕ → List ℕ) (m : RtspMessage) (url : List ℕ)
    → m.speed ≡ 0
    → m.scale ≡ 0
    → request_text print m url ≡ join_lines (request_line m url ∷ header_lines m)
unfolding request_text generate_common_header generate_accepted_header header_lines
request_text-lines print m url h k =
    let ranges = text_header (codes "Range") m.range in
    let agent = header_line (codes "User-Agent") (codes "H.Kernel 2020.06.08") in
    let transports = text_header (codes "Transport") m.transport in
    let authorizations = text_header (codes "Authorization") m.authorization in
    let scales : ℕ → List (List ℕ) = λ d. double_header print (codes "Scale") d ++ transports in
    let accepted : generate_accepted_header print m ≡ transports =
      ap (λ d. double_header print (codes "Speed") d ++ scales m.scale) h ∙ ap scales k in
    ap
      (λ lines. join_lines (
        request_line m url
        ∷ header_line (codes "Session") (print_lld m.session_id)
        ∷ header_line (codes "CSeq") (print_u32 m.cseq)
        ∷ lines))
      (append_assoc ranges (agent ∷ []) (generate_accepted_header print m ++ authorizations)
        ∙ ap (λ lines. ranges ++ (agent ∷ (lines ++ authorizations))) accepted
        ∙ ap (λ lines. ranges ++ (agent ∷ (transports ++ lines))) (sym (append-nil authorizations)))

-- A header that is left out if its value is empty.
each_header-optional :
    (atof : List ℕ → ℕ) (name value : List ℕ) (lines : List (List ℕ)) (put : List ℕ → RtspMessage)
    → ((c : ℕ) (s : List ℕ)
        → value ≡ c ∷ s
        → (next : RtspMessage → Option (Status × RtspMessage))
        → one_header atof (header_line name (c ∷ s)) (put []) next ≡ next (put (c ∷ s)))
    → each_header atof (text_header name value ++ lines) (put [])
      ≡ each_header atof lines (put value)
each_header-optional atof name [] lines put h = refl
each_header-optional atof name (c ∷ s) lines put h = h c s refl (each_header atof lines)

optional-LinesHold :
    (name value : List ℕ) (lines : List (List ℕ))
    → in_line name ≡ true
    → in_line value ≡ true
    → LinesHold lines
    → LinesHold (text_header name value ++ lines)
optional-LinesHold name [] lines h k l = l
optional-LinesHold name (c ∷ s) lines h k l = (in_line-append name (58 ∷ 32 ∷ c ∷ s) h k, l)

header_lines-LinesHold : (m : RtspMessage) → IsRequest m → LinesHold (header_lines m)
unfolding header_lines
header_lines-LinesHold m h =
    let authorizations =
      optional-LinesHold (codes "Authorization") m.authorization [] refl h.authorization_line tt in
    let transports =
      optional-LinesHold (codes "Transport") m.transport _ refl h.transport_line authorizations in
    let ranges =
      optional-LinesHold (codes "Range") m.range _ refl h.range_line (refl, transports) in
    let session = (print_lld-Prints m.session_id h.session).line in
    let cseq = (print_u32-Prints m.cseq h.cseq).line in
    (
      in_line-append (codes "Session") (58 ∷ 32 ∷ print_lld m.session_id) refl session,
      (in_line-append (codes "CSeq") (58 ∷ 32 ∷ print_u32 m.cseq) refl cseq, ranges),
    )

-- A message with the first line of `m`.
abbrev begun : RtspMessage → RtspMessage
begun m = record new_rtsp_message { method_index = m.method_index; rtsp_url = m.rtsp_url }

each_header-lines :
    (atof : List ℕ → ℕ) (m : RtspMessage)
    → IsRequest m
    → each_header atof (header_lines m) (begun m) ≡ some (ok, said m)
unfolding header_lines
each_header-lines atof m h =
    let m1 = record (begun m) { session_id = m.session_id } in
    let m2 = record m1 { cseq = m.cseq } in
    let m3 = record m2 { range = m.range } in
    let m4 = record m3 { transport = m.transport } in
    session-header atof (begun m) _ (print_lld m.session_id) m.session_id
      (print_lld-Prints m.session_id h.session)
    ∙ cseq-header atof m1 _ (print_u32 m.cseq) m.cseq (print_u32-Prints m.cseq h.cseq) h.cseq
    ∙ each_header-optional atof (codes "Range") m.range _ (λ v. record m2 { range = v })
        (λ c s e next. range-header atof m2 next c s (subst Tidy e h.range))
    ∙ agent-header atof m3 _
    ∙ each_header-optional atof (codes "Transport") m.transport _ (λ v. record m3 { transport = v })
        (λ c s e next. transport-header atof m3 next c s (subst Tidy e h.transport))
    ∙ each_header-optional atof (codes "Authorization") m.authorization []
        (λ v. record m4 { authorization = v })
        (λ c s e next. authorization-header atof m4 next c s (subst Tidy e h.authorization))

c_string-same : (s : List ℕ) → in_line s ≡ true → c_string s ≡ s
c_string-same [] h = refl
c_string-same (c ∷ s) h =
    let parts = &&-true (not (c == 0) && not (c == 13)) (in_line s) h in
    let rest = c_string-same s parts.1 in let first = parts.0 in rw rest (ground (arith, first))

in_line-get_or :
    (texts : List (List ℕ)) (i : ℕ) → LinesHold texts → in_line (get_or texts i []) ≡ true
in_line-get_or [] i h = refl
in_line-get_or (text ∷ texts) zero h = h.0
in_line-get_or (text ∷ texts) (suc i) h = in_line-get_or texts i h.1

request_line-in_line : (m : RtspMessage) → IsRequest m → in_line (request_line m m.rtsp_url) ≡ true
request_line-in_line m h =
    in_line-append (get_or rtsp_methods m.method_index [])
      (32 ∷ (m.rtsp_url ++ (32 ∷ rtsp_version)))
      (in_line-get_or rtsp_methods m.method_index (
        refl,
        (refl, (refl, (refl, (refl, (refl, (refl, (refl, (refl, (refl, (refl, (refl, tt))))))))))),
      ))
      (in_line-append m.rtsp_url (32 ∷ rtsp_version) h.url_line refl)

parse-joined :
    (atof : List ℕ → ℕ) (m : RtspMessage) (text : List ℕ)
    → IsRequest m
    → text ≡ join_lines (request_line m m.rtsp_url ∷ header_lines m)
    → parse atof new_rtsp_message text (length text) ≡ some (ok, said m)
unfolding parse join_lines take_content
parse-joined atof m text h e =
    let line = request_line m m.rtsp_url in
    let rest = join_lines (header_lines m) in
    let size = ap length e ∙ length-append line (end_line ++ rest) in
    let some_text : (length text == 0) ≡ false = ground (arith, size) in
    let first = ap read_rtsp_line e ∙ read_rtsp_line-line line rest (request_line-in_line m h) in
    let begins = parse_rtsp_method_line-target m.method_index m.rtsp_url h.method h.url in
    let loop =
      headers_loop-join atof (header_lines m) (suc (length text)) text (length line + 2) (begun m)
        (header_lines-LinesHold m h) (ap (drop (length line + 2)) e ∙ drop-line line rest)
        (omega (arith, size))
      ∙ each_header-lines atof m h in
    rw (some_text, first, begins, loop) refl

-- generateRtspReq of a request returns OK and a text, of which parse of a new message returns OK, with
-- the request's method, URL, session, number, range, transport and authorization, and with nothing
-- else, if the URL is shorter than its buffer and has no space and no version in it, the session is
-- below 2 ^ 63, the texts have no NUL, no carriage return and no space at either end, and speed and
-- scale are 0.
pub parse-generate_rtsp_req :
    (print_double : ℕ → List ℕ) (atof : List ℕ → ℕ) (m : RtspMessage)
    → IsRequest m
    → (text : List ℕ) × (generate_rtsp_req print_double m ≡ some (ok, text))
      × (parse atof new_rtsp_message text (length text) ≡ some (ok, said m))
unfolding generate_rtsp_req url_text
parse-generate_rtsp_req print_double atof m h =
    let text = request_text print_double m m.rtsp_url in
    let plain = c_string-same m.rtsp_url h.url_line in
    let fits : ltb (length m.rtsp_url) 512 ≡ true = ground (arith, h.url_ends) in
    let method : leb 12 m.method_index ≡ false = ground (arith, h.method) in
    let lines = request_text-lines print_double m m.rtsp_url h.speed h.scale in
    (text, rw (method, plain, fits) refl, parse-joined atof m text h lines)
