-- ===== src/RtspMessage/Examples.antt =====
-- Messages as text, for rtsp/mk_rtsp_packet.cpp.
use lib_media_service.Common.{
  ℕ, [], arith, ◌≡◌, refl, some, List, ◌++◌, codes, strtoull, atoi, length, ok,
}
use lib_media_service.RtspMessage.{RtspMessage, new_rtsp_message, end_line, generate_rtsp_req}
use lib_media_service.RtspMessage.Parse.{parse}
use lib_media_service.RtspMessage.Check.{check_rtsp}
use lib_media_service.RtspMessage.Total.{Ends, parse-Ends}
use lib_media_service.RtspMessage.RoundTrip.{IsRequest, said, parse-generate_rtsp_req}

abbrev answer : List ℕ
answer =
    codes "RTSP/1.0 401 Unauthorized"
    ++ end_line
    ++ codes "cseq: 7"
    ++ end_line
    ++ codes "Session: 12;timeout=60"
    ++ end_line
    ++ codes "WWW-Authenticate: Digest"
    ++ end_line
    ++ codes "Content-Length:  3 "
    ++ end_line
    ++ end_line
    ++ codes "abc"

parse-answer :
    parse (λ _. 0) new_rtsp_message answer (length answer)
    ≡ some (
      ok,
      record new_rtsp_message {
        method_index = 11;
        status_code_index = 11;
        cseq = 7;
        session_id = 12;
        content_length = 3;
        content = codes "abc";
        authenticate = codes "Digest";
      },
    )
unfolding parse strtoull atoi
parse-answer = refl

check-answer : (check_rtsp answer (length answer) 0).msg_len ≡ length answer
unfolding check_rtsp atoi
check-answer = refl

parse-Ends_example : Ends (parse (λ _. 0) new_rtsp_message answer (length answer))
parse-Ends_example = parse-Ends (λ _. 0) new_rtsp_message answer (length answer)

abbrev play : RtspMessage
play = record new_rtsp_message {
  method_index = 3;
  rtsp_url = codes "rtsp://cam/1";
  session_id = 120;
  cseq = 4;
  range = codes "npt=0.00-";
  authorization = codes "Digest realm=\"cam\", nonce=\"7\"";
}

play-IsRequest : IsRequest play
play-IsRequest = record {
  method = omega arith;
  url = record { compact = refl; other = refl; short = omega arith };
  url_line = refl;
  url_ends = omega arith;
  session = omega arith;
  cseq = omega arith;
  range = record { back = refl; front = refl };
  range_line = refl;
  transport = record { back = refl; front = refl };
  transport_line = refl;
  authorization = record { back = refl; front = refl };
  authorization_line = refl;
  speed = refl;
  scale = refl;
}

parse-generate_rtsp_req_example :
    (text : List ℕ) × (generate_rtsp_req (λ _. []) play ≡ some (ok, text))
    × (parse (λ _. 0) new_rtsp_message text (length text) ≡ some (ok, said play))
parse-generate_rtsp_req_example = parse-generate_rtsp_req (λ _. []) (λ _. 0) play play-IsRequest
