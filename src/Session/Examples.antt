-- ===== src/Session/Examples.antt =====
-- A session of rtsp/mk_rtsp_connection.cpp with one video over the RTSP connection.
use lib_media_service.Common.{
  ◌+◌, ◌≡◌, refl, inl, true, none, some, [], ◌∷◌, length, arith, codes, print_u32, print_lld, ok,
  fail,
}
use lib_media_service.Client.{MediaCallBack, connected, set_url, handle_connection_status}
use lib_media_service.RtspService.{new_rtsp_service}
use lib_media_service.RtspMessage.{RtspMessage, new_rtsp_message}
use lib_media_service.Session.{
  Session, Outside, MediaInfo, video_media, options_method, silent, find_method, request_url,
}
use lib_media_service.Session.Response.{handle_rtsp_resp}
use lib_media_service.Session.Lifecycle.{
  Opening, start_recv, new_session, set_rtp_over_tcp, handle_timeout,
}
use lib_media_service.Session.Invariant.{IsValid, sends_options}
use lib_media_service.Session.Reached.{
  Reached, created, over_tcp, given_url, started, timed, Reached-IsValid,
}
use lib_media_service.Session.Serve.{Plays, serve}
use lib_media_service.Session.Plays.{serve-Plays}
use lib_media_service.Session.Refusals.{handle_rtsp_resp-refused}

abbrev video : MediaInfo
video = record { media_type = video_media; control = codes "rtsp://10.0.0.1/live/track1" }

abbrev camera : Outside
camera = record {
  send = length;
  digest_header = λ _ _. none;
  is_digest = λ _. ok;
  client_parse = λ _. ok;
  ok_code = 0;
  register_rtp = ok;
  register_rtcp = ok;
  print_double = λ _. [];
  decode_sdp = λ _. some (record { h264 = 96; h265 = 255; media = video ∷ [] });
}

abbrev call_back : MediaCallBack
call_back = record { registered = true; gives_buffer = λ _. true; buffer_size = λ n. n + 4 }

abbrev opened : Session
opened = record (set_rtp_over_tcp (new_session call_back 0)) {
  url = record {
    host = codes "10.0.0.1";
    port = 554;
    uri = codes "/live";
    username = [];
    password = [];
  };
  seq_method_map = (0, options_method) ∷ [];
  seq = 1;
}

-- What a start answers that finds the server.
abbrev opening : Opening
opening = record { digest_init = ok; parse_url = λ _. some opened.url; register_tcp = ok }

-- The session that has sent OPTIONS.
abbrev begun : Session
begun = record opened {
  client = record opened.client {
    url = codes "rtsp://10.0.0.1/live";
    status = connected;
    timer_registered = true;
  };
}

begun-Reached : Reached begun
unfolding new_session set_rtp_over_tcp set_url start_recv handle_connection_status find_method
    request_url print_u32 print_lld
begun-Reached =
    started
      {r = record {
        code = ok;
        session = begun;
        service = new_rtsp_service;
        sent = _;
        reported = connected ∷ [];
      }}
      camera opening ok new_rtsp_service
      (given_url (codes "rtsp://10.0.0.1/live") (over_tcp (created call_back 0))) (omega arith) refl

Reached-IsValid_example : IsValid (handle_timeout begun 30).0
Reached-IsValid_example = Reached-IsValid (timed 30 begun-Reached)

serve-Plays_example : Plays 3 (serve camera 4 7 [] opened new_rtsp_service)
unfolding new_session set_rtp_over_tcp find_method request_url print_u32
serve-Plays_example =
    serve-Plays camera 7 [] (record { h264 = 96; h265 = 255; media = video ∷ [] }) video [] opened
      new_rtsp_service (record { takes = λ _. refl; unchallenged = refl })
      (record { last = refl; fresh = (omega arith, tt) }) refl refl refl refl (omega arith, tt)
      (omega arith) (omega arith)

opened-IsValid : IsValid opened
unfolding new_session set_rtp_over_tcp
opened-IsValid = record {
  logged = ((omega arith, sends_options, λ _ e. cc), tt);
  active = inl refl;
  tries = omega arith;
}

handle_rtsp_resp-refused_example :
    handle_rtsp_resp camera opened new_rtsp_service (record new_rtsp_message { cseq = 5 })
    ≡ some (silent fail opened new_rtsp_service)
unfolding new_session set_rtp_over_tcp
handle_rtsp_resp-refused_example =
    handle_rtsp_resp-refused camera opened new_rtsp_service (record new_rtsp_message { cseq = 5 })
      opened-IsValid (inl (omega arith))

abbrev challenge : RtspMessage
challenge = record new_rtsp_message { status_code_index = 11; authenticate = codes "Digest" }
