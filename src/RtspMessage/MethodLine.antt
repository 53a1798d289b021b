-- ===== src/RtspMessage/MethodLine.antt =====
-- The first line of a request of rtsp/mk_rtsp_packet.cpp, read back.
use lib_media_service.Common.{
  ℕ, zero, suc, ◌+◌, ◌≤◌, ◌<◌, ◌≡◌, refl, sym, ap, ◌∙◌, Bool, true, false, not, &&-true, Option,
  none, some, List, [], ◌∷◌, ◌++◌, get_or, length, length-append, drop, drop-append, drop-drop,
  drop-nil, arith, ltb, ◌==◌, if◌then◌else◌, leb, ok, find, starts_with, take, trim_front,
}
use mathlib.Core.Option
use mathlib.Core.List.{append-nil}
use lib_media_service.RtspMessage.{RtspMessage, rtsp_methods, rtsp_version, new_rtsp_message}
use lib_media_service.RtspMessage.Check.{method_loop}
use lib_media_service.RtspMessage.Parse.{trim, parse_request_url, parse_rtsp_method_line}
use lib_media_service.RtspMessage.Lines.{
  no_space, trim_back-append, trim_back-space, trim_front-same,
}

-- A text with no space in it is nowhere across a space.
starts_with-space :
    (v s w : List ℕ)
    → no_space v ≡ true
    → starts_with v (s ++ (32 ∷ w)) ≡ true
    → starts_with v s ≡ true
starts_with-space [] s w h e = refl
starts_with-space (c ∷ v) [] w h e = ground (arith, h, e)
starts_with-space (c ∷ v) (d ∷ s) w h e =
    let rest =
      starts_with-space v s w (&&-true (not (c == 32)) (no_space v) h).1
        (&&-true (c == d) (starts_with v (s ++ (32 ∷ w))) e).1 in
    let first = (&&-true (c == d) (starts_with v (s ++ (32 ∷ w))) e).0 in rw (first, rest) refl

find-none :
    (v : List ℕ) (c : ℕ) (s : List ℕ)
    → find v (c ∷ s) ≡ none
    → (starts_with v (c ∷ s) ≡ false) × (find v s ≡ none)
find-none v c s h = cases (starts_with v (c ∷ s)) (find v s) h
  where
    cases :
        (b : Bool) (o : Option ℕ)
        → (if b then some 0 else Option.map suc o) ≡ none
        → (b ≡ false) × (o ≡ none)
    cases true o h = ground (arith, h)
    cases false none h = (refl, refl)
    cases false (some i) h = ground (arith, h)

not_true : (a b : Bool) → (b ≡ true → a ≡ true) → a ≡ false → b ≡ false
not_true a true h e = sym (h refl) ∙ e
not_true a false h e = refl

find-space :
    (v s w : List ℕ)
    → no_space v ≡ true
    → find v s ≡ none
    → find v (32 ∷ w) ≡ some 1
    → find v (s ++ (32 ∷ w)) ≡ some (length s + 1)
find-space v [] w h e k = k
find-space v (c ∷ s) w h e k =
    let (first, rest) = find-none v c s e in
    let absent =
      not_true (starts_with v (c ∷ s)) (starts_with v ((c ∷ s) ++ (32 ∷ w)))
        (starts_with-space v (c ∷ s) w h) first in
    rw (absent, find-space v s w h rest k)
      (ap some {x = suc (length s + 1)} {y = suc (length s) + 1} (omega arith))

take-space : (s w : List ℕ) → take (length s + 1) (s ++ (32 ∷ w)) ≡ s ++ (32 ∷ [])
take-space [] w = refl
take-space (c ∷ s) w =
    ap (λ k. take k (c ∷ (s ++ (32 ∷ w)))) {x = suc (length s) + 1} {y = suc (length s + 1)}
      (omega arith)
    ∙ ap (◌∷◌ c) (take-space s w)

-- A URL, as requests have it.
pub record IsUrl (url : List ℕ) : Type 0 where
  pub compact : no_space url ≡ true
  pub other : find rtsp_version url ≡ none
  pub short : length url ≤ 512

-- What a request line has behind the method.
abbrev target : List ℕ → List ℕ
target url = url ++ (32 ∷ rtsp_version)

trim-target :
    (c : ℕ) (url : List ℕ) → no_space (c ∷ url) ≡ true → trim (target (c ∷ url)) ≡ target (c ∷ url)
trim-target c url h =
    let first = (&&-true (not (c == 32)) (no_space url) h).0 in
    let plain : trim_front (target (c ∷ url)) ≡ target (c ∷ url) = ground (arith, first) in
    ap trim_front (trim_back-append (c ∷ url) 32 rtsp_version refl) ∙ plain

trim-url : (url : List ℕ) → no_space url ≡ true → trim (take (length url + 1) (target url)) ≡ url
trim-url url h =
    ap trim (take-space url rtsp_version)
    ∙ ap trim_front (trim_back-space url h)
    ∙ trim_front-same url h

request_url-at :
    (m : RtspMessage) (least url : List ℕ) (at : ℕ)
    → find rtsp_version least ≡ some at
    → trim (take at least) ≡ url
    → length url ≤ 512
    → parse_request_url m least ≡ (ok, record m { rtsp_url = url ++ drop (length url) m.rtsp_url })
unfolding parse_request_url
request_url-at m least url at e f l =
    let short : ltb 512 (length url) ≡ false = ground arith in
    rw (parse_request_url, e, f, short) refl

parse_request_url-target :
    (m : RtspMessage) (url : List ℕ)
    → IsUrl url
    → parse_request_url m (trim (target url))
      ≡ (ok, record m { rtsp_url = url ++ drop (length url) m.rtsp_url })
unfolding parse_request_url
parse_request_url-target m [] h = refl
parse_request_url-target m (c ∷ url) h =
    let found = find-space rtsp_version (c ∷ url) rtsp_version refl h.other refl in
    ap (parse_request_url m) (trim-target c url h.compact)
    ∙ request_url-at m (target (c ∷ url)) (c ∷ url) (length (c ∷ url) + 1) found
        (trim-url (c ∷ url) h.compact) h.short

-- The line behind the name of a method.
named :
    (i : ℕ) (url : List ℕ)
    → IsUrl url
    → method_loop rtsp_methods 0 (get_or rtsp_methods i [] ++ (32 ∷ target url)) ≡ i
    → (i == 12) ≡ false
    → (i == 11) ≡ false
    → parse_rtsp_method_line new_rtsp_message (get_or rtsp_methods i [] ++ (32 ∷ target url))
      ≡ (ok, record new_rtsp_message { method_index = i; rtsp_url = url })
unfolding parse_rtsp_method_line
named i url h e f g =
    let name = get_or rtsp_methods i [] in
    let parts = length-append name (32 ∷ target url) in
    let rest = length-append url (32 ∷ rtsp_version) in
    let long : leb (length (name ++ (32 ∷ target url))) (length name + 1) ≡ false =
      ground (arith, parts, rest) in
    let behind : drop (length name + 1) (name ++ (32 ∷ target url)) ≡ target url =
      drop-drop (length name) 1 (name ++ (32 ∷ target url))
      ∙ ap (drop 1) (drop-append name (32 ∷ target url)) in
    let m1 = record new_rtsp_message { method_index = i } in
    rw (e, f, long, g, behind)
      (parse_request_url-target m1 url h
        ∙ ap (λ u. (ok, record m1 { rtsp_url = u }))
            (ap (◌++◌ url) (drop-nil (length url)) ∙ append-nil url))

pub parse_rtsp_method_line-target :
    (i : ℕ) (url : List ℕ)
    → i < 11
    → IsUrl url
    → parse_rtsp_method_line new_rtsp_message (get_or rtsp_methods i [] ++ (32 ∷ target url))
      ≡ (ok, record new_rtsp_message { method_index = i; rtsp_url = url })
unfolding method_loop
parse_rtsp_method_line-target zero url l h = named 0 url h refl refl refl
parse_rtsp_method_line-target (suc zero) url l h = named 1 url h refl refl refl
parse_rtsp_method_line-target (suc (suc zero)) url l h = named 2 url h refl refl refl
parse_rtsp_method_line-target (suc (suc (suc zero))) url l h = named 3 url h refl refl refl
parse_rtsp_method_line-target (suc (suc (suc (suc zero)))) url l h = named 4 url h refl refl refl
parse_rtsp_method_line-target (suc (suc (suc (suc (suc zero))))) url l h =
    named 5 url h refl refl refl
parse_rtsp_method_line-target (suc (suc (suc (suc (suc (suc zero)))))) url l h =
    named 6 url h refl refl refl
parse_rtsp_method_line-target (suc (suc (suc (suc (suc (suc (suc zero))))))) url l h =
    named 7 url h refl refl refl
parse_rtsp_method_line-target (suc (suc (suc (suc (suc (suc (suc (suc zero)))))))) url l h =
    named 8 url h refl refl refl
parse_rtsp_method_line-target (suc (suc (suc (suc (suc (suc (suc (suc (suc zero))))))))) url l h =
    named 9 url h refl refl refl
parse_rtsp_method_line-target (suc (suc (suc (suc (suc (suc (suc (suc (suc (suc zero)))))))))) url l
      h =
    named 10 url h refl refl refl
parse_rtsp_method_line-target (suc (suc (suc (suc (suc (suc (suc (suc (suc (suc (suc i)))))))))))
      url l h =
    absurd (omega (arith, l))
