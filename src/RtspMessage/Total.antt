-- ===== src/RtspMessage/Total.antt =====
-- parse of rtsp/mk_rtsp_packet.cpp ends: each round of its loop takes a line and its end.
use lib_media_service.Common.{
  ℕ, zero, suc, ◌+◌, ◌≤◌, ◌<◌, ◌≡◌, refl, Bool, true, false, not, Option, none, some, List, [], ◌∷◌,
  ltb, ◌==◌, if◌then◌else◌, on_some, take, fail, arith, drop, Status, is_ok,
}
use lib_media_service.RtspMessage.{RtspMessage, rtsp_headers}
use lib_media_service.RtspMessage.Parse.{
  read_rtsp_line, header_loop, one_header, parse_rtsp_header_value, headers_loop, parse,
  take_content, parse_rtsp_method_line,
}

-- A result.
pub data Ends : Option (Status × RtspMessage) → Type 0 where
  ends : (code : Status) (m : RtspMessage) → Ends (some (code, m))

if-Ends :
    (b : Bool) {x y : Option (Status × RtspMessage)}
    → (b ≡ true → Ends x)
    → (b ≡ false → Ends y)
    → Ends (if b then x else y)
if-Ends true h k = h refl
if-Ends false h k = k refl

on_some-Ends {ℓ} :
    {A : Type ℓ} (o : Option A) {b : Option (Status × RtspMessage)}
    {f : A → Option (Status × RtspMessage)}
    → Ends b
    → ((a : A) → o ≡ some a → Ends (f a))
    → Ends (on_some o b f)
on_some-Ends none h k = h
on_some-Ends (some a) h k = k a refl

read_rtsp_line-takes : (buf : List ℕ) (r : List ℕ × ℕ) → read_rtsp_line buf ≡ some r → 2 ≤ r.1
unfolding read_rtsp_line
read_rtsp_line-takes buf r e = ground arith

one_header-Ends :
    (atof : List ℕ → ℕ) (line : List ℕ) (m : RtspMessage)
    (next : RtspMessage → Option (Status × RtspMessage))
    → ((m' : RtspMessage) → Ends (next m'))
    → Ends (one_header atof line m next)
unfolding one_header
one_header-Ends atof [] m next h = ends _ _
one_header-Ends atof (c ∷ s) m next h =
    let index = header_loop rtsp_headers 0 (c ∷ s) in
    let r = parse_rtsp_header_value atof m index (c ∷ s) in
    if-Ends (index == 12) (λ _. h m) λ _. if-Ends (is_ok r.0) (λ _. h r.1) (λ _. ends _ _)

headers_loop-Ends :
    (atof : List ℕ → ℕ) (fuel : ℕ) (buf : List ℕ) (size offset : ℕ) (m : RtspMessage)
    → 0 < fuel
    → size < offset + fuel
    → Ends (headers_loop atof fuel buf size offset m)
unfolding headers_loop
headers_loop-Ends atof zero buf size offset m h k = absurd (omega arith)
headers_loop-Ends atof (suc fuel) buf size offset m h k =
    let again : (r : List ℕ × ℕ)
        → read_rtsp_line (drop offset buf) ≡ some r
        → offset < size
        → (m' : RtspMessage) → Ends (headers_loop atof fuel buf size (offset + r.1) m') =
      λ r e l m'.
        let takes = read_rtsp_line-takes (drop offset buf) r e in
        headers_loop-Ends atof fuel buf size (offset + r.1) m' (omega (arith, k, l))
          (omega (arith, k, l, takes)) in
    if-Ends (not (ltb offset size)) (λ _. ends _ _)
      λ e. on_some-Ends (read_rtsp_line (drop offset buf)) (ends _ _) λ r f.
        one_header-Ends atof r.0 m (λ m'. headers_loop atof fuel buf size (offset + r.1) m')
          (again r f (ground (arith, e)))

-- parse gives a status and a message for every text and size: with one round more than bytes its
-- loop never runs out.
pub parse-Ends :
    (atof : List ℕ → ℕ) (m : RtspMessage) (buf : List ℕ) (size : ℕ) → Ends (parse atof m buf size)
unfolding parse
parse-Ends atof m buf size =
    if-Ends (size == 0) (λ _. ends _ _)
      λ _. on_some-Ends (read_rtsp_line buf) (ends _ _) λ r _.
        let first = parse_rtsp_method_line m r.0 in
        if-Ends (not (is_ok first.0)) (λ _. ends _ _)
          λ _.
            finish (headers_loop atof (suc size) buf size r.1 first.1)
              (headers_loop-Ends atof (suc size) buf size r.1 first.1 (omega arith) (omega arith))
  where
    finish :
        (x : Option (Status × RtspMessage))
        → Ends x
        → Ends (
            on_some x none λ h.
              if not (is_ok h.0) then some (fail, h.1) else some (take_content h.1 (take size buf)))
    finish none e = elim e [ ]
    finish (some _) (ends code t) = if-Ends (not (is_ok code)) (λ _. ends _ _) (λ _. ends _ _)
