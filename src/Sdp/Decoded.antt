-- ===== src/Sdp/Decoded.antt =====
-- A whole description that a server prints, decoded by decodeSdp of rtsp/mk_media_sdp.cpp.
use lib_media_service.Common.{
  ℕ, suc, ◌<◌, ◌≡◌, subst, inl, inr, refl, sym, ap, ◌∙◌, true, false, Option, none, some, List, [],
  ◌∷◌, ◌++◌, All, length, length-append, arith, codes, skip_spaces, Status, ok,
}
use lib_media_service.Session.{MediaKind, video_media, audio_media, other_media}
use lib_media_service.Sdp.{described, media_of, print_lines, Sdp, SdpMedia, Decoding, new_sdp}
use lib_media_service.Sdp.Decode.{if_any, decode_line, decode_behind, decode_value, decode_sdp}
use lib_media_service.Sdp.Lines.{
  in_line, in_line-append, Steps, done, step, Steps-append, decode_loop-Steps,
}
use lib_media_service.Sdp.Media.{
  IsStrsep, Offer, IsOffer, offer_lines, media_info, holding, with_medium, pointed, offer-Steps,
}

-- The lines of what is offered.
abbrev pub media_lines : List Offer → List (List ℕ)
media_lines [] = []
media_lines (o ∷ os) = offer_lines o ++ media_lines os

-- A description, as a server prints it.
abbrev pub print_offers : List ℕ → List Offer → List ℕ
print_offers name os =
    print_lines (codes "v=0" ∷ (codes "s=" ++ name) ∷ codes "t=0 0" ∷ media_lines os)

-- What is kept of the videos, and of the others.
abbrev add_video : MediaKind → SdpMedia → List SdpMedia → List SdpMedia
add_video video_media m ms = m ∷ ms
add_video _ m ms = ms

abbrev add_audio : MediaKind → SdpMedia → List SdpMedia → List SdpMedia
add_audio audio_media m ms = m ∷ ms
add_audio _ m ms = ms

abbrev pub videos : List Offer → List SdpMedia
videos [] = []
videos (o ∷ os) = add_video o.kind (media_info o) (videos os)

abbrev pub audios : List Offer → List SdpMedia
audios [] = []
audios (o ∷ os) = add_audio o.kind (media_info o) (audios os)

-- A description that has what was offered, behind what it had.
abbrev pub Offered : Sdp → List Offer → Sdp → Type 0
Offered sdp os sdp' =
    (sdp'.session_name ≡ sdp.session_name)
    × (sdp'.video_info_list ≡ sdp.video_info_list ++ videos os)
    × (sdp'.audio_info_list ≡ sdp.audio_info_list ++ audios os)

append_nil {ℓ} : {A : Type ℓ} (xs : List A) → xs ++ [] ≡ xs
append_nil [] = refl
append_nil (x ∷ xs) = ap (◌∷◌ x) (append_nil xs)

append_one {ℓ} :
    {A : Type ℓ} (xs : List A) (x : A) (ys : List A) → (xs ++ (x ∷ [])) ++ ys ≡ xs ++ (x ∷ ys)
append_one [] x ys = refl
append_one (z ∷ xs) x ys = ap (◌∷◌ z) (append_one xs x ys)

held :
    (sdp : Sdp) (m : SdpMedia) (kind : MediaKind) (os : List Offer) (sdp' : Sdp)
    → Offered (holding sdp m kind).sdp os sdp'
    → (sdp'.session_name ≡ sdp.session_name)
      × (sdp'.video_info_list ≡ sdp.video_info_list ++ add_video kind m (videos os))
      × (sdp'.audio_info_list ≡ sdp.audio_info_list ++ add_audio kind m (audios os))
held sdp m video_media os sdp' (n, v, a) = (n, v ∙ append_one sdp.video_info_list m (videos os), a)
held sdp m audio_media os sdp' (n, v, a) = (n, v, a ∙ append_one sdp.audio_info_list m (audios os))
held sdp m other_media os sdp' (n, v, a) = (n, v, a)

if_any-length : (ms : List SdpMedia) (r : Status × Sdp) → 0 < length ms → if_any ms r ≡ r
if_any-length [] r l = absurd (omega (arith, l))
if_any-length (m ∷ ms) r l = refl

offers-length :
    (o : Offer) (os : List Offer) → IsOffer o → 0 < length (videos (o ∷ os) ++ audios (o ∷ os))
offers-length o os i = elim i.kind [
  | inl k ↦ rw k (omega arith)
  | inr k ↦
      let size = length-append (videos os) (media_info o ∷ audios os) in
      let more : 0 < length (videos os ++ (media_info o ∷ audios os)) = omega (arith, size) in
      subst
        (λ kind.
          0
          < length (
              add_video kind (media_info o) (videos os)
              ++ add_audio kind (media_info o) (audios os)))
        (sym k) more
]

module _ (strsep : List ℕ → List ℕ × Option (List ℕ)) (h : IsStrsep strsep) where
  offers-Steps :
      (sdp : Sdp) (current : Option MediaKind) (os : List Offer)
      → All IsOffer os
      → (d' : Decoding) × Steps strsep
          (record { sdp = sdp; current = current; first = false })
          (media_lines os)
          d'
        × Offered sdp os d'.sdp
  offers-Steps sdp current [] is = (
    record { sdp = sdp; current = current; first = false },
    done,
    (refl, sym (append_nil _), sym (append_nil _)),
  )
  offers-Steps sdp current (o ∷ os) (i, is) =
      let m = media_info o in
      let (d', s, w) = offers-Steps (with_medium sdp m o.kind) (pointed o.kind) os is in
      (
        d',
        Steps-append strsep (offer-Steps strsep h sdp current o i) s,
        held sdp m o.kind os d'.sdp w,
      )

  print_offers-Steps :
      (name : List ℕ) (os : List Offer)
      → in_line name ≡ true
      → All IsOffer os
      → (d' : Decoding) × Steps strsep
          (record { sdp = new_sdp; current = none; first = true })
          (codes "v=0" ∷ (codes "s=" ++ name) ∷ codes "t=0 0" ∷ media_lines os)
          d'
        × Offered (record new_sdp { session_name = skip_spaces name }) os d'.sdp
  unfolding decode_line decode_behind decode_value
  print_offers-Steps name os k is =
      let named : Sdp = record new_sdp { session_name = skip_spaces name } in
      let (d', s, w) = offers-Steps named none os is in
      (
        d',
        step _ (record { sdp = new_sdp; current = none; first = false }) refl refl
            (step _ (record { sdp = named; current = none; first = false })
              (in_line-append (codes "s=") name refl k) refl
              (step _ (record { sdp = named; current = none; first = false }) refl refl s)),
        w,
      )

  pub decode_sdp-Steps :
      (sdp : Sdp) (c : ℕ) (line : List ℕ) (lines : List (List ℕ)) (d' : Decoding)
      → Steps strsep (record { sdp = sdp; current = none; first = true }) ((c ∷ line) ∷ lines) d'
      → 0 < length (d'.sdp.video_info_list ++ d'.sdp.audio_info_list)
      → decode_sdp strsep sdp (print_lines ((c ∷ line) ∷ lines)) ≡ some (ok, d'.sdp)
  unfolding decode_sdp
  decode_sdp-Steps sdp c line lines d' s l =
      let text = print_lines ((c ∷ line) ∷ lines) in
      let run = decode_loop-Steps strsep (suc (length text)) (omega arith) s in
      rw run (ap (λ (r : Status × Sdp). some r) (if_any-length _ (ok, d'.sdp) l))

  -- A description of one medium or more, videos and audios with payload types of one byte,
  -- controls, and texts without line ends, printed line by line, is decoded, where as_strsep
  -- splits at the first space: the session has its name without the spaces in front, the videos
  -- and the audios are kept in the order they are offered in, with their payload types, maps and
  -- controls, and the connection takes the videos and then the audios as its media.
  pub decode_sdp-print_offers :
      (name : List ℕ) (o : Offer) (os : List Offer)
      → in_line name ≡ true
      → IsOffer o
      → All IsOffer os
      → (sdp : Sdp) × (decode_sdp strsep new_sdp (print_offers name (o ∷ os)) ≡ some (ok, sdp))
        × (sdp.session_name ≡ skip_spaces name)
        × (sdp.video_info_list ≡ videos (o ∷ os))
        × (sdp.audio_info_list ≡ audios (o ∷ os))
        × ((described sdp).media ≡ media_of (videos (o ∷ os) ++ audios (o ∷ os)))
  unfolding described
  decode_sdp-print_offers name o os k i is =
      let (d', s, w) = print_offers-Steps name (o ∷ os) k (i, is) in
      let lists = ap (λ (l : List SdpMedia). l ++ d'.sdp.audio_info_list) w.1 in
      let both = ap (λ (l : List SdpMedia). videos (o ∷ os) ++ l) w.2 in
      let some_medium = ap length (lists ∙ both) in
      let least = offers-length o os i in
      (
        d'.sdp,
        decode_sdp-Steps new_sdp _ _ _ d' s (omega (arith, some_medium, least)),
        w.0,
        w.1,
        w.2,
        ap media_of (lists ∙ both),
      )
