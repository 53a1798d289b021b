-- ===== src/Reception/Split.antt =====
-- A stream of interleaved packets that comes in two parts, for handle_recv of
-- rtsp/mk_rtsp_connection.cpp.
use mathlib.Core.List.{append_assoc, append-nil}
use mathlib.Core.Path.{subst}
use lib_media_service.Common.{
  ℕ, zero, suc, ◌+◌, ◌-◌, ◌≤◌, ◌<◌, ◌≡◌, ◌⊎◌, inl, inr, refl, sym, ap, ◌∙◌, List, [], ◌∷◌, ◌++◌,
  length, length-append, take, drop, take-append, drop-append, drop-drop, arith, byte_at, net16,
  ltb-cases,
}
use lib_media_service.RtspService.{RtspService}
use lib_media_service.MediaPath.{MediaPath, handle_rtp_rtcp_data}
use lib_media_service.Reception.Frames.{
  Incomplete, Consumed, after_media, Delivers, rest, packet, byte_at-append, take-append_left,
  drop-append_left,
}

take-drop : (n : ℕ) (xs : List ℕ) → take n xs ++ drop n xs ≡ xs
take-drop zero xs = refl
take-drop (suc n) [] = refl
take-drop (suc n) (x ∷ xs) = ap (◌∷◌ x) (take-drop n xs)

-- The bytes of a prefix.
prefix_byte :
    (x b y d : List ℕ) (i : ℕ)
    → x ++ b ≡ y ++ d
    → i < length x
    → i < length y
    → byte_at x i ≡ byte_at y i
prefix_byte x b y d i e h k =
    sym (byte_at-append x b i h) ∙ ap (λ t. byte_at t i) e ∙ byte_at-append y d i k

-- The beginning of the beginning of a packet, and of a packet.
prefix-Incomplete :
    (x b y d : List ℕ)
    → x ++ b ≡ y ++ d
    → byte_at y 0 ≡ 36
    → length x ≤ length y
    → (length y < 4) ⊎ (length x < 4 + net16 y 2)
    → Incomplete x
prefix-Incomplete [] b y d e f l h = tt
prefix-Incomplete (c ∷ x) b y d e f l h =
    let first = prefix_byte (c ∷ x) b y d 0 e (omega arith) (omega (arith, l)) in
    elim (ltb-cases (length (c ∷ x)) 4) [
      | inl (_, short) ↦ (first ∙ f, inl short)
      | inr (_, headed) ↦
          let second =
            prefix_byte (c ∷ x) b y d 2 e (omega (arith, headed)) (omega (arith, headed, l)) in
          let third =
            prefix_byte (c ∷ x) b y d 3 e (omega (arith, headed)) (omega (arith, headed, l)) in
          elim h [
            | inl short ↦ absurd (omega (arith, short, l, headed))
            | inr short ↦ (first ∙ f, inr (omega (arith, short, second, third)))
          ]
    ]

rest-Incomplete : (stream x b : List ℕ) → stream ≡ x ++ b → Incomplete stream → Incomplete x
rest-Incomplete stream [] b e h = tt
rest-Incomplete [] (c ∷ x) b e h = absurd (omega (arith, ap length e))
rest-Incomplete (y ∷ stream) (c ∷ x) b e h =
    let sizes = length-append (c ∷ x) b in
    let shorter : length (c ∷ x) ≤ length (y ∷ stream) = omega (arith, ap length e, sizes) in
    let sooner : (length (y ∷ stream) < 4) ⊎ (length (c ∷ x) < 4 + net16 (y ∷ stream) 2) =
      elim h.1 [ inl short ↦ inl short | inr short ↦ inr (omega (arith, short, shorter)) ] in
    prefix-Incomplete (c ∷ x) b (y ∷ stream) [] (sym e ∙ sym (append-nil (y ∷ stream))) h.0 shorter
      sooner

-- A stream that is handled in two parts.
pub record Parted (memory : ℕ → ℕ → List ℕ) (c : MediaPath) (s : RtspService) (x b : List ℕ)
    (q : Consumed) : Type 0 where
  pub middle : Consumed
  pub last : Consumed
  pub first : Delivers (λ n. memory (n + length b)) c s x middle
  pub second : Delivers memory middle.path middle.service (middle.rest ++ b) last
  pub same : q ≡ after_media middle.media last

waits :
    {memory : ℕ → ℕ → List ℕ} {c : MediaPath} {s : RtspService} {stream : List ℕ} {q : Consumed}
    (x b : List ℕ)
    → Incomplete x
    → stream ≡ x ++ b
    → Delivers memory c s stream q
    → Parted memory c s x b q
waits {memory} {c} {s} {stream} {q} x b h e d = record {
  middle = record { path = c; service = s; media = []; rest = x };
  last = q;
  first = rest h;
  second = subst (λ t. Delivers memory c s t q) e d;
  same = refl;
}

pub Delivers-Parted :
    {memory : ℕ → ℕ → List ℕ} {c : MediaPath} {s : RtspService} {stream : List ℕ} {q : Consumed}
    (x b : List ℕ)
    → stream ≡ x ++ b
    → Delivers memory c s stream q
    → Parted memory c s x b q
Delivers-Parted {stream = stream} x b e (rest h) =
    waits x b (rest-Incomplete stream x b e h) e (rest h)
Delivers-Parted {memory} {c} {s} {stream} x b e (packet frame behind r f i a g d) =
    elim (ltb-cases (length x) (length frame)) [
      | inl (_, short) ↦
          waits x b
            (prefix-Incomplete x b frame behind (sym e ∙ f) i.starts (omega (arith, short))
              (inr (omega (arith, short, i.size))))
            e (packet frame behind r f i a g d)
      | inr (_, long) ↦
          let whole = sym e ∙ f in
          let n = length frame in
          let front =
            sym (take-append_left n x b long) ∙ ap (take n) whole ∙ take-append frame behind in
          let back =
            sym (drop-append frame behind)
            ∙ ap (drop n) (sym whole)
            ∙ drop-append_left n x b long in
          let p = Delivers-Parted (drop n x) b back d in
          let size = ap length e ∙ length-append x b in
          let handled = ap (λ k. handle_rtp_rtcp_data (memory k) c s frame) (sym size) ∙ g in
          record {
            middle = after_media r.media p.middle;
            last = p.last;
            first =
                packet frame (drop n x) r (sym (take-drop n x) ∙ ap (λ t. t ++ drop n x) front) i a
                  handled p.first;
            second = p.second;
            same =
                ap (after_media r.media) p.same
                ∙ ap {B = Consumed} (λ m. record p.last { media = m })
                    (sym (append_assoc r.media p.middle.media p.last.media));
          }
    ]

-- What is left is the end of the stream, and the beginning of a packet.
pub record Left (stream : List ℕ) (q : Consumed) : Type 0 where
  pub incomplete : Incomplete q.rest
  pub size : length q.rest ≤ length stream
  pub end : drop (length stream - length q.rest) stream ≡ q.rest

pub Delivers-Left :
    {memory : ℕ → ℕ → List ℕ} {c : MediaPath} {s : RtspService} {stream : List ℕ} {q : Consumed}
    → Delivers memory c s stream q
    → Left stream q
Delivers-Left {stream = stream} (rest h) = record {
  incomplete = h;
  size = omega arith;
  end = ap (λ n. drop n stream) {x = length stream - length stream} {y = 0} (omega arith);
}
Delivers-Left {stream = stream} {q = q} (packet frame behind r f i a g d) =
    let l = Delivers-Left d in
    let sizes = ap length f ∙ length-append frame behind in
    record {
      incomplete = l.incomplete;
      size = omega (arith, l.size, sizes);
      end =
          ap (λ t. drop (length stream - length q.rest) t) f
          ∙ ap (λ n. drop n (frame ++ behind)) {x = length stream - length q.rest}
              {y = length frame + (length behind - length q.rest)} (omega (arith, l.size, sizes))
          ∙ drop-drop (length frame) (length behind - length q.rest) (frame ++ behind)
          ∙ ap (drop (length behind - length q.rest)) (drop-append frame behind)
          ∙ l.end;
    }

pub Delivers-path :
    {memory : ℕ → ℕ → List ℕ} {c : MediaPath} {s : RtspService} {stream : List ℕ} {q : Consumed}
    → Delivers memory c s stream q
    → q.path ≡ record c { organizer = q.path.organizer }
Delivers-path (rest h) = refl
Delivers-path (packet frame behind r f i a g d) = Delivers-path d
