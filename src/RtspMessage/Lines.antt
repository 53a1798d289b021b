-- ===== src/RtspMessage/Lines.antt =====
-- The text of rtsp/mk_rtsp_packet.cpp, read back: lines, numbers and trimmed values.
use lib_media_service.Common.{
  ℕ, ◌+◌, ◌≡◌, refl, ap, ◌∙◌, Bool, true, not, ◌&&◌, &&-true, some, List, [], ◌∷◌, ◌++◌, length,
  take-append, arith, ◌==◌, c_string, find, keep_space, trim_back, trim_front,
}
use lib_media_service.RtspMessage.{end_line}
use lib_media_service.RtspMessage.Parse.{read_rtsp_line, trim}

-- No character of a text is a NUL or a carriage return.
abbrev pub in_line : List ℕ → Bool
in_line [] = true
in_line (c ∷ s) = (not (c == 0) && not (c == 13)) && in_line s

pub in_line-append : (s t : List ℕ) → in_line s ≡ true → in_line t ≡ true → in_line (s ++ t) ≡ true
in_line-append [] t h k = k
in_line-append (c ∷ s) t h k =
    let rest = in_line-append s t (&&-true (not (c == 0) && not (c == 13)) (in_line s) h).1 k in
    rw ((&&-true (not (c == 0) && not (c == 13)) (in_line s) h).0, rest) refl

find-end :
    (line rest : List ℕ)
    → in_line line ≡ true
    → find end_line (c_string (line ++ (end_line ++ rest))) ≡ some (length line)
find-end [] rest h = refl
find-end (c ∷ line) rest h =
    let parts = &&-true (not (c == 0) && not (c == 13)) (in_line line) h in
    let later = find-end line rest parts.1 in let first = parts.0 in ground (arith, later, first)

pub read_rtsp_line-line :
    (line rest : List ℕ)
    → in_line line ≡ true
    → read_rtsp_line (line ++ (end_line ++ rest)) ≡ some (line, length line + 2)
unfolding read_rtsp_line
read_rtsp_line-line line rest h =
    rw (find-end line rest h, take-append line (end_line ++ rest)) refl

-- A text without spaces.
abbrev pub no_space : List ℕ → Bool
no_space [] = true
no_space (c ∷ s) = not (c == 32) && no_space s

keep_space-same : (c : ℕ) (s : List ℕ) → not (c == 32) ≡ true → keep_space c s ≡ c ∷ s
keep_space-same c [] h = ground (arith, h)
keep_space-same c (d ∷ t) h = refl

trim_back-same : (s : List ℕ) → no_space s ≡ true → trim_back s ≡ s
trim_back-same [] h = refl
trim_back-same (c ∷ s) h =
    let parts = &&-true (not (c == 32)) (no_space s) h in
    ap (keep_space c) (trim_back-same s parts.1) ∙ keep_space-same c s parts.0

-- A text with one space behind it.
pub trim_back-space : (s : List ℕ) → no_space s ≡ true → trim_back (s ++ (32 ∷ [])) ≡ s
trim_back-space [] h = refl
trim_back-space (c ∷ s) h =
    let parts = &&-true (not (c == 32)) (no_space s) h in
    ap (keep_space c) (trim_back-space s parts.1) ∙ keep_space-same c s parts.0

-- A text that ends as `e ∷ end` does, which nothing is trimmed from.
pub trim_back-append :
    (s : List ℕ) (e : ℕ) (end : List ℕ)
    → trim_back (e ∷ end) ≡ e ∷ end
    → trim_back (s ++ (e ∷ end)) ≡ s ++ (e ∷ end)
trim_back-append [] e end h = h
trim_back-append (c ∷ []) e end h = ap (keep_space c) h
trim_back-append (c ∷ d ∷ s) e end h = ap (keep_space c) (trim_back-append (d ∷ s) e end h)

pub trim_front-same : (s : List ℕ) → no_space s ≡ true → trim_front s ≡ s
trim_front-same [] h = refl
trim_front-same (c ∷ s) h =
    let first = (&&-true (not (c == 32)) (no_space s) h).0 in ground (arith, first)

-- A text that nothing is trimmed from.
pub record Tidy (s : List ℕ) : Type 0 where
  pub back : trim_back s ≡ s
  pub front : trim_front s ≡ s

pub no_space-Tidy : (s : List ℕ) → no_space s ≡ true → Tidy s
no_space-Tidy s h = record { back = trim_back-same s h; front = trim_front-same s h }

-- The value of a header behind its colon and space.
pub trim-value : (s : List ℕ) → Tidy s → trim (32 ∷ s) ≡ s
trim-value [] h = refl
trim-value (c ∷ s) h = ap (λ t. trim_front (keep_space 32 t)) h.back ∙ h.front
