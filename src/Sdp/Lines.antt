-- ===== src/Sdp/Lines.antt =====
-- The lines of a description, for decodeSdp of rtsp/mk_media_sdp.cpp.
use lib_media_service.Common.{
  ℕ, zero, suc, ◌+◌, ◌/◌, ◌%◌, ◌^◌, ◌≤◌, ◌<◌, ◌≡◌, refl, sym, ap, ◌∙◌, inl, inr, Bool, true, false,
  not, ◌&&◌, &&-true, Option, some, List, [], ◌∷◌, ◌++◌, length, length-append, ltb-cases, arith,
  ◌==◌, skip_spaces, read_sign, read_digits, digits, atoi, print_u32, print_lld, ◌-◌, ok,
}
use lib_media_service.RtspMessage.Numbers.{read_digits-digits}
use lib_media_service.Sdp.{end_tag, print_lines, Decoding, get_next_line}
use lib_media_service.Sdp.Decode.{decode_line, decode_loop}

-- No character of a text ends a line.
abbrev pub in_line : List ℕ → Bool
in_line [] = true
in_line (c ∷ s) = (not (c == 0) && (not (c == 10) && not (c == 13))) && in_line s

pub in_line-append : (s t : List ℕ) → in_line s ≡ true → in_line t ≡ true → in_line (s ++ t) ≡ true
in_line-append [] t h k = k
in_line-append (c ∷ s) t h k =
    let parts = &&-true (not (c == 0) && (not (c == 10) && not (c == 13))) (in_line s) h in
    rw (parts.0, in_line-append s t parts.1 k) refl

get_next_line-line :
    (line rest : List ℕ)
    → in_line line ≡ true
    → get_next_line (line ++ (end_tag ++ rest)) ≡ some (line, 10 ∷ rest)
unfolding get_next_line
get_next_line-line [] rest h = refl
get_next_line-line (c ∷ line) rest h =
    let parts = &&-true (not (c == 0) && (not (c == 10) && not (c == 13))) (in_line line) h in
    let later = get_next_line-line line rest parts.1 in
    let first = parts.0 in rw later (ground (arith, first))

decode_line-empty :
    (strsep : List ℕ → List ℕ × Option (List ℕ)) (d : Decoding) → decode_line strsep d [] ≡ (ok, d)
unfolding decode_line
decode_line-empty strsep d = refl

module _ (strsep : List ℕ → List ℕ × Option (List ℕ)) where
  -- Lines that are decoded one after the other.
  pub data Steps : Decoding → List (List ℕ) → Decoding → Type 0 where
    done : {d : Decoding} → Steps d [] d
    step :
        {d d' : Decoding} {lines : List (List ℕ)} (line : List ℕ) (next : Decoding)
        → in_line line ≡ true
        → decode_line strsep d line ≡ (ok, next)
        → Steps next lines d'
        → Steps d (line ∷ lines) d'

  pub Steps-append :
      {d d' d'' : Decoding} {lines lines' : List (List ℕ)}
      → Steps d lines d'
      → Steps d' lines' d''
      → Steps d (lines ++ lines') d''
  Steps-append done k = k
  Steps-append (step line next h e s) k = step line next h e (Steps-append s k)

  pub decode_loop-Steps :
      {d d' : Decoding} {lines : List (List ℕ)} (fuel : ℕ)
      → length (print_lines lines) < fuel
      → Steps d lines d'
      → decode_loop strsep fuel (print_lines lines) d ≡ some (ok, d')
  unfolding decode_loop
  decode_loop-Steps zero l s = absurd (omega (arith, l))
  decode_loop-Steps (suc fuel) l done = refl
  decode_loop-Steps (suc zero) l (step {lines = lines} line next h e s) =
      absurd (omega (arith, l, length-append line (end_tag ++ print_lines lines)))
  decode_loop-Steps (suc (suc fuel)) l (step {lines = lines} line next h e s) =
      let sizes = length-append line (end_tag ++ print_lines lines) in
      rw (get_next_line-line line (print_lines lines) h, e, decode_line-empty strsep next)
        (decode_loop-Steps fuel (omega (arith, l, sizes)) s)

-- The number of a payload type is read back.
abbrev IsDigit : List ℕ → Type 0
IsDigit s = (c : ℕ) × (t : List ℕ) × (s ≡ c ∷ t) × (48 ≤ c) × (c ≤ 57)

digits-IsDigit :
    (fuel n c : ℕ) (rest : List ℕ) → 48 ≤ c → c ≤ 57 → IsDigit (digits fuel n (c ∷ rest))
digits-IsDigit zero n c rest l u = (c, rest, refl, l, u)
digits-IsDigit (suc fuel) n c rest l u = elim (ltb-cases n 10) [
  | inl small ↦ (48 + n, c ∷ rest, rw small.0 refl, omega arith, omega (arith, small.1))
  | inr large ↦
      let more =
        digits-IsDigit fuel (n / 10) (48 + n % 10) (c ∷ rest) (omega arith) (omega arith) in
      (more.0, more.1, rw large.0 more.2, more.3, more.4)
]

pub print_u32-IsDigit : (n : ℕ) → IsDigit (print_u32 n)
unfolding print_u32
print_u32-IsDigit n = elim (ltb-cases n 10) [
  | inl small ↦ (48 + n, [], rw small.0 refl, omega arith, omega (arith, small.1))
  | inr large ↦
      let more = digits-IsDigit 9 (n / 10) (48 + n % 10) [] (omega arith) (omega arith) in
      (more.0, more.1, rw large.0 more.2, more.3, more.4)
]

pub skip_spaces-digit : (c : ℕ) (t : List ℕ) → 48 ≤ c → skip_spaces (c ∷ t) ≡ c ∷ t
skip_spaces-digit c t l = ground arith

read_sign-digit : (c : ℕ) (t : List ℕ) → 48 ≤ c → read_sign (c ∷ t) ≡ (false, c ∷ t)
read_sign-digit c t l = ground arith

atoi-digit :
    (c : ℕ) (t : List ℕ)
    → 48 ≤ c
    → read_digits 10 0 (c ∷ t) < 4294967296
    → atoi (c ∷ t) ≡ read_digits 10 0 (c ∷ t)
unfolding atoi
atoi-digit c t l h = rw (skip_spaces-digit c t l, read_sign-digit c t l) (omega (arith, h))

pub atoi-print_u32 : (n : ℕ) → n < 4294967296 → atoi (print_u32 n) ≡ n
unfolding print_u32
atoi-print_u32 n h =
    let (c, t, e, l, u) = print_u32-IsDigit n in
    let value = read_digits-digits 10 n [] (omega (arith, h)) in
    let same = ap (read_digits 10 0) (sym e) ∙ value in
    ap atoi e ∙ atoi-digit c t l (omega (arith, same, h)) ∙ same

digits-in_line :
    (fuel n : ℕ) (rest : List ℕ) → in_line rest ≡ true → in_line (digits fuel n rest) ≡ true
digits-in_line zero n rest h = h
digits-in_line (suc fuel) n rest h =
    let last : in_line ((48 + n % 10) ∷ rest) ≡ true = ground (arith, h) in
    elim (ltb-cases n 10) [
      | inl small ↦
          (let first : in_line ((48 + n) ∷ rest) ≡ true = ground (arith, h) in rw small.0 first)
      | inr large ↦ rw large.0 (digits-in_line fuel (n / 10) ((48 + n % 10) ∷ rest) last)
    ]

pub print_u32-in_line : (n : ℕ) → in_line (print_u32 n) ≡ true
unfolding print_u32
print_u32-in_line n = digits-in_line 10 n [] refl

pub print_lld-in_line : (n : ℕ) → in_line (print_lld n) ≡ true
unfolding print_lld
print_lld-in_line n = elim (ltb-cases n (2 ^ 63)) [
  | inl small ↦ rw small.0 (digits-in_line 20 n [] refl)
  | inr large ↦ rw large.0 (digits-in_line 20 (2 ^ 64 - n) [] refl)
]
