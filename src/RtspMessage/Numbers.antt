-- ===== src/RtspMessage/Numbers.antt =====
-- The numbers that rtsp/mk_rtsp_packet.cpp prints, read back by strtoull.
use lib_media_service.Common.{
  find, codes, none, ℕ, zero, suc, ◌+◌, ◌*◌, ◌/◌, ◌%◌, ◌^◌, ◌≤◌, ◌<◌, ◌≡◌, refl, sym, ap, ◌∙◌, inl,
  inr, true, false, List, [], ◌∷◌, ltb, leb, ltb-cases, arith, ◌==◌, skip_spaces, read_sign,
  read_prefix, digit_value, read_digits, digits, strtoull, print_u32, print_lld,
}
use lib_media_service.RtspMessage.Lines.{in_line, no_space}

-- Digits in front of `rest`, with a number already read.
abbrev pub bound : ℕ → ℕ
bound zero = 1
bound (suc fuel) = 10 * bound fuel

digit :
    (n : ℕ) (rest : List ℕ) (acc : ℕ)
    → n < 10
    → read_digits 10 acc ((48 + n) ∷ rest) ≡ read_digits 10 (acc * 10 + n) rest
digit n rest acc h =
    let value : digit_value (48 + n) ≡ n = ground (arith, h) in rw value (ground (arith, h))

pub read_digits-digits :
    (fuel n : ℕ) (rest : List ℕ)
    → n < bound fuel
    → read_digits 10 0 (digits fuel n rest) ≡ read_digits 10 n rest
read_digits-digits zero n rest h = ap (λ k. read_digits 10 k rest) {x = 0} {y = n} (omega arith)
read_digits-digits (suc fuel) n rest h =
    let last = digit (n % 10) rest (n / 10) (omega arith) in
    let front = read_digits-digits fuel (n / 10) ((48 + n % 10) ∷ rest) (omega (arith, h)) in
    let whole = ap (λ k. read_digits 10 k rest) {x = n / 10 * 10 + n % 10} {y = n} (omega arith) in
    elim (ltb-cases n 10) [
      | inl small ↦
          let only = digit n rest 0 small.1 in
          let same = ap (λ k. read_digits 10 k rest) {x = 0 * 10 + n} {y = n} (omega arith) in
          rw small.0 (only ∙ same)
      | inr large ↦ rw large.0 (front ∙ last ∙ whole)
    ]

-- The first digit, which is 0 only for the number 0.
digits-first :
    (fuel n : ℕ) (rest : List ℕ)
    → n < bound (suc fuel)
    → 0 < n
    → (c : ℕ) × (t : List ℕ) × (digits (suc fuel) n rest ≡ c ∷ t) × (49 ≤ c) × (c ≤ 57)
digits-first zero n rest h p = (48 + n, rest, ground (arith, h), omega arith, omega arith)
digits-first (suc fuel) n rest h p = elim (ltb-cases n 10) [
  | inl small ↦ (48 + n, rest, rw small.0 refl, omega arith, omega (arith, small.1))
  | inr large ↦
      let (c, t, e, l, u) =
        digits-first fuel (n / 10) ((48 + n % 10) ∷ rest) (omega (arith, h))
          (omega (arith, large.1)) in
      (c, t, rw large.0 e, l, u)
]

skip_spaces-digit : (c : ℕ) (t : List ℕ) → 49 ≤ c → skip_spaces (c ∷ t) ≡ c ∷ t
skip_spaces-digit c t l = ground arith

read_sign-digit : (c : ℕ) (t : List ℕ) → 49 ≤ c → read_sign (c ∷ t) ≡ (false, c ∷ t)
read_sign-digit c t l = ground arith

read_prefix-digit : (c : ℕ) (t : List ℕ) → 49 ≤ c → read_prefix (c ∷ t) ≡ (10, c ∷ t)
read_prefix-digit c [] l = refl
read_prefix-digit c (d ∷ t) l = let other : (c == 48) ≡ false = ground arith in rw other refl

strtoull-plain :
    (c : ℕ) (t : List ℕ)
    → 49 ≤ c
    → read_digits 10 0 (c ∷ t) < 18446744073709551616
    → strtoull (c ∷ t) ≡ read_digits 10 0 (c ∷ t)
unfolding strtoull
strtoull-plain c t l w =
    let small : leb (2 ^ 64) (read_digits 10 0 (c ∷ t)) ≡ false = ground (arith, w) in
    rw (skip_spaces-digit c t l, read_sign-digit c t l, read_prefix-digit c t l, small) refl

strtoull-digits :
    (fuel n : ℕ)
    → n < bound (suc fuel)
    → n < 18446744073709551616
    → strtoull (digits (suc fuel) n []) ≡ n
unfolding strtoull
strtoull-digits fuel zero h w = refl
strtoull-digits fuel (suc n) h w =
    let (c, t, e, l, u) = digits-first fuel (suc n) [] h (omega arith) in
    let value = read_digits-digits (suc fuel) (suc n) [] h in
    let same = ap (read_digits 10 0) (sym e) ∙ value in
    ap strtoull e ∙ strtoull-plain c t l (omega (arith, same, w)) ∙ same

in_line-digits :
    (fuel n : ℕ) (rest : List ℕ) → in_line rest ≡ true → in_line (digits fuel n rest) ≡ true
in_line-digits zero n rest h = h
in_line-digits (suc fuel) n rest h = elim (ltb-cases n 10) [
  | inl small ↦ rw (small.0, h) (ground arith)
  | inr large ↦
      rw large.0 (in_line-digits fuel (n / 10) ((48 + n % 10) ∷ rest) (rw h (ground arith)))
]

no_space-digits :
    (fuel n : ℕ) (rest : List ℕ) → no_space rest ≡ true → no_space (digits fuel n rest) ≡ true
no_space-digits zero n rest h = h
no_space-digits (suc fuel) n rest h = elim (ltb-cases n 10) [
  | inl small ↦ rw (small.0, h) (ground arith)
  | inr large ↦
      rw large.0 (no_space-digits fuel (n / 10) ((48 + n % 10) ∷ rest) (rw h (ground arith)))
]

no_semicolon-digits :
    (fuel n : ℕ) (rest : List ℕ)
    → find (codes ";") rest ≡ none
    → find (codes ";") (digits fuel n rest) ≡ none
no_semicolon-digits zero n rest h = h
no_semicolon-digits (suc fuel) n rest h = elim (ltb-cases n 10) [
  | inl small ↦ rw (small.0, h) (ground arith)
  | inr large ↦
      rw large.0 (no_semicolon-digits fuel (n / 10) ((48 + n % 10) ∷ rest) (rw h (ground arith)))
]

-- The text of a number, in a line.
pub record Prints (text : List ℕ) (n : ℕ) : Type 0 where
  pub reads : strtoull text ≡ n
  pub line : in_line text ≡ true
  pub compact : no_space text ≡ true
  pub plain : find (codes ";") text ≡ none

pub print_u32-Prints : (n : ℕ) → n < 4294967296 → Prints (print_u32 n) n
unfolding print_u32
print_u32-Prints n h = record {
  reads = strtoull-digits 9 n (omega arith) (omega arith);
  line = in_line-digits 10 n [] refl;
  compact = no_space-digits 10 n [] refl;
  plain = no_semicolon-digits 10 n [] refl;
}

pub print_lld-Prints : (n : ℕ) → n < 9223372036854775808 → Prints (print_lld n) n
unfolding print_lld
print_lld-Prints n h =
    let positive : ltb n (2 ^ 63) ≡ true = ground arith in
    record {
      reads = rw positive (strtoull-digits 19 n (omega arith) (omega arith));
      line = rw positive (in_line-digits 20 n [] refl);
      compact = rw positive (no_space-digits 20 n [] refl);
      plain = rw positive (no_semicolon-digits 20 n [] refl);
    }
