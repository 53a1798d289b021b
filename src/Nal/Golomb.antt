-- ===== src/Nal/Golomb.antt =====
-- u and Ue of mk_nal_sps_parse.cpp against the codes of the H.264 standard: u(n) and ue(v).
use native.Mathlib.Nat.{pow-le-pow_right, two-pow-succ, one-le-pow}
use mathlib.Core.List.{append_assoc}
use lib_media_service.Common.{
  ℕ, zero, suc, ◌+◌, ◌-◌, ◌*◌, ◌/◌, ◌%◌, ◌^◌, ◌≤◌, ◌<◌, ◌≡◌, refl, sym, ap, ◌∙◌, Option, some, List,
  [], ◌∷◌, ◌++◌, arith, length, drop, ltb, ltb-cases, inl, inr, lt→ltb, length-append,
  length-replicate, replicate, if◌then◌else◌,
}
use lib_media_service.Nal.{◌>>=◌, u_loop, u, zeros_loop, ue_value, ue}
use lib_media_service.Nal.Bits.{
  bits, Reads, drop-code, code-fits, read_bit-Reads, value, u_loop-Reads, bin, length-bin,
  value-bin, value-snoc,
}

-- Where the bits are a number in `n` bits, u(n) reads it.
pub u-bin : (buf : List ℕ) (n v : ℕ) → v < 2 ^ n → Reads buf (u n buf) (bin n v) v
unfolding u
u-bin buf n v h = record {
  run = λ pos rest e.
      let read = (u_loop-Reads buf 0 (bin n v)).run pos rest e in
      ap (λ k. u_loop k buf 0 pos) (sym (length-bin n v))
      ∙ read
      ∙ ap (λ k. some (k, pos + length (bin n v))) (value-bin n v h);
}

-- The digits of a number behind its leading 1.
abbrev pub digits : ℕ → ℕ → List ℕ
digits zero m = []
digits (suc fuel) m = if ltb m 2 then [] else digits fuel (m / 2) ++ (m % 2 ∷ [])

value-digits : (fuel m : ℕ) → 0 < m → m ≤ fuel → value 1 (digits fuel m) ≡ m
value-digits zero m h k = absurd (omega arith)
value-digits (suc fuel) m h k = elim (ltb-cases m 2) [
  | inl (b, small) ↦ rw b (omega arith)
  | inr (b, large) ↦ rw b (
      omega (
        arith,
        value-snoc 1 (digits fuel (m / 2)) (m % 2),
        value-digits fuel (m / 2) (omega arith) (omega arith),
      ))
]

value-suc : (v : ℕ) (ds : List ℕ) → value (v + 1) ds ≡ 2 ^ length ds + value v ds
value-suc v [] = omega arith
value-suc v (d ∷ ds) =
    let shift : (v + 1) * 2 + d ≡ v * 2 + d + 1 + 1 = omega arith in
    let double : 2 ^ length (d ∷ ds) ≡ 2 ^ length ds + 2 ^ length ds = two-pow-succ (length ds) in
    ap (λ k. value k ds) shift
    ∙ omega (arith, double, value-suc (v * 2 + d + 1) ds, value-suc (v * 2 + d) ds)

-- The digits of v + 1 and the leading 1.
value-from_one : (v : ℕ) → let ds = digits (v + 1) (v + 1) in 2 ^ length ds + value 0 ds ≡ v + 1
value-from_one v =
    sym (value-suc 0 (digits (v + 1) (v + 1)))
    ∙ value-digits (v + 1) (v + 1) (omega arith) (omega arith)

digits-short : (v : ℕ) → v + 1 < 2147483648 → length (digits (v + 1) (v + 1)) < 31
digits-short v h = elim (ltb-cases (length (digits (v + 1) (v + 1))) 31) [
  | inl (b, short) ↦ short
  | inr (b, long) ↦
      let big : 2 ^ 31 ≤ 2 ^ length (digits (v + 1) (v + 1)) =
        pow-le-pow_right (omega arith) long in
      absurd (omega (arith, value-from_one v, big))
]

-- ue(v): as many zeros as there are digits of v + 1 behind the leading 1, then v + 1.
abbrev pub ue_code : ℕ → List ℕ
ue_code v = replicate (length (digits (v + 1) (v + 1))) 0 ++ (1 ∷ digits (v + 1) (v + 1))

some-pair : {a b c d : ℕ} → a ≡ c → b ≡ d → ◌≡◌ {A = Option (ℕ × ℕ)} (some (a, b)) (some (c, d))
some-pair e f = cc

zeros_loop-stops :
    (buf : List ℕ) (z n count pos : ℕ) (rest : List ℕ)
    → drop pos (bits buf) ≡ replicate z 0 ++ (1 ∷ rest)
    → z < n
    → zeros_loop n buf count pos ≡ some (count + z, pos + z)
unfolding zeros_loop
zeros_loop-stops buf z zero count pos rest e h = absurd (omega arith)
zeros_loop-stops buf zero (suc n) count pos rest e h =
    rw (zeros_loop, (read_bit-Reads buf 1).run pos rest e) (some-pair (omega arith) (omega arith))
zeros_loop-stops buf (suc z) (suc n) count pos rest e h =
    let further = drop-code buf (0 ∷ []) (replicate z 0 ++ (1 ∷ rest)) pos e in
    rw (zeros_loop, (read_bit-Reads buf 0).run pos (replicate z 0 ++ (1 ∷ rest)) e)
      (zeros_loop-stops buf z n (count + 1) (pos + 1) rest further (omega arith)
        ∙ some-pair (omega arith) (omega arith))

-- Where the bits are the Exp-Golomb code of a number below 2^31 - 1, Ue reads it.
pub ue-ue_code :
    (buf : List ℕ) (v : ℕ) → v + 1 < 2147483648 → Reads buf (ue buf (length buf)) (ue_code v) v
unfolding ue ◌>>=◌ ue_value
ue-ue_code buf v h = record {
  run = λ pos rest e.
      let ds = digits (v + 1) (v + 1) in
      let z = length ds in
      let behind : List ℕ = 1 ∷ ds in
      let long : length (ue_code v) ≡ z + (z + 1) =
        omega (arith, length-append (replicate z 0) behind, length-replicate {A = ℕ} z 0) in
      let split : drop pos (bits buf) ≡ replicate z 0 ++ (1 ∷ (ds ++ rest)) =
        e ∙ append_assoc (replicate z 0) behind rest in
      let fits = code-fits buf (ue_code v) rest pos e (omega (arith, long)) in
      let zeros : zeros_loop (length buf * 8 - pos) buf 0 pos ≡ some (z, pos + z) =
        zeros_loop-stops buf z (length buf * 8 - pos) 0 pos (ds ++ rest) split
          (omega (arith, fits, long))
        ∙ some-pair (omega arith) refl in
      let one : drop (pos + z) (bits buf) ≡ 1 ∷ (ds ++ rest) =
        ap (λ k. drop (pos + k) (bits buf)) (sym (length-replicate {A = ℕ} z 0))
        ∙ drop-code buf (replicate z 0) (1 ∷ (ds ++ rest)) pos split in
      let read : u_loop z buf 0 (pos + z + 1) ≡ some (value 0 ds, pos + z + 1 + z) =
        (u_loop-Reads buf 0 ds).run (pos + z + 1) rest
          (drop-code buf (1 ∷ []) (ds ++ rest) (pos + z) one) in
      let positive : 1 ≤ 2 ^ z = one-le-pow z 2 (omega arith) in
      rw (ue, ◌>>=◌, zeros, ue_value, lt→ltb z 31 (digits-short v h), read)
        (some-pair (omega (arith, value-from_one v, positive)) (omega (arith, long)));
}
