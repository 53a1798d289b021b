-- ===== src/Nal/Bits.antt =====
-- The bits of a buffer as a list, most significant bit of each byte first, and what the readers of
-- mk_nal_sps_parse.cpp make of them.
use mathlib.Core.List.{append_assoc}
use lib_media_service.Common.{
  ℕ, zero, suc, ◌+◌, ◌-◌, ◌*◌, ◌/◌, ◌%◌, ◌^◌, ◌≤◌, ◌<◌, ◌≡◌, refl, sym, ap, ◌∙◌, some, List, [],
  ◌∷◌, ◌++◌, arith, length, drop, lt→ltb, length-append, length-drop, drop-append, byte_at,
}
use lib_media_service.Nal.{Reader, ◌>>=◌, return, bit_at, read_bit, u_loop}

abbrev pub bits : List ℕ → List ℕ
bits [] = []
bits (b ∷ bs) =
    b / 128 % 2
    ∷ b / 64 % 2
    ∷ b / 32 % 2
    ∷ b / 16 % 2
    ∷ b / 8 % 2
    ∷ b / 4 % 2
    ∷ b / 2 % 2
    ∷ b / 1 % 2
    ∷ bits bs

length-bits : (bs : List ℕ) → length (bits bs) ≡ 8 * length bs
length-bits [] = refl
length-bits (b ∷ bs) = omega (arith, length-bits bs)

drop-nil : (n : ℕ) → drop {A = ℕ} n [] ≡ []
drop-nil zero = refl
drop-nil (suc n) = refl

pub drop-drop : (m n : ℕ) (xs : List ℕ) → drop (m + n) xs ≡ drop n (drop m xs)
drop-drop zero n xs = ap (λ k. drop k xs) (omega arith)
drop-drop (suc m) n [] = drop-nil (suc m + n) ∙ sym (drop-nil n)
drop-drop (suc m) n (x ∷ xs) =
    let e : suc m + n ≡ suc (m + n) = omega arith in ap (λ k. drop k (x ∷ xs)) e ∙ drop-drop m n xs

-- The bit at a place of the list is the bit that the source masks out.
bit_at-drop :
    (buf : List ℕ) (pos b : ℕ) (rest : List ℕ)
    → drop pos (bits buf) ≡ b ∷ rest
    → (bit_at buf pos ≡ b) × (pos / 8 < length buf)
bit_at-drop [] zero b rest e = cc
bit_at-drop [] (suc pos) b rest e = cc
bit_at-drop (x ∷ xs) zero b rest e = (cc, omega arith)
bit_at-drop (x ∷ xs) (suc zero) b rest e = (cc, omega arith)
bit_at-drop (x ∷ xs) (suc (suc zero)) b rest e = (cc, omega arith)
bit_at-drop (x ∷ xs) (suc (suc (suc zero))) b rest e = (cc, omega arith)
bit_at-drop (x ∷ xs) (suc (suc (suc (suc zero)))) b rest e = (cc, omega arith)
bit_at-drop (x ∷ xs) (suc (suc (suc (suc (suc zero))))) b rest e = (cc, omega arith)
bit_at-drop (x ∷ xs) (suc (suc (suc (suc (suc (suc zero)))))) b rest e = (cc, omega arith)
bit_at-drop (x ∷ xs) (suc (suc (suc (suc (suc (suc (suc zero))))))) b rest e = (cc, omega arith)
bit_at-drop (x ∷ xs) (suc (suc (suc (suc (suc (suc (suc (suc pos)))))))) b rest e =
    let (bit, inside) = bit_at-drop xs pos b rest e in
    let eight : ℕ = suc (suc (suc (suc (suc (suc (suc (suc pos))))))) in
    let block : eight / 8 ≡ suc (pos / 8) = omega arith in
    let place : eight % 8 ≡ pos % 8 = omega arith in
    (
      ap (λ i. byte_at (x ∷ xs) i / 2 ^ (7 - eight % 8) % 2) block
          ∙ ap (λ i. byte_at xs (pos / 8) / 2 ^ (7 - i) % 2) place
          ∙ bit,
      omega arith,
    )

-- From any place where the bits begin with `code`, the reader gives `a` and stops behind the code.
pub record Reads {ℓ} {A : Type ℓ} (buf : List ℕ) (m : Reader A) (code : List ℕ) (a : A)
    : Type ℓ where
  pub run :
      (pos : ℕ) (rest : List ℕ)
      → drop pos (bits buf) ≡ code ++ rest
      → m pos ≡ some (a, pos + length code)

pub drop-code :
    (buf code rest : List ℕ) (pos : ℕ)
    → drop pos (bits buf) ≡ code ++ rest
    → drop (pos + length code) (bits buf) ≡ rest
drop-code buf code rest pos e =
    drop-drop pos (length code) (bits buf) ∙ ap (drop (length code)) e ∙ drop-append code rest

-- A code lies inside the buffer.
pub code-fits :
    (buf code rest : List ℕ) (pos : ℕ)
    → drop pos (bits buf) ≡ code ++ rest
    → 0 < length code
    → pos + length code ≤ length buf * 8
code-fits buf code rest pos e some_bits = omega (
  arith,
  length-bits buf,
  length-drop pos (bits buf),
  ap (length {A = ℕ}) e,
  length-append code rest,
)

pub Reads-return {ℓ} : {A : Type ℓ} (buf : List ℕ) (a : A) → Reads buf (return a) [] a
Reads-return buf a = record { run = λ pos rest e. ap (λ n. some (a, n)) (omega arith) }

pub Reads-bind {ℓ κ} :
    {A : Type ℓ} {B : Type κ} (buf : List ℕ) (m : Reader A) (f : A → Reader B) (c d : List ℕ)
    (a : A) (b : B)
    → Reads buf m c a
    → Reads buf (f a) d b
    → Reads buf (m >>= f) (c ++ d) b
unfolding ◌>>=◌
Reads-bind buf m f c d a b first second = record {
  run = λ pos rest e.
      let split = e ∙ append_assoc c d rest in
      let last = second.run (pos + length c) rest (drop-code buf c (d ++ rest) pos split) in
      let at : pos + length c + length d ≡ pos + length (c ++ d) =
        omega (arith, length-append c d) in
      rw (◌>>=◌, first.run pos (d ++ rest) split, last, at);
}

pub read_bit-Reads : (buf : List ℕ) (b : ℕ) → Reads buf (read_bit buf) (b ∷ []) b
unfolding read_bit
read_bit-Reads buf b = record {
  run = λ pos rest e.
      let (bit, inside) = bit_at-drop buf pos b rest e in
      rw (lt→ltb (pos / 8) (length buf) inside, bit);
}

-- The number that bits make, behind those that make `v`.
abbrev pub value : ℕ → List ℕ → ℕ
value v [] = v
value v (b ∷ bs) = value (v * 2 + b) bs

pub u_loop-Reads :
    (buf : List ℕ) (v : ℕ) (code : List ℕ)
    → Reads buf (u_loop (length code) buf v) code (value v code)
unfolding u_loop
u_loop-Reads buf v [] = Reads-return buf v
u_loop-Reads buf v (b ∷ bs) =
    Reads-bind buf (read_bit buf) (λ bit. u_loop (length bs) buf (v * 2 + bit)) (b ∷ []) bs b
      (value (v * 2 + b) bs) (read_bit-Reads buf b) (u_loop-Reads buf (v * 2 + b) bs)

-- A number in `n` bits.
abbrev pub bin : ℕ → ℕ → List ℕ
bin zero v = []
bin (suc n) v = bin n (v / 2) ++ (v % 2 ∷ [])

pub length-bin : (n v : ℕ) → length (bin n v) ≡ n
length-bin zero v = refl
length-bin (suc n) v =
    omega (arith, length-append (bin n (v / 2)) (v % 2 ∷ []), length-bin n (v / 2))

pub value-snoc : (v : ℕ) (xs : List ℕ) (b : ℕ) → value v (xs ++ (b ∷ [])) ≡ value v xs * 2 + b
value-snoc v [] b = refl
value-snoc v (x ∷ xs) b = value-snoc (v * 2 + x) xs b

pub value-bin : (n v : ℕ) → v < 2 ^ n → value 0 (bin n v) ≡ v
value-bin zero v h = omega arith
value-bin (suc n) v h =
    omega (arith, value-snoc 0 (bin n (v / 2)) (v % 2), value-bin n (v / 2) (omega arith))
