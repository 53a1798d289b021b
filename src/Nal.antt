-- ===== src/Nal.antt =====
-- mk_nal_sps_parse.cpp: the bit readers u, Ue and Se. mk_h264_decode_sps is in the child Sps.
-- A reader takes nStartBit and gives its result and the new nStartBit. `none` is undefined
-- behaviour: a read behind the buffer, an int that overflows, a shift by the width of an int or a
-- division by zero. `buf` is what the buffer holds and `len` is nLen.
pub mod Bits
pub mod Golomb
pub mod Sps
mod Examples
use lib_media_service.Common.{
  ℕ, zero, suc, ◌+◌, ◌-◌, ◌*◌, ◌/◌, ◌%◌, ◌^◌, Bool, true, false, ◌||◌, Option, none, some, List, [],
  ◌∷◌, ltb, ◌==◌, if◌then◌else◌, length, byte_at, sub32, u32_mod, Status, ok, fail, not,
}

abbrev pub Reader {ℓ} : Type ℓ → Type ℓ
Reader A = ℕ → Option (A × ℕ)

infixl 5 ◌>>=◌
unfoldable pub ◌>>=◌ {ℓ κ} : {A : Type ℓ} {B : Type κ} → Reader A → (A → Reader B) → Reader B
(m >>= f) pos = elim (m pos) [ none ↦ none | some (a, next) ↦ f a next ]

abbrev pub return {ℓ} : {A : Type ℓ} → A → Reader A
return a pos = some (a, pos)

-- `buf[nStartBit / 8] & (0x80 >> (nStartBit % 8))`.
abbrev pub bit_at : List ℕ → ℕ → ℕ
bit_at buf pos = byte_at buf (pos / 8) / 2 ^ (7 - pos % 8) % 2

unfoldable pub read_bit : List ℕ → Reader ℕ
read_bit buf pos = if ltb (pos / 8) (length buf) then some (bit_at buf pos, pos + 1) else none

-- The loop of u and the second loop of Ue, from `dwRet` on.
unfoldable pub u_loop : ℕ → List ℕ → ℕ → Reader ℕ
u_loop zero buf value = return value
u_loop (suc n) buf value = read_bit buf >>= λ bit. u_loop n buf (value * 2 + bit)

-- u(BitCount, buf, nStartBit), for at most 32 bits: a long has room.
unfoldable pub u : ℕ → List ℕ → Reader ℕ
unfolding u_loop
u n buf = u_loop n buf 0

-- The first loop of Ue: the zeros up to the first 1 or the end, with `n` rounds at most.
unfoldable pub zeros_loop : ℕ → List ℕ → ℕ → Reader ℕ
zeros_loop zero buf count pos = some (count, pos)
zeros_loop (suc n) buf count pos =
    let rest = zeros_loop n buf (count + 1) (pos + 1) in
    elim (read_bit buf pos) [
      | none ↦ none
      | some (bit, next) ↦ if bit == 1 then some (count, pos) else rest
    ]

-- The end of Ue: nStartBit++, the loop, and `(1 << nZeroNum) - 1 + dwRet`.
unfoldable pub ue_value : List ℕ → ℕ → Reader ℕ
unfolding u_loop
ue_value buf count pos =
    let value = u_loop count buf 0 (pos + 1) in
    if ltb count 31
    then elim value [ none ↦ none | some (v, next) ↦ some (2 ^ count - 1 + v, next) ]
    else none

-- Ue(pBuff, nLen, nStartBit): the first loop ends at bit nLen * 8.
unfoldable pub ue : List ℕ → ℕ → Reader ℕ
unfolding zeros_loop ue_value
ue buf len pos = (zeros_loop (len * 8 - pos) buf 0 >>= ue_value buf) pos

-- Se(pBuff, nLen, nStartBit): its sign, true for a negative value, and its size.
unfoldable pub se : List ℕ → ℕ → Reader (Bool × ℕ)
unfolding ue
se buf len = ue buf len >>= λ v. return (v % 2 == 0, (v + 1) / 2)

-- An int that holds a number: one of 2^31 or more overflows.
abbrev pub int : ℕ → Reader ℕ
int n pos = if ltb n 2147483648 then some (n, pos) else none

abbrev pub fault {ℓ} : {A : Type ℓ} → Reader A
fault pos = none
