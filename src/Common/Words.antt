-- ===== src/Common/Words.antt =====
-- Words of 16 and 32 bits as native numbers, and the fields of a byte buffer. A byte outside the
-- buffer reads as 0; the theorems that read one say that it lies inside.
use Prim.Native.Nat.{ℕ, ◌+◌, ◌-◌, ◌*◌, ◌/◌, ◌%◌, ◌<◌}
use mathlib.Core.List.{List}
use lib_media_service.Common.Lists.{get_or, set}

abbrev pub u16_mod : ℕ
u16_mod = 65536

abbrev pub u32_mod : ℕ
u32_mod = 4294967296

-- uint32_t addition and subtraction.
abbrev pub add32 : ℕ → ℕ → ℕ
add32 a b = (a + b) % u32_mod

abbrev pub sub32 : ℕ → ℕ → ℕ
sub32 a b = (a + u32_mod - b) % u32_mod

abbrev pub IsByte : ℕ → Type 0
IsByte b = b < 256

abbrev pub byte_at : List ℕ → ℕ → ℕ
byte_at bs i = get_or bs i 0

-- ntohs and ntohl of the field at `i`: network order is big-endian.
abbrev pub net16 : List ℕ → ℕ → ℕ
net16 bs i = byte_at bs i * 256 + byte_at bs (i + 1)

abbrev pub net32 : List ℕ → ℕ → ℕ
net32 bs i = net16 bs i * 65536 + net16 bs (i + 2)

-- The field at `i` as a little-endian host reads it.
abbrev pub host32 : List ℕ → ℕ → ℕ
host32 bs i =
    byte_at bs i
    + byte_at bs (i + 1) * 256
    + byte_at bs (i + 2) * 65536
    + byte_at bs (i + 3) * 16777216

-- A store of htons and htonl of a value, and of a value in host order.
abbrev pub put_net16 : List ℕ → ℕ → ℕ → List ℕ
put_net16 bs i v = set (set bs i (v / 256 % 256)) (i + 1) (v % 256)

abbrev pub put_net32 : List ℕ → ℕ → ℕ → List ℕ
put_net32 bs i v = put_net16 (put_net16 bs i (v / 65536)) (i + 2) v

abbrev pub put_host32 : List ℕ → ℕ → ℕ → List ℕ
put_host32 bs i v =
    set (set (set (set bs i (v % 256)) (i + 1) (v / 256 % 256)) (i + 2) (v / 65536 % 256)) (i + 3)
      (v / 16777216 % 256)
