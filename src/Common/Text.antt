-- ===== src/Common/Text.antt =====
-- Text as the list of its bytes, and what the source calls on it of the C and C++ libraries. A list
-- that stands for memory from a pointer on is ended by a NUL.
use Prim.Native.Char.{code}
use Prim.Native.String.{String}
use Prim.Native.Nat.{ℕ, zero, suc, ◌+◌, ◌-◌, ◌*◌, ◌/◌, ◌%◌, ◌^◌}
use mathlib.Core.Bool.{Bool, true, false, ◌&&◌, ◌||◌}
use mathlib.Core.Option.{Option, none, some}
use mathlib.Core.Option
use mathlib.Core.List.{List, [], ◌∷◌, map}
use lib_media_service.Common.Tests.{ltb, leb, ◌==◌, if◌then◌else◌}
use lib_media_service.Common.Words.{byte_at}

-- The bytes of an ASCII literal.
abbrev pub codes : String → List ℕ
codes String.[] = []
codes (String.◌∷◌ c s) = code c ∷ codes s

-- `strncmp(s, prefix, strlen(prefix)) == 0`.
abbrev pub starts_with : List ℕ → List ℕ → Bool
starts_with [] s = true
starts_with (c ∷ prefix) [] = false
starts_with (c ∷ prefix) (d ∷ s) = c == d && starts_with prefix s

-- `strncasecmp(s, prefix, strlen(prefix)) == 0`.
abbrev pub to_lower : ℕ → ℕ
to_lower c = if leb 65 c && leb c 90 then c + 32 else c

abbrev pub starts_with_nocase : List ℕ → List ℕ → Bool
starts_with_nocase prefix s = starts_with (map to_lower prefix) (map to_lower s)

-- A C string ends at the first NUL.
abbrev pub c_string : List ℕ → List ℕ
c_string [] = []
c_string (c ∷ s) = let rest = c_string s in if c == 0 then [] else c ∷ rest

-- `s.find(text)`: the first position of `text`.
abbrev pub find : List ℕ → List ℕ → Option ℕ
find text [] = if starts_with text [] then some 0 else none
find text (c ∷ s) =
    let later = Option.map suc (find text s) in if starts_with text (c ∷ s) then some 0 else later

-- find_last_not_of(' ') and erase, then find_first_not_of(' ') and erase.
abbrev pub keep_space : ℕ → List ℕ → List ℕ
keep_space c [] = if c == 32 then [] else c ∷ []
keep_space c (d ∷ t) = c ∷ d ∷ t

abbrev pub trim_back : List ℕ → List ℕ
trim_back [] = []
trim_back (c ∷ s) = keep_space c (trim_back s)

abbrev pub trim_front : List ℕ → List ℕ
trim_front [] = []
trim_front (c ∷ s) = let rest = trim_front s in if c == 32 then rest else c ∷ s

-- isspace.
abbrev pub skip_spaces : List ℕ → List ℕ
skip_spaces [] = []
skip_spaces (c ∷ s) =
    let rest = skip_spaces s in if c == 32 || leb 9 c && leb c 13 then rest else c ∷ s

-- The value of a digit, 36 for a character that is none.
abbrev pub digit_value : ℕ → ℕ
digit_value c =
    if leb 48 c && leb c 57
    then c - 48
    else if leb 97 (to_lower c) && leb (to_lower c) 122
    then to_lower c - 87
    else 36

abbrev pub read_digits : ℕ → ℕ → List ℕ → ℕ
read_digits base acc [] = acc
read_digits base acc (c ∷ s) =
    let rest = read_digits base (acc * base + digit_value c) s in
    if ltb (digit_value c) base then rest else acc

-- A sign, and what follows it.
abbrev pub read_sign : List ℕ → Bool × List ℕ
read_sign [] = (false, [])
read_sign (c ∷ s) = if c == 45 then (true, s) else if c == 43 then (false, s) else (false, c ∷ s)

-- The base 0 of strtoul: 0x and a hexadecimal digit, a leading 0, or neither.
abbrev pub read_prefix : List ℕ → ℕ × List ℕ
read_prefix [] = (10, [])
read_prefix (c ∷ []) = (10, c ∷ [])
read_prefix (c ∷ x ∷ s) =
    if c == 48
    then if to_lower x == 120 && ltb (digit_value (byte_at s 0)) 16 then (16, s) else (8, x ∷ s)
    else (10, c ∷ x ∷ s)

-- strtoull(s, NULL, 0), which is also strtoul on LP64: too large a value becomes the largest.
unfoldable pub strtoull : List ℕ → ℕ
strtoull s =
    let (negative, unsigned) = read_sign (skip_spaces s) in
    let (base, body) = read_prefix unsigned in
    let value = read_digits base 0 body in
    if leb (2 ^ 64) value then 2 ^ 64 - 1 else if negative then (2 ^ 64 - value) % 2 ^ 64 else value

-- `(uint32_t)atoi(s)`; a value that no int has, for which C promises nothing, is wrapped.
unfoldable pub atoi : List ℕ → ℕ
atoi s =
    let (negative, body) = read_sign (skip_spaces s) in
    let value = read_digits 10 0 body % 2 ^ 32 in
    if negative then (2 ^ 32 - value) % 2 ^ 32 else value

-- The decimal digits of a number in front of `rest`: `fuel` digits are enough for a number below
-- 10 ^ fuel.
abbrev pub digits : ℕ → ℕ → List ℕ → List ℕ
digits zero n rest = rest
digits (suc fuel) n rest =
    let more = digits fuel (n / 10) ((48 + n % 10) ∷ rest) in
    if ltb n 10 then (48 + n) ∷ rest else more

-- snprintf of %u, and of %lld for a uint64_t.
unfoldable pub print_u32 : ℕ → List ℕ
print_u32 n = digits 10 n []

unfoldable pub print_lld : ℕ → List ℕ
print_lld n = if ltb n (2 ^ 63) then digits 20 n [] else 45 ∷ digits 20 (2 ^ 64 - n) []
