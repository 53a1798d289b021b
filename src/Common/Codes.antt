-- ===== src/Common/Codes.antt =====
-- The codes that the functions of the source return. They are enumerators of as.h, which is not
-- part of the repository, so only that they differ is used.
use mathlib.Core.Bool.{Bool, true, false}
use mathlib.Core.Path.{◌≡◌, refl}

-- AS_ERROR_CODE_OK, AS_ERROR_CODE_FAIL, AS_ERROR_CODE_PARAM and AS_ERROR_CODE_TIMEOUT.
pub data Status : Type 0 where
  ok fail param timeout : Status

abbrev pub is_ok : Status → Bool
is_ok ok = true
is_ok fail = false
is_ok param = false
is_ok timeout = false

pub ok_of_is_ok : (c : Status) → is_ok c ≡ true → c ≡ ok
ok_of_is_ok ok h = refl
ok_of_is_ok fail h = cc
ok_of_is_ok param h = cc
ok_of_is_ok timeout h = cc
