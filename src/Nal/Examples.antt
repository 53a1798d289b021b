-- ===== src/Nal/Examples.antt =====
-- The sequence parameter set of a picture of 1920 by 1080, for mk_nal_sps_parse.cpp.
use lib_media_service.Common.{ℕ, ◌≡◌, refl, some, List, [], ◌∷◌, ◌++◌, arith, ok}
use lib_media_service.Nal.{ue}
use lib_media_service.Nal.Bits.{bits, Reads}
use lib_media_service.Nal.Golomb.{ue_code, ue-ue_code}
use lib_media_service.Nal.Sps.{Picture, h264_decode_sps}
use lib_media_service.Nal.Sps.Encoded.{Fields, IsFields, nal_code, h264_decode_sps-encoded}

abbrev fields : Fields
fields = record {
  profile = 77;
  set_0 = 0;
  set_1 = 1;
  set_2 = 0;
  set_3 = 0;
  reserved = 0;
  level = 40;
  id = 0;
  max_frame_num = 4;
  max_order_count = 2;
  ref_frames = 4;
  gaps = 0;
  width_in_mbs = 119;
  height_in_units = 67;
  mbs_only = 1;
  adaptive = 0;
  direct = 1;
  left = 0;
  right = 0;
  top = 0;
  bottom = 4;
}

fields-IsFields : IsFields fields
fields-IsFields = record {
  profile = omega arith;
  low = refl;
  set_0 = omega arith;
  set_1 = omega arith;
  set_2 = omega arith;
  set_3 = omega arith;
  reserved = omega arith;
  level = omega arith;
  id = omega arith;
  max_frame_num = omega arith;
  max_order_count = omega arith;
  ref_frames = omega arith;
  gaps = omega arith;
  width_in_mbs = omega arith;
  height_in_units = omega arith;
  mbs_only = omega arith;
  adaptive = omega arith;
  direct = omega arith;
  across = omega arith;
  down = omega arith;
}

abbrev parameter_set : List ℕ
parameter_set = 103 ∷ 77 ∷ 64 ∷ 40 ∷ 150 ∷ 202 ∷ 3 ∷ 192 ∷ 17 ∷ 63 ∷ 42 ∷ []

abbrev nothing : Picture
nothing = record { width = 0; height = 0; fps = 0 }

encoded : bits parameter_set ≡ nal_code 3 fields ++ (1 ∷ 0 ∷ [])
encoded = refl

h264_decode_sps-encoded_example :
    h264_decode_sps parameter_set 11 nothing
    ≡ some (ok, record { width = 1920; height = 1080; fps = 0 })
h264_decode_sps-encoded_example =
    h264_decode_sps-encoded parameter_set 3 fields (1 ∷ 0 ∷ []) nothing (omega arith)
      fields-IsFields encoded

ue-ue_code_example : Reads parameter_set (ue parameter_set 11) (ue_code 119) 119
ue-ue_code_example = ue-ue_code parameter_set 119 (omega arith)
