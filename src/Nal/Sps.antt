-- ===== src/Nal/Sps.antt =====
-- mk_nal_sps_parse.cpp: mk_h264_decode_sps, which takes the size of the picture and the frame rate
-- from an H.264 sequence parameter set. A field that is read and not used is a read here too; eight
-- single bits in a row are read as one field of eight.
pub mod Encoded
use lib_media_service.Common.{
  ℕ, zero, suc, ◌+◌, ◌-◌, ◌*◌, ◌/◌, ◌%◌, Bool, true, false, ◌||◌, Option, none, some, List, [], ◌∷◌,
  ltb, ◌==◌, if◌then◌else◌, sub32, u32_mod, Status, ok, fail, not,
}
use lib_media_service.Nal.{Reader, ◌>>=◌, return, int, fault, u, ue, se}

-- A read whose result is not used.
abbrev pub when : Bool → Reader ℕ → Reader ℕ
when b m = if b then m else return 0

-- chroma_format_idc, with the fields that only the high profiles have.
unfoldable pub read_chroma : List ℕ → ℕ → ℕ → Reader ℕ
unfolding ue u ◌>>=◌
read_chroma buf len profile =
    let high : Reader ℕ = do
      chroma ← ue buf len
      colour ← when (chroma == 3) (u 1 buf)
      luma_depth ← ue buf len
      chroma_depth ← ue buf len
      bypass ← u 1 buf
      matrix ← u 1 buf
      lists ← when (not (matrix == 0)) (u 8 buf)
      return chroma
    in if profile == 100 || (profile == 110 || (profile == 122 || profile == 144))
      then high
      else return 1

-- The loop over offset_for_ref_frame.
unfoldable pub read_offsets : ℕ → List ℕ → ℕ → Reader ℕ
unfolding se
read_offsets zero buf len = return 0
read_offsets (suc n) buf len = se buf len >>= λ offset. read_offsets n buf len

-- The fields behind pic_order_cnt_type.
unfoldable pub read_order_count : List ℕ → ℕ → ℕ → Reader ℕ
unfolding ue u se read_offsets
read_order_count buf len type =
    let offsets : Reader ℕ = do
      zero_flag ← u 1 buf
      non_ref ← se buf len
      top_to_bottom ← se buf len
      number ← ue buf len
      read_offsets number buf len
    in if type == 0 then ue buf len else if type == 1 then offsets else return 0

-- crop_unit_x and crop_unit_y.
unfoldable pub crop_units : ℕ → ℕ → ℕ × ℕ
crop_units chroma mbs_only =
    if chroma == 0
    then (1, 2 - mbs_only)
    else if chroma == 1
    then (2, 2 * (2 - mbs_only))
    else if chroma == 2
    then (2, 2 - mbs_only)
    else (1, 2 - mbs_only)

-- The cropping: the width and the height that are left, as the 32 bits of an int.
unfoldable pub read_crop : List ℕ → ℕ → ℕ → ℕ → ℕ → ℕ → Reader (ℕ × ℕ)
unfolding ue crop_units
read_crop buf len chroma mbs_only width height = do
  left ← ue buf len
  right ← ue buf len
  top ← ue buf len
  bottom ← ue buf len
  across ← int (left + right)
  down ← int (top + bottom)
  return (
    sub32 width ((crop_units chroma mbs_only).0 * across % u32_mod),
    sub32 height ((crop_units chroma mbs_only).1 * down % u32_mod),
  )

-- The quotient of two ints, which are given by their 32 bits; it is rounded towards 0.
unfoldable pub div_int : ℕ → ℕ → ℕ
div_int a b =
    let size = λ (x : ℕ). if ltb x 2147483648 then x else u32_mod - x in
    let quotient = size a / size b in
    if ltb a 2147483648
    then if ltb b 2147483648 then quotient else (u32_mod - quotient) % u32_mod
    else if ltb b 2147483648
    then (u32_mod - quotient) % u32_mod
    else quotient

-- fps = time_scale / (2 * num_units_in_tick).
unfoldable pub frame_rate : ℕ → ℕ → Reader ℕ
unfolding div_int
frame_rate scale units =
    let doubled = 2 * units % u32_mod in
    if units == 0
    then fault
    else if ltb units 1073741824 || not (ltb units 3221225472)
    then return (div_int scale doubled)
    else fault

-- The fields behind vui_parameter_present_flag up to the timing: the frame rate, 0 if there is none.
unfoldable pub read_vui : List ℕ → ℕ → Reader ℕ
unfolding u ue frame_rate
read_vui buf len =
    let sar : Reader ℕ = do sar_width ← u 16 buf; u 16 buf
    in let aspect : Reader ℕ = do idc ← u 8 buf; when (idc == 255) sar
      in let colours : Reader ℕ = do primaries ← u 8 buf; transfer ← u 8 buf; u 8 buf
        in let signal : Reader ℕ = do
          format ← u 3 buf
          full_range ← u 1 buf
          colour ← u 1 buf
          when (not (colour == 0)) colours
          in let chroma_loc : Reader ℕ = do top ← ue buf len; ue buf len
            in let timing : Reader ℕ = do units ← u 32 buf; scale ← u 32 buf; frame_rate scale units
              in do
                aspect_present ← u 1 buf
                a ← when (not (aspect_present == 0)) aspect
                overscan ← u 1 buf
                o ← when (not (overscan == 0)) (u 1 buf)
                signal_present ← u 1 buf
                s ← when (not (signal_present == 0)) signal
                loc_present ← u 1 buf
                l ← when (not (loc_present == 0)) chroma_loc
                timing_present ← u 1 buf
                when (not (timing_present == 0)) timing

-- width, height and fps, each the 32 bits of an int.
pub record Picture : Type 0 where
  pub width : ℕ
  pub height : ℕ
  pub fps : ℕ

-- mk_h264_decode_sps from profile_idc on.
unfoldable pub read_sps : List ℕ → ℕ → Reader Picture
unfolding u ue read_chroma read_order_count read_crop read_vui
read_sps buf len = do
  profile ← u 8 buf
  set_0 ← u 1 buf
  set_1 ← u 1 buf
  set_2 ← u 1 buf
  set_3 ← u 1 buf
  reserved ← u 4 buf
  level ← u 8 buf
  id ← ue buf len
  chroma ← read_chroma buf len profile
  max_frame_num ← ue buf len
  order_count_type ← ue buf len
  order_count ← read_order_count buf len order_count_type
  ref_frames ← ue buf len
  gaps ← u 1 buf
  width_in_mbs ← ue buf len
  height_in_units ← ue buf len
  width ← int ((width_in_mbs + 1) * 16)
  mbs_only ← u 1 buf
  adaptive ← when (mbs_only == 0) (u 1 buf)
  units ← int ((height_in_units + 1) * 16)
  height ← int ((2 - mbs_only) * units)
  direct ← u 1 buf
  cropping ← u 1 buf
  size ←
      if cropping == 0
      then return (width, height)
      else read_crop buf len chroma mbs_only width height
  vui ← u 1 buf
  fps ← when (not (vui == 0)) (read_vui buf len)
  return (record { width = size.0; height = size.1; fps = fps })

-- mk_h264_decode_sps from the start; a NAL unit of another type than 7 leaves the width and the
-- height as they were.
unfoldable pub read_nal : List ℕ → ℕ → Picture → Reader (Status × Picture)
unfolding read_sps
read_nal buf len before =
    let body : Reader (Status × Picture) = do picture ← read_sps buf len; return (ok, picture)
    in do
      forbidden ← u 1 buf
      ref_idc ← u 2 buf
      type ← u 5 buf
      if type == 7 then body else return (fail, record before { fps = 0 })

-- mk_h264_decode_sps(buf, nLen, width, height, fps).
unfoldable pub h264_decode_sps : List ℕ → ℕ → Picture → Option (Status × Picture)
unfolding read_nal
h264_decode_sps buf len before = elim (read_nal buf len before 0) [
  | none ↦ none
  | some (result, pos) ↦ some result
]
