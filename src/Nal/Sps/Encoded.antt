-- ===== src/Nal/Sps/Encoded.antt =====
-- mk_h264_decode_sps of mk_nal_sps_parse.cpp on a sequence parameter set that is written as the H.264
-- standard has it, of a profile with no chroma fields, with pic_order_cnt_type 0, cropping offsets
-- and no VUI.
use lib_media_service.Common.{
  ℕ, zero, suc, ◌+◌, ◌-◌, ◌*◌, ◌%◌, ◌≤◌, ◌<◌, ◌≡◌, ap, Bool, true, false, ◌||◌, some, List, [],
  ◌++◌, arith, length, lt→ltb, ◌==◌, if◌then◌else◌, sub32, u32_mod, ok,
}
use lib_media_service.Nal.{Reader, ◌>>=◌, return, int, u}
use lib_media_service.Nal.Bits.{bits, Reads, Reads-bind, Reads-return, bin}
use lib_media_service.Nal.Golomb.{ue_code, u-bin, ue-ue_code}
use lib_media_service.Nal.Sps.{
  Picture, when, read_chroma, read_order_count, crop_units, read_crop, read_sps, read_nal,
  h264_decode_sps,
}

-- The fields in their order.
pub record Fields : Type 0 where
  pub profile : ℕ
  pub set_0 : ℕ
  pub set_1 : ℕ
  pub set_2 : ℕ
  pub set_3 : ℕ
  pub reserved : ℕ
  pub level : ℕ
  pub id : ℕ
  pub max_frame_num : ℕ
  pub max_order_count : ℕ
  pub ref_frames : ℕ
  pub gaps : ℕ
  pub width_in_mbs : ℕ
  pub height_in_units : ℕ
  pub mbs_only : ℕ
  pub adaptive : ℕ
  pub direct : ℕ
  pub left : ℕ
  pub right : ℕ
  pub top : ℕ
  pub bottom : ℕ

-- A number that ue(v) has.
abbrev IsUe : ℕ → Type 0
IsUe v = v + 1 < 2147483648

abbrev pub is_high : ℕ → Bool
is_high profile = profile == 100 || (profile == 110 || (profile == 122 || profile == 144))

-- The fields fit, the picture's sides are ints, and the cropping leaves something of them.
pub record IsFields (f : Fields) : Type 0 where
  pub profile : f.profile < 256
  pub low : is_high f.profile ≡ false
  pub set_0 : f.set_0 < 2
  pub set_1 : f.set_1 < 2
  pub set_2 : f.set_2 < 2
  pub set_3 : f.set_3 < 2
  pub reserved : f.reserved < 16
  pub level : f.level < 256
  pub id : IsUe f.id
  pub max_frame_num : IsUe f.max_frame_num
  pub max_order_count : IsUe f.max_order_count
  pub ref_frames : IsUe f.ref_frames
  pub gaps : f.gaps < 2
  pub width_in_mbs : (f.width_in_mbs + 1) * 16 < 2147483648
  pub height_in_units : (2 - f.mbs_only) * ((f.height_in_units + 1) * 16) < 2147483648
  pub mbs_only : f.mbs_only < 2
  pub adaptive : f.adaptive < 2
  pub direct : f.direct < 2
  pub across : 2 * (f.left + f.right) ≤ (f.width_in_mbs + 1) * 16
  pub down : 2 * (f.top + f.bottom) ≤ (f.height_in_units + 1) * 16

abbrev crop_code : Fields → List ℕ
crop_code f = ue_code f.left ++ (ue_code f.right ++ (ue_code f.top ++ (ue_code f.bottom ++ [])))

-- The bits from profile_idc on.
abbrev pub sps_code : Fields → List ℕ
sps_code f =
    bin 8 f.profile
    ++ (bin 1 f.set_0
        ++ (bin 1 f.set_1
            ++ (bin 1 f.set_2
                ++ (bin 1 f.set_3
                    ++ (bin 4 f.reserved
                        ++ (bin 8 f.level
                            ++ (ue_code f.id
                                ++ (ue_code f.max_frame_num
                                    ++ (ue_code 0
                                        ++ (ue_code f.max_order_count
                                            ++ (ue_code f.ref_frames
                                                ++ (bin 1 f.gaps
                                                    ++ (ue_code f.width_in_mbs
                                                        ++ (ue_code f.height_in_units
                                                            ++ (bin 1 f.mbs_only
                                                            ++ ((if f.mbs_only == 0
                                                            then bin 1 f.adaptive
                                                            else [])
                                                            ++ (bin 1 f.direct
                                                            ++ (bin 1 1
                                                            ++ (crop_code f
                                                            ++ (bin 1 0 ++ []))))))))))))))))))))

less_half : (m x n : ℕ) → m < 2 → (2 - m) * x < n → x < n
less_half zero x n h k = omega arith
less_half (suc zero) x n h k = omega arith
less_half (suc (suc m)) x n h k = absurd (omega arith)

cropped_height :
    (m x d : ℕ)
    → m < 2
    → 2 * d ≤ x
    → (2 - m) * x < 2147483648
    → sub32 ((2 - m) * x) (2 * (2 - m) * d % u32_mod) ≡ (2 - m) * x - (2 - m) * (2 * d)
cropped_height zero x d h k l = omega arith
cropped_height (suc zero) x d h k l = omega arith
cropped_height (suc (suc m)) x d h k l = absurd (omega arith)

cropped_width : (x d : ℕ) → 2 * d ≤ x → x < 2147483648 → sub32 x (2 * d % u32_mod) ≡ x - 2 * d
cropped_width x d h k = omega arith

fewer_units : (f : Fields) → IsFields f → (f.height_in_units + 1) * 16 < 2147483648
fewer_units f is = less_half f.mbs_only _ _ is.mbs_only is.height_in_units

module _ (buf : List ℕ) where
  step :
      {A B : Type 0} {m : Reader A} {a : A} {b : B} (c d : List ℕ) (f : A → Reader B)
      → Reads buf m c a
      → Reads buf (f a) d b
      → Reads buf (m >>= f) (c ++ d) b
  step c d f = Reads-bind buf _ f c d _ _

  int-Reads : (n : ℕ) → n < 2147483648 → Reads buf (int n) [] n
  int-Reads n h = record {
    run = λ pos rest e. rw (lt→ltb n 2147483648 h) (ap (λ k. some (n, k)) (omega arith));
  }

  when-Reads :
      (b : Bool) (m : Reader ℕ) (code : List ℕ) (v : ℕ)
      → Reads buf m code v
      → Reads buf (when b m) (if b then code else []) (if b then v else 0)
  when-Reads true m code v h = h
  when-Reads false m code v h = Reads-return buf 0

  read_chroma-Reads :
      (profile : ℕ)
      → is_high profile ≡ false
      → Reads buf (read_chroma buf (length buf) profile) [] 1
  unfolding read_chroma
  read_chroma-Reads profile low = rw low (Reads-return buf 1)

  read_order_count-Reads :
      (v : ℕ) → IsUe v → Reads buf (read_order_count buf (length buf) 0) (ue_code v) v
  unfolding read_order_count
  read_order_count-Reads v h = ue-ue_code buf v h

  read_crop-Reads :
      (f : Fields)
      → IsFields f
      → let w = (f.width_in_mbs + 1) * 16 in
        let h = (2 - f.mbs_only) * ((f.height_in_units + 1) * 16) in
        Reads buf
          (read_crop buf (length buf) 1 f.mbs_only w h)
          (crop_code f)
          (w - 2 * (f.left + f.right), h - (2 - f.mbs_only) * (2 * (f.top + f.bottom)))
  unfolding read_crop crop_units
  read_crop-Reads f is =
      let units = fewer_units f is in
      let width = cropped_width _ (f.left + f.right) is.across is.width_in_mbs in
      let height =
        cropped_height f.mbs_only _ (f.top + f.bottom) is.mbs_only is.down is.height_in_units in
      step (ue_code f.left) _ _ (ue-ue_code buf f.left (omega arith)) (
        step (ue_code f.right) _ _ (ue-ue_code buf f.right (omega arith)) (
          step (ue_code f.top) _ _ (ue-ue_code buf f.top (omega arith)) (
            step (ue_code f.bottom) _ _ (ue-ue_code buf f.bottom (omega arith)) (
              step [] [] _ (int-Reads (f.left + f.right) (omega arith)) (
                step [] [] _ (int-Reads (f.top + f.bottom) (omega arith))
                  (rw (width, height) (Reads-return buf _)))))))

  -- What is read behind the flag for the cropping.
  abbrev picture : Fields → Picture
  picture f = record {
    width = (f.width_in_mbs + 1) * 16 - 2 * (f.left + f.right);
    height =
        (2 - f.mbs_only) * ((f.height_in_units + 1) * 16)
        - (2 - f.mbs_only) * (2 * (f.top + f.bottom));
    fps = 0;
  }

  read_sps-Reads :
      (f : Fields) → IsFields f → Reads buf (read_sps buf (length buf)) (sps_code f) (picture f)
  unfolding read_sps
  read_sps-Reads f is = step (bin 8 f.profile) _ _ (u-bin buf 8 f.profile is.profile) (
      step (bin 1 f.set_0) _ _ (u-bin buf 1 f.set_0 is.set_0) (
        step (bin 1 f.set_1) _ _ (u-bin buf 1 f.set_1 is.set_1) (
          step (bin 1 f.set_2) _ _ (u-bin buf 1 f.set_2 is.set_2) (
            step (bin 1 f.set_3) _ _ (u-bin buf 1 f.set_3 is.set_3) (
              step (bin 4 f.reserved) _ _ (u-bin buf 4 f.reserved is.reserved) (
                step (bin 8 f.level) _ _ (u-bin buf 8 f.level is.level) (
                  step (ue_code f.id) _ _ (ue-ue_code buf f.id is.id) (
                    step [] _ _ (read_chroma-Reads f.profile is.low) (
                      step (ue_code f.max_frame_num) _ _
                        (ue-ue_code buf f.max_frame_num is.max_frame_num)
                        (step (ue_code 0) _ _ (ue-ue_code buf 0 (omega arith)) (
                          step (ue_code f.max_order_count) _ _
                            (read_order_count-Reads f.max_order_count is.max_order_count)
                            (step (ue_code f.ref_frames) _ _
                              (ue-ue_code buf f.ref_frames is.ref_frames)
                              (step (bin 1 f.gaps) _ _ (u-bin buf 1 f.gaps is.gaps) (
                                step (ue_code f.width_in_mbs) _ _
                                  (ue-ue_code buf f.width_in_mbs (omega arith))
                                  (step (ue_code f.height_in_units) _ _
                                    (ue-ue_code buf f.height_in_units
                                      (omega (arith, fewer_units f is)))
                                    (step [] _ _
                                      (int-Reads ((f.width_in_mbs + 1) * 16) is.width_in_mbs)
                                      (step (bin 1 f.mbs_only) _ _
                                        (u-bin buf 1 f.mbs_only is.mbs_only)
                                        (step (if f.mbs_only == 0 then bin 1 f.adaptive else []) _ _
                                          (when-Reads (f.mbs_only == 0) (u 1 buf) (bin 1 f.adaptive)
                                            f.adaptive (u-bin buf 1 f.adaptive is.adaptive))
                                          (step [] _ _
                                            (int-Reads ((f.height_in_units + 1) * 16)
                                              (fewer_units f is))
                                            (step [] _ _ (int-Reads _ is.height_in_units) (
                                              step (bin 1 f.direct) _ _
                                                (u-bin buf 1 f.direct is.direct)
                                                (step (bin 1 1) _ _ (u-bin buf 1 1 (omega arith)) (
                                                  step (crop_code f) _ _ (read_crop-Reads f is) (
                                                    step (bin 1 0) [] _
                                                      (u-bin buf 1 0 (omega arith))
                                                      (step {A = ℕ} [] []
                                                        (λ fps.
                                                          return {A = Picture}
                                                            (record (picture f) { fps = fps }))
                                                        (Reads-return buf 0)
                                                        (Reads-return buf
                                                          (picture f)))))))))))))))))))))))))))

-- The NAL unit: its header, then the parameter set.
abbrev pub nal_code : ℕ → Fields → List ℕ
nal_code ref_idc f = bin 1 0 ++ (bin 2 ref_idc ++ (bin 5 7 ++ (sps_code f ++ [])))

read_nal-Reads :
    (buf : List ℕ) (ref_idc : ℕ) (f : Fields) (before : Picture)
    → ref_idc < 4
    → IsFields f
    → Reads buf (read_nal buf (length buf) before) (nal_code ref_idc f) (ok, picture buf f)
unfolding read_nal
read_nal-Reads buf ref_idc f before small is =
    step buf (bin 1 0) _ _ (u-bin buf 1 0 (omega arith)) (
      step buf (bin 2 ref_idc) _ _ (u-bin buf 2 ref_idc small) (
        step buf (bin 5 7) _ _ (u-bin buf 5 7 (omega arith)) (
          step buf (sps_code f) [] _ (read_sps-Reads buf f is)
            (Reads-return buf (ok, picture buf f)))))

-- Of a buffer that begins with a parameter set written field by field, without emulation prevention
-- bytes, of a profile with no chroma fields, with pic_order_cnt_type 0, cropping offsets and no
-- VUI, mk_h264_decode_sps returns AS_ERROR_CODE_OK and the size of the picture: 16 pixels for each
-- macroblock, twice the rows if the picture has fields, less twice the cropping offsets, which
-- count twice again in the rows of a picture with fields; and the rate 0. Every field is in its
-- range and the sides fit an int.
pub h264_decode_sps-encoded :
    (buf : List ℕ) (ref_idc : ℕ) (f : Fields) (rest : List ℕ) (before : Picture)
    → ref_idc < 4
    → IsFields f
    → bits buf ≡ nal_code ref_idc f ++ rest
    → h264_decode_sps buf (length buf) before
      ≡ some (
        ok,
        record {
          width = (f.width_in_mbs + 1) * 16 - 2 * (f.left + f.right);
          height =
              (2 - f.mbs_only) * ((f.height_in_units + 1) * 16)
              - (2 - f.mbs_only) * (2 * (f.top + f.bottom));
          fps = 0;
        },
      )
unfolding h264_decode_sps
h264_decode_sps-encoded buf ref_idc f rest before small is e =
    rw ((read_nal-Reads buf ref_idc f before small is).run 0 rest e, h264_decode_sps)
