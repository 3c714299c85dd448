-- ===== src/Capture/Agreement.antt =====
-- The service reads what the recognizer process wrote.
use smile2unlock_v.Base.{
  ℕ, ◌+◌, ◌*◌, ◌≤◌, ◌<◌, ◌≡◌, inl, inr, refl, Bool, true, false, none, some, [], ◌++◌, arith, ltb,
  leb, ◌==◌, if◌then◌else◌, length, take, drop, take_exact, drop_exact, take_all, Bool-cases,
}
use smile2unlock_v.Base.Text.{Bytes, text}
use smile2unlock_v.Recognizer.Hex.{encode_bytes_to_hex, length-encode_bytes_to_hex}
use smile2unlock_v.Capture.Frame.{
  SharedFrame, reset_header, frame_magic, frame_version, max_image_bytes, max_feature_bytes,
}
use smile2unlock_v.Capture.Writer.{
  Image, Scene, Extracted, raised, no_features, features, is_positive, image_size, write_at,
  write_feature, write_image, write_picture, capture_image_to_shared_memory,
}
use smile2unlock_v.Capture.Reader.{Captured, read_frame, capture_shared_payload}

-- What a capture is worth, by the features of its picture.
abbrev seen : Image → Bool → Bytes → Bytes → Captured
seen image succeeded feature message = record {
  succeeded = succeeded;
  image_data = image.pixels;
  width = image.width;
  height = image.height;
  feature = feature;
  error_message = message;
}

unfoldable pub expected : Image → Extracted → Captured
expected image raised = seen image false [] (text "未检测到可录入的人脸，请调整角度后重试")
expected image no_features = seen image false [] (text "未检测到可录入的人脸，请调整角度后重试")
expected image (features bytes) =
    if ltb max_feature_bytes (2 * length bytes)
    then seen image false [] (text "人脸特征数据过大，无法保存")
    else if length bytes == 0
    then seen image false [] (text "共享特征数据无效")
    else seen image true (encode_bytes_to_hex bytes) []

-- A scene with a picture that fits, of which all pixels are there.
pub record IsPictured (scene : Scene) (image : Image) : Type 0 where
  pub mapped : scene.mapped ≡ true
  pub camera : scene.camera_initialized ≡ true
  pub picture : scene.picture ≡ some image
  pub wide : is_positive image.width ≡ true
  pub high : is_positive image.height ≡ true
  pub sized : image_size image.width image.height image.channels ≡ length image.pixels
  pub filled : 0 < length image.pixels
  pub fits : length image.pixels ≤ max_image_bytes

module _ (image : Image) (f : SharedFrame) where
  abbrev pub written : SharedFrame
  written = write_image image (length image.pixels) f

  pub image-written : take (length image.pixels) written.body ≡ image.pixels
  unfolding write_image write_at take
  image-written =
      rw (take_all (length image.pixels) image.pixels (omega arith))
        (take_exact (length image.pixels) image.pixels _ refl)

  module _ (hex : Bytes) where
    abbrev both : Bytes
    both = write_at (length image.pixels) hex written.body

    image-both : take (length image.pixels) both ≡ image.pixels
    unfolding write_at
    image-both = rw image-written (take_exact (length image.pixels) image.pixels _ refl)

    feature-both : take (length hex) (drop (length image.pixels) both) ≡ hex
    unfolding write_at
    feature-both =
        rw
          (
            image-written,
            drop_exact (length image.pixels) image.pixels
                (hex ++ drop (length image.pixels + length hex) written.body) refl,
          )
          (take_exact (length hex) hex _ refl)

  read-written :
      (extracted : Extracted)
      → 0 < length image.pixels
      → length image.pixels ≤ max_image_bytes
      → f.magic ≡ frame_magic
      → f.version ≡ frame_version
      → read_frame true [] (write_feature extracted written) ≡ expected image extracted
  unfolding read_frame write_feature write_image expected
  read-written raised filled fits magic version =
      let some_bytes : ltb 0 (length image.pixels) ≡ true = ground arith in
      let few_bytes : leb (length image.pixels) max_image_bytes ≡ true = ground arith in
      rw (magic, version, some_bytes, few_bytes, image-written) refl
  read-written no_features filled fits magic version =
      let some_bytes : ltb 0 (length image.pixels) ≡ true = ground arith in
      let few_bytes : leb (length image.pixels) max_image_bytes ≡ true = ground arith in
      rw (magic, version, some_bytes, few_bytes, image-written) refl
  read-written (features bytes) filled fits magic version =
      let some_bytes : ltb 0 (length image.pixels) ≡ true = ground arith in
      let few_bytes : leb (length image.pixels) max_image_bytes ≡ true = ground arith in
      let hex = encode_bytes_to_hex bytes in
      let size = length-encode_bytes_to_hex bytes in
      elim (Bool-cases (ltb max_feature_bytes (2 * length bytes))) [
        | inl large ↦ rw (size, large, magic, version, some_bytes, few_bytes, image-written) refl
        | inr small ↦
            (let fits_hex : ltb max_feature_bytes (length hex) ≡ false = ground arith in
              elim (Bool-cases (length bytes == 0)) [
                | inl empty ↦
                    (let none_given : (length hex == 0) ≡ true = ground arith in
                      rw
                        (
                          fits_hex,
                          magic,
                          version,
                          some_bytes,
                          few_bytes,
                          none_given,
                          small,
                          empty,
                          image-both hex,
                        )
                        refl)
                | inr some_features ↦
                    (let given : (length hex == 0) ≡ false = ground arith in
                      rw
                        (
                          fits_hex,
                          magic,
                          version,
                          some_bytes,
                          few_bytes,
                          given,
                          fits_hex,
                          small,
                          some_features,
                          image-both hex,
                          feature-both hex,
                        )
                        refl)
              ])
      ]

capture_image-written :
    (scene : Scene) (image : Image) (f : SharedFrame)
    → IsPictured scene image
    → capture_image_to_shared_memory true scene f
      ≡ (true, write_feature scene.extracted (written image (reset_header f)))
unfolding capture_image_to_shared_memory write_picture
capture_image-written scene image f p =
    let small : ltb max_image_bytes (length image.pixels) ≡ false =
      fits_lem (length image.pixels) p.fits in
    let given : (length image.pixels == 0) ≡ false = filled_lem (length image.pixels) p.filled in
    rw (p.mapped, p.camera, p.picture, p.wide, p.high, p.sized, given, small) refl
  where
    fits_lem : (n : ℕ) → n ≤ max_image_bytes → ltb max_image_bytes n ≡ false
    fits_lem n h = ground arith

    filled_lem : (n : ℕ) → 0 < n → (n == 0) ≡ false
    filled_lem n h = ground arith

-- When the recognizer process has a picture that fits, with all its pixels, the service's capture
-- gives those pixels with their width and height; with features that fit it succeeds and gives
-- their hex digits, and with no features, with an exception, with too many or with none at all it
-- fails with the text for that. What the mapping held before does not matter.
pub capture_shared_payload-expected :
    (scene : Scene) (image : Image) (mapping : SharedFrame) (process_error : Bytes)
    → IsPictured scene image
    → capture_shared_payload true none
        (capture_image_to_shared_memory true scene)
        process_error
        []
        mapping
      ≡ expected image scene.extracted
unfolding capture_shared_payload reset_header
capture_shared_payload-expected scene image mapping process_error p =
    rw (capture_image-written scene image (reset_header mapping) p) (
      read-written image (reset_header (reset_header mapping)) scene.extracted p.filled p.fits refl
        refl)
