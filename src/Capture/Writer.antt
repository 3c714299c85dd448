-- ===== src/Capture/Writer.antt =====
-- captureImageToSharedMemory of FaceRecognizer/src/main.cpp.
use smile2unlock_v.Base.{
  ℕ, suc, ◌+◌, ◌-◌, ◌*◌, ◌^◌, ◌%◌, Bool, true, false, not, ◌||◌, Option, none, some, ◌++◌, ltb,
  ◌==◌, if◌then◌else◌, length, take, drop,
}
use smile2unlock_v.Base.Text.{Bytes}
use smile2unlock_v.Base.Decimal.{ℤ, pos, negsuc}
use smile2unlock_v.Recognizer.Hex.{encode_bytes_to_hex}
use smile2unlock_v.Capture.Frame.{
  SharedFrame, reset_header, max_image_bytes, max_feature_bytes, ready, capture_failed,
  invalid_frame, feature_extraction_failed, feature_too_large,
}

pub record Image : Type 0 where
  pub pixels : Bytes
  pub width : ℤ
  pub height : ℤ
  pub channels : ℤ

-- What the recogniser gives for the picture: an exception, no features, or the bytes of the floats.
pub data Extracted : Type 0 where
  raised no_features : Extracted
  features : Bytes → Extracted

-- Whether the mapping was opened and mapped under a name, and what the camera and the recogniser
-- do. No picture is a failed call or one without data.
pub record Scene : Type 0 where
  pub mapped : Bool
  pub camera_initialized : Bool
  pub picture : Option Image
  pub extracted : Extracted

unfoldable pub is_positive : ℤ → Bool
is_positive (pos n) = not (n == 0)
is_positive (negsuc n) = false

-- The product as a uint32_t, for a positive width and height.
unfoldable pub image_size : ℤ → ℤ → ℤ → ℕ
image_size (pos w) (pos h) (pos c) = w * h * c % 2 ^ 32
image_size (pos w) (pos h) (negsuc c) = (2 ^ 32 - w * h * suc c % 2 ^ 32) % 2 ^ 32
image_size _ _ _ = 0

-- `memcpy(bytes + at, s.data(), s.size())`.
unfoldable pub write_at : ℕ → Bytes → Bytes → Bytes
write_at at s body = take at body ++ (s ++ drop (at + length s) body)

unfoldable pub write_feature : Extracted → SharedFrame → SharedFrame
unfolding write_at
write_feature raised f = record f { status_code = feature_extraction_failed }
write_feature no_features f = record f { status_code = feature_extraction_failed }
write_feature (features bytes) f =
    let feature_hex = encode_bytes_to_hex bytes in
    if ltb max_feature_bytes (length feature_hex)
    then record f { status_code = feature_too_large }
    else record f {
      feature_bytes = length feature_hex;
      body = write_at f.image_bytes feature_hex f.body;
    }

unfoldable pub write_image : Image → ℕ → SharedFrame → SharedFrame
unfolding write_at
write_image image image_bytes f = record f {
  width = image.width;
  height = image.height;
  channels = image.channels;
  image_bytes = image_bytes;
  status_code = ready;
  body = write_at 0 (take image_bytes image.pixels) f.body;
}

unfoldable pub write_picture : Bool → Scene → Option Image → SharedFrame → Bool × SharedFrame
unfolding write_feature write_image image_size is_positive
write_picture extract_feature scene none f = (false, record f { status_code = capture_failed })
write_picture extract_feature scene (some image) f =
    let image_bytes = image_size image.width image.height image.channels in
    if not (is_positive image.width) || not (is_positive image.height)
    then (false, record f { status_code = capture_failed })
    else if image_bytes == 0 || ltb max_image_bytes image_bytes
    then (false, record f { status_code = invalid_frame })
    else (
      true,
      if extract_feature
          then write_feature scene.extracted (write_image image image_bytes f)
          else write_image image image_bytes f,
    )

-- Whether the process exits with 0, and what it leaves in the mapping.
unfoldable pub capture_image_to_shared_memory : Bool → Scene → SharedFrame → Bool × SharedFrame
unfolding write_picture reset_header
capture_image_to_shared_memory extract_feature scene f =
    if not scene.mapped
    then (false, f)
    else if not scene.camera_initialized
    then (false, record (reset_header f) { status_code = capture_failed })
    else write_picture extract_feature scene scene.picture (reset_header f)
