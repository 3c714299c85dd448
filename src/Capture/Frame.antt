-- ===== src/Capture/Frame.antt =====
-- common/models/shared_frame_ipc.h: the header, and the memory behind it.
use smile2unlock_v.Base.{ℕ, ◌*◌}
use smile2unlock_v.Base.Text.{Bytes}
use smile2unlock_v.Base.Decimal.{ℤ, pos, negsuc}

abbrev pub frame_magic : ℕ
frame_magic = 0x5346524D

abbrev pub frame_version : ℕ
frame_version = 2

abbrev pub max_image_bytes : ℕ
max_image_bytes = 8 * 1024 * 1024

abbrev pub max_feature_bytes : ℕ
max_feature_bytes = 64 * 1024

-- The fields that both sides use.
pub record SharedFrame : Type 0 where
  pub magic : ℕ
  pub version : ℕ
  pub status_code : ℤ
  pub width : ℤ
  pub height : ℤ
  pub channels : ℤ
  pub image_bytes : ℕ
  pub feature_bytes : ℕ
  pub body : Bytes

-- `*header = SharedFrameHeader{}`.
unfoldable pub reset_header : SharedFrame → SharedFrame
reset_header f = record {
  magic = frame_magic;
  version = frame_version;
  status_code = pos 0;
  width = pos 0;
  height = pos 0;
  channels = pos 0;
  image_bytes = 0;
  feature_bytes = 0;
  body = f.body;
}

-- SharedFrameStatus.
abbrev pub ready : ℤ
ready = pos 1

abbrev pub capture_failed : ℤ
capture_failed = negsuc 0

abbrev pub invalid_frame : ℤ
invalid_frame = negsuc 1

abbrev pub feature_extraction_failed : ℤ
feature_extraction_failed = negsuc 2

abbrev pub feature_too_large : ℤ
feature_too_large = negsuc 3
