-- ===== src/Capture/Preview.antt =====
-- The preview: streamPreviewToSharedMemory of FaceRecognizer/src/main.cpp writes pictures into a
-- mapping while GetLatestPreviewFrame of Smile2Unlock/modules/face_recognition.cppm reads it. A
-- round of the writer is the sequence of its writes (`round_stores`), which `preview_round` has as one
-- step; a read is one step.
pub mod Reads
pub mod Frames
pub mod Torn
use smile2unlock_v.Base.{
  ℕ, ◌+◌, ◌^◌, ◌%◌, List, [], ◌∷◌, Bool, true, false, not, ◌&&◌, ◌||◌, Option, none, some, ltb,
  ◌==◌, if◌then◌else◌, take, length,
}
use smile2unlock_v.Base.Text.{Bytes, text}
use smile2unlock_v.Base.Decimal.{ℤ, pos, negsuc}
use smile2unlock_v.Capture.Frame.{
  SharedFrame, reset_header, frame_magic, frame_version, max_image_bytes, capture_failed,
  invalid_frame, ready,
}
use smile2unlock_v.Capture.Writer.{Image, is_positive, image_size, write_at, write_image}

-- The mapping with the two fields that a single picture does not use.
pub record Preview : Type 0 where
  pub frame : SharedFrame
  pub frame_sequence : ℕ
  pub stop_requested : Bool

unfoldable pub reset_preview : Preview → Preview
unfolding reset_header
reset_preview p = record {
  frame = reset_header p.frame;
  frame_sequence = 0;
  stop_requested = false;
}

abbrev pub with_status : ℤ → Preview → Preview
with_status status p = record p { frame = record p.frame { status_code = status } }

-- One round with what the camera gives: `none` is a failed capture or one without data.
unfoldable pub preview_round : Option Image → Preview → Preview
unfolding is_positive image_size write_image
preview_round none p = with_status capture_failed p
preview_round (some image) p =
    let image_bytes = image_size image.width image.height image.channels in
    if not (is_positive image.width) || not (is_positive image.height)
    then with_status capture_failed p
    else if image_bytes == 0 || ltb max_image_bytes image_bytes
    then with_status invalid_frame p
    else record p {
      frame = record (write_image image image_bytes p.frame) { feature_bytes = 0 };
      frame_sequence = (p.frame_sequence + 1) % 2 ^ 32;
    }

-- The loop with the stop requests that its rounds find. `none` is a loop that has not ended.
unfoldable pub preview_rounds : List (Bool × Option Image) → Preview → Option Preview
unfolding preview_round
preview_rounds [] p = none
preview_rounds ((stop_requested, picture) ∷ rounds) p =
    let rest = preview_rounds rounds (preview_round picture p) in
    if stop_requested then some p else rest

-- The exit code, and the mapping that is left; an exception of the camera ends the process too.
unfoldable pub stream_preview_to_shared_memory :
    (mapped camera_initialized : Bool)
    → List (Bool × Option Image)
    → Preview
    → Option (Bool × Preview)
unfolding preview_rounds reset_preview
stream_preview_to_shared_memory mapped camera_initialized rounds p =
    if not mapped
    then some (false, p)
    else if not camera_initialized
    then some (false, with_status capture_failed (reset_preview p))
    else ended (preview_rounds rounds (reset_preview p))
  where
    ended : Option Preview → Option (Bool × Preview)
    ended none = none
    ended (some p') = some (true, p')

-- A frame, an error, or no frame since the last call.
pub data Latest : Type 0 where
  latest : (image_data : Bytes) → (width height : ℤ) → Latest
  refused : (error_message : Bytes) → Latest
  unchanged : Latest

unfoldable pub is_ready : ℤ → Bool
is_ready (pos n) = n == 1
is_ready (negsuc n) = false

-- The result, and the new last_preview_sequence_.
unfoldable pub read_preview : Preview → ℕ → Latest × ℕ
unfolding is_ready
read_preview p last =
    let f = p.frame in
    if not (f.magic == frame_magic) || not (f.version == frame_version)
    then (refused (text "预览共享内存无效"), last)
    else if not (is_ready f.status_code)
    then (refused (text "摄像头尚未输出可用画面"), last)
    else if f.image_bytes == 0 || ltb max_image_bytes f.image_bytes
    then (refused (text "预览帧数据无效"), last)
    else if p.frame_sequence == last
    then (unchanged, last)
    else (latest (take f.image_bytes f.body) f.width f.height, p.frame_sequence)

unfoldable pub get_latest_preview_frame : (running : Bool) → Option Preview → ℕ → Latest × ℕ
unfolding read_preview
get_latest_preview_frame running none last = (refused (text "摄像头未开启"), last)
get_latest_preview_frame running (some p) last =
    if running then read_preview p last else (refused (text "摄像头未开启"), last)

-- The writer inside of a round, after `k` bytes of its memcpy: the header is the one before.
unfoldable pub copy_part : ℕ → Image → Preview → Preview
unfolding write_at
copy_part k image p = record p {
  frame = record p.frame { body = write_at 0 (take k image.pixels) p.frame.body };
}

-- One write of the writer to the mapping; `copied` is the memcpy up to some byte.
pub data Store : Type 0 where
  copied : (bytes : ℕ) → Image → Store
  set_width set_height set_channels set_status : ℤ → Store
  set_image_bytes set_feature_bytes : ℕ → Store
  next_sequence : Store

unfoldable pub store : Store → Preview → Preview
unfolding copy_part
store (copied bytes image) p = copy_part bytes image p
store (set_width w) p = record p { frame = record p.frame { width = w } }
store (set_height h) p = record p { frame = record p.frame { height = h } }
store (set_channels c) p = record p { frame = record p.frame { channels = c } }
store (set_status status) p = record p { frame = record p.frame { status_code = status } }
store (set_image_bytes n) p = record p { frame = record p.frame { image_bytes = n } }
store (set_feature_bytes n) p = record p { frame = record p.frame { feature_bytes = n } }
store next_sequence p = record p { frame_sequence = (p.frame_sequence + 1) % 2 ^ 32 }

-- The writes of one round, in their order.
unfoldable pub round_stores : Option Image → List Store
unfolding is_positive image_size
round_stores none = set_status capture_failed ∷ []
round_stores (some image) =
    let image_bytes = image_size image.width image.height image.channels in
    if not (is_positive image.width) || not (is_positive image.height)
    then set_status capture_failed ∷ []
    else if image_bytes == 0 || ltb max_image_bytes image_bytes
    then set_status invalid_frame ∷ []
    else copied image_bytes image
      ∷ set_width image.width
      ∷ set_height image.height
      ∷ set_channels image.channels
      ∷ set_image_bytes image_bytes
      ∷ set_feature_bytes 0
      ∷ set_status ready
      ∷ next_sequence
      ∷ []

-- The writes of the writer and the reads, in the order in which they happen.
pub data PreviewEvent : Type 0 where
  write : Store → PreviewEvent
  read : PreviewEvent

-- A picture as the reader shows it.
pub record Picture : Type 0 where
  pub image_data : Bytes
  pub width : ℤ
  pub height : ℤ

-- The frames that the reads give, in order, while the process runs.
unfoldable pub delivered : List PreviewEvent → Preview → ℕ → List Picture
unfolding store get_latest_preview_frame
delivered [] p last = []
delivered (write w ∷ events) p last = delivered events (store w p) last
delivered (read ∷ events) p last =
    let (result, last') = get_latest_preview_frame true (some p) last in
    with_result result (delivered events p last')
  where
    with_result : Latest → List Picture → List Picture
    with_result (latest image_data width height) later =
        record { image_data = image_data; width = width; height = height } ∷ later
    with_result _ later = later

-- Whole rounds, with reads between them and none inside.
pub data PreviewTurn : Type 0 where
  round : Option Image → PreviewTurn
  poll : PreviewTurn

unfoldable pub writes : List Store → List PreviewEvent → List PreviewEvent
writes [] events = events
writes (w ∷ stores) events = write w ∷ writes stores events

unfoldable pub events_of : List PreviewTurn → List PreviewEvent
unfolding writes round_stores
events_of [] = []
events_of (round picture ∷ turns) = writes (round_stores picture) (events_of turns)
events_of (poll ∷ turns) = read ∷ events_of turns
