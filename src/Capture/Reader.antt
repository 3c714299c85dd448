-- ===== src/Capture/Reader.antt =====
-- capture_shared_payload of Smile2Unlock/modules/face_recognition.cppm.
use smile2unlock_v.Base.{
  Bool, true, false, not, ◌&&◌, ◌||◌, Option, none, some, [], ltb, leb, ◌==◌, if◌then◌else◌, take,
  drop,
}
use smile2unlock_v.Base.Text.{Bytes, text}
use smile2unlock_v.Base.Decimal.{ℤ, pos, negsuc}
use smile2unlock_v.Capture.Frame.{
  SharedFrame, reset_header, frame_magic, frame_version, max_image_bytes, max_feature_bytes,
}

-- The return value and the out-parameters; `feature` is empty where none is asked for.
pub record Captured : Type 0 where
  pub succeeded : Bool
  pub image_data : Bytes
  pub width : ℤ
  pub height : ℤ
  pub feature : Bytes
  pub error_message : Bytes

abbrev pub nothing_captured : Bytes → Captured
nothing_captured message = record {
  succeeded = false;
  image_data = [];
  width = pos 0;
  height = pos 0;
  feature = [];
  error_message = message;
}

-- From the image on.
unfoldable pub with_image : SharedFrame → Bool → Bytes → Bytes → Captured
with_image f succeeded feature message = record {
  succeeded = succeeded;
  image_data = take f.image_bytes f.body;
  width = f.width;
  height = f.height;
  feature = feature;
  error_message = message;
}

unfoldable pub read_ready : Bool → Bytes → SharedFrame → Captured
unfolding with_image
read_ready want_feature message f =
    if not want_feature
    then with_image f true [] message
    else if f.feature_bytes == 0 || ltb max_feature_bytes f.feature_bytes
    then with_image f false [] (text "共享特征数据无效")
    else with_image f true (take f.feature_bytes (drop f.image_bytes f.body)) message

unfoldable pub read_status : Bool → Bytes → SharedFrame → ℤ → Captured
unfolding read_ready
read_status want_feature message f (pos n) =
    if n == 1 then read_ready want_feature message f else with_image f false [] (text "共享图像数据无效")
read_status want_feature message f (negsuc n) =
    if n == 2
    then with_image f false [] (text "未检测到可录入的人脸，请调整角度后重试")
    else if n == 3
    then with_image f false [] (text "人脸特征数据过大，无法保存")
    else if n == 1
    then with_image f false [] (text "共享图像数据无效")
    else if n == 0
    then with_image f false [] (text "FaceRecognizer 抓拍失败")
    else with_image f false [] (text "共享图像数据无效")

unfoldable pub read_frame : Bool → Bytes → SharedFrame → Captured
unfolding read_status
read_frame want_feature message f =
    if (f.magic == frame_magic && f.version == frame_version)
      && (ltb 0 f.image_bytes && leb f.image_bytes max_image_bytes)
    then read_status want_feature message f f.status_code
    else nothing_captured (text "共享图像数据无效")

-- `message` is the text of an error that stops the capture before the frame is read, or of the
-- caller. The process gets the fresh mapping, and its exit code says whether it is read.
unfoldable pub capture_shared_payload :
    (want_feature : Bool)
    → (unmapped : Option Bytes) → (process : SharedFrame → Bool × SharedFrame)
    → (process_error message : Bytes) → (mapping : SharedFrame) → Captured
unfolding read_frame reset_header
capture_shared_payload want_feature (some error) process process_error message mapping =
    nothing_captured error
capture_shared_payload want_feature none process process_error message mapping =
    let (exited, f) = process (reset_header mapping) in
    if exited then read_frame want_feature message f else nothing_captured process_error
