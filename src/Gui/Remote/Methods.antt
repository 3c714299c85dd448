-- ===== src/Gui/Remote/Methods.antt =====
-- The methods of RemoteBackendService, but for those that read a preview (Gui/Remote/Preview).
use smile2unlock_v.Base.{List, [], ◌∷◌, ◌++◌, Bool, true, false, Option, none, some}
use smile2unlock_v.Base.Text.{Bytes, text, same, c_string}
use smile2unlock_v.Base.Decimal.{ℤ, to_string}
use smile2unlock_v.Gui.Float.{FloatOps}
use smile2unlock_v.Gui.Lines.{key_line, flag}
use smile2unlock_v.Gui.Models.{
  User, FaceData, DllStatus, RecognitionResult, FaceRecognizerConfig, no_dll_status, no_result,
}
use smile2unlock_v.Gui.Protocol.{
  GuiIpcCommand, get_all_users, add_user, update_user, delete_user, get_user_faces, delete_face,
  capture_and_add_face, start_camera_preview, stop_camera_preview, get_dll_status, inject_dll,
  start_recognition, stop_recognition, is_recognition_running, get_recognition_result,
  get_recognizer_config, save_recognizer_config, is_camera_preview_running,
}
use smile2unlock_v.Gui.Backend.{Reply, ConfigReply}
use smile2unlock_v.Gui.Remote.{Remote, Pipe, Sent, send_request}
use smile2unlock_v.Gui.Remote.Parse.{
  parse_users, parse_faces, parse_dll_status, parse_recognition_result, parse_recognizer_config,
}

-- How a method ends: it returns, a std::exception leaves it, or it reads a payload with no NUL and
-- runs out of the response.
pub data Called (A : Type 0) : Type 0 where
  returned : A → Called A
  raised : Called A
  overread : Called A

abbrev pub Call : Type 0 → Type 0 → Type 0
Call W A = Remote → W → Called A × Remote × W

unfoldable pub ended : {W A : Type 0} → Called A → Sent W → Called A × Remote × W
ended c sent = (c, sent.remote, sent.world)

-- `error_message = response->payload` and the success of the request.
unfoldable pub reply_as : Bool → Option Bytes → Called Reply
reply_as ok none = overread
reply_as ok (some message) = returned (record { succeeded = ok; message = message })

-- A value that is parsed out of the payload, or a default when the request failed.
unfoldable pub parsed_as : {A : Type 0} → (Bytes → Option A) → A → Bool → Option Bytes → Called A
parsed_as parse default false payload = returned default
parsed_as parse default true none = overread
parsed_as parse default true (some payload) = or_raise (parse payload)
  where
    or_raise : {A : Type 0} → Option A → Called A
    or_raise none = raised
    or_raise (some a) = returned a

flag_as : Bool → Option Bytes → Called Bool
flag_as false payload = returned false
flag_as true none = overread
flag_as true (some payload) = returned (same payload (text "1"))

module _ {W : Type 0} (pipe : Pipe W) where
  unfoldable pub request_reply : GuiIpcCommand → Bytes → Call W Reply
  unfolding ended reply_as
  request_reply cmd payload r w =
      let sent = send_request pipe cmd payload r w in
      ended (reply_as sent.ok (c_string sent.response.payload)) sent

  unfoldable pub request_value :
      {A : Type 0} → GuiIpcCommand → Bytes → (Bytes → Option A) → A → Call W A
  unfolding ended parsed_as
  request_value cmd payload parse default r w =
      let sent = send_request pipe cmd payload r w in
      ended (parsed_as parse default sent.ok (c_string sent.response.payload)) sent

  request_flag : GuiIpcCommand → Call W Bool
  unfolding ended flag_as
  request_flag cmd r w =
      let sent = send_request pipe cmd [] r w in
      ended (flag_as sent.ok (c_string sent.response.payload)) sent

  request_nothing : GuiIpcCommand → Call W (Unit {0})
  unfolding ended
  request_nothing cmd r w = ended (returned tt) (send_request pipe cmd [] r w)

  refused : Bytes → Call W Reply
  refused message r w = (returned (record { succeeded = false; message = message }), r, w)

  unfoldable pub remote_get_dll_status : Call W DllStatus
  unfolding request_value
  remote_get_dll_status = request_value get_dll_status [] parse_dll_status no_dll_status

  unfoldable pub remote_inject_dll : Call W Reply
  unfolding request_reply
  remote_inject_dll = request_reply inject_dll []

  unfoldable pub remote_get_all_users : Call W (List User)
  unfolding request_value
  remote_get_all_users = request_value get_all_users [] parse_users []

  unfoldable pub remote_add_user : Bytes → Bytes → Bytes → Call W Reply
  unfolding request_reply
  remote_add_user username password remark =
      request_reply add_user (username ++ (b'|' ∷ (password ++ (b'|' ∷ remark))))

  unfoldable pub remote_update_user : ℤ → Bytes → Bytes → Bytes → Call W Reply
  unfolding request_reply
  remote_update_user user_id username password remark =
      request_reply update_user
        (to_string user_id ++ (b'|' ∷ (username ++ (b'|' ∷ (password ++ (b'|' ∷ remark))))))

  unfoldable pub remote_delete_user : ℤ → Call W Reply
  unfolding request_reply
  remote_delete_user user_id = request_reply delete_user (to_string user_id)

  unfoldable pub remote_add_face : ℤ → Bytes → Bytes → Call W Reply
  unfolding refused
  remote_add_face user_id feature remark = refused (text "远程模式不支持直接添加人脸特征")

  unfoldable pub remote_start_camera_preview : Call W Reply
  unfolding request_reply
  remote_start_camera_preview = request_reply start_camera_preview []

  unfoldable pub remote_stop_camera_preview : Call W (Unit {0})
  unfolding request_nothing
  remote_stop_camera_preview = request_nothing stop_camera_preview

  unfoldable pub remote_is_camera_preview_running : Call W Bool
  unfolding request_flag
  remote_is_camera_preview_running = request_flag is_camera_preview_running

  unfoldable pub remote_capture_and_add_face : ℤ → Bytes → Call W Reply
  unfolding request_reply
  remote_capture_and_add_face user_id remark =
      request_reply capture_and_add_face (to_string user_id ++ (b'|' ∷ remark))

  unfoldable pub remote_delete_face : ℤ → ℤ → Call W Reply
  unfolding request_reply
  remote_delete_face user_id face_id =
      request_reply delete_face (to_string user_id ++ (b'|' ∷ to_string face_id))

  unfoldable pub remote_update_face_remark : ℤ → ℤ → Bytes → Call W Reply
  unfolding refused
  remote_update_face_remark user_id face_id remark = refused (text "远程模式暂不支持更新人脸备注")

  unfoldable pub remote_get_user_faces : ℤ → Call W (List FaceData)
  unfolding request_value
  remote_get_user_faces user_id = request_value get_user_faces (to_string user_id) parse_faces []

  unfoldable pub remote_start_recognition : Call W Reply
  unfolding request_reply
  remote_start_recognition = request_reply start_recognition []

  unfoldable pub remote_stop_recognition : Call W (Unit {0})
  unfolding request_nothing
  remote_stop_recognition = request_nothing stop_recognition

  unfoldable pub remote_is_recognition_running : Call W Bool
  unfolding request_flag
  remote_is_recognition_running = request_flag is_recognition_running

module _ {F : Type 0} (ops : FloatOps F) where
  -- The settings as SaveRecognizerConfig prints them.
  unfoldable pub config_text : FaceRecognizerConfig F → Bytes
  config_text c = key_line (text "camera") (to_string c.camera) (
      key_line (text "liveness") (flag c.liveness) (
        key_line (text "face_threshold") (ops.show c.face_threshold) (
          key_line (text "liveness_threshold") (ops.show c.liveness_threshold)
            (key_line (text "debug") (flag c.debug) (key_line (text "language") c.language [])))))

module _ {W F : Type 0} (ops : FloatOps F) (pipe : Pipe W) where
  unfoldable pub remote_get_recognition_result : Call W (RecognitionResult F)
  unfolding request_value
  remote_get_recognition_result =
      request_value pipe get_recognition_result [] (parse_recognition_result ops) (no_result ops)

  -- The config that the caller passed stays when the request failed.
  config_as : FaceRecognizerConfig F → Bool → Option Bytes → Called (ConfigReply F)
  config_as c ok none = overread
  config_as c false (some message) =
      returned (record { loaded = false; config = c; message = message })
  config_as c true (some payload) = or_raise (parse_recognizer_config ops payload)
    where
      or_raise : Option (FaceRecognizerConfig F) → Called (ConfigReply F)
      or_raise none = raised
      or_raise (some c') = returned (record { loaded = true; config = c'; message = [] })

  unfoldable pub remote_get_recognizer_config : FaceRecognizerConfig F → Call W (ConfigReply F)
  unfolding ended config_as
  remote_get_recognizer_config c r w =
      let sent = send_request pipe get_recognizer_config [] r w in
      ended (config_as c sent.ok (c_string sent.response.payload)) sent

  unfoldable pub remote_save_recognizer_config : FaceRecognizerConfig F → Call W Reply
  unfolding request_reply config_text
  remote_save_recognizer_config c = request_reply pipe save_recognizer_config (config_text ops c)
