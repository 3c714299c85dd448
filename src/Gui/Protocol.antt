-- ===== src/Gui/Protocol.antt =====
-- common/models/gui_ipc_protocol.h. The magic number, version, command, request id and timestamp
-- are bit patterns, which the programs only compare and copy; the payload is the whole array.
pub mod Payload
use smile2unlock_v.Base.{
  ℕ, zero, suc, ◌+◌, ◌-◌, ◌*◌, ◌^◌, ◌%◌, ◌≤◌, ◌<◌, ◌≡◌, ◌≢◌, ◌⊎◌, ◌↔◌, inl, inr, refl, ap, sym, ◌∙◌,
  List, [], ◌∷◌, ◌++◌, map, Bool, true, false, not, ◌&&◌, ◌||◌, Option, none, some, arith, ltb, leb,
  ◌==◌, ==_refl, lt→ltb, tests, if◌then◌else◌, Bool-cases, Option-cases, length, take, drop,
  take_exact, take_all, take-append_left, drop_exact, drop_past, length-append, length-take, All,
  All-take, All-append,
}
use smile2unlock_v.Base.Text.{Bytes, text}
use smile2unlock_v.Base.Decimal.{ℤ, pos}
use smile2unlock_v.Udp.Memory.{zeros, until_nul}

abbrev pub gui_ipc_magic : ℕ
gui_ipc_magic = 0x53325549

abbrev pub gui_ipc_version : ℕ
gui_ipc_version = 1

abbrev pub payload_capacity : ℕ
payload_capacity = 1024 * 1024

pub data GuiIpcCommand : Type 0 where
  ping get_all_users add_user update_user delete_user : GuiIpcCommand
  get_user_faces delete_face capture_and_add_face : GuiIpcCommand
  start_camera_preview stop_camera_preview get_latest_preview : GuiIpcCommand
  capture_preview_frame get_dll_status inject_dll : GuiIpcCommand
  start_recognition stop_recognition is_recognition_running : GuiIpcCommand
  get_recognition_result get_recognizer_config save_recognizer_config : GuiIpcCommand
  is_camera_preview_running : GuiIpcCommand
  unknown_command : ℕ → GuiIpcCommand

unfoldable pub command_code : GuiIpcCommand → ℕ
command_code ping = 0
command_code get_all_users = 100
command_code add_user = 101
command_code update_user = 102
command_code delete_user = 103
command_code get_user_faces = 200
command_code delete_face = 201
command_code capture_and_add_face = 202
command_code start_camera_preview = 300
command_code stop_camera_preview = 3001
command_code get_latest_preview = 302
command_code capture_preview_frame = 303
command_code get_dll_status = 400
command_code inject_dll = 401
command_code start_recognition = 500
command_code stop_recognition = 501
command_code is_recognition_running = 502
command_code get_recognition_result = 503
command_code get_recognizer_config = 504
command_code save_recognizer_config = 505
command_code is_camera_preview_running = 600
command_code (unknown_command n) = n

unfoldable pub command_of : ℕ → GuiIpcCommand
command_of n =
    if n == 0
    then ping
    else if n == 100
    then get_all_users
    else if n == 101
    then add_user
    else if n == 102
    then update_user
    else if n == 103
    then delete_user
    else if n == 200
    then get_user_faces
    else if n == 201
    then delete_face
    else if n == 202
    then capture_and_add_face
    else if n == 300
    then start_camera_preview
    else if n == 3001
    then stop_camera_preview
    else if n == 302
    then get_latest_preview
    else if n == 303
    then capture_preview_frame
    else if n == 400
    then get_dll_status
    else if n == 401
    then inject_dll
    else if n == 500
    then start_recognition
    else if n == 501
    then stop_recognition
    else if n == 502
    then is_recognition_running
    else if n == 503
    then get_recognition_result
    else if n == 504
    then get_recognizer_config
    else if n == 505
    then save_recognizer_config
    else if n == 600
    then is_camera_preview_running
    else unknown_command n

abbrev pub IsKnown : GuiIpcCommand → Type 0
IsKnown (unknown_command n) = ⊥
IsKnown _ = Unit

pub command_of-command_code : (c : GuiIpcCommand) → IsKnown c → command_of (command_code c) ≡ c
unfolding command_of command_code
command_of-command_code ping h = refl
command_of-command_code (unknown_command n) h = absurd h
command_of-command_code _ h = refl

abbrev pub success : ℕ
success = 0

abbrev pub failure : ℕ
failure = 1

abbrev pub not_implemented : ℕ
not_implemented = 2

abbrev pub invalid_payload : ℕ
invalid_payload = 3

abbrev pub service_error : ℕ
service_error = 4

pub record GuiIpcRequest : Type 0 where
  pub magic : ℕ
  pub version : ℕ
  pub command : ℕ
  pub payload_size : ℤ
  pub timestamp : ℕ
  pub request_id : ℕ
  pub payload : Bytes

pub record GuiIpcResponse : Type 0 where
  pub magic : ℕ
  pub version : ℕ
  pub status : ℕ
  pub payload_size : ℤ
  pub timestamp : ℕ
  pub request_id : ℕ
  pub payload : Bytes

unfoldable pub cleared_request : GuiIpcRequest
cleared_request = record {
  magic = gui_ipc_magic;
  version = gui_ipc_version;
  command = 0;
  payload_size = pos 0;
  timestamp = 0;
  request_id = 0;
  payload = zeros payload_capacity;
}

unfoldable pub cleared_response : GuiIpcResponse
cleared_response = record {
  magic = gui_ipc_magic;
  version = gui_ipc_version;
  status = success;
  payload_size = pos 0;
  timestamp = 0;
  request_id = 0;
  payload = zeros payload_capacity;
}

-- `memcpy(payload, s, size)`: the rest of the array stays.
unfoldable pub overwrite : Bytes → Bytes → Bytes
overwrite s array = s ++ drop (length s) array

-- The text is cut to leave room for the NUL behind it.
unfoldable pub set_payload_text : Bytes → ℕ → GuiIpcResponse → GuiIpcResponse
unfolding overwrite
set_payload_text msg new_status r =
    let copied = take (payload_capacity - 1) msg in
    record r {
      status = new_status;
      payload_size = pos (length copied);
      payload = overwrite (copied ++ 0 ∷ []) r.payload;
    }

-- Of a C string, so only what stands before a NUL.
unfoldable pub set_error : Bytes → GuiIpcResponse → GuiIpcResponse
unfolding set_payload_text
set_error msg r = set_payload_text (until_nul msg) failure r
