-- ===== src/Gui/Handler.antt =====
-- GuiIpcRequestHandler of Smile2Unlock/backend/gui_ipc_handler.h: what the service does with a
-- request. The handlers of the commands stand in the modules below.
pub mod Texts
pub mod Commands
pub mod Preview
pub mod Payloads
pub mod Answers
pub mod Replies
pub mod Sizes
use smile2unlock_v.Base.{
  ℕ, zero, suc, ◌+◌, ◌-◌, ◌*◌, ◌^◌, ◌%◌, ◌≤◌, ◌<◌, ◌≡◌, ◌≢◌, ◌⊎◌, ◌↔◌, inl, inr, refl, ap, sym, ◌∙◌,
  List, [], ◌∷◌, ◌++◌, map, Bool, true, false, not, ◌&&◌, ◌||◌, Option, none, some, arith, ltb, leb,
  ◌==◌, ==_refl, lt→ltb, tests, if◌then◌else◌, Bool-cases, Option-cases, length, take, drop,
  take_exact, take_all, take-append_left, drop_exact, drop_past, length-append, length-take,
  length-drop, All, All-take, All-append,
}
use smile2unlock_v.Base.Text.{Bytes, text, find, find_from, next, substr, substr_from}
use smile2unlock_v.Base.Decimal.{ℤ, pos, to_string, parse_int}
use smile2unlock_v.Gui.Float.{FloatOps}
use smile2unlock_v.Gui.Models.{User, FaceData}
use smile2unlock_v.Gui.Protocol.{
  GuiIpcCommand, ping, get_all_users, add_user, update_user, delete_user, get_user_faces,
  delete_face, capture_and_add_face, start_camera_preview, stop_camera_preview, get_latest_preview,
  capture_preview_frame, get_dll_status, inject_dll, start_recognition, stop_recognition,
  is_recognition_running, get_recognition_result, get_recognizer_config, save_recognizer_config,
  is_camera_preview_running, unknown_command, GuiIpcResponse, success, service_error, overwrite,
  set_payload_text, set_error,
}
use smile2unlock_v.Gui.Backend.{
  Outcome, value, thrown, Method, ◌>>=◌, pure, Reply, Frame, ConfigReply, IBackendService,
}
use smile2unlock_v.Gui.Handler.Texts.{
  serialize_users, serialize_faces, serialize_dll_status, serialize_result, serialize_config,
  read_config,
}
use Commands.{
  set_short_payload, handle_get_all_users, handle_add_user, handle_update_user, handle_delete_user,
  handle_get_user_faces, handle_delete_face, handle_capture_and_add_face,
  handle_start_camera_preview, handle_is_camera_preview_running, handle_get_dll_status,
  handle_inject_dll, handle_start_recognition, handle_is_recognition_running,
  handle_get_recognition_result, handle_get_recognizer_config, handle_save_recognizer_config,
  handle_stop,
}
use Preview.{HandlerState, MappingCalls, handle_get_latest_preview, handle_capture_preview_frame}
use smile2unlock_v.Udp.Memory.{zeros}
use smile2unlock_v.Base.Decimal.{negsuc}
use smile2unlock_v.Gui.Protocol.{GuiIpcRequest, cleared_response, command_of, payload_capacity}

-- What becomes of a call of `handle`: a response, an exception that leaves it, or a read behind the
-- payload of the request.
pub data Handled (S : Type 0) : Type 0 where
  answered : GuiIpcResponse → HandlerState S → Handled S
  escaped : HandlerState S → Handled S
  out_of_bounds : Handled S

unfoldable pub opened_response : GuiIpcRequest → GuiIpcResponse
opened_response request = record cleared_response {
  request_id = request.request_id;
  timestamp = request.timestamp;
}

module _ {S F : Type 0} (ops : FloatOps F) (b : IBackendService S F) (m : MappingCalls) where
  unfoldable pub lift :
      (GuiIpcResponse → Method S GuiIpcResponse)
      → GuiIpcResponse
      → HandlerState S
      → Outcome GuiIpcResponse × HandlerState S
  lift f r h = let (o, s) = f r h.service in (o, record h { service = s })

  unfoldable pub handle_command :
      GuiIpcCommand
      → Bytes
      → GuiIpcResponse
      → HandlerState S
      → Outcome GuiIpcResponse × HandlerState S
  unfolding lift set_short_payload set_error
  handle_command ping payload = lift (λ r. pure (set_short_payload (text "pong") r))
  handle_command get_all_users payload = lift (handle_get_all_users ops b)
  handle_command add_user payload = lift (handle_add_user ops b payload)
  handle_command update_user payload = lift (handle_update_user ops b payload)
  handle_command delete_user payload = lift (handle_delete_user ops b payload)
  handle_command get_user_faces payload = lift (handle_get_user_faces ops b payload)
  handle_command delete_face payload = lift (handle_delete_face ops b payload)
  handle_command capture_and_add_face payload = lift (handle_capture_and_add_face ops b payload)
  handle_command start_camera_preview payload = lift (handle_start_camera_preview ops b)
  handle_command stop_camera_preview payload = lift (handle_stop ops b b.stop_camera_preview)
  handle_command is_camera_preview_running payload = lift (handle_is_camera_preview_running ops b)
  handle_command get_latest_preview payload = handle_get_latest_preview b m
  handle_command capture_preview_frame payload = handle_capture_preview_frame b m
  handle_command get_dll_status payload = lift (handle_get_dll_status ops b)
  handle_command inject_dll payload = lift (handle_inject_dll ops b)
  handle_command start_recognition payload = lift (handle_start_recognition ops b)
  handle_command stop_recognition payload = lift (handle_stop ops b b.stop_recognition)
  handle_command is_recognition_running payload = lift (handle_is_recognition_running ops b)
  handle_command get_recognition_result payload = lift (handle_get_recognition_result ops b)
  handle_command get_recognizer_config payload = lift (handle_get_recognizer_config ops b)
  handle_command save_recognizer_config payload = lift (handle_save_recognizer_config ops b payload)
  handle_command (unknown_command n) payload =
      lift (λ r. pure (set_error (text "Unknown command") r))

  -- The catch clause of `handle`.
  unfoldable pub caught : GuiIpcResponse → Outcome GuiIpcResponse × HandlerState S → Handled S
  unfolding set_error
  caught r (value r', h) = answered r' h
  caught r (thrown e, h) = answered (set_error e r) h

  -- `std::string payload(request.payload, request.payload_size)`: a negative size is a huge one,
  -- and the constructor raises std::length_error outside of the try block.
  unfoldable pub handle_sized : GuiIpcRequest → GuiIpcResponse → HandlerState S → ℤ → Handled S
  unfolding caught
  handle_sized request r h (negsuc n) = escaped h
  handle_sized request r h (pos n) =
      if ltb payload_capacity n
      then out_of_bounds
      else caught r (handle_command (command_of request.command) (take n request.payload) r h)

  -- With whether the handler has a backend. The last activity that NotifyServiceActivity stores is
  -- not part of the state here.
  unfoldable pub handle : Bool → GuiIpcRequest → HandlerState S → Handled S
  unfolding handle_sized opened_response set_error
  handle has_backend request h =
      let r = opened_response request in
      if not has_backend
      then answered (set_error (text "Backend not available") r) h
      else handle_sized request r h request.payload_size
