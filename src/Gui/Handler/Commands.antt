-- ===== src/Gui/Handler/Commands.antt =====
-- One handler for each command, and the switch over the commands.
use smile2unlock_v.Base.{ℕ, ◌+◌, ◌-◌, [], ◌∷◌, ◌++◌, Option, none, some, if◌then◌else◌, length}
use smile2unlock_v.Base.Text.{Bytes, text, find, find_from, next, substr, substr_from}
use smile2unlock_v.Base.Decimal.{ℤ, pos, parse_int}
use smile2unlock_v.Gui.Float.{FloatOps}
use smile2unlock_v.Gui.Lines.{flag}
use smile2unlock_v.Gui.Protocol.{
  GuiIpcResponse, success, service_error, overwrite, set_payload_text, set_error,
}
use smile2unlock_v.Gui.Backend.{Method, ◌>>=◌, pure, Reply, ConfigReply, IBackendService}
use smile2unlock_v.Gui.Handler.Texts.{
  serialize_users, serialize_faces, serialize_dll_status, serialize_result, serialize_config,
  read_config,
}

-- `strcpy(response.payload, s)` with the size set.
unfoldable pub set_short_payload : Bytes → GuiIpcResponse → GuiIpcResponse
unfolding overwrite
set_short_payload s r = record r {
  status = success;
  payload_size = pos (length s);
  payload = overwrite (s ++ 0 ∷ []) r.payload;
}

unfoldable pub respond : Reply → GuiIpcResponse → GuiIpcResponse
unfolding set_payload_text
respond reply r =
    set_payload_text reply.message (if reply.succeeded then success else service_error) r

module _ {S F : Type 0} (ops : FloatOps F) (b : IBackendService S F) where
  abbrev Handle : Type 0
  Handle = GuiIpcResponse → Method S GuiIpcResponse

  unfoldable pub invalid_format : Bytes → Handle
  invalid_format message r = pure (set_error message r)

  unfoldable pub handle_get_all_users : Handle
  handle_get_all_users r = do
    users ← b.get_all_users
    pure (set_payload_text (serialize_users users) success r)

  -- With the positions of the first two separators.
  unfoldable pub add_user_at : Bytes → Option ℕ → Option ℕ → Handle
  unfolding invalid_format
  add_user_at payload (some p1) (some p2) r = do
    reply ←
        b.add_user (substr 0 p1 payload) (substr (p1 + 1) (p2 - p1 - 1) payload)
          (substr_from (p2 + 1) payload)
    pure (respond reply r)
  add_user_at payload _ _ r = invalid_format (text "Invalid payload format") r

  unfoldable pub handle_add_user : Bytes → Handle
  unfolding add_user_at
  handle_add_user payload r =
      let p1 = find b'|' payload in
      let p2 = find_from b'|' (next p1) payload in add_user_at payload p1 p2 r

  unfoldable pub update_user_as : Bytes → ℕ → ℕ → ℕ → Option ℤ → Handle
  unfolding invalid_format
  update_user_as payload p1 p2 p3 none r = invalid_format (text "Invalid user_id format") r
  update_user_as payload p1 p2 p3 (some user_id) r = do
    reply ←
        b.update_user user_id (substr (p1 + 1) (p2 - p1 - 1) payload)
          (substr (p2 + 1) (p3 - p2 - 1) payload) (substr_from (p3 + 1) payload)
    pure (respond reply r)

  unfoldable pub update_user_at : Bytes → Option ℕ → Option ℕ → Option ℕ → Handle
  unfolding update_user_as
  update_user_at payload (some p1) (some p2) (some p3) r =
      update_user_as payload p1 p2 p3 (parse_int (substr 0 p1 payload)) r
  update_user_at payload _ _ _ r = invalid_format (text "Invalid payload format") r

  unfoldable pub handle_update_user : Bytes → Handle
  unfolding update_user_at
  handle_update_user payload r =
      let p1 = find b'|' payload in
      let p2 = find_from b'|' (next p1) payload in
      let p3 = find_from b'|' (next p2) payload in update_user_at payload p1 p2 p3 r

  unfoldable pub delete_user_as : Option ℤ → Handle
  unfolding invalid_format
  delete_user_as none r = invalid_format (text "Invalid user_id format") r
  delete_user_as (some user_id) r = do reply ← b.delete_user user_id; pure (respond reply r)

  unfoldable pub handle_delete_user : Bytes → Handle
  unfolding delete_user_as
  handle_delete_user payload r = delete_user_as (parse_int payload) r

  unfoldable pub get_user_faces_as : Option ℤ → Handle
  unfolding invalid_format
  get_user_faces_as none r = invalid_format (text "Invalid user_id format") r
  get_user_faces_as (some user_id) r = do
    faces ← b.get_user_faces user_id
    pure (set_payload_text (serialize_faces faces) success r)

  unfoldable pub handle_get_user_faces : Bytes → Handle
  unfolding get_user_faces_as
  handle_get_user_faces payload r = get_user_faces_as (parse_int payload) r

  unfoldable pub delete_face_as : Option ℤ → Option ℤ → Handle
  unfolding invalid_format
  delete_face_as (some user_id) (some face_id) r = do
    reply ← b.delete_face user_id face_id
    pure (respond reply r)
  delete_face_as _ _ r = invalid_format (text "Invalid ID format") r

  unfoldable pub delete_face_at : Bytes → Option ℕ → Handle
  unfolding delete_face_as
  delete_face_at payload none r = invalid_format (text "Invalid payload format") r
  delete_face_at payload (some p) r =
      delete_face_as (parse_int (substr 0 p payload)) (parse_int (substr_from (p + 1) payload)) r

  unfoldable pub handle_delete_face : Bytes → Handle
  unfolding delete_face_at
  handle_delete_face payload r = delete_face_at payload (find b'|' payload) r

  unfoldable pub capture_and_add_face_as : Bytes → ℕ → Option ℤ → Handle
  unfolding invalid_format
  capture_and_add_face_as payload p none r = invalid_format (text "Invalid user_id format") r
  capture_and_add_face_as payload p (some user_id) r = do
    reply ← b.capture_and_add_face user_id (substr_from (p + 1) payload)
    pure (respond reply r)

  unfoldable pub capture_and_add_face_at : Bytes → Option ℕ → Handle
  unfolding capture_and_add_face_as
  capture_and_add_face_at payload none r = invalid_format (text "Invalid payload format") r
  capture_and_add_face_at payload (some p) r =
      capture_and_add_face_as payload p (parse_int (substr 0 p payload)) r

  unfoldable pub handle_capture_and_add_face : Bytes → Handle
  unfolding capture_and_add_face_at
  handle_capture_and_add_face payload r = capture_and_add_face_at payload (find b'|' payload) r

  unfoldable pub reply_to : Method S Reply → Handle
  reply_to m r = do reply ← m; pure (respond reply r)

  unfoldable pub handle_start_camera_preview : Handle
  unfolding reply_to
  handle_start_camera_preview r = reply_to b.start_camera_preview r

  unfoldable pub handle_is_camera_preview_running : Handle
  handle_is_camera_preview_running r = do
    running ← b.is_camera_preview_running
    pure (set_short_payload (flag running) r)

  unfoldable pub handle_get_dll_status : Handle
  handle_get_dll_status r = do
    status ← b.get_dll_status
    pure (set_payload_text (serialize_dll_status status) success r)

  unfoldable pub handle_inject_dll : Handle
  unfolding reply_to
  handle_inject_dll r = reply_to b.inject_dll r

  unfoldable pub handle_start_recognition : Handle
  unfolding reply_to
  handle_start_recognition r = reply_to b.start_recognition r

  unfoldable pub handle_is_recognition_running : Handle
  handle_is_recognition_running r = do
    running ← b.is_recognition_running
    pure (set_short_payload (flag running) r)

  unfoldable pub handle_get_recognition_result : Handle
  handle_get_recognition_result r = do
    result ← b.get_recognition_result
    pure (set_payload_text (serialize_result ops result) success r)

  unfoldable pub config_response : ConfigReply F → GuiIpcResponse → GuiIpcResponse
  config_response c r =
      if c.loaded
      then set_payload_text (serialize_config ops c.config) success r
      else set_payload_text c.message service_error r

  unfoldable pub handle_get_recognizer_config : Handle
  unfolding config_response
  handle_get_recognizer_config r = do c ← b.get_recognizer_config; pure (config_response c r)

  unfoldable pub handle_save_recognizer_config : Bytes → Handle
  unfolding reply_to
  handle_save_recognizer_config payload r =
      reply_to (b.save_recognizer_config (read_config ops payload)) r

  -- `response.status = SUCCESS` behind a call that returns nothing.
  unfoldable pub handle_stop : Method S (Unit {0}) → Handle
  handle_stop stop r = do _ ← stop; pure (record r { status = success })
