-- ===== src/Gui/Handler/Sizes.antt =====
-- Which requests are answered: it depends on their size only.
use smile2unlock_v.Base.{
  ◌-◌, ◌^◌, ◌≤◌, ◌↔◌, inl, inr, refl, [], true, arith, length, ltb, Bool-cases, take,
}
use smile2unlock_v.Base.Text.{Bytes, text, c_string, find, find_from, next}
use smile2unlock_v.Base.Decimal.{ℤ, pos, negsuc, parse_int}
use smile2unlock_v.Gui.Float.{FloatOps}
use smile2unlock_v.Gui.Protocol.{
  GuiIpcCommand, ping, get_all_users, add_user, update_user, delete_user, get_user_faces,
  delete_face, capture_and_add_face, start_camera_preview, stop_camera_preview, get_latest_preview,
  capture_preview_frame, get_dll_status, inject_dll, start_recognition, stop_recognition,
  is_recognition_running, get_recognition_result, get_recognizer_config, save_recognizer_config,
  is_camera_preview_running, unknown_command, GuiIpcRequest, GuiIpcResponse, success, service_error,
  command_of, payload_capacity,
}
use smile2unlock_v.Gui.Backend.{Outcome, value, thrown, Frame, IBackendService}
use smile2unlock_v.Gui.Handler.Texts.{
  serialize_users, serialize_dll_status, serialize_result, read_config,
}
use smile2unlock_v.Gui.Handler.Commands.{
  handle_get_all_users, handle_add_user, handle_update_user, handle_delete_user,
  handle_get_user_faces, handle_delete_face, handle_capture_and_add_face,
  handle_start_camera_preview, handle_is_camera_preview_running, handle_get_dll_status,
  handle_inject_dll, handle_start_recognition, handle_is_recognition_running,
  handle_get_recognition_result, handle_save_recognizer_config,
}
use smile2unlock_v.Gui.Handler.Answers.{
  IsAnswerTo, IsAnswered, set_payload_text-IsAnswerTo, set_error-IsAnswerTo,
  set_short_payload-IsAnswerTo,
}
use smile2unlock_v.Udp.Memory.{length-zeros, zeros_pos}
use smile2unlock_v.Gui.Protocol.{cleared_response}
use smile2unlock_v.Gui.Handler.Preview.{
  HandlerState, MappingCalls, serialize_preview_via_shared_mapping, latest_preview_as,
  capture_preview_as, handle_get_latest_preview, handle_capture_preview_frame,
}
use smile2unlock_v.Gui.Handler.{
  Handled, answered, lift, handle_command, caught, handle, handle_sized, opened_response,
}
use smile2unlock_v.Gui.Handler.Replies.{
  replied, printed, flagged, stopped, add_user-IsAnswered, update_user-IsAnswered,
  delete_user-IsAnswered, faces-IsAnswered, delete_face-IsAnswered, capture-IsAnswered,
  config-IsAnswered,
}

module _ {S F : Type 0} (ops : FloatOps F) (b : IBackendService S F) (m : MappingCalls)
    (r : GuiIpcResponse) (start : IsAnswerTo r r) where
  mapping-IsAnswered :
      (frame : Frame) (tag : Bytes)
      → IsAnswerTo r (serialize_preview_via_shared_mapping m frame tag r).0
  unfolding serialize_preview_via_shared_mapping
  mapping-IsAnswered frame tag = elim (Bool-cases m.security_built) [
    | inr e ↦ rw e (set_error-IsAnswerTo r start.whole _)
    | inl e ↦ elim (Bool-cases (ltb (2 ^ 32 - 1) (length frame.image_data))) [
      | inl l ↦ rw (e, l) (set_error-IsAnswerTo r start.whole _)
      | inr l ↦ elim (Bool-cases m.created) [
        | inr c ↦ rw (e, l, c) (set_error-IsAnswerTo r start.whole _)
        | inl c ↦ elim (Bool-cases m.viewed) [
          | inr v ↦ rw (e, l, c, v) (set_error-IsAnswerTo r start.whole _)
          | inl v ↦ rw (e, l, c, v) (set_payload_text-IsAnswerTo r start.whole _ success)
        ]
      ]
    ]
  ]

  latest-IsAnswered : (h : HandlerState S) → IsAnswered r (handle_get_latest_preview b m r h).0
  unfolding handle_get_latest_preview latest_preview_as
  latest-IsAnswered h = go (b.get_latest_camera_preview h.service)
    where
      shown : (frame : Frame) (s : S) → IsAnswered r (latest_preview_as b m r h (value frame, s)).0
      shown frame s = elim (Bool-cases frame.available) [
        | inl e ↦ rw e (mapping-IsAnswered frame (text "stream"))
        | inr e ↦ rw e (set_payload_text-IsAnswerTo r start.whole frame.message service_error)
      ]

      go : (o : Outcome Frame × S) → IsAnswered r (latest_preview_as b m r h o).0
      go (value frame, s) = shown frame s
      go (thrown e, s) = tt

  captured-IsAnswered : (h : HandlerState S) → IsAnswered r (handle_capture_preview_frame b m r h).0
  unfolding handle_capture_preview_frame capture_preview_as
  captured-IsAnswered h = go (b.capture_preview_frame h.service)
    where
      shown : (frame : Frame) (s : S) → IsAnswered r (capture_preview_as b m r h (value frame, s)).0
      shown frame s = elim (Bool-cases frame.available) [
        | inl e ↦ rw e (mapping-IsAnswered frame (text "capture"))
        | inr e ↦ rw e (set_payload_text-IsAnswerTo r start.whole frame.message service_error)
      ]

      go : (o : Outcome Frame × S) → IsAnswered r (capture_preview_as b m r h o).0
      go (value frame, s) = shown frame s
      go (thrown e, s) = tt

  handle_command-IsAnswered :
      (cmd : GuiIpcCommand) (payload : Bytes) (h : HandlerState S)
      → IsAnswered r (handle_command ops b m cmd payload r h).0
  unfolding handle_command lift handle_get_all_users handle_add_user handle_update_user
      handle_delete_user handle_get_user_faces handle_delete_face handle_capture_and_add_face
      handle_start_camera_preview handle_is_camera_preview_running handle_get_dll_status
      handle_inject_dll handle_start_recognition handle_is_recognition_running
      handle_get_recognition_result handle_save_recognizer_config
  handle_command-IsAnswered ping payload h =
      set_short_payload-IsAnswerTo r start.whole (text "pong") (omega arith)
  handle_command-IsAnswered get_all_users payload h =
      printed ops b r start h.service serialize_users b.get_all_users
  handle_command-IsAnswered add_user payload h =
      add_user-IsAnswered ops b r start h.service payload (find b'|' payload)
        (find_from b'|' (next (find b'|' payload)) payload)
  handle_command-IsAnswered update_user payload h =
      let p1 = find b'|' payload in
      let p2 = find_from b'|' (next p1) payload in
      update_user-IsAnswered ops b r start h.service payload p1 p2
        (find_from b'|' (next p2) payload)
  handle_command-IsAnswered delete_user payload h =
      delete_user-IsAnswered ops b r start h.service (parse_int payload)
  handle_command-IsAnswered get_user_faces payload h =
      faces-IsAnswered ops b r start h.service (parse_int payload)
  handle_command-IsAnswered delete_face payload h =
      delete_face-IsAnswered ops b r start h.service payload (find b'|' payload)
  handle_command-IsAnswered capture_and_add_face payload h =
      capture-IsAnswered ops b r start h.service payload (find b'|' payload)
  handle_command-IsAnswered start_camera_preview payload h =
      replied ops b r start h.service b.start_camera_preview
  handle_command-IsAnswered stop_camera_preview payload h =
      stopped ops b r start h.service b.stop_camera_preview
  handle_command-IsAnswered is_camera_preview_running payload h =
      flagged ops b r start h.service b.is_camera_preview_running
  handle_command-IsAnswered get_latest_preview payload h = latest-IsAnswered h
  handle_command-IsAnswered capture_preview_frame payload h = captured-IsAnswered h
  handle_command-IsAnswered get_dll_status payload h =
      printed ops b r start h.service serialize_dll_status b.get_dll_status
  handle_command-IsAnswered inject_dll payload h = replied ops b r start h.service b.inject_dll
  handle_command-IsAnswered start_recognition payload h =
      replied ops b r start h.service b.start_recognition
  handle_command-IsAnswered stop_recognition payload h =
      stopped ops b r start h.service b.stop_recognition
  handle_command-IsAnswered is_recognition_running payload h =
      flagged ops b r start h.service b.is_recognition_running
  handle_command-IsAnswered get_recognition_result payload h =
      printed ops b r start h.service (serialize_result ops) b.get_recognition_result
  handle_command-IsAnswered get_recognizer_config payload h =
      config-IsAnswered ops b r start h.service
  handle_command-IsAnswered save_recognizer_config payload h =
      replied ops b r start h.service (b.save_recognizer_config (read_config ops payload))
  handle_command-IsAnswered (unknown_command n) payload h =
      set_error-IsAnswerTo r start.whole (text "Unknown command")

opened-IsAnswerTo : (q : GuiIpcRequest) → IsAnswerTo (opened_response q) (opened_response q)
unfolding opened_response cleared_response c_string
opened-IsAnswerTo q = record {
  same_id = refl;
  same_time = refl;
  whole = length-zeros payload_capacity;
  read_as = [];
  ends_inside = rw (zeros_pos payload_capacity (omega arith)) refl;
}

-- A size between 0 and the capacity of the payload.
unfoldable pub IsSized : ℤ → Type 0
IsSized (pos n) = n ≤ payload_capacity
IsSized (negsuc n) = ⊥

-- The request was answered, under its id and time, with a text that ends inside of the payload.
pub data IsAnsweredBy {S : Type 0} (q : GuiIpcRequest) : Handled S → Type 0 where
  answered_by :
      {r : GuiIpcResponse} {h : HandlerState S}
      → IsAnswerTo (opened_response q) r
      → IsAnsweredBy q (answered r h)

module _ {S F : Type 0} (ops : FloatOps F) (b : IBackendService S F) (m : MappingCalls) where
  caught-IsAnsweredBy :
      (q : GuiIpcRequest) (o : Outcome GuiIpcResponse × HandlerState S)
      → IsAnswered (opened_response q) o.0
      → IsAnsweredBy q (caught ops b m (opened_response q) o)
  unfolding caught
  caught-IsAnsweredBy q (value r', h) answers = answered_by answers
  caught-IsAnsweredBy q (thrown e, h) answers =
      let start = opened-IsAnswerTo q in
      answered_by (set_error-IsAnswerTo (opened_response q) start.whole e)

  IsSized-IsAnsweredBy :
      (q : GuiIpcRequest) (h : HandlerState S) (size : ℤ)
      → IsSized size ↔ IsAnsweredBy q (handle_sized ops b m q (opened_response q) h size)
  unfolding handle_sized IsSized
  IsSized-IsAnsweredBy q h (negsuc n) = (λ k. absurd k, λ k. elim k [ ])
  IsSized-IsAnsweredBy q h (pos n) = elim (Bool-cases (ltb payload_capacity n)) [
    | inl e ↦ rw e (λ k. absurd (ground (arith, e, k)), λ k. elim k [ ])
    | inr e ↦ rw e (
      λ k. caught-IsAnsweredBy q _ (
          handle_command-IsAnswered ops b m (opened_response q) (opened-IsAnswerTo q)
            (command_of q.command) (take n q.payload) h),
      λ k. ground (arith, e),
    )
  ]

  -- The handler answers a request if and only if its payload_size is between 0 and the capacity of
  -- the payload; the answer has the request's id and timestamp, a payload of the full size, and a
  -- NUL inside of it. For every other size it leaves by an exception or reads out of bounds.
  pub handle-IsAnsweredBy :
      (q : GuiIpcRequest) (h : HandlerState S)
      → IsSized q.payload_size ↔ IsAnsweredBy q (handle ops b m true q h)
  unfolding handle
  handle-IsAnsweredBy q h = IsSized-IsAnsweredBy q h q.payload_size
