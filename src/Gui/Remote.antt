-- ===== src/Gui/Remote.antt =====
-- RemoteBackendService of Smile2Unlock/backend/remote_backend_service.h: the methods of the
-- interface as requests over the pipe.
pub mod Parse
pub mod Methods
pub mod Refines
pub mod Calls
pub mod Listings
pub mod Settings
pub mod Preview
use smile2unlock_v.Base.{
  ℕ, zero, suc, ◌+◌, ◌-◌, ◌*◌, ◌^◌, ◌%◌, ◌≤◌, ◌<◌, ◌≡◌, ◌≢◌, ◌⊎◌, ◌↔◌, inl, inr, refl, ap, sym, ◌∙◌,
  List, [], ◌∷◌, ◌++◌, map, Bool, true, false, not, ◌&&◌, ◌||◌, Option, none, some, arith, ltb, leb,
  ◌==◌, ==_refl, lt→ltb, tests, if◌then◌else◌, Bool-cases, Option-cases, length, take, drop,
  take_exact, take_all, take-append_left, drop_exact, drop_past, length-append, length-take,
  length-drop, All, All-take, All-append,
}
use smile2unlock_v.Base.Text.{Bytes, text, same, c_string}
use smile2unlock_v.Base.Decimal.{ℤ, pos, to_string}
use smile2unlock_v.Udp.Memory.{zeros, until_nul}
use smile2unlock_v.Gui.Float.{FloatOps}
use smile2unlock_v.Gui.Lines.{key_line, flag}
use smile2unlock_v.Gui.Models.{FaceRecognizerConfig}
use smile2unlock_v.Gui.Protocol.{
  GuiIpcCommand, ping, get_all_users, add_user, update_user, delete_user, get_user_faces,
  delete_face, capture_and_add_face, start_camera_preview, stop_camera_preview, get_latest_preview,
  capture_preview_frame, get_dll_status, inject_dll, start_recognition, stop_recognition,
  is_recognition_running, get_recognition_result, get_recognizer_config, save_recognizer_config,
  is_camera_preview_running, GuiIpcRequest, GuiIpcResponse, cleared_request, cleared_response,
  command_code, payload_capacity, overwrite, set_error, success,
}
use smile2unlock_v.Gui.Backend.{Reply}

pub record Remote : Type 0 where
  pub pipe_open : Bool
  pub request_id : ℕ
  pub initialized : Bool

-- What WriteFile and ReadFile on the pipe do with a request: the world `W` holds the other side.
pub data Exchange : Type 0 where
  write_failed read_failed : Exchange
  read : GuiIpcResponse → Exchange

-- The system: waiting for the pipe and opening it, an exchange over it, and the clock.
pub record Pipe (W : Type 0) : Type 0 where
  pub wait : W → Bool
  pub open_pipe : W → Bool
  pub exchange : GuiIpcRequest → W → Exchange × W
  pub now : W → ℕ

unfoldable pub disconnect : Remote → Remote
disconnect r = if r.pipe_open then record r { pipe_open = false; initialized = false } else r

-- The payload is cut to the array less one byte, and its size is what was copied.
unfoldable pub build_request : GuiIpcCommand → Bytes → ℕ → ℕ → GuiIpcRequest
unfolding overwrite cleared_request
build_request cmd payload id now =
    let copied = take (payload_capacity - 1) payload in
    record cleared_request {
      command = command_code cmd;
      payload_size = pos (length copied);
      timestamp = now;
      request_id = id;
      payload = overwrite copied cleared_request.payload;
    }

-- Whether the request succeeded, the response, and the new states.
pub record Sent (W : Type 0) : Type 0 where
  pub ok : Bool
  pub response : GuiIpcResponse
  pub remote : Remote
  pub world : W

exchanged : {W : Type 0} → Remote → Exchange × W → Sent W
unfolding disconnect set_error
exchanged r (write_failed, w) = record {
  ok = false;
  response = set_error (text "Write failed") cleared_response;
  remote = disconnect r;
  world = w;
}
exchanged r (read_failed, w) = record {
  ok = false;
  response = set_error (text "Read failed") cleared_response;
  remote = disconnect r;
  world = w;
}
exchanged r (read response, w) = record {
  ok = response.status == success;
  response = response;
  remote = r;
  world = w;
}

module _ {W : Type 0} (pipe : Pipe W) where
  unfoldable pub connect : Remote → W → Bool × Remote
  connect r w =
      if r.pipe_open
      then (true, r)
      else if not (pipe.wait w)
      then (false, r)
      else if pipe.open_pipe w
      then (true, record r { pipe_open = true })
      else (false, r)

  unfoldable pub initialize : Remote → W → Bool × Remote
  unfolding connect
  initialize r w =
      if r.initialized
      then (true, r)
      else let (connected, r') = connect r w in
        if connected then (true, record r' { initialized = true }) else (false, r')

  unfoldable pub send_request : GuiIpcCommand → Bytes → Remote → W → Sent W
  unfolding connect build_request exchanged
  send_request cmd payload r w =
      let (connected, r') = if r.initialized then (true, r) else connect r w in
      if not connected
      then record {
        ok = false;
        response = set_error (text "Not connected") cleared_response;
        remote = r';
        world = w;
      }
      else let id = (r'.request_id + 1) % 2 ^ 32 in
        exchanged (record r' { request_id = id })
          (pipe.exchange (build_request cmd payload id (pipe.now w)) w)
