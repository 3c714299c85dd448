-- ===== src/Gui/Server.antt =====
-- GuiIpcServer of Smile2Unlock/backend/managers/ipc/gui_ipc_server.h: the rounds of one connection.
-- The pipe is the list of what its reads give; the creation of the pipe is not modelled.
pub mod Sessions
use smile2unlock_v.Base.{
  List, [], ◌∷◌, Bool, true, false, not, Option, none, some, ◌==◌, if◌then◌else◌,
}
use smile2unlock_v.Base.Text.{text}
use smile2unlock_v.Gui.Float.{FloatOps}
use smile2unlock_v.Gui.Protocol.{
  GuiIpcRequest, GuiIpcResponse, cleared_response, gui_ipc_magic, gui_ipc_version, set_error,
}
use smile2unlock_v.Gui.Backend.{IBackendService}
use smile2unlock_v.Gui.Handler.Preview.{HandlerState, MappingCalls}
use smile2unlock_v.Gui.Handler.{Handled, answered, escaped, out_of_bounds, handle, opened_response}

-- How a connection ends: the client is gone or the server stops, an exception ends the process, or
-- memory was read out of bounds.
pub data End (S : Type 0) : Type 0 where
  closed : HandlerState S → End S
  terminated : HandlerState S → End S
  undefined : End S

module _ {S F : Type 0} (ops : FloatOps F) (b : IBackendService S F) (m : MappingCalls) where
  -- One request that was read in full, with whether a handler is registered.
  unfoldable pub serve : Bool → GuiIpcRequest → HandlerState S → Handled S
  unfolding handle set_error opened_response cleared_response
  serve has_handler request h =
      if not (request.magic == gui_ipc_magic)
      then answered (set_error (text "Invalid magic number") cleared_response) h
      else if not (request.version == gui_ipc_version)
      then answered (set_error (text "Version mismatch") cleared_response) h
      else if has_handler
      then handle ops b m true request h
      else answered (set_error (text "No handler registered") (opened_response request)) h

  pub record Session : Type 0 where
    pub responses : List GuiIpcResponse
    pub end : End S

  unfoldable pub continue_with : Handled S → (HandlerState S → Session) → Session
  continue_with (answered r h) rest =
      let later = rest h in record { responses = r ∷ later.responses; end = later.end }
  continue_with (escaped h) rest = record { responses = []; end = terminated h }
  continue_with out_of_bounds rest = record { responses = []; end = undefined }

  -- A round reads `running_` and then a request; `none` is a read that fails or comes short.
  unfoldable pub handle_client :
      Bool → List (Bool × Option GuiIpcRequest) → HandlerState S → Session
  unfolding continue_with serve
  handle_client has_handler [] h = record { responses = []; end = closed h }
  handle_client has_handler ((false, q) ∷ rounds) h = record { responses = []; end = closed h }
  handle_client has_handler ((true, none) ∷ rounds) h = record { responses = []; end = closed h }
  handle_client has_handler ((true, some request) ∷ rounds) h =
      continue_with (serve has_handler request h) (handle_client has_handler rounds)
