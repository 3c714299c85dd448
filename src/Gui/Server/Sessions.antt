-- ===== src/Gui/Server/Sessions.antt =====
-- What a client of the server gets over one connection.
use smile2unlock_v.Base.{
  suc, ◌≡◌, refl, ap, List, [], ◌∷◌, ◌++◌, map, Bool, true, false, not, Option, some, ◌==◌,
  if◌then◌else◌, length, All,
}
use smile2unlock_v.Gui.Float.{FloatOps}
use smile2unlock_v.Gui.Protocol.{GuiIpcRequest, GuiIpcResponse, gui_ipc_magic, gui_ipc_version}
use smile2unlock_v.Gui.Backend.{IBackendService}
use smile2unlock_v.Gui.Handler.Preview.{HandlerState, MappingCalls}
use smile2unlock_v.Gui.Handler.{Handled, answered, handle}
use smile2unlock_v.Gui.Handler.Sizes.{IsSized, IsAnsweredBy, answered_by, handle-IsAnsweredBy}
use smile2unlock_v.Gui.Server.{closed, serve, continue_with, handle_client}

-- A round that reads a request in full.
abbrev pub requested : GuiIpcRequest → Bool × Option GuiIpcRequest
requested q = (true, some q)

-- What is handled ends in a response.
abbrev Answers : {S : Type 0} → Handled S → Type 0
Answers {S} x = (r : GuiIpcResponse) × (h : HandlerState S) × (x ≡ answered r h)

answered-IsAnsweredBy :
    {S : Type 0} (q : GuiIpcRequest) (x : Handled S) → IsAnsweredBy q x → Answers x
answered-IsAnsweredBy q _ (answered_by {r} {h} a) = (r, h, refl)

either-Answers :
    {S : Type 0} (c : Bool) (x y : Handled S) → Answers x → Answers y → Answers (if c then x else y)
either-Answers true x y a b = a
either-Answers false x y a b = b

module _ {S F : Type 0} (ops : FloatOps F) (b : IBackendService S F) (m : MappingCalls) where
  serve-Answers :
      (q : GuiIpcRequest) (h : HandlerState S)
      → IsSized q.payload_size
      → Answers (serve ops b m true q h)
  unfolding serve
  serve-Answers q h sized =
      either-Answers (not (q.magic == gui_ipc_magic)) _ _ (_, h, refl)
        (either-Answers (not (q.version == gui_ipc_version)) _ _ (_, h, refl)
          (answered-IsAnsweredBy q (handle ops b m true q h)
            ((handle-IsAnsweredBy ops b m q h).0 sized)))

  -- Over one connection every request whose payload_size is between 0 and the capacity of the
  -- payload gets one response, whatever its magic number, version and command, until a round finds
  -- the server stopping; the connection then ends without an exception or an invalid read.
  pub handle_client-closed :
      (qs : List GuiIpcRequest) (last : Option GuiIpcRequest)
      (later : List (Bool × Option GuiIpcRequest)) (h : HandlerState S)
      → All (λ q. IsSized q.payload_size) qs
      → let session = handle_client ops b m true (map requested qs ++ (false, last) ∷ later) h in
        (length session.responses ≡ length qs) × ((h' : HandlerState S) × (session.end ≡ closed h'))
  unfolding handle_client continue_with
  handle_client-closed [] last later h sized = (refl, (h, refl))
  handle_client-closed (q ∷ qs) last later h (s, sized) =
      let (r, h', e) = serve-Answers q h s in
      let (count, final) = handle_client-closed qs last later h' sized in rw e (ap suc count, final)
