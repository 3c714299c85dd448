-- ===== src/Gui/Remote/Refines.antt =====
-- The remote service over a pipe whose other side is the server is the service of that side.
use smile2unlock_v.Base.{
  ℕ, ◌+◌, ◌-◌, ◌^◌, ◌%◌, ◌<◌, ◌≡◌, refl, ◌∙◌, true, false, some, arith, ltb, ◌==◌, if◌then◌else◌,
  length, take, take-append_left, take_all,
}
use smile2unlock_v.Base.Text.{Bytes, c_string}
use smile2unlock_v.Udp.Memory.{until_nul, length-zeros}
use smile2unlock_v.Gui.Float.{FloatOps}
use smile2unlock_v.Gui.Protocol.{
  GuiIpcCommand, GuiIpcRequest, GuiIpcResponse, IsKnown, command_of-command_code, payload_capacity,
  success, service_error, failure, set_payload_text, set_error, cleared_response,
}
use smile2unlock_v.Gui.Protocol.Payload.{c_string-set_payload_text}
use smile2unlock_v.Gui.Backend.{IBackendService, Method, ◌>>=◌, pure, Outcome, value, thrown, Reply}
use smile2unlock_v.Gui.Handler.Commands.{respond}
use smile2unlock_v.Gui.Handler.Preview.{HandlerState, MappingCalls}
use smile2unlock_v.Gui.Handler.{answered, handle, caught, handle_command, lift, opened_response}
use smile2unlock_v.Gui.Server.{serve}
use smile2unlock_v.Gui.Remote.{Remote, Pipe, read, build_request, send_request}
use smile2unlock_v.Gui.Remote.Methods.{returned, request_reply}

-- The message as it comes back: cut to the payload less one byte, and at its first NUL.
abbrev pub cut_message : Bytes → Bytes
cut_message message = until_nul (take (payload_capacity - 1) message)

length-opened_response : (q : GuiIpcRequest) → length (opened_response q).payload ≡ payload_capacity
unfolding opened_response cleared_response
length-opened_response q = length-zeros payload_capacity

-- What the client has of the end of a method.
abbrev pub reply_seen : Outcome Reply → Reply
reply_seen (value reply) = record {
  succeeded = reply.succeeded;
  message = cut_message reply.message;
}
reply_seen (thrown e) = record { succeeded = false; message = cut_message (until_nul e) }

module _ {S F : Type 0} (ops : FloatOps F) (b : IBackendService S F) (m : MappingCalls) where
  -- The server takes a request of the client apart as the client built it.
  serve-build_request :
      (cmd : GuiIpcCommand) (payload : Bytes) (id now : ℕ) (h : HandlerState S)
      → IsKnown cmd
      → length payload < payload_capacity
      → let q = build_request cmd payload id now in
        serve ops b m true q h
        ≡ caught ops b m
            (opened_response q)
            (handle_command ops b m cmd payload (opened_response q) h)
  unfolding serve handle build_request
  serve-build_request cmd payload id now h known short =
      let whole : take (payload_capacity - 1) payload ≡ payload =
        take_all (payload_capacity - 1) payload (omega arith) in
      let fits : ltb payload_capacity (length payload) ≡ false = ground arith in
      rw (whole, fits, command_of-command_code cmd known, take-append_left payload _) refl

-- The response that becomes of the end of a method that answers with a reply.
answer_of : Outcome Reply → GuiIpcResponse → GuiIpcResponse
answer_of (value reply) r = respond reply r
answer_of (thrown e) r = set_error e r

c_string-answer_of :
    (o : Outcome Reply) (r : GuiIpcResponse)
    → length r.payload ≡ payload_capacity
    → c_string (answer_of o r).payload ≡ some (reply_seen o).message
unfolding answer_of respond set_error
c_string-answer_of (value reply) r e =
    (c_string-set_payload_text reply.message (if reply.succeeded then success else service_error) r
      e).1
c_string-answer_of (thrown t) r e = (c_string-set_payload_text (until_nul t) failure r e).1

status-answer_of :
    (o : Outcome Reply) (r : GuiIpcResponse)
    → ((answer_of o r).status == success) ≡ (reply_seen o).succeeded
unfolding answer_of respond set_error set_payload_text
status-answer_of (value reply) r = ground arith
status-answer_of (thrown t) r = refl

-- The client after a request that came back.
abbrev pub counted : Remote → Remote
counted r = record r { request_id = (r.request_id + 1) % 2 ^ 32 }

module _ {S F : Type 0} (ops : FloatOps F) (b : IBackendService S F) (m : MappingCalls) where
  caught-reply :
      (method : Method S Reply) (r : GuiIpcResponse) (h : HandlerState S)
      → caught ops b m r (lift ops b m (λ r. (do reply ← method; pure (respond reply r))) r h)
        ≡ answered (answer_of (method h.service).0 r) (record h { service = (method h.service).1 })
  unfolding caught lift answer_of
  caught-reply method r h = go (method h.service)
    where
      go :
          (o : Outcome Reply × S)
          → caught ops b m r
              (lift ops b m (λ r. ((λ s. o) >>= (λ reply. pure (respond reply r)))) r h)
            ≡ answered (answer_of o.0 r) (record h { service = o.1 })
      go (value reply, s) = refl
      go (thrown e, s) = refl

  -- What the server answers is what the client reads.
  abbrev pub IsServed : Pipe (HandlerState S) → Type 0
  IsServed pipe =
      (q : GuiIpcRequest) (h : HandlerState S) (r : GuiIpcResponse) (h' : HandlerState S)
      → serve ops b m true q h ≡ answered r h'
      → pipe.exchange q h ≡ (read r, h')

  module _ (pipe : Pipe (HandlerState S)) (served : IsServed pipe) (r : Remote)
      (ready : r.initialized ≡ true) (h : HandlerState S) where
    send_request-served :
        (cmd : GuiIpcCommand) (payload : Bytes) (response : GuiIpcResponse) (h' : HandlerState S)
        → serve ops b m true
            (build_request cmd payload ((r.request_id + 1) % 2 ^ 32) (pipe.now h))
            h
          ≡ answered response h'
        → send_request pipe cmd payload r h ≡ record {
          ok = response.status == success;
          response = response;
          remote = counted r;
          world = h';
        }
    unfolding send_request
    send_request-served cmd payload response h' e = rw (ready, served _ h response h' e) refl

    -- A request whose handler answers with the reply of a method brings that reply back.
    pub request_reply-served :
        (cmd : GuiIpcCommand) (payload : Bytes) (method : Method S Reply)
        → IsKnown cmd
        → length payload < payload_capacity
        → ((r : GuiIpcResponse)
            → handle_command ops b m cmd payload r h
              ≡ lift ops b m (λ r. (do reply ← method; pure (respond reply r))) r h)
        → request_reply pipe cmd payload r h ≡ (
          returned (reply_seen (method h.service).0),
          counted r,
          record h { service = (method h.service).1 },
        )
    unfolding request_reply
    request_reply-served cmd payload method known short handled =
        let q = build_request cmd payload ((r.request_id + 1) % 2 ^ 32) (pipe.now h) in
        let opened = opened_response q in
        let o = method h.service in
        let served_as : serve ops b m true q h
            ≡ answered (answer_of o.0 opened) (record h { service = o.1 }) =
          serve-build_request ops b m cmd payload _ _ h known short
          ∙ rw (handled opened) (caught-reply method opened h) in
        rw
          (
            send_request-served cmd payload (answer_of o.0 opened) (record h { service = o.1 })
                served_as,
            c_string-answer_of o.0 opened (length-opened_response q),
            status-answer_of o.0 opened,
          )
          refl
