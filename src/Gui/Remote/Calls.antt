-- ===== src/Gui/Remote/Calls.antt =====
-- The methods of the remote service that bring a reply, over a served pipe.
use smile2unlock_v.Base.{◌<◌, ◌≡◌, refl, [], ◌∷◌, ◌++◌, true, arith, length, length-append}
use mathlib.Core.List.{append_assoc}
use smile2unlock_v.Base.Text.{Bytes, Free}
use smile2unlock_v.Base.Decimal.{ℤ, IsInt, to_string, length-to_string}
use smile2unlock_v.Gui.Float.{FloatOps}
use smile2unlock_v.Gui.Protocol.{
  payload_capacity, add_user, update_user, delete_user, delete_face, capture_and_add_face,
  inject_dll, start_recognition, start_camera_preview,
}
use smile2unlock_v.Gui.Backend.{IBackendService, Outcome, Reply}
use smile2unlock_v.Gui.Handler.Commands.{
  handle_inject_dll, handle_start_recognition, handle_start_camera_preview,
}
use smile2unlock_v.Gui.Handler.Payloads.{
  bar, two_fields, handle_add_user-fields, handle_update_user-fields, handle_delete_user-fields,
  handle_delete_face-fields, handle_capture_and_add_face-fields,
}
use smile2unlock_v.Gui.Handler.Preview.{HandlerState, MappingCalls}
use smile2unlock_v.Gui.Handler.{handle_command, lift}
use smile2unlock_v.Gui.Remote.{Remote, Pipe}
use smile2unlock_v.Gui.Remote.Methods.{
  Called, returned, remote_add_user, remote_update_user, remote_delete_user, remote_delete_face,
  remote_capture_and_add_face, remote_inject_dll, remote_start_recognition,
  remote_start_camera_preview,
}
use smile2unlock_v.Gui.Remote.Refines.{IsServed, reply_seen, counted, request_reply-served}

-- What a call gives that ended as the method on the other side did.
abbrev pub brought :
    {S : Type 0}
    → Outcome Reply × S
    → Remote
    → HandlerState S
    → Called Reply × Remote × HandlerState S
brought o r h = (returned (reply_seen o.0), counted r, record h { service = o.1 })

module _ {S F : Type 0} (ops : FloatOps F) (b : IBackendService S F) (m : MappingCalls)
    (pipe : Pipe (HandlerState S)) (served : IsServed ops b m pipe) (r : Remote)
    (ready : r.initialized ≡ true) (h : HandlerState S) where
  -- Over a pipe whose exchange is the server, an initialised client that adds a user has the effect
  -- of the service's add_user with the same three texts, and its reply, with the message cut to the
  -- payload; an exception comes back as a failure with its text. Name and password hold no '|', and
  -- the payload fits.
  pub remote_add_user-served :
      (username password remark : Bytes)
      → Free bar username
      → Free bar password
      → length (two_fields username (two_fields password remark)) < payload_capacity
      → remote_add_user pipe username password remark r h
        ≡ brought (b.add_user username password remark h.service) r h
  unfolding remote_add_user handle_command lift
  remote_add_user-served u p q hu hp short =
      request_reply-served ops b m pipe served r ready h add_user (two_fields u (two_fields p q))
        (b.add_user u p q) tt short (λ a. rw (handle_add_user-fields ops b a u p q hu hp) refl)

  -- The same for update_user with any int as the id: it is printed by the client and read back by
  -- the server.
  remote_update_user-served :
      (user_id : ℤ) (username password remark : Bytes)
      → IsInt user_id
      → Free bar username
      → Free bar password
      → length (two_fields (to_string user_id) (two_fields username (two_fields password remark)))
        < payload_capacity
      → remote_update_user pipe user_id username password remark r h
        ≡ brought (b.update_user user_id username password remark h.service) r h
  unfolding remote_update_user handle_command lift
  remote_update_user-served v u p q hv hu hp short =
      request_reply-served ops b m pipe served r ready h update_user
        (two_fields (to_string v) (two_fields u (two_fields p q))) (b.update_user v u p q) tt short
        (λ a. rw (handle_update_user-fields ops b a v u p q hv hu hp) refl)

  -- The same for delete_user, for every int.
  remote_delete_user-served :
      (user_id : ℤ)
      → IsInt user_id
      → remote_delete_user pipe user_id r h ≡ brought (b.delete_user user_id h.service) r h
  unfolding remote_delete_user handle_command lift
  remote_delete_user-served v hv =
      request_reply-served ops b m pipe served r ready h delete_user (to_string v) (b.delete_user v)
        tt (omega (arith, length-to_string v hv))
        (λ a. rw (handle_delete_user-fields ops b a v hv) refl)

  -- The same for delete_face, for every two ints.
  remote_delete_face-served :
      (user_id face_id : ℤ)
      → IsInt user_id
      → IsInt face_id
      → remote_delete_face pipe user_id face_id r h
        ≡ brought (b.delete_face user_id face_id h.service) r h
  unfolding remote_delete_face handle_command lift
  remote_delete_face-served v w hv hw =
      request_reply-served ops b m pipe served r ready h delete_face
        (two_fields (to_string v) (to_string w)) (b.delete_face v w) tt
        (omega (
          arith,
          length-append (to_string v) (bar ∷ to_string w),
          length-to_string v hv,
          length-to_string w hw,
        ))
        (λ a. rw (handle_delete_face-fields ops b a v w hv hw) refl)

  -- The same for capture_and_add_face, for every int and every remark whose payload fits, '|'
  -- included.
  remote_capture_and_add_face-served :
      (user_id : ℤ) (remark : Bytes)
      → IsInt user_id
      → length (two_fields (to_string user_id) remark) < payload_capacity
      → remote_capture_and_add_face pipe user_id remark r h
        ≡ brought (b.capture_and_add_face user_id remark h.service) r h
  unfolding remote_capture_and_add_face handle_command lift
  remote_capture_and_add_face-served v q hv short =
      request_reply-served ops b m pipe served r ready h capture_and_add_face
        (two_fields (to_string v) q) (b.capture_and_add_face v q) tt short
        (λ a. rw (handle_capture_and_add_face-fields ops b a v q hv) refl)

  -- The same for the calls without arguments that bring a reply: inject_dll, start_recognition and
  -- start_camera_preview.
  remote_commands-served :
      (remote_inject_dll pipe r h ≡ brought (b.inject_dll h.service) r h)
      × (remote_start_recognition pipe r h ≡ brought (b.start_recognition h.service) r h)
      × (remote_start_camera_preview pipe r h ≡ brought (b.start_camera_preview h.service) r h)
  unfolding remote_inject_dll remote_start_recognition remote_start_camera_preview handle_command
      lift handle_inject_dll handle_start_recognition handle_start_camera_preview
  remote_commands-served = (
    request_reply-served ops b m pipe served r ready h inject_dll [] b.inject_dll tt (omega arith)
        (λ a. refl),
    request_reply-served ops b m pipe served r ready h start_recognition [] b.start_recognition tt
        (omega arith) (λ a. refl),
    request_reply-served ops b m pipe served r ready h start_camera_preview []
        b.start_camera_preview tt (omega arith) (λ a. refl),
  )

-- A '|' in the password moves what stands behind it into the remark: over any pipe the call with
-- the password `first|second` is the call with the password `first` and the remark `second|remark`.
pub remote_add_user_ambiguous :
    {W : Type 0} (pipe : Pipe W) (username first second remark : Bytes)
    → remote_add_user pipe username (first ++ bar ∷ second) remark
      ≡ remote_add_user pipe username first (second ++ bar ∷ remark)
unfolding remote_add_user
remote_add_user_ambiguous pipe u p1 p2 q = rw (append_assoc) refl
