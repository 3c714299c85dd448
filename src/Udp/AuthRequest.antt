-- ===== src/Udp/AuthRequest.antt =====
-- AuthRequestSender and AuthRequestReceiver of common/managers/ipc/udp/udp_manager.h, and the
-- sender of common/managers/ipc/udp/auth_request_sender.h.
pub mod RoundTrip
use smile2unlock_v.Base.{
  ℕ, zero, suc, ◌+◌, ◌-◌, ◌*◌, ◌^◌, ◌%◌, ◌≤◌, ◌<◌, ◌≡◌, ◌≢◌, ◌⊎◌, ◌↔◌, inl, inr, refl, ap, sym, ◌∙◌,
  List, [], ◌∷◌, ◌++◌, map, Bool, true, false, not, ◌&&◌, ◌||◌, Option, none, some, arith, ltb, leb,
  ◌==◌, ==_refl, lt→ltb, tests, if◌then◌else◌, Bool-cases, Option-cases, length, take, drop,
  take_exact, take_all, take-append_left, drop_exact, drop_past, length-append, length-take, All,
  All-take, All-append,
}
use smile2unlock_v.Base.Text.{Bytes, is_empty, c_string}
use smile2unlock_v.Udp.Memory.{zeros, char_field}
use smile2unlock_v.Udp.Packets.{
  AuthRequestType, request_code, request_of, auth_request_magic, auth_request_version,
  username_size, UdpAuthRequestPacket,
}
use smile2unlock_v.Udp.Layout.Auth.{auth_image, auth_view, auth_packet_size, auth_username_offset}
use smile2unlock_v.Udp.Loop.{Step, skip, deliver, fault, Received, Trace, receive_loop}
use smile2unlock_v.Udp.Status.{packed_username}

unfoldable pub auth_packet : AuthRequestType → Bytes → ℕ → ℕ → UdpAuthRequestPacket
auth_packet request_type username_hint session_id now = record {
  magic_number = auth_request_magic;
  version = auth_request_version;
  request_type = request_code request_type;
  username_hint = packed_username username_hint;
  timestamp = now % 2 ^ 64;
  session_id = session_id;
}

pub record AuthRequestSender : Type 0 where
  pub initialized : Bool

unfoldable pub send_request :
    AuthRequestSender
    → (now : ℕ) → (socket_takes : Bool) → AuthRequestType
    → Bytes
    → ℕ
    → Bool × List Bytes
send_request s now socket_takes request_type username_hint session_id =
    if not s.initialized
    then (false, [])
    else if socket_takes
    then (true, auth_image (auth_packet request_type username_hint session_id now) ∷ [])
    else (false, [])

-- The sender of auth_request_sender.h has no flag for its initialisation.
unfoldable pub auth_send_request :
    (now : ℕ) → (socket_takes : Bool) → AuthRequestType → Bytes → ℕ → Bool × List Bytes
auth_send_request now socket_takes request_type username_hint session_id =
    if socket_takes
    then (true, auth_image (auth_packet request_type username_hint session_id now) ∷ [])
    else (false, [])

pub record AuthRequest : Type 0 where
  pub request_type : AuthRequestType
  pub username_hint : Bytes
  pub session_id : ℕ

request_step : UdpAuthRequestPacket → Option Bytes → Step AuthRequest
request_step p none = fault
request_step p (some name) = deliver (record {
  request_type = request_of p.request_type;
  username_hint = name;
  session_id = p.session_id;
})

unfoldable pub receive_request : Bool → Bytes → Step AuthRequest
unfolding request_step
receive_request callback bs =
    let p = auth_view bs in
    if not (length bs == auth_packet_size)
    then skip
    else if not (p.magic_number == auth_request_magic) || not (p.version == auth_request_version)
    then skip
    else if callback
    then request_step p (c_string (drop auth_username_offset bs))
    else skip

unfoldable pub receive_request_loop : Bool → List (Bool × Received) → Trace AuthRequest
receive_request_loop callback = receive_loop (receive_request callback)
