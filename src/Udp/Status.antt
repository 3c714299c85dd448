-- ===== src/Udp/Status.antt =====
-- StatusSender and StatusReceiver of common/managers/ipc/udp/udp_manager.h, and UdpSender of
-- common/managers/ipc/udp/udp_sender.h. The clock and whether the socket takes the datagram are
-- arguments; what a call sends is in its result.
pub mod RoundTrip
pub mod Checks
use smile2unlock_v.Base.{
  ℕ, zero, suc, ◌+◌, ◌-◌, ◌*◌, ◌^◌, ◌%◌, ◌≤◌, ◌<◌, ◌≡◌, ◌≢◌, ◌⊎◌, ◌↔◌, inl, inr, refl, ap, sym, ◌∙◌,
  List, [], ◌∷◌, ◌++◌, map, Bool, true, false, not, ◌&&◌, ◌||◌, Option, none, some, arith, ltb, leb,
  ◌==◌, ==_refl, lt→ltb, tests, if◌then◌else◌, Bool-cases, Option-cases, length, take, drop,
  take_exact, take_all, take-append_left, drop_exact, drop_past, length-append, length-take, All,
  All-take, All-append,
}
use smile2unlock_v.Base.Text.{Bytes, is_empty, c_string}
use smile2unlock_v.Udp.Memory.{zeros, char_field, data_field}
use smile2unlock_v.Udp.Packets.{
  RecognitionStatus, status_code, status_of, status_magic, status_version, username_size,
  feature_size, UdpStatusPacket,
}
use smile2unlock_v.Udp.Layout.Status.{
  status_image, status_view, status_packet_size, status_username_offset,
}
use smile2unlock_v.Udp.Loop.{Step, skip, deliver, fault, Received, Trace, receive_loop}

unfoldable pub packed_username : Bytes → Bytes
packed_username username =
    if is_empty username then zeros username_size else char_field username_size username

unfoldable pub packed_feature : Bytes → Bytes
packed_feature feature =
    if is_empty feature then zeros feature_size else data_field feature_size feature

-- The packet as `send_status` fills it.
unfoldable pub status_packet : RecognitionStatus → Bytes → ℕ → Bytes → ℕ → UdpStatusPacket
status_packet status username session_id feature now = record {
  magic_number = status_magic;
  version = status_version;
  status = status_code status;
  session_id = session_id;
  feature_bytes = length feature;
  username = packed_username username;
  feature = packed_feature feature;
  timestamp = now % 2 ^ 64;
}

pub record StatusSender : Type 0 where
  pub initialized : Bool

unfoldable pub send_status :
    StatusSender
    → (now : ℕ) → (socket_takes : Bool) → RecognitionStatus
    → Bytes
    → ℕ
    → Bytes
    → Bool × List Bytes
send_status s now socket_takes status username session_id feature =
    if not s.initialized
    then (false, [])
    else if not (is_empty feature) && leb feature_size (length feature)
    then (false, [])
    else if socket_takes
    then (true, status_image (status_packet status username session_id feature now) ∷ [])
    else (false, [])

-- UdpSender has no flag for its initialisation.
unfoldable pub udp_send_status :
    (now : ℕ) → (socket_takes : Bool) → RecognitionStatus → Bytes → ℕ → Bytes → Bool × List Bytes
udp_send_status now socket_takes status username session_id feature =
    if not (is_empty feature) && leb feature_size (length feature)
    then (false, [])
    else if socket_takes
    then (true, status_image (status_packet status username session_id feature now) ∷ [])
    else (false, [])

-- The arguments of the callback.
pub record StatusReport : Type 0 where
  pub status : RecognitionStatus
  pub username : Bytes
  pub session_id : ℕ
  pub feature : Bytes

unfoldable pub reported_feature : ℕ → Bytes → Bytes
reported_feature feature_bytes feature =
    if ltb 0 feature_bytes && leb feature_bytes feature_size then take feature_bytes feature else []

status_step : UdpStatusPacket → Option Bytes → Step StatusReport
status_step p none = fault
status_step p (some name) = deliver (record {
  status = status_of p.status;
  username = name;
  session_id = p.session_id;
  feature = reported_feature p.feature_bytes p.feature;
})

-- One datagram, with whether a callback is set. `std::string(packet.username)` reads on behind the
-- array if that holds no NUL, up to the end of the packet.
unfoldable pub receive_status : Bool → Bytes → Step StatusReport
unfolding status_step
receive_status callback bs =
    let p = status_view bs in
    if not (length bs == status_packet_size)
    then skip
    else if not (p.magic_number == status_magic) || not (p.version == status_version)
    then skip
    else if callback
    then status_step p (c_string (drop status_username_offset bs))
    else skip

unfoldable pub receive_status_loop : Bool → List (Bool × Received) → Trace StatusReport
receive_status_loop callback = receive_loop (receive_status callback)
