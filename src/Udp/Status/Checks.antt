-- ===== src/Udp/Status/Checks.antt =====
-- What a status receiver and a status sender refuse, and what a foreign packet can make of a name.
use mathlib.Core.Option
use smile2unlock_v.Base.{
  ℕ, ◌≤◌, ◌<◌, ◌≡◌, ◌↔◌, refl, ap, sym, [], ◌∷◌, ◌++◌, Bool, true, false, Option, none, some, arith,
  Option-cases, length, drop, length-append, length-take,
}
use smile2unlock_v.Base.Text.{Bytes, Free, is_empty, c_string, c_string_spills}
use smile2unlock_v.Udp.Memory.{le64}
use smile2unlock_v.Udp.Packets.{
  RecognitionStatus, status_of, status_magic, status_version, username_size, feature_size,
  UdpStatusPacket,
}
use smile2unlock_v.Udp.Layout.Status.{
  status_image, status_view, status_packet_size, status_username_offset, Fits,
}
use smile2unlock_v.Udp.Loop.{deliver}
use smile2unlock_v.Udp.Status.{
  StatusSender, StatusReport, status_packet, send_status, reported_feature, receive_status,
}

-- A sender returns true exactly when it is initialised, the feature is shorter than the array of
-- the packet and the socket takes the datagram; it has then sent the packet of its arguments, and
-- nothing otherwise.
send_status-cases :
    (s : StatusSender) (now : ℕ) (socket_takes : Bool) (status : RecognitionStatus)
    (username : Bytes) (session_id : ℕ) (feature : Bytes)
    → let r = send_status s now socket_takes status username session_id feature in
      ((r.0 ≡ true)
        ↔ ((s.initialized ≡ true) × (length feature < feature_size) × (socket_takes ≡ true)))
      × ((r.0 ≡ true)
          → r.1 ≡ status_image (status_packet status username session_id feature now) ∷ [])
      × ((r.0 ≡ false) → r.1 ≡ [])
unfolding send_status is_empty
send_status-cases s now socket_takes status username session_id [] = ground arith
send_status-cases s now socket_takes status username session_id (x ∷ feature) = ground arith

length-reported_feature :
    (n : ℕ) (f : Bytes)
    → (length (reported_feature n f) ≤ n) × (length (reported_feature n f) ≤ feature_size)
unfolding reported_feature
length-reported_feature n f = ground (arith, length-take n f)

-- What is delivered comes from a datagram of the size of the packet with the magic number and the
-- version, its session and status are those of the packet, its name is the C string at the packet's
-- username, and its feature is no longer than the packet says and than the array.
pub receive_status_sound :
    (callback : Bool) (bs : Bytes) (r : StatusReport)
    → receive_status callback bs ≡ deliver r
    → let p = status_view bs in
      (length bs ≡ status_packet_size)
      × (p.magic_number ≡ status_magic)
      × (p.version ≡ status_version)
      × (c_string (drop status_username_offset bs) ≡ some r.username)
      × (r.status ≡ status_of p.status)
      × (r.session_id ≡ p.session_id)
      × (length r.feature ≤ p.feature_bytes)
      × (length r.feature ≤ feature_size)
unfolding receive_status
receive_status_sound callback bs r h = ground (
  arith,
  length-reported_feature (status_view bs).feature_bytes (status_view bs).feature,
  Option-cases (c_string (drop status_username_offset bs)),
)

drop-status_image :
    (p : UdpStatusPacket)
    → drop status_username_offset (status_image p) ≡ p.username ++ (p.feature ++ le64 p.timestamp)
unfolding status_image drop
drop-status_image p = refl

map-eq-some :
    (f : Bytes → Bytes) (o : Option Bytes) {b : Bytes}
    → Option.map f o ≡ some b
    → (a : Bytes) × (o ≡ some a) × (f a ≡ b)
map-eq-some f none h = cc
map-eq-some f (some a) h = (a, refl, cc)

-- The read of the name has no bound: if the username array of an otherwise good packet holds no
-- NUL, a delivered name is longer than the array and goes on with the bytes of the feature.
pub receive_status_spills :
    (p : UdpStatusPacket) (r : StatusReport)
    → Fits p
    → Free 0 p.username
    → receive_status true (status_image p) ≡ deliver r
    → (s : Bytes) × (c_string (p.feature ++ le64 p.timestamp) ≡ some s)
      × (r.username ≡ p.username ++ s)
      × (username_size ≤ length r.username)
receive_status_spills p r v f h =
    let sound = receive_status_sound true (status_image p) r h in
    let (s, e, spilled) =
      map-eq-some (λ s. p.username ++ s) (c_string (p.feature ++ le64 p.timestamp)) {b = r.username}
        (rw (drop-status_image p, c_string_spills p.username (p.feature ++ le64 p.timestamp) f) at
          sound.3) in
    (
      s,
      e,
      sym spilled,
      omega (arith, ap length spilled, length-append p.username s, v.username_fits),
    )
