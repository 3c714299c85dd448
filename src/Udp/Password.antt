-- ===== src/Udp/Password.antt =====
-- PasswordSender and PasswordReceiver of common/managers/ipc/udp/udp_manager.h. CryptProtectData
-- and CryptUnprotectData are arguments: `none` is a call that returns FALSE. A password is shorter
-- than 4 GiB, so its size fits the DWORD of the blob.
pub mod RoundTrip
use smile2unlock_v.Base.{
  ℕ, zero, suc, ◌+◌, ◌-◌, ◌*◌, ◌^◌, ◌%◌, ◌≤◌, ◌<◌, ◌≡◌, ◌≢◌, ◌⊎◌, ◌↔◌, inl, inr, refl, ap, sym, ◌∙◌,
  List, [], ◌∷◌, ◌++◌, map, Bool, true, false, not, ◌&&◌, ◌||◌, Option, none, some, arith, ltb, leb,
  ◌==◌, ==_refl, lt→ltb, tests, if◌then◌else◌, Bool-cases, Option-cases, length, take, drop,
  take_exact, take_all, take-append_left, drop_exact, drop_past, length-append, length-take, All,
  All-take, All-append,
}
use smile2unlock_v.Base.Text.{Bytes, is_empty, c_string}
use smile2unlock_v.Udp.Memory.{zeros, char_field, data_field, read_bytes}
use smile2unlock_v.Udp.Packets.{
  password_response_magic, password_response_version, username_size, protected_password_capacity,
  UdpPasswordResponsePacket,
}
use smile2unlock_v.Udp.Layout.Password.{
  password_image, password_view, password_packet_size, password_username_offset,
  protected_password_offset,
}
use smile2unlock_v.Udp.Loop.{Step, skip, deliver, fault, Received, Trace, receive_loop}

pub record PasswordSender : Type 0 where
  pub initialized : Bool

-- The packet with a protected password of `size` bytes; with none, the field stays zero.
unfoldable pub password_packet : ℕ → Bytes → Bool → Bytes → ℕ → UdpPasswordResponsePacket
password_packet session_id username success blob now = record {
  magic_number = password_response_magic;
  version = password_response_version;
  session_id = session_id;
  result_code = if success then 0 else 1;
  username = char_field username_size username;
  protected_password_size = length blob;
  protected_password = data_field protected_password_capacity blob;
  timestamp = now % 2 ^ 64;
}

send_packet : (socket_takes : Bool) → UdpPasswordResponsePacket → Bool × List Bytes
send_packet socket_takes p = if socket_takes then (true, password_image p ∷ []) else (false, [])

-- With the result of CryptProtectData.
send_protected : (socket_takes : Bool) → ℕ → Bytes → ℕ → Option Bytes → Bool × List Bytes
unfolding send_packet
send_protected socket_takes session_id username now none = (false, [])
send_protected socket_takes session_id username now (some blob) =
    if ltb protected_password_capacity (length blob)
    then (false, [])
    else send_packet socket_takes (password_packet session_id username true blob now)

unfoldable pub send_password :
    (protect : Bytes → Option Bytes)
    → PasswordSender
    → (now : ℕ) → (socket_takes : Bool) → ℕ
    → Bytes
    → Bytes
    → Bool
    → Bool × List Bytes
unfolding send_protected
send_password protect s now socket_takes session_id username password success =
    if not s.initialized
    then (false, [])
    else if success && not (is_empty password)
    then send_protected socket_takes session_id username now (protect password)
    else send_packet socket_takes (password_packet session_id username success [] now)

pub record PasswordReport : Type 0 where
  pub session_id : ℕ
  pub username : Bytes
  pub password : Bytes
  pub success : Bool

abbrev pub unprotected : Option Bytes → Bytes
unprotected none = []
unprotected (some password) = password

password_step : UdpPasswordResponsePacket → Bytes → Bool → Option Bytes → Step PasswordReport
password_step p password success none = fault
password_step p password success (some name) =
    deliver (record {
      session_id = p.session_id;
      username = name;
      password = password;
      success = success;
    })

-- With the bytes that CryptUnprotectData is given; `none` is a read behind the packet.
blob_step :
    (Bytes → Option Bytes)
    → Bool
    → UdpPasswordResponsePacket
    → Bool
    → (name : Option Bytes) → (blob : Option Bytes) → Step PasswordReport
unfolding password_step
blob_step unprotect callback p success name none = fault
blob_step unprotect callback p success name (some blob) =
    if callback then password_step p (unprotected (unprotect blob)) success name else skip

-- The blob begins where the array does in the memory of the packet, and has the size that the
-- packet states.
unfoldable pub receive_password :
    (unprotect : Bytes → Option Bytes) → Bool → Bytes → Step PasswordReport
unfolding password_step blob_step read_bytes
receive_password unprotect callback bs =
    let p = password_view bs in
    let name = c_string (drop password_username_offset bs) in
    let success = p.result_code == 0 in
    if not (length bs == password_packet_size)
    then skip
    else if not (p.magic_number == password_response_magic)
        || not (p.version == password_response_version)
    then skip
    else if success && ltb 0 p.protected_password_size
    then blob_step unprotect callback p success name
        (read_bytes p.protected_password_size (drop protected_password_offset bs))
    else if callback
    then password_step p [] success name
    else skip

unfoldable pub receive_password_loop :
    (unprotect : Bytes → Option Bytes) → Bool → List (Bool × Received) → Trace PasswordReport
receive_password_loop unprotect callback = receive_loop (receive_password unprotect callback)
