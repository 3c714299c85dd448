-- ===== src/Credential/PasswordRequest.antt =====
-- RequestAndDecryptPasswordFromSU and Utf8ToWideString of CredentialProvider/CSampleCredential.cpp.
-- The answers of the sockets and of the conversions of texts are parameters. On Windows a datagram
-- longer than the buffer is an error of the call, so it shows as no reply.
pub mod Served
use smile2unlock_v.Base.{
  ℕ, ◌≤◌, ◌≡◌, refl, List, [], ◌∷◌, Bool, true, false, not, ◌&&◌, ◌||◌, Option, none, some, arith,
  ltb, ◌==◌, if◌then◌else◌, length, take,
}
use smile2unlock_v.Base.Text.{Bytes, is_empty}
use smile2unlock_v.Udp.Memory.{until_nul}
use smile2unlock_v.Udp.Packets.{
  get_password, password_response_magic, password_response_version, protected_password_capacity,
  UdpPasswordResponsePacket,
}
use smile2unlock_v.Udp.Layout.Password.{password_view, password_packet_size}
use smile2unlock_v.Udp.AuthRequest.{auth_send_request}
use smile2unlock_v.Credential.Results.{e_fail, Outcome, ok, err}
use smile2unlock_v.Credential.Names.{Wide}

-- What Windows does with texts and blobs: CryptUnprotectData, MultiByteToWideChar, and
-- WideCharToMultiByte, which gives nothing where it fails.
pub record Conversions : Type 0 where
  pub unprotect : Bytes → Option Bytes
  pub to_wide : Bytes → Option Wide
  pub to_utf8 : Wide → Bytes

-- The answers to one call.
pub record Answers : Type 0 where
  pub wsa_started : Bool
  pub socket_made : Bool
  pub bound : Bool
  pub now : ℕ
  pub socket_takes : Bool
  pub heap : Bool

-- The conversion reads a C string.
unfoldable pub utf8_to_wide_string : Conversions → (heap : Bool) → Bytes → Option Wide
utf8_to_wide_string v heap s = if heap then v.to_wide (until_nul s) else none

-- The name of the last report, or else the name of the tile.
unfoldable pub password_hint : Conversions → (recognized_username : Bytes) → Option Wide → Bytes
password_hint v recognized_username none = recognized_username
password_hint v recognized_username (some username) =
    if is_empty recognized_username then v.to_utf8 username else recognized_username

converted : Option Wide → Outcome Wide
converted none = err e_fail
converted (some password) = ok password

decrypted : Conversions → (heap : Bool) → Option Bytes → Outcome Wide
unfolding utf8_to_wide_string converted
decrypted v heap none = err e_fail
decrypted v heap (some password) = converted (utf8_to_wide_string v heap password)

-- A reply is used if it is of this session, reports success, and states a size that fits.
unfoldable pub read_reply :
    Conversions → (heap : Bool) → (session_id : ℕ) → Option Bytes → Outcome Wide
unfolding decrypted
read_reply v heap session_id none = err e_fail
read_reply v heap session_id (some bs) =
    let p = password_view bs in
    if ltb (length bs) password_packet_size
    then err e_fail
    else if not (p.magic_number == password_response_magic)
        || (not (p.version == password_response_version) || not (p.session_id == session_id))
    then err e_fail
    else if not (p.result_code == 0)
    then err e_fail
    else if p.protected_password_size == 0
        || ltb protected_password_capacity p.protected_password_size
    then err e_fail
    else decrypted v heap (v.unprotect (take p.protected_password_size p.protected_password))

after_request :
    Conversions
    → (heap : Bool) → (session_id : ℕ) → (exchange : Bytes → Option Bytes) → Bool × List Bytes
    → Outcome Wide
after_request v heap session_id exchange (true, d ∷ []) = read_reply v heap session_id (exchange d)
after_request v heap session_id exchange _ = err e_fail

-- `exchange` is what the receive call brings after a datagram was sent: `none` is an error or the
-- timeout of five seconds.
unfoldable pub request_and_decrypt_password_from_su :
    Conversions
    → Answers
    → (session_id : ℕ) → (exchange : Bytes → Option Bytes) → (recognized_username : Bytes)
    → Option Wide
    → Outcome Wide
unfolding after_request password_hint
request_and_decrypt_password_from_su v a session_id exchange recognized_username username =
    let hint = password_hint v recognized_username username in
    if not a.wsa_started || (not a.socket_made || not a.bound)
    then err e_fail
    else if is_empty hint
    then err e_fail
    else after_request v a.heap session_id exchange
        (auth_send_request a.now a.socket_takes get_password hint session_id)
