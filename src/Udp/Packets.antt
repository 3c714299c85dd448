-- ===== src/Udp/Packets.antt =====
-- common/models/recognition_status.h, udp_status_packet.h, udp_auth_request_packet.h and
-- udp_password_packet.h: the codes, the packets and their layout in memory.
use smile2unlock_v.Base.{ℕ, ◌*◌, ◌^◌, ◌<◌, ◌≡◌, refl, arith, ◌==◌, if◌then◌else◌}
use smile2unlock_v.Base.Text.{Bytes}

-- A 32-bit code outside the enumeration is a value of the enumeration's type as well.
pub data RecognitionStatus : Type 0 where
  idle recognizing success failed timeout recognition_error : RecognitionStatus
  face_detected process_ended : RecognitionStatus
  other_status : ℕ → RecognitionStatus

unfoldable pub status_code : RecognitionStatus → ℕ
status_code idle = 0
status_code recognizing = 1
status_code success = 2
status_code failed = 3
status_code timeout = 4
status_code recognition_error = 5
status_code face_detected = 6
status_code process_ended = 7
status_code (other_status n) = n

unfoldable pub status_of : ℕ → RecognitionStatus
status_of n =
    if n == 0
    then idle
    else if n == 1
    then recognizing
    else if n == 2
    then success
    else if n == 3
    then failed
    else if n == 4
    then timeout
    else if n == 5
    then recognition_error
    else if n == 6
    then face_detected
    else if n == 7
    then process_ended
    else other_status n

-- The codes that the programs themselves write.
abbrev pub IsNamed : RecognitionStatus → Type 0
IsNamed (other_status n) = ⊥
IsNamed _ = Unit

pub status_of-status_code : (s : RecognitionStatus) → IsNamed s → status_of (status_code s) ≡ s
unfolding status_of status_code
status_of-status_code idle h = refl
status_of-status_code (other_status n) h = absurd h
status_of-status_code _ h = refl

pub status_code-lt : (s : RecognitionStatus) → IsNamed s → status_code s < 2 ^ 32
unfolding status_code
status_code-lt idle h = omega arith
status_code-lt (other_status n) h = absurd h
status_code-lt _ h = omega arith

pub data AuthRequestType : Type 0 where
  start_recognition cancel_recognition query_status get_password : AuthRequestType
  other_request : ℕ → AuthRequestType

unfoldable pub request_code : AuthRequestType → ℕ
request_code start_recognition = 1
request_code cancel_recognition = 2
request_code query_status = 3
request_code get_password = 4
request_code (other_request n) = n

unfoldable pub request_of : ℕ → AuthRequestType
request_of n =
    if n == 1
    then start_recognition
    else if n == 2
    then cancel_recognition
    else if n == 3
    then query_status
    else if n == 4
    then get_password
    else other_request n

abbrev pub IsNamedRequest : AuthRequestType → Type 0
IsNamedRequest (other_request n) = ⊥
IsNamedRequest _ = Unit

pub request_of-request_code :
    (r : AuthRequestType) → IsNamedRequest r → request_of (request_code r) ≡ r
unfolding request_of request_code
request_of-request_code start_recognition h = refl
request_of-request_code (other_request n) h = absurd h
request_of-request_code _ h = refl

pub request_code-lt : (r : AuthRequestType) → IsNamedRequest r → request_code r < 2 ^ 32
unfolding request_code
request_code-lt start_recognition h = omega arith
request_code-lt (other_request n) h = absurd h
request_code-lt _ h = omega arith

-- Sizes of the char arrays.
abbrev pub username_size : ℕ
username_size = 64

abbrev pub feature_size : ℕ
feature_size = 48 * 1024

abbrev pub protected_password_capacity : ℕ
protected_password_capacity = 512

abbrev pub status_magic : ℕ
status_magic = 0x8581DAF3

abbrev pub status_version : ℕ
status_version = 2

abbrev pub auth_request_magic : ℕ
auth_request_magic = 0x41555448

abbrev pub auth_request_version : ℕ
auth_request_version = 1

abbrev pub password_response_magic : ℕ
password_response_magic = 0x52574450

abbrev pub password_response_version : ℕ
password_response_version = 1

pub record UdpStatusPacket : Type 0 where
  pub magic_number : ℕ
  pub version : ℕ
  pub status : ℕ
  pub session_id : ℕ
  pub feature_bytes : ℕ
  pub username : Bytes
  pub feature : Bytes
  pub timestamp : ℕ

pub record UdpAuthRequestPacket : Type 0 where
  pub magic_number : ℕ
  pub version : ℕ
  pub request_type : ℕ
  pub username_hint : Bytes
  pub timestamp : ℕ
  pub session_id : ℕ

pub record UdpPasswordResponsePacket : Type 0 where
  pub magic_number : ℕ
  pub version : ℕ
  pub session_id : ℕ
  pub result_code : ℕ
  pub username : Bytes
  pub protected_password_size : ℕ
  pub protected_password : Bytes
  pub timestamp : ℕ
