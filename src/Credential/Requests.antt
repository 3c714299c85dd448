-- ===== src/Credential/Requests.antt =====
-- SendAuthRequestToSmile2Unlock and WaitForFaceRecognitionResult of
-- CredentialProvider/CSampleCredential.cpp, over what their rounds find: the sent datagrams are
-- those of AuthRequestSender (Udp/AuthRequest), and the variables that are read those of the
-- receiver (Credential/Receiver).
pub mod Acks
pub mod Ends
use smile2unlock_v.Base.{
  ℕ, zero, suc, ◌+◌, ◌-◌, ◌<◌, ◌≡◌, ◌≢◌, ◌⊎◌, ◌↔◌, inl, inr, refl, List, [], ◌∷◌, ◌++◌, Bool, true,
  false, not, ◌&&◌, ◌||◌, Option, none, some, arith, ltb, ◌==◌, if◌then◌else◌, Bool-cases, All,
}
use smile2unlock_v.Udp.Packets.{
  RecognitionStatus, idle, recognizing, success, failed, timeout, recognition_error, face_detected,
  process_ended, other_status, AuthRequestType, start_recognition, cancel_recognition, query_status,
  get_password, other_request,
}
use smile2unlock_v.Credential.Results.{Hresult, s_ok, e_fail}

unfoldable pub is_ack_status_for_request : AuthRequestType → RecognitionStatus → Bool
is_ack_status_for_request start_recognition idle = false
is_ack_status_for_request start_recognition face_detected = false
is_ack_status_for_request start_recognition (other_status n) = false
is_ack_status_for_request start_recognition _ = true
is_ack_status_for_request cancel_recognition idle = true
is_ack_status_for_request cancel_recognition process_ended = true
is_ack_status_for_request cancel_recognition _ = false
is_ack_status_for_request query_status _ = true
is_ack_status_for_request get_password _ = false
is_ack_status_for_request (other_request n) _ = false

unfoldable pub is_terminal_failure_status : RecognitionStatus → Bool
is_terminal_failure_status failed = true
is_terminal_failure_status timeout = true
is_terminal_failure_status recognition_error = true
is_terminal_failure_status process_ended = true
is_terminal_failure_status _ = false

-- One round of the wait for an acknowledgement: the variables, and whether the service was started
-- by this credential and has ended.
pub record Poll : Type 0 where
  pub tick : ℕ
  pub status : RecognitionStatus
  pub service_ended : Bool

-- One attempt: the tick before it, whether the datagram was sent, and the rounds of the half second
-- after it.
pub record Attempt : Type 0 where
  pub tick_before_send : ℕ
  pub sent : Bool
  pub polls : List Poll

pub data Waited : Type 0 where
  acknowledged ended unanswered : Waited

unfoldable pub wait_for_ack : AuthRequestType → ℕ → List Poll → Waited
wait_for_ack request_type before [] = unanswered
wait_for_ack request_type before (p ∷ polls) =
    if ltb before p.tick && is_ack_status_for_request request_type p.status
    then acknowledged
    else if p.service_ended
    then ended
    else wait_for_ack request_type before polls

is_query : AuthRequestType → Bool
is_query query_status = true
is_query _ = false

unfoldable pub attempt : AuthRequestType → Attempt → Waited
unfolding is_query
attempt request_type a =
    if not a.sent
    then unanswered
    else if is_query request_type
    then acknowledged
    else wait_for_ack request_type a.tick_before_send a.polls

abbrev pub max_attempts : ℕ
max_attempts = 10

-- What an attempt leads to, with what the attempts after it would.
abbrev pub or_next : Waited → Hresult → Hresult
or_next acknowledged rest = s_ok
or_next ended rest = e_fail
or_next unanswered rest = rest

-- `left` attempts from the one numbered `i`.
unfoldable pub attempts_from : AuthRequestType → (ℕ → Attempt) → (left i : ℕ) → Hresult
attempts_from request_type attempts zero i = e_fail
attempts_from request_type attempts (suc left) i =
    or_next (attempt request_type (attempts i)) (attempts_from request_type attempts left (i + 1))

unfoldable pub send_auth_request_to_smile2unlock : AuthRequestType → (ℕ → Attempt) → Hresult
send_auth_request_to_smile2unlock request_type attempts =
    attempts_from request_type attempts max_attempts 0

-- The rounds of the wait: `_fFaceRecognitionRunning` and the status. `none`: it still waits.
unfoldable pub wait_for_face_recognition_result : List (Bool × RecognitionStatus) → Option Hresult
wait_for_face_recognition_result [] = none
wait_for_face_recognition_result ((false, status) ∷ rest) = some e_fail
wait_for_face_recognition_result ((true, success) ∷ rest) = some s_ok
wait_for_face_recognition_result ((true, status) ∷ rest) =
    if is_terminal_failure_status status then some e_fail else wait_for_face_recognition_result rest
