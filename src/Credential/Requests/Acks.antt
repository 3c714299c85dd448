-- ===== src/Credential/Requests/Acks.antt =====
-- Which reports acknowledge an attempt of a request.
use smile2unlock_v.Base.{
  ℕ, ◌<◌, ◌≡◌, inl, inr, refl, List, [], ◌∷◌, true, false, ◌&&◌, arith, ltb, Bool-cases,
}
use smile2unlock_v.Udp.Packets.{
  RecognitionStatus, idle, recognizing, success, failed, timeout, recognition_error, face_detected,
  process_ended, other_status, AuthRequestType, start_recognition, cancel_recognition, query_status,
  get_password, other_request,
}
use smile2unlock_v.Credential.Requests.{
  is_ack_status_for_request, Poll, Attempt, acknowledged, wait_for_ack, attempt, is_query,
}

-- The statuses that confirm a request: any but IDLE and FACE_DETECTED for a start, and IDLE or
-- PROCESS_ENDED for a cancellation.
pub data Confirms : AuthRequestType → RecognitionStatus → Type 0 where
  runs : Confirms start_recognition recognizing
  succeeds : Confirms start_recognition success
  fails : Confirms start_recognition failed
  times_out : Confirms start_recognition timeout
  errs : Confirms start_recognition recognition_error
  ends : Confirms start_recognition process_ended
  is_idle : Confirms cancel_recognition idle
  has_ended : Confirms cancel_recognition process_ended
  is_told : (status : RecognitionStatus) → Confirms query_status status

ack-Confirms :
    (r : AuthRequestType) (status : RecognitionStatus)
    → is_ack_status_for_request r status ≡ true
    → Confirms r status
unfolding is_ack_status_for_request
ack-Confirms start_recognition idle h = cc
ack-Confirms start_recognition recognizing h = runs
ack-Confirms start_recognition success h = succeeds
ack-Confirms start_recognition failed h = fails
ack-Confirms start_recognition timeout h = times_out
ack-Confirms start_recognition recognition_error h = errs
ack-Confirms start_recognition face_detected h = cc
ack-Confirms start_recognition process_ended h = ends
ack-Confirms start_recognition (other_status n) h = cc
ack-Confirms cancel_recognition idle h = is_idle
ack-Confirms cancel_recognition process_ended h = has_ended
ack-Confirms cancel_recognition _ h = cc
ack-Confirms query_status status h = is_told status
ack-Confirms get_password status h = cc
ack-Confirms (other_request n) status h = cc

Confirms-ack :
    {r : AuthRequestType} {status : RecognitionStatus}
    → Confirms r status
    → is_ack_status_for_request r status ≡ true
unfolding is_ack_status_for_request
Confirms-ack runs = refl
Confirms-ack succeeds = refl
Confirms-ack fails = refl
Confirms-ack times_out = refl
Confirms-ack errs = refl
Confirms-ack ends = refl
Confirms-ack is_idle = refl
Confirms-ack has_ended = refl
Confirms-ack (is_told status) = refl

-- A report later than the attempt acknowledges the request, before the service is seen to end.
pub data AckedBy (request_type : AuthRequestType) (before : ℕ) : List Poll → Type 0 where
  acked_now :
      (p : Poll) (polls : List Poll)
      → before < p.tick
      → Confirms request_type p.status
      → AckedBy request_type before (p ∷ polls)
  acked_later :
      (p : Poll) (polls : List Poll)
      → p.service_ended ≡ false
      → AckedBy request_type before polls
      → AckedBy request_type before (p ∷ polls)

-- An attempt that was sent, and is acknowledged if it is no query.
pub data IsAcknowledged (request_type : AuthRequestType) (a : Attempt) : Type 0 where
  query_sent : a.sent ≡ true → request_type ≡ query_status → IsAcknowledged request_type a
  answered :
      a.sent ≡ true
      → AckedBy request_type a.tick_before_send a.polls
      → IsAcknowledged request_type a

AckedBy-wait_for_ack :
    {request_type : AuthRequestType} {before : ℕ} {polls : List Poll}
    → AckedBy request_type before polls
    → wait_for_ack request_type before polls ≡ acknowledged
unfolding wait_for_ack
AckedBy-wait_for_ack (acked_now p polls h a) = ground (arith, Confirms-ack a)
AckedBy-wait_for_ack (acked_later p polls e r) = ground (arith, AckedBy-wait_for_ack r)

wait_for_ack-AckedBy :
    (request_type : AuthRequestType) (before : ℕ) (polls : List Poll)
    → wait_for_ack request_type before polls ≡ acknowledged
    → AckedBy request_type before polls
unfolding wait_for_ack
wait_for_ack-AckedBy request_type before [] h = cc
wait_for_ack-AckedBy request_type before (p ∷ polls) h =
    elim (Bool-cases (ltb before p.tick && is_ack_status_for_request request_type p.status)) [
      | inl e ↦ acked_now p polls (ground arith) (ack-Confirms request_type p.status (ground arith))
      | inr e ↦ elim (Bool-cases p.service_ended) [
        | inl d ↦ absurd (ground arith)
        | inr d ↦
            acked_later p polls d (wait_for_ack-AckedBy request_type before polls (rw (e, d) at h))
      ]
    ]

is_query-query_status : (r : AuthRequestType) → is_query r ≡ true → r ≡ query_status
unfolding is_query
is_query-query_status query_status h = refl
is_query-query_status start_recognition h = cc
is_query-query_status _ h = cc

pub attempt-IsAcknowledged :
    (request_type : AuthRequestType) (a : Attempt)
    → attempt request_type a ≡ acknowledged
    → IsAcknowledged request_type a
unfolding attempt
attempt-IsAcknowledged request_type a h = elim (Bool-cases a.sent) [
  | inr e ↦ absurd (ground arith)
  | inl e ↦ elim (Bool-cases (is_query request_type)) [
    | inl q ↦ query_sent e (is_query-query_status request_type q)
    | inr q ↦
        answered e (wait_for_ack-AckedBy request_type a.tick_before_send a.polls (rw (e, q) at h))
  ]
]

pub IsAcknowledged-attempt :
    (request_type : AuthRequestType) (a : Attempt)
    → IsAcknowledged request_type a
    → attempt request_type a ≡ acknowledged
unfolding attempt is_query
IsAcknowledged-attempt request_type a (query_sent e q) = rw (e, q) refl
IsAcknowledged-attempt request_type a (answered e r) = elim (Bool-cases (is_query request_type)) [
  | inl q ↦ rw (e, q) refl
  | inr q ↦ rw (e, q) (AckedBy-wait_for_ack r)
]
