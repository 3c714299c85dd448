-- ===== src/Credential/Requests/Ends.antt =====
-- When a request succeeds, and how the wait for a result ends.
use smile2unlock_v.Base.{
  ℕ, zero, suc, ◌+◌, ◌≤◌, ◌<◌, ◌≡◌, ◌↔◌, ◌⊎◌, inl, inr, refl, List, [], ◌∷◌, ◌++◌, Bool, true,
  false, none, some, arith, All, subst,
}
use native.Mathlib.Decide.{dec_lt}
use smile2unlock_v.Udp.Packets.{
  RecognitionStatus, idle, recognizing, success, failed, timeout, recognition_error, face_detected,
  process_ended, other_status, AuthRequestType,
}
use smile2unlock_v.Credential.Results.{Hresult, s_ok, e_fail}
use smile2unlock_v.Credential.Requests.Acks.{
  IsAcknowledged, attempt-IsAcknowledged, IsAcknowledged-attempt,
}
use smile2unlock_v.Credential.Requests.{
  is_terminal_failure_status, Attempt, Waited, acknowledged, ended, unanswered, attempt,
  max_attempts, attempts_from, send_auth_request_to_smile2unlock, wait_for_face_recognition_result,
}

Waited-cases : (w : Waited) → (w ≡ acknowledged) ⊎ (w ≡ ended) ⊎ (w ≡ unanswered)
Waited-cases acknowledged = inl refl
Waited-cases ended = inr (inl refl)
Waited-cases unanswered = inr (inr refl)

module _ (request_type : AuthRequestType) (attempts : ℕ → Attempt) where
  abbrev Confirmed : (left i k : ℕ) → Type 0
  Confirmed left i k =
      (i ≤ k)
      × (k < i + left)
      × IsAcknowledged request_type (attempts k)
      × ((j : ℕ) → i ≤ j → j < k → attempt request_type (attempts j) ≡ unanswered)

  unanswered_from :
      (i k : ℕ)
      → attempt request_type (attempts i) ≡ unanswered
      → ((j : ℕ) → i + 1 ≤ j → j < k → attempt request_type (attempts j) ≡ unanswered)
      → (j : ℕ) → i ≤ j
      → j < k
      → attempt request_type (attempts j) ≡ unanswered
  unanswered_from i k e later j lo hi = elim (dec_lt i j) [
    | yes p ↦ later j (omega arith) hi
    | no p ↦
        let same : i ≡ j = omega arith in
        subst (λ n. attempt request_type (attempts n) ≡ unanswered) same e
  ]

  attempts_from-Confirmed :
      (left i : ℕ)
      → attempts_from request_type attempts left i ≡ s_ok
      → (k : ℕ) × Confirmed left i k
  unfolding attempts_from
  attempts_from-Confirmed zero i h = cc
  attempts_from-Confirmed (suc left) i h = elim (Waited-cases (attempt request_type (attempts i))) [
    | inl e ↦ (
      i,
      (
        omega arith,
        omega arith,
        attempt-IsAcknowledged request_type (attempts i) e,
        λ j lo hi. absurd (omega arith),
      ),
    )
    | inr (inl e) ↦ absurd (ground arith)
    | inr (inr e) ↦
        let (k, (lo, hi, ack, before)) = attempts_from-Confirmed left (i + 1) (rw e at h) in
        (k, (omega arith, omega arith, ack, unanswered_from i k e before))
  ]

  Confirmed-attempts_from :
      (left i k : ℕ) → Confirmed left i k → attempts_from request_type attempts left i ≡ s_ok
  unfolding attempts_from
  Confirmed-attempts_from zero i k c = absurd (omega (arith, c.0, c.1))
  Confirmed-attempts_from (suc left) i k c = elim (dec_lt i k) [
    | yes p ↦ rw (c.3 i (omega arith) p) (
        Confirmed-attempts_from left (i + 1) k
          (omega arith, omega (arith, c.1), c.2, λ j lo hi. c.3 j (omega arith) hi))
    | no p ↦
        let same : k ≡ i = omega (arith, c.0) in
        rw
          (IsAcknowledged-attempt request_type (attempts i)
            (subst (λ n. IsAcknowledged request_type (attempts n)) same c.2))
          refl
  ]

-- A request succeeds if and only if one of its ten attempts is acknowledged and every attempt
-- before it was left unanswered: a query by being sent, any other request by a report later than
-- the attempt whose status confirms it (any but IDLE, FACE_DETECTED and unknown ones for a start,
-- IDLE and PROCESS_ENDED for a cancellation, none for other requests), seen before the service is
-- seen to end.
pub send_auth_request-IsAcknowledged :
    (request_type : AuthRequestType) (attempts : ℕ → Attempt)
    → (send_auth_request_to_smile2unlock request_type attempts ≡ s_ok) ↔ (
        (i : ℕ) × (i < 10)
        × IsAcknowledged request_type (attempts i)
        × ((j : ℕ) → j < i → attempt request_type (attempts j) ≡ unanswered))
unfolding send_auth_request_to_smile2unlock
send_auth_request-IsAcknowledged request_type attempts = (
  λ h.
      let (k, (lo, hi, ack, before)) =
        attempts_from-Confirmed request_type attempts max_attempts 0 h in
      (k, omega arith, ack, λ j less. before j (omega arith) less),
  λ c.
      Confirmed-attempts_from request_type attempts max_attempts 0 c.0
        (omega arith, omega (arith, c.1), c.2, λ j lo less. c.3 j less),
)

-- Nothing that ends the wait.
abbrev pub IsQuiet : Bool × RecognitionStatus → Type 0
IsQuiet (false, status) = ⊥
IsQuiet (true, idle) = Unit
IsQuiet (true, recognizing) = Unit
IsQuiet (true, face_detected) = Unit
IsQuiet (true, other_status n) = Unit
IsQuiet (true, _) = ⊥

-- The statuses that refuse.
pub data IsRefusal : RecognitionStatus → Type 0 where
  is_failed : IsRefusal failed
  is_timeout : IsRefusal timeout
  is_error : IsRefusal recognition_error
  is_ended : IsRefusal process_ended

pub data Decides : Bool × RecognitionStatus → Hresult → Type 0 where
  cancelled : (status : RecognitionStatus) → Decides (false, status) e_fail
  recognised : Decides (true, success) s_ok
  refused : {status : RecognitionStatus} → IsRefusal status → Decides (true, status) e_fail

wait_decided :
    (later : List (Bool × RecognitionStatus)) (last : Bool × RecognitionStatus) (hr : Hresult)
    → Decides last hr
    → wait_for_face_recognition_result (last ∷ later) ≡ some hr
unfolding wait_for_face_recognition_result is_terminal_failure_status
wait_decided later _ _ (cancelled status) = refl
wait_decided later _ _ recognised = refl
wait_decided later _ _ (refused is_failed) = refl
wait_decided later _ _ (refused is_timeout) = refl
wait_decided later _ _ (refused is_error) = refl
wait_decided later _ _ (refused is_ended) = refl

wait_quiet :
    (rounds later : List (Bool × RecognitionStatus)) (last : Bool × RecognitionStatus)
    (hr : Hresult)
    → Decides last hr
    → All IsQuiet rounds
    → wait_for_face_recognition_result (rounds ++ last ∷ later) ≡ some hr
unfolding wait_for_face_recognition_result is_terminal_failure_status
wait_quiet [] later last hr d q = wait_decided later last hr d
wait_quiet ((false, status) ∷ rounds) later last hr d q = absurd q.0
wait_quiet ((true, idle) ∷ rounds) later last hr d q = wait_quiet rounds later last hr d q.1
wait_quiet ((true, recognizing) ∷ rounds) later last hr d q = wait_quiet rounds later last hr d q.1
wait_quiet ((true, face_detected) ∷ rounds) later last hr d q =
    wait_quiet rounds later last hr d q.1
wait_quiet ((true, other_status n) ∷ rounds) later last hr d q =
    wait_quiet rounds later last hr d q.1
wait_quiet ((true, _) ∷ rounds) later last hr d q = absurd q.0

IsQuiet-wait_none :
    (rounds : List (Bool × RecognitionStatus))
    → All IsQuiet rounds
    → wait_for_face_recognition_result rounds ≡ none
unfolding wait_for_face_recognition_result is_terminal_failure_status
IsQuiet-wait_none [] q = refl
IsQuiet-wait_none ((false, status) ∷ rounds) q = absurd q.0
IsQuiet-wait_none ((true, idle) ∷ rounds) q = IsQuiet-wait_none rounds q.1
IsQuiet-wait_none ((true, recognizing) ∷ rounds) q = IsQuiet-wait_none rounds q.1
IsQuiet-wait_none ((true, face_detected) ∷ rounds) q = IsQuiet-wait_none rounds q.1
IsQuiet-wait_none ((true, other_status n) ∷ rounds) q = IsQuiet-wait_none rounds q.1
IsQuiet-wait_none ((true, _) ∷ rounds) q = absurd q.0

-- While no round finds the wait cancelled, a success or a refusal (FAILED, TIMEOUT,
-- RECOGNITION_ERROR or PROCESS_ENDED), it goes on, however many rounds there are; at the first that
-- does it ends with S_OK for the success and E_FAIL for the others, whatever would come later.
pub wait_for_face_recognition_result-ends :
    (rounds later : List (Bool × RecognitionStatus)) (last : Bool × RecognitionStatus)
    (hr : Hresult)
    → All IsQuiet rounds
    → Decides last hr
    → (wait_for_face_recognition_result rounds ≡ none)
      × (wait_for_face_recognition_result (rounds ++ last ∷ later) ≡ some hr)
wait_for_face_recognition_result-ends rounds later last hr q d =
    (IsQuiet-wait_none rounds q, wait_quiet rounds later last hr d q)
