-- ===== src/Recognition/Manager.antt =====
-- The state of FaceRecognition that its network callbacks and the service touch, and what they do.
-- Handles are flags; the log thread, the result mapping, which is never created, and the preview
-- are not part of the state. Both senders exist, since Initialize makes them before any callback.
pub mod Run
pub mod Grant
pub mod Requests
use smile2unlock_v.Base.{
  ℕ, ◌≡◌, ◌⊎◌, List, [], ◌∷◌, ◌++◌, Bool, true, false, not, ◌&&◌, ◌||◌, Option, none, some, ◌==◌,
  if◌then◌else◌,
}
use smile2unlock_v.Base.Text.{Bytes, text, is_empty}
use smile2unlock_v.Udp.Packets.{
  RecognitionStatus, idle, recognizing, success, failed, timeout, recognition_error, face_detected,
  process_ended, other_status, AuthRequestType, start_recognition, cancel_recognition, query_status,
  get_password, other_request,
}
use smile2unlock_v.Gui.Float.{FloatOps}
use smile2unlock_v.Gui.Models.{User, RecognitionResult, FaceRecognizerConfig}
use smile2unlock_v.Recognition.Match.{Database, Resolved, resolve_recognized_username}

pub record FaceRecognition (F : Type 0) : Type 0 where
  pub initialized : Bool
  pub is_running : Bool
  pub last_result : RecognitionResult F
  pub fr_process : Bool
  pub config : FaceRecognizerConfig F
  pub current_session_id : ℕ
  pub pending_username_hint : Bytes
  pub last_recognition_feature : Bytes

-- The system when a callback runs: whether the process behind the handle still runs, and whether
-- starting a new one succeeds.
pub record System : Type 0 where
  pub process_active : Bool
  pub process_starts : Bool

-- What goes to the credential provider.
pub data Sent : Type 0 where
  status_sent : RecognitionStatus → (username : Bytes) → (session_id : ℕ) → Sent
  password_sent : (session_id : ℕ) → (username password : Bytes) → (ok : Bool) → Sent

abbrev pub Outcome : Type 0 → Type 0
Outcome F = FaceRecognition F × List Sent

unfoldable pub password_for : Database → ℕ → Bytes → Option User → Sent
password_for database session_id username_hint none =
    password_sent session_id username_hint [] false
password_for database session_id username_hint (some user) =
    let decrypted = database.decrypt_password user.encrypted_password in
    password_sent session_id user.username decrypted (not (is_empty decrypted))

unfoldable pub password_answer : Option Database → ℕ → Bytes → List Sent
unfolding password_for
password_answer none session_id username_hint = []
password_answer (some database) session_id username_hint =
    password_for database session_id username_hint (database.get_user_by_username username_hint)
    ∷ []

module _ {F : Type 0} where
  unfoldable pub cleanup_fr_process_handles : FaceRecognition F → FaceRecognition F
  cleanup_fr_process_handles m = record m { fr_process = false }

  unfoldable pub stop_fr_process : FaceRecognition F → Outcome F
  unfolding cleanup_fr_process_handles
  stop_fr_process m = (
    cleanup_fr_process_handles m,
    if m.fr_process then status_sent process_ended [] m.current_session_id ∷ [] else [],
  )

  unfoldable pub stop_recognition : FaceRecognition F → Outcome F
  unfolding stop_fr_process
  stop_recognition m =
      if m.is_running then stop_fr_process (record m { is_running = false }) else (m, [])

  -- The handle of a process that has ended is dropped.
  unfoldable pub drop_ended : System → FaceRecognition F → FaceRecognition F
  unfolding cleanup_fr_process_handles
  drop_ended sys m =
      if m.fr_process && not sys.process_active then cleanup_fr_process_handles m else m

  -- `!fr_process_ && !start_fr_process()`, with the handle that a start leaves.
  unfoldable pub ensure_fr_process : System → FaceRecognition F → Bool × FaceRecognition F
  ensure_fr_process sys m =
      if m.fr_process
      then (true, m)
      else if sys.process_starts
      then (true, record m { fr_process = true })
      else (false, m)

  unfoldable pub set_running : Bool × FaceRecognition F → Bool × FaceRecognition F
  set_running (true, m) = (true, record m { is_running = true })
  set_running (false, m) = (false, m)

  unfoldable pub start_recognition_call : System → FaceRecognition F → Bool × FaceRecognition F
  unfolding drop_ended ensure_fr_process set_running
  start_recognition_call sys m =
      if not m.initialized
      then (false, m)
      else set_running
          (ensure_fr_process sys (record (drop_ended sys m) { last_recognition_feature = [] }))

  -- As a query does, which also leaves the running state then.
  unfoldable pub forget_ended : System → FaceRecognition F → FaceRecognition F
  unfolding cleanup_fr_process_handles
  forget_ended sys m =
      if m.fr_process && not sys.process_active
      then record (cleanup_fr_process_handles m) { is_running = false }
      else m

  unfoldable pub request_of_type :
      Option Database → System → AuthRequestType → FaceRecognition F → Outcome F
  unfolding drop_ended ensure_fr_process stop_recognition password_answer forget_ended
  request_of_type database sys start_recognition m =
      let (started, m') = ensure_fr_process sys (drop_ended sys m) in
      if started
      then (record m' { is_running = true }, status_sent recognizing [] m.current_session_id ∷ [])
      else (m', status_sent recognition_error [] m.current_session_id ∷ [])
  request_of_type database sys cancel_recognition m =
      let (m', sent) = stop_recognition m in
      (m', sent ++ (status_sent idle [] m.current_session_id ∷ []))
  request_of_type database sys query_status m =
      let m' =
        if m.fr_process && not sys.process_active
        then record (cleanup_fr_process_handles m) { is_running = false }
        else m in
      (
        m',
        status_sent (if m'.is_running then recognizing else idle) m'.last_result.username
              m.current_session_id
            ∷ [],
      )
  request_of_type database sys get_password m =
      (m, password_answer database m.current_session_id m.pending_username_hint)
  request_of_type database sys (other_request n) m = (m, [])

  unfoldable pub on_cp_request_received :
      Option Database → System → AuthRequestType → Bytes → ℕ → FaceRecognition F → Outcome F
  unfolding request_of_type
  on_cp_request_received database sys type username_hint session_id m =
      request_of_type database sys type
        (record m { current_session_id = session_id; pending_username_hint = username_hint })

unfoldable pub is_success : RecognitionStatus → Bool
is_success success = true
is_success _ = false

unfoldable pub is_terminal : RecognitionStatus → Bool
is_terminal success = true
is_terminal timeout = true
is_terminal recognition_error = true
is_terminal process_ended = true
is_terminal _ = false

module _ {F : Type 0} (ops : FloatOps F) (compare : Bytes → Bytes → Option F) where
  -- The session and the feature that a report brings.
  unfoldable pub note_report : RecognitionStatus → ℕ → Bytes → FaceRecognition F → FaceRecognition F
  unfolding is_success
  note_report status session_id feature m = record m {
    current_session_id = if session_id == 0 then m.current_session_id else session_id;
    last_recognition_feature =
        if not (is_empty feature)
        then feature
        else if is_success status
        then m.last_recognition_feature
        else [];
  }

  keep_confidence : Option F → F → F
  keep_confidence none x = x
  keep_confidence (some c) x = c

  -- The status and the result that become of a match.
  unfoldable pub match_outcome : Resolved F → RecognitionStatus × RecognitionResult F
  unfolding keep_confidence
  match_outcome r =
      if not (is_empty r.username)
      then (
        success,
        record {
          success = true;
          username = r.username;
          confidence = keep_confidence r.confidence (ops.literal (text "0"));
          error_message = [];
        },
      )
      else (
        recognition_error,
        record {
          success = false;
          username = [];
          confidence = keep_confidence r.confidence (ops.literal (text "0"));
          error_message =
              if not (is_empty r.error_message) then r.error_message else text "未找到匹配的人脸用户";
        },
      )

  unfoldable pub report_outcome :
      Option Database
      → RecognitionStatus
      → Bytes
      → FaceRecognition F
      → RecognitionStatus × RecognitionResult F
  unfolding is_success match_outcome
  report_outcome database status username m =
      if is_success status
      then match_outcome (
          resolve_recognized_username ops compare database m.config.face_threshold
            m.last_recognition_feature m.pending_username_hint)
      else (
        status,
        record {
          success = false;
          username = if is_empty username then m.pending_username_hint else username;
          confidence = ops.literal (text "0");
          error_message = text "Recognition failed";
        },
      )

  unfoldable pub on_fr_status_received :
      Option Database
      → RecognitionStatus
      → Bytes
      → ℕ
      → Bytes
      → FaceRecognition F
      → FaceRecognition F × List Sent
  unfolding note_report report_outcome is_terminal
  on_fr_status_received database status username session_id feature m =
      let noted = note_report status session_id feature m in
      let (final_status, result) = report_outcome database status username noted in
      (
        record noted {
          last_result = result;
          is_running = if is_terminal final_status then false else noted.is_running;
        },
        status_sent final_status result.username noted.current_session_id ∷ [],
      )
