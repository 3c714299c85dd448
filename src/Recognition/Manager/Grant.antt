-- ===== src/Recognition/Manager/Grant.antt =====
-- The credential provider is told of a success only after a match.
use smile2unlock_v.Base.{
  subst, ℕ, ◌≡◌, inl, inr, refl, List, [], ◌∷◌, Bool, true, false, Option, none, some,
  if◌then◌else◌, Bool-cases, All, All-append,
}
use smile2unlock_v.Base.Text.{Bytes, is_empty}
use smile2unlock_v.Udp.Packets.{
  RecognitionStatus, idle, recognizing, success, failed, timeout, recognition_error, face_detected,
  process_ended, other_status, AuthRequestType, start_recognition, cancel_recognition, query_status,
  get_password, other_request,
}
use smile2unlock_v.Gui.Float.{FloatOps}
use smile2unlock_v.Gui.Models.{User}
use smile2unlock_v.Recognition.Match.{Database, resolve_recognized_username}
use smile2unlock_v.Recognition.Match.Sound.{IsGranted, resolve_recognized_username_sound}
use smile2unlock_v.Recognition.Manager.{
  FaceRecognition, System, Sent, status_sent, stop_fr_process, stop_recognition, drop_ended,
  ensure_fr_process, password_for, forget_ended, password_answer, request_of_type,
  on_cp_request_received, is_success, note_report, match_outcome, report_outcome,
  on_fr_status_received,
}
use smile2unlock_v.Recognition.Manager.Run.{
  Event, request, report, start_call, stop_call, set_config, step, run,
}

module _ {F : Type 0} (ops : FloatOps F) (compare : Bytes → Bytes → Option F)
    (database : Option Database) where
  -- Why a success may be told: a face in front of the camera that was granted this name.
  pub record IsEarned (name : Bytes) : Type 0 where
    pub probe : Bytes
    pub face_threshold : F
    pub username_hint : Bytes
    pub named : is_empty name ≡ false
    pub resolved :
        name
        ≡ (resolve_recognized_username ops compare database face_threshold probe
            username_hint).username
    pub granted :
        IsGranted ops compare probe database face_threshold username_hint
          (resolve_recognized_username ops compare database face_threshold probe username_hint)

  unfoldable pub Justified : Sent → Type 0
  Justified (status_sent success username session_id) = IsEarned username
  Justified _ = Unit

  -- A report is passed on as a success only with a granted name.
  report-Justified :
      (status : RecognitionStatus) (username : Bytes) (session_id : ℕ) (m : FaceRecognition F)
      → let (final_status, result) = report_outcome ops compare database status username m in
        Justified (status_sent final_status result.username session_id)
  unfolding report_outcome match_outcome Justified is_success
  report-Justified success username session_id m =
      let r =
        resolve_recognized_username ops compare database m.config.face_threshold
          m.last_recognition_feature m.pending_username_hint in
      elim (Bool-cases (is_empty r.username)) [
        | inl e ↦ rw e tt
        | inr e ↦ rw e (record {
          probe = m.last_recognition_feature;
          face_threshold = m.config.face_threshold;
          username_hint = m.pending_username_hint;
          named = e;
          resolved = refl;
          granted =
              resolve_recognized_username_sound ops compare m.last_recognition_feature database
                m.config.face_threshold m.pending_username_hint e;
        })
      ]
  report-Justified idle username session_id m = tt
  report-Justified recognizing username session_id m = tt
  report-Justified failed username session_id m = tt
  report-Justified timeout username session_id m = tt
  report-Justified recognition_error username session_id m = tt
  report-Justified face_detected username session_id m = tt
  report-Justified process_ended username session_id m = tt
  report-Justified (other_status n) username session_id m = tt

  stop-Justified : (m : FaceRecognition F) → All Justified (stop_recognition m).1
  unfolding stop_recognition stop_fr_process Justified
  stop-Justified m = elim (Bool-cases m.is_running) [
    | inl running ↦
        rw running
          (elim (Bool-cases m.fr_process) [ inl held ↦ rw held (tt, tt) | inr held ↦ rw held tt ])
    | inr running ↦ rw running tt
  ]

  password-Justified :
      (session_id : ℕ) (username_hint : Bytes)
      → All Justified (password_answer database session_id username_hint)
  unfolding password_answer Justified
  password-Justified session_id hint = go database
    where
      found : (d : Database) (o : Option User) → Justified (password_for d session_id hint o)
      found d none = tt
      found d (some user) = tt

      go : (d : Option Database) → All Justified (password_answer d session_id hint)
      go none = tt
      go (some d) = (found d (d.get_user_by_username hint), tt)

  request-Justified :
      (sys : System) (type : AuthRequestType) (m : FaceRecognition F)
      → All Justified (request_of_type database sys type m).1
  unfolding request_of_type Justified
  request-Justified sys start_recognition m =
      elim (Bool-cases (ensure_fr_process sys (drop_ended sys m)).0) [
        | inl e ↦ rw e (tt, tt)
        | inr e ↦ rw e (tt, tt)
      ]
  request-Justified sys cancel_recognition m =
      All-append Justified (stop_recognition m).1 _ (stop-Justified m) (tt, tt)
  request-Justified sys query_status m = (by_running (forget_ended sys m).is_running _ _, tt)
    where
      by_running :
          (running : Bool) (username : Bytes) (session_id : ℕ)
          → Justified (status_sent (if running then recognizing else idle) username session_id)
      by_running true username session_id = tt
      by_running false username session_id = tt
  request-Justified sys get_password m =
      password-Justified m.current_session_id m.pending_username_hint
  request-Justified sys (other_request n) m = tt

  step-Justified :
      (e : Event F) (m : FaceRecognition F) → All Justified (step ops compare database e m).1
  unfolding step on_cp_request_received on_fr_status_received
  step-Justified (request sys type username_hint session_id) m = request-Justified sys type _
  step-Justified (report status username session_id feature) m =
      (report-Justified status username _ (note_report ops compare status session_id feature m), tt)
  step-Justified (start_call sys) m = tt
  step-Justified stop_call m = stop-Justified m
  step-Justified (set_config config) m = tt

  -- Whatever requests, reports and calls reach the manager, from whatever state: every success that
  -- is sent to the credential provider carries a name that is not empty and that
  -- resolve_recognized_username granted for some probe, threshold and hint.
  pub run-Justified :
      (es : List (Event F)) (m : FaceRecognition F)
      → All Justified (run ops compare database es m).1
  unfolding run
  run-Justified [] m = tt
  run-Justified (e ∷ es) m =
      All-append Justified (step ops compare database e m).1 _ (step-Justified e m)
        (run-Justified es (step ops compare database e m).0)

  -- The same of one message, with the probe, the threshold and the hint of the match.
  unfoldable pub JustifiedBy : Bytes → F → Bytes → Sent → Type 0
  JustifiedBy probe face_threshold username_hint (status_sent success username session_id) =
      let r = resolve_recognized_username ops compare database face_threshold probe username_hint in
      (is_empty username ≡ false)
      × (username ≡ r.username)
      × IsGranted ops compare probe database face_threshold username_hint r
  JustifiedBy probe face_threshold username_hint _ = Unit

  report-JustifiedBy :
      (status : RecognitionStatus) (username : Bytes) (session_id : ℕ) (m : FaceRecognition F)
      → let (final_status, result) = report_outcome ops compare database status username m in
        JustifiedBy m.last_recognition_feature m.config.face_threshold m.pending_username_hint
          (status_sent final_status result.username session_id)
  unfolding report_outcome match_outcome JustifiedBy is_success
  report-JustifiedBy success username session_id m =
      let probe = m.last_recognition_feature in
      let t = m.config.face_threshold in
      let hint = m.pending_username_hint in
      let r = resolve_recognized_username ops compare database t probe hint in
      elim (Bool-cases (is_empty r.username)) [
        | inl e ↦ rw e tt
        | inr e ↦
            rw e (e, refl, resolve_recognized_username_sound ops compare probe database t hint e)
      ]
  report-JustifiedBy idle username session_id m = tt
  report-JustifiedBy recognizing username session_id m = tt
  report-JustifiedBy failed username session_id m = tt
  report-JustifiedBy timeout username session_id m = tt
  report-JustifiedBy recognition_error username session_id m = tt
  report-JustifiedBy face_detected username session_id m = tt
  report-JustifiedBy process_ended username session_id m = tt
  report-JustifiedBy (other_status n) username session_id m = tt

  -- If a report with a feature makes the manager send a success, its name is not empty and was
  -- granted for that feature, with the threshold of the settings and the hint of the last request:
  -- an enrolled face of that user has a similarity to the feature that is not below the threshold.
  pub on_fr_status_received-JustifiedBy :
      (status : RecognitionStatus) (username : Bytes) (session_id : ℕ) (feature : Bytes)
      (m : FaceRecognition F)
      → is_empty feature ≡ false
      → let (m', sent) =
          on_fr_status_received ops compare database status username session_id feature m in
        All (JustifiedBy feature m.config.face_threshold m.pending_username_hint) sent
        × (m'.last_recognition_feature ≡ feature)
  unfolding on_fr_status_received note_report
  on_fr_status_received-JustifiedBy status username session_id feature m filled =
      let noted = note_report ops compare status session_id feature m in
      let kept : noted.last_recognition_feature ≡ feature = rw filled refl in
      (
        (
          subst
              (λ probe. JustifiedBy probe m.config.face_threshold m.pending_username_hint (
                status_sent (report_outcome ops compare database status username noted).0
                  (report_outcome ops compare database status username noted).1.username
                  noted.current_session_id))
              kept (report-JustifiedBy status username _ noted),
          tt,
        ),
        kept,
      )
