-- ===== src/Recognition/Manager/Requests.antt =====
-- What the requests of the credential provider do to the manager.
use smile2unlock_v.Base.{
  ℕ, ◌≡◌, inl, inr, refl, ap, List, [], ◌∷◌, Bool, true, false, not, ◌&&◌, Option, arith,
  if◌then◌else◌, Bool-cases,
}
use smile2unlock_v.Base.Text.{Bytes}
use smile2unlock_v.Udp.Packets.{
  recognizing, recognition_error, AuthRequestType, start_recognition, cancel_recognition,
  query_status, get_password, other_request,
}
use smile2unlock_v.Gui.Float.{FloatOps}
use smile2unlock_v.Recognition.Match.{Database}
use smile2unlock_v.Recognition.Manager.{
  FaceRecognition, System, Sent, status_sent, cleanup_fr_process_handles, stop_fr_process,
  stop_recognition, set_running, drop_ended, forget_ended, note_report, ensure_fr_process,
  start_recognition_call, request_of_type, on_cp_request_received, on_fr_status_received,
}
use smile2unlock_v.Recognition.Manager.Run.{
  Event, request, report, start_call, stop_call, set_config, step, run,
}

-- A running recognition has a process.
abbrev pub HasProcess : {F : Type 0} → FaceRecognition F → Type 0
HasProcess m = m.is_running ≡ true → m.fr_process ≡ true

-- A start that is asked for succeeds.
abbrev pub StartsWork : {F : Type 0} → Event F → Type 0
StartsWork (request sys type username_hint session_id) = sys.process_starts ≡ true
StartsWork (start_call sys) = sys.process_starts ≡ true
StartsWork _ = Unit

module _ {F : Type 0} where
  ensure-held :
      (sys : System) (m : FaceRecognition F)
      → sys.process_starts ≡ true
      → ((ensure_fr_process sys m).0 ≡ true) × ((ensure_fr_process sys m).1.fr_process ≡ true)
  unfolding ensure_fr_process
  ensure-held sys m h = elim (Bool-cases m.fr_process) [
    | inl e ↦ rw e (refl, refl)
    | inr e ↦ rw (e, h) (refl, refl)
  ]

  stop-HasProcess : (m : FaceRecognition F) → HasProcess m → HasProcess (stop_recognition m).0
  unfolding stop_recognition stop_fr_process cleanup_fr_process_handles
  stop-HasProcess m h = elim (Bool-cases m.is_running) [
    | inl e ↦ rw e (λ k. absurd (ground (arith, k)))
    | inr e ↦ rw e (λ k. absurd (ground (arith, k)))
  ]

  request-HasProcess :
      (database : Option Database) (sys : System) (type : AuthRequestType) (m : FaceRecognition F)
      → sys.process_starts ≡ true
      → HasProcess m
      → HasProcess (request_of_type database sys type m).0
  unfolding request_of_type forget_ended cleanup_fr_process_handles
  request-HasProcess database sys start_recognition m works h =
      let (started, held) = ensure-held sys (drop_ended sys m) works in rw started (λ k. held)
  request-HasProcess database sys cancel_recognition m works h = stop-HasProcess m h
  request-HasProcess database sys query_status m works h =
      elim (Bool-cases (m.fr_process && not sys.process_active)) [
        | inl e ↦ rw e (λ k. absurd (ground (arith, k)))
        | inr e ↦ rw e h
      ]
  request-HasProcess database sys get_password m works h = h
  request-HasProcess database sys (other_request n) m works h = h

  start_call-HasProcess :
      (sys : System) (m : FaceRecognition F)
      → sys.process_starts ≡ true
      → HasProcess m
      → HasProcess (start_recognition_call sys m).1
  unfolding start_recognition_call
  start_call-HasProcess sys m works h =
      let (started, held) =
        ensure-held sys (record (drop_ended sys m) { last_recognition_feature = [] }) works in
      branch (not m.initialized) _ (running _ started held)
    where
      branch :
          (b : Bool) (p : Bool × FaceRecognition F)
          → HasProcess p.1
          → HasProcess (if b then (false, m) else p).1
      branch true p k = h
      branch false p k = k

      running :
          (p : Bool × FaceRecognition F)
          → p.0 ≡ true
          → p.1.fr_process ≡ true
          → HasProcess (set_running p).1
      running (true, n) e k = λ r. k
      running (false, n) e k = absurd (ground (arith, e))

module _ {F : Type 0} (ops : FloatOps F) (compare : Bytes → Bytes → Option F)
    (database : Option Database) where
  -- If starting the recognizer succeeds whenever it is asked for, then no request, report or call
  -- leaves a recognition running without a process, where it was not so before.
  pub step-HasProcess :
      (e : Event F) (m : FaceRecognition F)
      → StartsWork e
      → HasProcess m
      → HasProcess (step ops compare database e m).0
  unfolding step on_cp_request_received on_fr_status_received note_report
  step-HasProcess (request sys type username_hint session_id) m works h =
      request-HasProcess database sys type _ works h
  step-HasProcess (report status username session_id feature) m works h = go _
    where
      go : (stopped : Bool) → (if stopped then false else m.is_running) ≡ true → m.fr_process ≡ true
      go true k = absurd (ground (arith, k))
      go false k = h k
  step-HasProcess (start_call sys) m works h = start_call-HasProcess sys m works h
  step-HasProcess stop_call m works h = stop-HasProcess m h
  step-HasProcess (set_config config) m works h = h

module _ {F : Type 0} (database : Option Database) where
  -- What a password request is answered with depends on the database, the hint and the session
  -- alone: not on the state of the manager, nor on any recognition before.
  pub get_password-any_state :
      (sys sys' : System) (username_hint : Bytes) (session_id : ℕ) (m m' : FaceRecognition F)
      → (on_cp_request_received database sys get_password username_hint session_id m).1
        ≡ (on_cp_request_received database sys' get_password username_hint session_id m').1
  unfolding on_cp_request_received request_of_type
  get_password-any_state sys sys' username_hint session_id m m' = refl

-- A status query, and a list of them.
pub record Query : Type 0 where
  pub sys : System
  pub username_hint : Bytes
  pub session_id : ℕ

module _ {F : Type 0} where
  abbrev pub asked : List Query → List (Event F)
  asked [] = []
  asked (q ∷ queries) = request q.sys query_status q.username_hint q.session_id ∷ asked queries

-- The answers that a running recognition gives to them.
abbrev pub answered : Bytes → List Query → List Sent
answered username [] = []
answered username (q ∷ queries) =
    status_sent recognizing username q.session_id ∷ answered username queries

module _ {F : Type 0} (ops : FloatOps F) (compare : Bytes → Bytes → Option F)
    (database : Option Database) where
  asked-running :
      (queries : List Query) (m : FaceRecognition F)
      → m.is_running ≡ true
      → m.fr_process ≡ false
      → (run ops compare database (asked queries) m).1 ≡ answered m.last_result.username queries
  unfolding run step on_cp_request_received request_of_type
  asked-running [] m r p = refl
  asked-running (q ∷ queries) m r p =
      rw (p, r)
        (ap (λ later. status_sent recognizing m.last_result.username q.session_id ∷ later)
          (asked-running queries
            (record m {
              current_session_id = q.session_id;
              pending_username_hint = q.username_hint;
              is_running = true;
              fr_process = false;
            })
            refl refl))

  -- If the process of a running recognition has ended and a new one cannot be started, a start
  -- request is answered with an error and leaves no process, and yet the status queries that follow
  -- it, however many and with nothing else in between, are all answered with RECOGNIZING.
  pub failed_start-query :
      (sys : System) (username_hint : Bytes) (session_id : ℕ) (queries : List Query)
      (m : FaceRecognition F)
      → m.is_running ≡ true
      → m.fr_process ≡ true
      → sys.process_active ≡ false
      → sys.process_starts ≡ false
      → let start = request sys start_recognition username_hint session_id in
        ((step ops compare database start m).0.fr_process ≡ false)
        × ((run ops compare database (start ∷ asked queries) m).1
            ≡ status_sent recognition_error [] session_id ∷ answered m.last_result.username queries)
  unfolding run step on_cp_request_received request_of_type drop_ended ensure_fr_process
      cleanup_fr_process_handles
  failed_start-query sys username_hint session_id queries m running held dead broken = (
    rw (held, dead, broken) refl,
    rw (held, dead, broken)
        (ap (λ later. status_sent recognition_error [] session_id ∷ later)
          (asked-running queries
            (record m {
              current_session_id = session_id;
              pending_username_hint = username_hint;
              fr_process = false;
            })
            running refl)),
  )
