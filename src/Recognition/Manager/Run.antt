-- ===== src/Recognition/Manager/Run.antt =====
-- What reaches the manager, one event after the other: the requests of the credential provider, the
-- reports of the recognizer, and the calls of the service.
use smile2unlock_v.Base.{ℕ, List, [], ◌∷◌, ◌++◌, Option}
use smile2unlock_v.Base.Text.{Bytes}
use smile2unlock_v.Udp.Packets.{RecognitionStatus, AuthRequestType}
use smile2unlock_v.Gui.Float.{FloatOps}
use smile2unlock_v.Gui.Models.{FaceRecognizerConfig}
use smile2unlock_v.Recognition.Match.{Database}
use smile2unlock_v.Recognition.Manager.{
  FaceRecognition, System, Outcome, stop_recognition, start_recognition_call,
  on_cp_request_received, on_fr_status_received,
}

-- What reaches the manager.
pub data Event (F : Type 0) : Type 0 where
  request : System → AuthRequestType → (username_hint : Bytes) → (session_id : ℕ) → Event F
  report : RecognitionStatus → (username : Bytes) → (session_id : ℕ) → (feature : Bytes) → Event F
  start_call : System → Event F
  stop_call : Event F
  set_config : FaceRecognizerConfig F → Event F

module _ {F : Type 0} (ops : FloatOps F) (compare : Bytes → Bytes → Option F)
    (database : Option Database) where
  unfoldable pub step : Event F → FaceRecognition F → Outcome F
  unfolding on_cp_request_received on_fr_status_received start_recognition_call stop_recognition
  step (request sys type username_hint session_id) m =
      on_cp_request_received database sys type username_hint session_id m
  step (report status username session_id feature) m =
      on_fr_status_received ops compare database status username session_id feature m
  step (start_call sys) m = ((start_recognition_call sys m).1, [])
  step stop_call m = stop_recognition m
  step (set_config config) m = (record m { config = config }, [])

  -- All that is sent in a run.
  unfoldable pub run : List (Event F) → FaceRecognition F → Outcome F
  unfolding step
  run [] m = (m, [])
  run (e ∷ es) m = let (m', sent) = step e m in let (m'', later) = run es m' in (m'', sent ++ later)
