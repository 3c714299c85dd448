-- ===== src/Gui/Backend.antt =====
-- Smile2Unlock/backend/ibackend_service.h: the interface that the local service and its remote
-- stand-in both have. A method acts on a state and returns a value or raises a std::exception; its
-- out-parameters are results, and the text of an error starts empty.
use smile2unlock_v.Base.{List, Bool}
use smile2unlock_v.Base.Text.{Bytes}
use smile2unlock_v.Base.Decimal.{ℤ}
use smile2unlock_v.Gui.Models.{FaceData, User, DllStatus, RecognitionResult, FaceRecognizerConfig}

-- `thrown` carries the text of `what()`.
pub data Outcome {ℓ} (A : Type ℓ) : Type ℓ where
  value : A → Outcome A
  thrown : Bytes → Outcome A

abbrev pub Method : Type 0 → Type 0 → Type 0
Method S A = S → Outcome A × S

module _ {S : Type 0} where
  infixl 5 ◌>>=◌
  abbrev pub ◌>>=◌ : {A B : Type 0} → Method S A → (A → Method S B) → Method S B
  ◌>>=◌ m f s = go f (m s)
    where
      go : {A B : Type 0} → (A → Method S B) → Outcome A × S → Outcome B × S
      go f (value a, s') = f a s'
      go f (thrown e, s') = (thrown e, s')

  abbrev pub pure : {A : Type 0} → A → Method S A
  pure a s = (value a, s)

-- `return success` with the error text.
pub record Reply : Type 0 where
  pub succeeded : Bool
  pub message : Bytes

pub record Frame : Type 0 where
  pub available : Bool
  pub image_data : Bytes
  pub width : ℤ
  pub height : ℤ
  pub message : Bytes

pub record ConfigReply (F : Type 0) : Type 0 where
  pub loaded : Bool
  pub config : FaceRecognizerConfig F
  pub message : Bytes

pub record IBackendService (S F : Type 0) : Type 0 where
  pub get_dll_status : Method S DllStatus
  pub calculate_dll_hashes : Method S Bool
  pub inject_dll : Method S Reply
  pub get_all_users : Method S (List User)
  pub add_user : Bytes → Bytes → Bytes → Method S Reply
  pub update_user : ℤ → Bytes → Bytes → Bytes → Method S Reply
  pub delete_user : ℤ → Method S Reply
  pub add_face : ℤ → Bytes → Bytes → Method S Reply
  pub start_camera_preview : Method S Reply
  pub stop_camera_preview : Method S (Unit {0})
  pub is_camera_preview_running : Method S Bool
  pub get_latest_camera_preview : Method S Frame
  pub capture_preview_frame : Method S Frame
  pub capture_and_add_face : ℤ → Bytes → Method S Reply
  pub delete_face : ℤ → ℤ → Method S Reply
  pub update_face_remark : ℤ → ℤ → Bytes → Method S Reply
  pub get_user_faces : ℤ → Method S (List FaceData)
  pub start_recognition : Method S Reply
  pub stop_recognition : Method S (Unit {0})
  pub is_recognition_running : Method S Bool
  pub get_recognition_result : Method S (RecognitionResult F)
  pub get_recognizer_config : Method S (ConfigReply F)
  pub save_recognizer_config : FaceRecognizerConfig F → Method S Reply
