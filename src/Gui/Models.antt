-- ===== src/Gui/Models.antt =====
-- Smile2Unlock/models.h.
use smile2unlock_v.Base.{List, [], Bool, true, false}
use smile2unlock_v.Base.Text.{Bytes, text}
use smile2unlock_v.Base.Decimal.{ℤ, pos}
use smile2unlock_v.Gui.Float.{FloatOps}

pub record FaceData : Type 0 where
  pub id : ℤ
  pub feature : Bytes
  pub image_path : Bytes
  pub remark : Bytes
  pub created_at : Bytes

pub record User : Type 0 where
  pub id : ℤ
  pub username : Bytes
  pub encrypted_password : Bytes
  pub faces : List FaceData
  pub remark : Bytes
  pub created_at : Bytes

pub record DllStatus : Type 0 where
  pub is_injected : Bool
  pub is_registry_configured : Bool
  pub source_path : Bytes
  pub target_path : Bytes
  pub source_hash : Bytes
  pub target_hash : Bytes
  pub source_version : Bytes
  pub target_version : Bytes
  pub hash_match : Bool
  pub version_match : Bool

pub record RecognitionResult (F : Type 0) : Type 0 where
  pub success : Bool
  pub username : Bytes
  pub confidence : F
  pub error_message : Bytes

pub record FaceRecognizerConfig (F : Type 0) : Type 0 where
  pub camera : ℤ
  pub liveness : Bool
  pub face_threshold : F
  pub liveness_threshold : F
  pub debug : Bool
  pub language : Bytes
  pub auto_update_check : Bool

-- The values of `FaceData{}`, `User{}` and so on.
abbrev pub no_face : FaceData
no_face = record { id = pos 0; feature = []; image_path = []; remark = []; created_at = [] }

abbrev pub no_user : User
no_user = record {
  id = pos 0;
  username = [];
  encrypted_password = [];
  faces = [];
  remark = [];
  created_at = [];
}

abbrev pub no_dll_status : DllStatus
no_dll_status = record {
  is_injected = false;
  is_registry_configured = false;
  source_path = [];
  target_path = [];
  source_hash = [];
  target_hash = [];
  source_version = [];
  target_version = [];
  hash_match = false;
  version_match = false;
}

module _ {F : Type 0} (ops : FloatOps F) where
  abbrev pub no_result : RecognitionResult F
  no_result = record {
    success = false;
    username = [];
    confidence = ops.literal (text "0");
    error_message = [];
  }

  abbrev pub default_config : FaceRecognizerConfig F
  default_config = record {
    camera = pos 0;
    liveness = true;
    face_threshold = ops.literal (text "0.62");
    liveness_threshold = ops.literal (text "0.8");
    debug = false;
    language = text "zh-CN";
    auto_update_check = true;
  }
