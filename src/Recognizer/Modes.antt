-- ===== src/Recognizer/Modes.antt =====
-- mainOptimized, with the options that cxxopts has parsed, and compareFeatures. Loading and creating
-- the configuration file are what they answer.
use smile2unlock_v.Base.{
  ℕ, ◌*◌, ◌<◌, ◌≡◌, refl, List, [], ◌∷◌, Bool, true, false, not, ◌||◌, Option, none, some, arith,
  ◌==◌, if◌then◌else◌, length, All, ==_refl,
}
use smile2unlock_v.Base.Text.{Bytes, text, is_empty}
use smile2unlock_v.Base.Decimal.{ℤ}
use smile2unlock_v.Gui.Float.{FloatOps}
use smile2unlock_v.Gui.Models.{FaceRecognizerConfig}
use smile2unlock_v.Recognizer.Hex.{
  encode_bytes_to_hex, decode_hex_to_bytes, hex_bytes-encode_bytes_to_hex,
}

-- The options. Those with `Option` are `none` when they are not given.
pub record Arguments : Type 0 where
  pub help : Bool
  pub mode : Bytes
  pub camera : Option ℤ
  pub thresholds : List Bytes
  pub debug : Option Bool
  pub liveness_detection : Option Bool
  pub frame_map : Bytes
  pub feature_a : Bytes
  pub feature_b : Bytes
  pub extract_feature : Bool

pub data Task (F : Type 0) : Type 0 where
  help_shown : Task F
  recognition :
      (camera : ℤ) → (liveness_detection : Bool) → (threshold : F) → (debug : Bool) → Task F
  capture : (camera : ℤ) → (map_name : Bytes) → (extract_feature : Bool) → Task F
  preview : (camera : ℤ) → (map_name : Bytes) → Task F
  comparison : (feature_a feature_b : Bytes) → Task F
  not_implemented : Task F
  unknown_mode : Task F

given : {A : Type 0} → Option A → A → A
given none a = a
given (some b) a = b

-- `t.find(prefix) == 0`, and the rest.
after_prefix : Bytes → Bytes → Option Bytes
after_prefix [] s = some s
after_prefix (c ∷ p) [] = none
after_prefix (c ∷ p) (x ∷ s) = if x == c then after_prefix p s else none

same_text : Bytes → Bytes → Bool
same_text [] [] = true
same_text (x ∷ s) (y ∷ t) = if x == y then same_text s t else false
same_text _ _ = false

module _ {F : Type 0} (ops : FloatOps F) where
  number : Option (F × Bytes) → Option F
  number none = none
  number (some (x, rest)) = some x

  -- The two thresholds after the settings of `-t`; `none` is an exception of std::stof.
  with_liveness : Option Bytes → F × F → Option (F × F)
  unfolding number
  with_liveness none thresholds = some thresholds
  with_liveness (some s) (face, liveness) = elim (number (ops.stof s)) [
    | none ↦ none
    | some x ↦ some (face, x)
  ]

  with_threshold : Bytes → Option Bytes → F × F → Option (F × F)
  unfolding with_liveness number after_prefix
  with_threshold t none thresholds = with_liveness (after_prefix (text "liveness=") t) thresholds
  with_threshold t (some s) (face, liveness) = elim (number (ops.stof s)) [
    | none ↦ none
    | some x ↦ some (x, liveness)
  ]

  unfoldable pub read_thresholds : List Bytes → F × F → Option (F × F)
  unfolding with_threshold with_liveness number after_prefix
  read_thresholds [] thresholds = some thresholds
  read_thresholds (t ∷ rest) thresholds =
      elim (with_threshold t (after_prefix (text "face=") t) thresholds) [
        | none ↦ none
        | some next ↦ read_thresholds rest next
      ]

  -- The configuration: loaded, or else created and loaded again.
  unfoldable pub load_config :
      (first : Option (FaceRecognizerConfig F)) (created : Bool)
      (second : Option (FaceRecognizerConfig F))
      → Option (FaceRecognizerConfig F)
  load_config (some config) created second = some config
  load_config none created second = if created then second else none

  task_of : Arguments → FaceRecognizerConfig F → F × F → Task F
  unfolding given same_text
  task_of a config (face_threshold, liveness_threshold) =
      let camera = given a.camera config.camera in
      if same_text a.mode (text "recognize")
      then recognition camera (given a.liveness_detection config.liveness) liveness_threshold
          (given a.debug config.debug)
      else if same_text a.mode (text "capture-image")
      then capture camera a.frame_map a.extract_feature
      else if same_text a.mode (text "preview-stream")
      then preview camera a.frame_map
      else if same_text a.mode (text "compare-features")
      then comparison a.feature_a a.feature_b
      else if same_text a.mode (text "test")
      then not_implemented
      else unknown_mode

  with_config : Arguments → Option (FaceRecognizerConfig F) → Option (Task F)
  unfolding read_thresholds task_of
  with_config a none = none
  with_config a (some config) =
      onto_task (read_thresholds a.thresholds (config.face_threshold, config.liveness_threshold))
    where
      onto_task : Option (F × F) → Option (Task F)
      onto_task none = none
      onto_task (some thresholds) = some (task_of a config thresholds)

  -- What the process does; `none` ends it with an exception.
  unfoldable pub main_optimized : Arguments → Option (FaceRecognizerConfig F) → Option (Task F)
  unfolding with_config
  main_optimized a config = if a.help then some help_shown else with_config a config

-- The end of a comparison: an error, an exception, or a number that is printed.
pub data Compared (F : Type 0) : Type 0 where
  compare_failed compare_thrown : Compared F
  printed : F → Compared F

-- `feat_compare` is the one of the recogniser, on the bytes of the two features.
module _ {F : Type 0} (feature_size : ℕ) (feat_compare : Bytes → Bytes → F) where
  compare_decoded : Option Bytes → Option Bytes → Compared F
  compare_decoded (some a) (some b) =
      if not (length a == feature_size * 4) || not (length b == feature_size * 4)
      then compare_failed
      else printed (feat_compare a b)
  compare_decoded _ _ = compare_thrown

  unfoldable pub compare_features : Bytes → Bytes → Compared F
  unfolding compare_decoded
  compare_features feature_a_hex feature_b_hex =
      if is_empty feature_a_hex || is_empty feature_b_hex
      then compare_failed
      else compare_decoded (decode_hex_to_bytes feature_a_hex) (decode_hex_to_bytes feature_b_hex)

  -- Two features in hex, as a capture gives them, are compared as the recogniser compares their
  -- bytes, if they have its size, and that is not 0.
  pub compare_features-encode :
      (a b : Bytes)
      → 0 < feature_size
      → All (λ x. x < 256) a
      → All (λ x. x < 256) b
      → length a ≡ feature_size * 4
      → length b ≡ feature_size * 4
      → compare_features (encode_bytes_to_hex a) (encode_bytes_to_hex b)
        ≡ printed (feat_compare a b)
  unfolding compare_features compare_decoded is_empty
  compare_features-encode a b pos low_a low_b size_a size_b =
      let (ha, da, la) = hex_bytes-encode_bytes_to_hex a low_a in
      let (hb, db, lb) = hex_bytes-encode_bytes_to_hex b low_b in
      rw
        (
          not_empty (encode_bytes_to_hex a) (omega (arith, la, size_a)),
          not_empty (encode_bytes_to_hex b) (omega (arith, lb, size_b)),
          da,
          db,
          size_a,
          size_b,
          ==_refl (feature_size * 4),
        )
        refl
    where
      not_empty : (s : Bytes) → 0 < length s → is_empty s ≡ false
      not_empty [] h = absurd (omega arith)
      not_empty (x ∷ s) h = refl
