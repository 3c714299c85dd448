-- ===== src/Gui/Handler/Texts.antt =====
-- The texts that the handlers print and read.
use smile2unlock_v.Base.{ℕ, ◌+◌, List, [], ◌∷◌, ◌++◌, Bool, ◌||◌, Option, none, some, if◌then◌else◌}
use smile2unlock_v.Base.Text.{Bytes, text, same, is_empty, find, substr, substr_from}
use smile2unlock_v.Base.Decimal.{to_string, parse_int}
use smile2unlock_v.Gui.Float.{FloatOps}
use smile2unlock_v.Gui.Lines.{lines, key_line, flag}
use smile2unlock_v.Gui.Models.{
  FaceData, User, DllStatus, RecognitionResult, FaceRecognizerConfig, default_config,
}

abbrev pub tab : ℕ
tab = 9

unfoldable pub serialize_users : List User → Bytes
serialize_users [] = []
serialize_users (u ∷ us) =
    to_string u.id
    ++ (tab
        ∷ (u.username
            ++ (tab
                ∷ (u.encrypted_password ++ (tab ∷ (u.remark ++ (b'\n' ∷ serialize_users us)))))))

unfoldable pub serialize_faces : List FaceData → Bytes
serialize_faces [] = []
serialize_faces (f ∷ fs) = to_string f.id ++ (tab ∷ (f.remark ++ (b'\n' ∷ serialize_faces fs)))

unfoldable pub serialize_dll_status : DllStatus → Bytes
serialize_dll_status d = key_line (text "is_injected") (flag d.is_injected) (
    key_line (text "is_registry_configured") (flag d.is_registry_configured) (
      key_line (text "source_path") d.source_path (
        key_line (text "target_path") d.target_path (
          key_line (text "source_hash") d.source_hash (
            key_line (text "target_hash") d.target_hash (
              key_line (text "source_version") d.source_version
                (key_line (text "target_version") d.target_version [])))))))

-- `if (v) field = *v`.
abbrev pub or_keep {ℓ} : {A : Type ℓ} → Option A → A → A
or_keep none a = a
or_keep (some b) a = b

abbrev pub truthy : Bytes → Bool
truthy value = same value (text "1") || same value (text "true")

module _ {F : Type 0} (ops : FloatOps F) where
  unfoldable pub serialize_result : RecognitionResult F → Bytes
  serialize_result r = key_line (text "success") (flag r.success) (
      key_line (text "username") r.username (
        key_line (text "confidence") (ops.show r.confidence)
          (key_line (text "error_message") r.error_message [])))

  unfoldable pub serialize_config : FaceRecognizerConfig F → Bytes
  serialize_config c = key_line (text "camera") (to_string c.camera) (
      key_line (text "liveness") (flag c.liveness) (
        key_line (text "face_threshold") (ops.show c.face_threshold) (
          key_line (text "liveness_threshold") (ops.show c.liveness_threshold) (
            key_line (text "debug") (flag c.debug) (
              key_line (text "language") c.language
                (key_line (text "auto_update_check") (flag c.auto_update_check) []))))))

  read_float : Option (F × Bytes) → Option F
  read_float none = none
  read_float (some (x, rest)) = if is_empty rest then some x else none

  unfoldable pub parse_float : Bytes → Option F
  unfolding read_float
  parse_float s = read_float (ops.stof s)

  -- One `key=value` line of SAVE_RECOGNIZER_CONFIG.
  unfoldable pub set_config_field : Bytes → Bytes → FaceRecognizerConfig F → FaceRecognizerConfig F
  set_config_field key value c =
      if same key (text "camera")
      then record c { camera = or_keep (parse_int value) c.camera }
      else if same key (text "liveness")
      then record c { liveness = truthy value }
      else if same key (text "face_threshold")
      then record c { face_threshold = or_keep (parse_float value) c.face_threshold }
      else if same key (text "liveness_threshold")
      then record c { liveness_threshold = or_keep (parse_float value) c.liveness_threshold }
      else if same key (text "debug")
      then record c { debug = truthy value }
      else if same key (text "language")
      then record c { language = value }
      else if same key (text "auto_update_check")
      then record c { auto_update_check = truthy value }
      else c

  unfoldable pub set_config_at : Bytes → Option ℕ → FaceRecognizerConfig F → FaceRecognizerConfig F
  set_config_at line none c = c
  set_config_at line (some eq) c = set_config_field (substr 0 eq line) (substr_from (eq + 1) line) c

  unfoldable pub read_config_lines : List Bytes → FaceRecognizerConfig F → FaceRecognizerConfig F
  unfolding set_config_at
  read_config_lines [] c = c
  read_config_lines (l ∷ ls) c = read_config_lines ls (set_config_at l (find b'=' l) c)

  unfoldable pub read_config : Bytes → FaceRecognizerConfig F
  unfolding read_config_lines
  read_config payload = read_config_lines (lines payload) (default_config ops)
