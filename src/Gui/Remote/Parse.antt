-- ===== src/Gui/Remote/Parse.antt =====
-- How the remote service reads the payloads of responses. `none` is a std::exception of std::stoi
-- or std::stof, which leaves the method.
use smile2unlock_v.Base.{ℕ, suc, ◌+◌, List, [], ◌∷◌, Bool, Option, none, some, ◌==◌, if◌then◌else◌}
use smile2unlock_v.Base.Text.{Bytes, text, same, is_empty, find, substr, substr_from}
use smile2unlock_v.Base.Decimal.{stoi}
use smile2unlock_v.Gui.Float.{FloatOps}
use smile2unlock_v.Gui.Lines.{lines}
use smile2unlock_v.Gui.Models.{
  FaceData, User, DllStatus, RecognitionResult, FaceRecognizerConfig, no_face, no_user,
  no_dll_status, no_result, default_config,
}

infixl 5 ◌>>=◌
abbrev pub ◌>>=◌ {ℓ κ} : {A : Type ℓ} {B : Type κ} → Option A → (A → Option B) → Option B
none >>= f = none
some a >>= f = f a

abbrev onto_field : ℕ → List Bytes → List Bytes
onto_field c [] = []
onto_field c (l ∷ ls) = (c ∷ l) ∷ ls

-- The fields of a line: each ends in a tab, so what stands behind the last tab is none.
unfoldable pub tab_fields : Bytes → List Bytes
tab_fields [] = []
tab_fields (c ∷ s) = let rest = tab_fields s in if c == 9 then [] ∷ rest else onto_field c rest

set_user_field : ℕ → Bytes → User → Option User
set_user_field field v u =
    if field == 0
    then (do i ← stoi v; some (record u { id = i.0 }))
    else if field == 1
    then some (record u { username = v })
    else if field == 3
    then some (record u { remark = v })
    else some u

set_user_fields : ℕ → List Bytes → User → Option User
unfolding set_user_field
set_user_fields field [] u = some u
set_user_fields field (v ∷ vs) u = do
  u' ← set_user_field field v u
  set_user_fields (suc field) vs u'

keep_user : User → List User → List User
keep_user u us = if is_empty u.username then us else u ∷ us

unfoldable pub read_users : List Bytes → Option (List User)
unfolding set_user_fields keep_user
read_users [] = some []
read_users (l ∷ ls) =
    let later = read_users ls in
    let read = (do
      u ← set_user_fields 0 (tab_fields l) no_user
      us ← later
      some (keep_user u us)) in
    if is_empty l then later else read

unfoldable pub parse_users : Bytes → Option (List User)
unfolding read_users is_empty
parse_users payload = read_users (lines payload)

set_face_field : ℕ → Bytes → FaceData → Option FaceData
set_face_field field v f =
    if field == 0
    then (do i ← stoi v; some (record f { id = i.0 }))
    else if field == 1
    then some (record f { remark = v })
    else some f

set_face_fields : ℕ → List Bytes → FaceData → Option FaceData
unfolding set_face_field
set_face_fields field [] f = some f
set_face_fields field (v ∷ vs) f = do
  f' ← set_face_field field v f
  set_face_fields (suc field) vs f'

unfoldable pub read_faces : List Bytes → Option (List FaceData)
unfolding set_face_fields
read_faces [] = some []
read_faces (l ∷ ls) =
    let later = read_faces ls in
    let read = (do f ← set_face_fields 0 (tab_fields l) no_face; fs ← later; some (f ∷ fs)) in
    if is_empty l then later else read

unfoldable pub parse_faces : Bytes → Option (List FaceData)
unfolding read_faces is_empty
parse_faces payload = read_faces (lines payload)

-- `key=value` lines, each handed to `set`; a line with no `=` is passed over.
module _ {A : Type 0} (set : Bytes → Bytes → A → Option A) where
  set_at : Bytes → Option ℕ → A → Option A
  set_at line none a = some a
  set_at line (some eq) a = set (substr 0 eq line) (substr_from (eq + 1) line) a

  unfoldable pub read_pairs : List Bytes → A → Option A
  unfolding set_at
  read_pairs [] a = some a
  read_pairs (l ∷ ls) a = do a' ← set_at l (find b'=' l) a; read_pairs ls a'

abbrev is_one : Bytes → Bool
is_one v = same v (text "1")

set_dll_field : Bytes → Bytes → DllStatus → Option DllStatus
set_dll_field key v d =
    if same key (text "is_injected")
    then some (record d { is_injected = is_one v })
    else if same key (text "is_registry_configured")
    then some (record d { is_registry_configured = is_one v })
    else if same key (text "source_path")
    then some (record d { source_path = v })
    else if same key (text "target_path")
    then some (record d { target_path = v })
    else if same key (text "source_hash")
    then some (record d { source_hash = v })
    else if same key (text "target_hash")
    then some (record d { target_hash = v })
    else if same key (text "source_version")
    then some (record d { source_version = v })
    else if same key (text "target_version")
    then some (record d { target_version = v })
    else some d

unfoldable pub parse_dll_status : Bytes → Option DllStatus
unfolding set_dll_field read_pairs
parse_dll_status payload = read_pairs set_dll_field (lines payload) no_dll_status

module _ {F : Type 0} (ops : FloatOps F) where
  set_result_field : Bytes → Bytes → RecognitionResult F → Option (RecognitionResult F)
  set_result_field key v r =
      if same key (text "success")
      then some (record r { success = is_one v })
      else if same key (text "username")
      then some (record r { username = v })
      else if same key (text "confidence")
      then (do x ← ops.stof v; some (record r { confidence = x.0 }))
      else if same key (text "error_message")
      then some (record r { error_message = v })
      else some r

  unfoldable pub parse_recognition_result : Bytes → Option (RecognitionResult F)
  unfolding set_result_field read_pairs
  parse_recognition_result payload = read_pairs set_result_field (lines payload) (no_result ops)

  set_config_field : Bytes → Bytes → FaceRecognizerConfig F → Option (FaceRecognizerConfig F)
  set_config_field key v c =
      if same key (text "camera")
      then (do i ← stoi v; some (record c { camera = i.0 }))
      else if same key (text "liveness")
      then some (record c { liveness = is_one v })
      else if same key (text "face_threshold")
      then (do x ← ops.stof v; some (record c { face_threshold = x.0 }))
      else if same key (text "liveness_threshold")
      then (do x ← ops.stof v; some (record c { liveness_threshold = x.0 }))
      else if same key (text "debug")
      then some (record c { debug = is_one v })
      else if same key (text "language")
      then some (record c { language = v })
      else some c

  unfoldable pub parse_recognizer_config : Bytes → Option (FaceRecognizerConfig F)
  unfolding set_config_field read_pairs
  parse_recognizer_config payload = read_pairs set_config_field (lines payload) (default_config ops)
