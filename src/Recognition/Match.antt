-- ===== src/Recognition/Match.antt =====
-- resolve_recognized_username: the user whose enrolled face is most like the one in front of the
-- camera. `compare` is compare_features_on_su.
pub mod Folds
pub mod Sound
pub mod Strongest
use smile2unlock_v.Base.{
  ℕ, ◌≡◌, List, [], ◌∷◌, Bool, true, false, not, ◌&&◌, Option, none, some, if◌then◌else◌,
}
use smile2unlock_v.Base.Text.{Bytes, text, same, is_empty}
use smile2unlock_v.Gui.Float.{FloatOps}
use smile2unlock_v.Gui.Models.{FaceData, User}

-- What the manager uses of the database.
pub record Database : Type 0 where
  pub get_all_users : List User
  pub get_user_by_username : Bytes → Option User
  pub decrypt_password : Bytes → Bytes

-- `best_similarity` and `best_username`.
pub record Best (F : Type 0) : Type 0 where
  pub similarity : F
  pub username : Bytes

-- The name that is returned, `error_message`, and the new `last_result_.confidence` if it is set.
pub record Resolved (F : Type 0) : Type 0 where
  pub username : Bytes
  pub error_message : Bytes
  pub confidence : Option F

module _ {F : Type 0} (ops : FloatOps F) (compare : Bytes → Bytes → Option F) where
  unfoldable pub keep_better : Bytes → Option F → Best F → Best F
  keep_better username none best = best
  keep_better username (some similarity) best =
      if ops.less best.similarity similarity
      then record { similarity = similarity; username = username }
      else best

  unfoldable pub compare_faces : Bytes → Bytes → List FaceData → Best F → Best F
  unfolding keep_better
  compare_faces probe username [] best = best
  compare_faces probe username (face ∷ faces) best = compare_faces probe username faces (
      if is_empty face.feature
      then best
      else keep_better username (compare probe face.feature) best)

  unfoldable pub compare_users : Bytes → List User → Best F → Best F
  unfolding compare_faces
  compare_users probe [] best = best
  compare_users probe (user ∷ users) best =
      compare_users probe users (compare_faces probe user.username user.faces best)

  abbrev pub no_best : Best F
  no_best = record { similarity = ops.literal (text "0"); username = [] }

  abbrev pub refuse : Bytes → Resolved F
  refuse message = record { username = []; error_message = message; confidence = none }

  unfoldable pub threshold_of : F → F
  threshold_of face_threshold =
      if ops.less (ops.literal (text "0")) face_threshold
      then face_threshold
      else ops.literal (text "0.62")

  -- From the tests that follow the comparison.
  unfoldable pub accept_best : F → Bytes → Best F → Resolved F
  unfolding threshold_of
  accept_best face_threshold username_hint best =
      if is_empty best.username
      then refuse (if is_empty username_hint then text "未找到匹配的人脸用户" else text "指定用户没有匹配的人脸特征")
      else if ops.less best.similarity (threshold_of face_threshold)
      then refuse (text "匹配分数不足，拒绝识别")
      else record {
        username = best.username;
        error_message = [];
        confidence = some best.similarity;
      }

  -- A match of the hinted user goes under that name.
  unfoldable pub accept_hinted : F → Bytes → Best F → Resolved F
  unfolding accept_best
  accept_hinted face_threshold username_hint best =
      if not (is_empty best.username) && not (same best.username username_hint)
      then refuse (text "识别结果与指定用户不匹配")
      else accept_best face_threshold username_hint best

  unfoldable pub refuse_unknown : Best F → Resolved F
  refuse_unknown best =
      if not (is_empty best.username)
      then refuse (text "用户名无效但检测到人脸匹配 - 疑似攻击尝试")
      else refuse (text "指定用户不存在")

  unfoldable pub resolve_hinted : Database → F → Bytes → Bytes → Option User → Resolved F
  unfolding compare_users accept_hinted refuse_unknown
  resolve_hinted database face_threshold probe username_hint none =
      refuse_unknown (compare_users probe database.get_all_users no_best)
  resolve_hinted database face_threshold probe username_hint (some user) =
      accept_hinted face_threshold username_hint (compare_users probe (user ∷ []) no_best)

  unfoldable pub resolve_probe : Database → F → Bytes → Bytes → Resolved F
  unfolding resolve_hinted compare_users accept_best
  resolve_probe database face_threshold probe username_hint =
      if not (is_empty username_hint)
      then resolve_hinted database face_threshold probe username_hint
          (database.get_user_by_username username_hint)
      else accept_best face_threshold username_hint
          (compare_users probe database.get_all_users no_best)

  unfoldable pub resolve_recognized_username : Option Database → F → Bytes → Bytes → Resolved F
  unfolding resolve_probe
  resolve_recognized_username none face_threshold probe username_hint = refuse (text "识别数据库未初始化")
  resolve_recognized_username (some database) face_threshold probe username_hint =
      if is_empty probe
      then refuse (text "识别结果特征为空")
      else resolve_probe database face_threshold probe username_hint
