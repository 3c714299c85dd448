-- ===== src/Recognition/Match/Sound.antt =====
-- A name is given only for an enrolled face that is like enough.
use smile2unlock_v.Base.{
  subst, ◌≡◌, ◌⊎◌, inl, inr, refl, ◌∙◌, List, [], ◌∷◌, Bool, true, false, Option, none, some, arith,
  if◌then◌else◌, Bool-cases,
}
use smile2unlock_v.Base.Text.{Bytes, text, same_iff, is_empty}
use smile2unlock_v.Gui.Float.{FloatOps}
use smile2unlock_v.Gui.Models.{User}
use smile2unlock_v.Recognition.Match.{
  Database, Best, Resolved, refuse, refuse_unknown, accept_hinted, compare_users, no_best,
  threshold_of, accept_best, resolve_hinted, resolve_probe, resolve_recognized_username,
}
use smile2unlock_v.Recognition.Match.Folds.{IsMatch, compare_users-IsMatch}

-- The users that a hint lets in.
hinted : Option User → List User
hinted none = []
hinted (some user) = user ∷ []

unfoldable pub candidates : Database → Bytes → List User
unfolding hinted
candidates database username_hint =
    if is_empty username_hint
    then database.get_all_users
    else hinted (database.get_user_by_username username_hint)

module _ {F : Type 0} (ops : FloatOps F) (compare : Bytes → Bytes → Option F) (probe : Bytes) where
  -- What a granted name rests on.
  pub record IsGranted (o : Option Database) (face_threshold : F) (username_hint : Bytes)
      (r : Resolved F) : Type 0 where
    pub database : Database
    pub present : o ≡ some database
    pub similarity : F
    pub kept : r.confidence ≡ some similarity
    pub enough : ops.less similarity (threshold_of ops compare face_threshold) ≡ false
    pub match : IsMatch ops compare probe (candidates database username_hint) similarity r.username
    pub as_hinted : (is_empty username_hint ≡ true) ⊎ (r.username ≡ username_hint)
    pub silent : r.error_message ≡ []

  if_refused :
      (b : Bool) (message : Bytes) (r : Resolved F)
      → is_empty (if b then refuse ops compare message else r).username ≡ false
      → (b ≡ false) × ((if b then refuse ops compare message else r) ≡ r)
  unfolding is_empty
  if_refused true message r e = absurd (ground (arith, e))
  if_refused false message r e = (refl, refl)

  -- The tests behind the comparison let the best through as it is, or give no name.
  accept_best-cases :
      (face_threshold : F) (username_hint : Bytes) (best : Best F)
      → let r = accept_best ops compare face_threshold username_hint best in
        is_empty r.username ≡ false
        → (is_empty best.username ≡ false)
          × (ops.less best.similarity (threshold_of ops compare face_threshold) ≡ false)
          × (r ≡ record {
            username = best.username;
            error_message = [];
            confidence = some best.similarity;
          })
  unfolding accept_best
  accept_best-cases t hint best e =
      let (u, e1) = if_refused _ _ _ e in
      let (l, e2) = if_refused _ _ _ (subst (λ r. is_empty r.username ≡ false) e1 e) in
      (u, l, e1 ∙ e2)

  IsGranted-best :
      (database : Database) (face_threshold : F) (username_hint : Bytes) (users : List User)
      → candidates database username_hint ≡ users
      → let best = compare_users ops compare probe users (no_best ops compare) in
        let r = accept_best ops compare face_threshold username_hint best in
        is_empty r.username ≡ false
        → (is_empty username_hint ≡ true) ⊎ (best.username ≡ username_hint)
        → IsGranted (some database) face_threshold username_hint r
  IsGranted-best database t hint users those e as_hinted =
      let best = compare_users ops compare probe users (no_best ops compare) in
      let (u, l, granted) = accept_best-cases t hint best e in
      rw granted (elim (compare_users-IsMatch ops compare probe users) [
        | inl empty ↦ absurd (ground (arith, empty, u))
        | inr match ↦ record {
          database = database;
          present = refl;
          similarity = best.similarity;
          kept = refl;
          enough = l;
          match = rw those match;
          as_hinted = as_hinted;
          silent = refl;
        }
      ])

  candidates-hinted :
      (database : Database) (username_hint : Bytes) (user : User)
      → database.get_user_by_username username_hint ≡ some user
      → is_empty username_hint ≡ false
      → candidates database username_hint ≡ user ∷ []
  unfolding candidates
  candidates-hinted database hint user found given = rw (given, found) refl

  refuse_unknown-lem : (best : Best F) → is_empty (refuse_unknown ops compare best).username ≡ true
  unfolding refuse_unknown is_empty
  refuse_unknown-lem best = ground arith

  accept_hinted-cases :
      (face_threshold : F) (username_hint : Bytes) (best : Best F)
      → let r = accept_hinted ops compare face_threshold username_hint best in
        is_empty r.username ≡ false
        → (best.username ≡ username_hint)
          × (r ≡ accept_best ops compare face_threshold username_hint best)
  unfolding accept_hinted
  accept_hinted-cases t hint best e =
      let (same_name, passed) = if_refused _ _ _ e in
      let (u, l, granted) =
        accept_best-cases t hint best (subst (λ r. is_empty r.username ≡ false) passed e) in
      ((same_iff best.username hint).0 (ground (arith, same_name, u)), passed)

  resolve_hinted_sound :
      (database : Database) (face_threshold : F) (username_hint : Bytes) (o : Option User)
      → database.get_user_by_username username_hint ≡ o
      → is_empty username_hint ≡ false
      → let r = resolve_hinted ops compare database face_threshold probe username_hint o in
        is_empty r.username ≡ false → IsGranted (some database) face_threshold username_hint r
  unfolding resolve_hinted
  resolve_hinted_sound database t hint none found given e = absurd (
      ground (
        arith,
        refuse_unknown-lem
            (compare_users ops compare probe database.get_all_users (no_best ops compare)),
        e,
      ))
  resolve_hinted_sound database t hint (some user) found given e =
      let best = compare_users ops compare probe (user ∷ []) (no_best ops compare) in
      let (as_hinted, passed) = accept_hinted-cases t hint best e in
      rw passed (
        IsGranted-best database t hint (user ∷ [])
          (candidates-hinted database hint user found given)
          (subst (λ r. is_empty r.username ≡ false) passed e) (inr as_hinted))

  candidates-all :
      (database : Database) (username_hint : Bytes)
      → is_empty username_hint ≡ true
      → candidates database username_hint ≡ database.get_all_users
  unfolding candidates
  candidates-all database hint none_given = rw none_given refl

  resolve_probe_sound :
      (database : Database) (face_threshold : F) (username_hint : Bytes)
      → let r = resolve_probe ops compare database face_threshold probe username_hint in
        is_empty r.username ≡ false → IsGranted (some database) face_threshold username_hint r
  unfolding resolve_probe accept_best
  resolve_probe_sound database t hint e = elim (Bool-cases (is_empty hint)) [
    | inl none_given ↦
        (let passed = when_empty none_given in
          rw passed (
            IsGranted-best database t hint database.get_all_users
              (candidates-all database hint none_given)
              (subst (λ r. is_empty r.username ≡ false) passed e) (inl none_given)))
    | inr given ↦
        (let passed = when_given given in
          rw passed (
            resolve_hinted_sound database t hint (database.get_user_by_username hint) refl given
              (subst (λ r. is_empty r.username ≡ false) passed e)))
  ]
    where
      when_empty :
          is_empty hint ≡ true
          → resolve_probe ops compare database t probe hint
            ≡ accept_best ops compare t hint
                (compare_users ops compare probe database.get_all_users (no_best ops compare))
      when_empty h = rw h refl

      when_given :
          is_empty hint ≡ false
          → resolve_probe ops compare database t probe hint
            ≡ resolve_hinted ops compare database t probe hint (database.get_user_by_username hint)
      when_given h = rw h refl

  -- If a name is returned, then there is a database, the name belongs to one of the users that the
  -- hint lets in, one of that user's faces has the similarity that is kept as the confidence, that
  -- similarity is not below the threshold, the name is the hint if a hint was given, and the error
  -- text is empty.
  pub resolve_recognized_username_sound :
      (database : Option Database) (face_threshold : F) (username_hint : Bytes)
      → let r =
          resolve_recognized_username ops compare database face_threshold probe username_hint in
        is_empty r.username ≡ false → IsGranted database face_threshold username_hint r
  unfolding resolve_recognized_username is_empty
  resolve_recognized_username_sound none t hint e = absurd (ground (arith, e))
  resolve_recognized_username_sound (some database) t hint e =
      let (filled, passed) =
        if_refused (is_empty probe) (text "识别结果特征为空")
          (resolve_probe ops compare database t probe hint) e in
      rw passed
        (resolve_probe_sound database t hint (subst (λ r. is_empty r.username ≡ false) passed e))
