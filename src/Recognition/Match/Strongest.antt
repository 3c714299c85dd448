-- ===== src/Recognition/Match/Strongest.antt =====
-- The best is a best: no compared face is more like the probe, and one that is like enough is found.
use smile2unlock_v.Base.{
  subst, ◌≡◌, ◌⊎◌, inl, inr, refl, List, [], ◌∷◌, true, false, Option, some, arith, Bool-cases,
}
use mathlib.Core.List.{Memᴰ}
use mathlib.Core.List.Memᴰ.{head, tail}
use smile2unlock_v.Base.Text.{Bytes, text, is_empty}
use smile2unlock_v.Gui.Float.{FloatOps}
use smile2unlock_v.Gui.Models.{FaceData, User}
use smile2unlock_v.Recognition.Match.{
  Database, Best, keep_better, compare_faces, compare_users, no_best, threshold_of, accept_best,
  resolve_probe, resolve_recognized_username,
}
use smile2unlock_v.Recognition.Match.Folds.{compare_faces-P, compare_users-P}

-- What IEEE floats have, NaN included: a < b is false when one of them is NaN.
pub record IsFloatOrder {F : Type 0} (ops : FloatOps F) : Type 0 where
  pub irreflexive : (a : F) → ops.less a a ≡ false
  pub keeps : (a b c : F) → ops.less a b ≡ true → ops.less a c ≡ false → ops.less b c ≡ false
  pub splits :
      (z s a b : F)
      → ops.less z s ≡ true
      → ops.less a b ≡ true
      → (ops.less a s ≡ true) ⊎ (ops.less s b ≡ true)

module _ {F : Type 0} (ops : FloatOps F) (order : IsFloatOrder ops)
    (compare : Bytes → Bytes → Option F) (probe : Bytes) where
  -- A similarity that the best is not below stays so.
  stays-faces :
      (s : F) (username : Bytes) (faces : List FaceData) (best : Best F)
      → ops.less best.similarity s ≡ false
      → ops.less (compare_faces ops compare probe username faces best).similarity s ≡ false
  stays-faces s username faces best h =
      compare_faces-P ops compare probe (λ b. ops.less b.similarity s ≡ false) username faces best
        (λ f s' b mem filled c l p. order.keeps b.similarity s' s l p) h

  stays-users :
      (s : F) (users : List User) (best : Best F)
      → ops.less best.similarity s ≡ false
      → ops.less (compare_users ops compare probe users best).similarity s ≡ false
  stays-users s users best h =
      compare_users-P ops compare probe (λ b. ops.less b.similarity s ≡ false) users best
        (λ u f s' b listed mem filled c l p. order.keeps b.similarity s' s l p) h

  keep_better-not_below :
      (username : Bytes) (s : F) (best : Best F)
      → ops.less (keep_better ops compare username (some s) best).similarity s ≡ false
  unfolding keep_better
  keep_better-not_below username s best = elim (Bool-cases (ops.less best.similarity s)) [
    | inl l ↦ rw l (order.irreflexive s)
    | inr l ↦ rw l l
  ]

  compare_faces-strongest :
      (username : Bytes) (face : FaceData) (s : F) (faces : List FaceData) (best : Best F)
      → Memᴰ face faces
      → is_empty face.feature ≡ false
      → compare probe face.feature ≡ some s
      → ops.less (compare_faces ops compare probe username faces best).similarity s ≡ false
  unfolding compare_faces
  compare_faces-strongest username face s [] best m filled c = elim m [ ]
  compare_faces-strongest username face s (x ∷ faces) best (head e) filled c =
      let same_feature : face.feature ≡ x.feature = λ i. (e i).feature in
      stays-faces s username faces _
        (rw (← same_feature, filled, c) (keep_better-not_below username s best))
  compare_faces-strongest username face s (x ∷ faces) best (tail m) filled c =
      compare_faces-strongest username face s faces _ m filled c

  -- The best similarity that comes out of the comparison is not below the similarity of any face of
  -- a compared user that has a feature, from whatever best it starts.
  compare_users-strongest :
      (user : User) (face : FaceData) (s : F) (users : List User) (best : Best F)
      → Memᴰ user users
      → Memᴰ face user.faces
      → is_empty face.feature ≡ false
      → compare probe face.feature ≡ some s
      → ops.less (compare_users ops compare probe users best).similarity s ≡ false
  unfolding compare_users
  compare_users-strongest user face s [] best m enrolled filled c = elim m [ ]
  compare_users-strongest user face s (x ∷ users) best (head e) enrolled filled c =
      stays-users s users _ (
        compare_faces-strongest x.username face s x.faces best
          (subst (λ u. Memᴰ face u.faces) e enrolled) filled c)
  compare_users-strongest user face s (x ∷ users) best (tail m) enrolled filled c =
      compare_users-strongest user face s users _ m enrolled filled c

  -- A positive similarity among users with names gives the best a name.
  compare_users-named :
      (user : User) (face : FaceData) (s : F) (users : List User)
      → ((u : User) → Memᴰ u users → is_empty u.username ≡ false)
      → Memᴰ user users
      → Memᴰ face user.faces
      → is_empty face.feature ≡ false
      → compare probe face.feature ≡ some s
      → ops.less (ops.literal (text "0")) s ≡ true
      → is_empty (compare_users ops compare probe users (no_best ops compare)).username ≡ false
  compare_users-named user face s users named listed enrolled filled c positive =
      elim (compare_users-P ops compare probe
        (λ b. (is_empty b.username ≡ false) ⊎ (b.similarity ≡ ops.literal (text "0"))) users
        (no_best ops compare) (λ u f s' b mem en fl cm l p. inl (named u mem)) (inr refl)) [
          | inl h ↦ h
          | inr zero_best ↦ absurd (
              ground (
                arith,
                zero_best,
                positive,
                compare_users-strongest user face s users (no_best ops compare) listed enrolled
                    filled c,
              ))
        ]

  accept_best-granted :
      (face_threshold : F) (username_hint : Bytes) (s : F) (best : Best F)
      → is_empty best.username ≡ false
      → ops.less (ops.literal (text "0")) s ≡ true
      → ops.less best.similarity s ≡ false
      → ops.less s (threshold_of ops compare face_threshold) ≡ false
      → is_empty (accept_best ops compare face_threshold username_hint best).username ≡ false
  unfolding accept_best
  accept_best-granted t hint s best named positive stronger enough =
      let threshold = threshold_of ops compare t in
      elim (Bool-cases (ops.less best.similarity threshold)) [
        | inl l ↦
            elim (order.splits (ops.literal (text "0")) s best.similarity threshold positive l) [
              | inl below ↦ absurd (ground (arith, below, stronger))
              | inr below ↦ absurd (ground (arith, below, enough))
            ]
        | inr l ↦ rw (named, l) named
      ]

  -- Without a hint and with a probe that is not empty: if no user's name is empty and an enrolled
  -- face has a positive similarity to the probe that is not below the threshold, then a name is
  -- returned. The order of the floats is assumed to have what IEEE 754 gives it, NaN included.
  pub resolve_recognized_username_complete :
      (database : Database) (face_threshold : F) (user : User) (face : FaceData) (s : F)
      → is_empty probe ≡ false
      → ((u : User) → Memᴰ u database.get_all_users → is_empty u.username ≡ false)
      → Memᴰ user database.get_all_users
      → Memᴰ face user.faces
      → is_empty face.feature ≡ false
      → compare probe face.feature ≡ some s
      → ops.less (ops.literal (text "0")) s ≡ true
      → ops.less s (threshold_of ops compare face_threshold) ≡ false
      → is_empty
          (resolve_recognized_username ops compare (some database) face_threshold probe []).username
        ≡ false
  unfolding resolve_recognized_username resolve_probe is_empty
  resolve_recognized_username_complete database t user face s probed named listed enrolled filled c
        positive enough =
      let users = database.get_all_users in
      rw probed (
        accept_best-granted t [] s (compare_users ops compare probe users (no_best ops compare))
          (compare_users-named user face s users named listed enrolled filled c positive) positive
          (compare_users-strongest user face s users (no_best ops compare) listed enrolled filled c)
          enough)
