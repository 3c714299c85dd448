-- ===== src/Recognition/Match/Folds.antt =====
-- The comparison of all faces as a fold: what it keeps and where its best comes from.
use smile2unlock_v.Base.{
  ◌≡◌, ◌⊎◌, inl, inr, refl, List, [], ◌∷◌, true, false, Option, some, Bool-cases, Option-cases,
}
use mathlib.Core.List.{Memᴰ}
use mathlib.Core.List.Memᴰ.{head, tail}
use smile2unlock_v.Base.Text.{Bytes, is_empty}
use smile2unlock_v.Gui.Float.{FloatOps}
use smile2unlock_v.Gui.Models.{FaceData, User}
use smile2unlock_v.Recognition.Match.{Best, keep_better, compare_faces, compare_users, no_best}

module _ {F : Type 0} (ops : FloatOps F) (compare : Bytes → Bytes → Option F) (probe : Bytes) where
  -- An enrolled face of one of the users that has this similarity to the probe.
  pub record IsMatch (users : List User) (similarity : F) (username : Bytes) : Type 0 where
    pub user : User
    pub face : FaceData
    pub listed : Memᴰ user users
    pub enrolled : Memᴰ face user.faces
    pub filled : is_empty face.feature ≡ false
    pub compared : compare probe face.feature ≡ some similarity
    pub named : username ≡ user.username

  -- What holds of the start and of every face that is better than the best before it.
  module _ (P : Best F → Type 0) where
    keep_better-P :
        (username feature : Bytes) (best : Best F)
        → ((s : F)
            → compare probe feature ≡ some s
            → ops.less best.similarity s ≡ true
            → P (record { similarity = s; username = username }))
        → P best
        → P (keep_better ops compare username (compare probe feature) best)
    unfolding keep_better
    keep_better-P username feature best step p = elim (Option-cases (compare probe feature)) [
      | inl e ↦ rw e p
      | inr (s, e) ↦ elim (Bool-cases (ops.less best.similarity s)) [
        | inl l ↦ rw (e, l) (step s e l)
        | inr l ↦ rw (e, l) p
      ]
    ]

    pub compare_faces-P :
        (username : Bytes) (faces : List FaceData) (best : Best F)
        → ((face : FaceData) (s : F) (best : Best F)
            → Memᴰ face faces
            → is_empty face.feature ≡ false
            → compare probe face.feature ≡ some s
            → ops.less best.similarity s ≡ true
            → P best
            → P (record { similarity = s; username = username }))
        → P best
        → P (compare_faces ops compare probe username faces best)
    unfolding compare_faces
    compare_faces-P username [] best step p = p
    compare_faces-P username (face ∷ faces) best step p =
        let later = λ (b : Best F) (p' : P b).
          compare_faces-P username faces b (λ f s c mem. step f s c (tail mem)) p' in
        elim (Bool-cases (is_empty face.feature)) [
          | inl e ↦ rw e (later best p)
          | inr e ↦ rw e (
              later _ (
                keep_better-P username face.feature best
                  (λ s c l. step face s best (head refl) e c l p) p))
        ]

    pub compare_users-P :
        (users : List User) (best : Best F)
        → ((user : User) (face : FaceData) (s : F) (best : Best F)
            → Memᴰ user users
            → Memᴰ face user.faces
            → is_empty face.feature ≡ false
            → compare probe face.feature ≡ some s
            → ops.less best.similarity s ≡ true
            → P best
            → P (record { similarity = s; username = user.username }))
        → P best
        → P (compare_users ops compare probe users best)
    unfolding compare_users
    compare_users-P [] best step p = p
    compare_users-P (user ∷ users) best step p =
        compare_users-P users _ (λ u f s b mem. step u f s b (tail mem))
          (compare_faces-P user.username user.faces best (λ f s b. step user f s b (head refl)) p)

  -- The best of a list of users is an enrolled face, or there is none.
  pub compare_users-IsMatch :
      (users : List User)
      → let best = compare_users ops compare probe users (no_best ops compare) in
        (is_empty best.username ≡ true) ⊎ IsMatch users best.similarity best.username
  unfolding is_empty
  compare_users-IsMatch users =
      compare_users-P
        (λ best. (is_empty best.username ≡ true) ⊎ IsMatch users best.similarity best.username)
        users (no_best ops compare)
        (λ u f s b mem enrolled filled c l p. inr (record {
          user = u;
          face = f;
          listed = mem;
          enrolled = enrolled;
          filled = filled;
          compared = c;
          named = refl;
        }))
        (inl refl)
