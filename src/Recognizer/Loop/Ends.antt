-- ===== src/Recognizer/Loop/Ends.antt =====
-- What a recognition reports, and when it ends.
use smile2unlock_v.Base.{
  ℕ, zero, suc, ◌+◌, ◌*◌, ◌≤◌, ◌<◌, ◌≡◌, inl, inr, refl, ap, ◌∙◌, List, [], ◌∷◌, ◌++◌, Bool, true,
  false, not, ◌&&◌, Option, none, some, arith, leb, All, Bool-cases, replicate,
}
use smile2unlock_v.Base.Text.{Bytes, is_empty}
use smile2unlock_v.Recognizer.Hex.{encode_bytes_to_hex}
use smile2unlock_v.Udp.Packets.{RecognitionStatus, recognizing, success, timeout}
use smile2unlock_v.Recognizer.Loop.{
  Round, no_frame, frame, frame_feature, finish, sent_feature, recognize_rounds, recognize_face,
}

-- After a success nothing more is sent.
sent-succeeded :
    (l : Bool) (used : ℕ) (rounds : List Round) → (recognize_rounds l true used rounds).sent ≡ []
unfolding recognize_rounds finish
sent-succeeded l used [] = refl
sent-succeeded l used (no_frame ∷ rounds) = sent-succeeded l (used + 10) rounds
sent-succeeded l used (frame detected features is_real ∷ rounds) = refl

-- A frame that shows a person: a face is detected, its features are bytes, and the face is real if
-- liveness detection is on.
pub data Shows (l : Bool) : Round → Bytes → Type 0 where
  shows :
      {is_real : Bool} (byte : ℕ) (more : Bytes)
      → (l ≡ true → is_real ≡ true)
      → Shows l (frame true (some (byte ∷ more)) is_real) (encode_bytes_to_hex (byte ∷ more))

-- A frame that shows none.
pub data IsUseless (l : Bool) : Round → Type 0 where
  no_face : {features : Option Bytes} {is_real : Bool} → IsUseless l (frame false features is_real)
  no_features : {is_real : Bool} → IsUseless l (frame true none is_real)
  no_bytes : {is_real : Bool} → IsUseless l (frame true (some []) is_real)
  not_real : {features : Bytes} → l ≡ true → IsUseless l (frame true (some features) false)

pub data IsSkipped (l : Bool) : Round → Type 0 where
  no_capture : IsSkipped l no_frame
  useless_frame : {round : Round} → IsUseless l round → IsSkipped l round

feature_none :
    {l detected is_real : Bool} {features : Option Bytes}
    → IsUseless l (frame detected features is_real)
    → frame_feature l detected features is_real ≡ none
unfolding frame_feature encode_bytes_to_hex is_empty
feature_none no_face = refl
feature_none no_features = refl
feature_none {l} {is_real} no_bytes = elim (Bool-cases (l && not is_real)) [
  | inl e ↦ rw e refl
  | inr e ↦ rw e refl
]
feature_none (not_real e) = rw e refl

-- A frame shows a person or none, and its feature tells which.
data Seen (l detected : Bool) (features : Option Bytes) (is_real : Bool) : Type 0 where
  unseen : IsUseless l (frame detected features is_real) → Seen l detected features is_real
  seen :
      (feature : Bytes)
      → Shows l (frame detected features is_real) feature
      → frame_feature l detected features is_real ≡ some feature
      → Seen l detected features is_real

Seen-cases :
    (l detected : Bool) (features : Option Bytes) (is_real : Bool)
    → Seen l detected features is_real
unfolding frame_feature encode_bytes_to_hex is_empty
Seen-cases l false features is_real = unseen no_face
Seen-cases l true none is_real = unseen no_features
Seen-cases l true (some []) is_real = unseen no_bytes
Seen-cases false true (some (byte ∷ more)) is_real =
    seen (encode_bytes_to_hex (byte ∷ more)) (shows byte more (λ e. cc)) refl
Seen-cases true true (some (byte ∷ more)) true =
    seen (encode_bytes_to_hex (byte ∷ more)) (shows byte more (λ e. refl)) refl
Seen-cases true true (some features) false = unseen (not_real refl)

-- What follows RECOGNIZING.
pub data IsReported (l : Bool) (rounds : List Round)
    : List (RecognitionStatus × Bytes) → Type 0 where
  nothing_yet : IsReported l rounds []
  timed_out : IsReported l rounds ((timeout, []) ∷ [])
  succeeded :
      (before : List Round) (round : Round) (after : List Round) {feature : Bytes}
      → rounds ≡ before ++ round ∷ after
      → All (IsSkipped l) before
      → Shows l round feature
      → IsReported l rounds ((success, feature) ∷ [])

later-IsReported :
    (l : Bool) (round : Round) (rounds : List Round) (sent : List (RecognitionStatus × Bytes))
    → IsSkipped l round
    → IsReported l rounds sent
    → IsReported l (round ∷ rounds) sent
later-IsReported l round rounds _ s nothing_yet = nothing_yet
later-IsReported l round rounds _ s timed_out = timed_out
later-IsReported l round rounds _ s (succeeded before at after e a f) =
    succeeded (round ∷ before) at after (ap (λ (r : List Round). round ∷ r) e) (s, a) f

rounds-IsReported :
    (l : Bool) (used : ℕ) (rounds : List Round)
    → IsReported l rounds (recognize_rounds l false used rounds).sent
unfolding recognize_rounds finish sent_feature
rounds-IsReported l used [] = nothing_yet
rounds-IsReported l used (no_frame ∷ rounds) =
    later-IsReported l no_frame rounds _ no_capture (rounds-IsReported l (used + 10) rounds)
rounds-IsReported l used (frame detected features is_real ∷ rounds) =
    elim (Bool-cases (leb 10000 used)) [
      | inl e ↦ rw e timed_out
      | inr e ↦ elim (Seen-cases l detected features is_real) [
        | unseen u ↦
            rw (e, feature_none u)
              (later-IsReported l _ rounds _ (useless_frame u) (rounds-IsReported l used rounds))
        | seen feature f n ↦
            rw (e, n, sent-succeeded l used rounds) (succeeded [] _ rounds refl tt f)
      ]
    ]

-- Whatever the camera and the recogniser give, RECOGNIZING is sent first, and then nothing yet, or
-- one TIMEOUT, or one SUCCESS with the hex digits of the features of a frame: a face is detected in
-- it, its features are one byte at least and, if liveness detection is on, the face is real. Before
-- that frame are only captures that fail, and frames with no face, with no features, with no bytes
-- of features or, if liveness detection is on, with a face that is not real.
pub recognize_face-IsReported :
    (l : Bool) (rounds : List Round)
    → (later : List (RecognitionStatus × Bytes)) × ((recognize_face l rounds).sent
        ≡ (recognizing, []) ∷ later)
      × IsReported l rounds later
unfolding recognize_face
recognize_face-IsReported l rounds = (_, refl, rounds-IsReported l 0 rounds)

useless-rounds :
    (l : Bool) (used : ℕ) (rounds later : List Round)
    → used < 10000
    → All (IsUseless l) rounds
    → recognize_rounds l false used (rounds ++ later) ≡ recognize_rounds l false used later
unfolding recognize_rounds sent_feature
useless-rounds l used [] later h u = refl
useless-rounds l used (no_frame ∷ rounds) later h u = absurd (elim u.0 [ ])
useless-rounds l used (frame detected features is_real ∷ rounds) later h u =
    let early : leb 10000 used ≡ false = ground arith in
    rw (early, feature_none u.0) (useless-rounds l used rounds later h u.1)

failed-rounds :
    (l : Bool) (n used : ℕ) (later : List Round)
    → recognize_rounds l false used (replicate n no_frame ++ later)
      ≡ recognize_rounds l false (used + 10 * n) later
unfolding recognize_rounds replicate
failed-rounds l zero used later = ap (λ u. recognize_rounds l false u later) (omega arith)
failed-rounds l (suc n) used later =
    failed-rounds l n (used + 10) later ∙ ap (λ u. recognize_rounds l false u later) (omega arith)

failed-waits :
    (l : Bool) (n used : ℕ)
    → recognize_rounds l false used (replicate n no_frame) ≡ record { sent = []; ended = false }
unfolding recognize_rounds replicate
failed-waits l zero used = refl
failed-waits l (suc n) used = failed-waits l n (used + 10)

frame-timeout :
    (l : Bool) (used : ℕ) (detected : Bool) (features : Option Bytes) (is_real : Bool)
    (later : List Round)
    → 10000 ≤ used
    → recognize_rounds l false used (frame detected features is_real ∷ later)
      ≡ record { sent = (timeout, []) ∷ []; ended = true }
unfolding recognize_rounds finish
frame-timeout l used detected features is_real later h =
    let late : leb 10000 used ≡ true = ground arith in rw late refl

-- No number of frames that give no feature, followed by no number of captures that fail, ends the
-- recognition: nothing is sent but RECOGNIZING.
pub recognize_face-waits :
    (l : Bool) (rounds : List Round) (n : ℕ)
    → All (IsUseless l) rounds
    → recognize_face l (rounds ++ replicate n no_frame)
      ≡ record { sent = (recognizing, []) ∷ []; ended = false }
unfolding recognize_face
recognize_face-waits l rounds n u =
    rw (useless-rounds l 0 rounds (replicate n no_frame) (omega arith) u, failed-waits l n 0) refl

-- After any number of frames that give no feature and at least 1000 captures that fail, the next
-- frame ends the recognition with a TIMEOUT, whatever it shows.
recognize_face-timeout :
    (l : Bool) (rounds : List Round) (n : ℕ) (detected : Bool) (features : Option Bytes)
    (is_real : Bool) (later : List Round)
    → All (IsUseless l) rounds
    → 1000 ≤ n
    → recognize_face l (rounds ++ (replicate n no_frame ++ frame detected features is_real ∷ later))
      ≡ record { sent = (recognizing, []) ∷ (timeout, []) ∷ []; ended = true }
unfolding recognize_face
recognize_face-timeout l rounds n detected features is_real later u enough =
    rw
      (
        useless-rounds l 0 rounds (replicate n no_frame ++ frame detected features is_real ∷ later)
            (omega arith) u,
        failed-rounds l n 0 (frame detected features is_real ∷ later),
        frame-timeout l (0 + 10 * n) detected features is_real later (omega arith),
      )
      refl
