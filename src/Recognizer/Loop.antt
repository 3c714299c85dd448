-- ===== src/Recognizer/Loop.antt =====
-- recognizeFace: the loop over the camera's frames. The camera and the recogniser are what each
-- round finds; the debug output and the flag `stop_requested`, which nothing sets, are left out.
pub mod Ends
use smile2unlock_v.Base.{
  ℕ, zero, suc, ◌+◌, ◌*◌, ◌≤◌, ◌<◌, ◌≡◌, refl, ap, List, [], ◌∷◌, ◌++◌, Bool, true, false, not,
  ◌&&◌, ◌||◌, Option, none, some, arith, ltb, leb, if◌then◌else◌, All, length, Bool-cases, inl, inr,
}
use smile2unlock_v.Base.Text.{Bytes, is_empty}
use smile2unlock_v.Udp.Packets.{RecognitionStatus, recognizing, success, timeout}
use smile2unlock_v.Recognizer.Hex.{encode_bytes_to_hex}

-- A capture that fails, or a frame: whether a face is detected in it, the bytes of its features if
-- they can be extracted, and whether the face is real.
pub data Round : Type 0 where
  no_frame : Round
  frame : (detected : Bool) → (features : Option Bytes) → (is_real : Bool) → Round

-- What is sent, in order, and whether the loop has ended.
pub record Recognition : Type 0 where
  pub sent : List (RecognitionStatus × Bytes)
  pub ended : Bool

abbrev send : RecognitionStatus → Bytes → Recognition → Recognition
send status feature r = record r { sent = (status, feature) ∷ r.sent }

-- The feature that a frame gives, as hex.
unfoldable pub frame_feature : Bool → Bool → Option Bytes → Bool → Option Bytes
frame_feature liveness_detection false features is_real = none
frame_feature liveness_detection true none is_real = none
frame_feature liveness_detection true (some features) is_real =
    if liveness_detection && not is_real
    then none
    else if is_empty (encode_bytes_to_hex features)
    then none
    else some (encode_bytes_to_hex features)

-- Behind the loop.
unfoldable pub finish : Bool → Recognition
finish recognition_success =
    if recognition_success
    then record { sent = []; ended = true }
    else record { sent = (timeout, []) ∷ []; ended = true }

unfoldable pub sent_feature : Option Bytes → (Bool → Recognition) → Recognition
sent_feature none rest = rest false
sent_feature (some feature) rest = send success feature (rest true)

unfoldable pub recognize_rounds : Bool → Bool → ℕ → List Round → Recognition
unfolding finish sent_feature frame_feature
recognize_rounds liveness_detection recognition_success used_time [] = record {
  sent = [];
  ended = false;
}
recognize_rounds liveness_detection recognition_success used_time (no_frame ∷ rounds) =
    recognize_rounds liveness_detection recognition_success (used_time + 10) rounds
recognize_rounds liveness_detection recognition_success used_time
      (frame detected features is_real ∷ rounds) =
    let rest = λ (b : Bool). recognize_rounds liveness_detection b used_time rounds in
    if recognition_success || leb 10000 used_time
    then finish recognition_success
    else sent_feature (frame_feature liveness_detection detected features is_real) rest

unfoldable pub recognize_face : Bool → List Round → Recognition
unfolding recognize_rounds
recognize_face liveness_detection rounds =
    send recognizing [] (recognize_rounds liveness_detection false 0 rounds)
