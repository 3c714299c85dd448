-- ===== src/Tests/Recognizer.antt =====
-- A capture, and a recognition that succeeds, one that waits and one that gives up.
use smile2unlock_v.Base.{
  ℕ, ◌+◌, ◌<◌, ◌≡◌, refl, List, [], ◌∷◌, ◌++◌, true, false, none, some, arith, All, replicate, ◌==◌,
  if◌then◌else◌,
}
use smile2unlock_v.Base.Text.{Bytes, text, is_empty}
use smile2unlock_v.Udp.Packets.{RecognitionStatus, recognizing, success}
use smile2unlock_v.Base.Decimal.{pos, stoi}
use smile2unlock_v.Udp.Memory.{zeros}
use smile2unlock_v.Capture.Frame.{SharedFrame, max_image_bytes, max_feature_bytes}
use smile2unlock_v.Capture.Writer.{
  Image, Scene, features, is_positive, image_size, capture_image_to_shared_memory,
}
use smile2unlock_v.Capture.Reader.{capture_shared_payload}
use smile2unlock_v.Capture.Agreement.{IsPictured, expected, capture_shared_payload-expected}
use smile2unlock_v.Recognizer.Hex.{encode_bytes_to_hex}
use smile2unlock_v.Recognizer.Loop.{Round, no_frame, frame, recognize_face}
use smile2unlock_v.Gui.Models.{FaceRecognizerConfig}
use smile2unlock_v.Recognizer.Modes.{
  Arguments, main_optimized, load_config, recognition, capture, compare_features, printed,
  compare_features-encode,
}
use smile2unlock_v.Tests.Fixtures.{float_ops}
use smile2unlock_v.Recognizer.Loop.Ends.{
  IsReported, IsUseless, no_face, not_real, recognize_face-IsReported, recognize_face-waits,
}

abbrev bytes : Bytes
bytes = 0 ∷ 63 ∷ 128 ∷ 255 ∷ []

bytes-small : All (λ x. x < 256) bytes
bytes-small = (omega arith, (omega arith, (omega arith, (omega arith, tt))))

encode-bytes : encode_bytes_to_hex bytes ≡ text "003F80FF"
unfolding encode_bytes_to_hex
encode-bytes = refl

-- A photograph, a failed capture, and the person.
abbrev rounds : List Round
rounds = frame true (some bytes) false ∷ no_frame ∷ frame true (some bytes) true ∷ []

recognize_face-rounds :
    (recognize_face true rounds).sent ≡ (recognizing, []) ∷ (success, text "003F80FF") ∷ []
unfolding recognize_face encode_bytes_to_hex is_empty
recognize_face-rounds = refl

recognize_face-IsReported_example :
    (later : List (RecognitionStatus × Bytes)) × ((recognize_face true rounds).sent
      ≡ (recognizing, []) ∷ later)
    × IsReported true rounds later
recognize_face-IsReported_example = recognize_face-IsReported true rounds

abbrev photographs : List Round
photographs = frame true (some bytes) false ∷ frame false none true ∷ []

photographs-IsUseless : All (IsUseless true) photographs
photographs-IsUseless = (not_real refl, (no_face, tt))

recognize_face-waits_example :
    recognize_face true (photographs ++ replicate 5000 no_frame)
    ≡ record { sent = (recognizing, []) ∷ []; ended = false }
recognize_face-waits_example = recognize_face-waits true photographs 5000 photographs-IsUseless

-- Two pixels of three channels.
abbrev image : Image
image = record {
  pixels = 1 ∷ 2 ∷ 3 ∷ 4 ∷ 5 ∷ 6 ∷ [];
  width = pos 2;
  height = pos 1;
  channels = pos 3;
}

abbrev scene : Scene
scene = record {
  mapped = true;
  camera_initialized = true;
  picture = some image;
  extracted = features bytes;
}

abbrev mapping : SharedFrame
mapping = record {
  magic = 0;
  version = 0;
  status_code = pos 0;
  width = pos 0;
  height = pos 0;
  channels = pos 0;
  image_bytes = 0;
  feature_bytes = 0;
  body = zeros (max_image_bytes + max_feature_bytes);
}

scene-IsPictured : IsPictured scene image
unfolding is_positive image_size
scene-IsPictured = record {
  mapped = refl;
  camera = refl;
  picture = refl;
  wide = refl;
  high = refl;
  sized = refl;
  filled = omega arith;
  fits = omega arith;
}

capture_shared_payload-expected_example :
    capture_shared_payload true none
      (capture_image_to_shared_memory true scene)
      (text "failed")
      []
      mapping
    ≡ expected image (features bytes)
capture_shared_payload-expected_example =
    capture_shared_payload-expected scene image mapping (text "failed") scene-IsPictured

abbrev arguments : List Bytes → Bytes → Arguments
arguments thresholds mode = record {
  help = false;
  mode = mode;
  camera = some (pos 2);
  thresholds = thresholds;
  debug = none;
  liveness_detection = some false;
  frame_map = text "map";
  feature_a = [];
  feature_b = [];
  extract_feature = true;
}

abbrev config : FaceRecognizerConfig ℕ
config = record {
  camera = pos 0;
  liveness = true;
  face_threshold = 62;
  liveness_threshold = 80;
  debug = true;
  language = [];
  auto_update_check = true;
}

-- The last threshold of a kind counts, other texts are passed over, and no mode reads the threshold
-- for faces.
recognize_mode :
    main_optimized float_ops
      (arguments
        (text "liveness=7" ∷ text "face=9" ∷ text "x" ∷ text "liveness=5" ∷ [])
        (text "recognize"))
      (some config)
    ≡ some (recognition (pos 2) false 5 true)
unfolding main_optimized stoi
recognize_mode = refl

threshold_thrown :
    main_optimized float_ops (arguments (text "face=?" ∷ []) (text "test")) (some config) ≡ none
unfolding main_optimized stoi
threshold_thrown = refl

capture_mode :
    main_optimized float_ops
      (arguments [] (text "capture-image"))
      (load_config float_ops none true (some config))
    ≡ some (capture (pos 2) (text "map") true)
unfolding main_optimized load_config stoi
capture_mode = refl

abbrev same_head : Bytes → Bytes → ℕ
same_head (x ∷ a) (y ∷ b) = if x == y then 1 else 0
same_head _ _ = 0

compare_features-encode_example :
    compare_features 1 same_head (encode_bytes_to_hex bytes) (encode_bytes_to_hex bytes) ≡ printed 1
compare_features-encode_example =
    compare_features-encode 1 same_head bytes bytes (omega arith) bytes-small bytes-small refl refl
