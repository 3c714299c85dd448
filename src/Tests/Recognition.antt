-- ===== src/Tests/Recognition.antt =====
-- The matching and the manager on two users.
use smile2unlock_v.Base.{ℕ, ◌+◌, ◌*◌, replicate, ◌≡◌, refl, List, [], ◌∷◌, true, false, some, All}
use mathlib.Core.List.{Memᴰ}
use mathlib.Core.List.Memᴰ.{head, tail}
use smile2unlock_v.Base.Text.{Bytes, text, same, is_empty}
use smile2unlock_v.Gui.Models.{User, default_config, no_result}
use smile2unlock_v.Udp.Packets.{
  success, start_recognition, query_status, get_password, cancel_recognition, recognition_error,
}
use smile2unlock_v.Recognition.Match.{resolve_recognized_username, threshold_of}
use smile2unlock_v.Recognition.Features.{FloatArith, compare_features_on_su, hex_value}
use smile2unlock_v.Recognition.Features.Sizes.{IsComparable, compare_features_on_su_sound}
use smile2unlock_v.Recognition.Match.Sound.{IsGranted, resolve_recognized_username_sound}
use smile2unlock_v.Recognition.Match.Strongest.{resolve_recognized_username_complete}
use smile2unlock_v.Recognition.Manager.{
  FaceRecognition, System, status_sent, on_cp_request_received, on_fr_status_received,
}
use smile2unlock_v.Recognition.Manager.Run.{Event, request, report, run, step}
use smile2unlock_v.Recognition.Manager.Grant.{
  Justified, JustifiedBy, run-Justified, on_fr_status_received-JustifiedBy,
}
use smile2unlock_v.Recognition.Manager.Requests.{
  HasProcess, step-HasProcess, get_password-any_state, failed_start-query, Query, asked, answered,
}
use smile2unlock_v.Tests.Fixtures.{float_ops, float_order, compare, database, alice, bob, face}

abbrev probe : Bytes
probe = text "probe"

-- Alice is found under her own hint, and not under a name that is unknown.
resolve_alice :
    is_empty
      (resolve_recognized_username float_ops compare
        (some database)
        62
        probe
        (text "alice")).username
    ≡ false
unfolding resolve_recognized_username is_empty same
resolve_alice = refl

resolve_mallory :
    is_empty
      (resolve_recognized_username float_ops compare
        (some database)
        62
        probe
        (text "mallory")).username
    ≡ true
unfolding resolve_recognized_username is_empty same
resolve_mallory = refl

face_filled : is_empty face.feature ≡ false
unfolding is_empty
face_filled = refl

probed : is_empty probe ≡ false
unfolding is_empty
probed = refl

named : (u : User) → Memᴰ u (bob ∷ alice ∷ []) → is_empty u.username ≡ false
unfolding is_empty
named u (head e) = λ i. is_empty (e i).username
named u (tail (head e)) = λ i. is_empty (e i).username
named u (tail (tail m)) = elim m [ ]

compared : compare probe face.feature ≡ some 90
unfolding same
compared = refl

enough : float_ops.less 90 (threshold_of float_ops compare 62) ≡ false
unfolding threshold_of same
enough = refl

positive : float_ops.less (float_ops.literal (text "0")) 90 ≡ true
unfolding same
positive = refl

resolve_recognized_username_sound_example :
    IsGranted float_ops compare probe
      (some database)
      62
      (text "alice")
      (resolve_recognized_username float_ops compare (some database) 62 probe (text "alice"))
resolve_recognized_username_sound_example =
    resolve_recognized_username_sound float_ops compare probe (some database) 62 (text "alice")
      resolve_alice

resolve_recognized_username_complete_example :
    is_empty (resolve_recognized_username float_ops compare (some database) 62 probe []).username
    ≡ false
resolve_recognized_username_complete_example =
    resolve_recognized_username_complete float_ops float_order compare probe database 62 alice face
      90 probed named (tail (head refl)) (head refl) face_filled compared positive enough

abbrev pub manager : FaceRecognition ℕ
manager = record {
  initialized = true;
  is_running = true;
  last_result = no_result float_ops;
  fr_process = true;
  config = record (default_config float_ops) { face_threshold = 62 };
  current_session_id = 4;
  pending_username_hint = [];
  last_recognition_feature = [];
}

abbrev broken : System
broken = record { process_active = false; process_starts = false }

abbrev pub healthy : System
healthy = record { process_active = true; process_starts = true }

abbrev events : List (Event ℕ)
events =
    request healthy start_recognition (text "alice") 5
    ∷ report success [] 5 (text "probe")
    ∷ request healthy query_status [] 5
    ∷ request healthy cancel_recognition [] 5
    ∷ []

run-Justified_example :
    All
      (Justified float_ops compare (some database))
      (run float_ops compare (some database) events manager).1
run-Justified_example = run-Justified float_ops compare (some database) events manager

step-HasProcess_example :
    HasProcess
      (step float_ops compare (some database) (request healthy start_recognition [] 9) manager).0
step-HasProcess_example =
    step-HasProcess float_ops compare (some database) (request healthy start_recognition [] 9)
      manager refl (λ e. e)

get_password-any_state_example :
    (on_cp_request_received (some database) healthy get_password (text "alice") 9 manager).1
    ≡ (on_cp_request_received
        (some database)
        broken
        get_password
        (text "alice")
        9
        (record manager { is_running = false })).1
get_password-any_state_example =
    get_password-any_state (some database) healthy broken (text "alice") 9 manager
      (record manager { is_running = false })

abbrev queries : List Query
queries =
    record { sys = healthy; username_hint = []; session_id = 9 }
    ∷ record { sys = broken; username_hint = text "alice"; session_id = 10 }
    ∷ []

failed_start-query_example :
    let start = request broken start_recognition [] 8 in
    ((step float_ops compare (some database) start manager).0.fr_process ≡ false)
    × ((run float_ops compare (some database) (start ∷ asked queries) manager).1
        ≡ status_sent recognition_error [] 8 ∷ answered [] queries)
failed_start-query_example =
    failed_start-query float_ops compare (some database) broken [] 8 queries manager refl refl refl
      refl

-- Floats by their lowest byte, of which every two have the similarity 1.
abbrev byte_floats : FloatArith ℕ ℕ
byte_floats = record {
  of_bytes = λ a b c d. a;
  is_finite = λ x. true;
  widen = λ x. x;
  narrow = λ x. x;
  zero_double = 0;
  epsilon = 0;
  lower_end = 0;
  upper_end = 1;
  plus = λ x y. x + y;
  times = λ x y. x * y;
  over = λ x y. 1;
  sqrt = λ x. x;
  at_most = λ x y. false;
  below = λ x y. false;
}

abbrev feature : Bytes
feature = replicate 1024 b'a'

compared_features : compare_features_on_su byte_floats feature feature ≡ some 1
unfolding compare_features_on_su replicate hex_value is_empty
compared_features = refl

compare_features_on_su_sound_example : IsComparable byte_floats feature feature
compare_features_on_su_sound_example =
    compare_features_on_su_sound byte_floats feature feature 1 compared_features

on_fr_status_received-JustifiedBy_example :
    let (m', sent) =
      on_fr_status_received float_ops compare (some database) success [] 5 probe manager in
    All (JustifiedBy float_ops compare (some database) probe 62 []) sent
    × (m'.last_recognition_feature ≡ probe)
on_fr_status_received-JustifiedBy_example =
    on_fr_status_received-JustifiedBy float_ops compare (some database) success [] 5 probe manager
      probed
