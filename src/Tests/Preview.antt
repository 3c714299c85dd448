-- ===== src/Tests/Preview.antt =====
-- Pictures of a preview that are shown, refused, missed, torn and handed over; the process of the
-- service.
use smile2unlock_v.Base.{
  false, ℕ, ◌+◌, ◌^◌, ◌%◌, ◌≡◌, refl, List, [], ◌∷◌, true, Option, none, some, arith, take, drop,
  ◌++◌, All,
}
use smile2unlock_v.Base.Text.{text, is_empty}
use smile2unlock_v.Base.Decimal.{pos}
use smile2unlock_v.Capture.Frame.{frame_magic, frame_version}
use smile2unlock_v.Capture.Writer.{Image, image_size, is_positive}
use smile2unlock_v.Capture.Preview.{
  Preview, reset_preview, preview_round, latest, get_latest_preview_frame, copy_part, PreviewTurn,
  events_of, round, poll, delivered, is_ready,
}
use smile2unlock_v.Capture.Preview.Reads.{IsWhole, picture_of, shown_of}
use smile2unlock_v.Capture.Preview.Frames.{
  shown, delivered-shown, all_rounds, get_latest_preview_frame-latest,
}
use smile2unlock_v.Capture.Preview.Torn.{torn_frame}
use smile2unlock_v.Capture.Stream.{
  PreviewStream, Probe, active, exited, StreamCalls, start_fr_preview_process, start_preview_stream,
  Settled, start_preview_stream-Settled,
}
use smile2unlock_v.Gui.Backend.{Frame}
use smile2unlock_v.Gui.Handler.Preview.{preview_descriptor}
use smile2unlock_v.Gui.Remote.Preview.{Mappings, viewed, parse_preview_data}
use smile2unlock_v.Gui.Remote.Preview.Handed.{parse_preview_data-preview_descriptor}
use smile2unlock_v.Credential.Results.{s_ok, e_fail, ok, err}
use smile2unlock_v.Credential.Service.{
  LaunchCalls, launch_smile2unlock_service, is_process_still_running,
  terminate_smile2unlock_service, terminated,
}
use mathlib.Core.List.{Sublistᴰ}

abbrev grey : ℕ → Image
grey n = record {
  pixels = n ∷ n ∷ n ∷ n ∷ n ∷ n ∷ [];
  width = pos 2;
  height = pos 1;
  channels = pos 3;
}

abbrev unread : Preview
unread = record {
  frame = record {
    magic = frame_magic;
    version = frame_version;
    status_code = pos 0;
    width = pos 0;
    height = pos 0;
    channels = pos 0;
    image_bytes = 0;
    feature_bytes = 0;
    body = 7 ∷ 7 ∷ 7 ∷ 7 ∷ 7 ∷ 7 ∷ 7 ∷ 7 ∷ [];
  };
  frame_sequence = 9;
  stop_requested = true;
}

-- The second picture is missed, the third is read once, and a failed capture hides the fourth.
abbrev turns : List PreviewTurn
turns =
    round (some (grey 1))
    ∷ poll
    ∷ round (some (grey 2))
    ∷ round (some (grey 3))
    ∷ poll
    ∷ poll
    ∷ round (some (grey 4))
    ∷ round none
    ∷ poll
    ∷ []

delivered-turns :
    delivered (events_of turns) (reset_preview unread) 0
    ≡ picture_of (grey 1) ∷ picture_of (grey 3) ∷ []
unfolding delivered events_of reset_preview take
delivered-turns = refl

grey-IsWhole : (n : ℕ) → IsWhole (round (some (grey n)))
unfolding image_size
grey-IsWhole n = refl

grey_shown : (n : ℕ) → shown_of (some (grey n)) ≡ some (picture_of (grey n))
unfolding shown_of image_size is_positive
grey_shown n = refl

turns-IsWhole : All IsWhole turns
turns-IsWhole = (
  grey-IsWhole 1,
  (tt, (grey-IsWhole 2, (grey-IsWhole 3, (tt, (tt, (grey-IsWhole 4, (tt, (tt, tt)))))))),
)

delivered-shown_example :
    Sublistᴰ (delivered (events_of turns) (reset_preview unread) 0) (shown turns)
delivered-shown_example = delivered-shown turns unread turns-IsWhole

abbrev earlier : List (Option Image)
earlier = some (grey 1) ∷ none ∷ []

get_latest_preview_frame-latest_example :
    let p' = preview_round (some (grey 2)) (all_rounds earlier unread) in
    get_latest_preview_frame true (some p') 9
    ≡ (latest (2 ∷ 2 ∷ 2 ∷ 2 ∷ 2 ∷ 2 ∷ []) (pos 2) (pos 1), p'.frame_sequence)
get_latest_preview_frame-latest_example =
    get_latest_preview_frame-latest earlier (grey 2) unread refl refl (omega arith) (omega arith)
      (grey-IsWhole 2) (grey_shown 2)

torn_frame_example :
    let p = copy_part 4 (grey 2) (preview_round (some (grey 1)) unread) in
    get_latest_preview_frame true (some p) 9
    ≡ (latest (take 4 (grey 2).pixels ++ drop 4 (grey 1).pixels) (pos 2) (pos 1), (9 + 1) % 2 ^ 32)
torn_frame_example =
    torn_frame 4 (grey 1) (grey 2) unread 9 refl refl refl (grey-IsWhole 1) (grey_shown 1)
      (omega arith) (omega arith)

abbrev stream_calls : Option Preview → List Probe → StreamCalls
stream_calls mapped probes = record {
  alive = true;
  security_built = true;
  created = true;
  viewed = mapped;
  exe_exists = true;
  process_created = true;
  probes = probes;
  last_error_text = λ s. s;
}

abbrev broken_stream : PreviewStream
broken_stream = record { process = true; view = none; mapping = true; last_preview_sequence = 4 }

start_preview_stream-Settled_example : Settled (
    start_preview_stream
      (stream_calls (some unread) (active unread ∷ exited 3 ∷ []))
      []
      broken_stream)
start_preview_stream-Settled_example =
    start_preview_stream-Settled (stream_calls (some unread) (active unread ∷ exited 3 ∷ [])) []
      broken_stream

opened_stream :
    (start_preview_stream (stream_calls (some unread) (active unread ∷ [])) [] broken_stream).0.0
    ≡ true
unfolding start_preview_stream start_fr_preview_process take is_ready
opened_stream = refl

abbrev handed_frame : Frame
handed_frame = record {
  available = true;
  image_data = (grey 5).pixels;
  width = pos 2;
  height = pos 1;
  message = [];
}

-- One mapping, of a page.
abbrev mappings : Mappings
mappings name size = viewed ((grey 5).pixels ++ 0 ∷ 0 ∷ [])

parse_preview_data-preview_descriptor_example :
    parse_preview_data mappings (preview_descriptor (pos 2) (pos 1) 6 (text "map")) ≡ handed_frame
parse_preview_data-preview_descriptor_example =
    parse_preview_data-preview_descriptor handed_frame (text "map") (omega arith) (omega arith)
      (ground arith) mappings (0 ∷ 0 ∷ []) (omega arith) refl

abbrev launch_calls : LaunchCalls
launch_calls = record {
  still_active = some false;
  mutex_opened = false;
  mutex_not_found = true;
  registry_path = text "C:\\S2U";
  to_wide = λ s. some s;
  module_path = err e_fail;
  file_exists = λ s. true;
  create_process = λ command directory. ok 77;
  exit_codes = some true ∷ [];
  meanwhile = λ p. p;
}

launched_service : launch_smile2unlock_service launch_calls (some 5) ≡ some (s_ok, some 77)
unfolding launch_smile2unlock_service is_empty take
launched_service = refl

stopped_service :
    (is_process_still_running (some true) (some 77) ≡ true)
    × (terminate_smile2unlock_service (some true) true true (some 77) ≡ (terminated, none))
unfolding is_process_still_running terminate_smile2unlock_service
stopped_service = (refl, refl)
