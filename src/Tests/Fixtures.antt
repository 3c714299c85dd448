-- ===== src/Tests/Fixtures.antt =====
-- A small service, a pipe to its server, and users with two-byte features.
use smile2unlock_v.Base.{
  ℕ, suc, inl, inr, refl, [], ◌∷◌, true, false, Option, none, some, arith, if◌then◌else◌, ltb,
  Bool-cases,
}
use smile2unlock_v.Base.Text.{Bytes, text, same}
use smile2unlock_v.Base.Decimal.{ℤ, pos, to_string, stoi}
use smile2unlock_v.Gui.Float.{FloatOps}
use smile2unlock_v.Gui.Models.{
  User, FaceData, no_user, no_face, no_dll_status, no_result, default_config,
}
use smile2unlock_v.Gui.Backend.{value, thrown, Method, pure, Reply, Frame, IBackendService}
use smile2unlock_v.Gui.Handler.Preview.{HandlerState, MappingCalls}
use smile2unlock_v.Gui.Handler.{Handled, answered, escaped, out_of_bounds}
use smile2unlock_v.Gui.Server.{serve}
use smile2unlock_v.Gui.Remote.{Remote, Pipe, Exchange, read, read_failed}
use smile2unlock_v.Gui.Remote.Refines.{IsServed}
use smile2unlock_v.Recognition.Match.{Database}
use smile2unlock_v.Recognition.Match.Strongest.{IsFloatOrder}

abbrev natural : Option (ℤ × Bytes) → Option (ℕ × Bytes)
natural (some (pos n, rest)) = some (n, rest)
natural _ = none

-- Hundredths.
abbrev pub float_ops : FloatOps ℕ
float_ops = record {
  literal = λ s. if same s (text "0.62") then 62 else 0;
  show = λ x. to_string (pos x);
  stof = λ s. natural (stoi s);
  less = ltb;
}

pub float_order : IsFloatOrder float_ops
float_order = record {
  irreflexive = λ a. ground arith;
  keeps = λ a b c h k. ground (arith, h, k);
  splits = λ z s a b h k. elim (Bool-cases (ltb a s)) [
    | inl e ↦ inl e
    | inr e ↦ inr (ground (arith, k))
  ];
}

abbrev ok : Reply
ok = record { succeeded = true; message = text "ok" }

abbrev reply : Method ℕ Reply
reply n = (value ok, suc n)

abbrev no_frame : Frame
no_frame = record {
  available = false;
  image_data = [];
  width = pos 0;
  height = pos 0;
  message = text "none";
}

-- It counts its successful calls, and knows no user.
abbrev pub service : IBackendService ℕ ℕ
service = record {
  get_dll_status = pure no_dll_status;
  calculate_dll_hashes = pure true;
  inject_dll = reply;
  get_all_users = pure [];
  add_user = λ u p r. reply;
  update_user = λ i u p r. reply;
  delete_user = λ i n. (thrown (text "no such user"), n);
  add_face = λ i f r. reply;
  start_camera_preview = reply;
  stop_camera_preview = pure tt;
  is_camera_preview_running = pure false;
  get_latest_camera_preview = pure no_frame;
  capture_preview_frame = pure no_frame;
  capture_and_add_face = λ i r. reply;
  delete_face = λ i f. reply;
  update_face_remark = λ i f r. reply;
  get_user_faces = λ i. pure [];
  start_recognition = reply;
  stop_recognition = pure tt;
  is_recognition_running = pure false;
  get_recognition_result = pure (no_result float_ops);
  get_recognizer_config =
      pure (record { loaded = true; config = default_config float_ops; message = [] });
  save_recognizer_config = λ c. reply;
}

abbrev pub calls : MappingCalls
calls = record {
  security_built = true;
  process_id = 7;
  created = true;
  viewed = true;
  last_error = 0;
}

-- The exchange is a run of the server; a request that it does not answer is a failed read.
abbrev pub pipe : Pipe (HandlerState ℕ)
pipe = record {
  wait = λ w. true;
  open_pipe = λ w. true;
  exchange = λ q h. brought h (serve float_ops service calls true q h);
  now = λ w. 5;
}
  where
    brought : HandlerState ℕ → Handled ℕ → Exchange × HandlerState ℕ
    brought h (answered r h') = (read r, h')
    brought h (escaped h') = (read_failed, h')
    brought h out_of_bounds = (read_failed, h)

pub pipe-IsServed : IsServed float_ops service calls pipe
pipe-IsServed q h r h' e = rw e refl

abbrev pub remote : Remote
remote = record { pipe_open = true; request_id = 0; initialized = true }

abbrev pub handler_state : HandlerState ℕ
handler_state = record { service = 3; preview_transport = none; capture_transport = none }

abbrev pub face : FaceData
face = record no_face { id = pos 1; feature = text "90" }

abbrev pub alice : User
alice = record no_user {
  id = pos 1;
  username = text "alice";
  faces = face ∷ [];
  remark = text "home";
}

abbrev pub bob : User
bob = record no_user {
  id = pos 2;
  username = text "bob";
  faces = record no_face { id = pos 2; feature = text "70" } ∷ [];
}

abbrev pub database : Database
database = record {
  get_all_users = bob ∷ alice ∷ [];
  get_user_by_username = λ name. if same name (text "alice") then some alice else none;
  decrypt_password = λ s. text "secret";
}

-- A feature is its own similarity.
abbrev pub compare : Bytes → Bytes → Option ℕ
compare probe feature =
    if same feature (text "90") then some 90 else if same feature (text "70") then some 70 else none
