-- ===== src/Tests/Gui.antt =====
-- The calls of the client against a small service.
use smile2unlock_v.Base.{
  ℕ, ◌≡◌, ◌↔◌, refl, [], ◌∷◌, ◌++◌, true, false, none, some, map, arith, length, ◌<◌,
}
use smile2unlock_v.Base.Text.{Free, text, is_empty}
use smile2unlock_v.Base.Decimal.{pos, stoi, to_string}
use smile2unlock_v.Udp.Memory.{length-zeros}
use smile2unlock_v.Gui.Protocol.{cleared_request, cleared_response, payload_capacity}
use smile2unlock_v.Gui.Handler.Payloads.{bar}
use smile2unlock_v.Gui.Handler.Texts.{serialize_users}
use smile2unlock_v.Gui.Handler.{handle}
use smile2unlock_v.Gui.Handler.Sizes.{IsSized, IsAnsweredBy, handle-IsAnsweredBy}
use smile2unlock_v.Gui.Models.{FaceRecognizerConfig}
use smile2unlock_v.Gui.Handler.Texts.{parse_float}
use smile2unlock_v.Gui.Remote.Methods.{config_text, remote_save_recognizer_config}
use smile2unlock_v.Gui.Remote.Settings.{IsSavable, remote_save_recognizer_config-served}
use smile2unlock_v.Gui.Handler.Preview.{HandlerState}
use smile2unlock_v.Gui.Server.{closed, handle_client}
use smile2unlock_v.Gui.Server.Sessions.{requested, handle_client-closed}
use smile2unlock_v.Gui.Remote.Parse.{parse_users}
use smile2unlock_v.Gui.Remote.Methods.{remote_add_user}
use smile2unlock_v.Gui.Remote.Calls.{brought, remote_add_user-served, remote_add_user_ambiguous}
use smile2unlock_v.Gui.Remote.Listings.{IsListed, seen_user, parse_users-serialize_users}
use smile2unlock_v.Tests.Fixtures.{
  float_ops, service, calls, pipe, pipe-IsServed, remote, handler_state, alice,
}

eve-Free : Free bar (text "eve")
eve-Free = ground arith

pw-Free : Free bar (text "pw")
pw-Free = ground arith

remote_add_user-served_example :
    remote_add_user pipe (text "eve") (text "pw") (text "r|s") remote handler_state
    ≡ brought (service.add_user (text "eve") (text "pw") (text "r|s") 3) remote handler_state
remote_add_user-served_example =
    remote_add_user-served float_ops service calls pipe pipe-IsServed remote refl handler_state
      (text "eve") (text "pw") (text "r|s") eve-Free pw-Free (omega arith)

remote_add_user_ambiguous_example :
    remote_add_user pipe (text "eve") (text "p|w") (text "r")
    ≡ remote_add_user pipe (text "eve") (text "p") (text "w|r")
remote_add_user_ambiguous_example =
    remote_add_user_ambiguous pipe (text "eve") (text "p") (text "w") (text "r")

alice-IsListed : IsListed alice
unfolding is_empty
alice-IsListed = record {
  id = omega arith;
  named = refl;
  username = (ground arith, ground arith);
  encrypted_password = (tt, tt);
  remark = (ground arith, ground arith);
}

parse_users-serialize_users_example :
    parse_users (serialize_users (alice ∷ alice ∷ [])) ≡ some (map seen_user (alice ∷ alice ∷ []))
parse_users-serialize_users_example =
    parse_users-serialize_users (alice ∷ alice ∷ []) (alice-IsListed, (alice-IsListed, tt))

-- The remark of a listed user is lost.
alice_remark : (seen_user alice).remark ≡ []
alice_remark = refl

length-cleared : length cleared_response.payload ≡ payload_capacity
unfolding cleared_response
length-cleared = length-zeros payload_capacity

handle-IsAnsweredBy_example :
    IsSized cleared_request.payload_size
    ↔ IsAnsweredBy cleared_request
        (handle float_ops service calls true cleared_request handler_state)
handle-IsAnsweredBy_example =
    handle-IsAnsweredBy float_ops service calls cleared_request handler_state

cleared-IsSized : IsSized cleared_request.payload_size
unfolding IsSized cleared_request
cleared-IsSized = omega arith

handle_client-closed_example :
    let session =
      handle_client float_ops service calls true
        (map requested (cleared_request ∷ cleared_request ∷ []) ++ (false, none) ∷ [])
        handler_state in
    (length session.responses ≡ 2) × ((h' : HandlerState ℕ) × (session.end ≡ closed h'))
handle_client-closed_example =
    handle_client-closed float_ops service calls (cleared_request ∷ cleared_request ∷ []) none []
      handler_state (cleared-IsSized, (cleared-IsSized, tt))

abbrev settings : FaceRecognizerConfig ℕ
settings = record {
  camera = pos 1;
  liveness = false;
  face_threshold = 70;
  liveness_threshold = 85;
  debug = true;
  language = text "en-US";
  auto_update_check = false;
}

settings-IsSavable : IsSavable float_ops settings
unfolding parse_float stoi to_string is_empty
settings-IsSavable = record {
  camera = omega arith;
  face_threshold = record { reads_back = refl; one_line = ground arith };
  liveness_threshold = record { reads_back = refl; one_line = ground arith };
  language = ground arith;
}

short-settings : length (config_text float_ops settings) < payload_capacity
unfolding config_text to_string
short-settings = omega arith

remote_save_recognizer_config-served_example :
    remote_save_recognizer_config float_ops pipe settings remote handler_state
    ≡ brought
        (service.save_recognizer_config (record settings { auto_update_check = true }) 3)
        remote
        handler_state
remote_save_recognizer_config-served_example =
    remote_save_recognizer_config-served float_ops service calls pipe pipe-IsServed remote refl
      handler_state settings settings-IsSavable short-settings
