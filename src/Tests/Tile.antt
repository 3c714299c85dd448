-- ===== src/Tests/Tile.antt =====
-- The requests, the fields and the tile of the credential provider.
use smile2unlock_v.Base.{
  ℕ, ◌+◌, ◌<◌, ◌≡◌, ◌↔◌, inl, refl, List, [], ◌∷◌, ◌++◌, not, Bool, true, false, Option, none, some,
  ◌==◌,
}
use smile2unlock_v.Base.Text.{text}
use smile2unlock_v.Udp.Packets.{RecognitionStatus, idle, recognizing, success, start_recognition}
use smile2unlock_v.Udp.Status.{receive_status}
use smile2unlock_v.Credential.Results.{s_ok, s_false, e_invalidarg, ok, err}
use smile2unlock_v.Credential.Names.{Wide, wide}
use smile2unlock_v.Credential.Logon.{logon, credui}
use smile2unlock_v.Credential.Receiver.{
  LastReport, store_report, noted, store_report-receive_status,
}
use smile2unlock_v.Credential.Requests.{
  Attempt, unanswered, attempt, attempts_from, wait_for_ack, is_ack_status_for_request,
  send_auth_request_to_smile2unlock, wait_for_face_recognition_result,
}
use smile2unlock_v.Credential.Requests.Acks.{IsAcknowledged}
use smile2unlock_v.Credential.Requests.Ends.{
  send_auth_request-IsAcknowledged, recognised, wait_for_face_recognition_result-ends,
}
use smile2unlock_v.Credential.Fields.{
  Tile, hidden, plain, get_field_state, get_checkbox_value, get_combobox_value_count,
  get_combobox_value_at, get_submit_button_value, get_user_sid, username_text,
}
use smile2unlock_v.Credential.Fields.Initial.{TileUser, initialize}
use smile2unlock_v.Credential.Fields.Reports.{
  get_field_options, password_reveal, report_result, icon_warning,
}
use smile2unlock_v.Credential.Fields.Pointers.{
  FieldAction, type_text, select, deselect, fill_in, act_all, username_text-act_all,
}
use smile2unlock_v.Credential.Provider.{
  Provider, UserArray, Memory, null_call, set_usage_scenario, get_credential_count,
  get_credential_at,
}
use smile2unlock_v.Credential.Provider.Tiles.{
  get_credential_at-no_users, ready, advised, signal_all, ready_leaves, auto_logon_once,
}

abbrev attempts : ℕ → Attempt
attempts i = record {
  tick_before_send = i;
  sent = not (i == 0);
  polls =
      record { tick = i; status = idle; service_ended = false }
      ∷ record { tick = i + 1; status = recognizing; service_ended = false }
      ∷ [];
}

send_auth_request-IsAcknowledged_example :
    (send_auth_request_to_smile2unlock start_recognition attempts ≡ s_ok) ↔ (
      (i : ℕ) × (i < 10)
      × IsAcknowledged start_recognition (attempts i)
      × ((j : ℕ) → j < i → attempt start_recognition (attempts j) ≡ unanswered))
send_auth_request-IsAcknowledged_example =
    send_auth_request-IsAcknowledged start_recognition attempts

acknowledged_attempts : send_auth_request_to_smile2unlock start_recognition attempts ≡ s_ok
unfolding send_auth_request_to_smile2unlock attempts_from attempt wait_for_ack
    is_ack_status_for_request
acknowledged_attempts = refl

abbrev rounds : List (Bool × RecognitionStatus)
rounds = (true, idle) ∷ (true, recognizing) ∷ []

wait_for_face_recognition_result-ends_example :
    (wait_for_face_recognition_result rounds ≡ none)
    × (wait_for_face_recognition_result (rounds ++ (true, success) ∷ (false, idle) ∷ [])
        ≡ some s_ok)
wait_for_face_recognition_result-ends_example =
    wait_for_face_recognition_result-ends rounds ((false, idle) ∷ []) (true, success) s_ok
      (tt, (tt, tt)) recognised

abbrev last_report : LastReport
last_report = record {
  face_recognition_status = idle;
  face_recognition_status_tick = 3;
  recognized_username = text "alice";
  recognized_session_id = 5;
  recognized_feature = [];
}

store_report-receive_status_example :
    store_report 9 (text "foreign") last_report
    ≡ noted 9 (receive_status true (text "foreign")) last_report
store_report-receive_status_example = store_report-receive_status 9 (text "foreign") last_report

abbrev user : TileUser
user = record {
  qualified_user_name = some (wide "DESKTOP");
  user_name = some (wide "alice");
  display_name = none;
  logon_status = none;
  sid = none;
}

abbrev tile : Tile
tile = initialize (λ i. true) logon (some user)

field_states :
    (get_field_state tile 12 ≡ ok (hidden, plain)) × (get_field_state tile 14 ≡ err e_invalidarg)
unfolding get_field_state initialize
field_states = (refl, refl)

submit_button : get_submit_button_value 4 ≡ ok 3
unfolding get_submit_button_value
submit_button = refl

checkbox_label : get_checkbox_value true tile 10 ≡ ok (false, wide "Checkbox")
unfolding get_checkbox_value initialize
checkbox_label = refl

-- The item behind the last one is read outside of the array.
items_read :
    (get_combobox_value_count 12 ≡ ok (3, 0))
    × (get_combobox_value_at true 12 2 ≡ some (ok (wide "Third")))
    × (get_combobox_value_at true 12 3 ≡ none)
unfolding get_combobox_value_count get_combobox_value_at
items_read = (refl, refl, refl)

no_sid : get_user_sid true tile ≡ (s_false, none)
unfolding get_user_sid initialize
no_sid = refl

reveal : get_field_options 3 ≡ password_reveal
unfolding get_field_options
reveal = refl

disabled_account :
    report_result true 0xC0000202 0xC0000001 tile
    ≡ ((some (wide "The account is disabled."), icon_warning), false)
unfolding report_result initialize
disabled_account = refl

abbrev field_actions : List FieldAction
field_actions =
    type_text 11 (wide "bob")
    ∷ fill_in (some (wide "alice")) (wide "secret")
    ∷ deselect
    ∷ select
    ∷ []

username_text-act_all_example :
    (name : Option Wide) × (username_text (act_all field_actions tile) ≡ some name)
username_text-act_all_example = username_text-act_all (λ i. true) logon (some user) field_actions

abbrev memory : Memory
memory = record { credential_made = true; string_made = λ i. true }

abbrev users : UserArray
users = record { count = 2; first = ok user }

abbrev provider : Option UserArray → Provider
provider u = record {
  scenario = credui;
  recreate = false;
  credential = none;
  users = u;
  has_events = true;
  credential_ready = false;
}

get_credential_at-no_users_example :
    let (count, p') = get_credential_count memory (set_usage_scenario logon (provider none)).1 in
    (count.count ≡ 1) × (get_credential_at 0 p' ≡ null_call)
get_credential_at-no_users_example =
    get_credential_at-no_users memory logon (provider none) (inl refl) (inl refl)

auto_logon_once_example :
    let (count, p') =
      get_credential_count memory
        (signal_all ((advised false ∷ []) ++ ready ∷ advised true ∷ []) (provider none)) in
    (count.auto_logon ≡ true) × ((get_credential_count memory p').0.auto_logon ≡ false)
auto_logon_once_example =
    auto_logon_once memory memory (provider none) (advised false ∷ []) (advised true ∷ []) ready
      true ready_leaves (tt, tt)
