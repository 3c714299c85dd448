-- ===== src/Credential/Fields/Initial.antt =====
-- The tile that Initialize of CredentialProvider/CSampleCredential.cpp makes of what Windows tells of
-- a user, over the first states of CredentialProvider/common.h.
use smile2unlock_v.Base.{
  ℕ, [], Bool, false, ◌||◌, Option, none, some, ◌++◌, take, ◌==◌, if◌then◌else◌,
}
use smile2unlock_v.Credential.Names.{Wide, wide}
use smile2unlock_v.Credential.Logon.{UsageScenario, is_credui}
use smile2unlock_v.Credential.Fields.Sfi
use smile2unlock_v.Credential.Fields.{
  FieldState, InteractiveState, display_in_selected_tile, plain, focused, initial_state,
  NamePointer, null, qualified_name, edit_field, Tile, put,
}

-- What a user of the tile has: the names and texts as Windows gives them.
pub record TileUser : Type 0 where
  pub qualified_user_name : Option Wide
  pub user_name : Option Wide
  pub display_name : Option Wide
  pub logon_status : Option Wide
  pub sid : Option Wide

-- StringCchPrintf into 256 units.
described : (label missing : Wide) → Option Wide → Wide
described label missing none = missing
described label missing (some s) = take 255 (label ++ s)

user_string : Option TileUser → ℕ → Option Wide
unfolding described
user_string none i = if i == 7 || (i == 8 || i == 9) then some [] else none
user_string (some u) i =
    if i == 7
    then some (described (wide "User Name: ") (wide "User Name is NULL") u.user_name)
    else if i == 8
    then some (described (wide "Display Name: ") (wide "Display Name is NULL") u.display_name)
    else if i == 9
    then some (described (wide "Logon Status: ") (wide "Logon Status is NULL") u.logon_status)
    else none

-- The first strings; the field of the image has none.
unfoldable pub initial_string : UsageScenario → Option TileUser → ℕ → Option Wide
unfolding user_string is_credui
initial_string scenario user i =
    if i == 1
    then some (wide "Smile2Unlock")
    else if i == 2
    then some (
        if is_credui scenario
        then wide "Smile2Unlock 凭证提示"
        else wide "Smile2Unlock Credential Provider")
    else if i == 3 || i == 11
    then some []
    else if i == 4
    then some (wide "提交")
    else if i == 5
    then some (wide "Launch helper window")
    else if i == 6
    then some (wide "Hide additional controls")
    else if i == 10
    then some (wide "Checkbox")
    else if i == 12
    then some (wide "Combobox")
    else if i == 13
    then some (wide "使用面部识别登录")
    else user_string user i

initial_states : UsageScenario → ℕ → FieldState × InteractiveState
unfolding initial_state is_credui
initial_states scenario =
    if is_credui scenario
    then put (put initial_state Sfi.edit_text (display_in_selected_tile, focused)) Sfi.password
        (display_in_selected_tile, plain)
    else initial_state

unfoldable pub qualified_of : Option TileUser → Option Wide
qualified_of none = none
qualified_of (some u) = u.qualified_user_name

sid_of : Option TileUser → Option Wide
sid_of none = none
sid_of (some u) = u.sid

-- In CredUI the pointer goes to the string of the field, if that was made.
unfoldable pub initial_name : UsageScenario → Option Wide → Option Wide → NamePointer
unfolding is_credui
initial_name scenario (some q) edit = qualified_name
initial_name scenario none none = null
initial_name scenario none (some s) = if is_credui scenario then edit_field else null

-- `made i` tells whether the copy of the string of the field found memory. A failed copy is logged
-- and nothing else: the method returns S_OK.
unfoldable pub initialize : (made : ℕ → Bool) → UsageScenario → Option TileUser → Tile
unfolding initial_string initial_states initial_name qualified_of sid_of
initialize made scenario user =
    let strings : ℕ → Option Wide = λ i. if made i then initial_string scenario user i else none in
    record {
      scenario = scenario;
      strings = strings;
      states = initial_states scenario;
      qualified_user_name = qualified_of user;
      username = initial_name scenario (qualified_of user) (strings Sfi.edit_text);
      user_sid = sid_of user;
      checked = false;
      combo_index = 0;
      show_controls = false;
      has_events = false;
    }
