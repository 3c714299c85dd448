-- ===== src/Credential/Fields.antt =====
-- The fields of the tile: CredentialProvider/common.h, and the methods of
-- CredentialProvider/CSampleCredential.cpp that read and write them. `_pwzUsername` is a pointer
-- into another buffer, so the tile says which buffer that is and whether it still exists. Whether a
-- copy of a text finds memory is an argument. Messages on the screen are not modelled.
pub mod Sfi
pub mod Initial
pub mod Reports
pub mod Pointers
use smile2unlock_v.Base.{
  ℕ, zero, suc, ◌+◌, ◌<◌, ◌≡◌, List, [], ◌∷◌, Bool, true, false, not, ◌&&◌, ◌||◌, Option, none,
  some, ◌++◌, ◌^◌, take, ltb, ◌==◌, if◌then◌else◌, drop,
}
use smile2unlock_v.Base.Text.{find}
use smile2unlock_v.Credential.Results.{
  Hresult, s_ok, s_false, e_invalidarg, e_outofmemory, Outcome, ok, err, allocated,
}
use smile2unlock_v.Credential.Names.{Wide, wide}
use smile2unlock_v.Credential.Logon.{UsageScenario, is_credui}
use smile2unlock_v.Credential.Fields.Sfi

pub data FieldType : Type 0 where
  tile_image small_text large_text password_text submit_button command_link : FieldType
  checkbox edit_text combobox invalid : FieldType

-- The types in s_rgCredProvFieldDescriptors, in their order.
unfoldable pub field_type : ℕ → FieldType
field_type i =
    if i == 0
    then tile_image
    else if i == 2
    then large_text
    else if i == 3
    then password_text
    else if i == 4
    then submit_button
    else if i == 5 || (i == 6 || i == 13)
    then command_link
    else if i == 10
    then checkbox
    else if i == 11
    then edit_text
    else if i == 12
    then combobox
    else if ltb i Sfi.num_fields
    then small_text
    else invalid

pub data FieldState : Type 0 where
  hidden display_in_both display_in_selected_tile : FieldState

pub data InteractiveState : Type 0 where
  plain focused : InteractiveState

-- s_rgFieldStatePairs.
unfoldable pub initial_state : ℕ → FieldState × InteractiveState
initial_state i =
    if i == 0 || i == 2
    then (display_in_both, plain)
    else if i == 3
    then (display_in_selected_tile, focused)
    else if i == 4
    then (display_in_selected_tile, plain)
    else (hidden, plain)

-- What `_pwzUsername` points to: nothing, the name in `_pszQualifiedUserName`, the string of
-- the field, or memory that was freed.
pub data NamePointer : Type 0 where
  null qualified_name edit_field freed : NamePointer

pub record Tile : Type 0 where
  pub scenario : UsageScenario
  pub strings : ℕ → Option Wide
  pub states : ℕ → FieldState × InteractiveState
  pub qualified_user_name : Option Wide
  pub username : NamePointer
  pub user_sid : Option Wide
  pub checked : Bool
  pub combo_index : ℕ
  pub show_controls : Bool
  pub has_events : Bool

abbrev pub put {ℓ} : {A : Type ℓ} → (ℕ → A) → ℕ → A → ℕ → A
put f i a j = if i == j then a else f j

unfoldable pub is_text_type : FieldType → Bool
is_text_type edit_text = true
is_text_type password_text = true
is_text_type _ = false

is_checkbox : FieldType → Bool
is_checkbox checkbox = true
is_checkbox _ = false

is_combobox : FieldType → Bool
is_combobox combobox = true
is_combobox _ = false

is_command_link : FieldType → Bool
is_command_link command_link = true
is_command_link _ = false

-- An id is one of a field, of a type that the method is for.
unfoldable pub typed : (FieldType → Bool) → ℕ → Bool
unfolding field_type
typed test i = ltb i Sfi.num_fields && test (field_type i)

unfoldable pub get_field_state : Tile → ℕ → Outcome (FieldState × InteractiveState)
get_field_state t i = if ltb i Sfi.num_fields then ok (t.states i) else err e_invalidarg

copy_of : Bool → Option Wide → Outcome Wide
copy_of heap none = err e_invalidarg
copy_of heap (some s) = allocated heap s

-- SHStrDupW refuses a null text.
unfoldable pub get_string_value : (heap : Bool) → Tile → ℕ → Outcome Wide
unfolding copy_of
get_string_value heap t i =
    if ltb i Sfi.num_fields then copy_of heap (t.strings i) else err e_invalidarg

unfoldable pub get_submit_button_value : ℕ → Outcome ℕ
get_submit_button_value i = if i == Sfi.submit_button then ok Sfi.password else err e_invalidarg

-- The pointer when the string of the field of the name is freed.
freed_with : ℕ → NamePointer → NamePointer
freed_with i edit_field = if i == Sfi.edit_text then freed else edit_field
freed_with i p = p

stored_string : Bool → Wide → Option Wide
stored_string true s = some s
stored_string false s = none

-- The old string is freed before the copy is made; the pointer follows only if there is one.
unfoldable pub set_string_value : (heap : Bool) → ℕ → Wide → Tile → Hresult × Tile
unfolding typed is_text_type stored_string freed_with
set_string_value heap i s t =
    if typed is_text_type i
    then (
      if heap then s_ok else e_outofmemory,
      record t {
        strings = put t.strings i (stored_string heap s);
        username = if heap && i == Sfi.edit_text then edit_field else freed_with i t.username;
      },
    )
    else (e_invalidarg, t)

unfoldable pub get_checkbox_value : (heap : Bool) → Tile → ℕ → Outcome (Bool × Wide)
unfolding typed is_checkbox copy_of
get_checkbox_value heap t i =
    if typed is_checkbox i
    then elim (copy_of heap (t.strings Sfi.checkbox)) [
      | ok label ↦ ok (t.checked, label)
      | err e ↦ err e
    ]
    else err e_invalidarg

unfoldable pub set_checkbox_value : ℕ → Bool → Tile → Hresult × Tile
unfolding typed is_checkbox
set_checkbox_value i b t =
    if typed is_checkbox i then (s_ok, record t { checked = b }) else (e_invalidarg, t)

abbrev pub combobox_strings : List Wide
combobox_strings = wide "First" ∷ wide "Second" ∷ wide "Third" ∷ []

item_at : List Wide → ℕ → Option Wide
item_at [] i = none
item_at (s ∷ rest) zero = some s
item_at (s ∷ rest) (suc i) = item_at rest i

-- The number of items and the selected one, which is always reported as the first.
unfoldable pub get_combobox_value_count : ℕ → Outcome (ℕ × ℕ)
unfolding typed is_combobox
get_combobox_value_count i = if typed is_combobox i then ok (3, 0) else err e_invalidarg

-- The item is not checked: `none` is a read outside of the array.
unfoldable pub get_combobox_value_at : (heap : Bool) → ℕ → ℕ → Option (Outcome Wide)
unfolding typed is_combobox item_at
get_combobox_value_at heap i item =
    if typed is_combobox i
    then elim (item_at combobox_strings item) [ none ↦ none | some s ↦ some (allocated heap s) ]
    else some (err e_invalidarg)

unfoldable pub set_combobox_selected_value : ℕ → ℕ → Tile → Hresult × Tile
unfolding typed is_combobox
set_combobox_selected_value i item t =
    if typed is_combobox i then (s_ok, record t { combo_index = item }) else (e_invalidarg, t)

-- The password field when the tile is deselected; without a string nothing is done.
clear_password : Bool → Option Wide → Tile → Hresult × Tile
unfolding stored_string
clear_password heap none t = (s_ok, t)
clear_password heap (some s) t = (
  if heap then s_ok else e_outofmemory,
  record t { strings = put t.strings Sfi.password (stored_string heap []) },
)

unfoldable pub set_deselected : (heap : Bool) → Tile → Hresult × Tile
unfolding clear_password
set_deselected heap t = clear_password heap (t.strings Sfi.password) t

-- In CredUI the entries are shown again.
unfoldable pub set_selected : Tile → Tile
unfolding is_credui
set_selected t =
    if is_credui t.scenario
    then record t {
      states =
          put
            (put (put t.states Sfi.edit_text (display_in_selected_tile, focused)) Sfi.password
              (display_in_selected_tile, plain))
            Sfi.submit_button (display_in_selected_tile, plain);
    }
    else t

-- The string of the field of the name is freed.
release_edit_text : Tile → Tile
unfolding freed_with
release_edit_text t = record t {
  strings = put t.strings Sfi.edit_text none;
  username = freed_with Sfi.edit_text t.username;
}

-- What the thread of a session writes under the lock after it got the password. A name takes the
-- place of the freed string, and the pointer follows.
fill_name : Option Wide → Tile → Tile
unfolding release_edit_text
fill_name none t = t
fill_name (some name) t =
    let t' = release_edit_text t in
    record t' { strings = put t'.strings Sfi.edit_text (some name); username = edit_field }

unfoldable pub fill : (recognized_username : Option Wide) → (password : Wide) → Tile → Tile
unfolding fill_name
fill recognized_username password t =
    let t' = fill_name recognized_username (record t {
      states =
          put (put (put t.states Sfi.edit_text (hidden, plain)) Sfi.password (hidden, plain))
            Sfi.submit_button (hidden, plain);
    }) in
    record t' { strings = put t'.strings Sfi.password (some password) }

unfoldable pub get_user_sid : (heap : Bool) → Tile → Hresult × Option Wide
get_user_sid heap t = elim t.user_sid [
  | none ↦ (s_false, none)
  | some sid ↦ if heap then (s_ok, some sid) else (e_outofmemory, none)
]

-- The part of the qualified name that the pointer goes to: behind the first backslash, if there is
-- one.
account_name : Wide → Wide
account_name q = elim (find b'\\' q) [ none ↦ q | some whack ↦ drop (whack + 1) q ]

name_read : NamePointer → (qualified edit : Option Wide) → Option (Option Wide)
unfolding account_name
name_read null qualified edit = some none
name_read qualified_name none edit = none
name_read qualified_name (some q) edit = some (some (account_name q))
name_read edit_field qualified none = none
name_read edit_field qualified (some s) = some (some s)
name_read freed qualified edit = none

-- What a reader of `_pwzUsername` finds: a text or a null pointer; `none` is a read of memory that
-- was freed.
unfoldable pub username_text : Tile → Option (Option Wide)
unfolding name_read
username_text t = name_read t.username t.qualified_user_name (t.strings Sfi.edit_text)
