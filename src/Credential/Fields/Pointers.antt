-- ===== src/Credential/Fields/Pointers.antt =====
-- What the fields keep, and that the name of the tile is read from memory that exists.
use smile2unlock_v.Base.{
  ℕ, ◌≡◌, inl, inr, refl, List, [], ◌∷◌, Bool, true, false, ◌&&◌, ==_iff, Option, none, some, arith,
  ◌==◌, if◌then◌else◌, Bool-cases,
}
use smile2unlock_v.Credential.Results.{ok}
use smile2unlock_v.Credential.Names.{Wide}
use smile2unlock_v.Credential.Logon.{UsageScenario, is_credui}
use smile2unlock_v.Credential.Fields.Sfi
use smile2unlock_v.Credential.Fields.{
  Tile, NamePointer, null, qualified_name, edit_field, freed, set_string_value, get_string_value,
  set_checkbox_value, set_combobox_selected_value, set_deselected, set_selected, fill,
  username_text, typed, is_text_type, is_checkbox, is_combobox, stored_string, freed_with,
  name_read, clear_password, fill_name, account_name, field_type,
}
use smile2unlock_v.Credential.Fields.Initial.{
  TileUser, initialize, initial_name, initial_string, qualified_of,
}

-- What LogonUI and the session do to the fields, with memory for every copy.
pub data FieldAction : Type 0 where
  type_text : (field : ℕ) → Wide → FieldAction
  check_box : (field : ℕ) → Bool → FieldAction
  choose : (field item : ℕ) → FieldAction
  select deselect : FieldAction
  fill_in : (recognized_username : Option Wide) → (password : Wide) → FieldAction

unfoldable pub act : FieldAction → Tile → Tile
act (type_text i s) t = (set_string_value true i s t).1
act (check_box i b) t = (set_checkbox_value i b t).1
act (choose i item) t = (set_combobox_selected_value i item t).1
act select t = set_selected t
act deselect t = (set_deselected true t).1
act (fill_in name password) t = fill name password t

unfoldable pub act_all : List FieldAction → Tile → Tile
unfolding act
act_all [] t = t
act_all (a ∷ actions) t = act_all actions (act a t)

-- With memory for the copies, a text that is typed into a field for texts is what the field shows,
-- and the other fields show what they did; a field that is for no text refuses it and nothing
-- changes.
get_string_value-set_string_value :
    (i j : ℕ) (s : Wide) (t : Tile)
    → get_string_value true (set_string_value true i s t).1 j
      ≡ (if typed is_text_type i && i == j then ok s else get_string_value true t j)
unfolding get_string_value set_string_value
get_string_value-set_string_value i j s t = ground (arith, ==_iff i j)

is_readable : NamePointer → (qualified edit : Option Wide) → Bool
is_readable null qualified edit = true
is_readable qualified_name (some q) edit = true
is_readable edit_field qualified (some s) = true
is_readable _ _ _ = false

readable : Tile → Bool
readable t = is_readable t.username t.qualified_user_name (t.strings Sfi.edit_text)

-- A copy into another field leaves the pointer as it was.
other_field : (i : ℕ) (p : NamePointer) → (i == Sfi.edit_text) ≡ false → freed_with i p ≡ p
unfolding freed_with
other_field i edit_field e = rw e refl
other_field i null e = refl
other_field i _ e = refl

typed-readable :
    (i : ℕ) (s : Wide) (t : Tile)
    → readable t ≡ true
    → readable (set_string_value true i s t).1 ≡ true
unfolding readable is_readable set_string_value stored_string
typed-readable i s t r = elim (Bool-cases (typed is_text_type i)) [
  | inr e ↦ rw e r
  | inl e ↦ elim (Bool-cases (i == Sfi.edit_text)) [
    | inl f ↦ rw (e, f) refl
    | inr f ↦ rw (e, f, other_field i t.username f) r
  ]
]

cleared-readable :
    (o : Option Wide) (t : Tile) → readable t ≡ true → readable (clear_password true o t).1 ≡ true
unfolding readable clear_password
cleared-readable none t r = r
cleared-readable (some s) t r = r

filled-readable :
    (name : Option Wide) (password : Wide) (t : Tile)
    → readable t ≡ true
    → readable (fill name password t) ≡ true
unfolding readable is_readable fill fill_name
filled-readable none password t r = r
filled-readable (some name) password t r = refl

box-readable :
    (i : ℕ) (b : Bool) (t : Tile) → readable t ≡ true → readable (set_checkbox_value i b t).1 ≡ true
unfolding readable set_checkbox_value
box-readable i b t r = elim (Bool-cases (typed is_checkbox i)) [ inl e ↦ rw e r | inr e ↦ rw e r ]

chosen-readable :
    (i item : ℕ) (t : Tile)
    → readable t ≡ true
    → readable (set_combobox_selected_value i item t).1 ≡ true
unfolding readable set_combobox_selected_value
chosen-readable i item t r = elim (Bool-cases (typed is_combobox i)) [
  | inl e ↦ rw e r
  | inr e ↦ rw e r
]

selected-readable : (t : Tile) → readable t ≡ true → readable (set_selected t) ≡ true
unfolding readable set_selected
selected-readable t r = elim (Bool-cases (is_credui t.scenario)) [ inl e ↦ rw e r | inr e ↦ rw e r ]

act-readable : (a : FieldAction) (t : Tile) → readable t ≡ true → readable (act a t) ≡ true
unfolding act set_deselected
act-readable (type_text i s) t r = typed-readable i s t r
act-readable (check_box i b) t r = box-readable i b t r
act-readable (choose i item) t r = chosen-readable i item t r
act-readable select t r = selected-readable t r
act-readable deselect t r = cleared-readable (t.strings Sfi.password) t r
act-readable (fill_in name password) t r = filled-readable name password t r

act_all-readable :
    (actions : List FieldAction) (t : Tile)
    → readable t ≡ true
    → readable (act_all actions t) ≡ true
unfolding act_all
act_all-readable [] t r = r
act_all-readable (a ∷ actions) t r = act_all-readable actions (act a t) (act-readable a t r)

initialize-readable :
    (made : ℕ → Bool) (scenario : UsageScenario) (user : Option TileUser)
    → readable (initialize made scenario user) ≡ true
unfolding initialize readable initial_name is_readable
initialize-readable made scenario user =
    go scenario (qualified_of user)
      (if made Sfi.edit_text then initial_string scenario user Sfi.edit_text else none)
  where
    go :
        (scenario : UsageScenario) (q e : Option Wide)
        → is_readable (initial_name scenario q e) q e ≡ true
    go scenario (some q) e = refl
    go scenario none none = refl
    go scenario none (some s) = elim (Bool-cases (is_credui scenario)) [
      | inl c ↦ rw c refl
      | inr c ↦ rw c refl
    ]

readable-name_read :
    (p : NamePointer) (q e : Option Wide)
    → is_readable p q e ≡ true
    → (name : Option Wide) × (name_read p q e ≡ some name)
unfolding is_readable name_read
readable-name_read null q e r = (none, refl)
readable-name_read qualified_name none e r = cc
readable-name_read qualified_name (some s) e r = (some (account_name s), refl)
readable-name_read edit_field q none r = cc
readable-name_read edit_field q (some s) r = (some s, refl)
readable-name_read freed q e r = cc

-- Whatever is typed and chosen, selected and deselected, and filled in by sessions, one after the
-- other and none while another runs, from the first state of a tile on and with memory for every
-- later copy: `_pwzUsername` is null or is read from memory that exists, though the string that it
-- pointed to may have been freed.
pub username_text-act_all :
    (made : ℕ → Bool) (scenario : UsageScenario) (user : Option TileUser)
    (actions : List FieldAction)
    → (name : Option Wide) × (username_text (act_all actions (initialize made scenario user))
        ≡ some name)
unfolding username_text readable
username_text-act_all made scenario user actions =
    let t = act_all actions (initialize made scenario user) in
    readable-name_read t.username t.qualified_user_name (t.strings Sfi.edit_text) (
      act_all-readable actions (initialize made scenario user)
        (initialize-readable made scenario user))

-- Without memory for the copy it is not: a text that is typed into the field of the name, when the
-- pointer goes there, leaves the pointer to the string that was freed.
pub set_string_value_dangling :
    (s : Wide) (t : Tile)
    → t.username ≡ edit_field
    → username_text (set_string_value false Sfi.edit_text s t).1 ≡ none
unfolding set_string_value username_text name_read freed_with typed is_text_type field_type
set_string_value_dangling s t e = rw e refl
