-- ===== src/Credential/Fields/Reports.antt =====
-- GetFieldOptions and ReportResult of CredentialProvider/CSampleCredential.cpp.
use smile2unlock_v.Base.{
  ℕ, Bool, true, not, ◌&&◌, Option, none, some, ◌^◌, ltb, ◌==◌, if◌then◌else◌,
}
use smile2unlock_v.Credential.Names.{Wide, wide}
use smile2unlock_v.Credential.Fields.Sfi
use smile2unlock_v.Credential.Fields.{Tile}

-- CREDENTIAL_PROVIDER_CREDENTIAL_FIELD_OPTIONS.
pub data FieldOptions : Type 0 where
  no_options password_reveal touch_keyboard_auto_invoke : FieldOptions

unfoldable pub get_field_options : ℕ → FieldOptions
get_field_options i =
    if i == Sfi.password
    then password_reveal
    else if i == Sfi.tile_image
    then touch_keyboard_auto_invoke
    else no_options

pub data StatusIcon : Type 0 where
  icon_none icon_error icon_warning : StatusIcon

-- The text and the icon of s_rgLogonStatusInfo for a status and its substatus.
logon_status_info : ℕ → ℕ → Option (Wide × StatusIcon)
logon_status_info status substatus =
    if status == 0xC000006E && substatus == 0
    then some (wide "Incorrect password or username.", icon_error)
    else if status == 0xC0000202 && substatus == 0xC0000001
    then some (wide "The account is disabled.", icon_warning)
    else none

told : Bool → Option (Wide × StatusIcon) → Option Wide × StatusIcon
told true (some (message, icon)) = (some message, icon)
told heap info = (none, icon_none)

-- The text and the icon, and whether the password on the screen is emptied: an NTSTATUS is a
-- failure if its highest bit is set.
unfoldable pub report_result : (heap : Bool) → ℕ → ℕ → Tile → (Option Wide × StatusIcon) × Bool
unfolding logon_status_info told
report_result heap status substatus t =
    (told heap (logon_status_info status substatus), not (ltb status (2 ^ 31)) && t.has_events)
