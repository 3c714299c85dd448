-- ===== src/Credential/Provider.antt =====
-- CredentialProvider/CSampleProvider.cpp: which tile LogonUI is given, and when it logs on without
-- being asked. Reference counts and messages are not modelled; a credential is the tile that
-- Initialize makes of it (Credential/Fields).
pub mod Tiles
use smile2unlock_v.Base.{
  ℕ, ◌<◌, ◌≡◌, List, [], ◌∷◌, Bool, true, false, not, ◌&&◌, ◌||◌, Option, none, some, ltb, ◌==◌,
  if◌then◌else◌,
}
use smile2unlock_v.Credential.Results.{
  Hresult, s_ok, e_invalidarg, e_notimpl, e_outofmemory, Outcome, ok, err, allocated,
}
use smile2unlock_v.Credential.Logon.{
  UsageScenario, logon, unlock_workstation, change_password, credui, other_scenario,
}
use smile2unlock_v.Credential.Fields.Sfi
use smile2unlock_v.Credential.Fields.{FieldType, field_type, Tile}
use smile2unlock_v.Credential.Fields.Initial.{TileUser, initialize}

-- ICredentialProviderUserArray: the number of users, and what GetAt(0) gives.
pub record UserArray : Type 0 where
  pub count : ℕ
  pub first : Outcome TileUser

pub record Provider : Type 0 where
  pub scenario : UsageScenario
  pub recreate : Bool
  pub credential : Option Tile
  pub users : Option UserArray
  pub has_events : Bool
  pub credential_ready : Bool

-- Memory for a new credential, and for each of its strings.
pub record Memory : Type 0 where
  pub credential_made : Bool
  pub string_made : ℕ → Bool

unfoldable pub set_usage_scenario : UsageScenario → Provider → Hresult × Provider
set_usage_scenario change_password p = (e_notimpl, record p { credential_ready = false })
set_usage_scenario (other_scenario n) p = (e_invalidarg, record p { credential_ready = false })
set_usage_scenario scenario p =
    (s_ok, record p { scenario = scenario; recreate = true; credential_ready = false })

unfoldable pub advise : (events : Bool) → Provider → Provider
advise events p = record p { has_events = events }

unfoldable pub un_advise : Provider → Provider
un_advise p = record p { has_events = false; credential_ready = false }

-- With whether LogonUI is told that the credentials have changed.
unfoldable pub on_credential_ready : Provider → Bool × Provider
on_credential_ready p = (p.has_events, record p { credential_ready = true })

unfoldable pub reset_credential_ready : Provider → Provider
reset_credential_ready p = record p { credential_ready = false }

unfoldable pub set_user_array : Option UserArray → Provider → Provider
set_user_array users p = record p { users = users }

unfoldable pub get_field_descriptor_count : ℕ
get_field_descriptor_count = Sfi.num_fields

unfoldable pub get_field_descriptor_at : (heap : Bool) → ℕ → Outcome (ℕ × FieldType)
get_field_descriptor_at heap i =
    if ltb i Sfi.num_fields then allocated heap (i, field_type i) else err e_invalidarg

made_tile : Memory → UsageScenario → Option TileUser → Option Tile
made_tile m scenario user =
    if m.credential_made then some (initialize m.string_made scenario user) else none

tile_of_first : Memory → UsageScenario → Outcome TileUser → Option Tile
unfolding made_tile
tile_of_first m scenario (ok user) = made_tile m scenario (some user)
tile_of_first m scenario (err e) = none

-- The tile of the first user.
enumerate_credentials : Memory → UsageScenario → Option UserArray → Option Tile
unfolding tile_of_first
enumerate_credentials m scenario none = none
enumerate_credentials m scenario (some users) =
    if ltb 0 users.count then tile_of_first m scenario users.first else none

enumerate_empty_tile_credential : Memory → UsageScenario → Option Tile
unfolding made_tile
enumerate_empty_tile_credential m scenario = made_tile m scenario none

unfoldable pub create_enumerated_credentials :
    Memory → UsageScenario → Option UserArray → Option Tile
unfolding enumerate_credentials enumerate_empty_tile_credential
create_enumerated_credentials m logon users = enumerate_credentials m logon users
create_enumerated_credentials m unlock_workstation users =
    enumerate_credentials m unlock_workstation users
create_enumerated_credentials m credui users = enumerate_empty_tile_credential m credui
create_enumerated_credentials m _ users = none

-- The old credential is released before a new one is made.
recreated : Memory → Provider → Provider
unfolding create_enumerated_credentials
recreated m p =
    if p.recreate
    then record p {
      recreate = false;
      credential = create_enumerated_credentials m p.scenario p.users;
    }
    else p

pub record CredentialCount : Type 0 where
  pub count : ℕ
  pub default_index : ℕ
  pub auto_logon : Bool

unfoldable pub get_credential_count : Memory → Provider → CredentialCount × Provider
unfolding recreated
get_credential_count m p = (
  record { count = 1; default_index = 0; auto_logon = p.credential_ready },
  record (recreated m p) { credential_ready = false },
)

-- What GetCredentialAt comes to: a tile, a code, or a call through a null pointer.
pub data Tiled : Type 0 where
  tile_given : Tile → Tiled
  refused : Hresult → Tiled
  null_call : Tiled

given : Option Tile → Tiled
given none = null_call
given (some t) = tile_given t

unfoldable pub get_credential_at : ℕ → Provider → Tiled
unfolding given
get_credential_at i p = if i == 0 then given p.credential else refused e_invalidarg
