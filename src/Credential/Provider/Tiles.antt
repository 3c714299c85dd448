-- ===== src/Credential/Provider/Tiles.antt =====
-- When the tile that LogonUI asks for exists, and how often it logs on by itself.
use smile2unlock_v.Base.{
  ◌<◌, ◌≡◌, ◌⊎◌, inl, inr, refl, List, [], ◌∷◌, ◌++◌, Bool, true, false, Option, none, some, All,
  ap, ◌∙◌, lt→ltb,
}
use smile2unlock_v.Credential.Results.{ok}
use smile2unlock_v.Credential.Logon.{
  UsageScenario, logon, unlock_workstation, change_password, credui, other_scenario,
}
use smile2unlock_v.Credential.Fields.{Tile}
use smile2unlock_v.Credential.Fields.Initial.{TileUser, initialize}
use smile2unlock_v.Credential.Provider.{
  UserArray, Provider, Memory, tile_given, null_call, set_usage_scenario, advise, un_advise,
  on_credential_ready, reset_credential_ready, set_user_array, get_credential_count,
  get_credential_at, create_enumerated_credentials, recreated, made_tile, enumerate_credentials,
  enumerate_empty_tile_credential, tile_of_first, given,
}

-- The tile that LogonUI should be given: of the first user, or an empty one in CredUI.
pub data Expected (m : Memory) : UsageScenario → Option UserArray → Tile → Type 0 where
  empty_tile :
      (users : Option UserArray) → Expected m credui users (initialize m.string_made credui none)
  logon_tile :
      (users : UserArray) (user : TileUser)
      → 0 < users.count
      → users.first ≡ ok user
      → Expected m logon (some users) (initialize m.string_made logon (some user))
  unlock_tile :
      (users : UserArray) (user : TileUser)
      → 0 < users.count
      → users.first ≡ ok user
      → Expected m unlock_workstation
          (some users)
          (initialize m.string_made unlock_workstation (some user))

created-Expected :
    (m : Memory) {scenario : UsageScenario} {users : Option UserArray} {t : Tile}
    → m.credential_made ≡ true
    → Expected m scenario users t
    → create_enumerated_credentials m scenario users ≡ some t
unfolding create_enumerated_credentials enumerate_credentials enumerate_empty_tile_credential
    made_tile tile_of_first
created-Expected m made (empty_tile users) = rw made refl
created-Expected m made (logon_tile users user pos first) =
    rw (first, lt→ltb 0 users.count pos, made) refl
created-Expected m made (unlock_tile users user pos first) =
    rw (first, lt→ltb 0 users.count pos, made) refl

chosen_scenario :
    {m : Memory} {scenario : UsageScenario} {users : Option UserArray} {t : Tile} (p : Provider)
    → Expected m scenario users t
    → (set_usage_scenario scenario p).1
      ≡ record p { scenario = scenario; recreate = true; credential_ready = false }
unfolding set_usage_scenario
chosen_scenario p (empty_tile users) = refl
chosen_scenario p (logon_tile users user pos first) = refl
chosen_scenario p (unlock_tile users user pos first) = refl

-- After a scenario was chosen, with memory for a credential: LogonUI is told of one tile, and is
-- given the tile of the first user, or an empty one in CredUI.
get_credential_at-Expected :
    (m : Memory) (scenario : UsageScenario) (users : Option UserArray) (p : Provider) (t : Tile)
    → m.credential_made ≡ true
    → p.users ≡ users
    → Expected m scenario users t
    → let (count, p') = get_credential_count m (set_usage_scenario scenario p).1 in
      (count.count ≡ 1) × (get_credential_at 0 p' ≡ tile_given t)
unfolding get_credential_at get_credential_count recreated given
get_credential_at-Expected m scenario users p t made u e =
    rw (chosen_scenario p e) (refl, rw (u, created-Expected m made e) refl)

-- Without a user to show, in a logon scenario, LogonUI is told of one tile all the same, and asking
-- for it calls through a null pointer.
pub get_credential_at-no_users :
    (m : Memory) (scenario : UsageScenario) (p : Provider)
    → (scenario ≡ logon) ⊎ (scenario ≡ unlock_workstation)
    → (p.users ≡ none) ⊎ ((users : UserArray) × (p.users ≡ some users) × (users.count ≡ 0))
    → let (count, p') = get_credential_count m (set_usage_scenario scenario p).1 in
      (count.count ≡ 1) × (get_credential_at 0 p' ≡ null_call)
unfolding get_credential_at get_credential_count set_usage_scenario recreated given
    create_enumerated_credentials enumerate_credentials
get_credential_at-no_users m scenario p (inl s) (inl u) = rw (s, u) (refl, refl)
get_credential_at-no_users m scenario p (inr s) (inl u) = rw (s, u) (refl, refl)
get_credential_at-no_users m scenario p (inl s) (inr (users, u, z)) = rw (s, u) (refl, rw z refl)
get_credential_at-no_users m scenario p (inr s) (inr (users, u, z)) = rw (s, u) (refl, rw z refl)

-- What happens to a provider between two counts.
pub data Signal : Type 0 where
  ready reset unadvised : Signal
  advised : Bool → Signal
  users_set : Option UserArray → Signal
  scenario_set : UsageScenario → Signal

unfoldable pub signal : Signal → Provider → Provider
signal ready p = (on_credential_ready p).1
signal reset p = reset_credential_ready p
signal unadvised p = un_advise p
signal (advised events) p = advise events p
signal (users_set users) p = set_user_array users p
signal (scenario_set scenario) p = (set_usage_scenario scenario p).1

unfoldable pub signal_all : List Signal → Provider → Provider
unfolding signal
signal_all [] p = p
signal_all (e ∷ signals) p = signal_all signals (signal e p)

-- Signals that do not touch the readiness.
abbrev pub IsNeutral : Signal → Type 0
IsNeutral (advised events) = Unit
IsNeutral (users_set users) = Unit
IsNeutral _ = ⊥

-- What the others make of it.
pub data Leaves : Signal → Bool → Type 0 where
  ready_leaves : Leaves ready true
  reset_leaves : Leaves reset false
  unadvised_leaves : Leaves unadvised false
  scenario_leaves : (scenario : UsageScenario) → Leaves (scenario_set scenario) false

signal-Leaves :
    {e : Signal} {b : Bool} (p : Provider) → Leaves e b → (signal e p).credential_ready ≡ b
unfolding signal on_credential_ready reset_credential_ready un_advise set_usage_scenario
signal-Leaves p ready_leaves = refl
signal-Leaves p reset_leaves = refl
signal-Leaves p unadvised_leaves = refl
signal-Leaves p (scenario_leaves change_password) = refl
signal-Leaves p (scenario_leaves (other_scenario n)) = refl
signal-Leaves p (scenario_leaves _) = refl

signal_all-neutral :
    (signals : List Signal) (p : Provider)
    → All IsNeutral signals
    → (signal_all signals p).credential_ready ≡ p.credential_ready
unfolding signal_all signal advise set_user_array
signal_all-neutral [] p n = refl
signal_all-neutral (ready ∷ signals) p n = absurd n.0
signal_all-neutral (reset ∷ signals) p n = absurd n.0
signal_all-neutral (unadvised ∷ signals) p n = absurd n.0
signal_all-neutral (advised events ∷ signals) p n = signal_all-neutral signals (advise events p) n.1
signal_all-neutral (users_set users ∷ signals) p n =
    signal_all-neutral signals (set_user_array users p) n.1
signal_all-neutral (scenario_set scenario ∷ signals) p n = absurd n.0

signal_all-append :
    (before after : List Signal) (p : Provider)
    → signal_all (before ++ after) p ≡ signal_all after (signal_all before p)
unfolding signal_all
signal_all-append [] after p = refl
signal_all-append (e ∷ before) after p = signal_all-append before after (signal e p)

-- A count tells LogonUI to log on by itself exactly when the last signal that touches the readiness
-- was that a credential is ready, whatever came before; and the next count, with no signal in
-- between, does not.
pub auto_logon_once :
    (m m' : Memory) (p : Provider) (before later : List Signal) (e : Signal) (b : Bool)
    → Leaves e b
    → All IsNeutral later
    → let (count, p') = get_credential_count m (signal_all (before ++ e ∷ later) p) in
      (count.auto_logon ≡ b) × ((get_credential_count m' p').0.auto_logon ≡ false)
unfolding get_credential_count signal_all
auto_logon_once m m' p before later e b l n = (
  ap (λ (q : Provider). q.credential_ready) (signal_all-append before (e ∷ later) p)
      ∙ signal_all-neutral later (signal e (signal_all before p)) n
      ∙ signal-Leaves (signal_all before p) l,
  refl,
)
