-- ===== src/Credential/Service.antt =====
-- The service process that the credential provider keeps: IsSmile2UnlockServiceMutexPresent,
-- LaunchSmile2UnlockService, IsProcessStillRunning and TerminateSmile2UnlockService of
-- CredentialProvider/CSampleCredential.cpp. The answers of Windows are arguments.
pub mod Launched
use smile2unlock_v.Base.{
  ℕ, ◌+◌, ◌≡◌, ◌⊎◌, inl, inr, refl, List, [], ◌∷◌, Bool, true, false, not, ◌&&◌, Option, none, some,
  ◌++◌, ltb, ◌==◌, if◌then◌else◌, length, take, Bool-cases,
}
use smile2unlock_v.Base.Text.{Bytes, is_empty}
use smile2unlock_v.Credential.Results.{Hresult, s_ok, e_fail, Outcome, ok, err}
use smile2unlock_v.Credential.Names.{Wide, wide}

-- A process by its id: the handle and the id are set and cleared together.
abbrev pub Process : Type 0
Process = Option ℕ

-- What Windows answers to one launch. `exit_codes` tells in each round of the wait whether the new
-- process is active, or `none` where that is not told; `meanwhile` is what other threads do to the
-- process while the lock is free.
pub record LaunchCalls : Type 0 where
  pub still_active : Option Bool
  pub mutex_opened : Bool
  pub mutex_not_found : Bool
  pub registry_path : Bytes
  pub to_wide : Bytes → Option Wide
  pub module_path : Outcome Wide
  pub file_exists : Wide → Bool
  pub create_process : (command_line directory : Wide) → Outcome ℕ
  pub exit_codes : List (Option Bool)
  pub meanwhile : Process → Process

unfoldable pub is_smile2unlock_service_mutex_present : LaunchCalls → Bool
is_smile2unlock_service_mutex_present c = if c.mutex_opened then true else not c.mutex_not_found

abbrev pub max_path : ℕ
max_path = 260

ends_with_backslash : Wide → Bool
ends_with_backslash [] = false
ends_with_backslash (x ∷ []) = x == b'\\'
ends_with_backslash (x ∷ y ∷ s) = ends_with_backslash (y ∷ s)

-- wcscat_s: `none` is a text that does not fit, which ends the program.
unfoldable pub concatenated : Wide → Wide → Option Wide
concatenated a b = if ltb (length a + length b) max_path then some (a ++ b) else none

-- Up to the last backslash; the whole text where there is none.
directory_of : Wide → Wide
directory_of s = cut s [] none
  where
    cut : Wide → (seen : Wide) → Option Wide → Wide
    cut [] seen none = seen
    cut [] seen (some found) = found
    cut (x ∷ s) seen found =
        let seen' = seen ++ x ∷ [] in cut s seen' (if x == b'\\' then some seen' else found)

slashed : Wide → Option Wide
unfolding ends_with_backslash concatenated
slashed s =
    if not (length s == 0) && not (ends_with_backslash s)
    then concatenated s (wide "\\")
    else some s

-- The directory of the service: from the registry, or else the one of the running program. The
-- outer `none` ends the program.
from_module : Outcome Wide → Option (Outcome Wide)
unfolding directory_of
from_module (err e) = some (err e)
from_module (ok path) = some (ok (directory_of path))

from_registry : LaunchCalls → Option Wide → Option (Outcome Wide)
unfolding slashed from_module
from_registry c none = from_module c.module_path
from_registry c (some s) = elim (slashed s) [ none ↦ none | some d ↦ some (ok d) ]

module_directory : LaunchCalls → Option (Outcome Wide)
unfolding from_registry from_module
module_directory c =
    if is_empty c.registry_path
    then from_module c.module_path
    else from_registry c (c.to_wide c.registry_path)

-- The wait of 800 ms in steps of 50 ms: whether the new process was seen to exit.
unfoldable pub exits_early : List (Option Bool) → Bool
exits_early [] = false
exits_early (none ∷ codes) = false
exits_early (some active ∷ codes) = let rest = exits_early codes in if active then rest else true

is_process : ℕ → Process → Bool
is_process pid none = false
is_process pid (some n) = n == pid

created : LaunchCalls → Outcome ℕ → Hresult × Process
unfolding exits_early is_process
created c (err e) = (e, none)
created c (ok pid) =
    let now = c.meanwhile (some pid) in
    if exits_early (take 16 c.exit_codes)
    then (e_fail, if is_process pid now then none else now)
    else (s_ok, now)

with_exe : LaunchCalls → Wide → Wide → Hresult × Process
unfolding created
with_exe c directory exe =
    if not (c.file_exists exe)
    then (e_fail, none)
    else created c (c.create_process (wide "\"" ++ (exe ++ wide "\" --service")) directory)

launched_in : LaunchCalls → Option (Outcome Wide) → Option (Hresult × Process)
unfolding concatenated with_exe
launched_in c none = none
launched_in c (some (err e)) = some (e, none)
launched_in c (some (ok directory)) = elim (concatenated directory (wide "Smile2Unlock.exe")) [
  | none ↦ none
  | some exe ↦ some (with_exe c directory exe)
]

launch_anew : LaunchCalls → Option (Hresult × Process)
unfolding is_smile2unlock_service_mutex_present module_directory launched_in
launch_anew c =
    if is_smile2unlock_service_mutex_present c
    then some (s_ok, none)
    else launched_in c (module_directory c)

-- The result and the process that is kept; the outer `none` ends the program.
unfoldable pub launch_smile2unlock_service : LaunchCalls → Process → Option (Hresult × Process)
unfolding launch_anew
launch_smile2unlock_service c none = launch_anew c
launch_smile2unlock_service c (some pid) = elim c.still_active [
  | some true ↦ some (s_ok, some pid)
  | _ ↦ launch_anew c
]

unfoldable pub is_process_still_running : (still_active : Option Bool) → Process → Bool
is_process_still_running still_active none = false
is_process_still_running none (some pid) = false
is_process_still_running (some active) (some pid) = active

-- What is done to the process before its handle is closed: nothing, a wait, or a wait that ends in a
-- termination.
pub data Ending : Type 0 where
  left_alone waited terminated : Ending

-- `timed_out` is the wait of one second.
unfoldable pub terminate_smile2unlock_service :
    (still_active : Option Bool) → (timed_out terminates : Bool) → Process → Ending × Process
terminate_smile2unlock_service still_active timed_out terminates none = (left_alone, none)
terminate_smile2unlock_service (some true) timed_out terminates (some pid) =
    (if timed_out && terminates then terminated else waited, none)
terminate_smile2unlock_service _ timed_out terminates (some pid) = (left_alone, none)
