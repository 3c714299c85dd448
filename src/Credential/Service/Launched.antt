-- ===== src/Credential/Service/Launched.antt =====
-- What a launch of the service leaves behind.
use smile2unlock_v.Base.{
  ℕ, ◌≡◌, refl, Bool, true, false, Option, none, some, ◌++◌, take, Bool-cases, inl, inr, ==_refl,
}
use smile2unlock_v.Credential.Results.{Hresult, s_ok, e_fail, Outcome, ok, err}
use smile2unlock_v.Credential.Names.{Wide, wide}
use smile2unlock_v.Credential.Service.{
  Process, LaunchCalls, is_smile2unlock_service_mutex_present, concatenated, exits_early,
  is_process, created, with_exe, launched_in, launch_anew, launch_smile2unlock_service,
  module_directory,
}

abbrev quoted : Wide → Wide
quoted exe = wide "\"" ++ (exe ++ wide "\" --service")

-- The process that was kept is active; or another instance runs; or a new process of the program in
-- the directory of the service was not seen to exit; or no process is kept.
data Launched (c : LaunchCalls) (p : Process) : Hresult × Process → Type 0 where
  kept : (pid : ℕ) → p ≡ some pid → c.still_active ≡ some true → Launched c p (s_ok, some pid)
  external : is_smile2unlock_service_mutex_present c ≡ true → Launched c p (s_ok, none)
  started :
      (directory exe : Wide) (pid : ℕ)
      → concatenated directory (wide "Smile2Unlock.exe") ≡ some exe
      → c.file_exists exe ≡ true
      → c.create_process (quoted exe) directory ≡ ok pid
      → exits_early (take 16 c.exit_codes) ≡ false
      → Launched c p (s_ok, some pid)
  nothing_kept : (hr : Hresult) → Launched c p (hr, none)

abbrev Ends : LaunchCalls → Process → Option (Hresult × Process) → Type 0
Ends c p none = Unit
Ends c p (some r) = Launched c p r

module _ (c : LaunchCalls) (p : Process) (alone : (q : Process) → c.meanwhile q ≡ q) where
  created-Launched :
      (directory exe : Wide)
      → concatenated directory (wide "Smile2Unlock.exe") ≡ some exe
      → c.file_exists exe ≡ true
      → (made : Outcome ℕ) → c.create_process (quoted exe) directory ≡ made
      → Launched c p (created c made)
  unfolding created is_process
  created-Launched directory exe at there (err e) m = nothing_kept e
  created-Launched directory exe at there (ok pid) m =
      elim (Bool-cases (exits_early (take 16 c.exit_codes))) [
        | inl e ↦ rw (alone (some pid), e, ==_refl pid) (nothing_kept e_fail)
        | inr e ↦ rw (alone (some pid), e) (started directory exe pid at there m e)
      ]

  with_exe-Launched :
      (directory exe : Wide)
      → concatenated directory (wide "Smile2Unlock.exe") ≡ some exe
      → Launched c p (with_exe c directory exe)
  unfolding with_exe
  with_exe-Launched directory exe at = elim (Bool-cases (c.file_exists exe)) [
    | inr f ↦ rw f (nothing_kept e_fail)
    | inl f ↦
        rw f (created-Launched directory exe at f (c.create_process (quoted exe) directory) refl)
  ]

  launched_in-Ends : (directory : Option (Outcome Wide)) → Ends c p (launched_in c directory)
  unfolding launched_in
  launched_in-Ends none = tt
  launched_in-Ends (some (err e)) = nothing_kept e
  launched_in-Ends (some (ok directory)) =
      by_path (concatenated directory (wide "Smile2Unlock.exe")) refl
    where
      by_path :
          (path : Option Wide)
          → concatenated directory (wide "Smile2Unlock.exe") ≡ path
          → Ends c p (elim path [ none ↦ none | some exe ↦ some (with_exe c directory exe) ])
      by_path none e = tt
      by_path (some exe) e = with_exe-Launched directory exe e

  launch_anew-Ends : Ends c p (launch_anew c)
  unfolding launch_anew
  launch_anew-Ends = elim (Bool-cases (is_smile2unlock_service_mutex_present c)) [
    | inl m ↦ rw m (external m)
    | inr m ↦ rw m (launched_in-Ends (module_directory c))
  ]

  -- A launch that returns, while no other thread touches the process, succeeds with a process that
  -- is active, with another instance, or with a new process of the service; in every other case the
  -- provider keeps no process.
  launch_smile2unlock_service-Ends : Ends c p (launch_smile2unlock_service c p)
  unfolding launch_smile2unlock_service
  launch_smile2unlock_service-Ends = by_process p refl
    where
      by_answer :
          (pid : ℕ) (answer : Option Bool)
          → p ≡ some pid
          → c.still_active ≡ answer
          → Ends c p (elim answer [ some true ↦ some (s_ok, some pid) | _ ↦ launch_anew c ])
      by_answer pid none e a = launch_anew-Ends
      by_answer pid (some false) e a = launch_anew-Ends
      by_answer pid (some true) e a = kept pid e a

      by_process : (q : Process) → p ≡ q → Ends c p (launch_smile2unlock_service c q)
      by_process none e = launch_anew-Ends
      by_process (some pid) e = by_answer pid c.still_active e refl
