-- ===== src/Credential/Serialization/Packed.antt =====
-- What WinLogon reads of the credential that GetSerialization packs.
use smile2unlock_v.Base.{ℕ, ◌^◌, ◌<◌, ◌≡◌, refl, true, false, some, length}
use smile2unlock_v.Credential.Results.{Outcome, ok, err, ◌>>=◌}
use smile2unlock_v.Credential.Names.{Wide, serialized_names}
use smile2unlock_v.Credential.Logon.{
  UsageScenario, is_credui, credui, change_password, other_scenario, logon, unlock_workstation,
  PackedLogon, wide_bytes, kerb_interactive_unlock_logon_init, kerb_interactive_unlock_logon_pack,
}
use smile2unlock_v.Credential.Logon.Reading.{
  read_logon, expected_message_type, IsServed, read-pack-init,
}
use smile2unlock_v.Credential.Serialization.{
  Calls, logon_named, TileTexts, kerb_blob, finished_with, protect_if_necessary_and_copy_password,
  retrieve_negotiate_auth_package, get_serialization,
}

-- The scenarios that are packed for Kerberos.
abbrev pub IsLogon : UsageScenario → Type 0
IsLogon logon = Unit
IsLogon unlock_workstation = Unit
IsLogon _ = ⊥

mapped-ok :
    {A B : Type 0} (m : Outcome A) (f : A → B) {v : B}
    → (m >>= λ a. ok (f a)) ≡ ok v
    → (a : A) × (m ≡ ok a) × (f a ≡ v)
mapped-ok (ok a) f h = (a, refl, cc)
mapped-ok (err e) f h = cc

IsLogon-credui : (scenario : UsageScenario) → IsLogon scenario → is_credui scenario ≡ false
unfolding is_credui
IsLogon-credui logon l = refl
IsLogon-credui credui l = absurd l
IsLogon-credui _ l = refl

IsLogon-IsServed : (scenario : UsageScenario) → IsLogon scenario → IsServed scenario
IsLogon-IsServed logon l = tt
IsLogon-IsServed unlock_workstation l = tt
IsLogon-IsServed change_password l = absurd l
IsLogon-IsServed credui l = absurd l
IsLogon-IsServed (other_scenario n) l = absurd l

packed_of :
    (size base : ℕ) (domain username password : Wide) (scenario : UsageScenario)
    → 0 < size
    → size < 2 ^ 31
    → length domain < 2 ^ 15
    → length username < 2 ^ 15
    → length password < 2 ^ 15
    → IsLogon scenario
    → (r : PackedLogon × ℕ) × ((kerb_interactive_unlock_logon_init
            (some domain)
            (some username)
            (some password)
            scenario
          >>= λ i. kerb_interactive_unlock_logon_pack size true i)
        ≡ ok r)
      × (read_logon size base r ≡ (
        expected_message_type scenario,
        wide_bytes domain,
        wide_bytes username,
        wide_bytes password,
      ))
packed_of size base domain username password scenario pos small hd hu hp l =
    mapped-ok
      (kerb_interactive_unlock_logon_init (some domain) (some username) (some password) scenario
        >>= λ i. kerb_interactive_unlock_logon_pack size true i)
      (read_logon size base)
      (read-pack-init size base domain username password scenario pos small hd hu hp
        (IsLogon-IsServed scenario l))

module _ (size base : ℕ) (c : Calls) (scenario : UsageScenario) (t : TileTexts)
    (domain username password protected : Wide) (n : ℕ) where
  -- Outside of CredUI, when every call succeeds: the credential is reported as finished, and a
  -- reader finds in it the type of the scenario's message, the chosen domain and user, and the
  -- password of the field in the clear, whatever its protected copy is. The three texts have fewer
  -- than 2^15 units.
  pub get_serialization-reads :
      0 < size
      → size < 2 ^ 31
      → IsLogon scenario
      → serialized_names c.name_heap c.second_name_heap c.computer_name t.qualified_name t.username
        ≡ ok (domain, username)
      → t.password_text ≡ some password
      → length domain < 2 ^ 15
      → length username < 2 ^ 15
      → length password < 2 ^ 15
      → protect_if_necessary_and_copy_password c.protection c.password_heap c.password_copy_heap
          (some password)
          scenario
        ≡ ok protected
      → c.blob_heap ≡ true
      → retrieve_negotiate_auth_package c.lsa_connect c.lsa_lookup ≡ ok n
      → (r : PackedLogon × ℕ) × (get_serialization size c scenario t
          ≡ finished_with (kerb_blob r) n)
        × (read_logon size base r ≡ (
          expected_message_type scenario,
          wide_bytes domain,
          wide_bytes username,
          wide_bytes password,
        ))
  unfolding get_serialization logon_named
  get_serialization-reads pos small l names pw hd hu hp pr heap lsa =
      let (r, packed, read) =
        packed_of size base domain username password scenario pos small hd hu hp l in
      (r, rw (IsLogon-credui scenario l, names, pw, pr, heap, packed, lsa) refl, read)
