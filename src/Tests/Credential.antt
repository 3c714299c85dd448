-- ===== src/Tests/Credential.antt =====
-- The names, the credential, the requests, the fields and the tiles of the credential provider.
use smile2unlock_v.Base.{
  ◌&&◌, not, if◌then◌else◌, ℕ, ◌≡◌, refl, [], ◌∷◌, true, false, Option, none, some, arith, subst,
  take,
}
use smile2unlock_v.Base.Text.{Bytes, text, same, is_empty}
use smile2unlock_v.Udp.Memory.{until_nul}
use smile2unlock_v.Udp.Status.RoundTrip.{shown_username}
use smile2unlock_v.Credential.Results.{ok, ◌>>=◌}
use smile2unlock_v.Credential.Names.{Wide, wide, contains, serialized_names}
use smile2unlock_v.Credential.Logon.{unlock_workstation, PackedLogon, wide_bytes}
use smile2unlock_v.Credential.Logon.Reading.{read_logon, expected_message_type}
use smile2unlock_v.Credential.Serialization.{
  Calls, TileTexts, kerb_blob, finished_with, get_serialization, credui_name,
  protect_if_necessary_and_copy_password, retrieve_negotiate_auth_package,
}
use smile2unlock_v.Credential.Serialization.Account.{joined, credui_name-serialized_names}
use smile2unlock_v.Credential.Serialization.Packed.{get_serialization-reads}
use smile2unlock_v.Credential.PasswordRequest.{
  Conversions, password_hint, request_and_decrypt_password_from_su,
}
use smile2unlock_v.Credential.PasswordRequest.Served.{
  service, all_answered, request_password-served,
}
use smile2unlock_v.Tests.Fixtures.{database, alice}
use smile2unlock_v.Tests.Recognition.{manager, healthy}

abbrev desktop : Wide
desktop = wide "DESKTOP"

-- A unit in front stands for the protection.
abbrev calls : Calls
calls = record {
  computer_name = ok desktop;
  name_heap = true;
  second_name_heap = true;
  blob_heap = true;
  protection = record {
    is_protected = λ s. some false;
    measure = λ s. some (122, 8);
    protect = λ s. ok (1 ∷ s);
  };
  password_heap = true;
  password_copy_heap = true;
  cred_size = λ name password. some (122, 8);
  cred_pack = λ name password. ok [];
  lsa_connect = ok tt;
  lsa_lookup = ok 9;
}

name_filled : is_empty (wide "alice@home") ≡ false
unfolding is_empty
name_filled = refl

credui_name-serialized_names_example : credui_name calls (some (wide "alice@home")) ≡ (
    if contains b'@' (wide "alice@home") && not (contains b'\\' (wide "alice@home"))
    then ok (wide "alice@home")
    else (serialized_names true true (ok desktop) none (some (wide "alice@home")) >>= λ names.
        ok (joined names)))
credui_name-serialized_names_example =
    credui_name-serialized_names calls desktop (wide "alice@home") name_filled refl refl

abbrev entered : TileTexts
entered = record {
  qualified_name = none;
  username = some (wide "alice");
  edit_text = some (wide "alice");
  password_text = some (wide "secret");
}

entered_account :
    serialized_names true true (ok desktop) none (some (wide "alice")) ≡ ok (desktop, wide "alice")
unfolding serialized_names
entered_account = refl

entered_protected :
    protect_if_necessary_and_copy_password calls.protection true true
      (some (wide "secret"))
      unlock_workstation
    ≡ ok (1 ∷ wide "secret")
unfolding protect_if_necessary_and_copy_password is_empty
entered_protected = refl

found_package : retrieve_negotiate_auth_package calls.lsa_connect calls.lsa_lookup ≡ ok 9
unfolding retrieve_negotiate_auth_package
found_package = refl

get_serialization-reads_example :
    (r : PackedLogon × ℕ) × (get_serialization 64 calls unlock_workstation entered
      ≡ finished_with (kerb_blob r) 9)
    × (read_logon 64 4096 r ≡ (
      expected_message_type unlock_workstation,
      wide_bytes desktop,
      wide_bytes (wide "alice"),
      wide_bytes (wide "secret"),
    ))
get_serialization-reads_example =
    get_serialization-reads 64 4096 calls unlock_workstation entered desktop (wide "alice")
      (wide "secret") (1 ∷ wide "secret") 9 (omega arith) (omega arith) tt entered_account refl
      (omega arith) (omega arith) (omega arith) entered_protected refl found_package

abbrev protect : Bytes → Option Bytes
protect s = some (1 ∷ s)

abbrev unprotect : Bytes → Option Bytes
unprotect [] = none
unprotect (x ∷ s) = some s

unprotect-protect : (s b : Bytes) → protect s ≡ some b → unprotect b ≡ some s
unprotect-protect s b e = subst (λ o. elim o [ none ↦ Unit | some x ↦ unprotect x ≡ some s ]) e refl

abbrev conversions : Conversions
conversions = record { unprotect = unprotect; to_wide = λ s. some s; to_utf8 = λ s. s }

hint_filled : is_empty (password_hint conversions [] (some (wide "alice"))) ≡ false
unfolding password_hint is_empty
hint_filled = refl

alice_found :
    database.get_user_by_username
      (shown_username (password_hint conversions [] (some (wide "alice"))))
    ≡ some alice
unfolding password_hint is_empty same until_nul take
alice_found = refl

secret_filled : is_empty (text "secret") ≡ false
unfolding is_empty
secret_filled = refl

request_password-served_example :
    request_and_decrypt_password_from_su conversions
      (all_answered 7)
      5
      (service protect (some database) healthy 8 manager)
      []
      (some (wide "alice"))
    ≡ ok (until_nul (text "secret"))
request_password-served_example =
    request_password-served conversions protect unprotect-protect database healthy 7 8 manager 5 []
      (some (wide "alice")) alice (1 ∷ text "secret") (until_nul (text "secret")) hint_filled
      (omega arith) alice_found secret_filled refl (omega arith) (omega arith) refl
