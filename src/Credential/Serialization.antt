-- ===== src/Credential/Serialization.antt =====
-- GetSerialization of CredentialProvider/CSampleCredential.cpp, with ProtectIfNecessaryAndCopyPassword
-- and RetrieveNegotiateAuthPackage of CredentialProvider/helpers.cpp. The answers of the calls of
-- Windows are parameters; logging and the release of memory leave no trace here.
pub mod Packed
pub mod Account
use smile2unlock_v.Base.{
  ℕ, ◌<◌, ◌≡◌, refl, List, [], ◌∷◌, Bool, true, false, not, ◌&&◌, ◌||◌, Option, none, some, arith,
  ltb, ◌==◌, if◌then◌else◌, length,
}
use smile2unlock_v.Base.Text.{Bytes, is_empty}
use smile2unlock_v.Credential.Results.{
  Hresult, s_ok, e_fail, e_invalidarg, e_outofmemory, e_unexpected, win32, Outcome, ok, err, ◌>>=◌,
  allocated,
}
use smile2unlock_v.Credential.Names.{
  Wide, wide, is_qualified_username, build_qualified_username, serialized_names,
}
use smile2unlock_v.Credential.Logon.{
  UsageScenario, is_credui, PackedLogon, kerb_interactive_unlock_logon_init,
  kerb_interactive_unlock_logon_pack,
}

-- CredIsProtectedW, where `some b` tells whether the text is protected; the first call of
-- CredProtectW, where `some (e, n)` is a refusal with the error and the size; and its second call.
pub record CredProtect : Type 0 where
  pub is_protected : Wide → Option Bool
  pub measure : Wide → Option (ℕ × ℕ)
  pub protect : Wide → Outcome Wide

abbrev pub error_insufficient_buffer : ℕ
error_insufficient_buffer = 122

protect_measured : CredProtect → (heap : Bool) → Wide → Option (ℕ × ℕ) → Outcome Wide
protect_measured c heap s none = err e_unexpected
protect_measured c heap s (some (error, size)) =
    if error == error_insufficient_buffer && ltb 0 size
    then (if heap then c.protect s else err e_outofmemory)
    else err (win32 error)

-- `copy_heap` is the copy that the calls read, `heap` the buffer.
unfoldable pub protect_and_copy_string : CredProtect → (copy_heap heap : Bool) → Wide → Outcome Wide
unfolding protect_measured
protect_and_copy_string c copy_heap heap s =
    allocated copy_heap s >>= λ copy. protect_measured c heap copy (c.measure copy)

already_protected : Option Bool → Bool
already_protected (some true) = true
already_protected _ = false

unfoldable pub protect_if_necessary_and_copy_password :
    CredProtect → (heap copy_heap : Bool) → Option Wide → UsageScenario → Outcome Wide
unfolding is_credui already_protected protect_and_copy_string
protect_if_necessary_and_copy_password c heap copy_heap none scenario = allocated heap []
protect_if_necessary_and_copy_password c heap copy_heap (some password) scenario =
    if is_empty password
    then allocated heap []
    else allocated copy_heap password >>= λ copy.
        if is_credui scenario || already_protected (c.is_protected copy)
        then allocated heap copy
        else protect_and_copy_string c copy_heap heap copy

-- LsaConnectUntrusted, and LsaLookupAuthenticationPackage for the name of the package.
unfoldable pub retrieve_negotiate_auth_package :
    (connect : Outcome (Unit {0})) → (lookup : Outcome ℕ) → Outcome ℕ
retrieve_negotiate_auth_package connect lookup = connect >>= λ _. lookup

-- What the calls answer while one credential is packed. `cred_size` is the first call of
-- CredPackAuthenticationBufferW, `some (e, n)` its refusal; `cred_pack` is its second call.
pub record Calls : Type 0 where
  pub computer_name : Outcome Wide
  pub name_heap : Bool
  pub second_name_heap : Bool
  pub blob_heap : Bool
  pub protection : CredProtect
  pub password_heap : Bool
  pub password_copy_heap : Bool
  pub cred_size : Wide → Option Wide → Option (ℕ × ℕ)
  pub cred_pack : Wide → Option Wide → Outcome Bytes
  pub lsa_connect : Outcome (Unit {0})
  pub lsa_lookup : Outcome ℕ

pub data Blob : Type 0 where
  kerb_blob : PackedLogon × ℕ → Blob
  cred_blob : Bytes → Blob

-- The out parameters and the code: whether CPGSR_RETURN_CREDENTIAL_FINISHED was set, the blob that
-- is left, the package and the text of the status.
pub record Serialized : Type 0 where
  pub hr : Hresult
  pub finished : Bool
  pub blob : Option Blob
  pub auth_package : Option ℕ
  pub status_text : Option Wide

abbrev pub unfinished : Hresult → Serialized
unfinished hr = record {
  hr = hr;
  finished = false;
  blob = none;
  auth_package = none;
  status_text = none;
}

abbrev pub finished_with : Blob → ℕ → Serialized
finished_with blob n = record {
  hr = s_ok;
  finished = true;
  blob = some blob;
  auth_package = some n;
  status_text = none;
}

-- The text shows what `pcpsiOptionalStatusIcon` marks as an error.
missing_username : Serialized
missing_username = record {
  hr = e_invalidarg;
  finished = false;
  blob = none;
  auth_package = none;
  status_text = some (wide "请输入用户名。");
}

-- With the package that the LSA names. The blob of CredUI is freed if there is none, the other is
-- left to the caller.
with_package : (kept : Option Blob) → Blob → Outcome ℕ → Serialized
with_package kept blob (ok n) = finished_with blob n
with_package kept blob (err e) = record {
  hr = e;
  finished = false;
  blob = kept;
  auth_package = none;
  status_text = none;
}

credui_packed : Calls → Outcome Bytes → Serialized
unfolding with_package
credui_packed c (err e) = unfinished e
credui_packed c (ok bytes) =
    with_package none (cred_blob bytes) (retrieve_negotiate_auth_package c.lsa_connect c.lsa_lookup)

credui_sized : Calls → Wide → Option Wide → Option (ℕ × ℕ) → Serialized
unfolding credui_packed
credui_sized c name password none =
    if c.blob_heap then credui_packed c (c.cred_pack name password) else unfinished e_outofmemory
credui_sized c name password (some (error, size)) =
    if not (error == error_insufficient_buffer)
    then unfinished (win32 error)
    else if c.blob_heap
    then credui_packed c (c.cred_pack name password)
    else unfinished e_outofmemory

credui_named : Calls → Option Wide → Outcome Wide → Serialized
unfolding credui_sized
credui_named c password (err e) = unfinished e
credui_named c password (ok name) = credui_sized c name password (c.cred_size name password)

-- The name that CredUI packs.
pub credui_name : Calls → Option Wide → Outcome Wide
credui_name c none = err e_invalidarg
credui_name c (some username) =
    if is_qualified_username (some username)
    then allocated c.name_heap username
    else build_qualified_username c.name_heap c.computer_name (some username)

serialize_credui : Calls → (entered password : Option Wide) → Serialized
unfolding credui_named credui_name missing_username
serialize_credui c none password = missing_username
serialize_credui c (some username) password =
    if is_empty username
    then missing_username
    else credui_named c password (credui_name c (some username))

logon_packed : Calls → Outcome (PackedLogon × ℕ) → Serialized
unfolding with_package
logon_packed c (err e) = unfinished e
logon_packed c (ok r) =
    with_package (some (kerb_blob r)) (kerb_blob r)
      (retrieve_negotiate_auth_package c.lsa_connect c.lsa_lookup)

-- Behind the protection. The protected copy of the password is made and released; what is packed
-- is the password of the field.
logon_protected :
    ℕ
    → Calls
    → UsageScenario
    → (domain username : Wide) → (password : Option Wide) → Outcome Wide
    → Serialized
unfolding logon_packed
logon_protected size c scenario domain username password (err e) = unfinished e
logon_protected size c scenario domain username password (ok protected) = logon_packed c (
    kerb_interactive_unlock_logon_init (some domain) (some username) password scenario >>= λ i.
    kerb_interactive_unlock_logon_pack size c.blob_heap i)

logon_named : ℕ → Calls → UsageScenario → Option Wide → Outcome (Wide × Wide) → Serialized
unfolding logon_protected
logon_named size c scenario password (err e) = unfinished e
logon_named size c scenario password (ok (domain, username)) =
    logon_protected size c scenario domain username password (
      protect_if_necessary_and_copy_password c.protection c.password_heap c.password_copy_heap
        password scenario)

-- The fields that the method reads: `_pszQualifiedUserName`, `_pwzUsername`, and the strings of
-- the fields of the name and of the password.
pub record TileTexts : Type 0 where
  pub qualified_name : Option Wide
  pub username : Option Wide
  pub edit_text : Option Wide
  pub password_text : Option Wide

entered_name : TileTexts → Option Wide
entered_name t = elim t.username [ some u ↦ some u | none ↦ t.edit_text ]

-- `size` is sizeof(KERB_INTERACTIVE_UNLOCK_LOGON).
unfoldable pub get_serialization : ℕ → Calls → UsageScenario → TileTexts → Serialized
unfolding is_credui serialize_credui logon_named entered_name
get_serialization size c scenario t =
    if is_credui scenario
    then serialize_credui c (entered_name t) t.password_text
    else logon_named size c scenario t.password_text (
        serialized_names c.name_heap c.second_name_heap c.computer_name t.qualified_name t.username)
