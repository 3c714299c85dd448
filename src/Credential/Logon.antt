-- ===== src/Credential/Logon.antt =====
-- The credential that WinLogon reads: UnicodeStringInitWithString, KerbInteractiveUnlockLogonInit,
-- KerbInteractiveUnlockLogonPack and KerbInteractiveUnlockLogonUnpackInPlace of
-- CredentialProvider/helpers.cpp. KERB_INTERACTIVE_UNLOCK_LOGON is declared by Windows: its size is
-- a parameter, and its fields are those that the code names. The strings of a packed credential
-- stand behind the structure, and a field `buffer` is then an offset or an address.
pub mod Reading
use smile2unlock_v.Base.{
  ℕ, ◌+◌, ◌-◌, ◌*◌, ◌%◌, ◌^◌, ◌≤◌, ◌<◌, ◌≡◌, refl, List, [], ◌∷◌, ◌++◌, Bool, true, false, not,
  ◌&&◌, Option, none, some, arith, ltb, leb, ◌==◌, if◌then◌else◌, length, take, drop,
}
use smile2unlock_v.Base.Text.{Bytes}
use smile2unlock_v.Udp.Memory.{le16}
use smile2unlock_v.Credential.Results.{
  Hresult, e_invalidarg, e_fail, e_outofmemory, win32, Outcome, ok, err, ◌>>=◌,
}
use smile2unlock_v.Credential.Names.{Wide}

-- CREDENTIAL_PROVIDER_USAGE_SCENARIO.
pub data UsageScenario : Type 0 where
  logon unlock_workstation change_password credui : UsageScenario
  other_scenario : ℕ → UsageScenario

-- KERB_LOGON_SUBMIT_TYPE, as far as the code uses it; `untyped` is the value 0.
unfoldable pub is_credui : UsageScenario → Bool
is_credui credui = true
is_credui _ = false

pub data MessageType : Type 0 where
  interactive_logon workstation_unlock_logon untyped : MessageType

-- A UNICODE_STRING whose buffer is a text.
pub record UnicodeString : Type 0 where
  pub length : ℕ
  pub maximum_length : ℕ
  pub buffer : Wide

pub record InteractiveLogon : Type 0 where
  pub message_type : MessageType
  pub logon_domain_name : UnicodeString
  pub user_name : UnicodeString
  pub password : UnicodeString

-- ERROR_ARITHMETIC_OVERFLOW.
abbrev pub arithmetic_overflow : Hresult
arithmetic_overflow = win32 534

-- The size in bytes fits a USHORT, or the call fails.
unfoldable pub unicode_string_init_with_string : Option Wide → Outcome UnicodeString
unicode_string_init_with_string none = err e_invalidarg
unicode_string_init_with_string (some s) =
    if ltb 0xFFFF (length s)
    then err arithmetic_overflow
    else if ltb 0xFFFF (length s * 2)
    then err arithmetic_overflow
    else ok (record { length = length s * 2; maximum_length = length s * 2; buffer = s })

message_type_of : UsageScenario → Outcome MessageType
message_type_of unlock_workstation = ok workstation_unlock_logon
message_type_of logon = ok interactive_logon
message_type_of credui = ok untyped
message_type_of _ = err e_fail

unfoldable pub kerb_interactive_unlock_logon_init :
    (domain username password : Option Wide) → UsageScenario → Outcome InteractiveLogon
unfolding message_type_of unicode_string_init_with_string
kerb_interactive_unlock_logon_init domain username password scenario =
    unicode_string_init_with_string domain >>= λ d.
    unicode_string_init_with_string username >>= λ u.
    unicode_string_init_with_string password >>= λ p. message_type_of scenario >>= λ t.
    ok (record { message_type = t; logon_domain_name = d; user_name = u; password = p })

-- A UNICODE_STRING of a packed credential.
pub record PackedString : Type 0 where
  pub length : ℕ
  pub maximum_length : ℕ
  pub buffer : ℕ

-- The structure, and the bytes behind it.
pub record PackedLogon : Type 0 where
  pub message_type : MessageType
  pub logon_domain_name : PackedString
  pub user_name : PackedString
  pub password : PackedString
  pub logon_id : ℕ
  pub extra : Bytes

unfoldable pub wide_bytes : Wide → Bytes
wide_bytes [] = []
wide_bytes (x ∷ s) = le16 x ++ wide_bytes s

-- What CopyMemory takes of a string.
unfoldable pub copied : UnicodeString → Bytes
unfolding wide_bytes
copied s = take s.length (wide_bytes s.buffer)

packed_string : UnicodeString → ℕ → PackedString
packed_string s offset = record { length = s.length; maximum_length = s.length; buffer = offset }

-- sizeof(KERB_INTERACTIVE_UNLOCK_LOGON).
module _ (size : ℕ) where
  -- The bytes and their number, a DWORD.
  unfoldable pub kerb_interactive_unlock_logon_pack :
      (heap : Bool) → InteractiveLogon → Outcome (PackedLogon × ℕ)
  unfolding packed_string copied
  kerb_interactive_unlock_logon_pack false i = err e_outofmemory
  kerb_interactive_unlock_logon_pack true i =
      let domain_end = size + i.logon_domain_name.length in
      let user_end = domain_end + i.user_name.length in
      ok (
        record {
          message_type = i.message_type;
          logon_domain_name = packed_string i.logon_domain_name size;
          user_name = packed_string i.user_name domain_end;
          password = packed_string i.password user_end;
          logon_id = 0;
          extra = copied i.logon_domain_name ++ (copied i.user_name ++ copied i.password);
        },
        (user_end + i.password.length) % 2 ^ 32,
      )

  inside : PackedString → ℕ → Bool
  inside s cb = leb (s.buffer + s.maximum_length) cb

  -- A null offset stays null.
  at_address : ℕ → PackedString → PackedString
  at_address base s = record s { buffer = if s.buffer == 0 then 0 else base + s.buffer }

  -- The structure at the address `base`, of a buffer of `cb` bytes.
  unfoldable pub kerb_interactive_unlock_logon_unpack_in_place : ℕ → ℕ → PackedLogon → PackedLogon
  unfolding inside at_address
  kerb_interactive_unlock_logon_unpack_in_place base cb p =
      if leb size cb
        && (inside p.logon_domain_name cb && (inside p.user_name cb && inside p.password cb))
      then record p {
        logon_domain_name = at_address base p.logon_domain_name;
        user_name = at_address base p.user_name;
        password = at_address base p.password;
      }
      else p

  -- What a reader of an unpacked string finds.
  unfoldable pub string_at : ℕ → PackedLogon → PackedString → Bytes
  string_at base p s = take s.length (drop (s.buffer - (base + size)) p.extra)
