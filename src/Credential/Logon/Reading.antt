-- ===== src/Credential/Logon/Reading.antt =====
-- What a reader of a packed credential finds after unpacking it in place.
use smile2unlock_v.Base.{
  ℕ, ◌+◌, ◌-◌, ◌*◌, ◌%◌, ◌^◌, ◌≤◌, ◌<◌, ◌≡◌, refl, ap, ◌∙◌, [], ◌∷◌, ◌++◌, true, some, arith,
  length, take, drop, take_all, take_exact, drop_past, drop_exact,
}
use smile2unlock_v.Base.Text.{Bytes}
use smile2unlock_v.Credential.Results.{ok, ◌>>=◌}
use smile2unlock_v.Credential.Names.{Wide}
use smile2unlock_v.Credential.Logon.{
  UsageScenario, unlock_workstation, workstation_unlock_logon, interactive_logon, untyped,
  change_password, other_scenario, logon, MessageType, UnicodeString, InteractiveLogon,
  PackedString, PackedLogon, kerb_interactive_unlock_logon_init, wide_bytes, copied,
  unicode_string_init_with_string, kerb_interactive_unlock_logon_pack,
  kerb_interactive_unlock_logon_unpack_in_place, string_at,
}

-- A string whose length is the size of its text.
pub record IsWhole (s : UnicodeString) : Type 0 where
  pub whole : s.length ≡ length s.buffer * 2
  pub fits : s.length ≤ 0xFFFF

pub length-wide_bytes : (s : Wide) → length (wide_bytes s) ≡ length s * 2
unfolding wide_bytes
length-wide_bytes [] = refl
length-wide_bytes (x ∷ s) = omega (arith, length-wide_bytes s)

copied_lem : (s : UnicodeString) → IsWhole s → copied s ≡ wide_bytes s.buffer
unfolding copied
copied_lem s w =
    take_all s.length (wide_bytes s.buffer) (omega (arith, length-wide_bytes s.buffer, w.whole))

length-copied : (s : UnicodeString) → IsWhole s → length (copied s) ≡ s.length
length-copied s w = rw (copied_lem s w) (omega (arith, length-wide_bytes s.buffer, w.whole))

-- What a reader finds of a packed credential at the address `base`: the type of the message, and
-- the three texts in bytes.
abbrev pub read_logon : ℕ → ℕ → PackedLogon × ℕ → MessageType × Bytes × Bytes × Bytes
read_logon size base (p, cb) =
    let q = kerb_interactive_unlock_logon_unpack_in_place size base cb p in
    (
      q.message_type,
      string_at size base q q.logon_domain_name,
      string_at size base q q.user_name,
      string_at size base q q.password,
    )

placed : ℕ → PackedString → PackedString
placed base s = record s { buffer = base + s.buffer }

-- Unpacking a credential whose strings lie inside of it, behind the structure.
unpack_inside :
    (size base cb : ℕ) (p : PackedLogon)
    → size ≤ cb
    → (0 < p.logon_domain_name.buffer)
      × (p.logon_domain_name.buffer + p.logon_domain_name.maximum_length ≤ cb)
    → (0 < p.user_name.buffer) × (p.user_name.buffer + p.user_name.maximum_length ≤ cb)
    → (0 < p.password.buffer) × (p.password.buffer + p.password.maximum_length ≤ cb)
    → kerb_interactive_unlock_logon_unpack_in_place size base cb p ≡ record p {
      logon_domain_name = placed base p.logon_domain_name;
      user_name = placed base p.user_name;
      password = placed base p.password;
    }
unfolding kerb_interactive_unlock_logon_unpack_in_place placed
unpack_inside size base cb p s d u w = ground arith

module _ (size base la lb lc : ℕ) (t : MessageType) (a b c : Bytes) (pos : 0 < size)
    (ea : length a ≡ la) (eb : length b ≡ lb) (ec : length c ≡ lc) where
  abbrev laid_out : PackedLogon
  laid_out = record {
    message_type = t;
    logon_domain_name = record { length = la; maximum_length = la; buffer = size };
    user_name = record { length = lb; maximum_length = lb; buffer = size + la };
    password = record { length = lc; maximum_length = lc; buffer = size + la + lb };
    logon_id = 0;
    extra = a ++ (b ++ c);
  }

  read-laid_out :
      (cb : ℕ) → cb ≡ size + la + lb + lc → read_logon size base (laid_out, cb) ≡ (t, a, b, c)
  unfolding string_at placed drop
  read-laid_out cb e =
      rw
        (unpack_inside size base cb laid_out (omega arith) (omega arith, omega arith)
          (omega arith, omega arith) (omega arith, omega arith))
        (λ k. (t, domain_read k, user_read k, password_read k))
    where
      domain_read : take la (drop (base + size - (base + size)) (a ++ (b ++ c))) ≡ a
      domain_read =
          let shift : base + size - (base + size) ≡ 0 = omega arith in
          rw shift (take_exact la a (b ++ c) ea)

      user_read : take lb (drop (base + (size + la) - (base + size)) (a ++ (b ++ c))) ≡ b
      user_read =
          let shift : base + (size + la) - (base + size) ≡ la = omega arith in
          rw (shift, drop_exact la a (b ++ c) ea) (take_exact lb b c eb)

      password_read : take lc (drop (base + (size + la + lb) - (base + size)) (a ++ (b ++ c))) ≡ c
      password_read =
          let shift : base + (size + la + lb) - (base + size) ≡ la + lb = omega arith in
          rw (shift, drop_past la lb a (b ++ c) ea, drop_exact lb b c eb)
            (take_all lc c (omega arith))

module _ (size base : ℕ) (i : InteractiveLogon) (pos : 0 < size) (small : size < 2 ^ 31)
    (d : IsWhole i.logon_domain_name) (u : IsWhole i.user_name) (p : IsWhole i.password) where
  read-pack :
      (kerb_interactive_unlock_logon_pack size true i >>= λ r. ok (read_logon size base r))
      ≡ ok (
        i.message_type,
        wide_bytes i.logon_domain_name.buffer,
        wide_bytes i.user_name.buffer,
        wide_bytes i.password.buffer,
      )
  unfolding kerb_interactive_unlock_logon_pack
  read-pack =
      let total : (size + i.logon_domain_name.length + i.user_name.length + i.password.length)
            % 2 ^ 32
          ≡ size + i.logon_domain_name.length + i.user_name.length + i.password.length =
        omega (arith, d.fits, u.fits, p.fits) in
      ap ok (
        read-laid_out size base i.logon_domain_name.length i.user_name.length i.password.length
          i.message_type (copied i.logon_domain_name) (copied i.user_name) (copied i.password) pos
          (length-copied i.logon_domain_name d) (length-copied i.user_name u)
          (length-copied i.password p) _ total)
      ∙ λ k. ok (
        i.message_type,
        copied_lem i.logon_domain_name d k,
        copied_lem i.user_name u k,
        copied_lem i.password p k,
      )

-- The scenarios that are served.
abbrev pub IsServed : UsageScenario → Type 0
IsServed change_password = ⊥
IsServed (other_scenario n) = ⊥
IsServed _ = Unit

whole_string : Wide → UnicodeString
whole_string s = record { length = length s * 2; maximum_length = length s * 2; buffer = s }

whole_string-IsWhole : (s : Wide) → length s < 2 ^ 15 → IsWhole (whole_string s)
unfolding whole_string
whole_string-IsWhole s h = record { whole = refl; fits = omega arith }

init_whole :
    (s : Wide) → length s < 2 ^ 15 → unicode_string_init_with_string (some s) ≡ ok (whole_string s)
unfolding unicode_string_init_with_string whole_string
init_whole s h = ground arith

logon_of : Wide → Wide → Wide → MessageType → InteractiveLogon
logon_of domain username password t = record {
  message_type = t;
  logon_domain_name = whole_string domain;
  user_name = whole_string username;
  password = whole_string password;
}

-- The type of the message for a scenario that is served.
pub expected_message_type : UsageScenario → MessageType
expected_message_type unlock_workstation = workstation_unlock_logon
expected_message_type logon = interactive_logon
expected_message_type _ = untyped

init_lem :
    (domain username password : Wide) (scenario : UsageScenario)
    → length domain < 2 ^ 15
    → length username < 2 ^ 15
    → length password < 2 ^ 15
    → IsServed scenario
    → kerb_interactive_unlock_logon_init (some domain) (some username) (some password) scenario
      ≡ ok (logon_of domain username password (expected_message_type scenario))
unfolding kerb_interactive_unlock_logon_init expected_message_type logon_of
init_lem domain username password logon hd hu hp s =
    rw (init_whole domain hd, init_whole username hu, init_whole password hp) refl
init_lem domain username password change_password hd hu hp s = absurd s
init_lem domain username password (other_scenario n) hd hu hp s = absurd s
init_lem domain username password _ hd hu hp s =
    rw (init_whole domain hd, init_whole username hu, init_whole password hp) refl

-- A credential of three texts of fewer than 2^15 units each, packed for a scenario that is served
-- and unpacked at any address, gives back the type of the
-- scenario's message and the bytes of the three texts.
pub read-pack-init :
    (size base : ℕ) (domain username password : Wide) (scenario : UsageScenario)
    → 0 < size
    → size < 2 ^ 31
    → length domain < 2 ^ 15
    → length username < 2 ^ 15
    → length password < 2 ^ 15
    → IsServed scenario
    → ((kerb_interactive_unlock_logon_init (some domain) (some username) (some password) scenario
          >>= λ i. kerb_interactive_unlock_logon_pack size true i)
        >>= λ r. ok (read_logon size base r))
      ≡ ok (
        expected_message_type scenario,
        wide_bytes domain,
        wide_bytes username,
        wide_bytes password,
      )
unfolding logon_of whole_string
read-pack-init size base domain username password scenario pos small hd hu hp s =
    rw (init_lem domain username password scenario hd hu hp s) (
      read-pack size base (logon_of domain username password (expected_message_type scenario)) pos
        small (whole_string-IsWhole domain hd) (whole_string-IsWhole username hu)
        (whole_string-IsWhole password hp))
