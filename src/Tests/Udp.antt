-- ===== src/Tests/Udp.antt =====
-- The datagrams of one run.
use smile2unlock_v.Base.{
  ℕ, ◌≡◌, ◌≤◌, refl, [], ◌∷◌, ◌++◌, true, false, Option, none, some, arith, length, take, drop,
  subst, replicate, leb, ◌+◌, if◌then◌else◌, ◌==◌,
}
use smile2unlock_v.Base.Text.{Bytes, text, is_empty, c_string}
use smile2unlock_v.Udp.Memory.{zeros, length-zeros, le64}
use smile2unlock_v.Udp.Packets.{
  success, feature_size, username_size, status_magic, status_version, status_of,
  password_response_magic, password_response_version, protected_password_capacity,
  UdpPasswordResponsePacket,
}
use smile2unlock_v.Udp.Layout.Status.{status_view, status_packet_size, status_username_offset}
use smile2unlock_v.Udp.Layout.Password.{password_image, password_username_offset}
use smile2unlock_v.Udp.Loop.{
  Step, skip, deliver, fault, aborted, failed, datagram, receive_loop, accepted, trace, error_round,
  datagram_round, receive_loop-accepted,
}
use smile2unlock_v.Udp.Status.{StatusReport, send_status, receive_status}
use smile2unlock_v.Udp.Status.RoundTrip.{shown_username, receive_status-send_status}
use smile2unlock_v.Udp.Status.Checks.{receive_status_sound}
use smile2unlock_v.Udp.Password.{receive_password, unprotected}
use smile2unlock_v.Udp.Password.RoundTrip.{receive_password_overread}

-- A byte in front stands for the encryption.
abbrev protect : Bytes → Option Bytes
protect s = some (1 ∷ s)

abbrev unprotect : Bytes → Option Bytes
unprotect [] = none
unprotect (x ∷ s) = some s

unprotect-protect : (s b : Bytes) → protect s ≡ some b → unprotect b ≡ some s
unprotect-protect s b e = subst (λ o. elim o [ none ↦ Unit | some x ↦ unprotect x ≡ some s ]) e refl

receive_status-send_status_example :
    (d : Bytes) × (send_status
        (record { initialized = true })
        9
        true
        success
        (text "alice")
        7
        (text "3f")
      ≡ (true, d ∷ []))
    × (receive_status true d
        ≡ deliver (record {
          status = success;
          username = shown_username (text "alice");
          session_id = 7;
          feature = text "3f";
        }))
receive_status-send_status_example =
    receive_status-send_status success (text "alice") 7 (text "3f") 9 tt (omega arith) (omega arith)

abbrev sent : Bytes
sent =
    (receive_status-send_status success (text "alice") 7 (text "3f") 9 tt (omega arith)
      (omega arith)).0

abbrev delivered_report : StatusReport
delivered_report = record {
  status = success;
  username = shown_username (text "alice");
  session_id = 7;
  feature = text "3f";
}

receive_status_sound_example :
    let p = status_view sent in
    (length sent ≡ status_packet_size)
    × (p.magic_number ≡ status_magic)
    × (p.version ≡ status_version)
    × (c_string (drop status_username_offset sent) ≡ some delivered_report.username)
    × (delivered_report.status ≡ status_of p.status)
    × (delivered_report.session_id ≡ p.session_id)
    × (length delivered_report.feature ≤ p.feature_bytes)
    × (length delivered_report.feature ≤ feature_size)
receive_status_sound_example =
    receive_status_sound true sent delivered_report
      (receive_status-send_status success (text "alice") 7 (text "3f") 9 tt (omega arith)
        (omega arith)).2

secret_filled : is_empty (text "secret") ≡ false
unfolding is_empty
secret_filled = refl

abbrev oversized : UdpPasswordResponsePacket
oversized = record {
  magic_number = password_response_magic;
  version = password_response_version;
  session_id = 7;
  result_code = 0;
  username = zeros username_size;
  protected_password_size = 520;
  protected_password = zeros protected_password_capacity;
  timestamp = 9;
}

oversized_name : c_string (drop password_username_offset (password_image oversized)) ≡ some []
unfolding c_string password_image drop zeros replicate
oversized_name = refl

receive_password_overread_example : receive_password unprotect true (password_image oversized) ≡ (
    if leb 520 (protected_password_capacity + 8)
    then deliver (record {
      session_id = 7;
      username = [];
      password = unprotected (unprotect (take 520 (zeros protected_password_capacity ++ le64 9)));
      success = true;
    })
    else fault)
receive_password_overread_example =
    receive_password_overread unprotect oversized []
      (record {
        magic_number_fits = omega arith;
        version_fits = omega arith;
        session_id_fits = omega arith;
        result_code_fits = omega arith;
        username_fits = length-zeros username_size;
        protected_password_size_fits = omega arith;
        protected_password_fits = length-zeros protected_password_capacity;
        timestamp_fits = omega arith;
      })
      refl refl refl (omega arith) oversized_name

-- Accepts the datagrams that start with 1.
abbrev first_byte : Bytes → Step ℕ
first_byte (x ∷ y ∷ s) = if x == 1 then deliver y else skip
first_byte _ = skip

receive_loop-accepted_example :
    receive_loop first_byte (
      ((true, datagram (1 ∷ 5 ∷ [])) ∷ (true, failed) ∷ (true, datagram (2 ∷ [])) ∷ [])
      ++ (true, aborted) ∷ (true, datagram (1 ∷ 6 ∷ [])) ∷ [])
    ≡ trace (
        accepted first_byte
          ((true, datagram (1 ∷ 5 ∷ [])) ∷ (true, failed) ∷ (true, datagram (2 ∷ [])) ∷ []))
receive_loop-accepted_example =
    receive_loop-accepted first_byte
      ((true, datagram (1 ∷ 5 ∷ [])) ∷ (true, failed) ∷ (true, datagram (2 ∷ [])) ∷ [])
      ((true, datagram (1 ∷ 6 ∷ [])) ∷ []) (true, aborted)
      (datagram_round (ground arith), (error_round, (datagram_round (ground arith), tt))) tt
