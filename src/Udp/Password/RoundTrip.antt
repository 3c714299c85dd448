-- ===== src/Udp/Password/RoundTrip.antt =====
-- What the password receiver makes of the datagrams of a password sender, and of others.
use smile2unlock_v.Base.{
  ℕ, ◌^◌, ◌≤◌, ◌<◌, ◌≡◌, ◌⊎◌, inl, inr, refl, [], ◌∷◌, Bool, true, false, Option, none, some, arith,
  length, take, drop, take-append_left, leb, if◌then◌else◌, ◌++◌, ◌+◌, length-append, Bool-cases,
}
use smile2unlock_v.Base.Text.{Bytes, is_empty, c_string}
use smile2unlock_v.Udp.Memory.{
  data_field, length-char_field, length-data_field, c_string-char_field, le64, read_bytes,
  read_bytes_lem, read_bytes-append,
}
use smile2unlock_v.Udp.Packets.{
  password_response_magic, password_response_version, protected_password_capacity,
  UdpPasswordResponsePacket,
}
use smile2unlock_v.Udp.Layout.Password.{
  password_image, password_username_offset, Fits, length-password_image,
  password_view-password_image, protected_password_offset, drop-password_image,
}
use smile2unlock_v.Udp.Loop.{deliver, fault}
use smile2unlock_v.Udp.Status.RoundTrip.{shown_username}
use smile2unlock_v.Udp.Password.{
  PasswordSender, password_packet, send_password, receive_password, unprotected,
}

module _ (unprotect : Bytes → Option Bytes) where
  -- A well-formed image with a protected password that fits.
  receive-password_image :
      (p : UdpPasswordResponsePacket) (name password : Bytes)
      → Fits p
      → p.magic_number ≡ password_response_magic
      → p.version ≡ password_response_version
      → p.result_code ≡ 0
      → 0 < p.protected_password_size
      → p.protected_password_size ≤ protected_password_capacity
      → unprotect (take p.protected_password_size p.protected_password) ≡ some password
      → c_string (drop password_username_offset (password_image p)) ≡ some name
      → receive_password unprotect true (password_image p)
        ≡ deliver (record {
          session_id = p.session_id;
          username = name;
          password = password;
          success = true;
        })
  unfolding receive_password
  receive-password_image p name password v m e r pos fits u n =
      let blob : read_bytes p.protected_password_size
            (drop protected_password_offset (password_image p))
          ≡ some (take p.protected_password_size p.protected_password) =
        rw (drop-password_image p v) (
          read_bytes-append p.protected_password_size p.protected_password (le64 p.timestamp)
            (omega (arith, v.protected_password_fits))) in
      ground (arith, length-password_image p v, password_view-password_image p v, blob)

  -- A well-formed image of a refusal.
  receive-refusal_image :
      (p : UdpPasswordResponsePacket) (name : Bytes)
      → Fits p
      → p.magic_number ≡ password_response_magic
      → p.version ≡ password_response_version
      → p.result_code ≡ 1
      → c_string (drop password_username_offset (password_image p)) ≡ some name
      → receive_password unprotect true (password_image p)
        ≡ deliver
            (record { session_id = p.session_id; username = name; password = []; success = false })
  unfolding receive_password
  receive-refusal_image p name v m e r n =
      ground (arith, length-password_image p v, password_view-password_image p v)

  -- The size of the blob is not held to the array: of a well-formed packet that reports success
  -- with a size that is not 0, a receiver with a callback reports what CryptUnprotectData makes of
  -- that many bytes of memory from the array on, or no password if it fails. Behind the 512 bytes
  -- of the array these are the 8 of the timestamp, and a size above 520 is a read behind the
  -- packet. The username is a C string.
  pub receive_password_overread :
      (p : UdpPasswordResponsePacket) (name : Bytes)
      → Fits p
      → p.magic_number ≡ password_response_magic
      → p.version ≡ password_response_version
      → p.result_code ≡ 0
      → 0 < p.protected_password_size
      → c_string (drop password_username_offset (password_image p)) ≡ some name
      → receive_password unprotect true (password_image p) ≡ (
          if leb p.protected_password_size (protected_password_capacity + 8)
          then deliver (record {
            session_id = p.session_id;
            username = name;
            password = unprotected (
                unprotect
                  (take p.protected_password_size (p.protected_password ++ le64 p.timestamp)));
            success = true;
          })
          else fault)
  unfolding receive_password
  receive_password_overread p name v m e r pos n =
      let memory = p.protected_password ++ le64 p.timestamp in
      let size : length memory ≡ protected_password_capacity + 8 =
        omega (
          arith,
          length-append p.protected_password (le64 p.timestamp),
          v.protected_password_fits,
        ) in
      let blob : read_bytes p.protected_password_size
            (drop protected_password_offset (password_image p))
          ≡ (if leb p.protected_password_size (protected_password_capacity + 8)
              then some (take p.protected_password_size memory)
              else none) =
        rw (drop-password_image p v, read_bytes_lem p.protected_password_size memory, size) refl in
      elim (Bool-cases (leb p.protected_password_size (protected_password_capacity + 8))) [
        | inl h ↦ ground (arith, length-password_image p v, password_view-password_image p v, blob)
        | inr h ↦ ground (arith, length-password_image p v, password_view-password_image p v, blob)
      ]

module _ (session_id : ℕ) (username : Bytes) (now : ℕ) where
  pub password_packet-Fits :
      (success : Bool) (blob : Bytes)
      → session_id < 2 ^ 32
      → length blob ≤ protected_password_capacity
      → Fits (password_packet session_id username success blob now)
  unfolding password_packet
  password_packet-Fits success blob s b = record {
    magic_number_fits = omega arith;
    version_fits = omega arith;
    session_id_fits = s;
    result_code_fits = ground arith;
    username_fits = length-char_field 63 username;
    protected_password_size_fits = omega arith;
    protected_password_fits = length-data_field protected_password_capacity blob b;
    timestamp_fits = omega arith;
  }

  password_packet_name :
      (success : Bool) (blob : Bytes)
      → c_string (
          drop password_username_offset
            (password_image (password_packet session_id username success blob now)))
        ≡ some (shown_username username)
  unfolding password_packet password_image drop
  password_packet_name success blob = c_string-char_field 63 username _

  pub password_packet_blob :
      (blob : Bytes)
      → let p = password_packet session_id username true blob now in
        take p.protected_password_size p.protected_password ≡ blob
  unfolding password_packet data_field
  password_packet_blob blob = take-append_left blob _

module _ (protect unprotect : Bytes → Option Bytes)
    (unprotect-protect : (s b : Bytes) → protect s ≡ some b → unprotect b ≡ some s) where
  -- A password that is not empty, and whose protected form is not empty and fits the array, reaches
  -- a receiver with a callback unchanged, under its session and the username cut at its first NUL
  -- and to 63 bytes, if CryptUnprotectData inverts CryptProtectData.
  receive_password-send_password :
      (session_id : ℕ) (username password blob : Bytes) (now : ℕ)
      → session_id < 2 ^ 32
      → is_empty password ≡ false
      → protect password ≡ some blob
      → 0 < length blob
      → length blob ≤ protected_password_capacity
      → (d : Bytes) × (send_password protect
            (record { initialized = true })
            now
            true
            session_id
            username
            password
            true
          ≡ (true, d ∷ []))
        × (receive_password unprotect true d
            ≡ deliver (record {
              session_id = session_id;
              username = shown_username username;
              password = password;
              success = true;
            }))
  unfolding send_password password_packet
  receive_password-send_password session_id username password blob now s ne pr pos fits = (
    password_image (password_packet session_id username true blob now),
    ground arith,
    receive-password_image unprotect (password_packet session_id username true blob now)
        (shown_username username) password
        (password_packet-Fits session_id username now true blob s fits) refl refl refl pos fits
        (rw (password_packet_blob session_id username now blob)
          (unprotect-protect password blob pr))
        (password_packet_name session_id username now true blob),
  )

-- Under `success`, a password that is not empty and whose protected form fails or exceeds the array
-- is not sent: the call returns false and sends nothing.
send_password_refuses :
    (protect : Bytes → Option Bytes) (s : PasswordSender) (now : ℕ) (socket_takes : Bool)
    (session_id : ℕ) (username password : Bytes)
    → is_empty password ≡ false
    → (protect password ≡ none)
      ⊎ ((blob : Bytes) × (protect password ≡ some blob)
          × (protected_password_capacity < length blob))
    → send_password protect s now socket_takes session_id username password true ≡ (false, [])
unfolding send_password
send_password_refuses protect s now socket_takes session_id username password ne (inl e) =
    ground arith
send_password_refuses protect s now socket_takes session_id username password ne
      (inr (blob, e, big)) =
    ground arith

-- A refusal reaches a receiver with a callback as one, with no password, whatever password the
-- sender was given.
receive_password-refusal :
    (protect unprotect : Bytes → Option Bytes) (session_id : ℕ) (username password : Bytes)
    (now : ℕ)
    → session_id < 2 ^ 32
    → (d : Bytes) × (send_password protect
          (record { initialized = true })
          now
          true
          session_id
          username
          password
          false
        ≡ (true, d ∷ []))
      × (receive_password unprotect true d
          ≡ deliver (record {
            session_id = session_id;
            username = shown_username username;
            password = [];
            success = false;
          }))
unfolding send_password password_packet
receive_password-refusal protect unprotect session_id username password now s = (
  password_image (password_packet session_id username false [] now),
  refl,
  receive-refusal_image unprotect (password_packet session_id username false [] now)
      (shown_username username)
      (password_packet-Fits session_id username now false [] s (omega arith)) refl refl refl
      (password_packet_name session_id username now false []),
)
