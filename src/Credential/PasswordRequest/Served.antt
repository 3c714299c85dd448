-- ===== src/Credential/PasswordRequest/Served.antt =====
-- A password request that the service answers: on_cp_request_received of
-- Smile2Unlock/modules/face_recognition.cppm between the receiver of requests and the sender of
-- passwords of common/managers/ipc/udp/udp_manager.h.
use smile2unlock_v.Base.{
  ℕ, ◌^◌, ◌≤◌, ◌<◌, ◌≡◌, refl, List, [], ◌∷◌, true, false, Option, none, some, arith, length, take,
}
use smile2unlock_v.Base.Text.{Bytes, is_empty}
use smile2unlock_v.Udp.Memory.{until_nul}
use smile2unlock_v.Udp.Packets.{
  get_password, password_response_magic, password_response_version, protected_password_capacity,
  UdpPasswordResponsePacket,
}
use smile2unlock_v.Udp.Layout.Password.{
  password_image, Fits, length-password_image, password_view-password_image,
}
use smile2unlock_v.Udp.Loop.{Step, deliver}
use smile2unlock_v.Udp.AuthRequest.{AuthRequest, send_request, receive_request, auth_send_request}
use smile2unlock_v.Udp.AuthRequest.RoundTrip.{receive_request-send_request}
use smile2unlock_v.Udp.Status.RoundTrip.{shown_username}
use smile2unlock_v.Udp.Password.{password_packet, send_password}
use smile2unlock_v.Udp.Password.RoundTrip.{password_packet-Fits, password_packet_blob}
use smile2unlock_v.Gui.Models.{User}
use smile2unlock_v.Recognition.Match.{Database}
use smile2unlock_v.Recognition.Manager.{
  FaceRecognition, System, Sent, password_sent, on_cp_request_received,
}
use smile2unlock_v.Credential.Results.{ok}
use smile2unlock_v.Credential.Names.{Wide}
use smile2unlock_v.Credential.PasswordRequest.{
  Conversions, Answers, password_hint, read_reply, request_and_decrypt_password_from_su,
}

first : List Bytes → Option Bytes
first [] = none
first (d ∷ _) = some d

module _ {F : Type 0} (protect : Bytes → Option Bytes) (database : Option Database) (sys : System)
    (now : ℕ) (m : FaceRecognition F) where
  sent_reply : List Sent → Option Bytes
  unfolding first
  sent_reply (password_sent session_id username password done ∷ []) =
      first
        (send_password protect (record { initialized = true }) now true session_id username password
          done).1
  sent_reply _ = none

  reply_to : Step AuthRequest → Option Bytes
  unfolding sent_reply
  reply_to (deliver r) =
      sent_reply
        (on_cp_request_received database sys r.request_type r.username_hint r.session_id m).1
  reply_to _ = none

  -- The datagram that the service sends back for one that it receives.
  unfoldable pub service : Bytes → Option Bytes
  unfolding reply_to
  service d = reply_to (receive_request true d)

abbrev pub all_answered : ℕ → Answers
all_answered now = record {
  wsa_started = true;
  socket_made = true;
  bound = true;
  now = now;
  socket_takes = true;
  heap = true;
}

module _ (v : Conversions) where
  read_reply-image :
      (p : UdpPasswordResponsePacket) (password : Bytes) (wide : Wide)
      → Fits p
      → p.magic_number ≡ password_response_magic
      → p.version ≡ password_response_version
      → p.result_code ≡ 0
      → 0 < p.protected_password_size
      → p.protected_password_size ≤ protected_password_capacity
      → v.unprotect (take p.protected_password_size p.protected_password) ≡ some password
      → v.to_wide (until_nul password) ≡ some wide
      → read_reply v true p.session_id (some (password_image p)) ≡ ok wide
  unfolding read_reply
  read_reply-image p password wide f m e r pos fits u w =
      ground (arith, length-password_image p f, password_view-password_image p f)

  read_reply-packet :
      (session_id : ℕ) (username : Bytes) (now : ℕ) (password blob : Bytes) (wide : Wide)
      → session_id < 2 ^ 32
      → 0 < length blob
      → length blob ≤ protected_password_capacity
      → v.unprotect blob ≡ some password
      → v.to_wide (until_nul password) ≡ some wide
      → read_reply v true session_id
          (some (password_image (password_packet session_id username true blob now)))
        ≡ ok wide
  unfolding password_packet
  read_reply-packet session_id username now password blob wide s pos fits u w =
      read_reply-image (password_packet session_id username true blob now) password wide
        (password_packet-Fits session_id username now true blob s fits) refl refl refl pos fits
        (rw (password_packet_blob session_id username now blob) u) w

-- The datagram of a password request, as its receiver reads it.
auth_request_received :
    (now : ℕ) (hint : Bytes) (session_id : ℕ)
    → session_id < 2 ^ 32
    → (d : Bytes) × (auth_send_request now true get_password hint session_id ≡ (true, d ∷ []))
      × (receive_request true d
          ≡ deliver (record {
            request_type = get_password;
            username_hint = shown_username hint;
            session_id = session_id;
          }))
unfolding auth_send_request send_request
auth_request_received now hint session_id s =
    receive_request-send_request get_password hint session_id now tt s

module _ {F : Type 0} (protect : Bytes → Option Bytes) (database : Database) (sys : System)
    (now : ℕ) (m : FaceRecognition F) (session_id : ℕ) (hint d : Bytes) (user : User)
    (blob : Bytes) where
  service-found :
      receive_request true d
        ≡ deliver
            (record { request_type = get_password; username_hint = hint; session_id = session_id })
      → database.get_user_by_username hint ≡ some user
      → is_empty (database.decrypt_password user.encrypted_password) ≡ false
      → protect (database.decrypt_password user.encrypted_password) ≡ some blob
      → length blob ≤ protected_password_capacity
      → service protect (some database) sys now m d
        ≡ some (password_image (password_packet session_id user.username true blob now))
  unfolding service sent_reply first on_cp_request_received send_password
  service-found received found ne pr fits = rw (received, found) (ground arith)

module _ {F : Type 0} (v : Conversions) (protect : Bytes → Option Bytes)
    (unprotect-protect : (s b : Bytes) → protect s ≡ some b → v.unprotect b ≡ some s)
    (database : Database) (sys : System) (now now' : ℕ) (m : FaceRecognition F) (session_id : ℕ)
    (recognized_username : Bytes) (username : Option Wide) (user : User) (blob : Bytes)
    (wide : Wide) where
  -- Between the credential provider and the service, with all calls of Windows working: the
  -- password that the provider gets is the wide form of the stored password, as the database
  -- decrypts it, of the user whose name is the provider's hint cut at its first NUL and to 63
  -- bytes; in whatever state the service is. The hint and the password are not empty, the session
  -- is a 32-bit number, the password converts, and its protected form is not empty and fits the
  -- packet.
  pub request_password-served :
      is_empty (password_hint v recognized_username username) ≡ false
      → session_id < 2 ^ 32
      → database.get_user_by_username
          (shown_username (password_hint v recognized_username username))
        ≡ some user
      → is_empty (database.decrypt_password user.encrypted_password) ≡ false
      → protect (database.decrypt_password user.encrypted_password) ≡ some blob
      → 0 < length blob
      → length blob ≤ protected_password_capacity
      → v.to_wide (until_nul (database.decrypt_password user.encrypted_password)) ≡ some wide
      → request_and_decrypt_password_from_su v
          (all_answered now)
          session_id
          (service protect (some database) sys now' m)
          recognized_username
          username
        ≡ ok wide
  unfolding request_and_decrypt_password_from_su
  request_password-served named s found ne pr pos fits w =
      let hint = password_hint v recognized_username username in
      let password = database.decrypt_password user.encrypted_password in
      let (d, sent, received) = auth_request_received now hint session_id s in
      let p = password_packet session_id user.username true blob now' in
      rw
        (
          named,
          sent,
          service-found protect database sys now' m session_id (shown_username hint) d user blob
              received found ne pr fits,
        )
        (read_reply-packet v session_id user.username now' password blob wide s pos fits
          (unprotect-protect password blob pr) w)
