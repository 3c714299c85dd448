-- ===== src/Udp/AuthRequest/RoundTrip.antt =====
-- What the request receiver makes of the datagrams of a request sender.
use smile2unlock_v.Base.{ℕ, ◌^◌, ◌%◌, ◌<◌, ◌≡◌, refl, [], ◌∷◌, ◌++◌, true, some, arith, drop}
use smile2unlock_v.Base.Text.{Bytes, c_string}
use smile2unlock_v.Udp.Memory.{le32, le64}
use smile2unlock_v.Udp.Packets.{
  AuthRequestType, request_code, request_of, request_of-request_code, request_code-lt,
  IsNamedRequest, auth_request_magic, auth_request_version, UdpAuthRequestPacket,
}
use smile2unlock_v.Udp.Layout.Auth.{
  auth_image, auth_username_offset, Fits, length-auth_image, auth_view-auth_image,
}
use smile2unlock_v.Udp.Loop.{deliver}
use smile2unlock_v.Udp.Status.RoundTrip.{
  shown_username, length-packed_username, c_string-packed_username,
}
use smile2unlock_v.Udp.AuthRequest.{auth_packet, send_request, receive_request}

receive-auth_image :
    (p : UdpAuthRequestPacket) (name : Bytes)
    → Fits p
    → p.magic_number ≡ auth_request_magic
    → p.version ≡ auth_request_version
    → c_string (drop auth_username_offset (auth_image p)) ≡ some name
    → receive_request true (auth_image p)
      ≡ deliver (record {
        request_type = request_of p.request_type;
        username_hint = name;
        session_id = p.session_id;
      })
unfolding receive_request
receive-auth_image p name v m e n = ground (arith, length-auth_image p v, auth_view-auth_image p v)

module _ (request_type : AuthRequestType) (hint : Bytes) (session_id : ℕ) (now : ℕ) where
  auth_packet-Fits :
      IsNamedRequest request_type
      → session_id < 2 ^ 32
      → Fits (auth_packet request_type hint session_id now)
  unfolding auth_packet
  auth_packet-Fits named s = record {
    magic_number_fits = omega arith;
    version_fits = omega arith;
    request_type_fits = request_code-lt request_type named;
    username_hint_fits = length-packed_username hint;
    timestamp_fits = omega arith;
    session_id_fits = s;
  }

  receive-auth_packet :
      IsNamedRequest request_type
      → session_id < 2 ^ 32
      → receive_request true (auth_image (auth_packet request_type hint session_id now))
        ≡ deliver (record {
          request_type = request_of (request_code request_type);
          username_hint = shown_username hint;
          session_id = session_id;
        })
  unfolding auth_packet auth_image drop
  receive-auth_packet named s =
      receive-auth_image (auth_packet request_type hint session_id now) (shown_username hint)
        (auth_packet-Fits named s) refl refl
        (c_string-packed_username hint (le64 (now % 2 ^ 64) ++ le32 session_id))

  -- An initialised sender whose socket works sends one datagram for a named request, and a receiver
  -- that has a callback delivers from it the same request and session, and the hint cut at its
  -- first NUL and to 63 bytes.
  pub receive_request-send_request :
      IsNamedRequest request_type
      → session_id < 2 ^ 32
      → (d : Bytes) × (send_request
            (record { initialized = true })
            now
            true
            request_type
            hint
            session_id
          ≡ (true, d ∷ []))
        × (receive_request true d
            ≡ deliver (record {
              request_type = request_type;
              username_hint = shown_username hint;
              session_id = session_id;
            }))
  unfolding send_request
  receive_request-send_request named s = (
    auth_image (auth_packet request_type hint session_id now),
    refl,
    rw (request_of-request_code request_type named) at (receive-auth_packet named s),
  )
