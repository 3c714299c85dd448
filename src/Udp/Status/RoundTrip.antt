-- ===== src/Udp/Status/RoundTrip.antt =====
-- What a status receiver makes of the datagrams of a status sender.
use smile2unlock_v.Base.{
  ℕ, ◌-◌, ◌^◌, ◌%◌, ◌<◌, ◌≡◌, inl, inr, refl, ap, ◌∙◌, [], ◌∷◌, ◌++◌, true, some, arith, Bool-cases,
  length, take, drop, take-append_left, take_nil,
}
use smile2unlock_v.Base.Text.{Bytes, is_empty, c_string}
use smile2unlock_v.Udp.Memory.{
  le64, zeros, length-zeros, char_field, data_field, until_nul, length-char_field,
  length-data_field, c_string-char_field,
}
use smile2unlock_v.Udp.Packets.{
  RecognitionStatus, status_of, status_of-status_code, status_code-lt, IsNamed, status_magic,
  status_version, username_size, feature_size, UdpStatusPacket,
}
use smile2unlock_v.Udp.Layout.Status.{
  status_image, status_username_offset, Fits, length-status_image, status_view-status_image,
}
use smile2unlock_v.Udp.Loop.{Step, deliver}
use smile2unlock_v.Udp.Status.{
  StatusReport, status_packet, send_status, reported_feature, receive_status, packed_username,
  packed_feature,
}

-- A username as the other side sees it: cut at a NUL and to 63 bytes.
abbrev pub shown_username : Bytes → Bytes
shown_username s = take 63 (until_nul s)

pub length-packed_username : (s : Bytes) → length (packed_username s) ≡ username_size
unfolding packed_username
length-packed_username s = elim (Bool-cases (is_empty s)) [
  | inl e ↦ rw e (length-zeros username_size)
  | inr e ↦ rw e (length-char_field 63 s)
]

char_field-empty : (k : ℕ) (s : Bytes) → is_empty s ≡ true → char_field k s ≡ zeros k
unfolding is_empty char_field until_nul
char_field-empty k [] h = rw (take_nil {A = ℕ} (k - 1)) (ap zeros (omega arith))
char_field-empty k (x ∷ s) h = cc

pub c_string-packed_username :
    (s rest : Bytes) → c_string (packed_username s ++ rest) ≡ some (shown_username s)
unfolding packed_username
c_string-packed_username s rest = elim (Bool-cases (is_empty s)) [
  | inl e ↦ rw (e, ← char_field-empty username_size s e) (c_string-char_field 63 s rest)
  | inr e ↦ rw e (c_string-char_field 63 s rest)
]

length-packed_feature :
    (f : Bytes) → length f < feature_size → length (packed_feature f) ≡ feature_size
unfolding packed_feature
length-packed_feature f h = elim (Bool-cases (is_empty f)) [
  | inl e ↦ rw e (length-zeros feature_size)
  | inr e ↦ rw e (length-data_field feature_size f (omega arith))
]

-- The receiver cuts the feature out of the array again.
reported_feature-packed_feature :
    (f : Bytes) → length f < feature_size → reported_feature (length f) (packed_feature f) ≡ f
unfolding reported_feature packed_feature is_empty data_field
reported_feature-packed_feature [] h = refl
reported_feature-packed_feature (x ∷ f) h =
    ground (arith, take-append_left (x ∷ f) (zeros (feature_size - length (x ∷ f))))

module _ (status : RecognitionStatus) (username : Bytes) (session_id : ℕ) (feature : Bytes)
    (now : ℕ) where
  status_packet-Fits :
      IsNamed status
      → session_id < 2 ^ 32
      → length feature < feature_size
      → Fits (status_packet status username session_id feature now)
  unfolding status_packet
  status_packet-Fits named s f = record {
    magic_number_fits = omega arith;
    version_fits = omega arith;
    status_fits = status_code-lt status named;
    session_id_fits = s;
    feature_bytes_fits = omega arith;
    username_fits = length-packed_username username;
    feature_fits = length-packed_feature feature f;
    timestamp_fits = omega arith;
  }

  status_packet_magic :
      ((status_packet status username session_id feature now).magic_number ≡ status_magic)
      × ((status_packet status username session_id feature now).version ≡ status_version)
  unfolding status_packet
  status_packet_magic = (refl, refl)

  status_packet_name :
      c_string (
        drop status_username_offset
          (status_image (status_packet status username session_id feature now)))
      ≡ some (shown_username username)
  unfolding status_packet status_image drop
  status_packet_name =
      c_string-packed_username username (packed_feature feature ++ le64 (now % 2 ^ 64))

  status_packet_report :
      IsNamed status
      → length feature < feature_size
      → let p = status_packet status username session_id feature now in
        ◌≡◌ {A = Step StatusReport}
          (deliver (record {
            status = status_of p.status;
            username = shown_username username;
            session_id = p.session_id;
            feature = reported_feature p.feature_bytes p.feature;
          }))
          (deliver (record {
            status = status;
            username = shown_username username;
            session_id = session_id;
            feature = feature;
          }))
  unfolding status_packet
  status_packet_report named f = λ i. deliver (record {
    status = status_of-status_code status named i;
    username = shown_username username;
    session_id = session_id;
    feature = reported_feature-packed_feature feature f i;
  })

-- A well-formed image is delivered, with the C string that stands at its username.
receive-status_image :
    (p : UdpStatusPacket) (name : Bytes)
    → Fits p
    → p.magic_number ≡ status_magic
    → p.version ≡ status_version
    → c_string (drop status_username_offset (status_image p)) ≡ some name
    → receive_status true (status_image p)
      ≡ deliver (record {
        status = status_of p.status;
        username = name;
        session_id = p.session_id;
        feature = reported_feature p.feature_bytes p.feature;
      })
unfolding receive_status
receive-status_image p name v m e n =
    ground (arith, length-status_image p v, status_view-status_image p v)

-- An initialised sender whose socket works sends one datagram for a named status and a feature that
-- is shorter than the array, and a receiver that has a callback delivers from it the same status,
-- session and feature, and the username cut at its first NUL and to 63 bytes.
pub receive_status-send_status :
    (status : RecognitionStatus) (username : Bytes) (session_id : ℕ) (feature : Bytes) (now : ℕ)
    → IsNamed status
    → session_id < 2 ^ 32
    → length feature < feature_size
    → (d : Bytes) × (send_status
          (record { initialized = true })
          now
          true
          status
          username
          session_id
          feature
        ≡ (true, d ∷ []))
      × (receive_status true d
          ≡ deliver (record {
            status = status;
            username = shown_username username;
            session_id = session_id;
            feature = feature;
          }))
unfolding send_status
receive_status-send_status status username session_id feature now named s f =
    (status_image p, ground arith, got)
  where
    p : UdpStatusPacket
    p = status_packet status username session_id feature now

    got :
        receive_status true (status_image p)
        ≡ deliver (record {
          status = status;
          username = shown_username username;
          session_id = session_id;
          feature = feature;
        })
    got =
        receive-status_image p (shown_username username)
          (status_packet-Fits status username session_id feature now named s f)
          (status_packet_magic status username session_id feature now).0
          (status_packet_magic status username session_id feature now).1
          (status_packet_name status username session_id feature now)
        ∙ status_packet_report status username session_id feature now named f
