-- ===== src/Udp/Layout/Auth.antt =====
-- The memory image of UdpAuthRequestPacket.
use smile2unlock_v.Base.{
  ℕ, ◌+◌, ◌^◌, ◌<◌, ◌≡◌, [], ◌++◌, arith, length, take, drop, take_exact, drop_exact, drop_past,
  length-append,
}
use smile2unlock_v.Base.Text.{Bytes}
use smile2unlock_v.Udp.Memory.{le32, le64, read32, read64, read32-le32, read64-le64_then}
use smile2unlock_v.Udp.Packets.{UdpAuthRequestPacket, username_size}

abbrev pub auth_username_offset : ℕ
auth_username_offset = 12

abbrev pub auth_packet_size : ℕ
auth_packet_size = auth_username_offset + username_size + 8 + 4

unfoldable pub auth_image : UdpAuthRequestPacket → Bytes
auth_image p =
    le32 p.magic_number
    ++ (le32 p.version
        ++ (le32 p.request_type ++ (p.username_hint ++ (le64 p.timestamp ++ le32 p.session_id))))

unfoldable pub auth_view : Bytes → UdpAuthRequestPacket
unfolding read32 read64 drop take
auth_view bs = record {
  magic_number = read32 bs;
  version = read32 (drop 4 bs);
  request_type = read32 (drop 8 bs);
  username_hint = take username_size (drop auth_username_offset bs);
  timestamp = read64 (drop (auth_username_offset + username_size) bs);
  session_id = read32 (drop (auth_username_offset + username_size + 8) bs);
}

pub record Fits (p : UdpAuthRequestPacket) : Type 0 where
  pub magic_number_fits : p.magic_number < 2 ^ 32
  pub version_fits : p.version < 2 ^ 32
  pub request_type_fits : p.request_type < 2 ^ 32
  pub username_hint_fits : length p.username_hint ≡ username_size
  pub timestamp_fits : p.timestamp < 2 ^ 64
  pub session_id_fits : p.session_id < 2 ^ 32

pub length-auth_image :
    (p : UdpAuthRequestPacket) → Fits p → length (auth_image p) ≡ auth_packet_size
unfolding auth_image
length-auth_image p v =
    omega (arith, length-append p.username_hint (le64 p.timestamp ++ le32 p.session_id))

pub auth_view-auth_image : (p : UdpAuthRequestPacket) → Fits p → auth_view (auth_image p) ≡ p
unfolding auth_image auth_view
auth_view-auth_image p v = λ i. record {
  magic_number = read32-le32 p.magic_number [] v.magic_number_fits i;
  version = read32-le32 p.version [] v.version_fits i;
  request_type = read32-le32 p.request_type [] v.request_type_fits i;
  username_hint = take_exact username_size p.username_hint tail v.username_hint_fits i;
  timestamp = timestamp_read i;
  session_id = session_read i;
}
  where
    tail : Bytes
    tail = le64 p.timestamp ++ le32 p.session_id

    timestamp_read : read64 (drop username_size (p.username_hint ++ tail)) ≡ p.timestamp
    timestamp_read =
        rw (drop_exact username_size p.username_hint tail v.username_hint_fits)
          (read64-le64_then p.timestamp (le32 p.session_id) v.timestamp_fits)

    session_read : read32 (drop (username_size + 8) (p.username_hint ++ tail)) ≡ p.session_id
    session_read =
        rw (drop_past username_size 8 p.username_hint tail v.username_hint_fits)
          (read32-le32 p.session_id [] v.session_id_fits)
