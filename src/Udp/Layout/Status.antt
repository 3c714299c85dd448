-- ===== src/Udp/Layout/Status.antt =====
-- The memory image of the packets: what `asio::buffer(&packet, sizeof(packet))` sends and fills.
use smile2unlock_v.Base.{
  ℕ, ◌+◌, ◌^◌, ◌<◌, ◌≡◌, [], ◌++◌, arith, length, take, drop, take_exact, drop_exact, drop_past,
  length-append,
}
use smile2unlock_v.Base.Text.{Bytes}
use smile2unlock_v.Udp.Memory.{le32, le64, read32, read64, read32-le32, read64-le64}
use smile2unlock_v.Udp.Packets.{UdpStatusPacket, username_size, feature_size}

-- Behind the first three words, and so on: the offsets follow from #pragma pack(push, 1).
abbrev pub status_username_offset : ℕ
status_username_offset = 20

abbrev pub status_feature_offset : ℕ
status_feature_offset = status_username_offset + username_size

abbrev pub status_packet_size : ℕ
status_packet_size = status_feature_offset + feature_size + 8

unfoldable pub status_image : UdpStatusPacket → Bytes
status_image p =
    le32 p.magic_number
    ++ (le32 p.version
        ++ (le32 p.status
            ++ (le32 p.session_id
                ++ (le32 p.feature_bytes ++ (p.username ++ (p.feature ++ le64 p.timestamp))))))

unfoldable pub status_view : Bytes → UdpStatusPacket
unfolding read32 read64 drop take
status_view bs = record {
  magic_number = read32 bs;
  version = read32 (drop 4 bs);
  status = read32 (drop 8 bs);
  session_id = read32 (drop 12 bs);
  feature_bytes = read32 (drop 16 bs);
  username = take username_size (drop status_username_offset bs);
  feature = take feature_size (drop status_feature_offset bs);
  timestamp = read64 (drop (status_feature_offset + feature_size) bs);
}

-- Every field fits its type.
pub record Fits (p : UdpStatusPacket) : Type 0 where
  pub magic_number_fits : p.magic_number < 2 ^ 32
  pub version_fits : p.version < 2 ^ 32
  pub status_fits : p.status < 2 ^ 32
  pub session_id_fits : p.session_id < 2 ^ 32
  pub feature_bytes_fits : p.feature_bytes < 2 ^ 32
  pub username_fits : length p.username ≡ username_size
  pub feature_fits : length p.feature ≡ feature_size
  pub timestamp_fits : p.timestamp < 2 ^ 64

pub length-status_image :
    (p : UdpStatusPacket) → Fits p → length (status_image p) ≡ status_packet_size
unfolding status_image
length-status_image p v = omega (
  arith,
  length-append p.username (p.feature ++ le64 p.timestamp),
  length-append p.feature (le64 p.timestamp),
)

-- A read of the fields gives back what was written.
pub status_view-status_image : (p : UdpStatusPacket) → Fits p → status_view (status_image p) ≡ p
unfolding status_image status_view
status_view-status_image p v = λ i. record {
  magic_number = read32-le32 p.magic_number [] v.magic_number_fits i;
  version = read32-le32 p.version [] v.version_fits i;
  status = read32-le32 p.status [] v.status_fits i;
  session_id = read32-le32 p.session_id [] v.session_id_fits i;
  feature_bytes = read32-le32 p.feature_bytes [] v.feature_bytes_fits i;
  username = take_exact username_size p.username (p.feature ++ le64 p.timestamp) v.username_fits i;
  feature = feature_read i;
  timestamp = timestamp_read i;
}
  where
    feature_read :
        take feature_size (drop username_size (p.username ++ (p.feature ++ le64 p.timestamp)))
        ≡ p.feature
    feature_read =
        rw (drop_exact username_size p.username (p.feature ++ le64 p.timestamp) v.username_fits)
          (take_exact feature_size p.feature (le64 p.timestamp) v.feature_fits)

    timestamp_read :
        read64 (drop (username_size + feature_size) (p.username ++ (p.feature ++ le64 p.timestamp)))
        ≡ p.timestamp
    timestamp_read =
        rw
          (drop_past username_size feature_size p.username (p.feature ++ le64 p.timestamp)
            v.username_fits)
          (rw (drop_exact feature_size p.feature (le64 p.timestamp) v.feature_fits)
            (read64-le64 p.timestamp v.timestamp_fits))
