-- ===== src/Udp/Layout/Password.antt =====
-- The memory image of UdpPasswordResponsePacket.
use smile2unlock_v.Base.{
  ℕ, ◌+◌, ◌^◌, ◌<◌, ◌≡◌, [], ◌++◌, arith, length, take, drop, take_exact, drop_exact, drop_past,
  length-append,
}
use smile2unlock_v.Base.Text.{Bytes}
use smile2unlock_v.Udp.Memory.{le32, le64, read32, read64, read32-le32, read64-le64}
use smile2unlock_v.Udp.Packets.{
  UdpPasswordResponsePacket, username_size, protected_password_capacity,
}

abbrev pub password_username_offset : ℕ
password_username_offset = 16

abbrev pub password_size_offset : ℕ
password_size_offset = password_username_offset + username_size

abbrev pub protected_password_offset : ℕ
protected_password_offset = password_size_offset + 4

abbrev pub password_packet_size : ℕ
password_packet_size = protected_password_offset + protected_password_capacity + 8

unfoldable pub password_image : UdpPasswordResponsePacket → Bytes
password_image p =
    le32 p.magic_number
    ++ (le32 p.version
        ++ (le32 p.session_id
            ++ (le32 p.result_code
                ++ (p.username
                    ++ (le32 p.protected_password_size
                        ++ (p.protected_password ++ le64 p.timestamp))))))

unfoldable pub password_view : Bytes → UdpPasswordResponsePacket
unfolding read32 read64 drop take
password_view bs = record {
  magic_number = read32 bs;
  version = read32 (drop 4 bs);
  session_id = read32 (drop 8 bs);
  result_code = read32 (drop 12 bs);
  username = take username_size (drop password_username_offset bs);
  protected_password_size = read32 (drop password_size_offset bs);
  protected_password = take protected_password_capacity (drop protected_password_offset bs);
  timestamp = read64 (drop (protected_password_offset + protected_password_capacity) bs);
}

pub record Fits (p : UdpPasswordResponsePacket) : Type 0 where
  pub magic_number_fits : p.magic_number < 2 ^ 32
  pub version_fits : p.version < 2 ^ 32
  pub session_id_fits : p.session_id < 2 ^ 32
  pub result_code_fits : p.result_code < 2 ^ 32
  pub username_fits : length p.username ≡ username_size
  pub protected_password_size_fits : p.protected_password_size < 2 ^ 32
  pub protected_password_fits : length p.protected_password ≡ protected_password_capacity
  pub timestamp_fits : p.timestamp < 2 ^ 64

pub length-password_image :
    (p : UdpPasswordResponsePacket) → Fits p → length (password_image p) ≡ password_packet_size
unfolding password_image
length-password_image p v = omega (
  arith,
  length-append p.username
      (le32 p.protected_password_size ++ (p.protected_password ++ le64 p.timestamp)),
  length-append p.protected_password (le64 p.timestamp),
)

pub password_view-password_image :
    (p : UdpPasswordResponsePacket) → Fits p → password_view (password_image p) ≡ p
unfolding password_image password_view
password_view-password_image p v = λ i. record {
  magic_number = read32-le32 p.magic_number [] v.magic_number_fits i;
  version = read32-le32 p.version [] v.version_fits i;
  session_id = read32-le32 p.session_id [] v.session_id_fits i;
  result_code = read32-le32 p.result_code [] v.result_code_fits i;
  username = take_exact username_size p.username tail v.username_fits i;
  protected_password_size = size_read i;
  protected_password = password_read i;
  timestamp = timestamp_read i;
}
  where
    rest : Bytes
    rest = p.protected_password ++ le64 p.timestamp

    tail : Bytes
    tail = le32 p.protected_password_size ++ rest

    size_read : read32 (drop username_size (p.username ++ tail)) ≡ p.protected_password_size
    size_read =
        rw (drop_exact username_size p.username tail v.username_fits)
          (read32-le32 p.protected_password_size [] v.protected_password_size_fits)

    password_read :
        take protected_password_capacity (drop (username_size + 4) (p.username ++ tail))
        ≡ p.protected_password
    password_read = rw (drop_past username_size 4 p.username tail v.username_fits) (
        take_exact protected_password_capacity p.protected_password (le64 p.timestamp)
          v.protected_password_fits)

    timestamp_read :
        read64 (drop (username_size + (4 + protected_password_capacity)) (p.username ++ tail))
        ≡ p.timestamp
    timestamp_read =
        rw
          (drop_past username_size (4 + protected_password_capacity) p.username tail
            v.username_fits)
          (rw
            (drop_exact protected_password_capacity p.protected_password (le64 p.timestamp)
              v.protected_password_fits)
            (read64-le64 p.timestamp v.timestamp_fits))

-- What stands in memory from the array on.
pub drop-password_image :
    (p : UdpPasswordResponsePacket)
    → Fits p
    → drop protected_password_offset (password_image p) ≡ p.protected_password ++ le64 p.timestamp
unfolding password_image drop
drop-password_image p v =
    drop_past username_size 4 p.username
      (le32 p.protected_password_size ++ (p.protected_password ++ le64 p.timestamp)) v.username_fits
