-- ===== src/Recognizer/Hex.antt =====
-- EncodeBytesToHex and DecodeHexToBytes.
use smile2unlock_v.Base.{
  ℕ, ◌+◌, ◌-◌, ◌*◌, ◌/◌, ◌%◌, ◌<◌, ◌≡◌, refl, [], ◌∷◌, Option, none, some, arith, ltb,
  if◌then◌else◌, All, length,
}
use smile2unlock_v.Base.Text.{Bytes}
use smile2unlock_v.Recognition.Features.{hex_value, hex_bytes}

-- `kHex[n]`.
hex_digit : ℕ → ℕ
hex_digit n = if ltb n 10 then b'0' + n else b'A' + (n - 10)

unfoldable pub encode_bytes_to_hex : Bytes → Bytes
unfolding hex_digit
encode_bytes_to_hex [] = []
encode_bytes_to_hex (x ∷ s) = hex_digit (x / 16 % 16) ∷ hex_digit (x % 16) ∷ encode_bytes_to_hex s

pair_value : Option ℕ → Option ℕ → Option Bytes → Option Bytes
pair_value (some high) (some low) (some bytes) = some ((high * 16 + low) ∷ bytes)
pair_value _ _ _ = none

-- `none` is a std::runtime_error.
unfoldable pub decode_hex_to_bytes : Bytes → Option Bytes
unfolding pair_value
decode_hex_to_bytes [] = some []
decode_hex_to_bytes (a ∷ []) = none
decode_hex_to_bytes (a ∷ b ∷ s) = pair_value (hex_value a) (hex_value b) (decode_hex_to_bytes s)

hex_value-hex_digit : (n : ℕ) → n < 16 → hex_value (hex_digit n) ≡ some n
unfolding hex_value hex_digit
hex_value-hex_digit n h = ground arith

-- The hex digits of any bytes are decoded to the same bytes, by the recognizer process and by the
-- service alike, and there are two for a byte.
pub hex_bytes-encode_bytes_to_hex :
    (bytes : Bytes)
    → All (λ x. x < 256) bytes
    → (hex_bytes (encode_bytes_to_hex bytes) ≡ some bytes)
      × (decode_hex_to_bytes (encode_bytes_to_hex bytes) ≡ some bytes)
      × (length (encode_bytes_to_hex bytes) ≡ 2 * length bytes)
unfolding encode_bytes_to_hex decode_hex_to_bytes hex_bytes
hex_bytes-encode_bytes_to_hex [] h = (refl, refl, omega arith)
hex_bytes-encode_bytes_to_hex (x ∷ s) (h, hs) =
    let (ih, ih', size) = hex_bytes-encode_bytes_to_hex s hs in
    let high = hex_value-hex_digit (x / 16 % 16) (omega arith) in
    let low = hex_value-hex_digit (x % 16) (omega arith) in
    let whole : x / 16 % 16 * 16 + x % 16 ≡ x = omega arith in
    (rw (high, low, ih, whole) refl, rw (high, low, ih', whole) refl, omega (arith, size))

pub length-encode_bytes_to_hex :
    (bytes : Bytes) → length (encode_bytes_to_hex bytes) ≡ 2 * length bytes
unfolding encode_bytes_to_hex
length-encode_bytes_to_hex [] = omega arith
length-encode_bytes_to_hex (x ∷ s) = omega (arith, length-encode_bytes_to_hex s)
