-- ===== src/Udp/Memory.antt =====
-- Packed structures as bytes: little-endian words and char arrays (x64 Windows, #pragma pack(1)).
use mathlib.Core.List.{append_assoc}
use mathlib.Core.Option
use smile2unlock_v.Base.{
  ℕ, zero, suc, ◌+◌, ◌-◌, ◌*◌, ◌/◌, ◌%◌, ◌^◌, ◌≤◌, ◌<◌, ◌≡◌, refl, ap, [], ◌∷◌, ◌++◌, Option, none,
  some, arith, leb, Bool-cases, inl, inr, ◌==◌, if◌then◌else◌, length, take, drop, replicate,
  length-append, length-take, length-replicate, All-take,
}
use smile2unlock_v.Base.Text.{Bytes, Free, c_string, c_string-append}

abbrev pub le16 : ℕ → Bytes
le16 n = (n % 256) ∷ (n / 256 % 256) ∷ []

abbrev pub le32 : ℕ → Bytes
le32 n = (n % 256) ∷ (n / 256 % 256) ∷ (n / 65536 % 256) ∷ (n / 16777216 % 256) ∷ []

abbrev pub le64 : ℕ → Bytes
le64 n = le32 n ++ le32 (n / 4294967296)

unfoldable pub read32 : Bytes → ℕ
read32 (a ∷ b ∷ c ∷ d ∷ _) = a + 256 * b + 65536 * c + 16777216 * d
read32 _ = 0

unfoldable pub read64 : Bytes → ℕ
unfolding read32 drop
read64 bs = read32 bs + 4294967296 * read32 (drop 4 bs)

pub read32-le32 : (n : ℕ) (rest : Bytes) → n < 2 ^ 32 → read32 (le32 n ++ rest) ≡ n
unfolding read32
read32-le32 n rest h = omega arith

pub read64-le64 : (n : ℕ) → n < 2 ^ 64 → read64 (le64 n) ≡ n
unfolding read64
read64-le64 n h = omega arith

pub read64-le64_then : (n : ℕ) (rest : Bytes) → n < 2 ^ 64 → read64 (le64 n ++ rest) ≡ n
unfolding read64
read64-le64_then n rest h = omega arith

-- What a C function sees of a string: the bytes before the first NUL.
unfoldable pub until_nul : Bytes → Bytes
until_nul [] = []
until_nul (x ∷ xs) = if x == 0 then [] else x ∷ until_nul xs

pub until_nul-Free : (s : Bytes) → Free 0 (until_nul s)
unfolding until_nul
until_nul-Free [] = tt
until_nul-Free (x ∷ s) = ground (arith, until_nul-Free s)

pub until_nul_id : (s : Bytes) → Free 0 s → until_nul s ≡ s
unfolding until_nul
until_nul_id [] h = refl
until_nul_id (x ∷ s) h = ground (arith, until_nul_id s h.1)

unfoldable pub zeros : ℕ → Bytes
zeros n = replicate n 0

pub length-zeros : (n : ℕ) → length (zeros n) ≡ n
unfolding zeros
length-zeros n = length-replicate n _

pub zeros_pos : (n : ℕ) → 0 < n → zeros n ≡ 0 ∷ zeros (n - 1)
unfolding zeros replicate
zeros_pos zero h = absurd (omega arith)
zeros_pos (suc n) h = ap (λ m. 0 ∷ replicate m 0) (omega arith)

-- `strncpy_s(field, sizeof(field), s, _TRUNCATE)` into a zeroed array of `size` bytes.
unfoldable pub char_field : ℕ → Bytes → Bytes
char_field size s = let kept = take (size - 1) (until_nul s) in kept ++ zeros (size - length kept)

-- `memcpy(field, s.data(), s.size())` into a zeroed array of `size` bytes.
unfoldable pub data_field : ℕ → Bytes → Bytes
data_field size s = s ++ zeros (size - length s)

pub length-char_field : (k : ℕ) (s : Bytes) → length (char_field (suc k) s) ≡ suc k
unfolding char_field
length-char_field k s =
    let kept = take (suc k - 1) (until_nul s) in
    omega (
      arith,
      length-append kept (zeros (suc k - length kept)),
      length-take (suc k - 1) (until_nul s),
      length-zeros (suc k - length kept),
    )

pub length-data_field : (size : ℕ) (s : Bytes) → length s ≤ size → length (data_field size s) ≡ size
unfolding data_field
length-data_field size s h =
    omega (arith, length-append s (zeros (size - length s)), length-zeros (size - length s))

-- A C read of such a field stops inside it, whatever stands behind it.
pub c_string-char_field :
    (k : ℕ) (s rest : Bytes) → c_string (char_field (suc k) s ++ rest) ≡ some (take k (until_nul s))
unfolding char_field
c_string-char_field k s rest =
    let e : suc k - 1 ≡ k = omega arith in
    let kept = take k (until_nul s) in
    let pad : 0 < suc k - length kept = omega (arith, length-take k (until_nul s)) in
    rw (e, zeros_pos (suc k - length kept) pad, append_assoc)
      (c_string-append kept _ (All-take _ k (until_nul s) (until_nul-Free s)))

-- So many bytes from the start on; `none` is a read behind the end.
unfoldable pub read_bytes : ℕ → Bytes → Option Bytes
read_bytes zero bs = some []
read_bytes (suc n) [] = none
read_bytes (suc n) (x ∷ bs) = Option.map (λ s. x ∷ s) (read_bytes n bs)

pub read_bytes_lem :
    (n : ℕ) (bs : Bytes) → read_bytes n bs ≡ (if leb n (length bs) then some (take n bs) else none)
unfolding read_bytes take
read_bytes_lem zero bs = ground arith
read_bytes_lem (suc n) [] = ground arith
read_bytes_lem (suc n) (x ∷ bs) = elim (Bool-cases (leb n (length bs))) [
  | inl e ↦ ground (arith, read_bytes_lem n bs)
  | inr e ↦ ground (arith, read_bytes_lem n bs)
]

pub read_bytes-append :
    (n : ℕ) (a b : Bytes) → n ≤ length a → read_bytes n (a ++ b) ≡ some (take n a)
unfolding read_bytes take
read_bytes-append zero a b h = refl
read_bytes-append (suc n) [] b h = absurd (omega arith)
read_bytes-append (suc n) (x ∷ a) b h = rw (read_bytes-append n a b (omega arith)) refl
