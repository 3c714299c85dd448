-- ===== src/Base/Decimal/Unsigned.antt =====
-- std::stoul, whose numbers have 32 bits on Windows: a minus sign wraps them around.
use Prim.Native.Nat.{ℕ, suc, ◌-◌, ◌%◌, ◌^◌, ◌<◌}
use mathlib.Core.Path.{◌≡◌}
use mathlib.Core.Bool.{Bool, true, false}
use mathlib.Core.Option.{Option, none, some}
use mathlib.Core.List.{[], ◌∷◌}
use native.Mathlib.Omega.{arith}
use smile2unlock_v.Base.Tests.{◌==◌, leb, if◌then◌else◌}
use smile2unlock_v.Base.Text.{Bytes}
use smile2unlock_v.Base.Decimal.{
  pos, to_string, digits, is_space, skip_space, leading_digit, scan, leading-digits_onto,
  scan-digits_onto,
}

-- `none` is an exception: no digit, or out of range.
in_range : Bool → Bool → ℕ × Bytes → Option ℕ
in_range negative false r = none
in_range negative true (n, rest) =
    if leb (2 ^ 32) n then none else some (if negative then (2 ^ 32 - n) % 2 ^ 32 else n)

unsigned : Bytes → Option ℕ
unfolding leading_digit scan in_range
unsigned [] = none
unsigned (c ∷ s) =
    if c == b'-'
    then in_range true (leading_digit s) (scan 0 s)
    else if c == b'+'
    then in_range false (leading_digit s) (scan 0 s)
    else in_range false (leading_digit (c ∷ s)) (scan 0 (c ∷ s))

unfoldable pub stoul : Bytes → Option ℕ
unfolding skip_space unsigned
stoul s = unsigned (skip_space s)

unsigned_digits :
    (s : Bytes)
    → leading_digit s ≡ true
    → unsigned (skip_space s) ≡ in_range false (leading_digit s) (scan 0 s)
unfolding leading_digit skip_space is_space unsigned
unsigned_digits [] h = cc
unsigned_digits (c ∷ s) h = ground arith

-- Every number below 2^32 is read back from its print.
pub stoul-to_string : (n : ℕ) → n < 2 ^ 32 → stoul (to_string (pos n)) ≡ some n
unfolding stoul to_string digits
stoul-to_string n h =
    rw
      (
        unsigned_digits (digits n) (leading-digits_onto (suc n) n [] (omega arith)),
        leading-digits_onto (suc n) n [] (omega arith),
        scan-digits_onto (suc n) n [] (omega arith),
      )
      (ground arith)
