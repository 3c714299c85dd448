-- ===== src/Base/Decimal.antt =====
-- Decimal numbers: std::to_string of an int, and std::stoi with the check that the whole text is
-- read, which the sources call parse_int.
pub mod Unsigned
use Prim.Native.Nat.{ℕ, zero, suc, ◌+◌, ◌-◌, ◌*◌, ◌/◌, ◌%◌, ◌^◌, ◌≤◌, ◌<◌}
use mathlib.Core.Path.{◌≡◌, refl, sym}
use mathlib.Core.Logic.{◌≢◌, ◌⊎◌, inl, inr}
use mathlib.Core.Bool.{Bool, true, false, ◌&&◌, ◌||◌}
use mathlib.Core.Option.{Option, none, some}
use mathlib.Core.List.{[], ◌∷◌}
use native.Mathlib.Omega.{arith}
use smile2unlock_v.Base.Tests.{◌==◌, ltb, leb, if◌then◌else◌, Bool-cases}
use smile2unlock_v.Base.Lists.{length}
use smile2unlock_v.Base.Text.{Bytes, Free, is_empty}

-- `negsuc n` is -(n + 1).
pub data ℤ : Type 0 where
  pos : ℕ → ℤ
  negsuc : ℕ → ℤ

-- The values of a 32-bit int.
abbrev pub IsInt : ℤ → Type 0
IsInt (pos n) = n < 2 ^ 31
IsInt (negsuc n) = n < 2 ^ 31

-- The digits of `n` in front of `out`; the fuel is more than `n`.
digits_onto : ℕ → ℕ → Bytes → Bytes
digits_onto zero n out = out
digits_onto (suc f) n out =
    let rest = digits_onto f (n / 10) ((48 + n % 10) ∷ out) in
    if n / 10 == 0 then (48 + n % 10) ∷ out else rest

digits : ℕ → Bytes
unfolding digits_onto
digits n = digits_onto (suc n) n []

unfoldable pub to_string : ℤ → Bytes
unfolding digits
to_string (pos n) = digits n
to_string (negsuc n) = b'-' ∷ digits (suc n)

is_digit : ℕ → Bool
is_digit c = leb 48 c && leb c 57

is_space : ℕ → Bool
is_space c = c == 32 || leb 9 c && leb c 13

scan : ℕ → Bytes → ℕ × Bytes
unfolding is_digit
scan n [] = (n, [])
scan n (c ∷ s) = if is_digit c then scan (n * 10 + (c - 48)) s else (n, c ∷ s)

skip_space : Bytes → Bytes
unfolding is_space
skip_space [] = []
skip_space (c ∷ s) = if is_space c then skip_space s else c ∷ s

leading_digit : Bytes → Bool
unfolding is_digit
leading_digit [] = false
leading_digit (c ∷ s) = is_digit c

-- A number with its sign. `none` is an exception of std::stoi: no digit, or out of range.
with_sign : Bool → Bool → ℕ × Bytes → Option (ℤ × Bytes)
with_sign negative false r = none
with_sign true true (n, rest) =
    if ltb (2 ^ 31) n
    then none
    else if n == 0
    then some (pos 0, rest)
    else some (negsuc (n - 1), rest)
with_sign false true (n, rest) = if leb (2 ^ 31) n then none else some (pos n, rest)

magnitude : Bool → Bytes → Option (ℤ × Bytes)
unfolding leading_digit scan with_sign
magnitude negative s = with_sign negative (leading_digit s) (scan 0 s)

signed : Bytes → Option (ℤ × Bytes)
unfolding magnitude
signed [] = none
signed (c ∷ s) =
    if c == b'-'
    then magnitude true s
    else if c == b'+'
    then magnitude false s
    else magnitude false (c ∷ s)

-- The number and what stands behind it.
unfoldable pub stoi : Bytes → Option (ℤ × Bytes)
unfolding signed skip_space
stoi s = signed (skip_space s)

whole : Option (ℤ × Bytes) → Option ℤ
whole none = none
whole (some (v, rest)) = if is_empty rest then some v else none

unfoldable pub parse_int : Bytes → Option ℤ
unfolding stoi whole is_empty
parse_int s = whole (stoi s)

scan-digits_onto : (f n : ℕ) (out : Bytes) → n < f → scan 0 (digits_onto f n out) ≡ scan n out
unfolding digits_onto scan
scan-digits_onto zero n out h = elim h [ ]
scan-digits_onto (suc f) n out h = ground (arith, scan-digits_onto f (n / 10) ((48 + n % 10) ∷ out))

leading-digits_onto : (f n : ℕ) (out : Bytes) → n < f → leading_digit (digits_onto f n out) ≡ true
unfolding digits_onto leading_digit
leading-digits_onto zero n out h = elim h [ ]
leading-digits_onto (suc f) n out h =
    ground (arith, leading-digits_onto f (n / 10) ((48 + n % 10) ∷ out))

magnitude-digits :
    (negative : Bool) (n : ℕ) → magnitude negative (digits n) ≡ with_sign negative true (n, [])
unfolding magnitude digits
magnitude-digits negative n =
    rw (leading-digits_onto (suc n) n [] (omega arith), scan-digits_onto (suc n) n [] (omega arith))

signed_positive : (s : Bytes) → leading_digit s ≡ true → signed (skip_space s) ≡ magnitude false s
unfolding leading_digit skip_space is_space signed
signed_positive [] h = cc
signed_positive (c ∷ s) h = ground arith

-- Every int is read back from its print, and the print is read to its end.
pub stoi-to_string : (v : ℤ) → IsInt v → stoi (to_string v) ≡ some (v, [])
unfolding stoi to_string
stoi-to_string (pos n) h =
    rw
      (
        signed_positive (digits n) (leading-digits_onto (suc n) n [] (omega arith)),
        magnitude-digits false n,
      )
      (ground arith)
stoi-to_string (negsuc n) h = rw (magnitude-digits true (suc n)) (ground arith)

-- Every 32-bit int is parsed from its print.
pub parse_int-to_string : (v : ℤ) → IsInt v → parse_int (to_string v) ≡ some v
unfolding parse_int
parse_int-to_string v h = rw (stoi-to_string v h) refl

digits_onto-Free :
    (c f n : ℕ) (out : Bytes) → (c < 48) ⊎ (57 < c) → Free c out → Free c (digits_onto f n out)
unfolding digits_onto
digits_onto-Free c zero n out h o = o
digits_onto-Free c (suc f) n out h o =
    let ih = digits_onto-Free c f (n / 10) ((48 + n % 10) ∷ out) h in
    elim (Bool-cases (n / 10 == 0)) [
      | inl e ↦ rw e (omega arith, o)
      | inr e ↦ rw e (ih (omega arith, o))
    ]

-- The print of an int holds digits and a minus sign only.
pub to_string-Free : (c : ℕ) (v : ℤ) → (c < 48) ⊎ (57 < c) → c ≢ b'-' → Free c (to_string v)
unfolding to_string
to_string-Free c (pos n) h m = digits_onto-Free c (suc n) n [] h tt
to_string-Free c (negsuc n) h m = (λ e. m (sym e), digits_onto-Free c (suc (suc n)) (suc n) [] h tt)

-- A number of at most `suc k` digits; `bound` is a power of ten.
length-digits_onto :
    (f k n : ℕ) (out : Bytes) → n < 10 ^ suc k → length (digits_onto f n out) ≤ suc k + length out
unfolding digits_onto
length-digits_onto zero k n out h = omega arith
length-digits_onto (suc f) zero n out h =
    let e : (n / 10 == 0) ≡ true = ground arith in rw e (omega arith)
length-digits_onto (suc f) (suc k) n out h =
    let small : n / 10 < 10 ^ suc k = omega arith in
    ground (arith, length-digits_onto f k (n / 10) ((48 + n % 10) ∷ out) small)

-- The print of an int has at most eleven bytes.
pub length-to_string : (v : ℤ) → IsInt v → length (to_string v) ≤ 11
unfolding to_string
length-to_string (pos n) h = omega (arith, length-digits_onto (suc n) 9 n [] (omega arith))
length-to_string (negsuc n) h =
    omega (arith, length-digits_onto (suc (suc n)) 9 (suc n) [] (omega arith))
