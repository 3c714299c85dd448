-- ===== src/Base/Text.antt =====
-- Byte strings: what the sources use of std::string and of C strings.
-- A text is the list of its bytes; a literal is encoded in UTF-8, as the compilers encode it.
use Prim.Native.Char.{code}
use Prim.Native.String.{String}
use Prim.Native.Nat.{ℕ, suc, ◌+◌, ◌/◌, ◌%◌}
use mathlib.Core.Path.{◌≡◌, refl}
use mathlib.Core.Logic.{◌≢◌, ◌↔◌}
use mathlib.Core.Bool.{Bool, true, false, ◌&&◌}
use mathlib.Core.Option
use mathlib.Core.Option.{Option, none, some}
use mathlib.Core.List.{List, [], ◌∷◌, ◌++◌}
use native.Mathlib.Omega.{arith}
use smile2unlock_v.Base.Tests.{◌==◌, ltb, if◌then◌else◌}
use smile2unlock_v.Base.Lists.{length, take, drop, All}

abbrev pub Bytes : Type 0
Bytes = List ℕ

abbrev pub utf8 : ℕ → Bytes
utf8 c =
    if ltb c 0x80
    then c ∷ []
    else if ltb c 0x800
    then (0xC0 + c / 64) ∷ (0x80 + c % 64) ∷ []
    else if ltb c 0x10000
    then (0xE0 + c / 4096) ∷ (0x80 + c / 64 % 64) ∷ (0x80 + c % 64) ∷ []
    else (0xF0 + c / 262144) ∷ (0x80 + c / 4096 % 64) ∷ (0x80 + c / 64 % 64) ∷ (0x80 + c % 64) ∷ []

abbrev pub text : String → Bytes
text String.[] = []
text (String.◌∷◌ c s) = utf8 (code c) ++ text s

-- `a == b` on strings.
unfoldable pub same : Bytes → Bytes → Bool
same [] [] = true
same (x ∷ xs) (y ∷ ys) = x == y && same xs ys
same _ _ = false

pub same_iff : (a b : Bytes) → (same a b ≡ true) ↔ (a ≡ b)
unfolding same
same_iff (x ∷ a) (y ∷ b) = ground (arith, same_iff a b)
same_iff _ _ = ground arith

pub same_refl : (a : Bytes) → same a a ≡ true
same_refl a = (same_iff a a).1 refl

unfoldable pub is_empty : Bytes → Bool
is_empty [] = true
is_empty (x ∷ xs) = false

-- `c` does not occur.
abbrev pub Free : ℕ → Bytes → Type 0
Free c = All (λ x. x ≢ c)

-- `s.find(c)`: the first position of `c`; `none` is npos.
unfoldable pub find : ℕ → Bytes → Option ℕ
find c [] = none
find c (x ∷ xs) = if x == c then some 0 else Option.map suc (find c xs)

-- `s.find(c, pos)`.
unfoldable pub find_from : ℕ → ℕ → Bytes → Option ℕ
find_from c pos s = Option.map (λ i. pos + i) (find c (drop pos s))

-- `p + 1` for a position `p`, where npos + 1 wraps to 0.
unfoldable pub next : Option ℕ → ℕ
next none = 0
next (some p) = p + 1

-- `s.substr(pos, n)` and `s.substr(pos)`.
unfoldable pub substr : ℕ → ℕ → Bytes → Bytes
substr pos n s = take n (drop pos s)

unfoldable pub substr_from : ℕ → Bytes → Bytes
substr_from pos s = drop pos s

pub find-append : (c : ℕ) (a r : Bytes) → Free c a → find c (a ++ c ∷ r) ≡ some (length a)
unfolding find
find-append c [] r h = ground arith
find-append c (x ∷ a) r h = ground (arith, find-append c a r h.1)

pub find-Free : (c : ℕ) (a : Bytes) → Free c a → find c a ≡ none
unfolding find
find-Free c [] h = refl
find-Free c (x ∷ a) h = ground (arith, find-Free c a h.1)

-- `std::string(p)` of a char pointer: the bytes up to the first NUL of the memory behind it.
-- `none`: there is no NUL before the end of the object, and the read runs out of it.
unfoldable pub c_string : Bytes → Option Bytes
c_string [] = none
c_string (x ∷ xs) = if x == 0 then some [] else Option.map (◌∷◌ x) (c_string xs)

pub c_string-append : (s r : Bytes) → Free 0 s → c_string (s ++ 0 ∷ r) ≡ some s
unfolding c_string
c_string-append [] r h = refl
c_string-append (x ∷ s) r h = ground (arith, c_string-append s r h.1)

-- A C string that starts in `a` without a NUL there goes on behind `a`.
pub c_string_spills :
    (a b : Bytes) → Free 0 a → c_string (a ++ b) ≡ Option.map (λ s. a ++ s) (c_string b)
unfolding c_string
c_string_spills [] b h = go (c_string b)
  where
    go : (o : Option Bytes) → o ≡ Option.map (λ s. s) o
    go none = refl
    go (some s) = refl
c_string_spills (x ∷ a) b h = ground (arith, c_string_spills a b h.1, go (c_string b))
  where
    go :
        (o : Option Bytes)
        → Option.map (◌∷◌ x) (Option.map (λ s. a ++ s) o) ≡ Option.map (λ s. x ∷ (a ++ s)) o
    go none = refl
    go (some s) = refl
