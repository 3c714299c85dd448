-- ===== src/Base/Cuts.antt =====
-- Cutting a text at its separators by positions: `find(c, pos)` and `substr`.
-- A position `n` is known by what stands from there on, `drop n s`.
use Prim.Native.Nat.{ℕ, zero, suc, ◌+◌}
use mathlib.Core.Path.{◌≡◌, refl}
use mathlib.Core.List.{[], ◌∷◌, ◌++◌}
use mathlib.Core.Option.{some}
use native.Mathlib.Nat.{zero-add}
use native.Mathlib.Omega.{arith}
use smile2unlock_v.Base.Lists.{length, drop, take-append_left, drop_past}
use smile2unlock_v.Base.Text.{Bytes, Free, find_from, find-append, substr}

pub drop-drop : (m n : ℕ) (s : Bytes) → drop (m + n) s ≡ drop n (drop m s)
unfolding drop
drop-drop zero n s = rw (zero-add n)
drop-drop (suc m) n [] = drop_nil (suc m + n) n
  where
    drop_nil : (k n : ℕ) → drop {A = ℕ} k [] ≡ drop {A = ℕ} n []
    drop_nil zero zero = refl
    drop_nil zero (suc n) = refl
    drop_nil (suc k) zero = refl
    drop_nil (suc k) (suc n) = refl
drop-drop (suc m) n (x ∷ s) =
    let shift : suc m + n ≡ suc (m + n) = omega arith in rw shift (drop-drop m n s)

drop_one : (x : ℕ) (s : Bytes) → drop 1 (x ∷ s) ≡ s
unfolding drop
drop_one x s = refl

module _ (c n : ℕ) (s b r : Bytes) (here : drop n s ≡ b ++ c ∷ r) where
  -- The next separator.
  pub find_from_here : Free c b → find_from c n s ≡ some (n + length b)
  unfolding find_from
  find_from_here f = rw (here, find-append c b r f)

  -- What stands before it.
  pub substr_here : (k : ℕ) → k ≡ length b → substr n k s ≡ b
  unfolding substr
  substr_here k e = rw (here, e) (take-append_left b (c ∷ r))

  -- What stands behind it.
  pub drop_next : drop (n + length b + 1) s ≡ r
  drop_next =
      let shift : n + length b + 1 ≡ n + (length b + 1) = omega arith in
      rw (shift, drop-drop n (length b + 1) s, here, drop_past (length b) 1 b (c ∷ r) refl)
        (drop_one c r)
