-- ===== src/Gui/Float.antt =====
-- The float type, its text forms and its comparison, which the programs use and do not implement.
use smile2unlock_v.Base.{Bool, Option}
use smile2unlock_v.Base.Text.{Bytes}

pub record FloatOps (F : Type 0) : Type 0 where
  -- A literal, by its text.
  pub literal : Bytes → F
  -- `out << x`.
  pub show : F → Bytes
  -- `std::stof`: the number and what stands behind it, or an exception.
  pub stof : Bytes → Option (F × Bytes)
  -- `a < b`.
  pub less : F → F → Bool
