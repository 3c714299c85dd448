-- ===== src/Credential/Results.antt =====
-- HRESULT codes, and calls that give a value or one of them.
use smile2unlock_v.Base.{ℕ, Bool, true, false, ◌==◌}

-- The codes that the provider names; `win32 n` is HRESULT_FROM_WIN32(n).
pub data Hresult : Type 0 where
  s_ok s_false e_fail e_invalidarg e_outofmemory e_unexpected e_notimpl e_abort : Hresult
  win32 : ℕ → Hresult

-- SUCCEEDED; the code of win32 error 0 is S_OK.
unfoldable pub succeeded : Hresult → Bool
succeeded s_ok = true
succeeded s_false = true
succeeded (win32 n) = n == 0
succeeded _ = false

-- What a call leaves in its out parameter under S_OK, or its code.
pub data Outcome {ℓ} (A : Type ℓ) : Type ℓ where
  ok : A → Outcome A
  err : Hresult → Outcome A

infixl 5 ◌>>=◌
abbrev pub ◌>>=◌ {ℓ κ} : {A : Type ℓ} {B : Type κ} → Outcome A → (A → Outcome B) → Outcome B
ok a >>= f = f a
err e >>= f = err e

-- A call that may fail for want of memory.
abbrev pub allocated {ℓ} : {A : Type ℓ} → Bool → A → Outcome A
allocated true a = ok a
allocated false a = err e_outofmemory
