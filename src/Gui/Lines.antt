-- ===== src/Gui/Lines.antt =====
-- The line-wise texts of the payloads: `std::getline` over a string stream, and `key=value` lines.
use smile2unlock_v.Base.{
  ℕ, ◌≡◌, ◌≢◌, refl, List, [], ◌∷◌, ◌++◌, Bool, true, false, arith, ◌==◌, if◌then◌else◌, All-append,
}
use mathlib.Core.List.{append_assoc}
use smile2unlock_v.Base.Text.{Bytes, Free}

abbrev pub onto_first : ℕ → List Bytes → List Bytes
onto_first c [] = (c ∷ []) ∷ []
onto_first c (l ∷ ls) = (c ∷ l) ∷ ls

-- The lines that the calls of getline give: a last one without a break counts if it is not empty.
unfoldable pub lines : Bytes → List Bytes
lines [] = []
lines (c ∷ s) = let rest = lines s in if c == b'\n' then [] ∷ rest else onto_first c rest

pub lines-append : (l s : Bytes) → Free b'\n' l → lines (l ++ b'\n' ∷ s) ≡ l ∷ lines s
unfolding lines
lines-append [] s h = refl
lines-append (c ∷ l) s h = ground (arith, lines-append l s h.1)

-- `key << "=" << value << "\n"`.
abbrev pub key_line : Bytes → Bytes → Bytes → Bytes
key_line key value rest = key ++ (b'=' ∷ (value ++ (b'\n' ∷ rest)))

pub lines-key_line :
    (key value rest : Bytes)
    → Free b'\n' key
    → Free b'\n' value
    → lines (key_line key value rest) ≡ (key ++ b'=' ∷ value) ∷ lines rest
lines-key_line key value rest hk hv =
    let joined : key_line key value rest ≡ (key ++ b'=' ∷ value) ++ b'\n' ∷ rest =
      rw (append_assoc) refl in
    rw joined (
      lines-append (key ++ b'=' ∷ value) rest
        (All-append (λ x. x ≢ b'\n') key (b'=' ∷ value) hk ((λ e. absurd (omega (arith, e))), hv)))

-- A flag is printed as 1 or 0.
abbrev pub flag : Bool → Bytes
flag true = b'1' ∷ []
flag false = b'0' ∷ []
