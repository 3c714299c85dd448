-- ===== src/Gui/Protocol/Payload.antt =====
-- What a reader finds in the payload of a response.
use smile2unlock_v.Base.{
  ℕ, ◌-◌, ◌≡◌, refl, [], ◌∷◌, ◌++◌, some, arith, length, take, drop, length-append, length-take,
  length-drop,
}
use mathlib.Core.List.{append_assoc}
use smile2unlock_v.Base.Text.{Bytes, c_string}
use smile2unlock_v.Udp.Memory.{until_nul}
use smile2unlock_v.Gui.Protocol.{GuiIpcResponse, set_payload_text, payload_capacity}

pub c_string-until_nul : (s r : Bytes) → c_string (s ++ 0 ∷ r) ≡ some (until_nul s)
unfolding c_string until_nul
c_string-until_nul [] r = refl
c_string-until_nul (x ∷ s) r = ground (arith, c_string-until_nul s r)

-- The array keeps its size under a text of any length, and a C read of the payload stops inside it:
-- it gives the text cut to one byte less than the array, and at its first NUL.
pub c_string-set_payload_text :
    (msg : Bytes) (new_status : ℕ) (r : GuiIpcResponse)
    → length r.payload ≡ payload_capacity
    → let r' = set_payload_text msg new_status r in
      (length r'.payload ≡ payload_capacity)
      × (c_string r'.payload ≡ some (until_nul (take (payload_capacity - 1) msg)))
unfolding set_payload_text
c_string-set_payload_text msg new_status r h =
    let copied = take (payload_capacity - 1) msg in
    (
      omega (
        arith,
        length-append (copied ++ 0 ∷ []) (drop (length (copied ++ 0 ∷ [])) r.payload),
        length-append copied (0 ∷ []),
        length-take (payload_capacity - 1) msg,
        length-drop (length (copied ++ 0 ∷ [])) r.payload,
      ),
      rw (append_assoc) (c_string-until_nul copied _),
    )
