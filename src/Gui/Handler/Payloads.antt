-- ===== src/Gui/Handler/Payloads.antt =====
-- Which call of the service a payload of fields with `|` between them becomes.
use smile2unlock_v.Base.{
  ℕ, ◌+◌, ◌-◌, ◌≡◌, refl, ◌∷◌, ◌++◌, some, arith, length, drop, take-append_left, drop_past,
}
use smile2unlock_v.Base.Text.{Bytes, Free, find, find-append, next, substr, substr_from}
use smile2unlock_v.Base.Decimal.{ℤ, IsInt, to_string, parse_int-to_string, to_string-Free}
use smile2unlock_v.Base.Cuts.{find_from_here, substr_here, drop_next}
use smile2unlock_v.Gui.Float.{FloatOps}
use smile2unlock_v.Gui.Backend.{IBackendService, ◌>>=◌, pure}
use smile2unlock_v.Gui.Protocol.{GuiIpcResponse, set_payload_text, success}
use smile2unlock_v.Gui.Handler.Texts.{serialize_faces}
use smile2unlock_v.Gui.Handler.Commands.{
  handle_get_user_faces, handle_add_user, handle_update_user, handle_delete_user,
  handle_delete_face, handle_capture_and_add_face, respond,
}

abbrev pub bar : ℕ
bar = b'|'

-- Fields with a bar between them.
abbrev pub two_fields : Bytes → Bytes → Bytes
two_fields a b = a ++ (bar ∷ b)

-- The first cut.
module _ (a b : Bytes) (free : Free bar a) where
  pub find-two_fields : find bar (two_fields a b) ≡ some (length a)
  find-two_fields = find-append bar a b free

  pub first_field : substr 0 (length a) (two_fields a b) ≡ a
  unfolding substr drop
  first_field = take-append_left a (bar ∷ b)

  pub behind_first : drop (length a + 1) (two_fields a b) ≡ b
  unfolding drop
  behind_first = drop_past (length a) 1 a (bar ∷ b) refl

to_string-Free-bar : (v : ℤ) → Free bar (to_string v)
to_string-Free-bar v = to_string-Free bar v (omega arith) (λ e. absurd (omega (arith, e)))

module _ {S F : Type 0} (ops : FloatOps F) (b : IBackendService S F) (r : GuiIpcResponse) where
  -- Three fields of which the first two hold no bar reach the service as they are.
  pub handle_add_user-fields :
      (username password remark : Bytes)
      → Free bar username
      → Free bar password
      → handle_add_user ops b (two_fields username (two_fields password remark)) r
        ≡ (do reply ← b.add_user username password remark; pure (respond reply r))
  unfolding handle_add_user next substr_from
  handle_add_user-fields u p q hu hp =
      let s = two_fields u (two_fields p q) in
      let here = behind_first u (two_fields p q) hu in
      rw
        (
          find-two_fields u (two_fields p q) hu,
          find_from_here bar (length u + 1) s p q here hp,
          first_field u (two_fields p q) hu,
          substr_here bar (length u + 1) s p q here (length u + 1 + length p - length u - 1)
              (omega arith),
          drop_next bar (length u + 1) s p q here,
        )
        refl

  -- Four fields of which the first is the print of an int and the next two hold no bar.
  pub handle_update_user-fields :
      (user_id : ℤ) (username password remark : Bytes)
      → IsInt user_id
      → Free bar username
      → Free bar password
      → handle_update_user ops b
          (two_fields (to_string user_id) (two_fields username (two_fields password remark)))
          r
        ≡ (do reply ← b.update_user user_id username password remark; pure (respond reply r))
  unfolding handle_update_user next substr_from
  handle_update_user-fields v u p q hv hu hp =
      let i = to_string v in
      let s = two_fields i (two_fields u (two_fields p q)) in
      let free = to_string-Free-bar v in
      let here = behind_first i (two_fields u (two_fields p q)) free in
      let n = length i + 1 in
      let there = drop_next bar n s u (two_fields p q) here in
      rw
        (
          find-two_fields i (two_fields u (two_fields p q)) free,
          find_from_here bar n s u (two_fields p q) here hu,
          find_from_here bar (n + length u + 1) s p q there hp,
          first_field i (two_fields u (two_fields p q)) free,
          parse_int-to_string v hv,
          substr_here bar n s u (two_fields p q) here (n + length u - length i - 1) (omega arith),
          substr_here bar (n + length u + 1) s p q there
              (n + length u + 1 + length p - (n + length u) - 1) (omega arith),
          drop_next bar (n + length u + 1) s p q there,
        )
        refl

  pub handle_delete_user-fields :
      (user_id : ℤ)
      → IsInt user_id
      → handle_delete_user ops b (to_string user_id) r
        ≡ (do reply ← b.delete_user user_id; pure (respond reply r))
  unfolding handle_delete_user
  handle_delete_user-fields v hv = rw (parse_int-to_string v hv) refl

  pub handle_get_user_faces-fields :
      (user_id : ℤ)
      → IsInt user_id
      → handle_get_user_faces ops b (to_string user_id) r ≡ (do
        faces ← b.get_user_faces user_id
        pure (set_payload_text (serialize_faces faces) success r))
  unfolding handle_get_user_faces
  handle_get_user_faces-fields v hv = rw (parse_int-to_string v hv) refl

  pub handle_delete_face-fields :
      (user_id face_id : ℤ)
      → IsInt user_id
      → IsInt face_id
      → handle_delete_face ops b (two_fields (to_string user_id) (to_string face_id)) r
        ≡ (do reply ← b.delete_face user_id face_id; pure (respond reply r))
  unfolding handle_delete_face substr_from
  handle_delete_face-fields v w hv hw =
      let i = to_string v in
      let j = to_string w in
      let free = to_string-Free-bar v in
      rw
        (
          find-two_fields i j free,
          first_field i j free,
          behind_first i j free,
          parse_int-to_string v hv,
          parse_int-to_string w hw,
        )
        refl

  pub handle_capture_and_add_face-fields :
      (user_id : ℤ) (remark : Bytes)
      → IsInt user_id
      → handle_capture_and_add_face ops b (two_fields (to_string user_id) remark) r
        ≡ (do reply ← b.capture_and_add_face user_id remark; pure (respond reply r))
  unfolding handle_capture_and_add_face substr_from
  handle_capture_and_add_face-fields v q hv =
      let i = to_string v in
      let free = to_string-Free-bar v in
      rw
        (
          find-two_fields i q free,
          first_field i q free,
          parse_int-to_string v hv,
          behind_first i q free,
        )
        refl
