-- ===== src/Gui/Handler/Replies.antt =====
-- The handler of each command answers, or the service raised an exception.
use smile2unlock_v.Base.{
  ℕ, ◌+◌, ◌-◌, inl, inr, refl, Bool, true, false, Option, none, some, arith, Bool-cases,
}
use smile2unlock_v.Base.Text.{Bytes, text, substr, substr_from}
use smile2unlock_v.Base.Decimal.{ℤ, parse_int}
use smile2unlock_v.Gui.Float.{FloatOps}
use smile2unlock_v.Gui.Lines.{flag}
use smile2unlock_v.Gui.Protocol.{GuiIpcResponse, success, set_payload_text}
use smile2unlock_v.Gui.Backend.{Method, ◌>>=◌, Reply, pure, ConfigReply, IBackendService}
use smile2unlock_v.Gui.Handler.Texts.{serialize_faces}
use smile2unlock_v.Gui.Handler.Commands.{
  set_short_payload, respond, add_user_at, update_user_as, update_user_at, delete_user_as,
  get_user_faces_as, delete_face_as, delete_face_at, capture_and_add_face_as,
  capture_and_add_face_at, config_response, invalid_format, reply_to, handle_get_recognizer_config,
  handle_stop,
}
use smile2unlock_v.Gui.Handler.Answers.{
  IsAnswerTo, IsAnswered, bind-IsAnswered, set_payload_text-IsAnswerTo, set_error-IsAnswerTo,
  set_short_payload-IsAnswerTo, respond-IsAnswerTo,
}

module _ {S F : Type 0} (ops : FloatOps F) (b : IBackendService S F) (r : GuiIpcResponse)
    (start : IsAnswerTo r r) (s : S) where
  pub refused : (message : Bytes) → IsAnswered r (invalid_format ops b message r s).0
  unfolding invalid_format
  refused message = set_error-IsAnswerTo r start.whole message

  pub replied : (m : Method S Reply) → IsAnswered r (reply_to ops b m r s).0
  unfolding reply_to
  replied m = bind-IsAnswered r (λ reply. respond reply r) (respond-IsAnswerTo r start.whole) m s

  pub printed :
      {A : Type 0} (f : A → Bytes) (m : Method S A)
      → IsAnswered r ((m >>= (λ a. pure (set_payload_text (f a) success r))) s).0
  printed f m =
      bind-IsAnswered r (λ a. set_payload_text (f a) success r)
        (λ a. set_payload_text-IsAnswerTo r start.whole (f a) success) m s

  pub flagged :
      (m : Method S Bool) → IsAnswered r ((m >>= (λ a. pure (set_short_payload (flag a) r))) s).0
  flagged m = bind-IsAnswered r (λ a. set_short_payload (flag a) r) short m s
    where
      short : (a : Bool) → IsAnswerTo r (set_short_payload (flag a) r)
      short true = set_short_payload-IsAnswerTo r start.whole (flag true) (omega arith)
      short false = set_short_payload-IsAnswerTo r start.whole (flag false) (omega arith)

  pub stopped : (m : Method S (Unit {0})) → IsAnswered r (handle_stop ops b m r s).0
  unfolding handle_stop
  stopped m =
      bind-IsAnswered r (λ a. record r { status = success })
        (λ a. record {
          same_id = refl;
          same_time = refl;
          whole = start.whole;
          read_as = start.read_as;
          ends_inside = start.ends_inside;
        })
        m s

  pub add_user-IsAnswered :
      (payload : Bytes) (p1 p2 : Option ℕ) → IsAnswered r (add_user_at ops b payload p1 p2 r s).0
  unfolding add_user_at reply_to
  add_user-IsAnswered payload (some p1) (some p2) = replied (
      b.add_user (substr 0 p1 payload) (substr (p1 + 1) (p2 - p1 - 1) payload)
        (substr_from (p2 + 1) payload))
  add_user-IsAnswered payload none p2 = refused (text "Invalid payload format")
  add_user-IsAnswered payload (some p1) none = refused (text "Invalid payload format")

  pub update_user-IsAnswered :
      (payload : Bytes) (p1 p2 p3 : Option ℕ)
      → IsAnswered r (update_user_at ops b payload p1 p2 p3 r s).0
  unfolding update_user_at reply_to
  update_user-IsAnswered payload (some p1) (some p2) (some p3) =
      go (parse_int (substr 0 p1 payload))
    where
      go : (o : Option ℤ) → IsAnswered r (update_user_as ops b payload p1 p2 p3 o r s).0
      go none = refused (text "Invalid user_id format")
      go (some v) = replied (
          b.update_user v (substr (p1 + 1) (p2 - p1 - 1) payload)
            (substr (p2 + 1) (p3 - p2 - 1) payload) (substr_from (p3 + 1) payload))
  update_user-IsAnswered payload none p2 p3 = refused (text "Invalid payload format")
  update_user-IsAnswered payload (some p1) none p3 = refused (text "Invalid payload format")
  update_user-IsAnswered payload (some p1) (some p2) none = refused (text "Invalid payload format")

  pub delete_user-IsAnswered : (o : Option ℤ) → IsAnswered r (delete_user_as ops b o r s).0
  unfolding delete_user_as reply_to
  delete_user-IsAnswered none = refused (text "Invalid user_id format")
  delete_user-IsAnswered (some v) = replied (b.delete_user v)

  pub faces-IsAnswered : (o : Option ℤ) → IsAnswered r (get_user_faces_as ops b o r s).0
  unfolding get_user_faces_as
  faces-IsAnswered none = refused (text "Invalid user_id format")
  faces-IsAnswered (some v) = printed serialize_faces (b.get_user_faces v)

  pub delete_face-IsAnswered :
      (payload : Bytes) (p : Option ℕ) → IsAnswered r (delete_face_at ops b payload p r s).0
  unfolding delete_face_at delete_face_as reply_to
  delete_face-IsAnswered payload none = refused (text "Invalid payload format")
  delete_face-IsAnswered payload (some p) =
      go (parse_int (substr 0 p payload)) (parse_int (substr_from (p + 1) payload))
    where
      go : (o o' : Option ℤ) → IsAnswered r (delete_face_as ops b o o' r s).0
      go (some v) (some w) = replied (b.delete_face v w)
      go none o' = refused (text "Invalid ID format")
      go (some v) none = refused (text "Invalid ID format")

  pub capture-IsAnswered :
      (payload : Bytes) (p : Option ℕ)
      → IsAnswered r (capture_and_add_face_at ops b payload p r s).0
  unfolding capture_and_add_face_at capture_and_add_face_as reply_to
  capture-IsAnswered payload none = refused (text "Invalid payload format")
  capture-IsAnswered payload (some p) = go (parse_int (substr 0 p payload))
    where
      go : (o : Option ℤ) → IsAnswered r (capture_and_add_face_as ops b payload p o r s).0
      go none = refused (text "Invalid user_id format")
      go (some v) = replied (b.capture_and_add_face v (substr_from (p + 1) payload))

  pub config-IsAnswered : IsAnswered r (handle_get_recognizer_config ops b r s).0
  unfolding handle_get_recognizer_config config_response
  config-IsAnswered =
      bind-IsAnswered r (λ c. config_response ops b c r) go b.get_recognizer_config s
    where
      go : (c : ConfigReply F) → IsAnswerTo r (config_response ops b c r)
      go c = elim (Bool-cases c.loaded) [
        | inl e ↦ rw e (set_payload_text-IsAnswerTo r start.whole _ _)
        | inr e ↦ rw e (set_payload_text-IsAnswerTo r start.whole _ _)
      ]
