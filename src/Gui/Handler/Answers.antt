-- ===== src/Gui/Handler/Answers.antt =====
-- Every command is answered under the request's id, with a text that ends inside of the payload.
use smile2unlock_v.Base.{
  ℕ, ◌-◌, ◌<◌, ◌≡◌, refl, [], ◌∷◌, ◌++◌, some, arith, length, drop, take, length-append,
  length-drop,
}
use mathlib.Core.List.{append_assoc}
use smile2unlock_v.Base.Text.{Bytes, c_string}
use smile2unlock_v.Udp.Memory.{until_nul}
use smile2unlock_v.Gui.Protocol.{
  GuiIpcResponse, failure, payload_capacity, set_payload_text, set_error, overwrite,
}
use smile2unlock_v.Gui.Protocol.Payload.{c_string-set_payload_text, c_string-until_nul}
use smile2unlock_v.Gui.Backend.{Outcome, value, thrown, Method, ◌>>=◌, pure, Reply}
use smile2unlock_v.Gui.Handler.Commands.{set_short_payload, respond}

-- A response under the same id and time, of which a C read stops inside of the payload.
pub record IsAnswerTo (r r' : GuiIpcResponse) : Type 0 where
  pub same_id : r'.request_id ≡ r.request_id
  pub same_time : r'.timestamp ≡ r.timestamp
  pub whole : length r'.payload ≡ payload_capacity
  pub read_as : Bytes
  pub ends_inside : c_string r'.payload ≡ some read_as

module _ (r : GuiIpcResponse) (whole : length r.payload ≡ payload_capacity) where
  pub set_payload_text-IsAnswerTo :
      (msg : Bytes) (new_status : ℕ) → IsAnswerTo r (set_payload_text msg new_status r)
  unfolding set_payload_text
  set_payload_text-IsAnswerTo msg new_status =
      let (kept, reads) = c_string-set_payload_text msg new_status r whole in
      record {
        same_id = refl;
        same_time = refl;
        whole = kept;
        read_as = until_nul (take (payload_capacity - 1) msg);
        ends_inside = reads;
      }

  pub set_error-IsAnswerTo : (msg : Bytes) → IsAnswerTo r (set_error msg r)
  unfolding set_error
  set_error-IsAnswerTo msg = set_payload_text-IsAnswerTo (until_nul msg) failure

  pub set_short_payload-IsAnswerTo :
      (s : Bytes) → length s < payload_capacity → IsAnswerTo r (set_short_payload s r)
  unfolding set_short_payload overwrite
  set_short_payload-IsAnswerTo s short = record {
    same_id = refl;
    same_time = refl;
    whole = omega (
      arith,
      length-append (s ++ 0 ∷ []) (drop (length (s ++ 0 ∷ [])) r.payload),
      length-append s (0 ∷ []),
      length-drop (length (s ++ 0 ∷ [])) r.payload,
    );
    read_as = until_nul s;
    ends_inside = rw (append_assoc) (c_string-until_nul s _);
  }

  pub respond-IsAnswerTo : (reply : Reply) → IsAnswerTo r (respond reply r)
  unfolding respond
  respond-IsAnswerTo reply = set_payload_text-IsAnswerTo reply.message _

-- An exception is answered by the caller.
abbrev pub IsAnswered : GuiIpcResponse → Outcome GuiIpcResponse → Type 0
IsAnswered r (value r') = IsAnswerTo r r'
IsAnswered r (thrown e) = Unit

module _ {S A : Type 0} (r : GuiIpcResponse) (f : A → GuiIpcResponse)
    (answers : (a : A) → IsAnswerTo r (f a)) where
  pub bind-IsAnswered : (m : Method S A) (s : S) → IsAnswered r ((m >>= (λ a. pure (f a))) s).0
  bind-IsAnswered m s = go (m s)
    where
      go : (o : Outcome A × S) → IsAnswered r (((λ s. o) >>= (λ a. pure (f a))) s).0
      go (value a, s') = answers a
      go (thrown e, s') = tt
