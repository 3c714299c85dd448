-- ===== src/Udp/Loop.antt =====
-- The receive loops of common/managers/ipc/udp/udp_manager.h, which the three receivers share but
-- for what they do with a datagram. A round reads `running_`, which another thread may have
-- cleared, and then calls `receive_from`. On Windows a datagram longer than the buffer is an error
-- of the call, so it shows as `failed`.
use smile2unlock_v.Base.{◌≡◌, ◌≢◌, refl, ap, List, [], ◌∷◌, ◌++◌, Bool, true, false, All}
use smile2unlock_v.Base.Text.{Bytes}

pub data Received : Type 0 where
  aborted bad_descriptor failed : Received
  datagram : Bytes → Received

-- What one datagram leads to: nothing, a call of the callback, or a read outside of the packet.
pub data Step {ℓ} (D : Type ℓ) : Type ℓ where
  skip : Step D
  deliver : D → Step D
  fault : Step D

-- The calls of the callback in order. After an invalid read nothing is said.
pub data Trace {ℓ} (D : Type ℓ) : Type ℓ where
  ended : Trace D
  delivered : D → Trace D → Trace D
  undefined : Trace D

-- A round that ends the loop.
abbrev pub Ends : Bool × Received → Type 0
Ends (false, r) = Unit
Ends (true, aborted) = Unit
Ends (true, bad_descriptor) = Unit
Ends (true, _) = ⊥

module _ {ℓ} {D : Type ℓ} where
  abbrev pub after_step : Step D → Trace D → Trace D
  after_step skip t = t
  after_step (deliver d) t = delivered d t
  after_step fault t = undefined

  unfoldable pub receive_loop : (Bytes → Step D) → List (Bool × Received) → Trace D
  receive_loop handle [] = ended
  receive_loop handle ((false, r) ∷ rest) = ended
  receive_loop handle ((true, aborted) ∷ rest) = ended
  receive_loop handle ((true, bad_descriptor) ∷ rest) = ended
  receive_loop handle ((true, failed) ∷ rest) = receive_loop handle rest
  receive_loop handle ((true, datagram bs) ∷ rest) =
      after_step (handle bs) (receive_loop handle rest)

  -- The independent description: the deliveries of the good datagrams, in their order.
  unfoldable pub accepted : (Bytes → Step D) → List (Bool × Received) → List D
  accepted handle [] = []
  accepted handle ((true, datagram bs) ∷ rest) = elim (handle bs) [
    | deliver d ↦ d ∷ accepted handle rest
    | _ ↦ accepted handle rest
  ]
  accepted handle (_ ∷ rest) = accepted handle rest

  abbrev pub trace : List D → Trace D
  trace [] = ended
  trace (d ∷ ds) = delivered d (trace ds)

  -- The round is an error of the call, or a datagram that is read inside its bounds.
  pub data IsHarmless (handle : Bytes → Step D) : Bool × Received → Type ℓ where
    error_round : IsHarmless handle (true, failed)
    datagram_round : {bs : Bytes} → handle bs ≢ fault → IsHarmless handle (true, datagram bs)

  receive_round :
      (handle : Bytes → Step D) (bs : Bytes) (s : Step D) (later rest : List (Bool × Received))
      → handle bs ≡ s
      → s ≢ fault
      → receive_loop handle later ≡ trace (accepted handle rest)
      → after_step s (receive_loop handle later)
        ≡ trace (elim s [ deliver d ↦ d ∷ accepted handle rest | _ ↦ accepted handle rest ])
  receive_round handle bs skip later rest e h ih = ih
  receive_round handle bs (deliver d) later rest e h ih = ap (delivered d) ih
  receive_round handle bs fault later rest e h ih = absurd (h refl)

  -- The loop calls back for the accepted datagrams, each once and in order, passes over errors and
  -- foreign datagrams, and ends at the first round that finds `running_` cleared or the socket
  -- closed, whatever would come later. The datagrams before that round are read inside their
  -- bounds.
  pub receive_loop-accepted :
      (handle : Bytes → Step D) (rounds later : List (Bool × Received)) (last : Bool × Received)
      → All (IsHarmless handle) rounds
      → Ends last
      → receive_loop handle (rounds ++ last ∷ later) ≡ trace (accepted handle rounds)
  unfolding receive_loop accepted
  receive_loop-accepted handle [] later (false, r) h e = refl
  receive_loop-accepted handle [] later (true, aborted) h e = refl
  receive_loop-accepted handle [] later (true, bad_descriptor) h e = refl
  receive_loop-accepted handle [] later (true, failed) h e = absurd e
  receive_loop-accepted handle [] later (true, datagram bs) h e = absurd e
  receive_loop-accepted handle (_ ∷ rounds) later last (error_round, h) e =
      receive_loop-accepted handle rounds later last h e
  receive_loop-accepted handle (_ ∷ rounds) later last (datagram_round {bs} f, h) e =
      receive_round handle bs (handle bs) (rounds ++ last ∷ later) rounds refl f
        (receive_loop-accepted handle rounds later last h e)
