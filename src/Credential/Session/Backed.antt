-- ===== src/Credential/Session/Backed.antt =====
-- What a thread of the session was answered before it comes to a program counter.
use smile2unlock_v.Base.{
  ℕ, ◌≡◌, ◌⊎◌, refl, List, [], ◌∷◌, Bool, true, false, Option, none, some, ◌==◌, if◌then◌else◌, inl,
  inr,
}
use smile2unlock_v.Udp.Packets.{RecognitionStatus, idle, success}
use smile2unlock_v.Credential.Names.{Wide}
use smile2unlock_v.Credential.Requests.{is_terminal_failure_status}
use smile2unlock_v.Credential.Session.{
  before_request, before_wait, before_fetch, before_write, Pc, launch, same_generation,
  check_generation, check_running, request, wait_start, wait_poll, fetch, write, publish, clean,
  finish, over, Answer, launched, launch_failed, acknowledged, status_read, password_read,
  name_read, no_answer, Credential, Action, move, on_passed, on_missed, advance, step, write_fields,
  after_poll, is_success,
}

-- What the thread `i` was answered, in a history with the last action first: the status SUCCESS,
-- and after that a password.
pub data SawSuccess (i : ℕ) : List Action → Type 0 where
  saw_now : (h : List Action) → SawSuccess i (move i (status_read success) ∷ h)
  saw_before : (c : Action) {h : List Action} → SawSuccess i h → SawSuccess i (c ∷ h)

pub data GotPassword (i : ℕ) (password : Wide) : List Action → Type 0 where
  got_now :
      {h : List Action}
      → SawSuccess i h
      → GotPassword i password (move i (password_read (some password)) ∷ h)
  got_before :
      (c : Action) {h : List Action} → GotPassword i password h → GotPassword i password (c ∷ h)

-- The state after a history, from the state `start` on.
abbrev pub replay : (start : Credential) → List Action → Credential
replay start [] = start
replay start (c ∷ h) = step c (replay start h)

-- The password, and the name if one was recognised, stand in the fields, and these are hidden.
pub record IsFilled (name : Option Wide) (password : Wide) (s : Credential) : Type 0 where
  pub password_filled : s.password_text ≡ some password
  pub name_filled : (n : Wide) → name ≡ some n → s.edit_text ≡ some n
  pub fields_hidden : s.hidden ≡ true

module _ (start : Credential) where
  -- After a password was answered, a step of the thread `i` left it in the field.
  pub data Wrote (i : ℕ) (password : Wide) : List Action → Type 0 where
    wrote_now :
        (name : Option Wide) {h : List Action}
        → GotPassword i password h
        → IsFilled name password (replay start (move i (name_read name) ∷ h))
        → Wrote i password (move i (name_read name) ∷ h)
    wrote_before : (c : Action) {h : List Action} → Wrote i password h → Wrote i password (c ∷ h)

  -- What stands behind a program counter.
  abbrev pub Backed : ℕ → Pc → List Action → Type 0
  Backed i (check_generation before_fetch) h = SawSuccess i h
  Backed i (check_running before_fetch) h = SawSuccess i h
  Backed i fetch h = SawSuccess i h
  Backed i (check_generation (before_write password)) h = GotPassword i password h
  Backed i (check_running (before_write password)) h = GotPassword i password h
  Backed i (write password) h = GotPassword i password h
  Backed i publish h = (password : Wide) × Wrote i password h
  Backed i _ h = Unit

  pub later_Backed :
      (i : ℕ) (pc : Pc) (c : Action) (h : List Action) → Backed i pc h → Backed i pc (c ∷ h)
  later_Backed i (check_generation before_fetch) c h b = saw_before c b
  later_Backed i (check_running before_fetch) c h b = saw_before c b
  later_Backed i fetch c h b = saw_before c b
  later_Backed i (check_generation (before_write password)) c h b = got_before c b
  later_Backed i (check_running (before_write password)) c h b = got_before c b
  later_Backed i (write password) c h b = got_before c b
  later_Backed i publish c h b = (b.0, wrote_before c b.1)
  later_Backed i _ c h b = tt

  if-Backed :
      (i : ℕ) (h : List Action) (b : Bool) (p q : Pc)
      → Backed i p h
      → Backed i q h
      → Backed i (if b then p else q) h
  if-Backed i h true p q x y = x
  if-Backed i h false p q x y = y

  poll-Backed :
      (i : ℕ) (h : List Action) (running : Bool) (status : RecognitionStatus)
      → Backed i (after_poll running status) (move i (status_read status) ∷ h)
  unfolding after_poll is_success is_terminal_failure_status
  poll-Backed i h false status = tt
  poll-Backed i h true success = saw_now h
  poll-Backed i h true idle = tt
  poll-Backed i h true _ = tt

  pub advance-Backed :
      (i g : ℕ) (pc : Pc) (a : Answer) (s : Credential) (h : List Action)
      → ((name : Option Wide) (password : Wide)
          → IsFilled name password (advance g pc a s).0
          → IsFilled name password (replay start (move i a ∷ h)))
      → Backed i pc h
      → Backed i (advance g pc a s).1 (move i a ∷ h)
  unfolding advance on_missed on_passed write_fields
  advance-Backed i g launch (launched owned) s h k b = tt
  advance-Backed i g launch launch_failed s h k b = tt
  advance-Backed i g launch _ s h k b = tt
  advance-Backed i g same_generation no_answer s h k b =
      if-Backed i (move i no_answer ∷ h) (s.generation == g) (check_generation before_request) clean
        tt tt
  advance-Backed i g same_generation _ s h k b = tt
  advance-Backed i g (check_generation before_request) no_answer s h k b =
      if-Backed i (move i no_answer ∷ h) (s.generation == g) (check_running before_request)
        (check_generation before_wait) tt tt
  advance-Backed i g (check_generation before_request) a s h k b =
      later_Backed i (check_generation before_request) (move i a) h b
  advance-Backed i g (check_running before_request) no_answer s h k b =
      if-Backed i (move i no_answer ∷ h) s.running request (check_generation before_wait) tt tt
  advance-Backed i g (check_running before_request) a s h k b =
      later_Backed i (check_running before_request) (move i a) h b
  advance-Backed i g (check_generation before_wait) no_answer s h k b =
      if-Backed i (move i no_answer ∷ h) (s.generation == g) (check_running before_wait) clean tt tt
  advance-Backed i g (check_generation before_wait) a s h k b =
      later_Backed i (check_generation before_wait) (move i a) h b
  advance-Backed i g (check_running before_wait) no_answer s h k b =
      if-Backed i (move i no_answer ∷ h) s.running wait_start clean tt tt
  advance-Backed i g (check_running before_wait) a s h k b =
      later_Backed i (check_running before_wait) (move i a) h b
  advance-Backed i g (check_generation before_fetch) no_answer s h k b =
      if-Backed i (move i no_answer ∷ h) (s.generation == g) (check_running before_fetch) clean
        (saw_before (move i no_answer) b) tt
  advance-Backed i g (check_generation before_fetch) a s h k b =
      later_Backed i (check_generation before_fetch) (move i a) h b
  advance-Backed i g (check_running before_fetch) no_answer s h k b =
      if-Backed i (move i no_answer ∷ h) s.running fetch clean (saw_before (move i no_answer) b) tt
  advance-Backed i g (check_running before_fetch) a s h k b =
      later_Backed i (check_running before_fetch) (move i a) h b
  advance-Backed i g (check_generation (before_write password)) no_answer s h k b =
      if-Backed i (move i no_answer ∷ h) (s.generation == g) (check_running (before_write password))
        clean (got_before (move i no_answer) b) tt
  advance-Backed i g (check_generation (before_write password)) a s h k b =
      later_Backed i (check_generation (before_write password)) (move i a) h b
  advance-Backed i g (check_running (before_write password)) no_answer s h k b =
      if-Backed i (move i no_answer ∷ h) s.running (write password) clean
        (got_before (move i no_answer) b) tt
  advance-Backed i g (check_running (before_write password)) a s h k b =
      later_Backed i (check_running (before_write password)) (move i a) h b
  advance-Backed i g request (acknowledged done) s h k b =
      if-Backed i (move i (acknowledged done) ∷ h) done (check_generation before_wait) clean tt tt
  advance-Backed i g request _ s h k b = tt
  advance-Backed i g wait_start no_answer s h k b = tt
  advance-Backed i g wait_start _ s h k b = tt
  advance-Backed i g wait_poll (status_read status) s h k b = poll-Backed i h s.running status
  advance-Backed i g wait_poll _ s h k b = tt
  advance-Backed i g fetch (password_read none) s h k b = tt
  advance-Backed i g fetch (password_read (some password)) s h k b = got_now b
  advance-Backed i g fetch a s h k b = later_Backed i fetch (move i a) h b
  advance-Backed i g (write password) (name_read none) s h k b = (
    password,
    wrote_now none b (
        k none password
          (record { password_filled = refl; name_filled = λ n e. cc; fields_hidden = refl })),
  )
  advance-Backed i g (write password) (name_read (some name)) s h k b = (
    password,
    wrote_now (some name) b (
        k (some name) password
          (record { password_filled = refl; name_filled = λ n e. e; fields_hidden = refl })),
  )
  advance-Backed i g (write password) a s h k b = later_Backed i (write password) (move i a) h b
  advance-Backed i g publish no_answer s h k b = tt
  advance-Backed i g publish a s h k b = later_Backed i publish (move i a) h b
  advance-Backed i g clean no_answer s h k b = tt
  advance-Backed i g clean _ s h k b = tt
  advance-Backed i g finish no_answer s h k b = tt
  advance-Backed i g finish _ s h k b = tt
  advance-Backed i g over no_answer s h k b = tt
  advance-Backed i g over _ s h k b = tt

-- The flag of the provider is set by a thread that publishes, and by no other.
pub advance_ready :
    (g : ℕ) (pc : Pc) (a : Answer) (s : Credential)
    → (advance g pc a s).0.credential_ready ≡ true
    → (s.credential_ready ≡ true) ⊎ (pc ≡ publish)
unfolding advance write_fields
advance_ready g publish a s e = inr refl
advance_ready g launch (launched owned) s e = inl e
advance_ready g launch _ s e = inl e
advance_ready g same_generation no_answer s e = inl e
advance_ready g same_generation _ s e = inl e
advance_ready g (check_generation c) no_answer s e = inl e
advance_ready g (check_generation c) _ s e = inl e
advance_ready g (check_running c) no_answer s e = inl e
advance_ready g (check_running c) _ s e = inl e
advance_ready g request (acknowledged done) s e = inl e
advance_ready g request _ s e = inl e
advance_ready g wait_start no_answer s e = inl e
advance_ready g wait_start _ s e = inl e
advance_ready g wait_poll (status_read status) s e = inl e
advance_ready g wait_poll _ s e = inl e
advance_ready g fetch (password_read none) s e = inl e
advance_ready g fetch (password_read (some password)) s e = inl e
advance_ready g fetch _ s e = inl e
advance_ready g (write password) (name_read none) s e = inl e
advance_ready g (write password) (name_read (some name)) s e = inl e
advance_ready g (write password) _ s e = inl e
advance_ready g clean no_answer s e = inl e
advance_ready g clean _ s e = inl e
advance_ready g finish no_answer s e = inl e
advance_ready g finish _ s e = inl e
advance_ready g over no_answer s e = inl e
advance_ready g over _ s e = inl e
