-- ===== src/Credential/Session/Stale.antt =====
-- A session that was stopped before it asked the last time whether it is the current one.
use smile2unlock_v.Base.{
  ℕ, ◌+◌, ◌≤◌, ◌<◌, ◌≡◌, refl, List, [], ◌∷◌, Bool, true, false, ◌&&◌, ◌||◌, Option, none, some,
  arith, ◌==◌, if◌then◌else◌, Bool-cases, inl, inr, ap, sym, subst, ==_iff,
}
use smile2unlock_v.Credential.Session.{
  before_request, before_wait, before_fetch, before_write, Pc, launch, same_generation,
  check_generation, check_running, request, wait_start, wait_poll, fetch, write, publish, clean,
  finish, over, Thread, Answer, launched, launch_failed, acknowledged, status_read, password_read,
  name_read, no_answer, Credential, Action, move, set_selected, set_deselected, un_advise,
  click_face_link, on_face_link, join_ended, join_timed_out, terminate_by_stop, on_passed,
  on_missed, advance, move_thread, create_thread, start_face_recognition_async,
  stop_face_recognition, on_selected, on_deselected, on_un_advised, call, step, run, write_fields,
  write_fields, reset_ready, after_poll, join_ready, start_with, has_thread,
}

-- The thread has not been told for the last time that its session is the current one.
abbrev pub is_silent : Pc → Bool
is_silent (check_running (before_write password)) = false
is_silent (write password) = false
is_silent publish = false
is_silent _ = true

pub record IsStale (i : ℕ) (s : Credential) : Type 0 where
  pub older : (s.threads i).session < s.generation
  pub silent : is_silent (s.threads i).pc ≡ true
  pub born : i < s.started

-- What a step of a thread does to the rest: it never touches the generation and the threads, and
-- while the thread is silent it leaves the fields and the flag of the provider alone, and stays
-- silent if its session is old.
abbrev Advanced : ℕ → Pc → Credential → Credential × Pc → Type 0
Advanced g pc s r =
    ((r.0.generation ≡ s.generation) × (r.0.threads ≡ s.threads) × (r.0.started ≡ s.started))
    × (g < s.generation → is_silent pc ≡ true → is_silent r.1 ≡ true)
    × (is_silent pc ≡ true
        → (r.0.password_text ≡ s.password_text)
          × (r.0.edit_text ≡ s.edit_text)
          × (r.0.hidden ≡ s.hidden)
          × (r.0.credential_ready ≡ s.credential_ready))

advance-Advanced :
    (g : ℕ) (pc : Pc) (a : Answer) (s : Credential) → Advanced g pc s (advance g pc a s)
unfolding advance on_missed on_passed after_poll write_fields
advance-Advanced g launch (launched owned) s =
    ((refl, refl, refl), λ h q. refl, λ q. (refl, refl, refl, refl))
advance-Advanced g launch launch_failed s =
    ((refl, refl, refl), λ h q. refl, λ q. (refl, refl, refl, refl))
advance-Advanced g launch _ s = ((refl, refl, refl), λ h q. q, λ q. (refl, refl, refl, refl))
advance-Advanced g same_generation no_answer s =
    ((refl, refl, refl), λ h q. ground arith, λ q. (refl, refl, refl, refl))
advance-Advanced g same_generation _ s =
    ((refl, refl, refl), λ h q. q, λ q. (refl, refl, refl, refl))
advance-Advanced g (check_generation before_request) no_answer s =
    ((refl, refl, refl), λ h q. ground arith, λ q. (refl, refl, refl, refl))
advance-Advanced g (check_generation before_request) _ s =
    ((refl, refl, refl), λ h q. q, λ q. (refl, refl, refl, refl))
advance-Advanced g (check_generation before_wait) no_answer s =
    ((refl, refl, refl), λ h q. ground arith, λ q. (refl, refl, refl, refl))
advance-Advanced g (check_generation before_wait) _ s =
    ((refl, refl, refl), λ h q. q, λ q. (refl, refl, refl, refl))
advance-Advanced g (check_generation before_fetch) no_answer s =
    ((refl, refl, refl), λ h q. ground arith, λ q. (refl, refl, refl, refl))
advance-Advanced g (check_generation before_fetch) _ s =
    ((refl, refl, refl), λ h q. q, λ q. (refl, refl, refl, refl))
advance-Advanced g (check_generation (before_write password)) no_answer s =
    ((refl, refl, refl), λ h q. ground arith, λ q. (refl, refl, refl, refl))
advance-Advanced g (check_generation (before_write password)) _ s =
    ((refl, refl, refl), λ h q. q, λ q. (refl, refl, refl, refl))
advance-Advanced g (check_running before_request) no_answer s =
    ((refl, refl, refl), λ h q. ground arith, λ q. (refl, refl, refl, refl))
advance-Advanced g (check_running before_request) _ s =
    ((refl, refl, refl), λ h q. q, λ q. (refl, refl, refl, refl))
advance-Advanced g (check_running before_wait) no_answer s =
    ((refl, refl, refl), λ h q. ground arith, λ q. (refl, refl, refl, refl))
advance-Advanced g (check_running before_wait) _ s =
    ((refl, refl, refl), λ h q. q, λ q. (refl, refl, refl, refl))
advance-Advanced g (check_running before_fetch) no_answer s =
    ((refl, refl, refl), λ h q. ground arith, λ q. (refl, refl, refl, refl))
advance-Advanced g (check_running before_fetch) _ s =
    ((refl, refl, refl), λ h q. q, λ q. (refl, refl, refl, refl))
advance-Advanced g (check_running (before_write password)) no_answer s =
    ((refl, refl, refl), λ h q. ground arith, λ q. (refl, refl, refl, refl))
advance-Advanced g (check_running (before_write password)) _ s =
    ((refl, refl, refl), λ h q. q, λ q. (refl, refl, refl, refl))
advance-Advanced g request (acknowledged done) s =
    ((refl, refl, refl), λ h q. ground arith, λ q. (refl, refl, refl, refl))
advance-Advanced g request _ s = ((refl, refl, refl), λ h q. q, λ q. (refl, refl, refl, refl))
advance-Advanced g wait_start no_answer s =
    ((refl, refl, refl), λ h q. refl, λ q. (refl, refl, refl, refl))
advance-Advanced g wait_start _ s = ((refl, refl, refl), λ h q. q, λ q. (refl, refl, refl, refl))
advance-Advanced g wait_poll (status_read status) s =
    ((refl, refl, refl), λ h q. ground arith, λ q. (refl, refl, refl, refl))
advance-Advanced g wait_poll _ s = ((refl, refl, refl), λ h q. q, λ q. (refl, refl, refl, refl))
advance-Advanced g fetch (password_read none) s =
    ((refl, refl, refl), λ h q. refl, λ q. (refl, refl, refl, refl))
advance-Advanced g fetch (password_read (some password)) s =
    ((refl, refl, refl), λ h q. refl, λ q. (refl, refl, refl, refl))
advance-Advanced g fetch _ s = ((refl, refl, refl), λ h q. q, λ q. (refl, refl, refl, refl))
advance-Advanced g (write password) (name_read none) s = ((refl, refl, refl), λ h q. cc, λ q. cc)
advance-Advanced g (write password) (name_read (some name)) s =
    ((refl, refl, refl), λ h q. cc, λ q. cc)
advance-Advanced g (write password) _ s = ((refl, refl, refl), λ h q. cc, λ q. cc)
advance-Advanced g publish no_answer s = ((refl, refl, refl), λ h q. cc, λ q. cc)
advance-Advanced g publish _ s = ((refl, refl, refl), λ h q. cc, λ q. cc)
advance-Advanced g clean no_answer s =
    ((refl, refl, refl), λ h q. refl, λ q. (refl, refl, refl, refl))
advance-Advanced g clean _ s = ((refl, refl, refl), λ h q. q, λ q. (refl, refl, refl, refl))
advance-Advanced g finish no_answer s =
    ((refl, refl, refl), λ h q. refl, λ q. (refl, refl, refl, refl))
advance-Advanced g finish _ s = ((refl, refl, refl), λ h q. q, λ q. (refl, refl, refl, refl))
advance-Advanced g over no_answer s = ((refl, refl, refl), λ h q. q, λ q. (refl, refl, refl, refl))
advance-Advanced g over _ s = ((refl, refl, refl), λ h q. q, λ q. (refl, refl, refl, refl))

pub threads-advance :
    (g : ℕ) (pc : Pc) (a : Answer) (s : Credential) → (advance g pc a s).0.threads ≡ s.threads
threads-advance g pc a s = (advance-Advanced g pc a s).0.1

move_thread-IsStale :
    (i j : ℕ) (a : Answer) (s : Credential) → IsStale i s → IsStale i (move_thread j a s)
unfolding move_thread
move_thread-IsStale i j a s st =
    let t = s.threads j in
    let ((generation_kept, threads_kept, started_kept), quiet, _) =
      advance-Advanced t.session t.pc a s in
    elim (Bool-cases (j == i)) [
      | inl e ↦
          let same : s.threads i ≡ t = ap s.threads (sym ((==_iff j i).0 e)) in
          let old : t.session < s.generation =
            subst (λ (u : Thread). u.session < s.generation) same st.older in
          let hush : is_silent t.pc ≡ true =
            subst (λ (u : Thread). is_silent u.pc ≡ true) same st.silent in
          record {
            older = rw (e, generation_kept) old;
            silent = rw e (quiet old hush);
            born = rw started_kept st.born;
          }
      | inr e ↦ record {
        older = rw (e, generation_kept, threads_kept) st.older;
        silent = rw (e, threads_kept) st.silent;
        born = rw started_kept st.born;
      }
    ]

create_thread-IsStale : (i : ℕ) (s : Credential) → IsStale i s → IsStale i (create_thread s)
unfolding create_thread
create_thread-IsStale i s st =
    let other : (s.started == i) ≡ false = ground (arith, st.born) in
    record {
      older = rw other (omega (arith, st.older));
      silent = rw other st.silent;
      born = omega (arith, st.born);
    }

module _ (i : ℕ) where
  if-IsStale :
      (b : Bool) {x y : Credential} → IsStale i x → IsStale i y → IsStale i (if b then x else y)
  if-IsStale true p q = p
  if-IsStale false p q = q

  -- Calls that keep the threads, and the generation or its successor.
  same-IsStale :
      (s s' : Credential)
      → s'.generation ≡ s.generation
      → s'.threads ≡ s.threads
      → s'.started ≡ s.started
      → IsStale i s
      → IsStale i s'
  same-IsStale s s' g t n st = record {
    older = rw (g, t) st.older;
    silent = rw t st.silent;
    born = rw n st.born;
  }

  bumped-IsStale :
      (s s' : Credential)
      → s'.generation ≡ s.generation + 1
      → s'.threads ≡ s.threads
      → s'.started ≡ s.started
      → IsStale i s
      → IsStale i s'
  bumped-IsStale s s' g t n st = record {
    older = rw (g, t) (omega (arith, st.older));
    silent = rw t st.silent;
    born = rw n st.born;
  }

  start_with-IsStale :
      (thread : Option ℕ) (s : Credential) → IsStale i s → IsStale i (start_with thread s)
  unfolding start_with
  start_with-IsStale none s st = create_thread-IsStale i s st
  start_with-IsStale (some j) s st = same-IsStale s _ refl refl refl st

  start-IsStale :
      (alive : Bool) (s : Credential)
      → IsStale i s
      → IsStale i (start_face_recognition_async alive s)
  unfolding start_face_recognition_async
  start-IsStale alive s st =
      if-IsStale (s.running && (has_thread s.joinable || alive))
        (same-IsStale s _ refl refl refl st)
        (start_with-IsStale s.joinable _ (same-IsStale s _ refl refl refl st))

  call-IsStale : (c : Action) (s : Credential) → IsStale i s → IsStale i (call c s)
  unfolding call on_selected on_deselected on_un_advised on_face_link reset_ready
      stop_face_recognition
  call-IsStale (set_selected alive) s st =
      let s' = reset_ready (record s { hidden = false }) in
      let st' = same-IsStale s s' refl refl refl st in
      if-IsStale s.running st' (start-IsStale alive s' st')
  call-IsStale (set_deselected alive) s st = bumped-IsStale s _ refl refl refl st
  call-IsStale (un_advise alive) s st = bumped-IsStale s _ refl refl refl st
  call-IsStale (click_face_link alive) s st = if-IsStale s.running st (start-IsStale alive s st)
  call-IsStale _ s st = same-IsStale s _ refl refl refl st

  step-IsStale : (c : Action) (s : Credential) → IsStale i s → IsStale i (step c s)
  unfolding step
  step-IsStale (move j a) s st = move_thread-IsStale i j a s st
  step-IsStale join_ended s st =
      if-IsStale (s.joining && join_ready s.joinable s.threads) (create_thread-IsStale i s st) st
  step-IsStale join_timed_out s st = if-IsStale s.joining (create_thread-IsStale i s st) st
  step-IsStale (terminate_by_stop g) s st =
      if-IsStale (s.stops g && s.generation == g) (same-IsStale s _ refl refl refl st) st
  step-IsStale c s st = if-IsStale s.joining st (call-IsStale c s st)

  run-IsStale : (actions : List Action) (s : Credential) → IsStale i s → IsStale i (run actions s)
  unfolding run
  run-IsStale [] s st = st
  run-IsStale (c ∷ actions) s st = run-IsStale actions (step c s) (step-IsStale c s st)

  -- What a deselection makes of a session that has not passed its last question.
  deselected-IsStale :
      (s : Credential)
      → (s.threads i).session ≤ s.generation
      → i < s.started
      → is_silent (s.threads i).pc ≡ true
      → s.joining ≡ false
      → IsStale i (step (set_deselected false) s)
  unfolding step call on_selected on_deselected on_un_advised stop_face_recognition reset_ready
  deselected-IsStale s le b q free = rw free (record { older = omega arith; silent = q; born = b })

  stale_step_writes_nothing :
      (a : Answer) (s : Credential)
      → IsStale i s
      → let s' = step (move i a) s in
        (s'.password_text ≡ s.password_text)
        × (s'.edit_text ≡ s.edit_text)
        × (s'.hidden ≡ s.hidden)
        × (s'.credential_ready ≡ s.credential_ready)
  unfolding step move_thread
  stale_step_writes_nothing a s st =
      (advance-Advanced (s.threads i).session (s.threads i).pc a s).2 st.silent

  -- If the tile is deselected before the thread of a session has passed the first half of its last
  -- question, then whatever happens later, no step of that thread writes the name or the password,
  -- hides the fields, or changes whether the provider reports a credential as ready. LogonUI does
  -- not wait for a thread at the deselection.
  pub deselected_session_writes_nothing :
      (s : Credential) (actions : List Action) (a : Answer)
      → (s.threads i).session ≤ s.generation
      → i < s.started
      → is_silent (s.threads i).pc ≡ true
      → s.joining ≡ false
      → let s' = run (set_deselected false ∷ actions) s in
        let s'' = step (move i a) s' in
        (s''.password_text ≡ s'.password_text)
        × (s''.edit_text ≡ s'.edit_text)
        × (s''.hidden ≡ s'.hidden)
        × (s''.credential_ready ≡ s'.credential_ready)
  unfolding run
  deselected_session_writes_nothing s actions a le b q free =
      stale_step_writes_nothing a (run actions (step (set_deselected false) s))
        (run-IsStale actions (step (set_deselected false) s) (deselected-IsStale s le b q free))
