-- ===== src/Credential/Session/Races.antt =====
-- What a deselection between two steps of the session's thread leads to.
use smile2unlock_v.Base.{
  ℕ, ◌+◌, ◌<◌, ◌≡◌, refl, List, [], ◌∷◌, map, Bool, true, false, Option, none, some, arith, ==_refl,
  All, ap, ◌∙◌,
}
use smile2unlock_v.Udp.Packets.{RecognitionStatus, idle, recognizing, face_detected, other_status}
use smile2unlock_v.Credential.Names.{Wide}
use smile2unlock_v.Credential.Requests.{is_terminal_failure_status}
use smile2unlock_v.Credential.Requests.Ends.{IsQuiet}
use smile2unlock_v.Credential.Session.{
  Pc, Answer, wait_start, wait_poll, write, publish, status_read, name_read, no_answer, Credential,
  Action, move, set_selected, set_deselected, advance, update, move_thread, stop_face_recognition,
  on_selected, on_deselected, on_un_advised, call, step, run, reset_ready, write_fields, after_poll,
  is_success,
}

abbrev landed : ℕ → ℕ → Credential × Pc → Credential
landed i g (s, pc) = record s { threads = update s.threads i (record { session = g; pc = pc }) }

-- A step of a thread whose program counter is known.
moved :
    (i : ℕ) (a : Answer) (s : Credential) (pc : Pc)
    → (s.threads i).pc ≡ pc
    → step (move i a) s ≡ landed i (s.threads i).session (advance (s.threads i).session pc a s)
unfolding step move_thread
moved i a s pc e = λ k. landed i (s.threads i).session (advance (s.threads i).session (e k) a s)

-- The state in which the thread is about to publish a password of the session `g`.
record IsWritten (i g : ℕ) (password : Wide) (s : Credential) : Type 0 where
  at : (s.threads i).pc ≡ publish
  session : (s.threads i).session ≡ g
  generation : g < s.generation
  events : s.has_events ≡ true
  provider : s.has_provider ≡ true
  text : s.password_text ≡ some password
  hidden : s.hidden ≡ true

write-IsWritten :
    (i : ℕ) (password : Wide) (name : Option Wide) (s : Credential)
    → (s.threads i).pc ≡ write password
    → (s.threads i).session < s.generation
    → s.has_events ≡ true
    → s.has_provider ≡ true
    → IsWritten i (s.threads i).session password (step (move i (name_read name)) s)
unfolding advance write_fields
write-IsWritten i password none s at old events provider =
    rw (moved i (name_read none) s (write password) at) (record {
      at = rw (==_refl i) refl;
      session = rw (==_refl i) refl;
      generation = old;
      events = events;
      provider = provider;
      text = refl;
      hidden = refl;
    })
write-IsWritten i password (some name) s at old events provider =
    rw (moved i (name_read (some name)) s (write password) at) (record {
      at = rw (==_refl i) refl;
      session = rw (==_refl i) refl;
      generation = old;
      events = events;
      provider = provider;
      text = refl;
      hidden = refl;
    })

publish_written :
    (i g : ℕ) (password : Wide) (s : Credential)
    → IsWritten i g password s
    → let s' = step (move i no_answer) s in
      (s'.credential_ready ≡ true)
      × (s'.password_text ≡ some password)
      × (s'.hidden ≡ true)
      × ((s'.threads i).session < s'.generation)
unfolding advance
publish_written i g password s w = rw (moved i no_answer s publish w.at) (
  ground (arith, w.events, w.provider),
  w.text,
  w.hidden,
  rw (==_refl i) (omega (arith, w.session, w.generation)),
)

deselected :
    (s : Credential)
    → s.joining ≡ false
    → let d = step (set_deselected false) s in
      (d.threads ≡ s.threads)
      × (d.generation ≡ s.generation + 1)
      × (d.has_events ≡ s.has_events)
      × (d.has_provider ≡ s.has_provider)
unfolding step call on_selected on_deselected on_un_advised stop_face_recognition reset_ready
deselected s free = rw free (refl, refl, refl, refl)

deselected_free :
    (s : Credential) → s.joining ≡ false → (step (set_deselected false) s).joining ≡ false
unfolding step call on_selected on_deselected on_un_advised stop_face_recognition reset_ready
deselected_free s free = rw free refl

deselected_started :
    (s : Credential) → s.joining ≡ false → (step (set_deselected false) s).started ≡ s.started
unfolding step call on_selected on_deselected on_un_advised stop_face_recognition reset_ready
deselected_started s free = rw free refl

module _ (s : Credential) (i : ℕ) (free : s.joining ≡ false) where
  -- A deselection between the last question of the session's thread and its writing is overtaken:
  -- the thread then fills in the password that it has, hides the fields, and makes the provider
  -- report a credential as ready, though its session is no longer the current one. The tile has its
  -- events and its provider, and LogonUI waits for no thread.
  pub stale_publication :
      (password : Wide) (name : Option Wide)
      → (s.threads i).pc ≡ write password
      → (s.threads i).session ≡ s.generation
      → s.has_events ≡ true
      → s.has_provider ≡ true
      → let s' = run (set_deselected false ∷ move i (name_read name) ∷ move i no_answer ∷ []) s in
        (s'.credential_ready ≡ true)
        × (s'.password_text ≡ some password)
        × (s'.hidden ≡ true)
        × ((s'.threads i).session < s'.generation)
  unfolding run
  stale_publication password name at current events provider =
      let d = step (set_deselected false) s in
      let (same_threads, bumped, same_events, same_provider) = deselected s free in
      publish_written i (d.threads i).session password (step (move i (name_read name)) d) (
        write-IsWritten i password name d (rw same_threads at)
          (rw (same_threads, bumped) (omega arith)) (rw same_events events)
          (rw same_provider provider))

-- The session's thread waits for a result under the running flag.
record IsWaiting (i g n : ℕ) (s : Credential) : Type 0 where
  running : s.running ≡ true
  at : (s.threads i).pc ≡ wait_poll
  old : (s.threads i).session < g
  generation : s.generation ≡ g
  free : s.joining ≡ false
  started : s.started ≡ n

quiet_after_poll :
    (status : RecognitionStatus) → IsQuiet (true, status) → after_poll true status ≡ wait_poll
unfolding after_poll is_success is_terminal_failure_status
quiet_after_poll idle q = refl
quiet_after_poll recognizing q = refl
quiet_after_poll face_detected q = refl
quiet_after_poll (other_status n) q = refl
quiet_after_poll _ q = absurd q

poll-IsWaiting :
    (i g n : ℕ) (status : RecognitionStatus) (s : Credential)
    → IsQuiet (true, status)
    → IsWaiting i g n s
    → IsWaiting i g n (step (move i (status_read status)) s)
unfolding advance
poll-IsWaiting i g n status s q w =
    let still : after_poll s.running status ≡ wait_poll =
      ap (λ b. after_poll b status) w.running ∙ quiet_after_poll status q in
    rw (moved i (status_read status) s wait_poll w.at) (record {
      running = w.running;
      at = rw (==_refl i) still;
      old = rw (==_refl i) w.old;
      generation = w.generation;
      free = w.free;
      started = w.started;
    })

-- The rounds in which the thread reads these statuses.
abbrev pub polls : ℕ → List RecognitionStatus → List Action
polls i statuses = map (λ status. move i (status_read status)) statuses

polls-IsWaiting :
    (i g n : ℕ) (statuses : List RecognitionStatus) (s : Credential)
    → All (λ status. IsQuiet (true, status)) statuses
    → IsWaiting i g n s
    → IsWaiting i g n (run (polls i statuses) s)
unfolding run
polls-IsWaiting i g n [] s q w = w
polls-IsWaiting i g n (status ∷ statuses) s q w =
    polls-IsWaiting i g n statuses (step (move i (status_read status)) s) q.1
      (poll-IsWaiting i g n status s q.0 w)

module _ (s : Credential) (i : ℕ) (free : s.joining ≡ false) where
  cancelled-IsWaiting :
      (s.threads i).pc ≡ wait_start
      → (s.threads i).session ≡ s.generation
      → IsWaiting i
          (s.generation + 1)
          s.started
          (run (set_deselected false ∷ move i no_answer ∷ []) s)
  unfolding run advance
  cancelled-IsWaiting at current =
      let d = step (set_deselected false) s in
      let (same_threads, bumped, _, _) = deselected s free in
      let at' : (d.threads i).pc ≡ wait_start = rw same_threads at in
      rw (moved i no_answer d wait_start at') (record {
        running = refl;
        at = rw (==_refl i) refl;
        old = rw (==_refl i, same_threads) (omega arith);
        generation = bumped;
        free = deselected_free s free;
        started = deselected_started s free;
      })

  -- A deselection between the acknowledgement of the request and the wait for its result is lost:
  -- the wait sets the running flag again, and goes on over every status that ends no recognition,
  -- though its session is no longer the current one; while it does, selecting the tile starts no
  -- session. LogonUI waits for no thread at the deselection.
  pub lost_cancel :
      (statuses : List RecognitionStatus) (process_alive : Bool)
      → (s.threads i).pc ≡ wait_start
      → (s.threads i).session ≡ s.generation
      → All (λ status. IsQuiet (true, status)) statuses
      → let s' = run (polls i statuses) (run (set_deselected false ∷ move i no_answer ∷ []) s) in
        let s'' = step (set_selected process_alive) s' in
        (s'.running ≡ true)
        × ((s'.threads i).pc ≡ wait_poll)
        × ((s'.threads i).session < s'.generation)
        × (s''.started ≡ s.started)
        × (s''.generation ≡ s'.generation)
  unfolding step call on_selected on_deselected on_un_advised reset_ready
  lost_cancel statuses process_alive at current q =
      let w =
        polls-IsWaiting i (s.generation + 1) s.started statuses
          (run (set_deselected false ∷ move i no_answer ∷ []) s) q
          (cancelled-IsWaiting at current) in
      (
        w.running,
        w.at,
        rw w.generation w.old,
        rw (w.free, w.running) w.started,
        rw (w.free, w.running) refl,
      )
