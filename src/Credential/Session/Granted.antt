-- ===== src/Credential/Session/Granted.antt =====
-- What has happened before the provider reports a credential as ready.
use smile2unlock_v.Base.{
  ℕ, ◌+◌, ◌≡◌, refl, List, [], ◌∷◌, Bool, true, false, ◌&&◌, ◌||◌, Option, none, some, arith, ◌==◌,
  ==_iff, if◌then◌else◌, Bool-cases, inl, inr, subst, sym,
}
use smile2unlock_v.Credential.Names.{Wide}
use smile2unlock_v.Credential.Session.Stale.{threads-advance}
use smile2unlock_v.Credential.Session.Backed.{
  Backed, later_Backed, advance-Backed, advance_ready, replay, IsFilled, Wrote, wrote_before,
}
use smile2unlock_v.Credential.Session.{
  launch, over, Thread, Answer, Credential, Action, move, set_selected, click_face_link,
  on_face_link, set_deselected, un_advise, join_ended, join_timed_out, get_credential_count,
  terminate_by_stop, advance, update, move_thread, create_thread, start_face_recognition_async,
  stop_face_recognition, on_selected, on_deselected, on_un_advised, call, step, run, reset_ready,
  join_ready, start_with, has_thread,
}

-- The actions with the last one first, onto a history.
abbrev pub history : List Action → List Action → List Action
history [] h = h
history (c ∷ actions) h = history actions (c ∷ h)

-- A credential as it is made: no thread, no session, and nothing reported as ready.
pub record IsFresh (s : Credential) : Type 0 where
  pub no_threads : (i : ℕ) → (s.threads i).pc ≡ over
  pub not_ready : s.credential_ready ≡ false

module _ (start : Credential) where
  record IsBacked (s : Credential) (h : List Action) : Type 0 where
    threads : (i : ℕ) → Backed start i (s.threads i).pc h
    ready : s.credential_ready ≡ true → (i : ℕ) × (password : Wide) × Wrote start i password h

  module _ (c : Action) (h : List Action) where
    kept-IsBacked :
        (s s' : Credential)
        → s'.threads ≡ s.threads
        → (s'.credential_ready ≡ true → s.credential_ready ≡ true)
        → IsBacked s h
        → IsBacked s' (c ∷ h)
    kept-IsBacked s s' t r b = record {
      threads = λ i. rw t (later_Backed start i (s.threads i).pc c h (b.threads i));
      ready = λ e. let (i, password, w) = b.ready (r e) in (i, password, wrote_before c w);
    }

    created-IsBacked :
        (s s' : Credential) (new : Thread)
        → s'.threads ≡ update s.threads s.started new
        → new.pc ≡ launch
        → (s'.credential_ready ≡ true → s.credential_ready ≡ true)
        → IsBacked s h
        → IsBacked s' (c ∷ h)
    created-IsBacked s s' new t l r b = record {
      threads = λ i. rw t (elim (Bool-cases (s.started == i)) [
        | inl e ↦ rw (e, l) tt
        | inr e ↦ rw e (later_Backed start i (s.threads i).pc c h (b.threads i))
      ]);
      ready = λ e. let (i, password, w) = b.ready (r e) in (i, password, wrote_before c w);
    }

    if-IsBacked :
        (b : Bool) {x y : Credential}
        → IsBacked x (c ∷ h)
        → IsBacked y (c ∷ h)
        → IsBacked (if b then x else y) (c ∷ h)
    if-IsBacked true p q = p
    if-IsBacked false p q = q

    reset_false :
        (provider ready : Bool) → (if provider then false else ready) ≡ true → ready ≡ true
    reset_false true ready e = cc
    reset_false false ready e = e

    start_with-IsBacked :
        (thread : Option ℕ) (s s' : Credential)
        → s'.threads ≡ s.threads
        → s'.started ≡ s.started
        → (s'.credential_ready ≡ true → s.credential_ready ≡ true)
        → IsBacked s h
        → IsBacked (start_with thread s') (c ∷ h)
    unfolding start_with create_thread
    start_with-IsBacked none s s' t n r b =
        created-IsBacked s (start_with none s')
          (record { session = s'.generation + 1; pc = launch })
          (λ k. update (t k) (n k) (record { session = s'.generation + 1; pc = launch })) refl r b
    start_with-IsBacked (some j) s s' t n r b = kept-IsBacked s (start_with (some j) s') t r b

    start-IsBacked :
        (alive : Bool) (s s' : Credential)
        → s'.threads ≡ s.threads
        → s'.started ≡ s.started
        → (s'.credential_ready ≡ true → s.credential_ready ≡ true)
        → IsBacked s h
        → IsBacked (start_face_recognition_async alive s') (c ∷ h)
    unfolding start_face_recognition_async
    start-IsBacked alive s s' t n r b =
        if-IsBacked (s'.running && (has_thread s'.joinable || alive))
          (kept-IsBacked s _ t (λ e. r (reset_false s'.has_provider s'.credential_ready e)) b)
          (start_with-IsBacked s'.joinable s _ t n
            (λ e. r (reset_false s'.has_provider s'.credential_ready e)) b)

  call-IsBacked :
      (c : Action) (h : List Action) (s : Credential) → IsBacked s h → IsBacked (call c s) (c ∷ h)
  unfolding call on_selected on_deselected on_un_advised on_face_link reset_ready
      stop_face_recognition
  call-IsBacked (set_selected alive) h s b =
      let s' = reset_ready (record s { hidden = false }) in
      let off = reset_false (set_selected alive) h s.has_provider s.credential_ready in
      if-IsBacked (set_selected alive) h s.running
        (kept-IsBacked (set_selected alive) h s s' refl off b)
        (start-IsBacked (set_selected alive) h alive s s' refl refl off b)
  call-IsBacked (set_deselected alive) h s b =
      kept-IsBacked (set_deselected alive) h s (call (set_deselected alive) s) refl
        (reset_false (set_deselected alive) h s.has_provider s.credential_ready) b
  call-IsBacked get_credential_count h s b =
      kept-IsBacked get_credential_count h s (call get_credential_count s) refl (λ e. cc) b
  call-IsBacked (un_advise alive) h s b =
      kept-IsBacked (un_advise alive) h s (call (un_advise alive) s) refl (λ e. e) b
  call-IsBacked (click_face_link alive) h s b =
      if-IsBacked (click_face_link alive) h s.running
        (kept-IsBacked (click_face_link alive) h s s refl (λ e. e) b)
        (start-IsBacked (click_face_link alive) h alive s s refl refl (λ e. e) b)
  call-IsBacked c h s b = kept-IsBacked c h s (call c s) refl (λ e. e) b

  move-IsBacked :
      (j : ℕ) (a : Answer) (h : List Action) (s : Credential)
      → replay start h ≡ s
      → IsBacked s h
      → IsBacked (move_thread j a s) (move j a ∷ h)
  unfolding step move_thread
  move-IsBacked j a h s at b = record {
    threads = λ i.
        rw (threads-advance (s.threads j).session (s.threads j).pc a s)
          (elim (Bool-cases (j == i)) [
            | inl e ↦ rw (e, ← ((==_iff j i).0 e)) own
            | inr e ↦ rw e (later_Backed start i (s.threads i).pc (move j a) h (b.threads i))
          ]);
    ready = λ e. elim (advance_ready (s.threads j).session (s.threads j).pc a s e) [
      | inl old ↦ let (i, password, w) = b.ready old in (i, password, wrote_before (move j a) w)
      | inr publishes ↦
          let (password, w) = subst (λ pc. Backed start j pc h) publishes (b.threads j) in
          (j, password, wrote_before (move j a) w)
    ];
  }
    where
      -- The fields after the step are those after the history.
      replayed :
          (name : Option Wide) (password : Wide)
          → IsFilled name password (advance (s.threads j).session (s.threads j).pc a s).0
          → IsFilled name password (replay start (move j a ∷ h))
      replayed name password f =
          subst (λ (x : Credential). IsFilled name password (step (move j a) x)) (sym at)
            (record {
              password_filled = f.password_filled;
              name_filled = f.name_filled;
              fields_hidden = f.fields_hidden;
            })

      own : Backed start j (advance (s.threads j).session (s.threads j).pc a s).1 (move j a ∷ h)
      own =
          advance-Backed start j (s.threads j).session (s.threads j).pc a s h replayed (b.threads j)

  step-IsBacked :
      (c : Action) (h : List Action) (s : Credential)
      → replay start h ≡ s
      → IsBacked s h
      → IsBacked (step c s) (c ∷ h)
  unfolding step create_thread
  step-IsBacked (move j a) h s at b = move-IsBacked j a h s at b
  step-IsBacked join_ended h s at b =
      if-IsBacked join_ended h (s.joining && join_ready s.joinable s.threads)
        (created-IsBacked join_ended h s (create_thread s)
          (record { session = s.generation + 1; pc = launch }) refl refl (λ e. e) b)
        (kept-IsBacked join_ended h s s refl (λ e. e) b)
  step-IsBacked join_timed_out h s at b =
      if-IsBacked join_timed_out h s.joining
        (created-IsBacked join_timed_out h s (create_thread s)
          (record { session = s.generation + 1; pc = launch }) refl refl (λ e. e) b)
        (kept-IsBacked join_timed_out h s s refl (λ e. e) b)
  step-IsBacked (terminate_by_stop g) h s at b =
      if-IsBacked (terminate_by_stop g) h (s.stops g && s.generation == g)
        (kept-IsBacked (terminate_by_stop g) h s (record s { owned_process = false }) refl (λ e. e)
          b)
        (kept-IsBacked (terminate_by_stop g) h s s refl (λ e. e) b)
  step-IsBacked c h s at b =
      if-IsBacked c h s.joining (kept-IsBacked c h s s refl (λ e. e) b) (call-IsBacked c h s b)

  run-IsBacked :
      (actions h : List Action)
      → IsBacked (replay start h) h
      → IsBacked (run actions (replay start h)) (history actions h)
  unfolding run
  run-IsBacked [] h b = b
  run-IsBacked (c ∷ actions) h b =
      run-IsBacked actions (c ∷ h) (step-IsBacked c h (replay start h) refl b)

-- Whatever LogonUI, the threads and the service do, from a fresh credential on: when the provider
-- reports a credential as ready, some thread has read the status SUCCESS, after that has got a
-- password from the service, and a step of it after that left that password in the field, with the
-- recognised name in the field of the name if there was one, and the fields hidden.
pub ready-Wrote :
    (s : Credential) (actions : List Action)
    → IsFresh s
    → (run actions s).credential_ready ≡ true
    → (i : ℕ) × (password : Wide) × Wrote s i password (history actions [])
ready-Wrote s actions f e =
    (run-IsBacked s actions [] (record {
      threads = λ i. rw (f.no_threads i) tt;
      ready = λ r. absurd (ground (arith, f.not_ready));
    })).ready
      e
