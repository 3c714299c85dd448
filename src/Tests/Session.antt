-- ===== src/Tests/Session.antt =====
-- One session of the credential provider, from a fresh credential to the automatic logon.
use smile2unlock_v.Base.{ℕ, ◌<◌, ◌≡◌, refl, List, [], ◌∷◌, true, false, none, some, arith}
use smile2unlock_v.Udp.Packets.{success, recognizing, idle}
use smile2unlock_v.Credential.Names.{Wide, wide}
use smile2unlock_v.Credential.Session.{
  over, wait_poll, Credential, Action, move, launched, acknowledged, status_read, password_read,
  name_read, no_answer, set_selected, set_deselected, step, run,
}
use smile2unlock_v.Credential.Session.Backed.{Wrote}
use smile2unlock_v.Credential.Session.Granted.{history, IsFresh, ready-Wrote}
use smile2unlock_v.Credential.Session.Stale.{deselected_session_writes_nothing}
use smile2unlock_v.Credential.Session.Races.{polls, stale_publication, lost_cancel}

abbrev fresh : Credential
fresh = record {
  running = false;
  generation = 0;
  owned_process = false;
  credential_ready = false;
  has_events = true;
  has_provider = true;
  hidden = false;
  edit_text = some [];
  password_text = some [];
  threads = λ i. record { session = 0; pc = over };
  started = 0;
  joinable = none;
  joining = false;
  stops = λ g. false;
}

abbrev until_request : List Action
until_request =
    set_selected false
    ∷ move 0 (launched true)
    ∷ move 0 no_answer
    ∷ move 0 no_answer
    ∷ move 0 no_answer
    ∷ []

abbrev until_wait : List Action
until_wait =
    set_selected false
    ∷ move 0 (launched true)
    ∷ move 0 no_answer
    ∷ move 0 no_answer
    ∷ move 0 no_answer
    ∷ move 0 (acknowledged true)
    ∷ move 0 no_answer
    ∷ move 0 no_answer
    ∷ []

abbrev from_wait : List Action
from_wait =
    move 0 no_answer
    ∷ move 0 (status_read recognizing)
    ∷ move 0 (status_read success)
    ∷ move 0 no_answer
    ∷ move 0 no_answer
    ∷ move 0 (password_read (some (wide "secret")))
    ∷ move 0 no_answer
    ∷ move 0 no_answer
    ∷ []

abbrev requesting : Credential
requesting = run until_request fresh

abbrev waiting : Credential
waiting = run until_wait fresh

abbrev writing : Credential
writing = run from_wait waiting

abbrev published : List Action
published =
    set_selected false
    ∷ move 0 (launched true)
    ∷ move 0 no_answer
    ∷ move 0 no_answer
    ∷ move 0 no_answer
    ∷ move 0 (acknowledged true)
    ∷ move 0 no_answer
    ∷ move 0 no_answer
    ∷ move 0 no_answer
    ∷ move 0 (status_read success)
    ∷ move 0 no_answer
    ∷ move 0 no_answer
    ∷ move 0 (password_read (some (wide "secret")))
    ∷ move 0 no_answer
    ∷ move 0 no_answer
    ∷ move 0 (name_read none)
    ∷ move 0 no_answer
    ∷ []

fresh-IsFresh : IsFresh fresh
fresh-IsFresh = record { no_threads = λ i. refl; not_ready = refl }

published_ready : (run published fresh).credential_ready ≡ true
unfolding run
published_ready = refl

ready-Wrote_example : (i : ℕ) × (password : Wide) × Wrote fresh i password (history published [])
ready-Wrote_example = ready-Wrote fresh published fresh-IsFresh published_ready

deselected_session_writes_nothing_example :
    let s' = run (set_deselected false ∷ move 0 (acknowledged true) ∷ []) requesting in
    let s'' = step (move 0 no_answer) s' in
    (s''.password_text ≡ s'.password_text)
    × (s''.edit_text ≡ s'.edit_text)
    × (s''.hidden ≡ s'.hidden)
    × (s''.credential_ready ≡ s'.credential_ready)
unfolding run
deselected_session_writes_nothing_example =
    deselected_session_writes_nothing 0 requesting (move 0 (acknowledged true) ∷ []) no_answer
      (omega arith) (omega arith) refl refl

stale_publication_example :
    let s' = run (set_deselected false ∷ move 0 (name_read none) ∷ move 0 no_answer ∷ []) writing in
    (s'.credential_ready ≡ true)
    × (s'.password_text ≡ some (wide "secret"))
    × (s'.hidden ≡ true)
    × ((s'.threads 0).session < s'.generation)
unfolding run
stale_publication_example =
    stale_publication writing 0 refl (wide "secret") none refl refl refl refl

lost_cancel_example :
    let s' =
      run
        (polls 0 (recognizing ∷ idle ∷ []))
        (run (set_deselected false ∷ move 0 no_answer ∷ []) waiting) in
    let s'' = step (set_selected true) s' in
    (s'.running ≡ true)
    × ((s'.threads 0).pc ≡ wait_poll)
    × ((s'.threads 0).session < s'.generation)
    × (s''.started ≡ waiting.started)
    × (s''.generation ≡ s'.generation)
unfolding run
lost_cancel_example =
    lost_cancel waiting 0 refl (recognizing ∷ idle ∷ []) true refl refl (tt, (tt, tt))
