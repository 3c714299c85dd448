-- ===== src/Credential/Session.antt =====
-- The recognition session of CredentialProvider/CSampleCredential.cpp: the thread that
-- StartFaceRecognitionAsync starts, StopFaceRecognition, and the calls of LogonUI around them, with
-- OnCredentialReady and ResetCredentialReady of CredentialProvider/CSampleProvider.cpp.
-- A thread is a program counter; it moves one step at a time, and what other code answers it is
-- part of the action: so is the status that it reads, which the code sets to IDLE when a session is
-- created and when the face recognition link is clicked. A call of LogonUI is one action, but for
-- the wait for an old thread. The messages on the screen are left out. The generation is a natural
-- number: it would take 2^64 sessions to overflow it.
pub mod Stale
pub mod Races
pub mod Backed
pub mod Granted
use smile2unlock_v.Base.{
  ℕ, ◌+◌, ◌≡◌, List, [], ◌∷◌, Bool, true, false, not, ◌&&◌, ◌||◌, Option, none, some, ◌==◌,
  if◌then◌else◌,
}
use smile2unlock_v.Udp.Packets.{RecognitionStatus, success}
use smile2unlock_v.Credential.Names.{Wide}
use smile2unlock_v.Credential.Requests.{is_terminal_failure_status}

-- Where the thread asks whether its session is the current one.
pub data Check : Type 0 where
  before_request before_wait before_fetch : Check
  before_write : (password : Wide) → Check

-- Each question reads the generation and then, under the lock, the running flag.
pub data Pc : Type 0 where
  launch same_generation : Pc
  check_generation : Check → Pc
  check_running : Check → Pc
  request wait_start wait_poll fetch : Pc
  write : (password : Wide) → Pc
  publish clean finish over : Pc

pub record Thread : Type 0 where
  pub session : ℕ
  pub pc : Pc

-- What the thread is answered: by the launch of the service, which may leave a process of its own,
-- by the acknowledgement of the request, by the reading of the status, by the password request, and
-- by the reading of the recognised name.
pub data Answer : Type 0 where
  launched : (owned : Bool) → Answer
  launch_failed : Answer
  acknowledged : Bool → Answer
  status_read : RecognitionStatus → Answer
  password_read : Option Wide → Answer
  name_read : Option Wide → Answer
  no_answer : Answer

-- The state that the threads share. `joinable` is the thread behind `_faceRecognitionThread`,
-- `joining` tells that LogonUI waits for it, `stops` the stop tasks that were started.
pub record Credential : Type 0 where
  pub running : Bool
  pub generation : ℕ
  pub owned_process : Bool
  pub credential_ready : Bool
  pub has_events : Bool
  pub has_provider : Bool
  pub hidden : Bool
  pub edit_text : Option Wide
  pub password_text : Option Wide
  pub threads : ℕ → Thread
  pub started : ℕ
  pub joinable : Option ℕ
  pub joining : Bool
  pub stops : ℕ → Bool

pub data Action : Type 0 where
  move : (thread : ℕ) → Answer → Action
  set_selected set_deselected un_advise advise click_face_link : (process_alive : Bool) → Action
  join_ended join_timed_out : Action
  get_credential_count : Action
  set_password : Wide → Action
  terminate_by_stop : (generation : ℕ) → Action

unfoldable pub on_passed : Check → Pc
on_passed before_request = request
on_passed before_wait = wait_start
on_passed before_fetch = fetch
on_passed (before_write password) = write password

-- A launch whose session is not current is no failure: the next question follows.
unfoldable pub on_missed : Check → Pc
on_missed before_request = check_generation before_wait
on_missed _ = clean

is_success : RecognitionStatus → Bool
is_success success = true
is_success _ = false

after_poll : Bool → RecognitionStatus → Pc
unfolding is_success is_terminal_failure_status
after_poll running status =
    if not running
    then clean
    else if is_success status
    then check_generation before_fetch
    else if is_terminal_failure_status status
    then clean
    else wait_poll

-- The fields under the lock: a name that was recognised replaces the one of the tile.
write_fields : Wide → Option Wide → Credential → Credential
write_fields password none s = record s { hidden = true; password_text = some password }
write_fields password (some name) s = record s {
  hidden = true;
  edit_text = some name;
  password_text = some password;
}

-- One step of a thread of the session `g`.
unfoldable pub advance : ℕ → Pc → Answer → Credential → Credential × Pc
unfolding on_passed on_missed after_poll write_fields
advance g launch (launched owned) s = (record s { owned_process = owned }, same_generation)
advance g launch launch_failed s = (s, clean)
advance g same_generation no_answer s =
    (s, if s.generation == g then check_generation before_request else clean)
advance g (check_generation c) no_answer s =
    (s, if s.generation == g then check_running c else on_missed c)
advance g (check_running c) no_answer s = (s, if s.running then on_passed c else on_missed c)
advance g request (acknowledged done) s = (s, if done then check_generation before_wait else clean)
advance g wait_start no_answer s = (record s { running = true }, wait_poll)
advance g wait_poll (status_read status) s = (s, after_poll s.running status)
advance g fetch (password_read none) s = (s, clean)
advance g fetch (password_read (some password)) s = (s, check_generation (before_write password))
advance g (write password) (name_read name) s = (write_fields password name s, publish)
advance g publish no_answer s = (
  record s {
    credential_ready = if s.has_events && s.has_provider then true else s.credential_ready;
  },
  clean,
)
advance g clean no_answer s =
    (record s { owned_process = if s.generation == g then false else s.owned_process }, finish)
advance g finish no_answer s = (record s { running = false }, over)
advance g pc _ s = (s, pc)

abbrev pub update {ℓ} : {A : Type ℓ} → (ℕ → A) → ℕ → A → ℕ → A
update f i a j = if i == j then a else f j

unfoldable pub move_thread : ℕ → Answer → Credential → Credential
unfolding advance
move_thread i answer s =
    let t = s.threads i in
    let (s', pc) = advance t.session t.pc answer s in
    record s' { threads = update s'.threads i (record { session = t.session; pc = pc }) }

-- The second half of StartFaceRecognitionAsync: a new session and its thread.
unfoldable pub create_thread : Credential → Credential
create_thread s = record s {
  running = true;
  generation = s.generation + 1;
  threads = update s.threads s.started (record { session = s.generation + 1; pc = launch });
  started = s.started + 1;
  joinable = some s.started;
  joining = false;
}

start_with : Option ℕ → Credential → Credential
unfolding create_thread
start_with none s = create_thread s
start_with (some i) s = record s { running = false; joining = true }

has_thread : Option ℕ → Bool
has_thread none = false
has_thread (some i) = true

-- A thread that is joinable is waited for first, also if it has ended.
unfoldable pub start_face_recognition_async : (process_alive : Bool) → Credential → Credential
unfolding start_with has_thread
start_face_recognition_async process_alive s =
    let s' = record s { credential_ready = if s.has_provider then false else s.credential_ready } in
    if s.running && (has_thread s.joinable || process_alive)
    then s'
    else start_with s.joinable (record s' { running = false })

unfoldable pub stop_face_recognition : Credential → Credential
stop_face_recognition s = record s {
  running = false;
  generation = s.generation + 1;
  stops = update s.stops (s.generation + 1) true;
}

cleared : Option Wide → Option Wide
cleared none = none
cleared (some password) = some []

reset_ready : Credential → Credential
reset_ready s = record s { credential_ready = if s.has_provider then false else s.credential_ready }

ended : Pc → Bool
ended over = true
ended _ = false

-- Whether the thread that LogonUI waits for has ended.
join_ready : Option ℕ → (ℕ → Thread) → Bool
unfolding ended
join_ready none threads = true
join_ready (some i) threads = ended (threads i).pc

-- SetSelected, SetDeselected and UnAdvise.
unfoldable pub on_selected : (process_alive : Bool) → Credential → Credential
unfolding reset_ready start_face_recognition_async
on_selected process_alive s =
    let s' = reset_ready (record s { hidden = false }) in
    if s.running then s' else start_face_recognition_async process_alive s'

unfoldable pub on_deselected : Credential → Credential
unfolding reset_ready stop_face_recognition cleared
on_deselected s =
    let s' = stop_face_recognition (reset_ready (record s { hidden = false })) in
    record s' { password_text = cleared s'.password_text }

-- CommandLinkClicked on the face recognition link.
unfoldable pub on_face_link : (process_alive : Bool) → Credential → Credential
unfolding start_face_recognition_async
on_face_link process_alive s = if s.running then s else start_face_recognition_async process_alive s

unfoldable pub on_un_advised : Credential → Credential
unfolding stop_face_recognition
on_un_advised s = record (stop_face_recognition s) { has_events = false }

-- A call of LogonUI, which makes one at a time.
unfoldable pub call : Action → Credential → Credential
unfolding on_selected on_deselected on_un_advised on_face_link
call (set_selected process_alive) s = on_selected process_alive s
call (set_deselected _) s = on_deselected s
call (un_advise _) s = on_un_advised s
call (advise _) s = record s { has_events = true }
call (click_face_link process_alive) s = on_face_link process_alive s
call get_credential_count s = record s { credential_ready = false }
call (set_password password) s = record s { password_text = some password }
call _ s = s

-- An action that does not apply changes nothing.
unfoldable pub step : Action → Credential → Credential
unfolding move_thread create_thread join_ready call
step (move i answer) s = move_thread i answer s
step join_ended s = if s.joining && join_ready s.joinable s.threads then create_thread s else s
step join_timed_out s = if s.joining then create_thread s else s
step (terminate_by_stop g) s =
    if s.stops g && s.generation == g then record s { owned_process = false } else s
step a s = if s.joining then s else call a s

unfoldable pub run : List Action → Credential → Credential
unfolding step
run [] s = s
run (a ∷ actions) s = run actions (step a s)
