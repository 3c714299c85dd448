-- ===== src/Capture/Stream.antt =====
-- StartPreviewStream, StopPreviewStream and start_fr_preview_process of
-- Smile2Unlock/modules/face_recognition.cppm: the process and the mapping of a preview.
use smile2unlock_v.Base.{
  ℕ, ◌≡◌, ◌⊎◌, inl, inr, refl, List, [], ◌∷◌, Bool, true, false, not, ◌&&◌, ◌||◌, Option, none,
  some, ◌++◌, arith, ltb, ◌==◌, if◌then◌else◌, take, Bool-cases,
}
use smile2unlock_v.Base.Text.{Bytes, text}
use smile2unlock_v.Base.Decimal.{pos, to_string}
use smile2unlock_v.Capture.Frame.{frame_magic, frame_version}
use smile2unlock_v.Capture.Preview.{
  Preview, reset_preview, is_ready, Latest, get_latest_preview_frame,
}

-- Which of `preview_process_`, `preview_view_` and `preview_mapping_` are there.
pub record PreviewStream : Type 0 where
  pub process : Bool
  pub view : Option Preview
  pub mapping : Bool
  pub last_preview_sequence : ℕ

-- What a look at the new process finds: no exit code, that it has exited, or the memory while it
-- runs.
pub data Probe : Type 0 where
  no_exit_code : Probe
  exited : (exit_code : ℕ) → Probe
  active : Preview → Probe

-- What Windows answers. `last_error_text` is LastErrorText.
pub record StreamCalls : Type 0 where
  pub alive : Bool
  pub security_built : Bool
  pub created : Bool
  pub viewed : Option Preview
  pub exe_exists : Bool
  pub process_created : Bool
  pub probes : List Probe
  pub last_error_text : Bytes → Bytes

unfoldable pub is_some : Option Preview → Bool
is_some none = false
is_some (some p) = true

unfoldable pub is_preview_stream_running : StreamCalls → PreviewStream → Bool
is_preview_stream_running c s = s.process && c.alive

shows_picture : Preview → Bool
shows_picture p =
    (p.frame.magic == frame_magic && p.frame.version == frame_version)
    && (is_ready p.frame.status_code && ltb 0 p.frame.image_bytes)

-- The error that the looks end with, if any.
probed : (Bytes → Bytes) → List Probe → Option Bytes
unfolding shows_picture
probed last_error_text [] = none
probed last_error_text (no_exit_code ∷ probes) =
    some (last_error_text (text "检查 FaceRecognizer 预览进程状态失败"))
probed last_error_text (exited exit_code ∷ probes) =
    some (
      text "FaceRecognizer 预览进程启动后立即退出 (exit=" ++ (to_string (pos exit_code) ++ text ")，请检查 FR 日志"))
probed last_error_text (active p ∷ probes) =
    let rest = probed last_error_text probes in if shows_picture p then none else rest

-- Whether the process was made, and the error. There are 40 looks, 50 ms apart, in two seconds.
unfoldable pub start_fr_preview_process : StreamCalls → Bool × Option Bytes
unfolding probed
start_fr_preview_process c =
    if not c.exe_exists
    then (false, some (text "FaceRecognizer.exe 不存在"))
    else if not c.process_created
    then (false, some (c.last_error_text (text "启动 FaceRecognizer 预览进程失败")))
    else (true, probed c.last_error_text (take 40 c.probes))

request_stop : Option Preview → Option Preview
request_stop none = none
request_stop (some p) = some (record p { stop_requested = true })

abbrev pub closed_stream : PreviewStream
closed_stream = record { process = false; view = none; mapping = false; last_preview_sequence = 0 }

-- The stream, and the memory that is left to the process until it ends or is terminated.
unfoldable pub stop_preview_stream : PreviewStream → PreviewStream × Option Preview
unfolding request_stop
stop_preview_stream s = (closed_stream, request_stop s.view)

-- A stream that is not whole is stopped before it is opened again.
released : PreviewStream → PreviewStream
unfolding stop_preview_stream
released s = if s.process || (is_some s.view || s.mapping) then (stop_preview_stream s).0 else s

launched : PreviewStream → Bool × Option Bytes → (Bool × Bytes) × PreviewStream
unfolding stop_preview_stream
launched s (made, none) = ((true, text "摄像头已打开"), record s { process = made })
launched s (made, some error) =
    ((false, error), (stop_preview_stream (record s { process = made })).0)

with_view : StreamCalls → PreviewStream → Option Preview → (Bool × Bytes) × PreviewStream
unfolding launched reset_preview start_fr_preview_process
with_view c s none = ((false, c.last_error_text (text "映射预览共享内存失败")), record s { mapping = false })
with_view c s (some p) =
    launched (record s { view = some (reset_preview p); last_preview_sequence = 0 })
      (start_fr_preview_process c)

-- The return value, the message and the stream.
unfoldable pub start_preview_stream :
    StreamCalls → (error_message : Bytes) → PreviewStream → (Bool × Bytes) × PreviewStream
unfolding is_preview_stream_running is_some released with_view
start_preview_stream c error_message s =
    if is_preview_stream_running c s && (is_some s.view && s.mapping)
    then ((true, error_message), s)
    else if not c.security_built
    then ((false, c.last_error_text (text "构建预览共享内存安全描述符失败")), released s)
    else if not c.created
    then ((false, c.last_error_text (text "创建预览共享内存失败")), released s)
    else with_view c (record (released s) { mapping = true }) c.viewed

-- GetLatestPreviewFrame on the stream.
latest_of_stream : StreamCalls → PreviewStream → Latest × PreviewStream
unfolding get_latest_preview_frame is_preview_stream_running
latest_of_stream c s =
    let (result, last) =
      get_latest_preview_frame (is_preview_stream_running c s) s.view s.last_preview_sequence in
    (result, record s { last_preview_sequence = last })

-- A stream with its process, its memory and its mapping, and one with none of them.
abbrev pub IsOpen : PreviewStream → Type 0
IsOpen s = (s.process ≡ true) × (is_some s.view ≡ true) × (s.mapping ≡ true)

abbrev pub IsReleased : PreviewStream → Type 0
IsReleased s = (s.process ≡ false) × (is_some s.view ≡ false) × (s.mapping ≡ false)

abbrev pub Settled : (Bool × Bytes) × PreviewStream → Type 0
Settled r = ((r.0.0 ≡ true) × IsOpen r.1) ⊎ ((r.0.0 ≡ false) × IsReleased r.1)

released-IsReleased : (s : PreviewStream) → IsReleased (released s)
unfolding released stop_preview_stream is_some
released-IsReleased s = elim (Bool-cases s.process) [
  | inl p ↦ rw p (refl, refl, refl)
  | inr p ↦ elim (Bool-cases (is_some s.view)) [
    | inl v ↦ rw (p, v) (refl, refl, refl)
    | inr v ↦ elim (Bool-cases s.mapping) [
      | inl m ↦ rw (p, v, m) (refl, refl, refl)
      | inr m ↦ rw (p, v, m) (refl, v, refl)
    ]
  ]
]

launched-Settled :
    (c : StreamCalls) (s : PreviewStream)
    → is_some s.view ≡ true
    → s.mapping ≡ true
    → Settled (launched s (start_fr_preview_process c))
unfolding launched start_fr_preview_process stop_preview_stream is_some
launched-Settled c s v m = elim (Bool-cases c.exe_exists) [
  | inr e ↦ rw e (inr (refl, (refl, refl, refl)))
  | inl e ↦ elim (Bool-cases c.process_created) [
    | inr p ↦ rw (e, p) (inr (refl, (refl, refl, refl)))
    | inl p ↦ rw (e, p) (by_probes (probed c.last_error_text (take 40 c.probes)))
  ]
]
  where
    by_probes : (error : Option Bytes) → Settled (launched s (true, error))
    by_probes none = inl (refl, (refl, v, m))
    by_probes (some error) = inr (refl, (refl, refl, refl))

with_view-Settled :
    (c : StreamCalls) (s : PreviewStream) (view : Option Preview)
    → s.process ≡ false
    → is_some s.view ≡ false
    → s.mapping ≡ true
    → Settled (with_view c s view)
unfolding with_view is_some
with_view-Settled c s none p v m = inr (refl, (p, v, refl))
with_view-Settled c s (some q) p v m =
    launched-Settled c (record s { view = some (reset_preview q); last_preview_sequence = 0 }) refl
      m

-- Starting a preview leaves all or nothing, from whatever state and whatever Windows answers: with
-- success there are a process, a memory and a mapping; without it there is none of them, also if
-- there was before.
pub start_preview_stream-Settled :
    (c : StreamCalls) (error_message : Bytes) (s : PreviewStream)
    → Settled (start_preview_stream c error_message s)
unfolding start_preview_stream is_preview_stream_running
start_preview_stream-Settled c error_message s =
    let r = released-IsReleased s in
    elim (Bool-cases ((s.process && c.alive) && (is_some s.view && s.mapping))) [
      | inl e ↦ rw e (inl (refl, (ground (arith, e), ground (arith, e), ground (arith, e))))
      | inr e ↦ elim (Bool-cases c.security_built) [
        | inr b ↦ rw (e, b) (inr (refl, r))
        | inl b ↦ elim (Bool-cases c.created) [
          | inr d ↦ rw (e, b, d) (inr (refl, r))
          | inl d ↦
              rw (e, b, d)
                (with_view-Settled c (record (released s) { mapping = true }) c.viewed r.0 r.1 refl)
        ]
      ]
    ]
