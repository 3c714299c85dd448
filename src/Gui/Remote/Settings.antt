-- ===== src/Gui/Remote/Settings.antt =====
-- What the server makes of the settings that the client saves.
use smile2unlock_v.Base.{
  ◌<◌, ◌≡◌, refl, List, [], ◌∷◌, ◌++◌, Bool, true, false, some, arith, length, drop, drop_past, ◌∙◌,
  take-append_left,
}
use smile2unlock_v.Base.Text.{Bytes, Free, text, same, find, find-append, substr, substr_from}
use smile2unlock_v.Base.Decimal.{IsInt, to_string, parse_int-to_string, to_string-Free}
use smile2unlock_v.Gui.Float.{FloatOps}
use smile2unlock_v.Gui.Lines.{lines, lines-key_line, key_line, flag}
use smile2unlock_v.Gui.Models.{FaceRecognizerConfig, default_config}
use smile2unlock_v.Gui.Protocol.{payload_capacity, save_recognizer_config}
use smile2unlock_v.Gui.Backend.{IBackendService}
use smile2unlock_v.Gui.Handler.Texts.{
  parse_float, set_config_field, set_config_at, read_config_lines, read_config, truthy,
}
use smile2unlock_v.Gui.Handler.Commands.{handle_save_recognizer_config, reply_to}
use smile2unlock_v.Gui.Handler.Preview.{HandlerState, MappingCalls}
use smile2unlock_v.Gui.Handler.{handle_command, lift}
use smile2unlock_v.Gui.Remote.{Remote, Pipe}
use smile2unlock_v.Gui.Remote.Methods.{config_text, remote_save_recognizer_config}
use smile2unlock_v.Gui.Remote.Refines.{IsServed, request_reply-served}
use smile2unlock_v.Gui.Remote.Calls.{brought}

-- The print of a float is one line and is read back as it.
pub record PrintsExactly {F : Type 0} (ops : FloatOps F) (x : F) : Type 0 where
  pub reads_back : parse_float ops (ops.show x) ≡ some x
  pub one_line : Free b'\n' (ops.show x)

-- Settings of which every field survives the text form.
pub record IsSavable {F : Type 0} (ops : FloatOps F) (c : FaceRecognizerConfig F) : Type 0 where
  pub camera : IsInt c.camera
  pub face_threshold : PrintsExactly ops c.face_threshold
  pub liveness_threshold : PrintsExactly ops c.liveness_threshold
  pub language : Free b'\n' c.language

flag-Free : (b : Bool) → Free b'\n' (flag b)
flag-Free true = ground arith
flag-Free false = ground arith

module _ {F : Type 0} (ops : FloatOps F) where
  set_config_at-lem :
      (key value : Bytes) (c : FaceRecognizerConfig F)
      → Free b'=' key
      → set_config_at ops (key ++ b'=' ∷ value) (find b'=' (key ++ b'=' ∷ value)) c
        ≡ set_config_field ops key value c
  unfolding set_config_at substr substr_from drop
  set_config_at-lem key value c he =
      rw
        (
          find-append b'=' key value he,
          take-append_left key (b'=' ∷ value),
          drop_past (length key) 1 key (b'=' ∷ value) refl,
        )
        refl

  read_line :
      (l : Bytes) (ls : List Bytes) (c : FaceRecognizerConfig F)
      → read_config_lines ops (l ∷ ls) c
        ≡ read_config_lines ops ls (set_config_at ops l (find b'=' l) c)
  unfolding read_config_lines
  read_line l ls c = refl

  read-key_line :
      (key value rest : Bytes) (c : FaceRecognizerConfig F)
      → Free b'\n' key
      → Free b'=' key
      → Free b'\n' value
      → read_config_lines ops (lines (key_line key value rest)) c
        ≡ read_config_lines ops (lines rest) (set_config_field ops key value c)
  read-key_line key value rest c hk he hv =
      rw (lines-key_line key value rest hk hv, read_line (key ++ b'=' ∷ value) (lines rest) c)
        (rw (set_config_at-lem key value c he) refl)

  truthy-flag : (b : Bool) → truthy (flag b) ≡ b
  unfolding same
  truthy-flag true = refl
  truthy-flag false = refl

  read_end : (c : FaceRecognizerConfig F) → read_config_lines ops (lines []) c ≡ c
  unfolding lines read_config_lines
  read_end c = refl

  -- The lines one after the other.
  read-fields :
      (c d : FaceRecognizerConfig F)
      → IsSavable ops c
      → read_config_lines ops (lines (config_text ops c)) d
        ≡ set_config_field ops (text "language") c.language (
            set_config_field ops (text "debug") (flag c.debug) (
              set_config_field ops (text "liveness_threshold") (ops.show c.liveness_threshold) (
                set_config_field ops (text "face_threshold") (ops.show c.face_threshold) (
                  set_config_field ops
                    (text "liveness")
                    (flag c.liveness)
                    (set_config_field ops (text "camera") (to_string c.camera) d)))))
  unfolding config_text
  read-fields c d s =
      read-key_line (text "camera") (to_string c.camera) _ _ (ground arith) (ground arith)
        (to_string-Free b'\n' c.camera (omega arith) (λ e. absurd (omega (arith, e))))
      ∙ read-key_line (text "liveness") (flag c.liveness) _ _ (ground arith) (ground arith)
          (flag-Free c.liveness)
      ∙ read-key_line (text "face_threshold") (ops.show c.face_threshold) _ _ (ground arith)
          (ground arith) s.face_threshold.one_line
      ∙ read-key_line (text "liveness_threshold") (ops.show c.liveness_threshold) _ _ (ground arith)
          (ground arith) s.liveness_threshold.one_line
      ∙ read-key_line (text "debug") (flag c.debug) _ _ (ground arith) (ground arith)
          (flag-Free c.debug)
      ∙ read-key_line (text "language") c.language [] _ (ground arith) (ground arith) s.language
      ∙ read_end _

  -- The settings come back, but for the one that is not printed.
  read_config-config_text :
      (c : FaceRecognizerConfig F)
      → IsSavable ops c
      → read_config ops (config_text ops c) ≡ record c { auto_update_check = true }
  unfolding read_config set_config_field same
  read_config-config_text c s =
      rw
        (
          read-fields c (default_config ops) s,
          parse_int-to_string c.camera s.camera,
          s.face_threshold.reads_back,
          s.liveness_threshold.reads_back,
          truthy-flag c.liveness,
          truthy-flag c.debug,
        )
        refl

module _ {S F : Type 0} (ops : FloatOps F) (b : IBackendService S F) (m : MappingCalls)
    (pipe : Pipe (HandlerState S)) (served : IsServed ops b m pipe) (r : Remote)
    (ready : r.initialized ≡ true) (h : HandlerState S) where
  -- Over a pipe whose exchange is the server, an initialised client that saves settings has the
  -- effect of the service's save_recognizer_config with the same settings but for
  -- auto_update_check, which arrives as true whatever it was. The thresholds are read back from
  -- their prints, these and the language hold no line break, and the payload fits.
  pub remote_save_recognizer_config-served :
      (c : FaceRecognizerConfig F)
      → IsSavable ops c
      → length (config_text ops c) < payload_capacity
      → remote_save_recognizer_config ops pipe c r h
        ≡ brought (b.save_recognizer_config (record c { auto_update_check = true }) h.service) r h
  unfolding remote_save_recognizer_config handle_command lift handle_save_recognizer_config reply_to
  remote_save_recognizer_config-served c s short =
      request_reply-served ops b m pipe served r ready h save_recognizer_config (config_text ops c)
        (b.save_recognizer_config (record c { auto_update_check = true })) tt short
        (λ a. rw (read_config-config_text ops c s) refl)
