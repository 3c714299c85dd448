-- ===== src/Gui/Remote/Preview.antt =====
-- GetLatestCameraPreview and CapturePreviewFrame of RemoteBackendService, and parse_preview_data: the
-- payload names a shared mapping, or holds the picture itself.
pub mod Handed
use smile2unlock_v.Base.{
  ℕ, ◌+◌, ◌-◌, ◌^◌, List, [], ◌∷◌, ◌++◌, Bool, true, false, ◌||◌, Option, none, some, ltb, leb,
  ◌==◌, if◌then◌else◌, length, take, drop,
}
use smile2unlock_v.Base.Text.{Bytes, text, same, find, substr, substr_from, c_string}
use smile2unlock_v.Base.Decimal.{ℤ, pos, negsuc, stoi, to_string}
use smile2unlock_v.Base.Decimal.Unsigned.{stoul}
use smile2unlock_v.Udp.Memory.{read32}
use smile2unlock_v.Gui.Lines.{lines}
use smile2unlock_v.Gui.Protocol.{
  GuiIpcCommand, get_latest_preview, capture_preview_frame, payload_capacity,
}
use smile2unlock_v.Gui.Backend.{Frame}
use smile2unlock_v.Gui.Remote.{Remote, Pipe, Sent, send_request}
use smile2unlock_v.Gui.Remote.Methods.{Called, returned, raised, overread, Call, ended}

-- Opening a mapping by its name and mapping so many bytes of it.
pub data Opened : Type 0 where
  not_opened not_viewed : (last_error : ℕ) → Opened
  viewed : (content : Bytes) → Opened

abbrev pub Mappings : Type 0
Mappings = Bytes → ℕ → Opened

-- The value of the last line with the key.
unfoldable pub field_at : Bytes → Bytes → Option ℕ → Option Bytes → Option Bytes
field_at key line none found = found
field_at key line (some eq) found =
    if same (substr 0 eq line) key then some (substr_from (eq + 1) line) else found

unfoldable pub field_value : Bytes → List Bytes → Option Bytes → Option Bytes
unfolding field_at
field_value key [] found = found
field_value key (line ∷ rest) found =
    field_value key rest (field_at key line (find b'=' line) found)

abbrev pub no_frame : Bytes → Frame
no_frame message = record {
  available = false;
  image_data = [];
  width = pos 0;
  height = pos 0;
  message = message;
}

failed_call : Bytes → ℕ → Frame
failed_call name last_error =
    no_frame (name ++ (text " failed (GetLastError=" ++ (to_string (pos last_error) ++ text ")")))

-- The error text is left as it was, which is empty.
unfoldable pub viewed_frame : ℤ → ℤ → ℕ → Opened → Frame
unfolding failed_call
viewed_frame width height image_bytes (not_opened n) = failed_call (text "OpenFileMapping") n
viewed_frame width height image_bytes (not_viewed n) = failed_call (text "MapViewOfFile") n
viewed_frame width height image_bytes (viewed content) = record {
  available = true;
  image_data = take image_bytes content;
  width = width;
  height = height;
  message = [];
}

unfoldable pub numbered_frame :
    Mappings → Bytes → Option ℕ → Option (ℤ × Bytes) → Option (ℤ × Bytes) → Frame
unfolding viewed_frame
numbered_frame mappings name (some image_bytes) (some (width, _)) (some (height, _)) =
    viewed_frame width height image_bytes
      (mappings name (if image_bytes == 0 then 1 else image_bytes))
numbered_frame mappings name _ _ _ = no_frame (text "Invalid preview descriptor numeric field")

unfoldable pub described_frame : Mappings → (name size width height : Option Bytes) → Frame
unfolding numbered_frame
described_frame mappings (some name) (some size) (some width) (some height) =
    numbered_frame mappings name (stoul size) (stoi width) (stoi height)
described_frame mappings _ _ _ _ = no_frame (text "Invalid preview descriptor")

abbrev pub shared_prefix : Bytes
shared_prefix = text "transport=shared_memory\n"

int_of : ℕ → ℤ
int_of n = if ltb n (2 ^ 31) then pos n else negsuc (2 ^ 32 - n - 1)

-- The width, the height and the size in front of the picture.
binary_frame : Bytes → Frame
unfolding int_of read32
binary_frame s =
    let size = read32 (drop 8 s) in
    if ltb (length s) 12
    then no_frame (text "Invalid preview data: too short")
    else if leb (2 ^ 31) size || ltb (length s) (12 + size)
    then no_frame (text "Invalid preview data: size mismatch")
    else record {
      available = true;
      image_data = take size (drop 12 s);
      width = int_of (read32 s);
      height = int_of (read32 (drop 4 s));
      message = [];
    }

-- Of a failed call only the error text counts.
unfoldable pub parse_preview_data : Mappings → Bytes → Frame
unfolding field_value described_frame binary_frame
parse_preview_data mappings s =
    if same (take (length shared_prefix) s) shared_prefix
    then described_frame mappings (field_value (text "map_name") (lines s) none)
        (field_value (text "image_bytes") (lines s) none)
        (field_value (text "width") (lines s) none) (field_value (text "height") (lines s) none)
    else binary_frame s

refused_frame : Option Bytes → Called Frame
refused_frame none = overread
refused_frame (some message) = returned (no_frame message)

sized_frame : Mappings → ℤ → Bytes → Called Frame
unfolding parse_preview_data
sized_frame mappings (pos n) payload =
    if ltb payload_capacity n
    then overread
    else returned (parse_preview_data mappings (take n payload))
sized_frame mappings (negsuc n) payload = raised

module _ {W : Type 0} (mappings : W → Mappings) (pipe : Pipe W) where
  -- The payload is taken by its stated size.
  unfoldable pub get_latest_camera_preview : Call W Frame
  unfolding ended refused_frame sized_frame
  get_latest_camera_preview r w =
      let sent = send_request pipe get_latest_preview [] r w in
      ended
        (if sent.ok
          then sized_frame (mappings sent.world) sent.response.payload_size sent.response.payload
          else refused_frame (c_string sent.response.payload))
        sent

  -- The payload is taken up to its first NUL.
  unfoldable pub capture_preview : Call W Frame
  unfolding ended refused_frame parse_preview_data
  capture_preview r w =
      let sent = send_request pipe capture_preview_frame [] r w in
      let payload = c_string sent.response.payload in
      ended
        (if sent.ok
          then (elim payload [
            | none ↦ overread
            | some s ↦ returned (parse_preview_data (mappings sent.world) s)
          ])
          else refused_frame payload)
        sent
