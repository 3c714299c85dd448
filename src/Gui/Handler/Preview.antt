-- ===== src/Gui/Handler/Preview.antt =====
-- Handing a frame over in a named file mapping.
use smile2unlock_v.Base.{
  ℕ, ◌-◌, ◌^◌, ◌++◌, Bool, not, Option, none, some, ltb, if◌then◌else◌, length,
}
use smile2unlock_v.Base.Text.{Bytes, text}
use smile2unlock_v.Base.Decimal.{ℤ, pos, to_string}
use smile2unlock_v.Gui.Protocol.{
  GuiIpcResponse, success, service_error, set_payload_text, set_error,
}
use smile2unlock_v.Gui.Backend.{Outcome, value, thrown, Frame, IBackendService}

-- A named file mapping, with its content.
pub record SharedMapping : Type 0 where
  pub name : Bytes
  pub content : Bytes

-- What the system answers while a preview is handed over.
pub record MappingCalls : Type 0 where
  pub security_built : Bool
  pub process_id : ℕ
  pub created : Bool
  pub viewed : Bool
  pub last_error : ℕ

unfoldable pub last_error_message : Bytes → MappingCalls → Bytes
last_error_message prefix m =
    prefix ++ (text " (GetLastError=" ++ (to_string (pos m.last_error) ++ text ")"))

unfoldable pub mapping_name : Bytes → MappingCalls → Bytes
mapping_name tag m =
    text "Local\\Smile2Unlock_GuiPreview_" ++ (tag ++ (text "_" ++ to_string (pos m.process_id)))

unfoldable pub preview_descriptor : (width height : ℤ) → (image_bytes : ℕ) → (name : Bytes) → Bytes
preview_descriptor width height image_bytes name =
    text "transport=shared_memory\nmap_name="
    ++ (name
        ++ (text "\nwidth="
            ++ (to_string width
                ++ (text "\nheight="
                    ++ (to_string height
                        ++ (text "\nchannels=3\nimage_bytes="
                            ++ (to_string (pos image_bytes) ++ text "\ncompression=0\n")))))))

-- The mapping that the slot held is closed first; a view that fails closes the new one.
unfoldable pub serialize_preview_via_shared_mapping :
    MappingCalls → Frame → Bytes → GuiIpcResponse → GuiIpcResponse × Option SharedMapping
unfolding last_error_message mapping_name set_error set_payload_text
serialize_preview_via_shared_mapping m frame tag r =
    if not m.security_built
    then (set_error (last_error_message (text "构建共享内存安全描述符失败") m) r, none)
    else if ltb (2 ^ 32 - 1) (length frame.image_data)
    then (set_error (text "Image data too large for shared memory mapping") r, none)
    else if not m.created
    then (set_error (last_error_message (text "创建 GUI 预览共享内存失败") m) r, none)
    else if not m.viewed
    then (set_error (last_error_message (text "映射 GUI 预览共享内存失败") m) r, none)
    else (
      set_payload_text
          (preview_descriptor frame.width frame.height (length frame.image_data)
            (mapping_name tag m))
          success r,
      some (record { name = mapping_name tag m; content = frame.image_data }),
    )

-- The two slots of the handler beside the state of the service.
pub record HandlerState (S : Type 0) : Type 0 where
  pub service : S
  pub preview_transport : Option SharedMapping
  pub capture_transport : Option SharedMapping

module _ {S F : Type 0} (b : IBackendService S F) (m : MappingCalls) where
  abbrev Answer : Type 0
  Answer = HandlerState S → Outcome GuiIpcResponse × HandlerState S

  -- The slot is touched only with a frame.
  unfoldable pub latest_preview_as :
      GuiIpcResponse → HandlerState S → Outcome Frame × S → Outcome GuiIpcResponse × HandlerState S
  unfolding serialize_preview_via_shared_mapping
  latest_preview_as r h (thrown e, s) = (thrown e, record h { service = s })
  latest_preview_as r h (value frame, s) =
      if frame.available
      then (let (r', slot) = serialize_preview_via_shared_mapping m frame (text "stream") r in
          (value r', record h { service = s; preview_transport = slot }))
      else (value (set_payload_text frame.message service_error r), record h { service = s })

  unfoldable pub handle_get_latest_preview : GuiIpcResponse → Answer
  unfolding latest_preview_as
  handle_get_latest_preview r h = latest_preview_as r h (b.get_latest_camera_preview h.service)

  unfoldable pub capture_preview_as :
      GuiIpcResponse → HandlerState S → Outcome Frame × S → Outcome GuiIpcResponse × HandlerState S
  unfolding serialize_preview_via_shared_mapping
  capture_preview_as r h (thrown e, s) = (thrown e, record h { service = s })
  capture_preview_as r h (value frame, s) =
      if frame.available
      then (let (r', slot) = serialize_preview_via_shared_mapping m frame (text "capture") r in
          (value r', record h { service = s; capture_transport = slot }))
      else (value (set_payload_text frame.message service_error r), record h { service = s })

  unfoldable pub handle_capture_preview_frame : GuiIpcResponse → Answer
  unfolding capture_preview_as
  handle_capture_preview_frame r h = capture_preview_as r h (b.capture_preview_frame h.service)
