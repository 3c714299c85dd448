-- ===== src/Gui/Remote/Preview/Handed.antt =====
-- A frame that the server hands over in a shared mapping.
use smile2unlock_v.Base.{
  ◌^◌, ◌<◌, ◌≡◌, refl, [], ◌∷◌, ◌++◌, true, Option, none, some, arith, ◌==◌, if◌then◌else◌, length,
  take, drop, drop_past, take-append_left, ap, inl,
}
use smile2unlock_v.Base.Text.{Bytes, Free, text, same, find, find-append, substr, substr_from}
use smile2unlock_v.Base.Decimal.{ℤ, pos, IsInt, to_string, to_string-Free, stoi-to_string}
use smile2unlock_v.Base.Decimal.Unsigned.{stoul-to_string}
use smile2unlock_v.Gui.Lines.{lines, lines-key_line, key_line}
use smile2unlock_v.Gui.Backend.{Frame}
use smile2unlock_v.Gui.Handler.Preview.{preview_descriptor}
use smile2unlock_v.Gui.Remote.Preview.{
  Mappings, viewed, field_at, field_value, viewed_frame, numbered_frame, described_frame,
  parse_preview_data, shared_prefix,
}

field_at-key :
    (want key value : Bytes) (found : Option Bytes)
    → Free b'=' key
    → field_at want (key ++ b'=' ∷ value) (find b'=' (key ++ b'=' ∷ value)) found
      ≡ (if same key want then some value else found)
unfolding field_at substr substr_from drop
field_at-key want key value found he =
    rw
      (
        find-append b'=' key value he,
        take-append_left key (b'=' ∷ value),
        drop_past (length key) 1 key (b'=' ∷ value) refl,
      )
      refl

field-line :
    (want key value rest : Bytes) (found : Option Bytes)
    → Free b'\n' key
    → Free b'=' key
    → Free b'\n' value
    → field_value want (lines (key_line key value rest)) found
      ≡ field_value want (lines rest) (if same key want then some value else found)
unfolding field_value
field-line want key value rest found hk he hv =
    rw (lines-key_line key value rest hk hv)
      (ap (λ f. field_value want (lines rest) f) (field_at-key want key value found he))

module _ (frame : Frame) (name : Bytes) (w : IsInt frame.width) (h : IsInt frame.height)
    (one_line : Free b'\n' name) where
  abbrev size_text : Bytes
  size_text = to_string (pos (length frame.image_data))

  -- The descriptor as lines.
  descriptor_lines :
      preview_descriptor frame.width frame.height (length frame.image_data) name
      ≡ key_line (text "transport") (text "shared_memory") (
          key_line (text "map_name") name (
            key_line (text "width") (to_string frame.width) (
              key_line (text "height") (to_string frame.height) (
                key_line (text "channels") (text "3") (
                  key_line
                    (text "image_bytes")
                    size_text
                    (key_line (text "compression") (text "0") []))))))
  unfolding preview_descriptor
  descriptor_lines = refl

  -- The value that a key has at last.
  field_value-descriptor :
      (want : Bytes)
      → field_value want
          (lines (preview_descriptor frame.width frame.height (length frame.image_data) name))
          none
        ≡ (if same (text "compression") want
            then some (text "0")
            else if same (text "image_bytes") want
            then some size_text
            else if same (text "channels") want
            then some (text "3")
            else if same (text "height") want
            then some (to_string frame.height)
            else if same (text "width") want
            then some (to_string frame.width)
            else if same (text "map_name") want
            then some name
            else if same (text "transport") want
            then some (text "shared_memory")
            else none)
  unfolding field_value lines
  field_value-descriptor want =
      let number_line : (n : ℤ) → Free b'\n' (to_string n) =
        λ n. to_string-Free b'\n' n (inl (omega arith)) (λ e. absurd (omega (arith, e))) in
      rw
        (
          descriptor_lines,
          field-line want (text "transport") (text "shared_memory") _ none (ground arith)
              (ground arith) (ground arith),
          field-line want (text "map_name") name _ _ (ground arith) (ground arith) one_line,
          field-line want (text "width") (to_string frame.width) _ _ (ground arith) (ground arith)
              (number_line frame.width),
          field-line want (text "height") (to_string frame.height) _ _ (ground arith) (ground arith)
              (number_line frame.height),
          field-line want (text "channels") (text "3") _ _ (ground arith) (ground arith)
              (ground arith),
          field-line want (text "image_bytes") size_text _ _ (ground arith) (ground arith)
              (number_line (pos (length frame.image_data))),
          field-line want (text "compression") (text "0") [] _ (ground arith) (ground arith)
              (ground arith),
        )
        refl

  prefix_lem :
      same
        (take
          (length shared_prefix)
          (preview_descriptor frame.width frame.height (length frame.image_data) name))
        shared_prefix
      ≡ true
  unfolding preview_descriptor same take
  prefix_lem = refl

  -- A frame that the server describes is read by the client with its pixels, its width and its
  -- height, out of a mapping of that name which holds them. Width and height are ints, the picture
  -- has fewer than 2^32 bytes, and the name has no line break.
  pub parse_preview_data-preview_descriptor :
      (mappings : Mappings) (rest : Bytes)
      → length frame.image_data < 2 ^ 32
      → mappings name (if length frame.image_data == 0 then 1 else length frame.image_data)
        ≡ viewed (frame.image_data ++ rest)
      → parse_preview_data mappings
          (preview_descriptor frame.width frame.height (length frame.image_data) name)
        ≡ (record {
          available = true;
          image_data = frame.image_data;
          width = frame.width;
          height = frame.height;
          message = [];
        })
  unfolding parse_preview_data described_frame numbered_frame viewed_frame same
  parse_preview_data-preview_descriptor mappings rest small held =
      let prefixed : same
            (take (length shared_prefix)
              (preview_descriptor frame.width frame.height (length frame.image_data) name))
            shared_prefix
          ≡ true =
        prefix_lem in
      rw
        (
          prefixed,
          field_value-descriptor (text "map_name"),
          field_value-descriptor (text "image_bytes"),
          field_value-descriptor (text "width"),
          field_value-descriptor (text "height"),
          stoul-to_string (length frame.image_data) small,
          stoi-to_string frame.width w,
          stoi-to_string frame.height h,
          held,
          take-append_left frame.image_data rest,
        )
        refl
