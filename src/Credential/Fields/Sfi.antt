-- ===== src/Credential/Fields/Sfi.antt =====
-- SAMPLE_FIELD_ID of CredentialProvider/common.h.
use smile2unlock_v.Base.{ℕ}

abbrev pub tile_image : ℕ
tile_image = 0

abbrev pub large_text : ℕ
large_text = 2

abbrev pub password : ℕ
password = 3

abbrev pub submit_button : ℕ
submit_button = 4

abbrev pub hide_controls_link : ℕ
hide_controls_link = 6

abbrev pub checkbox : ℕ
checkbox = 10

abbrev pub edit_text : ℕ
edit_text = 11

abbrev pub combobox : ℕ
combobox = 12

abbrev pub num_fields : ℕ
num_fields = 14
