-- ===== src/Settings/Tests.antt =====
-- Runs of src/settings.c and uses of its theorems at concrete settings.
use xprc_server_plugin_c.Common.Int.{pos, negsuc}
use xprc_server_plugin_c.Common.Run.{ok}
use xprc_server_plugin_c.Common.{
  ℕ, List, inl, length, take, drop, ◌≡◌, refl, true, false, [], ◌∷◌, none, some, codes,
}
use xprc_server_plugin_c.Text.{decimal, strpos}
use xprc_server_plugin_c.Settings.Validation.{validate_settings, validate_log_level}
use xprc_server_plugin_c.Settings.Serialize.{IsSavable, deserialize-serialize}
use xprc_server_plugin_c.Settings.Storing.{load-save_server_settings}
use xprc_server_plugin_c.FileIo.{
  ReadEnvironment, WriteEnvironment, concatenate, is_line_break, join_lines, read_lines_from_file,
  write_file, write_lines_to_file,
}
use xprc_server_plugin_c.FileIo.Segments.{IsReadable}
use xprc_server_plugin_c.Settings.Files.{
  default_settings, error_of, load_server_settings, reading_of, save_server_settings,
}
use xprc_server_plugin_c.Settings.{
  no_error, unspecific, Settings, deserialize_server_settings, serialize_server_settings,
}

-- Settings that the user changed.
abbrev changed : Settings
changed = record default_settings {
  password = some (codes "secret");
  auto_startup = false;
  network_interface = none;
  log_level_console = pos 100;
}

-- Settings that do not pass validation.
abbrev broken : Settings
broken = record changed { network_port = pos 80; log_level_xplane = negsuc 0 }

no_key : deserialize_server_settings changed (codes "=true" ∷ []) ≡ ok (changed, unspecific)
unfolding deserialize_server_settings strpos
no_key = refl

changed-IsSavable : IsSavable changed
changed-IsSavable = record { console = refl; xplane = refl; interface = λ h. cc }

deserialize-serialize_example :
    deserialize_server_settings default_settings (serialize_server_settings changed)
    ≡ ok (record changed { password = none; network_port = pos 23042 }, no_error)
deserialize-serialize_example = deserialize-serialize changed default_settings changed-IsSavable

changed_valid : validate_settings changed false ≡ true
unfolding validate_settings validate_log_level
changed_valid = refl

-- The file that the settings are saved to and loaded from.
abbrev text : List ℕ
text = join_lines (codes "\n") (serialize_server_settings changed)

abbrev out : WriteEnvironment
out = record {
  init_error = 0;
  open_error = 0;
  write_error = 0;
  written = length text;
  close_error = 0;
}

abbrev input : ReadEnvironment
input = record {
  init_error = 0;
  buffer_allocated = true;
  list_allocated = true;
  open_error = 0;
  reads = (0, take 10 text) ∷ (0, drop 10 text) ∷ [];
  segments_allocated = true;
  at_eof = true;
  data_allocated = true;
  close_error = 0;
}

input-IsReadable : IsReadable input text
unfolding serialize_server_settings join_lines concatenate decimal
input-IsReadable = record {
  initialized = refl;
  buffered = refl;
  listed = refl;
  opened = refl;
  pieces = refl;
  kept = refl;
  ended = refl;
  assembled = refl;
  closed = refl;
  complete = refl;
}

saved :
    save_server_settings (λ lines. error_of (write_lines_to_file out (codes "\n") lines)) changed
    ≡ no_error
unfolding save_server_settings serialize_server_settings join_lines write_lines_to_file write_file
    decimal
saved = refl

load-save_server_settings_example :
    load_server_settings broken (some default_settings) (reading_of (read_lines_from_file input))
    ≡ ok (record changed { password = some (codes "secret"); network_port = pos 23042 }, no_error)
unfolding is_line_break
load-save_server_settings_example =
    load-save_server_settings out input (codes "\n") broken default_settings changed (inl refl)
      changed-IsSavable refl changed_valid refl saved input-IsReadable
