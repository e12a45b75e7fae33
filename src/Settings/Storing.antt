-- ===== src/Settings/Storing.antt =====
-- Settings that are saved to a file and loaded from it: src/settings.c over src/fileio.c.
use xprc_server_plugin_c.Common.{
  ℕ, ◌≡◌, ◌≢◌, refl, true, false, not, some, List, [], ◌∷◌, ◌++◌, arith, Bool-cases, inl, inr,
}
use xprc_server_plugin_c.Common.Run.{ok}
use xprc_server_plugin_c.Errors.{error_none}
use xprc_server_plugin_c.FileIo.{
  ReadEnvironment, WriteEnvironment, is_line_break, join_lines, read_lines_from_file,
  write_lines_to_file,
}
use xprc_server_plugin_c.FileIo.Lines.{IsLine, IsLineEnd, all-append, are_lines}
use xprc_server_plugin_c.FileIo.Segments.{IsReadable, read_lines-write_lines}
use xprc_server_plugin_c.Text.Numbers.{decimal-all}
use xprc_server_plugin_c.Settings.Files.{
  error_of, load_server_settings, reading_of, save_server_settings,
}
use xprc_server_plugin_c.Settings.Loading.{load-serialize_server_settings}
use xprc_server_plugin_c.Settings.Serialize.{IsSavable, field_at}
use xprc_server_plugin_c.Settings.Validation.{is_port, validate_settings}
use xprc_server_plugin_c.Settings.{
  BoolField, IntField, Settings, boolean, get_bool, get_int, integer, key_value_separator, no_error,
  serialize_fields, serialize_server_settings, serialize_setting, serialize_value, string_or_null,
}

setting-IsLine :
    (key value : List ℕ) → IsLine key → IsLine value → IsLine (key ++ key_value_separator ∷ value)
unfolding is_line_break
setting-IsLine key value h k =
    all-append (λ ch. not (is_line_break ch)) key (key_value_separator ∷ value) h k

bool-IsLine : (s : Settings) (f : BoolField) → IsLine (serialize_value (boolean f) s)
unfolding serialize_value is_line_break
bool-IsLine s f = elim (Bool-cases (get_bool f s)) [
  | inl yes_set ↦ rw yes_set
  | inr not_set ↦ rw not_set
]

int-IsLine : (s : Settings) (f : IntField) → IsLine (serialize_value (integer f) s)
unfolding serialize_value is_line_break
int-IsLine s f =
    decimal-all (λ ch. not (is_line_break ch)) (get_int f s) (λ c low high. ground arith) refl

-- The lines of the fields.
abbrev setting_line : ℕ → List ℕ → List ℕ
setting_line i value = (field_at i).key ++ key_value_separator ∷ value

abbrev boolean_line : Settings → ℕ → BoolField → List ℕ
boolean_line s i f = setting_line i (serialize_value (boolean f) s)

abbrev integer_line : Settings → ℕ → IntField → List ℕ
integer_line s i f = setting_line i (serialize_value (integer f) s)

six_lines :
    (a b c d e f : List ℕ)
    → IsLine a
    → IsLine b
    → IsLine c
    → IsLine d
    → IsLine e
    → IsLine f
    → are_lines (a ∷ b ∷ c ∷ d ∷ e ∷ f ∷ []) ≡ true
six_lines a b c d e f ha hb hc hd he hf = rw (ha, hb, hc, hd, he, hf)

serialize-are_lines :
    (s : Settings)
    → IsLine (string_or_null s.network_interface)
    → are_lines (serialize_server_settings s) ≡ true
unfolding serialize_server_settings serialize_fields serialize_setting serialize_value is_line_break
serialize-are_lines s interface =
    six_lines (boolean_line s 0 BoolField.auto_startup)
      (boolean_line s 1 BoolField.auto_regen_password) (integer_line s 2 IntField.log_level_console)
      (integer_line s 3 IntField.log_level_xplane)
      (setting_line 4 (string_or_null s.network_interface))
      (boolean_line s 6 BoolField.network_enable_ipv6)
      (setting-IsLine (field_at 0).key (serialize_value (boolean BoolField.auto_startup) s) refl
        (bool-IsLine s BoolField.auto_startup))
      (setting-IsLine (field_at 1).key (serialize_value (boolean BoolField.auto_regen_password) s)
        refl (bool-IsLine s BoolField.auto_regen_password))
      (setting-IsLine (field_at 2).key (serialize_value (integer IntField.log_level_console) s) refl
        (int-IsLine s IntField.log_level_console))
      (setting-IsLine (field_at 3).key (serialize_value (integer IntField.log_level_xplane) s) refl
        (int-IsLine s IntField.log_level_xplane))
      (setting-IsLine (field_at 4).key (string_or_null s.network_interface) refl interface)
      (setting-IsLine (field_at 6).key (serialize_value (boolean BoolField.network_enable_ipv6) s)
        refl (bool-IsLine s BoolField.network_enable_ipv6))

-- Settings that are valid, whose log levels are C integers and whose interface has no line break and
-- is not spelled like the mark for NULL: if saving them to a file reports no error, and the file can
-- be read and holds what was written, in whatever pieces it is read, then loading it gives them back
-- but for the password, which stays, and the port, which is that of the temporary instance; no error
-- is reported.
pub load-save_server_settings :
    (out : WriteEnvironment) (input : ReadEnvironment) (line_end : List ℕ) (dest fresh s : Settings)
    → IsLineEnd line_end
    → IsSavable s
    → IsLine (string_or_null s.network_interface)
    → validate_settings s false ≡ true
    → is_port fresh.network_port ≡ true
    → save_server_settings (λ lines. error_of (write_lines_to_file out line_end lines)) s ≡ no_error
    → IsReadable input (join_lines line_end (serialize_server_settings s))
    → load_server_settings dest (some fresh) (reading_of (read_lines_from_file input))
      ≡ ok (record s { password = dest.password; network_port = fresh.network_port }, no_error)
unfolding save_server_settings serialize_server_settings serialize_fields
load-save_server_settings out input line_end dest fresh s ends savable interface valid port saved
      readable =
    let lines = serialize_server_settings s in
    let plain = serialize-are_lines s interface in
    let filled : lines ≢ [] = λ e. cc in
    let written : write_lines_to_file out line_end lines ≡ error_none = ground (arith, saved) in
    let (whole, read) =
      read_lines-write_lines out input line_end lines ends (filled, plain) written readable in
    rw read (load-serialize_server_settings dest fresh s savable valid port)
