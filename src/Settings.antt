-- ===== src/Settings.antt =====
-- src/settings.c and src/settings.h: the settings record, its text form, validation and loading.
-- What the functions of src/fileio.c give, and whether memory suffices, are parameters; pointers to
-- strings are `none` for NULL.
pub mod Validation
pub mod Serialize
pub mod Files
pub mod Loading
pub mod Storing
mod Tests
use xprc_server_plugin_c.Common.Int.{ℤ, pos, negsuc, ltb_ℤ}
use xprc_server_plugin_c.Common.Run.{Run, ok, fault, ◌>>=◌}
use xprc_server_plugin_c.Common.{
  ℕ, zero, suc, ◌+◌, Bool, true, false, ◌&&◌, ◌||◌, not, Option, none, some, List, [], ◌∷◌, ◌++◌,
  ltb, ◌==◌, if◌then◌else◌, take, drop, str_eq, codes,
}
use xprc_server_plugin_c.Password.{validate_password}
use xprc_server_plugin_c.Text.{strpos, parse_int, decimal}

pub data Error : Type 0 where
  no_error unspecific memory_allocation incomplete : Error
  file_error : ℕ → Error

pub record Settings : Type 0 where
  pub password : Option (List ℕ)
  pub auto_startup : Bool
  pub auto_regen_password : Bool
  pub network_interface : Option (List ℕ)
  pub network_port : ℤ
  pub network_enable_ipv6 : Bool
  pub log_level_xplane : ℤ
  pub log_level_console : ℤ

-- The members that the field table points to by type and offset.
pub data BoolField : Type 0 where
  auto_startup auto_regen_password network_enable_ipv6 : BoolField

pub data IntField : Type 0 where
  log_level_console log_level_xplane network_port : IntField

pub data FieldRef : Type 0 where
  boolean : BoolField → FieldRef
  integer : IntField → FieldRef
  network_interface_string : FieldRef

pub record SettingsField : Type 0 where
  pub key : List ℕ
  pub ref : FieldRef
  pub standardized : Bool

abbrev pub settings_fields : List SettingsField
settings_fields =
    record {
      key = codes "auto_startup";
      ref = boolean BoolField.auto_startup;
      standardized = false;
    }
    ∷ record {
      key = codes "auto_regen_password";
      ref = boolean BoolField.auto_regen_password;
      standardized = false;
    }
    ∷ record {
      key = codes "log_level_console";
      ref = integer IntField.log_level_console;
      standardized = false;
    }
    ∷ record {
      key = codes "log_level_xplane";
      ref = integer IntField.log_level_xplane;
      standardized = false;
    }
    ∷ record {
      key = codes "network_interface";
      ref = network_interface_string;
      standardized = false;
    }
    ∷ record {
      key = codes "network_port";
      ref = integer IntField.network_port;
      standardized = true;
    }
    ∷ record {
      key = codes "network_enable_ipv6";
      ref = boolean BoolField.network_enable_ipv6;
      standardized = false;
    }
    ∷ []

abbrev pub get_bool : BoolField → Settings → Bool
get_bool BoolField.auto_startup s = s.auto_startup
get_bool BoolField.auto_regen_password s = s.auto_regen_password
get_bool BoolField.network_enable_ipv6 s = s.network_enable_ipv6

abbrev pub set_bool : BoolField → Bool → Settings → Settings
set_bool BoolField.auto_startup v s = record s { auto_startup = v }
set_bool BoolField.auto_regen_password v s = record s { auto_regen_password = v }
set_bool BoolField.network_enable_ipv6 v s = record s { network_enable_ipv6 = v }

abbrev pub get_int : IntField → Settings → ℤ
get_int IntField.log_level_console s = s.log_level_console
get_int IntField.log_level_xplane s = s.log_level_xplane
get_int IntField.network_port s = s.network_port

abbrev pub set_int : IntField → ℤ → Settings → Settings
set_int IntField.log_level_console v s = record s { log_level_console = v }
set_int IntField.log_level_xplane v s = record s { log_level_xplane = v }
set_int IntField.network_port v s = record s { network_port = v }

abbrev pub serialization_true : List ℕ
serialization_true = codes "true"

abbrev pub serialization_false : List ℕ
serialization_false = codes "false"

abbrev pub serialization_null : List ℕ
serialization_null = codes "#!<>$NULL$<>#!"

abbrev pub key_value_separator : ℕ
key_value_separator = b'='

abbrev string_or_null : Option (List ℕ) → List ℕ
string_or_null none = serialization_null
string_or_null (some s) = s

serialize_value : FieldRef → Settings → List ℕ
serialize_value (boolean f) s = if get_bool f s then serialization_true else serialization_false
serialize_value (integer f) s = decimal (get_int f s)
serialize_value network_interface_string s = string_or_null s.network_interface

pub serialize_setting : Settings → SettingsField → List ℕ
unfolding serialize_value
serialize_setting s field = field.key ++ key_value_separator ∷ serialize_value field.ref s

serialize_fields : Settings → List SettingsField → List (List ℕ)
serialize_fields s [] = []
serialize_fields s (field ∷ fields) =
    let rest = serialize_fields s fields in
    if field.standardized then rest else serialize_setting s field ∷ rest

-- The lines of the file, where there is memory for them.
unfoldable pub serialize_server_settings : Settings → List (List ℕ)
unfolding serialize_fields serialize_setting
serialize_server_settings s = serialize_fields s settings_fields

find_field : List ℕ → List SettingsField → Option SettingsField
find_field key [] = none
find_field key (field ∷ fields) = if str_eq key field.key then some field else find_field key fields

get_settings_field : List ℕ → Option SettingsField
unfolding find_field str_eq
get_settings_field key = find_field key settings_fields

store_int : IntField → Settings → Option ℤ → Settings × Error
store_int f s none = (s, unspecific)
store_int f s (some v) = (set_int f v s, no_error)

-- The settings after the line's value, and the error.
deserialize_setting : Settings → FieldRef → List ℕ → Run (Settings × Error)
deserialize_setting s (boolean f) value =
    if str_eq value serialization_true
    then ok (set_bool f true s, no_error)
    else if str_eq value serialization_false
    then ok (set_bool f false s, no_error)
    else ok (s, unspecific)
deserialize_setting s (integer f) value = do parsed ← parse_int value; ok (store_int f s parsed)
deserialize_setting s network_interface_string value = ok (
  record s { network_interface = if str_eq value serialization_null then none else some value },
  no_error,
)

deserialize_known : Settings → Option SettingsField → List ℕ → Run (Settings × Error)
deserialize_known s none value = ok (s, incomplete)
deserialize_known s (some field) value = deserialize_setting s field.ref value

-- One line; `none` is the early return on a line with no key.
deserialize_line : Settings → List ℕ → Option ℕ → Run (Option (Settings × Error))
deserialize_line s line none = ok none
deserialize_line s line (some separator) = if ltb separator 1 then ok none else (do
  r ← deserialize_known s (get_settings_field (take separator line)) (drop (separator + 1) line)
  ok (some r))

abbrev pub note_error : Error → Error → Error
note_error out no_error = out
note_error out err = incomplete

deserialize_lines : Settings → Error → List (List ℕ) → Run (Settings × Error)
deserialize_lines s out [] = ok (s, out)
deserialize_lines s out (line ∷ lines) = do
  read ← deserialize_line s line (strpos line (key_value_separator ∷ []) (pos 0))
  elim read [
    | none ↦ ok (s, unspecific)
    | some (s', e) ↦ deserialize_lines s' (note_error out e) lines
  ]

unfoldable pub deserialize_server_settings : Settings → List (List ℕ) → Run (Settings × Error)
unfolding deserialize_lines deserialize_line deserialize_known deserialize_setting store_int
    get_settings_field
deserialize_server_settings s lines = deserialize_lines s no_error lines
