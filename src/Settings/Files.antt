-- ===== src/Settings/Files.antt =====
-- Loading and saving settings: the functions of src/settings.c over those of src/fileio.c, whose
-- results are parameters.
use xprc_server_plugin_c.Common.Int.{ℤ, pos, ltb_ℤ}
use xprc_server_plugin_c.Common.Run.{Run, ok, ◌>>=◌}
use xprc_server_plugin_c.Common.{
  ℕ, Bool, true, false, ◌||◌, Option, none, some, List, codes, ◌==◌, if◌then◌else◌,
}
use xprc_server_plugin_c.Errors.{error_none}
use xprc_server_plugin_c.Text.{parse_int, decimal}
use xprc_server_plugin_c.Settings.Validation.{
  constrain_settings, default_log_level, network_minimum_port, network_maximum_port,
}
use xprc_server_plugin_c.Settings.{
  Error, no_error, unspecific, memory_allocation, incomplete, file_error, Settings,
  deserialize_server_settings, serialize_server_settings,
}

abbrev pub default_settings : Settings
default_settings = record {
  password = none;
  auto_startup = true;
  auto_regen_password = true;
  network_interface = some (codes "localhost");
  network_port = pos 23042;
  network_enable_ipv6 = false;
  log_level_xplane = default_log_level;
  log_level_console = default_log_level;
}

-- `password` is what `generate_password` gives; `none` stands for a failure, as it does in the result.
unfoldable pub create_settings : Option (List ℕ) → Option Settings
create_settings none = none
create_settings (some password) = some (record default_settings { password = some password })

abbrev copy_all : Settings → Settings → Option (List ℕ) → Settings
copy_all dest src password = record src { password = password }

-- Where there is memory for the strings.
unfoldable pub copy_settings : Settings → Settings → Bool → Settings × Error
copy_settings dest src copy_password =
    if copy_password
    then elim src.password [
      | none ↦ (dest, unspecific)
      | some password ↦ (copy_all dest src (some password), no_error)
    ]
    else (copy_all dest src dest.password, no_error)

-- What `read_lines_from_file` and `read_first_line_from_file` give: an error, or what was read.
pub data Reading (A : Type 0) : Type 0 where
  failed : Error → Reading A
  contents : A → Reading A

-- From the error and the lines of `read_lines_from_file`, and from the error of `write_lines_to_file`.
abbrev pub error_of : ℕ → Error
error_of e = if e == error_none then no_error else file_error e

abbrev pub reading_of : ℕ × List (List ℕ) → Reading (List (List ℕ))
reading_of (e, lines) = if e == error_none then contents lines else failed (file_error e)

-- The error of `constrain_settings` or of deserialization, once the settings were copied.
abbrev copy_loaded : Settings → Error → Settings × Bool → Settings × Error
copy_loaded dest out (constrained, changed) =
    (copy_all dest constrained dest.password, if changed then incomplete else out)

-- After deserialization: only `incomplete` still applies what was read.
unfoldable pub load_deserialized : Settings → Settings × Error → Settings × Error
load_deserialized dest (read, no_error) = copy_loaded dest no_error (constrain_settings read)
load_deserialized dest (read, incomplete) = copy_loaded dest incomplete (constrain_settings read)
load_deserialized dest (read, unspecific) = (dest, unspecific)
load_deserialized dest (read, memory_allocation) = (dest, memory_allocation)
load_deserialized dest (read, file_error e) = (dest, file_error e)

load_lines : Settings → Settings → Reading (List (List ℕ)) → Run (Settings × Error)
load_lines dest fresh (failed e) = ok (dest, e)
load_lines dest fresh (contents lines) = do
  r ← deserialize_server_settings fresh lines
  ok (load_deserialized dest r)

-- `fresh` is the temporary instance that `create_settings` gives.
unfoldable pub load_server_settings :
    Settings → Option Settings → Reading (List (List ℕ)) → Run (Settings × Error)
unfolding load_lines load_deserialized
load_server_settings dest none file = ok (dest, memory_allocation)
load_server_settings dest (some fresh) file = load_lines dest fresh file

-- `write` is `write_lines_to_file` on the file.
unfoldable pub save_server_settings : (List (List ℕ) → Error) → Settings → Error
save_server_settings write s = write (serialize_server_settings s)

unfoldable pub load_password : Settings → Reading (List ℕ) → Settings × Error
load_password dest (failed e) = (dest, e)
load_password dest (contents password) = (record dest { password = some password }, no_error)

-- What is to be written, or the error.
unfoldable pub save_password : Settings → Reading (List ℕ)
save_password s = elim s.password [ none ↦ failed unspecific | some password ↦ contents password ]

store_port : Settings → Option ℤ → Settings × Error
store_port dest none = (dest, unspecific)
store_port dest (some port) =
    if ltb_ℤ port network_minimum_port || ltb_ℤ network_maximum_port port
    then (dest, unspecific)
    else (record dest { network_port = port }, no_error)

unfoldable pub load_port : Settings → Reading (List ℕ) → Run (Settings × Error)
unfolding store_port
load_port dest (failed e) = ok (dest, e)
load_port dest (contents port_string) = do
  parsed ← parse_int port_string
  ok (store_port dest parsed)

-- What is to be written, or the error.
unfoldable pub save_port : Settings → Reading (List ℕ)
save_port s =
    if ltb_ℤ s.network_port network_minimum_port || ltb_ℤ network_maximum_port s.network_port
    then failed unspecific
    else contents (decimal s.network_port)

unfoldable pub reset_network_settings : Settings → Settings
reset_network_settings s = record s {
  network_interface = default_settings.network_interface;
  network_port = default_settings.network_port;
  network_enable_ipv6 = default_settings.network_enable_ipv6;
}
