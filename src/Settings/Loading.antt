-- ===== src/Settings/Loading.antt =====
-- What loading settings gives (`load_server_settings`, `load_port` and `save_port` of
-- src/settings.c).
use xprc_server_plugin_c.Common.Run.{ok}
use xprc_server_plugin_c.Common.{◌≡◌, Bool, true, false, some, arith, ◌↔◌}
use xprc_server_plugin_c.Text.{decimal, fits}
use xprc_server_plugin_c.Settings.Validation.{
  constrain_settings, constrain_settings-valid, validate_settings, is_port,
}
use xprc_server_plugin_c.Settings.Serialize.{IsSavable, deserialize-serialize, parse_int-decimal}
use xprc_server_plugin_c.Settings.Files.{contents, load_server_settings, load_port, save_port}
use xprc_server_plugin_c.Settings.{Error, no_error, incomplete, Settings, serialize_server_settings}

abbrev applies : Error → Bool
applies no_error = true
applies incomplete = true
applies e = false

-- The password is never loaded. An error but `incomplete` leaves the settings alone; otherwise the
-- settings are what was read, constrained where necessary, and valid.
pub record Loads (dest : Settings) (d r : Settings × Error) : Type 0 where
  pub password : r.0.password ≡ dest.password
  pub aborted : applies r.1 ≡ false → r.0 ≡ dest
  pub loaded : applies r.1 ≡ true → validate_settings r.0 false ≡ true
  pub read :
      applies r.1 ≡ true → r.0 ≡ record (constrain_settings d.0).0 { password = dest.password }
  pub reported : (r.1 ≡ no_error) ↔ ((d.1 ≡ no_error) × (validate_settings d.0 false ≡ true))

-- Loading the lines of the serialization gives valid, savable settings back, but for the password,
-- which stays, and the port, which is that of the temporary instance; no error is reported.
pub load-serialize_server_settings :
    (dest fresh s : Settings)
    → IsSavable s
    → validate_settings s false ≡ true
    → is_port fresh.network_port ≡ true
    → load_server_settings dest (some fresh) (contents (serialize_server_settings s))
      ≡ ok (record s { password = dest.password; network_port = fresh.network_port }, no_error)
unfolding load_server_settings
load-serialize_server_settings dest fresh s savable valid port =
    let read : Settings = record s {
      password = fresh.password;
      network_port = fresh.network_port;
    } in
    let still_valid : validate_settings read false ≡ true =
      unfold validate_settings in ground (arith, valid, port) in
    rw (deserialize-serialize s fresh savable, constrain_settings-valid read still_valid)

-- A valid port is saved in its decimal form, and loading that form sets the port and nothing else.
pub load_port-save_port :
    (s dest : Settings)
    → is_port s.network_port ≡ true
    → (save_port s ≡ contents (decimal s.network_port))
      × (load_port dest (contents (decimal s.network_port))
          ≡ ok (record dest { network_port = s.network_port }, no_error))
unfolding load_port save_port
load_port-save_port s dest h =
    let in_range : fits 32 s.network_port ≡ true = ground arith in
    (ground arith, rw (parse_int-decimal s.network_port in_range) (ground arith))
