-- ===== src/Settings/Validation.antt =====
-- Validation of settings: `validate_settings` and `constrain_settings` of src/settings.c.
use xprc_server_plugin_c.Common.Int.{ℤ, pos, negsuc, ltb_ℤ}
use xprc_server_plugin_c.Common.{
  ℕ, ◌≡◌, Bool, true, false, ◌&&◌, ◌||◌, not, Option, none, some, List, arith, ◌==◌, if◌then◌else◌,
}
use xprc_server_plugin_c.Password.{validate_password}
use xprc_server_plugin_c.Settings.{Settings}

abbrev pub network_minimum_port : ℤ
network_minimum_port = pos 1024

abbrev pub network_maximum_port : ℤ
network_maximum_port = pos 65535

abbrev pub default_log_level : ℤ
default_log_level = pos 60

unfoldable pub validate_log_level : ℤ → Bool
validate_log_level (pos n) = n == 20 || n == 40 || n == 60 || n == 80 || n == 100
validate_log_level (negsuc n) = false

abbrev pub is_port : ℤ → Bool
is_port port = not (ltb_ℤ port network_minimum_port || ltb_ℤ network_maximum_port port)

abbrev password_holds : Option (List ℕ) → Bool
password_holds none = false
password_holds (some password) = validate_password password

unfoldable pub validate_settings : Settings → Bool → Bool
validate_settings s check_password =
    if check_password && not (password_holds s.password)
    then false
    else if not (validate_log_level s.log_level_console)
    then false
    else if not (validate_log_level s.log_level_xplane)
    then false
    else is_port s.network_port

constrain_minimum : Settings × Bool → Settings × Bool
constrain_minimum (s, changed) =
    if ltb_ℤ s.network_port network_minimum_port
    then (record s { network_port = network_minimum_port }, true)
    else (s, changed)

constrain_maximum : Settings × Bool → Settings × Bool
constrain_maximum (s, changed) =
    if ltb_ℤ network_maximum_port s.network_port
    then (record s { network_port = network_maximum_port }, true)
    else (s, changed)

constrain_console : Settings × Bool → Settings × Bool
constrain_console (s, changed) =
    if validate_log_level s.log_level_console
    then (s, changed)
    else (record s { log_level_console = default_log_level }, true)

constrain_xplane : Settings × Bool → Settings × Bool
constrain_xplane (s, changed) =
    if validate_log_level s.log_level_xplane
    then (s, changed)
    else (record s { log_level_xplane = default_log_level }, true)

-- The settings, and whether any had to be changed.
unfoldable pub constrain_settings : Settings → Settings × Bool
unfolding constrain_minimum constrain_maximum constrain_console constrain_xplane
constrain_settings s =
    constrain_xplane (constrain_console (constrain_maximum (constrain_minimum (s, false))))

-- Constraining gives settings that pass validation without the password, leaves the other members
-- alone, reports a change exactly if the settings did not pass before, and then changes nothing.
pub record Constrains (s : Settings) (r : Settings × Bool) : Type 0 where
  pub valid : validate_settings r.0 false ≡ true
  pub reported : r.1 ≡ not (validate_settings s false)
  pub unchanged : r.1 ≡ false → r.0 ≡ s
  pub password : r.0.password ≡ s.password
  pub network_interface : r.0.network_interface ≡ s.network_interface
  pub auto_startup : r.0.auto_startup ≡ s.auto_startup
  pub auto_regen_password : r.0.auto_regen_password ≡ s.auto_regen_password
  pub network_enable_ipv6 : r.0.network_enable_ipv6 ≡ s.network_enable_ipv6

-- Valid settings stay as they are.
pub constrain_settings-valid :
    (s : Settings) → validate_settings s false ≡ true → constrain_settings s ≡ (s, false)
unfolding constrain_settings validate_settings
constrain_settings-valid s h = ground (arith, h)
