-- ===== src/Command.antt =====
-- src/command.c and src/command.h: feature states and the configuration of a command.
-- A state is its character; `COMMAND_FEATURE_STATE_NONE` is 0. The configuration keeps the states as
-- the values of a hash table, where a missing key reads as NULL, which is 0.
pub mod Features
mod Tests
use xprc_server_plugin_c.Common.{
  ℕ, zero, suc, Bool, true, false, ◌||◌, not, Option, none, some, List, ◌==◌, if◌then◌else◌,
  is_some,
}
use xprc_server_plugin_c.HashMap.{
  Hashmap, HashmapItem, create_hashmap, hashmap_get, hashmap_put, is_hashmap_empty,
  hashmap_find_first, hashmap_reference_keys,
}
use xprc_server_plugin_c.Settings.{Error, no_error, unspecific}

abbrev pub state_enabled_default : ℕ
state_enabled_default = b'*'

abbrev pub state_disabled_default : ℕ
state_disabled_default = b'?'

abbrev pub state_enabled_client : ℕ
state_enabled_client = b'+'

abbrev pub state_disabled_client : ℕ
state_disabled_client = b'-'

abbrev pub state_unavailable : ℕ
state_unavailable = b'/'

abbrev pub state_enabled_always : ℕ
state_enabled_always = b' '

abbrev pub state_none : ℕ
state_none = 0

abbrev pub state_enable : ℕ
state_enable = state_enabled_client

abbrev pub state_disable : ℕ
state_disable = state_disabled_client

abbrev pub state_enable_only_if_possible : ℕ
state_enable_only_if_possible = b'*'

abbrev pub state_disable_only_if_possible : ℕ
state_disable_only_if_possible = b'/'

unfoldable pub is_command_feature_actually_enabled : ℕ → Bool
is_command_feature_actually_enabled state =
    state == state_enabled_always || state == state_enabled_client || state == state_enabled_default

unfoldable pub is_command_feature_actually_disabled : ℕ → Bool
is_command_feature_actually_disabled state =
    state == state_disabled_client || state == state_disabled_default || state == state_unavailable

unfoldable pub is_command_feature_requested_enabled : ℕ → Bool
is_command_feature_requested_enabled state =
    state == state_enable || state == state_enable_only_if_possible

unfoldable pub is_command_feature_requested_disabled : ℕ → Bool
is_command_feature_requested_disabled state =
    state == state_disable || state == state_disable_only_if_possible

unfoldable pub is_command_feature_requested_optionally : ℕ → Bool
is_command_feature_requested_optionally state =
    state == state_enable_only_if_possible || state == state_disable_only_if_possible

unfoldable pub is_command_feature_requested_mandatory : ℕ → Bool
is_command_feature_requested_mandatory state = state == state_enable || state == state_disable

unfoldable pub is_valid_feature_state : ℕ → Bool
is_valid_feature_state state =
    state == state_enable
    || state == state_disable
    || state == state_enable_only_if_possible
    || state == state_disable_only_if_possible
    || state == state_enabled_default
    || state == state_disabled_default
    || state == state_enabled_client
    || state == state_disabled_client
    || state == state_unavailable
    || state == state_enabled_always

pub record CommandConfig : Type 0 where
  pub version : ℕ
  pub features : Hashmap ℕ

-- Where there is memory; `version` is a `uint16_t`.
unfoldable pub create_command_config : ℕ → Option CommandConfig
create_command_config zero = none
create_command_config (suc v) = some (record { version = suc v; features = create_hashmap })

-- NULL reads as `COMMAND_FEATURE_STATE_NONE`.
abbrev pub state_or_none : Option ℕ → ℕ
state_or_none none = state_none
state_or_none (some state) = state

unfoldable pub get_command_feature_state : CommandConfig → List ℕ → ℕ
get_command_feature_state config name = state_or_none (hashmap_get config.features name)

-- The error, `previous_state` where it was written, and the configuration afterwards. `allocated`
-- tells whether the table gets memory for a new item.
unfoldable pub set_command_feature_flag :
    Bool → CommandConfig → List ℕ → ℕ → Error × Option ℕ × CommandConfig
set_command_feature_flag allocated config name state =
    let (done, old, features) = hashmap_put allocated config.features name state in
    if not (is_valid_feature_state state)
    then (unspecific, none, config)
    else if not done
    then (unspecific, none, record config { features = features })
    else (no_error, some (state_or_none old), record config { features = features })

unfoldable pub add_command_feature_flag : Bool → CommandConfig → List ℕ → ℕ → Error × CommandConfig
add_command_feature_flag allocated config name state =
    let (e, previous, config') = set_command_feature_flag allocated config name state in
    if not (is_valid_feature_state state)
    then (unspecific, config)
    else if not (get_command_feature_state config name == state_none)
    then (unspecific, config)
    else (e, config')

unfoldable pub has_command_feature_flags : CommandConfig → Bool
has_command_feature_flags config = not (is_hashmap_empty config.features)

unfoldable pub parameter_has_mandatory_feature_request : HashmapItem ℕ → Bool
parameter_has_mandatory_feature_request item = is_command_feature_requested_mandatory item.value

unfoldable pub has_mandatory_command_feature_request : CommandConfig → Bool
unfolding parameter_has_mandatory_feature_request
has_mandatory_command_feature_request config =
    is_some (hashmap_find_first config.features parameter_has_mandatory_feature_request)

unfoldable pub reference_feature_flag_names : CommandConfig → List (List ℕ)
reference_feature_flag_names config = hashmap_reference_keys config.features
