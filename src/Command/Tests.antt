-- ===== src/Command/Tests.antt =====
-- Uses of the theorems on src/command.c at concrete configurations.
use xprc_server_plugin_c.Common.{◌≡◌, refl, true, some, codes}
use xprc_server_plugin_c.Command.Features.{
  IsConfig, create_command_config-IsConfig, Sets, set_command_feature_flag-Sets,
}
use xprc_server_plugin_c.HashMap.{create_hashmap}
use xprc_server_plugin_c.Command.{CommandConfig, create_command_config, set_command_feature_flag}

abbrev config : CommandConfig
config = record { version = 1; features = create_hashmap }

created : create_command_config 1 ≡ some config
unfolding create_command_config
created = refl

config-IsConfig : IsConfig config
config-IsConfig = ((create_command_config-IsConfig 1).1 config created).0

set_command_feature_flag-Sets_example :
    Sets true config (codes "ts") b'+' (set_command_feature_flag true config (codes "ts") b'+')
set_command_feature_flag-Sets_example =
    set_command_feature_flag-Sets true config (codes "ts") b'+' config-IsConfig

-- A configuration with a flag.
flagged-IsConfig : IsConfig (set_command_feature_flag true config (codes "ts") b'+').2
flagged-IsConfig = flagged_sets.keeps
  where
    flagged_sets :
        Sets true config (codes "ts") b'+' (set_command_feature_flag true config (codes "ts") b'+')
    flagged_sets = set_command_feature_flag-Sets true config (codes "ts") b'+' config-IsConfig
