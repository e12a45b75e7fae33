-- ===== src/Factory.antt =====
-- src/commands.c: how a command is found and started, and how the server terminates one.
-- A command is a pointer, and `command_at` is what lies there. `find` is what `hashmap_get` gives for
-- the factory's map, and `configuration` the version of what `get_command_configuration` gives.
pub mod Laws
use xprc_server_plugin_c.Common.{ℕ, Option, none, some, List}
use xprc_server_plugin_c.Common.Run.{Run, ok, fault, ◌>>=◌}
use xprc_server_plugin_c.Channels.{Channel, get_channel, write_channel}
use xprc_server_plugin_c.Errors.{error_unspecific}
use xprc_server_plugin_c.Requests.{Request}
use xprc_server_plugin_c.Session.{Session}

-- `create` gets the version of the configuration.
pub record Command : Type 0 where
  pub create : ℕ → Session → Request → Run (ℕ × Session)
  pub terminate : Option ℕ → Session → Run (ℕ × Session)

pub record CommandFactory : Type 0 where
  pub find : List ℕ → Option ℕ
  pub command_at : ℕ → Command
  pub configuration : List ℕ → Option ℕ

-- From the command on, with the channel that it is for.
create_found : CommandFactory → Session → Request → Channel → Option ℕ → Run (ℕ × Session)
create_found factory session request channel none = ok (error_unspecific, session)
create_found factory session request channel (some command) =
    let named = record session {
      channels =
          write_channel session.channels request.channel_id
            (record channel { command = some command });
    } in
    elim (factory.configuration request.command_name) [
      | none ↦ ok (error_unspecific, named)
      | some version ↦ (factory.command_at command).create version named request
    ]

-- The channel is the one that the server has registered under the request's ID.
pub create_command : CommandFactory → Session → Request → Run (ℕ × Session)
create_command factory session request = do
  found ← get_channel session.channels request.channel_id
  elim found [
    | none ↦ fault
    | some channel ↦
        create_found factory session request channel (factory.find request.command_name)
  ]

-- `channel->command->terminate(channel->command_ref)`
pub terminate_command : CommandFactory → Session → Channel → Run (ℕ × Session)
terminate_command factory session channel = elim channel.command [
  | none ↦ fault
  | some command ↦ (factory.command_at command).terminate channel.command_ref session
]
