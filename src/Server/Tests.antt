-- ===== src/Server/Tests.antt =====
-- Runs of the code of src/server.c and uses of its theorems at a concrete connection.
use xprc_server_plugin_c.Common.{
  ℕ, ◌+◌, ◌*◌, ◌/◌, ◌≡◌, ◌≢◌, ◌⊎◌, refl, arith, true, false, none, some, List, [], ◌∷◌, ◌++◌,
  is_some, codes, str_eq, if◌then◌else◌,
}
use xprc_server_plugin_c.Common.Int.{pos}
use xprc_server_plugin_c.Common.Run.{ok}
use xprc_server_plugin_c.Channels.{create_channels_table}
use xprc_server_plugin_c.Channels.Table.{view, create_channels_table_lem}
use xprc_server_plugin_c.Requests.{Request}
use xprc_server_plugin_c.Factory.{CommandFactory}
use xprc_server_plugin_c.Factory.Laws.{commands_of, commands_of-AreWellBehaved}
use xprc_server_plugin_c.Session.{Environment}
use xprc_server_plugin_c.Session.Protocol.{is_timely}
use xprc_server_plugin_c.Srid.{Environments, ServerInfo}
use xprc_server_plugin_c.Srid.Messages.{AreTimely, command_srid, command_srid-IsKeeping}
use xprc_server_plugin_c.Server.{
  Client, Commands, LineEnvironment, handle_command_request, handle_request, handshake_completion,
  on_line_received, phase_await_version, phase_logged_in,
}
use xprc_server_plugin_c.Server.Handling.{
  AreWellBehaved, HasCommand, IsTimely, Keeps, handle_command_request-Keeps,
}
use xprc_server_plugin_c.Server.Handshake.{IsAuthenticated, Received, Received-IsAuthenticated}
use xprc_server_plugin_c.Server.Locks.{Locks, handle_request-Locks}
use xprc_server_plugin_c.Server.Login.{on_line_received-logs_in}

abbrev start : Client
start = record {
  session = record {
    reference_millis = pos 0;
    channels = create_channels_table;
    destruction_pending = false;
    held = 0;
    sent = [];
  };
  phase = phase_await_version;
  client_version = pos 0;
  closing = false;
  schedule_held = 0;
}

abbrev lock : Environment
lock = record {
  seen_destruction = false;
  locked = true;
  send = record { clock = pos 1500; allocated = true; network = 0 };
}

abbrev env : LineEnvironment
env = record {
  reference = some (record { tv_sec = pos 1; tv_nsec = 500000000 });
  coarse = some (codes "1970-01-01T00:00:01");
  schedule_error = 0;
  lock = lock;
  formatted = true;
  channel_allocated = true;
  subtable_allocated = true;
  report = lock;
  report_again = lock;
}

-- The server's commands as far as they are modelled: SRID, whose configuration is version 1.
abbrev info : ServerInfo
info = record {
  server_id = codes "xprc";
  server_name = codes "XPRC";
  server_version = codes "1.0";
  website = [];
  build_id = codes "b1";
  build_ref = [];
  build_time = [];
  build_target = codes "linux";
  xplm_version = pos 411;
  xplane_version = pos 12100;
  api_formatted = true;
  xplane_formatted = true;
}

abbrev locks : Environments
locks n = (lock, lock)

locks-AreTimely : AreTimely (pos 0) locks
unfolding AreTimely is_timely
locks-AreTimely = λ n. (refl, refl)

abbrev factory : CommandFactory
factory = record {
  find = λ name. if str_eq name (codes "SRID") then some 1 else none;
  command_at = λ pointer. command_srid info locks (pos 0) locks-AreTimely;
  configuration = λ name. some 1;
}

abbrev commands : Commands
commands = commands_of factory

commands-AreWellBehaved : AreWellBehaved (pos 0) commands
commands-AreWellBehaved =
    commands_of-AreWellBehaved (pos 0) factory
      (λ pointer. command_srid-IsKeeping info locks (pos 0) locks-AreTimely)

env-IsTimely : IsTimely (pos 0) env
unfolding is_timely
env-IsTimely = record { report = refl; report_again = refl }

abbrev password : List ℕ
password = codes "abcABC12-"

logged :
    (greeted after : Client) × (on_line_received commands env password start [] (codes "v1")
      ≡ ok greeted)
    × (on_line_received commands env password greeted [] password ≡ ok after)
    × (after.phase ≡ phase_logged_in)
    × (after.closing ≡ start.closing)
    × (after.session.reference_millis ≡ pos (1 * 1000 + 500000000 / 1000000))
    × (after.session.sent
        ≡ [] ++ handshake_completion (codes "1970-01-01T00:00:01") (500000000 / 1000000) ∷ [])
logged =
    on_line_received-logs_in env password (codes "1970-01-01T00:00:01") 1 500000000 (omega arith)
      refl (omega arith) refl (omega arith) refl commands env start [] refl

on_line_received-logs_in_example :
    (greeted after : Client) × (on_line_received commands env password start [] (codes "v1")
      ≡ ok greeted)
    × (on_line_received commands env password greeted [] password ≡ ok after)
    × (after.phase ≡ phase_logged_in)
    × (after.closing ≡ start.closing)
    × (after.session.reference_millis ≡ pos (1 * 1000 + 500000000 / 1000000))
    × (after.session.sent
        ≡ [] ++ handshake_completion (codes "1970-01-01T00:00:01") (500000000 / 1000000) ∷ [])
on_line_received-logs_in_example =
    on_line_received-logs_in env password (codes "1970-01-01T00:00:01") 1 500000000 (omega arith)
      refl (omega arith) refl (omega arith) refl commands env start [] refl

Received-IsAuthenticated_example :
    IsAuthenticated password (codes "v1" ∷ password ∷ [])
    ⊎ ((logged.1.phase ≢ phase_logged_in) × (logged.1.session.channels ≡ start.session.channels))
Received-IsAuthenticated_example =
    Received-IsAuthenticated commands password start logged.1 (codes "v1" ∷ password ∷ []) refl (
      Received.received (codes "v1" ∷ []) logged.0 logged.1 env [] password
        (Received.received [] start logged.0 env [] (codes "v1") Received.connected (λ e. refl)
          logged.2)
        (λ e. refl) logged.3)

abbrev request : Request
request = record { channel_id = 1; command_name = codes "SRID"; options = []; parameters = [] }

handle_command_request-Keeps_example :
    (after : Client) × (handle_command_request commands env start request ≡ ok after)
    × Keeps 1 start after
    × (((view start.session.channels 1 ≡ none) × HasCommand after 1)
        ⊎ ((is_some (view start.session.channels 1) ≡ true)
            × (after.session.channels ≡ start.session.channels)))
handle_command_request-Keeps_example =
    handle_command_request-Keeps request (omega arith) (omega arith) (pos 0) commands
      commands-AreWellBehaved env env-IsTimely start create_channels_table_lem.0 refl

handle_request-Locks_example :
    (after : Client) × (handle_request commands env start request ≡ ok after)
    × Locks env start after
handle_request-Locks_example =
    handle_request-Locks (pos 0) commands commands-AreWellBehaved env env-IsTimely request
      (omega arith) (omega arith) start create_channels_table_lem.0
      (λ channel here. absurd (let nothing = create_channels_table_lem.1 1 in cc)) refl
