-- ===== src/Srid/Tests.antt =====
-- A run of the code of src/command_srid.c and a use of its theorem at a concrete session.
use xprc_server_plugin_c.Common.{ℕ, ◌≡◌, refl, Bool, true, false, none, [], arith, is_some, codes}
use xprc_server_plugin_c.Common.Int.{pos}
use xprc_server_plugin_c.Common.Run.{ok}
use xprc_server_plugin_c.Channels.{
  Channel, ChannelState, ChannelsTable, create_channels_table, put_channel,
}
use xprc_server_plugin_c.Channels.Table.{Puts, view, create_channels_table_lem, put_channel-Puts}
use xprc_server_plugin_c.Requests.{Request}
use xprc_server_plugin_c.Server.Handling.{IsKept}
use xprc_server_plugin_c.Session.{Environment, Session}
use xprc_server_plugin_c.Session.Protocol.{is_timely}
use xprc_server_plugin_c.Srid.{Environments, ServerInfo, srid_create}
use xprc_server_plugin_c.Srid.Messages.{AreTimely, srid_create-IsKept}

abbrev info : ServerInfo
info = record {
  server_id = codes "xprc";
  server_name = codes "XPRC";
  server_version = codes "1.0";
  website = [];
  build_id = codes "b1";
  build_ref = [];
  build_time = [];
  build_target = codes "linux";
  xplm_version = pos 411;
  xplane_version = pos 12100;
  api_formatted = true;
  xplane_formatted = false;
}

abbrev lock : Environment
lock = record {
  seen_destruction = false;
  locked = true;
  send = record { clock = pos 1500; allocated = true; network = 0 };
}

abbrev locks : Environments
locks n = (lock, lock)

locks-AreTimely : AreTimely (pos 1000) locks
unfolding AreTimely is_timely
locks-AreTimely = λ n. (refl, refl)

abbrev channel : Channel
channel = record {
  id = 1;
  state = ChannelState.initial;
  destruction_requested = false;
  command = none;
  command_ref = none;
}

put :
    (r : Bool × ChannelsTable) × (put_channel true create_channels_table channel ≡ ok r)
    × Puts true create_channels_table channel r
put = put_channel-Puts true create_channels_table channel (omega arith) create_channels_table_lem.0

abbrev session : Session
session = record {
  reference_millis = pos 1000;
  channels = put.0.1;
  destruction_pending = false;
  held = 1;
  sent = [];
}

registered : is_some (view put.0.1 1) ≡ true
registered =
    let accepted : put.0.0 ≡ true = put.2.accepts refl refl (create_channels_table_lem.1 1) in
    rw (put.2.reads 1, accepted)

abbrev request : Request
request = record { channel_id = 1; command_name = codes "SRID"; options = []; parameters = [] }

srid_create-IsKept_example :
    (r : ℕ × Session) × (srid_create info locks 1 session request ≡ ok r) × IsKept session r.1
srid_create-IsKept_example =
    srid_create-IsKept info locks (pos 1000) locks-AreTimely 1 session request refl put.2.keeps
      (omega arith) (omega arith) registered
