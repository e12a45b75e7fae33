-- ===== src/Channels/Tests.antt =====
-- Runs of the code of src/channels.c and uses of its theorems at concrete channels.
use xprc_server_plugin_c.Common.Run.{ok, fault}
use xprc_server_plugin_c.Common.{
  ℕ, ◌≡◌, ◌≢◌, refl, Bool, true, false, Option, some, [], codes, arith, inl, inr,
}
use xprc_server_plugin_c.Channels.RoundTrip.{IsChannelName, to_string-to_channel_id}
use xprc_server_plugin_c.Channels.Table.{
  Pops, Puts, pop_channel-Pops, put_channel-Puts, create_channels_table_lem,
}
use xprc_server_plugin_c.Channels.Bounds.{get_channel_out_of_bounds}
use xprc_server_plugin_c.Channels.{
  Channel, ChannelState, ChannelsTable, string_to_channel_id, channel_id_to_string, bad_channel_id,
  create_channels_table, get_channel, pop_channel, put_channel,
}

first_id : string_to_channel_id (codes "aaab") ≡ 1
unfolding string_to_channel_id
first_id = refl

bad_name : string_to_channel_id (codes "a-ab") ≡ bad_channel_id
unfolding string_to_channel_id
bad_name = refl

id_name : channel_id_to_string 1 (codes "____") ≡ codes "aaab"
unfolding channel_id_to_string
id_name = refl

-- The channel of an ID that has a command.
abbrev channel : ℕ → Channel
channel id = record {
  id = id;
  state = ChannelState.initial;
  destruction_requested = false;
  command = some 1;
  command_ref = some 2;
}

to_string-to_channel_id_example :
    channel_id_to_string (string_to_channel_id (codes "aZ09")) (codes "____") ≡ codes "aZ09"
to_string-to_channel_id_example =
    to_string-to_channel_id b'a' b'Z' b'0' b'9' b'_' b'_' b'_' b'_' [] []
      (inl (omega arith, omega arith)) (inr (inl (omega arith, omega arith)))
      (inr (inr (omega arith, omega arith))) (inr (inr (omega arith, omega arith)))

put_channel-Puts_example :
    (r : Bool × ChannelsTable) × (put_channel true create_channels_table (channel 4097) ≡ ok r)
    × Puts true create_channels_table (channel 4097) r
put_channel-Puts_example =
    put_channel-Puts true create_channels_table (channel 4097) (omega arith)
      create_channels_table_lem.0

pop_channel-Pops_example :
    (r : Option Channel × ChannelsTable) × (pop_channel create_channels_table 4097 ≡ ok r)
    × Pops create_channels_table 4097 r
pop_channel-Pops_example =
    pop_channel-Pops create_channels_table 4097 (omega arith) create_channels_table_lem.0

seven_IsChannelName : IsChannelName (codes "7aaa")
seven_IsChannelName = (
  inr (inr (omega arith, omega arith)),
  inl (omega arith, omega arith),
  inl (omega arith, omega arith),
  inl (omega arith, omega arith),
)

get_channel_out_of_bounds_example :
    (string_to_channel_id (codes "7aaa") ≢ bad_channel_id)
    × (get_channel create_channels_table (string_to_channel_id (codes "7aaa")) ≡ fault)
    × (pop_channel create_channels_table (string_to_channel_id (codes "7aaa")) ≡ fault)
    × (put_channel true create_channels_table (channel (string_to_channel_id (codes "7aaa")))
        ≡ fault)
get_channel_out_of_bounds_example =
    get_channel_out_of_bounds true create_channels_table
      (channel (string_to_channel_id (codes "7aaa"))) (codes "7aaa") seven_IsChannelName
      (omega arith) (omega arith) refl refl
