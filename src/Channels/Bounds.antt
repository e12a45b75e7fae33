-- ===== src/Channels/Bounds.antt =====
-- Which channel names address the table of src/channels.h inside its bounds.
use xprc_server_plugin_c.Common.{ℕ, ◌/◌, ◌≤◌, ◌<◌, ◌≡◌, ◌≢◌, List, arith, get_or, Bool, false, ◌⊎◌}
use xprc_server_plugin_c.Common.Run.{ok, fault}
use xprc_server_plugin_c.Channels.RoundTrip.{IsChannelName, string_to_channel_id-IsChannelId}
use xprc_server_plugin_c.Channels.Table.{InTable, view, get_channel-view}
use xprc_server_plugin_c.Channels.{
  Channel, ChannelsTable, bad_channel_id, channels_num_subtables, char_to_channel_id_segment,
  string_to_channel_id, channel_table_address, read_subtable, get_channel, pop_channel, put_channel,
}

-- A channel name whose first character is none of 6 to 9 gives an ID inside the table, and looking
-- it up reads the map.
pub get_channel_in_bounds :
    (table : ChannelsTable) (s : List ℕ)
    → IsChannelName s
    → (get_or s 0 0 < b'6') ⊎ (b'9' < get_or s 0 0)
    → InTable (string_to_channel_id s)
      × (get_channel table (string_to_channel_id s) ≡ ok (view table (string_to_channel_id s)))
get_channel_in_bounds table s name first =
    let (proper, e) = string_to_channel_id-IsChannelId s name in
    let below : char_to_channel_id_segment (get_or s 0 0) < 58 =
      unfold char_to_channel_id_segment in ground (arith, name.0) in
    let within : InTable (string_to_channel_id s) = omega arith in
    (within, get_channel-view table (string_to_channel_id s) within)

read_subtable-fault :
    (table : ChannelsTable) (id : ℕ)
    → channels_num_subtables ≤ id / 64
    → read_subtable table (channel_table_address id) ≡ fault
unfolding read_subtable channel_table_address
read_subtable-fault table id h = ground arith

-- A name that begins with 7, 8 or 9 is accepted as a channel ID, and every access under it to a
-- table that is not being destroyed reads outside the array of subtables.
pub get_channel_out_of_bounds :
    (allocated : Bool) (table : ChannelsTable) (channel : Channel) (s : List ℕ)
    → IsChannelName s
    → b'7' ≤ get_or s 0 0
    → get_or s 0 0 ≤ b'9'
    → table.destruction_pending ≡ false
    → channel.id ≡ string_to_channel_id s
    → (string_to_channel_id s ≢ bad_channel_id)
      × (get_channel table channel.id ≡ fault)
      × (pop_channel table channel.id ≡ fault)
      × (put_channel allocated table channel ≡ fault)
get_channel_out_of_bounds allocated table channel s name low high live same =
    let (proper, e) = string_to_channel_id-IsChannelId s name in
    let accepted : string_to_channel_id s ≢ bad_channel_id =
      λ refused. omega (arith, proper, refused) in
    let above : 59 ≤ char_to_channel_id_segment (get_or s 0 0) =
      unfold char_to_channel_id_segment in ground arith in
    let beyond : channels_num_subtables ≤ channel.id / 64 = omega (arith, same) in
    let missing = read_subtable-fault table channel.id beyond in
    (
      accepted,
      (unfold get_channel in rw missing),
      (unfold pop_channel in rw missing),
      (unfold put_channel in simp live (rw missing)),
    )
