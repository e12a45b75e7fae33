-- ===== src/Channels.antt =====
-- src/channels.c and src/channels.h: channel IDs, and the two-level table of open channels.
-- A `channel_id_t` is a 32-bit number of four 6-bit segments. The table is an array of
-- `CHANNELS_NUM_SUBTABLES` pointers to subtables of `CHANNELS_SEGMENT` pointers; an access outside
-- one of these arrays is the result `fault`.
use xprc_server_plugin_c.Common.{
  ℕ, zero, suc, ◌+◌, ◌-◌, ◌*◌, ◌/◌, ◌%◌, ◌^◌, Bool, true, false, ◌&&◌, ◌||◌, Option, none, some,
  List, [], ◌∷◌, ltb, leb, ◌==◌, if◌then◌else◌, is_some, get_or, set, length, replicate, bit_or,
  bit_and,
}
use xprc_server_plugin_c.Common.Run.{Run, ok, fault, ◌>>=◌}
pub mod RoundTrip
pub mod Table
pub mod Bounds
mod Tests

abbrev pub bad_channel_id_segment : ℕ
bad_channel_id_segment = 0xff

abbrev pub bad_channel_id : ℕ
bad_channel_id = 0xffff_ffff

abbrev pub channels_segment : ℕ
channels_segment = 62

abbrev pub channels_num_subtables : ℕ
channels_num_subtables = channels_segment * channels_segment * channels_segment

unfoldable pub char_to_channel_id_segment : ℕ → ℕ
char_to_channel_id_segment ch =
    if leb b'a' ch && leb ch b'z'
    then ch - b'a'
    else if leb b'A' ch && leb ch b'Z'
    then ch - b'A' + 26
    else if leb b'0' ch && leb ch b'9'
    then ch - b'0' + 52
    else bad_channel_id_segment

unfoldable pub channel_id_segment_to_char : ℕ → ℕ
channel_id_segment_to_char segment =
    if ltb segment 26
    then b'a' + segment
    else if ltb segment 52
    then b'A' + segment - 26
    else if ltb segment 62
    then b'0' + segment - 52
    else b'_'

-- The loop over `i`, with the rounds left. The string ends in a zero byte, at which it stops.
string_to_channel_id_loop : ℕ → ℕ → ℕ → List ℕ → ℕ
string_to_channel_id_loop zero i id s = id
string_to_channel_id_loop (suc n) i id s =
    let segment = char_to_channel_id_segment (get_or s i 0) in
    let rest = string_to_channel_id_loop n (i + 1) (bit_or (id * 64 % 2 ^ 32) segment) s in
    if segment == bad_channel_id_segment then bad_channel_id else rest

unfoldable pub string_to_channel_id : List ℕ → ℕ
unfolding string_to_channel_id_loop char_to_channel_id_segment
string_to_channel_id s = string_to_channel_id_loop 4 0 0 s

-- The loop from `i = 3` down to 0; the first argument is `i + 1`.
channel_id_to_string_loop : ℕ → ℕ → List ℕ → List ℕ
channel_id_to_string_loop zero id destination = destination
channel_id_to_string_loop (suc i) id destination =
    channel_id_to_string_loop i (id / 64)
      (set destination i (channel_id_segment_to_char (bit_and id 0b00111111)))

unfoldable pub channel_id_to_string : ℕ → List ℕ → List ℕ
unfolding channel_id_to_string_loop channel_id_segment_to_char
channel_id_to_string id destination = channel_id_to_string_loop 4 id destination

unfoldable pub channel_table_address : ℕ → ℕ
channel_table_address id = id / 64

unfoldable pub channel_subtable_address : ℕ → ℕ
channel_subtable_address id = bit_and id 0b00111111

pub data ChannelState : Type 0 where
  initial confirmed closed : ChannelState

-- `command` and `command_ref` are pointers, `none` for NULL.
pub record Channel : Type 0 where
  pub id : ℕ
  pub state : ChannelState
  pub destruction_requested : Bool
  pub command : Option ℕ
  pub command_ref : Option ℕ

abbrev pub ChannelsSubtable : Type 0
ChannelsSubtable = List (Option Channel)

pub record ChannelsTable : Type 0 where
  pub destruction_pending : Bool
  pub subtables : ℕ → Option ChannelsSubtable

-- The zeroed memory that `zmalloc` returns.
abbrev pub create_channels_table : ChannelsTable
create_channels_table = record { destruction_pending = false; subtables = λ a. none }

abbrev pub empty_subtable : ChannelsSubtable
empty_subtable = replicate channels_segment none

-- `table->subtables[a]`
read_subtable : ChannelsTable → ℕ → Run (Option ChannelsSubtable)
read_subtable table a = if ltb a channels_num_subtables then ok (table.subtables a) else fault

-- `table->subtables[a] = subtable`, at an address that has been read
write_subtable : ChannelsTable → ℕ → Option ChannelsSubtable → ChannelsTable
write_subtable table a subtable = record table {
  subtables = λ b. if a == b then subtable else table.subtables b;
}

-- `subtable->channels[i]`
read_channel : ChannelsSubtable → ℕ → Run (Option Channel)
read_channel subtable i = if ltb i channels_segment then ok (get_or subtable i none) else fault

get_channel_in : Option ChannelsSubtable → ℕ → Run (Option Channel)
get_channel_in none id = ok none
get_channel_in (some subtable) id = read_channel subtable (channel_subtable_address id)

unfoldable pub get_channel : ChannelsTable → ℕ → Run (Option Channel)
unfolding get_channel_in read_subtable read_channel channel_table_address channel_subtable_address
get_channel table id = do
  subtable ← read_subtable table (channel_table_address id)
  get_channel_in subtable id

unfoldable pub has_channel : ChannelsTable → ℕ → Run Bool
unfolding get_channel
has_channel table id = do channel ← get_channel table id; ok (is_some channel)

-- The loop that looks for a channel that is left.
unfoldable pub is_empty_subtable : ChannelsSubtable → Bool
is_empty_subtable [] = true
is_empty_subtable (none ∷ cs) = is_empty_subtable cs
is_empty_subtable (some c ∷ cs) = false

pop_channel_in : ChannelsTable → Option ChannelsSubtable → ℕ → Run (Option Channel × ChannelsTable)
pop_channel_in table none id = ok (none, table)
pop_channel_in table (some subtable) id = do
  channel ← read_channel subtable (channel_subtable_address id)
  let cleared = set subtable (channel_subtable_address id) none
  ok (
    channel,
    write_subtable table (channel_table_address id)
        (if is_empty_subtable cleared then none else some cleared),
  )

-- The channel that was registered, and the table without it. A subtable that falls empty is freed.
unfoldable pub pop_channel : ChannelsTable → ℕ → Run (Option Channel × ChannelsTable)
unfolding pop_channel_in is_empty_subtable read_subtable write_subtable read_channel
    channel_table_address channel_subtable_address
pop_channel table id = do
  subtable ← read_subtable table (channel_table_address id)
  pop_channel_in table subtable id

put_channel_in : ChannelsTable → ChannelsSubtable → Channel → Run (Bool × ChannelsTable)
put_channel_in table subtable channel = do
  old ← read_channel subtable (channel_subtable_address channel.id)
  ok (
      if is_some old then (false, table) else (
        true,
        write_subtable table (channel_table_address channel.id)
            (some (set subtable (channel_subtable_address channel.id) (some channel))),
      ))

-- `allocated` says whether `zmalloc` gives memory for a subtable, if one is needed.
put_channel_at :
    Bool → ChannelsTable → Option ChannelsSubtable → Channel → Run (Bool × ChannelsTable)
put_channel_at allocated table (some subtable) channel = put_channel_in table subtable channel
put_channel_at false table none channel = ok (false, table)
put_channel_at true table none channel =
    put_channel_in (write_subtable table (channel_table_address channel.id) (some empty_subtable))
      empty_subtable channel

unfoldable pub put_channel : Bool → ChannelsTable → Channel → Run (Bool × ChannelsTable)
unfolding put_channel_at put_channel_in read_subtable write_subtable read_channel
    channel_table_address channel_subtable_address
put_channel allocated table channel = if table.destruction_pending then ok (false, table) else (do
  subtable ← read_subtable table (channel_table_address channel.id)
  put_channel_at allocated table subtable channel)

set_slot : ℕ → Channel → Option ChannelsSubtable → Option ChannelsSubtable
set_slot id channel none = none
set_slot id channel (some subtable) =
    some (set subtable (channel_subtable_address id) (some channel))

-- A write to a channel through the pointer that the table holds at the ID.
unfoldable pub write_channel : ChannelsTable → ℕ → Channel → ChannelsTable
unfolding set_slot write_subtable channel_table_address channel_subtable_address
write_channel table id channel =
    write_subtable table (channel_table_address id)
      (set_slot id channel (table.subtables (channel_table_address id)))

request_destruction_of : ChannelsTable → ℕ → Option Channel → ChannelsTable
request_destruction_of table id none = table
request_destruction_of table id (some channel) =
    write_channel table id (record channel { destruction_requested = true })

unfoldable pub request_channel_destruction : ChannelsTable → ℕ → Run ChannelsTable
unfolding request_destruction_of write_channel get_channel
request_channel_destruction table id = do
  channel ← get_channel table id
  ok (request_destruction_of table id channel)
