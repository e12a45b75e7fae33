-- ===== src/Server.antt =====
-- src/server.c: the handshake of a session, and the requests that it takes when logged in.
-- A received line is the list of its bytes, and `behind` what the receive buffer holds behind it up
-- to a zero byte. `closing` says that `close_network_connection` was called, and `schedule_held` how
-- often the running thread has the mutex of the task schedule. The commands are an interface.
pub mod Handshake
pub mod Login
pub mod Handling
pub mod Locks
mod Tests
use xprc_server_plugin_c.Common.{
  ℕ, ◌+◌, ◌-◌, ◌*◌, ◌/◌, ◌%◌, ◌^◌, Bool, true, false, ◌&&◌, ◌||◌, not, Option, none, some, List, [],
  ◌∷◌, ◌++◌, ltb, leb, ◌==◌, if◌then◌else◌, get_or, length, drop, replicate, codes, str_eq, is_some,
}
use xprc_server_plugin_c.Common.Int.{ℤ, pos, negsuc, pos_part, neg_part}
use xprc_server_plugin_c.Common.Run.{Run, ok, fault, ◌>>=◌}
use xprc_server_plugin_c.Channels.{
  Channel, ChannelState, ChannelsTable, channel_id_to_string, get_channel, has_channel, put_channel,
  pop_channel,
}
use xprc_server_plugin_c.Errors.{error_none, session_error_invalid_channel_state}
use xprc_server_plugin_c.Requests.{Request, parse_request}
use xprc_server_plugin_c.Session.{
  Environment, SendEnvironment, Session, current_time_reference, error_channel, finish_channel,
  lock_session, millis_since_reference, unlock_session,
}
use xprc_server_plugin_c.Text.{ato, decimal, fits, num_digits, strn_eq}

abbrev pub server_protocol_version : ℕ
server_protocol_version = 1

abbrev pub phase_await_version : ℕ
phase_await_version = 0

abbrev pub phase_await_password : ℕ
phase_await_password = 1

abbrev pub phase_failed : ℕ
phase_failed = 2

abbrev pub phase_logged_in : ℕ
phase_logged_in = 3

abbrev pub handshake_completion_buffer_size : ℕ
handshake_completion_buffer_size = 50

-- A session with its connection and what the running thread has locked.
pub record Client : Type 0 where
  pub session : Session
  pub phase : ℕ
  pub client_version : ℤ
  pub closing : Bool
  pub schedule_held : ℕ

pub record Timespec : Type 0 where
  pub tv_sec : ℤ
  pub tv_nsec : ℕ

unfoldable pub millis_of_timespec : Timespec → ℤ
millis_of_timespec ts = elim ts.tv_sec [
  | pos seconds ↦ pos (seconds * 1000 + ts.tv_nsec / 1000000)
  | negsuc n ↦ negsuc 0
]

-- The commands. Both get the session in which the channel is registered, and give their error and the
-- session that they leave; `create_command` writes the command to the channel in the table.
pub record Commands : Type 0 where
  pub create_command : Session → Request → Run (ℕ × Session)
  pub terminate : Session → Channel → Run (ℕ × Session)

-- The answers to the handling of one line. `reference` is what `timespec_get` gave, `coarse` what
-- `strftime` printed, and `report` is for the message on the channel.
pub record LineEnvironment : Type 0 where
  pub reference : Option Timespec
  pub coarse : Option (List ℕ)
  pub schedule_error : ℕ
  pub lock : Environment
  pub formatted : Bool
  pub channel_allocated : Bool
  pub subtable_allocated : Bool
  pub report : Environment
  pub report_again : Environment

close_network_connection : Client → Client
close_network_connection client = record client { closing = true }

-- A line for `send_to_network`, which takes it if it returns no error.
transmit : LineEnvironment → Client → List ℕ → Client
transmit env client line = record client {
  session = record client.session {
    sent =
        if env.lock.send.network == error_none
        then client.session.sent ++ line ∷ []
        else client.session.sent;
  };
}

pub send_or_close : LineEnvironment → Client → List ℕ → Client
send_or_close env client line =
    if not env.formatted
    then close_network_connection client
    else if env.lock.send.network == error_none
    then transmit env client line
    else close_network_connection (transmit env client line)

channel_name : ℕ → List ℕ
channel_name id = channel_id_to_string id (replicate 4 0)

millis_text : LineEnvironment → Client → List ℕ
millis_text env client = decimal (millis_since_reference env.lock.send client.session)

-- `"-ERR %s %lld <text>\n"`
channel_error_line : LineEnvironment → Client → ℕ → List ℕ → List ℕ
channel_error_line env client id text =
    codes "-ERR "
    ++ (channel_name id ++ (b' ' ∷ millis_text env client ++ (b' ' ∷ text ++ b'\n' ∷ [])))

-- After a command has ended: the channel's removal, unless its last message failed.
remove_channel : Client → ℕ → ℕ → Run Client
remove_channel client id e =
    if not (e == error_none) && not (e == session_error_invalid_channel_state)
    then ok (close_network_connection client)
    else (do
      r ← pop_channel client.session.channels id
      let left = record client { session = record client.session { channels = r.1 } }
      ok (if is_some r.0 then left else close_network_connection left))

after_failure : LineEnvironment → Client → ℕ → Run Client
after_failure env client id = do
  r ←
      error_channel env.report client.session id current_time_reference
        (some (codes "command creation failed"))
  remove_channel (record client { session = r.1 }) id r.0

after_success : LineEnvironment → Client → ℕ → Option Channel → Run Client
after_success env client id none = fault
after_success env client id (some channel) = if is_some channel.command_ref then ok client else (do
  r ← finish_channel env.report env.report_again client.session id current_time_reference none
  remove_channel (record client { session = r.1 }) id r.0)

start_command : Commands → LineEnvironment → Client → Request → Run Client
start_command commands env client request = do
  r ← commands.create_command client.session request
  let after = record client { session = r.1 }
  if not (r.0 == error_none) then after_failure env after request.channel_id else (do
    channel ← get_channel r.1.channels request.channel_id
    after_success env after request.channel_id channel)

abbrev pub new_channel : ℕ → Channel
new_channel id = record {
  id = id;
  state = ChannelState.initial;
  destruction_requested = false;
  command = none;
  command_ref = none;
}

register_channel : Commands → LineEnvironment → Client → Request → Run Client
register_channel commands env client request = do
  r ← put_channel env.subtable_allocated client.session.channels (new_channel request.channel_id)
  let after = record client { session = record client.session { channels = r.1 } }
  if r.0
      then start_command commands env after request
      else ok (
          send_or_close env after
            (channel_error_line env after request.channel_id (codes "channel registration failed")))

accept_request : Commands → LineEnvironment → Client → Request → Bool → Run Client
accept_request commands env client request busy =
    if busy
    then ok (
        send_or_close env client
          (channel_error_line env client request.channel_id (codes "channel busy")))
    else if not env.channel_allocated
    then ok (
        send_or_close env client
          (channel_error_line env client request.channel_id (codes "channel creation failed")))
    else register_channel commands env client request

pub handle_command_request : Commands → LineEnvironment → Client → Request → Run Client
handle_command_request commands env client request = do
  busy ← has_channel client.session.channels request.channel_id
  accept_request commands env client request busy

is_closed : ChannelState → Bool
is_closed ChannelState.initial = false
is_closed ChannelState.confirmed = false
is_closed ChannelState.closed = true

ignore_termination : LineEnvironment → Client → ℕ → Client
ignore_termination env client id = send_or_close env client (
    codes "*ERR "
    ++ (millis_text env client
        ++ (codes " termination request ignored, channel does not exist: "
            ++ (channel_name id ++ b'\n' ∷ []))))

-- The command of a channel that was registered is set: a NULL pointer would be read here.
terminate_channel : Commands → LineEnvironment → Client → ℕ → Channel → Run Client
terminate_channel commands env client id channel =
    let terminated = (do
      r ← commands.terminate client.session channel
      let after = record client { session = r.1 }
      ok (if r.0 == error_none then after else close_network_connection after)) in
    if is_closed channel.state || channel.destruction_requested
    then ok (ignore_termination env client id)
    else if not (is_some channel.command)
    then fault
    else terminated

pub handle_termination_request : Commands → LineEnvironment → Client → Request → Run Client
handle_termination_request commands env client request = do
  channel ← get_channel client.session.channels request.channel_id
  elim channel [
    | none ↦ ok (ignore_termination env client request.channel_id)
    | some c ↦ terminate_channel commands env client request.channel_id c
  ]

-- Under both locks.
serve_request : Commands → LineEnvironment → Client → Request → Run Client
serve_request commands env client request =
    if str_eq (codes "TERM") request.command_name
    then handle_termination_request commands env client request
    else handle_command_request commands env client request

unlock_both : Client → Client
unlock_both client = record client {
  session = unlock_session client.session;
  schedule_held = client.schedule_held - 1;
}

-- If the session cannot be locked, the schedule stays locked.
pub handle_request : Commands → LineEnvironment → Client → Request → Run Client
handle_request commands env client request =
    let scheduled = record client { schedule_held = client.schedule_held + 1 } in
    if not (env.schedule_error == error_none)
    then ok (close_network_connection client)
    else elim (lock_session env.lock client.session) [
      | none ↦ ok (close_network_connection scheduled)
      | some session ↦ (do
        after ← serve_request commands env (record scheduled { session = session }) request
        ok (unlock_both after))
    ]

fail : Client → Client
fail client = close_network_connection (record client { phase = phase_failed })

-- With a message to the client before the connection closes.
fail_with : LineEnvironment → Client → List ℕ → Client
fail_with env client line =
    close_network_connection (transmit env (record client { phase = phase_failed }) line)

receive_version : Client → List ℕ → List ℕ → Run Client
receive_version client behind line =
    let version = ato (drop 1 line ++ behind) in
    if ltb (length line) 2 || not (get_or line 0 0 == b'v')
    then ok (fail client)
    else if not (fits 32 version)
    then fault
    else (do
      digits ← num_digits version
      ok (
          if not (digits == length line - 1)
          then fail (record client { client_version = version })
          else record client { client_version = version; phase = phase_await_password }))

internal_server_error : List ℕ
internal_server_error = codes "v1;ERR:internal server error\n"

-- Three digits at least.
padded : ℕ → List ℕ
padded n = replicate (3 - length (decimal (pos n))) b'0' ++ decimal (pos n)

pub handshake_completion : List ℕ → ℕ → List ℕ
handshake_completion coarse millis =
    codes "v1;OK;" ++ (coarse ++ (b'.' ∷ padded millis ++ codes "+00:00\n"))

complete_handshake : LineEnvironment → Client → Timespec → List ℕ → Client
complete_handshake env client reference coarse =
    let line = handshake_completion coarse (reference.tv_nsec / 1000000) in
    let sent = transmit env client line in
    if leb handshake_completion_buffer_size (length line)
    then fail_with env client internal_server_error
    else if not (env.lock.send.network == error_none)
    then fail sent
    else record sent { phase = phase_logged_in }

set_reference : LineEnvironment → Client → Option Timespec → Option (List ℕ) → Client
set_reference env client none coarse = fail_with env client internal_server_error
set_reference env client (some reference) coarse =
    let millis = millis_of_timespec reference in
    let after = record client { session = record client.session { reference_millis = millis } } in
    if ltb 0 (neg_part millis) then fail_with env after internal_server_error else elim coarse [
      | none ↦ fail_with env after internal_server_error
      | some text ↦ complete_handshake env after reference text
    ]

is_supported : ℤ → Bool
is_supported version = pos_part version == server_protocol_version

receive_password : LineEnvironment → List ℕ → Client → List ℕ → Client
receive_password env password client line =
    if ltb (length line) 1
    then fail client
    else if not (length line == length password) || not (strn_eq (length password) line password)
    then fail client
    else if not (is_supported client.client_version)
    then fail_with env client (codes "v1;ERR:unsupported protocol version\n")
    else set_reference env client env.reference env.coarse

receive_request : Commands → LineEnvironment → Client → List ℕ → List ℕ → Run Client
receive_request commands env client behind line = elim (parse_request behind line) [
  | xprc_server_plugin_c.Requests.err e ↦ ok (
      send_or_close env client
        (codes "*ERR " ++ (millis_text env client ++ codes " invalid syntax\n")))
  | xprc_server_plugin_c.Requests.ok request ↦ handle_request commands env client request
]

-- `password` is that of the server's configuration.
pub on_line_received : Commands → LineEnvironment → List ℕ → Client → List ℕ → List ℕ → Run Client
on_line_received commands env password client behind line =
    if client.phase == phase_logged_in
    then receive_request commands env client behind line
    else if client.phase == phase_failed
    then ok client
    else if client.phase == phase_await_version
    then receive_version client behind line
    else if client.phase == phase_await_password
    then ok (receive_password env password client line)
    else ok (record client { phase = phase_failed })
