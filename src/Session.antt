-- ===== src/Session.antt =====
-- src/session.c and src/session.h: the messages that a session sends on its channels.
-- The mutex is recursive; `held` counts how often the running thread has it. Every write is under
-- it, so an operation is one step on the state. A read outside it, the mutex's, the clock's, the
-- allocator's and the network's answers are in the environment of a call. `sent` is the sequence of
-- lines that `send_to_network` took, which it does if it returns no error. A message is the bytes up to its zero byte, `none`
-- for NULL, and below 2^31 bytes long.
pub mod Encoding
pub mod Operations
pub mod Protocol
mod Tests
use xprc_server_plugin_c.Common.{
  ℕ, ◌+◌, ◌-◌, ◌*◌, ◌/◌, ◌%◌, ◌^◌, Bool, true, false, ◌&&◌, ◌||◌, not, Option, none, some, List, [],
  ◌∷◌, ◌++◌, ltb, ◌==◌, if◌then◌else◌, length, take, replicate, codes,
}
use xprc_server_plugin_c.Common.Int.{ℤ, pos, negsuc, sub_ℕ}
use xprc_server_plugin_c.Common.Run.{Run, ok, ◌>>=◌}
use xprc_server_plugin_c.Channels.{
  Channel, ChannelState, ChannelsTable, channel_id_to_string, get_channel, write_channel,
}
use xprc_server_plugin_c.Errors.{
  error_none, error_unspecific, error_memory_allocation, error_mutex_failed,
  session_error_no_such_channel, session_error_invalid_channel_state,
}
use xprc_server_plugin_c.Text.{count_digits, decimal, num_digits}

pub data ChannelAction : Type 0 where
  err ack_continue ack_close continue close : ChannelAction

pub record Session : Type 0 where
  -- negative before the handshake has set it
  pub reference_millis : ℤ
  pub channels : ChannelsTable
  pub destruction_pending : Bool
  pub held : ℕ
  pub sent : List (List ℕ)

-- The answers to the sending of one message. `clock` is the time in milliseconds, negative if there
-- is none, and `network` what `send_to_network` returns.
pub record SendEnvironment : Type 0 where
  pub clock : ℤ
  pub allocated : Bool
  pub network : ℕ

-- The answers to one call. `seen_destruction` is what `destruction_pending` reads as before locking.
pub record Environment : Type 0 where
  pub seen_destruction : Bool
  pub locked : Bool
  pub send : SendEnvironment

unfoldable pub lock_session : Environment → Session → Option Session
lock_session env session =
    if env.seen_destruction || not env.locked || session.destruction_pending
    then none
    else some (record session { held = session.held + 1 })

unfoldable pub unlock_session : Session → Session
unlock_session session = record session { held = session.held - 1 }

abbrev pub current_time_reference : ℤ
current_time_reference = negsuc 0

millis_between : ℤ → ℤ → ℤ
millis_between (pos reference) (pos now) =
    if ltb now reference then negsuc 0 else pos (now - reference)
millis_between (pos reference) (negsuc n) = negsuc 0
millis_between (negsuc n) now = negsuc 0

unfoldable pub millis_since_reference : SendEnvironment → Session → ℤ
unfolding millis_between
millis_since_reference env session =
    if session.destruction_pending
    then negsuc 0
    else millis_between session.reference_millis env.clock

-- The conversion of an `int64_t` that is not negative to an `int`, which keeps 32 bits.
int_of : ℕ → ℤ
int_of n = if ltb (n % 2 ^ 32) (2 ^ 31) then pos (n % 2 ^ 32) else negsuc (2 ^ 32 - 1 - n % 2 ^ 32)

unfoldable pub timestamp_length : ℕ → ℕ
unfolding int_of count_digits
timestamp_length timestamp = count_digits (int_of timestamp)

unfoldable pub channel_continues : ChannelAction → Bool
channel_continues ChannelAction.err = false
channel_continues ChannelAction.ack_continue = true
channel_continues ChannelAction.ack_close = false
channel_continues ChannelAction.continue = true
channel_continues ChannelAction.close = false

is_initial : ChannelState → Bool
is_initial ChannelState.initial = true
is_initial ChannelState.confirmed = false
is_initial ChannelState.closed = false

is_err : ChannelAction → Bool
is_err ChannelAction.err = true
is_err ChannelAction.ack_continue = false
is_err ChannelAction.ack_close = false
is_err ChannelAction.continue = false
is_err ChannelAction.close = false

unfoldable pub needs_state_prefix : ChannelState → ChannelAction → List ℕ → Bool
unfolding is_initial is_err
needs_state_prefix state action message = length message == 0 || is_initial state || is_err action

unfoldable pub out_length : ChannelState → ChannelAction → ℕ → List ℕ → ℕ
out_length state action timestamp message =
    1
    + 4
    + 1
    + timestamp_length timestamp
    + 1
    + (if ltb 0 (length message) then 1 + length message else 0)
    + (if needs_state_prefix state action message then 4 else 0)

-- The bytes that are written to the buffer, in order. `snprintf` writes as many digits of the
-- timestamp as `timestamp_length` counted.
unfoldable pub encode_message : ℕ → ChannelState → ChannelAction → ℕ → List ℕ → List ℕ
unfolding is_err
encode_message id state action timestamp message =
    (if channel_continues action then b'+' else b'-')
      ∷ (if needs_state_prefix state action message
          then (if is_err action then codes "ERR " else codes "ACK ")
          else [])
    ++ (channel_id_to_string id (replicate 4 0)
        ++ (b' ' ∷ take (timestamp_length timestamp) (decimal (pos timestamp))
            ++ ((if ltb 0 (length message) then b' ' ∷ message else []) ++ b'\n' ∷ [])))

-- The guards on the channel's life-cycle.
unfoldable pub is_valid_action : ChannelState → ChannelAction → Bool
is_valid_action ChannelState.closed action = false
is_valid_action ChannelState.confirmed ChannelAction.ack_continue = false
is_valid_action ChannelState.confirmed ChannelAction.ack_close = false
is_valid_action ChannelState.confirmed ChannelAction.err = true
is_valid_action ChannelState.confirmed ChannelAction.continue = true
is_valid_action ChannelState.confirmed ChannelAction.close = true
is_valid_action ChannelState.initial ChannelAction.continue = false
is_valid_action ChannelState.initial ChannelAction.err = true
is_valid_action ChannelState.initial ChannelAction.ack_continue = true
is_valid_action ChannelState.initial ChannelAction.ack_close = true
is_valid_action ChannelState.initial ChannelAction.close = true

message_bytes : Option (List ℕ) → List ℕ
message_bytes none = []
message_bytes (some message) = message

-- From the check of the timestamp on.
send_at : SendEnvironment → Session → Channel → ChannelAction → ℤ → List ℕ → Run (ℕ × Session)
send_at env session channel action (negsuc n) message = ok (error_unspecific, session)
send_at env session channel action (pos timestamp) message =
    let line = encode_message channel.id channel.state action timestamp message in
    let counted = num_digits (int_of timestamp) in
    let after = record session {
      sent = if env.network == error_none then session.sent ++ line ∷ [] else session.sent;
      channels = write_channel session.channels channel.id (record channel {
        state = if channel_continues action then ChannelState.confirmed else ChannelState.closed;
      });
    } in
    if not (is_valid_action channel.state action)
    then ok (session_error_invalid_channel_state, session)
    else (counted >>= λ digits.
        ok (if not env.allocated then (error_memory_allocation, session) else (env.network, after)))

is_current : ℤ → Bool
is_current (pos n) = false
is_current (negsuc n) = n == 0

-- `channel` is what the pointer in the table points to.
unfoldable pub send_channel :
    SendEnvironment → Session → Channel → ChannelAction → ℤ → Option (List ℕ) → Run (ℕ × Session)
unfolding send_at int_of num_digits is_valid_action encode_message channel_continues write_channel
    message_bytes millis_since_reference is_current
send_channel env session channel action timestamp message =
    send_at env session channel action
      (if is_current timestamp then millis_since_reference env session else timestamp)
      (message_bytes message)

-- What the operations share: without the channel they return with the session still locked.
with_channel :
    Environment → Session → ℕ → (Session → Channel → Run (ℕ × Session)) → Run (ℕ × Session)
with_channel env session id body = elim (lock_session env session) [
  | none ↦ ok (error_mutex_failed, session)
  | some locked ↦ (do
    channel ← get_channel locked.channels id
    elim channel [
      | none ↦ ok (session_error_no_such_channel, locked)
      | some found ↦ body locked found
    ])
]

unfoldable pub error_channel : Environment → Session → ℕ → ℤ → Option (List ℕ) → Run (ℕ × Session)
unfolding with_channel send_channel unlock_session lock_session get_channel
error_channel env session id timestamp message = with_channel env session id (λ locked channel. do
  r ← send_channel env.send locked channel ChannelAction.err timestamp message
  ok (r.0, unlock_session r.1))

-- After a failure to send, the attempt to report it, whose own error is dropped.
report_failure : Environment → Session → ℕ → ℤ → List ℕ → ℕ → Run (ℕ × Session)
report_failure again session id timestamp text e =
    if e == error_none
    then ok (e, unlock_session session)
    else (do r ← error_channel again session id timestamp (some text); ok (e, unlock_session r.1))

-- `again` is the environment of the report of a failure.
unfoldable pub confirm_channel :
    Environment → Environment → Session → ℕ → ℤ → Option (List ℕ) → Run (ℕ × Session)
unfolding with_channel send_channel report_failure lock_session get_channel
confirm_channel env again session id timestamp message =
    with_channel env session id (λ locked channel. do
      r ← send_channel env.send locked channel ChannelAction.ack_continue timestamp message
      report_failure again r.1 id timestamp (codes "failed to confirm channel") r.0)

unfoldable pub continue_channel :
    Environment → Environment → Session → ℕ → ℤ → Option (List ℕ) → Run (ℕ × Session)
unfolding with_channel send_channel report_failure lock_session get_channel
continue_channel env again session id timestamp message =
    with_channel env session id (λ locked channel. do
      r ← send_channel env.send locked channel ChannelAction.continue timestamp message
      report_failure again r.1 id timestamp (codes "failed to continue channel") r.0)

unfoldable pub finish_channel :
    Environment → Environment → Session → ℕ → ℤ → Option (List ℕ) → Run (ℕ × Session)
unfolding with_channel send_channel report_failure lock_session get_channel is_initial
finish_channel env again session id timestamp message =
    with_channel env session id (λ locked channel. do
      let action = if is_initial channel.state then ChannelAction.ack_close else ChannelAction.close
      r ← send_channel env.send locked channel action timestamp message
      report_failure again r.1 id timestamp (codes "failed to finish channel") r.0)
