-- ===== src/Session/Encoding.antt =====
-- The lines that `send_channel` of src/session.c builds, as a client reads them.
use xprc_server_plugin_c.Common.{
  ℕ, ◌+◌, ◌^◌, ◌<◌, ◌≡◌, refl, sym, ◌∙◌, ap, arith, Bool, true, false, List, [], ◌∷◌, ◌++◌, ltb,
  ◌==◌, if◌then◌else◌, get_or, length, length-append, take, drop, replicate, codes, take-append,
  append-nil,
}
use xprc_server_plugin_c.Common.Int.{pos}
use xprc_server_plugin_c.Channels.{ChannelState, channel_id_to_string, string_to_channel_id}
use xprc_server_plugin_c.Channels.RoundTrip.{
  IsChannelId, IsAlphanumeric, four, channel_id_to_string_name, to_channel_id-to_string,
}
use xprc_server_plugin_c.Session.{
  ChannelAction, channel_continues, needs_state_prefix, is_err, encode_message, out_length,
  timestamp_length, int_of,
}
use xprc_server_plugin_c.Text.{decimal, strn_eq}
use xprc_server_plugin_c.Text.Numbers.{count_digits-decimal}

pub data Status : Type 0 where
  plain ack err : Status

-- What a client takes from a line: whether the channel stays open, the status, the channel, and the
-- rest of the line behind the channel's name and a space.
pub record Line : Type 0 where
  pub continues : Bool
  pub status : Status
  pub channel_id : ℕ
  pub payload : List ℕ

read_status : List ℕ → Status × List ℕ
unfolding strn_eq
read_status s =
    if strn_eq 4 s (codes "ACK ")
    then (Status.ack, drop 4 s)
    else if strn_eq 4 s (codes "ERR ")
    then (Status.err, drop 4 s)
    else (Status.plain, s)

unfoldable pub read_line : List ℕ → Line
unfolding read_status string_to_channel_id
read_line s =
    let (status, rest) = read_status (drop 1 s) in
    record {
      continues = get_or s 0 0 == b'+';
      status = status;
      channel_id = string_to_channel_id rest;
      payload = drop 5 rest;
    }

unfoldable pub status_of : ChannelState → ChannelAction → List ℕ → Status
unfolding needs_state_prefix is_err
status_of state action message =
    if needs_state_prefix state action message
    then (if is_err action then Status.err else Status.ack)
    else Status.plain

-- The rest of the line: the timestamp, and the message behind a space if there is one.
unfoldable pub payload_of : ℕ → List ℕ → List ℕ
payload_of timestamp message =
    decimal (pos timestamp)
    ++ ((if ltb 0 (length message) then b' ' ∷ message else []) ++ b'\n' ∷ [])

-- Milliseconds that fit an `int` are counted, and so printed, whole.
timestamp_length-decimal :
    (timestamp : ℕ)
    → timestamp < 2 ^ 31
    → timestamp_length timestamp ≡ length (decimal (pos timestamp))
unfolding timestamp_length int_of
timestamp_length-decimal timestamp small =
    let fits : int_of timestamp ≡ pos timestamp = ground arith in
    rw fits (count_digits-decimal timestamp)

take-timestamp :
    (timestamp : ℕ)
    → timestamp < 2 ^ 31
    → take (timestamp_length timestamp) (decimal (pos timestamp)) ≡ decimal (pos timestamp)
take-timestamp timestamp small =
    let digits = decimal (pos timestamp) in
    rw (timestamp_length-decimal timestamp small)
      (ap (λ s. take (length digits) s) (sym (append-nil digits)) ∙ take-append digits [])

-- A name is no status: its fourth character is not a space.
read_status-name :
    (a b c d : ℕ) (rest : List ℕ)
    → IsAlphanumeric d
    → read_status (four a b c d rest) ≡ (Status.plain, four a b c d rest)
unfolding read_status strn_eq
read_status-name a b c d rest h = let no_space : (d == b' ') ≡ false = ground arith in ground arith

status_bytes : Status → List ℕ
status_bytes Status.plain = []
status_bytes Status.ack = codes "ACK "
status_bytes Status.err = codes "ERR "

read_status-status_bytes :
    (status : Status) (a b c d : ℕ) (rest : List ℕ)
    → IsAlphanumeric d
    → read_status (status_bytes status ++ four a b c d rest) ≡ (status, four a b c d rest)
unfolding status_bytes read_status strn_eq
read_status-status_bytes Status.plain a b c d rest h = read_status-name a b c d rest h
read_status-status_bytes Status.ack a b c d rest h = refl
read_status-status_bytes Status.err a b c d rest h = refl

read_line-status_bytes :
    (sign : ℕ) (status : Status) (id : ℕ) (tail : List ℕ)
    → IsChannelId id
    → read_line
        (sign ∷ status_bytes status ++ (channel_id_to_string id (replicate 4 0) ++ b' ' ∷ tail))
      ≡ record { continues = sign == b'+'; status = status; channel_id = id; payload = tail }
unfolding read_line
read_line-status_bytes sign status id tail h =
    let (a, b, c, d, name, ha, hb, hc, hd) = channel_id_to_string_name id 0 0 0 0 h in
    let back = to_channel_id-to_string id 0 0 0 0 (b' ' ∷ tail) h in
    let named : string_to_channel_id (four a b c d (b' ' ∷ tail)) ≡ id =
      rw (sym (name (b' ' ∷ tail))) back in
    rw (name [], read_status-status_bytes status a b c d (b' ' ∷ tail) hd, named)

prefix-status_bytes :
    (needed error : Bool)
    → (if needed then (if error then codes "ERR " else codes "ACK ") else [])
      ≡ status_bytes (if needed then (if error then Status.err else Status.ack) else Status.plain)
unfolding status_bytes
prefix-status_bytes false error = refl
prefix-status_bytes true false = refl
prefix-status_bytes true true = refl

sign_continues : (b : Bool) → ((if b then b'+' else b'-') == b'+') ≡ b
sign_continues true = refl
sign_continues false = refl

encode_message-status_bytes :
    (id : ℕ) (state : ChannelState) (action : ChannelAction) (timestamp : ℕ) (message : List ℕ)
    → timestamp < 2 ^ 31
    → encode_message id state action timestamp message
      ≡ (if channel_continues action then b'+' else b'-')
          ∷ status_bytes (status_of state action message)
        ++ (channel_id_to_string id (replicate 4 0) ++ b' ' ∷ payload_of timestamp message)
unfolding encode_message payload_of status_of
encode_message-status_bytes id state action timestamp message small = rw (
  prefix-status_bytes (needs_state_prefix state action message) (is_err action),
  take-timestamp timestamp small,
)

-- With a message and a channel of four name characters, a client reads from the line that is built
-- what was encoded: whether the channel stays open, the status, the channel's ID, and behind them
-- the timestamp of at most 31 bits and the message.
pub read_line-encode_message :
    (id : ℕ) (state : ChannelState) (action : ChannelAction) (timestamp : ℕ) (message : List ℕ)
    → IsChannelId id
    → timestamp < 2 ^ 31
    → read_line (encode_message id state action timestamp message) ≡ record {
      continues = channel_continues action;
      status = status_of state action message;
      channel_id = id;
      payload = payload_of timestamp message;
    }
read_line-encode_message id state action timestamp message h small =
    rw (encode_message-status_bytes id state action timestamp message small) (
      read_line-status_bytes _ (status_of state action message) id (payload_of timestamp message) h
      ∙ ap
          (λ (b : Bool). record {
            continues = b;
            status = status_of state action message;
            channel_id = id;
            payload = payload_of timestamp message;
          })
          (sign_continues (channel_continues action)))

-- The head of a line does not depend on the timestamp.
pub read_line-head :
    (id : ℕ) (state : ChannelState) (action : ChannelAction) (timestamp : ℕ) (message : List ℕ)
    → IsChannelId id
    → let line = read_line (encode_message id state action timestamp message) in
      (line.channel_id ≡ id)
      × (line.continues ≡ channel_continues action)
      × (line.status ≡ status_of state action message)
unfolding encode_message status_of
read_line-head id state action timestamp message h =
    let read =
      read_line-status_bytes (if channel_continues action then b'+' else b'-')
        (status_of state action message) id
        (take (timestamp_length timestamp) (decimal (pos timestamp))
          ++ ((if ltb 0 (length message) then b' ' ∷ message else []) ++ b'\n' ∷ []))
        h in
    rw (prefix-status_bytes (needs_state_prefix state action message) (is_err action), read)
      (refl, sign_continues (channel_continues action), refl)

length-status_bytes :
    (state : ChannelState) (action : ChannelAction) (message : List ℕ)
    → length (status_bytes (status_of state action message))
      ≡ (if needs_state_prefix state action message then 4 else 0)
unfolding status_of status_bytes
length-status_bytes state action message = ground arith

-- The line of a channel of four name characters, with a timestamp of at most 31 bits, fills the
-- buffer that is allocated for it exactly.
pub length-encode_message :
    (id : ℕ) (state : ChannelState) (action : ChannelAction) (timestamp : ℕ) (message : List ℕ)
    → IsChannelId id
    → timestamp < 2 ^ 31
    → length (encode_message id state action timestamp message)
      ≡ out_length state action timestamp message
unfolding out_length payload_of
length-encode_message id state action timestamp message h small =
    let (a, b, c, d, name, ha, hb, hc, hd) = channel_id_to_string_name id 0 0 0 0 h in
    let text = if ltb 0 (length message) then b' ' ∷ message else [] in
    let tail = payload_of timestamp message in
    let lead = status_bytes (status_of state action message) in
    let sized : length text ≡ (if ltb 0 (length message) then 1 + length message else 0) =
      ground arith in
    rw (encode_message-status_bytes id state action timestamp message small, name [])
      (omega (
        arith,
        timestamp_length-decimal timestamp small,
        length-append lead (four a b c d (b' ' ∷ tail)),
        length-append (decimal (pos timestamp)) (text ++ b'\n' ∷ []),
        length-append text (b'\n' ∷ []),
        length-status_bytes state action message,
        sized,
      ))
