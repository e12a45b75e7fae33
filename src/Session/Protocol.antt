-- ===== src/Session/Protocol.antt =====
-- The life-cycle of a channel as its client sees it in the lines of `send_channel` of src/session.c.
use xprc_server_plugin_c.Common.{
  ℕ, ◌^◌, ◌≡◌, refl, ◌∙◌, sym, not, subst, inl, inr, arith, Bool, true, false, Option, none, some,
  List, [], ◌∷◌, ◌++◌, ◌==◌, if◌then◌else◌, Bool-cases, ==_iff, is_some,
}
use mathlib.Core.Option.{some-injective}
use xprc_server_plugin_c.Common.Int.{ℤ, pos, negsuc, neg_part}
use xprc_server_plugin_c.Common.Run.{Run, ok}
use xprc_server_plugin_c.Text.{num_digits}
use xprc_server_plugin_c.Errors.{
  error_none, error_memory_allocation, session_error_invalid_channel_state,
}
use xprc_server_plugin_c.Channels.{Channel, ChannelState, write_channel}
use xprc_server_plugin_c.Channels.RoundTrip.{IsChannelId}
use xprc_server_plugin_c.Channels.Table.{InTable, IsValid, view}
use xprc_server_plugin_c.Channels.Table.Writes.{view-id, write_channel_lem}
use xprc_server_plugin_c.Session.{
  ChannelAction, Session, SendEnvironment, channel_continues, needs_state_prefix, is_err,
  is_initial, encode_message, is_valid_action, send_at, send_channel, int_of, is_current,
  millis_between, millis_since_reference,
}
use xprc_server_plugin_c.Session.Encoding.{Line, Status, read_line, status_of, read_line-head}

-- The client's rules. A channel starts with a confirmation or an error, an error closes it, and
-- nothing follows on a closed channel; `none` is a breach.
unfoldable pub client_step : ChannelState → Bool → Status → Option ChannelState
client_step ChannelState.closed continues status = none
client_step ChannelState.initial continues Status.plain = none
client_step ChannelState.initial true Status.err = none
client_step ChannelState.initial false Status.err = some ChannelState.closed
client_step ChannelState.initial true Status.ack = some ChannelState.confirmed
client_step ChannelState.initial false Status.ack = some ChannelState.closed
client_step ChannelState.confirmed true Status.err = none
client_step ChannelState.confirmed false Status.err = some ChannelState.closed
client_step ChannelState.confirmed true Status.ack = some ChannelState.confirmed
client_step ChannelState.confirmed false Status.ack = some ChannelState.closed
client_step ChannelState.confirmed true Status.plain = some ChannelState.confirmed
client_step ChannelState.confirmed false Status.plain = some ChannelState.closed

-- A line concerns the channel that it names.
client_receives : ℕ → Option ChannelState → Line → Option ChannelState
client_receives id none line = none
client_receives id (some state) line =
    if line.channel_id == id then client_step state line.continues line.status else some state

-- What a client that reads the lines in order takes the channel's state to be.
unfoldable pub client_state : ℕ → Option ChannelState → List (List ℕ) → Option ChannelState
unfolding client_receives
client_state id state [] = state
client_state id state (line ∷ lines) =
    client_state id (client_receives id state (read_line line)) lines

client_state-append :
    (id : ℕ) (state : Option ChannelState) (lines : List (List ℕ)) (line : List ℕ)
    → client_state id state (lines ++ line ∷ [])
      ≡ client_receives id (client_state id state lines) (read_line line)
unfolding client_state
client_state-append id state [] line = refl
client_state-append id state (l ∷ lines) line =
    client_state-append id (client_receives id state (read_line l)) lines line

-- The client has seen no breach, and knows the state of each channel with a name.
pub record IsAgreed (session : Session) : Type 0 where
  pub valid : IsValid session.channels
  pub agrees :
      (id : ℕ) (channel : Channel)
      → IsChannelId id
      → view session.channels id ≡ some channel
      → client_state id (some ChannelState.initial) session.sent ≡ some channel.state

abbrev next_state : ChannelAction → ChannelState
next_state action = if channel_continues action then ChannelState.confirmed else ChannelState.closed

-- What the guards let through obeys the client's rules.
client_step-valid :
    (state : ChannelState) (action : ChannelAction) (message : List ℕ)
    → is_valid_action state action ≡ true
    → client_step state (channel_continues action) (status_of state action message)
      ≡ some (next_state action)
unfolding is_valid_action client_step channel_continues status_of needs_state_prefix is_err
    is_initial
client_step-valid ChannelState.initial ChannelAction.err message h = ground arith
client_step-valid ChannelState.initial ChannelAction.ack_continue message h = ground arith
client_step-valid ChannelState.initial ChannelAction.ack_close message h = ground arith
client_step-valid ChannelState.initial ChannelAction.continue message h = cc
client_step-valid ChannelState.initial ChannelAction.close message h = ground arith
client_step-valid ChannelState.confirmed ChannelAction.err message h = ground arith
client_step-valid ChannelState.confirmed ChannelAction.ack_continue message h = cc
client_step-valid ChannelState.confirmed ChannelAction.ack_close message h = cc
client_step-valid ChannelState.confirmed ChannelAction.continue message h = ground arith
client_step-valid ChannelState.confirmed ChannelAction.close message h = ground arith
client_step-valid ChannelState.closed action message h = cc

-- The digits of a timestamp can be counted: as an `int` it is not the least one.
unfoldable pub is_countable : ℤ → Bool
unfolding int_of
is_countable (pos timestamp) = not (neg_part (int_of timestamp) == 2 ^ 31)
is_countable (negsuc n) = true

-- The same for the timestamp that a message has in the end, with the session's reference and the clock.
unfoldable pub is_timely : ℤ → ℤ → ℤ → Bool
unfolding is_countable is_current millis_between
is_timely reference clock timestamp =
    if is_current timestamp
    then is_countable (millis_between reference clock)
    else is_countable timestamp

-- What a piece of an operation keeps; `taken` says that the network took the lines of the piece.
pub record Continues (taken : Type 0) (before after : Session) : Type 0 where
  pub agreed : taken → IsAgreed before → IsAgreed after
  pub reference : after.reference_millis ≡ before.reference_millis
  pub present :
      IsValid before.channels
      → (id : ℕ) → is_some (view after.channels id) ≡ is_some (view before.channels id)
  pub final :
      IsValid before.channels
      → (id : ℕ) (channel : Channel) → view before.channels id ≡ some channel
      → channel.state ≡ ChannelState.closed
      → view after.channels id ≡ some channel
  pub valid : IsValid before.channels → IsValid after.channels

pub Continues-refl : (taken : Type 0) (session : Session) → Continues taken session session
Continues-refl taken session = record {
  agreed = λ _ a. a;
  reference = refl;
  present = λ v id. refl;
  final = λ v id c e closed. e;
  valid = λ v. v;
}

pub Continues-trans :
    (taken : Type 0) (a b c : Session)
    → Continues taken a b
    → Continues taken b c
    → Continues taken a c
Continues-trans taken a b c p q = record {
  agreed = λ t x. q.agreed t (p.agreed t x);
  reference = q.reference ∙ p.reference;
  present = λ v id. q.present (p.valid v) id ∙ p.present v id;
  final = λ v id d e closed. q.final (p.valid v) id d (p.final v id d e closed) closed;
  valid = λ v. q.valid (p.valid v);
}

-- If less was needed to be taken.
pub Continues-weaken : (p q : Type 0) (a b : Session) → (q → p) → Continues p a b → Continues q a b
Continues-weaken p q a b f c = record {
  agreed = λ t x. c.agreed (f t) x;
  reference = c.reference;
  present = c.present;
  final = c.final;
  valid = c.valid;
}

-- A line moves the client's state of its own channel and of no other.
client_receives-line :
    (id j : ℕ) (state : ChannelState) (action : ChannelAction) (timestamp : ℕ) (message : List ℕ)
    (known : ChannelState)
    → IsChannelId id
    → is_valid_action state action ≡ true
    → (id ≡ j → known ≡ state)
    → client_receives j (some known) (read_line (encode_message id state action timestamp message))
      ≡ some (if id == j then next_state action else known)
unfolding client_receives
client_receives-line id j state action timestamp message known named permitted same =
    let (channel, continues, status) = read_line-head id state action timestamp message named in
    let step = client_step-valid state action message permitted in
    rw (channel, continues, status)
      (elim (Bool-cases (id == j)) [
        | inl own ↦ rw (own, same ((==_iff id j).0 own)) step
        | inr other ↦ rw other
      ])

closed_refuses :
    (state : ChannelState) (action : ChannelAction)
    → state ≡ ChannelState.closed
    → is_valid_action state action ≡ false
unfolding is_valid_action
closed_refuses state action closed = rw closed

-- A line that goes out or is refused, and the new state of its channel.
module _ (network : ℕ) (session : Session) (id : ℕ) (channel : Channel) (action : ChannelAction)
    (timestamp : ℕ) (message : List ℕ) (inside : InTable id)
    (here : view session.channels id ≡ some channel)
    (permitted : is_valid_action channel.state action ≡ true) where
  abbrev moved : Channel
  moved = record channel { state = next_state action }

  abbrev after : Session
  after = record session {
    sent =
        if network == error_none
        then session.sent ++ encode_message channel.id channel.state action timestamp message ∷ []
        else session.sent;
    channels = write_channel session.channels channel.id moved;
  }

  write :
      IsValid session.channels
      → IsValid after.channels
        × ((j : ℕ)
            → view after.channels j ≡ (if id == j then some moved else view session.channels j))
  write v =
      let same = view-id session.channels id channel v here in
      subst
        (λ i.
          IsValid (write_channel session.channels i moved)
          × ((j : ℕ)
              → view (write_channel session.channels i moved) j
                ≡ (if id == j then some moved else view session.channels j)))
        (sym same) (write_channel_lem session.channels id channel moved inside v here same)

  own_view : (j : ℕ) → (id == j) ≡ true → view session.channels j ≡ some channel
  own_view j own = subst (λ i. view session.channels i ≡ some channel) ((==_iff id j).0 own) here

  agrees_after :
      network ≡ error_none
      → IsChannelId id
      → IsAgreed session
      → (j : ℕ) (d : Channel) → IsChannelId j
      → view after.channels j ≡ some d
      → client_state j (some ChannelState.initial) after.sent ≡ some d.state
  agrees_after taken named a j d n e =
      let took : (network == error_none) ≡ true = (==_iff network error_none).1 taken in
      let same = view-id session.channels id channel a.valid here in
      let reads = (write a.valid).1 j in
      let line = encode_message channel.id channel.state action timestamp message in
      rw took (
        client_state-append j (some ChannelState.initial) session.sent line
        ∙ elim (Bool-cases (id == j)) [
          | inl own ↦
              let there = own_view j own in
              let moves : d ≡ moved = some-injective _ _ (sym e ∙ reads ∙ rw own) in
              rw (a.agrees j channel n there, moves)
                (client_receives-line channel.id j channel.state action timestamp message
                    channel.state (subst IsChannelId (sym same) named) permitted (λ _. refl)
                  ∙ rw (same, own))
          | inr other ↦
              let there : view session.channels j ≡ some d = sym (sym e ∙ reads ∙ rw other) in
              rw (a.agrees j d n there) (
                client_receives-line channel.id j channel.state action timestamp message d.state
                  (subst IsChannelId (sym same) named) permitted
                  (λ f. absurd (ground (arith, same)))
                ∙ rw (same, other))
        ])

  sent-Continues : IsChannelId id → Continues (network ≡ error_none) session after
  sent-Continues named = record {
    agreed = λ t a. record { valid = (write a.valid).0; agrees = agrees_after t named a };
    reference = refl;
    present = λ v j.
        let reads = (write v).1 j in
        elim (Bool-cases (id == j)) [
          | inl own ↦ let there = own_view j own in rw (reads, own, there)
          | inr other ↦ rw (reads, other)
        ];
    final = λ v j d e closed.
        let reads = (write v).1 j in
        elim (Bool-cases (id == j)) [
          | inl own ↦
              let there = own_view j own in
              let one : channel ≡ d = some-injective _ _ (sym there ∙ e) in
              let refused : is_valid_action d.state action ≡ true =
                subst (λ (x : Channel). is_valid_action x.state action ≡ true) one permitted in
              absurd (let stopped = closed_refuses d.state action closed in cc)
          | inr other ↦ rw (reads, other) e
        ];
    valid = λ v. (write v).0;
  }

-- What a sent or refused message comes to.
abbrev pub Sends : ℕ → Session → Run (ℕ × Session) → Type 0
Sends network session run =
    (r : ℕ × Session) × (run ≡ ok r)
    × Continues (network ≡ error_none) session r.1
    × (r.1.held ≡ session.held)

send_at-Continues :
    (env : SendEnvironment) (session : Session) (id : ℕ) (channel : Channel)
    (action : ChannelAction) (timestamp : ℤ) (message : List ℕ)
    → InTable id
    → IsChannelId id
    → is_countable timestamp ≡ true
    → view session.channels id ≡ some channel
    → Sends env.network session (send_at env session channel action timestamp message)
unfolding send_at is_countable num_digits
send_at-Continues env session id channel action (negsuc n) message inside named timely here =
    (_, refl, Continues-refl _ session, refl)
send_at-Continues env session id channel action (pos timestamp) message inside named timely here =
    let counts : (neg_part (int_of timestamp) == 2 ^ 31) ≡ false = ground (arith, timely) in
    elim (Bool-cases (is_valid_action channel.state action)) [
      | inr refused ↦ (
        (session_error_invalid_channel_state, session),
        rw refused,
        Continues-refl _ session,
        refl,
      )
      | inl permitted ↦ elim (Bool-cases env.allocated) [
        | inr full ↦ (
          (error_memory_allocation, session),
          rw (permitted, counts, full),
          Continues-refl _ session,
          refl,
        )
        | inl memory ↦ (
          (
            env.network,
            after env.network session id channel action timestamp message inside here permitted,
          ),
          rw (permitted, counts, memory),
          sent-Continues env.network session id channel action timestamp message inside here
              permitted named,
          refl,
        )
      ]
    ]

-- Sending on a channel of the table keeps what a client knows, if the network takes the line, and the
-- mutex as it was.
pub send_channel-Continues :
    (env : SendEnvironment) (session : Session) (id : ℕ) (channel : Channel)
    (action : ChannelAction) (timestamp : ℤ) (message : Option (List ℕ))
    → InTable id
    → IsChannelId id
    → is_timely session.reference_millis env.clock timestamp ≡ true
    → view session.channels id ≡ some channel
    → Sends env.network session (send_channel env session channel action timestamp message)
unfolding send_channel is_timely millis_since_reference
send_channel-Continues env session id channel action timestamp message inside named timely here =
    send_at-Continues env session id channel action _ _ inside named
      (elim (Bool-cases (is_current timestamp)) [
        | inr given ↦ rw given (ground (arith, timely, given))
        | inl now ↦ elim (Bool-cases session.destruction_pending) [
          | inl pending ↦ rw (now, pending) (unfold is_countable in refl)
          | inr live ↦ rw (now, live) (ground (arith, timely, now))
        ]
      ])
      here
