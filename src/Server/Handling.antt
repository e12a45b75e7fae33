-- ===== src/Server/Handling.antt =====
-- Requests of logged-in clients (`handle_request` of src/server.c and what it calls).
use xprc_server_plugin_c.Common.{
  ℕ, ◌≡◌, ◌⊎◌, refl, ◌∙◌, sym, subst, inl, inr, arith, true, false, ◌&&◌, not, none, some, List,
  ◌==◌, is_some, codes, Bool-cases, Option-cases,
}
use xprc_server_plugin_c.Common.Run.{Run, ok}
use xprc_server_plugin_c.Channels.{Channel, has_channel}
use xprc_server_plugin_c.Channels.RoundTrip.{IsChannelId}
use xprc_server_plugin_c.Channels.Table.{
  InTable, IsValid, view, get_channel-view, pop_channel-Pops, put_channel-Puts,
}
use xprc_server_plugin_c.Errors.{error_none, session_error_invalid_channel_state}
use xprc_server_plugin_c.Requests.{Request}
use xprc_server_plugin_c.Session.{Environment, Session, current_time_reference}
use xprc_server_plugin_c.Session.Operations.{Operation, call, call-Outcome, Outcome}
use xprc_server_plugin_c.Session.Protocol.{is_timely}
use xprc_server_plugin_c.Common.Int.{ℤ}
use xprc_server_plugin_c.Server.{
  Client, Commands, LineEnvironment, after_failure, after_success, handle_command_request,
  new_channel, register_channel, accept_request, channel_error_line, remove_channel, send_or_close,
  start_command, close_network_connection, transmit,
}

-- What the handling of a request on a channel ID keeps: a valid table, the locks, and which other
-- channels there are.
pub record Keeps (id : ℕ) (before after : Client) : Type 0 where
  pub valid : IsValid after.session.channels
  pub held : after.session.held ≡ before.session.held
  pub schedule : after.schedule_held ≡ before.schedule_held
  pub others :
      (j : ℕ)
      → (id == j) ≡ false
      → is_some (view after.session.channels j) ≡ is_some (view before.session.channels j)

Keeps-refl : (id : ℕ) (client : Client) → IsValid client.session.channels → Keeps id client client
Keeps-refl id client v = record {
  valid = v;
  held = refl;
  schedule = refl;
  others = λ j other. refl;
}

Keeps-trans : (id : ℕ) (a b c : Client) → Keeps id a b → Keeps id b c → Keeps id a c
Keeps-trans id a b c p q = record {
  valid = q.valid;
  held = q.held ∙ p.held;
  schedule = q.schedule ∙ p.schedule;
  others = λ j other. q.others j other ∙ p.others j other;
}

-- What a command may do to a session: it keeps the table valid, the channels that there are, the
-- reference of the timestamps, and the mutex as it was.
pub record IsKept (before after : Session) : Type 0 where
  pub valid : IsValid after.channels
  pub held : after.held ≡ before.held
  pub reference : after.reference_millis ≡ before.reference_millis
  pub present : (j : ℕ) → is_some (view after.channels j) ≡ is_some (view before.channels j)

-- What is relied on of the commands, on sessions with the given reference: started for a request whose
-- channel is in the table, or terminated for a channel of it, they return and keep the session.
pub record AreWellBehaved (reference : ℤ) (commands : Commands) : Type 0 where
  pub creates :
      (session : Session) (request : Request)
      → session.reference_millis ≡ reference
      → IsValid session.channels
      → InTable request.channel_id
      → IsChannelId request.channel_id
      → is_some (view session.channels request.channel_id) ≡ true
      → (r : ℕ × Session) × (commands.create_command session request ≡ ok r) × IsKept session r.1
  pub terminates :
      (session : Session) (id : ℕ) (channel : Channel)
      → session.reference_millis ≡ reference
      → IsValid session.channels
      → InTable id
      → IsChannelId id
      → view session.channels id ≡ some channel
      → is_some channel.command ≡ true
      → (r : ℕ × Session) × (commands.terminate session channel ≡ ok r) × IsKept session r.1

-- The timestamps of the messages on the channel do not become the least `int`.
pub record IsTimely (reference : ℤ) (env : LineEnvironment) : Type 0 where
  pub report : is_timely reference env.report.send.clock current_time_reference ≡ true
  pub report_again : is_timely reference env.report_again.send.clock current_time_reference ≡ true

-- A request leaves no channel without a command: the connection closes, or the ID is free, or its
-- channel has a command.
pub HasCommand : Client → ℕ → Type 0
HasCommand client id =
    (client.closing ≡ true)
    ⊎ (view client.session.channels id ≡ none)
    ⊎ ((channel : Channel) × (view client.session.channels id ≡ some channel)
        × (is_some channel.command_ref ≡ true))

pub send_or_close-Keeps :
    (env : LineEnvironment) (client : Client) (line : List ℕ) (id : ℕ)
    → IsValid client.session.channels
    → Keeps id client (send_or_close env client line)
      × ((send_or_close env client line).session.channels ≡ client.session.channels)
unfolding send_or_close close_network_connection transmit
send_or_close-Keeps env client line id v = elim (Bool-cases env.formatted) [
  | inr not_formatted ↦
      rw not_formatted
        (record { valid = v; held = refl; schedule = refl; others = λ j other. refl }, refl)
  | inl formatted ↦ elim (Bool-cases (env.lock.send.network == error_none)) [
    | inl sent ↦
        rw (formatted, sent)
          (record { valid = v; held = refl; schedule = refl; others = λ j other. refl }, refl)
    | inr lost ↦
        rw (formatted, lost)
          (record { valid = v; held = refl; schedule = refl; others = λ j other. refl }, refl)
  ]
]

module _ (id : ℕ) (inside : InTable id) where
  remove_channel_lem :
      (client : Client) (e : ℕ)
      → IsValid client.session.channels
      → (after : Client) × (remove_channel client id e ≡ ok after)
        × Keeps id client after
        × HasCommand after id
  unfolding remove_channel close_network_connection HasCommand
  remove_channel_lem client e v =
      elim (Bool-cases (not (e == error_none) && not (e == session_error_invalid_channel_state))) [
        | inl failed ↦ (
          close_network_connection client,
          rw failed,
          record { valid = v; held = refl; schedule = refl; others = λ j other. refl },
          inl refl,
        )
        | inr fine ↦
            let (r, pop, pops) = pop_channel-Pops client.session.channels id inside v in
            let left = record client { session = record client.session { channels = r.1 } } in
            let keeps : Keeps id client left = record {
              valid = pops.keeps;
              held = refl;
              schedule = refl;
              others = λ j other. ground (arith, pops.reads j);
            } in
            let gone : view r.1 id ≡ none = ground (arith, pops.reads id) in
            elim (Bool-cases (is_some r.0)) [
              | inl found ↦ (left, rw (fine, pop, found), keeps, inr (inl gone))
              | inr missing ↦ (
                close_network_connection left,
                rw (fine, pop, missing),
                record { valid = keeps.valid; held = refl; schedule = refl; others = keeps.others },
                inl refl,
              )
            ]
      ]

  module _ (named : IsChannelId id) (env : LineEnvironment) where
    -- What handling leads to.
    abbrev Handles : Client → Run Client → Type 0
    Handles client run =
        (after : Client) × (run ≡ ok after) × Keeps id client after × HasCommand after id

    message_sent :
        (taken : Type 0) (lock : Environment) (client : Client) (r : ℕ × Session)
        → IsValid client.session.channels
        → is_some (view client.session.channels id) ≡ true
        → Outcome taken lock client.session id r
        → Keeps id client (record client { session = r.1 })
    message_sent taken lock client r v here outcome = record {
      valid = outcome.continues.valid v;
      held = outcome.balanced here;
      schedule = refl;
      others = λ j other. outcome.continues.present v j;
    }

    ended :
        (taken : Type 0) (lock : Environment) (client : Client) (r : ℕ × Session)
        → IsValid client.session.channels
        → is_some (view client.session.channels id) ≡ true
        → Outcome taken lock client.session id r
        → Handles client (remove_channel (record client { session = r.1 }) id r.0)
    ended taken lock client r v here outcome =
        let sent = message_sent taken lock client r v here outcome in
        let (after, run, keeps, commanded) =
          remove_channel_lem (record client { session = r.1 }) r.0 sent.valid in
        (after, run, Keeps-trans id _ _ _ sent keeps, commanded)

    after_failure_lem :
        (client : Client)
        → IsValid client.session.channels
        → is_some (view client.session.channels id) ≡ true
        → IsTimely client.session.reference_millis env
        → Handles client (after_failure env client id)
    unfolding after_failure call
    after_failure_lem client v here timely =
        let (r, run, outcome) =
          call-Outcome Operation.error env.report env.report client.session id
            current_time_reference (some (codes "command creation failed")) inside named
            timely.report timely.report v in
        rw run (ended _ env.report client r v here outcome)

    after_success_lem :
        (client : Client) (channel : Channel)
        → IsValid client.session.channels
        → view client.session.channels id ≡ some channel
        → IsTimely client.session.reference_millis env
        → Handles client (after_success env client id (some channel))
    unfolding after_success call HasCommand
    after_success_lem client channel v here timely =
        elim (Bool-cases (is_some channel.command_ref)) [
          | inl running ↦
              (client, rw running, Keeps-refl id client v, inr (inr (channel, here, running)))
          | inr instant ↦
              let (r, run, outcome) =
                call-Outcome Operation.finish env.report env.report_again client.session id
                  current_time_reference none inside named timely.report timely.report_again v in
              rw (instant, run) (ended _ env.report client r v (rw here) outcome)
        ]

module _ (request : Request) (inside : InTable request.channel_id)
    (named : IsChannelId request.channel_id) (reference : ℤ) (commands : Commands)
    (behaved : AreWellBehaved reference commands) (env : LineEnvironment)
    (timely : IsTimely reference env) where
  abbrev id : ℕ
  id = request.channel_id

  abbrev Serves : Client → Run Client → Type 0
  Serves = Handles id inside named env

  start_command_lem :
      (client : Client)
      → IsValid client.session.channels
      → is_some (view client.session.channels id) ≡ true
      → client.session.reference_millis ≡ reference
      → Serves client (start_command commands env client request)
  unfolding start_command
  start_command_lem client v here same =
      let (r, creation, kept_session) =
        behaved.creates client.session request same v inside named here in
      let created = kept_session.valid in
      let present = kept_session.present in
      let on_time : IsTimely r.1.reference_millis env =
        subst (λ ref. IsTimely ref env) (sym (kept_session.reference ∙ same)) timely in
      let after = record client { session = r.1 } in
      let there : is_some (view r.1.channels id) ≡ true = present id ∙ here in
      let keeps : Keeps id client after = record {
        valid = created;
        held = kept_session.held;
        schedule = refl;
        others = λ j other. present j;
      } in
      elim (Bool-cases (r.0 == error_none)) [
        | inr failed ↦
            let (last, run, kept, commanded) =
              after_failure_lem id inside named env after created there on_time in
            (last, rw (creation, failed) run, Keeps-trans id _ _ _ keeps kept, commanded)
        | inl started ↦ elim (Option-cases (view r.1.channels id)) [
          | inl missing ↦
              absurd (let no_channel : is_some (view r.1.channels id) ≡ false = rw missing in cc)
          | inr (channel, found) ↦
              let (last, run, kept, commanded) =
                after_success_lem id inside named env after channel created found on_time in
              (
                last,
                rw (creation, started, get_channel-view r.1.channels id inside, found) run,
                Keeps-trans id _ _ _ keeps kept,
                commanded,
              )
        ]
      ]

  -- An answer without a channel.
  refused :
      (client : Client) (line : List ℕ)
      → IsValid client.session.channels
      → view client.session.channels id ≡ none
      → Serves client (ok (send_or_close env client line))
  unfolding HasCommand
  refused client line v free =
      let (keeps, same) = send_or_close-Keeps env client line id v in
      (_, refl, keeps, inr (inl (rw same free)))

  register_channel_lem :
      (client : Client)
      → IsValid client.session.channels
      → view client.session.channels id ≡ none
      → client.session.reference_millis ≡ reference
      → Serves client (register_channel commands env client request)
  unfolding register_channel
  register_channel_lem client v free same =
      let (r, put, puts) =
        put_channel-Puts env.subtable_allocated client.session.channels (new_channel id) inside v in
      let after = record client { session = record client.session { channels = r.1 } } in
      let keeps : Keeps id client after = record {
        valid = puts.keeps;
        held = refl;
        schedule = refl;
        others = λ j other. ground (arith, puts.reads j);
      } in
      elim (Bool-cases r.0) [
        | inl stored ↦
            let found : is_some (view r.1 id) ≡ true = ground (arith, puts.reads id) in
            let (last, run, kept, commanded) = start_command_lem after puts.keeps found same in
            (last, rw (put, stored) run, Keeps-trans id _ _ _ keeps kept, commanded)
        | inr dropped ↦
            let (last, run, kept, commanded) =
              refused after (channel_error_line env after id (codes "channel registration failed"))
                puts.keeps (rw (puts.unchanged dropped) free) in
            (last, rw (put, dropped) run, Keeps-trans id _ _ _ keeps kept, commanded)
      ]

  -- With commands that behave well, on a valid table, for an ID of a name that lies inside the
  -- table, and where the timestamps of the messages do not become the least `int`: a command request
  -- is handled to the end and keeps the table valid, the locks and which other channels there are.
  -- If the ID is free, no channel without a command is left unless the connection closes. If it is
  -- not, the table does not change.
  pub handle_command_request-Keeps :
      (client : Client)
      → IsValid client.session.channels
      → client.session.reference_millis ≡ reference
      → (after : Client) × (handle_command_request commands env client request ≡ ok after)
        × Keeps id client after
        × (((view client.session.channels id ≡ none) × HasCommand after id)
            ⊎ ((is_some (view client.session.channels id) ≡ true)
                × (after.session.channels ≡ client.session.channels)))
  unfolding handle_command_request accept_request has_channel
  handle_command_request-Keeps client v same =
      let look = get_channel-view client.session.channels id inside in
      elim (Option-cases (view client.session.channels id)) [
        | inr (channel, busy) ↦
            let line = channel_error_line env client id (codes "channel busy") in
            let (keeps, same) = send_or_close-Keeps env client line id v in
            (send_or_close env client line, simp (look, busy), keeps, inr (rw busy, same))
        | inl free ↦ elim (Bool-cases env.channel_allocated) [
          | inl memory ↦
              let (after, run, keeps, commanded) = register_channel_lem client v free same in
              (after, simp (look, free, memory) run, keeps, inl (free, commanded))
          | inr full ↦
              let (after, run, keeps, commanded) =
                refused client (channel_error_line env client id (codes "channel creation failed"))
                  v free in
              (after, simp (look, free, full) run, keeps, inl (free, commanded))
        ]
      ]
