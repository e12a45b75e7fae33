-- ===== src/Server/Locks.antt =====
-- What `handle_request` of src/server.c does to the two mutexes.
use xprc_server_plugin_c.Common.{
  ℕ, ◌+◌, ◌≡◌, refl, inl, inr, arith, true, false, ◌||◌, none, some, codes, ◌==◌, is_some,
  Bool-cases, Option-cases, str_eq,
}
use xprc_server_plugin_c.Common.Int.{ℤ}
use xprc_server_plugin_c.Common.Run.{ok}
use xprc_server_plugin_c.Channels.{Channel}
use xprc_server_plugin_c.Channels.RoundTrip.{IsChannelId}
use xprc_server_plugin_c.Channels.Table.{InTable, IsValid, view, get_channel-view}
use xprc_server_plugin_c.Errors.{error_none}
use xprc_server_plugin_c.Requests.{Request}
use xprc_server_plugin_c.Session.{Session, lock_session, unlock_session}
use xprc_server_plugin_c.Session.Operations.{lock_session_lem}
use xprc_server_plugin_c.Server.{
  Client, Commands, LineEnvironment, close_network_connection, handle_request,
  handle_termination_request, ignore_termination, is_closed, serve_request, terminate_channel,
  unlock_both,
}
use xprc_server_plugin_c.Server.Handling.{
  AreWellBehaved, IsTimely, Keeps, handle_command_request-Keeps, send_or_close-Keeps,
}

-- The outcome of a request. Without the schedule nothing is locked; without the session the schedule
-- stays locked; with both, both are free again. The connection closes in the first two cases.
pub record Locks (env : LineEnvironment) (before after : Client) : Type 0 where
  pub no_schedule :
      (env.schedule_error == error_none) ≡ false → after ≡ record before { closing = true }
  pub leaks :
      (env.schedule_error == error_none) ≡ true
      → lock_session env.lock before.session ≡ none
      → after ≡ record before { closing = true; schedule_held = before.schedule_held + 1 }
  pub balanced :
      (locked : Session)
      → (env.schedule_error == error_none) ≡ true
      → lock_session env.lock before.session ≡ some locked
      → (after.schedule_held ≡ before.schedule_held) × (after.session.held ≡ before.session.held)
  pub valid : IsValid after.session.channels

module _ (reference : ℤ) (commands : Commands) (behaved : AreWellBehaved reference commands)
    (env : LineEnvironment) (timely : IsTimely reference env) (request : Request)
    (inside : InTable request.channel_id) (named : IsChannelId request.channel_id) where
  abbrev id : ℕ
  id = request.channel_id

  -- An open channel has a command.
  abbrev IsCommanded : Client → Type 0
  IsCommanded client =
      (channel : Channel)
      → view client.session.channels id ≡ some channel
      → is_some channel.command ≡ true

  ignored :
      (client : Client)
      → IsValid client.session.channels
      → Keeps id client (ignore_termination env client id)
  unfolding ignore_termination
  ignored client v = (send_or_close-Keeps env client _ id v).0

  terminate_channel_lem :
      (client : Client) (channel : Channel)
      → IsValid client.session.channels
      → view client.session.channels id ≡ some channel
      → is_some channel.command ≡ true
      → client.session.reference_millis ≡ reference
      → (after : Client) × (terminate_channel commands env client id channel ≡ ok after)
        × Keeps id client after
  unfolding terminate_channel close_network_connection
  terminate_channel_lem client channel v found commanded same =
      let (r, termination, kept) =
        behaved.terminates client.session id channel same v inside named found commanded in
      elim (Bool-cases (is_closed channel.state || channel.destruction_requested)) [
        | inl ended ↦ (ignore_termination env client id, rw ended refl, ignored client v)
        | inr live ↦ elim (Bool-cases (r.0 == error_none)) [
          | inl fine ↦ (
            record client { session = r.1 },
            rw (live, commanded, termination, fine) refl,
            record {
              valid = kept.valid;
              held = kept.held;
              schedule = refl;
              others = λ j other. kept.present j;
            },
          )
          | inr failed ↦ (
            close_network_connection (record client { session = r.1 }),
            rw (live, commanded, termination, failed) refl,
            record {
              valid = kept.valid;
              held = kept.held;
              schedule = refl;
              others = λ j other. kept.present j;
            },
          )
        ]
      ]

  serve_request_lem :
      (client : Client)
      → IsValid client.session.channels
      → IsCommanded client
      → client.session.reference_millis ≡ reference
      → (after : Client) × (serve_request commands env client request ≡ ok after)
        × Keeps id client after
  unfolding serve_request handle_termination_request
  serve_request_lem client v commanded same =
      let look = get_channel-view client.session.channels id inside in
      elim (Bool-cases (str_eq (codes "TERM") request.command_name)) [
        | inr other ↦
            let (after, run, keeps, rest) =
              handle_command_request-Keeps request inside named reference commands behaved env
                timely client v same in
            (after, simp other run, keeps)
        | inl termination ↦ elim (Option-cases (view client.session.channels id)) [
          | inl missing ↦ (
            ignore_termination env client id,
            simp (termination, look, missing),
            ignored client v,
          )
          | inr (channel, found) ↦
              let (after, run, keeps) =
                terminate_channel_lem client channel v found (commanded channel found) same in
              (after, simp (termination, look, found) run, keeps)
        ]
      ]

  -- With commands that behave well, for an ID of a name that lies inside the table, on a valid table
  -- whose channel of the ID, if there is one, has a command, and where the timestamps of the
  -- messages on the channel do not become the least `int`: a request is handled to the end, and the
  -- table stays valid. If the schedule cannot be locked, the connection closes and nothing else
  -- happens. If the session cannot be locked after the schedule, the connection closes and the
  -- schedule stays locked. Otherwise both mutexes are as they were.
  pub handle_request-Locks :
      (client : Client)
      → IsValid client.session.channels
      → IsCommanded client
      → client.session.reference_millis ≡ reference
      → (after : Client) × (handle_request commands env client request ≡ ok after)
        × Locks env client after
  unfolding handle_request unlock_both unlock_session close_network_connection
  handle_request-Locks client v commanded same =
      elim (Bool-cases (env.schedule_error == error_none)) [
        | inr refused ↦ (
          close_network_connection client,
          simp refused,
          record { no_schedule = λ _. refl; leaks = λ e _. cc; balanced = λ l e _. cc; valid = v },
        )
        | inl scheduled ↦ elim (lock_session_lem env.lock client.session) [
          | inl missing ↦ (
            _,
            simp (scheduled, missing),
            record {
              no_schedule = λ e. cc;
              leaks = λ _ _. refl;
              balanced = λ l _ e. cc;
              valid = v;
            },
          )
          | inr had ↦
              let locked = record client {
                schedule_held = client.schedule_held + 1;
                session = record client.session { held = client.session.held + 1 };
              } in
              let (after, run, keeps) = serve_request_lem locked v commanded same in
              (
                unlock_both after,
                simp (scheduled, had, run),
                record {
                  no_schedule = λ e. cc;
                  leaks = λ _ e. cc;
                  balanced = λ l _ _. (omega (arith, keeps.schedule), omega (arith, keeps.held));
                  valid = keeps.valid;
                },
              )
        ]
      ]
