-- ===== src/Session/Operations.antt =====
-- `confirm_channel`, `continue_channel`, `finish_channel` and `error_channel` of src/session.c on a
-- valid table: they return, they keep to the protocol, and what they do to the mutex.
use xprc_server_plugin_c.Common.{
  ℕ, ◌+◌, ◌≡◌, ◌⊎◌, refl, ◌∙◌, sym, inl, inr, arith, true, Option, none, some, List, [], ap, subst,
  codes, is_some, ◌==◌, Bool-cases, Option-cases, if◌then◌else◌, ◌||◌, not,
}
use mathlib.Core.Option.{some-injective}
use xprc_server_plugin_c.Common.Int.{ℤ}
use xprc_server_plugin_c.Common.Run.{Run, ok, fault, ◌>>=◌}
use xprc_server_plugin_c.Channels.{Channel, ChannelState}
use xprc_server_plugin_c.Channels.RoundTrip.{IsChannelId}
use xprc_server_plugin_c.Channels.Table.{InTable, IsValid, view, get_channel-view}
use xprc_server_plugin_c.Errors.{error_none, error_mutex_failed, session_error_no_such_channel}
use xprc_server_plugin_c.Session.{
  ChannelAction, Environment, Session, lock_session, unlock_session, with_channel, send_channel,
  error_channel, report_failure, confirm_channel, continue_channel, finish_channel, is_initial,
}
use xprc_server_plugin_c.Session.Protocol.{
  Continues, Continues-refl, Continues-trans, Continues-weaken, is_timely, IsAgreed, client_state,
  send_channel-Continues,
}

-- The network takes the lines of a call.
abbrev pub IsTaken : Environment → Environment → Type 0
IsTaken env again = (env.send.network ≡ error_none) × (again.send.network ≡ error_none)

-- The outcome `r` of a call on a channel ID: the client's view stays true if the lines are `taken`; without the lock nothing
-- happens; without the channel the session stays locked; with it the mutex is as it was.
pub record Outcome (taken : Type 0) (env : Environment) (session : Session) (id : ℕ)
    (r : ℕ × Session) : Type 0 where
  pub continues : Continues taken session r.1
  pub refused : lock_session env session ≡ none → r ≡ (error_mutex_failed, session)
  pub leaks :
      (locked : Session)
      → lock_session env session ≡ some locked
      → view session.channels id ≡ none
      → (r ≡ (session_error_no_such_channel, locked)) × (r.1.held ≡ session.held + 1)
  pub balanced : is_some (view session.channels id) ≡ true → r.1.held ≡ session.held

same-Continues :
    (taken : Type 0) (session : Session) (held : ℕ)
    → Continues taken session (record session { held = held })
same-Continues taken session held = record {
  reference = refl;
  agreed = λ _ a. record { valid = a.valid; agrees = a.agrees };
  present = λ v id. refl;
  final = λ v id c e closed. e;
  valid = λ v. v;
}

pub lock_session_lem :
    (env : Environment) (session : Session)
    → (lock_session env session ≡ none)
      ⊎ (lock_session env session ≡ some (record session { held = session.held + 1 }))
unfolding lock_session
lock_session_lem env session =
    elim (Bool-cases (env.seen_destruction || not env.locked || session.destruction_pending)) [
      | inl refused ↦ inl (rw refused)
      | inr had ↦ inr (rw had)
    ]

module _ (taken : Type 0) (session : Session) (id : ℕ) (inside : InTable id)
    (v : IsValid session.channels) where
  abbrev locked : Session
  locked = record session { held = session.held + 1 }

  -- What a body does with the channel that it is given.
  abbrev Completes : Run (ℕ × Session) → Type 0
  Completes run =
      (r : ℕ × Session) × (run ≡ ok r) × Continues taken locked r.1 × (r.1.held ≡ session.held)

  leaked : (l : Session) → some locked ≡ some l → locked ≡ l
  leaked l e = some-injective _ _ e

  with_channel-Outcome :
      (env : Environment) (body : Session → Channel → Run (ℕ × Session))
      → ((channel : Channel)
          → view session.channels id ≡ some channel
          → Completes (body locked channel))
      → (r : ℕ × Session) × (with_channel env session id body ≡ ok r)
        × Outcome taken env session id r
  unfolding with_channel
  with_channel-Outcome env body completes = elim (lock_session_lem env session) [
    | inl refused ↦ (
      (error_mutex_failed, session),
      rw (refused, with_channel),
      record {
        continues = Continues-refl taken session;
        refused = λ _. refl;
        leaks = λ l e missing. cc;
        balanced = λ _. refl;
      },
    )
    | inr had ↦ elim (Option-cases (view session.channels id)) [
      | inl missing ↦ (
        (session_error_no_such_channel, locked),
        rw (had, with_channel, get_channel-view session.channels id inside, missing),
        record {
          continues = same-Continues taken session _;
          refused = λ e. cc;
          leaks = λ l e _. (rw (leaked l (sym had ∙ e)), refl);
          balanced = λ e. cc;
        },
      )
      | inr (channel, here) ↦
          let (r, run, continues, held) = completes channel here in
          (
            r,
            rw (had, with_channel, get_channel-view session.channels id inside, here) run,
            record {
              continues =
                  Continues-trans taken session locked r.1 (same-Continues taken session _)
                    continues;
              refused = λ e. cc;
              leaks = λ l e missing. cc;
              balanced = λ _. held;
            },
          )
    ]
  ]

module _ (id : ℕ) (inside : InTable id) (named : IsChannelId id) (timestamp : ℤ) where
  -- `error_channel` returns, with the outcome of a call.
  pub error_channel-Outcome :
      (env : Environment) (session : Session) (message : Option (List ℕ))
      → IsValid session.channels
      → is_timely session.reference_millis env.send.clock timestamp ≡ true
      → (r : ℕ × Session) × (error_channel env session id timestamp message ≡ ok r)
        × Outcome (env.send.network ≡ error_none) env session id r
  unfolding error_channel unlock_session
  error_channel-Outcome env session message v timely =
      let taken = env.send.network ≡ error_none in
      with_channel-Outcome taken session id inside v env _ (λ channel here.
        let (r, run, continues, held) =
          send_channel-Continues env.send (locked taken session id inside v) id channel
            ChannelAction.err timestamp message inside named timely here in
        (
          (r.0, unlock_session r.1),
          rw run,
          Continues-trans taken _ _ _ continues (same-Continues taken _ _),
          omega (arith, held),
        ))

  module _ (env again : Environment) (session : Session) (v : IsValid session.channels)
      (reports : is_timely session.reference_millis again.send.clock timestamp ≡ true) where
    -- The report of a failure leaves the mutex as the call's lock found it.
    report_failure-Completes :
        (after : Session) (text : List ℕ) (e : ℕ)
        → is_some (view session.channels id) ≡ true
        → Continues (IsTaken env again) (locked (IsTaken env again) session id inside v) after
        → after.held ≡ session.held + 1
        → Completes
            (IsTaken env again)
            session
            id
            inside
            v
            (report_failure again after id timestamp text e)
    unfolding report_failure unlock_session
    report_failure-Completes after text e here continues held =
        let taken = IsTaken env again in
        let timely : is_timely after.reference_millis again.send.clock timestamp ≡ true =
          rw continues.reference reports in
        let (r, run, outcome) =
          error_channel-Outcome again after (some text) (continues.valid v) timely in
        let balanced = outcome.balanced (continues.present v id ∙ here) in
        elim (Bool-cases (e == error_none)) [
          | inl sent ↦ (
            (e, unlock_session after),
            rw sent,
            Continues-trans taken _ _ _ continues (same-Continues taken _ _),
            omega (arith, held),
          )
          | inr failed ↦ (
            (e, unlock_session r.1),
            rw (failed, run),
            Continues-trans taken _ _ _ continues (
                Continues-trans taken _ _ _
                  (Continues-weaken _ taken _ _ (λ t. t.1) outcome.continues)
                  (same-Continues taken _ _)),
            omega (arith, held, balanced),
          )
        ]

    -- An attempt to send whose failure is reported.
    attempt-Outcome :
        (action : Channel → ChannelAction) (message : Option (List ℕ)) (text : List ℕ)
        → is_timely session.reference_millis env.send.clock timestamp ≡ true
        → (r : ℕ × Session) × (with_channel env session id (λ l channel. do
          q ← send_channel env.send l channel (action channel) timestamp message
          report_failure again q.1 id timestamp text q.0)
            ≡ ok r)
          × Outcome (IsTaken env again) env session id r
    attempt-Outcome action message text timely =
        let taken = IsTaken env again in
        with_channel-Outcome taken session id inside v env _ (λ channel here.
          let (q, sent, continues, held) =
            send_channel-Continues env.send (locked taken session id inside v) id channel
              (action channel) timestamp message inside named timely here in
          let (r, run, after, balance) =
            report_failure-Completes q.1 text q.0 (rw here)
              (Continues-weaken _ taken _ _ (λ t. t.0) continues) held in
          (r, rw sent run, after, balance))

-- The operations on a channel.
pub data Operation : Type 0 where
  confirm continue finish error : Operation

unfoldable pub call :
    Operation → Environment → Environment → Session → ℕ → ℤ → Option (List ℕ) → Run (ℕ × Session)
unfolding confirm_channel continue_channel finish_channel error_channel
call Operation.confirm env again = confirm_channel env again
call Operation.continue env again = continue_channel env again
call Operation.finish env again = finish_channel env again
call Operation.error env again = error_channel env

weaken-Outcome :
    (env again : Environment) (session : Session) (id : ℕ) (r : ℕ × Session)
    → Outcome (env.send.network ≡ error_none) env session id r
    → Outcome (IsTaken env again) env session id r
weaken-Outcome env again session id r o = record {
  continues = Continues-weaken _ _ _ _ (λ t. t.0) o.continues;
  refused = o.refused;
  leaks = o.leaks;
  balanced = o.balanced;
}

-- On a valid table and an ID inside it that has a name, and where the timestamps of the message and
-- of the report of a failure do not become the least `int`, each of the four operations returns.
-- Nothing happens if the session cannot be locked. If the channel does not exist, the session stays
-- locked after the call. Otherwise the mutex is as before, a closed channel stays as it is, no
-- channel appears or goes, and the client's view of the channels stays true if the network takes the
-- lines.
pub call-Outcome :
    (operation : Operation) (env again : Environment) (session : Session) (id : ℕ) (timestamp : ℤ)
    (message : Option (List ℕ))
    → InTable id
    → IsChannelId id
    → is_timely session.reference_millis env.send.clock timestamp ≡ true
    → is_timely session.reference_millis again.send.clock timestamp ≡ true
    → IsValid session.channels
    → (r : ℕ × Session) × (call operation env again session id timestamp message ≡ ok r)
      × Outcome (IsTaken env again) env session id r
unfolding call confirm_channel continue_channel finish_channel
call-Outcome Operation.confirm env again session id timestamp message inside named timely reports
      v =
    attempt-Outcome id inside named timestamp env again session v reports
      (λ _. ChannelAction.ack_continue) message (codes "failed to confirm channel") timely
call-Outcome Operation.continue env again session id timestamp message inside named timely reports
      v =
    attempt-Outcome id inside named timestamp env again session v reports
      (λ _. ChannelAction.continue) message (codes "failed to continue channel") timely
call-Outcome Operation.finish env again session id timestamp message inside named timely reports v =
    attempt-Outcome id inside named timestamp env again session v reports
      (λ channel. if is_initial channel.state then ChannelAction.ack_close else ChannelAction.close)
      message (codes "failed to finish channel") timely
call-Outcome Operation.error env again session id timestamp message inside named timely reports v =
    let (r, run, outcome) =
      error_channel-Outcome id inside named timestamp env session message v timely in
    (r, run, weaken-Outcome env again session id r outcome)

-- A session before its first message: a valid table of channels that nothing was sent on.
pub record IsFresh (session : Session) : Type 0 where
  pub valid : IsValid session.channels
  pub silent : session.sent ≡ []
  pub unopened :
      (id : ℕ) (channel : Channel)
      → view session.channels id ≡ some channel
      → channel.state ≡ ChannelState.initial

-- What the operations lead to, in any order, on IDs of names inside the table, where the network takes
-- the lines and the timestamps do not become the least `int`; else whatever the environment answers.
pub data Reachable (start : Session) : Session → Type 0 where
  started : Reachable start start
  called :
      (session after : Session) (operation : Operation) (env again : Environment) (id e : ℕ)
      (timestamp : ℤ) (message : Option (List ℕ))
      → InTable id
      → IsChannelId id
      → IsTaken env again
      → is_timely session.reference_millis env.send.clock timestamp ≡ true
      → is_timely session.reference_millis again.send.clock timestamp ≡ true
      → Reachable start session
      → call operation env again session id timestamp message ≡ ok (e, after)
      → Reachable start after

-- The session that a run leaves.
result_session : Run (ℕ × Session) → Session → Session
result_session fault before = before
result_session (ok r) before = r.1

-- In whatever order the operations are called on a fresh session, with IDs of names inside the
-- table, a network that takes every line, timestamps that do not become the least `int`, and
-- whatever the clock, the allocator and the mutex answer: the lines that were sent begin each
-- channel with a confirmation or an error, close it with an error and send nothing after a closing
-- line, and the client that reads them has each channel in the state that the server has it in.
pub Reachable-IsAgreed :
    (start session : Session) → IsFresh start → Reachable start session → IsAgreed session
unfolding client_state result_session
Reachable-IsAgreed start _ fresh started = record {
  valid = fresh.valid;
  agrees = λ id channel named here. rw (fresh.silent, fresh.unopened id channel here);
}
Reachable-IsAgreed start _ fresh
      (called session after operation env again id e timestamp message inside named taken timely
        reports reached run) =
    let agreed = Reachable-IsAgreed start session fresh reached in
    let (r, ran, outcome) =
      call-Outcome operation env again session id timestamp message inside named timely reports
        agreed.valid in
    let same : r.1 ≡ after = ap (λ q. result_session q session) (sym ran ∙ run) in
    subst IsAgreed same (outcome.continues.agreed taken agreed)
