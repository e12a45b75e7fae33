-- ===== src/Srid/Messages.antt =====
-- Starting SRID (src/command_srid.c) on a channel of the table.
use xprc_server_plugin_c.Common.{
  ℕ, suc, ◌+◌, ◌≡◌, refl, ◌∙◌, inl, inr, true, false, ◌&&◌, Option, none, some, List, [], ◌∷◌, ◌++◌,
  ◌==◌, is_some, if◌then◌else◌, length, codes, Bool-cases, Option-cases,
}
use xprc_server_plugin_c.Common.Int.{ℤ}
use xprc_server_plugin_c.Common.Run.{ok}
use xprc_server_plugin_c.Channels.RoundTrip.{IsChannelId}
use xprc_server_plugin_c.Channels.Table.{InTable, IsValid, view, get_channel-view}
use xprc_server_plugin_c.Errors.{error_incomplete, error_none, error_unspecific}
use xprc_server_plugin_c.Factory.{Command}
use xprc_server_plugin_c.Factory.Laws.{IsKeeping, IsKept-refl, IsKept-trans, write-IsKept}
use xprc_server_plugin_c.Requests.{Request, request_has_only_options}
use xprc_server_plugin_c.Server.Handling.{IsKept}
use xprc_server_plugin_c.Session.{Session, current_time_reference}
use xprc_server_plugin_c.Session.Operations.{Operation, call, call-Outcome}
use xprc_server_plugin_c.Session.Protocol.{is_timely}
use xprc_server_plugin_c.Srid.{
  Environments, ServerInfo, clear_command_ref, refuse, send_messages, srid_command_version,
  srid_create, srid_messages, srid_terminate, tell,
}

-- The timestamps of the messages do not become the least `int`.
unfoldable pub AreTimely : ℤ → Environments → Type 0
AreTimely reference env =
    (n : ℕ)
    → (is_timely reference (env n).0.send.clock current_time_reference ≡ true)
      × (is_timely reference (env n).1.send.clock current_time_reference ≡ true)

module _ (info : ServerInfo) (env : Environments) (reference : ℤ) (timely : AreTimely reference env)
    (id : ℕ) (inside : InTable id) (named : IsChannelId id) where
  -- What a message needs of a session.
  record IsReady (session : Session) : Type 0 where
    same : session.reference_millis ≡ reference
    valid : IsValid session.channels
    here : is_some (view session.channels id) ≡ true

  IsReady-after : (a b : Session) → IsReady a → IsKept a b → IsReady b
  IsReady-after a b ready kept = record {
    same = kept.reference ∙ ready.same;
    valid = kept.valid;
    here = kept.present id ∙ ready.here;
  }

  call-IsKept :
      (operation : Operation) (n : ℕ) (session : Session) (message : Option (List ℕ))
      → IsReady session
      → (r : ℕ × Session) × (call operation
            (env n).0
            (env n).1
            session
            id
            current_time_reference
            message
          ≡ ok r)
        × IsKept session r.1
  unfolding AreTimely
  call-IsKept operation n session message ready =
      let (first, second) = timely n in
      let (r, run, outcome) =
        call-Outcome operation (env n).0 (env n).1 session id current_time_reference message inside
          named (rw ready.same first) (rw ready.same second) ready.valid in
      (
        r,
        run,
        record {
          valid = outcome.continues.valid ready.valid;
          held = outcome.balanced ready.here;
          reference = outcome.continues.reference;
          present = outcome.continues.present ready.valid;
        },
      )

  send_messages-IsKept :
      (messages : List (List ℕ)) (n : ℕ) (session : Session)
      → IsReady session
      → (after : Session) × (send_messages env n session id messages ≡ ok after)
        × IsKept session after
  unfolding send_messages call
  send_messages-IsKept [] n session ready = (session, refl, IsKept-refl session ready.valid)
  send_messages-IsKept (message ∷ messages) n session ready =
      let (r, run, kept) = call-IsKept Operation.continue n session (some message) ready in
      let (after, rest, later) =
        send_messages-IsKept messages (suc n) r.1 (IsReady-after session r.1 ready kept) in
      (after, rw run rest, IsKept-trans session r.1 after kept later)

  refuse-IsKept :
      (session : Session) (text : List ℕ)
      → IsReady session
      → (r : ℕ × Session) × (refuse env session id text ≡ ok r) × IsKept session r.1
  unfolding refuse call
  refuse-IsKept session text ready =
      let (r, run, kept) = call-IsKept Operation.error 0 session (some text) ready in
      ((error_unspecific, r.1), rw run, kept)

  tell-IsKept :
      (session : Session)
      → IsReady session
      → (r : ℕ × Session) × (tell info env session id ≡ ok r) × IsKept session r.1
  unfolding tell call
  tell-IsKept session ready =
      let (a, confirms, first) = call-IsKept Operation.confirm 0 session none ready in
      let ready_a = IsReady-after session a.1 ready first in
      let (b, tells, second) = send_messages-IsKept (srid_messages info) 1 a.1 ready_a in
      let (c, finishes, third) =
        call-IsKept Operation.finish (1 + length (srid_messages info)) b
          (some (codes "x-build-target:" ++ info.build_target))
          (IsReady-after a.1 b ready_a second) in
      (
        (if info.api_formatted && info.xplane_formatted then error_none else error_incomplete, c.1),
        rw (confirms, tells, finishes),
        IsKept-trans session a.1 c.1 first (IsKept-trans a.1 b c.1 second third),
      )

  clear-IsKept :
      (session : Session)
      → IsReady session
      → (after : Session) × (clear_command_ref session id ≡ ok after) × IsKept session after
  unfolding clear_command_ref
  clear-IsKept session ready = elim (Option-cases (view session.channels id)) [
    | inl missing ↦ absurd (
        let no_channel : is_some (view session.channels id) ≡ false = rw missing in
        let here = ready.here in cc)
    | inr (channel, found) ↦ (
      _,
      simp (get_channel-view session.channels id inside, found),
      write-IsKept session id channel (record channel { command_ref = none }) inside ready.valid
          found refl,
    )
  ]

module _ (info : ServerInfo) (env : Environments) (reference : ℤ)
    (timely : AreTimely reference env) where
  -- For a request whose channel is in the table, with an ID of a name that lies inside it, and where
  -- no timestamp becomes the least `int`: starting SRID returns, and keeps the table valid, which
  -- channels there are, the session's reference and its mutex, whatever else the environment
  -- answers.
  pub srid_create-IsKept :
      (version : ℕ) (session : Session) (request : Request)
      → session.reference_millis ≡ reference
      → IsValid session.channels
      → InTable request.channel_id
      → IsChannelId request.channel_id
      → is_some (view session.channels request.channel_id) ≡ true
      → (r : ℕ × Session) × (srid_create info env version session request ≡ ok r)
        × IsKept session r.1
  unfolding srid_create
  srid_create-IsKept version session request same v inside named here =
      let id = request.channel_id in
      let ready : IsReady info env reference timely id inside named session = record {
        same = same;
        valid = v;
        here = here;
      } in
      elim (Bool-cases (version == srid_command_version)) [
        | inr other ↦
            let (r, run, kept) =
              refuse-IsKept info env reference timely id inside named session
                (codes "unexpected command version") ready in
            (r, rw other run, kept)
        | inl supported ↦
            let (cleared, clears, kept) =
              clear-IsKept info env reference timely id inside named session ready in
            let on =
              IsReady-after info env reference timely id inside named session cleared ready kept in
            elim (Bool-cases (request_has_only_options request [])) [
              | inr options ↦
                  let (r, run, later) =
                    refuse-IsKept info env reference timely id inside named cleared
                      (codes "unsupported options") on in
                  (
                    r,
                    rw (supported, clears, options) run,
                    IsKept-trans session cleared r.1 kept later,
                  )
              | inl plain ↦ elim (Bool-cases (length request.parameters == 0)) [
                | inr parameters ↦
                    let (r, run, later) =
                      refuse-IsKept info env reference timely id inside named cleared
                        (codes "unsupported parameters") on in
                    (
                      r,
                      rw (supported, clears, plain, parameters) run,
                      IsKept-trans session cleared r.1 kept later,
                    )
                | inl bare ↦
                    let (r, run, later) =
                      tell-IsKept info env reference timely id inside named cleared on in
                    (
                      r,
                      rw (supported, clears, plain, bare) run,
                      IsKept-trans session cleared r.1 kept later,
                    )
              ]
            ]
      ]

  abbrev pub command_srid : Command
  command_srid = record {
    create = srid_create info env;
    terminate = λ command_ref session. ok (srid_terminate command_ref, session);
  }

  pub command_srid-IsKeeping : IsKeeping reference command_srid
  command_srid-IsKeeping = record {
    creates = srid_create-IsKept;
    terminates = λ command_ref session v. (_, refl, IsKept-refl session v);
  }
