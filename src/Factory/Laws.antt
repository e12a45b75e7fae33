-- ===== src/Factory/Laws.antt =====
-- What the server relies on of its commands holds of those of a factory (src/commands.c) if each of
-- them keeps the session.
use xprc_server_plugin_c.Common.{
  ℕ, ◌≡◌, refl, ◌∙◌, inl, inr, arith, true, false, Option, some, ◌==◌, is_some, Bool-cases,
  Option-cases, ==_iff, ap,
}
use xprc_server_plugin_c.Common.Int.{ℤ}
use xprc_server_plugin_c.Common.Run.{ok}
use xprc_server_plugin_c.Channels.{Channel, write_channel}
use xprc_server_plugin_c.Channels.RoundTrip.{IsChannelId}
use xprc_server_plugin_c.Channels.Table.{InTable, IsValid, view, get_channel-view}
use xprc_server_plugin_c.Channels.Table.Writes.{view-id, write_channel_lem}
use xprc_server_plugin_c.Errors.{error_unspecific}
use xprc_server_plugin_c.Requests.{Request}
use xprc_server_plugin_c.Session.{Session}
use xprc_server_plugin_c.Server.{Commands}
use xprc_server_plugin_c.Server.Handling.{AreWellBehaved, IsKept}
use xprc_server_plugin_c.Factory.{
  Command, CommandFactory, create_command, create_found, terminate_command,
}

pub IsKept-refl : (session : Session) → IsValid session.channels → IsKept session session
IsKept-refl session v = record { valid = v; held = refl; reference = refl; present = λ j. refl }

pub IsKept-trans : (a b c : Session) → IsKept a b → IsKept b c → IsKept a c
IsKept-trans a b c p q = record {
  valid = q.valid;
  held = q.held ∙ p.held;
  reference = q.reference ∙ p.reference;
  present = λ j. q.present j ∙ p.present j;
}

-- A channel of the table that is written anew under its ID.
pub write-IsKept :
    (session : Session) (id : ℕ) (old channel : Channel)
    → InTable id
    → IsValid session.channels
    → view session.channels id ≡ some old
    → channel.id ≡ old.id
    → IsKept session (record session { channels = write_channel session.channels id channel })
write-IsKept session id old channel inside v here same =
    let sits = view-id session.channels id old v here in
    let (kept, reads) =
      write_channel_lem session.channels id old channel inside v here (same ∙ sits) in
    record {
      valid = kept;
      held = refl;
      reference = refl;
      present = λ j. elim (Bool-cases (id == j)) [
        | inl own ↦
            let there : view session.channels j ≡ some old =
              ap (view session.channels) (omega (arith, (==_iff id j).0 own)) ∙ here in
            rw (reads j, own, there)
        | inr other ↦ rw (reads j, other)
      ];
    }

-- A command that keeps the session, on sessions with the given reference.
pub record IsKeeping (reference : ℤ) (command : Command) : Type 0 where
  pub creates :
      (version : ℕ) (session : Session) (request : Request)
      → session.reference_millis ≡ reference
      → IsValid session.channels
      → InTable request.channel_id
      → IsChannelId request.channel_id
      → is_some (view session.channels request.channel_id) ≡ true
      → (r : ℕ × Session) × (command.create version session request ≡ ok r) × IsKept session r.1
  pub terminates :
      (command_ref : Option ℕ) (session : Session)
      → IsValid session.channels
      → (r : ℕ × Session) × (command.terminate command_ref session ≡ ok r) × IsKept session r.1

abbrev pub commands_of : CommandFactory → Commands
commands_of factory = record {
  create_command = create_command factory;
  terminate = terminate_command factory;
}

module _ (reference : ℤ) (factory : CommandFactory) where
  create_found-IsKept :
      (session : Session) (request : Request) (channel : Channel) (pointer : ℕ)
      → IsKeeping reference (factory.command_at pointer)
      → session.reference_millis ≡ reference
      → IsValid session.channels
      → InTable request.channel_id
      → IsChannelId request.channel_id
      → view session.channels request.channel_id ≡ some channel
      → (r : ℕ × Session) × (create_found factory session request channel (some pointer) ≡ ok r)
        × IsKept session r.1
  unfolding create_found write_channel
  create_found-IsKept session request channel pointer keeping same v inside named found =
      let id = request.channel_id in
      let moved : Channel = record channel { command = some pointer } in
      let after : Session = record session { channels = write_channel session.channels id moved } in
      let written = write-IsKept session id channel moved inside v found refl in
      elim (Option-cases (factory.configuration request.command_name)) [
        | inl missing ↦ ((error_unspecific, after), rw (create_found, missing), written)
        | inr (version, configured) ↦
            let here : is_some (view session.channels id) ≡ true = rw found in
            let (r, run, kept) =
              keeping.creates version after request same written.valid inside named
                (written.present id ∙ here) in
            (r, rw (create_found, configured) run, IsKept-trans session after r.1 written kept)
      ]

pub commands_of-AreWellBehaved :
    (reference : ℤ) (factory : CommandFactory)
    → ((pointer : ℕ) → IsKeeping reference (factory.command_at pointer))
    → AreWellBehaved reference (commands_of factory)
unfolding create_command terminate_command
commands_of-AreWellBehaved reference factory keeping = record {
  creates = λ session request same v inside named here.
      let look = get_channel-view session.channels request.channel_id inside in
      elim (Option-cases (view session.channels request.channel_id)) [
        | inl missing ↦ absurd (
            let no_channel : is_some (view session.channels request.channel_id) ≡ false =
              rw missing in
            cc)
        | inr (channel, found) ↦ elim (Option-cases (factory.find request.command_name)) [
          | inl unknown ↦ (
            (error_unspecific, session),
            simp (look, found, unknown) (unfold create_found in refl),
            IsKept-refl session v,
          )
          | inr (pointer, known) ↦
              let (r, run, kept) =
                create_found-IsKept reference factory session request channel pointer
                  (keeping pointer) same v inside named found in
              (r, simp (look, found, known, run), kept)
        ]
      ];
  terminates = λ session id channel same v inside named here commanded.
      elim (Option-cases channel.command) [
        | inl missing ↦ absurd (let no_command : is_some channel.command ≡ false = rw missing in cc)
        | inr (pointer, known) ↦
            let (r, run, kept) = (keeping pointer).terminates channel.command_ref session v in
            (r, rw known run, kept)
      ];
}
