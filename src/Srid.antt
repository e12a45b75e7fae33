-- ===== src/Srid.antt =====
-- src/command_srid.c: the command SRID, which tells what server the client is connected to.
-- The generated header `_buildinfo.h` and the versions of X-Plane are in `ServerInfo`. `env n` is the
-- environment of the n-th message, and of the report of its failure.
pub mod Messages
mod Tests
use xprc_server_plugin_c.Common.{
  ℕ, suc, ◌+◌, Bool, true, false, ◌&&◌, not, Option, none, some, List, [], ◌∷◌, ◌++◌, ◌==◌,
  if◌then◌else◌, is_some, length, codes,
}
use xprc_server_plugin_c.Common.Int.{ℤ}
use xprc_server_plugin_c.Common.Run.{Run, ok, fault, ◌>>=◌}
use xprc_server_plugin_c.Channels.{get_channel, write_channel}
use xprc_server_plugin_c.Errors.{error_incomplete, error_none, error_unspecific}
use xprc_server_plugin_c.Requests.{Request, request_has_only_options}
use xprc_server_plugin_c.Session.{
  Environment, Session, confirm_channel, continue_channel, current_time_reference, error_channel,
  finish_channel,
}
use xprc_server_plugin_c.Text.{decimal}

abbrev pub srid_command_version : ℕ
srid_command_version = 1

-- The last two members tell whether there was memory for the lines with the versions.
pub record ServerInfo : Type 0 where
  pub server_id : List ℕ
  pub server_name : List ℕ
  pub server_version : List ℕ
  pub website : List ℕ
  pub build_id : List ℕ
  pub build_ref : List ℕ
  pub build_time : List ℕ
  pub build_target : List ℕ
  pub xplm_version : ℤ
  pub xplane_version : ℤ
  pub api_formatted : Bool
  pub xplane_formatted : Bool

abbrev pub Environments : Type 0
Environments = ℕ → Environment × Environment

unless_empty : List ℕ → List ℕ → List (List ℕ)
unless_empty label text = if length text == 0 then [] else (label ++ text) ∷ []

if_formatted : Bool → List ℕ → List (List ℕ)
if_formatted formatted text = if formatted then text ∷ [] else []

-- The messages between the confirmation and the last one.
pub srid_messages : ServerInfo → List (List ℕ)
srid_messages info =
    (codes "id:" ++ info.server_id)
    ∷ (codes "name:" ++ info.server_name)
    ∷ (codes "version:" ++ info.server_version)
    ∷ (unless_empty (codes "website:") info.website
        ++ (if_formatted info.api_formatted (codes "apiversion:" ++ decimal info.xplm_version)
            ++ (if_formatted info.xplane_formatted
                  (codes "xpversion:" ++ decimal info.xplane_version)
                ++ (unless_empty (codes "x-build-id:") info.build_id
                    ++ (unless_empty (codes "x-build-ref:") info.build_ref
                        ++ unless_empty (codes "x-build-time:") info.build_time)))))

-- The messages one after another, whose errors are dropped.
send_messages : Environments → ℕ → Session → ℕ → List (List ℕ) → Run Session
send_messages env n session id [] = ok session
send_messages env n session id (message ∷ messages) = do
  r ← continue_channel (env n).0 (env n).1 session id current_time_reference (some message)
  send_messages env (suc n) r.1 id messages

refuse : Environments → Session → ℕ → List ℕ → Run (ℕ × Session)
refuse env session id text = do
  r ← error_channel (env 0).0 session id current_time_reference (some text)
  ok (error_unspecific, r.1)

-- `*command_ref = NULL`
clear_command_ref : Session → ℕ → Run Session
clear_command_ref session id = do
  found ← get_channel session.channels id
  elim found [
    | none ↦ fault
    | some channel ↦ ok (record session {
      channels = write_channel session.channels id (record channel { command_ref = none });
    })
  ]

tell : ServerInfo → Environments → Session → ℕ → Run (ℕ × Session)
tell info env session id = do
  confirmed ← confirm_channel (env 0).0 (env 0).1 session id current_time_reference none
  told ← send_messages env 1 confirmed.1 id (srid_messages info)
  finished ←
      finish_channel (env (1 + length (srid_messages info))).0
        (env (1 + length (srid_messages info))).1 told id current_time_reference
        (some (codes "x-build-target:" ++ info.build_target))
  ok (
    if info.api_formatted && info.xplane_formatted then error_none else error_incomplete,
    finished.1,
  )

-- `version` is that of the command's configuration.
pub srid_create : ServerInfo → Environments → ℕ → Session → Request → Run (ℕ × Session)
srid_create info env version session request =
    let id = request.channel_id in
    if not (version == srid_command_version)
    then refuse env session id (codes "unexpected command version")
    else (do
      cleared ← clear_command_ref session id
      if not (request_has_only_options request [])
          then refuse env cleared id (codes "unsupported options")
          else if not (length request.parameters == 0)
          then refuse env cleared id (codes "unsupported parameters")
          else tell info env cleared id)

pub srid_terminate : Option ℕ → ℕ
srid_terminate command_ref = if is_some command_ref then error_unspecific else error_none

pub srid_destroy : Option ℕ → ℕ
srid_destroy command_ref = if is_some command_ref then error_unspecific else error_none
