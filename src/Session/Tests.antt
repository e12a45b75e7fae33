-- ===== src/Session/Tests.antt =====
-- Runs of the code of src/session.c and uses of its theorems at a concrete session.
use xprc_server_plugin_c.Common.{
  ℕ, ◌≡◌, refl, ◌∙◌, sym, ap, inl, inr, Bool-cases, ◌&&◌, ◌==◌, arith, Bool, true, false, none,
  some, [], codes,
}
use mathlib.Core.Option.{some-injective}
use xprc_server_plugin_c.Common.Int.{pos}
use xprc_server_plugin_c.Common.Run.{ok}
use xprc_server_plugin_c.Channels.{
  Channel, ChannelState, ChannelsTable, create_channels_table, put_channel,
}
use xprc_server_plugin_c.Channels.Table.{Puts, view, create_channels_table_lem, put_channel-Puts}
use xprc_server_plugin_c.Session.{
  ChannelAction, Environment, Session, channel_continues, encode_message, timestamp_length,
}
use xprc_server_plugin_c.Session.Encoding.{
  payload_of, read_line, read_line-encode_message, status_of,
}
use xprc_server_plugin_c.Session.Operations.{
  IsFresh, IsTaken, Operation, Outcome, Reachable, Reachable-IsAgreed, call, call-Outcome,
}
use xprc_server_plugin_c.Session.Protocol.{IsAgreed, is_timely}

-- After 2^32 milliseconds, which is a multiple of 2^32, one digit of the timestamp is printed.
truncated : timestamp_length 4294967296 ≡ 1
unfolding timestamp_length
truncated = refl

read_line-encode_message_example :
    read_line (encode_message 1 ChannelState.initial ChannelAction.ack_continue 12 (codes "x y"))
    ≡ record {
      continues = channel_continues ChannelAction.ack_continue;
      status = status_of ChannelState.initial ChannelAction.ack_continue (codes "x y");
      channel_id = 1;
      payload = payload_of 12 (codes "x y");
    }
read_line-encode_message_example =
    read_line-encode_message 1 ChannelState.initial ChannelAction.ack_continue 12 (codes "x y")
      (omega arith) (omega arith)

abbrev channel : Channel
channel = record {
  id = 1;
  state = ChannelState.initial;
  destruction_requested = false;
  command = some 1;
  command_ref = some 2;
}

-- The table after the channel has been put.
put :
    (r : Bool × ChannelsTable) × (put_channel true create_channels_table channel ≡ ok r)
    × Puts true create_channels_table channel r
put = put_channel-Puts true create_channels_table channel (omega arith) create_channels_table_lem.0

abbrev session : Session
session = record {
  reference_millis = pos 1000;
  channels = put.0.1;
  destruction_pending = false;
  held = 0;
  sent = [];
}

abbrev env : Environment
env = record {
  seen_destruction = false;
  locked = true;
  send = record { clock = pos 1500; allocated = true; network = 0 };
}

session-IsFresh : IsFresh session
session-IsFresh = record {
  valid = put.2.keeps;
  silent = refl;
  unopened = λ id c here.
      let reads = put.2.reads id in
      elim (Bool-cases (put.0.0 && (1 == id))) [
        | inl own ↦
            let same : channel ≡ c = some-injective _ _ (sym (reads ∙ rw own) ∙ here) in
            ap (λ (d : Channel). d.state) (sym same)
        | inr other ↦ absurd (
            let nothing : view put.0.1 id ≡ none =
              reads ∙ rw other (create_channels_table_lem.1 id) in
            cc)
      ];
}

confirmed :
    (r : ℕ × Session) × (call Operation.confirm env env session 1 (pos 12) none ≡ ok r)
    × Outcome (IsTaken env env) env session 1 r
unfolding is_timely
confirmed =
    call-Outcome Operation.confirm env env session 1 (pos 12) none (omega arith) (omega arith) refl
      refl put.2.keeps

timely : is_timely confirmed.0.1.reference_millis env.send.clock (pos 15) ≡ true
unfolding is_timely
timely = refl

call-Outcome_example :
    (r : ℕ × Session) × (call Operation.finish env env confirmed.0.1 1 (pos 15) (some (codes "bye"))
      ≡ ok r)
    × Outcome (IsTaken env env) env confirmed.0.1 1 r
call-Outcome_example =
    call-Outcome Operation.finish env env confirmed.0.1 1 (pos 15) (some (codes "bye"))
      (omega arith) (omega arith) timely timely (confirmed.2.continues.valid put.2.keeps)

Reachable-IsAgreed_example : IsAgreed confirmed.0.1
unfolding is_timely
Reachable-IsAgreed_example = Reachable-IsAgreed session confirmed.0.1 session-IsFresh (
    Reachable.called session confirmed.0.1 Operation.confirm env env 1 confirmed.0.0 (pos 12) none
      (omega arith) (omega arith) (refl, refl) refl refl Reachable.started confirmed.1)
