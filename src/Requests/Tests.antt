-- ===== src/Requests/Tests.antt =====
-- Runs of src/requests.c and uses of its theorems at concrete requests.
use xprc_server_plugin_c.Channels.{string_to_channel_id, bad_channel_id}
use xprc_server_plugin_c.Common.{◌≡◌, ◌≢◌, refl, true, [], ◌∷◌, codes, arith, str_eq}
use xprc_server_plugin_c.Requests.Parameters.{AllHaveNone, is_parameter_stop, join}
use xprc_server_plugin_c.Requests.Options.{AllOptions, options_text}
use xprc_server_plugin_c.Requests.RoundTrip.{parse_request-line}
use xprc_server_plugin_c.Requests.{
  CommandOption, Request, ok, err, RequestError, parse_request, request_has_option,
  request_has_only_options,
}

abbrev option_freq : CommandOption
option_freq = record { name = codes "freq"; value = codes "5f" }

abbrev sample : Request
sample = record {
  channel_id = 1;
  command_name = codes "DRQV";
  options = option_freq ∷ [];
  parameters = codes "sim/time" ∷ [];
}

short_refused : parse_request (0 ∷ []) (codes "aaab") ≡ err RequestError.invalid_syntax
unfolding parse_request
short_refused = refl

aaab_id : string_to_channel_id (codes "aaab") ≢ bad_channel_id
unfolding string_to_channel_id
aaab_id = omega arith

freq_options : AllOptions (option_freq ∷ [])
freq_options = ((omega arith, (refl, (refl, (refl, (refl, tt)))), (refl, (refl, tt))), tt)

names_plain : AllHaveNone is_parameter_stop (codes "sim/time" ∷ codes "sim/name" ∷ [])
names_plain = (
  (refl, (refl, (refl, (refl, (refl, (refl, (refl, (refl, tt)))))))),
  ((refl, (refl, (refl, (refl, (refl, (refl, (refl, (refl, tt)))))))), tt),
)

only_known : request_has_only_options sample (codes "freq" ∷ codes "phase" ∷ []) ≡ true
unfolding request_has_only_options str_eq
only_known = refl

has_freq : request_has_option sample (codes "freq") ≡ true
unfolding request_has_option str_eq
has_freq = refl

parse_request-line_example :
    parse_request (0 ∷ []) (codes "aaab DRQV;freq=5f sim/time;sim/name")
    ≡ ok (record {
      channel_id = string_to_channel_id (codes "aaab");
      command_name = codes "DRQV";
      options = option_freq ∷ [];
      parameters = codes "sim/time" ∷ codes "sim/name" ∷ [];
    })
unfolding options_text join
parse_request-line_example =
    parse_request-line b'a' b'a' b'a' b'b' b'D' b'R' b'Q' b'V' (0 ∷ []) (option_freq ∷ [])
      (codes "sim/time" ∷ codes "sim/name" ∷ []) (refl, (refl, (refl, (refl, tt)))) aaab_id
      freq_options names_plain
