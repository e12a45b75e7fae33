-- ===== src/Requests.antt =====
-- src/requests.c: requests and their parser. A received line is the list of its `length` bytes.
-- What the receive buffer holds behind it, up to a zero byte, is the parameter `behind`, since the
-- parser reads there too. Memory is taken to suffice.
pub mod Parameters
pub mod Options
pub mod RoundTrip
pub mod Lookup
mod Tests
use xprc_server_plugin_c.Channels.{string_to_channel_id, bad_channel_id}
use xprc_server_plugin_c.Common.{
  ℕ, zero, suc, ◌+◌, ◌-◌, Bool, true, false, ◌&&◌, ◌||◌, not, Option, none, some, List, [], ◌∷◌,
  ◌++◌, ltb, leb, ◌==◌, if◌then◌else◌, get_or, length, take, drop, str_eq,
}

abbrev pub channel_id_length : ℕ
channel_id_length = 4

abbrev pub command_name_length : ℕ
command_name_length = 4

abbrev pub minimum_request_length : ℕ
minimum_request_length = channel_id_length + 1 + command_name_length

abbrev pub separator : ℕ
separator = b';'

abbrev pub option_end_of_key : ℕ
option_end_of_key = b'='

abbrev pub request_part_separator : ℕ
request_part_separator = b' '

pub record CommandOption : Type 0 where
  pub name : List ℕ
  pub value : List ℕ

pub record Request : Type 0 where
  pub channel_id : ℕ
  pub command_name : List ℕ
  pub options : List CommandOption
  pub parameters : List (List ℕ)

pub data RequestError : Type 0 where
  invalid_syntax duplicate_option : RequestError

pub data Result (A : Type 0) : Type 0 where
  ok : A → Result A
  err : RequestError → Result A

infixl 5 ◌>>=◌
abbrev pub ◌>>=◌ : {A B : Type 0} → Result A → (A → Result B) → Result B
ok a >>= f = f a
err e >>= f = err e

has_option : List CommandOption → List ℕ → Bool
has_option [] name = false
has_option (option ∷ options) name = str_eq option.name name || has_option options name

unfoldable pub request_has_option : Request → List ℕ → Bool
unfolding has_option
request_has_option request name = has_option request.options name

unfoldable pub one_of : List ℕ → List (List ℕ) → Bool
one_of name [] = false
one_of name (n ∷ names) = str_eq name n || one_of name names

only_options : List CommandOption → List (List ℕ) → Bool
only_options [] names = true
only_options (option ∷ options) names = one_of option.name names && only_options options names

unfoldable pub request_has_only_options : Request → List (List ℕ) → Bool
unfolding only_options one_of
request_has_only_options request names = only_options request.options names

option_value : List CommandOption → List ℕ → Option (List ℕ) → Option (List ℕ)
option_value [] name default_value = default_value
option_value (option ∷ options) name default_value =
    if str_eq option.name name then some option.value else option_value options name default_value

-- The default value may be NULL.
unfoldable pub request_get_option : Request → List ℕ → Option (List ℕ) → Option (List ℕ)
unfolding option_value
request_get_option request name default_value = option_value request.options name default_value

-- A C string: the bytes before the first zero byte.
pub c_string : List ℕ → List ℕ
c_string [] = []
c_string (c ∷ s) = if c == 0 then [] else c ∷ c_string s

unfoldable pub copy_substring : List ℕ → ℕ → ℕ → List ℕ
unfolding c_string
copy_substring line start count = c_string (take count (drop start line))

-- The comparisons of `add_option`: `name` is the line from the key on, and the walk ends before
-- the last option.
is_duplicate : List ℕ → List CommandOption → Bool
is_duplicate name [] = false
is_duplicate name (option ∷ []) = false
is_duplicate name (option ∷ next ∷ options) =
    str_eq name option.name || is_duplicate name (next ∷ options)

unfoldable pub add_option :
    List ℕ → List ℕ → List CommandOption → ℕ → ℕ → ℕ → ℕ → Result (List CommandOption)
unfolding is_duplicate c_string copy_substring
add_option behind line options key_start key_length value_start value_length =
    if is_duplicate (c_string (drop key_start line ++ behind)) options
    then err duplicate_option
    else ok (
        options
        ++ record {
          name = copy_substring line key_start key_length;
          value = copy_substring line value_start value_length;
        }
          ∷ [])

-- The variables of the loop over the options. Zero stands for "not yet".
pub record OptionState : Type 0 where
  pub key_start : ℕ
  pub key_length : ℕ
  pub value_start : ℕ

abbrev pub no_option : OptionState
no_option = record { key_start = 0; key_length = 0; value_start = 0 }

-- The starts that the loop notes at an offset.
note_start : ℕ → OptionState → OptionState
note_start offset s =
    if s.key_start == 0
    then record s { key_start = offset }
    else if not (s.key_length == 0) && (s.value_start == 0)
    then record s { value_start = offset }
    else s

abbrev pub is_incomplete : OptionState → Bool
is_incomplete s = s.key_start == 0 || s.key_length == 0 || s.value_start == 0

-- The end of an option at an offset.
end_option : List ℕ → List ℕ → List CommandOption → ℕ → OptionState → Result (List CommandOption)
end_option behind line options offset s =
    if is_incomplete s
    then err invalid_syntax
    else add_option behind line options s.key_start s.key_length s.value_start
        (offset - s.value_start)

-- The loop over the options from an offset, with the bytes from there to the end of the line. The
-- result is the options and what is left of the line for the parameters.
pub options_loop :
    List ℕ
    → List ℕ
    → List CommandOption
    → OptionState
    → ℕ
    → List ℕ
    → Result (List CommandOption × ℕ × List ℕ)
options_loop behind line options s offset [] = do
  options' ← end_option behind line options offset (note_start offset s)
  ok (options', offset, [])
options_loop behind line options s offset (ch ∷ rest) =
    let noted = note_start offset s in
    let next_option = (do
      options' ← end_option behind line options offset noted
      options_loop behind line options' no_option (offset + 1) rest) in
    let keyed =
      options_loop behind line options (record noted { key_length = offset - noted.key_start })
        (offset + 1) rest in
    let more = options_loop behind line options noted (offset + 1) rest in
    if ch == request_part_separator
    then (do
      options' ← end_option behind line options offset noted
      ok (options', offset + 1, rest))
    else if ch == separator
    then next_option
    else if (s.key_length == 0) && (ch == option_end_of_key)
    then keyed
    else more

-- The loop over the parameters, likewise. A start of zero stands for "not yet".
pub parameters_loop : List ℕ → ℕ → ℕ → List ℕ → List (List ℕ)
parameters_loop line start offset [] =
    let start' = if start == 0 then offset else start in
    copy_substring line start' (offset - start') ∷ []
parameters_loop line start offset (ch ∷ rest) =
    let start' = if start == 0 then offset else start in
    let ended =
      copy_substring line start' (offset - start') ∷ parameters_loop line 0 (offset + 1) rest in
    let more = parameters_loop line start' (offset + 1) rest in
    if ch == separator then ended else more

parse_options : List ℕ → List ℕ → Result (List CommandOption × ℕ × List ℕ)
parse_options behind line =
    let offset = minimum_request_length + 1 in
    if (get_or (line ++ behind) minimum_request_length 0 == separator) && leb offset (length line)
    then options_loop behind line [] no_option offset (drop offset line)
    else ok ([], offset, drop offset line)

parse_parameters : List ℕ → ℕ → List ℕ → List (List ℕ)
parse_parameters line offset rest =
    if leb offset (length line) then parameters_loop line 0 offset rest else []

unfoldable pub parse_request : List ℕ → List ℕ → Result Request
unfolding parse_options parse_parameters parameters_loop options_loop end_option note_start
    copy_substring
parse_request behind line =
    if ltb (length line) minimum_request_length
    then err invalid_syntax
    else if not (get_or line channel_id_length 0 == request_part_separator)
    then err invalid_syntax
    else if ltb minimum_request_length (length line)
        && not (get_or (line ++ behind) minimum_request_length 0 == request_part_separator)
        && not (get_or (line ++ behind) minimum_request_length 0 == separator)
    then err invalid_syntax
    else if string_to_channel_id line == bad_channel_id
    then err invalid_syntax
    else (do
      (options, offset, rest) ← parse_options behind line
      ok (record {
        channel_id = string_to_channel_id line;
        command_name = copy_substring line (channel_id_length + 1) command_name_length;
        options = options;
        parameters = parse_parameters line offset rest;
      }))
