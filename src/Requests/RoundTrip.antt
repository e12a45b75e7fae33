-- ===== src/Requests/RoundTrip.antt =====
-- `parse_request` of src/requests.c reads back the requests that a client writes.
use xprc_server_plugin_c.Channels.{string_to_channel_id, bad_channel_id}
use xprc_server_plugin_c.Common.{
  ℕ, ◌<◌, ◌≡◌, ◌≢◌, refl, ◌∙◌, ap, true, false, ◌&&◌, not, List, [], ◌∷◌, ◌++◌, arith, ◌==◌, ltb,
  leb, length, get_or, drop, map, Bool, length_bytes-append,
}
use xprc_server_plugin_c.Requests.Parameters.{
  parameters_loop-pieces, split, join, c_string-plain, c_strings-join, AllHaveNone, HasNone,
  is_parameter_stop,
}
use xprc_server_plugin_c.Requests.Options.{
  AllOptions, options_text, options_loop-end, options_loop-space,
}
use xprc_server_plugin_c.Requests.{
  separator, c_string, request_part_separator, minimum_request_length, CommandOption, ok, ◌>>=◌,
  no_option, copy_substring, options_loop, parse_options, parse_parameters, parse_request,
}

-- What stands behind the command name.
abbrev pub request_tail : List CommandOption → List (List ℕ) → List ℕ
request_tail [] [] = []
request_tail [] (p ∷ ps) = request_part_separator ∷ join p ps
request_tail (o ∷ os) [] = separator ∷ options_text o os []
request_tail (o ∷ os) (p ∷ ps) = separator ∷ options_text o os (request_part_separator ∷ join p ps)

-- The parameters that the parser reports: one empty parameter behind options alone.
abbrev pub read_parameters : List CommandOption → List (List ℕ) → List (List ℕ)
read_parameters [] ps = ps
read_parameters (o ∷ os) [] = [] ∷ []
read_parameters (o ∷ os) (p ∷ ps) = p ∷ ps

-- The end of a C string.
abbrev pub is_end : ℕ → Bool
is_end c = c == 0

module _ (a b c d w x y z : ℕ) where
  abbrev pub channel_name : List ℕ
  channel_name = a ∷ b ∷ c ∷ d ∷ []

  abbrev pub command : List ℕ
  command = w ∷ x ∷ y ∷ z ∷ []

  -- The line of a request.
  abbrev pub request_line : List ℕ → List ℕ
  request_line tail = a ∷ b ∷ c ∷ d ∷ request_part_separator ∷ w ∷ x ∷ y ∷ z ∷ tail

  same_channel :
      (tail : List ℕ) → string_to_channel_id (request_line tail) ≡ string_to_channel_id channel_name
  unfolding string_to_channel_id
  same_channel tail = refl

  same_command :
      (tail : List ℕ) → HasNone is_end command → copy_substring (request_line tail) 5 4 ≡ command
  unfolding copy_substring
  same_command tail proper = c_string-plain is_end command (λ c plain. plain) proper

  -- The checks before the options pass.
  parse_checks :
      (behind tail : List ℕ)
      → HasNone is_end command
      → string_to_channel_id channel_name ≢ bad_channel_id
      → ltb minimum_request_length (length (request_line tail))
          && not (get_or (request_line tail ++ behind) 9 0 == request_part_separator)
          && not (get_or (request_line tail ++ behind) 9 0 == separator)
        ≡ false
      → parse_request behind (request_line tail) ≡ (
          parse_options behind (request_line tail) >>= λ r. ok (record {
            channel_id = string_to_channel_id channel_name;
            command_name = command;
            options = r.0;
            parameters = parse_parameters (request_line tail) r.1 r.2;
          }))
  parse_checks behind tail proper good separated =
      let long : ltb (length (request_line tail)) minimum_request_length ≡ false = ground arith in
      let fine : (string_to_channel_id channel_name == bad_channel_id) ≡ false = ground arith in
      unfold parse_request in
      rw (long, separated, same_channel tail, fine, same_command tail proper)

  -- The part up to the options or parameters.
  abbrev head_part : ℕ → List ℕ
  head_part ch = a ∷ b ∷ c ∷ d ∷ request_part_separator ∷ w ∷ x ∷ y ∷ z ∷ ch ∷ []

  parse_parameters-pieces :
      (line before rest : List ℕ)
      → line ≡ before ++ rest
      → 0 < length before
      → parse_parameters line (length before) rest ≡ map c_string (split [] rest)
  unfolding parse_parameters
  parse_parameters-pieces line before rest e p =
      let inside : leb (length before) (length line) ≡ true =
        ground (arith, ap length e, length_bytes-append before rest) in
      rw inside (parameters_loop-pieces line before rest (length before) e p refl)

  -- The options, where the line has some.
  parse_options-loop :
      (behind rest : List ℕ)
      → parse_options behind (request_line (separator ∷ rest))
        ≡ options_loop behind (request_line (separator ∷ rest)) [] no_option 10 rest
  unfolding parse_options
  parse_options-loop behind rest =
      let long : leb 10 (length (request_line (separator ∷ rest))) ≡ true = ground arith in rw long

  parse_options-none :
      (behind tail : List ℕ)
      → ((get_or (request_line tail ++ behind) 9 0 == separator)
          && leb 10 (length (request_line tail)))
        ≡ false
      → parse_options behind (request_line tail) ≡ ok ([], 10, drop 1 tail)
  unfolding parse_options
  parse_options-none behind tail h = rw h

  -- `parse_request` reads back a request in its written form, whatever the receive buffer holds
  -- behind it, also if an option is given twice, which is not refused; behind options with no
  -- parameters it reports one empty parameter. The channel name is proper, keys are not empty, and
  -- no part has a character that ends it, nor a zero byte.
  pub parse_request-line :
      (behind : List ℕ) (os : List CommandOption) (ps : List (List ℕ))
      → HasNone is_end command
      → string_to_channel_id channel_name ≢ bad_channel_id
      → AllOptions os
      → AllHaveNone is_parameter_stop ps
      → parse_request behind (request_line (request_tail os ps))
        ≡ ok (record {
          channel_id = string_to_channel_id channel_name;
          command_name = command;
          options = os;
          parameters = read_parameters os ps;
        })
  parse_request-line behind [] [] proper good ho hp =
      parse_checks behind [] proper good refl
      ∙ rw (parse_options-none behind [] (ground arith)) (unfold parse_parameters in refl)
  parse_request-line behind [] (p ∷ ps) proper good ho (hp, hps) =
      let tail = request_part_separator ∷ join p ps in
      parse_checks behind tail proper good (ground arith)
      ∙ rw (parse_options-none behind tail refl) (
          rw (
            parse_parameters-pieces (request_line tail) (head_part request_part_separator)
                (join p ps) refl (omega arith),
            c_strings-join p ps hp hps,
          ))
  parse_request-line behind (o ∷ os) [] proper good ho hp =
      let tail = separator ∷ options_text o os [] in
      let (front, e, pos, run) =
        options_loop-end behind (request_line tail) o os [] (head_part separator) 10 refl
          (omega arith) refl tt ho in
      parse_checks behind tail proper good (ground arith)
      ∙ rw (parse_options-loop behind (options_text o os []), run)
          (rw (parse_parameters-pieces (request_line tail) front [] e pos)
            (unfold split c_string in refl))
  parse_request-line behind (o ∷ os) (p ∷ ps) proper good ho (hp, hps) =
      let tail = separator ∷ options_text o os (request_part_separator ∷ join p ps) in
      let (front, e, pos, run) =
        options_loop-space behind (request_line tail) o os [] (head_part separator) (join p ps) 10
          refl (omega arith) refl tt ho in
      parse_checks behind tail proper good (ground arith)
      ∙ rw (parse_options-loop behind (options_text o os (request_part_separator ∷ join p ps)), run)
          (rw (
            parse_parameters-pieces (request_line tail) front (join p ps) e pos,
            c_strings-join p ps hp hps,
          ))
