-- ===== src/Requests/Options.antt =====
-- The loop over the options of a request (src/requests.c) reads back options that are written as
-- `key=value`, separated by `;`.
use xprc_server_plugin_c.Common.{
  ℕ, suc, ◌+◌, ◌-◌, ◌<◌, ◌≡◌, refl, ◌∙◌, ap, sym, Bool, true, false, ◌&&◌, ◌||◌, List, [], ◌∷◌,
  ◌++◌, arith, ◌==◌, length, length_bytes-append, drop, drop-append, append-nil, append_assoc,
  str_eq,
}
use xprc_server_plugin_c.Requests.Parameters.{
  c_string-plain, copy_substring-middle, HasNone, lengths,
}
use xprc_server_plugin_c.Requests.{
  separator, option_end_of_key, request_part_separator, CommandOption, Result, ok, OptionState,
  no_option, note_start, is_incomplete, c_string, is_duplicate, add_option, end_option,
  options_loop, copy_substring,
}

-- The bytes that cannot stand in a key, and in a value.
abbrev pub is_key_stop : ℕ → Bool
is_key_stop c = c == request_part_separator || c == separator || c == option_end_of_key || c == 0

abbrev pub is_value_stop : ℕ → Bool
is_value_stop c = c == request_part_separator || c == separator || c == 0

abbrev pub IsOption : CommandOption → Type 0
IsOption o = (0 < length o.name) × HasNone is_key_stop o.name × HasNone is_value_stop o.value

abbrev pub AllOptions : List CommandOption → Type 0
AllOptions [] = Unit {0}
AllOptions (o ∷ os) = IsOption o × AllOptions os

abbrev state : ℕ → ℕ → ℕ → OptionState
state a kl vs = record { key_start = a; key_length = kl; value_start = vs }

-- A name without `=` is no C string that has one: the comparison in `add_option` always fails.
str_eq-key :
    (key rest name : List ℕ)
    → HasNone is_key_stop name
    → str_eq (key ++ option_end_of_key ∷ rest) name ≡ false
unfolding str_eq
str_eq-key [] rest [] h = refl
str_eq-key [] rest (c ∷ name) (plain, h) = ground arith
str_eq-key (k ∷ key) rest [] h = refl
str_eq-key (k ∷ key) rest (c ∷ name) (plain, h) = ground (arith, str_eq-key key rest name h)

c_string-key :
    (key rest : List ℕ)
    → HasNone is_key_stop key
    → c_string (key ++ option_end_of_key ∷ rest) ≡ key ++ option_end_of_key ∷ c_string rest
unfolding c_string
c_string-key [] rest h = refl
c_string-key (k ∷ key) rest (plain, h) = ground (arith, c_string-key key rest h)

is_duplicate-key :
    (key rest : List ℕ) (options : List CommandOption)
    → AllOptions options
    → is_duplicate (key ++ option_end_of_key ∷ rest) options ≡ false
unfolding is_duplicate
is_duplicate-key key rest [] h = refl
is_duplicate-key key rest (o ∷ []) h = refl
is_duplicate-key key rest (o ∷ p ∷ options) (h, hs) =
    rw (str_eq-key key rest o.name h.1) (is_duplicate-key key rest (p ∷ options) hs)

module _ (behind line : List ℕ) (options : List CommandOption) where
  step_more :
      (ch offset : ℕ) (rest : List ℕ) (s : OptionState)
      → is_value_stop ch ≡ false
      → ((s.key_length == 0) && (ch == option_end_of_key)) ≡ false
      → options_loop behind line options s offset (ch ∷ rest)
        ≡ options_loop behind line options (note_start offset s) (offset + 1) rest
  unfolding options_loop
  step_more ch offset rest s plain inside = ground arith

  step_key :
      (offset : ℕ) (rest : List ℕ) (s : OptionState)
      → (s.key_length == 0) ≡ true
      → options_loop behind line options s offset (option_end_of_key ∷ rest)
        ≡ options_loop behind line options
            (record (note_start offset s) { key_length = offset - (note_start offset s).key_start })
            (offset + 1)
            rest
  unfolding options_loop
  step_key offset rest s fresh = rw fresh

  -- The walk over a key that begins behind `before`, up to its end.
  key_walk :
      (key before current rest : List ℕ) (s : OptionState) (offset after : ℕ)
      → 0 < length before
      → offset ≡ length before + length current
      → after ≡ offset + length key + 1
      → s.key_length ≡ 0
      → note_start offset s ≡ state (length before) 0 0
      → HasNone is_key_stop key
      → options_loop behind line options s offset (key ++ option_end_of_key ∷ rest)
        ≡ options_loop behind line options
            (state (length before) (length current + length key) 0)
            after
            rest
  key_walk [] before current rest s offset after p o a z h stops =
      let count : offset - length before ≡ length current + 0 = omega arith in
      let next : offset + 1 ≡ after = omega arith in
      step_key offset rest s (ground arith) ∙ rw (h, count, next)
  key_walk (c ∷ key) before current rest s offset after p o a z h (plain, stops) =
      let walk =
        key_walk key before (current ++ c ∷ []) rest (state (length before) 0 0) (offset + 1) after
          p (omega lengths) (omega arith) refl (unfold note_start in ground arith) stops in
      let count : length (current ++ c ∷ []) + length key ≡ length current + suc (length key) =
        omega lengths in
      step_more c offset (key ++ option_end_of_key ∷ rest) s (ground arith) (ground arith)
      ∙ rw h (walk ∙ rw count)

  -- The loop reads its state only through these two.
  same_state :
      (rest : List ℕ) (s t : OptionState) (offset : ℕ)
      → note_start offset s ≡ note_start offset t
      → (s.key_length == 0) ≡ (t.key_length == 0)
      → options_loop behind line options s offset rest
        ≡ options_loop behind line options t offset rest
  unfolding options_loop
  same_state [] s t offset h k = rw h
  same_state (ch ∷ rest) s t offset h k = rw (h, k)

  -- The walk over a value, up to what follows.
  value_walk :
      (value rest : List ℕ) (s : OptionState) (a kl vs offset after : ℕ)
      → 0 < a
      → 0 < kl
      → 0 < vs
      → after ≡ offset + length value
      → s.key_length ≡ kl
      → note_start offset s ≡ state a kl vs
      → HasNone is_value_stop value
      → options_loop behind line options s offset (value ++ rest)
        ≡ options_loop behind line options (state a kl vs) after rest
  value_walk [] rest s a kl vs offset after pa pk pv e k h stops =
      let here : offset ≡ after = omega arith in
      same_state rest s (state a kl vs) offset (h ∙ (unfold note_start in ground arith))
        (ground arith)
      ∙ rw here
  value_walk (c ∷ value) rest s a kl vs offset after pa pk pv e k h (plain, stops) =
      step_more c offset (value ++ rest) s plain (ground arith)
      ∙ rw h (
          value_walk value rest (state a kl vs) a kl vs (offset + 1) after pa pk pv (omega arith)
            refl (unfold note_start in ground arith) stops)

note_settled :
    (offset a kl vs : ℕ)
    → 0 < a
    → 0 < kl
    → 0 < vs
    → note_start offset (state a kl vs) ≡ state a kl vs
unfolding note_start
note_settled offset a kl vs pa pk pv = ground arith

first_value : (a kl vs : ℕ) → 0 < a → 0 < kl → note_start vs (state a (0 + kl) 0) ≡ state a kl vs
unfolding note_start
first_value a kl vs pa pk = ground arith

-- An option that stands in the line behind `before`, which is not empty.
module _ (behind line before after : List ℕ) (o : CommandOption)
    (e : line ≡ before ++ (o.name ++ option_end_of_key ∷ (o.value ++ after)))
    (p : 0 < length before) (valid : IsOption o) where
  abbrev value_at : ℕ
  value_at = length before + length o.name + 1

  option_name : copy_substring line (length before) (length o.name) ≡ o.name
  option_name =
      ap (copy_substring line (length before)) (omega arith)
      ∙ copy_substring-middle line before o.name (option_end_of_key ∷ (o.value ++ after))
          (length before) (length before + length o.name) e refl refl
      ∙ c_string-plain is_key_stop o.name (λ c plain. ground arith) valid.1

  regroup_value : line ≡ (before ++ (o.name ++ option_end_of_key ∷ [])) ++ (o.value ++ after)
  regroup_value = e ∙ simp append_assoc

  option_value_at :
      (offset : ℕ)
      → offset ≡ value_at + length o.value
      → copy_substring line value_at (offset - value_at) ≡ o.value
  option_value_at offset q =
      copy_substring-middle line (before ++ (o.name ++ option_end_of_key ∷ [])) o.value after
        value_at offset regroup_value (omega lengths) q
      ∙ c_string-plain is_value_stop o.value (λ c plain. ground arith) valid.2

  not_duplicate :
      (options : List CommandOption)
      → AllOptions options
      → is_duplicate (c_string (drop (length before) line ++ behind)) options ≡ false
  not_duplicate options all =
      let text : drop (length before) line ++ behind
          ≡ o.name ++ option_end_of_key ∷ ((o.value ++ after) ++ behind) =
        ap (λ l. drop (length before) l ++ behind) e
        ∙ ap (λ l. l ++ behind) (drop-append before _)
        ∙ append_assoc o.name _ behind in
      rw (text, c_string-key o.name ((o.value ++ after) ++ behind) valid.1)
        (is_duplicate-key o.name (c_string ((o.value ++ after) ++ behind)) options all)

  -- At its end the option is added.
  end_option_lem :
      (options : List CommandOption) (offset : ℕ)
      → AllOptions options
      → offset ≡ value_at + length o.value
      → end_option behind line options offset
          (note_start offset (state (length before) (length o.name) value_at))
        ≡ ok (options ++ o ∷ [])
  end_option_lem options offset all q =
      let settled =
        note_settled offset (length before) (length o.name) value_at p valid.0 (omega arith) in
      let complete : is_incomplete (state (length before) (length o.name) value_at) ≡ false =
        ground (arith, valid.0) in
      rw settled (
        unfold end_option in
        rw complete (
          unfold add_option in
          rw (not_duplicate options all, option_name, option_value_at offset q)))

  -- The loop from the start of the option up to its end.
  option_walk :
      (options : List CommandOption) (offset : ℕ)
      → offset ≡ length before
      → options_loop behind line options no_option offset
          (o.name ++ option_end_of_key ∷ (o.value ++ after))
        ≡ options_loop behind line options
            (state (length before) (length o.name) value_at)
            (value_at + length o.value)
            after
  option_walk options offset q =
      key_walk behind line options o.name before [] (o.value ++ after) no_option offset value_at p
        (omega arith) (omega arith) refl (unfold note_start in ap (λ i. state i 0 0) q) valid.1
      ∙ value_walk behind line options o.value after (state (length before) (0 + length o.name) 0)
          (length before) (length o.name) value_at value_at (value_at + length o.value) p valid.0
          (omega arith) refl (omega arith)
          (first_value (length before) (length o.name) value_at p valid.0) valid.2

-- Options as text, before `tail`.
unfoldable pub options_text : CommandOption → List CommandOption → List ℕ → List ℕ
options_text o [] tail = o.name ++ option_end_of_key ∷ (o.value ++ tail)
options_text o (next ∷ os) tail =
    o.name ++ option_end_of_key ∷ (o.value ++ separator ∷ options_text next os tail)

AllOptions-append :
    (os : List CommandOption) (o : CommandOption)
    → AllOptions os
    → IsOption o
    → AllOptions (os ++ o ∷ [])
AllOptions-append [] o h k = (k, tt)
AllOptions-append (p ∷ os) o (hp, h) k = (hp, AllOptions-append os o h k)

-- The text up to the end of an option, and the byte behind it.
through : List ℕ → CommandOption → ℕ → List ℕ
through before o ch = before ++ (o.name ++ option_end_of_key ∷ (o.value ++ ch ∷ []))

through-append :
    (before : List ℕ) (o : CommandOption) (ch : ℕ) (rest : List ℕ)
    → before ++ (o.name ++ option_end_of_key ∷ (o.value ++ ch ∷ rest)) ≡ through before o ch ++ rest
unfolding through
through-append before o ch rest = simp append_assoc

length-through :
    (before : List ℕ) (o : CommandOption) (ch : ℕ)
    → length (through before o ch) ≡ length before + length o.name + 1 + length o.value + 1
unfolding through
length-through before o ch = omega lengths

module _ (behind line : List ℕ) where
  -- What the loop leaves: the options, and the rest of the line behind the part `b`.
  abbrev Reads : List CommandOption → List ℕ → Result (List CommandOption × ℕ × List ℕ) → Type 0
  Reads options rest r =
      (b : List ℕ) × (line ≡ b ++ rest) × (0 < length b) × (r ≡ ok (options, length b, rest))

  -- The loop reads back the options that are written from the offset on. They end at the end of the
  -- line, or at a space before the parameters.
  pub options_loop-end :
      (o : CommandOption) (os done : List CommandOption) (before : List ℕ) (offset : ℕ)
      → line ≡ before ++ options_text o os []
      → 0 < length before
      → offset ≡ length before
      → AllOptions done
      → AllOptions (o ∷ os)
      → Reads
          (done ++ o ∷ os)
          []
          (options_loop behind line done no_option offset (options_text o os []))
  unfolding options_text options_loop
  options_loop-end o [] done before offset e p q hd (ho, hs) = (
    line,
    sym (append-nil line),
    omega (
      arith,
      ap length e,
      length_bytes-append before (o.name ++ option_end_of_key ∷ (o.value ++ [])),
    ),
    option_walk behind line before [] o e p ho done offset q
        ∙ rw (end_option_lem behind line before [] o e p ho done _ hd refl)
            (ap (λ n. ok (done ++ o ∷ [], n, [])) (sym (ap length e ∙ omega lengths))),
  )
  options_loop-end o (next ∷ os) done before offset e p q hd (ho, hs) =
      let (b, split, pos, run) =
        options_loop-end next os (done ++ o ∷ []) (through before o separator)
          (length before + length o.name + 1 + length o.value + 1)
          (e ∙ through-append before o separator (options_text next os []))
          (omega (arith, length-through before o separator))
          (omega (arith, length-through before o separator)) (AllOptions-append done o hd ho) hs in
      (
        b,
        split,
        pos,
        option_walk behind line before (separator ∷ options_text next os []) o e p ho done offset q
            ∙ rw
                (end_option_lem behind line before (separator ∷ options_text next os []) o e p ho
                  done _ hd refl)
                (run ∙ rw append_assoc),
      )

  pub options_loop-space :
      (o : CommandOption) (os done : List CommandOption) (before rest : List ℕ) (offset : ℕ)
      → line ≡ before ++ options_text o os (request_part_separator ∷ rest)
      → 0 < length before
      → offset ≡ length before
      → AllOptions done
      → AllOptions (o ∷ os)
      → Reads (done ++ o ∷ os) rest (
          options_loop behind line done no_option offset
            (options_text o os (request_part_separator ∷ rest)))
  unfolding options_text options_loop
  options_loop-space o [] done before rest offset e p q hd (ho, hs) = (
    through before o request_part_separator,
    e ∙ through-append before o request_part_separator rest,
    omega (arith, length-through before o request_part_separator),
    option_walk behind line before (request_part_separator ∷ rest) o e p ho done offset q
        ∙ rw
            (end_option_lem behind line before (request_part_separator ∷ rest) o e p ho done _ hd
              refl)
            (ap (λ n. ok (done ++ o ∷ [], n, rest))
              (sym (length-through before o request_part_separator))),
  )
  options_loop-space o (next ∷ os) done before rest offset e p q hd (ho, hs) =
      let tail = options_text next os (request_part_separator ∷ rest) in
      let (b, split, pos, run) =
        options_loop-space next os (done ++ o ∷ []) (through before o separator) rest
          (length before + length o.name + 1 + length o.value + 1)
          (e ∙ through-append before o separator tail)
          (omega (arith, length-through before o separator))
          (omega (arith, length-through before o separator)) (AllOptions-append done o hd ho) hs in
      (
        b,
        split,
        pos,
        option_walk behind line before (separator ∷ tail) o e p ho done offset q
            ∙ rw (end_option_lem behind line before (separator ∷ tail) o e p ho done _ hd refl)
                (run ∙ rw append_assoc),
      )
