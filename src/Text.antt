-- ===== src/Text.antt =====
-- String functions of src/utils.c. A C string is the list of its bytes up to the terminating zero;
-- `get_or s i 0` is `s[i]` up to that zero. Offsets that may be negative are integers.
pub mod Escapes
pub mod Search
pub mod Numbers
mod Tests
use xprc_server_plugin_c.Common.{
  ℕ, zero, suc, ◌+◌, ◌-◌, ◌*◌, ◌/◌, ◌%◌, ◌^◌, Bool, true, false, not, ◌&&◌, ◌||◌, Option, none,
  some, List, [], ◌∷◌, ◌++◌, ltb, leb, ◌==◌, if◌then◌else◌, get_or, length, drop, take, str_eq,
}
use xprc_server_plugin_c.Common.Int.{ℤ, pos, negsuc, neg_part}
use xprc_server_plugin_c.Common.Run.{Run, ok, fault, ◌>>=◌}

abbrev pub escape_char : ℕ
escape_char = b'\\'

-- `!strncmp(a, b, n)`: the first `n` bytes agree, or both strings end before.
unfoldable pub strn_eq : ℕ → List ℕ → List ℕ → Bool
strn_eq zero a b = true
strn_eq (suc n) [] [] = true
strn_eq (suc n) [] (y ∷ ys) = false
strn_eq (suc n) (x ∷ xs) [] = false
strn_eq (suc n) (x ∷ xs) (y ∷ ys) = x == y && strn_eq n xs ys

unfoldable pub ends_with : List ℕ → List ℕ → Bool
unfolding strn_eq
ends_with haystack needle =
    if ltb (length haystack) (length needle)
    then false
    else strn_eq (length needle) (drop (length haystack - length needle) haystack) needle

-- The loop of `is_escaped` over the `pos` bytes before the position.
is_escaped_loop : Bool → ℕ → List ℕ → Bool
is_escaped_loop escaped zero s = escaped
is_escaped_loop escaped (suc n) [] = escaped
is_escaped_loop escaped (suc n) (ch ∷ s) = is_escaped_loop (not escaped && (ch == escape_char)) n s

unfoldable pub is_escaped : List ℕ → ℕ → Bool
unfolding is_escaped_loop
is_escaped s position = if ltb position 1 then false else is_escaped_loop false position s

-- The loop of `_strpos` from `i`, with the rounds left up to `max_offset`.
strpos_loop : List ℕ → List ℕ → Bool → ℕ → ℕ → Option ℕ
strpos_loop haystack needle skip_escapes zero i = none
strpos_loop haystack needle skip_escapes (suc n) i =
    let rest = strpos_loop haystack needle skip_escapes n (i + 1) in
    if strn_eq (length needle) (drop i haystack) needle
    then (if skip_escapes && is_escaped haystack i then rest else some i)
    else rest

-- From a start that is not negative; `none` is -1.
strpos_from : List ℕ → List ℕ → ℕ → Bool → Option ℕ
strpos_from haystack needle start skip_escapes =
    if leb (length haystack) start
    then none
    else strpos_loop haystack needle skip_escapes (length haystack - length needle + 1 - start)
        start

-- `_strpos`: a negative start counts from the end.
unfoldable pub strpos_internal : List ℕ → List ℕ → ℤ → Bool → Option ℕ
unfolding strpos_loop strpos_from strn_eq is_escaped
strpos_internal haystack needle (pos start) skip_escapes =
    if ltb (length haystack) (length needle)
    then none
    else strpos_from haystack needle start skip_escapes
strpos_internal haystack needle (negsuc n) skip_escapes =
    if ltb (length haystack) (length needle) || leb (length haystack) n
    then none
    else strpos_from haystack needle (length haystack - (n + 1)) skip_escapes

unfoldable pub strpos : List ℕ → List ℕ → ℤ → Option ℕ
unfolding strpos_internal
strpos haystack needle start = strpos_internal haystack needle start false

-- The outcomes of `strpos_unescaped`: -2 for a needle that is not supported, -1, or an offset.
pub data Position : Type 0 where
  unsupported : Position
  missing : Position
  found : ℕ → Position

abbrev position_of : Option ℕ → Position
position_of none = missing
position_of (some i) = found i

unfoldable pub strpos_unescaped : List ℕ → List ℕ → ℤ → Position
unfolding strpos_internal
strpos_unescaped haystack needle start =
    if not (length needle == 1) || (get_or needle 0 0 == escape_char)
    then unsupported
    else position_of (strpos_internal haystack needle start true)

unfoldable pub copy_partial_string : List ℕ → ℕ → List ℕ
copy_partial_string s length = take length s

-- `copy[pos] = ch`, unless the byte begins an escape.
prepend_unless : Bool → ℕ → Option (List ℕ) → Option (List ℕ)
prepend_unless true ch r = r
prepend_unless false ch none = none
prepend_unless false ch (some r) = some (ch ∷ r)

-- The loop of `copy_partial_unescaped_string` over the first `max_length` bytes. The result is
-- `none` if an escape is left open.
copy_unescaped_loop : Bool → ℕ → List ℕ → Option (List ℕ)
copy_unescaped_loop escaped zero s = if escaped then none else some []
copy_unescaped_loop escaped (suc n) [] = if escaped then none else some []
copy_unescaped_loop escaped (suc n) (ch ∷ s) =
    let starts = not escaped && (ch == escape_char) in
    prepend_unless starts ch (copy_unescaped_loop starts n s)

-- For a `max_length` of at most the length of the string.
unfoldable pub copy_partial_unescaped_string : List ℕ → ℕ → Option (List ℕ)
unfolding copy_unescaped_loop prepend_unless
copy_partial_unescaped_string s max_length = copy_unescaped_loop false max_length s

unfoldable pub copy_unescaped_string : List ℕ → Option (List ℕ)
unfolding copy_partial_unescaped_string
copy_unescaped_string s = copy_partial_unescaped_string s (length s)

-- The loop of `count_chars` over at most `length` bytes.
unfoldable pub count_chars : List ℕ → ℕ → ℕ → ℕ
count_chars [] needle n = 0
count_chars (ch ∷ s) needle zero = 0
count_chars (ch ∷ s) needle (suc n) = (if ch == needle then 1 else 0) + count_chars s needle n

-- The loop of `num_digits`, on the value without its sign. A number has fewer digits than `fuel`.
num_digits_loop : ℕ → ℕ → ℕ → ℕ
num_digits_loop zero value digits = digits
num_digits_loop (suc fuel) value digits =
    let rest = num_digits_loop fuel (value / 10) (digits + 1) in if value == 0 then digits else rest

magnitude : ℤ → ℕ
magnitude (pos n) = n
magnitude (negsuc n) = suc n

unfoldable pub count_digits : ℤ → ℕ
unfolding num_digits_loop magnitude
count_digits value =
    if magnitude value == 0
    then 1
    else num_digits_loop (suc (suc (magnitude value))) (magnitude value) 0

-- `-INT_MIN` overflows.
unfoldable pub num_digits : ℤ → Run ℕ
unfolding count_digits
num_digits value = if neg_part value == 2 ^ 31 then fault else ok (count_digits value)

-- What `%d` prints for a number that is not negative, in front of `rest`.
decimal_loop : ℕ → ℕ → List ℕ → List ℕ
decimal_loop zero n rest = rest
decimal_loop (suc fuel) n rest =
    let more = decimal_loop fuel (n / 10) ((b'0' + n % 10) ∷ rest) in
    if ltb n 10 then (b'0' + n) ∷ rest else more

unfoldable pub decimal : ℤ → List ℕ
unfolding decimal_loop
decimal (pos n) = decimal_loop (suc n) n []
decimal (negsuc n) = b'-' ∷ decimal_loop (suc (suc n)) (suc n) []

is_digit_char : ℕ → Bool
is_digit_char ch = leb b'0' ch && leb ch b'9'

digits_value : ℕ → List ℕ → ℕ
digits_value n [] = n
digits_value n (ch ∷ s) =
    let more = digits_value (n * 10 + (ch - b'0')) s in if is_digit_char ch then more else n

is_space : ℕ → Bool
is_space ch = ch == b' ' || (leb 9 ch && leb ch 13)

negated : ℕ → ℤ
negated zero = pos 0
negated (suc n) = negsuc n

signed_value : List ℕ → ℤ
signed_value [] = pos 0
signed_value (ch ∷ s) =
    if ch == b'-'
    then negated (digits_value 0 s)
    else if ch == b'+'
    then pos (digits_value 0 s)
    else pos (digits_value 0 (ch ∷ s))

-- `atoi`, `atol` and `atoll` of the C library: the integer before any bound of the type is applied.
unfoldable pub ato : List ℕ → ℤ
unfolding digits_value is_space negated signed_value is_digit_char
ato [] = pos 0
ato (ch ∷ s) = let rest = ato s in if is_space ch then rest else signed_value (ch ∷ s)

-- The values of a two's complement type of `w` bits.
abbrev pub fits : ℕ → ℤ → Bool
fits w (pos n) = ltb n (2 ^ (w - 1))
fits w (negsuc n) = ltb n (2 ^ (w - 1))

-- `parse_int`, `parse_long` and `parse_longlong`, with the width of the type. The C library leaves
-- a number out of range undefined: `fault`.
unfoldable pub parse_integer : ℕ → List ℕ → Run (Option ℤ)
unfolding ato decimal str_eq
parse_integer w s =
    let parsed = ato s in
    if fits w parsed then ok (if str_eq s (decimal parsed) then some parsed else none) else fault

unfoldable pub parse_int : List ℕ → Run (Option ℤ)
unfolding parse_integer
parse_int s = parse_integer 32 s

-- `width` is that of the platform's `long`: 32 bits on Windows, else 64.
unfoldable pub parse_long : ℕ → List ℕ → Run (Option ℤ)
unfolding parse_integer
parse_long width s = parse_integer width s

unfoldable pub parse_longlong : List ℕ → Run (Option ℤ)
unfolding parse_integer
parse_longlong s = parse_integer 64 s

uint32_of : Option ℤ → Option ℕ
uint32_of none = none
uint32_of (some (negsuc n)) = none
uint32_of (some (pos n)) = if ltb (2 ^ 32 - 1) n then none else some n

unfoldable pub parse_uint32 : List ℕ → Run (Option ℕ)
unfolding parse_longlong uint32_of
parse_uint32 s = do parsed ← parse_longlong s; ok (uint32_of parsed)
