-- ===== src/Password.antt =====
-- src/password.c: the rules for a password, and the generator that retries until they hold.
pub mod Rules
mod Tests
use xprc_server_plugin_c.Common.{
  ℕ, zero, suc, ◌+◌, Bool, true, false, ◌&&◌, ◌||◌, not, Option, none, some, List, [], ◌∷◌, ◌++◌,
  ltb, leb, ◌==◌, if◌then◌else◌, get_or, length, map, take, codes,
}

abbrev pub password_length : ℕ
password_length = 32

abbrev pub min_password_length : ℕ
min_password_length = 15

abbrev pub max_password_length : ℕ
max_password_length = 1000

abbrev pub password_chars : List ℕ
password_chars = codes "abcdefghijklmnopqrstuvwxyzABCDEFGHIJKLMNOPQRSTUVWXYZ0123456789-."

abbrev pub is_lower : ℕ → Bool
is_lower ch = leb b'a' ch && leb ch b'z'

abbrev pub is_upper : ℕ → Bool
is_upper ch = leb b'A' ch && leb ch b'Z'

abbrev pub is_number : ℕ → Bool
is_number ch = leb b'0' ch && leb ch b'9'

abbrev pub is_line_break : ℕ → Bool
is_line_break ch = ch == 13 || ch == 10

-- The four counters of `validate_password`.
pub record Counts : Type 0 where
  pub lower_case : ℕ
  pub upper_case : ℕ
  pub numbers : ℕ
  pub special : ℕ

-- The loop over the bytes; `none` is the early return at a line break.
count_loop : Counts → List ℕ → Option Counts
count_loop c [] = some c
count_loop c (ch ∷ s) =
    let lower = count_loop (record c { lower_case = c.lower_case + 1 }) s in
    let upper = count_loop (record c { upper_case = c.upper_case + 1 }) s in
    let number = count_loop (record c { numbers = c.numbers + 1 }) s in
    let special = count_loop (record c { special = c.special + 1 }) s in
    if is_lower ch
    then lower
    else if is_upper ch
    then upper
    else if is_number ch
    then number
    else if is_line_break ch
    then none
    else special

enough : Option Counts → Bool
enough none = false
enough (some c) = leb 3 c.lower_case && leb 3 c.upper_case && leb 2 c.numbers && leb 1 c.special

unfoldable pub validate_password : List ℕ → Bool
unfolding count_loop enough
validate_password password =
    if ltb (length password) min_password_length || ltb max_password_length (length password)
    then false
    else enough
        (count_loop (record { lower_case = 0; upper_case = 0; numbers = 0; special = 0 }) password)

-- What a run of `generate_password` has come to.
pub data Generated : Type 0 where
  generated : List ℕ → Generated
  failed : Generated
  unfinished : Generated

-- `out[i] = password_chars[random[i]]` for each `i` below the length. `get_random_ints` gives that many
-- numbers, each an index of the characters.
abbrev pub from_random : List ℕ → List ℕ
from_random random = map (λ r. get_or password_chars r 0) (take password_length random)

-- The loop, over what the calls of `get_random_ints` give; `none` is a failure of the call.
generate_loop : List ℕ → List (Option (List ℕ)) → Generated
generate_loop out [] = if validate_password out then generated out else unfinished
generate_loop out (none ∷ calls) = if validate_password out then generated out else failed
generate_loop out (some random ∷ calls) =
    let again = generate_loop (from_random random) calls in
    if validate_password out then generated out else again

unfoldable pub generate_password : List (Option (List ℕ)) → Generated
unfolding generate_loop validate_password
generate_password calls = generate_loop [] calls
