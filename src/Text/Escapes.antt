-- ===== src/Text/Escapes.antt =====
-- Backslash escapes: `is_escaped` and `copy_unescaped_string` of src/utils.c.
use xprc_server_plugin_c.Common.{
  ℕ, ◌≡◌, refl, Bool, false, not, ◌&&◌, ◌||◌, some, List, [], ◌∷◌, arith, ◌==◌, if◌then◌else◌,
  length, is_some, ltb,
}
use xprc_server_plugin_c.Text.{
  escape_char, is_escaped, is_escaped_loop, copy_unescaped_loop, prepend_unless,
  copy_partial_unescaped_string, copy_unescaped_string,
}

-- The writer that the protocol asks of a client: a backslash before each character that has a
-- meaning of its own, and before each backslash.
unfoldable pub escape : (ℕ → Bool) → List ℕ → List ℕ
escape special [] = []
escape special (ch ∷ s) =
    if special ch || (ch == escape_char)
    then escape_char ∷ ch ∷ escape special s
    else ch ∷ escape special s

-- Enough rounds read an escaped text back.
copy_unescaped_loop-escape :
    (special : ℕ → Bool) (s : List ℕ)
    → copy_unescaped_loop false (length (escape special s)) (escape special s) ≡ some s
unfolding copy_unescaped_loop escape prepend_unless
copy_unescaped_loop-escape special [] = refl
copy_unescaped_loop-escape special (ch ∷ s) = ground (arith, copy_unescaped_loop-escape special s)

-- Whatever characters are escaped beside the backslash, `copy_unescaped_string` gives the text back.
pub copy_unescaped_string-escape :
    (special : ℕ → Bool) (s : List ℕ) → copy_unescaped_string (escape special s) ≡ some s
unfolding copy_unescaped_string copy_partial_unescaped_string
copy_unescaped_string-escape special s = copy_unescaped_loop-escape special s

open_after : Bool → List ℕ → Bool
open_after escaped s = is_escaped_loop escaped (length s) s

copy_unescaped_loop-open :
    (escaped : Bool) (s : List ℕ)
    → is_some (copy_unescaped_loop escaped (length s) s) ≡ not (open_after escaped s)
unfolding copy_unescaped_loop open_after is_escaped_loop prepend_unless
copy_unescaped_loop-open escaped [] = ground arith
copy_unescaped_loop-open escaped (ch ∷ s) =
    ground (arith, copy_unescaped_loop-open (not escaped && (ch == escape_char)) s)

-- `copy_unescaped_string` fails exactly if an escape is left open behind the last character, as
-- `is_escaped` tells.
pub copy_unescaped_string-is_escaped :
    (s : List ℕ) → is_some (copy_unescaped_string s) ≡ not (is_escaped s (length s))
unfolding copy_unescaped_string is_escaped
copy_unescaped_string-is_escaped [] = unfold copy_unescaped_loop in refl
copy_unescaped_string-is_escaped (ch ∷ s) =
    let long : ltb (length (ch ∷ s)) 1 ≡ false = ground arith in
    rw long (unfold open_after in copy_unescaped_loop-open false (ch ∷ s))
