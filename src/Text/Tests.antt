-- ===== src/Text/Tests.antt =====
-- Runs of the string functions of src/utils.c and uses of their theorems at concrete strings.
use xprc_server_plugin_c.Common.Int.{pos, negsuc}
use xprc_server_plugin_c.Common.Run.{ok}
use xprc_server_plugin_c.Common.{
  ◌+◌, ◌-◌, ◌≡◌, refl, true, none, some, codes, arith, ◌==◌, length, ◌↔◌,
}
use xprc_server_plugin_c.Text.Search.{hits, FirstHit, strpos_internal-FirstHit}
use xprc_server_plugin_c.Text.Numbers.{parse_integer-decimal}
use xprc_server_plugin_c.Text.Escapes.{escape, copy_unescaped_string-escape}
use xprc_server_plugin_c.Text.{
  strpos, strpos_internal, copy_unescaped_string, parse_integer, parse_int, decimal, fits,
}

found_second : strpos (codes "ab,cd") (codes ",c") (pos 0) ≡ some 2
unfolding strpos
found_second = refl

parse_int_negative : parse_int (codes "-17") ≡ ok (some (negsuc 16))
unfolding parse_int
parse_int_negative = refl

parse_int_padded : parse_int (codes "017") ≡ ok none
unfolding parse_int
parse_int_padded = refl

strpos_internal-FirstHit_example :
    FirstHit
      (hits (codes "ab,cd") (codes ",") true)
      1
      (length (codes "ab,cd") - length (codes ",") + 1)
      (strpos_internal (codes "ab,cd") (codes ",") (pos 1) true)
strpos_internal-FirstHit_example =
    strpos_internal-FirstHit (codes "ab,cd") (codes ",") true 1 (omega arith) (omega arith)

parse_integer-decimal_example :
    (parse_integer 32 (codes "-17") ≡ ok (some (negsuc 16)))
    ↔ ((codes "-17" ≡ decimal (negsuc 16)) × (fits 32 (negsuc 16) ≡ true))
parse_integer-decimal_example = parse_integer-decimal 32 (codes "-17") (negsuc 16)

copy_unescaped_string-escape_example :
    copy_unescaped_string (escape (λ c. c == b',') (codes "a,b")) ≡ some (codes "a,b")
copy_unescaped_string-escape_example = copy_unescaped_string-escape (λ c. c == b',') (codes "a,b")
