-- ===== src/Protocol.antt =====
-- src/protocol.c and src/protocol.h: the names of the data types in requests and replies.
-- A set of `xplmType_*` flags is a record of Booleans: the X-Plane SDK documents each flag as a bit of
-- its own, and `xplmType_Unknown`, which is 0, is the empty set. A string is the list of its bytes up to
-- the zero byte, and may go on behind the `count` bytes that are to be parsed.
pub mod Types
mod Tests
use xprc_server_plugin_c.Common.{
  ℕ, zero, suc, ◌+◌, ◌-◌, Bool, true, false, ◌&&◌, ◌||◌, not, Option, none, some, List, [], ◌∷◌,
  ◌++◌, ◌==◌, if◌then◌else◌, length, drop, codes,
}
use xprc_server_plugin_c.Text.{strn_eq}

pub data DataType : Type 0 where
  int float double int_array float_array blob : DataType

pub record DataTypes : Type 0 where
  pub is_int : Bool
  pub is_float : Bool
  pub is_double : Bool
  pub is_int_array : Bool
  pub is_float_array : Bool
  pub is_blob : Bool

abbrev pub unknown : DataTypes
unknown = record {
  is_int = false;
  is_float = false;
  is_double = false;
  is_int_array = false;
  is_float_array = false;
  is_blob = false;
}

-- `XPRC_TYPE_INT` and so on
unfoldable pub type_name : DataType → List ℕ
type_name DataType.int = codes "int"
type_name DataType.float = codes "float"
type_name DataType.double = codes "double"
type_name DataType.int_array = codes "int[]"
type_name DataType.float_array = codes "float[]"
type_name DataType.blob = codes "blob"

abbrev pub type_separator : ℕ
type_separator = b','

-- `(types & type) != 0`
unfoldable pub has_type : DataTypes → DataType → Bool
has_type types DataType.int = types.is_int
has_type types DataType.float = types.is_float
has_type types DataType.double = types.is_double
has_type types DataType.int_array = types.is_int_array
has_type types DataType.float_array = types.is_float_array
has_type types DataType.blob = types.is_blob

-- `types | type`
unfoldable pub add_type : DataTypes → DataType → DataTypes
add_type types DataType.int = record types { is_int = true }
add_type types DataType.float = record types { is_float = true }
add_type types DataType.double = record types { is_double = true }
add_type types DataType.int_array = record types { is_int_array = true }
add_type types DataType.float_array = record types { is_float_array = true }
add_type types DataType.blob = record types { is_blob = true }

-- `none` is `xplmType_Unknown`.
unfoldable pub xprc_parse_type : List ℕ → ℕ → Option DataType
unfolding strn_eq
xprc_parse_type s count =
    if (count == 3) && strn_eq count (codes "int") s
    then some DataType.int
    else if (count == 5) && strn_eq count (codes "float") s
    then some DataType.float
    else if (count == 6) && strn_eq count (codes "double") s
    then some DataType.double
    else if (count == 5) && strn_eq count (codes "int[]") s
    then some DataType.int_array
    else if (count == 7) && strn_eq count (codes "float[]") s
    then some DataType.float_array
    else if (count == 4) && strn_eq count (codes "blob") s
    then some DataType.blob
    else none

-- `strstr(s, XPRC_TYPE_SEPARATOR)`, as an offset
find_separator : List ℕ → Option ℕ
find_separator [] = none
find_separator (ch ∷ s) =
    let rest = find_separator s in
    if ch == type_separator then some 0 else elim rest [ none ↦ none | some n ↦ some (suc n) ]

-- With the type at the start of the string, the offset of the separator behind it, and the parse of the
-- rest with the type added.
take_type : DataTypes → Option DataType → Option ℕ → (DataTypes → DataTypes) → DataTypes
take_type types none offset rest = unknown
take_type types (some type) none rest = if has_type types type then unknown else add_type types type
take_type types (some type) (some offset) rest =
    if has_type types type then unknown else rest (add_type types type)

type_length : ℕ → Option ℕ → ℕ
type_length count none = count
type_length count (some offset) = offset

-- The loop of `xprc_parse_types`. Each round but the last takes a separator from the string.
parse_types_loop : ℕ → List ℕ → ℕ → DataTypes → DataTypes
parse_types_loop zero s count types = types
parse_types_loop (suc fuel) s count types =
    let offset = find_separator s in
    let skip_count = type_length count offset + 1 in
    let result =
      take_type types (xprc_parse_type s (type_length count offset)) offset
        (parse_types_loop fuel (drop skip_count s) (count - skip_count)) in
    if count == 0 then types else result

unfoldable pub xprc_parse_types : List ℕ → ℕ → DataTypes
unfolding parse_types_loop take_type type_length find_separator has_type add_type
xprc_parse_types s count = parse_types_loop (suc (length s)) s count unknown

-- One more name behind what is written, with a separator unless it is the first.
encode_types_add : Bool → DataType → List ℕ × Bool → List ℕ × Bool
encode_types_add condition type (out, is_first) =
    if not condition
    then (out, is_first)
    else (if is_first then out ++ type_name type else out ++ type_separator ∷ type_name type, false)

-- `none` is NULL, for no type at all.
unfoldable pub xprc_encode_types : DataTypes → Option (List ℕ)
unfolding encode_types_add type_name
xprc_encode_types types =
    let (out, is_first) = encode_types_add types.is_blob DataType.blob (
      encode_types_add types.is_float_array DataType.float_array (
        encode_types_add types.is_int_array DataType.int_array (
          encode_types_add types.is_double DataType.double (
            encode_types_add types.is_float DataType.float
              (encode_types_add types.is_int DataType.int ([], true)))))) in
    if is_first then none else some out
