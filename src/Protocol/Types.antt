-- ===== src/Protocol/Types.antt =====
-- The names of data types of src/protocol.c: what is parsed, and that encoding is undone.
use xprc_server_plugin_c.Common.{
  ℕ, zero, suc, ◌+◌, ◌-◌, ◌≤◌, ◌<◌, ◌≡◌, refl, ◌∙◌, sym, ap, arith, Bool, true, false, ◌&&◌, not,
  Option, none, some, List, [], ◌∷◌, ◌++◌, ◌==◌, if◌then◌else◌, length, drop, length-append,
  append-nil,
}
use xprc_server_plugin_c.Protocol.{
  DataType, DataTypes, add_type, find_separator, has_type, parse_types_loop, take_type, type_length,
  type_name, type_separator, unknown, xprc_encode_types, xprc_parse_type, xprc_parse_types,
}

-- The written form of a list of types.
unfoldable pub type_names : DataType → List DataType → List ℕ
unfolding type_name
type_names type [] = type_name type
type_names type (next ∷ types) = type_name type ++ type_separator ∷ type_names next types

-- The set of the types in a list, or no type at all if one is there twice.
unfoldable pub set_of : DataTypes → List DataType → DataTypes
unfolding has_type add_type
set_of types [] = types
set_of types (type ∷ rest) =
    let more = set_of (add_type types type) rest in if has_type types type then unknown else more

parse_type-type_name :
    (type : DataType) (rest : List ℕ)
    → xprc_parse_type (type_name type ++ rest) (length (type_name type)) ≡ some type
unfolding xprc_parse_type type_name
parse_type-type_name DataType.int rest = refl
parse_type-type_name DataType.float rest = refl
parse_type-type_name DataType.double rest = refl
parse_type-type_name DataType.int_array rest = refl
parse_type-type_name DataType.float_array rest = refl
parse_type-type_name DataType.blob rest = refl

find_separator-type_name :
    (type : DataType) (rest : List ℕ)
    → (find_separator (type_name type ++ type_separator ∷ rest) ≡ some (length (type_name type)))
      × (find_separator (type_name type) ≡ none)
unfolding find_separator type_name
find_separator-type_name DataType.int rest = (refl, refl)
find_separator-type_name DataType.float rest = (refl, refl)
find_separator-type_name DataType.double rest = (refl, refl)
find_separator-type_name DataType.int_array rest = (refl, refl)
find_separator-type_name DataType.float_array rest = (refl, refl)
find_separator-type_name DataType.blob rest = (refl, refl)

type_name_long : (type : DataType) → (length (type_name type) == 0) ≡ false
unfolding type_name
type_name_long DataType.int = refl
type_name_long DataType.float = refl
type_name_long DataType.double = refl
type_name_long DataType.int_array = refl
type_name_long DataType.float_array = refl
type_name_long DataType.blob = refl

type_names_long :
    (type : DataType) (types : List DataType) → (length (type_names type types) == 0) ≡ false
unfolding type_names
type_names_long type [] = type_name_long type
type_names_long type (next ∷ types) = ground (
  arith,
  type_name_long type,
  length-append (type_name type) (type_separator ∷ type_names next types),
)

drop_behind : (xs rest : List ℕ) (c : ℕ) → drop (length xs + 1) (xs ++ c ∷ rest) ≡ rest
drop_behind [] rest c = refl
drop_behind (x ∷ xs) rest c =
    let sum : suc (length xs) + 1 ≡ suc (length xs + 1) = omega arith in
    rw sum (drop_behind xs rest c)

enough_fuel :
    (type : DataType) (types : List DataType) → length types ≤ length (type_names type types)
unfolding type_names
enough_fuel type [] = omega arith
enough_fuel type (next ∷ types) = omega (
  arith,
  enough_fuel next types,
  length-append (type_name type) (type_separator ∷ type_names next types),
)

parse_types_loop-type_names :
    (fuel : ℕ) (acc : DataTypes) (type : DataType) (types : List DataType)
    → length types < fuel
    → parse_types_loop fuel (type_names type types) (length (type_names type types)) acc
      ≡ set_of acc (type ∷ types)
unfolding parse_types_loop take_type type_length type_names set_of
parse_types_loop-type_names zero acc type types enough = absurd (omega arith)
parse_types_loop-type_names (suc fuel) acc type [] enough =
    let name = type_name type in
    let parsed : xprc_parse_type name (length name) ≡ some type =
      ap (λ s. xprc_parse_type s (length name)) (sym (append-nil name))
      ∙ parse_type-type_name type [] in
    rw (type_name_long type, (find_separator-type_name type []).1, parsed)
parse_types_loop-type_names (suc fuel) acc type (next ∷ types) enough =
    let name = type_name type in
    let rest = type_names next types in
    let whole = type_names type (next ∷ types) in
    let sized : length whole ≡ length name + suc (length rest) =
      length-append name (type_separator ∷ rest) in
    let skipped : drop (length name + 1) whole ≡ rest = drop_behind name rest type_separator in
    let left : length whole - (length name + 1) ≡ length rest = omega arith in
    let parsed = parse_type-type_name type (type_separator ∷ rest) in
    let more = parse_types_loop-type_names fuel (add_type acc type) next types (omega arith) in
    rw (
      type_names_long type (next ∷ types),
      (find_separator-type_name type rest).0,
      parsed,
      skipped,
      left,
      more,
    )

-- The names of a list of types, with separators between them, are parsed as the set of the types,
-- and as no type at all if one of them is there twice.
pub xprc_parse_types-set_of :
    (type : DataType) (types : List DataType)
    → xprc_parse_types (type_names type types) (length (type_names type types))
      ≡ set_of unknown (type ∷ types)
unfolding xprc_parse_types
xprc_parse_types-set_of type types =
    parse_types_loop-type_names (suc (length (type_names type types))) unknown type types
      (omega (arith, enough_fuel type types))

-- For the search through all sets of types.
all_booleans : (Bool → Bool) → Bool
all_booleans test = test false && test true

all_booleans_sound : (test : Bool → Bool) (b : Bool) → all_booleans test ≡ true → test b ≡ true
unfolding all_booleans
all_booleans_sound test false h = ground arith
all_booleans_sound test true h = ground arith

same : Bool → Bool → Bool
same false c = not c
same true c = c

same_sound : (a b : Bool) → same a b ≡ true → a ≡ b
unfolding same
same_sound false false h = refl
same_sound false true h = cc
same_sound true false h = cc
same_sound true true h = refl

same_types : DataTypes → DataTypes → Bool
same_types a b =
    same a.is_int b.is_int
    && same a.is_float b.is_float
    && same a.is_double b.is_double
    && same a.is_int_array b.is_int_array
    && same a.is_float_array b.is_float_array
    && same a.is_blob b.is_blob

abbrev types_of : Bool → Bool → Bool → Bool → Bool → Bool → DataTypes
types_of a b c d e f = record {
  is_int = a;
  is_float = b;
  is_double = c;
  is_int_array = d;
  is_float_array = e;
  is_blob = f;
}

same_types_sound : (a b : DataTypes) → same_types a b ≡ true → a ≡ b
unfolding same_types
same_types_sound a b h =
    let p = same_sound a.is_int b.is_int (ground arith) in
    let q = same_sound a.is_float b.is_float (ground arith) in
    let r = same_sound a.is_double b.is_double (ground arith) in
    let s = same_sound a.is_int_array b.is_int_array (ground arith) in
    let t = same_sound a.is_float_array b.is_float_array (ground arith) in
    let u = same_sound a.is_blob b.is_blob (ground arith) in cc

-- Whether a set is read back, or has no written form and is empty.
reads_back : DataTypes → Option (List ℕ) → Bool
reads_back types none = same_types unknown types
reads_back types (some s) = same_types (xprc_parse_types s (length s)) types

is_read_back : Bool → Bool → Bool → Bool → Bool → Bool → Bool
is_read_back a b c d e f =
    reads_back (types_of a b c d e f) (xprc_encode_types (types_of a b c d e f))

abbrev with_five : Bool → Bool → Bool → Bool → Bool → Bool
with_five a b c d e = all_booleans (λ f. is_read_back a b c d e f)

abbrev with_four : Bool → Bool → Bool → Bool → Bool
with_four a b c d = all_booleans (λ e. with_five a b c d e)

abbrev with_three : Bool → Bool → Bool → Bool
with_three a b c = all_booleans (λ d. with_four a b c d)

abbrev with_two : Bool → Bool → Bool
with_two a b = all_booleans (λ c. with_three a b c)

abbrev with_one : Bool → Bool
with_one a = all_booleans (λ b. with_two a b)

all_sets : all_booleans with_one ≡ true
unfolding all_booleans is_read_back reads_back same_types same xprc_parse_types xprc_encode_types
    xprc_parse_type
all_sets = refl

all_read_back : (types : DataTypes) → reads_back types (xprc_encode_types types) ≡ true
unfolding is_read_back
all_read_back types =
    let one = all_booleans_sound with_one types.is_int all_sets in
    let two = all_booleans_sound (with_two types.is_int) types.is_float one in
    let three = all_booleans_sound (with_three types.is_int types.is_float) types.is_double two in
    let four =
      all_booleans_sound (with_four types.is_int types.is_float types.is_double) types.is_int_array
        three in
    let five =
      all_booleans_sound (with_five types.is_int types.is_float types.is_double types.is_int_array)
        types.is_float_array four in
    all_booleans_sound
      (is_read_back types.is_int types.is_float types.is_double types.is_int_array
        types.is_float_array)
      types.is_blob five

-- What a set of types is written as is parsed as the set.
pub xprc_parse_types-xprc_encode_types :
    (types : DataTypes) (s : List ℕ)
    → xprc_encode_types types ≡ some s
    → xprc_parse_types s (length s) ≡ types
unfolding reads_back
xprc_parse_types-xprc_encode_types types s e =
    same_types_sound (xprc_parse_types s (length s)) types
      (sym (ap (reads_back types) e) ∙ all_read_back types)
