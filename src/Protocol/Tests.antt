-- ===== src/Protocol/Tests.antt =====
-- Runs of the code of src/protocol.c and uses of its theorems at concrete types.
use xprc_server_plugin_c.Common.{◌≡◌, refl, true, [], ◌∷◌, length, codes}
use xprc_server_plugin_c.Protocol.{
  DataType, DataTypes, unknown, xprc_encode_types, xprc_parse_type, xprc_parse_types,
}
use xprc_server_plugin_c.Protocol.Types.{
  set_of, type_names, xprc_parse_types-set_of, xprc_parse_types-xprc_encode_types,
}

int_twice : xprc_parse_types (codes "int,float,int") 13 ≡ unknown
unfolding xprc_parse_types xprc_parse_type
int_twice = refl

-- The search for a separator goes on behind the bytes to be parsed.
separator_behind : xprc_parse_types (codes "int;x,y") 3 ≡ unknown
unfolding xprc_parse_types xprc_parse_type
separator_behind = refl

xprc_parse_types-set_of_example :
    xprc_parse_types
      (type_names DataType.float (DataType.int_array ∷ []))
      (length (type_names DataType.float (DataType.int_array ∷ [])))
    ≡ set_of unknown (DataType.float ∷ DataType.int_array ∷ [])
xprc_parse_types-set_of_example = xprc_parse_types-set_of DataType.float (DataType.int_array ∷ [])

abbrev numbers : DataTypes
numbers = record unknown { is_int = true; is_double = true }

xprc_parse_types-xprc_encode_types_example :
    xprc_parse_types (codes "int,double") (length (codes "int,double")) ≡ numbers
unfolding xprc_encode_types
xprc_parse_types-xprc_encode_types_example =
    xprc_parse_types-xprc_encode_types numbers (codes "int,double") refl
