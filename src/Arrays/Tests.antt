-- ===== src/Arrays/Tests.antt =====
-- Runs of src/arrays.c and uses of its theorems at concrete arrays.
use xprc_server_plugin_c.Common.Int.{pos, negsuc}
use xprc_server_plugin_c.Common.Run.{ok}
use xprc_server_plugin_c.Common.{◌≡◌, refl, Bool, true, [], ◌∷◌, arith}
use xprc_server_plugin_c.Arrays.Items.{IsValid}
use xprc_server_plugin_c.Arrays.Copying.{Copies, dynamic_array_copy_from_other-Copies}
use xprc_server_plugin_c.Arrays.{
  DynamicArray, dynamic_array_ensure_capacity, dynamic_array_copy_from_other, count_of,
  dynamic_array_set_length, dynamic_array_get_pointer, memory_read, memory_write,
}

-- Two items of two bytes, with room for a third.
abbrev small : DynamicArray
small = record { item_size = 2; length = 2; capacity = 3; memory = 1 ∷ 2 ∷ 3 ∷ 4 ∷ 0 ∷ 0 ∷ [] }

-- Three items of two bytes.
abbrev other : DynamicArray
other = record { item_size = 2; length = 3; capacity = 3; memory = 5 ∷ 6 ∷ 7 ∷ 8 ∷ 9 ∷ 10 ∷ [] }

copied_all :
    dynamic_array_copy_from_other true small (pos 1) other (pos 0) (negsuc 12835) true true
    ≡ ok (
      true,
      record {
        item_size = 2;
        length = 4;
        capacity = 4;
        memory = 1 ∷ 2 ∷ 5 ∷ 6 ∷ 7 ∷ 8 ∷ 9 ∷ 10 ∷ [];
      },
    )
unfolding dynamic_array_copy_from_other dynamic_array_set_length dynamic_array_ensure_capacity
    dynamic_array_get_pointer memory_read memory_write
copied_all = refl

small-IsValid : IsValid small
small-IsValid = record { sized = omega arith; within = omega arith; memory = omega arith }

other-IsValid : IsValid other
other-IsValid = record { sized = omega arith; within = omega arith; memory = omega arith }

all_counted : count_of 3 0 (negsuc 12835) ≡ pos 3
unfolding count_of
all_counted = refl

dynamic_array_copy_from_other-Copies_example :
    (r : Bool × DynamicArray) × (dynamic_array_copy_from_other true small
        (pos 1)
        other
        (pos 0)
        (negsuc 12835)
        true
        true
      ≡ ok r)
    × Copies true true true small other 1 0 3 r
dynamic_array_copy_from_other-Copies_example =
    dynamic_array_copy_from_other-Copies true true true small other 1 0 3 (negsuc 12835)
      small-IsValid other-IsValid refl all_counted (omega arith)
