-- ===== src/Arrays.antt =====
-- src/arrays.c and src/arrays.h: dynamic arrays.
-- The memory of an array is the list of its bytes, a NULL `data` the empty one; a pointer into it is
-- the offset in bytes. An access outside the memory is a `fault`, and so is an overflow of `int`.
-- Sizes in bytes are taken to fit `size_t`, and two arrays in one call to be two objects.
pub mod Items
pub mod Copying
mod Tests
use xprc_server_plugin_c.Common.Int.{ℤ, pos, negsuc, ltb_ℤ, pos_part, sub_ℕ}
use xprc_server_plugin_c.Common.Run.{Run, ok, fault, ◌>>=◌}
use xprc_server_plugin_c.Common.{
  ℕ, zero, suc, ◌+◌, ◌-◌, ◌*◌, ◌^◌, Bool, true, false, ◌&&◌, ◌||◌, not, Option, none, some, List,
  [], ◌∷◌, ◌++◌, ltb, leb, ◌==◌, if◌then◌else◌, length, take, drop, replicate,
}

pub record DynamicArray : Type 0 where
  pub item_size : ℕ
  pub length : ℕ
  pub capacity : ℕ
  pub memory : List ℕ

-- `malloc`, the copy of the old memory and the zeros after it.
grow : DynamicArray → ℕ → DynamicArray
grow arr capacity =
    let old_size = arr.capacity * arr.item_size in
    let new_size = capacity * arr.item_size in
    record arr {
      memory = take old_size arr.memory ++ replicate (new_size - old_size) 0;
      capacity = capacity;
    }

-- `allocated` tells whether the memory was there.
unfoldable pub dynamic_array_ensure_capacity : Bool → DynamicArray → ℤ → Bool × DynamicArray
unfolding grow
dynamic_array_ensure_capacity allocated arr (negsuc n) = (false, arr)
dynamic_array_ensure_capacity allocated arr (pos capacity) =
    if leb capacity arr.capacity
    then (true, arr)
    else if not allocated
    then (false, arr)
    else (true, grow arr capacity)

abbrev keep_if : Bool × DynamicArray → Option DynamicArray
keep_if (true, arr) = some arr
keep_if (false, arr) = none

-- Where there is memory for the structure.
unfoldable pub create_dynamic_array : Bool → ℕ → ℤ → Option DynamicArray
create_dynamic_array allocated item_size initial_capacity =
    if ltb item_size 1 || ltb_ℤ initial_capacity (pos 0)
    then none
    else keep_if (
        dynamic_array_ensure_capacity allocated
          (record { item_size = item_size; length = 0; capacity = 0; memory = [] })
          initial_capacity)

unfoldable pub dynamic_array_get_pointer : DynamicArray → ℤ → Option ℕ
dynamic_array_get_pointer arr (negsuc n) = none
dynamic_array_get_pointer arr (pos index) =
    if leb arr.length index then none else some (index * arr.item_size)

unfoldable pub dynamic_array_set_length : Bool → DynamicArray → ℤ → Bool × DynamicArray
dynamic_array_set_length allocated arr length =
    let (done, arr') = dynamic_array_ensure_capacity allocated arr length in
    if done then (true, record arr' { length = pos_part length }) else (false, arr')

-- `memcpy` to an offset in the memory, and from one.
unfoldable pub memory_write : List ℕ → ℕ → List ℕ → Run (List ℕ)
memory_write mem offset bytes =
    if leb (offset + length bytes) (length mem)
    then ok (take offset mem ++ (bytes ++ drop (offset + length bytes) mem))
    else fault

unfoldable pub memory_read : List ℕ → ℕ → ℕ → Run (List ℕ)
memory_read mem offset count =
    if leb (offset + count) (length mem) then ok (take count (drop offset mem)) else fault

set_at_pointer : DynamicArray → Option ℕ → List ℕ → Run (Bool × DynamicArray)
set_at_pointer arr none source = ok (false, arr)
set_at_pointer arr (some dest) source = do
  bytes ← memory_read source 0 arr.item_size
  mem ← memory_write arr.memory dest bytes
  ok (true, record arr { memory = mem })

-- `source` is the memory that the pointer `data` of the source points to.
unfoldable pub dynamic_array_set_from_pointer :
    DynamicArray → ℤ → List ℕ → Run (Bool × DynamicArray)
unfolding set_at_pointer
dynamic_array_set_from_pointer arr index source =
    set_at_pointer arr (dynamic_array_get_pointer arr index) source

copy_at_pointers : DynamicArray → DynamicArray → Option ℕ → Option ℕ → ℕ → Run (Bool × DynamicArray)
copy_at_pointers dest src none src_ptr count = ok (false, dest)
copy_at_pointers dest src (some dest_ptr) none count = ok (false, dest)
copy_at_pointers dest src (some dest_ptr) (some src_ptr) count = do
  bytes ← memory_read src.memory src_ptr (count * dest.item_size)
  mem ← memory_write dest.memory dest_ptr bytes
  ok (true, record dest { memory = mem })

-- After the length was set, or needed no change.
copy_items : ℕ → DynamicArray → ℕ → ℕ → Bool × DynamicArray → Run (Bool × DynamicArray)
unfolding copy_at_pointers
copy_items dest_index src src_index count (false, dest') = ok (false, dest')
copy_items dest_index src src_index count (true, dest') =
    copy_at_pointers dest' src (dynamic_array_get_pointer dest' (pos dest_index))
      (dynamic_array_get_pointer src (pos src_index)) count

-- With the number of items decided, `available` of which the source has.
copy_count :
    Bool → DynamicArray → ℕ → DynamicArray → ℕ → ℕ → ℕ → Bool → Bool → Run (Bool × DynamicArray)
unfolding copy_items
copy_count allocated dest dest_index src src_index available zero capacity_change length_change =
    ok (true, dest)
copy_count allocated dest dest_index src src_index available (suc n) capacity_change length_change =
    let count = suc n in
    let end = dest_index + count in
    if ltb available count
    then ok (false, dest)
    else if ltb dest.length end && not length_change
    then ok (false, dest)
    else if ltb dest.capacity end && not capacity_change
    then ok (false, dest)
    else if ltb dest.length end
    then (if leb (2 ^ 31) end
        then fault
        else copy_items dest_index src src_index count
            (dynamic_array_set_length allocated dest (pos end)))
    else copy_items dest_index src src_index count (true, dest)

copy_counted :
    Bool → DynamicArray → ℕ → DynamicArray → ℕ → ℤ → Bool → Bool → Run (Bool × DynamicArray)
unfolding copy_count
copy_counted allocated dest dest_index src src_index (negsuc n) capacity_change length_change =
    ok (false, dest)
copy_counted allocated dest dest_index src src_index (pos n) capacity_change length_change =
    let available = src.length - src_index in
    copy_count allocated dest dest_index src src_index available n capacity_change length_change

-- `DYNAMIC_ARRAY_COPY_ALL` (-12836) stands for what is left of the source from the index on.
unfoldable pub count_of : ℕ → ℕ → ℤ → ℤ
count_of src_length src_index (pos n) = pos n
count_of src_length src_index (negsuc n) =
    if n == 12835 then sub_ℕ src_length src_index else negsuc n

copy_checked :
    Bool → DynamicArray → ℤ → DynamicArray → ℤ → ℤ → Bool → Bool → Run (Bool × DynamicArray)
unfolding copy_counted count_of
copy_checked allocated dest (negsuc d) src s count capacity_change length_change = ok (false, dest)
copy_checked allocated dest (pos d) src (negsuc s) count capacity_change length_change =
    ok (false, dest)
copy_checked allocated dest (pos d) src (pos s) count capacity_change length_change =
    copy_counted allocated dest d src s (count_of src.length s count) capacity_change length_change

-- `capacity_change` and `length_change` are the two allowances.
unfoldable pub dynamic_array_copy_from_other :
    Bool → DynamicArray → ℤ → DynamicArray → ℤ → ℤ → Bool → Bool → Run (Bool × DynamicArray)
unfolding copy_checked
dynamic_array_copy_from_other allocated dest dest_index src src_index count capacity_change
      length_change =
    if not (dest.item_size == src.item_size)
    then ok (false, dest)
    else copy_checked allocated dest dest_index src src_index count capacity_change length_change
