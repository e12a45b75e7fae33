-- ===== src/Arrays/Copying.antt =====
-- Copying items into an array (`dynamic_array_set_from_pointer` and
-- `dynamic_array_copy_from_other` of src/arrays.c).
use xprc_server_plugin_c.Common.Int.{ℤ, pos, negsuc, ltb_ℤ, pos_part}
use xprc_server_plugin_c.Common.Run.{Run, ok}
use xprc_server_plugin_c.Common.{
  ℕ, zero, suc, ◌+◌, ◌-◌, ◌*◌, ◌^◌, ◌<◌, ◌≤◌, ◌≡◌, refl, ◌∙◌, sym, Bool, true, false, ◌&&◌, ◌||◌,
  not, List, arith, ltb, leb, ◌==◌, ==_iff, if◌then◌else◌, length, get_or, Bool-cases, inl, inr,
}
use xprc_server_plugin_c.Arrays.Items.{
  IsValid, byte, item_below, memory_write-Writes, memory_read-reads,
  dynamic_array_ensure_capacity-Ensures,
}
use xprc_server_plugin_c.Arrays.{
  DynamicArray, dynamic_array_get_pointer, dynamic_array_set_length, memory_write,
  dynamic_array_set_from_pointer, copy_at_pointers, copy_items, copy_count,
  dynamic_array_ensure_capacity, dynamic_array_copy_from_other, count_of, copy_checked,
  copy_counted,
}

times_le : (s i j : ℕ) → i ≤ j → i * s ≤ j * s
times_le s i j h = grind arith

times_add : (s i n : ℕ) → (i + n) * s ≡ i * s + n * s
times_add s i n = grind arith

times_zero : (s d : ℕ) → d ≡ 0 → d * s ≡ 0
times_zero s d h = rw h (omega arith)

-- Writing whole items: the array with the items from `i` on replaced by those in `bytes`.
record WritesItems (arr : DynamicArray) (i n : ℕ) (bytes m : List ℕ) : Type 0 where
  done : memory_write arr.memory (i * arr.item_size) bytes ≡ ok m
  keeps : IsValid (record arr { memory = m })
  reads :
      (j k : ℕ)
      → k < arr.item_size
      → get_or m (j * arr.item_size + k) 0 ≡ (
          if leb i j && ltb j (i + n)
          then get_or bytes ((j - i) * arr.item_size + k) 0
          else byte arr j k)

write_items :
    (arr : DynamicArray) (i n : ℕ) (bytes : List ℕ)
    → IsValid arr
    → i + n ≤ arr.length
    → length bytes ≡ n * arr.item_size
    → (m : List ℕ) × WritesItems arr i n bytes m
write_items arr i n bytes valid fits size =
    let s = arr.item_size in
    let all_fit : i * s + n * s ≤ length arr.memory = omega (
      arith,
      times_add s i n,
      times_le s (i + n) arr.capacity (omega (arith, valid.within)),
      valid.memory,
    ) in
    let (m, w) = memory_write-Writes arr.memory (i * s) bytes (omega arith) in
    (
      m,
      record {
        done = w.done;
        keeps = record {
          sized = valid.sized;
          within = valid.within;
          memory = omega (arith, w.sized, valid.memory);
        };
        reads = λ j k below. ground (
          arith,
          w.reads (j * s + k),
          size,
          times_add s i n,
          times_add s i (j - i),
          times_le s i j,
          item_below s j i k below,
          times_le s (i + n) j,
          item_below s j (i + n) k below,
        );
      },
    )

-- Setting an item succeeds exactly if the index is within the length, and then changes the bytes of
-- that item alone.
pub record Sets (arr : DynamicArray) (index : ℤ) (source : List ℕ) (r : Bool × DynamicArray)
    : Type 0 where
  pub succeeds : r.0 ≡ (not (ltb_ℤ index (pos 0)) && ltb_ℤ index (pos arr.length))
  pub keeps : IsValid r.1
  pub length : r.1.length ≡ arr.length
  pub reads :
      (j k : ℕ)
      → k < arr.item_size
      → byte r.1 j k ≡ (if r.0 && pos_part index == j then get_or source k 0 else byte arr j k)

-- Setting an item of a valid array from memory of at least an item's size stays inside the memory,
-- succeeds exactly if the index is within the length, and changes the bytes of that item alone.
pub dynamic_array_set_from_pointer-Sets :
    (arr : DynamicArray) (index : ℤ) (source : List ℕ)
    → IsValid arr
    → arr.item_size ≤ length source
    → (r : Bool × DynamicArray) × (dynamic_array_set_from_pointer arr index source ≡ ok r)
      × Sets arr index source r
unfolding dynamic_array_set_from_pointer dynamic_array_get_pointer
dynamic_array_set_from_pointer-Sets arr (negsuc n) source valid enough = (
  (false, arr),
  refl,
  record { succeeds = ground arith; keeps = valid; length = refl; reads = λ j k below. refl },
)
dynamic_array_set_from_pointer-Sets arr (pos i) source valid enough =
    elim (Bool-cases (leb arr.length i)) [
      | inl beyond ↦ (
        (false, arr),
        rw beyond refl,
        record { succeeds = ground arith; keeps = valid; length = refl; reads = λ j k below. refl },
      )
      | inr inside ↦
          let (bytes, read, size, same) = memory_read-reads source 0 arr.item_size (omega arith) in
          let (m, w) = write_items arr i 1 bytes valid (ground arith) (omega (arith, size)) in
          (
            (true, record arr { memory = m }),
            rw (inside, read, w.done) refl,
            record {
              succeeds = ground arith;
              keeps = w.keeps;
              length = refl;
              reads = λ j k below. ground (
                arith,
                w.reads j k below,
                same k below,
                ==_iff i j,
                times_zero arr.item_size (j - i),
              );
            },
          )
    ]

-- The items `from` to `from + n` of the source stand at `at` in an array that has room for them.
copied :
    (dest : DynamicArray) (at : ℕ) (src : DynamicArray) (from n : ℕ)
    → IsValid dest
    → IsValid src
    → dest.item_size ≡ src.item_size
    → 0 < n
    → at + n ≤ dest.length
    → from + n ≤ src.length
    → (m : List ℕ) × (copy_items at src from n (true, dest) ≡ ok (true, record dest { memory = m }))
      × IsValid (record dest { memory = m })
      × ((j k : ℕ)
          → k < dest.item_size
          → byte (record dest { memory = m }) j k
            ≡ (if leb at j && ltb j (at + n) then byte src (from + (j - at)) k else byte dest j k))
unfolding copy_items copy_at_pointers dynamic_array_get_pointer
copied dest at src from n valid source same some_items room enough =
    let s = dest.item_size in
    let all_there : from * src.item_size + n * s ≤ length src.memory = rw same (
      omega (
        arith,
        times_add src.item_size from n,
        times_le src.item_size (from + n) src.capacity (omega (arith, source.within)),
        source.memory,
      )) in
    let (bytes, read, size, equal) =
      memory_read-reads src.memory (from * src.item_size) (n * s) all_there in
    let (m, w) = write_items dest at n bytes valid room size in
    let dest_in : leb dest.length at ≡ false = ground arith in
    let src_in : leb src.length from ≡ false = ground arith in
    (
      m,
      rw (dest_in, src_in, read, w.done) refl,
      w.keeps,
      λ j k below. ground (
        arith,
        w.reads j k below,
        equal ((j - at) * s + k),
        same,
        item_below s (j - at) n k below,
        times_add src.item_size from (j - at),
      ),
    )

-- Whether the destination may take what is copied.
abbrev may_copy : Bool → Bool → Bool → DynamicArray → DynamicArray → ℕ → ℕ → ℕ → Bool
may_copy allocated capacity_change length_change dest src at from n =
    n == 0
    || (leb (from + n) src.length
        && (length_change || leb (at + n) dest.length)
        && (leb (at + n) dest.capacity || (capacity_change && allocated)))

-- Copying `n` items succeeds exactly if the source has them and the destination may be resized as far
-- as necessary; it then holds them from the index on, and its other items and its longer length as
-- before. If it fails, the destination is unchanged.
pub record Copies (allocated capacity_change length_change : Bool) (dest src : DynamicArray)
    (at from n : ℕ) (r : Bool × DynamicArray) : Type 0 where
  pub succeeds : r.0 ≡ may_copy allocated capacity_change length_change dest src at from n
  pub unchanged : r.0 ≡ false → r.1 ≡ dest
  pub keeps : IsValid r.1
  pub length :
      r.0 ≡ true
      → r.1.length ≡ (if not (n == 0) && ltb dest.length (at + n) then at + n else dest.length)
  pub reads :
      r.0 ≡ true
      → (j k : ℕ) → k < dest.item_size
      → byte r.1 j k
        ≡ (if leb at j && ltb j (at + n) then byte src (from + (j - at)) k else byte dest j k)

-- The length can be set where the capacity is there or can be had.
resized :
    (allocated : Bool) (dest : DynamicArray) (end : ℕ)
    → IsValid dest
    → (allocated || leb end dest.capacity) ≡ true
    → (dest' : DynamicArray) × (dynamic_array_set_length allocated dest (pos end) ≡ (true, dest'))
      × IsValid dest'
      × (dest'.item_size ≡ dest.item_size)
      × (dest'.length ≡ end)
      × ((p : ℕ) → get_or dest'.memory p 0 ≡ get_or dest.memory p 0)
unfolding dynamic_array_set_length
resized allocated dest end valid possible =
    let r = dynamic_array_ensure_capacity allocated dest (pos end) in
    let e = dynamic_array_ensure_capacity-Ensures allocated dest (pos end) valid in
    let done : r.0 ≡ true = ground (arith, e.succeeds) in
    let enough = e.covers done in
    (
      record r.1 { length = end },
      rw done refl,
      record { sized = e.keeps.sized; within = ground arith; memory = e.keeps.memory },
      e.item_size,
      refl,
      e.bytes,
    )

not_resized :
    (allocated : Bool) (dest : DynamicArray) (end : ℕ)
    → IsValid dest
    → (allocated || leb end dest.capacity) ≡ false
    → dynamic_array_set_length allocated dest (pos end) ≡ (false, dest)
unfolding dynamic_array_set_length
not_resized allocated dest end valid impossible =
    let r = dynamic_array_ensure_capacity allocated dest (pos end) in
    let e = dynamic_array_ensure_capacity-Ensures allocated dest (pos end) valid in
    let failed : r.0 ≡ false = ground (arith, e.succeeds) in rw (failed, e.unchanged failed) refl

module _ (allocated capacity_change length_change : Bool) (dest src : DynamicArray) (at from n : ℕ)
    (valid : IsValid dest) (source : IsValid src) (same : dest.item_size ≡ src.item_size) where
  abbrev Outcome : Run (Bool × DynamicArray) → Type 0
  Outcome run =
      (r : Bool × DynamicArray) × (run ≡ ok r)
      × Copies allocated capacity_change length_change dest src at from n r

  rejected :
      (run : Run (Bool × DynamicArray))
      → run ≡ ok (false, dest)
      → may_copy allocated capacity_change length_change dest src at from n ≡ false
      → Outcome run
  rejected run equal refused = (
    (false, dest),
    equal,
    record {
      succeeds = sym refused;
      unchanged = λ h. refl;
      keeps = valid;
      length = λ h. cc;
      reads = λ h. cc;
    },
  )

  reached : (run run' : Run (Bool × DynamicArray)) → run ≡ run' → Outcome run' → Outcome run
  reached run run' equal (r, done, copies) = (r, equal ∙ done, copies)

  -- The items are copied into `dest'`, which holds what `dest` does.
  accepted :
      (dest' : DynamicArray)
      → IsValid dest'
      → dest'.item_size ≡ dest.item_size
      → dest'.length ≡ (if ltb dest.length (at + n) then at + n else dest.length)
      → ((p : ℕ) → get_or dest'.memory p 0 ≡ get_or dest.memory p 0)
      → 0 < n
      → may_copy allocated capacity_change length_change dest src at from n ≡ true
      → Outcome (copy_items at src from n (true, dest'))
  accepted dest' valid' size' length' bytes' some_items allowed =
      let (m, done, keeps, reads) =
        copied dest' at src from n valid' source (size' ∙ same) some_items (ground arith)
          (ground arith) in
      (
        (true, record dest' { memory = m }),
        done,
        record {
          succeeds = sym allowed;
          unchanged = λ h. cc;
          keeps = keeps;
          length = λ h. ground arith;
          reads = λ h j k below. ground (
            arith,
            reads j k (omega (arith, size', below)),
            size',
            bytes' (j * dest.item_size + k),
          );
        },
      )

module _ (allocated capacity_change length_change : Bool) (dest src : DynamicArray) (at from : ℕ)
    (valid : IsValid dest) (source : IsValid src) (same : dest.item_size ≡ src.item_size) where
  abbrev CountOutcome : ℕ → Type 0
  CountOutcome n =
      Outcome allocated capacity_change length_change dest src at from n valid source same
        (copy_count allocated dest at src from (src.length - from) n capacity_change length_change)

  copy_count-Copies : (n : ℕ) → at + n < 2 ^ 31 → CountOutcome n
  unfolding copy_count
  copy_count-Copies zero small = (
    (true, dest),
    refl,
    record {
      succeeds = refl;
      unchanged = λ h. refl;
      keeps = valid;
      length = λ h. refl;
      reads = λ h j k below. ground arith;
    },
  )
  copy_count-Copies (suc n) small =
      let end = at + suc n in
      let refuse =
        rejected allocated capacity_change length_change dest src at from (suc n) valid source
          same in
      let reach =
        reached allocated capacity_change length_change dest src at from (suc n) valid source
          same in
      let accept =
        accepted allocated capacity_change length_change dest src at from (suc n) valid source
          same in
      elim (Bool-cases (ltb (src.length - from) (suc n))) [
        | inl missing ↦ refuse _ (rw missing refl) (ground arith)
        | inr there ↦ elim (Bool-cases (ltb dest.length end && not length_change)) [
          | inl no_length ↦ refuse _ (rw (there, no_length) refl) (ground arith)
          | inr length_ok ↦ elim (Bool-cases (ltb dest.capacity end && not capacity_change)) [
            | inl no_capacity ↦ refuse _ (rw (there, length_ok, no_capacity) refl) (ground arith)
            | inr capacity_ok ↦ elim (Bool-cases (ltb dest.length end)) [
              | inl longer ↦
                  let in_int : leb (2 ^ 31) end ≡ false = ground arith in
                  elim (Bool-cases (allocated || leb end dest.capacity)) [
                    | inl possible ↦
                        let (dest', done, valid', size', length', bytes') =
                          resized allocated dest end valid possible in
                        reach _ _ (rw (there, length_ok, capacity_ok, longer, in_int, done) refl) (
                          accept dest' valid' size' (rw longer length') bytes' (omega arith)
                            (ground arith))
                    | inr impossible ↦
                        refuse _
                          (rw
                            (
                              there,
                              length_ok,
                              capacity_ok,
                              longer,
                              in_int,
                              not_resized allocated dest end valid impossible,
                            )
                            refl)
                          (ground arith)
                  ]
              | inr fits ↦ reach _ _ (rw (there, length_ok, capacity_ok, fits) refl) (
                  accept dest valid refl (rw fits refl) (λ p. refl) (omega arith)
                    (ground (arith, valid.within)))
            ]
          ]
        ]
      ]

-- Copying items between two valid arrays of one item size stays inside their memory, succeeds
-- exactly if the source has the items and the destination may be resized as far as necessary, then
-- copies exactly those items; if it fails the destination is unchanged. The end of what is written
-- fits an `int`.
pub dynamic_array_copy_from_other-Copies :
    (allocated capacity_change length_change : Bool) (dest src : DynamicArray) (at from n : ℕ)
    (count : ℤ)
    → IsValid dest
    → IsValid src
    → dest.item_size ≡ src.item_size
    → count_of src.length from count ≡ pos n
    → at + n < 2 ^ 31
    → (r : Bool × DynamicArray) × (dynamic_array_copy_from_other allocated dest
          (pos at)
          src
          (pos from)
          count
          capacity_change
          length_change
        ≡ ok r)
      × Copies allocated capacity_change length_change dest src at from n r
unfolding dynamic_array_copy_from_other copy_checked copy_counted
dynamic_array_copy_from_other-Copies allocated capacity_change length_change dest src at from n
      count valid source same items small =
    let equal : dest.item_size == src.item_size ≡ true = ground (arith, same) in
    rw (equal, items)
      (copy_count-Copies allocated capacity_change length_change dest src at from valid source same
        n small)
