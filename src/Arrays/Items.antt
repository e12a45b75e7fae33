-- ===== src/Arrays/Items.antt =====
-- Growing an array and writing an item (`dynamic_array_ensure_capacity`,
-- `dynamic_array_set_length` and `dynamic_array_set_from_pointer` of src/arrays.c).
use xprc_server_plugin_c.Common.Int.{ℤ, pos, negsuc, ltb_ℤ}
use xprc_server_plugin_c.Common.Run.{ok}
use xprc_server_plugin_c.Common.{
  ℕ, zero, suc, ◌+◌, ◌-◌, ◌*◌, ◌<◌, ◌≤◌, ◌≡◌, refl, Bool, true, false, ◌&&◌, ◌||◌, not, List, [],
  ◌∷◌, ◌++◌, arith, ltb, leb, if◌then◌else◌, length, take, drop, replicate, get_or, length-take,
  length-drop, length-append, length-replicate, get_or-replicate, subst, Bool-cases, inl, inr,
}
use xprc_server_plugin_c.Arrays.{
  DynamicArray, dynamic_array_ensure_capacity, memory_write, memory_read, grow,
}

-- The length stays within the capacity, for which there is memory.
pub record IsValid (arr : DynamicArray) : Type 0 where
  pub sized : 0 < arr.item_size
  pub within : arr.length ≤ arr.capacity
  pub memory : length arr.memory ≡ arr.capacity * arr.item_size

-- Byte `k` of item `j`.
abbrev pub byte : DynamicArray → ℕ → ℕ → ℕ
byte arr j k = get_or arr.memory (j * arr.item_size + k) 0

-- Items do not overlap.
pub item_below : (s i j k : ℕ) → k < s → i < j → i * s + k < j * s
item_below s i j k h l = grind arith

get_or-take :
    (n : ℕ) (xs : List ℕ) (p : ℕ) → get_or (take n xs) p 0 ≡ (if ltb p n then get_or xs p 0 else 0)
get_or-take zero xs p = ground arith
get_or-take (suc n) [] p = ground arith
get_or-take (suc n) (x ∷ xs) zero = ground arith
get_or-take (suc n) (x ∷ xs) (suc p) = ground (arith, get_or-take n xs p)

get_or-drop : (n : ℕ) (xs : List ℕ) (p : ℕ) → get_or (drop n xs) p 0 ≡ get_or xs (n + p) 0
get_or-drop zero xs p = ground arith
get_or-drop (suc n) [] p = ground arith
get_or-drop (suc n) (x ∷ xs) p = ground (arith, get_or-drop n xs p)

get_or-append :
    (xs ys : List ℕ) (p : ℕ)
    → get_or (xs ++ ys) p 0
      ≡ (if ltb p (length xs) then get_or xs p 0 else get_or ys (p - length xs) 0)
get_or-append [] ys p = ground arith
get_or-append (x ∷ xs) ys zero = ground arith
get_or-append (x ∷ xs) ys (suc p) = ground (arith, get_or-append xs ys p)

get_or-end : (xs : List ℕ) (p : ℕ) → length xs ≤ p → get_or xs p 0 ≡ 0
get_or-end [] p h = refl
get_or-end (x ∷ xs) zero h = absurd (omega arith)
get_or-end (x ∷ xs) (suc p) h = get_or-end xs p (omega arith)

-- A write within the memory: the bytes stand at the offset, and the others are as before.
pub record Writes (mem : List ℕ) (offset : ℕ) (bytes m : List ℕ) : Type 0 where
  pub done : memory_write mem offset bytes ≡ ok m
  pub sized : length m ≡ length mem
  pub reads :
      (p : ℕ)
      → get_or m p 0 ≡ (
          if leb offset p && ltb p (offset + length bytes)
          then get_or bytes (p - offset) 0
          else get_or mem p 0)

pub memory_write-Writes :
    (mem : List ℕ) (offset : ℕ) (bytes : List ℕ)
    → offset + length bytes ≤ length mem
    → (m : List ℕ) × Writes mem offset bytes m
unfolding memory_write
memory_write-Writes mem offset bytes h =
    let front = take offset mem in
    let back = drop (offset + length bytes) mem in
    let front_size : length front ≡ offset = omega (arith, length-take offset mem) in
    let tail_size = length-append bytes back in
    let back_size = length-drop (offset + length bytes) mem in
    let size : length (front ++ (bytes ++ back)) ≡ length front + length (bytes ++ back) =
      length-append front (bytes ++ back) in
    (
      front ++ (bytes ++ back),
      record {
        done = ground arith;
        sized = omega (arith, front_size, tail_size, back_size, size);
        reads = λ p. ground (
          arith,
          front_size,
          back_size,
          get_or-append front (bytes ++ back) p,
          get_or-append bytes back (p - offset),
          get_or-take offset mem p,
          get_or-drop (offset + length bytes) mem (p - offset - length bytes),
          get_or-end mem p,
        );
      },
    )

-- A read within the memory.
pub memory_read-reads :
    (mem : List ℕ) (offset count : ℕ)
    → offset + count ≤ length mem
    → (bytes : List ℕ) × (memory_read mem offset count ≡ ok bytes)
      × (length bytes ≡ count)
      × ((k : ℕ) → k < count → get_or bytes k 0 ≡ get_or mem (offset + k) 0)
unfolding memory_read
memory_read-reads mem offset count h =
    let size = length-drop offset mem in
    let taken = length-take count (drop offset mem) in
    (
      take count (drop offset mem),
      ground arith,
      omega arith,
      λ k below. ground (arith, get_or-take count (drop offset mem) k, get_or-drop offset mem k),
    )

-- Growing keeps every byte, and what is new is zero.
grow-keeps :
    (arr : DynamicArray) (capacity : ℕ)
    → IsValid arr
    → arr.capacity ≤ capacity
    → IsValid (grow arr capacity)
      × ((p : ℕ) → get_or (grow arr capacity).memory p 0 ≡ get_or arr.memory p 0)
unfolding grow
grow-keeps arr capacity valid more =
    let old_size = arr.capacity * arr.item_size in
    let new_size = capacity * arr.item_size in
    let monotone : old_size ≤ new_size = grind arith in
    let kept = take old_size arr.memory in
    let zeros : List ℕ = replicate (new_size - old_size) 0 in
    let kept_size : length kept ≡ old_size =
      omega (arith, length-take old_size arr.memory, valid.memory) in
    let size : length (kept ++ zeros) ≡ length kept + length zeros = length-append kept zeros in
    let zeros_size : length zeros ≡ new_size - old_size =
      length-replicate {A = ℕ} (new_size - old_size) 0 in
    (
      record {
        sized = valid.sized;
        within = omega (arith, valid.within);
        memory = omega (arith, size, kept_size, zeros_size);
      },
      λ p. ground (
        arith,
        kept_size,
        valid.memory,
        get_or-append kept zeros p,
        get_or-take old_size arr.memory p,
        get_or-replicate {A = ℕ} (new_size - old_size) (p - length kept) 0,
        get_or-end arr.memory p,
      ),
    )

-- Ensuring a capacity succeeds exactly if it is not negative and is there already or there is memory;
-- the capacity is then at least what was asked for. All bytes stay as they were, new ones being zero.
pub record Ensures (allocated : Bool) (arr : DynamicArray) (capacity : ℤ) (r : Bool × DynamicArray)
    : Type 0 where
  pub succeeds :
      r.0 ≡ (not (ltb_ℤ capacity (pos 0)) && (allocated || not (ltb_ℤ (pos arr.capacity) capacity)))
  pub covers : r.0 ≡ true → ltb_ℤ (pos r.1.capacity) capacity ≡ false
  pub unchanged : r.0 ≡ false → r.1 ≡ arr
  pub keeps : IsValid r.1
  pub item_size : r.1.item_size ≡ arr.item_size
  pub length : r.1.length ≡ arr.length
  pub bytes : (p : ℕ) → get_or r.1.memory p 0 ≡ get_or arr.memory p 0

-- On a valid array, ensuring a capacity succeeds exactly if it is not negative and is there already
-- or there is memory, covers what was asked for, and keeps every byte, new ones being zero.
pub dynamic_array_ensure_capacity-Ensures :
    (allocated : Bool) (arr : DynamicArray) (capacity : ℤ)
    → IsValid arr
    → Ensures allocated arr capacity (dynamic_array_ensure_capacity allocated arr capacity)
unfolding dynamic_array_ensure_capacity
dynamic_array_ensure_capacity-Ensures allocated arr (negsuc n) valid = record {
  succeeds = ground arith;
  covers = λ h. cc;
  unchanged = λ _. refl;
  keeps = valid;
  item_size = refl;
  length = refl;
  bytes = λ p. refl;
}
dynamic_array_ensure_capacity-Ensures allocated arr (pos capacity) valid =
    elim (Bool-cases (leb capacity arr.capacity)) [
      | inl there ↦
          let same : Ensures allocated arr (pos capacity) (true, arr) = record {
            succeeds = ground arith;
            covers = λ h. ground arith;
            unchanged = λ h. refl;
            keeps = valid;
            item_size = refl;
            length = refl;
            bytes = λ p. refl;
          } in
          rw there same
      | inr missing ↦
          let (grown, bytes) = grow-keeps arr capacity valid (ground arith) in
          elim (Bool-cases allocated) [
            | inl available ↦
                let larger : Ensures allocated arr (pos capacity) (true, grow arr capacity) =
                  record {
                    succeeds = ground arith;
                    covers = λ h. unfold grow in ground arith;
                    unchanged = λ h. cc;
                    keeps = grown;
                    item_size = unfold grow in refl;
                    length = unfold grow in refl;
                    bytes = bytes;
                  } in
                rw (missing, available)
                  (subst (λ a. Ensures a arr (pos capacity) (true, grow arr capacity)) available
                    larger)
            | inr refused ↦
                let same : Ensures allocated arr (pos capacity) (false, arr) = record {
                  succeeds = ground arith;
                  covers = λ h. cc;
                  unchanged = λ h. refl;
                  keeps = valid;
                  item_size = refl;
                  length = refl;
                  bytes = λ p. refl;
                } in
                rw (missing, refused)
                  (subst (λ a. Ensures a arr (pos capacity) (false, arr)) refused same)
          ]
    ]
