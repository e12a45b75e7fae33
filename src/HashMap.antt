-- ===== src/HashMap.antt =====
-- src/hashmap.c and src/hashmap.h: a chained hash table from C strings to `void *`.
-- A chain is the list of its items in link order; the table is the list of its `HASH_COMBINATIONS`
-- chains. A value is a pointer: zero is NULL. The result `none` of a lookup is NULL for a missing key.
use xprc_server_plugin_c.Common.{
  ℕ, zero, suc, ◌+◌, ◌-◌, ◌*◌, ◌/◌, ◌%◌, ◌^◌, Bool, true, false, ◌&&◌, Option, none, some, List, [],
  ◌∷◌, ◌++◌, ◌==◌, if◌then◌else◌, get_or, set, length, replicate, bit_or, bit_and, bit_xor, str_eq,
}
use mathlib.Core.Option.{or_else}
pub mod Hash
pub mod Laws
pub mod Keys
mod Tests

abbrev pub hash_bytes : ℕ
hash_bytes = 2

abbrev pub hash_combinations : ℕ
hash_combinations = 2 ^ (hash_bytes * 8)

-- The portable form, for the amounts of 1 to 8 that the program uses; `value` is a byte.
unfoldable pub ror8 : ℕ → ℕ → ℕ
ror8 value num =
    bit_or (bit_and (value / 2 ^ (num % 8)) 0xff) (bit_and (value * 2 ^ (8 - num % 8)) 0xff)

-- The loop over the bytes of the key; `k` counts them and `hash` has `HASH_BYTES` bytes.
compute_hash_loop : ℕ → List ℕ → List ℕ → List ℕ
compute_hash_loop k hash [] = hash
compute_hash_loop k hash (key_byte ∷ key) =
    let h = k % hash_bytes in
    compute_hash_loop (k + 1) (set hash h (bit_xor key_byte (ror8 (get_or hash h 0) 1) % 256)) key

-- `out = (out << 8) + hash[i]` in a `uint16_t`
join_hash : ℕ → List ℕ → ℕ
join_hash out [] = out
join_hash out (b ∷ hash) = join_hash ((out * 256 + b) % 2 ^ 16) hash

unfoldable pub compute_hash : List ℕ → ℕ
unfolding compute_hash_loop join_hash ror8
compute_hash key = join_hash 0 (compute_hash_loop 0 (replicate hash_bytes 0) key)

pub record HashmapItem (V : Type 0) : Type 0 where
  pub key : List ℕ
  pub value : V

abbrev pub Chain : Type 0 → Type 0
Chain V = List (HashmapItem V)

-- `items[hash]`
abbrev pub Hashmap : Type 0 → Type 0
Hashmap V = List (Chain V)

module _ {V : Type 0} where
  unfoldable pub create_hashmap : Hashmap V
  create_hashmap = replicate hash_combinations []

  unfoldable pub get_in_chain : List ℕ → Chain V → Option V
  get_in_chain key [] = none
  get_in_chain key (item ∷ chain) =
      if str_eq item.key key then some item.value else get_in_chain key chain

  unfoldable pub hashmap_get : Hashmap V → List ℕ → Option V
  unfolding get_in_chain
  hashmap_get map key = get_in_chain key (get_or map (compute_hash key) [])

  -- The walk to the item with the key, or to the end of the chain, where a new item is linked if
  -- there is memory for it. The old value comes back through `old_value`.
  unfoldable pub put_in_chain : Bool → List ℕ → V → Chain V → Bool × Option V × Chain V
  put_in_chain allocated key value [] =
      if allocated
      then (true, none, record { key = key; value = value } ∷ [])
      else (false, none, [])
  put_in_chain allocated key value (item ∷ chain) =
      let (done, old, rest) = put_in_chain allocated key value chain in
      if str_eq item.key key
      then (true, some item.value, record item { value = value } ∷ chain)
      else (done, old, item ∷ rest)

  unfoldable pub hashmap_put : Bool → Hashmap V → List ℕ → V → Bool × Option V × Hashmap V
  unfolding put_in_chain
  hashmap_put allocated map key value =
      let hash = compute_hash key in
      let (done, old, chain) = put_in_chain allocated key value (get_or map hash []) in
      (done, old, set map hash chain)

  unfoldable pub is_hashmap_empty : Hashmap V → Bool
  is_hashmap_empty [] = true
  is_hashmap_empty ([] ∷ map) = is_hashmap_empty map
  is_hashmap_empty ((item ∷ chain) ∷ map) = false

  -- The inner loop: each key is appended to the list so far.
  collect_chain : List (List ℕ) → Chain V → List (List ℕ)
  collect_chain out [] = out
  collect_chain out (item ∷ chain) = collect_chain (out ++ item.key ∷ []) chain

  collect_keys : List (List ℕ) → Hashmap V → List (List ℕ)
  collect_keys out [] = out
  collect_keys out (chain ∷ map) = collect_keys (collect_chain out chain) map

  -- The keys, where there is memory for the list.
  unfoldable pub hashmap_reference_keys : Hashmap V → List (List ℕ)
  unfolding collect_keys collect_chain
  hashmap_reference_keys map = collect_keys [] map

  find_in_chain : (HashmapItem V → Bool) → Chain V → Option (HashmapItem V)
  find_in_chain predicate [] = none
  find_in_chain predicate (item ∷ chain) =
      if predicate item then some item else find_in_chain predicate chain

  unfoldable pub hashmap_find_first : Hashmap V → (HashmapItem V → Bool) → Option (HashmapItem V)
  unfolding find_in_chain
  hashmap_find_first [] predicate = none
  hashmap_find_first (chain ∷ map) predicate =
      or_else (find_in_chain predicate chain) (hashmap_find_first map predicate)
