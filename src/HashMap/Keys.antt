-- ===== src/HashMap/Keys.antt =====
-- Walks over the whole hash table (`hashmap_reference_keys`, `hashmap_find_first` and
-- `is_hashmap_empty` of src/hashmap.c).
use mathlib.Core.Option.{or_else}
use xprc_server_plugin_c.Common.{
  ℕ, zero, suc, ◌+◌, ◌<◌, ◌≤◌, ◌≡◌, refl, Bool, true, false, none, some, List, [], ◌∷◌, ◌++◌, arith,
  ◌==◌, ==_iff, is_some, get_or, str_eq, str_eq_iff, str_eq_refl, Bool-cases, inl, inr,
}
use mathlib.Core.Option.{none-ne-some}
use xprc_server_plugin_c.HashMap.Laws.{IsValid, count_key, one_if, get-count}
use xprc_server_plugin_c.HashMap.{
  HashmapItem, Chain, Hashmap, compute_hash, get_in_chain, hashmap_get, collect_chain, collect_keys,
  hashmap_reference_keys, find_in_chain, hashmap_find_first, is_hashmap_empty,
}

-- How often a string stands in a list.
unfoldable pub count_str : List ℕ → List (List ℕ) → ℕ
count_str q [] = 0
count_str q (k ∷ ks) = one_if (str_eq k q) + count_str q ks

count_str-append :
    (q : List ℕ) (xs ys : List (List ℕ)) → count_str q (xs ++ ys) ≡ count_str q xs + count_str q ys
unfolding count_str
count_str-append q [] ys = omega arith
count_str-append q (x ∷ xs) ys = omega (arith, count_str-append q xs ys)

module _ {V : Type 0} where
  total : List ℕ → Hashmap V → ℕ
  total q [] = 0
  total q (chain ∷ map) = count_key q chain + total q map

  count-collect_chain :
      (q : List ℕ) (out : List (List ℕ)) (chain : Chain V)
      → count_str q (collect_chain out chain) ≡ count_str q out + count_key q chain
  unfolding collect_chain count_key count_str
  count-collect_chain q out [] = omega arith
  count-collect_chain q out (item ∷ chain) = omega (
    arith,
    count-collect_chain q (out ++ item.key ∷ []) chain,
    count_str-append q out (item.key ∷ []),
  )

  count-collect_keys :
      (q : List ℕ) (out : List (List ℕ)) (map : Hashmap V)
      → count_str q (collect_keys out map) ≡ count_str q out + total q map
  unfolding collect_keys total
  count-collect_keys q out [] = omega arith
  count-collect_keys q out (chain ∷ map) =
      omega
        (arith, count-collect_keys q (collect_chain out chain) map, count-collect_chain q out chain)

  total-none :
      (q : List ℕ) (map : Hashmap V)
      → ((i : ℕ) → count_key q (get_or map i []) ≡ 0)
      → total q map ≡ 0
  unfolding total
  total-none q [] h = refl
  total-none q (chain ∷ map) h = omega (arith, h 0, total-none q map (λ i. h (suc i)))

  -- A key that can only stand in chain `h` is counted there.
  total-only :
      (q : List ℕ) (h : ℕ) (map : Hashmap V)
      → ((i : ℕ) → count_key q (get_or map i []) ≤ one_if (h == i))
      → total q map ≡ count_key q (get_or map h [])
  unfolding total count_key
  total-only q h [] placed = refl
  total-only q zero (chain ∷ map) placed =
      let rest = total-none q map (λ i. ground (arith, placed (suc i))) in omega arith
  total-only q (suc h) (chain ∷ map) placed =
      ground (arith, placed 0, total-only q h map (λ i. ground (arith, placed (suc i))))

  -- On a valid table, the list of keys holds each key of the map once, and nothing else.
  pub hashmap_reference_keys-count :
      (map : Hashmap V) (q : List ℕ)
      → IsValid map
      → count_str q (hashmap_reference_keys map) ≡ one_if (is_some (hashmap_get map q))
  hashmap_reference_keys-count map q valid =
      let h = compute_hash q in
      unfold hashmap_reference_keys hashmap_get count_str in
      ground (
        arith,
        count-collect_keys q [] map,
        total-only q h map (valid.placed q),
        get-count q (get_or map h []),
        valid.placed q h,
      )

  -- An item that the walk finds passes the test; if it finds none, no item passes.
  find_in_chain_sound :
      (p : HashmapItem V → Bool) (chain : Chain V) (item : HashmapItem V)
      → find_in_chain p chain ≡ some item
      → (p item ≡ true) × (0 < count_key item.key chain)
  unfolding find_in_chain count_key
  find_in_chain_sound p [] item h = cc
  find_in_chain_sound p (x ∷ chain) item h =
      ground (arith, find_in_chain_sound p chain item, str_eq_refl item.key)

  -- In a chain that holds the key once, the item that was found is the one that a lookup reads.
  find_in_chain-get :
      (p : HashmapItem V → Bool) (chain : Chain V) (item : HashmapItem V)
      → count_key item.key chain ≤ 1
      → find_in_chain p chain ≡ some item
      → get_in_chain item.key chain ≡ some item.value
  unfolding find_in_chain count_key get_in_chain
  find_in_chain-get p [] item once h = cc
  find_in_chain-get p (x ∷ chain) item once h = ground (
    arith,
    find_in_chain-get p chain item,
    find_in_chain_sound p chain item,
    str_eq_refl item.key,
  )

  find_in_chain-none :
      (p : HashmapItem V → Bool) (chain : Chain V) (q : List ℕ) (v : V)
      → find_in_chain p chain ≡ none
      → get_in_chain q chain ≡ some v
      → p (record { key = q; value = v }) ≡ false
  unfolding find_in_chain get_in_chain
  find_in_chain-none p [] q v h k = cc
  find_in_chain-none p (x ∷ chain) q v h k =
      ground (arith, find_in_chain-none p chain q v, str_eq_iff x.key q)

  find_first-none :
      (p : HashmapItem V → Bool) (map : Hashmap V) (i : ℕ)
      → hashmap_find_first map p ≡ none
      → find_in_chain p (get_or map i []) ≡ none
  unfolding hashmap_find_first or_else
  find_first-none p [] i h = refl
  find_first-none p (chain ∷ map) zero h = ground arith
  find_first-none p (chain ∷ map) (suc i) h = ground (arith, find_first-none p map i)

  -- An item that is found is found in one of the chains.
  find_first_sound :
      (p : HashmapItem V → Bool) (map : Hashmap V) (item : HashmapItem V)
      → hashmap_find_first map p ≡ some item
      → (i : ℕ) × (find_in_chain p (get_or map i []) ≡ some item)
  unfolding hashmap_find_first or_else
  find_first_sound p [] item h = absurd (none-ne-some item h)
  find_first_sound p (chain ∷ map) item h = elim (Bool-cases (is_some (find_in_chain p chain))) [
    | inl here ↦ (zero, ground arith)
    | inr later ↦ let (i, found) = find_first_sound p map item (ground arith) in (suc i, found)
  ]

  -- On a valid table, an item that `hashmap_find_first` returns passes the test and is what its key
  -- reads as; if it returns NULL, no entry passes.
  pub hashmap_find_first_complete :
      (map : Hashmap V) (p : HashmapItem V → Bool)
      → IsValid map
      → ((item : HashmapItem V)
          → hashmap_find_first map p ≡ some item
          → (p item ≡ true) × (hashmap_get map item.key ≡ some item.value))
        × (hashmap_find_first map p ≡ none
            → (q : List ℕ) (v : V) → hashmap_get map q ≡ some v
            → p (record { key = q; value = v }) ≡ false)
  hashmap_find_first_complete map p valid = (
    λ item found.
        let (i, here) = find_first_sound p map item found in
        let chain = get_or map i [] in
        let (pass, there) = find_in_chain_sound p chain item here in
        let bound = valid.placed item.key i in
        let reads : get_in_chain item.key chain ≡ some item.value =
          find_in_chain-get p chain item (ground (arith, bound)) here in
        let at : compute_hash item.key ≡ i = ground (arith, ==_iff (compute_hash item.key) i) in
        (pass, unfold hashmap_get in rw at reads),
    λ nothing q v here.
        find_in_chain-none p (get_or map (compute_hash q) []) q v
          (find_first-none p map (compute_hash q) nothing) (unfold hashmap_get in here),
  )

  empty-get : (map : Hashmap V) (i : ℕ) → is_hashmap_empty map ≡ true → get_or map i [] ≡ []
  unfolding is_hashmap_empty
  empty-get [] i h = refl
  empty-get ([] ∷ map) zero h = refl
  empty-get ([] ∷ map) (suc i) h = empty-get map i h
  empty-get ((x ∷ chain) ∷ map) i h = cc

  -- A map that is reported as empty has no key.
  pub hashmap_get-empty :
      (map : Hashmap V) (q : List ℕ) → is_hashmap_empty map ≡ true → hashmap_get map q ≡ none
  hashmap_get-empty map q h = unfold hashmap_get in rw (empty-get map (compute_hash q) h)
