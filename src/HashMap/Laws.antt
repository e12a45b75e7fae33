-- ===== src/HashMap/Laws.antt =====
-- The hash table as a map (`hashmap_get` and `hashmap_put` of src/hashmap.c).
use xprc_server_plugin_c.Common.{
  ℕ, ◌+◌, ◌<◌, ◌≤◌, ◌≡◌, refl, ◌∙◌, Bool, true, false, ◌&&◌, ◌||◌, Option, none, some, List, [],
  ◌∷◌, arith, ◌==◌, ==_iff, if◌then◌else◌, is_some, get_or, get_or-set, length, length-set,
  length-replicate, get_or-replicate, str_eq, str_eq_iff, not, ltb,
}
use xprc_server_plugin_c.HashMap.Hash.{compute_hash-lt}
use xprc_server_plugin_c.HashMap.{
  Chain, Hashmap, compute_hash, hash_combinations, create_hashmap, get_in_chain, hashmap_get,
  put_in_chain, hashmap_put,
}

-- `count` of a key among the items of a chain.
abbrev pub one_if : Bool → ℕ
one_if true = 1
one_if false = 0

module _ {V : Type 0} where
  unfoldable pub count_key : List ℕ → Chain V → ℕ
  count_key q [] = 0
  count_key q (item ∷ chain) = one_if (str_eq item.key q) + count_key q chain

  module _ (allocated : Bool) (k : List ℕ) (v : V) where
    -- Writing in one chain: the status, the old value, and what the chain then reads as.
    put_in_chain_status :
        (chain : Chain V)
        → ((put_in_chain allocated k v chain).0 ≡ (allocated || is_some (get_in_chain k chain)))
          × ((put_in_chain allocated k v chain).1 ≡ get_in_chain k chain)
    unfolding put_in_chain get_in_chain
    put_in_chain_status [] = ground arith
    put_in_chain_status (item ∷ chain) = ground (arith, put_in_chain_status chain)

    get-put_in_chain :
        (q : List ℕ) (chain : Chain V)
        → get_in_chain q (put_in_chain allocated k v chain).2 ≡ (
            if (allocated || is_some (get_in_chain k chain)) && str_eq k q
            then some v
            else get_in_chain q chain)
    unfolding put_in_chain get_in_chain
    get-put_in_chain q [] = ground arith
    get-put_in_chain q (item ∷ chain) = ground (
      arith,
      str_eq_iff item.key k,
      str_eq_iff item.key q,
      str_eq_iff k q,
      get-put_in_chain q chain,
    )

    count-put_in_chain :
        (q : List ℕ) (chain : Chain V)
        → count_key q (put_in_chain allocated k v chain).2 ≡ (
            if str_eq k q && allocated && not (is_some (get_in_chain k chain))
            then count_key q chain + 1
            else count_key q chain)
    unfolding put_in_chain get_in_chain count_key
    count-put_in_chain q [] = ground arith
    count-put_in_chain q (item ∷ chain) = ground (arith, count-put_in_chain q chain)

  pub get-count :
      (q : List ℕ) (chain : Chain V) → is_some (get_in_chain q chain) ≡ ltb 0 (count_key q chain)
  unfolding get_in_chain count_key
  get-count q [] = refl
  get-count q (item ∷ chain) = ground (arith, get-count q chain)

  -- Every chain of the table is in place, and a key occurs once at most, in the chain of its hash.
  pub record IsValid (map : Hashmap V) : Type 0 where
    pub sized : length map ≡ hash_combinations
    pub placed : (q : List ℕ) (i : ℕ) → count_key q (get_or map i []) ≤ one_if (compute_hash q == i)

  pub create_hashmap-IsValid :
      IsValid create_hashmap × ((q : List ℕ) → hashmap_get {V = V} create_hashmap q ≡ none)
  unfolding create_hashmap hashmap_get count_key
  create_hashmap-IsValid =
      let blank = λ (i : ℕ). get_or-replicate {A = Chain V} hash_combinations i [] in
      (
        record {
          sized = length-replicate {A = Chain V} hash_combinations [];
          placed = λ q i. rw (blank i) (omega arith);
        },
        λ q. rw (blank (compute_hash q)),
      )

  -- `hashmap_put` succeeds where there is memory or the key is there; it gives the old value, and
  -- then the key reads as the new value and every other key as before.
  pub record Puts (allocated : Bool) (map : Hashmap V) (k : List ℕ) (v : V)
      (r : Bool × Option V × Hashmap V) : Type 0 where
    pub succeeds : r.0 ≡ (allocated || is_some (hashmap_get map k))
    pub old : r.1 ≡ hashmap_get map k
    pub reads :
        (q : List ℕ) → hashmap_get r.2 q ≡ (if r.0 && str_eq k q then some v else hashmap_get map q)
    pub keeps : IsValid r.2

  pub hashmap_put-Puts :
      (allocated : Bool) (map : Hashmap V) (k : List ℕ) (v : V)
      → IsValid map
      → Puts allocated map k v (hashmap_put allocated map k v)
  hashmap_put-Puts allocated map k v valid =
      let h = compute_hash k in
      let chain = get_or map h [] in
      let status = put_in_chain_status allocated k v chain in
      let within : h < length map = omega (arith, compute_hash-lt k, valid.sized) in
      record {
        succeeds = unfold hashmap_put hashmap_get in status.0;
        old = unfold hashmap_put hashmap_get in status.1;
        reads = λ q.
            unfold hashmap_put hashmap_get in
            ground (
              arith,
              get_or-set map h (compute_hash q) (put_in_chain allocated k v chain).2 [] within,
              get-put_in_chain allocated k v q chain,
              str_eq_iff k q,
              status,
              ==_iff h (compute_hash q),
            );
        keeps = record {
          sized = unfold hashmap_put in (length-set map h _ ∙ valid.sized);
          placed = λ q i.
              unfold hashmap_put in
              ground (
                arith,
                get_or-set map h i (put_in_chain allocated k v chain).2 [] within,
                count-put_in_chain allocated k v q chain,
                get-count k chain,
                get-count q chain,
                valid.placed q h,
                valid.placed q i,
                str_eq_iff k q,
                ==_iff h i,
              );
        };
      }
