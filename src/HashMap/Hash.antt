-- ===== src/HashMap/Hash.antt =====
-- `ror8` and `compute_hash` of src/hashmap.c.
use xprc_server_plugin_c.Common.{
  ℕ, zero, suc, ◌+◌, ◌-◌, ◌*◌, ◌/◌, ◌%◌, ◌^◌, ◌≤◌, ◌<◌, ◌≡◌, refl, ◌∙◌, true, List, [], ◌∷◌, arith,
  ◌==◌, ==_iff, length, length-set, replicate, all_below, all_below_sound,
}
use xprc_server_plugin_c.HashMap.{
  ror8, compute_hash, compute_hash_loop, join_hash, hash_bytes, hash_combinations,
}

rotation_table :
    all_below 8 (λ m.
      all_below 256 λ v. ror8 v (m + 1) == v / 2 ^ (m + 1) + v % 2 ^ (m + 1) * 2 ^ (8 - (m + 1)))
    ≡ true
unfolding all_below ror8
rotation_table = refl

-- On a byte, for amounts of 1 to 8, the portable `ror8` is the rotation to the right.
pub ror8-rotation :
    (value num : ℕ)
    → value < 256
    → 1 ≤ num
    → num ≤ 8
    → ror8 value num ≡ value / 2 ^ num + value % 2 ^ num * 2 ^ (8 - num)
ror8-rotation value zero h low high = absurd (omega arith)
ror8-rotation value (suc m) h low high = rw suc_add (
    (==_iff _ _).0
      (all_below_sound 256 _ value (all_below_sound 8 _ m rotation_table (omega arith)) h))
  where
    suc_add : suc m ≡ m + 1
    suc_add = omega arith

length-compute_hash_loop :
    (k : ℕ) (hash key : List ℕ) → length (compute_hash_loop k hash key) ≡ length hash
unfolding compute_hash_loop
length-compute_hash_loop k hash [] = refl
length-compute_hash_loop k hash (b ∷ key) =
    length-compute_hash_loop (k + 1) _ key ∙ length-set hash (k % hash_bytes) _

join_hash-lt : (out : ℕ) (hash : List ℕ) → out < 2 ^ 16 → join_hash out hash < 2 ^ 16
unfolding join_hash
join_hash-lt out [] h = h
join_hash-lt out (b ∷ hash) h = join_hash-lt ((out * 256 + b) % 2 ^ 16) hash (omega arith)

-- A hash is an index into the table.
pub compute_hash-lt : (key : List ℕ) → compute_hash key < hash_combinations
unfolding compute_hash
compute_hash-lt key =
    join_hash-lt 0 (compute_hash_loop 0 (replicate hash_bytes 0) key) (omega arith)
