-- ===== src/HashMap/Tests.antt =====
-- Runs of the code of src/hashmap.c and uses of its theorems at concrete tables.
use xprc_server_plugin_c.Common.{ℕ, ◌≡◌, Bool, true, codes, is_some, ◌==◌}
use xprc_server_plugin_c.HashMap.Laws.{
  IsValid, Puts, create_hashmap-IsValid, hashmap_put-Puts, one_if,
}
use xprc_server_plugin_c.HashMap.Keys.{count_str, hashmap_reference_keys-count}
use xprc_server_plugin_c.HashMap.{
  HashmapItem, create_hashmap, hashmap_get, hashmap_put, hashmap_reference_keys,
}

-- A table with one entry is a proper one.
one_entry-IsValid : IsValid {V = ℕ} (hashmap_put true create_hashmap (codes "key") 5).2
one_entry-IsValid = hashmap_put-Puts_example_table.keeps
  where
    hashmap_put-Puts_example_table :
        Puts {V = ℕ} true create_hashmap
          (codes "key")
          5
          (hashmap_put true create_hashmap (codes "key") 5)
    hashmap_put-Puts_example_table =
        hashmap_put-Puts {V = ℕ} true create_hashmap (codes "key") 5 create_hashmap-IsValid.0

hashmap_reference_keys-count_example :
    count_str
      (codes "key")
      (hashmap_reference_keys {V = ℕ} (hashmap_put true create_hashmap (codes "key") 5).2)
    ≡ one_if (
        is_some
          (hashmap_get {V = ℕ} (hashmap_put true create_hashmap (codes "key") 5).2 (codes "key")))
hashmap_reference_keys-count_example =
    hashmap_reference_keys-count {V = ℕ} (hashmap_put true create_hashmap (codes "key") 5).2
      (codes "key") one_entry-IsValid

is_five : HashmapItem ℕ → Bool
is_five item = item.value == 5
