-- ===== src/Lists/Tests.antt =====
-- Runs of the code of src/lists.c and uses of its theorems at concrete lists.
use xprc_server_plugin_c.Common.{◌≡◌, refl, true, none, some, [], ◌∷◌, ◌++◌, is_some}
use xprc_server_plugin_c.Common.Run.{ok}
use xprc_server_plugin_c.Lists.{
  Heap, LinkedList, create_list, list_append, list_delete_item, list_delete_items_where,
}
use xprc_server_plugin_c.Lists.Chains.{AreDistinct, IsChain, Node}
use xprc_server_plugin_c.Lists.Deletion.{
  keep_nodes, list_delete_item-IsList, list_delete_items_where-keep_nodes,
}
use xprc_server_plugin_c.Lists.Sequences.{IsList, list_append-IsList}

abbrev empty : Heap
empty p = none

create_list-IsList : IsList empty create_list []
unfolding IsChain AreDistinct
create_list-IsList = record { sized = refl; head = refl; tail = refl; chain = tt; distinct = tt }

abbrev first : Node
first = record { pointer = 10; value = some 1 }

one :
    (after : Heap) × (longer : LinkedList) × (list_append empty create_list (some 10) (some 1)
      ≡ ok (true, after, longer))
    × IsList after longer ([] ++ first ∷ [])
one = list_append-IsList empty create_list [] 10 (some 1) create_list-IsList refl

list_append-IsList_example :
    (after : Heap) × (longer : LinkedList) × (list_append empty create_list (some 10) (some 1)
      ≡ ok (true, after, longer))
    × IsList after longer ([] ++ first ∷ [])
list_append-IsList_example =
    list_append-IsList empty create_list [] 10 (some 1) create_list-IsList refl

list_delete_item-IsList_example :
    (after : Heap) × (shorter : LinkedList) × (list_delete_item one.0 one.1 10
      ≡ ok (after, shorter))
    × IsList after shorter ([] ++ [])
    × (after 10 ≡ none)
list_delete_item-IsList_example = list_delete_item-IsList one.0 one.1 [] first [] one.3

list_delete_items_where-keep_nodes_example :
    (after : Heap) × (shorter : LinkedList) × (list_delete_items_where one.0 one.1 is_some
      ≡ ok (after, shorter))
    × IsList after shorter (keep_nodes is_some (first ∷ []))
list_delete_items_where-keep_nodes_example =
    list_delete_items_where-keep_nodes one.0 one.1 (first ∷ []) is_some one.3
