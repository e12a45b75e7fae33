-- ===== src/Lists.antt =====
-- src/lists.c and src/lists.h: the doubly linked list.
-- A pointer is a number, `none` for NULL, and the heap maps a pointer to the item that lies there. A
-- read or a write through a pointer to no item is the result `fault`. `zmalloc` answers with a pointer
-- or NULL. A loop along the list takes as fuel the number of items, which the list keeps in `size`.
-- Values are pointers as well; their destructors touch no item, so they are left out.
pub mod Chains
pub mod Sequences
pub mod Deletion
mod Tests
use xprc_server_plugin_c.Common.{
  ℕ, zero, suc, ◌+◌, ◌-◌, Bool, true, false, Option, none, some, List, [], ◌∷◌, ◌==◌, if◌then◌else◌,
  is_some,
}
use xprc_server_plugin_c.Common.Run.{Run, ok, fault, ◌>>=◌}

pub record ListItem : Type 0 where
  pub value : Option ℕ
  pub prev : Option ℕ
  pub next : Option ℕ

pub record LinkedList : Type 0 where
  pub size : ℕ
  pub head : Option ℕ
  pub tail : Option ℕ

abbrev pub Heap : Type 0
Heap = ℕ → Option ListItem

abbrev pub create_list : LinkedList
create_list = record { size = 0; head = none; tail = none }

pub read : Heap → ℕ → Run ListItem
read heap p = elim (heap p) [ none ↦ fault | some item ↦ ok item ]

pub store : Heap → ℕ → Option ListItem → Heap
store heap p item q = if p == q then item else heap q

abbrev same_pointer : Option ℕ → Option ℕ → Bool
same_pointer none none = true
same_pointer none (some q) = false
same_pointer (some p) none = false
same_pointer (some p) (some q) = p == q

-- `if (p) p->next = next`
pub link_next : Heap → Option ℕ → Option ℕ → Run Heap
link_next heap none next = ok heap
link_next heap (some p) next = do
  item ← read heap p
  ok (store heap p (some (record item { next = next })))

-- `if (p) p->prev = prev`
pub link_prev : Heap → Option ℕ → Option ℕ → Run Heap
link_prev heap none prev = ok heap
link_prev heap (some p) prev = do
  item ← read heap p
  ok (store heap p (some (record item { prev = prev })))

-- The third argument is what `zmalloc` gives.
pub list_append : Heap → LinkedList → Option ℕ → Option ℕ → Run (Bool × Heap × LinkedList)
list_append heap list none value = ok (false, heap, list)
list_append heap list (some item) value = do
  linked ←
      link_next (store heap item (some (record { value = value; prev = list.tail; next = none })))
        list.tail (some item)
  ok (
    true,
    linked,
    record {
      size = list.size + 1;
      head = if is_some list.head then list.head else some item;
      tail = some item;
    },
  )

pub list_prepend : Heap → LinkedList → Option ℕ → Option ℕ → Run (Bool × Heap × LinkedList)
list_prepend heap list none value = ok (false, heap, list)
list_prepend heap list (some item) value = do
  linked ←
      link_prev (store heap item (some (record { value = value; prev = none; next = list.head })))
        list.head (some item)
  ok (
    true,
    linked,
    record {
      size = list.size + 1;
      head = some item;
      tail = if is_some list.tail then list.tail else some item;
    },
  )

-- The loop of `list_find_test`, from an item on.
find_loop : ℕ → Heap → Option ℕ → (Option ℕ → Bool) → Run (Option ℕ)
find_loop fuel heap none test = ok none
find_loop zero heap (some p) test = fault
find_loop (suc fuel) heap (some p) test = do
  item ← read heap p
  let rest = find_loop fuel heap item.next test
  if test item.value then ok (some p) else rest

pub list_find_test : Heap → LinkedList → (Option ℕ → Bool) → Run (Option ℕ)
list_find_test heap list test = find_loop list.size heap list.head test

pub list_find : Heap → LinkedList → Option ℕ → Run (Option ℕ)
list_find heap list value = list_find_test heap list (λ v. same_pointer v value)

pub list_delete_item : Heap → LinkedList → ℕ → Run (Heap × LinkedList)
list_delete_item heap list p = do
  item ← read heap p
  before ← link_next heap item.prev item.next
  after ← link_prev before item.next item.prev
  ok (
    store after p none,
    record {
      size = list.size - 1;
      head = if same_pointer list.head (some p) then item.next else list.head;
      tail = if same_pointer list.tail (some p) then item.prev else list.tail;
    },
  )

-- The loop of `list_delete_items_where`, from an item on.
delete_loop : ℕ → Heap → LinkedList → Option ℕ → (Option ℕ → Bool) → Run (Heap × LinkedList)
delete_loop fuel heap list none test = ok (heap, list)
delete_loop zero heap list (some p) test = fault
delete_loop (suc fuel) heap list (some p) test = do
  item ← read heap p
  r ← (if test item.value then list_delete_item heap list p else ok (heap, list))
  delete_loop fuel r.0 r.1 item.next test

pub list_delete_items_where : Heap → LinkedList → (Option ℕ → Bool) → Run (Heap × LinkedList)
list_delete_items_where heap list test = delete_loop list.size heap list list.head test
