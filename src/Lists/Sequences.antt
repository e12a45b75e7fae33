-- ===== src/Lists/Sequences.antt =====
-- The linked list of src/lists.c as a sequence of nodes.
use xprc_server_plugin_c.Common.{
  ℕ, ◌+◌, ◌≡◌, refl, ◌∙◌, sym, ap, subst, inl, inr, arith, Bool, true, Option, none, some, List, [],
  ◌∷◌, ◌++◌, ◌==◌, if◌then◌else◌, is_some, length, length-append, Bool-cases, ==_iff,
}
use xprc_server_plugin_c.Common.Run.{ok}
use xprc_server_plugin_c.Lists.{
  Heap, LinkedList, ListItem, find_loop, link_next, link_prev, list_append, list_find_test,
  list_prepend, store,
}
use xprc_server_plugin_c.Lists.Chains.{
  AreDistinct, IsAbsent, IsChain, Node, IsChain-append, first_or, last_or, link_next_lem,
  link_prev_lem, read-some, store-IsChain, store_here, ==_sym,
}

-- The list holds the nodes, in order.
pub record IsList (heap : Heap) (list : LinkedList) (nodes : List Node) : Type 0 where
  pub sized : list.size ≡ length nodes
  pub head : list.head ≡ first_or nodes none
  pub tail : list.tail ≡ last_or nodes none
  pub chain : IsChain heap none nodes none
  pub distinct : AreDistinct nodes

-- A free pointer belongs to no node.
free-IsAbsent :
    (heap : Heap) (p : ℕ) (prev next : Option ℕ) (nodes : List Node)
    → heap p ≡ none
    → IsChain heap prev nodes next
    → IsAbsent p nodes
unfolding IsChain IsAbsent
free-IsAbsent heap p prev next [] free chain = tt
free-IsAbsent heap p prev next (node ∷ nodes) free (here, chain) = (
  elim (Bool-cases (p == node.pointer)) [
    | inl same ↦ absurd (
        let e : heap node.pointer ≡ none =
          subst (λ q. heap q ≡ none) ((==_iff p node.pointer).0 same) free in
        cc)
    | inr other ↦ other
  ],
  free-IsAbsent heap p (some node.pointer) next nodes free chain,
)

absent-append : (p : ℕ) (a b : List Node) → IsAbsent p a → IsAbsent p b → IsAbsent p (a ++ b)
unfolding IsAbsent
absent-append p [] b left right = right
absent-append p (node ∷ a) b (away, left) right = (away, absent-append p a b left right)

distinct-snoc :
    (nodes : List Node) (node : Node)
    → AreDistinct nodes
    → IsAbsent node.pointer nodes
    → AreDistinct (nodes ++ node ∷ [])
unfolding AreDistinct IsAbsent
distinct-snoc [] node distinct absent = (tt, tt)
distinct-snoc (n ∷ nodes) node (away, distinct) (other, absent) = (
  absent-append n.pointer nodes (node ∷ []) away (==_sym node.pointer n.pointer other, tt),
  distinct-snoc nodes node distinct absent,
)

last_or-snoc :
    (nodes : List Node) (node : Node) (prev : Option ℕ)
    → last_or (nodes ++ node ∷ []) prev ≡ some node.pointer
last_or-snoc [] node prev = refl
last_or-snoc (n ∷ nodes) node prev = last_or-snoc nodes node (some n.pointer)

-- Appending a value to a list whose items form a sequence, with a pointer for its item that is free,
-- succeeds and puts the value behind the others.
pub list_append-IsList :
    (heap : Heap) (list : LinkedList) (nodes : List Node) (p : ℕ) (value : Option ℕ)
    → IsList heap list nodes
    → heap p ≡ none
    → (after : Heap) × (longer : LinkedList) × (list_append heap list (some p) value
        ≡ ok (true, after, longer))
      × IsList after longer (nodes ++ record { pointer = p; value = value } ∷ [])
unfolding list_append IsChain AreDistinct IsAbsent link_next
list_append-IsList heap list [] p value l free =
    let item : Option ListItem = some (record { value = value; prev = list.tail; next = none }) in
    (
      store heap p item,
      record { size = list.size + 1; head = some p; tail = some p },
      rw (l.tail, l.head),
      record {
        sized = omega (arith, l.sized);
        head = refl;
        tail = refl;
        chain = (store_here heap p item ∙ rw l.tail, tt);
        distinct = (tt, tt);
      },
    )
list_append-IsList heap list (node ∷ nodes) p value l free =
    let all = node ∷ nodes in
    let item : Option ListItem = some (record { value = value; prev = list.tail; next = none }) in
    let absent = free-IsAbsent heap p none none all free l.chain in
    let stored = store-IsChain heap p item none none all absent l.chain in
    let (after, run, kept, same) =
      link_next_lem (store heap p item) none none (some p) node nodes l.distinct stored in
    let ran : link_next (store heap p item) list.tail (some p) ≡ ok after =
      ap (λ t. link_next (store heap p item) t (some p)) l.tail ∙ run in
    (
      after,
      record { size = list.size + 1; head = some node.pointer; tail = some p },
      rw (ran, l.head),
      record {
        sized =
            omega
              (arith, l.sized, length-append nodes (record { pointer = p; value = value } ∷ []));
        head = refl;
        tail = sym (last_or-snoc all (record { pointer = p; value = value }) none);
        chain =
            IsChain-append after none none all (record { pointer = p; value = value } ∷ []) kept
              (same p absent ∙ store_here heap p item ∙ rw l.tail, tt);
        distinct = distinct-snoc all (record { pointer = p; value = value }) l.distinct absent;
      },
    )

last_or-is_some : (nodes : List Node) (q : ℕ) → is_some (last_or nodes (some q)) ≡ true
last_or-is_some [] q = refl
last_or-is_some (node ∷ nodes) q = last_or-is_some nodes node.pointer

-- Prepending a value with a free pointer for its item puts it before the others.
pub list_prepend-IsList :
    (heap : Heap) (list : LinkedList) (nodes : List Node) (p : ℕ) (value : Option ℕ)
    → IsList heap list nodes
    → heap p ≡ none
    → (after : Heap) × (longer : LinkedList) × (list_prepend heap list (some p) value
        ≡ ok (true, after, longer))
      × IsList after longer (record { pointer = p; value = value } ∷ nodes)
unfolding list_prepend IsChain AreDistinct IsAbsent link_prev
list_prepend-IsList heap list [] p value l free =
    let item : Option ListItem = some (record { value = value; prev = none; next = list.head }) in
    (
      store heap p item,
      record { size = list.size + 1; head = some p; tail = some p },
      rw (l.tail, l.head),
      record {
        sized = omega (arith, l.sized);
        head = refl;
        tail = refl;
        chain = (store_here heap p item ∙ rw l.head, tt);
        distinct = (tt, tt);
      },
    )
list_prepend-IsList heap list (node ∷ nodes) p value l free =
    let all = node ∷ nodes in
    let item : Option ListItem = some (record { value = value; prev = none; next = list.head }) in
    let absent = free-IsAbsent heap p none none all free l.chain in
    let stored = store-IsChain heap p item none none all absent l.chain in
    let (after, run, kept, same) =
      link_prev_lem (store heap p item) none (some p) none node nodes l.distinct stored in
    let ran : link_prev (store heap p item) list.head (some p) ≡ ok after =
      ap (λ h. link_prev (store heap p item) h (some p)) l.head ∙ run in
    let kept_tail : is_some list.tail ≡ true =
      ap is_some l.tail ∙ last_or-is_some nodes node.pointer in
    (
      after,
      record { size = list.size + 1; head = some p; tail = list.tail },
      rw (ran, kept_tail),
      record {
        sized = omega (arith, l.sized);
        head = refl;
        tail = l.tail;
        chain = (same p absent ∙ store_here heap p item ∙ rw l.head, kept);
        distinct = (absent, l.distinct);
      },
    )

-- The pointer to the first node whose value passes the test.
pub find_node : (Option ℕ → Bool) → List Node → Option ℕ
find_node test [] = none
find_node test (node ∷ nodes) = if test node.value then some node.pointer else find_node test nodes

find_loop-find_node :
    (heap : Heap) (prev : Option ℕ) (nodes : List Node) (test : Option ℕ → Bool)
    → IsChain heap prev nodes none
    → find_loop (length nodes) heap (first_or nodes none) test ≡ ok (find_node test nodes)
unfolding find_loop find_node IsChain
find_loop-find_node heap prev [] test chain = refl
find_loop-find_node heap prev (node ∷ nodes) test (here, chain) =
    elim (Bool-cases (test node.value)) [
      | inl found ↦ rw (read-some heap node.pointer _ here, found)
      | inr other ↦
          rw (read-some heap node.pointer _ here, other)
            (find_loop-find_node heap (some node.pointer) nodes test chain)
    ]

-- The search ends, with the first item whose value passes the test.
pub list_find_test-find_node :
    (heap : Heap) (list : LinkedList) (nodes : List Node) (test : Option ℕ → Bool)
    → IsList heap list nodes
    → list_find_test heap list test ≡ ok (find_node test nodes)
unfolding list_find_test
list_find_test-find_node heap list nodes test l =
    rw (l.sized, l.head) (find_loop-find_node heap none nodes test l.chain)
