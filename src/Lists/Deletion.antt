-- ===== src/Lists/Deletion.antt =====
-- Deletion of items from the linked list of src/lists.c.
use xprc_server_plugin_c.Common.{
  ℕ, ◌-◌, ◌≡◌, refl, ◌∙◌, sym, ap₂, subst, inl, inr, arith, Bool, false, Option, none, some, List,
  [], ◌∷◌, ◌++◌, ◌==◌, if◌then◌else◌, length, length-append, Bool-cases, ==_refl, append_assoc,
  append-nil,
}
use xprc_server_plugin_c.Common.Run.{ok}
use xprc_server_plugin_c.Lists.{
  Heap, LinkedList, delete_loop, link_next, link_prev, list_delete_item, list_delete_items_where,
  same_pointer, store,
}
use xprc_server_plugin_c.Lists.Chains.{
  Agrees, AreApart, AreDistinct, IsAbsent, IsChain, Node, IsChain-append, IsChain-split, first_or,
  frame-IsChain, last_or, link_next_lem, link_prev_lem, read-some, store-IsChain, store_here,
  ==_sym,
}
use xprc_server_plugin_c.Lists.Sequences.{IsList}

-- Some nodes, one, and some more, all of different pointers.
record Around (a : List Node) (node : Node) (b : List Node) : Type 0 where
  before : IsAbsent node.pointer a
  behind : IsAbsent node.pointer b
  left : AreDistinct a
  right : AreDistinct b
  apart : AreApart b a
  apart_left : AreApart a b
  both : AreDistinct (a ++ b)

absent-split : (p : ℕ) (a b : List Node) → IsAbsent p (a ++ b) → IsAbsent p a × IsAbsent p b
unfolding IsAbsent
absent-split p [] b h = (tt, h)
absent-split p (node ∷ a) b (away, h) =
    let (left, right) = absent-split p a b h in ((away, left), right)

absent-join : (p : ℕ) (a b : List Node) → IsAbsent p a → IsAbsent p b → IsAbsent p (a ++ b)
unfolding IsAbsent
absent-join p [] b left right = right
absent-join p (node ∷ a) b (away, left) right = (away, absent-join p a b left right)

apart-nil : (b : List Node) → AreApart b []
unfolding AreApart IsAbsent
apart-nil [] = tt
apart-nil (node ∷ b) = (tt, apart-nil b)

apart-cons :
    (b a : List Node) (node : Node) → IsAbsent node.pointer b → AreApart b a → AreApart b (node ∷ a)
unfolding AreApart IsAbsent
apart-cons [] a node away apart = tt
apart-cons (n ∷ b) a node (other, away) (here, apart) =
    ((==_sym node.pointer n.pointer other, here), apart-cons b a node away apart)

distinct-Around :
    (a : List Node) (node : Node) (b : List Node) → AreDistinct (a ++ node ∷ b) → Around a node b
unfolding AreDistinct AreApart IsAbsent
distinct-Around [] node b (away, distinct) = record {
  before = tt;
  behind = away;
  left = tt;
  right = distinct;
  apart = apart-nil b;
  apart_left = tt;
  both = distinct;
}
distinct-Around (n ∷ a) node b (away, distinct) =
    let around = distinct-Around a node b distinct in
    let (clear, rest) = absent-split n.pointer a (node ∷ b) away in
    let (other, free) = rest in
    record {
      before = (==_sym n.pointer node.pointer other, around.before);
      behind = around.behind;
      left = (clear, around.left);
      right = around.right;
      apart = apart-cons b a n free around.apart;
      apart_left = (free, around.apart_left);
      both = (absent-join n.pointer a b clear free, around.both);
    }

link_next-last :
    (heap : Heap) (old next : Option ℕ) (nodes : List Node)
    → AreDistinct nodes
    → IsChain heap none nodes old
    → (after : Heap) × (link_next heap (last_or nodes none) next ≡ ok after)
      × IsChain after none nodes next
      × Agrees nodes heap after
unfolding link_next IsChain
link_next-last heap old next [] distinct chain = (heap, refl, chain, λ q away. refl)
link_next-last heap old next (node ∷ nodes) distinct chain =
    link_next_lem heap none old next node nodes distinct chain

link_prev-first :
    (heap : Heap) (old prev : Option ℕ) (nodes : List Node)
    → AreDistinct nodes
    → IsChain heap old nodes none
    → (after : Heap) × (link_prev heap (first_or nodes none) prev ≡ ok after)
      × IsChain after prev nodes none
      × Agrees nodes heap after
unfolding link_prev IsChain
link_prev-first heap old prev [] distinct chain = (heap, refl, chain, λ q away. refl)
link_prev-first heap old prev (node ∷ nodes) distinct chain =
    link_prev_lem heap old prev none node nodes distinct chain

last_or-absent :
    (p q : ℕ) (nodes : List Node)
    → IsAbsent p nodes
    → (p == q) ≡ false
    → same_pointer (last_or nodes (some q)) (some p) ≡ false
unfolding IsAbsent
last_or-absent p q [] absent away = ==_sym p q away
last_or-absent p q (node ∷ nodes) (other, absent) away =
    last_or-absent p node.pointer nodes absent other

last_or-append :
    (a b : List Node) (prev : Option ℕ) → last_or (a ++ b) prev ≡ last_or b (last_or a prev)
last_or-append [] b prev = refl
last_or-append (node ∷ a) b prev = last_or-append a b (some node.pointer)

head_after :
    (a b : List Node) (node : Node)
    → IsAbsent node.pointer a
    → (if same_pointer (first_or (a ++ node ∷ b) none) (some node.pointer)
        then first_or b none
        else first_or (a ++ node ∷ b) none)
      ≡ first_or (a ++ b) none
unfolding IsAbsent
head_after [] b node absent = rw (==_refl node.pointer)
head_after (n ∷ a) b node (other, absent) = rw (==_sym node.pointer n.pointer other)

tail_after :
    (a b : List Node) (node : Node)
    → IsAbsent node.pointer b
    → (if same_pointer (last_or (a ++ node ∷ b) none) (some node.pointer)
        then last_or a none
        else last_or (a ++ node ∷ b) none)
      ≡ last_or (a ++ b) none
unfolding IsAbsent
tail_after a [] node absent =
    rw (last_or-append a (node ∷ []) none, ==_refl node.pointer, append-nil a)
tail_after a (n ∷ b) node (other, absent) = rw (
  last_or-append a (node ∷ n ∷ b) none,
  last_or-absent node.pointer n.pointer b absent other,
  last_or-append a (n ∷ b) none,
)

-- Deleting an item of a list whose items form a sequence takes its node out of the sequence, and
-- frees the item.
pub list_delete_item-IsList :
    (heap : Heap) (list : LinkedList) (a : List Node) (node : Node) (b : List Node)
    → IsList heap list (a ++ node ∷ b)
    → (after : Heap) × (shorter : LinkedList) × (list_delete_item heap list node.pointer
        ≡ ok (after, shorter))
      × IsList after shorter (a ++ b)
      × (after node.pointer ≡ none)
unfolding list_delete_item IsChain
list_delete_item-IsList heap list a node b l =
    let p = node.pointer in
    let around = distinct-Around a node b l.distinct in
    let (left, rest) = IsChain-split heap none none a (node ∷ b) l.chain in
    let (here, right) = rest in
    let (first, run_next, left_linked, same_first) =
      link_next-last heap (some p) (first_or b none) a around.left left in
    let right_kept = frame-IsChain heap first a b (some p) none same_first around.apart right in
    let (second, run_prev, right_linked, same_second) =
      link_prev-first first (some p) (last_or a none) b around.right right_kept in
    let left_kept =
      frame-IsChain first second b a none (first_or b none) same_second around.apart_left
        left_linked in
    let joined = IsChain-append second none none a b left_kept right_linked in
    let absent = absent-join p a b around.before around.behind in
    (
      store second p none,
      record {
        size = list.size - 1;
        head = if same_pointer list.head (some p) then first_or b none else list.head;
        tail = if same_pointer list.tail (some p) then last_or a none else list.tail;
      },
      rw (read-some heap p _ here, run_next, run_prev),
      record {
        sized = omega (arith, l.sized, length-append a (node ∷ b), length-append a b);
        head = rw l.head (head_after a b node around.before);
        tail = rw l.tail (tail_after a b node around.behind);
        chain = store-IsChain second p none none none (a ++ b) absent joined;
        distinct = around.both;
      },
      store_here second p none,
    )

-- The nodes whose value does not pass the test.
pub keep_nodes : (Option ℕ → Bool) → List Node → List Node
keep_nodes test [] = []
keep_nodes test (node ∷ nodes) =
    let rest = keep_nodes test nodes in if test node.value then rest else node ∷ rest

delete_loop-keep_nodes :
    (heap : Heap) (list : LinkedList) (a b : List Node) (test : Option ℕ → Bool)
    → IsList heap list (a ++ b)
    → (after : Heap) × (shorter : LinkedList) × (delete_loop
          (length b)
          heap
          list
          (first_or b none)
          test
        ≡ ok (after, shorter))
      × IsList after shorter (a ++ keep_nodes test b)
unfolding delete_loop keep_nodes IsChain
delete_loop-keep_nodes heap list a [] test l = (heap, list, refl, l)
delete_loop-keep_nodes heap list a (node ∷ b) test l =
    let (left, rest) = IsChain-split heap none none a (node ∷ b) l.chain in
    let (here, right) = rest in
    let look = read-some heap node.pointer _ here in
    elim (Bool-cases (test node.value)) [
      | inl removed ↦
          let (after, shorter, run, kept, freed) = list_delete_item-IsList heap list a node b l in
          let (last, final, ran, done) = delete_loop-keep_nodes after shorter a b test kept in
          (last, final, rw (look, removed, run) ran, rw removed done)
      | inr stays ↦
          let moved : IsList heap list (a ++ node ∷ [] ++ b) =
            subst (IsList heap list) (sym (append_assoc a (node ∷ []) b)) l in
          let (last, final, ran, done) =
            delete_loop-keep_nodes heap list (a ++ node ∷ []) b test moved in
          (
            last,
            final,
            rw (look, stays) ran,
            rw stays
                (subst (IsList last final) (append_assoc a (node ∷ []) (keep_nodes test b)) done),
          )
    ]

-- Where the items of a list form a sequence, deleting those whose values pass a test ends and leaves
-- the other nodes, in order.
pub list_delete_items_where-keep_nodes :
    (heap : Heap) (list : LinkedList) (nodes : List Node) (test : Option ℕ → Bool)
    → IsList heap list nodes
    → (after : Heap) × (shorter : LinkedList) × (list_delete_items_where heap list test
        ≡ ok (after, shorter))
      × IsList after shorter (keep_nodes test nodes)
unfolding list_delete_items_where
list_delete_items_where-keep_nodes heap list nodes test l =
    let (after, shorter, run, done) = delete_loop-keep_nodes heap list [] nodes test l in
    (after, shorter, ap₂ (λ n h. delete_loop n heap list h test) l.sized l.head ∙ run, done)
