-- ===== src/Lists/Chains.antt =====
-- Runs of linked items of src/lists.c in the heap.
use xprc_server_plugin_c.Common.{
  ℕ, ◌≡◌, refl, ◌∙◌, arith, false, Option, some, List, [], ◌∷◌, ◌++◌, ◌==◌, ==_refl,
}
use xprc_server_plugin_c.Common.Run.{ok}
use xprc_server_plugin_c.Lists.{Heap, ListItem, link_next, link_prev, read, store}

-- The pointer and the value of an item.
pub record Node : Type 0 where
  pub pointer : ℕ
  pub value : Option ℕ

-- The pointer to the first node, or what is behind them.
abbrev pub first_or : List Node → Option ℕ → Option ℕ
first_or [] next = next
first_or (node ∷ nodes) next = some node.pointer

-- The pointer to the last node, or what is before them.
abbrev pub last_or : List Node → Option ℕ → Option ℕ
last_or [] prev = prev
last_or (node ∷ nodes) prev = last_or nodes (some node.pointer)

-- The nodes are linked in the heap, behind `prev` and before `next`.
unfoldable pub IsChain : Heap → Option ℕ → List Node → Option ℕ → Type 0
IsChain heap prev [] next = Unit {0}
IsChain heap prev (node ∷ nodes) next =
    (heap node.pointer
      ≡ some (record { value = node.value; prev = prev; next = first_or nodes next }))
    × IsChain heap (some node.pointer) nodes next

unfoldable pub IsAbsent : ℕ → List Node → Type 0
IsAbsent p [] = Unit {0}
IsAbsent p (node ∷ nodes) = ((p == node.pointer) ≡ false) × IsAbsent p nodes

unfoldable pub AreDistinct : List Node → Type 0
AreDistinct [] = Unit {0}
AreDistinct (node ∷ nodes) = IsAbsent node.pointer nodes × AreDistinct nodes

-- A write elsewhere.
pub store-IsChain :
    (heap : Heap) (p : ℕ) (item : Option ListItem) (prev next : Option ℕ) (nodes : List Node)
    → IsAbsent p nodes
    → IsChain heap prev nodes next
    → IsChain (store heap p item) prev nodes next
unfolding IsAbsent IsChain store
store-IsChain heap p item prev next [] away chain = tt
store-IsChain heap p item prev next (node ∷ nodes) (away, rest) (here, chain) =
    (rw away here, store-IsChain heap p item (some node.pointer) next nodes rest chain)

first_or-append :
    (a b : List Node) (next : Option ℕ) → first_or (a ++ b) next ≡ first_or a (first_or b next)
first_or-append [] b next = refl
first_or-append (node ∷ a) b next = refl

pub IsChain-append :
    (heap : Heap) (prev next : Option ℕ) (a b : List Node)
    → IsChain heap prev a (first_or b next)
    → IsChain heap (last_or a prev) b next
    → IsChain heap prev (a ++ b) next
unfolding IsChain
IsChain-append heap prev next [] b left right = right
IsChain-append heap prev next (node ∷ a) b (here, left) right = (
  here ∙ rw (first_or-append a b next),
  IsChain-append heap (some node.pointer) next a b left right,
)

pub IsChain-split :
    (heap : Heap) (prev next : Option ℕ) (a b : List Node)
    → IsChain heap prev (a ++ b) next
    → IsChain heap prev a (first_or b next) × IsChain heap (last_or a prev) b next
unfolding IsChain
IsChain-split heap prev next [] b chain = (tt, chain)
IsChain-split heap prev next (node ∷ a) b (here, chain) =
    let (left, right) = IsChain-split heap (some node.pointer) next a b chain in
    ((here ∙ rw (first_or-append a b next), left), right)

-- No pointer of the first list is in the second one.
unfoldable pub AreApart : List Node → List Node → Type 0
AreApart [] a = Unit {0}
AreApart (node ∷ b) a = IsAbsent node.pointer a × AreApart b a

-- The heaps agree outside the nodes.
abbrev pub Agrees : List Node → Heap → Heap → Type 0
Agrees nodes heap after = (q : ℕ) → IsAbsent q nodes → after q ≡ heap q

pub frame-IsChain :
    (heap after : Heap) (a b : List Node) (prev next : Option ℕ)
    → Agrees a heap after
    → AreApart b a
    → IsChain heap prev b next
    → IsChain after prev b next
unfolding AreApart IsChain
frame-IsChain heap after a [] prev next same apart chain = tt
frame-IsChain heap after a (node ∷ b) prev next same (away, apart) (here, chain) = (
  same node.pointer away ∙ here,
  frame-IsChain heap after a b (some node.pointer) next same apart chain,
)

pub read-some : (heap : Heap) (p : ℕ) (item : ListItem) → heap p ≡ some item → read heap p ≡ ok item
unfolding read
read-some heap p item here = rw (here, read)

pub store_here : (heap : Heap) (p : ℕ) (item : Option ListItem) → store heap p item p ≡ item
unfolding store
store_here heap p item = rw (==_refl p)

pub store_away :
    (heap : Heap) (p q : ℕ) (item : Option ListItem)
    → (p == q) ≡ false
    → store heap p item q ≡ heap q
unfolding store
store_away heap p q item away = rw away

pub ==_sym : (p q : ℕ) → (p == q) ≡ false → (q == p) ≡ false
==_sym p q h = ground arith

-- The last of some nodes gets another follower.
pub link_next_lem :
    (heap : Heap) (prev old next : Option ℕ) (node : Node) (nodes : List Node)
    → AreDistinct (node ∷ nodes)
    → IsChain heap prev (node ∷ nodes) old
    → (after : Heap) × (link_next heap (last_or (node ∷ nodes) prev) next ≡ ok after)
      × IsChain after prev (node ∷ nodes) next
      × Agrees (node ∷ nodes) heap after
unfolding AreDistinct IsChain link_next IsAbsent
link_next_lem heap prev old next node [] distinct (here, chain) =
    let item : ListItem = record { value = node.value; prev = prev; next = old } in
    (
      store heap node.pointer (some (record item { next = next })),
      rw (read-some heap node.pointer item here),
      (store_here heap node.pointer _, tt),
      λ q (away, nothing). store_away heap node.pointer q _ (==_sym q node.pointer away),
    )
link_next_lem heap prev old next node (second ∷ nodes) (absent, distinct) (here, chain) =
    let (after, run, kept, same) =
      link_next_lem heap (some node.pointer) old next second nodes distinct chain in
    (after, run, (same node.pointer absent ∙ here, kept), λ q (away, rest). same q rest)

-- The first of some nodes gets another one before it.
pub link_prev_lem :
    (heap : Heap) (old prev next : Option ℕ) (node : Node) (nodes : List Node)
    → AreDistinct (node ∷ nodes)
    → IsChain heap old (node ∷ nodes) next
    → (after : Heap) × (link_prev heap (some node.pointer) prev ≡ ok after)
      × IsChain after prev (node ∷ nodes) next
      × Agrees (node ∷ nodes) heap after
unfolding AreDistinct IsChain link_prev IsAbsent
link_prev_lem heap old prev next node nodes (absent, distinct) (here, chain) =
    let item : ListItem = record { value = node.value; prev = old; next = first_or nodes next } in
    let changed = some (record item { prev = prev }) in
    (
      store heap node.pointer changed,
      rw (read-some heap node.pointer item here),
      (
        store_here heap node.pointer changed,
        store-IsChain heap node.pointer changed (some node.pointer) next nodes absent chain,
      ),
      λ q (away, rest). store_away heap node.pointer q changed (==_sym q node.pointer away),
    )
