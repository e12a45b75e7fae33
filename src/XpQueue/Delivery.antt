-- ===== src/XpQueue/Delivery.antt =====
-- Every command end that the queue of src/xpqueue.c takes is delivered once and in order, whichever
-- way the threads' calls follow each other.
use xprc_server_plugin_c.Common.{
  ℕ, ◌<◌, ◌≡◌, refl, ◌∙◌, sym, ap, true, false, none, List, [], ◌∷◌, ◌++◌, arith, ◌==◌, ltb,
  if◌then◌else◌, length, length-append, Bool-cases, inl, inr, append_assoc, append-nil,
}
use xprc_server_plugin_c.XpQueue.{
  XpQueue, Environment, create_xpqueue, queue_xplm_command_end, flush_xpqueue, destroy_xpqueue,
  flush_items, lock_xpqueue,
}
use xprc_server_plugin_c.Errors.{error_none}

-- The queue with what it accepted and what was delivered so far.
pub record World : Type 0 where
  pub queue : XpQueue
  pub accepted : List ℕ
  pub ended : List ℕ

abbrev pub start : World
start = record { queue = create_xpqueue; accepted = []; ended = [] }

-- A call by some thread.
pub data Call : Type 0 where
  queue_command_end : ℕ → Call
  flush : Call

unfoldable pub call : World → Call → Environment → World
call w (queue_command_end xp_ref) env =
    let (err, queue) = queue_xplm_command_end env w.queue xp_ref in
    record w {
      queue = queue;
      accepted = if err == error_none then w.accepted ++ xp_ref ∷ [] else w.accepted;
    }
call w flush env =
    let (err, queue, ended) = flush_xpqueue env w.queue in
    record w { queue = queue; ended = w.ended ++ ended }

-- What a sequence of calls leads to from the start.
pub data Reachable : World → Type 0 where
  started : Reachable start
  called : (w : World) (c : Call) (env : Environment) → Reachable w → Reachable (call w c env)

-- What was delivered, followed by what still waits, is what was accepted; the flag tells whether
-- anything waits.
pub record IsConsistent (w : World) : Type 0 where
  pub delivered : w.ended ++ w.queue.list ≡ w.accepted
  pub flagged : w.queue.has_pending_tasks ≡ ltb 0 (length w.queue.list)

flush_items-all : (ended list : List ℕ) → flush_items ended list ≡ (ended ++ list, [])
unfolding flush_items
flush_items-all ended [] = rw (append-nil ended) refl
flush_items-all ended (x ∷ list) =
    rw (flush_items-all (ended ++ x ∷ []) list, append_assoc ended (x ∷ []) list) refl

length_append-positive : (list : List ℕ) (x : ℕ) → 0 < length (list ++ x ∷ [])
length_append-positive list x = omega (arith, length-append list (x ∷ []))

call-IsConsistent :
    (w : World) (c : Call) (env : Environment) → IsConsistent w → IsConsistent (call w c env)
unfolding call queue_xplm_command_end flush_xpqueue
call-IsConsistent w (queue_command_end xp_ref) env ok = record {
  delivered = ground (arith, append_assoc w.ended w.queue.list (xp_ref ∷ []));
  flagged = ground (arith, length_append-positive w.queue.list xp_ref);
}
call-IsConsistent w flush env ok = rw (flush_items-all [] w.queue.list) (record {
  delivered = ground (arith, append-nil w.ended, append-nil (w.ended ++ w.queue.list));
  flagged = ground arith;
})

-- Whatever calls threads make, in whatever order, and however the environment answers: what was
-- delivered, and then what waits, is what was accepted, in order, and the flag tells whether
-- anything waits.
pub Reachable-IsConsistent : (w : World) → Reachable w → IsConsistent w
Reachable-IsConsistent _ started = record { delivered = refl; flagged = refl }
Reachable-IsConsistent _ (called w c env reached) =
    call-IsConsistent w c env (Reachable-IsConsistent w reached)

nothing_waits : (list : List ℕ) → ltb 0 (length list) ≡ false → list ≡ []
nothing_waits [] h = refl
nothing_waits (x ∷ list) h = absurd (ground arith)

-- In a reachable state, a flush whose lock is had and whose reads see the truth, while no
-- destruction is pending, delivers all that was accepted before, after which the queue can be
-- destroyed.
pub flush_xpqueue-delivers :
    (w : World) (env : Environment)
    → Reachable w
    → env.locked ≡ true
    → env.seen_destruction ≡ false
    → w.queue.destruction_pending ≡ false
    → env.seen_tasks ≡ w.queue.has_pending_tasks
    → ((call w flush env).ended ≡ w.accepted)
      × ((call w flush env).queue.list ≡ [])
      × (destroy_xpqueue env (call w flush env).queue ≡ (error_none, none))
unfolding call flush_xpqueue destroy_xpqueue lock_xpqueue
flush_xpqueue-delivers w env reached locked seen pending tasks =
    let ok = Reachable-IsConsistent w reached in
    rw (flush_items-all [] w.queue.list) (elim (Bool-cases w.queue.has_pending_tasks) [
      | inl waiting ↦ rw (tasks, waiting, seen, locked, pending) (ok.delivered, refl, refl)
      | inr idle ↦
          let nothing = nothing_waits w.queue.list (sym ok.flagged ∙ idle) in
          let all_ended : w.ended ≡ w.accepted =
            sym (append-nil w.ended) ∙ ap (λ l. w.ended ++ l) (sym nothing) ∙ ok.delivered in
          rw (tasks, idle, seen, locked, pending, nothing)
            (rw (append-nil w.ended) all_ended, refl, refl)
    ])
