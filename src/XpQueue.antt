-- ===== src/XpQueue.antt =====
-- src/xpqueue.c and src/xpqueue.h: the queue of calls that the flight loop makes into X-Plane.
-- Every access but two reads is under the mutex, so an operation is one step on the state. The two
-- reads without it (`destruction_pending` before locking and `has_pending_tasks` before flushing) may
-- see what another thread had not yet written, so their values are parameters, as are the mutex's and
-- the allocator's answers. A command reference is a number, `NO_XP_COMMAND` is 0, and the linked list
-- is the list of its values. What `XPLMCommandEnd` was called for is the list of references.
pub mod Delivery
mod Tests
use xprc_server_plugin_c.Common.{
  ℕ, zero, suc, Bool, true, false, ◌&&◌, ◌||◌, not, Option, none, some, List, [], ◌∷◌, ◌++◌, ◌==◌,
  ltb, if◌then◌else◌, length,
}
use xprc_server_plugin_c.Errors.{
  error_none, error_unspecific, error_memory_allocation, error_mutex_failed,
  error_destruction_pending,
}

abbrev pub no_xp_command : ℕ
no_xp_command = 0

pub record XpQueue : Type 0 where
  pub destruction_pending : Bool
  pub has_pending_tasks : Bool
  pub list : List ℕ

-- Where there is memory and the mutex was made.
abbrev pub create_xpqueue : XpQueue
create_xpqueue = record { destruction_pending = false; has_pending_tasks = false; list = [] }

-- `seen` is what `destruction_pending` read as before locking, `locked` whether the mutex was had.
unfoldable pub lock_xpqueue : Bool → Bool → XpQueue → ℕ
lock_xpqueue seen locked queue =
    if seen
    then error_destruction_pending
    else if not locked
    then error_mutex_failed
    else if queue.destruction_pending
    then error_destruction_pending
    else error_none

-- The answers of the environment to one call.
pub record Environment : Type 0 where
  pub seen_destruction : Bool
  pub seen_tasks : Bool
  pub locked : Bool
  pub task_allocated : Bool
  pub item_allocated : Bool

unfoldable pub queue_xplm_command_end : Environment → XpQueue → ℕ → ℕ × XpQueue
unfolding lock_xpqueue
queue_xplm_command_end env queue xp_ref =
    let err = lock_xpqueue env.seen_destruction env.locked queue in
    if xp_ref == no_xp_command
    then (error_unspecific, queue)
    else if not env.task_allocated
    then (error_memory_allocation, queue)
    else if not (err == error_none)
    then (err, queue)
    else if env.item_allocated
    then (error_none, record queue { list = queue.list ++ xp_ref ∷ []; has_pending_tasks = true })
    else (error_memory_allocation, queue)

-- The loop of the flush: what it called `XPLMCommandEnd` for so far, and the items that are left.
flush_items : List ℕ → List ℕ → List ℕ × List ℕ
flush_items ended [] = (ended, [])
flush_items ended (xp_ref ∷ list) = flush_items (ended ++ xp_ref ∷ []) list

unfoldable pub flush_xpqueue : Environment → XpQueue → ℕ × XpQueue × List ℕ
unfolding flush_items lock_xpqueue
flush_xpqueue env queue =
    let err = lock_xpqueue env.seen_destruction env.locked queue in
    let (ended, left) = flush_items [] queue.list in
    if not env.seen_tasks
    then (error_none, queue, [])
    else if not (err == error_none)
    then (err, queue, [])
    else if length left == 0
    then (error_none, record queue { list = left; has_pending_tasks = false }, ended)
    else (error_unspecific, record queue { list = left }, ended)

-- The error, and the queue, which `none` says was freed.
unfoldable pub destroy_xpqueue : Environment → XpQueue → ℕ × Option XpQueue
unfolding lock_xpqueue
destroy_xpqueue env queue =
    let err = lock_xpqueue env.seen_destruction env.locked queue in
    if not (err == error_none)
    then (err, some queue)
    else if queue.has_pending_tasks || ltb 0 (length queue.list)
    then (error_unspecific, some queue)
    else (error_none, none)
