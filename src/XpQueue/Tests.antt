-- ===== src/XpQueue/Tests.antt =====
-- Uses of the theorems on src/xpqueue.c at a concrete run.
use xprc_server_plugin_c.Common.{◌≡◌, refl, true, false, [], none}
use xprc_server_plugin_c.XpQueue.Delivery.{
  World, start, queue_command_end, flush, call, Reachable, started, called, IsConsistent,
  Reachable-IsConsistent, flush_xpqueue-delivers,
}
use xprc_server_plugin_c.XpQueue.{Environment, destroy_xpqueue, queue_xplm_command_end}
use xprc_server_plugin_c.Errors.{error_none}

-- Everything succeeds.
abbrev fair : Environment
fair = record {
  seen_destruction = false;
  seen_tasks = true;
  locked = true;
  task_allocated = true;
  item_allocated = true;
}

-- After a call with a command.
abbrev waiting : World
waiting = call start (queue_command_end 7) fair

waiting-Reachable : Reachable waiting
waiting-Reachable = called start (queue_command_end 7) fair started

Reachable-IsConsistent_example : IsConsistent waiting
Reachable-IsConsistent_example = Reachable-IsConsistent waiting waiting-Reachable

waiting_alive : waiting.queue.destruction_pending ≡ false
unfolding call queue_xplm_command_end
waiting_alive = refl

waiting_flagged : fair.seen_tasks ≡ waiting.queue.has_pending_tasks
unfolding call queue_xplm_command_end
waiting_flagged = refl

flush_xpqueue-delivers_example :
    ((call waiting flush fair).ended ≡ waiting.accepted)
    × ((call waiting flush fair).queue.list ≡ [])
    × (destroy_xpqueue fair (call waiting flush fair).queue ≡ (error_none, none))
flush_xpqueue-delivers_example =
    flush_xpqueue-delivers waiting fair waiting-Reachable refl refl waiting_alive waiting_flagged
