-- ===== src/Timer/Tests.antt =====
-- Runs of the timer queue, and its theorems at small queues.
use pynagle.Common.{◌+◌, ◌≤◌, ◌≡◌, ◌⊎◌, true, occ, arith, Returns}
use pynagle.Timer.{Timer, new_timer, schedule, cancel, resume}
use pynagle.Timer.Heapq.{count_if, has_seq}
use pynagle.Timer.Sorted.{sorted_queue}
use pynagle.Timer.Worker.{
  Resumed, Reachable, created, schedules, cancels, Reachable-resume, Reachable-once,
}

-- Two entries, the later of which is due first; the other was cancelled.
abbrev two_entries : Timer
two_entries = cancel 1 (schedule sorted_queue 10 25 (schedule sorted_queue 10 73 new_timer))

two_entries-Reachable : Reachable sorted_queue 10 two_entries
two_entries-Reachable = cancels 1 (schedules 25 (schedules 73 created))

Reachable-resume_example :
    Returns (Resumed sorted_queue 30 two_entries) (resume sorted_queue 30 two_entries)
Reachable-resume_example = Reachable-resume sorted_queue 10 30 two_entries two_entries-Reachable

Reachable-once_example :
    (count_if (has_seq 2) two_entries.queue + occ 2 two_entries.spawned ≤ 1)
    × ((two_entries.cancelled 2 ≡ true)
        ⊎ (count_if (has_seq 2) two_entries.queue + occ 2 two_entries.spawned ≡ 1))
unfolding cancel schedule new_timer
Reachable-once_example =
    Reachable-once sorted_queue 10 two_entries two_entries-Reachable 2 (omega arith) (omega arith)
