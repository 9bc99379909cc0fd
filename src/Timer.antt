-- ===== src/Timer.antt =====
-- scales/timer_queue.py, class TimerQueue. Times are whole numbers of a unit finer than every
-- resolution; an entry is named by its sequence number, which also stands for its action. The worker
-- greenlet is a machine of three phases, which gives way where the greenlet waits or sleeps.
pub mod Heapq
pub mod Sorted
pub mod Sound
pub mod Worker
mod Tests
use pynagle.Common.{
  ℕ, suc, ◌+◌, ◌-◌, ◌*◌, ◌/◌, Bool, true, false, not, List, [], ◌∷◌, update, ltb, ◌==◌,
  if◌then◌else◌, Run, ok, raised, ◌>>=◌,
}
use Heapq.{Key, HeapQueue}

-- Where the worker is: at the top of its loop, after the sleep that follows clearing the event, or in
-- the wait for the head that it peeked.
pub data Phase : Type 0 where
  top peeking : Phase
  waiting : Key → Phase

-- `event` tells whether _event is set, `cancelled` is the third field of the entries, and `spawned`
-- lists the actions that the worker started, the newest first.
pub record Timer : Type 0 where
  pub queue : List Key
  pub event : Bool
  pub seq : ℕ
  pub cancelled : ℕ → Bool
  pub phase : Phase
  pub spawned : List ℕ

-- __init__
unfoldable pub new_timer : Timer
new_timer = record {
  queue = [];
  event = false;
  seq = 0;
  cancelled = λ s. false;
  phase = top;
  spawned = [];
}

-- Schedule rounds a deadline up to the resolution, if there is one.
unfoldable pub quantize : ℕ → ℕ → ℕ
quantize resolution deadline =
    if resolution == 0 then deadline else (deadline + (resolution - 1)) / resolution * resolution

-- The deadline of the head, compared with the one just scheduled.
unfoldable pub is_newest : List Key → ℕ → Bool
is_newest [] deadline = false
is_newest ((d, s) ∷ queue) deadline = d == deadline

-- cancel, for the entry that Schedule made.
unfoldable pub cancel : ℕ → Timer → Timer
cancel s t = record t { cancelled = update t.cancelled s true }

module _ (heapq : HeapQueue) where
  -- Schedule
  unfoldable pub push_entry : ℕ → Timer → Timer
  unfolding is_newest
  push_entry deadline t =
      let seq = suc t.seq in
      let queue = heapq.push t.queue (deadline, seq) in
      record t {
        queue = queue;
        event = if is_newest queue deadline then true else t.event;
        seq = seq;
        cancelled = update t.cancelled seq false;
      }

  unfoldable pub schedule : ℕ → ℕ → Timer → Timer
  unfolding push_entry quantize
  schedule resolution deadline t = push_entry (quantize resolution deadline) t

  -- The entry at the head goes, and is run unless it was cancelled.
  unfoldable pub pop_run : List Key → Timer → Run Timer
  pop_run [] t = raised
  pop_run ((d, s) ∷ queue) t = ok (record t {
    queue = heapq.pop t.queue;
    phase = top;
    spawned = if t.cancelled s then t.spawned else s ∷ t.spawned;
  })

  -- From _PeekNext to the wait or the run.
  unfoldable pub peek : ℕ → List Key → Timer → Run Timer
  unfolding pop_run
  peek now [] t = raised
  peek now ((d, s) ∷ queue) t =
      if t.cancelled s
      then ok (record t { queue = heapq.pop t.queue; phase = top })
      else (if ltb now d then ok (record t { phase = waiting (d, s) }) else pop_run t.queue t)

  -- _TimerWorker from one of its waits to the next, at the time `now`.
  unfoldable pub resume_from : Phase → ℕ → Timer → Run Timer
  unfolding peek
  resume_from top now t =
      if t.event
      then ok (record t { event = false; phase = peeking })
      else elim t.queue [ [] ↦ ok t | _ ↦ peek now t.queue t ]
  resume_from peeking now t = peek now t.queue t
  resume_from (waiting (d, s)) now t =
      if t.event
      then ok (record t { phase = top })
      else (if ltb now d then ok t else pop_run t.queue t)

  unfoldable pub resume : ℕ → Timer → Run Timer
  unfolding resume_from
  resume now t = resume_from t.phase now t
