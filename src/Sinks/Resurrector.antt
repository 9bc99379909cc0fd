-- ===== src/Sinks/Resurrector.antt =====
-- scales/resurrector.py, class ResurrectorSink: a sink that fails fast while the one below it is
-- down and opens a new one in the meantime. Sinks are numbers; the greenlet of _TryResurrect is
-- a step for each of its attempts. Clocks, varz and logs are left out.
pub mod Phases
pub mod History
use pynagle.Common.{
  ℕ, suc, Bool, true, false, List, [], ◌∷◌, Option, none, some, ◌==◌, ltb, if◌then◌else◌,
}
use pynagle.Constants.{ChannelState}

pub data Call : Type 0 where
  opens closes : ℕ → Call

-- What on_faulted's callbacks, and the callers of requests, see.
pub data Answer : Type 0 where
  failed_fast : Answer
  passed_to : ℕ → Answer

-- `down` tells whether _down_on is set, `worker` whether the greenlet runs its loop, and `wait` is its
-- wait_interval; `watched` are the sinks whose on_faulted has _OnSinkFaulted.
pub record Resurrector : Type 0 where
  pub next_sink : Option ℕ
  pub down : Bool
  pub worker : Bool
  pub wait : ℕ
  pub watched : List ℕ
  pub fresh : ℕ
  pub calls : List Call
  pub faults : ℕ

-- __init__
unfoldable pub init : Resurrector
init = record {
  next_sink = none;
  down = false;
  worker = false;
  wait = 0;
  watched = [];
  fresh = 0;
  calls = [];
  faults = 0;
}

-- on_faulted.Unsubscribe
unfoldable pub unwatch : ℕ → List ℕ → List ℕ
unwatch s [] = []
unwatch s (x ∷ xs) = let rest = unwatch s xs in if x == s then rest else x ∷ rest

-- AsyncProcessRequest
unfoldable pub request : Resurrector → Answer
request r = elim r.next_sink [ none ↦ failed_fast | some s ↦ passed_to s ]

-- state, by the states of the sinks
unfoldable pub state : (ℕ → ChannelState) → Resurrector → ChannelState
state sinks r =
    if r.down
    then ChannelState.closed
    else elim r.next_sink [ none ↦ ChannelState.idle | some s ↦ sinks s ]

module _ (initial_wait max_wait : ℕ) (grow : ℕ → ℕ) where
  -- _OnSinkFaulted for the sink that was there; without one its Close raises before on_faulted is set.
  unfoldable pub take_down : Option ℕ → Resurrector → Resurrector
  unfolding unwatch
  take_down none r = record r { down = true }
  take_down (some s) r = record r {
    next_sink = none;
    down = true;
    worker = true;
    wait = initial_wait;
    watched = unwatch s r.watched;
    calls = closes s ∷ r.calls;
    faults = suc r.faults;
  }

  unfoldable pub fault : Resurrector → Resurrector
  unfolding take_down
  fault r = if r.down then record r { faults = suc r.faults } else take_down r.next_sink r

  -- A round of the loop of _TryResurrect: `grow` raises to the backoff exponent.
  unfoldable pub attempt : Bool → Resurrector → Resurrector
  attempt true r = record r {
    next_sink = some r.fresh;
    down = false;
    worker = false;
    watched = r.fresh ∷ r.watched;
    fresh = suc r.fresh;
    calls = opens r.fresh ∷ r.calls;
  }
  attempt false r = record r {
    wait = if ltb max_wait (grow r.wait) then max_wait else grow r.wait;
    fresh = suc r.fresh;
    calls = closes r.fresh ∷ opens r.fresh ∷ r.calls;
  }

  unfoldable pub try_resurrect : Bool → Resurrector → Resurrector
  unfolding attempt
  try_resurrect opened r = if r.worker then attempt opened r else r

-- Open
unfoldable pub open_sink : Option ℕ → Resurrector → Resurrector
open_sink (some s) r = record r { calls = opens s ∷ r.calls }
open_sink none r = record r {
  next_sink = some r.fresh;
  watched = r.fresh ∷ r.watched;
  fresh = suc r.fresh;
  calls = opens r.fresh ∷ r.calls;
}

unfoldable pub open_channel : Resurrector → Resurrector
unfolding open_sink
open_channel r = open_sink r.next_sink r

-- Close
unfoldable pub close_sink : Option ℕ → Resurrector → Resurrector
unfolding unwatch
close_sink none r = record r { worker = false; down = false }
close_sink (some s) r = record r {
  worker = false;
  down = false;
  watched = unwatch s r.watched;
  calls = closes s ∷ r.calls;
}

unfoldable pub close : Resurrector → Resurrector
unfolding close_sink
close r = close_sink r.next_sink r
