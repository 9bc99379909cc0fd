-- ===== src/Sinks/Tests.antt =====
-- Runs of the guarding sinks, and their theorems at small inputs.
use pynagle.Common.{ℕ, ◌+◌, ◌≤◌, none, false, ◌≡◌, refl, [], ◌∷◌, some, true, arith}
use pynagle.Constants.{ChannelState}
use pynagle.Sinks.RefCounted.{init as new_shared}
use pynagle.Sinks.RefCounted.Shared.{
  user_opens, user_closes, IsShared, history, users, init-IsShared,
}
use pynagle.Sinks.Resurrector.{
  Resurrector, init, open_sink, take_down, opens, closes, failed_fast, passed_to, request, state,
  fault, try_resurrect, open_channel,
}
use pynagle.Sinks.Resurrector.Phases.{PhaseOf}
use pynagle.Sinks.Resurrector.History.{
  Reachable, created, after, opening, faulting, Reachable-Phase, down_recovers,
}

init-IsShared_example :
    ((history new_shared (user_opens ∷ user_opens ∷ user_closes ∷ [])).ref_count
      ≡ users 0 (user_opens ∷ user_opens ∷ user_closes ∷ []))
    × IsShared (history new_shared (user_opens ∷ user_opens ∷ user_closes ∷ []))
init-IsShared_example = init-IsShared (user_opens ∷ user_opens ∷ user_closes ∷ [])

-- Twice the wait, from 5 to 60.
abbrev double : ℕ → ℕ
double n = n + n

-- Opened, and then its sink 0 faulted.
abbrev fallen : Resurrector
fallen = fault 5 60 double (open_channel init)

fallen-Reachable : Reachable 5 60 double fallen
unfolding init open_channel open_sink
fallen-Reachable = after (after created (opening refl)) (faulting 0 refl)

Reachable-Phase_example : PhaseOf fallen × (fallen.wait ≤ 60)
Reachable-Phase_example = Reachable-Phase 5 60 double (omega arith) fallen fallen-Reachable

down_recovers_example :
    (request fallen ≡ failed_fast)
    × (state (λ s. ChannelState.opened) fallen ≡ ChannelState.closed)
    × (request (try_resurrect 5 60 double true fallen) ≡ passed_to fallen.fresh)
    × ((try_resurrect 5 60 double true fallen).watched ≡ fallen.fresh ∷ [])
unfolding fault open_channel open_sink init take_down
down_recovers_example =
    down_recovers 5 60 double (omega arith) fallen fallen-Reachable refl (λ s. ChannelState.opened)

-- Down, with its greenlet at work.
abbrev down_now : Resurrector
down_now = record {
  next_sink = none;
  down = true;
  worker = true;
  wait = 5;
  watched = [];
  fresh = 1;
  calls = closes 0 ∷ opens 0 ∷ [];
  faults = 1;
}

abbrev up_now : Resurrector
up_now = record down_now {
  next_sink = some 0;
  down = false;
  worker = false;
  watched = 0 ∷ [];
  calls = opens 0 ∷ [];
}
