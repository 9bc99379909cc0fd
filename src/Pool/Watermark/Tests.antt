-- ===== src/Pool/Watermark/Tests.antt =====
-- Runs of the pool, and the theorems at small pools.
use pynagle.Common.{ℕ, ◌≡◌, ◌≢◌, refl, [], ◌∷◌, arith}
use pynagle.Common.Int.{pos, ◌+ℤ◌}
use pynagle.Constants.{ChannelState}
use pynagle.Pool.Watermark.{Pool, sink, init, request, release}
use pynagle.Pool.Watermark.Ledger.{
  Ledger, requests, releases, closing, step, history, IsBalanced, init-IsBalanced,
}
use pynagle.Pool.Watermark.Steps.{step-IsBalanced}
use pynagle.Pool.Watermark.Stuck.{request-IsStuck, stuck_forever}

abbrev all_open : ℕ → ChannelState
all_open s = ChannelState.opened

abbrev all_closed : ℕ → ChannelState
all_closed s = ChannelState.closed

-- One cached sink at most, two in all, three waiters.
abbrev new_ledger : Ledger
new_ledger = record { pool = init 1 2 3; lent = []; lost = 0 }

step-IsBalanced_example : IsBalanced (step all_open new_ledger (requests 7))
step-IsBalanced_example = step-IsBalanced all_open new_ledger (requests 7) (init-IsBalanced 1 2 3)

-- A pool of one sink, which lies in the cache.
abbrev one_cached : Pool
one_cached = record {
  cache = 0 ∷ [];
  waiters = [];
  min_size = 1;
  max_size = 1;
  max_queue_size = 5;
  current_size = pos 1;
  state = ChannelState.opened;
  fresh = 1;
  pending = [];
  emptied = [];
  calls = [];
}

abbrev one_ledger : Ledger
one_ledger = record { pool = one_cached; lent = []; lost = 0 }

-- The history of that pool from the start: a request comes and goes.
one_cached_arises :
    (history
      (record { pool = init 1 1 5; lent = []; lost = 0 })
      ((requests 7, all_open) ∷ (releases 0, all_open) ∷ [])).pool.cache
    ≡ 0 ∷ []
unfolding history step init request release ◌+ℤ◌
one_cached_arises = refl

stuck_forever_example :
    (request all_open 9
      (history (step all_closed one_ledger (requests 8)) ((closing, all_open) ∷ [])).pool).0
    ≢ sink 0
stuck_forever_example =
    stuck_forever (step all_closed one_ledger (requests 8)) ((closing, all_open) ∷ []) all_open 9 0
      (request-IsStuck all_closed one_ledger 8 refl refl (omega arith) (refl, tt)).1
