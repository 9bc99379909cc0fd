-- ===== src/Pool/Watermark/Ledger.antt =====
-- The pool with the sinks that requests hold: what happens to it, and what holds of it.
use pynagle.Common.{
  ℕ, suc, ◌+◌, ◌≤◌, ◌≡◌, refl, List, [], ◌∷◌, ltb, if◌then◌else◌, length, occ, erase, arith,
}
use pynagle.Common.Int.{pos}
use pynagle.Constants.{ChannelState, state_le}
use pynagle.Pool.Watermark.{
  Pool, Got, sink, failing, queuing, Served, nothing, serves, index_error, init, get, request,
  release, open_end, close, process_queue,
}

-- `lent` are the sinks that requests hold; `lost` counts those that the pool let go without
-- counting them out: discarded from the cache, or dropped by a greenlet that found no waiter or one
-- that was answered.
pub record Ledger : Type 0 where
  pub pool : Pool
  pub lent : List ℕ
  pub lost : ℕ

-- What may happen: a request comes, a request ends and gives its sink back, the oldest greenlet
-- runs, the pool is closed, an Open of the pool begins and ends with what _Get handed out, and the
-- stack of a request is emptied by a timeout.
pub data Event : Type 0 where
  requests releases : ℕ → Event
  runs closing begins_open : Event
  ends_open : Got → Event
  times_out : ℕ → Event

abbrev pub lend : Got → List ℕ → List ℕ
lend (sink s) lent = s ∷ lent
lend failing lent = lent
lend queuing lent = lent

abbrev pub hand_on : Served → List ℕ → List ℕ
hand_on nothing lent = lent
hand_on (serves s r) lent = s ∷ lent
hand_on (index_error s) lent = lent

abbrev pub dropped : Served → ℕ
dropped nothing = 0
dropped (serves s r) = 0
dropped (index_error s) = 1

module _ (sink_state : ℕ → ChannelState) where
  -- How many sinks _Dequeue discards.
  unfoldable pub discarded : List ℕ → ℕ
  discarded [] = 0
  discarded (item ∷ cache) =
      let more = suc (discarded cache) in
      if state_le (sink_state item) ChannelState.opened then 0 else more

  unfoldable pub step : Ledger → Event → Ledger
  step l (requests r) =
      let (got, p) = request sink_state r l.pool in
      record { pool = p; lent = lend got l.lent; lost = l.lost + discarded l.pool.cache }
  step l (releases s) =
      if ltb 0 (occ s l.lent)
      then record l { pool = release sink_state s l.pool; lent = erase s l.lent }
      else l
  step l runs =
      let (served, p) = process_queue l.pool.pending l.pool in
      record { pool = p; lent = hand_on served l.lent; lost = l.lost + dropped served }
  step l begins_open =
      let (got, p) = get sink_state l.pool in
      record { pool = p; lent = lend got l.lent; lost = l.lost + discarded l.pool.cache }
  step l (ends_open (sink s)) =
      if ltb 0 (occ s l.lent)
      then record l { pool = open_end sink_state (sink s) l.pool; lent = erase s l.lent }
      else l
  step l (ends_open failing) = record l { pool = open_end sink_state failing l.pool }
  step l (ends_open queuing) = record l { pool = open_end sink_state queuing l.pool }
  step l (times_out r) = record l { pool = record l.pool { emptied = r ∷ l.pool.emptied } }
  step l closing = record l { pool = close sink_state l.pool }

-- The run of a list of events; the states of the sinks may change before each.
unfoldable pub history : Ledger → List (Event × (ℕ → ChannelState)) → Ledger
history l [] = l
history l ((e, state) ∷ es) = history (step state l e) es

-- All that the pool counts.
abbrev pub total : Ledger → ℕ
total l = length l.pool.cache + length l.lent + length l.pool.pending + l.lost

-- How many times the sink `a` is in use or kept for use.
abbrev pub uses : ℕ → Ledger → ℕ
uses a l = occ a l.pool.cache + occ a l.lent + occ a l.pool.pending

pub record IsBalanced (l : Ledger) : Type 0 where
  pub counted : l.pool.current_size ≡ pos (total l)
  pub room : total l ≤ l.pool.max_size
  pub queue : length l.pool.waiters ≤ l.pool.max_queue_size
  pub kept : length l.pool.cache ≤ l.pool.min_size
  pub once : (a : ℕ) → uses a l ≤ 1
  pub known : (a : ℕ) → l.pool.fresh ≤ a → uses a l ≡ 0

pub init-IsBalanced :
    (min_size max_size max_queue_size : ℕ)
    → IsBalanced (record { pool = init min_size max_size max_queue_size; lent = []; lost = 0 })
unfolding init
init-IsBalanced m n q = record {
  counted = refl;
  room = omega arith;
  queue = omega arith;
  kept = omega arith;
  once = λ a. omega arith;
  known = λ a h. refl;
}
