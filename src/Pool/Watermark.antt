-- ===== src/Pool/Watermark.antt =====
-- scales/pool/watermark.py, WatermarkPoolSink, with PoolSink of scales/pool/base.py: a pool of sinks
-- that each serve one request at a time. A sink is a number and so is a waiting request; `state` is
-- the state of each sink, which others decide. Varz and logs are left out.
-- _Get waits for Open of a new sink after its last write to the pool, so other calls may come in
-- between without a difference; _OpenImpl, which then releases the sink, is two steps for that. A
-- greenlet that _Release spawns runs later: it stands in
-- `pending`. `emptied` are the requests whose stack an answer has emptied, by a timeout or by Close.
pub mod Ledger
pub mod Requests
pub mod Steps
pub mod Stuck
mod Tests
use pynagle.Common.{
  ℕ, zero, suc, ◌+◌, ◌<◌, Bool, true, false, Option, none, some, List, [], ◌∷◌, ◌++◌, ltb, leb,
  ◌==◌, if◌then◌else◌, length, contains,
}
use pynagle.Common.Int.{ℤ, pos, negsuc, ltb_ℤ, leb_ℤ, ◌+ℤ◌, ◌-ℤ◌}
use pynagle.Constants.{ChannelState, state_eq, state_le}

-- What the pool asks of its sinks, and of the requests that wait when it closes.
pub data Call : Type 0 where
  creates opens closes subscribes unsubscribes : ℕ → Call
  fails : ℕ → Call

pub record Pool : Type 0 where
  pub cache : List ℕ
  pub waiters : List ℕ
  pub min_size : ℕ
  pub max_size : ℕ
  pub max_queue_size : ℕ
  pub current_size : ℤ
  pub state : ChannelState
  pub fresh : ℕ
  pub pending : List ℕ
  pub emptied : List ℕ
  pub calls : List Call

-- __init__
unfoldable pub init : ℕ → ℕ → ℕ → Pool
init min_size max_size max_queue_size = record {
  cache = [];
  waiters = [];
  min_size = min_size;
  max_size = max_size;
  max_queue_size = max_queue_size;
  current_size = pos 0;
  state = ChannelState.idle;
  fresh = 0;
  pending = [];
  emptied = [];
  calls = [];
}

-- _DiscardSink
abbrev pub discard : ℕ → List Call → List Call
discard sink calls = closes sink ∷ unsubscribes sink ∷ calls

-- What _Get hands out: a sink, or one of the two that stand for no sink.
pub data Got : Type 0 where
  sink : ℕ → Got
  failing : Got
  queuing : Got

module _ (sink_state : ℕ → ChannelState) where
  -- _Dequeue: the sink, what is left of the cache, and the calls.
  unfoldable pub dequeue : List ℕ → List Call → Option ℕ × List ℕ × List Call
  dequeue [] calls = (none, [], calls)
  dequeue (item ∷ cache) calls =
      let rest = dequeue cache (discard item calls) in
      if state_le (sink_state item) ChannelState.opened then (some item, cache, calls) else rest

  -- _Get when the cache gave nothing.
  unfoldable pub create_or_queue : Pool → Got × Pool
  create_or_queue p =
      if ltb_ℤ p.current_size (pos p.max_size)
      then (
        sink p.fresh,
        record p {
          current_size = p.current_size +ℤ pos 1;
          fresh = suc p.fresh;
          calls = subscribes p.fresh ∷ opens p.fresh ∷ creates p.fresh ∷ p.calls;
        },
      )
      else (if ltb p.max_queue_size (length p.waiters + 1) then (failing, p) else (queuing, p))

  take_or_create : Option ℕ → Pool → Got × Pool
  unfolding create_or_queue
  take_or_create none q = create_or_queue q
  take_or_create (some item) q = (sink item, q)

  -- _Get
  unfoldable pub get : Pool → Got × Pool
  unfolding dequeue take_or_create
  get p =
      let (found, cache, calls) = dequeue p.cache p.calls in
      take_or_create found (record p { cache = cache; calls = calls })

  -- A queuing sink appends the request to the waiters; a sink takes it.
  pass_on : ℕ → Got → Pool → Pool
  pass_on r (sink s) q = q
  pass_on r failing q = q
  pass_on r queuing q = record q { waiters = q.waiters ++ r ∷ [] }

  -- PoolSink.AsyncProcessRequest for the request `r`.
  unfoldable pub request : ℕ → Pool → Got × Pool
  unfolding get pass_on
  request r p = let (got, q) = get p in (got, pass_on r got q)

  discard_all : List ℕ → List Call → List Call
  discard_all [] calls = calls
  discard_all (item ∷ cache) calls = discard_all cache (discard item calls)

  fail_all : List ℕ → List Call → List Call
  fail_all [] calls = calls
  fail_all (r ∷ waiters) calls = fail_all waiters (fails r ∷ calls)

  -- Close, with _FlushCache: neither the cache nor the waiters are emptied, but the stack of each waiter
  -- is, as the failing sink answers it.
  unfoldable pub close : Pool → Pool
  unfolding discard_all fail_all
  close p = record p {
    state = ChannelState.closed;
    emptied = p.waiters ++ p.emptied;
    calls = fail_all p.waiters (discard_all p.cache p.calls);
  }

  -- _Release of a sink that is neither failing nor queuing.
  unfoldable pub release : ℕ → Pool → Pool
  unfolding close
  release s p =
      let less = record p { current_size = p.current_size -ℤ pos 1 } in
      if state_eq p.state ChannelState.closed
      then less
      else (if state_eq (sink_state s) ChannelState.closed
          then close less
          else (if ltb 0 (length p.waiters)
              then record p { pending = p.pending ++ s ∷ [] }
              else (if leb_ℤ p.current_size (pos p.min_size)
                  then record p { cache = p.cache ++ s ∷ [] }
                  else record less { calls = discard s p.calls })))

  release_got : Got → Pool → Pool
  unfolding release
  release_got (sink s) q = release s q
  release_got failing q = q
  release_got queuing q = q

  -- _OpenImpl once _Get has handed out `got`, and the whole of it.
  pub open_end : Got → Pool → Pool
  unfolding release_got
  open_end got q = record (release_got got q) { state = ChannelState.opened }

  unfoldable pub open_impl : Pool → Pool
  unfolding get open_end
  open_impl p = let (got, q) = get p in open_end got q

-- _ProcessQueue as the oldest greenlet runs it: the sink and the request that it serves now. With
-- no waiter left popleft raises IndexError, and so does Pop of the empty stack of a waiter that was
-- answered; then the sink goes nowhere.
pub data Served : Type 0 where
  nothing : Served
  serves : ℕ → ℕ → Served
  index_error : ℕ → Served

serve : ℕ → List ℕ → Pool → Served × Pool
serve s [] p = (index_error s, p)
serve s (w ∷ waiters) p =
    let served = if contains p.emptied w then index_error s else serves s w in
    (served, record p { waiters = waiters })

unfoldable pub process_queue : List ℕ → Pool → Served × Pool
unfolding serve
process_queue [] p = (nothing, p)
process_queue (s ∷ pending) p = serve s p.waiters (record p { pending = pending })
