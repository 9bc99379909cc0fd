-- ===== src/Pool/Watermark/Stuck.antt =====
-- Sinks that the pool loses without counting them out.
use pynagle.Common.{
  ℕ, suc, ◌+◌, ◌≡◌, ◌≢◌, refl, true, false, Option, none, some, List, [], ◌∷◌, ◌++◌, ltb, inl, inr,
  if◌then◌else◌, length, occ, contains, erase, arith, Bool-cases,
}
use pynagle.Common.Int.{pos, ◌≤ℤ◌}
use pynagle.Constants.{ChannelState, state_le, state_eq}
use pynagle.Pool.Watermark.{
  Pool, Got, sink, failing, queuing, nothing, dequeue, create_or_queue, take_or_create, pass_on,
  serve, get, release_got, open_end, request, release, close, process_queue, Call,
}
use pynagle.Pool.Watermark.Ledger.{
  Ledger, Event, requests, releases, runs, closing, begins_open, ends_open, times_out, lend,
  discarded, step, history,
}

-- No sink is left anywhere, and yet the size is at the high watermark.
pub record IsStuck (l : Ledger) : Type 0 where
  pub no_cache : l.pool.cache ≡ []
  pub no_lent : l.lent ≡ []
  pub no_pending : l.pool.pending ≡ []
  pub full : pos l.pool.max_size ≤ℤ l.pool.current_size

-- Every cached sink is past Open, so _Dequeue discards it.
abbrev pub AllUnusable : (ℕ → ChannelState) → List ℕ → Type 0
AllUnusable state [] = Unit
AllUnusable state (x ∷ cache) =
    (state_le (state x) ChannelState.opened ≡ false) × AllUnusable state cache

module _ (sink_state : ℕ → ChannelState) where
  unusable-dequeue :
      (cache : List ℕ) (calls : List Call)
      → AllUnusable sink_state cache
      → ((dequeue sink_state cache calls).0 ≡ none) × ((dequeue sink_state cache calls).1 ≡ [])
  unfolding dequeue
  unusable-dequeue [] calls u = (refl, refl)
  unusable-dequeue (x ∷ cache) calls u = rw (u.0) (unusable-dequeue cache _ u.1)

  full-create :
      (p : Pool)
      → pos p.max_size ≤ℤ p.current_size
      → create_or_queue sink_state p
        ≡ (if ltb p.max_queue_size (length p.waiters + 1) then (failing, p) else (queuing, p))
  unfolding create_or_queue
  full-create p h = ground arith

  -- The answer, and the ledger after it, from what _Dequeue gave.
  abbrev answer : ℕ → Pool → Option ℕ × List ℕ × List Call → Got × Pool
  answer r p d =
      let g = take_or_create sink_state d.0 (record p { cache = d.1; calls = d.2 }) in
      (g.0, pass_on sink_state r g.0 g.1)

  abbrev Refuses : ℕ → List ℕ → ℕ → Got × Pool → Type 0
  Refuses r lent lost g =
      ((s : ℕ) → g.0 ≢ sink s) × IsStuck (record { pool = g.1; lent = lend g.0 lent; lost = lost })

  create_or_queue-Refuses :
      (r lost : ℕ) (lent : List ℕ) (p : Pool)
      → lent ≡ []
      → p.cache ≡ []
      → p.pending ≡ []
      → pos p.max_size ≤ℤ p.current_size
      → let g = create_or_queue sink_state p in
        Refuses r lent lost (g.0, pass_on sink_state r g.0 g.1)
  unfolding pass_on
  create_or_queue-Refuses r lost lent p no_lent no_cache no_pending full =
      rw (full-create p full) (elim (Bool-cases (ltb p.max_queue_size (length p.waiters + 1))) [
        | inl e ↦ rw e (
          λ s k. cc,
          record { no_cache = no_cache; no_lent = no_lent; no_pending = no_pending; full = full },
        )
        | inr e ↦ rw e (
          λ s k. cc,
          record { no_cache = no_cache; no_lent = no_lent; no_pending = no_pending; full = full },
        )
      ])

  answer-Refuses :
      (r lost : ℕ) (lent : List ℕ) (p : Pool) (d : Option ℕ × List ℕ × List Call)
      → lent ≡ []
      → p.pending ≡ []
      → pos p.max_size ≤ℤ p.current_size
      → d.0 ≡ none
      → d.1 ≡ []
      → Refuses r lent lost (answer r p d)
  unfolding take_or_create
  answer-Refuses r lost lent p (none, cache, calls) no_lent no_pending full e no_cache =
      create_or_queue-Refuses r lost lent (record p { cache = cache; calls = calls }) no_lent
        no_cache no_pending full
  answer-Refuses r lost lent p (some x, cache, calls) no_lent no_pending full e no_cache = cc

-- A request that finds all places taken, with no sink at work and only unusable ones in the cache,
-- gets no sink, and leaves the pool with no sink at all and all places still taken.
pub request-IsStuck :
    (state : ℕ → ChannelState) (l : Ledger) (r : ℕ)
    → l.lent ≡ []
    → l.pool.pending ≡ []
    → pos l.pool.max_size ≤ℤ l.pool.current_size
    → AllUnusable state l.pool.cache
    → ((s : ℕ) → (request state r l.pool).0 ≢ sink s) × IsStuck (step state l (requests r))
unfolding step request get
request-IsStuck state l r no_lent no_pending full u =
    let (missed, emptied) = unusable-dequeue state l.pool.cache l.pool.calls u in
    answer-Refuses state r (l.lost + discarded state l.pool.cache) l.lent l.pool
      (dequeue state l.pool.cache l.pool.calls) no_lent no_pending full missed emptied

idle_run : (p : Pool) (pending : List ℕ) → pending ≡ [] → process_queue pending p ≡ (nothing, p)
unfolding process_queue
idle_run p [] e = refl
idle_run p (x ∷ pending) e = cc

empty_occ : (s : ℕ) (lent : List ℕ) → lent ≡ [] → occ s lent ≡ 0
empty_occ s [] e = refl
empty_occ s (x ∷ lent) e = cc

-- A request that is not made leaves no waiter.
unasked-IsStuck :
    (state : ℕ → ChannelState) (r lost : ℕ) (lent : List ℕ) (g : Got × Pool)
    → IsStuck (record { pool = pass_on state r g.0 g.1; lent = lend g.0 lent; lost = lost })
    → IsStuck (record { pool = g.1; lent = lend g.0 lent; lost = lost })
unfolding pass_on
unasked-IsStuck state r lost lent (sink s, q) v = v
unasked-IsStuck state r lost lent (failing, q) v = v
unasked-IsStuck state r lost lent (queuing, q) v = record {
  no_cache = v.no_cache;
  no_lent = v.no_lent;
  no_pending = v.no_pending;
  full = v.full;
}

step-IsStuck :
    (state : ℕ → ChannelState) (l : Ledger) (e : Event) → IsStuck l → IsStuck (step state l e)
unfolding step close request open_end release_got
step-IsStuck state l (requests r) v =
    (request-IsStuck state l r v.no_lent v.no_pending v.full (rw v.no_cache tt)).1
step-IsStuck state l (releases s) v = rw (empty_occ s l.lent v.no_lent) v
step-IsStuck state l runs v = rw (idle_run l.pool l.pool.pending v.no_pending) (record {
  no_cache = v.no_cache;
  no_lent = v.no_lent;
  no_pending = v.no_pending;
  full = v.full;
})
step-IsStuck state l begins_open v =
    unasked-IsStuck state 0 (l.lost + discarded state l.pool.cache) l.lent (get state l.pool)
      (request-IsStuck state l 0 v.no_lent v.no_pending v.full (rw v.no_cache tt)).1
step-IsStuck state l (ends_open (sink s)) v = rw (empty_occ s l.lent v.no_lent) v
step-IsStuck state l (ends_open failing) v = record {
  no_cache = v.no_cache;
  no_lent = v.no_lent;
  no_pending = v.no_pending;
  full = v.full;
}
step-IsStuck state l (ends_open queuing) v = record {
  no_cache = v.no_cache;
  no_lent = v.no_lent;
  no_pending = v.no_pending;
  full = v.full;
}
step-IsStuck state l (times_out r) v = record {
  no_cache = v.no_cache;
  no_lent = v.no_lent;
  no_pending = v.no_pending;
  full = v.full;
}
step-IsStuck state l closing v = record {
  no_cache = v.no_cache;
  no_lent = v.no_lent;
  no_pending = v.no_pending;
  full = v.full;
}

-- A stuck pool stays stuck whatever happens, closing it included.
pub history-IsStuck :
    (l : Ledger) (es : List (Event × (ℕ → ChannelState))) → IsStuck l → IsStuck (history l es)
unfolding history
history-IsStuck l [] v = v
history-IsStuck l ((e, state) ∷ es) v =
    history-IsStuck (step state l e) es (step-IsStuck state l e v)

-- A pool with no sink cached, at work or in the hands of a greenlet, whose size is at the high
-- watermark, gives no sink to any request, whatever requests, releases, runs of greenlets, Opens,
-- Closes and timeouts come in between, and whatever the states of the sinks.
pub stuck_forever :
    (l : Ledger) (es : List (Event × (ℕ → ChannelState))) (state : ℕ → ChannelState) (r s : ℕ)
    → IsStuck l
    → (request state r (history l es).pool).0 ≢ sink s
stuck_forever l es state r s v =
    let w = history-IsStuck l es v in
    (request-IsStuck state (history l es) r w.no_lent w.no_pending w.full (rw w.no_cache tt)).0 s

-- An open pool, with one request waiting and the sinks `s` and `t` at work.
abbrev pub one_waiter : Pool → ℕ → ℕ → ℕ → ℕ → Ledger
one_waiter p w s t lost = record {
  pool = record p { waiters = w ∷ []; pending = []; state = ChannelState.opened };
  lent = s ∷ t ∷ [];
  lost = lost;
}

release-spawns :
    (state : ℕ → ChannelState) (s w : ℕ) (ws : List ℕ) (p : Pool)
    → state_eq p.state ChannelState.closed ≡ false
    → state_eq (state s) ChannelState.closed ≡ false
    → p.waiters ≡ w ∷ ws
    → release state s p ≡ record p { pending = p.pending ++ s ∷ [] }
unfolding release
release-spawns state s w ws p e f g = rw (e, f, g) (ground arith)

occ-head : (s : ℕ) (rest : List ℕ) → ltb 0 (occ s (s ∷ rest)) ≡ true
occ-head s rest = ground arith

erase-head : (s : ℕ) (rest : List ℕ) → erase s (s ∷ rest) ≡ rest
erase-head s rest = ground arith

release_step :
    (state : ℕ → ChannelState) (p : Pool) (s w : ℕ) (ws rest : List ℕ) (lost : ℕ)
    → state_eq p.state ChannelState.closed ≡ false
    → state_eq (state s) ChannelState.closed ≡ false
    → p.waiters ≡ w ∷ ws
    → step state (record { pool = p; lent = s ∷ rest; lost = lost }) (releases s)
      ≡ record { pool = record p { pending = p.pending ++ s ∷ [] }; lent = rest; lost = lost }
unfolding step
release_step state p s w ws rest lost e f g =
    rw (occ-head s rest, erase-head s rest, release-spawns state s w ws p e f g)

-- Two sinks come back in the same turn while one request waits, which was not answered: two greenlets are spawned. The
-- first serves the request, the second finds the queue empty, and its sink is lost.
two_releases_lose :
    (state : ℕ → ChannelState) (p : Pool) (w s t lost : ℕ)
    → state_eq (state s) ChannelState.closed ≡ false
    → state_eq (state t) ChannelState.closed ≡ false
    → contains p.emptied w ≡ false
    → let l =
        history
          (one_waiter p w s t lost)
          ((releases s, state) ∷ (releases t, state) ∷ (runs, state) ∷ (runs, state) ∷ []) in
      (l.lost ≡ suc lost) × (l.lent ≡ s ∷ [])
unfolding history
two_releases_lose state p w s t lost e f g =
    rw
      (
        release_step state
            (record p { waiters = w ∷ []; pending = []; state = ChannelState.opened }) s w []
            (t ∷ []) lost refl e refl,
        release_step state
            (record p { waiters = w ∷ []; pending = s ∷ []; state = ChannelState.opened }) t w [] []
            lost refl f refl,
      )
      (unfold step process_queue serve in rw g (omega arith, refl))
