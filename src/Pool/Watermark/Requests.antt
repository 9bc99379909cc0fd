-- ===== src/Pool/Watermark/Requests.antt =====
-- A request keeps the pool balanced, whatever _Dequeue finds.
use pynagle.Common.{
  ℕ, suc, ◌+◌, ◌≤◌, ◌<◌, ◌≡◌, refl, sym, ap, ◌∙◌, true, Option, none, some, List, [], ◌∷◌, ltb,
  ◌==◌, if◌then◌else◌, length, occ, arith, length-append, Bool-cases, inl, inr,
}
use pynagle.Common.Int.{pos, ltb_ℤ, ◌+ℤ◌}
use pynagle.Constants.{ChannelState}
use pynagle.Pool.Watermark.{
  Pool, Got, sink, failing, queuing, dequeue, create_or_queue, take_or_create, pass_on, get,
  request, Call,
}
use pynagle.Pool.Watermark.Ledger.{
  Ledger, requests, begins_open, lend, discarded, step, total, IsBalanced,
}

add_one : (n : ℕ) → pos n +ℤ pos 1 ≡ pos (n + 1)
unfolding ◌+ℤ◌
add_one n = ground arith

module _ (sink_state : ℕ → ChannelState) where
  -- What _Dequeue finds, what it leaves and what it discards make up the cache.
  abbrev found_count : Option ℕ → ℕ
  found_count none = 0
  found_count (some x) = 1

  abbrev found_occ : ℕ → Option ℕ → ℕ
  found_occ a none = 0
  found_occ a (some x) = if x == a then 1 else 0

  dequeue-length :
      (cache : List ℕ) (calls : List Call)
      → let (found, rest, after) = dequeue sink_state cache calls in
        found_count found + length rest + discarded sink_state cache ≡ length cache
  unfolding dequeue discarded
  dequeue-length [] calls = refl
  dequeue-length (x ∷ cache) calls =
      ground (arith, dequeue-length cache (Call.closes x ∷ Call.unsubscribes x ∷ calls))

  dequeue-occ :
      (a : ℕ) (cache : List ℕ) (calls : List Call)
      → let (found, rest, after) = dequeue sink_state cache calls in
        found_occ a found + occ a rest ≤ occ a cache
  unfolding dequeue
  dequeue-occ a [] calls = omega arith
  dequeue-occ a (x ∷ cache) calls =
      ground (arith, dequeue-occ a cache (Call.closes x ∷ Call.unsubscribes x ∷ calls))

  abbrev taken : Option ℕ → List ℕ → List ℕ
  taken none lent = lent
  taken (some x) lent = x ∷ lent

  -- After _Dequeue: the sink that it found is lent, those that it discarded are lost.
  dequeued : Ledger → Ledger
  dequeued l =
      let (found, cache, calls) = dequeue sink_state l.pool.cache l.pool.calls in
      record {
        pool = record l.pool { cache = cache; calls = calls };
        lent = taken found l.lent;
        lost = l.lost + discarded sink_state l.pool.cache;
      }

  length-taken :
      (found : Option ℕ) (lent : List ℕ)
      → length (taken found lent) ≡ found_count found + length lent
  length-taken none lent = omega arith
  length-taken (some x) lent = omega arith

  occ-taken :
      (a : ℕ) (found : Option ℕ) (lent : List ℕ)
      → occ a (taken found lent) ≡ found_occ a found + occ a lent
  occ-taken a none lent = omega arith
  occ-taken a (some x) lent = refl

  dequeued-IsBalanced : (l : Ledger) → IsBalanced l → IsBalanced (dequeued l)
  unfolding dequeued
  dequeued-IsBalanced l v =
      let c = l.pool.cache in
      let k = l.pool.calls in
      let found = (dequeue sink_state c k).0 in
      let same : total (dequeued l) ≡ total l =
        omega (arith, dequeue-length c k, length-taken found l.lent) in
      record {
        counted = v.counted ∙ ap pos (sym same);
        room = omega (arith, same, v.room);
        queue = v.queue;
        kept = omega (arith, dequeue-length c k, v.kept);
        once = λ a. omega (arith, dequeue-occ a c k, occ-taken a found l.lent, v.once a);
        known = λ a h. omega (arith, dequeue-occ a c k, occ-taken a found l.lent, v.known a h);
      }

  -- The ledger once _Get has answered and the request has gone on.
  abbrev answered : ℕ → Ledger → Got × Pool → Ledger
  answered r m g = record m { pool = pass_on sink_state r g.0 g.1; lent = lend g.0 m.lent }

  abbrev created : Pool → Pool
  created p = record p {
    current_size = p.current_size +ℤ pos 1;
    fresh = suc p.fresh;
    calls = Call.subscribes p.fresh ∷ Call.opens p.fresh ∷ Call.creates p.fresh ∷ p.calls;
  }

  create_or_queue-cases {ℓ} :
      (P : Got × Pool → Type ℓ) (p : Pool)
      → (ltb_ℤ p.current_size (pos p.max_size) ≡ true → P (sink p.fresh, created p))
      → P (failing, p)
      → (length p.waiters + 1 ≤ p.max_queue_size → P (queuing, p))
      → P (create_or_queue sink_state p)
  unfolding create_or_queue
  create_or_queue-cases P p new refused waits =
      elim (Bool-cases (ltb_ℤ p.current_size (pos p.max_size))) [
        | inl e ↦ rw e (new e)
        | inr e ↦ rw e (elim (Bool-cases (ltb p.max_queue_size (length p.waiters + 1))) [
          | inl f ↦ rw f refused
          | inr f ↦ rw f (waits (ground arith))
        ])
      ]

  created-IsBalanced :
      (m : Ledger)
      → IsBalanced m
      → ltb_ℤ m.pool.current_size (pos m.pool.max_size) ≡ true
      → IsBalanced (record m { pool = created m.pool; lent = m.pool.fresh ∷ m.lent })
  created-IsBalanced m v small = record {
    counted = ap (λ z. z +ℤ pos 1) v.counted ∙ add_one (total m) ∙ ap pos (omega arith);
    room = let under : total m < m.pool.max_size = ground (arith, v.counted) in omega arith;
    queue = v.queue;
    kept = v.kept;
    once = λ a. ground (arith, v.once a, v.known a);
    known = λ a h. ground (arith, v.known a);
  }

  answered-IsBalanced :
      (r : ℕ) (m : Ledger)
      → IsBalanced m
      → IsBalanced (answered r m (create_or_queue sink_state m.pool))
  unfolding pass_on
  answered-IsBalanced r m v =
      create_or_queue-cases (λ g. IsBalanced (answered r m g)) m.pool (created-IsBalanced m v) v
        λ fits. record {
          counted = v.counted;
          room = v.room;
          queue = omega (arith, length-append m.pool.waiters (r ∷ []));
          kept = v.kept;
          once = v.once;
          known = v.known;
        }

  -- From what _Dequeue gave to the end of the request.
  requested-IsBalanced :
      (r lost : ℕ) (p : Pool) (lent : List ℕ) (d : Option ℕ × List ℕ × List Call)
      → IsBalanced (record {
        pool = record p { cache = d.1; calls = d.2 };
        lent = taken d.0 lent;
        lost = lost;
      })
      → IsBalanced (
          answered r
            (record { pool = record p { cache = d.1; calls = d.2 }; lent = lent; lost = lost })
            (take_or_create sink_state d.0 (record p { cache = d.1; calls = d.2 })))
  unfolding take_or_create pass_on
  requested-IsBalanced r lost p lent (none, cache, calls) v =
      answered-IsBalanced r
        (record { pool = record p { cache = cache; calls = calls }; lent = lent; lost = lost }) v
  requested-IsBalanced r lost p lent (some x, cache, calls) v = v

  pub requests-IsBalanced :
      (l : Ledger) (r : ℕ) → IsBalanced l → IsBalanced (step sink_state l (requests r))
  unfolding step request get dequeued
  requests-IsBalanced l r v =
      requested-IsBalanced r (l.lost + discarded sink_state l.pool.cache) l.pool l.lent
        (dequeue sink_state l.pool.cache l.pool.calls) (dequeued-IsBalanced l v)

  -- A request that is not made leaves no waiter.
  unasked-IsBalanced :
      (r lost : ℕ) (lent : List ℕ) (g : Got × Pool)
      → IsBalanced
          (record { pool = pass_on sink_state r g.0 g.1; lent = lend g.0 lent; lost = lost })
      → IsBalanced (record { pool = g.1; lent = lend g.0 lent; lost = lost })
  unfolding pass_on
  unasked-IsBalanced r lost lent (sink s, q) v = v
  unasked-IsBalanced r lost lent (failing, q) v = v
  unasked-IsBalanced r lost lent (queuing, q) v = record {
    counted = v.counted;
    room = v.room;
    queue = omega (arith, v.queue, length-append q.waiters (r ∷ []));
    kept = v.kept;
    once = v.once;
    known = v.known;
  }

  pub begins_open-IsBalanced :
      (l : Ledger) → IsBalanced l → IsBalanced (step sink_state l begins_open)
  unfolding step request
  begins_open-IsBalanced l v =
      unasked-IsBalanced 0 (l.lost + discarded sink_state l.pool.cache) l.lent
        (get sink_state l.pool) (requests-IsBalanced l 0 v)
