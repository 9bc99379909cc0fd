-- ===== src/Pool/Watermark/Steps.antt =====
-- Every event keeps the pool balanced.
use pynagle.Common.{
  ℕ, suc, ◌+◌, ◌<◌, ◌≡◌, ap, ◌∙◌, true, List, [], ◌∷◌, ◌++◌, ltb, ◌==◌, if◌then◌else◌, length, occ,
  contains, erase, arith, occ-append, length-append, occ-erase, length-erase, Bool-cases, inl, inr,
}
use pynagle.Common.Int.{pos, leb_ℤ, ◌-ℤ◌}
use pynagle.Constants.{ChannelState, state_eq}
use pynagle.Pool.Watermark.{
  Pool, Got, sink, failing, queuing, init, release, release_got, open_end, close, process_queue,
  Call,
}
use pynagle.Pool.Watermark.Ledger.{
  Ledger, Event, requests, releases, runs, closing, begins_open, ends_open, times_out, hand_on,
  dropped, step, history, total, IsBalanced, init-IsBalanced,
}
use pynagle.Pool.Watermark.Requests.{requests-IsBalanced, begins_open-IsBalanced}

sub_one : (n : ℕ) → pos (suc n) -ℤ pos 1 ≡ pos n
unfolding ◌-ℤ◌
sub_one n = ground arith

module _ (sink_state : ℕ → ChannelState) where
  -- A lent sink goes out of the hands of its request.
  released-facts :
      (s : ℕ) (l : Ledger)
      → 0 < occ s l.lent
      → (suc (length (erase s l.lent)) ≡ length l.lent)
        × ((a : ℕ) → occ a (erase s l.lent) + (if s == a then 1 else 0) ≡ occ a l.lent)
  released-facts s l h = (length-erase s l.lent h, λ a. occ-erase s a l.lent h)

  -- The place of a released sink is given up.
  given_up-IsBalanced :
      (s : ℕ) (l : Ledger) (calls : List Call) (state : ChannelState) (emptied : List ℕ)
      → 0 < occ s l.lent
      → IsBalanced l
      → IsBalanced (record l {
        pool = record l.pool {
          current_size = l.pool.current_size -ℤ pos 1;
          calls = calls;
          state = state;
          emptied = emptied;
        };
        lent = erase s l.lent;
      })
  given_up-IsBalanced s l calls state emptied h v =
      let (len, occs) = released-facts s l h in
      let less = length l.pool.cache + length (erase s l.lent) + length l.pool.pending + l.lost in
      let one : total l ≡ suc less = omega arith in
      record {
        counted = ap (λ z. z -ℤ pos 1) (v.counted ∙ ap pos one) ∙ sub_one less;
        room = omega (arith, v.room);
        queue = v.queue;
        kept = v.kept;
        once = λ a. omega (arith, occs a, v.once a);
        known = λ a k. omega (arith, occs a, v.known a k);
      }

  spawned-IsBalanced :
      (s : ℕ) (l : Ledger)
      → 0 < occ s l.lent
      → IsBalanced l
      → IsBalanced (record l {
        pool = record l.pool { pending = l.pool.pending ++ s ∷ [] };
        lent = erase s l.lent;
      })
  spawned-IsBalanced s l h v =
      let (len, occs) = released-facts s l h in
      let grown = length-append l.pool.pending (s ∷ []) in
      record {
        counted = v.counted ∙ ap pos (omega arith);
        room = omega (arith, v.room);
        queue = v.queue;
        kept = v.kept;
        once = λ a. omega (arith, occs a, v.once a, occ-append a l.pool.pending (s ∷ []));
        known = λ a k. omega (arith, occs a, v.known a k, occ-append a l.pool.pending (s ∷ []));
      }

  cached-IsBalanced :
      (s : ℕ) (l : Ledger)
      → 0 < occ s l.lent
      → IsBalanced l
      → leb_ℤ l.pool.current_size (pos l.pool.min_size) ≡ true
      → IsBalanced (record l {
        pool = record l.pool { cache = l.pool.cache ++ s ∷ [] };
        lent = erase s l.lent;
      })
  cached-IsBalanced s l h v small =
      let (len, occs) = released-facts s l h in
      let grown = length-append l.pool.cache (s ∷ []) in
      record {
        counted = v.counted ∙ ap pos (omega arith);
        room = omega (arith, v.room);
        queue = v.queue;
        kept = ground (arith, v.counted);
        once = λ a. omega (arith, occs a, v.once a, occ-append a l.pool.cache (s ∷ []));
        known = λ a k. omega (arith, occs a, v.known a k, occ-append a l.pool.cache (s ∷ []));
      }

  release-cases {ℓ} :
      (P : Pool → Type ℓ) (s : ℕ) (p : Pool)
      → ((calls : List Call) (state : ChannelState) (emptied : List ℕ)
          → P (record p {
            current_size = p.current_size -ℤ pos 1;
            calls = calls;
            state = state;
            emptied = emptied;
          }))
      → P (record p { pending = p.pending ++ s ∷ [] })
      → (leb_ℤ p.current_size (pos p.min_size) ≡ true → P (record p { cache = p.cache ++ s ∷ [] }))
      → P (release sink_state s p)
  unfolding release
  release-cases P s p given spawned cached =
      elim (Bool-cases (state_eq p.state ChannelState.closed)) [
        | inl e ↦ rw e (given p.calls p.state p.emptied)
        | inr e ↦ rw e (elim (Bool-cases (state_eq (sink_state s) ChannelState.closed)) [
          | inl e₁ ↦ rw e₁ (given _ ChannelState.closed _)
          | inr e₁ ↦ rw e₁ (elim (Bool-cases (ltb 0 (length p.waiters))) [
            | inl e₂ ↦ rw e₂ spawned
            | inr e₂ ↦ rw e₂ (elim (Bool-cases (leb_ℤ p.current_size (pos p.min_size))) [
              | inl e₃ ↦ rw e₃ (cached e₃)
              | inr e₃ ↦ rw e₃ (given _ p.state p.emptied)
            ])
          ])
        ])
      ]

  -- Neither the state of the pool nor the stacks that are empty count.
  stated-IsBalanced :
      (state : ChannelState) (emptied : List ℕ) (l : Ledger)
      → IsBalanced l
      → IsBalanced (record l { pool = record l.pool { state = state; emptied = emptied } })
  stated-IsBalanced state emptied l v = record {
    counted = v.counted;
    room = v.room;
    queue = v.queue;
    kept = v.kept;
    once = v.once;
    known = v.known;
  }

  given_back-IsBalanced :
      (l : Ledger) (s : ℕ)
      → 0 < occ s l.lent
      → IsBalanced l
      → IsBalanced (record l { pool = release sink_state s l.pool; lent = erase s l.lent })
  given_back-IsBalanced l s h v =
      release-cases (λ p. IsBalanced (record l { pool = p; lent = erase s l.lent })) s l.pool
        (λ calls state emptied. given_up-IsBalanced s l calls state emptied h v)
        (spawned-IsBalanced s l h v) (cached-IsBalanced s l h v)

  releases-IsBalanced :
      (l : Ledger) (s : ℕ) → IsBalanced l → IsBalanced (step sink_state l (releases s))
  unfolding step
  releases-IsBalanced l s v = elim (Bool-cases (ltb 0 (occ s l.lent))) [
    | inr e ↦ rw e v
    | inl e ↦ rw e (given_back-IsBalanced l s (ground arith) v)
  ]

  ends_open-IsBalanced :
      (l : Ledger) (got : Got) → IsBalanced l → IsBalanced (step sink_state l (ends_open got))
  unfolding step open_end release_got
  ends_open-IsBalanced l (sink s) v = elim (Bool-cases (ltb 0 (occ s l.lent))) [
    | inr e ↦ rw e v
    | inl e ↦
        let p = release sink_state s l.pool in
        rw e (
          stated-IsBalanced ChannelState.opened p.emptied
            (record l { pool = p; lent = erase s l.lent })
            (given_back-IsBalanced l s (ground arith) v))
  ]
  ends_open-IsBalanced l failing v = stated-IsBalanced ChannelState.opened l.pool.emptied l v
  ends_open-IsBalanced l queuing v = stated-IsBalanced ChannelState.opened l.pool.emptied l v

  -- The greenlet that runs, by what is pending and who waits.
  processed-IsBalanced :
      (lost : ℕ) (lent : List ℕ) (p : Pool) (pending waiters : List ℕ)
      → IsBalanced (record {
        pool = record p { pending = pending; waiters = waiters };
        lent = lent;
        lost = lost;
      })
      → let (served, q) =
          process_queue pending (record p { pending = pending; waiters = waiters }) in
        IsBalanced (record { pool = q; lent = hand_on served lent; lost = lost + dropped served })
  unfolding process_queue
  processed-IsBalanced lost lent p [] waiters v = record {
    counted = v.counted ∙ ap pos (omega arith);
    room = omega (arith, v.room);
    queue = v.queue;
    kept = v.kept;
    once = v.once;
    known = v.known;
  }
  processed-IsBalanced lost lent p (s ∷ pending) [] v = record {
    counted = v.counted ∙ ap pos (omega arith);
    room = omega (arith, v.room);
    queue = omega arith;
    kept = v.kept;
    once = λ a. omega (arith, v.once a);
    known = λ a h. omega (arith, v.known a h);
  }
  processed-IsBalanced lost lent p (s ∷ pending) (w ∷ waiters) v =
      elim (Bool-cases (contains p.emptied w)) [
        | inl e ↦ rw e (record {
          counted = v.counted ∙ ap pos (omega arith);
          room = omega (arith, v.room);
          queue = omega (arith, v.queue);
          kept = v.kept;
          once = λ a. omega (arith, v.once a);
          known = λ a h. omega (arith, v.known a h);
        })
        | inr e ↦ rw e (record {
          counted = v.counted ∙ ap pos (omega arith);
          room = omega (arith, v.room);
          queue = omega (arith, v.queue);
          kept = v.kept;
          once = λ a. omega (arith, v.once a);
          known = λ a h. omega (arith, v.known a h);
        })
      ]

  runs-IsBalanced : (l : Ledger) → IsBalanced l → IsBalanced (step sink_state l runs)
  unfolding step
  runs-IsBalanced l v = processed-IsBalanced l.lost l.lent l.pool l.pool.pending l.pool.waiters v

  closing-IsBalanced : (l : Ledger) → IsBalanced l → IsBalanced (step sink_state l closing)
  unfolding step close
  closing-IsBalanced l v = record {
    counted = v.counted;
    room = v.room;
    queue = v.queue;
    kept = v.kept;
    once = v.once;
    known = v.known;
  }

-- Every event keeps the pool balanced, be it a request, a release, a run of a greenlet, an Open, a
-- Close or a timeout: the size counts the sinks that are cached, lent, pending or
-- lost and stays within the high watermark, the cache within the low one and the waiters within
-- their limit, and no sink is in use twice or both in use and cached.
pub step-IsBalanced :
    (sink_state : ℕ → ChannelState) (l : Ledger) (e : Event)
    → IsBalanced l
    → IsBalanced (step sink_state l e)
unfolding step
step-IsBalanced state l (requests r) v = requests-IsBalanced state l r v
step-IsBalanced state l (releases s) v = releases-IsBalanced state l s v
step-IsBalanced state l runs v = runs-IsBalanced state l v
step-IsBalanced state l closing v = closing-IsBalanced state l v
step-IsBalanced state l begins_open v = begins_open-IsBalanced state l v
step-IsBalanced state l (ends_open got) v = ends_open-IsBalanced state l got v
step-IsBalanced state l (times_out r) v =
    stated-IsBalanced state l.pool.state (r ∷ l.pool.emptied) l v

history-IsBalanced :
    (l : Ledger) (es : List (Event × (ℕ → ChannelState))) → IsBalanced l → IsBalanced (history l es)
unfolding history
history-IsBalanced l [] v = v
history-IsBalanced l ((e, state) ∷ es) v =
    history-IsBalanced (step state l e) es (step-IsBalanced state l e v)

-- A new pool stays balanced through every list of events, whatever the states of its sinks.
init-history-IsBalanced :
    (min_size max_size max_queue_size : ℕ) (es : List (Event × (ℕ → ChannelState)))
    → IsBalanced
        (history (record { pool = init min_size max_size max_queue_size; lent = []; lost = 0 }) es)
init-history-IsBalanced m n q es = history-IsBalanced _ es (init-IsBalanced m n q)
