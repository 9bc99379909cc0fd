-- ===== src/Async/WhenAll.antt =====
-- AsyncResult.WhenAll of scales/asynchronous.py. The results complete one by one, in any order; each
-- runs `complete` once, with its index. gevent's set_exception replaces what a result holds.
use pynagle.Common.{
  ℕ, zero, suc, ◌≤◌, ◌<◌, ◌≡◌, refl, sym, subst, false, List, [], ◌∷◌, Option, none, some, length,
  update, occ, ◌==◌, if◌then◌else◌, arith,
}
use pynagle.Common.Int.{ℤ, pos, ◌-ℤ◌, eqb_ℤ}

less_one : (t : ℕ) → pos (suc t) -ℤ pos 1 ≡ pos t
unfolding ◌-ℤ◌
less_one t = ground arith

nonzero : (t : ℕ) → false ≡ eqb_ℤ (pos (suc t)) (pos 0)
nonzero t = ground arith

-- How a result ends; an exception is a number.
pub data Outcome {ℓ} (A : Type ℓ) : Type ℓ where
  succeeded : A → Outcome A
  failed : ℕ → Outcome A

-- `results` is the list of results by index, and `ret` what the returned AsyncResult holds.
pub record Gathering {ℓ} (A : Type ℓ) : Type ℓ where
  pub total : ℤ
  pub results : ℕ → Option A
  pub ret : Option (Outcome (ℕ → Option A))

module _ {ℓ} {A : Type ℓ} where
  unfoldable pub start : ℕ → Gathering A
  start num_ars = record { total = pos num_ars; results = λ n. none; ret = none }

  -- `complete` of a success while ret is not ready.
  unfoldable pub store : ℕ → A → Gathering A → Gathering A
  unfolding ◌-ℤ◌
  store n value s =
      let total = s.total -ℤ pos 1 in
      let results = update s.results n (some value) in
      record {
        total = total;
        results = results;
        ret = if eqb_ℤ total (pos 0) then some (succeeded results) else none;
      }

  unfoldable pub store_unless : Option (Outcome (ℕ → Option A)) → ℕ → A → Gathering A → Gathering A
  unfolding store
  store_unless none n value s = store n value s
  store_unless (some held) n value s = s

  -- complete
  unfoldable pub complete : ℕ → Outcome A → Gathering A → Gathering A
  unfolding store_unless
  complete n (failed e) s = record s { ret = some (failed e) }
  complete n (succeeded value) s = store_unless s.ret n value s

  unfoldable pub run : List (ℕ × Outcome A) → Gathering A → Gathering A
  unfolding complete
  run [] s = s
  run ((n, o) ∷ events) s = run events (complete n o s)

  -- How many of the events are successes, and whether one is a failure.
  unfoldable pub successes : List (ℕ × Outcome A) → ℕ
  successes [] = 0
  successes ((n, succeeded v) ∷ events) = suc (successes events)
  successes ((n, failed e) ∷ events) = successes events

  pub data HasFailure : List (ℕ × Outcome A) → Type ℓ where
    here : {n e : ℕ} {events : List (ℕ × Outcome A)} → HasFailure ((n, failed e) ∷ events)
    later :
        {x : ℕ × Outcome A} {events : List (ℕ × Outcome A)}
        → HasFailure events
        → HasFailure (x ∷ events)

  -- The returned result holds an exception.
  pub data IsFailed : Option (Outcome (ℕ → Option A)) → Type ℓ where
    is_failed : (e : ℕ) → IsFailed (some (failed e))

  store_unless-IsFailed :
      (o : Option (Outcome (ℕ → Option A))) (n : ℕ) (value : A) (s : Gathering A)
      → s.ret ≡ o
      → IsFailed o
      → IsFailed (store_unless o n value s).ret
  unfolding store_unless
  store_unless-IsFailed _ n value s e (is_failed x) = subst (λ o. IsFailed o) (sym e) (is_failed x)

  run-IsFailed :
      (events : List (ℕ × Outcome A)) (s : Gathering A)
      → IsFailed s.ret
      → IsFailed (run events s).ret
  unfolding run complete
  run-IsFailed [] s h = h
  run-IsFailed ((n, failed e) ∷ events) s h =
      run-IsFailed events (record s { ret = some (failed e) }) (is_failed e)
  run-IsFailed ((n, succeeded v) ∷ events) s h =
      run-IsFailed events (store_unless s.ret n v s) (store_unless-IsFailed s.ret n v s refl h)

  fails :
      (events : List (ℕ × Outcome A)) (t : ℕ) (r : ℕ → Option A)
      → successes events < t
      → HasFailure events
      → IsFailed (run events (record { total = pos t; results = r; ret = none })).ret
  unfolding run complete successes store_unless store
  fails [] t r h f = elim f [ ]
  fails ((n, failed e) ∷ events) t r h f =
      run-IsFailed events (record { total = pos t; results = r; ret = some (failed e) })
        (is_failed e)
  fails ((n, succeeded v) ∷ events) zero r h f = absurd (omega arith)
  fails ((n, succeeded v) ∷ events) (suc zero) r h f = absurd (omega arith)
  fails ((n, succeeded v) ∷ events) (suc (suc t)) r h (later f) =
      subst
        (λ z.
          IsFailed
            (run events (record {
              total = z;
              results = update r n (some v);
              ret = if eqb_ℤ z (pos 0) then some (succeeded (update r n (some v))) else none;
            })).ret)
        (sym (less_one (suc t)))
        (subst
          (λ b.
            IsFailed
              (run events (record {
                total = pos (suc t);
                results = update r n (some v);
                ret = if b then some (succeeded (update r n (some v))) else none;
              })).ret)
          (nonzero t) (fails events (suc t) (update r n (some v)) (omega arith) f))

  -- If a result fails, and fewer succeed than there are, the gathering fails, whatever the order.
  run-fails :
      (num_ars : ℕ) (events : List (ℕ × Outcome A))
      → successes events < num_ars
      → HasFailure events
      → IsFailed (run events (start num_ars)).ret
  unfolding start
  run-fails num_ars events h f = fails events num_ars (λ n. none) h f

  -- The successes of results, as the events that they are.
  unfoldable pub all_succeed : List (ℕ × A) → List (ℕ × Outcome A)
  all_succeed [] = []
  all_succeed ((n, v) ∷ values) = (n, succeeded v) ∷ all_succeed values

  unfoldable pub indices : List (ℕ × A) → List ℕ
  indices [] = []
  indices ((n, v) ∷ values) = n ∷ indices values

  -- The value of an index in the list, or else `other`.
  unfoldable pub value_of : ℕ → List (ℕ × A) → Option A → Option A
  value_of n [] other = other
  value_of n ((m, v) ∷ values) other = if m == n then some v else value_of n values other

  assign : List (ℕ × A) → (ℕ → Option A) → ℕ → Option A
  assign [] r = r
  assign ((n, v) ∷ values) r = assign values (update r n (some v))

  absent-value :
      (n : ℕ) (values : List (ℕ × A)) (other : Option A)
      → occ n (indices values) ≡ 0
      → value_of n values other ≡ other
  unfolding indices value_of
  absent-value n [] other h = refl
  absent-value n ((m, v) ∷ values) other h = let i = absent-value n values other in ground arith

  assign-value :
      (values : List (ℕ × A)) (r : ℕ → Option A) (n : ℕ)
      → ((m : ℕ) → occ m (indices values) ≤ 1)
      → assign values r n ≡ value_of n values (r n)
  unfolding assign indices value_of
  assign-value [] r n h = refl
  assign-value ((m, v) ∷ values) r n h =
      let once = h n in
      let i = assign-value values (update r m (some v)) n (λ k. let o = h k in ground arith) in
      let a = absent-value n values (some v) in ground arith

  gathers :
      (n : ℕ) (v : A) (values : List (ℕ × A)) (r : ℕ → Option A)
      → (run
          (all_succeed ((n, v) ∷ values))
          (record { total = pos (suc (length values)); results = r; ret = none })).ret
        ≡ some (succeeded (assign ((n, v) ∷ values) r))
  unfolding run complete store_unless store all_succeed assign
  gathers n v [] r = refl
  gathers n v ((m, w) ∷ values) r =
      subst
        (λ z.
          (run (all_succeed ((m, w) ∷ values)) (record {
            total = z;
            results = update r n (some v);
            ret = if eqb_ℤ z (pos 0) then some (succeeded (update r n (some v))) else none;
          })).ret
          ≡ some (succeeded (assign ((m, w) ∷ values) (update r n (some v)))))
        (sym (less_one (suc (length values))))
        (subst
          (λ b.
            (run (all_succeed ((m, w) ∷ values)) (record {
              total = pos (suc (length values));
              results = update r n (some v);
              ret = if b then some (succeeded (update r n (some v))) else none;
            })).ret
            ≡ some (succeeded (assign ((m, w) ∷ values) (update r n (some v)))))
          (nonzero (length values)) (gathers m w values (update r n (some v))))

  -- If all results succeed, one after the other and at least one, the gathering holds, at each index,
  -- the value of that index, whatever the order.
  pub run-gathers :
      (values : List (ℕ × A))
      → 0 < length values
      → ((n : ℕ) → occ n (indices values) ≤ 1)
      → (f : ℕ → Option A) × ((run (all_succeed values) (start (length values))).ret
          ≡ some (succeeded f))
        × ((n : ℕ) → f n ≡ value_of n values none)
  unfolding start
  run-gathers [] h once = absurd (omega arith)
  run-gathers ((n, v) ∷ values) h once = (
    assign ((n, v) ∷ values) (λ m. none),
    gathers n v values (λ m. none),
    λ m. assign-value ((n, v) ∷ values) (λ m. none) m once,
  )
