-- ===== src/Sinks/Resurrector/History.antt =====
-- All histories of scales/resurrector.py, class ResurrectorSink.
use pynagle.Common.{
  ℕ, suc, ◌≤◌, ◌≡◌, refl, ap, subst, sym, Bool, true, false, List, [], ◌∷◌, Option, none, some,
  contains, if◌then◌else◌, arith,
}
use pynagle.Constants.{ChannelState}
use pynagle.Sinks.Resurrector.{
  opens, closes, Answer, failed_fast, passed_to, Resurrector, init, request, state, fault, attempt,
  try_resurrect, open_sink, open_channel, close_sink, close, unwatch,
}
use pynagle.Sinks.Resurrector.Phases.{
  Phase, unopened, up, off, unwatched, PhaseOf, open-Phase, open_sink-wait, unwatch_self,
  close-Phase, close_sink-wait, fault-Phase, fault-wait, attempt-Phase, try_resurrect-wait,
}

module _ (initial_wait max_wait : ℕ) (grow : ℕ → ℕ) where
  -- The steps of a sink that nobody opens while it is down. Only a sink that is watched faults.
  pub data Step (r : Resurrector) : Resurrector → Type 0 where
    opening : r.down ≡ false → Step r (open_channel r)
    faulting : (s : ℕ) → contains r.watched s ≡ true → Step r (fault initial_wait max_wait grow r)
    attempting : (opened : Bool) → Step r (try_resurrect initial_wait max_wait grow opened r)
    closing : Step r (close r)

  pub data Reachable : Resurrector → Type 0 where
    created : Reachable init
    after : {r q : Resurrector} → Reachable r → Step r q → Reachable q

  Step-PhaseOf : (r q : Resurrector) → Step r q → PhaseOf r → PhaseOf q
  unfolding open_channel close
  Step-PhaseOf r q (opening d) p = open-Phase r.next_sink r.down r.worker r.watched r d p
  Step-PhaseOf r q (faulting s h) p =
      fault-Phase initial_wait max_wait grow r.next_sink r.down r.worker r.watched s r h p
  Step-PhaseOf r q (attempting opened) p =
      attempt-Phase initial_wait max_wait grow r.next_sink r.down r.worker r.watched opened r p
  Step-PhaseOf r q closing p = close-Phase r.next_sink r.down r.worker r.watched r p

  Step-wait :
      initial_wait ≤ max_wait
      → (r q : Resurrector) → Step r q
      → r.wait ≤ max_wait
      → q.wait ≤ max_wait
  unfolding open_channel close
  Step-wait i r q (opening d) h = omega (arith, open_sink-wait r.next_sink r)
  Step-wait i r q (faulting s w) h = fault-wait initial_wait max_wait grow r i h
  Step-wait i r q (attempting opened) h = try_resurrect-wait initial_wait max_wait grow opened r h
  Step-wait i r q closing h = omega (arith, close_sink-wait r.next_sink r)

  -- If the initial wait is at most the maximal one, every history in which the sink is not opened
  -- while it is down leads to one of four phases: not opened, up with a watched sink, down with its
  -- greenlet at work, or left with a sink that nobody watches; and the wait between two attempts is
  -- at most the maximal one.
  pub Reachable-Phase :
      initial_wait ≤ max_wait → (r : Resurrector) → Reachable r → PhaseOf r × (r.wait ≤ max_wait)
  unfolding init
  Reachable-Phase i r created = (unopened, omega arith)
  Reachable-Phase i r (after {r = before} past step) =
      let (p, h) = Reachable-Phase i before past in
      (Step-PhaseOf before r step p, Step-wait i before r step h)

  off-down :
      (o : Option ℕ) (d w : Bool) (watched : List ℕ)
      → d ≡ true
      → Phase o d w watched
      → (o ≡ none) × (w ≡ true) × (watched ≡ [])
  off-down _ _ _ _ e off = (refl, refl, refl)
  off-down _ _ _ _ e unopened = absurd (ground arith)
  off-down _ _ _ _ e (up s) = absurd (ground arith)
  off-down _ _ _ _ e (unwatched s) = absurd (ground arith)

  -- In such a history, a sink that is down fails requests at once and reports Closed, and its next
  -- successful attempt makes it pass requests to a new sink, the only one that it watches.
  pub down_recovers :
      initial_wait ≤ max_wait
      → (r : Resurrector) → Reachable r
      → r.down ≡ true
      → (sinks : ℕ → ChannelState)
      → (request r ≡ failed_fast)
        × (state sinks r ≡ ChannelState.closed)
        × (request (try_resurrect initial_wait max_wait grow true r) ≡ passed_to r.fresh)
        × ((try_resurrect initial_wait max_wait grow true r).watched ≡ r.fresh ∷ [])
  unfolding request state try_resurrect attempt
  down_recovers i r past d sinks =
      let (p, _) = Reachable-Phase i r past in
      let (no_sink, works, none_watched) = off-down r.next_sink r.down r.worker r.watched d p in
      (
        ap (λ o. elim o as (λ x. Answer) [ none ↦ failed_fast | some s ↦ passed_to s ]) no_sink,
        ap
            (λ b. if b then ChannelState.closed else elim r.next_sink as (λ x. ChannelState) [
              | none ↦ ChannelState.idle
              | some s ↦ sinks s
            ])
            d,
        subst
            (λ b.
              request (if b then attempt initial_wait max_wait grow true r else r)
              ≡ passed_to r.fresh)
            (sym works) refl,
        subst
            (λ b.
              (if b then attempt initial_wait max_wait grow true r else r).watched ≡ r.fresh ∷ [])
            (sym works) (ap (λ xs. r.fresh ∷ xs) none_watched),
      )

  open_leaks :
      (o : Option ℕ) (d w : Bool) (watched : List ℕ) (r : Resurrector)
      → d ≡ true
      → Phase o d w watched
      → let q =
          try_resurrect initial_wait max_wait grow true
            (open_channel (record r { next_sink = o; down = d; worker = w; watched = watched })) in
        (request q ≡ passed_to (suc r.fresh))
        × (q.watched ≡ suc r.fresh ∷ r.fresh ∷ [])
        × (q.calls ≡ opens (suc r.fresh) ∷ opens r.fresh ∷ r.calls)
  unfolding request try_resurrect attempt open_channel open_sink
  open_leaks _ _ _ _ r e off = (refl, refl, refl)
  open_leaks _ _ _ _ r e unopened = absurd (ground arith)
  open_leaks _ _ _ _ r e (up s) = absurd (ground arith)
  open_leaks _ _ _ _ r e (unwatched s) = absurd (ground arith)

  -- A sink opened while it is down with its greenlet at work, which then succeeds, passes requests to
  -- the greenlet's sink, and has opened and still watches another one, which it never closed.
  pub open_while_down :
      (r : Resurrector)
      → PhaseOf r
      → r.down ≡ true
      → let q = try_resurrect initial_wait max_wait grow true (open_channel r) in
        (request q ≡ passed_to (suc r.fresh))
        × (q.watched ≡ suc r.fresh ∷ r.fresh ∷ [])
        × (q.calls ≡ opens (suc r.fresh) ∷ opens r.fresh ∷ r.calls)
  unfolding request try_resurrect attempt open_channel open_sink
  open_while_down r p d = open_leaks r.next_sink r.down r.worker r.watched r d p

reopened :
    (o : Option ℕ) (d w : Bool) (watched : List ℕ) (r : Resurrector) (s : ℕ)
    → o ≡ some s
    → Phase o d w watched
    → let q =
        open_channel
          (close (record r { next_sink = o; down = d; worker = w; watched = watched })) in
      (q.next_sink ≡ some s) × (q.watched ≡ []) × (q.calls ≡ opens s ∷ closes s ∷ r.calls)
unfolding open_channel close close_sink open_sink unwatch
reopened _ _ _ _ r s e unopened = absurd (ground arith)
reopened _ _ _ _ r s e off = absurd (ground arith)
reopened _ _ _ _ r s e (up t) =
    let same : t ≡ s = ground arith in
    (e, unwatch_self t, ap (λ x. opens x ∷ closes x ∷ r.calls) same)
reopened _ _ _ _ r s e (unwatched t) =
    let same : t ≡ s = ground arith in (e, refl, ap (λ x. opens x ∷ closes x ∷ r.calls) same)

-- Closing a sink that is up and opening it again opens the same sink below and watches nothing.
reopened_unwatched :
    (r : Resurrector) (s : ℕ)
    → PhaseOf r
    → r.next_sink ≡ some s
    → let q = open_channel (close r) in
      (q.next_sink ≡ some s) × (q.watched ≡ []) × (q.calls ≡ opens s ∷ closes s ∷ r.calls)
unfolding open_channel close close_sink open_sink unwatch
reopened_unwatched r s p e = reopened r.next_sink r.down r.worker r.watched r s e p
