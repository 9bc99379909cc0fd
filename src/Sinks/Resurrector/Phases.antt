-- ===== src/Sinks/Resurrector/Phases.antt =====
-- The phases of scales/resurrector.py, class ResurrectorSink, in all its histories.
use pynagle.Common.{
  ℕ, suc, ◌≤◌, ◌≡◌, refl, subst, sym, Bool, true, false, List, [], ◌∷◌, Option, none, some,
  contains, if◌then◌else◌, arith,
}
use pynagle.Sinks.Resurrector.{
  Resurrector, take_down, fault, attempt, try_resurrect, open_sink, close_sink, unwatch,
}

-- By next_sink, down, worker and watched: not opened, up, down with the greenlet at work, or left
-- with a sink that nobody watches, as by Close.
pub data Phase : Option ℕ → Bool → Bool → List ℕ → Type 0 where
  unopened : Phase none false false []
  up : (s : ℕ) → Phase (some s) false false (s ∷ [])
  off : Phase none true true []
  unwatched : (s : ℕ) → Phase (some s) false false []

abbrev pub PhaseOf : Resurrector → Type 0
PhaseOf r = Phase r.next_sink r.down r.worker r.watched

pub open-Phase :
    (o : Option ℕ) (d w : Bool) (watched : List ℕ) (r : Resurrector)
    → d ≡ false
    → Phase o d w watched
    → PhaseOf (open_sink o (record r { next_sink = o; down = d; worker = w; watched = watched }))
unfolding open_sink
open-Phase _ _ _ _ r e unopened = up r.fresh
open-Phase _ _ _ _ r e (up s) = up s
open-Phase _ _ _ _ r e (unwatched s) = unwatched s
open-Phase _ _ _ _ r e off = absurd (ground arith)

pub open_sink-wait : (o : Option ℕ) (r : Resurrector) → (open_sink o r).wait ≡ r.wait
unfolding open_sink
open_sink-wait none r = refl
open_sink-wait (some s) r = refl

pub unwatch_self : (s : ℕ) → unwatch s (s ∷ []) ≡ []
unfolding unwatch
unwatch_self s = ground arith

pub close-Phase :
    (o : Option ℕ) (d w : Bool) (watched : List ℕ) (r : Resurrector)
    → Phase o d w watched
    → PhaseOf (close_sink o (record r { next_sink = o; down = d; worker = w; watched = watched }))
unfolding close_sink unwatch
close-Phase _ _ _ _ r unopened = unopened
close-Phase _ _ _ _ r off = unopened
close-Phase _ _ _ _ r (unwatched s) = unwatched s
close-Phase _ _ _ _ r (up s) =
    subst (λ xs. Phase (some s) false false xs) (sym (unwatch_self s)) (unwatched s)

pub close_sink-wait : (o : Option ℕ) (r : Resurrector) → (close_sink o r).wait ≡ r.wait
unfolding close_sink
close_sink-wait none r = refl
close_sink-wait (some s) r = refl

module _ (initial_wait max_wait : ℕ) (grow : ℕ → ℕ) where
  -- A fault of a watched sink.
  pub fault-Phase :
      (o : Option ℕ) (d w : Bool) (watched : List ℕ) (s : ℕ) (r : Resurrector)
      → contains watched s ≡ true
      → Phase o d w watched
      → PhaseOf (
          fault initial_wait max_wait grow
            (record r { next_sink = o; down = d; worker = w; watched = watched }))
  unfolding fault take_down
  fault-Phase _ _ _ _ s r h unopened = absurd (ground arith)
  fault-Phase _ _ _ _ s r h off = off
  fault-Phase _ _ _ _ s r h (unwatched t) = absurd (ground arith)
  fault-Phase _ _ _ _ s r h (up t) =
      subst (λ xs. Phase none true true xs) (sym (unwatch_self t)) off

  take_down-wait :
      (o : Option ℕ) (r : Resurrector)
      → initial_wait ≤ max_wait
      → r.wait ≤ max_wait
      → (take_down initial_wait max_wait grow o r).wait ≤ max_wait
  unfolding take_down
  take_down-wait none r i h = h
  take_down-wait (some s) r i h = i

  pub fault-wait :
      (r : Resurrector)
      → initial_wait ≤ max_wait
      → r.wait ≤ max_wait
      → (fault initial_wait max_wait grow r).wait ≤ max_wait
  unfolding fault
  fault-wait r i h =
      elim r.down
        as (λ b.
          (if b
            then record r { faults = suc r.faults }
            else take_down initial_wait max_wait grow r.next_sink r).wait
          ≤ max_wait) [ true ↦ h | false ↦ take_down-wait r.next_sink r i h ]

  pub attempt-Phase :
      (o : Option ℕ) (d w : Bool) (watched : List ℕ) (opened : Bool) (r : Resurrector)
      → Phase o d w watched
      → PhaseOf (
          try_resurrect initial_wait max_wait grow opened
            (record r { next_sink = o; down = d; worker = w; watched = watched }))
  unfolding try_resurrect attempt
  attempt-Phase _ _ _ _ opened r unopened = unopened
  attempt-Phase _ _ _ _ opened r (up s) = up s
  attempt-Phase _ _ _ _ opened r (unwatched s) = unwatched s
  attempt-Phase _ _ _ _ true r off = up r.fresh
  attempt-Phase _ _ _ _ false r off = off

  attempt-wait :
      (opened : Bool) (r : Resurrector)
      → r.wait ≤ max_wait
      → (attempt initial_wait max_wait grow opened r).wait ≤ max_wait
  unfolding attempt
  attempt-wait true r h = h
  attempt-wait false r h = ground arith

  pub try_resurrect-wait :
      (opened : Bool) (r : Resurrector)
      → r.wait ≤ max_wait
      → (try_resurrect initial_wait max_wait grow opened r).wait ≤ max_wait
  unfolding try_resurrect
  try_resurrect-wait opened r h =
      elim r.worker
        as (λ b. (if b then attempt initial_wait max_wait grow opened r else r).wait ≤ max_wait) [
          | true ↦ attempt-wait opened r h
          | false ↦ h
        ]
