-- ===== src/LoadBalancer/ServerSet/History.antt =====
-- The histories of a server set, and what it has told of each name.
use pynagle.Common.{
  ℕ, ◌+◌, ◌-◌, ◌≤◌, ◌≡◌, refl, Bool, true, false, ◌||◌, List, [], ◌==◌, if◌then◌else◌, occ, arith,
}
use pynagle.LoadBalancer.ServerSet.{
  Reading, Worker, waiting, killed, ServerSet, init, on_set_changed, get_work, pass, ensure_safe,
  read_new, notification_worker, data_changed, enter, exit, stop,
}
use pynagle.LoadBalancer.ServerSet.Following.{
  is_raised, Follows, at_queue, dead, done, leads, has_work, at_reads, Tells, changes-Tells,
  moved-Tells, take_work-Tells, pass-Tells,
}
use pynagle.LoadBalancer.ServerSet.Rounds.{finish-Tells, watches-Tells}
use pynagle.LoadBalancer.ServerSet.Counting.{names, joins_of, leaves_of}

-- The states that a server set reaches, and whether a read of its worker has raised on the way.
pub data Reachable (member_filter : ℕ → Bool) : Bool → ServerSet → Type 0 where
  start : Reachable member_filter false init
  changes :
      {lost : Bool} {s : ServerSet} (children : List ℕ)
      → Reachable member_filter lost s
      → Reachable member_filter lost (on_set_changed member_filter children s)
  watches :
      {lost : Bool} {s : ServerSet} (view exists : Bool)
      → Reachable member_filter lost s
      → Reachable member_filter lost (data_changed view exists s)
  gets :
      {lost : Bool} {s : ServerSet}
      → Reachable member_filter lost s
      → Reachable member_filter lost (get_work s)
  passes :
      {lost : Bool} {s : ServerSet}
      → Reachable member_filter lost s
      → Reachable member_filter lost (ensure_safe s)
  raises_notifications :
      {lost : Bool} {s : ServerSet} (read : ℕ → Reading)
      → Reachable member_filter lost s
      → Reachable member_filter
          (lost || is_raised (read_new member_filter read s.worker))
          (notification_worker member_filter read s)
  enters :
      {lost : Bool} {s : ServerSet}
      → Reachable member_filter lost s
      → Reachable member_filter lost (enter s)
  exits :
      {lost : Bool} {s : ServerSet}
      → Reachable member_filter lost s
      → Reachable member_filter lost (exit s)
  stops :
      {lost : Bool} {s : ServerSet}
      → Reachable member_filter lost s
      → Reachable member_filter lost (stop s)

init-Tells : (k : ℕ) → Tells k init
unfolding init names joins_of leaves_of
init-Tells k = record {
  now = 0;
  follows = at_queue done;
  once = omega arith;
  now_once = omega arith;
  at_most = omega arith;
  balanced = refl;
}

same-Tells : (k b : ℕ) (s : ServerSet) → Tells k s → Tells k (record s { blocking = b })
same-Tells k b s h = record {
  now = h.now;
  follows = h.follows;
  once = h.once;
  now_once = h.now_once;
  at_most = h.at_most;
  balanced = h.balanced;
}

ensure_safe-Tells : (k : ℕ) (s : ServerSet) → Tells k s → Tells k (ensure_safe s)
unfolding ensure_safe
ensure_safe-Tells k s h =
    elim (s.blocking == 0) as (λ b. Tells k (if b then pass s.worker s else s)) [
      | true ↦ pass-Tells k s.worker s refl h
      | false ↦ h
    ]

stop-Tells : (k : ℕ) (s : ServerSet) → Tells k s → Tells k (stop s)
unfolding stop
stop-Tells k s h =
    let t = moved-Tells k killed s.queue s h dead in
    record {
      now = t.now;
      follows = t.follows;
      once = t.once;
      now_once = t.now_once;
      at_most = t.at_most;
      balanced = t.balanced;
    }

Reachable-Tells :
    (member_filter : ℕ → Bool) (lost : Bool) (s : ServerSet) (k : ℕ)
    → Reachable member_filter lost s
    → lost ≡ false
    → Tells k s
unfolding get_work notification_worker enter exit
Reachable-Tells member_filter lost s k start e = init-Tells k
Reachable-Tells member_filter lost s k (changes {s = t} children r) e =
    changes-Tells k member_filter children t (Reachable-Tells member_filter lost t k r e)
Reachable-Tells member_filter lost s k (watches {s = t} view exists r) e =
    watches-Tells k view exists t (Reachable-Tells member_filter lost t k r e)
Reachable-Tells member_filter lost s k (gets {s = t} r) e =
    take_work-Tells k t.worker t.queue t refl refl (Reachable-Tells member_filter lost t k r e)
Reachable-Tells member_filter lost s k (passes {s = t} r) e =
    ensure_safe-Tells k t (Reachable-Tells member_filter lost t k r e)
Reachable-Tells member_filter lost s k (raises_notifications {lost = before} {s = t} read r) e =
    finish-Tells k member_filter read t.worker t refl (ground arith)
      (Reachable-Tells member_filter before t k r (ground arith))
Reachable-Tells member_filter lost s k (enters {s = t} r) e =
    same-Tells k (t.blocking + 1) t (Reachable-Tells member_filter lost t k r e)
Reachable-Tells member_filter lost s k (exits {s = t} r) e =
    same-Tells k (t.blocking - 1) t (Reachable-Tells member_filter lost t k r e)
Reachable-Tells member_filter lost s k (stops {s = t} r) e =
    stop-Tells k t (Reachable-Tells member_filter lost t k r e)

-- In a history of a server set whose on_join and on_leave return without waiting, and in which no
-- round of its worker ended in an exception, however the changes, the rounds and the waits between
-- them interleave, and whether or not keys() is a view, each name has at most one member, and it has been
-- told to have joined once more than to have left if it has one, and as often if it has none.
pub Reachable-balanced :
    (member_filter : ℕ → Bool) (s : ServerSet) (k : ℕ)
    → Reachable member_filter false s
    → (joins_of k s.told ≡ leaves_of k s.told + occ k (names s.members))
      × (occ k (names s.members) ≤ 1)
Reachable-balanced member_filter s k r =
    let h = Reachable-Tells member_filter false s k r refl in
    let at_most = h.at_most in let now_once = h.now_once in (h.balanced, omega arith)

settled :
    (k last now : ℕ) (w : Worker) (q : List (List ℕ × List ℕ))
    → Follows k last now w q
    → w ≡ waiting
    → q ≡ []
    → now ≡ last
settled k last now w q (at_queue done) e f = refl
settled k last now w q (at_queue (leads m a b rest)) e f = absurd (ground arith)
settled k last now w q (has_work h) e f = absurd (ground arith)
settled k last now w q (at_reads h) e f = absurd (ground arith)
settled k last now w q dead e f = absurd (ground arith)

-- In a history of a server set in which no round of its worker ended in an exception, when the
-- worker waits at an empty queue, each member is one of the nodes that the last change of the
-- children gave, in which no name stands twice.
Reachable-settled :
    (member_filter : ℕ → Bool) (s : ServerSet) (k : ℕ)
    → Reachable member_filter false s
    → s.worker ≡ waiting
    → s.queue ≡ []
    → (occ k (names s.members) ≤ occ k s.nodes) × (occ k s.nodes ≤ 1)
Reachable-settled member_filter s k r e f =
    let h = Reachable-Tells member_filter false s k r refl in
    let at_most = h.at_most in
    let same = settled k (occ k s.nodes) h.now s.worker s.queue h.follows e f in
    (omega arith, h.once)
