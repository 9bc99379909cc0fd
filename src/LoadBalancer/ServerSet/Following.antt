-- ===== src/LoadBalancer/ServerSet/Following.antt =====
-- Each operation of a server set keeps what it has told of a name in step with its members.
use pynagle.Common.{
  ℕ, ◌+◌, ◌-◌, ◌≤◌, ◌≡◌, sym, subst, Bool, true, false, List, [], ◌∷◌, ◌++◌, occ, Run, ok, raised,
  out_of_fuel, arith,
}
use pynagle.LoadBalancer.ServerSet.{
  Worker, waiting, got, reading, killed, ServerSet, filter, minus, unique, on_set_changed,
  take_work, pass,
}
use pynagle.LoadBalancer.ServerSet.Counting.{names, joins_of, leaves_of, occ-minus, occ-unique}

-- Whether a call raises.
unfoldable pub is_raised : Run (List (ℕ × ℕ)) → Bool
is_raised (ok new) = false
is_raised raised = true
is_raised out_of_fuel = true

-- Work that takes the presence of `k` among the nodes, 0 or 1, from `now` to `last`.
pub data Leads (k last : ℕ) : ℕ → List (List ℕ × List ℕ) → Type 0 where
  done : Leads k last last []
  leads :
      {now after : ℕ} {new gone : List ℕ} {more : List (List ℕ × List ℕ)}
      → after ≤ 1
      → occ k new ≡ after - now
      → occ k gone ≡ now - after
      → Leads k last after more
      → Leads k last now ((new, gone) ∷ more)

-- The same, the work of the worker first.
pub data Follows (k last now : ℕ) : Worker → List (List ℕ × List ℕ) → Type 0 where
  at_queue :
      {more : List (List ℕ × List ℕ)} → Leads k last now more → Follows k last now waiting more
  has_work :
      {new gone : List ℕ} {more : List (List ℕ × List ℕ)}
      → Leads k last now ((new, gone) ∷ more)
      → Follows k last now (got new gone) more
  at_reads :
      {new gone : List ℕ} {more : List (List ℕ × List ℕ)}
      → Leads k last now ((new, gone) ∷ more)
      → Follows k last now (reading new gone) more
  dead : {more : List (List ℕ × List ℕ)} → Follows k last now killed more

pub record Tells (k : ℕ) (s : ServerSet) : Type 0 where
  pub now : ℕ
  pub follows : Follows k (occ k s.nodes) now s.worker s.queue
  pub once : occ k s.nodes ≤ 1
  pub now_once : now ≤ 1
  pub at_most : occ k (names s.members) ≤ now
  pub balanced : joins_of k s.told ≡ leaves_of k s.told + occ k (names s.members)

Leads-append :
    (k last next : ℕ) (now : ℕ) (new gone : List ℕ) (more : List (List ℕ × List ℕ))
    → next ≤ 1
    → occ k new ≡ next - last
    → occ k gone ≡ last - next
    → Leads k last now more
    → Leads k next now (more ++ (new, gone) ∷ [])
Leads-append k last next now new gone [] m a b done = leads m a b done
Leads-append k last next now new gone (w ∷ more) m a b (leads {after = after} h i j rest) =
    leads h i j (Leads-append k last next after new gone more m a b rest)

Follows-append :
    (k last next now : ℕ) (new gone : List ℕ) (w : Worker) (more : List (List ℕ × List ℕ))
    → next ≤ 1
    → occ k new ≡ next - last
    → occ k gone ≡ last - next
    → Follows k last now w more
    → Follows k next now w (more ++ (new, gone) ∷ [])
Follows-append k last next now new gone waiting more m a b (at_queue h) =
    at_queue (Leads-append k last next now new gone more m a b h)
Follows-append k last next now new gone (got n g) more m a b (has_work h) =
    has_work (Leads-append k last next now new gone ((n, g) ∷ more) m a b h)
Follows-append k last next now new gone (reading n g) more m a b (at_reads h) =
    at_reads (Leads-append k last next now new gone ((n, g) ∷ more) m a b h)
Follows-append k last next now new gone killed more m a b dead = dead

pub changes-Tells :
    (k : ℕ) (member_filter : ℕ → Bool) (children : List ℕ) (s : ServerSet)
    → Tells k s
    → Tells k (on_set_changed member_filter children s)
unfolding on_set_changed
changes-Tells k member_filter children s h =
    let kept = unique (filter member_filter children) in
    let most = occ-unique k (filter member_filter children) in
    let now_in = occ-minus k kept s.nodes in
    let now_out = occ-minus k s.nodes kept in
    let o = h.once in
    record {
      now = h.now;
      follows =
          Follows-append k (occ k s.nodes) (occ k kept) h.now (minus kept s.nodes)
            (minus s.nodes kept) s.worker s.queue most (ground arith) (ground arith) h.follows;
      once = most;
      now_once = h.now_once;
      at_most = h.at_most;
      balanced = h.balanced;
    }

Follows-got :
    (k last now : ℕ) (new gone : List ℕ) (more : List (List ℕ × List ℕ))
    → Follows k last now waiting ((new, gone) ∷ more)
    → Follows k last now (got new gone) more
Follows-got k last now new gone more (at_queue h) = has_work h

Follows-reading :
    (k last now : ℕ) (new gone : List ℕ) (more : List (List ℕ × List ℕ))
    → Follows k last now (got new gone) more
    → Follows k last now (reading new gone) more
Follows-reading k last now new gone more (has_work h) = at_reads h

-- The worker moves on.
pub moved-Tells :
    (k : ℕ) (w : Worker) (q : List (List ℕ × List ℕ)) (s : ServerSet) (h : Tells k s)
    → Follows k (occ k s.nodes) h.now w q
    → Tells k (record s { worker = w; queue = q })
moved-Tells k w q s h f = record {
  now = h.now;
  follows = f;
  once = h.once;
  now_once = h.now_once;
  at_most = h.at_most;
  balanced = h.balanced;
}

pub take_work-Tells :
    (k : ℕ) (w : Worker) (q : List (List ℕ × List ℕ)) (s : ServerSet)
    → w ≡ s.worker
    → q ≡ s.queue
    → Tells k s
    → Tells k (take_work w q s)
unfolding take_work
take_work-Tells k waiting ((new, gone) ∷ more) s e f h =
    let same : Follows k (occ k s.nodes) h.now waiting ((new, gone) ∷ more) =
      subst (λ w. Follows k (occ k s.nodes) h.now w ((new, gone) ∷ more)) (sym e)
        (subst (λ q. Follows k (occ k s.nodes) h.now s.worker q) (sym f) h.follows) in
    moved-Tells k (got new gone) more s h (Follows-got k (occ k s.nodes) h.now new gone more same)
take_work-Tells k waiting [] s e f h = h
take_work-Tells k (got new gone) q s e f h = h
take_work-Tells k (reading new gone) q s e f h = h
take_work-Tells k killed q s e f h = h

pub pass-Tells :
    (k : ℕ) (w : Worker) (s : ServerSet) → w ≡ s.worker → Tells k s → Tells k (pass w s)
unfolding pass
pass-Tells k (got new gone) s e h =
    let same : Follows k (occ k s.nodes) h.now (got new gone) s.queue =
      subst (λ w. Follows k (occ k s.nodes) h.now w s.queue) (sym e) h.follows in
    moved-Tells k (reading new gone) s.queue s h
      (Follows-reading k (occ k s.nodes) h.now new gone s.queue same)
pass-Tells k waiting s e h = h
pass-Tells k (reading new gone) s e h = h
pass-Tells k killed s e h = h
