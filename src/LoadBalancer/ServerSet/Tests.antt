-- ===== src/LoadBalancer/ServerSet/Tests.antt =====
-- Runs of a server set, and the theorems at concrete histories.
use pynagle.Common.{
  ℕ, ◌≤◌, ◌+◌, ◌≡◌, refl, Bool, true, false, [], ◌∷◌, ◌==◌, if◌then◌else◌, not, occ, arith,
}
use pynagle.LoadBalancer.ServerSet.{
  Reading, no_node, malformed, member, waiting, joined, ServerSet, init, read_new, on_set_changed,
  get_work, ensure_safe, notification_worker, data_changed, enter, exit, unique, filter,
}
use pynagle.LoadBalancer.ServerSet.Counting.{names, joins_of, leaves_of}
use pynagle.LoadBalancer.ServerSet.Following.{is_raised}
use pynagle.LoadBalancer.ServerSet.History.{
  Reachable, start, changes, watches, gets, passes, raises_notifications, enters, exits,
  Reachable-balanced,
}
use pynagle.LoadBalancer.ServerSet.Exact.{round-exact}

-- The node 9 does not pass the filter, 3 is gone when it is read, and 4 has no valid data.
abbrev passes_filter : ℕ → Bool
passes_filter n = not (n == 9)

abbrev read_node : ℕ → Reading
read_node n = if n == 3 then no_node else (if n == 4 then malformed else member (n + 100))

abbrev round : ServerSet → ServerSet
round s = notification_worker passes_filter read_node (ensure_safe (get_work s))

abbrev two_members : ServerSet
two_members =
    round (on_set_changed passes_filter (1 ∷ 9 ∷ 2 ∷ 3 ∷ []) (data_changed false true init))

two_members-told : two_members.told ≡ joined 2 ∷ joined 1 ∷ []
unfolding is_raised read_new ensure_safe get_work enter exit on_set_changed notification_worker
    data_changed init
two_members-told = refl

-- The round that reads the malformed 4 raises before 1 leaves.
abbrev lost_round : ServerSet
lost_round = round (on_set_changed passes_filter (2 ∷ 4 ∷ []) two_members)

lost_round-members : (names lost_round.members ≡ 1 ∷ 2 ∷ []) × (lost_round.nodes ≡ 2 ∷ 4 ∷ [])
unfolding is_raised read_new ensure_safe get_work enter exit on_set_changed notification_worker
    data_changed init names
lost_round-members = (refl, refl)

two_members-Reachable : Reachable passes_filter false two_members
unfolding is_raised read_new ensure_safe get_work enter exit on_set_changed notification_worker
    data_changed init
two_members-Reachable =
    raises_notifications read_node
      (passes (gets (changes (1 ∷ 9 ∷ 2 ∷ 3 ∷ []) (watches false true start))))

Reachable-balanced_example :
    let s = round (enter (on_set_changed passes_filter (2 ∷ 5 ∷ []) two_members)) in
    let t = round (exit s) in
    (joins_of 1 t.told ≡ leaves_of 1 t.told + occ 1 (names t.members))
    × (occ 1 (names t.members) ≤ 1)
unfolding is_raised read_new ensure_safe get_work enter exit on_set_changed notification_worker
    data_changed init
Reachable-balanced_example =
    Reachable-balanced passes_filter
      (round (exit (round (enter (on_set_changed passes_filter (2 ∷ 5 ∷ []) two_members))))) 1
      (raises_notifications read_node (
        passes (
          gets (
            exits (
              raises_notifications read_node
                (passes (gets (enters (changes (2 ∷ 5 ∷ []) two_members-Reachable)))))))))

abbrev read_each : ℕ → Reading
read_each n = member (n + 100)

-- The members 1 and 2 of the nodes 1 and 2.
abbrev exact_members : ServerSet
exact_members = record init { nodes = 1 ∷ 2 ∷ []; members = (1, 101) ∷ (2, 102) ∷ [] }

two_exact : (k : ℕ) → occ k (names exact_members.members) ≡ occ k exact_members.nodes
unfolding names
two_exact k = refl

two_once : (k : ℕ) → occ k exact_members.nodes ≤ 1
two_once k = ground arith

round-exact_example :
    let start = record exact_members { worker = waiting; queue = []; blocking = 0 } in
    let last =
      notification_worker passes_filter read_each
        (ensure_safe (get_work (on_set_changed passes_filter (2 ∷ 9 ∷ 5 ∷ []) start))) in
    (last.nodes ≡ unique (filter passes_filter (2 ∷ 9 ∷ 5 ∷ [])))
    × ((k : ℕ)
        → occ k (names last.members) ≡ occ k (unique (filter passes_filter (2 ∷ 9 ∷ 5 ∷ []))))
round-exact_example =
    round-exact passes_filter read_each (λ n. n + 100) (2 ∷ 9 ∷ 5 ∷ []) exact_members (λ n. refl)
      two_exact two_once
