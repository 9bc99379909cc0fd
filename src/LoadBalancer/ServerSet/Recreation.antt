-- ===== src/LoadBalancer/ServerSet/Recreation.antt =====
-- A path that is deleted and created again with the children that it had.
use pynagle.Common.{ℕ, ◌≡◌, Bool, List, [], occ, drop, take, ◌+◌, if◌then◌else◌}
use pynagle.LoadBalancer.ServerSet.{ServerSet}
use pynagle.LoadBalancer.ServerSet.Counting.{names, leaves_of}

-- What a deletion of the path and its creation leave: the nodes and the work, the members that stay,
-- and what each was told.
record Reopened (view : Bool) (before : List (ℕ × ℕ)) (s t : ServerSet) : Type 0 where
  nodes : t.nodes ≡ s.nodes
  queue : t.queue ≡ s.queue
  members : t.members ≡ (if view then drop 1 before else [])
  leaves :
      (k : ℕ)
      → leaves_of k t.told
        ≡ leaves_of k s.told + occ k (names (if view then take 1 before else before))
