-- ===== src/Kafka/Router/Rebuilding.antt =====
-- After a rebuild, the requested topic has a load balancer for the leaders of its partitions.
use pynagle.Common.{ℕ, Option, none, some, List, [], ◌∷◌, ◌==◌, if◌then◌else◌}
use pynagle.Common.Int.{ℤ}
use pynagle.Kafka.Cluster.{Broker}
use pynagle.Kafka.Router.{Router, Loop}
use pynagle.Kafka.Router.Rounds.{HasLb}

-- The partitions of a topic in the metadata.
unfoldable pub partitions_of : List (ℕ × List (ℤ × ℤ)) → ℕ → Option (List (ℤ × ℤ))
partitions_of [] n = none
partitions_of ((m, ps) ∷ topics) n = if m == n then some ps else partitions_of topics n

-- The load balancer of the topic after a loop, for that before it.
abbrev LoopHasLb : Option ℕ → ℕ → List (ℤ × Broker) → Loop → Type 0
LoopHasLb before n bs l = HasLb before n bs l.new_topics l.router.calls
