-- ===== src/Kafka/Cluster.antt =====
-- The metadata of a Kafka cluster, and the states of topics, as scales/kafka/sink.py compares and
-- looks them up. Topics and hosts are numbers, and so are load balancers.
use pynagle.Common.{
  ℕ, Bool, true, false, ◌&&◌, ◌||◌, Option, none, some, List, [], ◌∷◌, ◌==◌, if◌then◌else◌,
}
use pynagle.Common.Int.{ℤ, negsuc, eqb_ℤ}

-- BrokerMetadata
pub record Broker : Type 0 where
  pub node_id : ℤ
  pub host : ℕ
  pub port : ℕ

-- MetadataResponse: brokers by their id, and for each topic the leaders of its partitions.
pub record Metadata : Type 0 where
  pub brokers : List (ℤ × Broker)
  pub topics : List (ℕ × List (ℤ × ℤ))

-- TopicState, but for its name.
pub record TopicState : Type 0 where
  pub lb : ℕ
  pub brokers : List (ℤ × Broker)
  pub last_refreshed : ℕ

-- Equality of brokers and of their addresses, and of sets of them.
unfoldable pub eqb_broker : Broker → Broker → Bool
eqb_broker a b = eqb_ℤ a.node_id b.node_id && ((a.host == b.host) && (a.port == b.port))

unfoldable pub has_broker : List (ℤ × Broker) → ℤ × Broker → Bool
unfolding eqb_broker
has_broker [] x = false
has_broker ((p, b) ∷ bs) (q, c) = (eqb_ℤ p q && eqb_broker b c) || has_broker bs (q, c)

unfoldable pub includes_brokers : List (ℤ × Broker) → List (ℤ × Broker) → Bool
unfolding has_broker
includes_brokers bs [] = true
includes_brokers bs (x ∷ xs) = has_broker bs x && includes_brokers bs xs

unfoldable pub same_brokers : List (ℤ × Broker) → List (ℤ × Broker) → Bool
unfolding includes_brokers
same_brokers xs ys = includes_brokers xs ys && includes_brokers ys xs

unfoldable pub has_address : List (ℕ × ℕ) → ℕ × ℕ → Bool
has_address [] x = false
has_address ((h, p) ∷ xs) (i, q) = ((h == i) && (p == q)) || has_address xs (i, q)

unfoldable pub includes_addresses : List (ℕ × ℕ) → List (ℕ × ℕ) → Bool
unfolding has_address
includes_addresses bs [] = true
includes_addresses bs (x ∷ xs) = has_address bs x && includes_addresses bs xs

unfoldable pub addresses_of : List (ℤ × Broker) → List (ℕ × ℕ)
addresses_of [] = []
addresses_of ((i, b) ∷ bs) = (b.host, b.port) ∷ addresses_of bs

unfoldable pub find_broker : List (ℤ × Broker) → ℤ → Option Broker
find_broker [] i = none
find_broker ((j, b) ∷ bs) i = if eqb_ℤ j i then some b else find_broker bs i

-- topic_brokers: the partitions that have a leader, with its broker; none for a KeyError.
unfoldable pub topic_brokers : List (ℤ × Broker) → List (ℤ × ℤ) → Option (List (ℤ × Broker))
unfolding find_broker
topic_brokers brokers [] = some []
topic_brokers brokers ((p, leader) ∷ partitions) =
    let rest = topic_brokers brokers partitions in
    if eqb_ℤ leader (negsuc 0)
    then rest
    else (elim (find_broker brokers leader) as (λ _. Option (List (ℤ × Broker))) [
      | none ↦ none
      | some b ↦ elim rest as (λ _. Option (List (ℤ × Broker))) [
        | none ↦ none
        | some bs ↦ some ((p, b) ∷ bs)
      ]
    ])

-- _GetTopic, and the dict of topics.
unfoldable pub get_topic : List (ℕ × TopicState) → ℕ → Option TopicState
get_topic [] n = none
get_topic ((m, t) ∷ topics) n = if m == n then some t else get_topic topics n

unfoldable pub touch : ℕ → ℕ → List (ℕ × TopicState) → List (ℕ × TopicState)
touch n now [] = []
touch n now ((m, t) ∷ topics) =
    if m == n then (m, record t { last_refreshed = now }) ∷ topics else (m, t) ∷ touch n now topics
