-- ===== src/Kafka/Router.antt =====
-- scales/kafka/sink.py, class KafkaRouterSink. Topics, messages and load balancers are numbers; a load
-- balancer is made for (partition, broker) pairs, and `calls` are what it was asked, newest first.
-- Metadata that a refresh gives are an argument, by the number of the refresh, and so are the time
-- and the topic of a message. `refreshing` are the messages whose greenlets wait for a refresh,
-- `opening` those that wait for a load balancer to open, `asked` those that one has, `answers` what
-- their callers got. `lost` are the messages, with their load balancer, that
-- a closed load balancer was given: it raises, and nobody hears of it. An AsyncResult is an object, so `not topic_info.open_ar` does not hold.
pub mod Requests
pub mod Keeping
pub mod Conservation
pub mod History
pub mod Rounds
pub mod Rebuilding
pub mod Retrying
mod Tests
use pynagle.Common.{
  ℕ, zero, suc, ◌+◌, ◌-◌, Bool, true, false, not, ◌&&◌, ◌||◌, Option, none, some, List, [], ◌∷◌,
  ◌++◌, ltb, ◌==◌, if◌then◌else◌, contains,
}
use pynagle.Common.Int.{ℤ, negsuc}
use pynagle.Kafka.Cluster.{
  Broker, Metadata, TopicState, eqb_broker, has_broker, includes_brokers, same_brokers,
  includes_addresses, addresses_of, find_broker, topic_brokers, get_topic, touch,
}

pub data Fetch : Type 0 where
  fetched : Metadata → Fetch
  fetch_failed : Fetch

pub data LbCall : Type 0 where
  creates : ℕ → List (ℤ × Broker) → LbCall
  opens closes : ℕ → LbCall

-- What a caller gets: the response, or an error.
pub data Answer : Type 0 where
  passed_on invalid_response no_broker refresh_error key_error : Answer
  kafka_error : ℤ → Answer

pub record Router : Type 0 where
  pub topics : List (ℕ × TopicState)
  pub bootstrap_lb : ℕ
  pub bootstrap_servers : List (ℕ × ℕ)
  pub refresh : Option ℕ
  pub refreshes : ℕ
  pub fresh : ℕ
  pub calls : List LbCall
  pub retried : List ℕ
  pub refreshing : List (ℕ × (ℕ × ℕ))
  pub opening : List (ℕ × (ℕ × ℕ))
  pub asked : List (ℕ × ℕ)
  pub lost : List (ℕ × ℕ)
  pub answers : List (ℕ × Answer)

-- The bootstrap load balancer that __init__ creates, for the servers of its provider.
unfoldable pub bootstrap_brokers : List (ℕ × ℕ) → List (ℤ × Broker)
bootstrap_brokers [] = []
bootstrap_brokers ((h, p) ∷ servers) =
    (negsuc 0, record { node_id = negsuc 0; host = h; port = p }) ∷ bootstrap_brokers servers

-- __init__
unfoldable pub init : List (ℕ × ℕ) → Router
unfolding bootstrap_brokers
init servers = record {
  topics = [];
  bootstrap_lb = 0;
  bootstrap_servers = servers;
  refresh = none;
  refreshes = 0;
  fresh = 1;
  calls = creates 0 (bootstrap_brokers servers) ∷ [];
  retried = [];
  refreshing = [];
  opening = [];
  asked = [];
  lost = [];
  answers = [];
}

-- _CreateBrokerLoadBalancer
unfoldable pub create_lb : List (ℤ × Broker) → Router → Router
create_lb brokers s = record s { fresh = suc s.fresh; calls = creates s.fresh brokers ∷ s.calls }

unfoldable pub close_all : List ℕ → List LbCall → List LbCall
close_all [] calls = calls
close_all (lb ∷ lbs) calls = close_all lbs (closes lb ∷ calls)

-- Whether a load balancer was closed: none is opened again after that.
unfoldable pub is_closed : ℕ → List LbCall → Bool
is_closed lb [] = false
is_closed lb (creates m brokers ∷ calls) = is_closed lb calls
is_closed lb (opens m ∷ calls) = is_closed lb calls
is_closed lb (closes m ∷ calls) = (m == lb) || is_closed lb calls

-- The variables of _RebuildTopicLoadBalancers in its loop.
pub record Loop : Type 0 where
  pub new_topics : List (ℕ × TopicState)
  pub old_lbs : List ℕ
  pub router : Router

-- A new load balancer for the topic `n`, opened.
unfoldable pub replace_topic : ℕ → ℕ → List (ℤ × Broker) → List ℕ → Loop → Loop
unfolding create_lb
replace_topic now n brokers old l =
    let s = create_lb brokers l.router in
    let t : TopicState = record { lb = l.router.fresh; brokers = brokers; last_refreshed = now } in
    record {
      new_topics = l.new_topics ++ (n, t) ∷ [];
      old_lbs = l.old_lbs ++ old;
      router = record s { calls = opens l.router.fresh ∷ s.calls };
    }

-- One round of the loop, for what _topics has for the topic.
unfoldable pub rebuild_topic : ℕ → ℕ → ℕ → List (ℤ × Broker) → Option TopicState → Loop → Loop
unfolding same_brokers touch replace_topic
rebuild_topic now requested n brokers none l =
    if n == requested then replace_topic now n brokers [] l else l
rebuild_topic now requested n brokers (some t) l =
    let s = l.router in
    if same_brokers t.brokers brokers
    then record l {
      new_topics = l.new_topics ++ (n, record t { last_refreshed = now }) ∷ [];
      router = record s { topics = touch n now s.topics };
    }
    else (if n == requested
        then replace_topic now n brokers (t.lb ∷ []) l
        else record l { new_topics = l.new_topics ++ (n, t) ∷ [] })

-- The loop, and whether it ended without a KeyError.
unfoldable pub rebuild_topics :
    ℕ → ℕ → List (ℤ × Broker) → List (ℕ × List (ℤ × ℤ)) → Loop → Bool × Loop
unfolding topic_brokers get_topic rebuild_topic
rebuild_topics now requested brokers [] l = (true, l)
rebuild_topics now requested brokers ((n, partitions) ∷ topics) l =
    elim (topic_brokers brokers partitions) as (λ _. Bool × Loop) [
      | none ↦ (false, l)
      | some bs ↦
          rebuild_topics now requested brokers topics
            (rebuild_topic now requested n bs (get_topic l.router.topics n) l)
    ]

-- After the loop: the new topics, the close of the old load balancers, and the bootstrap.
unfoldable pub swap_bootstrap : List (ℤ × Broker) → Router → Router
unfolding includes_addresses addresses_of create_lb
swap_bootstrap brokers s =
    let keys = addresses_of brokers in
    if includes_addresses keys s.bootstrap_servers && includes_addresses s.bootstrap_servers keys
    then s
    else let t = create_lb brokers s in
      record t { bootstrap_lb = s.fresh; calls = closes s.bootstrap_lb ∷ t.calls }

unfoldable pub end_rebuild : List (ℤ × Broker) → Loop → Router
unfolding swap_bootstrap close_all
end_rebuild brokers l =
    let s = l.router in
    swap_bootstrap brokers (record s { topics = l.new_topics; calls = close_all l.old_lbs s.calls })

-- _RebuildTopicLoadBalancers
unfoldable pub rebuild : ℕ → Metadata → ℕ → Router → Bool × Router
unfolding rebuild_topics end_rebuild
rebuild now m requested s =
    let (finished, l) =
      rebuild_topics now requested m.brokers m.topics
        (record { new_topics = []; old_lbs = []; router = s }) in
    if finished then (true, end_rebuild m.brokers l) else (false, l.router)
