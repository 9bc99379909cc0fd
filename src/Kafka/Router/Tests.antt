-- ===== src/Kafka/Router/Tests.antt =====
-- Runs of a router, and the theorems at concrete states.
use pynagle.Common.{ℕ, ◌≡◌, refl, [], ◌∷◌}
use pynagle.Common.Int.{pos, negsuc}
use pynagle.Kafka.Cluster.{Broker, Metadata, get_topic}
use pynagle.Kafka.Router.{Fetch, fetched, opens, closes, creates, kafka_error, Router, init}
use pynagle.Kafka.Router.Requests.{
  pick, process_request, on_refresh_complete, send_msg, process_response,
}
use pynagle.Kafka.Router.Retrying.{failure-comes_back}

abbrev one_topic : ℕ → ℕ
one_topic r = 7

abbrev leader_five : Broker
leader_five = record { node_id = pos 5; host = 50; port = 9092 }

abbrev leader_six : Broker
leader_six = record { node_id = pos 6; host = 60; port = 9092 }

-- The topic 7 has three partitions, the last without a leader.
abbrev cluster : Metadata
cluster = record {
  brokers = (pos 5, leader_five) ∷ (pos 6, leader_six) ∷ [];
  topics =
      (8, (pos 0, pos 5) ∷ []) ∷ (7, (pos 0, pos 6) ∷ (pos 1, pos 5) ∷ (pos 2, negsuc 0) ∷ []) ∷ [];
}

-- The metadata of every refresh.
abbrev every_fetch : ℕ → Fetch
every_fetch k = fetched cluster

abbrev begun : Router
begun = process_request 10 one_topic 100 1 (init ((50, 9092) ∷ []))

abbrev refreshed : Router
refreshed = on_refresh_complete 10 one_topic 101 every_fetch 0 begun

-- The second refresh of the bootstrap load balancer closes the first.
refreshed-calls :
    refreshed.calls
    ≡ closes 0
      ∷ creates 2 cluster.brokers
      ∷ opens 1
      ∷ creates 1 ((pos 0, leader_six) ∷ (pos 1, leader_five) ∷ [])
      ∷ opens 0
      ∷ creates 0 ((negsuc 0, record { node_id = negsuc 0; host = 50; port = 9092 }) ∷ [])
      ∷ []
unfolding pick process_request on_refresh_complete init
refreshed-calls = refl

abbrev with_broker : Router
with_broker = send_msg 10 one_topic 0 refreshed

-- A reload code is retried once.
reloaded_twice :
    let again =
      send_msg 10 one_topic 0 (process_response 10 one_topic 102 (pos 6 ∷ []) 0 with_broker) in
    (again.asked ≡ (1, 7) ∷ [])
    × ((process_response 10 one_topic 103 (pos 6 ∷ []) 0 again).answers
        ≡ (1, kafka_error (pos 6)) ∷ [])
unfolding pick process_request on_refresh_complete send_msg process_response init
reloaded_twice = (refl, refl)

failure-comes_back_example :
    send_msg 10 one_topic 0 (process_response 10 one_topic 105 [] 0 with_broker) ≡ with_broker
unfolding pick process_request on_refresh_complete send_msg init get_topic
failure-comes_back_example =
    failure-comes_back 10 one_topic 105 with_broker 1 7 []
      (record {
        lb = 1;
        brokers = (pos 0, leader_six) ∷ (pos 1, leader_five) ∷ [];
        last_refreshed = 101;
      })
      refl refl refl refl
