-- ===== src/Kafka/Router/Retrying.antt =====
-- What the router does again of a request that failed.
use pynagle.Common.{
  ℕ, ◌-◌, ◌≡◌, sym, ap, ◌∙◌, subst, true, false, some, List, [], ◌∷◌, ltb, if◌then◌else◌,
}
use pynagle.Kafka.Cluster.{TopicState, get_topic}
use pynagle.Kafka.Router.{Router, is_closed}
use pynagle.Kafka.Router.Requests.{
  pick, to_topic, wait_refresh, refresh_and_retry, send_msg, process_reply, process_response,
}

-- A message that a load balancer of its topic has fails with an exception less than the refresh
-- rate after the topic was refreshed, and the topic's load balancer was not closed. Then the router gives it to a load balancer again, and is as
-- it was before: it counts no retry, and the same can happen any number of times.
pub failure-comes_back :
    (refresh_rate : ℕ) (topic_of : ℕ → ℕ) (now : ℕ) (s : Router) (r topic : ℕ) (rest : List (ℕ × ℕ))
    (t : TopicState)
    → s.asked ≡ (r, topic) ∷ rest
    → get_topic s.topics topic ≡ some t
    → ltb (now - t.last_refreshed) refresh_rate ≡ true
    → is_closed t.lb s.calls ≡ false
    → send_msg refresh_rate topic_of 0 (process_response refresh_rate topic_of now [] 0 s) ≡ s
unfolding send_msg process_response process_reply refresh_and_retry to_topic pick
failure-comes_back refresh_rate topic_of now s r topic rest t a g fresh not_closed =
    let known : Router = record s { asked = rest } in
    let sent : Router = record s { asked = (r, topic) ∷ rest } in
    let same : sent ≡ s = ap (λ x. record s { asked = x }) (sym a) in
    let again : Router = to_topic r topic t known in
    let retried : refresh_and_retry refresh_rate topic_of now topic r (some t) known ≡ again =
      ap (λ b. if b then again else wait_refresh topic r known) fresh in
    let replied : process_response refresh_rate topic_of now [] 0 s ≡ again =
      subst (λ x. process_response refresh_rate topic_of now [] 0 x ≡ again) same
        (ap (λ o. refresh_and_retry refresh_rate topic_of now topic r o known) g ∙ retried) in
    ap (send_msg refresh_rate topic_of 0) replied
    ∙ ap (λ b. if b then record s { asked = rest; lost = (r, t.lb) ∷ s.lost } else sent) not_closed
    ∙ same
