-- ===== src/Kafka/Router/Requests.antt =====
-- The requests and the responses of KafkaRouterSink, scales/kafka/sink.py, and its greenlets. The
-- greenlet that goes on is the one of the message at a position, since their order is not fixed.
use pynagle.Common.{
  ℕ, zero, suc, ◌-◌, Bool, true, false, not, ◌&&◌, ◌||◌, Option, none, some, List, [], ◌∷◌, ltb,
  if◌then◌else◌, contains,
}
use pynagle.Common.Int.{ℤ, pos, eqb_ℤ}
use pynagle.Kafka.Cluster.{TopicState, get_topic}
use pynagle.Kafka.Router.{
  Fetch, fetched, fetch_failed, opens, Answer, passed_on, invalid_response, no_broker,
  refresh_error, key_error, kafka_error, Router, is_closed, rebuild,
}

-- The entry at a position, and the others.
unfoldable pub pick {ℓ} : {A : Type ℓ} → ℕ → List A → Option (A × List A)
pick i [] = none
pick zero (x ∷ xs) = some (x, xs)
pick {A = A} (suc i) (x ∷ xs) = elim (pick i xs) as (λ _. Option (A × List A)) [
  | none ↦ none
  | some (y, rest) ↦ some (y, x ∷ rest)
]

-- ReloadMetadataCodes
unfoldable pub is_reload : ℤ → Bool
is_reload code = eqb_ℤ code (pos 3) || (eqb_ℤ code (pos 6) || eqb_ℤ code (pos 8))

unfoldable pub answer : ℕ → Answer → Router → Router
answer r a s = record s { answers = (r, a) ∷ s.answers }

-- _AsyncProcessRequestToTopic, up to the greenlet that the open of the load balancer starts.
unfoldable pub to_topic : ℕ → ℕ → TopicState → Router → Router
to_topic r topic t s = record s { opening = (r, (topic, t.lb)) ∷ s.opening }

-- _RefreshMetadataAsync: the refresh under way, or a new one.
unfoldable pub refresh_metadata : Option ℕ → Router → ℕ × Router
refresh_metadata (some k) s = (k, s)
refresh_metadata none s = (
  s.refreshes,
  record s {
    refresh = some s.refreshes;
    refreshes = suc s.refreshes;
    calls = opens s.bootstrap_lb ∷ s.calls;
  },
)

unfoldable pub wait_refresh : ℕ → ℕ → Router → Router
unfolding refresh_metadata
wait_refresh topic r s =
    let (k, t) = refresh_metadata s.refresh s in
    record t { refreshing = (r, (topic, k)) ∷ t.refreshing }

module _ (refresh_rate : ℕ) (topic_of : ℕ → ℕ) where
  -- _RefreshBrokersAndRetry, up to the end of the refresh.
  unfoldable pub refresh_and_retry : ℕ → ℕ → ℕ → Option TopicState → Router → Router
  unfolding to_topic wait_refresh
  refresh_and_retry now topic r none s = wait_refresh topic r s
  refresh_and_retry now topic r (some t) s =
      if ltb (now - t.last_refreshed) refresh_rate
      then to_topic r topic t s
      else wait_refresh topic r s

  -- AsyncProcessRequest
  unfoldable pub process_request_of : ℕ → ℕ → Option TopicState → Router → Router
  unfolding to_topic refresh_and_retry
  process_request_of now r none s = refresh_and_retry now (topic_of r) r none s
  process_request_of now r (some t) s = to_topic r (topic_of r) t s

  unfoldable pub process_request : ℕ → ℕ → Router → Router
  unfolding process_request_of get_topic
  process_request now r s = process_request_of now r (get_topic s.topics (topic_of r)) s

  -- The retry of _on_refresh_complete.
  unfoldable pub retry : ℕ → Option TopicState → Router → Router
  unfolding answer to_topic
  retry r none s = answer r no_broker s
  retry r (some t) s = to_topic r (topic_of r) t s

  unfoldable pub retry_rebuilt : ℕ → Bool × Router → Router
  unfolding retry answer get_topic
  retry_rebuilt r (true, s) = retry r (get_topic s.topics (topic_of r)) s
  retry_rebuilt r (false, s) = answer r key_error s

  unfoldable pub complete_refresh : ℕ → ℕ → ℕ → Fetch → Router → Router
  unfolding answer rebuild retry_rebuilt
  complete_refresh now topic r fetch_failed s = answer r refresh_error (record s { refresh = none })
  complete_refresh now topic r (fetched m) s =
      retry_rebuilt r (rebuild now m topic (record s { refresh = none }))

  -- _on_refresh_complete, in the greenlet of the message at the position `i`.
  unfoldable pub on_refresh_complete : ℕ → (ℕ → Fetch) → ℕ → Router → Router
  unfolding complete_refresh
  on_refresh_complete now fetch i s = elim (pick i s.refreshing) as (λ _. Router) [
    | none ↦ s
    | some ((r, (topic, k)), rest) ↦
        complete_refresh now topic r (fetch k) (record s { refreshing = rest })
  ]

  -- _send_msg, in the greenlet of the message at the position `i`. A load balancer that a rebuild has
  -- closed has no open result: its AsyncProcessRequest raises, and ContinueWith keeps the exception.
  unfoldable pub send_msg : ℕ → Router → Router
  unfolding is_closed
  send_msg i s = elim (pick i s.opening) as (λ _. Router) [
    | none ↦ s
    | some ((r, (topic, lb)), rest) ↦
        if is_closed lb s.calls
        then record s { opening = rest; lost = (r, lb) ∷ s.lost }
        else record s { opening = rest; asked = (r, topic) ∷ s.asked }
  ]

  -- AsyncProcessResponse for a message: error codes of its return value, or an exception.
  unfoldable pub process_error_code : ℕ → ℕ → ℕ → ℤ → Router → Router
  unfolding answer refresh_and_retry get_topic is_reload
  process_error_code now topic r code s =
      if eqb_ℤ code (pos 0)
      then answer r passed_on s
      else (if is_reload code && not (contains s.retried r)
          then (let t = record s { retried = r ∷ s.retried } in
              refresh_and_retry now topic r (get_topic t.topics topic) t)
          else answer r (kafka_error code) s)

  unfoldable pub process_reply : ℕ → ℕ → ℕ → List ℤ → Router → Router
  unfolding process_error_code refresh_and_retry get_topic answer
  process_reply now topic r [] s = refresh_and_retry now topic r (get_topic s.topics topic) s
  process_reply now topic r (code ∷ []) s = process_error_code now topic r code s
  process_reply now topic r (code ∷ c ∷ codes) s = answer r invalid_response s

  unfoldable pub process_response : ℕ → List ℤ → ℕ → Router → Router
  unfolding process_reply
  process_response now codes i s = elim (pick i s.asked) as (λ _. Router) [
    | none ↦ s
    | some ((r, topic), rest) ↦ process_reply now topic r codes (record s { asked = rest })
  ]
