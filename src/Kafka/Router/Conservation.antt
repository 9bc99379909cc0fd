-- ===== src/Kafka/Router/Conservation.antt =====
-- Each message that the router was given is in one place: with a greenlet that waits, with a load
-- balancer, lost, or answered.
use pynagle.Common.{
  ℕ, zero, suc, ◌+◌, ◌-◌, ◌≡◌, refl, ap, sym, ◌∙◌, subst, Bool, true, false, not, ◌&&◌, Option,
  none, some, List, [], ◌∷◌, ltb, ◌==◌, if◌then◌else◌, contains, arith,
}
use pynagle.Common.Int.{ℤ, pos, eqb_ℤ}
use pynagle.Kafka.Cluster.{TopicState, get_topic}
use pynagle.Kafka.Router.{
  Fetch, fetched, fetch_failed, Answer, passed_on, invalid_response, no_broker, refresh_error,
  key_error, kafka_error, Router, is_closed, rebuild,
}
use pynagle.Kafka.Router.Requests.{
  pick, is_reload, answer, to_topic, refresh_metadata, wait_refresh, refresh_and_retry,
  process_request_of, process_request, retry, retry_rebuilt, complete_refresh, process_error_code,
  process_reply,
}
use pynagle.Kafka.Router.Keeping.{Keeps, rebuild-Keeps}

-- How often a message stands in a list.
unfoldable pub occ_of {ℓ} : {A : Type ℓ} → ℕ → List (ℕ × A) → ℕ
occ_of k [] = 0
occ_of k ((r, a) ∷ xs) = (if r == k then 1 else 0) + occ_of k xs

unfoldable pub places : ℕ → Router → ℕ
unfolding occ_of
places k s =
    occ_of k s.refreshing
    + occ_of k s.opening
    + occ_of k s.asked
    + occ_of k s.lost
    + occ_of k s.answers

pub picked {ℓ} :
    {A : Type ℓ} (k i : ℕ) (xs : List (ℕ × A)) (x : ℕ × A) (rest : List (ℕ × A))
    → pick i xs ≡ some (x, rest)
    → occ_of k xs ≡ (if x.0 == k then 1 else 0) + occ_of k rest
unfolding pick occ_of
picked k i [] x rest e = absurd (ground arith)
picked k zero (y ∷ xs) x rest e = ground arith
picked {A = A} k (suc i) (y ∷ xs) x rest e =
    elim (pick i xs)
        as (λ o.
          pick i xs ≡ o
          → (elim o as (λ _. Option ((ℕ × A) × List (ℕ × A))) [
            | none ↦ none
            | some (z, others) ↦ some (z, y ∷ others)
          ])
            ≡ some (x, rest)
          → occ_of k (y ∷ xs) ≡ (if x.0 == k then 1 else 0) + occ_of k rest) [
            | none ↦ λ p q. absurd (ground arith)
            | some (z, others) ↦ λ p q.
                let h = picked k i xs z others p in
                let same_first : z ≡ x = ground arith in
                let same_rest : y ∷ others ≡ rest = ground arith in
                let here : occ_of k (y ∷ xs) ≡ (if z.0 == k then 1 else 0) + occ_of k (y ∷ others) =
                  omega (arith, h) in
                subst (λ x. occ_of k (y ∷ xs) ≡ (if x.0 == k then 1 else 0) + occ_of k rest)
                  same_first
                  (subst (λ rest. occ_of k (y ∷ xs) ≡ (if z.0 == k then 1 else 0) + occ_of k rest)
                    same_rest here)
          ]
      refl e

-- The message `r` comes to one more place, and no other does; none is lost, and what was closed stays so.
pub record Adds (r : ℕ) (s t : Router) : Type 0 where
  pub counted : (k : ℕ) → places k t ≡ (if r == k then 1 else 0) + places k s
  pub same_lost : t.lost ≡ s.lost
  pub stays_closed : (lb : ℕ) → is_closed lb s.calls ≡ true → is_closed lb t.calls ≡ true

Keeps-Adds : (r : ℕ) (s t u : Router) → Keeps s t → Adds r t u → Adds r s u
unfolding places
Keeps-Adds r s t u h a = record {
  counted = λ k.
      let ak = a.counted k in
      let e1 = ap (occ_of k) h.same_refreshing in
      let e2 = ap (occ_of k) h.same_opening in
      let e3 = ap (occ_of k) h.same_asked in
      let e4 = ap (occ_of k) h.same_answers in
      let e5 = ap (occ_of k) h.same_lost in omega (arith, ak, e1, e2, e3, e4, e5);
  same_lost = a.same_lost ∙ h.same_lost;
  stays_closed = λ lb e. a.stays_closed lb (h.stays_closed lb e);
}

answer-Adds : (r : ℕ) (a : Answer) (s : Router) → Adds r s (answer r a s)
unfolding places occ_of answer
answer-Adds r a s = record {
  counted = λ k. omega arith;
  same_lost = refl;
  stays_closed = λ lb e. e;
}

to_topic-Adds : (r topic : ℕ) (t : TopicState) (s : Router) → Adds r s (to_topic r topic t s)
unfolding places occ_of to_topic
to_topic-Adds r topic t s = record {
  counted = λ k. omega arith;
  same_lost = refl;
  stays_closed = λ lb e. e;
}

wait_refresh-Adds : (topic r : ℕ) (s : Router) → Adds r s (wait_refresh topic r s)
unfolding places occ_of wait_refresh refresh_metadata is_closed
wait_refresh-Adds topic r s =
    elim s.refresh
      as (λ o.
        let (n, t) = refresh_metadata o s in
        Adds r s (record t { refreshing = (r, (topic, n)) ∷ t.refreshing })) [
          | none ↦ record { counted = λ k. omega arith; same_lost = refl; stays_closed = λ lb e. e }
          | some n ↦ record {
            counted = λ k. omega arith;
            same_lost = refl;
            stays_closed = λ lb e. e;
          }
        ]

-- Fields that no place depends on.
restated :
    (r : ℕ) (s t u : Router)
    → ((k : ℕ) → places k s ≡ places k t)
    → s.lost ≡ t.lost
    → s.calls ≡ t.calls
    → Adds r t u
    → Adds r s u
restated r s t u same lost calls a = record {
  counted = λ k. omega (arith, a.counted k, same k);
  same_lost = a.same_lost ∙ sym lost;
  stays_closed = λ lb e. a.stays_closed lb (subst (λ c. is_closed lb c ≡ true) calls e);
}

module _ (refresh_rate : ℕ) (topic_of : ℕ → ℕ) where
  refresh_and_retry-Adds :
      (now topic r : ℕ) (o : Option TopicState) (s : Router)
      → Adds r s (refresh_and_retry refresh_rate topic_of now topic r o s)
  unfolding refresh_and_retry
  refresh_and_retry-Adds now topic r none s = wait_refresh-Adds topic r s
  refresh_and_retry-Adds now topic r (some t) s =
      elim (ltb (now - t.last_refreshed) refresh_rate)
        as (λ b. Adds r s (if b then to_topic r topic t s else wait_refresh topic r s)) [
          | true ↦ to_topic-Adds r topic t s
          | false ↦ wait_refresh-Adds topic r s
        ]

  pub process_request-Adds :
      (now r : ℕ) (s : Router) → Adds r s (process_request refresh_rate topic_of now r s)
  unfolding process_request process_request_of
  process_request-Adds now r s =
      elim (get_topic s.topics (topic_of r))
        as (λ o. Adds r s (process_request_of refresh_rate topic_of now r o s)) [
          | none ↦ refresh_and_retry-Adds now (topic_of r) r none s
          | some t ↦ to_topic-Adds r (topic_of r) t s
        ]

  retry-Adds :
      (r : ℕ) (o : Option TopicState) (s : Router) → Adds r s (retry refresh_rate topic_of r o s)
  unfolding retry
  retry-Adds r none s = answer-Adds r no_broker s
  retry-Adds r (some t) s = to_topic-Adds r (topic_of r) t s

  retry_rebuilt-Adds :
      (r : ℕ) (x : Bool × Router) → Adds r x.1 (retry_rebuilt refresh_rate topic_of r x)
  unfolding retry_rebuilt
  retry_rebuilt-Adds r (true, s) = retry-Adds r (get_topic s.topics (topic_of r)) s
  retry_rebuilt-Adds r (false, s) = answer-Adds r key_error s

  pub complete_refresh-Adds :
      (now topic r : ℕ) (f : Fetch) (s : Router)
      → Adds r s (complete_refresh refresh_rate topic_of now topic r f s)
  unfolding complete_refresh places
  complete_refresh-Adds now topic r fetch_failed s =
      let t : Router = record s { refresh = none } in
      restated r s t (answer r refresh_error t) (λ k. refl) refl refl
        (answer-Adds r refresh_error t)
  complete_refresh-Adds now topic r (fetched m) s =
      let rebuilt = rebuild now m topic (record s { refresh = none }) in
      let last = retry_rebuilt refresh_rate topic_of r rebuilt in
      restated r s (record s { refresh = none }) last (λ k. refl) refl refl
        (Keeps-Adds r (record s { refresh = none }) rebuilt.1 last
          (rebuild-Keeps now m topic (record s { refresh = none })) (retry_rebuilt-Adds r rebuilt))

  process_error_code-Adds :
      (now topic r : ℕ) (code : ℤ) (s : Router)
      → Adds r s (process_error_code refresh_rate topic_of now topic r code s)
  unfolding process_error_code places
  process_error_code-Adds now topic r code s =
      let t : Router = record s { retried = r ∷ s.retried } in
      let again =
        refresh_and_retry refresh_rate topic_of now topic r (get_topic t.topics topic) t in
      elim (eqb_ℤ code (pos 0))
        as (λ b. Adds r s (
          if b
          then answer r passed_on s
          else (if is_reload code && not (contains s.retried r)
              then again
              else answer r (kafka_error code) s))) [
                | true ↦ answer-Adds r passed_on s
                | false ↦
                    elim (is_reload code && not (contains s.retried r))
                      as (λ b. Adds r s (if b then again else answer r (kafka_error code) s)) [
                        | true ↦
                            restated r s t again (λ k. refl) refl refl
                              (refresh_and_retry-Adds now topic r (get_topic t.topics topic) t)
                        | false ↦ answer-Adds r (kafka_error code) s
                      ]
              ]

  pub process_reply-Adds :
      (now topic r : ℕ) (codes : List ℤ) (s : Router)
      → Adds r s (process_reply refresh_rate topic_of now topic r codes s)
  unfolding process_reply
  process_reply-Adds now topic r [] s =
      refresh_and_retry-Adds now topic r (get_topic s.topics topic) s
  process_reply-Adds now topic r (code ∷ []) s = process_error_code-Adds now topic r code s
  process_reply-Adds now topic r (code ∷ c ∷ codes) s = answer-Adds r invalid_response s
