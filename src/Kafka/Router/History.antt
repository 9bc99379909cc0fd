-- ===== src/Kafka/Router/History.antt =====
-- The histories of a router: each message that the router was given is in one place: with a greenlet that waits, with a load
-- balancer, or answered.
use pynagle.Common.{
  ℕ, ◌+◌, ◌≡◌, refl, ap, ◌∙◌, Bool, true, ◌&&◌, none, some, List, [], ◌∷◌, ◌==◌, if◌then◌else◌, occ,
  arith,
}
use pynagle.Common.Int.{ℤ}
use pynagle.Kafka.Router.{Fetch, LbCall, Router, is_closed, init}
use pynagle.Kafka.Router.Requests.{
  pick, process_request, complete_refresh, on_refresh_complete, send_msg, process_reply,
  process_response,
}
use pynagle.Kafka.Router.Conservation.{
  occ_of, places, picked, process_request-Adds, complete_refresh-Adds, process_reply-Adds,
}

-- The states that a router reaches, with the messages that it was given, when the metadata of the
-- refreshes are `fetch`. Its greenlets go on in any order.
pub data Reachable (refresh_rate : ℕ) (topic_of : ℕ → ℕ) (fetch : ℕ → Fetch)
    : List ℕ → Router → Type 0 where
  created : (servers : List (ℕ × ℕ)) → Reachable refresh_rate topic_of fetch [] (init servers)
  requests :
      {given : List ℕ} {s : Router} (now r : ℕ)
      → Reachable refresh_rate topic_of fetch given s
      → Reachable refresh_rate topic_of fetch
          (r ∷ given)
          (process_request refresh_rate topic_of now r s)
  refreshes :
      {given : List ℕ} {s : Router} (now i : ℕ)
      → Reachable refresh_rate topic_of fetch given s
      → Reachable refresh_rate topic_of fetch given
          (on_refresh_complete refresh_rate topic_of now fetch i s)
  sends :
      {given : List ℕ} {s : Router} (i : ℕ)
      → Reachable refresh_rate topic_of fetch given s
      → Reachable refresh_rate topic_of fetch given (send_msg refresh_rate topic_of i s)
  responds :
      {given : List ℕ} {s : Router} (now : ℕ) (codes : List ℤ) (i : ℕ)
      → Reachable refresh_rate topic_of fetch given s
      → Reachable refresh_rate topic_of fetch given
          (process_response refresh_rate topic_of now codes i s)

module _ (refresh_rate : ℕ) (topic_of : ℕ → ℕ) where
  on_refresh_complete-places :
      (now : ℕ) (fetch : ℕ → Fetch) (i : ℕ) (s : Router) (k : ℕ)
      → places k (on_refresh_complete refresh_rate topic_of now fetch i s) ≡ places k s
  unfolding on_refresh_complete places
  on_refresh_complete-places now fetch i s k =
      elim (pick i s.refreshing)
          as (λ o.
            pick i s.refreshing ≡ o
            → places k (elim o as (λ _. Router) [
              | none ↦ s
              | some ((r, (topic, n)), rest) ↦
                  complete_refresh refresh_rate topic_of now topic r (fetch n)
                    (record s { refreshing = rest })
            ])
              ≡ places k s) [
                | none ↦ λ e. refl
                | some ((r, (topic, n)), rest) ↦ λ e.
                    let was = picked k i s.refreshing (r, (topic, n)) rest e in
                    let t : Router = record s { refreshing = rest } in
                    let now_is =
                      complete_refresh-Adds refresh_rate topic_of now topic r (fetch n) t in
                    let now_k = now_is.counted k in omega (arith, was, now_k)
              ]
        refl

  send_msg-places :
      (i : ℕ) (s : Router) (k : ℕ) → places k (send_msg refresh_rate topic_of i s) ≡ places k s
  unfolding send_msg places occ_of
  send_msg-places i s k =
      elim (pick i s.opening)
          as (λ o.
            pick i s.opening ≡ o
            → places k (elim o as (λ _. Router) [
              | none ↦ s
              | some ((r, (topic, lb)), rest) ↦
                  if is_closed lb s.calls
                  then record s { opening = rest; lost = (r, lb) ∷ s.lost }
                  else record s { opening = rest; asked = (r, topic) ∷ s.asked }
            ])
              ≡ places k s) [
                | none ↦ λ e. refl
                | some ((r, (topic, lb)), rest) ↦ λ e.
                    let was = picked k i s.opening (r, (topic, lb)) rest e in ground (arith, was)
              ]
        refl

  process_response-places :
      (now : ℕ) (codes : List ℤ) (i : ℕ) (s : Router) (k : ℕ)
      → places k (process_response refresh_rate topic_of now codes i s) ≡ places k s
  unfolding process_response places
  process_response-places now codes i s k =
      elim (pick i s.asked)
          as (λ o.
            pick i s.asked ≡ o
            → places k (elim o as (λ _. Router) [
              | none ↦ s
              | some ((r, topic), rest) ↦
                  process_reply refresh_rate topic_of now topic r codes (record s { asked = rest })
            ])
              ≡ places k s) [
                | none ↦ λ e. refl
                | some ((r, topic), rest) ↦ λ e.
                    let was = picked k i s.asked (r, topic) rest e in
                    let t : Router = record s { asked = rest } in
                    let now_is = process_reply-Adds refresh_rate topic_of now topic r codes t in
                    let now_k = now_is.counted k in omega (arith, was, now_k)
              ]
        refl

none_placed : (servers : List (ℕ × ℕ)) (k : ℕ) → places k (init servers) ≡ 0
unfolding places occ_of init
none_placed servers k = refl

request_adds :
    (refresh_rate : ℕ) (topic_of : ℕ → ℕ) (now r : ℕ) (s : Router) (k : ℕ)
    → places k (process_request refresh_rate topic_of now r s)
      ≡ (if r == k then 1 else 0) + places k s
request_adds refresh_rate topic_of now r s k =
    (process_request-Adds refresh_rate topic_of now r s).counted k

counted :
    (refresh_rate : ℕ) (topic_of : ℕ → ℕ) (fetch : ℕ → Fetch) (given : List ℕ) (s : Router)
    → Reachable refresh_rate topic_of fetch given s
    → (k : ℕ) → places k s ≡ occ k given
counted refresh_rate topic_of fetch given s (created servers) k = none_placed servers k
counted refresh_rate topic_of fetch given s (requests {given = g} {s = t} now r h) k =
    let before = counted refresh_rate topic_of fetch g t h k in
    request_adds refresh_rate topic_of now r t k ∙ ap (λ n. (if r == k then 1 else 0) + n) before
counted refresh_rate topic_of fetch given s (refreshes {s = t} now i h) k =
    on_refresh_complete-places refresh_rate topic_of now fetch i t k
    ∙ counted refresh_rate topic_of fetch given t h k
counted refresh_rate topic_of fetch given s (sends {s = t} i h) k =
    send_msg-places refresh_rate topic_of i t k ∙ counted refresh_rate topic_of fetch given t h k
counted refresh_rate topic_of fetch given s (responds {s = t} now codes i h) k =
    process_response-places refresh_rate topic_of now codes i t k
    ∙ counted refresh_rate topic_of fetch given t h k

-- Each lost message was given to a load balancer that was closed.
unfoldable pub all_closed : List LbCall → List (ℕ × ℕ) → Bool
all_closed calls [] = true
all_closed calls ((r, lb) ∷ lost) = is_closed lb calls && all_closed calls lost
