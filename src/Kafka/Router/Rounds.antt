-- ===== src/Kafka/Router/Rounds.antt =====
-- One round of the rebuild: its topic has a load balancer for the brokers of the round, if it was
-- requested, and the other topics are found as before.
use pynagle.Common.{
  ℕ, ◌≡◌, refl, true, false, Option, none, some, List, [], ◌∷◌, ◌++◌, ◌==◌, if◌then◌else◌, arith,
}
use pynagle.Common.Int.{ℤ}
use pynagle.Kafka.Cluster.{Broker, TopicState, same_brokers, get_topic, touch}
use pynagle.Kafka.Router.{LbCall, creates, opens, Loop, create_lb, replace_topic, rebuild_topic}

-- A call stands in a list of calls.
pub data Among (c : LbCall) : List LbCall → Type 0 where
  here : {calls : List LbCall} → Among c (c ∷ calls)
  later : {d : LbCall} {calls : List LbCall} → Among c calls → Among c (d ∷ calls)

-- The load balancer of a topic, if it has one.
abbrev pub lb_of : Option TopicState → Option ℕ
lb_of none = none
lb_of (some t) = some t.lb

-- A topic has a load balancer for these brokers: the one that it had before, which was for the same
-- brokers, or one that was made for them and opened.
pub data HasLb (before : Option ℕ) (n : ℕ) (bs : List (ℤ × Broker)) (topics : List (ℕ × TopicState))
    (calls : List LbCall) : Type 0 where
  kept :
      {t : TopicState}
      → get_topic topics n ≡ some t
      → same_brokers t.brokers bs ≡ true
      → before ≡ some t.lb
      → HasLb before n bs topics calls
  made :
      {t : TopicState}
      → get_topic topics n ≡ some t
      → t.brokers ≡ bs
      → Among (creates t.lb bs) calls
      → Among (opens t.lb) calls
      → HasLb before n bs topics calls

get_topic-append :
    (xs ys : List (ℕ × TopicState)) (n : ℕ)
    → get_topic (xs ++ ys) n ≡ elim (get_topic xs n) as (λ _. Option TopicState) [
      | none ↦ get_topic ys n
      | some t ↦ some t
    ]
unfolding get_topic
get_topic-append [] ys n = refl
get_topic-append ((m, t) ∷ xs) ys n =
    elim (m == n)
      as (λ b.
        (if b then some t else get_topic (xs ++ ys) n)
        ≡ elim (if b then some t else get_topic xs n) as (λ _. Option TopicState) [
          | none ↦ get_topic ys n
          | some u ↦ some u
        ]) [ true ↦ refl | false ↦ get_topic-append xs ys n ]

-- One round: the topic of the round has its load balancer, any other is found as before.
pub rebuild_topic-HasLb :
    (now n : ℕ) (bs : List (ℤ × Broker)) (o : Option TopicState) (l : Loop)
    → get_topic l.new_topics n ≡ none
    → let m = rebuild_topic now n n bs o l in HasLb (lb_of o) n bs m.new_topics m.router.calls
unfolding rebuild_topic replace_topic get_topic create_lb
rebuild_topic-HasLb now n bs none l e =
    let fresh : TopicState = record { lb = l.router.fresh; brokers = bs; last_refreshed = now } in
    let added = get_topic-append l.new_topics ((n, fresh) ∷ []) n in
    elim (n == n)
        as (λ b.
          (n == n) ≡ b
          → let m : Loop = if b then replace_topic now n bs [] l else l in
            HasLb none n bs m.new_topics m.router.calls) [
              | true ↦
                  λ same. made {t = fresh} (ground (arith, added, e, same)) refl (later here) here
              | false ↦ λ other. absurd (ground (arith, other))
            ]
      refl
rebuild_topic-HasLb now n bs (some t) l e =
    let fresh : TopicState = record { lb = l.router.fresh; brokers = bs; last_refreshed = now } in
    let touched : TopicState = record t { last_refreshed = now } in
    let added = get_topic-append l.new_topics ((n, fresh) ∷ []) n in
    let stays = get_topic-append l.new_topics ((n, touched) ∷ []) n in
    let again : Loop = record l {
      new_topics = l.new_topics ++ (n, touched) ∷ [];
      router = record l.router { topics = touch n now l.router.topics };
    } in
    let replaced = replace_topic now n bs (t.lb ∷ []) l in
    elim (same_brokers t.brokers bs)
        as (λ b.
          same_brokers t.brokers bs ≡ b
          → let m : Loop =
              if b
              then again
              else (if n == n
                  then replaced
                  else record l { new_topics = l.new_topics ++ (n, t) ∷ [] }) in
            HasLb (some t.lb) n bs m.new_topics m.router.calls) [
              | true ↦ λ same. kept {t = touched} (ground (arith, stays, e)) same refl
              | false ↦ λ other.
                  elim (n == n)
                      as (λ b.
                        (n == n) ≡ b
                        → let m : Loop =
                            if b
                            then replaced
                            else record l { new_topics = l.new_topics ++ (n, t) ∷ [] } in
                          HasLb (some t.lb) n bs m.new_topics m.router.calls) [
                            | true ↦ λ same.
                                made {t = fresh} (ground (arith, added, e, same)) refl (later here)
                                  here
                            | false ↦ λ never. absurd (ground (arith, never))
                          ]
                    refl
            ]
      refl

-- A round of another topic leaves the load balancer of a topic, and every call.
touch-lb_of :
    (m now n : ℕ) (topics : List (ℕ × TopicState))
    → lb_of (get_topic (touch m now topics) n) ≡ lb_of (get_topic topics n)
unfolding touch get_topic
touch-lb_of m now n [] = refl
touch-lb_of m now n ((k, t) ∷ topics) = ground (arith, touch-lb_of m now n topics)

pub rebuild_topic-lb_of :
    (now requested m n : ℕ) (bs : List (ℤ × Broker)) (o : Option TopicState) (l : Loop)
    → lb_of (get_topic (rebuild_topic now requested m bs o l).router.topics n)
      ≡ lb_of (get_topic l.router.topics n)
unfolding rebuild_topic replace_topic create_lb
rebuild_topic-lb_of now requested m n bs none l = ground arith
rebuild_topic-lb_of now requested m n bs (some t) l =
    ground (arith, touch-lb_of m now n l.router.topics)

pub rebuild_topic-Among :
    (now requested m : ℕ) (bs : List (ℤ × Broker)) (o : Option TopicState) (l : Loop) (c : LbCall)
    → Among c l.router.calls
    → Among c (rebuild_topic now requested m bs o l).router.calls
unfolding rebuild_topic replace_topic create_lb
rebuild_topic-Among now requested m bs none l c h =
    elim (m == requested)
      as (λ b. Among c (if b then replace_topic now m bs [] l else l).router.calls) [
        | true ↦ later (later h)
        | false ↦ h
      ]
rebuild_topic-Among now requested m bs (some t) l c h =
    elim (same_brokers t.brokers bs)
      as (λ b.
        Among c
          (if b
            then record l {
              new_topics = l.new_topics ++ (m, record t { last_refreshed = now }) ∷ [];
              router = record l.router { topics = touch m now l.router.topics };
            }
            else (if m == requested
                then replace_topic now m bs (t.lb ∷ []) l
                else record l { new_topics = l.new_topics ++ (m, t) ∷ [] })).router.calls) [
                  | true ↦ h
                  | false ↦
                      elim (m == requested)
                        as (λ b.
                          Among c
                            (if b then replace_topic now m bs (t.lb ∷ []) l else record l {
                              new_topics = l.new_topics ++ (m, t) ∷ [];
                            }).router.calls) [ true ↦ later (later h) | false ↦ h ]
                ]

pub rebuild_topic-finds :
    (now requested m n : ℕ) (bs : List (ℤ × Broker)) (o : Option TopicState) (l : Loop)
    → (m == n) ≡ false
    → get_topic (rebuild_topic now requested m bs o l).new_topics n ≡ get_topic l.new_topics n
unfolding rebuild_topic replace_topic get_topic create_lb
rebuild_topic-finds now requested m n bs none l h =
    let t : TopicState = record { lb = l.router.fresh; brokers = bs; last_refreshed = now } in
    let added = get_topic-append l.new_topics ((m, t) ∷ []) n in ground (arith, added, h)
rebuild_topic-finds now requested m n bs (some t) l h =
    let fresh : TopicState = record { lb = l.router.fresh; brokers = bs; last_refreshed = now } in
    let added = get_topic-append l.new_topics ((m, fresh) ∷ []) n in
    let touched = get_topic-append l.new_topics ((m, record t { last_refreshed = now }) ∷ []) n in
    let kept = get_topic-append l.new_topics ((m, t) ∷ []) n in
    ground (arith, added, touched, kept, h)

pub rebuild_topic-keeps :
    (now requested m n : ℕ) (bs : List (ℤ × Broker)) (o : Option TopicState) (l : Loop)
    (t : TopicState)
    → get_topic l.new_topics n ≡ some t
    → get_topic (rebuild_topic now requested m bs o l).new_topics n ≡ some t
unfolding rebuild_topic replace_topic get_topic create_lb
rebuild_topic-keeps now requested m n bs none l t h =
    let fresh : TopicState = record { lb = l.router.fresh; brokers = bs; last_refreshed = now } in
    let added = get_topic-append l.new_topics ((m, fresh) ∷ []) n in ground (arith, added, h)
rebuild_topic-keeps now requested m n bs (some u) l t h =
    let fresh : TopicState = record { lb = l.router.fresh; brokers = bs; last_refreshed = now } in
    let added = get_topic-append l.new_topics ((m, fresh) ∷ []) n in
    let touched = get_topic-append l.new_topics ((m, record u { last_refreshed = now }) ∷ []) n in
    let kept = get_topic-append l.new_topics ((m, u) ∷ []) n in
    ground (arith, added, touched, kept, h)
