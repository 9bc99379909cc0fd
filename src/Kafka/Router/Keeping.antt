-- ===== src/Kafka/Router/Keeping.antt =====
-- The rebuild of the load balancers of topics leaves the messages where they are.
use pynagle.Common.{
  ℕ, ◌≡◌, refl, ◌∙◌, Bool, true, false, Option, none, some, List, [], ◌∷◌, ◌==◌, if◌then◌else◌,
  arith,
}
use pynagle.Common.Int.{ℤ}
use pynagle.Kafka.Cluster.{Broker, Metadata, TopicState, topic_brokers, get_topic}
use pynagle.Kafka.Router.{
  LbCall, Router, is_closed, close_all, Loop, create_lb, replace_topic, rebuild_topic,
  rebuild_topics, swap_bootstrap, end_rebuild, rebuild,
}

-- What the rebuild leaves alone.
pub record Keeps (s t : Router) : Type 0 where
  pub same_refreshing : t.refreshing ≡ s.refreshing
  pub same_opening : t.opening ≡ s.opening
  pub same_asked : t.asked ≡ s.asked
  pub same_answers : t.answers ≡ s.answers
  pub same_lost : t.lost ≡ s.lost
  pub stays_closed : (lb : ℕ) → is_closed lb s.calls ≡ true → is_closed lb t.calls ≡ true

Keeps-refl : (s : Router) → Keeps s s
Keeps-refl s = record {
  same_refreshing = refl;
  same_opening = refl;
  same_asked = refl;
  same_answers = refl;
  same_lost = refl;
  stays_closed = λ lb e. e;
}

Keeps-trans : (s t u : Router) → Keeps s t → Keeps t u → Keeps s u
Keeps-trans s t u h k = record {
  same_refreshing = k.same_refreshing ∙ h.same_refreshing;
  same_opening = k.same_opening ∙ h.same_opening;
  same_asked = k.same_asked ∙ h.same_asked;
  same_answers = k.same_answers ∙ h.same_answers;
  same_lost = k.same_lost ∙ h.same_lost;
  stays_closed = λ lb e. k.stays_closed lb (h.stays_closed lb e);
}

rebuild_topic-Keeps :
    (now requested n : ℕ) (bs : List (ℤ × Broker)) (o : Option TopicState) (l : Loop)
    → Keeps l.router (rebuild_topic now requested n bs o l).router
unfolding rebuild_topic replace_topic create_lb is_closed
rebuild_topic-Keeps now requested n bs none l =
    elim (n == requested)
      as (λ b. Keeps l.router (if b then replace_topic now n bs [] l else l).router) [
        | true ↦ record {
          same_refreshing = refl;
          same_opening = refl;
          same_asked = refl;
          same_answers = refl;
          same_lost = refl;
          stays_closed = λ lb e. e;
        }
        | false ↦ Keeps-refl l.router
      ]
rebuild_topic-Keeps now requested n bs (some t) l = record {
  same_refreshing = ground arith;
  same_opening = ground arith;
  same_asked = ground arith;
  same_answers = ground arith;
  same_lost = ground arith;
  stays_closed = λ lb e. ground (arith, e);
}

rebuild_topics-Keeps :
    (now requested : ℕ) (bs : List (ℤ × Broker)) (topics : List (ℕ × List (ℤ × ℤ))) (l : Loop)
    → Keeps l.router (rebuild_topics now requested bs topics l).1.router
unfolding rebuild_topics
rebuild_topics-Keeps now requested bs [] l = Keeps-refl l.router
rebuild_topics-Keeps now requested bs ((n, partitions) ∷ topics) l =
    elim (topic_brokers bs partitions)
      as (λ o.
        Keeps l.router
          (elim o as (λ _. Bool × Loop) [
            | none ↦ (false, l)
            | some leaders ↦
                rebuild_topics now requested bs topics
                  (rebuild_topic now requested n leaders (get_topic l.router.topics n) l)
          ]).1.router) [
            | none ↦ Keeps-refl l.router
            | some leaders ↦
                let next = rebuild_topic now requested n leaders (get_topic l.router.topics n) l in
                Keeps-trans l.router next.router
                  (rebuild_topics now requested bs topics next).1.router
                  (rebuild_topic-Keeps now requested n leaders (get_topic l.router.topics n) l)
                  (rebuild_topics-Keeps now requested bs topics next)
          ]

close_all-closed :
    (lb : ℕ) (lbs : List ℕ) (calls : List LbCall)
    → is_closed lb calls ≡ true
    → is_closed lb (close_all lbs calls) ≡ true
unfolding close_all is_closed
close_all-closed lb [] calls h = h
close_all-closed lb (x ∷ lbs) calls h =
    close_all-closed lb lbs (LbCall.closes x ∷ calls) (ground (arith, h))

end_rebuild-Keeps : (bs : List (ℤ × Broker)) (l : Loop) → Keeps l.router (end_rebuild bs l)
unfolding end_rebuild swap_bootstrap create_lb is_closed
end_rebuild-Keeps bs l = record {
  same_refreshing = ground arith;
  same_opening = ground arith;
  same_asked = ground arith;
  same_answers = ground arith;
  same_lost = ground arith;
  stays_closed =
      λ lb e. let after = close_all-closed lb l.old_lbs l.router.calls e in ground (arith, after);
}

pub rebuild-Keeps :
    (now : ℕ) (m : Metadata) (requested : ℕ) (s : Router) → Keeps s (rebuild now m requested s).1
unfolding rebuild
rebuild-Keeps now m requested s =
    let start : Loop = record { new_topics = []; old_lbs = []; router = s } in
    let loop = rebuild_topics now requested m.brokers m.topics start in
    let kept = rebuild_topics-Keeps now requested m.brokers m.topics start in
    elim (loop.0)
      as (λ b. Keeps s (
        let x : Bool × Router =
          if b then (true, end_rebuild m.brokers loop.1) else (false, loop.1.router) in
        x.1)) [
          | true ↦
              Keeps-trans s loop.1.router (end_rebuild m.brokers loop.1) kept
                (end_rebuild-Keeps m.brokers loop.1)
          | false ↦ kept
        ]
