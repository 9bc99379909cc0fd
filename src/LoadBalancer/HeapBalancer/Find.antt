-- ===== src/LoadBalancer/HeapBalancer/Find.antt =====
-- _FindNodeByEndpoint, and _RemoveSink by endpoint.
use pynagle.Common.{
  ℕ, zero, suc, ◌+◌, ◌≤◌, ◌<◌, ◌≡◌, refl, ◌⊎◌, inl, inr, true, false, arith, ◌||◌, ◌==◌, Bool-cases,
  Bool, Returns, returns, Returns-bind, Returns-test, Option, none, some,
}
use pynagle.Common.Int.{pos, is_negative}
use pynagle.LoadBalancer.Heap.{Heap, at}
use pynagle.LoadBalancer.HeapBalancer.{Balancer, find_node, remove_sink}
use native.Mathlib.Decide.{ℕ_discrete}
use pynagle.LoadBalancer.HeapBalancer.{find_from, endpoint_is}
use pynagle.LoadBalancer.HeapBalancer.Invariant.{IsSound}
use pynagle.LoadBalancer.HeapBalancer.Remove.{Removed, remove_at-Removed}

abbrev Serves : Heap → ℕ → ℕ → Type 0
Serves h e i = (at h i).endpoint ≡ some e

endpoint_is→some : (e : ℕ) (o : Option ℕ) → endpoint_is e o ≡ true → o ≡ some e
unfolding endpoint_is
endpoint_is→some e none h = cc
endpoint_is→some e (some x) h = ground arith

some→endpoint_is : (e : ℕ) (o : Option ℕ) → o ≡ some e → endpoint_is e o ≡ true
unfolding endpoint_is
some→endpoint_is e none h = cc
some→endpoint_is e (some x) h = ground arith

-- The search finds the first node with the endpoint, or there is none.
abbrev Search : Heap → ℕ → ℕ → ℕ → ℕ → Type 0
Search h e i rounds r =
    ((r ≡ 0) × ((j : ℕ) → i ≤ j → j < i + rounds → ¬ Serves h e j))
    ⊎ ((i ≤ r) × (r < i + rounds) × Serves h e r × ((j : ℕ) → i ≤ j → j < r → ¬ Serves h e j))

find_from-Search : (rounds : ℕ) (h : Heap) (e i : ℕ) → Search h e i rounds (find_from rounds h e i)
unfolding find_from
find_from-Search zero h e i = inl (refl, λ j p q. absurd (omega arith))
find_from-Search (suc k) h e i = elim (Bool-cases (endpoint_is e (at h i).endpoint)) [
  | inl hit ↦
      rw hit
        (inr (omega arith, omega arith, endpoint_is→some e _ hit, λ j p q. absurd (omega arith)))
  | inr miss ↦
      let here : ¬ Serves h e i = λ s. cc (some→endpoint_is e _ s) in
      rw miss (elim (find_from-Search k h e (suc i)) [
        | inl (z, rest) ↦ inl (
          z,
          λ j p q s. elim (ℕ_discrete i j) [
            | yes same ↦ here (rw same s)
            | no other ↦ rest j (omega arith) (omega arith) s
          ],
        )
        | inr (lo, hi, s, rest) ↦ inr (
          omega arith,
          omega arith,
          s,
          λ j p q s'. elim (ℕ_discrete i j) [
            | yes same ↦ here (rw same s')
            | no other ↦ rest j (omega arith) (omega arith) s'
          ],
        )
      ])
]

-- How _RemoveSink ends: nothing serves the endpoint, or the first node that does is removed.
pub data RemoveSink (b : Balancer) (e : ℕ) : Bool × Balancer → Type 0 where
  unknown : ((i : ℕ) → i ≤ b.size → ¬ Serves b.heap e i) → RemoveSink b e (false, b)
  removed :
      {c : Balancer} (i : ℕ)
      → 0 < i
      → i ≤ b.size
      → Serves b.heap e i
      → ((j : ℕ) → j < i → ¬ Serves b.heap e j)
      → Removed b i c
      → RemoveSink b e (true, c)

-- The sentinel at position 0 serves no endpoint.
positive : (b : Balancer) (e r : ℕ) → IsSound b → Serves b.heap e r → 0 < r
positive b e zero v s = cc v.unnamed
positive b e (suc r) v s = omega arith

find_node-cases :
    (b : Balancer) (e : ℕ)
    → IsSound b
    → ((find_node b.heap e ≡ 0) × ((i : ℕ) → i ≤ b.size → ¬ Serves b.heap e i))
      ⊎ ((i : ℕ) × (find_node b.heap e ≡ i)
          × (0 < i)
          × (i ≤ b.size)
          × Serves b.heap e i
          × ((j : ℕ) → j < i → ¬ Serves b.heap e j))
unfolding find_node
find_node-cases b e v = elim (find_from-Search (suc b.heap.top) b.heap e 0) [
  | inl (z, rest) ↦ inl (z, λ i hi. rest i (omega arith) (omega (arith, v.sized)))
  | inr (lo, hi, s, rest) ↦
      inr (_, refl, positive b e _ v s, omega (arith, v.sized), s, λ j q. rest j (omega arith) q)
]

-- _RemoveSink ends without an exception. It answers False and changes nothing if no node serves
-- the endpoint; otherwise it answers True and removes the first node that does.
pub remove_sink-RemoveSink :
    (b : Balancer) (e : ℕ) → IsSound b → Returns (RemoveSink b e) (remove_sink b e)
unfolding remove_sink
remove_sink-RemoveSink b e v = elim (find_node-cases b e v) [
  | inl (z, rest) ↦ rw z (returns (unknown rest))
  | inr (i, found, p, hi, s, first) ↦
      rw (found, v.indexed i (omega (arith, v.sized)))
        (Returns-test ((i == 0) || is_negative (pos i)) (λ bad. absurd (ground arith))
          λ good.
            Returns-bind (remove_at-Removed b i v p hi) λ c m. returns (removed i p hi s first m))
]
