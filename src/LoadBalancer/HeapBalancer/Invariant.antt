-- ===== src/LoadBalancer/HeapBalancer/Invariant.antt =====
-- What holds of a balancer between calls, and _AddSink.
use pynagle.Common.{ℕ, ◌≤◌, ◌<◌, ◌≡◌, ◌≢◌, ap, ◌∙◌, arith, none}
use pynagle.LoadBalancer.Heap.{Heap, at}
use pynagle.LoadBalancer.Heap.Swap.{IsIndexed, slots-injective}
use pynagle.LoadBalancer.Heap.Order.{IsHeap, Rearranges}
use pynagle.LoadBalancer.HeapBalancer.{Balancer}

-- Every node on the heap knows its position, `_size` counts the nodes without the one at 0, which
-- alone has no endpoint, and a new node is none of those on the heap.
pub record IsSoundHeap (h : Heap) (size fresh : ℕ) : Type 0 where
  pub indexed : IsIndexed h
  pub sized : h.top ≡ size
  pub known : (c : ℕ) → c ≤ h.top → h.slots c < fresh
  pub unnamed : (at h 0).endpoint ≡ none
  pub named : (c : ℕ) → 0 < c → c ≤ h.top → (at h c).endpoint ≢ none

abbrev pub IsSound : Balancer → Type 0
IsSound b = IsSoundHeap b.heap b.size b.fresh

abbrev pub IsOrdered : Balancer → Type 0
IsOrdered b = IsHeap b.size b.heap

module _ (r size fresh : ℕ) (f h : Heap) (v : IsSoundHeap f size fresh) (m : Rearranges r f h) where
  Rearranges-named : (c : ℕ) → 0 < c → c ≤ h.top → (at h c).endpoint ≢ none
  Rearranges-named c pc hc e =
      let (d, hd, same) = m.placed c hc in
      let nonzero : 0 < d = ground (arith, m.sentinel, slots-injective h c 0 m.indexed hc) in
      v.named d nonzero hd (ground (arith, m.endpoints (h.slots c)))

  -- A rearrangement of a sound heap is sound.
  pub Rearranges-IsSound : IsSoundHeap h size fresh
  Rearranges-IsSound = record {
    indexed = m.indexed;
    sized = m.size ∙ v.sized;
    known = λ c hc. let (d, hd, e) = m.placed c hc in rw (← e) (v.known d hd);
    unnamed = m.endpoints (h.slots 0) ∙ ap (λ n. (f.nodes n).endpoint) m.sentinel ∙ v.unnamed;
    named = Rearranges-named;
  }
