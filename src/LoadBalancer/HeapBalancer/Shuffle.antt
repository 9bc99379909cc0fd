-- ===== src/LoadBalancer/HeapBalancer/Shuffle.antt =====
-- A load that changes, and the swaps and the fixes of __Put for a node that became idle.
use pynagle.Common.{
  ℕ, ◌-◌, ◌/◌, ◌≤◌, ◌<◌, ◌≡◌, ◌∙◌, arith, ◌==◌, if◌then◌else◌, Returns, Returns-bind,
  Returns-weaken,
}
use pynagle.Common.Int.{ℤ, ◌≤ℤ◌}
use pynagle.LoadBalancer.Heap.{Heap, exchange}
use pynagle.LoadBalancer.Heap.Swap.{key, key-exchange, swap-ok, slots-injective, slots-exchange}
use pynagle.LoadBalancer.Heap.Order.{
  IsHeap, UpInv, Rearranges, Rearranges-trans, exchange-Rearranges,
}
use pynagle.LoadBalancer.Heap.Up.{fix_up-restores}
use pynagle.LoadBalancer.Heap.Down.{fix_down-restores}
use pynagle.LoadBalancer.HeapBalancer.{Balancer, set_load, shuffle_idle}
use pynagle.LoadBalancer.HeapBalancer.Invariant.{IsSound, IsSoundHeap, IsOrdered}
use pynagle.LoadBalancer.HeapBalancer.Remove.{Fills, swapped, exchanged, swapped-DownInv}

pub set_load-IsSound :
    (h : Heap) (size fresh n : ℕ) (l : ℤ)
    → IsSoundHeap h size fresh
    → IsSoundHeap (set_load h n l) size fresh
set_load-IsSound h size fresh n l v = record {
  indexed = λ c hc. ground (arith, v.indexed c hc);
  sized = v.sized;
  known = v.known;
  unnamed = ground (arith, v.unnamed);
  named = λ c pc hc. ground (arith, v.named c pc hc);
}

pub key-set_load :
    (h : Heap) (size fresh i c : ℕ) (l : ℤ)
    → IsSoundHeap h size fresh
    → i ≤ size
    → c ≤ size
    → key (set_load h (h.slots i) l) c ≡ (if i == c then l else key h c)
key-set_load h size fresh i c l v hi hc = ground (arith, v.sized, slots-injective h i c v.indexed)

-- Less load at `i` breaks the edge above it at most.
pub lower-UpInv :
    (b : Balancer) (i : ℕ) (l : ℤ)
    → IsSound b
    → IsOrdered b
    → i ≤ b.size
    → l ≤ℤ key b.heap i
    → UpInv b.size (set_load b.heap (b.heap.slots i) l) i
lower-UpInv b i l v o hi le = record {
  edges = λ c two hc ne. ground (
    arith,
    o c two hc,
    key-set_load b.heap b.size b.fresh i c l v hi hc,
    key-set_load b.heap b.size b.fresh i (c / 2) l v hi,
  );
  bridged = λ c two hc e two'. ground (
    arith,
    o c two hc,
    o i two' hi,
    key-set_load b.heap b.size b.fresh i c l v hi hc,
    key-set_load b.heap b.size b.fresh i (i / 2) l v hi,
  );
}

-- The heap without its last node, and with a node of the least load exchanged with the last.
swap-UpInv :
    (h : Heap) (s j : ℕ)
    → 0 < j
    → j ≤ s
    → IsHeap (s - 1) h
    → ((c : ℕ) → c ≤ s → key h s ≤ℤ key h c)
    → UpInv (s - 1) (exchange h j s) j
swap-UpInv h s j p hj o least = record {
  edges = λ c two hc ne.
      ground (arith, o c two hc, least c, key-exchange h j s c, key-exchange h j s (c / 2));
  bridged = λ c two hc e two'.
      ground (arith, o c two hc, o j two', key-exchange h j s c, key-exchange h j s (j / 2));
}

last-UpInv : (h : Heap) (s : ℕ) → IsHeap (s - 1) h → UpInv s h s
last-UpInv h s o = record {
  edges = λ c two hc ne. o c two (omega arith);
  bridged = λ c two hc e two'. absurd (omega arith);
}

-- A node of the least load stays one, wherever it moves.
least-Rearranges :
    (r i d : ℕ) (f h : Heap)
    → Rearranges r f h
    → h.slots d ≡ f.slots i
    → ((c : ℕ) → c ≤ f.top → key f i ≤ℤ key f c)
    → (c : ℕ) → c ≤ h.top
    → key h d ≤ℤ key h c
least-Rearranges r i d f h m e least c hc =
    let (c', hc', e') = m.placed c hc in
    ground (arith, least c' hc', m.loads (h.slots d), m.loads (h.slots c))

-- The walk of a node that became idle: it ends, keeps the nodes, and keeps the heap order if the
-- last node fills the place that the idle one leaves.
pub shuffle_idle-restores :
    (b : Balancer) (i j : ℕ)
    → IsSound b
    → 0 < i
    → i ≤ b.size
    → 0 < j
    → j ≤ b.size
    → Returns
        (λ h.
          Rearranges b.size b.heap h
          × (UpInv b.size b.heap i
              → Fills b i
              → ((c : ℕ) → c ≤ b.size → key b.heap i ≤ℤ key b.heap c)
              → IsHeap b.size h))
        (shuffle_idle b.heap i j b.size)
unfolding shuffle_idle
shuffle_idle-restores b i j v p hi q hj =
    let s = b.size in
    let h₁ = swapped b i v p hi in
    let m₁ = exchanged b i v p hi in
    rw (swap-ok b.heap i s p (omega arith) (omega (arith, v.sized)) (omega (arith, v.sized))) (
      Returns-bind (fix_down-restores h₁ i (s - 1) p (omega (arith, v.sized, m₁.size)) m₁.indexed)
        λ h₂ (m₂, o₂).
          let m₁₂ = Rearranges-trans {t = s} m₁ m₂ (omega arith) (omega arith) in
          let top₂ : h₂.top ≡ s = m₁₂.size ∙ v.sized in
          let m₃ =
            exchange-Rearranges h₂ j s s m₂.indexed q (omega arith) hj (omega arith) (omega arith)
              (omega arith) in
          let there : h₂.slots s ≡ b.heap.slots i =
            m₂.beyond s (omega arith) ∙ ground (arith, slots-exchange b.heap i s s) in
          rw (swap-ok h₂ j s q (omega arith) (omega arith) (omega arith)) (
            Returns-bind
              (fix_up-restores (s - 1) (exchange h₂ j s) j q (omega (arith, m₃.size)) m₃.indexed)
              λ h₄ (m₄, o₄).
                let m₃₄ = Rearranges-trans {t = s} m₃ m₄ (omega arith) (omega arith) in
                Returns-weaken
                  (λ h₅ (m₅, o₅). (
                    Rearranges-trans m₁₂
                        (Rearranges-trans {t = s} m₃₄ m₅ (omega arith) (omega arith)) (omega arith)
                        (omega arith),
                    λ o fills least. o₅ (
                        last-UpInv h₄ s (
                          o₄ (
                            swap-UpInv h₂ s j q hj (o₂ (swapped-DownInv b i v p hi o fills)) λ c hc.
                              least-Rearranges s i s b.heap h₂ m₁₂ there
                                (λ d hd. least d (omega (arith, v.sized))) c (omega arith)))),
                  ))
                  (fix_up-restores s h₄ s (omega arith) (omega (arith, m₃₄.size)) m₄.indexed)))
