-- ===== src/LoadBalancer/Heap/Up.antt =====
-- FixUp: the loop ends, rearranges, and mends the edge above its start.
use pynagle.Common.{
  ℕ, zero, suc, ◌/◌, ◌≤◌, ◌<◌, ◌≡◌, true, arith, ◌==◌, Returns, returns, Returns-weaken,
  Returns-test,
}
use pynagle.Common.Int.{ltb_ℤ}
use pynagle.LoadBalancer.Heap.{Heap, exchange, fix_up_loop, fix_up}
use pynagle.LoadBalancer.Heap.Swap.{key, IsIndexed, key-exchange, top-exchange, swap-ok, less-above}
use pynagle.LoadBalancer.Heap.Order.{
  IsHeap, UpInv, Rearranges, Rearranges-refl, Rearranges-trans, exchange-Rearranges,
}

-- What an exchange with the parent leaves to do one level up.
exchange-UpInv :
    (n : ℕ) (h : Heap) (i : ℕ)
    → UpInv n h i
    → 2 ≤ i
    → ltb_ℤ (key h i) (key h (i / 2)) ≡ true
    → UpInv n (exchange h i (i / 2)) (i / 2)
exchange-UpInv n h i v big below = record {
  edges = λ c two cn ne. ground (
    arith,
    v.edges c two cn,
    v.bridged c two cn,
    key-exchange h i (i / 2) c,
    key-exchange h i (i / 2) (c / 2),
  );
  bridged = λ c two cn e two'. ground (
    arith,
    v.edges c two cn,
    v.edges (i / 2) two',
    key-exchange h i (i / 2) c,
    key-exchange h i (i / 2) (i / 2 / 2),
  );
}

-- A round of FixUp that goes on, as a rearrangement.
up_step :
    (h : Heap) (i : ℕ) → i ≤ h.top → IsIndexed h → 2 ≤ i → Rearranges i h (exchange h i (i / 2))
up_step h i hi v big =
    exchange-Rearranges h i (i / 2) i v (omega arith) (omega arith) (omega arith) (omega arith) hi
      (omega arith)

fix_up_loop-restores :
    (k n : ℕ) (h : Heap) (i : ℕ)
    → i < k
    → 0 < i
    → i ≤ h.top
    → IsIndexed h
    → Returns (λ g. Rearranges i h g × (UpInv n h i → IsHeap n g)) (fix_up_loop k h i)
unfolding fix_up_loop
fix_up_loop-restores zero n h i f p hi v = absurd (omega arith)
fix_up_loop-restores (suc k) n h i f p hi v =
    Returns-test (i == 1)
      (λ e. returns (Rearranges-refl i h v, λ u c two cn. u.edges c two cn (ground arith)))
      λ e.
        let big : 2 ≤ i = ground arith in
        let first = up_step h i hi v big in
        rw (less-above h (i / 2) i v (omega arith) hi) (
          Returns-test (ltb_ℤ (key h i) (key h (i / 2)))
            (λ below. rw (swap-ok h i (i / 2) p (omega arith) hi (omega arith)) (
              Returns-weaken
                (λ g rest. (
                  Rearranges-trans first rest.0 (omega arith) (omega arith),
                  λ u. rest.1 (exchange-UpInv n h i u big below),
                ))
                (fix_up_loop-restores k n (exchange h i (i / 2)) (i / 2) (omega arith) (omega arith)
                  (rw (top-exchange h i (i / 2)) (omega arith)) (first.indexed))))
            (λ stop.
              returns (Rearranges-refl i h v, λ u c two cn. ground (arith, u.edges c two cn))))

-- FixUp from `i` ends without an exception; it moves no node past `i`, leaves every load as it is,
-- and restores the heap order of the first `n` positions if only the edge above `i` was broken.
pub fix_up-restores :
    (n : ℕ) (h : Heap) (i : ℕ)
    → 0 < i
    → i ≤ h.top
    → IsIndexed h
    → Returns (λ g. Rearranges i h g × (UpInv n h i → IsHeap n g)) (fix_up h i)
unfolding fix_up
fix_up-restores n h i p hi v = fix_up_loop-restores (suc i) n h i (omega arith) p hi v
