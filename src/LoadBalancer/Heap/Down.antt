-- ===== src/LoadBalancer/Heap/Down.antt =====
-- FixDown: the loop ends, rearranges, and mends the edges below its start.
use pynagle.Common.{
  ℕ, zero, suc, ◌+◌, ◌*◌, ◌/◌, ◌≤◌, ◌<◌, ◌≡◌, ◌⊎◌, inl, inr, true, arith, ◌==◌, Bool-cases, ltb, ok,
  Returns, returns, Returns-bind, Returns-weaken, Returns-test, Returns-value,
}
use pynagle.Common.Int.{◌≤ℤ◌, ltb_ℤ}
use pynagle.LoadBalancer.Heap.{Heap, exchange, fix_down_loop, fix_down, smaller_child}
use pynagle.LoadBalancer.Heap.Swap.{
  key, IsIndexed, key-exchange, top-exchange, swap-ok, less-above, less-below,
}
use pynagle.LoadBalancer.Heap.Order.{
  IsHeap, DownInv, Rearranges, Rearranges-refl, Rearranges-trans, exchange-Rearranges,
}

-- An exchange with the smaller child leaves only the edges below that child to mend.
exchange-DownInv :
    (n : ℕ) (h : Heap) (i m : ℕ)
    → DownInv n h i
    → 0 < i
    → m / 2 ≡ i
    → m ≤ n
    → ((c : ℕ) → c / 2 ≡ i → 2 ≤ c → c ≤ n → key h m ≤ℤ key h c)
    → ltb_ℤ (key h m) (key h i) ≡ true
    → DownInv n (exchange h i m) m
exchange-DownInv n h i m v p child mn least below = record {
  edges = λ c two cn ne. ground (
    arith,
    v.edges c two cn,
    v.bridged m,
    least c,
    key-exchange h i m c,
    key-exchange h i m (c / 2),
  );
  bridged = λ c two cn e two'.
      ground (arith, v.edges c two cn, key-exchange h i m c, key-exchange h i m (m / 2));
}

-- The child that FixDown looks at: a child, and none has a lower load.
record IsLeastChild (h : Heap) (i j m : ℕ) : Type 0 where
  child : m / 2 ≡ i
  within : m ≤ j
  least : (c : ℕ) → c / 2 ≡ i → 2 ≤ c → c ≤ j → key h m ≤ℤ key h c

halves : (c i : ℕ) → c / 2 ≡ i → (c ≡ 2 * i) ⊎ (c ≡ 2 * i + 1)
halves c i e = ground arith

least_of_two :
    (h : Heap) (i m c : ℕ)
    → c / 2 ≡ i
    → key h m ≤ℤ key h (2 * i)
    → key h m ≤ℤ key h (2 * i + 1)
    → key h m ≤ℤ key h c
least_of_two h i m c e l r = elim (halves c i e) [ inl even ↦ rw even l | inr odd ↦ rw odd r ]

smaller_child-IsLeastChild :
    (h : Heap) (i j : ℕ)
    → 0 < i
    → i * 2 ≤ j
    → j ≤ h.top
    → IsIndexed h
    → Returns (IsLeastChild h i j) (smaller_child h i j)
unfolding smaller_child
smaller_child-IsLeastChild h i j p ij hj v =
    Returns-test (j == i * 2)
      (λ e. returns (record {
        child = omega arith;
        within = omega arith;
        least = λ c e' two cj. let same : c ≡ 2 * i = ground arith in rw same (omega arith);
      }))
      λ e.
        let last : 2 * i + 1 ≤ j = ground arith in
        rw (less-below h (2 * i) (2 * i + 1) v (omega arith) (omega arith))
          (elim (Bool-cases (ltb_ℤ (key h (2 * i + 1)) (key h (2 * i)))) [
            | inl right ↦ rw right (
                returns (record {
                  child = omega arith;
                  within = last;
                  least =
                      λ c e' two cj. least_of_two h i (2 * i + 1) c e' (ground arith) (omega arith);
                }))
            | inr left ↦ rw left (
                returns (record {
                  child = omega arith;
                  within = omega arith;
                  least = λ c e' two cj. least_of_two h i (2 * i) c e' (omega arith) (ground arith);
                }))
          ])

-- A round of FixDown that goes on, as a rearrangement.
down_step :
    (h : Heap) (i j m : ℕ)
    → 0 < i
    → i * 2 ≤ j
    → j ≤ h.top
    → IsIndexed h
    → IsLeastChild h i j m
    → Rearranges j h (exchange h i m)
down_step h i j m p ij hj v l =
    exchange-Rearranges h i m j v p (omega (arith, l.child)) (omega arith) l.within (omega arith)
      (omega (arith, l.within))

fix_down_loop-restores :
    (k : ℕ) (h : Heap) (i j : ℕ)
    → 0 < k
    → j < i + k
    → 0 < i
    → j ≤ h.top
    → IsIndexed h
    → Returns (λ g. Rearranges j h g × (DownInv j h i → IsHeap j g)) (fix_down_loop k h i j)
unfolding fix_down_loop
fix_down_loop-restores zero h i j some_fuel f p hj v = absurd (omega arith)
fix_down_loop-restores (suc k) h i j some_fuel f p hj v =
    Returns-test (ltb j (i * 2))
      (λ e. returns (Rearranges-refl j h v, λ u c two cn. u.edges c two cn (ground arith)))
      λ e.
        let ij : i * 2 ≤ j = ground arith in
        Returns-bind (smaller_child-IsLeastChild h i j p ij hj v) λ m l.
          let first = down_step h i j m p ij hj v l in
          rw (less-above h i m v (omega (arith, l.child)) (omega (arith, l.within))) (
            Returns-test (ltb_ℤ (key h m) (key h i))
              (λ below.
                rw
                  (swap-ok h i m p (omega (arith, l.child)) (omega arith) (omega (arith, l.within)))
                  (Returns-weaken
                    (λ g rest. (
                      Rearranges-trans first rest.0 (omega arith) (omega arith),
                      λ u. rest.1 (exchange-DownInv j h i m u p l.child l.within l.least below),
                    ))
                    (fix_down_loop-restores k (exchange h i m) m j
                      (omega (arith, l.child, l.within)) (omega (arith, l.child))
                      (omega (arith, l.child)) (rw (top-exchange h i m) hj) first.indexed)))
              (λ stop.
                returns (
                  Rearranges-refl j h v,
                  λ u c two cn. ground (arith, u.edges c two cn, l.least c),
                )))

-- On positions 1 to `j`, FixDown from `i` ends without an exception; it moves no node past `j`,
-- leaves every load as it is, and restores the heap order if only the edges below `i` were broken.
pub fix_down-restores :
    (h : Heap) (i j : ℕ)
    → 0 < i
    → j ≤ h.top
    → IsIndexed h
    → Returns (λ g. Rearranges j h g × (DownInv j h i → IsHeap j g)) (fix_down h i j)
unfolding fix_down
fix_down-restores h i j p hj v =
    fix_down_loop-restores (suc j) h i j (omega arith) (omega arith) p hj v

-- FixDown does nothing where no child has a lower load.
pub fix_down-stays :
    (h : Heap) (i j : ℕ)
    → 0 < i
    → j ≤ h.top
    → IsIndexed h
    → ((c : ℕ) → c / 2 ≡ i → 2 ≤ c → c ≤ j → key h i ≤ℤ key h c)
    → fix_down h i j ≡ ok h
unfolding fix_down
fix_down-stays h i j p hj v least = elim (Bool-cases (ltb j (i * 2))) [
  | inl e ↦ rw (e, fix_down)
  | inr e ↦
      let ij : i * 2 ≤ j = ground arith in
      let (m, found, l) = Returns-value (smaller_child-IsLeastChild h i j p ij hj v) in
      rw (e, found, less-above h i m v (omega (arith, l.child)) (omega (arith, l.within)))
        (ground (arith, least m))
]
