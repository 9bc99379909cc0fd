-- ===== src/LoadBalancer/HeapBalancer/Put.antt =====
-- __Put: a node gives back one unit of load.
use pynagle.Common.{
  ℕ, subst, ◌/◌, ◌≤◌, ◌<◌, ◌≡◌, ◌≢◌, refl, sym, ◌∙◌, inl, inr, arith, ◌&&◌, if◌then◌else◌, ltb,
  Returns, returns, Returns-bind, Returns-weaken, Returns-test, List, ◌∷◌,
}
use pynagle.Common.Int.{ℤ, pos, negsuc, ◌≤ℤ◌, ◌-ℤ◌, ltb_ℤ, eqb_ℤ, is_negative, -ℤ_parts}
use native.Mathlib.Decide.{ℕ_discrete}
use pynagle.LoadBalancer.Heap.{Heap, fix_up}
use pynagle.LoadBalancer.Heap.Swap.{key}
use pynagle.LoadBalancer.Heap.Order.{IsHeap, Rearranges, Rearranges-refl, Rearranges-trans}
use pynagle.LoadBalancer.Heap.Up.{fix_up-restores}
use pynagle.LoadBalancer.HeapBalancer.{
  Balancer, Call, closes, idle_load, node, set_load, shuffle_idle, lowered, settle, put,
}
use pynagle.LoadBalancer.HeapBalancer.Invariant.{IsSound, IsOrdered, Rearranges-IsSound}
use pynagle.LoadBalancer.HeapBalancer.Remove.{Fills}
use pynagle.LoadBalancer.HeapBalancer.Shuffle.{
  set_load-IsSound, key-set_load, lower-UpInv, shuffle_idle-restores,
}

-- A node that a request holds: it stands where it says, or it has been removed.
pub data IsHeld (b : Balancer) (n : ℕ) : Type 0 where
  on_heap : (i : ℕ) → 0 < i → i ≤ b.size → b.heap.slots i ≡ n → IsHeld b n
  removed : (k : ℕ) → (node b n).index ≡ negsuc k → IsHeld b n

abbrev pub AboveIdle : Balancer → Type 0
AboveIdle b = (c : ℕ) → c ≤ b.size → idle_load ≤ℤ key b.heap c

-- One unit of load less, but not less than Idle.
abbrev pub one_less : ℤ → ℤ
one_less l = if ltb_ℤ idle_load l then l -ℤ pos 1 else idle_load

-- What __Put does to the node `n`, whose load becomes `l`.
pub record PutBackTo (l : ℤ) (b : Balancer) (n : ℕ) (c : Balancer) : Type 0 where
  pub sound : IsSound c
  pub size : c.size ≡ b.size
  pub own_load : (node c n).load ≡ l
  pub other_loads : (m : ℕ) → m ≢ n → (node c m).load ≡ (node b m).load
  pub stays : (i : ℕ) → i ≤ b.size → (d : ℕ) × (d ≤ c.size) × (c.heap.slots d ≡ b.heap.slots i)
  pub calls : c.calls ≡ (
      if is_negative (node b n).index && eqb_ℤ l idle_load
      then closes (node b n).channel ∷ b.calls
      else b.calls)
  pub order :
      IsOrdered b
      → AboveIdle b
      → ((i : ℕ) → (node b n).index ≡ pos i → l ≡ idle_load → Fills b i)
      → IsOrdered c

-- What __Put does to the node `n`: its load becomes one unit less.
abbrev pub PutBack : Balancer → ℕ → Balancer → Type 0
PutBack b n = PutBackTo (one_less (node b n).load) b n

abbrev Lowered : Balancer → ℕ → Balancer → Type 0
Lowered b n = PutBackTo (lowered (node b n).load) b n

abbrev lighter : Balancer → ℕ → Balancer
lighter b n = record b { heap = set_load b.heap n (lowered (node b n).load) }

module _ (b : Balancer) (n : ℕ) (v : IsSound b) where
  lighter-IsSound : IsSound (lighter b n)
  lighter-IsSound = set_load-IsSound b.heap b.size b.fresh n (lowered (node b n).load) v

  -- A rearrangement of the heap with the new load is what __Put does, if the order is right.
  moved-Lowered :
      (h : Heap)
      → (k : ℕ) → (node b n).index ≡ pos k
      → Rearranges b.size (lighter b n).heap h
      → (IsOrdered b
          → AboveIdle b
          → ((i : ℕ) → (node b n).index ≡ pos i → lowered (node b n).load ≡ idle_load → Fills b i)
          → IsHeap b.size h)
      → Lowered b n (record (lighter b n) { heap = h })
  moved-Lowered h k at_k m order = record {
    sound = Rearranges-IsSound b.size b.size b.fresh (lighter b n).heap h lighter-IsSound m;
    size = refl;
    own_load = m.loads n ∙ ground arith;
    other_loads = λ x ne. m.loads x ∙ ground arith;
    stays = λ i hi.
        let (d, hd, e) = m.moved i (omega (arith, v.sized)) in
        (d, omega (arith, m.size, v.sized), e);
    calls = rw at_k;
    order = order;
  }

lowered-le : (l : ℤ) → idle_load ≤ℤ l → lowered l ≤ℤ l
unfolding lowered
lowered-le l h = ground (arith, -ℤ_parts l (pos 1))

idle-le-lowered : (l : ℤ) → idle_load ≤ℤ lowered l
unfolding lowered
idle-le-lowered l = ground arith

-- The place is filled before as after the load is lowered.
lighter-Fills :
    (b : Balancer) (i : ℕ)
    → IsSound b
    → 0 < i
    → i ≤ b.size
    → Fills b i
    → Fills (lighter b (b.heap.slots i)) i
lighter-Fills b i v p hi (inl root) = inl root
lighter-Fills b i v p hi (inr (inl last)) = inr (inl last)
lighter-Fills b i v p hi (inr (inr light)) = elim (ℕ_discrete i b.size) [
  | yes last ↦ inr (inl last)
  | no other ↦
      let l = lowered (key b.heap i) in
      inr (
        inr (
          ground (
            arith,
            key-set_load b.heap b.size b.fresh i (i / 2) l v hi,
            key-set_load b.heap b.size b.fresh i b.size l v hi,
          )))
]

shuffle-Lowered :
    (b : Balancer) (i j : ℕ)
    → IsSound b
    → 0 < i
    → i ≤ b.size
    → 0 < j
    → j ≤ b.size
    → lowered (key b.heap i) ≡ idle_load
    → Returns
        (λ h. Lowered b (b.heap.slots i) (record (lighter b (b.heap.slots i)) { heap = h }))
        (shuffle_idle (lighter b (b.heap.slots i)).heap i j b.size)
shuffle-Lowered b i j v p hi q hj idle =
    let n = b.heap.slots i in
    let l = lowered (key b.heap i) in
    let v' = lighter-IsSound b n v in
    let new_key = λ (c : ℕ) (hc : c ≤ b.size). key-set_load b.heap b.size b.fresh i c l v hi hc in
    Returns-weaken
      (λ h (m, restored).
        moved-Lowered b n v h i (v.indexed i (omega (arith, v.sized))) m λ o above fills.
          restored (lower-UpInv b i l v o hi (lowered-le (key b.heap i) (above i hi)))
            (lighter-Fills b i v p hi (fills i (v.indexed i (omega (arith, v.sized))) idle))
            (λ c hc. ground (arith, new_key c hc, new_key i hi, above c hc)))
      (shuffle_idle-restores (lighter b n) i j v' p hi q hj)

lift-Lowered :
    (b : Balancer) (i : ℕ)
    → IsSound b
    → 0 < i
    → i ≤ b.size
    → Returns
        (λ h. Lowered b (b.heap.slots i) (record (lighter b (b.heap.slots i)) { heap = h }))
        (fix_up (lighter b (b.heap.slots i)).heap i)
lift-Lowered b i v p hi =
    let n = b.heap.slots i in
    let l = lowered (key b.heap i) in
    let v' = lighter-IsSound b n v in
    Returns-weaken
      (λ h (m, mend).
        moved-Lowered b n v h i (v.indexed i (omega (arith, v.sized)))
          (Rearranges-trans {t = b.size} (Rearranges-refl 0 (lighter b n).heap v'.indexed) m
            (omega arith) hi)
          λ o above fills. mend (lower-UpInv b i l v o hi (lowered-le (key b.heap i) (above i hi))))
      (fix_up-restores b.size (lighter b n).heap i p (omega (arith, v.sized)) v'.indexed)

lighter-load : (b : Balancer) (n : ℕ) → (node (lighter b n) n).load ≡ lowered (node b n).load
lighter-load b n = ground arith

lighter-channel : (b : Balancer) (n : ℕ) → (node (lighter b n) n).channel ≡ (node b n).channel
lighter-channel b n = ground arith

removed-Lowered :
    (b : Balancer) (n k : ℕ) (calls : List Call)
    → IsSound b
    → (node b n).index ≡ negsuc k
    → calls ≡ (
        if eqb_ℤ (lowered (node b n).load) idle_load
        then closes (node b n).channel ∷ b.calls
        else b.calls)
    → Lowered b n (record (lighter b n) { calls = calls })
removed-Lowered b n k calls v e called = record {
  sound = lighter-IsSound b n v;
  size = refl;
  own_load = lighter-load b n;
  other_loads = λ m ne. ground arith;
  stays = λ i hi. (i, hi, refl);
  calls = rw e called;
  order =
      λ o above fills c two hc. ground (arith, o c two hc, v.sized, v.indexed c, v.indexed (c / 2));
}

settle_removed :
    (b : Balancer) (n k j : ℕ)
    → IsSound b
    → (node b n).index ≡ negsuc k
    → Returns (Lowered b n) (settle (lighter b n) n j (negsuc k))
unfolding settle
settle_removed b n k j v e =
    rw (lighter-load b n, lighter-channel b n)
      (Returns-test (ltb_ℤ idle_load (lowered (node b n).load))
        (λ busy. returns (removed-Lowered b n k b.calls v e (ground arith)))
        λ other.
          Returns-test (eqb_ℤ (lowered (node b n).load) idle_load)
            (λ idle.
              returns
                (removed-Lowered b n k (closes (node b n).channel ∷ b.calls) v e (ground arith)))
            λ neither. absurd (ground (arith, idle-le-lowered (node b n).load)))

settle_held :
    (b : Balancer) (i j : ℕ)
    → IsSound b
    → 0 < i
    → i ≤ b.size
    → 0 < j
    → j ≤ b.size
    → Returns
        (Lowered b (b.heap.slots i))
        (settle (lighter b (b.heap.slots i)) (b.heap.slots i) j (pos i))
unfolding settle
settle_held b i j v p hi q hj = rw (lighter-load b (b.heap.slots i)) (
    Returns-test (eqb_ℤ (lowered (key b.heap i)) idle_load && ltb 1 b.size)
      (λ e. Returns-bind (shuffle-Lowered b i j v p hi q hj (ground arith)) λ h m. returns m)
      (λ e. Returns-bind (lift-Lowered b i v p hi) λ h m. returns m))

lowered-one_less : (l : ℤ) → lowered l ≡ one_less l
unfolding lowered
lowered-one_less l = ground (arith, -ℤ_parts l (pos 1))

put-Lowered :
    (b : Balancer) (n j : ℕ)
    → IsSound b
    → IsHeld b n
    → 0 < j
    → j ≤ b.size
    → Returns (Lowered b n) (put b n j)
unfolding put
put-Lowered b n j v (on_heap i p hi e) q hj =
    subst (λ m. Returns (Lowered b m) (settle (lighter b m) m j (node b m).index)) e
      (subst
        (λ x.
          Returns (Lowered b (b.heap.slots i))
            (settle (lighter b (b.heap.slots i)) (b.heap.slots i) j x))
        (sym (v.indexed i (omega (arith, v.sized)))) (settle_held b i j v p hi q hj))
put-Lowered b n j v (removed k e) q hj =
    subst (λ x. Returns (Lowered b n) (settle (lighter b n) n j x)) (sym e)
      (settle_removed b n k j v e)

-- In a sound balancer, __Put of a node that a request holds ends without an exception, for every
-- random position. The node has one unit of load less, but not less than Idle; a removed node that
-- becomes idle is closed; all else stays, and an ordered heap whose loads are at least Idle stays
-- ordered if a node that becomes idle leaves a place that the last node fills.
pub put-PutBack :
    (b : Balancer) (n j : ℕ)
    → IsSound b
    → IsHeld b n
    → 0 < j
    → j ≤ b.size
    → Returns (PutBack b n) (put b n j)
put-PutBack b n j v held q hj =
    subst (λ l. Returns (PutBackTo l b n) (put b n j)) (lowered-one_less (node b n).load)
      (put-Lowered b n j v held q hj)
