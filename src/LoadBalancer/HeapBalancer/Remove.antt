-- ===== src/LoadBalancer/HeapBalancer/Remove.antt =====
-- _RemoveSink at the position of a node.
use pynagle.Common.{
  ℕ, ◌↔◌, suc, ◌+◌, ◌-◌, ◌/◌, ◌≤◌, ◌<◌, ◌≡◌, ◌≢◌, sym, ap, ◌∙◌, ◌⊎◌, inl, inr, arith, ◌==◌,
  if◌then◌else◌, ok, Returns, returns, Returns-value, ◌∷◌,
}
use pynagle.Common.Int.{pos, negsuc, ◌≤ℤ◌, ◌<ℤ◌, pos_part, neg_part, eq_of_parts}
use native.Mathlib.Decide.{dec_le, ℕ_discrete}
use pynagle.LoadBalancer.Heap.{Heap, at, exchange, fix_down}
use pynagle.LoadBalancer.Heap.Swap.{
  key, key-exchange, top-exchange, swap-ok, slots-injective, slots-exchange,
}
use pynagle.LoadBalancer.Heap.Order.{
  IsHeap, UpInv, DownInv, Rearranges, Rearranges-trans, exchange-Rearranges,
}
use pynagle.LoadBalancer.Heap.Down.{fix_down-restores}
use pynagle.LoadBalancer.HeapBalancer.{Balancer, closes, idle_load, node, drop_last, remove_at}
use pynagle.LoadBalancer.Heap.Down.{fix_down-stays}
use pynagle.LoadBalancer.HeapBalancer.Invariant.{
  IsSound, IsSoundHeap, IsOrdered, Rearranges-IsSound,
}

-- The last node of the heap may take position `i`: it is no less loaded than the parent there.
abbrev pub Fills : Balancer → ℕ → Type 0
Fills b i = (i ≤ 1) ⊎ ((i ≡ b.size) ⊎ (key b.heap (i / 2) ≤ℤ key b.heap b.size))

-- What _RemoveSink does to the node at position `i`.
pub record Removed (b : Balancer) (i : ℕ) (c : Balancer) : Type 0 where
  pub sound : IsSound c
  pub shrunk : b.size ≡ suc c.size
  pub discarded : (node c (b.heap.slots i)).index ≡ negsuc 0
  pub gone : (d : ℕ) → d ≤ c.size → c.heap.slots d ≢ b.heap.slots i
  pub stays :
      (j : ℕ) → j ≤ b.size → j ≢ i → (d : ℕ) × (d ≤ c.size) × (c.heap.slots d ≡ b.heap.slots j)
  pub loads : (n : ℕ) → (node c n).load ≡ (node b n).load
  pub order : IsOrdered b → (IsOrdered c ↔ Fills b i)
  pub closed :
      (key b.heap i ≡ idle_load) ⊎ (pos 0 ≤ℤ key b.heap i)
      → c.calls ≡ closes (at b.heap i).channel ∷ b.calls
  pub kept_open : key b.heap i ≢ idle_load → ¬ (pos 0 ≤ℤ key b.heap i) → c.calls ≡ b.calls

module _ (b : Balancer) (h : Heap) (n : ℕ) where
  drop_last-size : 0 < b.size → b.size ≡ suc (drop_last b h n).size
  unfolding drop_last
  drop_last-size p = omega arith

  drop_last-discarded : (node (drop_last b h n) n).index ≡ negsuc 0
  unfolding drop_last
  drop_last-discarded = ground arith

  drop_last-load : (k : ℕ) → (node (drop_last b h n) k).load ≡ (h.nodes k).load
  unfolding drop_last
  drop_last-load k = ground arith

module _ (b : Balancer) (i : ℕ) (v : IsSound b) (p : 0 < i) (hi : i ≤ b.size) where
  abbrev pub swapped : Heap
  swapped = exchange b.heap i b.size

  pub exchanged : Rearranges b.size b.heap swapped
  exchanged =
      exchange-Rearranges b.heap i b.size b.size v.indexed p (omega arith) hi (omega arith)
        (omega (arith, v.sized)) (omega (arith, v.sized))

  swapped-key-below :
      (c : ℕ) → c < b.size → key swapped c ≡ (if i == c then key b.heap b.size else key b.heap c)
  swapped-key-below c hc = ground (arith, key-exchange b.heap i b.size c)

  pub swapped-DownInv : UpInv b.size b.heap i → Fills b i → DownInv (b.size - 1) swapped i
  swapped-DownInv o fills = record {
    edges = λ c two hc ne.
        ground (arith, o.edges c two, swapped-key-below c, swapped-key-below (c / 2));
    bridged = λ c two hc e two'.
        ground (arith, o.bridged c two, swapped-key-below c, swapped-key-below (i / 2));
  }

  IsOrdered-UpInv : IsOrdered b → UpInv b.size b.heap i
  IsOrdered-UpInv o = record {
    edges = λ c two hc ne. o c two hc;
    bridged = λ c two hc e two'. omega (
      arith,
      o c two hc,
      ap (λ k. pos_part (key b.heap k)) e,
      ap (λ k. neg_part (key b.heap k)) e,
      o i two' hi,
    );
  }

  unfilled : ¬ Fills b i → (2 ≤ i) × (i < b.size) × (key b.heap b.size <ℤ key b.heap (i / 2))
  unfilled bad = (
    omega (arith, λ (h : i ≤ 1). bad (inl h)),
    omega (arith, λ (h : i ≡ b.size). bad (inr (inl h))),
    omega (arith, λ (h : key b.heap (i / 2) ≤ℤ key b.heap b.size). bad (inr (inr h))),
  )

  -- Where the last node does not fill the place it stays there, below a parent with more load.
  unfilled-stays : IsOrdered b → ¬ Fills b i → fix_down swapped i (b.size - 1) ≡ ok swapped
  unfilled-stays o bad =
      let (two', small, less_key) = unfilled bad in
      fix_down-stays swapped i (b.size - 1) p (omega (arith, v.sized, top-exchange b.heap i b.size))
        exchanged.indexed
        λ c e two hc. ground (arith, o c two, o i two' hi, swapped-key-below c, swapped-key-below i)

  unfilled-broken : ¬ Fills b i → ¬ IsHeap (b.size - 1) swapped
  unfilled-broken bad o =
      let (two, small, less_key) = unfilled bad in
      ground (arith, o i two (omega arith), swapped-key-below i, swapped-key-below (i / 2))

  module _ (h : Heap) (m : Rearranges (b.size - 1) swapped h) where
    abbrev n : ℕ
    n = b.heap.slots i

    all_moves : Rearranges b.size b.heap h
    all_moves = Rearranges-trans exchanged m (omega arith) (omega arith)

    n-last : h.slots b.size ≡ n
    n-last = m.beyond b.size (omega arith) ∙ ground (arith, slots-exchange b.heap i b.size b.size)

    sound : IsSoundHeap h b.size b.fresh
    sound = Rearranges-IsSound b.size b.size b.fresh b.heap h v all_moves

    drop_last-IsSound : IsSound (drop_last b h n)
    unfolding drop_last
    drop_last-IsSound = record {
      indexed = λ c hc.
          ground
            (arith, sound.indexed c, sound.sized, n-last, slots-injective h c b.size sound.indexed);
      sized = ap (λ t. t - 1) sound.sized;
      known = λ c hc. sound.known c (omega arith);
      unnamed = ground (arith, sound.unnamed);
      named = λ c pc hc. ground (arith, sound.named c);
    }

    drop_last-gone : (d : ℕ) → d ≤ b.size - 1 → h.slots d ≢ n
    drop_last-gone d hd e = omega (
      arith,
      sound.sized,
      slots-injective h d b.size sound.indexed (omega (arith, sound.sized))
          (omega (arith, sound.sized)) (e ∙ sym n-last),
    )

    drop_last-stays :
        (j : ℕ) → j ≤ b.size → j ≢ i → (d : ℕ) × (d ≤ b.size - 1) × (h.slots d ≡ b.heap.slots j)
    drop_last-stays j hj ne =
        let (d, hd, e) = all_moves.moved j (omega (arith, v.sized)) in
        (d, ground (arith, n-last, slots-injective b.heap j i v.indexed, v.sized, sound.sized), e)

    drop_last-key : (c : ℕ) → key (drop_last b h n).heap c ≡ key h c
    unfolding drop_last
    drop_last-key c = ground arith

    drop_last-order : IsHeap (b.size - 1) h ↔ IsOrdered (drop_last b h n)
    unfolding drop_last
    drop_last-order = (
      λ o c two hc. rw (drop_last-key c, drop_last-key (c / 2)) (o c two hc),
      λ o c two hc. rw (drop_last-key c, drop_last-key (c / 2)) at (o c two hc),
    )

    drop_last-closed :
        (key b.heap i ≡ idle_load) ⊎ (pos 0 ≤ℤ key b.heap i)
        → (drop_last b h n).calls ≡ closes (at b.heap i).channel ∷ b.calls
    unfolding drop_last
    drop_last-closed c = ground (arith, all_moves.loads n, all_moves.channels n)

    drop_last-kept_open :
        key b.heap i ≢ idle_load → ¬ (pos 0 ≤ℤ key b.heap i) → (drop_last b h n).calls ≡ b.calls
    unfolding drop_last
    drop_last-kept_open ne neg =
        ground (arith, all_moves.loads n, eq_of_parts (key b.heap i) idle_load)

  Fills-cases : Fills b i ⊎ (¬ Fills b i)
  Fills-cases = elim (dec_le i 1) [
    | yes root ↦ inl (inl root)
    | no inner ↦ elim (ℕ_discrete i b.size) [
      | yes last ↦ inl (inr (inl last))
      | no other ↦
          elim (dec_le (pos_part (key b.heap (i / 2)) + neg_part (key b.heap b.size))
            (pos_part (key b.heap b.size) + neg_part (key b.heap (i / 2)))) [
              | yes light ↦ inl (inr (inr light))
              | no heavy ↦ inr (elim [
                | inl root ↦ inner root
                | inr (inl last) ↦ other last
                | inr (inr light) ↦ heavy light
              ])
            ]
    ]
  ]

  -- The heap order afterwards decides whether the last node filled the place.
  fixed-order :
      (h : Heap)
      → fix_down swapped i (b.size - 1) ≡ ok h
      → (DownInv (b.size - 1) swapped i → IsHeap (b.size - 1) h)
      → IsOrdered b
      → IsHeap (b.size - 1) h ↔ Fills b i
  fixed-order h e mend o = elim Fills-cases [
    | inl fills ↦ (λ k. fills, λ k. mend (swapped-DownInv (IsOrdered-UpInv o) fills))
    | inr bad ↦
        let same : swapped ≡ h = cc (unfilled-stays o bad) in
        (λ k. absurd (unfilled-broken bad (rw (← same) at k)), λ k. absurd (bad k))
  ]

-- _RemoveSink at the position of a node returns, with or without the heap order. The node leaves
-- the heap, all others stay with their loads, and it is closed if it is idle or marked down. A heap
-- stays a heap exactly if the last node is no less loaded than the parent of the place it takes.
pub remove_at-Removed :
    (b : Balancer) (i : ℕ) → IsSound b → 0 < i → i ≤ b.size → Returns (Removed b i) (remove_at b i)
unfolding remove_at
remove_at-Removed b i v p hi =
    let (h, e, rest) = Returns-value (
      fix_down-restores (swapped b i v p hi) i (b.size - 1) p
        (omega (arith, v.sized, top-exchange b.heap i b.size)) (exchanged b i v p hi).indexed) in
    let (m, mend) = rest in
    let order = drop_last-order b i v p hi h m in
    rw
      (swap-ok b.heap i b.size p (omega arith) (omega (arith, v.sized)) (omega (arith, v.sized)), e)
      (returns (record {
        sound = drop_last-IsSound b i v p hi h m;
        shrunk = drop_last-size b h (b.heap.slots i) (omega arith);
        discarded = drop_last-discarded b h (b.heap.slots i);
        gone = drop_last-gone b i v p hi h m;
        stays = drop_last-stays b i v p hi h m;
        loads = λ n. drop_last-load b h (b.heap.slots i) n ∙ (all_moves b i v p hi h m).loads n;
        order = λ o.
            let fixed = fixed-order b i v p hi h e mend o in
            (λ k. fixed.0 (order.1 k), λ k. order.0 (fixed.1 k));
        closed = drop_last-closed b i v p hi h m;
        kept_open = drop_last-kept_open b i v p hi h m;
      }))
