-- ===== src/LoadBalancer/Heap/Order.antt =====
-- The heap order, and what a rearrangement of the heap leaves alone.
use pynagle.Common.{ℕ, ◌/◌, ◌≤◌, ◌<◌, ◌≡◌, ◌≢◌, refl, ◌∙◌, arith, ◌==◌, if◌then◌else◌}
use pynagle.Common.Int.{◌≤ℤ◌}
use pynagle.LoadBalancer.Heap.{Heap, exchange}
use pynagle.LoadBalancer.Heap.Swap.{
  key, IsIndexed, top-exchange, load-exchange, others-exchange, slots-exchange, index-exchange,
  exchange-IsIndexed,
}

-- In the first `n` positions no node has a lower load than its parent.
abbrev pub IsHeap : ℕ → Heap → Type 0
IsHeap n h = (c : ℕ) → 2 ≤ c → c ≤ n → key h (c / 2) ≤ℤ key h c

-- The edges past `i`, from its parent to its children, are in order.
abbrev pub IsBridged : ℕ → Heap → ℕ → Type 0
IsBridged n h i = (c : ℕ) → 2 ≤ c → c ≤ n → c / 2 ≡ i → 2 ≤ i → key h (i / 2) ≤ℤ key h c

-- Only the edge above `i` may be out of order.
pub record UpInv (n : ℕ) (h : Heap) (i : ℕ) : Type 0 where
  pub edges : (c : ℕ) → 2 ≤ c → c ≤ n → c ≢ i → key h (c / 2) ≤ℤ key h c
  pub bridged : IsBridged n h i

-- Only the edges below `i` may be out of order.
pub record DownInv (n : ℕ) (h : Heap) (i : ℕ) : Type 0 where
  pub edges : (c : ℕ) → 2 ≤ c → c ≤ n → c / 2 ≢ i → key h (c / 2) ≤ℤ key h c
  pub bridged : IsBridged n h i

-- `g` holds the nodes of `h`, in an order that may differ up to position `r`, each with its own
-- position in `index` and all else unchanged.
pub record Rearranges (r : ℕ) (h g : Heap) : Type 0 where
  pub size : g.top ≡ h.top
  pub sentinel : g.slots 0 ≡ h.slots 0
  pub beyond : (c : ℕ) → r < c → g.slots c ≡ h.slots c
  pub indexed : IsIndexed g
  pub loads : (n : ℕ) → (g.nodes n).load ≡ (h.nodes n).load
  pub channels : (n : ℕ) → (g.nodes n).channel ≡ (h.nodes n).channel
  pub endpoints : (n : ℕ) → (g.nodes n).endpoint ≡ (h.nodes n).endpoint
  pub links : (n : ℕ) → (g.nodes n).downq ≡ (h.nodes n).downq
  pub moved : (c : ℕ) → c ≤ h.top → (d : ℕ) × (d ≤ g.top) × (g.slots d ≡ h.slots c)
  pub placed : (d : ℕ) → d ≤ g.top → (c : ℕ) × (c ≤ h.top) × (h.slots c ≡ g.slots d)
  pub off : (n : ℕ) → ((c : ℕ) → c ≤ h.top → h.slots c ≢ n) → (g.nodes n).index ≡ (h.nodes n).index

pub Rearranges-refl : (r : ℕ) (h : Heap) → IsIndexed h → Rearranges r h h
Rearranges-refl r h v = record {
  size = refl;
  sentinel = refl;
  beyond = λ c p. refl;
  indexed = v;
  loads = λ n. refl;
  channels = λ n. refl;
  endpoints = λ n. refl;
  links = λ n. refl;
  moved = λ c p. (c, p, refl);
  placed = λ c p. (c, p, refl);
  off = λ n p. refl;
}

pub Rearranges-trans :
    {r s t : ℕ} {f g h : Heap}
    → Rearranges r f g
    → Rearranges s g h
    → r ≤ t
    → s ≤ t
    → Rearranges t f h
Rearranges-trans {r} {s} {t} {f} {g} {h} p q rt st = record {
  size = q.size ∙ p.size;
  sentinel = q.sentinel ∙ p.sentinel;
  beyond = λ c far. q.beyond c (omega arith) ∙ p.beyond c (omega arith);
  indexed = q.indexed;
  loads = λ n. q.loads n ∙ p.loads n;
  channels = λ n. q.channels n ∙ p.channels n;
  endpoints = λ n. q.endpoints n ∙ p.endpoints n;
  links = λ n. q.links n ∙ p.links n;
  moved =
      λ c hc. let (d, hd, e) = p.moved c hc in let (b, hb, e') = q.moved d hd in (b, hb, e' ∙ e);
  placed =
      λ d hd. let (c, hc, e) = q.placed d hd in let (b, hb, e') = p.placed c hc in (b, hb, e' ∙ e);
  off = λ n free.
      let free' : (c : ℕ) → c ≤ g.top → g.slots c ≢ n =
        λ c hc e. let (b, hb, e') = p.placed c hc in free b hb (e' ∙ e) in
      q.off n free' ∙ p.off n free;
}

-- Where the node at position `c` comes to stand.
abbrev partner : ℕ → ℕ → ℕ → ℕ
partner i j c = if j == c then i else if i == c then j else c

slots-partner : (h : Heap) (i j c : ℕ) → (exchange h i j).slots (partner i j c) ≡ h.slots c
slots-partner h i j c = ground (arith, slots-exchange h i j (partner i j c))

partner-le : (i j c n : ℕ) → i ≤ n → j ≤ n → c ≤ n → partner i j c ≤ n
partner-le i j c n hi hj hc = ground arith

pub exchange-Rearranges :
    (h : Heap) (i j r : ℕ)
    → IsIndexed h
    → 0 < i
    → 0 < j
    → i ≤ r
    → j ≤ r
    → i ≤ h.top
    → j ≤ h.top
    → Rearranges r h (exchange h i j)
exchange-Rearranges h i j r v pi pj ri rj hi hj = record {
  size = top-exchange h i j;
  sentinel = ground (arith, slots-exchange h i j 0);
  beyond = λ c far. ground (arith, slots-exchange h i j c);
  indexed = exchange-IsIndexed h i j v hi hj;
  loads = load-exchange h i j;
  channels = λ n. (others-exchange h i j n).0;
  endpoints = λ n. (others-exchange h i j n).1;
  links = λ n. (others-exchange h i j n).2;
  moved = λ c hc. (
    partner i j c,
    rw (top-exchange h i j) (partner-le i j c h.top hi hj hc),
    slots-partner h i j c,
  );
  placed = λ c hc.
      let hc' : c ≤ h.top = rw (top-exchange h i j) at hc in
      (partner i j c, partner-le i j c h.top hi hj hc', ground (arith, slots-exchange h i j c));
  off = λ n free. ground (arith, index-exchange h i j n, free i hi, free j hj);
}
