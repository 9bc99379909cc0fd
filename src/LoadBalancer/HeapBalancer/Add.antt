-- ===== src/LoadBalancer/HeapBalancer/Add.antt =====
-- _AddSink.
use pynagle.Common.{
  ℕ, suc, ◌/◌, ◌≤◌, ◌<◌, ◌≡◌, ◌≢◌, refl, sym, ap, ◌∙◌, arith, if◌then◌else◌, Returns, returns,
  Returns-bind, none, some, ◌∷◌,
}
use pynagle.Common.Int.{pos}
use pynagle.LoadBalancer.Heap.{Heap, Node}
use pynagle.LoadBalancer.Heap.Swap.{key, IsIndexed}
use pynagle.LoadBalancer.Heap.Order.{IsHeap, UpInv, Rearranges}
use pynagle.LoadBalancer.Heap.Up.{fix_up-restores}
use pynagle.LoadBalancer.HeapBalancer.{Balancer, opens, idle_load, node, append_node, add_sink}
use pynagle.LoadBalancer.HeapBalancer.Invariant.{IsSound, IsOrdered, Rearranges-IsSound}

module _ (h : Heap) (n : ℕ) (x : Node) (fits : x.index ≡ pos (suc h.top))
    (free : (c : ℕ) → c ≤ h.top → h.slots c < n) where
  append_node-IsIndexed : IsIndexed h → IsIndexed (append_node h n x)
  unfolding append_node
  append_node-IsIndexed v c hc = ground (arith, v c, free c)

  append_node-key : (c : ℕ) → c ≤ h.top → key (append_node h n x) c ≡ key h c
  unfolding append_node
  append_node-key c hc = ground (arith, free c hc)

  append_node-UpInv : (s : ℕ) → h.top ≡ s → IsHeap s h → UpInv (suc s) (append_node h n x) (suc s)
  append_node-UpInv s e o = record {
    edges = λ c two hc ne.
        rw (append_node-key c (omega arith), append_node-key (c / 2) (omega arith))
          (o c two (omega arith));
    bridged = λ c two hc e two'. absurd (omega arith);
  }

-- What _AddSink does.
pub record Added (b : Balancer) (endpoint channel : ℕ) (c : Balancer) : Type 0 where
  pub sound : IsSound c
  pub ordered : IsOrdered b → IsOrdered c
  pub grown : c.size ≡ suc b.size
  pub arrived : (d : ℕ) × (0 < d) × (d ≤ c.size) × (c.heap.slots d ≡ b.fresh)
  pub idle : (node c b.fresh).load ≡ idle_load
  pub serves : (node c b.fresh).endpoint ≡ some endpoint
  pub stays : (i : ℕ) → i ≤ b.size → (d : ℕ) × (d ≤ c.size) × (c.heap.slots d ≡ b.heap.slots i)
  pub loads : (n : ℕ) → n ≢ b.fresh → (node c n).load ≡ (node b n).load
  pub called : c.calls ≡ (if b.opened then opens channel ∷ b.calls else b.calls)

module _ (b : Balancer) (endpoint channel : ℕ) (v : IsSound b) where
  abbrev new_node : Node
  new_node = record {
    load = idle_load;
    index = pos (suc b.size);
    downq = none;
    endpoint = some endpoint;
    channel = channel;
  }

  abbrev grown : Heap
  grown = append_node b.heap b.fresh new_node

  abbrev grown_balancer : Balancer
  grown_balancer = record b { heap = grown; size = suc b.size; fresh = suc b.fresh }

  fits : new_node.index ≡ pos (suc b.heap.top)
  fits = ap (λ s. pos (suc s)) (sym v.sized)

  grown_top : grown.top ≡ suc b.size
  unfolding append_node
  grown_top = ap suc v.sized

  grown-slots : (c : ℕ) → c ≤ b.size → grown.slots c ≡ b.heap.slots c
  unfolding append_node
  grown-slots c hc = ground (arith, v.sized)

  grown-IsSound : IsSound grown_balancer
  unfolding append_node
  grown-IsSound = record {
    indexed = append_node-IsIndexed b.heap b.fresh new_node fits v.known v.indexed;
    sized = grown_top;
    known = λ c hc. ground (arith, v.known c, v.sized);
    unnamed = ground (arith, v.known 0, v.unnamed);
    named = λ c pc hc. ground (arith, v.named c, v.known c);
  }

  grown-UpInv : IsOrdered b → UpInv (suc b.size) grown (suc b.size)
  grown-UpInv o = append_node-UpInv b.heap b.fresh new_node fits v.known b.size v.sized o

  grown-Added :
      (h : Heap)
      → Rearranges (suc b.size) grown h
        × (UpInv (suc b.size) grown (suc b.size) → IsHeap (suc b.size) h)
      → Added b endpoint channel (record b {
        heap = h;
        size = suc b.size;
        fresh = suc b.fresh;
        calls = if b.opened then opens channel ∷ b.calls else b.calls;
      })
  unfolding append_node
  grown-Added h (m, mend) = record {
    sound = Rearranges-IsSound (suc b.size) (suc b.size) (suc b.fresh) grown h grown-IsSound m;
    ordered = λ o. mend (grown-UpInv o);
    grown = refl;
    arrived =
        let (d, hd, e) = m.moved (suc b.size) (omega (arith, grown_top)) in
        (
          d,
          ground (arith, m.sentinel, v.known 0, v.sized),
          omega (arith, grown_top, m.size),
          ground (arith, v.sized),
        );
    idle = m.loads b.fresh ∙ ground arith;
    serves = m.endpoints b.fresh ∙ ground arith;
    stays = λ i hi.
        let (d, hd, e) = m.moved i (omega (arith, grown_top)) in
        (d, omega (arith, grown_top, m.size), e ∙ grown-slots i hi);
    loads = λ n ne. m.loads n ∙ ground arith;
    called = refl;
  }

-- _AddSink returns a sound balancer with one more node, which is idle, serves the endpoint and is
-- opened if the balancer is open; all other nodes stay, with their loads, and a heap stays a heap.
pub add_sink-Added :
    (b : Balancer) (endpoint channel : ℕ)
    → IsSound b
    → Returns (Added b endpoint channel) (add_sink b endpoint channel)
unfolding add_sink
add_sink-Added b endpoint channel v =
    Returns-bind
      (fix_up-restores (suc b.size) (grown b endpoint channel v) (suc b.size) (omega arith)
        (omega (arith, grown_top b endpoint channel v))
        (grown-IsSound b endpoint channel v).indexed)
      λ h m. returns (grown-Added b endpoint channel v h m)
