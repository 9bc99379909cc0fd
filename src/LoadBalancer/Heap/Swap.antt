-- ===== src/LoadBalancer/Heap/Swap.antt =====
-- The exchange of two positions: what it moves, and what it leaves.
use pynagle.Common.{ℕ, ◌≤◌, ◌<◌, ◌≡◌, refl, true, false, arith, ◌==◌, if◌then◌else◌, ok}
use pynagle.Common.Int.{ℤ, pos, ltb_ℤ}
use pynagle.LoadBalancer.Heap.{Heap, at, swap, exchange, less}

abbrev pub key : Heap → ℕ → ℤ
key h i = (at h i).load

-- Every node on the heap records its own position.
abbrev pub IsIndexed : Heap → Type 0
IsIndexed h = (i : ℕ) → i ≤ h.top → (at h i).index ≡ pos i

-- So no node stands at two positions.
pub slots-injective :
    (h : Heap) (i j : ℕ) → IsIndexed h → i ≤ h.top → j ≤ h.top → h.slots i ≡ h.slots j → i ≡ j
slots-injective h i j v hi hj e = ground (arith, v i, v j)

pub top-exchange : (h : Heap) (i j : ℕ) → (exchange h i j).top ≡ h.top
unfolding exchange
top-exchange h i j = refl

pub load-exchange : (h : Heap) (i j n : ℕ) → ((exchange h i j).nodes n).load ≡ (h.nodes n).load
unfolding exchange
load-exchange h i j n = ground arith

pub others-exchange :
    (h : Heap) (i j n : ℕ)
    → let m = (exchange h i j).nodes n in
      (m.channel ≡ (h.nodes n).channel)
      × (m.endpoint ≡ (h.nodes n).endpoint)
      × (m.downq ≡ (h.nodes n).downq)
unfolding exchange
others-exchange h i j n = ground arith

pub slots-exchange :
    (h : Heap) (i j c : ℕ)
    → (exchange h i j).slots c
      ≡ (if j == c then h.slots i else if i == c then h.slots j else h.slots c)
unfolding exchange
slots-exchange h i j c = ground arith

pub key-exchange :
    (h : Heap) (i j c : ℕ)
    → key (exchange h i j) c ≡ (if j == c then key h i else if i == c then key h j else key h c)
key-exchange h i j c =
    ground (arith, load-exchange h i j ((exchange h i j).slots c), slots-exchange h i j c)

pub index-exchange :
    (h : Heap) (i j n : ℕ)
    → ((exchange h i j).nodes n).index
      ≡ (if h.slots i == n then pos j else if h.slots j == n then pos i else (h.nodes n).index)
unfolding exchange
index-exchange h i j n = ground arith

pub exchange-IsIndexed :
    (h : Heap) (i j : ℕ) → IsIndexed h → i ≤ h.top → j ≤ h.top → IsIndexed (exchange h i j)
exchange-IsIndexed h i j v hi hj c hc =
    let kept : (exchange h i j).top ≡ h.top = top-exchange h i j in
    ground (
      arith,
      kept,
      slots-exchange h i j c,
      index-exchange h i j ((exchange h i j).slots c),
      v c,
      v i,
      v j,
      slots-injective h i j v,
      slots-injective h i c v,
      slots-injective h j c v,
    )

-- Within range and off the sentinel, Swap returns, and does the exchange.
pub swap-ok :
    (h : Heap) (i j : ℕ) → 0 < i → 0 < j → i ≤ h.top → j ≤ h.top → swap h i j ≡ ok (exchange h i j)
unfolding swap
swap-ok h i j pi pj hi hj = ground arith

-- Between positions in order, Node.__lt__ compares the loads alone.
pub less-above :
    (h : Heap) (i j : ℕ)
    → IsIndexed h
    → i ≤ j
    → j ≤ h.top
    → less h j i ≡ ok (ltb_ℤ (key h j) (key h i))
unfolding less
less-above h i j v hij hj = ground (arith, v i, v j)

pub less-below :
    (h : Heap) (i j : ℕ)
    → IsIndexed h
    → i < j
    → j ≤ h.top
    → less h i j ≡ ok (if ltb_ℤ (key h j) (key h i) then false else true)
unfolding less
less-below h i j v hij hj = ground (arith, v i, v j)
