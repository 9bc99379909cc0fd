-- ===== src/LoadBalancer/Heap.antt =====
-- scales/loadbalancer/heap.py, class Heap: the array heap of nodes that the balancers keep.
-- A Python list of nodes is two stores: `slots`, the identity of the node at each position, and
-- `nodes`, the object behind each identity; `top` is the last position, `len(heap) - 1`.
-- A position past `top` raises, as IndexError does.
pub mod Order
pub mod Up
pub mod Down
pub mod Swap
use pynagle.Common.{
  ℕ, zero, suc, ◌+◌, ◌*◌, ◌/◌, ◌<◌, Bool, true, false, not, ◌&&◌, ◌||◌, Option, none, ltb, ◌==◌,
  if◌then◌else◌, Run, ok, raised, out_of_fuel, ◌>>=◌, update,
}
use pynagle.Common.Int.{ℤ, pos, negsuc, ltb_ℤ}

-- Node: `channel` and `endpoint` stand for the objects that the node refers to.
pub record Node : Type 0 where
  pub load : ℤ
  pub index : ℤ
  pub downq : Option ℕ
  pub endpoint : Option ℕ
  pub channel : ℕ

-- Node.__lt__
unfoldable pub lt : Node → Node → Bool
lt x y =
    if ltb_ℤ y.load x.load
    then false
    else (if ltb_ℤ x.load y.load then true else ltb_ℤ x.index y.index)

pub record Heap : Type 0 where
  pub slots : ℕ → ℕ
  pub top : ℕ
  pub nodes : ℕ → Node

-- heap[i], as an object
abbrev pub at : Heap → ℕ → Node
at h i = h.nodes (h.slots i)

abbrev pub in_range : Heap → ℕ → Bool
in_range h i = ltb i (suc h.top)

-- The two writes of `heap[i].index = i` after the exchange.
unfoldable pub exchange : Heap → ℕ → ℕ → Heap
exchange h i j =
    let a = h.slots i in
    let b = h.slots j in
    let moved = update h.nodes b (record (h.nodes b) { index = pos i }) in
    record h {
      slots = update (update h.slots i b) j a;
      nodes = update moved a (record (moved a) { index = pos j });
    }

-- Heap.Swap
unfoldable pub swap : Heap → ℕ → ℕ → Run Heap
unfolding exchange
swap h i j =
    if (i == 0) || (j == 0)
    then raised
    else (if in_range h i && in_range h j then ok (exchange h i j) else raised)

-- heap[i] < heap[j]
unfoldable pub less : Heap → ℕ → ℕ → Run Bool
unfolding lt
less h i j = if in_range h i && in_range h j then ok (lt (at h i) (at h j)) else raised

-- Heap.FixUp: the loop, and the call.
unfoldable pub fix_up_loop : ℕ → Heap → ℕ → Run Heap
unfolding less swap
fix_up_loop zero h i = out_of_fuel
fix_up_loop (suc k) h i =
    let rise = swap h i (i / 2) >>= λ g. fix_up_loop k g (i / 2) in
    let round = less h i (i / 2) >>= λ smaller. if smaller then rise else ok h in
    if i == 1 then ok h else round

unfoldable pub fix_up : Heap → ℕ → Run Heap
unfolding fix_up_loop
fix_up h i = fix_up_loop (suc i) h i

-- m = 2 * i if (j == i * 2 or heap[2*i] < heap[2*i+1]) else 2*i+1
unfoldable pub smaller_child : Heap → ℕ → ℕ → Run ℕ
unfolding less
smaller_child h i j =
    let both = less h (2 * i) (2 * i + 1) >>= λ left. ok (if left then 2 * i else 2 * i + 1) in
    if j == i * 2 then ok (2 * i) else both

-- Heap.FixDown: the loop, and the call.
unfoldable pub fix_down_loop : ℕ → Heap → ℕ → ℕ → Run Heap
unfolding smaller_child less swap
fix_down_loop zero h i j = out_of_fuel
fix_down_loop (suc k) h i j =
    let round = smaller_child h i j >>= λ m.
    let sink = swap h i m >>= λ g. fix_down_loop k g m j in
    less h m i >>= λ smaller. if smaller then sink else ok h in
    if ltb j (i * 2) then ok h else round

unfoldable pub fix_down : Heap → ℕ → ℕ → Run Heap
unfolding fix_down_loop
fix_down h i j = fix_down_loop (suc j) h i j
