-- ===== src/LoadBalancer/HeapBalancer/Tests.antt =====
-- Runs of the balancer, and the theorems at a heap of three nodes.
use pynagle.Common.{
  ◌+◌, ◌-◌, ◌≡◌, refl, true, false, arith, ◌==◌, if◌then◌else◌, ok, Run, Returns, Option, ℕ, ◌>>=◌,
  none, some, [],
}
use pynagle.Common.Int.{ℤ, pos, negsuc, ◌+ℤ◌}
use pynagle.Constants.{ChannelState}
use pynagle.LoadBalancer.Heap.{Heap, fix_down}
use pynagle.LoadBalancer.Heap.Swap.{IsIndexed}
use pynagle.LoadBalancer.Heap.Order.{IsHeap, DownInv, Rearranges}
use pynagle.LoadBalancer.Heap.Down.{fix_down-restores}
use pynagle.LoadBalancer.HeapBalancer.{
  Balancer, node, add_sink, remove_at, remove_sink, put, request,
}
use pynagle.LoadBalancer.HeapBalancer.Invariant.{IsSound}
use pynagle.LoadBalancer.HeapBalancer.Add.{Added, add_sink-Added}
use pynagle.LoadBalancer.HeapBalancer.Remove.{Removed, remove_at-Removed}
use pynagle.LoadBalancer.HeapBalancer.Find.{RemoveSink, remove_sink-RemoveSink}
use pynagle.LoadBalancer.HeapBalancer.Put.{on_heap, PutBack, put-PutBack}

-- Node n stands at position n, has load Idle + n and serves endpoint 10 + n.
abbrev sample_heap : Heap
sample_heap = record {
  slots = λ i. i;
  top = 3;
  nodes = λ n. record {
    load = negsuc (2147483646 - n);
    index = pos n;
    downq = none;
    endpoint = if n == 0 then none else some (10 + n);
    channel = 20 + n;
  };
}

abbrev sample : Balancer
sample = record { heap = sample_heap; size = 3; downq = none; opened = true; fresh = 4; calls = [] }

sample-IsIndexed : IsIndexed sample_heap
sample-IsIndexed i hi = refl

sample-IsSound : IsSound sample
sample-IsSound = record {
  indexed = sample-IsIndexed;
  sized = refl;
  known = λ c hc. omega arith;
  unnamed = refl;
  named = λ c pc hc. ground arith;
}

fix_down-restores_example :
    Returns
      (λ g. Rearranges 3 sample_heap g × (DownInv 3 sample_heap 1 → IsHeap 3 g))
      (fix_down sample_heap 1 3)
fix_down-restores_example =
    fix_down-restores sample_heap 1 3 (omega arith) (omega arith) sample-IsIndexed

add_sink-Added_example : Returns (Added sample 14 24) (add_sink sample 14 24)
add_sink-Added_example = add_sink-Added sample 14 24 sample-IsSound

remove_at-Removed_example : Returns (Removed sample 1) (remove_at sample 1)
remove_at-Removed_example = remove_at-Removed sample 1 sample-IsSound (omega arith) (omega arith)

remove_sink-RemoveSink_example : Returns (RemoveSink sample 12) (remove_sink sample 12)
remove_sink-RemoveSink_example = remove_sink-RemoveSink sample 12 sample-IsSound

put-PutBack_example : Returns (PutBack sample 1) (put sample 1 2)
put-PutBack_example =
    put-PutBack sample 1 2 sample-IsSound (on_heap 1 (omega arith) (omega arith) refl) (omega arith)
      (omega arith)

-- A removed endpoint that no node serves.
remove_unknown : (remove_sink sample 99 >>= λ (found, b). ok found) ≡ ok false
unfolding remove_sink
remove_unknown = refl

-- A request goes to the node at the root, whose load is one more afterwards.
first_node : Run (Option ℕ × Balancer) → Run (Option ℕ × ℤ)
first_node r = r >>= λ (n, b). let answer : Option ℕ × ℤ = (n, (node b 1).load) in ok answer

request_runs :
    first_node (request (λ c. ChannelState.opened) 5 5 sample)
    ≡ ok (some 1, negsuc (2147483646 - 2))
unfolding first_node request ◌+ℤ◌ fix_down
request_runs = refl
