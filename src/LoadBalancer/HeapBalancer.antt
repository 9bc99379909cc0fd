-- ===== src/LoadBalancer/HeapBalancer.antt =====
-- scales/loadbalancer/heap.py, class HeapBalancerSink: the least-loaded balancer.
-- A method takes the balancer and returns the new one; `calls` records, newest first, the calls
-- that it makes on channels. `state` is the state of each channel, which others decide. The hooks
-- (_OnGet, _OnPut, _OnNodeDown) are those of this class, which do nothing; varz and logs are left
-- out. A method runs under the lock, so no other one comes between its steps.
pub mod Invariant
pub mod Add
pub mod Remove
pub mod Find
pub mod Shuffle
pub mod Put
mod Tests
use pynagle.Common.{
  ℕ, zero, suc, ◌+◌, ◌-◌, ◌*◌, ◌/◌, ◌<◌, ◌≡◌, Bool, true, false, not, ◌&&◌, ◌||◌, Option, none,
  some, List, [], ◌∷◌, ltb, ◌==◌, if◌then◌else◌, Run, ok, raised, out_of_fuel, ◌>>=◌, update,
}
use pynagle.Common.Int.{ℤ, pos, negsuc, ltb_ℤ, leb_ℤ, eqb_ℤ, ◌+ℤ◌, ◌-ℤ◌, is_negative}
use pynagle.Constants.{ChannelState, state_eq, max_value, min_value}
use pynagle.LoadBalancer.Heap.{Heap, Node, at, swap, fix_up, fix_down}

-- Penalty and Idle (Int.MinValue + 1)
abbrev pub penalty : ℤ
penalty = max_value

abbrev pub idle_load : ℤ
idle_load = negsuc 2147483646

pub data Call : Type 0 where
  opens closes : ℕ → Call

-- `fresh` is an identity that no node has yet; `size` stays a ℕ, as the code resets it below 0.
pub record Balancer : Type 0 where
  pub heap : Heap
  pub size : ℕ
  pub downq : Option ℕ
  pub opened : Bool
  pub fresh : ℕ
  pub calls : List Call

-- __init__: position 0 holds a node that is never used.
unfoldable pub init : Balancer
init = record {
  heap = record {
    slots = λ i. 0;
    top = 0;
    nodes =
        λ n. record { load = idle_load; index = pos 0; downq = none; endpoint = none; channel = 0 };
  };
  size = 0;
  downq = none;
  opened = false;
  fresh = 1;
  calls = [];
}

-- `n.index` used as a position. A negative one would wrap in Python; here it ends the run.
abbrev pub position : ℤ → Run ℕ
position (pos i) = ok i
position (negsuc i) = raised

abbrev pub node : Balancer → ℕ → Node
node b n = b.heap.nodes n

abbrev pub set_node : Heap → ℕ → Node → Heap
set_node h n x = record h { nodes = update h.nodes n x }

abbrev pub set_load : Heap → ℕ → ℤ → Heap
set_load h n l = set_node h n (record (h.nodes n) { load = l })

-- The append of a new node to the list.
unfoldable pub append_node : Heap → ℕ → Node → Heap
append_node h n x = record {
  slots = update h.slots (suc h.top) n;
  top = suc h.top;
  nodes = update h.nodes n x;
}

-- _AddSink: `channel` is what the factory made.
unfoldable pub add_sink : Balancer → ℕ → ℕ → Run Balancer
unfolding append_node fix_up
add_sink b endpoint channel =
    let size = suc b.size in
    let new_node : Node = record {
      load = idle_load;
      index = pos size;
      downq = none;
      endpoint = some endpoint;
      channel = channel;
    } in
    fix_up (append_node b.heap b.fresh new_node) size >>= λ h. ok (record b {
      heap = h;
      size = size;
      fresh = suc b.fresh;
      calls = if b.opened then opens channel ∷ b.calls else b.calls;
    })

endpoint_is : ℕ → Option ℕ → Bool
endpoint_is e none = false
endpoint_is e (some x) = x == e

-- The first position from `i` on, with so many left to try, of a node with this endpoint, or 0.
unfoldable pub find_from : ℕ → Heap → ℕ → ℕ → ℕ
unfolding endpoint_is
find_from zero h e i = 0
find_from (suc rounds) h e i =
    if endpoint_is e (at h i).endpoint then i else find_from rounds h e (suc i)

-- _FindNodeByEndpoint: the position, with 0 for None.
unfoldable pub find_node : Heap → ℕ → ℕ
unfolding find_from
find_node h e = find_from (suc h.top) h e 0

-- The end of _RemoveSink: the last node of the list goes, and is closed unless it is in use.
unfoldable pub drop_last : Balancer → Heap → ℕ → Balancer
drop_last b h n =
    let load = (h.nodes n).load in
    let channel = (h.nodes n).channel in
    let shut = eqb_ℤ load idle_load || leb_ℤ (pos 0) load in
    record b {
      heap = record h {
        top = h.top - 1;
        nodes = update h.nodes n (record (h.nodes n) { index = negsuc 0 });
      };
      size = b.size - 1;
      calls = if shut then closes channel ∷ b.calls else b.calls;
    }

-- _RemoveSink at a position.
unfoldable pub remove_at : Balancer → ℕ → Run Balancer
unfolding drop_last
remove_at b i =
    let n = b.heap.slots i in
    swap b.heap i b.size >>= λ g. fix_down g i (b.size - 1) >>= λ h. ok (drop_last b h n)

-- _RemoveSink
unfoldable pub remove_sink : Balancer → ℕ → Run (Bool × Balancer)
unfolding remove_at find_node
remove_sink b endpoint =
    let i = find_node b.heap endpoint in
    let removal = position (at b.heap i).index >>= λ p. remove_at b p >>= λ c. ok (true, c) in
    if (i == 0) || is_negative (at b.heap i).index then ok (false, b) else removal

-- __Put of a node that has become idle: it leaves its position for a random one, `j`.
unfoldable pub shuffle_idle : Heap → ℕ → ℕ → ℕ → Run Heap
shuffle_idle h i j size = swap h i size >>= λ h₁.
    fix_down h₁ i (size - 1) >>= λ h₂. swap h₂ j size >>= λ h₃. fix_up h₃ j >>= λ h₄. fix_up h₄ size

-- The load that __Put leaves: one less, and not below Idle.
unfoldable pub lowered : ℤ → ℤ
lowered l = let less = l -ℤ pos 1 in if ltb_ℤ less idle_load then idle_load else less

-- __Put once the load is lowered; `index` is the node's.
unfoldable pub settle : Balancer → ℕ → ℕ → ℤ → Run Balancer
settle b n j index =
    let load = (node b n).load in
    let shuffled =
      position index >>= λ i. shuffle_idle b.heap i j b.size >>= λ h. ok (record b { heap = h }) in
    let lifted = position index >>= λ i. fix_up b.heap i >>= λ h. ok (record b { heap = h }) in
    if is_negative index && ltb_ℤ idle_load load
    then ok b
    else (if is_negative index && eqb_ℤ load idle_load
        then ok (record b { calls = closes (node b n).channel ∷ b.calls })
        else (if eqb_ℤ load idle_load && ltb 1 b.size then shuffled else lifted))

-- __Put: `j` is the number from random.randint(1, size).
unfoldable pub put : Balancer → ℕ → ℕ → Run Balancer
unfolding settle lowered shuffle_idle
put b n j =
    settle (record b { heap = set_load b.heap n (lowered (node b n).load) }) n j (node b n).index

-- m.downq = x, or self._downq = x where there is no m
unfoldable pub link : Balancer → Option ℕ → Option ℕ → Balancer
link b none x = record b { downq = x }
link b (some m) x = record b { heap = set_node b.heap m (record (node b m) { downq = x }) }

module _ (state : ℕ → ChannelState) where
  -- The scan of the down queue in __Get: `m` is the last node that stays, `cur` the one to look at.
  unfoldable pub scan : ℕ → Balancer → Option ℕ → Option ℕ → Run Balancer
  unfolding link
  scan zero b m cur = out_of_fuel
  scan (suc k) b m none = ok b
  scan (suc k) b m (some n) =
      let next = (node b n).downq in
      let discarded = scan k (link b m next) m next in
      let raise : ℕ → Run Balancer = λ i.
        fix_up (set_load b.heap n ((node b n).load -ℤ penalty)) i >>= λ h.
        scan k
          (link (record b { heap = set_node h n (record (h.nodes n) { downq = none }) }) m next) m
          next in
      let resurrected = position (node b n).index >>= raise in
      let unchanged = scan k b (some n) next in
      if is_negative (node b n).index
      then discarded
      else (if state_eq (state (node b n).channel) ChannelState.opened
          then resurrected
          else unchanged)

  -- __Get marks the root down and lets it sink.
  unfoldable pub mark_down : Balancer → ℕ → Run Balancer
  mark_down b n =
      let h =
        set_node b.heap n
          (record (node b n) { downq = b.downq; load = (node b n).load +ℤ penalty }) in
      fix_down h 1 b.size >>= λ g. ok (record b { heap = g; downq = some n })

  -- __Get, with fuel `f` for the scan.
  unfoldable pub get : ℕ → ℕ → Balancer → Run (ℕ × Balancer)
  unfolding scan mark_down
  get zero f b = out_of_fuel
  get (suc k) f b = scan f b none b.downq >>= λ c.
      let n = c.heap.slots 1 in
      let again = mark_down c n >>= λ d. get k f d in
      if state_eq (state (node c n).channel) ChannelState.opened || leb_ℤ (pos 0) (node c n).load
      then ok (n, c)
      else again

  -- _AsyncProcessRequestImpl: the node that serves the request, or none for the failing sink.
  unfoldable pub request : ℕ → ℕ → Balancer → Run (Option ℕ × Balancer)
  unfolding get
  request k f b =
      let served = get k f b >>= λ (n, c).
      let h = set_load c.heap n ((node c n).load +ℤ pos 1) in
      position (node c n).index >>= λ i.
      fix_down h i c.size >>= λ g. ok (some n, record c { heap = g }) in
      if b.size == 0 then ok (none, b) else served
