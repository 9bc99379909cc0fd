-- ===== src/LoadBalancer/Aperture.antt =====
-- scales/loadbalancer/aperture.py, class ApertureBalancerSink, over the heap balancer. Endpoints are
-- numbers and sets of them lists. What random.choice picks, the channel that a factory makes, the
-- load average and the states of channels are arguments; loads are whole numbers of a fine unit.
pub mod Bounds
mod Tests
use pynagle.Common.{
  ℕ, zero, suc, ◌+◌, ◌-◌, ◌*◌, ◌%◌, Bool, true, false, not, ◌&&◌, Option, none, some, List, [], ◌∷◌,
  ltb, leb, ◌==◌, if◌then◌else◌, contains, erase, length, Run, ok, raised, ◌>>=◌,
}
use pynagle.Common.Int.{ℤ, pos, ◌+ℤ◌}
use pynagle.Constants.{ChannelState, state_eq, state_le}
use pynagle.LoadBalancer.Heap.{Heap, at}
use pynagle.LoadBalancer.HeapBalancer.{Balancer, add_sink, remove_sink}

-- The settings of the aperture.
pub record Settings : Type 0 where
  pub min_size : ℕ
  pub max_size : ℕ
  pub min_load : ℕ
  pub max_load : ℕ

-- `servers` are the keys of the dict _servers of the base class.
pub record Aperture : Type 0 where
  pub balancer : Balancer
  pub servers : List ℕ
  pub idle : List ℕ
  pub pending : List ℕ
  pub total : ℤ

-- set.add
unfoldable pub include : ℕ → List ℕ → List ℕ
include e xs = if contains xs e then xs else e ∷ xs

-- random.choice of a list that has an element, for a random number.
unfoldable pub choose : ℕ → ℕ → List ℕ → ℕ
choose pick first [] = first
choose zero first (e ∷ more) = first
choose (suc pick) first (e ∷ more) = choose pick e more

-- _TryExpandAperture: the endpoint that it adds, if there is an idle one; an endpoint that is no key of
-- _servers raises KeyError. With leave_pending it stays
-- pending, and else until its channel has been opened.
unfoldable pub expand_from : ℕ → ℕ → List ℕ → Aperture → Run (Option ℕ × Aperture)
unfolding choose include
expand_from pick channel [] a = ok (none, a)
expand_from pick channel (e ∷ more) a =
    let chosen = choose (pick % suc (length more)) e more in
    let added = add_sink a.balancer chosen channel >>= λ b. ok (
      some chosen,
      record a { balancer = b; idle = erase chosen a.idle; pending = include chosen a.pending },
    ) in
    if contains a.servers chosen then added else raised

unfoldable pub expand : ℕ → ℕ → Aperture → Run (Option ℕ × Aperture)
unfolding expand_from
expand pick channel a = expand_from pick channel a.idle a

-- The callback of an added endpoint whose channel has been opened.
unfoldable pub added_opened : ℕ → Aperture → Aperture
added_opened e a = record a { pending = erase e a.pending }

module _ (settings : Settings) (state : ℕ → ChannelState) where
  -- is_open and is_closed of the channel at a position.
  unfoldable pub open_at : Heap → ℕ → Bool
  open_at h i = state_le (state (at h i).channel) ChannelState.busy

  unfoldable pub closed_at : Heap → ℕ → Bool
  closed_at h i = state_eq (state (at h i).channel) ChannelState.closed

  -- The nodes at the positions from 1 to `n` whose channel is open.
  unfoldable pub count_open : Heap → ℕ → ℕ
  unfolding open_at
  count_open h zero = 0
  count_open h (suc n) = count_open h n + (if open_at h (suc n) then 1 else 0)

  unfoldable pub num_healthy : Aperture → ℕ
  unfolding count_open
  num_healthy a = count_open a.balancer.heap a.balancer.heap.top

  -- _AddSink
  unfoldable pub add_server_sink : ℕ → ℕ → Aperture → Run Aperture
  unfolding num_healthy include
  add_server_sink endpoint channel a =
      let added = add_sink a.balancer endpoint channel >>= λ b. ok (record a { balancer = b }) in
      if ltb (num_healthy a) settings.min_size
      then added
      else ok (record a { idle = include endpoint a.idle })

  -- _RemoveSink
  unfoldable pub discard_idle : ℕ → Aperture → Aperture
  discard_idle endpoint a = record a { idle = erase endpoint a.idle }

  unfoldable pub remove_server_sink : ℕ → ℕ → ℕ → Aperture → Run Aperture
  unfolding expand discard_idle
  remove_server_sink pick channel endpoint a = remove_sink a.balancer endpoint >>= λ (removed, b).
      let less : Aperture = record a { balancer = b } in
      let expanded = expand pick channel less >>= λ (e, c). ok (discard_idle endpoint c) in
      if removed then expanded else ok (discard_idle endpoint less)

  -- The endpoint at a position, unless it is pending, or a test of it fails.
  unfoldable pub candidate : Bool → Option ℕ → List ℕ → Option ℕ
  candidate test none pending = none
  candidate test (some e) pending = if test && not (contains pending e) then some e else none

  -- The first candidate from a position on, with so many left; only closed channels, or all.
  unfoldable pub scan_from : Bool → ℕ → Heap → List ℕ → ℕ → Option ℕ
  unfolding candidate closed_at
  scan_from only_closed zero h pending i = none
  scan_from only_closed (suc rounds) h pending i =
      let rest = scan_from only_closed rounds h pending (suc i) in
      let test = if only_closed then closed_at h i else true in
      elim (candidate test (at h i).endpoint pending) [ none ↦ rest | some e ↦ some e ]

  unfoldable pub least_loaded : Aperture → Option ℕ
  unfolding scan_from
  least_loaded a =
      let h = a.balancer.heap in
      elim (scan_from true h.top h a.pending 1) [
        | none ↦ scan_from false h.top h a.pending 1
        | some e ↦ some e
      ]

  -- The end of _ContractAperture.
  unfoldable pub leave : Option ℕ → Aperture → Run Aperture
  unfolding include
  leave none a = ok a
  leave (some e) a = remove_sink a.balancer e >>= λ (removed, b).
      ok (record a { balancer = b; idle = include e a.idle })

  -- _ContractAperture
  unfoldable pub contract : Bool → Aperture → Run Aperture
  unfolding leave least_loaded num_healthy
  contract force a =
      let contracted = leave (least_loaded a) a in
      if ltb 0 (length a.pending) && not force
      then ok a
      else (if ltb settings.min_size (num_healthy a) then contracted else ok a)

  -- _OnNodeDown, of a node with this channel.
  unfoldable pub on_node_down : ℕ → ℕ → ℕ → Aperture → Run Aperture
  unfolding expand
  on_node_down pick fresh channel a =
      let expanded = expand pick fresh a >>= λ (e, b). ok b in
      if state_eq (state channel) ChannelState.idle then ok a else expanded

  -- _Jitter once the endpoint that it added was opened, or failed to.
  unfoldable pub jitter_end : ℕ → Bool → Aperture → Run Aperture
  unfolding contract added_opened
  jitter_end e opened a =
      let contracted = contract true a >>= λ b. ok (added_opened e b) in
      if opened then contracted else ok (added_opened e a)

  -- The tests of the load per node: that it is at least max_load, and at most min_load. Without a node
  -- it is max_load.
  unfoldable pub is_high : ℕ → ℕ → Bool
  is_high average zero = true
  is_high average (suc size) = leb (settings.max_load * suc size) average

  unfoldable pub is_low : ℕ → ℕ → Bool
  is_low average zero = leb settings.max_load settings.min_load
  is_low average (suc size) = leb average (settings.min_load * suc size)

  -- _AdjustAperture; `average` is what the moving average of the total gives.
  unfoldable pub adjust : ℕ → ℕ → ℕ → ℤ → Aperture → Run Aperture
  unfolding is_high is_low expand contract
  adjust pick channel average amount a =
      let t : Aperture = record a { total = a.total +ℤ amount } in
      let size = a.balancer.size in
      let expanded = expand pick channel t >>= λ (e, b). ok b in
      let contracted = contract false t in
      if is_high average size && (ltb 0 (length a.idle) && ltb size settings.max_size)
      then expanded
      else (if is_low average size && ltb settings.min_size size then contracted else ok t)
