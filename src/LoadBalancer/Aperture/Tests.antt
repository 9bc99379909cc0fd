-- ===== src/LoadBalancer/Aperture/Tests.antt =====
-- The aperture on a small balancer.
use pynagle.Common.{
  ℕ, ◌+◌, ◌-◌, [], ◌∷◌, ◌≡◌, ◌==◌, refl, none, some, true, if◌then◌else◌, Returns, arith,
}
use pynagle.Common.Int.{pos, negsuc}
use pynagle.Constants.{ChannelState}
use pynagle.LoadBalancer.Heap.{Heap}
use pynagle.LoadBalancer.HeapBalancer.Invariant.{IsSound}
use pynagle.LoadBalancer.Aperture.{
  Settings, Aperture, num_healthy, count_open, open_at, least_loaded, scan_from, closed_at,
  candidate, adjust,
}
use pynagle.LoadBalancer.Aperture.Bounds.{IsWithin, adjust-IsWithin}

abbrev two_nodes : Heap
two_nodes = record {
  slots = λ i. i;
  top = 2;
  nodes = λ n. record {
    load = negsuc (2147483646 - n);
    index = pos n;
    downq = none;
    endpoint = if n == 0 then none else some (10 + n);
    channel = 20 + n;
  };
}

abbrev aperture : Aperture
aperture = record {
  balancer = record {
    heap = two_nodes;
    size = 2;
    downq = none;
    opened = true;
    fresh = 3;
    calls = [];
  };
  servers = 11 ∷ 12 ∷ 13 ∷ [];
  idle = 13 ∷ [];
  pending = 12 ∷ [];
  total = pos 4;
}

abbrev settings : Settings
settings = record { min_size = 1; max_size = 3; min_load = 5; max_load = 20 }

abbrev second_closed : ℕ → ChannelState
second_closed c = if c == 22 then ChannelState.closed else ChannelState.opened

aperture-Sound : IsSound aperture.balancer
aperture-Sound = record {
  indexed = λ i hi. refl;
  sized = refl;
  known = λ c hc. omega arith;
  unnamed = refl;
  named = λ c pc hc. ground arith;
}

test-num_healthy : num_healthy settings second_closed aperture ≡ 1
unfolding num_healthy count_open open_at
test-num_healthy = refl

-- The closed channel is pending, so the other one is the candidate.
test-least_loaded : least_loaded settings second_closed aperture ≡ some 11
unfolding least_loaded scan_from closed_at candidate
test-least_loaded = refl

adjust-IsWithin_example :
    Returns (IsWithin settings) (adjust settings second_closed 0 23 50 (pos 1) aperture)
adjust-IsWithin_example =
    adjust-IsWithin settings second_closed 0 23 50 (pos 1) aperture (λ e h. ground (arith, h))
      (record { sound = aperture-Sound; least = omega arith; most = omega arith })
