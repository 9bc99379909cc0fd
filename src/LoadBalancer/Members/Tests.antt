-- ===== src/LoadBalancer/Members/Tests.antt =====
-- The members of a balancer on concrete histories.
use pynagle.Common.{◌≡◌, refl, subst, true, false, some, [], ◌∷◌, ok}
use pynagle.Constants.{ChannelState}
use pynagle.LoadBalancer.Members.{
  added, Instance, found, unavailable, Members, init, open_balancer, open_impl, open_servers,
  add_all, add_server, add_endpoint, endpoint_of, find_endpoint,
}
use pynagle.LoadBalancer.Members.Tracking.{IsTracked}
use pynagle.LoadBalancer.Members.History.{
  Reachable, new, next, opens, initializes, Reachable-IsTracked,
}

abbrev server : Instance
server = record { service = 4; additional = (1, 5) ∷ [] }

abbrev serving_one : Members
serving_one = record {
  endpoint_name = some 1;
  channel = ChannelState.opened;
  servers = 5 ∷ [];
  init_done = true;
  open_result = some false;
  opening = false;
  changed = added 5 ∷ [];
  notices = [];
  held = [];
  passed = [];
}

test-open_impl :
    open_impl (unavailable ∷ found (server ∷ server ∷ []) ∷ []) (open_balancer (init (some 1)))
    ≡ serving_one
unfolding open_impl open_balancer init open_servers add_all add_server add_endpoint endpoint_of
    find_endpoint
test-open_impl = refl

is-opening : (open_balancer (init (some 1))).opening ≡ true
unfolding open_balancer init
is-opening = refl

serving_one-Reachable : Reachable (some 1) serving_one
serving_one-Reachable = subst (Reachable (some 1)) test-open_impl (
    next (next new opens)
      (initializes (unavailable ∷ found (server ∷ server ∷ []) ∷ []) is-opening))

Reachable-IsTracked_example : IsTracked serving_one
Reachable-IsTracked_example = Reachable-IsTracked serving_one-Reachable

server-endpoint : endpoint_of (some 1) server ≡ ok 5
unfolding endpoint_of find_endpoint
server-endpoint = refl
