-- ===== src/LoadBalancer/Members.antt =====
-- scales/loadbalancer/base.py, class LoadBalancerSink: the members of the server set. A method takes
-- the state and returns the new one. `changed` records, newest first, the calls of
-- _OnServersChanged, which a subclass overrides. The callbacks of the server set come one after the
-- other: `notices` are those that wait, the oldest first. Endpoints and requests are numbers.
pub mod Tracking
pub mod Delivery
pub mod History
pub mod Reopening
mod Tests
use pynagle.Common.{
  ℕ, suc, Bool, true, false, not, Option, none, some, List, [], ◌∷◌, ◌++◌, ◌==◌, if◌then◌else◌,
  contains, erase, Run, ok, raised, out_of_fuel, ◌>>=◌,
}
use pynagle.Constants.{ChannelState, state_eq}

-- A Member: its service endpoint, and its additional ones by name.
pub record Instance : Type 0 where
  pub service : ℕ
  pub additional : List (ℕ × ℕ)

pub data Change : Type 0 where
  added removed : ℕ → Change

pub data Notice : Type 0 where
  joins leaves : Instance → Notice

-- What an attempt to initialize the provider gives.
pub data Attempt : Type 0 where
  unavailable : Attempt
  found : List Instance → Attempt

-- `open_result` is __open_ar, if there is one, with whether it is set.
pub record Members : Type 0 where
  pub endpoint_name : Option ℕ
  pub channel : ChannelState
  pub servers : List ℕ
  pub init_done : Bool
  pub open_result : Option Bool
  pub opening : Bool
  pub changed : List Change
  pub notices : List Notice
  pub held : List ℕ
  pub passed : List ℕ

-- __init__
unfoldable pub init : Option ℕ → Members
init name = record {
  endpoint_name = name;
  channel = ChannelState.idle;
  servers = [];
  init_done = false;
  open_result = none;
  opening = false;
  changed = [];
  notices = [];
  held = [];
  passed = [];
}

-- dict.get
unfoldable pub find_endpoint : List (ℕ × ℕ) → ℕ → Run ℕ
find_endpoint [] name = raised
find_endpoint ((n, e) ∷ more) name = if n == name then ok e else find_endpoint more name

-- __GetEndpoint
unfoldable pub endpoint_of : Option ℕ → Instance → Run ℕ
unfolding find_endpoint
endpoint_of none instance = ok instance.service
endpoint_of (some name) instance = find_endpoint instance.additional name

-- The end of __AddServer.
unfoldable pub add_endpoint : ℕ → Members → Members
add_endpoint e s =
    if contains s.servers e
    then s
    else record s { servers = s.servers ++ e ∷ []; changed = added e ∷ s.changed }

-- __AddServer
unfoldable pub add_server : Instance → Members → Run Members
unfolding endpoint_of add_endpoint
add_server instance s = endpoint_of s.endpoint_name instance >>= λ e. ok (add_endpoint e s)

-- __RemoveServer: the hook is called also for an endpoint that is not there.
unfoldable pub remove_server : Instance → Members → Run Members
unfolding endpoint_of
remove_server instance s = endpoint_of s.endpoint_name instance >>= λ e.
    ok (record s { servers = erase e s.servers; changed = removed e ∷ s.changed })

-- __OnServerSetJoin once __init_done is set.
unfoldable pub on_join : Instance → Members → Run Members
unfolding endpoint_of add_server
on_join instance s = endpoint_of s.endpoint_name instance >>= λ e.
    let add = add_server instance s in if contains s.servers e then ok s else add

-- __OnServerSetLeave, which asks for the endpoint again to log it.
unfoldable pub on_leave : Instance → Members → Run Members
unfolding remove_server endpoint_of
on_leave instance s =
    remove_server instance s >>= λ t. endpoint_of t.endpoint_name instance >>= λ e. ok t

-- The server set calls back: the callback waits for __init_done.
unfoldable pub notify : Notice → Members → Members
notify n s = record s { notices = s.notices ++ n ∷ [] }

unfoldable pub handle : Notice → Members → Run Members
unfolding on_join on_leave
handle (joins instance) s = on_join instance s
handle (leaves instance) s = on_leave instance s

-- The state after a callback: one that raises ends before it has changed anything.
unfoldable pub after_callback : Members → Run Members → Members
after_callback s (ok t) = t
after_callback s raised = s
after_callback s out_of_fuel = s

-- The oldest callback goes on.
unfoldable pub deliver : List Notice → Members → Members
unfolding handle after_callback
deliver [] s = s
deliver (n ∷ more) s =
    let t : Members = record s { notices = more } in
    let done = after_callback t (handle n t) in if s.init_done then done else s

-- Open
unfoldable pub open_balancer : Members → Members
open_balancer s = elim s.open_result [
  | none ↦ record s { open_result = some false; opening = true }
  | some ready ↦ s
]

-- The list of __AddServer calls, and whether it ended without an exception.
unfoldable pub add_all : List Instance → Members → Bool × Members
unfolding add_server
add_all [] s = (true, s)
add_all (instance ∷ more) s = elim (add_server instance s) as (λ _. Bool × Members) [
  | ok t ↦ add_all more t
  | raised ↦ (false, s)
  | out_of_fuel ↦ (false, s)
]

-- The rest of _OpenImpl for the servers in shuffled order; the initial channels are the subclass's. An
-- exception ends the greenlet.
unfoldable pub open_servers : List Instance → Members → Members
unfolding add_all
open_servers instances s =
    let (all_added, t) = add_all instances (record s { servers = [] }) in
    if all_added
    then record t { init_done = true; opening = false; channel = ChannelState.opened }
    else record t { opening = false }

-- _OpenImpl over the attempts, of which one every 5 seconds until one succeeds.
unfoldable pub open_impl : List Attempt → Members → Members
unfolding open_servers
open_impl [] s = s
open_impl (unavailable ∷ more) s =
    if state_eq s.channel ChannelState.closed then s else open_impl more s
open_impl (found instances ∷ more) s =
    let servers = open_servers instances s in
    if state_eq s.channel ChannelState.closed then s else servers

-- The requests that waited and whose deadline has not passed.
unfoldable pub unexpired : (ℕ → Bool) → List ℕ → List ℕ
unexpired expired [] = []
unexpired expired (r ∷ held) =
    let more = unexpired expired held in if expired r then more else r ∷ more

-- _OnOpenComplete, and the callbacks of the requests that waited for it.
unfoldable pub on_open_complete : (ℕ → Bool) → Members → Run Members
unfolding unexpired
on_open_complete expired s = elim s.open_result [
  | none ↦ raised
  | some ready ↦ ok (record s {
    open_result = some true;
    held = [];
    passed = s.passed ++ unexpired expired s.held;
  })
]

-- AsyncProcessRequest
unfoldable pub request : ℕ → Members → Run Members
request r s = elim s.open_result [
  | none ↦ raised
  | some ready ↦
      if ready
      then ok (record s { passed = s.passed ++ r ∷ [] })
      else ok (record s { held = s.held ++ r ∷ [] })
]

-- Close
unfoldable pub close : Members → Members
close s = record s {
  channel = ChannelState.closed;
  init_done = false;
  opening = false;
  open_result = none;
}
