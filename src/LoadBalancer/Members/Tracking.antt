-- ===== src/LoadBalancer/Members/Tracking.antt =====
-- What a join and a leave do to the members, and to a subclass that follows the calls of its hook.
use pynagle.Common.{
  ℕ, ◌≤◌, ◌<◌, ◌≡◌, refl, ap, sym, subst, Bool, true, false, Option, none, some, List, [], ◌∷◌,
  ◌++◌, ◌==◌, if◌then◌else◌, contains, occ, occ-append, erase, occ-erase, ok, ◌>>=◌, Returns,
  returns, arith,
}
use pynagle.Constants.{ChannelState}
use pynagle.LoadBalancer.Members.{
  Instance, Change, added, removed, joins, leaves, Members, endpoint_of, add_endpoint, add_server,
  remove_server, on_join, on_leave, handle,
}

-- The endpoints of a subclass that follows the calls of its hook.
unfoldable pub view : List Change → List ℕ
view [] = []
view (added e ∷ changed) = view changed ++ e ∷ []
view (removed e ∷ changed) = erase e (view changed)

-- How far the balancer has come, in its open_result, opening, init_done, state and changes.
pub data Phase : Option Bool → Bool → Bool → ChannelState → List Change → Type 0 where
  unopened : Phase none false false ChannelState.idle []
  initializing : (ready : Bool) → Phase (some ready) true false ChannelState.idle []
  broken :
      (ready : Bool) (changed : List Change)
      → Phase (some ready) false false ChannelState.idle changed
  serving :
      (ready : Bool) (changed : List Change)
      → Phase (some ready) false true ChannelState.opened changed
  shut :
      (open_result : Option Bool) (opening : Bool) (changed : List Change)
      → Phase open_result opening false ChannelState.closed changed

pub record IsTracked (s : Members) : Type 0 where
  pub phase : Phase s.open_result s.opening s.init_done s.channel s.changed
  pub viewed : view s.changed ≡ s.servers
  pub once : (e : ℕ) → occ e s.servers ≤ 1

occ-contains : (e : ℕ) (xs : List ℕ) → contains xs e ≡ false → occ e xs ≡ 0
occ-contains e [] h = refl
occ-contains e (x ∷ xs) h = ground (arith, occ-contains e xs)

occ-absent : (e x : ℕ) (xs : List ℕ) → occ e xs ≡ 0 → occ x (erase e xs) ≡ occ x xs
occ-absent e x [] h = refl
occ-absent e x (y ∷ xs) h = ground (arith, occ-absent e x xs)

-- After the endpoint `e` joined, or left.
pub record Changed (count e : ℕ) (s t : Members) : Type 0 where
  pub counted : (x : ℕ) → occ x t.servers ≡ (if e == x then count else occ x s.servers)
  pub viewed : view t.changed ≡ t.servers
  pub same_init : t.init_done ≡ s.init_done
  pub same_channel : t.channel ≡ s.channel
  pub same_result : t.open_result ≡ s.open_result
  pub same_opening : t.opening ≡ s.opening
  pub same_name : t.endpoint_name ≡ s.endpoint_name

occ-found : (e : ℕ) (xs : List ℕ) → contains xs e ≡ true → 0 < occ e xs
occ-found e [] h = ground arith
occ-found e (x ∷ xs) h = ground (arith, occ-found e xs)

unchanged-Changed :
    (e : ℕ) (s : Members) → view s.changed ≡ s.servers → occ e s.servers ≡ 1 → Changed 1 e s s
unchanged-Changed e s v o = record {
  counted = λ x. ground arith;
  viewed = v;
  same_init = refl;
  same_channel = refl;
  same_result = refl;
  same_opening = refl;
  same_name = refl;
}

pub add_endpoint-Changed :
    (e : ℕ) (s : Members)
    → view s.changed ≡ s.servers
    → ((x : ℕ) → occ x s.servers ≤ 1)
    → Changed 1 e s (add_endpoint e s)
unfolding add_endpoint view
add_endpoint-Changed e s v o =
    elim (contains s.servers e)
        as (λ b.
          contains s.servers e ≡ b
          → Changed 1 e s (
              if b
              then s
              else record s { servers = s.servers ++ e ∷ []; changed = added e ∷ s.changed })) [
                | true ↦ λ c.
                    let f = occ-found e s.servers c in
                    let l = o e in unchanged-Changed e s v (omega arith)
                | false ↦ λ c. record {
                  counted = λ x.
                      let z = occ-contains e s.servers c in
                      let a = occ-append x s.servers (e ∷ []) in ground arith;
                  viewed = ap (λ t. t ++ e ∷ []) v;
                  same_init = refl;
                  same_channel = refl;
                  same_result = refl;
                  same_opening = refl;
                  same_name = refl;
                }
              ]
      refl

erased_count :
    (e x : ℕ) (xs : List ℕ) → occ e xs ≤ 1 → occ x (erase e xs) ≡ (if e == x then 0 else occ x xs)
erased_count e x xs h =
    elim (contains xs e)
        as (λ b. contains xs e ≡ b → occ x (erase e xs) ≡ (if e == x then 0 else occ x xs)) [
          | true ↦ λ c. let f = occ-erase e x xs (occ-found e xs c) in ground arith
          | false ↦ λ c. let z = occ-contains e xs c in let f = occ-absent e x xs z in ground arith
        ]
      refl

pub join-Changed :
    (instance : Instance) (e : ℕ) (s : Members)
    → view s.changed ≡ s.servers
    → ((x : ℕ) → occ x s.servers ≤ 1)
    → endpoint_of s.endpoint_name instance ≡ ok e
    → Returns (Changed 1 e s) (on_join instance s)
unfolding on_join add_server
join-Changed instance e s v o h =
    subst
      (λ x.
        Returns (Changed 1 e s)
          (x >>= λ d. if contains s.servers d then ok s else x >>= λ c. ok (add_endpoint c s)))
      (sym h)
      (elim (contains s.servers e)
          as (λ b.
            contains s.servers e ≡ b
            → Returns (Changed 1 e s) (if b then ok s else ok (add_endpoint e s))) [
              | true ↦ λ c.
                  let f = occ-found e s.servers c in
                  let l = o e in returns (unchanged-Changed e s v (omega arith))
              | false ↦ λ c. returns (add_endpoint-Changed e s v o)
            ]
        refl)

pub removed-Changed :
    (e : ℕ) (s : Members)
    → view s.changed ≡ s.servers
    → ((x : ℕ) → occ x s.servers ≤ 1)
    → Changed 0 e s (record s { servers = erase e s.servers; changed = removed e ∷ s.changed })
unfolding view
removed-Changed e s v o = record {
  counted = λ x. erased_count e x s.servers (o e);
  viewed = ap (erase e) v;
  same_init = refl;
  same_channel = refl;
  same_result = refl;
  same_opening = refl;
  same_name = refl;
}

leave-Changed :
    (instance : Instance) (e : ℕ) (s : Members)
    → view s.changed ≡ s.servers
    → ((x : ℕ) → occ x s.servers ≤ 1)
    → endpoint_of s.endpoint_name instance ≡ ok e
    → Returns (Changed 0 e s) (on_leave instance s)
unfolding on_leave remove_server
leave-Changed instance e s v o h =
    let after : Members = record s {
      servers = erase e s.servers;
      changed = removed e ∷ s.changed;
    } in
    subst
      (λ x. Returns (Changed 0 e s) (
        x
        >>= (λ d. ok (record s { servers = erase d s.servers; changed = removed d ∷ s.changed }))
        >>= λ t. endpoint_of t.endpoint_name instance >>= λ c. ok t))
      (sym h)
      (subst (λ x. Returns (Changed 0 e s) (x >>= λ c. ok after)) (sym h)
        (returns (removed-Changed e s v o)))

-- A join makes its endpoint a member, once, and a leave makes it none; no other endpoint comes or
-- goes, and the subclass is told so. The balancer follows its members and each is there once, and
-- the instance has an endpoint.
pub handle-Changed :
    (instance : Instance) (e : ℕ) (s : Members)
    → IsTracked s
    → endpoint_of s.endpoint_name instance ≡ ok e
    → Returns (Changed 1 e s) (handle (joins instance) s)
      × Returns (Changed 0 e s) (handle (leaves instance) s)
unfolding handle
handle-Changed instance e s h q =
    (join-Changed instance e s h.viewed h.once q, leave-Changed instance e s h.viewed h.once q)
