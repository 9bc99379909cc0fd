-- ===== src/LoadBalancer/ServerSet/Exact.antt =====
-- A change of the children and the round of the worker for it make the members the children.
use pynagle.Common.{
  ℕ, ◌+◌, ◌-◌, ◌≤◌, ◌≡◌, refl, sym, ap, subst, ◌∙◌, Bool, true, false, List, [], ◌∷◌, ◌==◌,
  if◌then◌else◌, occ, Run, ok, raised, ◌>>=◌, Returns, returns, Returns-bind, Returns-value, arith,
}
use pynagle.LoadBalancer.ServerSet.{
  Reading, no_node, malformed, member, waiting, ServerSet, filter, minus, unique, on_set_changed,
  to_members, update_members, remove_nodes, raise_notifications, take_work, get_work, pass,
  ensure_safe, finish, notification_worker,
}
use pynagle.LoadBalancer.ServerSet.Counting.{
  names, occ-filter, occ-minus, occ-unique, occ-update_members, remove_nodes-IsTold,
  tell_joined-IsTold,
}

unique-le : (k : ℕ) (xs : List ℕ) → occ k (unique xs) ≤ occ k xs
unfolding unique
unique-le k [] = omega arith
unique-le k (x ∷ xs) = ground (arith, unique-le k xs)

-- If every node has a member, those that pass the filter are read.
to_members-names :
    (member_filter : ℕ → Bool) (read : ℕ → Reading) (data_of : ℕ → ℕ)
    → ((n : ℕ) → read n ≡ member (data_of n))
    → (nodes : List ℕ)
    → Returns (λ new. names new ≡ filter member_filter nodes) (to_members member_filter read nodes)
unfolding to_members names filter
to_members-names member_filter read data_of there [] = returns refl
to_members-names member_filter read data_of there (n ∷ nodes) =
    let rest = to_members-names member_filter read data_of there nodes in
    elim (member_filter n)
      as (λ b.
        Returns
          (λ new.
            names new ≡ (if b then n ∷ filter member_filter nodes else filter member_filter nodes))
          (if b
            then (elim (read n) as (λ _. Run (List (ℕ × ℕ))) [
              | no_node ↦ to_members member_filter read nodes
              | malformed ↦ raised
              | member d ↦ to_members member_filter read nodes >>= λ members. ok ((n, d) ∷ members)
            ])
            else to_members member_filter read nodes)) [
              | true ↦
                  subst
                    (λ r.
                      Returns (λ new. names new ≡ n ∷ filter member_filter nodes)
                        (elim r as (λ _. Run (List (ℕ × ℕ))) [
                          | no_node ↦ to_members member_filter read nodes
                          | malformed ↦ raised
                          | member d ↦ to_members member_filter read nodes >>= λ members.
                              ok ((n, d) ∷ members)
                        ]))
                    (sym (there n)) (Returns-bind rest (λ new e. returns (ap (λ xs. n ∷ xs) e)))
              | false ↦ rest
            ]

-- The members after the notifications of a round.
raised_members :
    (k : ℕ) (new : List (ℕ × ℕ)) (gone : List ℕ) (s : ServerSet)
    → occ k (names (raise_notifications (ok new) gone s).members)
      ≡ (if occ k (names new) == 0
          then occ k (names s.members)
          else occ k (names s.members) + (1 - occ k (names s.members)))
        - occ k gone
unfolding raise_notifications
raised_members k new gone s =
    let put : ServerSet = record s { members = update_members new s.members } in
    let u = occ-update_members k new s.members in
    let r = (remove_nodes-IsTold k gone put).now in
    let j = (tell_joined-IsTold k new (remove_nodes gone put)).now in ground (arith, u, r, j)

raised_nodes :
    (new : List (ℕ × ℕ)) (gone : List ℕ) (s : ServerSet)
    → (raise_notifications (ok new) gone s).nodes ≡ s.nodes
unfolding raise_notifications
raised_nodes new gone s =
    let put : ServerSet = record s { members = update_members new s.members } in
    (tell_joined-IsTold 0 new (remove_nodes gone put)).same_nodes
    ∙ (remove_nodes-IsTold 0 gone put).same_nodes

-- The count of a name after the round, by those before it.
counted :
    (k : ℕ) (member_filter : ℕ → Bool) (children nodes : List ℕ) (found present after : ℕ)
    → present ≡ occ k nodes
    → occ k nodes ≤ 1
    → found ≡ occ k (filter member_filter (minus (unique (filter member_filter children)) nodes))
    → after
      ≡ (if found == 0 then present else present + (1 - present))
        - occ k (minus nodes (unique (filter member_filter children)))
    → after ≡ occ k (unique (filter member_filter children))
counted k member_filter children nodes found present after exact once named result =
    let kept = unique (filter member_filter children) in
    let passed = occ-filter k member_filter (minus kept nodes) in
    let entered = occ-minus k kept nodes in
    let left_out = occ-minus k nodes kept in
    let most = occ-unique k (filter member_filter children) in
    let among = unique-le k (filter member_filter children) in
    let own = occ-filter k member_filter children in
    ground (arith, exact, once, named, result, passed, entered, left_out, most, among, own)

-- Where every node has data: if each name has as many members as nodes, and at most one, while the
-- worker waits at an empty queue and nobody iterates, then after a change to `children` and the
-- steps of the worker for it, the members are again the nodes, which are the children that pass the
-- filter, each once.
pub round-exact :
    (member_filter : ℕ → Bool) (read : ℕ → Reading) (data_of : ℕ → ℕ) (children : List ℕ)
    (s : ServerSet)
    → ((n : ℕ) → read n ≡ member (data_of n))
    → ((k : ℕ) → occ k (names s.members) ≡ occ k s.nodes)
    → ((k : ℕ) → occ k s.nodes ≤ 1)
    → let start = record s { worker = waiting; queue = []; blocking = 0 } in
      let last =
        notification_worker member_filter read
          (ensure_safe (get_work (on_set_changed member_filter children start))) in
      (last.nodes ≡ unique (filter member_filter children))
      × ((k : ℕ) → occ k (names last.members) ≡ occ k (unique (filter member_filter children)))
unfolding on_set_changed get_work take_work ensure_safe pass notification_worker finish
round-exact member_filter read data_of children s there exact once =
    let kept = unique (filter member_filter children) in
    let new = minus kept s.nodes in
    let gone = minus s.nodes kept in
    let t : ServerSet = record s { nodes = kept; worker = waiting; queue = []; blocking = 0 } in
    let (found, e, named) = Returns-value (to_members-names member_filter read data_of there new) in
    subst
      (λ r.
        ((raise_notifications r gone t).nodes ≡ kept)
        × ((k : ℕ) → occ k (names (raise_notifications r gone t).members) ≡ occ k kept))
      (sym e)
      (
        raised_nodes found gone t,
        λ k.
            counted k member_filter children s.nodes (occ k (names found)) (occ k (names s.members))
              (occ k (names (raise_notifications (ok found) gone t).members)) (exact k) (once k)
              (ap (occ k) named) (raised_members k found gone t),
      )
