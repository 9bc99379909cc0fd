-- ===== src/LoadBalancer/ServerSet/Counting.antt =====
-- How often a name is a member, was told to have joined and to have left.
use pynagle.Common.{
  ℕ, ◌+◌, ◌-◌, ◌≤◌, ◌≡◌, refl, Bool, true, false, not, List, [], ◌∷◌, ◌==◌, if◌then◌else◌, contains,
  occ, Run, ok, raised, Safely, gives, raises, Safely-bind, Safely-test, Safely-weaken, ◌>>=◌,
  arith,
}
use pynagle.LoadBalancer.ServerSet.{
  Reading, no_node, malformed, member, Told, joined, left, ServerSet, filter, minus, unique,
  to_members, put_member, update_members, pop_member, has_member, remove_nodes, tell_joined,
  tell_left,
}

unfoldable pub names : List (ℕ × ℕ) → List ℕ
names [] = []
names ((n, d) ∷ members) = n ∷ names members

-- The calls of on_join and of on_leave for a name.
unfoldable pub joins_of : ℕ → List Told → ℕ
joins_of k [] = 0
joins_of k (joined n ∷ told) = (if n == k then 1 else 0) + joins_of k told
joins_of k (left n ∷ told) = joins_of k told

unfoldable pub leaves_of : ℕ → List Told → ℕ
leaves_of k [] = 0
leaves_of k (joined n ∷ told) = leaves_of k told
leaves_of k (left n ∷ told) = (if n == k then 1 else 0) + leaves_of k told

pub occ-filter :
    (k : ℕ) (test : ℕ → Bool) (xs : List ℕ)
    → occ k (filter test xs) ≡ (if test k then occ k xs else 0)
unfolding filter
occ-filter k test [] = ground arith
occ-filter k test (x ∷ xs) = ground (arith, occ-filter k test xs)

pub contains-occ : (k : ℕ) (xs : List ℕ) → contains xs k ≡ not (occ k xs == 0)
contains-occ k [] = ground arith
contains-occ k (x ∷ xs) = ground (arith, contains-occ k xs)

pub occ-minus :
    (k : ℕ) (xs ys : List ℕ) → occ k (minus xs ys) ≡ (if occ k ys == 0 then occ k xs else 0)
unfolding minus
occ-minus k xs ys = ground (arith, occ-filter k (λ x. not (contains ys x)) xs, contains-occ k ys)

pub occ-unique : (k : ℕ) (xs : List ℕ) → occ k (unique xs) ≤ 1
unfolding unique
occ-unique k [] = ground arith
occ-unique k (x ∷ xs) = ground (arith, occ-unique k xs, contains-occ x (unique xs))

pub occ-put_member :
    (k n d : ℕ) (members : List (ℕ × ℕ))
    → occ k (names (put_member n d members)) ≡ (
        if n == k
        then occ k (names members) + (1 - occ k (names members))
        else occ k (names members))
unfolding put_member names
occ-put_member k n d [] = ground arith
occ-put_member k n d ((j, e) ∷ members) = ground (arith, occ-put_member k n d members)

pub occ-update_members :
    (k : ℕ) (new members : List (ℕ × ℕ))
    → occ k (names (update_members new members)) ≡ (
        if occ k (names new) == 0
        then occ k (names members)
        else occ k (names members) + (1 - occ k (names members)))
unfolding update_members names
occ-update_members k [] members = ground arith
occ-update_members k ((n, d) ∷ new) members =
    ground (arith, occ-put_member k n d members, occ-update_members k new (put_member n d members))

pub occ-pop_member :
    (k n : ℕ) (members : List (ℕ × ℕ))
    → occ k (names (pop_member n members)) ≡ occ k (names members) - (if n == k then 1 else 0)
unfolding pop_member names
occ-pop_member k n [] = ground arith
occ-pop_member k n ((j, e) ∷ members) = ground (arith, occ-pop_member k n members)

pub has_member-occ :
    (k : ℕ) (members : List (ℕ × ℕ)) → has_member k members ≡ not (occ k (names members) == 0)
unfolding has_member names
has_member-occ k [] = ground arith
has_member-occ k ((j, e) ∷ members) = ground (arith, has_member-occ k members)

-- What was told of a name and how often it is a member, between two states with the same nodes,
-- queue and worker.
pub record IsTold (k joins leaves present : ℕ) (s t : ServerSet) : Type 0 where
  pub told_joins : joins_of k t.told ≡ joins_of k s.told + joins
  pub told_leaves : leaves_of k t.told ≡ leaves_of k s.told + leaves
  pub now : occ k (names t.members) ≡ present
  pub same_nodes : t.nodes ≡ s.nodes
  pub same_queue : t.queue ≡ s.queue
  pub same_worker : t.worker ≡ s.worker

pub remove_nodes-IsTold :
    (k : ℕ) (gone : List ℕ) (s : ServerSet)
    → let present = occ k (names s.members) in
      IsTold k 0 (present - (present - occ k gone)) (present - occ k gone) s (remove_nodes gone s)
unfolding remove_nodes names joins_of leaves_of
remove_nodes-IsTold k [] s = record {
  told_joins = omega arith;
  told_leaves = omega arith;
  now = omega arith;
  same_nodes = refl;
  same_queue = refl;
  same_worker = refl;
}
remove_nodes-IsTold k (n ∷ gone) s =
    let had = has_member-occ n s.members in
    let pop = occ-pop_member k n s.members in
    elim (has_member n s.members)
        as (λ b.
          has_member n s.members ≡ b
          → let present = occ k (names s.members) in
            IsTold k 0 (present - (present - occ k (n ∷ gone))) (present - occ k (n ∷ gone)) s (
              remove_nodes gone (
                if b
                then record s { members = pop_member n s.members; told = left n ∷ s.told }
                else s))) [
                  | true ↦ λ e.
                      let t = record s {
                        members = pop_member n s.members;
                        told = left n ∷ s.told;
                      } in
                      let h = remove_nodes-IsTold k gone t in
                      record {
                        told_joins = ground (arith, h.told_joins);
                        told_leaves = ground (arith, h.told_leaves);
                        now = ground (arith, h.now);
                        same_nodes = h.same_nodes;
                        same_queue = h.same_queue;
                        same_worker = h.same_worker;
                      }
                  | false ↦ λ e.
                      let h = remove_nodes-IsTold k gone s in
                      record {
                        told_joins = h.told_joins;
                        told_leaves = ground (arith, h.told_leaves);
                        now = ground (arith, h.now);
                        same_nodes = h.same_nodes;
                        same_queue = h.same_queue;
                        same_worker = h.same_worker;
                      }
                ]
      refl

pub tell_joined-IsTold :
    (k : ℕ) (new : List (ℕ × ℕ)) (s : ServerSet)
    → IsTold k (occ k (names new)) 0 (occ k (names s.members)) s (tell_joined new s)
unfolding tell_joined names joins_of leaves_of
tell_joined-IsTold k [] s = record {
  told_joins = omega arith;
  told_leaves = omega arith;
  now = refl;
  same_nodes = refl;
  same_queue = refl;
  same_worker = refl;
}
tell_joined-IsTold k ((n, d) ∷ new) s =
    let h = tell_joined-IsTold k new (record s { told = joined n ∷ s.told }) in
    record {
      told_joins = ground (arith, h.told_joins);
      told_leaves = h.told_leaves;
      now = h.now;
      same_nodes = h.same_nodes;
      same_queue = h.same_queue;
      same_worker = h.same_worker;
    }

-- The members that leave together.
pub joins_of-tell_left :
    (k : ℕ) (members : List (ℕ × ℕ)) (told : List Told)
    → joins_of k (tell_left members told) ≡ joins_of k told
unfolding tell_left joins_of
joins_of-tell_left k [] told = refl
joins_of-tell_left k ((n, d) ∷ members) told = joins_of-tell_left k members (left n ∷ told)

pub leaves_of-tell_left :
    (k : ℕ) (members : List (ℕ × ℕ)) (told : List Told)
    → leaves_of k (tell_left members told) ≡ leaves_of k told + occ k (names members)
unfolding tell_left leaves_of names
leaves_of-tell_left k [] told = omega arith
leaves_of-tell_left k ((n, d) ∷ members) told =
    ground (arith, leaves_of-tell_left k members (left n ∷ told))

-- The members read have names of the nodes.
pub occ-to_members :
    (k : ℕ) (member_filter : ℕ → Bool) (read : ℕ → Reading) (nodes : List ℕ)
    → Safely (λ new. occ k (names new) ≤ occ k nodes) (to_members member_filter read nodes)
unfolding to_members names
occ-to_members k member_filter read [] = gives (omega arith)
occ-to_members k member_filter read (n ∷ nodes) =
    let rest = occ-to_members k member_filter read nodes in
    let skipped : Safely (λ new. occ k (names new) ≤ occ k (n ∷ nodes))
        (to_members member_filter read nodes) =
      Safely-weaken (λ new h. ground (arith, h)) rest in
    Safely-test (member_filter n)
      (λ e.
        elim (read n)
          as (λ reading.
            Safely (λ new. occ k (names new) ≤ occ k (n ∷ nodes))
              (elim reading as (λ _. Run (List (ℕ × ℕ))) [
                | no_node ↦ to_members member_filter read nodes
                | malformed ↦ raised
                | member d ↦
                    to_members member_filter read nodes >>= λ members. ok ((n, d) ∷ members)
              ])) [
                | no_node ↦ skipped
                | malformed ↦ raises
                | member d ↦ Safely-bind rest (λ new h.
                    let counted : occ k (names ((n, d) ∷ new)) ≤ occ k (n ∷ nodes) =
                      omega (arith, h) in
                    gives counted)
              ])
      (λ e. skipped)
