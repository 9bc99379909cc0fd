-- ===== src/LoadBalancer/ServerSet.antt =====
-- scales/loadbalancer/zookeeper.py, class ServerSet: the members under a path of ZooKeeper. The names
-- of nodes are numbers. What kazoo reads for a node, whether it reports the path or its children, and
-- the filter of members are arguments. A member has the name of its node, as Member.from_node gives
-- it. `told` are the calls of on_join and on_leave, newest first, `queue` the work of the
-- notification worker, the oldest first. The worker takes work, waits while someone iterates, and
-- raises its notifications after its reads, each a step of its own: on_join and on_leave are taken to
-- return without waiting, so no other step comes between two of them. What they raise is only logged
-- there, as are other errors. Logs are left out.
pub mod Counting
pub mod Following
pub mod Rounds
pub mod History
pub mod Exact
pub mod Recreation
mod Tests
use pynagle.Common.{
  ℕ, zero, suc, ◌+◌, ◌-◌, Bool, true, false, not, ◌&&◌, ◌||◌, Option, none, some, List, [], ◌∷◌,
  ◌++◌, ◌==◌, if◌then◌else◌, contains, Run, ok, raised, ◌>>=◌,
}

-- What reading a node gives: NoNodeError, another exception, or the data of a member.
pub data Reading : Type 0 where
  no_node malformed : Reading
  member : ℕ → Reading

pub data Told : Type 0 where
  joined left : ℕ → Told

-- The greenlet of the worker: at its queue, with work, past the wait for those who iterate, or dead.
pub data Worker : Type 0 where
  waiting : Worker
  got reading : List ℕ → List ℕ → Worker
  killed : Worker

pub record ServerSet : Type 0 where
  pub nodes : List ℕ
  pub members : List (ℕ × ℕ)
  pub watching : Bool
  pub running : Bool
  pub blocking : ℕ
  pub worker : Worker
  pub queue : List (List ℕ × List ℕ)
  pub told : List Told

-- __init__
unfoldable pub init : ServerSet
init = record {
  nodes = [];
  members = [];
  watching = false;
  running = true;
  blocking = 0;
  worker = waiting;
  queue = [];
  told = [];
}

-- Those of a list for which a test holds; and a set without another.
unfoldable pub filter : (ℕ → Bool) → List ℕ → List ℕ
filter test [] = []
filter test (x ∷ xs) = let rest = filter test xs in if test x then x ∷ rest else rest

unfoldable pub minus : List ℕ → List ℕ → List ℕ
unfolding filter
minus xs ys = filter (λ x. not (contains ys x)) xs

-- set() of a list.
unfoldable pub unique : List ℕ → List ℕ
unique [] = []
unique (x ∷ xs) = let rest = unique xs in if contains rest x then rest else x ∷ rest

-- _on_set_changed
unfoldable pub on_set_changed : (ℕ → Bool) → List ℕ → ServerSet → ServerSet
unfolding minus unique
on_set_changed member_filter children s =
    let kept = unique (filter member_filter children) in
    record s { nodes = kept; queue = s.queue ++ (minus kept s.nodes, minus s.nodes kept) ∷ [] }

-- _zk_nodes_to_members: a node that is gone is skipped, and any other exception leaves it.
unfoldable pub to_members : (ℕ → Bool) → (ℕ → Reading) → List ℕ → Run (List (ℕ × ℕ))
to_members member_filter read [] = ok []
to_members member_filter read (n ∷ nodes) =
    let rest = to_members member_filter read nodes in
    if member_filter n
    then (elim (read n) as (λ _. Run (List (ℕ × ℕ))) [
      | no_node ↦ rest
      | malformed ↦ raised
      | member d ↦ rest >>= λ members. ok ((n, d) ∷ members)
    ])
    else rest

-- The dict of members: its update, pop, and whether a name is a key.
unfoldable pub put_member : ℕ → ℕ → List (ℕ × ℕ) → List (ℕ × ℕ)
put_member n d [] = (n, d) ∷ []
put_member n d ((k, e) ∷ members) =
    if k == n then (k, d) ∷ members else (k, e) ∷ put_member n d members

unfoldable pub update_members : List (ℕ × ℕ) → List (ℕ × ℕ) → List (ℕ × ℕ)
unfolding put_member
update_members [] members = members
update_members ((n, d) ∷ new) members = update_members new (put_member n d members)

unfoldable pub pop_member : ℕ → List (ℕ × ℕ) → List (ℕ × ℕ)
pop_member n [] = []
pop_member n ((k, e) ∷ members) = if k == n then members else (k, e) ∷ pop_member n members

unfoldable pub has_member : ℕ → List (ℕ × ℕ) → Bool
has_member n [] = false
has_member n ((k, e) ∷ members) = (k == n) || has_member n members

-- The loop of the worker over the removed nodes: a member leaves, and what is none is only logged.
unfoldable pub remove_nodes : List ℕ → ServerSet → ServerSet
unfolding has_member pop_member
remove_nodes [] s = s
remove_nodes (n ∷ removed) s = remove_nodes removed (
    if has_member n s.members
    then record s { members = pop_member n s.members; told = left n ∷ s.told }
    else s)

-- Its loop over the new members.
unfoldable pub tell_joined : List (ℕ × ℕ) → ServerSet → ServerSet
tell_joined [] s = s
tell_joined ((n, d) ∷ new) s = tell_joined new (record s { told = joined n ∷ s.told })

-- A round of _notification_worker; an exception before the callbacks ends it with nothing done.
unfoldable pub raise_notifications : Run (List (ℕ × ℕ)) → List ℕ → ServerSet → ServerSet
unfolding update_members remove_nodes tell_joined
raise_notifications (ok new) removed s =
    tell_joined new (remove_nodes removed (record s { members = update_members new s.members }))
raise_notifications _ removed s = s

-- The worker takes the oldest work.
unfoldable pub take_work : Worker → List (List ℕ × List ℕ) → ServerSet → ServerSet
take_work waiting ((new, gone) ∷ more) s = record s { worker = got new gone; queue = more }
take_work _ _ s = s

unfoldable pub get_work : ServerSet → ServerSet
unfolding take_work
get_work s = take_work s.worker s.queue s

-- ensure_safe
unfoldable pub pass : Worker → ServerSet → ServerSet
pass (got new gone) s = record s { worker = reading new gone }
pass _ s = s

unfoldable pub ensure_safe : ServerSet → ServerSet
unfolding pass
ensure_safe s = if s.blocking == 0 then pass s.worker s else s

-- The rest of the round, and whether it ends with an exception.
unfoldable pub read_new : (ℕ → Bool) → (ℕ → Reading) → Worker → Run (List (ℕ × ℕ))
unfolding to_members
read_new member_filter read (reading new gone) = to_members member_filter read new
read_new member_filter read _ = ok []

unfoldable pub finish : (ℕ → Bool) → (ℕ → Reading) → Worker → ServerSet → ServerSet
unfolding to_members raise_notifications
finish member_filter read (reading new gone) s =
    raise_notifications (to_members member_filter read new) gone (record s { worker = waiting })
finish member_filter read _ s = s

unfoldable pub notification_worker : (ℕ → Bool) → (ℕ → Reading) → ServerSet → ServerSet
unfolding finish
notification_worker member_filter read s = finish member_filter read s.worker s

-- _send_all_removed
unfoldable pub tell_left : List (ℕ × ℕ) → List Told → List Told
tell_left [] told = told
tell_left ((n, d) ∷ members) told = tell_left members (left n ∷ told)

-- With keys() a list, as in Python 2, all members are popped; with keys() a view, as in Python 3, the
-- pop of the first makes the next round raise RuntimeError, which leaves _data_changed.
unfoldable pub pop_first : List (ℕ × ℕ) → ServerSet → ServerSet
pop_first [] s = s
pop_first ((n, d) ∷ members) s = record s { members = members; told = left n ∷ s.told }

unfoldable pub send_all_removed : Bool → ServerSet → ServerSet
unfolding tell_left pop_first
send_all_removed false s = record s { members = []; told = tell_left s.members s.told }
send_all_removed true s = pop_first s.members s

-- _data_changed: whether keys() is a view, and whether the path exists.
unfoldable pub data_changed : Bool → Bool → ServerSet → ServerSet
unfolding send_all_removed
data_changed view false s = send_all_removed view (record s { watching = false })
data_changed view true s = if s.watching then s else record s { watching = true }

-- _CallbackBlocker around the reads of get_members.
unfoldable pub enter : ServerSet → ServerSet
enter s = record s { blocking = s.blocking + 1 }

unfoldable pub exit : ServerSet → ServerSet
exit s = record s { blocking = s.blocking - 1 }

-- get_members of the children, or of a path that does not exist.
unfoldable pub get_members : (ℕ → Bool) → (ℕ → Reading) → Option (List ℕ) → Run (List (ℕ × ℕ))
unfolding to_members
get_members member_filter read none = to_members member_filter read []
get_members member_filter read (some children) = to_members member_filter read children

unfoldable pub stop : ServerSet → ServerSet
stop s = record s { running = false; worker = killed }
