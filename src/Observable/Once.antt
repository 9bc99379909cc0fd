-- ===== src/Observable/Once.antt =====
-- One shot callbacks are called once, and callbacks that unsubscribe no more.
use pynagle.Common.{
  ℕ, ◌+◌, ◌≤◌, ◌≡◌, subst, Bool, true, false, Option, some, List, [], ◌∷◌, ◌==◌, if◌then◌else◌, occ,
  occ-erase_le, ok, arith,
}
use pynagle.Observable.{
  Observable, add_callback, call_all, notify, notify_next, set_value, subscribe, unsubscribe,
}

-- How often a callback was called.
unfoldable pub calls_of : ℕ → List (ℕ × Option ℕ) → ℕ
calls_of k [] = 0
calls_of k ((j, v) ∷ calls) = (if j == k then 1 else 0) + calls_of k calls

-- What can happen; the index counts the one shot subscriptions of `k`, and `k` has no standing one.
pub data Step (k : ℕ) (o : Observable) : ℕ → Observable → Type 0 where
  sets : (v : Option ℕ) → Step k o 0 (set_value v o)
  notifies : Step k o 0 (notify_next o.spawned o)
  subscribes_once : {p : Observable} → subscribe (some k) true o ≡ ok p → Step k o 1 p
  others_subscribe :
      {p : Observable} (j : ℕ) (one_shot : Bool)
      → (j == k) ≡ false
      → subscribe (some j) one_shot o ≡ ok p
      → Step k o 0 p
  unsubscribes : (j : ℕ) → Step k o 0 (unsubscribe j o)

pub data Steps (k : ℕ) (o : Observable) : ℕ → Observable → Type 0 where
  start : Steps k o 0 o
  next : {m n : ℕ} {p q : Observable} → Steps k o m p → Step k p n q → Steps k o (m + n) q

-- The standing subscriptions of a callback, and its calls with its one shot ones.
record Counts (k bound : ℕ) (o : Observable) : Type 0 where
  standing : occ k o.callbacks ≡ 0
  called : calls_of k o.calls + occ k o.one_shot ≤ bound

calls_of-call_all :
    (k : ℕ) (v : Option ℕ) (callbacks : List ℕ) (calls : List (ℕ × Option ℕ))
    → calls_of k (call_all v callbacks calls) ≡ occ k callbacks + calls_of k calls
unfolding calls_of call_all
calls_of-call_all k v [] calls = omega arith
calls_of-call_all k v (j ∷ callbacks) calls =
    omega (arith, calls_of-call_all k v callbacks ((j, v) ∷ calls))

occ-add_callback :
    (j k : ℕ) (xs : List ℕ) → occ k (add_callback j xs) ≤ (if j == k then 1 else 0) + occ k xs
unfolding add_callback
occ-add_callback j k xs = ground arith

notify_next-Counts :
    (k bound : ℕ) (spawned : List (Option ℕ)) (o : Observable)
    → Counts k bound o
    → Counts k bound (notify_next spawned o)
unfolding notify_next notify
notify_next-Counts k bound [] o h = h
notify_next-Counts k bound (v ∷ more) o h =
    let s = h.standing in
    let c = h.called in
    let first = calls_of-call_all k v o.callbacks o.calls in
    let second = calls_of-call_all k v o.one_shot (call_all v o.callbacks o.calls) in
    record { standing = s; called = omega arith }

subscribe-Counts :
    (k bound j : ℕ) (one_shot : Bool) (o p : Observable)
    → (j == k) ≡ false
    → Counts k bound o
    → subscribe (some j) one_shot o ≡ ok p
    → Counts k bound p
unfolding subscribe
subscribe-Counts k bound j true o p n h e =
    let same : record o { one_shot = add_callback j o.one_shot } ≡ p = ground arith in
    let s = h.standing in
    let c = h.called in
    let a = occ-add_callback j k o.one_shot in
    subst (Counts k bound) same (record { standing = s; called = ground arith })
subscribe-Counts k bound j false o p n h e =
    let same : record o { callbacks = add_callback j o.callbacks } ≡ p = ground arith in
    let s = h.standing in
    let a = occ-add_callback j k o.callbacks in
    subst (Counts k bound) same (record { standing = ground arith; called = h.called })

once-Counts :
    (k bound : ℕ) (o p : Observable)
    → Counts k bound o
    → subscribe (some k) true o ≡ ok p
    → Counts k (bound + 1) p
unfolding subscribe
once-Counts k bound o p h e =
    let same : record o { one_shot = add_callback k o.one_shot } ≡ p = ground arith in
    let c = h.called in
    let a = occ-add_callback k k o.one_shot in
    subst (Counts k (bound + 1)) same (record { standing = h.standing; called = ground arith })

Step-Counts :
    (k bound n : ℕ) (o p : Observable) → Step k o n p → Counts k bound o → Counts k (bound + n) p
unfolding set_value unsubscribe
Step-Counts k bound _ o _ (sets v) h =
    let c = h.called in record { standing = h.standing; called = omega arith }
Step-Counts k bound _ o _ notifies h =
    let g = notify_next-Counts k bound o.spawned o h in
    let c = g.called in record { standing = g.standing; called = omega arith }
Step-Counts k bound _ o p (subscribes_once e) h = once-Counts k bound o p h e
Step-Counts k bound _ o p (others_subscribe j one_shot n e) h =
    let g = subscribe-Counts k bound j one_shot o p n h e in
    let c = g.called in record { standing = g.standing; called = omega arith }
Step-Counts k bound _ o _ (unsubscribes j) h =
    let s = h.standing in
    let c = h.called in
    let l = occ-erase_le j k o.callbacks in
    let m = occ-erase_le j k o.one_shot in record { standing = omega arith; called = omega arith }

Steps-Counts :
    (k bound : ℕ) (o : Observable) (n : ℕ) (p : Observable)
    → Counts k bound o
    → Steps k o n p
    → Counts k (bound + n) p
Steps-Counts k bound o _ _ h start =
    let c = h.called in record { standing = h.standing; called = omega arith }
Steps-Counts k bound o _ p h (next {m = m} {n = n} {p = middle} before step) =
    let g = Step-Counts k (bound + m) n middle p step (Steps-Counts k bound o m middle h before) in
    let c = g.called in record { standing = g.standing; called = omega arith }

-- A callback without a standing subscription, in a history in which it makes none, is called at most
-- once for each of its one shot subscriptions, those that it has and those that it makes.
pub one_shot-called :
    (k n : ℕ) (o p : Observable)
    → occ k o.callbacks ≡ 0
    → Steps k o n p
    → calls_of k p.calls ≤ calls_of k o.calls + occ k o.one_shot + n
one_shot-called k n o p h steps =
    let g =
      Steps-Counts k (calls_of k o.calls + occ k o.one_shot) o n p
        (record { standing = h; called = omega arith }) steps in
    let c = g.called in omega arith
