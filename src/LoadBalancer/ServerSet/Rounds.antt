-- ===== src/LoadBalancer/ServerSet/Rounds.antt =====
-- A round of the worker, and the changes of the path, keep what a server set has told of a name in
-- step with its members.
use pynagle.Common.{
  refl, ap, ℕ, ◌-◌, ◌≤◌, ◌≡◌, sym, subst, ◌∙◌, Bool, true, false, List, [], ◌∷◌, if◌then◌else◌, occ,
  Run, ok, Safely, gives, raises, runs_out, arith,
}
use pynagle.LoadBalancer.ServerSet.{
  Reading, Worker, waiting, got, reading, killed, ServerSet, to_members, update_members,
  remove_nodes, tell_joined, raise_notifications, read_new, finish, pop_first, send_all_removed,
  data_changed,
}
use pynagle.LoadBalancer.ServerSet.Counting.{
  joins_of, leaves_of, names, occ-update_members, remove_nodes-IsTold, tell_joined-IsTold,
  joins_of-tell_left, leaves_of-tell_left, occ-to_members,
}
use pynagle.LoadBalancer.ServerSet.Following.{
  is_raised, Leads, Follows, Tells, at_queue, at_reads, leads,
}

-- The round for work that takes the presence of `k` from h.now to `after`.
notified-Tells :
    (k after : ℕ) (new gone : List ℕ) (read : List (ℕ × ℕ)) (s : ServerSet) (h : Tells k s)
    → after ≤ 1
    → occ k new ≡ after - h.now
    → occ k gone ≡ h.now - after
    → Leads k (occ k s.nodes) after s.queue
    → occ k (names read) ≤ occ k new
    → Tells k (raise_notifications (ok read) gone (record s { worker = waiting }))
unfolding raise_notifications
notified-Tells k after new gone read s h m a b rest c =
    let put = record s { worker = waiting; members = update_members read s.members } in
    let removed = remove_nodes gone put in
    let u = occ-update_members k read s.members in
    let r = remove_nodes-IsTold k gone put in
    let j = tell_joined-IsTold k read removed in
    let t = tell_joined read removed in
    let nodes : t.nodes ≡ s.nodes = j.same_nodes ∙ r.same_nodes in
    let queue : t.queue ≡ s.queue = j.same_queue ∙ r.same_queue in
    let worker : t.worker ≡ waiting = j.same_worker ∙ r.same_worker in
    let h_now_once = h.now_once in
    let h_at_most = h.at_most in
    let h_balanced = h.balanced in
    let r1 = r.told_joins in
    let r2 = r.told_leaves in
    let r3 = r.now in
    let j1 = j.told_joins in
    let j2 = j.told_leaves in
    let j3 = j.now in
    record {
      now = after;
      follows =
          subst (λ n. Follows k (occ k n) after t.worker t.queue) (sym nodes)
            (subst (λ w. Follows k (occ k s.nodes) after w t.queue) (sym worker)
              (subst (λ q. Follows k (occ k s.nodes) after waiting q) (sym queue) (at_queue rest)));
      once = subst (λ n. occ k n ≤ 1) (sym nodes) h.once;
      now_once = m;
      at_most = ground arith;
      balanced = ground arith;
    }

read-Tells :
    (k : ℕ) (new gone : List ℕ) (result : Run (List (ℕ × ℕ))) (s : ServerSet) (h : Tells k s)
    → Follows k (occ k s.nodes) h.now (reading new gone) s.queue
    → is_raised result ≡ false
    → Safely (λ read. occ k (names read) ≤ occ k new) result
    → Tells k (raise_notifications result gone (record s { worker = waiting }))
unfolding is_raised
read-Tells k new gone result s h (at_reads (leads {after = after} m a b rest)) e
      (gives {value = read} c) =
    notified-Tells k after new gone read s h m a b rest c
read-Tells k new gone result s h f e raises = absurd (ground arith)
read-Tells k new gone result s h f e runs_out = absurd (ground arith)

pub finish-Tells :
    (k : ℕ) (member_filter : ℕ → Bool) (read : ℕ → Reading) (w : Worker) (s : ServerSet)
    → w ≡ s.worker
    → is_raised (read_new member_filter read w) ≡ false
    → Tells k s
    → Tells k (finish member_filter read w s)
unfolding finish read_new
finish-Tells k member_filter read (reading new gone) s e r h =
    read-Tells k new gone (to_members member_filter read new) s h
      (subst (λ w. Follows k (occ k s.nodes) h.now w s.queue) (sym e) h.follows) r
      (occ-to_members k member_filter read new)
finish-Tells k member_filter read waiting s e r h = h
finish-Tells k member_filter read (got new gone) s e r h = h
finish-Tells k member_filter read killed s e r h = h

pop_first-Tells :
    (k : ℕ) (members : List (ℕ × ℕ)) (s : ServerSet)
    → s.members ≡ members
    → Tells k s
    → Tells k (pop_first members s)
unfolding pop_first names joins_of leaves_of
pop_first-Tells k [] s e h = h
pop_first-Tells k ((n, d) ∷ members) s e h =
    let counted : occ k (names s.members) ≡ occ k (n ∷ names members) =
      ap (λ m. occ k (names m)) e in
    let balanced = h.balanced in
    let at_most = h.at_most in
    record {
      now = h.now;
      follows = h.follows;
      once = h.once;
      now_once = h.now_once;
      at_most = ground (arith, counted);
      balanced = ground (arith, counted);
    }

pub watches-Tells :
    (k : ℕ) (view exists : Bool) (s : ServerSet) → Tells k s → Tells k (data_changed view exists s)
unfolding data_changed send_all_removed names
watches-Tells k true false s h =
    pop_first-Tells k s.members (record s { watching = false }) refl
      (record {
        now = h.now;
        follows = h.follows;
        once = h.once;
        now_once = h.now_once;
        at_most = h.at_most;
        balanced = h.balanced;
      })
watches-Tells k false false s h =
    let joins = joins_of-tell_left k s.members s.told in
    let leaves = leaves_of-tell_left k s.members s.told in
    let balanced = h.balanced in
    record {
      now = h.now;
      follows = h.follows;
      once = h.once;
      now_once = h.now_once;
      at_most = omega arith;
      balanced = ground arith;
    }
watches-Tells k view true s h =
    elim (s.watching) as (λ b. Tells k (if b then s else record s { watching = true })) [
      | true ↦ h
      | false ↦ record {
        now = h.now;
        follows = h.follows;
        once = h.once;
        now_once = h.now_once;
        at_most = h.at_most;
        balanced = h.balanced;
      }
    ]
