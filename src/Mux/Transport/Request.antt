-- ===== src/Mux/Transport/Request.antt =====
-- AsyncProcessRequest of scales/mux/sink.py keeps the transport sound.
use pynagle.Common.{
  ℕ, ◌+◌, ◌<◌, ◌≡◌, ◌≢◌, refl, ap, sym, ◌∙◌, subst, Bool, true, false, List, [], ◌∷◌, ◌++◌, some,
  length, update, occ, ◌==◌, if◌then◌else◌, Run, ok, raised, arith, Bool-cases, inl, inr, ◌>>=◌,
}
use pynagle.Common.Int.{ℤ}
use pynagle.Mux.Header.{build_header}
use pynagle.Mux.TagPool.{TagPool, get}
use pynagle.Mux.TagPool.Partition.{IsPartition, Get, leases, exhausted, get-Get}
use pynagle.Mux.Transport.{
  not_open, TagKey, cleared, held, Answer, Transport, active, refuses, enqueue, process_request,
}
use pynagle.Mux.Transport.TagMap.{lookup, insert, tags, remove-absent, lookup-occ, lookup-remove}
use pynagle.Mux.Transport.Sound.{IsRunning, IsSound, running, ended, queued-append}

-- Another tag than one that is not in the map.
other : (m : List (ℕ × ℕ)) (t u q : ℕ) → occ t (tags m) ≡ 0 → lookup u m ≡ some q → u ≢ t
other m t u q unused e same =
    let h = lookup-occ u q m e in
    let k : occ u (tags m) ≡ 0 = subst (λ v. occ v (tags m) ≡ 0) (sym same) unused in omega arith

owner-insert :
    (m : List (ℕ × ℕ)) (key : ℕ → TagKey) (r t : ℕ)
    → occ t (tags m) ≡ 0
    → ((q u : ℕ) → key q ≡ held u → lookup u m ≡ some q)
    → (q u : ℕ) → update key r (held t) q ≡ held u
    → lookup u (insert t r m) ≡ some q
unfolding insert lookup
owner-insert m key r t unused own q u e = elim (Bool-cases (r == q)) [
  | inl h ↦ ground arith
  | inr h ↦
      let k : key q ≡ held u = ground arith in
      let o = own q u k in
      let ne = other m t u q unused o in let l = lookup-remove t u m ne in ground arith
]

-- A request that gets a tag.
tracked-IsRunning :
    (p : Transport) (r t : ℕ) (pool : TagPool) (payload : List ℕ)
    → IsRunning p
    → occ t (tags p.tag_map) ≡ 0
    → IsPartition pool (t ∷ tags p.tag_map)
    → IsRunning (record p {
      tag_pool = pool;
      key = update p.key r (held t);
      tag_map = insert t r p.tag_map;
      send_queue = p.send_queue ++ (payload, some r) ∷ [];
    })
unfolding insert tags
tracked-IsRunning p r t pool payload s unused part = record {
  partition =
      subst (λ m. IsPartition pool (t ∷ tags m)) (sym (remove-absent t p.tag_map unused)) part;
  owner = owner-insert p.tag_map p.key r t unused s.owner;
  unanswered = λ q h e.
      let l = queued-append p.send_queue payload r q in
      let u = s.unanswered q in
      elim (Bool-cases (r == q)) [ inl d ↦ ground arith | inr d ↦ u (ground arith) (ground arith) ];
}

-- A message without a tag, from a request that was not answered.
untracked-IsRunning :
    (p : Transport) (r : ℕ) (payload : List ℕ)
    → IsRunning p
    → p.key r ≢ cleared
    → IsRunning (record p { send_queue = p.send_queue ++ (payload, some r) ∷ [] })
untracked-IsRunning p r payload s fresh = record {
  partition = s.partition;
  owner = s.owner;
  unanswered = λ q h e.
      let l = queued-append p.send_queue payload r q in
      elim (Bool-cases (r == q)) [
        | inl d ↦ let same : r ≡ q = ground arith in fresh (ap p.key same ∙ e)
        | inr d ↦ s.unanswered q (ground arith) e
      ];
}

-- A transport that a request leaves sound, or the exception of a pool whose tags are all in use.
pub data Requested (p : Transport) : Run Transport → Type 0 where
  goes_on : {q : Transport} → IsSound q → Requested p (ok q)
  no_tags : length (tags p.tag_map) + 2 ≡ p.tag_pool.max_tag → Requested p raised

Requested-test :
    {p : Transport} {x y : Run Transport} (test : Bool)
    → (test ≡ true → Requested p x)
    → (test ≡ false → Requested p y)
    → Requested p (if test then x else y)
Requested-test true when_true when_false = when_true refl
Requested-test false when_true when_false = when_false refl

answered-IsSound :
    (p : Transport) (answer : ℕ × Answer)
    → IsSound p
    → IsSound (record p { answers = answer ∷ p.answers })
unfolding active
answered-IsSound p answer (running s) =
    running (record { partition = s.partition; owner = s.owner; unanswered = s.unanswered })
answered-IsSound p answer (ended e) = ended e

taken-active : (p : Transport) → refuses p ≡ false → active p ≡ true
unfolding refuses active
taken-active p h = ground arith

-- A transport that refuses no request is running.
taken-IsRunning : (p : Transport) → refuses p ≡ false → IsSound p → IsRunning p
taken-IsRunning p h (running s) = s
taken-IsRunning p h (ended e) = let a = taken-active p h in absurd (ground (arith, a, e))

got-Requested :
    (p : Transport) (r : ℕ) (msg_type : ℤ) (body : List ℕ) (x : Run (ℕ × TagPool))
    → IsRunning p
    → Get p.tag_pool (tags p.tag_map) x
    → Requested p (
        x >>= λ got. ok (
          enqueue got.0 msg_type body (some r) (record p {
            tag_pool = got.1;
            key = update p.key r (held got.0);
            tag_map = insert got.0 r p.tag_map;
          })))
unfolding enqueue
got-Requested p r msg_type body x s (leases {got = got} l) = goes_on (
    running (
      tracked-IsRunning p r got.0 got.1 (build_header got.0 msg_type (length body) ++ body) s
        l.unused l.partition))
got-Requested p r msg_type body x s (exhausted e none_free) = no_tags e

-- If set.pop takes an element of the set, a request whose properties have no used tag leaves a sound transport sound, whether it is refused,
-- one-way or given a tag; the only exception is that all tags of the pool are in use.
pub process_request-Requested :
    (choose : List ℕ → ℕ)
    → ((xs : List ℕ) → 0 < length xs → 0 < occ (choose xs) xs)
    → (r : ℕ) (one_way : Bool) (msg_type : ℤ) (body : List ℕ) (p : Transport) → IsSound p
    → p.key r ≢ cleared
    → Requested p (process_request choose r one_way msg_type body p)
unfolding process_request enqueue
process_request-Requested choose choose-mem r one_way msg_type body p s fresh =
    Requested-test (refuses p) (λ e. goes_on (answered-IsSound p (r, not_open) s))
      (λ e.
        let run = taken-IsRunning p e s in
        Requested-test one_way
          (λ _. goes_on (
            running
              (untracked-IsRunning p r (build_header 0 msg_type (length body) ++ body) run fresh)))
          (λ _.
            got-Requested p r msg_type body (get choose p.tag_pool) run
              (get-Get choose choose-mem p.tag_pool (tags p.tag_map) run.partition)))
