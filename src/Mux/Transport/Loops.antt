-- ===== src/Mux/Transport/Loops.antt =====
-- The loops and callbacks of scales/mux/sink.py keep the transport sound.
use pynagle.Common.{
  ℕ, ◌<◌, ◌≡◌, ◌≢◌, refl, sym, ◌∙◌, subst, true, List, ◌∷◌, Option, none, some, update, occ,
  contains, ◌==◌, if◌then◌else◌, arith, Option-cases, Bool-cases, inl, inr,
}
use pynagle.Mux.TagPool.{release}
use pynagle.Mux.TagPool.Partition.{IsPartition, release-IsPartition}
use pynagle.Mux.Transport.{
  reply, TagKey, missing, cleared, held, Answer, Transport, release_tag, pass_reply,
  process_tagged_reply,
}
use pynagle.Mux.Transport.TagMap.{
  lookup, remove, tags, tags-remove, remove-absent, lookup-occ, occ-lookup, lookup-remove,
}
use pynagle.Mux.TagPool.Partition.{contains-occ}
use pynagle.Mux.Transport.Sound.{queued, IsRunning, IsSound, IsSound-map}

-- The entry of a tag leaves the map: its request no longer holds it.
pub released-IsRunning :
    (p : Transport) (r t : ℕ) (k : TagKey) (answers : List (ℕ × Answer))
    → lookup t p.tag_map ≡ some r
    → ((u : ℕ) → k ≢ held u)
    → (0 < occ r (queued p.send_queue) → k ≢ cleared)
    → IsRunning p
    → IsRunning (record p {
      tag_map = remove t p.tag_map;
      tag_pool = release t p.tag_pool;
      key = update p.key r k;
      answers = answers;
    })
released-IsRunning p r t k answers e gone fine s = record {
  partition =
      subst (λ xs. IsPartition (release t p.tag_pool) xs) (sym (tags-remove t p.tag_map))
        (release-IsPartition p.tag_pool (tags p.tag_map) t s.partition
          (lookup-occ t r p.tag_map e));
  owner = λ q u h. elim (Bool-cases (r == q)) [
    | inl d ↦ absurd (gone u (ground arith))
    | inr d ↦
        let o = s.owner q u (ground arith) in
        let ne : u ≢ t = λ same.
          let o' : lookup t p.tag_map ≡ some q = subst (λ v. lookup v p.tag_map ≡ some q) same o in
          ground arith in
        lookup-remove t u p.tag_map ne ∙ o
  ];
  unanswered = λ q h c. elim (Bool-cases (r == q)) [
    | inl d ↦
        let same : q ≡ r = ground arith in
        fine (subst (λ x. 0 < occ x (queued p.send_queue)) same h) (ground arith)
    | inr d ↦ s.unanswered q h (ground arith)
  ];
}

-- A request's properties lose their tag, which stays in the map.
pub forgotten-IsRunning :
    (p : Transport) (r : ℕ) (subscribed : List ℕ)
    → IsRunning p
    → IsRunning (record p { key = update p.key r missing; subscribed = subscribed })
forgotten-IsRunning p r subscribed s = record {
  partition = s.partition;
  owner = λ q u h. elim (Bool-cases (r == q)) [
    | inl d ↦ absurd (ground arith)
    | inr d ↦ s.owner q u (ground arith)
  ];
  unanswered = λ q h c. elim (Bool-cases (r == q)) [
    | inl d ↦ ground arith
    | inr d ↦ s.unanswered q h (ground arith)
  ];
}

-- A reply that a server may send: to a tag whose message left the queue, or to a tag that is free.
pub data Expected (tag : ℕ) (p : Transport) : Type 0 where
  in_flight :
      (r : ℕ) → lookup tag p.tag_map ≡ some r → occ r (queued p.send_queue) ≡ 0 → Expected tag p
  late : 0 < occ tag p.tag_pool.free → Expected tag p

pass_reply-state :
    (o : Option ℕ) (stream : List ℕ) (p : Transport) → (pass_reply o stream p).state ≡ p.state
unfolding pass_reply
pass_reply-state none stream p = refl
pass_reply-state (some r) stream p = refl

free-lookup :
    (tag : ℕ) (p : Transport)
    → IsRunning p
    → 0 < occ tag p.tag_pool.free
    → lookup tag p.tag_map ≡ none
free-lookup tag p s h = elim (Option-cases (lookup tag p.tag_map)) [
  | inl e ↦ e
  | inr (r, e) ↦
      let part = s.partition in
      let o = lookup-occ tag r p.tag_map e in
      let a = part.once tag in
      let b = part.low tag in let c = part.high tag in absurd (ground (arith, a, b, c))
]

late-IsRunning :
    (tag : ℕ) (stream : List ℕ) (p : Transport)
    → 0 < occ tag p.tag_pool.free
    → IsRunning p
    → IsRunning (process_tagged_reply tag stream p)
unfolding process_tagged_reply pass_reply release_tag release
late-IsRunning tag stream p h s =
    let none_left = free-lookup tag p s h in
    let absent = remove-absent tag p.tag_map (occ-lookup tag p.tag_map none_left) in
    let there : true ≡ contains p.tag_pool.free tag =
      sym (contains-occ tag p.tag_pool.free ∙ ground arith) in
    subst
      (λ o. IsRunning (
        pass_reply o stream
          (record p { tag_map = remove tag p.tag_map; tag_pool = release tag p.tag_pool })))
      (sym none_left)
      (subst (λ m. IsRunning (record p { tag_map = m; tag_pool = release tag p.tag_pool }))
        (sym absent)
        (subst
          (λ t. IsRunning (record p {
            tag_pool = if t then p.tag_pool else record p.tag_pool { free = tag ∷ p.tag_pool.free };
          }))
          there s))

-- The reply to a tag in flight, or to one that is free, leaves a sound transport sound.
pub process_tagged_reply-IsSound :
    (tag : ℕ) (stream : List ℕ) (p : Transport)
    → IsSound p
    → Expected tag p
    → IsSound (process_tagged_reply tag stream p)
unfolding process_tagged_reply pass_reply release_tag
process_tagged_reply-IsSound tag stream p s (late h) =
    IsSound-map (pass_reply-state (lookup tag p.tag_map) stream (release_tag tag p))
      (late-IsRunning tag stream p h) s
process_tagged_reply-IsSound tag stream p s (in_flight r e idle) =
    IsSound-map (pass_reply-state (lookup tag p.tag_map) stream (release_tag tag p))
      (λ run.
        subst (λ o. IsRunning (pass_reply o stream (release_tag tag p))) (sym e)
          (released-IsRunning p r tag cleared ((r, reply stream) ∷ p.answers) e
            (λ u c. ground arith) (λ h. absurd (omega arith)) run))
      s
