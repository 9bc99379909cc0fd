-- ===== src/Mux/Transport/Sound.antt =====
-- The tags of scales/mux/sink.py, class MuxSocketTransportSink: each request in flight has its own.
use pynagle.Common.{
  ℕ, ◌+◌, ◌<◌, ◌≡◌, ◌≢◌, refl, ap, ◌∙◌, subst, Bool, true, false, List, [], ◌∷◌, ◌++◌, none, some,
  occ, ◌==◌, if◌then◌else◌, arith, not,
}
use pynagle.Constants.{ChannelState, state_eq}
use pynagle.Mux.TagPool.Partition.{IsPartition, new_pool-IsPartition}
use pynagle.Mux.Transport.{cleared, held, Transport, Queue, init, active, shut, shutdown}
use pynagle.Mux.Transport.TagMap.{lookup, tags}

-- The requests whose messages wait in the queue.
unfoldable pub queued : Queue → List ℕ
queued [] = []
queued ((payload, none) ∷ q) = queued q
queued ((payload, some r) ∷ q) = r ∷ queued q

-- A running transport: its pool accounts for the tags of the map, a request that holds a tag is the
-- one the map has for it, and no queued request was answered.
pub record IsRunning (p : Transport) : Type 0 where
  pub partition : IsPartition p.tag_pool (tags p.tag_map)
  pub owner : (r t : ℕ) → p.key r ≡ held t → lookup t p.tag_map ≡ some r
  pub unanswered : (r : ℕ) → 0 < occ r (queued p.send_queue) → p.key r ≢ cleared

-- Running, or shut down.
pub data IsSound (p : Transport) : Type 0 where
  running : IsRunning p → IsSound p
  ended : active p ≡ false → IsSound p

pub init-IsSound : IsSound init
unfolding init tags lookup queued
init-IsSound = running (record {
  partition = new_pool-IsPartition 16777215 (omega arith);
  owner = λ r t e. absurd (ground arith);
  unanswered = λ r h. absurd (omega arith);
})

shut-IsSound :
    (test fault : Bool) (p : Transport)
    → active p ≡ test
    → IsSound (if test then shut fault p else p)
unfolding shut active
shut-IsSound true fault p e = ended refl
shut-IsSound false fault p e = ended e

pub shutdown-IsSound : (fault : Bool) (p : Transport) → IsSound (shutdown fault p)
unfolding shutdown
shutdown-IsSound fault p = shut-IsSound (active p) fault p refl

pub queued-append :
    (q : Queue) (payload : List ℕ) (r s : ℕ)
    → occ s (queued (q ++ (payload, some r) ∷ [])) ≡ occ s (queued q) + (if r == s then 1 else 0)
unfolding queued
queued-append [] payload r s = ground arith
queued-append ((x, none) ∷ q) payload r s = queued-append q payload r s
queued-append ((x, some t) ∷ q) payload r s = let h = queued-append q payload r s in omega arith

pub queued-append_none :
    (q : Queue) (payload : List ℕ) → queued (q ++ (payload, none) ∷ []) ≡ queued q
unfolding queued
queued-append_none [] payload = refl
queued-append_none ((x, none) ∷ q) payload = queued-append_none q payload
queued-append_none ((x, some t) ∷ q) payload = ap (λ xs. t ∷ xs) (queued-append_none q payload)

-- A change that keeps the state and a running transport running.
pub IsSound-map :
    {p q : Transport} → q.state ≡ p.state → (IsRunning p → IsRunning q) → IsSound p → IsSound q
unfolding active
IsSound-map same f (running s) = running (f s)
IsSound-map same f (ended e) = ended (ap (λ s. not (state_eq s ChannelState.closed)) same ∙ e)

-- A message that no request's properties go along with.
pub bare-IsRunning :
    (p : Transport) (payload : List ℕ)
    → IsRunning p
    → IsRunning (record p { send_queue = p.send_queue ++ (payload, none) ∷ [] })
bare-IsRunning p payload s = record {
  partition = s.partition;
  owner = s.owner;
  unanswered = λ q h.
      s.unanswered q (subst (λ xs. 0 < occ q xs) (queued-append_none p.send_queue payload) h);
}
