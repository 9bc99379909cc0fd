-- ===== src/Mux/Transport/Send.antt =====
-- The send loop of scales/mux/sink.py keeps the transport sound.
use pynagle.Common.{
  ℕ, ◌<◌, ◌≡◌, ◌≢◌, refl, sym, subst, Bool, true, false, List, [], ◌∷◌, Option, none, some, update,
  occ, ◌==◌, if◌then◌else◌, arith,
}
use pynagle.Mux.Transport.{
  TagKey, missing, cleared, held, DeadlineEvent, absent, waiting, signalled, Transport, Queue,
  active, release_tag, drop_key, send_taken, send_next, send_one, write_out,
}
use pynagle.Mux.Transport.Sound.{queued, IsRunning, IsSound, running, ended, shutdown-IsSound}
use pynagle.Mux.Transport.Loops.{released-IsRunning, forgotten-IsRunning}

write_out-IsSound :
    (writes : Bool) (payload : List ℕ) (p : Transport)
    → IsRunning p
    → IsSound (write_out writes payload p)
unfolding write_out
write_out-IsSound true payload p s =
    running (record { partition = s.partition; owner = s.owner; unanswered = s.unanswered })
write_out-IsSound false payload p s = shutdown-IsSound true p

-- A round of the loop that the model follows to its end, where the transport is sound.
pub data Sent : Option Transport → Type 0 where
  sent : {q : Transport} → IsSound q → Sent (some q)

drop_key-Sent :
    (k : TagKey) (r : ℕ) (p : Transport)
    → p.key r ≡ k
    → k ≢ cleared
    → IsRunning p
    → Sent (drop_key k r p)
unfolding drop_key release_tag
drop_key-Sent missing r p e fine s = sent (running s)
drop_key-Sent cleared r p e fine s = absurd (fine refl)
drop_key-Sent (held tag) r p e fine s =
    sent
      (elim (tag == 0)
        as (λ t. IsSound (
          if t
          then record p { key = update p.key r missing }
          else release_tag tag (record p { key = update p.key r missing }))) [
            | true ↦ running (forgotten-IsRunning p r p.subscribed s)
            | false ↦ running (
                released-IsRunning p r tag missing p.answers (s.owner r tag e) (λ u c. ground arith)
                  (λ h c. ground arith) s)
          ])

send_taken-Sent :
    (event : ℕ → DeadlineEvent) (writes : Bool) (payload : List ℕ) (r : Option ℕ) (p : Transport)
    → ((q : ℕ) → r ≡ some q → p.key q ≢ cleared)
    → IsRunning p
    → Sent (send_taken event writes payload r p)
unfolding send_taken
send_taken-Sent event writes payload none p fine s = sent (write_out-IsSound writes payload p s)
send_taken-Sent event writes payload (some r) p fine s =
    elim (event r)
      as (λ v. Sent (elim v [
        | absent ↦ some (write_out writes payload p)
        | waiting ↦ some (write_out writes payload (record p { subscribed = r ∷ p.subscribed }))
        | signalled ↦ drop_key (p.key r) r p
      ])) [
        | absent ↦ sent (write_out-IsSound writes payload p s)
        | waiting ↦ sent (
            write_out-IsSound writes payload (record p { subscribed = r ∷ p.subscribed })
              (record { partition = s.partition; owner = s.owner; unanswered = s.unanswered }))
        | signalled ↦ drop_key-Sent (p.key r) r p refl (fine r refl) s
      ]

queued-rest :
    (payload : List ℕ) (r : Option ℕ) (rest : Queue) (q : ℕ)
    → 0 < occ q (queued rest)
    → 0 < occ q (queued ((payload, r) ∷ rest))
unfolding queued
queued-rest payload none rest q h = h
queued-rest payload (some r) rest q h = omega arith

queued-first :
    (payload : List ℕ) (r : Option ℕ) (rest : Queue) (q : ℕ)
    → r ≡ some q
    → 0 < occ q (queued ((payload, r) ∷ rest))
unfolding queued
queued-first payload none rest q e = absurd (ground arith)
queued-first payload (some r) rest q e = ground arith

send_next-Sent :
    (event : ℕ → DeadlineEvent) (writes : Bool) (queue : Queue) (p : Transport)
    → p.send_queue ≡ queue
    → IsRunning p
    → Sent (send_next event writes queue p)
unfolding send_next
send_next-Sent event writes [] p e s = sent (running s)
send_next-Sent event writes ((payload, r) ∷ rest) p e s =
    let waits = λ (q : ℕ) (h : 0 < occ q (queued ((payload, r) ∷ rest))).
      s.unanswered q (subst (λ xs. 0 < occ q (queued xs)) (sym e) h) in
    send_taken-Sent event writes payload r (record p { send_queue = rest })
      (λ q f. waits q (queued-first payload r rest q f))
      (record {
        partition = s.partition;
        owner = s.owner;
        unanswered = λ q h. waits q (queued-rest payload r rest q h);
      })

-- A round of the send loop on a sound transport, whatever deadlines have passed and whether the
-- write succeeds, never puts None into the pool of tags, and leaves the transport sound.
pub send_one-Sent :
    (event : ℕ → DeadlineEvent) (writes : Bool) (p : Transport)
    → IsSound p
    → Sent (send_one event writes p)
unfolding send_one
send_one-Sent event writes p (running s) =
    elim (active p) as (λ t. Sent (if t then send_next event writes p.send_queue p else some p)) [
      | true ↦ send_next-Sent event writes p.send_queue p refl s
      | false ↦ sent (running s)
    ]
send_one-Sent event writes p (ended e) =
    subst (λ t. Sent (if t then send_next event writes p.send_queue p else some p)) (sym e)
      (sent (ended e))
