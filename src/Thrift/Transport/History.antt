-- ===== src/Thrift/Transport/History.antt =====
-- The histories of a transport.
use pynagle.Common.{
  ℕ, ◌+◌, ◌-◌, ◌<◌, ◌≡◌, refl, ap, sym, subst, Bool, true, false, none, some, List, [], ◌∷◌,
  if◌then◌else◌, occ, Run, ok, raised, out_of_fuel, ◌>>=◌, arith,
}
use pynagle.Constants.{ChannelState}
use pynagle.Socket.{Reach, open_socket}
use pynagle.Thrift.Transport.{
  stream, reply_error, concurrency_error, Ending, Sink, init, answer, close, fault, open_channel,
  open_impl, frame, end_transaction, process_reply, reply_next, request,
}
use pynagle.Thrift.Transport.Once.{
  count_of, Lane, free, at_work, IsOnce, init-IsOnce, close-IsOnce, fault-IsOnce, end-IsOnce,
  answered-IsOnce,
}

-- What can happen: the last argument are the requests so far.
pub data Step (asked : List ℕ) (s : Sink) : List ℕ → Sink → Type 0 where
  opens : Step asked s asked (open_channel s)
  opening : (reach : Reach) → 0 < s.opening → Step asked s asked (open_impl reach s)
  closes : Step asked s asked (close s)
  asks :
      {t : Sink} (r : ℕ) (payload : List ℕ)
      → request r payload s ≡ ok t
      → Step asked s (r ∷ asked) t
  ends :
      (ending : Ending) (r : ℕ)
      → 0 < occ r s.running
      → Step asked s asked (end_transaction ending r s)
  replies : (fails : Bool) → Step asked s asked (reply_next fails s s.replying)

pub data Reachable : List ℕ → Sink → Type 0 where
  new : Reachable [] init
  next :
      {asked after : List ℕ} {s t : Sink}
      → Reachable asked s
      → Step asked s after t
      → Reachable after t

open_channel-IsOnce : (asked : List ℕ) (s : Sink) → IsOnce asked s → IsOnce asked (open_channel s)
unfolding open_channel
open_channel-IsOnce asked s h =
    elim s.open_result
      as (λ b.
        IsOnce asked (if b then s else record s { open_result = true; opening = s.opening + 1 })) [
          | true ↦ h
          | false ↦ record { each = h.each; lane = h.lane }
        ]

open_impl-IsOnce :
    (asked : List ℕ) (reach : Reach) (s : Sink) → IsOnce asked s → IsOnce asked (open_impl reach s)
unfolding open_impl
open_impl-IsOnce asked reach s h =
    let (socket, opened) = open_socket reach s.socket in
    let less : Sink = record s { opening = s.opening - 1; socket = socket } in
    elim opened
      as (λ b.
        IsOnce asked (if b then record less { channel = ChannelState.opened } else fault less)) [
          | true ↦ record { each = h.each; lane = h.lane }
          | false ↦ fault-IsOnce asked less (record { each = h.each; lane = h.lane })
        ]

reply-IsOnce :
    (asked : List ℕ) (fails : Bool) (s : Sink) (replying : List (ℕ × ℕ))
    → s.replying ≡ replying
    → IsOnce asked s
    → IsOnce asked (reply_next fails s replying)
unfolding reply_next process_reply
reply-IsOnce asked fails s [] e h = h
reply-IsOnce asked fails s ((r, buf) ∷ more) e h =
    answered-IsOnce asked (record s { replying = more }) r
      (if fails then reply_error else stream buf)
      (λ i. let a = h.each i in let c = ap (count_of i) e in omega arith) h.lane

Lane-none : (running : List ℕ) → Lane none running → running ≡ []
Lane-none _ free = refl

-- A request that finds no other one, once its bytes are framed.
begin-IsOnce :
    (asked : List ℕ) (r : ℕ) (s t : Sink) (framed : Run (List ℕ))
    → Lane none s.running
    → IsOnce asked s
    → (framed >>= λ sent.
        ok (record s { processing = some r; running = r ∷ s.running; written = sent ∷ s.written }))
      ≡ ok t
    → IsOnce (r ∷ asked) t
begin-IsOnce asked r s t (ok sent) lane h e =
    let after : Sink = record s {
      processing = some r;
      running = r ∷ s.running;
      written = sent ∷ s.written;
    } in
    let same : after ≡ t = ground arith in
    subst (IsOnce (r ∷ asked)) same (record {
      each = λ i. let a = h.each i in omega arith;
      lane = subst (λ x. Lane (some r) (r ∷ x)) (sym (Lane-none s.running lane)) (at_work r);
    })
begin-IsOnce asked r s t raised lane h e = absurd (ground arith)
begin-IsOnce asked r s t out_of_fuel lane h e = absurd (ground arith)

refused-IsOnce :
    (asked : List ℕ) (r : ℕ) (s t : Sink)
    → IsOnce asked s
    → ok (answer r concurrency_error s) ≡ ok t
    → IsOnce (r ∷ asked) t
refused-IsOnce asked r s t h e =
    let same : answer r concurrency_error s ≡ t = ground arith in
    subst (IsOnce (r ∷ asked)) same (
      answered-IsOnce (r ∷ asked) s r concurrency_error (λ i. let a = h.each i in omega arith)
        h.lane)

request-IsOnce :
    (asked : List ℕ) (r : ℕ) (payload : List ℕ) (s t : Sink)
    → IsOnce asked s
    → request r payload s ≡ ok t
    → IsOnce (r ∷ asked) t
unfolding request
request-IsOnce asked r payload s t h =
    elim s.processing
        as (λ p.
          Lane p s.running
          → (elim p as (λ _. Run Sink) [
            | none ↦ frame payload >>= λ sent. ok (record s {
              processing = some r;
              running = r ∷ s.running;
              written = sent ∷ s.written;
            })
            | some q ↦ ok (answer r concurrency_error s)
          ])
            ≡ ok t
          → IsOnce (r ∷ asked) t) [
            | none ↦ λ lane e. begin-IsOnce asked r s t (frame payload) lane h e
            | some q ↦ λ lane e. refused-IsOnce asked r s t h e
          ]
      h.lane

Step-IsOnce :
    (asked after : List ℕ) (s t : Sink) → Step asked s after t → IsOnce asked s → IsOnce after t
Step-IsOnce asked _ s _ opens h = open_channel-IsOnce asked s h
Step-IsOnce asked _ s _ (opening reach p) h = open_impl-IsOnce asked reach s h
Step-IsOnce asked _ s _ closes h = close-IsOnce asked s h
Step-IsOnce asked _ s t (asks r payload e) h = request-IsOnce asked r payload s t h e
Step-IsOnce asked _ s _ (ends ending r p) h = end-IsOnce asked ending r s h p
Step-IsOnce asked _ s _ (replies fails) h = reply-IsOnce asked fails s s.replying refl h

-- In every history of a transport, whatever its socket does, each request is as often answered, in
-- work, being replied to, killed by a close or lost to an exception as it was asked, and at most one
-- transaction runs at a time, that of the request the transport is processing.
pub Reachable-IsOnce : {asked : List ℕ} {s : Sink} → Reachable asked s → IsOnce asked s
Reachable-IsOnce new = init-IsOnce
Reachable-IsOnce (next {asked = asked} {after = after} {s = s} {t = t} before step) =
    Step-IsOnce asked after s t step (Reachable-IsOnce before)
