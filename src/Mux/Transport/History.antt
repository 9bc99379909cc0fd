-- ===== src/Mux/Transport/History.antt =====
-- All histories of the transport of scales/mux/sink.py.
use pynagle.Common.{
  ℕ, ◌<◌, ◌≡◌, ◌≢◌, refl, subst, Bool, true, false, List, [], ◌++◌, Option, none, some, length,
  update, occ, erase, contains, ◌==◌, if◌then◌else◌, Run, ok, arith,
}
use pynagle.Common.Int.{ℤ, pos}
use pynagle.Mux.Header.{build_header, encode_tag}
use pynagle.Mux.Transport.{
  TagKey, missing, cleared, held, DeadlineEvent, Transport, init, active, shutdown, enqueue,
  process_request, process_tagged_reply, send_one, timeout_proc, time_out, on_timeout,
}
use pynagle.Mux.Transport.{reason, open_impl, send_ping}
use pynagle.Mux.Transport.Sound.{
  IsSound, running, ended, IsSound-map, bare-IsRunning, shutdown-IsSound, init-IsSound,
}
use pynagle.Mux.Transport.Request.{process_request-Requested, Requested, goes_on, no_tags}
use pynagle.Mux.Transport.Loops.{forgotten-IsRunning, Expected, process_tagged_reply-IsSound}
use pynagle.Mux.Transport.Send.{Sent, sent, send_one-Sent}

timeout_proc-IsSound :
    (k : TagKey) (r : ℕ) (subscribed : List ℕ) (p : Transport)
    → IsSound p
    → IsSound (timeout_proc k r (record p { subscribed = subscribed }))
unfolding timeout_proc on_timeout enqueue
timeout_proc-IsSound missing r subscribed p s =
    IsSound-map refl (forgotten-IsRunning p r subscribed) s
timeout_proc-IsSound cleared r subscribed p s =
    IsSound-map refl (forgotten-IsRunning p r subscribed) s
timeout_proc-IsSound (held tag) r subscribed p s =
    let q : Transport = record p { key = update p.key r missing; subscribed = subscribed } in
    let t : IsSound q = IsSound-map refl (forgotten-IsRunning p r subscribed) s in
    elim (tag == 0)
      as (λ b. IsSound (if b then q else enqueue 0 (pos 66) (encode_tag tag ++ reason) none q)) [
        | true ↦ t
        | false ↦
            IsSound-map refl
              (bare-IsRunning q (
                build_header 0 (pos 66) (length (encode_tag tag ++ reason))
                ++ encode_tag tag
                ++ reason))
              t
      ]

-- The callback of a deadline that passes, before or after a shutdown, keeps the transport sound.
pub time_out-IsSound : (r : ℕ) (p : Transport) → IsSound p → IsSound (time_out r p)
unfolding time_out
time_out-IsSound r p s =
    elim (contains p.subscribed r)
      as (λ b. IsSound (
        if b
        then timeout_proc (p.key r) r (record p { subscribed = erase r p.subscribed })
        else p)) [ true ↦ timeout_proc-IsSound (p.key r) r (erase r p.subscribed) p s | false ↦ s ]

pub send_ping-IsSound : (p : Transport) → IsSound p → IsSound (send_ping p)
unfolding send_ping enqueue
send_ping-IsSound p s =
    IsSound-map refl
      (λ run.
        bare-IsRunning (record p { ping = true }) (build_header 1 (pos 65) 0 ++ [])
          (record { partition = run.partition; owner = run.owner; unanswered = run.unanswered }))
      s

pub open_impl-IsSound :
    (connects : Bool) (p : Transport) → active p ≡ true → IsSound p → IsSound (open_impl connects p)
unfolding open_impl
open_impl-IsSound true p a (running s) =
    running (record { partition = s.partition; owner = s.owner; unanswered = s.unanswered })
open_impl-IsSound true p a (ended e) = absurd (ground (arith, a, e))
open_impl-IsSound false p a s = shutdown-IsSound true p

-- The steps of a transport. A request comes with properties that no reply has used, an open in
-- progress ends before the transport is shut down, and a reply is one that a server may send.
pub data Step (choose : List ℕ → ℕ) (p : Transport) : Transport → Type 0 where
  opens : (connects : Bool) → active p ≡ true → Step choose p (open_impl connects p)
  requests :
      {q : Transport} (r : ℕ) (one_way : Bool) (msg_type : ℤ) (body : List ℕ)
      → p.key r ≢ cleared
      → process_request choose r one_way msg_type body p ≡ ok q
      → Step choose p q
  sends :
      {q : Transport} (event : ℕ → DeadlineEvent) (writes : Bool)
      → send_one event writes p ≡ some q
      → Step choose p q
  replies :
      (tag : ℕ) (stream : List ℕ)
      → Expected tag p
      → Step choose p (process_tagged_reply tag stream p)
  times_out : (r : ℕ) → Step choose p (time_out r p)
  pings : Step choose p (send_ping p)
  shuts : (fault : Bool) → Step choose p (shutdown fault p)

pub data Reachable (choose : List ℕ → ℕ) : Transport → Type 0 where
  opened : Reachable choose init
  after : {p q : Transport} → Reachable choose p → Step choose p q → Reachable choose q

Requested-ok :
    {p : Transport} {x : Run Transport} (q : Transport) → Requested p x → x ≡ ok q → IsSound q
Requested-ok {p = p} q (goes_on {q = v} s) e =
    let same : v ≡ q = ground arith in subst (λ v. IsSound v) same s
Requested-ok q (no_tags n) e = absurd (ground arith)

Sent-some : {x : Option Transport} (q : Transport) → Sent x → x ≡ some q → IsSound q
Sent-some q (sent {q = v} s) e = let same : v ≡ q = ground arith in subst (λ v. IsSound v) same s

module _ (choose : List ℕ → ℕ)
    (choose-mem : (xs : List ℕ) → 0 < length xs → 0 < occ (choose xs) xs) where
  pub Step-IsSound : (p q : Transport) → Step choose p q → IsSound p → IsSound q
  Step-IsSound p q (opens connects a) s = open_impl-IsSound connects p a s
  Step-IsSound p q (requests r one_way msg_type body fresh e) s =
      Requested-ok q (process_request-Requested choose choose-mem r one_way msg_type body p s fresh)
        e
  Step-IsSound p q (sends event writes e) s = Sent-some q (send_one-Sent event writes p s) e
  Step-IsSound p q (replies tag stream x) s = process_tagged_reply-IsSound tag stream p s x
  Step-IsSound p q (times_out r) s = time_out-IsSound r p s
  Step-IsSound p q pings s = send_ping-IsSound p s
  Step-IsSound p q (shuts fault) s = shutdown-IsSound fault p

  -- If set.pop takes an element of the set, every history of steps from a new transport leads to one
  -- that is sound: its pool and its map of requests in flight account for each tag once, a request
  -- that holds a tag is the one that the map has for it, and no message of an answered request waits
  -- to be sent; or it is shut down. In a history, requests have properties that no reply has used,
  -- an open ends before the shutdown, and replies are to tags that are free or whose message is out.
  pub Reachable-IsSound : (p : Transport) → Reachable choose p → IsSound p
  Reachable-IsSound p opened = init-IsSound
  Reachable-IsSound p (after {p = before} past step) =
      Step-IsSound before p step (Reachable-IsSound before past)

  -- In such a history, while the transport is not shut down, no two requests hold one tag.
  tags_differ :
      (p : Transport)
      → Reachable choose p
      → active p ≡ true
      → (r q t : ℕ) → p.key r ≡ held t
      → p.key q ≡ held t
      → r ≡ q
  tags_differ p past a r q t e f = elim (Reachable-IsSound p past) [
    | running s ↦ let x = s.owner r t e in let y = s.owner q t f in ground (arith, x, y)
    | ended n ↦ absurd (ground (arith, a, n))
  ]
