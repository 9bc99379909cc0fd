-- ===== src/Thrift/Transport/Once.antt =====
-- Each request of a transport is answered once, is in work, or was lost to a kill or an exception.
use pynagle.Common.{
  ℕ, ◌+◌, ◌<◌, ◌≡◌, refl, ap, sym, ◌∙◌, subst, true, false, Option, none, some, List, [], ◌∷◌, ◌++◌,
  ◌==◌, if◌then◌else◌, occ, contains, erase, occ-erase, arith,
}
use pynagle.Constants.{ChannelState, state_eq}
use pynagle.Socket.{open_socket, close_socket}
use pynagle.Thrift.Transport.{
  Answer, timeout_error, socket_error, Ending, replied, expired, broke, Sink, init, state, answer,
  still_running, now_killed, still_processing, close, fault, end_transaction,
}

-- How often a request stands in a list of answers or of replies.
abbrev pub count_of {ℓ} : {A : Type ℓ} → ℕ → List (ℕ × A) → ℕ
count_of r [] = 0
count_of r ((q, x) ∷ xs) = (if q == r then 1 else 0) + count_of r xs

count_of-append {ℓ} :
    {A : Type ℓ} (r : ℕ) (xs ys : List (ℕ × A))
    → count_of r (xs ++ ys) ≡ count_of r xs + count_of r ys
count_of-append r [] ys = omega arith
count_of-append r ((q, x) ∷ xs) ys = omega (arith, count_of-append r xs ys)

-- The request that is processed, and the greenlets of transactions.
pub data Lane : Option ℕ → List ℕ → Type 0 where
  free : Lane none []
  at_work : (r : ℕ) → Lane (some r) (r ∷ [])
  died : (r : ℕ) → Lane (some r) []

-- After the requests `asked`, each was answered, is in work or being replied to, or is lost.
pub record IsOnce (asked : List ℕ) (s : Sink) : Type 0 where
  pub each :
      (r : ℕ)
      → count_of r s.answers
          + occ r s.running
          + count_of r s.replying
          + occ r s.killed
          + occ r s.dead
        ≡ occ r asked
  pub lane : Lane s.processing s.running

pub init-IsOnce : IsOnce [] init
unfolding init
init-IsOnce = record { each = λ r. refl; lane = free }

-- Of a transaction that ends, its greenlet was the only one.
Lane-erase :
    (p : Option ℕ) (running : List ℕ) (r : ℕ)
    → Lane p running
    → 0 < occ r running
    → running ≡ r ∷ []
Lane-erase _ _ r free h = absurd (omega arith)
Lane-erase _ _ r (at_work q) h = let e : q ≡ r = ground arith in ap (λ x. x ∷ []) e
Lane-erase _ _ r (died q) h = absurd (omega arith)

erase_one : (r : ℕ) → erase r (r ∷ []) ≡ []
erase_one r = ground arith

Lane-still_running :
    (p : Option ℕ) (running : List ℕ) → Lane p running → still_running p running ≡ []
unfolding still_running
Lane-still_running _ _ free = refl
Lane-still_running _ _ (at_work q) = erase_one q
Lane-still_running _ _ (died q) = refl

Lane-now_killed :
    (p : Option ℕ) (running killed : List ℕ) (r : ℕ)
    → Lane p running
    → occ r (now_killed p running killed) ≡ occ r running + occ r killed
unfolding now_killed
Lane-now_killed _ _ killed r free = omega arith
Lane-now_killed _ _ killed r (at_work q) = ground arith
Lane-now_killed _ _ killed r (died q) = omega arith

Lane-close :
    (p : Option ℕ) (running : List ℕ)
    → Lane p running
    → Lane (still_processing p running) (still_running p running)
unfolding still_processing still_running
Lane-close _ _ free = free
Lane-close _ _ (at_work q) =
    let here : contains (q ∷ []) q ≡ true = ground arith in
    let gone : erase q (q ∷ []) ≡ [] = erase_one q in rw (here, gone) free
Lane-close _ _ (died q) = died q

pub close-IsOnce : (asked : List ℕ) (s : Sink) → IsOnce asked s → IsOnce asked (close s)
unfolding close
close-IsOnce asked s h =
    let nothing = Lane-still_running s.processing s.running h.lane in
    record {
      each = λ r.
          let k = Lane-now_killed s.processing s.running s.killed r h.lane in
          let e = h.each r in let z = ap (occ r) nothing in omega arith;
      lane = Lane-close s.processing s.running h.lane;
    }

pub fault-IsOnce : (asked : List ℕ) (s : Sink) → IsOnce asked s → IsOnce asked (fault s)
unfolding fault
fault-IsOnce asked s h =
    elim (state_eq (state s) ChannelState.closed)
      as (λ b. IsOnce asked (if b then s else record (close s) { faults = (close s).faults + 1 })) [
        | true ↦ h
        | false ↦ let c = close-IsOnce asked s h in record { each = c.each; lane = c.lane }
      ]

still_running-none : (p : Option ℕ) → still_running p [] ≡ []
unfolding still_running
still_running-none none = refl
still_running-none (some r) = refl

fault-none : (s : Sink) → s.running ≡ [] → (fault s).running ≡ []
unfolding fault close
fault-none s h =
    elim (state_eq (state s) ChannelState.closed)
      as (λ b. (if b then s else record (close s) { faults = (close s).faults + 1 }).running ≡ []) [
        | true ↦ h
        | false ↦ ap (still_running s.processing) h ∙ still_running-none s.processing
      ]

-- The transport once a greenlet is off the list: all but its request are accounted for.
taken-off :
    (asked : List ℕ) (s : Sink) (r : ℕ)
    → IsOnce asked s
    → 0 < occ r s.running
    → (i : ℕ)
    → count_of i s.answers
        + occ i (erase r s.running)
        + count_of i s.replying
        + occ i s.killed
        + occ i s.dead
        + (if r == i then 1 else 0)
      ≡ occ i asked
taken-off asked s r h at i = let e = h.each i in let o = occ-erase r i s.running at in omega arith

running-erase :
    (asked : List ℕ) (s : Sink) (r : ℕ)
    → IsOnce asked s
    → 0 < occ r s.running
    → erase r s.running ≡ []
running-erase asked s r h at =
    ap (erase r) (Lane-erase s.processing s.running r h.lane at) ∙ erase_one r

Lane-processing : (p : Option ℕ) (running : List ℕ) → Lane p running → Lane p []
Lane-processing _ _ free = free
Lane-processing _ _ (at_work q) = died q
Lane-processing _ _ (died q) = died q

pub answered-IsOnce :
    (asked : List ℕ) (t : Sink) (r : ℕ) (a : Answer)
    → ((i : ℕ)
        → count_of i t.answers
            + occ i t.running
            + count_of i t.replying
            + occ i t.killed
            + occ i t.dead
            + (if r == i then 1 else 0)
          ≡ occ i asked)
    → Lane t.processing t.running
    → IsOnce asked (answer r a t)
unfolding answer
answered-IsOnce asked t r a each lane = record {
  each = λ i. let e = each i in omega arith;
  lane = lane;
}

pub end-IsOnce :
    (asked : List ℕ) (ending : Ending) (r : ℕ) (s : Sink)
    → IsOnce asked s
    → 0 < occ r s.running
    → IsOnce asked (end_transaction ending r s)
unfolding end_transaction
end-IsOnce asked (replied buf) r s h at = record {
  each = λ i.
      let e = taken-off asked s r h at i in
      omega (arith, count_of-append i s.replying ((r, buf) ∷ []));
  lane = subst (λ x. Lane none x) (sym (running-erase asked s r h at)) free;
}
end-IsOnce asked (expired reach) r s h at =
    let (socket, opened) = open_socket reach (close_socket s.socket) in
    let less : Sink = record s { running = erase r s.running; socket = socket } in
    elim opened
      as (λ b. IsOnce asked (
        if b
        then answer r timeout_error (record less { processing = none })
        else record less { dead = r ∷ s.dead })) [
          | true ↦
              answered-IsOnce asked (record less { processing = none }) r timeout_error
                (taken-off asked s r h at)
                (subst (λ x. Lane none x) (sym (running-erase asked s r h at)) free)
          | false ↦ record {
            each = λ i. let e = taken-off asked s r h at i in omega arith;
            lane =
                subst (λ x. Lane s.processing x) (sym (running-erase asked s r h at))
                  (Lane-processing s.processing s.running h.lane);
          }
        ]
end-IsOnce asked broke r s h at =
    let t : Sink = record s { running = erase r s.running } in
    let there : 0 < occ r asked = let e = h.each r in omega arith in
    let f = fault-IsOnce (erase r asked) t (record {
      each = λ i.
          let e = taken-off asked s r h at i in let o = occ-erase r i asked there in omega arith;
      lane =
          subst (λ x. Lane s.processing x) (sym (running-erase asked s r h at))
            (Lane-processing s.processing s.running h.lane);
    }) in
    answered-IsOnce asked (record (fault t) { processing = none }) r socket_error
      (λ i. let e = f.each i in let o = occ-erase r i asked there in omega arith)
      (subst (λ x. Lane none x) (sym (fault-none t (running-erase asked s r h at))) free)
