-- ===== src/Thrift/Transport/Stuck.antt =====
-- A transport whose greenlet died, and one whose open failed.
use pynagle.Common.{
  ◌⊎◌, inl, inr, occ, Run, ◌>>=◌, ℕ, ◌+◌, ◌-◌, ◌≡◌, refl, ap, sym, ◌∙◌, subst, Bool, true, false,
  Option, none, some, List, [], ◌∷◌, if◌then◌else◌, erase, ok, arith,
}
use pynagle.Constants.{ChannelState}
use pynagle.Thrift.Transport.History.{Step, opens, opening, closes, asks, ends, replies}
use pynagle.Socket.{Socket, connects, connect, open_handle, open_socket, close_socket}
use pynagle.Thrift.Transport.{
  frame, open_channel, reply_next, process_reply, Answer, expired, concurrency_error, Sink, state,
  answer, close, fault, open_impl, end_transaction, request,
}

-- Connects of which all fail.
pub data AllFail : List Bool → Type 0 where
  last : AllFail (false ∷ [])
  before : {more : List Bool} → AllFail more → AllFail (false ∷ more)

AllFail-connect :
    (handle : Bool) (reached : List Bool) → AllFail reached → connect handle reached ≡ (true, false)
unfolding connect
AllFail-connect handle _ last = refl
AllFail-connect handle _ (before {more = b ∷ more} h) = AllFail-connect true (b ∷ more) h
AllFail-connect handle _ (before {more = []} h) = elim h [ ]

-- Opening a socket that was not open.
failed-open_socket :
    (reached : List Bool) (s : Socket)
    → AllFail reached
    → s.is_open ≡ false
    → open_socket (connects reached) s ≡ (record { handle = true; is_open = false }, false)
unfolding open_socket open_handle
failed-open_socket reached s h e =
    ap
      (λ (handle, opened).
        (record { handle = handle; is_open = if opened then true else s.is_open }, opened))
      (AllFail-connect s.handle reached h)
    ∙ ap (λ b. (record { handle = true; is_open = b }, false)) e

-- What a failed open leaves: a sink that is closed and has told so, and yet reports Open.
pub record FailedOpen (s t : Sink) : Type 0 where
  pub closed : t.channel ≡ ChannelState.closed
  pub told : t.faults ≡ s.faults + 1
  pub reports : state t ≡ ChannelState.opened
  pub still : state (close t) ≡ ChannelState.opened

-- If the socket of a transport is not open, and all connects of its open fail, then the transport
-- closes and faults, but its state is Open, and a further close leaves it so.
open_impl-FailedOpen :
    (reached : List Bool) (s : Sink)
    → AllFail reached
    → s.socket.is_open ≡ false
    → FailedOpen s (open_impl (connects reached) s)
unfolding open_impl fault close state close_socket
open_impl-FailedOpen reached s h e =
    subst
      (λ (socket, opened). FailedOpen s (
        let less : Sink = record s { opening = s.opening - 1; socket = socket } in
        if opened then record less { channel = ChannelState.opened } else fault less))
      (sym (failed-open_socket reached s.socket h e))
      (record { closed = refl; told = refl; reports = refl; still = refl })

closed-is_open : (s : Socket) → (close_socket s).is_open ≡ false
unfolding close_socket
closed-is_open s =
    elim s.is_open
        as (λ b.
          s.is_open ≡ b
          → (if b then record { handle = false; is_open = false } else s).is_open ≡ false) [
            | true ↦ λ e. refl
            | false ↦ λ e. e
          ]
      refl

-- A transport with no greenlet at work that takes request `r` to be processed.
pub record IsStuck (r : ℕ) (s : Sink) : Type 0 where
  pub taken : s.processing ≡ some r
  pub idle : s.running ≡ []
  pub no_open : s.opening ≡ 0
  pub opened : s.open_result ≡ true
  pub reports : state s ≡ ChannelState.opened

-- If the transaction of an opened transport times out, and all connects of opening its socket again
-- fail, the request is not answered and the transport is stuck with it.
pub expired-IsStuck :
    (reached : List Bool) (r : ℕ) (s : Sink)
    → AllFail reached
    → s.processing ≡ some r
    → s.running ≡ r ∷ []
    → s.opening ≡ 0
    → s.open_result ≡ true
    → IsStuck r (end_transaction (expired (connects reached)) r s)
      × ((end_transaction (expired (connects reached)) r s).answers ≡ s.answers)
unfolding end_transaction state
expired-IsStuck reached r s h p q o w =
    let none_left : erase r s.running ≡ [] =
      ap (erase r) q ∙ (let e : erase r (r ∷ []) ≡ [] = ground arith in e) in
    subst
      (λ (socket, opened).
        let less : Sink = record s { running = erase r s.running; socket = socket } in
        let t : Sink =
          if opened
          then answer r Answer.timeout_error (record less { processing = none })
          else record less { dead = r ∷ s.dead } in
        IsStuck r t × (t.answers ≡ s.answers))
      (sym (failed-open_socket reached (close_socket s.socket) h (closed-is_open s.socket)))
      (record { taken = p; idle = none_left; no_open = o; opened = w; reports = refl }, refl)

-- The next state is still stuck, and a request was refused if one was asked, and none answered else.
pub data Refusing (r : ℕ) (asked : List ℕ) (s : Sink) : List ℕ → Sink → Type 0 where
  refused :
      {t : Sink} (q : ℕ)
      → IsStuck r t
      → t.answers ≡ (q, concurrency_error) ∷ s.answers
      → Refusing r asked s (q ∷ asked) t
  no_request : {t : Sink} → IsStuck r t → Refusing r asked s asked t

stuck_request :
    (r q : ℕ) (payload asked : List ℕ) (s t : Sink)
    → IsStuck r s
    → request q payload s ≡ ok t
    → Refusing r asked s (q ∷ asked) t
unfolding request answer state
stuck_request r q payload asked s t h e =
    let f : Option ℕ → Run Sink = λ p. elim p [
      | none ↦ frame payload >>= λ sent.
          ok (record s { processing = some q; running = q ∷ s.running; written = sent ∷ s.written })
      | some p ↦ ok (answer q concurrency_error s)
    ] in
    let as_ok : ok (answer q concurrency_error s) ≡ ok t = sym (ap f h.taken) ∙ e in
    let same : answer q concurrency_error s ≡ t = ground arith in
    subst (Refusing r asked s (q ∷ asked)) same (
      refused q
        (record {
          taken = h.taken;
          idle = h.idle;
          no_open = h.no_open;
          opened = h.opened;
          reports = h.reports;
        })
        refl)

replied-IsStuck :
    (r : ℕ) (fails : Bool) (s : Sink) (replying : List (ℕ × ℕ))
    → IsStuck r s
    → IsStuck r (reply_next fails s replying)
unfolding reply_next process_reply answer state
replied-IsStuck r fails s [] h = h
replied-IsStuck r fails s ((q, buf) ∷ more) h = record {
  taken = h.taken;
  idle = h.idle;
  no_open = h.no_open;
  opened = h.opened;
  reports = h.reports;
}

-- From a stuck transport every step but a close leads to one that is stuck too, reports Open, and
-- has refused the request of that step.
Step-IsStuck :
    (r : ℕ) (asked after : List ℕ) (s t : Sink)
    → IsStuck r s
    → Step asked s after t
    → (t ≡ close s) ⊎ Refusing r asked s after t
unfolding open_channel
Step-IsStuck r asked _ s _ h opens = inr (
    no_request (
      subst
        (λ b. IsStuck r (if b then s else record s { open_result = true; opening = s.opening + 1 }))
        (sym h.opened) h))
Step-IsStuck r asked _ s _ h (opening reach p) = let z = h.no_open in absurd (omega arith)
Step-IsStuck r asked _ s _ h closes = inl refl
Step-IsStuck r asked _ s t h (asks q payload e) = inr (stuck_request r q payload asked s t h e)
Step-IsStuck r asked _ s _ h (ends ending q p) = let z = ap (occ q) h.idle in absurd (omega arith)
Step-IsStuck r asked _ s _ h (replies fails) =
    inr (no_request (replied-IsStuck r fails s s.replying h))
