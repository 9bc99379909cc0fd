-- ===== src/Thrift/Transport.antt =====
-- scales/thrift/sink.py, class SocketTransportSink: one request at a time over a socket.
-- A request is a number, and so is its greenlet. What the socket does is an argument: how the
-- exchange of a transaction ends, whether an open succeeds. Varz are left out. The kill that Close
-- asks of a greenlet takes effect before that greenlet goes on; a greenlet that closes its own sink
-- ends before it could be killed.
pub mod Once
pub mod History
pub mod Stuck
mod Tests
use pynagle.Common.{
  ℕ, ◌+◌, ◌<◌, ◌-◌, Bool, true, false, Option, none, some, List, [], ◌∷◌, ◌++◌, ltb, ◌==◌,
  if◌then◌else◌, erase, contains, length, Run, ok, raised, ◌>>=◌,
}
use pynagle.Common.Int.{pos}
use pynagle.Constants.{ChannelState, state_eq}
use pynagle.Kafka.Binary.{pack_signed}
use pynagle.Socket.{Socket, Reach, open_socket, close_socket}

pub data Answer : Type 0 where
  stream : ℕ → Answer
  timeout_error socket_error reply_error concurrency_error : Answer

-- How the exchange ends: with the buffer of the reply, with a timeout after which the socket is
-- opened again, or with an exception of the socket.
pub data Ending : Type 0 where
  replied : ℕ → Ending
  expired : Reach → Ending
  broke : Ending

-- `opening` counts the greenlets of Open, `running` and `replying` hold those of transactions and of
-- replies. `killed` and `dead` are the requests whose greenlet was killed, or ended by an exception.
pub record Sink : Type 0 where
  pub channel : ChannelState
  pub socket : Socket
  pub processing : Option ℕ
  pub open_result : Bool
  pub opening : ℕ
  pub running : List ℕ
  pub replying : List (ℕ × ℕ)
  pub killed : List ℕ
  pub dead : List ℕ
  pub faults : ℕ
  pub written : List (List ℕ)
  pub answers : List (ℕ × Answer)

-- __init__
unfoldable pub init : Sink
init = record {
  channel = ChannelState.idle;
  socket = record { handle = false; is_open = false };
  processing = none;
  open_result = false;
  opening = 0;
  running = [];
  replying = [];
  killed = [];
  dead = [];
  faults = 0;
  written = [];
  answers = [];
}

-- The state property.
unfoldable pub state : Sink → ChannelState
state s = if s.socket.handle then ChannelState.opened else s.channel

-- AsyncProcessResponse… of the stack of a request.
unfoldable pub answer : ℕ → Answer → Sink → Sink
answer r a s = record s { answers = (r, a) ∷ s.answers }

-- The greenlets that run after the kill of the one that is processing, if it does, and those killed.
unfoldable pub still_running : Option ℕ → List ℕ → List ℕ
still_running none running = running
still_running (some r) running = erase r running

unfoldable pub now_killed : Option ℕ → List ℕ → List ℕ → List ℕ
now_killed none running killed = killed
now_killed (some r) running killed = if contains running r then r ∷ killed else killed

-- A greenlet that has ended is false, so Close leaves it where it is.
unfoldable pub still_processing : Option ℕ → List ℕ → Option ℕ
still_processing none running = none
still_processing (some r) running = if contains running r then none else some r

unfoldable pub close : Sink → Sink
unfolding still_running now_killed still_processing
close s = record s {
  channel = ChannelState.closed;
  socket = close_socket s.socket;
  open_result = false;
  processing = still_processing s.processing s.running;
  running = still_running s.processing s.running;
  killed = now_killed s.processing s.running s.killed;
}

-- _Fault
unfoldable pub fault : Sink → Sink
unfolding close state
fault s =
    let c = close s in
    if state_eq (state s) ChannelState.closed then s else record c { faults = c.faults + 1 }

-- Open
unfoldable pub open_channel : Sink → Sink
open_channel s =
    if s.open_result then s else record s { open_result = true; opening = s.opening + 1 }

-- _OpenImpl, on its greenlet.
unfoldable pub open_impl : Reach → Sink → Sink
unfolding fault
open_impl reach s =
    let (socket, opened) = open_socket reach s.socket in
    let less : Sink = record s { opening = s.opening - 1; socket = socket } in
    if opened then record less { channel = ChannelState.opened } else fault less

-- The size and the payload, and the reading of a reply.
unfoldable pub frame : List ℕ → Run (List ℕ)
frame payload = pack_signed 4 (pos (length payload)) >>= λ sz. ok (sz ++ payload)

-- The end of _AsyncProcessTransaction. The greenlet is off the list before a fault closes the sink.
unfoldable pub end_transaction : Ending → ℕ → Sink → Sink
unfolding answer fault
end_transaction (replied buf) r s = record s {
  running = erase r s.running;
  processing = none;
  replying = s.replying ++ (r, buf) ∷ [];
}
end_transaction (expired reach) r s =
    let (socket, opened) = open_socket reach (close_socket s.socket) in
    let less : Sink = record s { running = erase r s.running; socket = socket } in
    if opened
    then answer r timeout_error (record less { processing = none })
    else record less { dead = r ∷ s.dead }
end_transaction broke r s =
    answer r socket_error
      (record (fault (record s { running = erase r s.running })) { processing = none })

-- The start of _AsyncProcessTransaction: without a deadline there is no timeout, and once it has
-- passed nothing is sent. `reach` is what opening the socket again meets then.
unfoldable pub ending_of : Option ℕ → ℕ → Reach → Ending → Ending
ending_of none now reach ending = ending
ending_of (some deadline) now reach ending = if ltb deadline now then expired reach else ending

-- _ProcessReply; `fails` is whether the sinks above raise.
unfoldable pub process_reply : Bool → ℕ → ℕ → Sink → Sink
unfolding answer
process_reply fails r buf s = answer r (if fails then reply_error else stream buf) s

-- A greenlet of a reply, off the list.
unfoldable pub reply_next : Bool → Sink → List (ℕ × ℕ) → Sink
unfolding process_reply
reply_next fails s [] = s
reply_next fails s ((r, buf) ∷ more) = process_reply fails r buf (record s { replying = more })

-- AsyncProcessRequest
unfoldable pub request : ℕ → List ℕ → Sink → Run Sink
unfolding answer frame
request r payload s = elim s.processing [
  | none ↦ frame payload >>= λ sent.
      ok (record s { processing = some r; running = r ∷ s.running; written = sent ∷ s.written })
  | some p ↦ ok (answer r concurrency_error s)
]
