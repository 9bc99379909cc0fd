-- ===== src/Thrift/Transport/Tests.antt =====
-- The transport on concrete histories.
use pynagle.Common.{◌<◌, ◌≡◌, refl, true, false, some, [], ◌∷◌, ok, arith}
use pynagle.Socket.{connects, connect, open_handle, open_socket, close_socket}
use pynagle.Kafka.Binary.{pack_signed, digits}
use pynagle.Thrift.Transport.{
  Sink, init, answer, open_channel, open_impl, frame, request, end_transaction, expired,
  concurrency_error,
}
use pynagle.Thrift.Transport.Once.{IsOnce}
use pynagle.Thrift.Transport.History.{Reachable, new, next, opens, opening, asks, Reachable-IsOnce}
use pynagle.Thrift.Transport.Stuck.{last, IsStuck, expired-IsStuck}

abbrev opened_sink : Sink
opened_sink = open_impl (connects (true ∷ [])) (open_channel init)

abbrev busy : Sink
busy = record opened_sink {
  processing = some 7;
  running = 7 ∷ [];
  written = (0 ∷ 0 ∷ 0 ∷ 1 ∷ 9 ∷ []) ∷ [];
}

request-busy : request 7 (9 ∷ []) opened_sink ≡ ok busy
unfolding request frame pack_signed digits init open_channel open_impl open_socket open_handle
    connect
request-busy = refl

one_opening : 0 < (open_channel init).opening
unfolding init open_channel
one_opening = omega arith

init-shut : (open_channel init).socket.is_open ≡ false
unfolding init open_channel
init-shut = refl

busy-Reachable : Reachable (7 ∷ []) busy
busy-Reachable =
    next (next (next new opens) (opening (connects (true ∷ [])) one_opening))
      (asks 7 (9 ∷ []) request-busy)

Reachable-IsOnce_example : IsOnce (7 ∷ []) busy
Reachable-IsOnce_example = Reachable-IsOnce busy-Reachable

abbrev stuck : Sink
stuck = end_transaction (expired (connects (false ∷ []))) 7 busy

stuck-IsStuck : IsStuck 7 stuck
unfolding init open_channel open_impl open_socket open_handle connect
stuck-IsStuck = (expired-IsStuck (false ∷ []) 7 busy last refl refl refl refl).0

refusal : request 8 [] stuck ≡ ok (answer 8 concurrency_error stuck)
unfolding request end_transaction init open_channel open_impl open_socket open_handle connect
    close_socket answer
refusal = refl
