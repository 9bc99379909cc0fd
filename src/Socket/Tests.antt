-- ===== src/Socket/Tests.antt =====
-- The socket on small inputs.
use pynagle.Common.{◌≡◌, refl, true, false, List, [], ◌∷◌, ok, ℕ}
use pynagle.Socket.{
  open_socket, close_socket, connects, write_all, read_all, read_all_into, recv, read_chunks, zeros,
  read_into, Socket,
}
use pynagle.Socket.Reading.{read_all_into-read_all}

abbrev segments : List (List ℕ)
segments = (1 ∷ 2 ∷ []) ∷ (3 ∷ 4 ∷ 5 ∷ []) ∷ []

test-read_all : read_all 3 segments ≡ ok (1 ∷ 2 ∷ 3 ∷ [], (4 ∷ 5 ∷ []) ∷ [])
unfolding read_all read_chunks recv
test-read_all = refl

test-read_all_into : read_all_into 3 segments ≡ ok (1 ∷ 2 ∷ 3 ∷ [], (4 ∷ 5 ∷ []) ∷ [])
unfolding read_all_into read_into zeros recv
test-read_all_into = refl

test-write_all : write_all (1 ∷ 2 ∷ 3 ∷ []) (2 ∷ 5 ∷ []) ≡ ok (1 ∷ 2 ∷ 3 ∷ [])
unfolding write_all
test-write_all = refl

abbrev unopened : Socket
unopened = record { handle = false; is_open = false }

-- A failed connect leaves a handle that a close of the wrapper does not close.
test-open_socket :
    close_socket (open_socket (connects (false ∷ [])) unopened).0
    ≡ record { handle = true; is_open = false }
unfolding open_socket close_socket
test-open_socket = refl

read_all_into-read_all_example : read_all_into 3 segments ≡ read_all 3 segments
read_all_into-read_all_example = read_all_into-read_all 3 segments
