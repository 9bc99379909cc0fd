-- ===== src/Socket.antt =====
-- scales/scales_socket.py and VarzSocketWrapper of scales/varz.py: the socket under the transports.
-- What the operating system does is an argument: whether an address resolves and each connect
-- succeeds, the segments in which bytes arrive, how much a send takes. Varz are left out.
pub mod Reading
mod Tests
use pynagle.Common.{
  ℕ, zero, suc, ◌+◌, ◌-◌, Bool, true, false, List, [], ◌∷◌, ◌++◌, ltb, ◌==◌, if◌then◌else◌, length,
  take, drop, Run, ok, raised, ◌>>=◌,
}

-- `handle` is whether the handle of ScalesSocket is not None, `is_open` is _is_open of the wrapper.
pub record Socket : Type 0 where
  pub handle : Bool
  pub is_open : Bool

-- What open meets: an address that does not resolve, or the connects to the addresses in turn.
pub data Reach : Type 0 where
  unresolved : Reach
  connects : List Bool → Reach

-- ScalesSocket.open over the addresses: the handle, and whether it ends without an exception. A
-- failed connect leaves its handle.
unfoldable pub connect : Bool → List Bool → Bool × Bool
connect handle [] = (handle, true)
connect handle (true ∷ more) = (true, true)
connect handle (false ∷ []) = (true, false)
connect handle (false ∷ b ∷ more) = connect true (b ∷ more)

unfoldable pub open_handle : Bool → Reach → Bool × Bool
unfolding connect
open_handle handle unresolved = (handle, false)
open_handle handle (connects reached) = connect handle reached

-- VarzSocketWrapper.open: the socket, and whether it ends without an exception.
unfoldable pub open_socket : Reach → Socket → Socket × Bool
unfolding open_handle
open_socket reach s =
    let (handle, opened) = open_handle s.handle reach in
    (record { handle = handle; is_open = if opened then true else s.is_open }, opened)

-- VarzSocketWrapper.close, and the close of ScalesSocket below it.
unfoldable pub close_socket : Socket → Socket
close_socket s = if s.is_open then record { handle = false; is_open = false } else s

-- recv of at most `n` bytes: the bytes, and the segments that are left. No bytes mean the end.
unfoldable pub recv : ℕ → List (List ℕ) → List ℕ × List (List ℕ)
recv n [] = ([], [])
recv n (seg ∷ segs) = if ltb n (length seg) then (take n seg, drop n seg ∷ segs) else (seg, segs)

-- ScalesSocket.readAll, with the bytes so far and fuel.
unfoldable pub read_chunks : ℕ → ℕ → List ℕ → List (List ℕ) → Run (List ℕ × List (List ℕ))
unfolding recv
read_chunks zero sz buff segs = Run.out_of_fuel
read_chunks (suc fuel) sz buff segs =
    let (chunk, rest) = recv (sz - length buff) segs in
    let more = read_chunks fuel sz (buff ++ chunk) rest in
    if ltb (length buff) sz then (if length chunk == 0 then raised else more) else ok (buff, segs)

-- A write into a bytearray at a position.
unfoldable pub write_at : ℕ → List ℕ → List ℕ → List ℕ
write_at have chunk view = take have view ++ chunk ++ drop (have + length chunk) view

-- VarzSocketWrapper.readAll, with the bytearray, the bytes so far and fuel.
unfoldable pub read_into : ℕ → ℕ → ℕ → List ℕ → List (List ℕ) → Run (List ℕ × List (List ℕ))
unfolding recv write_at
read_into zero sz have view segs = Run.out_of_fuel
read_into (suc fuel) sz have view segs =
    let (chunk, rest) = recv (sz - have) segs in
    let more = read_into fuel sz (have + length chunk) (write_at have chunk view) rest in
    if ltb have sz then (if length chunk == 0 then raised else more) else ok (view, segs)

-- bytearray(sz)
unfoldable pub zeros : ℕ → List ℕ
zeros zero = []
zeros (suc n) = 0 ∷ zeros n

-- Each round reads a byte, so sz + 1 rounds are enough.
unfoldable pub read_all : ℕ → List (List ℕ) → Run (List ℕ × List (List ℕ))
unfolding read_chunks
read_all sz segs = read_chunks (suc sz) sz [] segs

unfoldable pub read_all_into : ℕ → List (List ℕ) → Run (List ℕ × List (List ℕ))
unfolding read_into zeros
read_all_into sz segs = read_into (suc sz) sz 0 (zeros sz) segs

-- ScalesSocket.write: `takes` is how much each send takes, and it raises when there is none left.
-- The value is what was sent.
unfoldable pub write_all : List ℕ → List ℕ → Run (List ℕ)
write_all [] takes = ok []
write_all (b ∷ buff) [] = raised
write_all (b ∷ buff) (k ∷ takes) =
    let more = write_all (drop k (b ∷ buff)) takes in
    if k == 0 then raised else more >>= λ sent. ok (take k (b ∷ buff) ++ sent)
