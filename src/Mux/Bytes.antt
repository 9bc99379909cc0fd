-- ===== src/Mux/Bytes.antt =====
-- What Python's struct does with big-endian signed integers, and the bit operators on integers.
use pynagle.Common.{ℕ, ◌+◌, ◌-◌, ◌*◌, ◌/◌, ◌%◌, ◌^◌, List, [], ◌∷◌, ltb, if◌then◌else◌}
use pynagle.Common.Int.{ℤ, pos, negsuc}

-- x >> k, x << k and x & (2 ** k - 1), with two's complement below zero.
unfoldable pub shift_right : ℤ → ℕ → ℤ
shift_right (pos n) k = pos (n / 2 ^ k)
shift_right (negsuc n) k = negsuc (n / 2 ^ k)

unfoldable pub shift_left : ℤ → ℕ → ℤ
shift_left (pos n) k = pos (n * 2 ^ k)
shift_left (negsuc n) k = negsuc ((n + 1) * 2 ^ k - 1)

unfoldable pub low_bits : ℤ → ℕ → ℕ
low_bits (pos n) k = n % 2 ^ k
low_bits (negsuc n) k = 2 ^ k - 1 - n % 2 ^ k

-- The 32-bit pattern as a signed number, and back.
unfoldable pub signed32 : ℕ → ℤ
signed32 w = if ltb w (2 ^ 31) then pos w else negsuc (2 ^ 32 - 1 - w)

unfoldable pub pattern8 : ℤ → ℕ
pattern8 (pos n) = n % 256
pattern8 (negsuc n) = 255 - n % 256

-- struct.pack('!i', n), for 0 <= n < 2 ** 31
unfoldable pub pack_i32 : ℕ → List ℕ
pack_i32 n = (n / 2 ^ 24) % 256 ∷ (n / 2 ^ 16) % 256 ∷ (n / 2 ^ 8) % 256 ∷ n % 256 ∷ []
