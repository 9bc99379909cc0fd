-- ===== src/Kafka/Binary.antt =====
-- scales/binary.py: big-endian numbers and strings, on lists of bytes. A reader takes the bytes that
-- are left and returns those that it leaves; struct raises where bytes are missing or a number does
-- not fit its width, which is in bytes.
use pynagle.Common.{
  ℕ, zero, suc, ◌+◌, ◌-◌, ◌*◌, ◌/◌, ◌%◌, ◌^◌, ◌<◌, ◌≤◌, ◌≡◌, refl, ap, sym, ◌∙◌, true, false, List,
  [], ◌∷◌, ◌++◌, length, take, drop, ltb, if◌then◌else◌, Run, ok, raised, ◌>>=◌, arith,
}
use pynagle.Common.Int.{ℤ, pos, negsuc}

-- The digits of a number in base 256, the highest first.
unfoldable pub digits : ℕ → ℕ → List ℕ
digits zero n = []
digits (suc w) n = digits w (n / 256) ++ n % 256 ∷ []

unfoldable pub from_digits : ℕ → ℕ → List ℕ → Run (ℕ × List ℕ)
from_digits zero n xs = ok (n, xs)
from_digits (suc w) n [] = raised
from_digits (suc w) n (x ∷ xs) = from_digits w (n * 256 + x) xs

-- struct.pack of an unsigned number, and of a signed one: '!h', '!i' and '!q' for widths 2, 4 and 8.
unfoldable pub pack_unsigned : ℕ → ℕ → Run (List ℕ)
unfolding digits
pack_unsigned w n = if ltb n (256 ^ w) then ok (digits w n) else raised

unfoldable pub pack_signed : ℕ → ℤ → Run (List ℕ)
unfolding digits
pack_signed w (pos n) = if ltb n (256 ^ w / 2) then ok (digits w n) else raised
pack_signed w (negsuc n) = if ltb n (256 ^ w / 2) then ok (digits w (256 ^ w - 1 - n)) else raised

-- ReadInt16, ReadInt32 and ReadInt64
unfoldable pub signed : ℕ → ℕ → ℤ
signed w n = if ltb n (256 ^ w / 2) then pos n else negsuc (256 ^ w - 1 - n)

unfoldable pub read_signed : ℕ → List ℕ → Run (ℤ × List ℕ)
unfolding from_digits signed
read_signed w xs = from_digits w 0 xs >>= λ (n, rest). ok (signed w n, rest)

-- buf.read, which takes all if the number is negative.
unfoldable pub read_bytes : ℤ → List ℕ → List ℕ × List ℕ
read_bytes (pos n) xs = (take n xs, drop n xs)
read_bytes (negsuc n) xs = (xs, [])

-- ReadString
unfoldable pub read_string : List ℕ → Run (List ℕ × List ℕ)
unfolding read_signed read_bytes
read_string xs = read_signed 2 xs >>= λ (n, rest). ok (read_bytes n rest)

-- WriteString
unfoldable pub write_string : List ℕ → Run (List ℕ)
unfolding pack_signed
write_string s = pack_signed 2 (pos (length s)) >>= λ size. ok (size ++ s)

pub lt→ltb : (a b : ℕ) → a < b → ltb a b ≡ true
lt→ltb a b h = ground arith

ge→ltb : (a b : ℕ) → b ≤ a → ltb a b ≡ false
ge→ltb a b h = ground arith

pub append_assoc : (xs ys zs : List ℕ) → (xs ++ ys) ++ zs ≡ xs ++ (ys ++ zs)
append_assoc [] ys zs = refl
append_assoc (x ∷ xs) ys zs = ap (λ t. x ∷ t) (append_assoc xs ys zs)

from_digits-digits :
    (w j m n : ℕ) (rest : List ℕ)
    → m ≡ w + j
    → n < 256 ^ w
    → from_digits m 0 (digits w n ++ rest) ≡ from_digits j n rest
unfolding from_digits digits
from_digits-digits zero j m n rest e h =
    let z : n ≡ 0 = omega arith in
    let s : m ≡ j = omega arith in
    ap (λ k. from_digits k 0 rest) s ∙ ap (λ k. from_digits j k rest) (sym z)
from_digits-digits (suc w) j m n rest e h =
    let p : n / 256 < 256 ^ w = omega arith in
    ap (λ xs. from_digits m 0 xs) (append_assoc (digits w (n / 256)) (n % 256 ∷ []) rest)
    ∙ (from_digits-digits w (suc j) m (n / 256) (n % 256 ∷ rest) (omega arith) p
        ∙ ap (λ k. from_digits j k rest) (omega arith))

-- A number that a signed field of `w` bytes holds.
unfoldable pub Fits : ℕ → ℤ → Type 0
Fits w (pos n) = n < 256 ^ w / 2
Fits w (negsuc n) = n < 256 ^ w / 2

-- Its bytes.
unfoldable pub written : ℕ → ℤ → List ℕ
written w (pos n) = digits w n
written w (negsuc n) = digits w (256 ^ w - 1 - n)

-- A number that fits is written as its bytes, and one that does not raises.
pub pack_signed-written : (w : ℕ) (z : ℤ) → Fits w z → pack_signed w z ≡ ok (written w z)
unfolding pack_signed written Fits
pack_signed-written w (pos n) h =
    ap (λ b. if b then ok (digits w n) else raised) (lt→ltb n (256 ^ w / 2) h)
pack_signed-written w (negsuc n) h =
    ap (λ b. if b then ok (digits w (256 ^ w - 1 - n)) else raised) (lt→ltb n (256 ^ w / 2) h)

from_own_digits :
    (w n : ℕ) (rest : List ℕ) → n < 256 ^ w → from_digits w 0 (digits w n ++ rest) ≡ ok (n, rest)
unfolding from_digits
from_own_digits w n rest h = from_digits-digits w 0 w n rest (omega arith) h

signed-negative : (w n : ℕ) → n < 256 ^ w / 2 → signed w (256 ^ w - 1 - n) ≡ negsuc n
unfolding signed
signed-negative w n h =
    let big : ltb (256 ^ w - 1 - n) (256 ^ w / 2) ≡ false =
      ge→ltb (256 ^ w - 1 - n) (256 ^ w / 2) (omega arith) in
    ap (λ b. if b then pos (256 ^ w - 1 - n) else negsuc (256 ^ w - 1 - (256 ^ w - 1 - n))) big
    ∙ ap negsuc (omega arith)

signed-positive : (w n : ℕ) → n < 256 ^ w / 2 → signed w n ≡ pos n
unfolding signed
signed-positive w n h =
    ap (λ b. if b then pos n else negsuc (256 ^ w - 1 - n)) (lt→ltb n (256 ^ w / 2) h)

-- The bytes of a number that fits read back to the number, whatever follows them.
pub read_signed-written :
    (w : ℕ) (z : ℤ) (rest : List ℕ) → Fits w z → read_signed w (written w z ++ rest) ≡ ok (z, rest)
unfolding read_signed written Fits
read_signed-written w (pos n) rest h =
    ap (λ r. r >>= λ (m, after). ok (signed w m, after)) (from_own_digits w n rest (omega arith))
    ∙ ap (λ z. ok (z, rest)) (signed-positive w n h)
read_signed-written w (negsuc n) rest h =
    ap (λ r. r >>= λ (m, after). ok (signed w m, after))
      (from_own_digits w (256 ^ w - 1 - n) rest (omega arith))
    ∙ ap (λ z. ok (z, rest)) (signed-negative w n h)

take_own : (xs rest : List ℕ) → take (length xs) (xs ++ rest) ≡ xs
take_own [] rest = refl
take_own (x ∷ xs) rest = ap (λ t. x ∷ t) (take_own xs rest)

drop_own : (xs rest : List ℕ) → drop (length xs) (xs ++ rest) ≡ rest
drop_own [] rest = refl
drop_own (x ∷ xs) rest = drop_own xs rest

-- The bytes of a string: its length in two bytes, then the string.
unfoldable pub string_bytes : List ℕ → List ℕ
unfolding written
string_bytes s = written 2 (pos (length s)) ++ s

-- A string shorter than 2^15 bytes reads back, whatever follows it.
pub read_string-bytes :
    (s rest : List ℕ) → length s < 2 ^ 15 → read_string (string_bytes s ++ rest) ≡ ok (s, rest)
unfolding read_string read_bytes string_bytes Fits
read_string-bytes s rest h =
    ap read_string (append_assoc (written 2 (pos (length s))) s rest)
    ∙ (ap (λ r. r >>= λ (n, after). ok (read_bytes n after))
          (read_signed-written 2 (pos (length s)) (s ++ rest) (omega arith))
        ∙ ap ok (λ i. (take_own s rest i, drop_own s rest i)))
