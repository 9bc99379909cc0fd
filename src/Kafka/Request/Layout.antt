-- ===== src/Kafka/Request/Layout.antt =====
-- The layout of the requests of scales/kafka/protocol.py, and that the code writes it.
use pynagle.Common.{
  zero, suc, ◌-◌, ◌/◌, raised, if◌then◌else◌, ℕ, ◌+◌, ◌<◌, ◌^◌, ◌%◌, ◌≡◌, refl, ap, ◌∙◌, List, [],
  ◌∷◌, ◌++◌, length, length-append, ok, ◌>>=◌, arith,
}
use pynagle.Common.Int.{ℤ, pos, negsuc}
use pynagle.Kafka.Binary.{
  digits, pack_unsigned, write_string, written, string_bytes, Fits, pack_signed-written, lt→ltb,
}
use pynagle.Kafka.Loops.{all_bytes}
use pynagle.Kafka.Request.{message_header, set_length, message, messages, serialize_produce}

length-digits : (w n : ℕ) → length (digits w n) ≡ w
unfolding digits
length-digits zero n = refl
length-digits (suc w) n =
    length-append (digits w (n / 256)) (n % 256 ∷ []) ∙ omega (arith, length-digits w (n / 256))

length-written : (w : ℕ) (z : ℤ) → length (written w z) ≡ w
unfolding written
length-written w (pos n) = length-digits w n
length-written w (negsuc n) = length-digits w (256 ^ w - 1 - n)

module _ (crc : List ℕ → ℕ → ℕ) where
  -- A message in the protocol's layout, each length that of the bytes that it announces.
  unfoldable pub header_bytes : ℕ → List ℕ
  unfolding written
  header_bytes size = 0 ∷ 0 ∷ written 4 (negsuc 0) ++ written 4 (pos size)

  unfoldable pub body_bytes : List ℕ → List ℕ
  unfolding header_bytes digits
  body_bytes p =
      digits 4 (crc p (crc (header_bytes (length p)) 0) % 2 ^ 32) ++ (header_bytes (length p) ++ p)

  unfoldable pub message_bytes : List ℕ → List ℕ
  unfolding body_bytes
  message_bytes p = written 8 (pos 0) ++ (written 4 (pos (length (body_bytes p))) ++ body_bytes p)

  unfoldable pub request_bytes : ℤ → ℤ → List ℕ → List (List ℕ) → List ℕ
  unfolding message_bytes string_bytes all_bytes
  request_bytes acks partition topic payloads =
      let set : List ℕ = all_bytes message_bytes payloads in
      written 2 acks
      ++ (written 4 (pos 1000)
          ++ (written 4 (pos 1)
              ++ (string_bytes topic
                  ++ (written 4 (pos 1)
                      ++ (written 4 partition ++ (written 4 (pos (length set)) ++ set))))))

  write_string-bytes : (s : List ℕ) → length s < 2 ^ 15 → write_string s ≡ ok (string_bytes s)
  unfolding write_string string_bytes Fits
  write_string-bytes s h =
      ap (λ r. r >>= λ size. ok (size ++ s)) (pack_signed-written 2 (pos (length s)) (omega arith))

  header-bytes : (size : ℕ) → size < 2 ^ 31 → message_header size ≡ ok (header_bytes size)
  unfolding message_header header_bytes Fits
  header-bytes size h =
      rw
        (
          pack_signed-written 4 (negsuc 0) (omega arith),
          pack_signed-written 4 (pos size) (omega arith),
        )
        refl

  length-header : (size : ℕ) → length (header_bytes size) ≡ 10
  unfolding header_bytes
  length-header size =
      let a = length-written 4 (negsuc 0) in
      let b = length-written 4 (pos size) in
      let c = length-append (written 4 (negsuc 0)) (written 4 (pos size)) in omega arith

  length-body :
      (p : List ℕ) → length (body_bytes p) ≡ length (header_bytes (length p)) + length p + 4
  unfolding body_bytes
  length-body p =
      let sum : ℕ = crc p (crc (header_bytes (length p)) 0) % 2 ^ 32 in
      let a = length-digits 4 sum in
      let b = length-append (header_bytes (length p)) p in
      let c = length-append (digits 4 sum) (header_bytes (length p) ++ p) in omega arith

  length-message : (p : List ℕ) → length (message_bytes p) ≡ 26 + length p
  unfolding message_bytes
  length-message p =
      let a = length-written 8 (pos 0) in
      let b = length-written 4 (pos (length (body_bytes p))) in
      let c = length-append (written 4 (pos (length (body_bytes p)))) (body_bytes p) in
      let d =
        length-append (written 8 (pos 0))
          (written 4 (pos (length (body_bytes p))) ++ body_bytes p) in
      let e = length-body p in let f = length-header (length p) in omega arith

  length-messages :
      (payloads : List (List ℕ)) → length (all_bytes message_bytes payloads) ≡ set_length payloads
  unfolding all_bytes set_length
  length-messages [] = refl
  length-messages (p ∷ payloads) =
      let a = length-message p in
      let b = length-append (message_bytes p) (all_bytes message_bytes payloads) in
      let c = length-messages payloads in omega arith

  pack_unsigned-digits : (w n : ℕ) → n < 256 ^ w → pack_unsigned w n ≡ ok (digits w n)
  unfolding pack_unsigned
  pack_unsigned-digits w n h =
      ap (λ b. if b then ok (digits w n) else raised) (lt→ltb n (256 ^ w) h)

  message-bytes : (p : List ℕ) → 26 + length p < 2 ^ 31 → message crc p ≡ ok (message_bytes p)
  unfolding message message_bytes body_bytes Fits
  message-bytes p h =
      let l = length-header (length p) in
      rw
        (
          header-bytes (length p) (omega arith),
          pack_signed-written 8 (pos 0) (omega arith),
          pack_signed-written 4 (pos (length (header_bytes (length p)) + length p + 4))
              (omega arith),
          pack_unsigned-digits 4 (crc p (crc (header_bytes (length p)) 0) % 2 ^ 32) (omega arith),
          length-body p,
        )
        refl

  messages-bytes :
      (payloads : List (List ℕ))
      → set_length payloads < 2 ^ 31
      → messages crc payloads ≡ ok (all_bytes message_bytes payloads)
  unfolding messages all_bytes set_length
  messages-bytes [] h = refl
  messages-bytes (p ∷ payloads) h =
      rw (message-bytes p (omega arith), messages-bytes payloads (omega arith)) refl

  -- A produce request whose acks and partition fit their fields, with a topic below 2^15 bytes and
  -- messages of less than 2^31 bytes in all, is written in the protocol's layout, where the size of
  -- the message set and that of each message are the lengths of the bytes after them.
  pub serialize_produce-bytes :
      (acks partition : ℤ) (topic : List ℕ) (payloads : List (List ℕ))
      → Fits 2 acks
      → Fits 4 partition
      → length topic < 2 ^ 15
      → set_length payloads < 2 ^ 31
      → serialize_produce crc acks partition topic payloads
        ≡ ok (request_bytes acks partition topic payloads)
  unfolding serialize_produce request_bytes Fits
  serialize_produce-bytes acks partition topic payloads ha hp ht hs =
      rw
        (
          pack_signed-written 2 acks ha,
          pack_signed-written 4 (pos 1000) (omega arith),
          pack_signed-written 4 (pos 1) (omega arith),
          write_string-bytes topic ht,
          pack_signed-written 4 partition hp,
          pack_signed-written 4 (pos (set_length payloads)) (omega arith),
          messages-bytes payloads hs,
          length-messages payloads,
        )
        refl
