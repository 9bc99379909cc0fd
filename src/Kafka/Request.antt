-- ===== src/Kafka/Request.antt =====
-- _SerializeProduceRequest of scales/kafka/protocol.py. `crc` is zlib.crc32 of bytes and a start.
pub mod Layout
use pynagle.Common.{
  ℕ, ◌+◌, ◌<◌, ◌≤◌, ◌^◌, ◌%◌, ◌≡◌, refl, ap, ◌∙◌, List, [], ◌∷◌, ◌++◌, length, length-append, Run,
  ok, ◌>>=◌, arith,
}
use pynagle.Common.Int.{ℤ, pos, negsuc}
use pynagle.Kafka.Binary.{
  digits, pack_signed, pack_unsigned, write_string, written, string_bytes, Fits,
  pack_signed-written,
}
use pynagle.Kafka.Loops.{all_bytes}

-- _GetMessageHeader: '!BBii' of 0, 0, -1 and the length.
unfoldable pub message_header : ℕ → Run (List ℕ)
message_header size =
    pack_signed 4 (negsuc 0) >>= λ key. pack_signed 4 (pos size) >>= λ len. ok (0 ∷ 0 ∷ key ++ len)

-- msg_set_len
unfoldable pub set_length : List (List ℕ) → ℕ
set_length [] = 0
set_length (p ∷ payloads) = 8 + 4 + 4 + length p + 10 + set_length payloads

module _ (crc : List ℕ → ℕ → ℕ) where
  -- One round of the loop over the payloads.
  unfoldable pub message : List ℕ → Run (List ℕ)
  unfolding message_header
  message p = message_header (length p) >>= λ header. pack_signed 8 (pos 0) >>= λ offset.
      pack_signed 4 (pos (length header + length p + 4)) >>= λ size.
      pack_unsigned 4 (crc p (crc header 0) % 2 ^ 32) >>= λ sum.
      ok (offset ++ (size ++ (sum ++ (header ++ p))))

  unfoldable pub messages : List (List ℕ) → Run (List ℕ)
  unfolding message
  messages [] = ok []
  messages (p ∷ payloads) = message p >>= λ m. messages payloads >>= λ ms. ok (m ++ ms)

  -- _SerializeProduceRequest
  unfoldable pub serialize_produce : ℤ → ℤ → List ℕ → List (List ℕ) → Run (List ℕ)
  unfolding messages set_length
  serialize_produce acks partition topic payloads = pack_signed 2 acks >>= λ a.
      pack_signed 4 (pos 1000) >>= λ timeout. pack_signed 4 (pos 1) >>= λ sets.
      write_string topic >>= λ name. pack_signed 4 (pos 1) >>= λ one.
      pack_signed 4 partition >>= λ part. pack_signed 4 (pos (set_length payloads)) >>= λ size.
      messages payloads >>= λ set.
      ok (a ++ (timeout ++ (sets ++ (name ++ (one ++ (part ++ (size ++ set)))))))
