-- ===== src/Kafka/Tests.antt =====
-- Runs of the Kafka protocol, and its theorems at small inputs.
use pynagle.Common.{Returns, ℕ, ◌+◌, ◌≡◌, List, [], ◌∷◌, ◌++◌, ok, arith}
use pynagle.Common.Int.{ℤ, pos, negsuc}
use pynagle.Kafka.Binary.{Fits}
use pynagle.Kafka.Loops.{All, all_none, all_more}
use pynagle.Kafka.Request.{serialize_produce, set_length}
use pynagle.Kafka.Request.Layout.{request_bytes, serialize_produce-bytes}
use pynagle.Kafka.Response.{
  TopicFits, PartitionFits, deserialize_message, response_bytes, Lists, deserialize_message-bytes,
}

-- A checksum of the test's own.
abbrev sum_of : List ℕ → ℕ → ℕ
sum_of [] n = n
sum_of (x ∷ xs) n = sum_of xs (n + x)

serialize_produce-bytes_example :
    serialize_produce sum_of (pos 1) (pos 3) (116 ∷ []) ((1 ∷ 2 ∷ []) ∷ [] ∷ [])
    ≡ ok (request_bytes sum_of (pos 1) (pos 3) (116 ∷ []) ((1 ∷ 2 ∷ []) ∷ [] ∷ []))
unfolding Fits set_length
serialize_produce-bytes_example =
    serialize_produce-bytes sum_of (pos 1) (pos 3) (116 ∷ []) ((1 ∷ 2 ∷ []) ∷ [] ∷ []) (omega arith)
      (omega arith) (omega arith) (omega arith)

-- One topic with two partitions, the second of which failed with code -1.
abbrev two_parts : List (List ℕ × List (ℤ × ℤ × ℤ))
two_parts = (116 ∷ [], (pos 0, pos 0, pos 7) ∷ (pos 1, negsuc 0, negsuc 0) ∷ []) ∷ []

two_parts-All : All TopicFits two_parts
unfolding TopicFits PartitionFits Fits
two_parts-All =
    all_more
      (
        omega arith,
        omega arith,
        all_more (omega arith, omega arith, omega arith)
            (all_more (omega arith, omega arith, omega arith) all_none),
      )
      all_none

deserialize_message-bytes_example :
    Returns
      (Lists two_parts)
      (deserialize_message (0 ∷ 0 ∷ 0 ∷ 9 ∷ response_bytes two_parts ++ 5 ∷ []))
deserialize_message-bytes_example =
    deserialize_message-bytes 0 0 0 9 two_parts (5 ∷ []) (omega arith) two_parts-All
