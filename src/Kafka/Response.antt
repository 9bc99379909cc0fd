-- ===== src/Kafka/Response.antt =====
-- _DeserializeProduceResponse and DeserializeMessage of scales/kafka/protocol.py.
use pynagle.Common.{
  ℕ, ◌<◌, ◌^◌, ◌≡◌, ap, sym, subst, ◌∙◌, List, [], ◌∷◌, ◌++◌, length, map, drop, Run, ok, ◌>>=◌,
  Returns, returns, arith,
}
use pynagle.Common.Int.{ℤ, pos}
use pynagle.Kafka.Binary.{
  read_signed, read_string, written, string_bytes, Fits, read_signed-written, read_string-bytes,
  append_assoc,
}
use pynagle.Kafka.Loops.{read_range, all_bytes, All, read_times-bytes}

-- ProduceResponse, a named tuple.
pub record ProduceResponse : Type 0 where
  pub topic : List ℕ
  pub partition : ℤ
  pub error : ℤ
  pub offset : ℤ

-- The partition, the error code and the offset of one partition of a topic.
unfoldable pub read_partition : List ℕ → Run ((ℤ × ℤ × ℤ) × List ℕ)
read_partition xs = read_signed 4 xs >>= λ (partition, a). read_signed 2 a >>= λ (error, b).
    read_signed 8 b >>= λ (offset, rest). ok ((partition, error, offset), rest)

unfoldable pub response_of : List ℕ → ℤ × ℤ × ℤ → ProduceResponse
response_of name (p, e, o) = record { topic = name; partition = p; error = e; offset = o }

-- One round of the outer loop: a topic's name and its partitions.
unfoldable pub read_topic : List ℕ → Run ((List ℕ × List (ℤ × ℤ × ℤ)) × List ℕ)
unfolding read_partition read_range
read_topic xs = read_string xs >>= λ (name, a). read_signed 4 a >>= λ (n, b).
    read_range n read_partition b >>= λ (parts, rest). ok ((name, parts), rest)

-- The responses in the order of the appends.
unfoldable pub responses : List (List ℕ × List (ℤ × ℤ × ℤ)) → List ProduceResponse
unfolding response_of
responses [] = []
responses ((name, parts) ∷ topics) = map (response_of name) parts ++ responses topics

-- _DeserializeProduceResponse
unfoldable pub deserialize_produce : List ℕ → Run (List ProduceResponse)
unfolding read_topic responses
deserialize_produce xs = read_signed 4 xs >>= λ (n, a).
    read_range n read_topic a >>= λ (topics, rest). ok (responses topics)

-- DeserializeMessage of a produce response: the correlation id goes first.
unfoldable pub deserialize_message : List ℕ → Run (List ProduceResponse)
unfolding deserialize_produce
deserialize_message xs = deserialize_produce (drop 4 xs)

-- The bytes of a response, as the protocol lays them out.
unfoldable pub partition_bytes : ℤ × ℤ × ℤ → List ℕ
partition_bytes (p, e, o) = written 4 p ++ (written 2 e ++ written 8 o)

unfoldable pub topic_bytes : List ℕ × List (ℤ × ℤ × ℤ) → List ℕ
unfolding partition_bytes
topic_bytes (name, parts) =
    string_bytes name ++ (written 4 (pos (length parts)) ++ all_bytes partition_bytes parts)

unfoldable pub response_bytes : List (List ℕ × List (ℤ × ℤ × ℤ)) → List ℕ
unfolding topic_bytes
response_bytes topics = written 4 (pos (length topics)) ++ all_bytes topic_bytes topics

-- Every field fits its width.
unfoldable pub PartitionFits : ℤ × ℤ × ℤ → Type 0
PartitionFits (p, e, o) = Fits 4 p × Fits 2 e × Fits 8 o

unfoldable pub TopicFits : List ℕ × List (ℤ × ℤ × ℤ) → Type 0
TopicFits (name, parts) = (length name < 2 ^ 15) × (length parts < 2 ^ 31) × All PartitionFits parts

read_partition-bytes :
    (p : ℤ × ℤ × ℤ) (rest : List ℕ)
    → PartitionFits p
    → read_partition (partition_bytes p ++ rest) ≡ ok (p, rest)
unfolding read_partition partition_bytes PartitionFits
read_partition-bytes (p, e, o) rest (hp, he, ho) =
    ap read_partition (append_assoc (written 4 p) (written 2 e ++ written 8 o) rest)
    ∙ (ap
          (λ r. r >>= λ (partition, a). read_signed 2 a >>= λ (error, b).
            read_signed 8 b >>= λ (offset, rest). ok ((partition, error, offset), rest))
          (read_signed-written 4 p ((written 2 e ++ written 8 o) ++ rest) hp)
        ∙ (ap
              (λ a. read_signed 2 a >>= λ (error, b).
                read_signed 8 b >>= λ (offset, rest). ok ((p, error, offset), rest))
              (append_assoc (written 2 e) (written 8 o) rest)
            ∙ (ap
                  (λ r. r >>= λ (error, b).
                    read_signed 8 b >>= λ (offset, rest). ok ((p, error, offset), rest))
                  (read_signed-written 2 e (written 8 o ++ rest) he)
                ∙ ap (λ r. r >>= λ (offset, rest). ok ((p, e, offset), rest))
                    (read_signed-written 8 o rest ho))))

read_topic-bytes :
    (t : List ℕ × List (ℤ × ℤ × ℤ)) (rest : List ℕ)
    → TopicFits t
    → read_topic (topic_bytes t ++ rest) ≡ ok (t, rest)
unfolding read_topic topic_bytes TopicFits read_range Fits
read_topic-bytes (name, parts) rest (hn, hp, hs) =
    let tail : List ℕ = written 4 (pos (length parts)) ++ all_bytes partition_bytes parts in
    ap read_topic (append_assoc (string_bytes name) tail rest)
    ∙ (ap
          (λ r. r >>= λ (name, a). read_signed 4 a >>= λ (n, b).
            read_range n read_partition b >>= λ (parts, rest). ok ((name, parts), rest))
          (read_string-bytes name (tail ++ rest) hn)
        ∙ (ap
              (λ a. read_signed 4 a >>= λ (n, b).
                read_range n read_partition b >>= λ (parts, rest). ok ((name, parts), rest))
              (append_assoc (written 4 (pos (length parts))) (all_bytes partition_bytes parts) rest)
            ∙ (ap
                  (λ r. r >>= λ (n, b).
                    read_range n read_partition b >>= λ (parts, rest). ok ((name, parts), rest))
                  (read_signed-written 4 (pos (length parts))
                    (all_bytes partition_bytes parts ++ rest) (omega arith))
                ∙ ap (λ r. r >>= λ (parts, rest). ok ((name, parts), rest))
                    (read_times-bytes partition_bytes read_partition read_partition-bytes parts rest
                      hs))))

-- Which responses a list of topics with their partitions stands for: one for each partition, with the
-- topic's name and the partition's fields, in the order of the bytes.
pub data Lists : List (List ℕ × List (ℤ × ℤ × ℤ)) → List ProduceResponse → Type 0 where
  no_topics : Lists [] []
  no_partitions :
      {name : List ℕ} {topics : List (List ℕ × List (ℤ × ℤ × ℤ))} {rs : List ProduceResponse}
      → Lists topics rs
      → Lists ((name, []) ∷ topics) rs
  lists :
      {name : List ℕ} {p e o : ℤ} {parts : List (ℤ × ℤ × ℤ)}
      {topics : List (List ℕ × List (ℤ × ℤ × ℤ))} {rs : List ProduceResponse}
      → Lists ((name, parts) ∷ topics) rs
      → Lists
          ((name, (p, e, o) ∷ parts) ∷ topics)
          (record { topic = name; partition = p; error = e; offset = o } ∷ rs)

partitions-Lists :
    (name : List ℕ) (parts : List (ℤ × ℤ × ℤ)) (topics : List (List ℕ × List (ℤ × ℤ × ℤ)))
    (rs : List ProduceResponse)
    → Lists topics rs
    → Lists ((name, parts) ∷ topics) (map (response_of name) parts ++ rs)
unfolding response_of
partitions-Lists name [] topics rs h = no_partitions h
partitions-Lists name ((p, e, o) ∷ parts) topics rs h =
    lists (partitions-Lists name parts topics rs h)

responses-Lists : (topics : List (List ℕ × List (ℤ × ℤ × ℤ))) → Lists topics (responses topics)
unfolding responses
responses-Lists [] = no_topics
responses-Lists ((name, parts) ∷ topics) =
    partitions-Lists name parts topics (responses topics) (responses-Lists topics)

message-responses :
    (a b c d : ℕ) (topics : List (List ℕ × List (ℤ × ℤ × ℤ))) (rest : List ℕ)
    → length topics < 2 ^ 31
    → All TopicFits topics
    → deserialize_message (a ∷ b ∷ c ∷ d ∷ response_bytes topics ++ rest) ≡ ok (responses topics)
unfolding deserialize_message response_bytes read_range Fits
message-responses a b c d topics rest hl hs =
    ap deserialize_produce
      (append_assoc (written 4 (pos (length topics))) (all_bytes topic_bytes topics) rest)
    ∙ (ap
          (λ r.
            r >>= λ (n, a). read_range n read_topic a >>= λ (topics, rest). ok (responses topics))
          (read_signed-written 4 (pos (length topics)) (all_bytes topic_bytes topics ++ rest)
            (omega arith))
        ∙ ap (λ r. r >>= λ (topics, rest). ok (responses topics))
            (read_times-bytes topic_bytes read_topic read_topic-bytes topics rest hs))

-- A produce response in the protocol's layout, with a correlation id of four bytes, names below 2^15
-- bytes, counts below 2^31 and fields that fit their widths, is read as one response for each
-- partition of each topic, with the topic's name and the partition's own id, error code and offset,
-- in the order of the bytes, whatever bytes follow.
pub deserialize_message-bytes :
    (a b c d : ℕ) (topics : List (List ℕ × List (ℤ × ℤ × ℤ))) (rest : List ℕ)
    → length topics < 2 ^ 31
    → All TopicFits topics
    → Returns (Lists topics) (deserialize_message (a ∷ b ∷ c ∷ d ∷ response_bytes topics ++ rest))
deserialize_message-bytes a b c d topics rest hl hs =
    subst (Returns (Lists topics)) (sym (message-responses a b c d topics rest hl hs))
      (returns (responses-Lists topics))
