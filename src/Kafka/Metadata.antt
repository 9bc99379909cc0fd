-- ===== src/Kafka/Metadata.antt =====
-- _DeserializeMetadataResponse of scales/kafka/protocol.py, and ReadInt32Array of scales/binary.py.
pub mod Layout
mod Tests
use pynagle.Common.{
  ℕ, ◌<◌, ◌^◌, ◌≡◌, refl, ap, ◌∙◌, Bool, true, false, ◌&&◌, List, [], ◌∷◌, ◌++◌, length, map, drop,
  ◌==◌, Run, ok, raised, ◌>>=◌, arith,
}
use pynagle.Common.Int.{ℤ, pos, negsuc, eqb_ℤ}
use pynagle.Common.Dicts.{dict_of}
use pynagle.Kafka.Binary.{
  pack_signed, read_signed, read_string, written, string_bytes, Fits, read_signed-written,
  read_string-bytes, append_assoc,
}
use pynagle.Kafka.Loops.{read_times, read_range, all_bytes, All, read_times-bytes}

-- BrokerMetadata, PartitionMetadata and MetadataResponse, named tuples.
pub record BrokerMetadata : Type 0 where
  pub node_id : ℤ
  pub host : List ℕ
  pub port : ℤ

pub record PartitionMetadata : Type 0 where
  pub topic_name : List ℕ
  pub partition_id : ℤ
  pub leader : ℤ
  pub replicas : List ℤ
  pub isr : List ℤ

pub record MetadataResponse : Type 0 where
  pub brokers : List (ℤ × BrokerMetadata)
  pub topics : List (List ℕ × List (ℤ × PartitionMetadata))

-- _SerializeMetadataRequest, whose pack of a topic's length has no argument and raises.
unfoldable pub serialize_topics : List (List ℕ) → List ℕ → Run (List ℕ)
serialize_topics [] buf = ok buf
serialize_topics (topic ∷ topics) buf = raised

unfoldable pub serialize_metadata : List (List ℕ) → Run (List ℕ)
unfolding serialize_topics
serialize_metadata topics =
    pack_signed 4 (pos (length topics)) >>= λ buf. serialize_topics topics buf

-- ReadInt32Array: a negative number is no format for unpack.
unfoldable pub read_count : ℤ → List ℕ → Run (List ℤ × List ℕ)
unfolding read_times
read_count (pos n) xs = read_times n (read_signed 4) xs
read_count (negsuc n) xs = raised

unfoldable pub read_int32_array : List ℕ → Run (List ℤ × List ℕ)
unfolding read_count
read_int32_array xs = read_signed 4 xs >>= λ (n, a). read_count n a

-- A round of the loop over the brokers.
unfoldable pub read_broker : List ℕ → Run (BrokerMetadata × List ℕ)
read_broker xs = read_signed 4 xs >>= λ (node_id, a). read_string a >>= λ (host, b).
    read_signed 4 b >>= λ (port, rest).
    ok (record { node_id = node_id; host = host; port = port }, rest)

-- A round of the loop over the partitions of a topic.
unfoldable pub read_partition_of : List ℕ → List ℕ → Run (PartitionMetadata × List ℕ)
unfolding read_int32_array
read_partition_of name xs = read_signed 2 xs >>= λ (error, a). read_signed 4 a >>= λ (id, b).
    read_signed 4 b >>= λ (leader, c). read_int32_array c >>= λ (replicas, d).
    read_int32_array d >>= λ (isr, rest). ok (
      record {
        topic_name = name;
        partition_id = id;
        leader = leader;
        replicas = replicas;
        isr = isr;
      },
      rest,
    )

-- partition_data, a dict by the partitions' ids, and brokers by those of their nodes.
unfoldable pub by_partition : PartitionMetadata → ℤ × PartitionMetadata
by_partition p = (p.partition_id, p)

unfoldable pub by_node : BrokerMetadata → ℤ × BrokerMetadata
by_node b = (b.node_id, b)

-- A round of the loop over the topics.
unfoldable pub read_topic_metadata : List ℕ → Run ((List ℕ × List (ℤ × PartitionMetadata)) × List ℕ)
unfolding read_partition_of read_range by_partition dict_of
read_topic_metadata xs = read_signed 2 xs >>= λ (error, a). read_string a >>= λ (name, b).
    read_signed 4 b >>= λ (n, c). read_range n (read_partition_of name) c >>= λ (partitions, rest).
    ok ((name, dict_of eqb_ℤ (map by_partition partitions)), rest)

unfoldable pub same_bytes : List ℕ → List ℕ → Bool
same_bytes [] [] = true
same_bytes (x ∷ xs) (y ∷ ys) = (x == y) && same_bytes xs ys
same_bytes _ _ = false

-- _DeserializeMetadataResponse
unfoldable pub deserialize_metadata : List ℕ → Run MetadataResponse
unfolding read_broker read_topic_metadata read_range by_node dict_of same_bytes
deserialize_metadata xs = read_signed 4 xs >>= λ (n, a).
    read_range n read_broker a >>= λ (brokers, b). read_signed 4 b >>= λ (m, c).
    read_range m read_topic_metadata c >>= λ (topics, rest).
    ok
      (record { brokers = dict_of eqb_ℤ (map by_node brokers); topics = dict_of same_bytes topics })
