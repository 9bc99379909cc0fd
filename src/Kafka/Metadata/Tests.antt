-- ===== src/Kafka/Metadata/Tests.antt =====
-- Metadata messages at concrete bytes.
use pynagle.Common.{Returns, ◌≡◌, refl, [], ◌∷◌, ◌++◌, ok, raised, arith}
use pynagle.Common.Int.{pos, negsuc}
use pynagle.Kafka.Binary.{pack_signed, Fits}
use pynagle.Kafka.Loops.{all_none, all_more}
use pynagle.Kafka.Metadata.{BrokerMetadata, serialize_metadata, deserialize_metadata}
use pynagle.Kafka.Metadata.Layout.{
  BrokerFits, ArrayFits, PartitionFits, RawTopic, TopicFits, metadata_bytes, Holds,
  deserialize_metadata-bytes,
}

no_topics : serialize_metadata [] ≡ ok (0 ∷ 0 ∷ 0 ∷ 0 ∷ [])
unfolding serialize_metadata pack_signed
no_topics = refl

a_topic : serialize_metadata ((97 ∷ []) ∷ []) ≡ raised
unfolding serialize_metadata pack_signed
a_topic = refl

abbrev broker : BrokerMetadata
broker = record { node_id = pos 5; host = 104 ∷ 50 ∷ []; port = pos 9092 }

-- A topic with the error code 9, of which one partition has no leader.
abbrev topic : RawTopic
topic = (
  pos 9,
  (
    116 ∷ [],
    (
      pos 0,
      record {
        topic_name = [];
        partition_id = pos 0;
        leader = negsuc 0;
        replicas = pos 5 ∷ [];
        isr = [];
      },
    )
        ∷ [],
  ),
)

broker-BrokerFits : BrokerFits broker
unfolding BrokerFits Fits
broker-BrokerFits = (omega arith, omega arith, omega arith)

topic-TopicFits : TopicFits topic
unfolding TopicFits PartitionFits ArrayFits Fits
topic-TopicFits = (
  omega arith,
  omega arith,
  omega arith,
  all_more
      (
        omega arith,
        omega arith,
        omega arith,
        (omega arith, all_more (omega arith) all_none),
        (omega arith, all_none),
      )
      all_none,
)

deserialize_metadata-bytes_example :
    Returns
      (Holds (broker ∷ []) (topic ∷ []))
      (deserialize_metadata (metadata_bytes (broker ∷ []) (topic ∷ []) ++ []))
deserialize_metadata-bytes_example =
    deserialize_metadata-bytes (broker ∷ []) (topic ∷ []) [] (omega arith) (omega arith)
      (all_more broker-BrokerFits all_none) (all_more topic-TopicFits all_none)
