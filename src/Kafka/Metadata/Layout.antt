-- ===== src/Kafka/Metadata/Layout.antt =====
-- The layout of a metadata response, from which it is read.
use pynagle.Common.{
  ℕ, ◌<◌, ◌^◌, ◌≡◌, refl, sym, ◌∙◌, subst, true, Option, none, some, Returns, returns, List, [],
  ◌∷◌, ◌++◌, length, map, ok, arith,
}
use pynagle.Common.Int.{ℤ, pos, eqb_ℤ}
use pynagle.Common.Dicts.{dict_of, find, last_with, find-dict_of}
use pynagle.Kafka.Binary.{
  read_signed, written, string_bytes, Fits, read_signed-written, read_string-bytes, append_assoc,
}
use pynagle.Kafka.Loops.{read_range, all_bytes, All, read_times-bytes, read_times-values}
use pynagle.Kafka.Metadata.{
  BrokerMetadata, PartitionMetadata, MetadataResponse, read_int32_array, read_count, read_broker,
  read_partition_of, by_partition, by_node, read_topic_metadata, same_bytes, deserialize_metadata,
}

-- The bytes of a response, as the protocol lays them out: error codes stand before topics and
-- partitions.
unfoldable pub array_bytes : List ℤ → List ℕ
array_bytes zs = written 4 (pos (length zs)) ++ all_bytes (written 4) zs

unfoldable pub broker_bytes : BrokerMetadata → List ℕ
broker_bytes b = written 4 b.node_id ++ (string_bytes b.host ++ written 4 b.port)

unfoldable pub BrokerFits : BrokerMetadata → Type 0
BrokerFits b = Fits 4 b.node_id × (length b.host < 2 ^ 15) × Fits 4 b.port

read_broker-bytes :
    (b : BrokerMetadata) (rest : List ℕ)
    → BrokerFits b
    → read_broker (broker_bytes b ++ rest) ≡ ok (b, rest)
unfolding read_broker broker_bytes BrokerFits
read_broker-bytes b rest (hn, hh, hp) =
    rw
      (
        append_assoc (written 4 b.node_id) (string_bytes b.host ++ written 4 b.port) rest,
        read_signed-written 4 b.node_id ((string_bytes b.host ++ written 4 b.port) ++ rest) hn,
        append_assoc (string_bytes b.host) (written 4 b.port) rest,
        read_string-bytes b.host (written 4 b.port ++ rest) hh,
        read_signed-written 4 b.port rest hp,
      )
      refl

unfoldable pub ArrayFits : List ℤ → Type 0
ArrayFits zs = (length zs < 2 ^ 31) × All (Fits 4) zs

array-bytes :
    (zs : List ℤ) (rest : List ℕ)
    → ArrayFits zs
    → read_int32_array (array_bytes zs ++ rest) ≡ ok (zs, rest)
unfolding read_int32_array read_count array_bytes ArrayFits Fits
array-bytes zs rest (hl, hs) =
    rw
      (
        append_assoc (written 4 (pos (length zs))) (all_bytes (written 4) zs) rest,
        read_signed-written 4 (pos (length zs)) (all_bytes (written 4) zs ++ rest) (omega arith),
        read_times-bytes (written 4) (read_signed 4) (read_signed-written 4) zs rest hs,
      )
      refl

-- A partition with its error code.
unfoldable pub partition_bytes : ℤ × PartitionMetadata → List ℕ
unfolding array_bytes
partition_bytes (error, p) =
    written 2 error
    ++ (written 4 p.partition_id
        ++ (written 4 p.leader ++ (array_bytes p.replicas ++ array_bytes p.isr)))

unfoldable pub PartitionFits : ℤ × PartitionMetadata → Type 0
unfolding ArrayFits
PartitionFits (error, p) =
    Fits 2 error × Fits 4 p.partition_id × Fits 4 p.leader × ArrayFits p.replicas × ArrayFits p.isr

unfoldable pub partition_value : List ℕ → ℤ × PartitionMetadata → PartitionMetadata
partition_value name (error, p) = record p { topic_name = name }

read_partition_of-bytes :
    (name : List ℕ) (p : ℤ × PartitionMetadata) (rest : List ℕ)
    → PartitionFits p
    → read_partition_of name (partition_bytes p ++ rest) ≡ ok (partition_value name p, rest)
unfolding read_partition_of partition_bytes PartitionFits partition_value
read_partition_of-bytes name (error, p) rest (he, hi, hl, hr, hs) =
    let arrays = array_bytes p.replicas ++ array_bytes p.isr in
    let from_leader = written 4 p.leader ++ arrays in
    let from_id = written 4 p.partition_id ++ from_leader in
    rw
      (
        append_assoc (written 2 error) from_id rest,
        read_signed-written 2 error (from_id ++ rest) he,
        append_assoc (written 4 p.partition_id) from_leader rest,
        read_signed-written 4 p.partition_id (from_leader ++ rest) hi,
        append_assoc (written 4 p.leader) arrays rest,
        read_signed-written 4 p.leader (arrays ++ rest) hl,
        append_assoc (array_bytes p.replicas) (array_bytes p.isr) rest,
        array-bytes p.replicas (array_bytes p.isr ++ rest) hr,
        array-bytes p.isr rest hs,
      )
      refl

-- A topic with its error code and its partitions.
abbrev pub RawTopic : Type 0
RawTopic = ℤ × (List ℕ × List (ℤ × PartitionMetadata))

unfoldable pub topic_bytes : RawTopic → List ℕ
unfolding partition_bytes
topic_bytes (error, (name, partitions)) =
    written 2 error
    ++ (string_bytes name
        ++ (written 4 (pos (length partitions)) ++ all_bytes partition_bytes partitions))

unfoldable pub TopicFits : RawTopic → Type 0
unfolding PartitionFits
TopicFits (error, (name, partitions)) =
    Fits 2 error
    × (length name < 2 ^ 15)
    × (length partitions < 2 ^ 31)
    × All PartitionFits partitions

unfoldable pub topic_value : RawTopic → List ℕ × List (ℤ × PartitionMetadata)
unfolding partition_value
topic_value (error, (name, partitions)) =
    (name, dict_of eqb_ℤ (map by_partition (map (partition_value name) partitions)))

read_topic_metadata-bytes :
    (t : RawTopic) (rest : List ℕ)
    → TopicFits t
    → read_topic_metadata (topic_bytes t ++ rest) ≡ ok (topic_value t, rest)
unfolding read_topic_metadata topic_bytes TopicFits topic_value read_range Fits
read_topic_metadata-bytes (error, (name, partitions)) rest (he, hn, hl, hs) =
    let all = all_bytes partition_bytes partitions in
    let from_count = written 4 (pos (length partitions)) ++ all in
    let from_name = string_bytes name ++ from_count in
    rw
      (
        append_assoc (written 2 error) from_name rest,
        read_signed-written 2 error (from_name ++ rest) he,
        append_assoc (string_bytes name) from_count rest,
        read_string-bytes name (from_count ++ rest) hn,
        append_assoc (written 4 (pos (length partitions))) all rest,
        read_signed-written 4 (pos (length partitions)) (all ++ rest) (omega arith),
        read_times-values partition_bytes (read_partition_of name) (partition_value name)
            (read_partition_of-bytes name) partitions rest hs,
      )
      refl

unfoldable pub metadata_bytes : List BrokerMetadata → List RawTopic → List ℕ
unfolding broker_bytes topic_bytes
metadata_bytes brokers topics =
    written 4 (pos (length brokers))
    ++ (all_bytes broker_bytes brokers
        ++ (written 4 (pos (length topics)) ++ all_bytes topic_bytes topics))

-- What a dict of topics has for a name, whose last topic in the response is given: nothing for none,
-- and else the dict in which each id has the last of the topic's partitions with that id.
pub data Matches : Option RawTopic → Option (List (ℤ × PartitionMetadata)) → Type 0 where
  no_topic : Matches none none
  topic :
      {error : ℤ} {name : List ℕ} {partitions : List (ℤ × PartitionMetadata)}
      {items : List (ℤ × PartitionMetadata)}
      → ((id : ℤ)
          → find eqb_ℤ id items
            ≡ last_with (λ p. eqb_ℤ p.partition_id id) (map (partition_value name) partitions))
      → Matches (some (error, (name, partitions))) (some items)

-- What the dicts of a response have for each key.
pub record Holds (brokers : List BrokerMetadata) (topics : List RawTopic) (r : MetadataResponse)
    : Type 0 where
  pub brokers_found :
      (id : ℤ) → find eqb_ℤ id r.brokers ≡ last_with (λ b. eqb_ℤ b.node_id id) brokers
  pub topics_found :
      (name : List ℕ)
      → Matches (last_with (λ t. same_bytes t.1.0 name) topics) (find same_bytes name r.topics)

eqb_ℤ_sound : (a b : ℤ) → eqb_ℤ a b ≡ true → a ≡ b
eqb_ℤ_sound a b h = ground arith

eqb_ℤ_refl : (a : ℤ) → eqb_ℤ a a ≡ true
eqb_ℤ_refl a = ground arith

same_bytes_sound : (xs ys : List ℕ) → same_bytes xs ys ≡ true → xs ≡ ys
unfolding same_bytes
same_bytes_sound [] [] h = refl
same_bytes_sound [] (y ∷ ys) h = absurd (ground (arith, h))
same_bytes_sound (x ∷ xs) [] h = absurd (ground (arith, h))
same_bytes_sound (x ∷ xs) (y ∷ ys) h =
    let rest : same_bytes xs ys ≡ true = ground (arith, h) in
    let e = same_bytes_sound xs ys rest in let f : x ≡ y = ground (arith, h) in cc

same_bytes_refl : (xs : List ℕ) → same_bytes xs xs ≡ true
unfolding same_bytes
same_bytes_refl [] = refl
same_bytes_refl (x ∷ xs) = let rest = same_bytes_refl xs in ground arith

option_same :
    {A : Type 0} (o : Option A) → (elim o as (λ _. Option A) [ none ↦ none | some a ↦ some a ]) ≡ o
option_same none = refl
option_same (some a) = refl

partitions_found :
    (id : ℤ) (ps : List PartitionMetadata)
    → find eqb_ℤ id (dict_of eqb_ℤ (map by_partition ps))
      ≡ last_with (λ p. eqb_ℤ p.partition_id id) ps
unfolding by_partition
partitions_found id ps =
    find-dict_of eqb_ℤ eqb_ℤ_sound eqb_ℤ_refl (λ p. p.partition_id) (λ p. p) id ps
    ∙ option_same (last_with (λ p. eqb_ℤ p.partition_id id) ps)

topic_value-Matches :
    (o : Option RawTopic)
    → Matches o (elim o as (λ _. Option (List (ℤ × PartitionMetadata))) [
      | none ↦ none
      | some t ↦ some (topic_value t).1
    ])
unfolding topic_value
topic_value-Matches none = no_topic
topic_value-Matches (some (error, (name, partitions))) =
    topic (λ id. partitions_found id (map (partition_value name) partitions))

abbrev response_value : List BrokerMetadata → List RawTopic → MetadataResponse
response_value brokers topics = record {
  brokers = dict_of eqb_ℤ (map by_node brokers);
  topics = dict_of same_bytes (map topic_value topics);
}

response_value-Holds :
    (brokers : List BrokerMetadata) (topics : List RawTopic)
    → Holds brokers topics (response_value brokers topics)
unfolding by_node topic_value
response_value-Holds brokers topics = record {
  brokers_found = λ id.
      find-dict_of eqb_ℤ eqb_ℤ_sound eqb_ℤ_refl (λ b. b.node_id) (λ b. b) id brokers
      ∙ option_same (last_with (λ b. eqb_ℤ b.node_id id) brokers);
  topics_found = λ name.
      let o = last_with (λ t. same_bytes t.1.0 name) topics in
      subst (Matches o)
        (sym (
          find-dict_of same_bytes same_bytes_sound same_bytes_refl (λ t. t.1.0)
            (λ t. (topic_value t).1) name topics))
        (topic_value-Matches o);
}

metadata-response_value :
    (brokers : List BrokerMetadata) (topics : List RawTopic) (rest : List ℕ)
    → length brokers < 2 ^ 31
    → length topics < 2 ^ 31
    → All BrokerFits brokers
    → All TopicFits topics
    → deserialize_metadata (metadata_bytes brokers topics ++ rest)
      ≡ ok (response_value brokers topics)
unfolding deserialize_metadata metadata_bytes read_range Fits
metadata-response_value brokers topics rest hb ht fb ft =
    let all = all_bytes topic_bytes topics in
    let from_count = written 4 (pos (length topics)) ++ all in
    let from_brokers = all_bytes broker_bytes brokers ++ from_count in
    rw
      (
        append_assoc (written 4 (pos (length brokers))) from_brokers rest,
        read_signed-written 4 (pos (length brokers)) (from_brokers ++ rest) (omega arith),
        append_assoc (all_bytes broker_bytes brokers) from_count rest,
        read_times-bytes broker_bytes read_broker read_broker-bytes brokers (from_count ++ rest) fb,
        append_assoc (written 4 (pos (length topics))) all rest,
        read_signed-written 4 (pos (length topics)) (all ++ rest) (omega arith),
        read_times-values topic_bytes read_topic_metadata topic_value read_topic_metadata-bytes
            topics rest ft,
      )
      refl

-- A metadata response in the protocol's layout, with hosts and names below 2^15 bytes, counts below
-- 2^31 and fields that fit their widths, is read, whatever bytes follow: the brokers' dict has for
-- each id the last broker with that id, and the topics' dict has for each name that a topic has, and
-- for no other, a dict with the last partition of each id of the last topic with that name.
pub deserialize_metadata-bytes :
    (brokers : List BrokerMetadata) (topics : List RawTopic) (rest : List ℕ)
    → length brokers < 2 ^ 31
    → length topics < 2 ^ 31
    → All BrokerFits brokers
    → All TopicFits topics
    → Returns (Holds brokers topics) (deserialize_metadata (metadata_bytes brokers topics ++ rest))
deserialize_metadata-bytes brokers topics rest hb ht fb ft =
    subst (Returns (Holds brokers topics))
      (sym (metadata-response_value brokers topics rest hb ht fb ft))
      (returns (response_value-Holds brokers topics))
