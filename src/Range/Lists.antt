-- ===== src/Range/Lists.antt =====
-- The requests of pkg/backend/range.go that read ranges, over the scanner: List, Count, GetPartitions
-- and ListByStream. `none` is a panic.
use kubebrain.Base.{
  ℕ, List, [], ◌∷◌, Option, none, some, Bool, true, false, not, length, ◌==◌, if◌then◌else◌,
  Ordering,
}
use kubebrain.Base.Bytes.{Bytes, cmp}
use kubebrain.Coder.{encode_object_key}
use kubebrain.Tso.{Tso, get_revision}
use kubebrain.MemKv.{same_ordering}
use kubebrain.Storage.{Error, Partition, KvStorage}
use kubebrain.Range.{Result, reply, failed}
use kubebrain.Range.Page.{RangeResponse, invalid_nil_end, invalid_range_end, read_limit, page}
use kubebrain.Scanner.Receiver.{StreamRangeResponse}
use kubebrain.Scanner.Partitions.{ScannerConfig, ScannerState, range, count, range_stream}

pub record CountResponse : Type 0 where
  pub header_revision : ℕ
  pub count : ℕ

pub record ListPartitionResponse : Type 0 where
  pub header_revision : ℕ
  pub partition_num : ℕ
  pub partition_keys : List Bytes

-- the given revision, or the published one
abbrev pub read_revision : (revision : ℕ) → Tso → ℕ
read_revision revision n = if revision == 0 then get_revision n else revision

-- The starts of the partitions, and the end of the last one.
unfoldable pub partition_keys : List Partition → List Bytes
partition_keys [] = []
partition_keys (p ∷ []) = p.start ∷ p.end ∷ []
partition_keys (p ∷ q ∷ ps) = p.start ∷ partition_keys (q ∷ ps)

abbrev pub count_reply : (revision : ℕ) → ℕ × Option Error → Result CountResponse
count_reply revision (n, some e) = failed e
count_reply revision (n, none) = reply (record { header_revision = revision; count = n })

abbrev pub partitions_reply :
    (revision : ℕ) → List Partition × Option Error → Result ListPartitionResponse
partitions_reply revision (ps, some e) = failed e
partitions_reply revision (ps, none) = reply (record {
  header_revision = revision;
  partition_num = length ps;
  partition_keys = partition_keys ps;
})

module _ (K : KvStorage) (config : ScannerConfig) where
  -- A limit is not negative.
  unfoldable pub list_request :
      (key end : Bytes) (revision limit : ℕ)
      → Tso
      → ScannerState K
      → Option (Result RangeResponse × ScannerState K)
  list_request key end revision limit n st =
      if length end == 0
      then some (failed invalid_nil_end, st)
      else if not (same_ordering (cmp key end) Ordering.lt)
      then some (failed invalid_range_end, st)
      else elim (range K config (encode_object_key key 0) (encode_object_key end 0)
          (read_revision revision n) (read_limit limit) st) [
            | none ↦ none
            | some (r, st') ↦ some (page (get_revision n) limit r, st')
          ]

  -- Without the compatibility with etcd, nothing is counted.
  unfoldable pub count_request :
      (enable_etcd_compatibility : Bool) (key end : Bytes)
      → Tso
      → ScannerState K
      → Option (Result CountResponse × ScannerState K)
  unfolding get_revision count
  count_request enable_etcd_compatibility key end n st = elim enable_etcd_compatibility [
    | false ↦ some (count_reply (get_revision n) (0, none), st)
    | true ↦
        elim (count K config (encode_object_key key 0) (encode_object_key end 0) (get_revision n)
          st) [ none ↦ none | some (r, st') ↦ some (count_reply (get_revision n) r, st') ]
  ]

  unfoldable pub get_partitions_request :
      (key end : Bytes) → Tso → K.State → Result ListPartitionResponse × K.State
  unfolding get_revision partition_keys
  get_partitions_request key end n s =
      let (r, s') = K.get_partitions (encode_object_key key 0) (encode_object_key end 0) s in
      (partitions_reply (get_revision n) r, s')

  -- The keys are passed on as they are.
  unfoldable pub list_by_stream :
      (start end : Bytes) (revision : ℕ)
      → Tso
      → ScannerState K
      → Option (List StreamRangeResponse × ScannerState K)
  unfolding get_revision range_stream
  list_by_stream start end revision n st =
      range_stream K config start end (read_revision revision n) st
