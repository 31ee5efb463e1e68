-- ===== src/Scanner/Partitions.antt =====
-- The scanner of pkg/backend/scanner/scanner.go: it splits a range into the partitions of the storage
-- (their borders are moved in Adjust) and puts together what the workers find; and the compact history of compact.go, a list of revisions with the time of their compaction.
-- The workers run at the same time; here one after the other, in the order of the partitions.
mod Adjust
unfoldable pub use kubebrain.Scanner.Partitions.Adjust.{
  insert_partition, sort_partitions, adjust_end, adjust_from, adjust_sorted,
  adjust_partitions_borders,
}
use kubebrain.Base.{
  ℕ, ◌+◌, List, [], ◌∷◌, ◌++◌, Option, none, some, Bool, true, false, length, take, ltb, ◌==◌,
  if◌then◌else◌, Ordering,
}
use kubebrain.Base.Bytes.{Bytes, cmp, big_endian, big_endian_value}
use kubebrain.Message.{KeyValue}
use kubebrain.Coder.{encode_revision_key, Decoded, decoded, bad_magic, bad_split, panic, decode}
use kubebrain.MemKv.{same_ordering}
use kubebrain.Storage.{
  Error, other, key_not_found, put, Fetch, found, fetch_failed, Partition, KvStorage,
}
use kubebrain.Range.{Result, reply, failed}
use kubebrain.Scanner.Receiver.{
  Receiver, empty_result, common_result, stream_result, StreamRangeResponse, fork, merge,
}
use kubebrain.Scanner.Worker.{WorkerConfig, Scan, run, run_with_backoff_retry, scan_backoff_steps}

-- revision and time, the oldest first
abbrev pub CompactRecord : Type 0
CompactRecord = ℕ × ℕ

-- The loop of `getTimeoutRevision`: the records that are older than the lifetime are popped, and the
-- revision of the last of them is returned.
unfoldable pub pop_timeout :
    (now ttl prev_revision : ℕ) → List CompactRecord → ℕ × List CompactRecord
pop_timeout now ttl prev_revision [] = (prev_revision, [])
pop_timeout now ttl prev_revision ((revision, time) ∷ records) =
    let rest = pop_timeout now ttl revision records in
    if ltb now (time + ttl) then (prev_revision, (revision, time) ∷ records) else rest

pub record ScannerConfig : Type 0 where
  pub compact_key : Bytes
  pub tombstone : Bytes
  pub ttl : ℕ

module _ (K : KvStorage) where
  pub record ScannerState : Type 0 where
    pub compact_histories : List CompactRecord
    pub kv : K.State

  unfoldable pub get_timeout_revision :
      ScannerConfig → (now : ℕ) → List CompactRecord → ℕ × List CompactRecord
  unfolding pop_timeout
  get_timeout_revision config now records =
      if K.support_ttl then (0, records) else pop_timeout now config.ttl 0 records

  abbrev pub compacted_already : Error
  compacted_already = other 3

  -- A list must not read below the recorded compaction.
  unfoldable pub check_compact_record : (revision : ℕ) → Fetch → Option (Option Error)
  check_compact_record revision (fetch_failed key_not_found) = some none
  check_compact_record revision (fetch_failed e) = some (some e)
  check_compact_record revision (found val) =
      if ltb (length val) 8
      then none
      else some
          (if ltb revision (big_endian_value (take 8 val)) then some compacted_already else none)

  unfoldable pub check_compact_race :
      ScannerConfig → (revision : ℕ) (compact : Bool) → K.State → Option (Option Error) × K.State
  unfolding check_compact_record
  check_compact_race config revision true s =
      let (err, s') = K.commit (put config.compact_key (big_endian 8 revision) 0 ∷ []) s in
      (some err, s')
  check_compact_race config revision false s =
      let (val, s') = K.get config.compact_key s in (check_compact_record revision val, s')

  -- The start of a scan: the timestamp of its snapshot, and an error if the scan must not be done.
  unfoldable pub raced :
      (tso : ℕ) → Option (Option Error) × K.State → Option (ℕ × Option Error) × K.State
  raced tso (none, s) = (none, s)
  raced tso (some err, s) = (some (tso, err), s)

  unfoldable pub timed :
      ScannerConfig
      → (revision : ℕ) (compact : Bool) → (ℕ × Option Error) × K.State
      → Option (ℕ × Option Error) × K.State
  unfolding check_compact_race raced
  timed config revision compact ((tso, some e), s) = (some (tso, some e), s)
  timed config revision compact ((tso, none), s) =
      raced tso (check_compact_race config revision compact s)

  unfoldable pub begin_scan :
      ScannerConfig
      → (revision : ℕ) (compact : Bool) → K.State
      → Option (ℕ × Option Error) × K.State
  unfolding timed
  begin_scan config revision compact s = timed config revision compact (K.get_timestamp_oracle s)

  abbrev pub worker_config :
      ScannerConfig
      → (tso revision : ℕ) (compact : Bool) (timeout_revision : ℕ) → Partition
      → WorkerConfig
  worker_config config tso revision compact timeout_revision p = record {
    partition = p;
    tso = tso;
    revision = revision;
    tombstone = config.tombstone;
    compact = compact;
    timeout_revision = timeout_revision;
  }

  -- What a worker leaves: its count, its error and its receiver.
  abbrev pub WorkerResult : Type 0
  WorkerResult = ℕ × Option Error × Receiver

  unfoldable pub run_workers :
      (conf : Partition → WorkerConfig) (receiver : Receiver)
      → List Partition
      → K.State
      → Option (List WorkerResult × K.State)
  unfolding run_with_backoff_retry fork
  run_workers conf receiver [] s = some ([], s)
  run_workers conf receiver (p ∷ ps) s =
      elim (run_with_backoff_retry K scan_backoff_steps (conf p) (fork receiver) [] s) [
        | none ↦ none
        | some ((count, err), sc) ↦ elim (run_workers conf receiver ps sc.kv) [
          | none ↦ none
          | some (results, s') ↦ some ((count, err, sc.receiver) ∷ results, s')
        ]
      ]

  unfoldable pub first_error : List WorkerResult → Option Error
  first_error [] = none
  first_error ((count, some e, receiver) ∷ results) = some e
  first_error ((count, none, receiver) ∷ results) = first_error results

  unfoldable pub merge_results : Receiver → List WorkerResult → ℕ × Receiver
  unfolding merge
  merge_results receiver [] = (0, receiver)
  merge_results receiver ((count, err, sub) ∷ results) =
      let (total, receiver') = merge_results (merge receiver sub) results in
      (count + total, receiver')

  -- count and error of `scan`, and the receiver
  abbrev pub ScanResult : Type 0
  ScanResult = (ℕ × Option Error) × Receiver

  unfoldable pub scan_result : Receiver → List WorkerResult → ScanResult
  unfolding first_error merge_results
  scan_result receiver results = elim (first_error results) [
    | some e ↦ ((0, some e), receiver)
    | none ↦ let (count, receiver') = merge_results receiver results in ((count, none), receiver')
  ]

  unfoldable pub scan_partitions :
      (conf : Partition → WorkerConfig) (receiver : Receiver)
      → Option (List Partition)
      → K.State
      → Option (ScanResult × K.State)
  unfolding run_workers scan_result
  scan_partitions conf receiver none s = none
  scan_partitions conf receiver (some ps) s = elim (run_workers conf receiver ps s) [
    | none ↦ none
    | some (results, s') ↦ some (scan_result receiver results, s')
  ]

  -- the revision for the lifetimes, and the history that is left
  abbrev pub timeout_of :
      ScannerConfig → (compact : Bool) (now : ℕ) → List CompactRecord → ℕ × List CompactRecord
  timeout_of config compact now records =
      if compact then get_timeout_revision config now records else (0, records)

  abbrev pub scanned :
      List CompactRecord → Option (ScanResult × K.State) → Option (ScanResult × ScannerState)
  scanned records none = none
  scanned records (some (result, s)) = some (result, record { compact_histories = records; kv = s })

  unfoldable pub scan_partitioned :
      ScannerConfig
      → (revision : ℕ) (compact : Bool) (now tso : ℕ) → Receiver
      → List CompactRecord
      → (List Partition × Option Error) × K.State
      → Option (ScanResult × ScannerState)
  unfolding adjust_partitions_borders get_timeout_revision scan_partitions
  scan_partitioned config revision compact now tso receiver records ((ps, some e), s) =
      some (((0, some e), receiver), record { compact_histories = records; kv = s })
  scan_partitioned config revision compact now tso receiver records ((ps, none), s) =
      let (timeout, records') = timeout_of config compact now records in
      scanned records' (
        scan_partitions (worker_config config tso revision compact timeout) receiver
          (adjust_partitions_borders ps) s)

  unfoldable pub scan_begun :
      ScannerConfig
      → (start end : Bytes) (revision : ℕ) (compact : Bool) (now : ℕ) → Receiver
      → List CompactRecord
      → Option (ℕ × Option Error) × K.State
      → Option (ScanResult × ScannerState)
  unfolding scan_partitioned
  scan_begun config start end revision compact now receiver records (none, s) = none
  scan_begun config start end revision compact now receiver records (some (tso, some e), s) =
      some (((0, some e), receiver), record { compact_histories = records; kv = s })
  scan_begun config start end revision compact now receiver records (some (tso, none), s) =
      scan_partitioned config revision compact now tso receiver records
        (K.get_partitions start end s)

  -- `scan`; the time is that of a compaction's look at the history.
  unfoldable pub scan :
      ScannerConfig
      → (start end : Bytes) (revision : ℕ) (compact : Bool) (now : ℕ) → Receiver
      → ScannerState
      → Option (ScanResult × ScannerState)
  unfolding begin_scan scan_begun
  scan config start end revision compact now receiver st =
      scan_begun config start end revision compact now receiver st.compact_histories
        (begin_scan config revision compact st.kv)

  -- `Compact`: its errors are dropped.
  unfoldable pub compact :
      ScannerConfig → (start end : Bytes) (revision now : ℕ) → ScannerState → Option ScannerState
  unfolding scan
  compact config start end revision now st =
      elim (scan config start end revision true now empty_result
        (record st { compact_histories = st.compact_histories ++ (revision, now) ∷ [] })) [
          | none ↦ none
          | some (result, st') ↦ some st'
        ]

  unfoldable pub range_result : ScanResult → Result (List KeyValue)
  range_result ((count, some e), receiver) = failed e
  range_result ((count, none), common_result result limit) = reply result
  range_result ((count, none), receiver) = reply []

  abbrev pub ranged :
      List CompactRecord
      → Option ((ℕ × Option Error) × Scan K)
      → Option (Result (List KeyValue) × ScannerState)
  ranged records none = none
  ranged records (some (count, sc)) =
      some (range_result (count, sc.receiver), record { compact_histories = records; kv = sc.kv })

  unfoldable pub range_begun :
      ScannerConfig
      → (start end : Bytes) (revision limit : ℕ) → List CompactRecord
      → Option (ℕ × Option Error) × K.State
      → Option (Result (List KeyValue) × ScannerState)
  unfolding run range_result
  range_begun config start end revision limit records (none, s) = none
  range_begun config start end revision limit records (some (tso, some e), s) =
      some (failed e, record { compact_histories = records; kv = s })
  range_begun config start end revision limit records (some (tso, none), s) = ranged records (
      run K (worker_config config tso revision false 0 (record { start = start; end = end }))
        (common_result [] limit) [] s)

  -- `Range` with a limit is one run over the whole range, with no retry.
  unfoldable pub range_with_limit :
      ScannerConfig
      → (start end : Bytes) (revision limit : ℕ) → ScannerState
      → Option (Result (List KeyValue) × ScannerState)
  unfolding begin_scan range_begun
  range_with_limit config start end revision limit st =
      range_begun config start end revision limit st.compact_histories
        (begin_scan config revision false st.kv)

  unfoldable pub range :
      ScannerConfig
      → (start end : Bytes) (revision limit : ℕ) → ScannerState
      → Option (Result (List KeyValue) × ScannerState)
  unfolding range_with_limit scan range_result
  range config start end revision limit st = elim (ltb 0 limit) [
    | true ↦ range_with_limit config start end revision limit st
    | false ↦ elim (scan config start end revision false 0 (common_result [] 0) st) [
      | none ↦ none
      | some (result, st') ↦ some (range_result result, st')
    ]
  ]

  unfoldable pub count :
      ScannerConfig
      → (start end : Bytes) (revision : ℕ) → ScannerState
      → Option ((ℕ × Option Error) × ScannerState)
  unfolding scan
  count config start end revision st =
      elim (scan config start end revision false 0 empty_result st) [
        | none ↦ none
        | some (result, st') ↦ some (result.0, st')
      ]

  abbrev pub list_stream_end : (revision : ℕ) → Option Error → StreamRangeResponse
  list_stream_end revision err = record {
    header_revision = revision;
    kvs = [];
    more = false;
    err = err;
  }

  abbrev pub stream_of : Receiver → List StreamRangeResponse
  stream_of (stream_result read_rev batch stream) = stream
  stream_of _ = []

  -- `RangeStream`: all that is sent on the stream until it is closed. What a failed worker has sent
  -- is not in the result here.
  unfoldable pub range_stream :
      ScannerConfig
      → (start end : Bytes) (revision : ℕ) → ScannerState
      → Option (List StreamRangeResponse × ScannerState)
  unfolding scan
  range_stream config start end revision st =
      elim (scan config start end revision false 0 (stream_result revision [] []) st) [
        | none ↦ none
        | some ((r, receiver), st') ↦
            some (stream_of receiver ++ list_stream_end revision r.1 ∷ [], st')
      ]
