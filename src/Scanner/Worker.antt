-- ===== src/Scanner/Worker.antt =====
-- The worker of pkg/backend/scanner/scanner.go: it scans one partition, passes the visible version of
-- each key on, and in a compaction removes the versions that no later read sees. Contexts are never
-- cancelled. `none` is a panic.
use kubebrain.Base.{
  ℕ, zero, suc, ◌+◌, List, [], ◌∷◌, Option, none, some, Bool, true, false, not, ◌&&◌, ◌||◌, length,
  take, ltb, leb, ◌==◌, if◌then◌else◌,
}
use kubebrain.Base.Bytes.{Bytes, equal, contains, big_endian_value}
use kubebrain.Coder.{
  encode_object_key, Decoded, decoded, bad_magic, bad_split, panic, decode,
  revision_value_length_with_deletion_flag,
}
use kubebrain.Storage.{
  Error, other, is_cas_failed, Entry, Iterated, listed, iter_failed, Partition, KvStorage,
}
use kubebrain.Txn.{events}
use kubebrain.Scanner.Receiver.{Receiver, need_more, append, flush, reset}

pub record WorkerConfig : Type 0 where
  pub partition : Partition
  pub tso : ℕ
  pub revision : ℕ
  pub tombstone : Bytes
  pub compact : Bool
  pub timeout_revision : ℕ

-- How the loop over the iterator ends: at the end of the range, as the receiver has enough, or by an
-- error of the iterator.
pub data Ended : Type 0 where
  eof enough : Ended
  stopped : Error → Ended

module _ (K : KvStorage) where
  -- The variables of `run`, with the worker's own and the state of the storage.
  pub record Scan : Type 0 where
    pub receiver : Receiver
    pub count : ℕ
    pub prev_user_key : Bytes
    pub prev_revision : ℕ
    pub prev_value : Bytes
    pub last_compact_failed_raw_key : Bytes
    pub kv : K.State

  abbrev pub is_skipped_raw_key : Bytes → Scan → Bool
  is_skipped_raw_key raw_key sc =
      ltb 0 (length sc.last_compact_failed_raw_key) && equal sc.last_compact_failed_raw_key raw_key

  -- The worker after a removal for a raw key was answered.
  unfoldable pub removed : (raw_key : Bytes) → Option Error × K.State → Scan → Scan
  removed raw_key (none, s) sc = record sc { kv = s }
  removed raw_key (some e, s) sc =
      if is_cas_failed e
      then record sc { kv = s }
      else record sc { last_compact_failed_raw_key = raw_key; kv = s }

  unfoldable pub compact_key : (key raw_key : Bytes) → Scan → Scan
  unfolding removed
  compact_key key raw_key sc =
      if is_skipped_raw_key raw_key sc then sc else removed raw_key (K.del key sc.kv) sc

  unfoldable pub compact_current : (entry : Entry) (raw_key : Bytes) → Scan → Scan
  unfolding removed
  compact_current entry raw_key sc =
      if is_skipped_raw_key raw_key sc then sc else removed raw_key (K.del_current entry sc.kv) sc

  -- Whether the entry is expired, and the worker after its removal.
  unfoldable pub compact_if_expired :
      WorkerConfig → (entry : Entry) (raw_key : Bytes) (revision : ℕ) → Scan → Option (Bool × Scan)
  unfolding compact_key compact_current
  compact_if_expired conf entry raw_key revision sc =
      if K.support_ttl || conf.timeout_revision == 0
      then some (false, sc)
      else if not (contains raw_key events)
      then some (false, sc)
      else if revision == 0
      then (if ltb (length entry.1) 8
          then none
          else if leb (big_endian_value (take 8 entry.1)) conf.timeout_revision
          then some (true, compact_current entry raw_key sc)
          else some (false, sc))
      else if leb revision conf.timeout_revision
      then some (true, compact_key entry.0 raw_key sc)
      else some (false, sc)

  -- With the next version at hand, the version before it is the last of its key, or replaced.
  unfoldable pub process_prev : WorkerConfig → (cur_user_key : Bytes) → Scan → Scan
  unfolding compact_key append
  process_prev conf cur_user_key sc =
      if not (equal cur_user_key sc.prev_user_key)
      then (if ltb 0 sc.prev_revision && not (equal sc.prev_value conf.tombstone)
          then record sc {
            receiver = append sc.prev_user_key sc.prev_value sc.prev_revision sc.receiver;
            count = sc.count + 1;
          }
          else sc)
      else if conf.compact && ltb 0 sc.prev_revision
      then compact_key (encode_object_key sc.prev_user_key sc.prev_revision) sc.prev_user_key sc
      else sc

  unfoldable pub compact_tombstone :
      WorkerConfig → (entry : Entry) (cur_user_key : Bytes) → Scan → Scan
  unfolding compact_key
  compact_tombstone conf entry cur_user_key sc =
      if conf.compact && equal entry.1 conf.tombstone
      then compact_key entry.0 cur_user_key sc
      else sc

  -- a revision key with the deletion flag
  abbrev pub is_deleted_index : WorkerConfig → Entry → ℕ → Bool
  is_deleted_index conf entry cur_revision =
      conf.compact
      && (cur_revision == 0 && length entry.1 == revision_value_length_with_deletion_flag)

  abbrev pub remember : (entry : Entry) (cur_user_key : Bytes) (cur_revision : ℕ) → Scan → Scan
  remember entry cur_user_key cur_revision sc = record sc {
    prev_user_key = cur_user_key;
    prev_revision = cur_revision;
    prev_value = entry.1;
  }

  -- The end of the loop's body: a deleted index is removed, unless its revision is above the bound.
  unfoldable pub compact_index :
      WorkerConfig → (entry : Entry) (cur_user_key : Bytes) (cur_revision : ℕ) → Scan → Scan
  unfolding compact_current
  compact_index conf entry cur_user_key cur_revision sc =
      if is_deleted_index conf entry cur_revision
      then (if ltb conf.revision (big_endian_value (take 8 entry.1))
          then sc
          else remember entry cur_user_key cur_revision (compact_current entry cur_user_key sc))
      else remember entry cur_user_key cur_revision sc

  unfoldable pub visit :
      WorkerConfig → (entry : Entry) (cur_user_key : Bytes) (cur_revision : ℕ) → Scan → Scan
  unfolding process_prev compact_tombstone compact_index
  visit conf entry cur_user_key cur_revision sc =
      if ltb conf.revision cur_revision
      then sc
      else compact_index conf entry cur_user_key cur_revision
          (compact_tombstone conf entry cur_user_key (process_prev conf cur_user_key sc))

  unfoldable pub after_expiry :
      WorkerConfig
      → (entry : Entry) (cur_user_key : Bytes) (cur_revision : ℕ) → Option (Bool × Scan)
      → Option Scan
  unfolding visit
  after_expiry conf entry cur_user_key cur_revision none = none
  after_expiry conf entry cur_user_key cur_revision (some (true, sc)) = some sc
  after_expiry conf entry cur_user_key cur_revision (some (false, sc)) =
      some (visit conf entry cur_user_key cur_revision sc)

  -- The body of the loop, for the entry that the iterator is at.
  unfoldable pub step_decoded : WorkerConfig → (entry : Entry) → Decoded → Scan → Option Scan
  unfolding compact_if_expired after_expiry
  step_decoded conf entry panic sc = none
  step_decoded conf entry (decoded user_key revision) sc =
      after_expiry conf entry user_key revision (compact_if_expired conf entry user_key revision sc)
  step_decoded conf entry bad_magic sc = some sc
  step_decoded conf entry bad_split sc = some sc

  unfoldable pub step : WorkerConfig → Entry → Scan → Option Scan
  unfolding step_decoded
  step conf entry sc = step_decoded conf entry (decode entry.0) sc

  abbrev pub end_of : Option Error → Ended
  end_of none = eof
  end_of (some e) = stopped e

  unfoldable pub loop : WorkerConfig → List Entry → Option Error → Scan → Option (Ended × Scan)
  unfolding need_more step
  loop conf [] ends sc = some (if need_more sc.receiver then end_of ends else enough, sc)
  loop conf (entry ∷ entries) ends sc = elim (need_more sc.receiver) [
    | false ↦ some (enough, sc)
    | true ↦ elim (step conf entry sc) [ none ↦ none | some sc' ↦ loop conf entries ends sc' ]
  ]

  -- The count and the error that `run` returns. A receiver that has enough leaves the loop with no
  -- error, which is not io.EOF, so that the count is 0 and nothing is flushed.
  unfoldable pub finish : WorkerConfig → Ended → Scan → (ℕ × Option Error) × Scan
  unfolding append need_more flush
  finish conf (stopped e) sc = ((0, some e), sc)
  finish conf enough sc = ((0, none), sc)
  finish conf eof sc =
      let sc' =
        if ltb 0 sc.prev_revision
          && (not (equal sc.prev_value conf.tombstone) && need_more sc.receiver)
        then record sc {
          receiver = append sc.prev_user_key sc.prev_value sc.prev_revision sc.receiver;
          count = sc.count + 1;
        }
        else sc in
      ((sc'.count, none), record sc' { receiver = flush sc'.receiver })

  abbrev pub start_scan : Receiver → (last_compact_failed_raw_key : Bytes) → K.State → Scan
  start_scan receiver last s = record {
    receiver = receiver;
    count = 0;
    prev_user_key = [];
    prev_revision = 0;
    prev_value = [];
    last_compact_failed_raw_key = last;
    kv = s;
  }

  unfoldable pub conclude :
      WorkerConfig → Option (Ended × Scan) → Option ((ℕ × Option Error) × Scan)
  unfolding finish
  conclude conf none = none
  conclude conf (some (ended, sc)) = some (finish conf ended sc)

  unfoldable pub run_iterated :
      WorkerConfig
      → Iterated
      → Receiver
      → (last : Bytes) → K.State
      → Option ((ℕ × Option Error) × Scan)
  unfolding loop conclude reset
  run_iterated conf (iter_failed e) receiver last s = some ((0, some e), start_scan receiver last s)
  run_iterated conf (listed l) receiver last s =
      conclude conf (loop conf l.entries l.ends (start_scan (reset receiver) last s))

  unfoldable pub run :
      WorkerConfig → Receiver → (last : Bytes) → K.State → Option ((ℕ × Option Error) × Scan)
  unfolding run_iterated
  run conf receiver last s =
      let (it, s') = K.iter conf.partition.start conf.partition.end conf.tso 0 s in
      run_iterated conf it receiver last s'

  -- The error of the retry names that of the last run in its text only.
  abbrev pub max_retry_reached : Error
  max_retry_reached = other 2

  -- Up to `steps` runs, until one succeeds.
  unfoldable pub run_with_backoff_retry :
      (steps : ℕ)
      → WorkerConfig
      → Receiver
      → (last : Bytes) → K.State
      → Option ((ℕ × Option Error) × Scan)
  unfolding run
  run_with_backoff_retry zero conf receiver last s =
      some ((0, some max_retry_reached), start_scan receiver last s)
  run_with_backoff_retry (suc steps) conf receiver last s = elim (run conf receiver last s) [
    | none ↦ none
    | some ((count, none), sc) ↦ some ((count, none), sc)
    | some ((count, some e), sc) ↦
        run_with_backoff_retry steps conf sc.receiver sc.last_compact_failed_raw_key sc.kv
  ]

abbrev pub scan_backoff_steps : ℕ
scan_backoff_steps = 3
