-- ===== src/Retry.antt =====
-- pkg/backend/retry/retry.go: the events whose outcome is uncertain are settled by writing the latest
-- value again under a new revision. The getter and the dispatcher are those that the backend passes.
pub mod Effect
mod Tests
use kubebrain.Base.{
  ℕ, zero, suc, ◌+◌, List, [], ◌∷◌, ◌++◌, Option, none, some, Bool, true, false, not, ◌||◌, length,
  ltb, ◌==◌, if◌then◌else◌,
}
use kubebrain.Base.Bytes.{Bytes, equal}
use kubebrain.Coder.{encode_object_key, encode_revision_key}
use kubebrain.Tso
use kubebrain.Storage.{Error, key_not_found, cas, put, KvStorage, or_nil}
use kubebrain.Creator.{uint64_to_bytes}
use kubebrain.Range.{tomb_stone_bytes, Value, get_internal_val}
use kubebrain.RetryQueue
use kubebrain.RetryQueue.{EventNode, EventQueue, get_head}
use kubebrain.Sequencer.{WatchEvent}
use kubebrain.Txn.{Backend, notify_backend}

-- 5 * time.Second, in nanoseconds
abbrev pub retry_interval : ℕ
retry_interval = 5000000000

-- 0 for an empty queue
unfoldable pub min_revision : EventQueue WatchEvent → ℕ
unfolding get_head
min_revision q = elim (get_head q) [ none ↦ 0 | some node ↦ node.event.revision ]

module _ (K : KvStorage) where
  abbrev pub tombstone_flag : Bytes → Bytes
  tombstone_flag val = if equal val tomb_stone_bytes then 0 ∷ [] else []

  -- The write of the latest value again, with a deletion flag if it is the tombstone.
  unfoldable pub rewrite_latest :
      (key : Bytes) (prev_op_rev : ℕ) (val : Bytes) → Backend K → (ℕ × Option Error) × Backend K
  unfolding Tso.deal
  rewrite_latest key prev_op_rev val b =
      let (tso, rev) = Tso.deal b.pipeline.tso in
      let (err, s) =
        K.commit
          (cas (encode_revision_key key) (uint64_to_bytes rev ++ tombstone_flag val)
              (uint64_to_bytes prev_op_rev ++ tombstone_flag val) 0
            ∷ put (encode_object_key key rev) val 0
            ∷ [])
          b.kv in
      ((rev, err), record { pipeline = record b.pipeline { tso = tso }; kv = s })

  -- by the latest version that was read
  unfoldable pub overwrite_read :
      (key : Bytes) (prev_op_rev : ℕ) → Value → Backend K → (ℕ × Option Error) × Backend K
  unfolding rewrite_latest
  overwrite_read key prev_op_rev v b = elim v.err [
    | some key_not_found ↦ ((0, none), b)
    | some e ↦ ((0, some e), b)
    | none ↦
        if length (or_nil v.val) == 0 || not (v.mod_revision == prev_op_rev)
        then ((0, none), b)
        else rewrite_latest key prev_op_rev (or_nil v.val) b
  ]

  -- `none` is a panic of the read.
  unfoldable pub overwrite :
      (key : Bytes) (prev_op_rev : ℕ) → Backend K → Option ((ℕ × Option Error) × Backend K)
  unfolding get_internal_val overwrite_read
  overwrite key prev_op_rev b =
      let (v, s) = get_internal_val K key 0 b.kv in
      elim v [
        | none ↦ none
        | some w ↦ some (overwrite_read key prev_op_rev w (record b { kv = s }))
      ]

  unfoldable pub pop_retry : Backend K → Option (Bool × Backend K)
  unfolding RetryQueue.pop
  pop_retry b = elim (RetryQueue.pop b.pipeline.async_fifo_retry) [
    | none ↦ none
    | some q ↦ some (false, record b { pipeline = record b.pipeline { async_fifo_retry = q } })
  ]

  -- Without a new revision the event is done with, unless the read failed; else the outcome of the
  -- new write is announced.
  unfoldable pub retry_written :
      WatchEvent → (ℕ × Option Error) × Backend K → Option (Bool × Backend K)
  unfolding notify_backend pop_retry
  retry_written w ((zero, some e), b) = some (true, b)
  retry_written w ((zero, none), b) = pop_retry b
  retry_written w ((suc rev, err), b) =
      elim (notify_backend K w.key w.value (suc rev) w.prev_revision w.resource_verb err b) [
        | none ↦ none
        | some b' ↦ pop_retry b'
      ]

  -- One retry at the time `now`; true ends the loop until the next tick, `none` is a panic.
  unfoldable pub retry : (now : ℕ) → Backend K → Option (Bool × Backend K)
  unfolding overwrite retry_written get_head
  retry now b = elim (get_head b.pipeline.async_fifo_retry) [
    | none ↦ some (true, b)
    | some node ↦
        if ltb now (node.time + retry_interval)
        then some (true, b)
        else elim (overwrite node.event.key node.event.revision b) [
          | none ↦ none
          | some r ↦ retry_written node.event r
        ]
  ]
