-- ===== src/Txn.antt =====
-- pkg/backend/txn.go: the writes. A handler runs in steps that other requests may come between; what
-- stands here is a handler on its own, from the revision it deals to the event it leaves.
pub mod Effect
pub mod Published
mod Tests
use kubebrain.Base.{
  ℕ, ◌+◌, List, [], ◌∷◌, ◌++◌, Option, none, some, Bool, true, false, not, ◌&&◌, ltb, leb, ◌==◌,
  if◌then◌else◌,
}
use kubebrain.Base.Bytes.{Bytes, contains}
use kubebrain.Message.{Verb, KeyValue}
use kubebrain.Coder.{encode_object_key, encode_revision_key}
use kubebrain.Tso.{Tso, backend_deal}
use kubebrain.Storage.{
  Error, cas_failed, key_not_found, revision_drift_back, stale_revision, is_cas_failed,
  is_key_not_found, cas, put, KvStorage, or_nil,
}
use kubebrain.Creator
use kubebrain.Creator.{uint64_to_bytes, create_with_ttl}
use kubebrain.Range.{tomb_stone_bytes, Value, get, Result, reply, failed}
use kubebrain.Sequencer.{Pipeline, notify}

abbrev pub events : Bytes
events = b'/' ∷ b'e' ∷ b'v' ∷ b'e' ∷ b'n' ∷ b't' ∷ b's' ∷ b'/' ∷ []

abbrev pub events_ttl : ℕ
events_ttl = 3600

abbrev pub max_uint64 : ℕ → ℕ → ℕ
max_uint64 a b = if ltb b a then a else b

-- err == nil
abbrev pub is_nil : Option Error → Bool
is_nil none = true
is_nil (some e) = false

pub record KeyVal : Type 0 where
  pub key : Bytes
  pub val : Option Bytes
  pub revision : ℕ

abbrev pub no_key_val : KeyVal
no_key_val = record { key = []; val = none; revision = 0 }

-- CreateResponse, UpdateResponse and DeleteResponse; a create has no `kv`.
pub record TxnResponse : Type 0 where
  pub header_revision : ℕ
  pub succeeded : Bool
  pub kv : Option KeyValue

module _ (K : KvStorage) where
  pub record Backend : Type 0 where
    pub pipeline : Pipeline
    pub kv : K.State

  -- The revision and the error of `deal`.
  unfoldable pub deal : ℕ → Backend → (ℕ × Option Error) × Backend
  unfolding backend_deal
  deal prev b =
      let (tso, rev, drift) = backend_deal prev b.pipeline.tso in
      (
        (rev, if drift then some revision_drift_back else none),
        record b { pipeline = record b.pipeline { tso = tso } },
      )

  abbrev pub run_kv :
      ℕ → (K.State → Option Error × K.State) → Backend → (ℕ × Option Error) × Backend
  run_kv rev f b = let (err, s) = f b.kv in ((rev, err), record b { kv = s })

  -- A lease is not negative.
  unfoldable pub create_dealt :
      (key value : Bytes) (lease : ℕ) → ℕ × Option Error → Backend → (ℕ × Option Error) × Backend
  create_dealt key value lease (rev, some e) b = ((0, some e), b)
  create_dealt key value lease (rev, none) b =
      let ttl = if contains key events then events_ttl else lease in
      run_kv rev
        (if not (ttl == 0)
          then create_with_ttl K key value rev ttl
          else Creator.create K key value rev)
        b

  unfoldable pub create : (key value : Bytes) (lease : ℕ) → Backend → (ℕ × Option Error) × Backend
  unfolding deal create_dealt
  create key value lease b = let (r, b') = deal 0 b in create_dealt key value lease r b'

  unfoldable pub update_dealt :
      (old_revision : ℕ) (key value : Bytes)
      → ℕ × Option Error
      → Backend
      → (ℕ × Option Error) × Backend
  update_dealt old_revision key value (rev, some e) b = ((0, some e), b)
  update_dealt old_revision key value (rev, none) b =
      run_kv rev
        (K.commit (
          cas (encode_revision_key key) (uint64_to_bytes rev) (uint64_to_bytes old_revision) 0
          ∷ put (encode_object_key key rev) value 0
          ∷ []))
        b

  -- The lease is not used.
  unfoldable pub update :
      (old_revision : ℕ) (key value : Bytes) (lease : ℕ) → Backend → (ℕ × Option Error) × Backend
  unfolding deal update_dealt
  update old_revision key value lease b =
      let (r, b') = deal old_revision b in update_dealt old_revision key value r b'

  -- The new revision, the old version and the error of `delete`.
  abbrev pub Deleted : Type 0
  Deleted = ℕ × KeyVal × Option Error

  -- With the new revision dealt: the expected revision is that of the latest version, or given and
  -- equal to it.
  unfoldable pub delete_dealt :
      (old_revision : ℕ) (key : Bytes) → Value → ℕ × Option Error → Backend → Deleted × Backend
  delete_dealt old_revision key v (rev, some e) b = ((0, no_key_val, some e), b)
  delete_dealt old_revision key v (rev, none) b =
      let old : KeyVal = record { key = key; val = v.val; revision = v.mod_revision } in
      if ltb 0 old_revision && not (old_revision == v.mod_revision)
      then ((rev, old, some cas_failed), b)
      else if leb rev v.mod_revision
      then ((rev, old, some stale_revision), b)
      else let expected = if leb old_revision 0 then v.mod_revision else old_revision in
        let (err, s) =
          K.commit
            (cas (encode_revision_key key) (uint64_to_bytes rev ++ 0 ∷ [])
                (uint64_to_bytes expected) 0
              ∷ put (encode_object_key key rev) tomb_stone_bytes 0
              ∷ [])
            b.kv in
        ((rev, old, err), record b { kv = s })

  -- With the latest version read.
  unfoldable pub delete_read :
      (old_revision : ℕ) (key : Bytes) → Value → Backend → Deleted × Backend
  unfolding deal delete_dealt
  delete_read old_revision key v b =
      let (r, b') = deal old_revision b in
      elim v.err [
        | some e ↦ ((r.0, no_key_val, some e), b')
        | none ↦ delete_dealt old_revision key v r b'
      ]

  -- `none` is a panic of the read.
  unfoldable pub delete : (old_revision : ℕ) (key : Bytes) → Backend → Option (Deleted × Backend)
  unfolding get delete_read
  delete old_revision key b =
      let (v, s) = get K key 0 b.kv in
      elim v [ none ↦ none | some w ↦ some (delete_read old_revision key w (record b { kv = s })) ]

  unfoldable pub notify_backend :
      (key val : Bytes) (revision pre_revision : ℕ) (verb : Verb) (err : Option Error)
      → Backend
      → Option Backend
  unfolding notify
  notify_backend key val revision pre_revision verb err b =
      elim (notify key val revision pre_revision (is_nil err) verb err b.pipeline) [
        | none ↦ none
        | some p ↦ some (record b { pipeline = p })
      ]

  abbrev pub Answer : Type 0
  Answer = Option (Result TxnResponse × Backend)

  unfoldable pub create_reply : ℕ → Option Error → Result TxnResponse
  create_reply rev none = reply (record { header_revision = rev; succeeded = true; kv = none })
  create_reply rev (some e) =
      if is_cas_failed e
      then reply (record { header_revision = rev; succeeded = false; kv = none })
      else failed e

  -- `Create` of the backend; `none` is a panic.
  unfoldable pub create_request : (key value : Bytes) (lease : ℕ) → Backend → Answer
  unfolding create notify_backend create_reply
  create_request key value lease b =
      let (r, b') = create key value lease b in
      elim (notify_backend key value r.0 0 Verb.create r.1 b') [
        | none ↦ none
        | some b'' ↦ some (create_reply r.0 r.1, b'')
      ]

  -- The reply after a failed compare, by the latest version.
  unfoldable pub update_conflict : (key : Bytes) (rev : ℕ) → Value → Result TxnResponse
  update_conflict key rev v = elim v.err [
    | some e ↦
        if is_key_not_found e
        then reply (record { header_revision = rev; succeeded = false; kv = none })
        else failed e
    | none ↦ reply (record {
      header_revision = max_uint64 rev v.mod_revision;
      succeeded = false;
      kv = some (record { key = key; value = or_nil v.val; revision = v.mod_revision });
    })
  ]

  -- a reply that takes a read of the latest version
  abbrev pub with_latest : Bytes → (Value → Result TxnResponse) → Backend → Answer
  with_latest key f b =
      let (v, s) = get K key 0 b.kv in
      elim v [ none ↦ none | some w ↦ some (f w, record b { kv = s }) ]

  unfoldable pub update_reply : (key : Bytes) → ℕ → Option Error → Backend → Answer
  unfolding get update_conflict
  update_reply key rev none b =
      some (reply (record { header_revision = rev; succeeded = true; kv = none }), b)
  update_reply key rev (some e) b =
      if is_cas_failed e then with_latest key (update_conflict key rev) b else some (failed e, b)

  -- What follows the write of an update.
  unfoldable pub update_written :
      (key value : Bytes) (prev_rev : ℕ) (verb : Verb) → (ℕ × Option Error) × Backend → Answer
  unfolding notify_backend update_reply
  update_written key value prev_rev verb (r, b) =
      elim (notify_backend key value r.0 prev_rev verb r.1 b) [
        | none ↦ none
        | some b' ↦ update_reply key r.0 r.1 b'
      ]

  -- `Update` of the backend: a create if no revision is given.
  unfoldable pub update_request : (key value : Bytes) (prev_rev lease : ℕ) → Backend → Answer
  unfolding create update update_written
  update_request key value prev_rev lease b =
      if prev_rev == 0
      then update_written key value prev_rev Verb.create (create key value lease b)
      else update_written key value prev_rev Verb.put (update prev_rev key value lease b)

  abbrev pub kv_of : KeyVal → KeyValue
  kv_of old = record { key = old.key; value = or_nil old.val; revision = old.revision }

  -- The reply after a failed compare: the latest version, or if it cannot be read the old one.
  unfoldable pub delete_conflict : (key : Bytes) (rev : ℕ) → KeyVal → Value → Result TxnResponse
  delete_conflict key rev old v = elim v.err [
    | some e ↦ reply (record {
      header_revision = rev;
      succeeded = false;
      kv = some (record { key = key; value = or_nil old.val; revision = old.revision });
    })
    | none ↦ reply (record {
      header_revision = max_uint64 rev v.mod_revision;
      succeeded = false;
      kv = some (record { key = key; value = or_nil v.val; revision = v.mod_revision });
    })
  ]

  unfoldable pub delete_reply : (key : Bytes) → ℕ → KeyVal → Option Error → Backend → Answer
  unfolding get delete_conflict
  delete_reply key rev old none b =
      some (reply (record { header_revision = rev; succeeded = true; kv = some (kv_of old) }), b)
  delete_reply key rev old (some key_not_found) b =
      some (reply (record { header_revision = rev; succeeded = false; kv = none }), b)
  delete_reply key rev old (some e) b =
      if is_cas_failed e
      then with_latest key (delete_conflict key rev old) b
      else some (failed e, b)

  -- `Delete` of the backend.
  unfoldable pub delete_request : (key : Bytes) (revision : ℕ) → Backend → Answer
  unfolding delete notify_backend delete_reply
  delete_request key revision b = elim (delete revision key b) [
    | none ↦ none
    | some (r, b') ↦
        elim (notify_backend key (or_nil r.1.val) r.0 r.1.revision Verb.delete r.2 b') [
          | none ↦ none
          | some b'' ↦ delete_reply key r.0 r.1 r.2 b''
        ]
  ]
