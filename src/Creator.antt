-- ===== src/Creator.antt =====
-- pkg/backend/creator/naive.go: the creation of an object in one batch, over a storage engine.
pub mod Effect
mod Tests
use kubebrain.Base.{
  ℕ, zero, List, [], ◌∷◌, Option, none, some, Bool, true, false, ◌&&◌, ltb, if◌then◌else◌,
}
use kubebrain.Base.Bytes.{Bytes, big_endian}
use kubebrain.Coder.{
  encode_object_key, encode_revision_key, parse_revision, RevisionValue, parsed, invalid_format,
}
use kubebrain.Storage.{
  Error, cas_failed, conflict, unavailable, invalid_rev_format, is_cas_failed, is_key_not_found,
  put_if_not_exist, cas, put, Fetch, found, fetch_failed, KvStorage, or_nil,
}

abbrev pub uint64_to_bytes : ℕ → Bytes
uint64_to_bytes n = big_endian 8 n

module _ (K : KvStorage) where
  unfoldable pub create_batch :
      (revision_key object_key value revision : Bytes) (lease : ℕ)
      → K.State
      → Option Error × K.State
  create_batch revision_key object_key value revision lease =
      K.commit (put_if_not_exist revision_key revision lease ∷ put object_key value lease ∷ [])

  unfoldable pub update_batch :
      (revision_key object_key value new_revision old_revision : Bytes) (lease : ℕ)
      → K.State
      → Option Error × K.State
  update_batch revision_key object_key value new_revision old_revision lease =
      K.commit (cas revision_key new_revision old_revision lease ∷ put object_key value lease ∷ [])

  -- The stored revision after a conflict: the one that the error reports of the first operation,
  -- else the one that a read finds.
  unfoldable pub old_revision : Error → Bytes → K.State → Fetch × K.State
  old_revision (conflict zero _ val) revision_key s = (found (or_nil val), s)
  old_revision _ revision_key s = K.get revision_key s

  -- A deleted object is replaced, by what its old revision was parsed to.
  unfoldable pub replace_parsed :
      (key val : Bytes) (revision ttl : ℕ) (old : Bytes)
      → RevisionValue
      → K.State
      → Option Error × K.State
  unfolding update_batch
  replace_parsed key val revision ttl old invalid_format s = (some invalid_rev_format, s)
  replace_parsed key val revision ttl old (parsed prev is_tombstone) s =
      if is_tombstone && ltb prev revision
      then update_batch (encode_revision_key key) (encode_object_key key revision) val
          (uint64_to_bytes revision) old ttl s
      else (some cas_failed, s)

  -- What follows a create that was refused, by what was read of the old revision.
  unfoldable pub replace_deleted :
      (key val : Bytes) (revision ttl : ℕ) → Fetch → K.State → Option Error × K.State
  unfolding create_batch replace_parsed
  replace_deleted key val revision ttl (fetch_failed e) s =
      if is_key_not_found e
      then create_batch (encode_revision_key key) (encode_object_key key revision) val
          (uint64_to_bytes revision) ttl s
      else (some unavailable, s)
  replace_deleted key val revision ttl (found old) s =
      replace_parsed key val revision ttl old (parse_revision old) s

  unfoldable pub after_create :
      (key val : Bytes) (revision ttl : ℕ) → Option Error → K.State → Option Error × K.State
  unfolding old_revision replace_deleted
  after_create key val revision ttl none s = (none, s)
  after_create key val revision ttl (some e) s =
      if is_cas_failed e
      then (let (old, s') = old_revision e (encode_revision_key key) s in
          replace_deleted key val revision ttl old s')
      else (some e, s)

  unfoldable pub create_with_ttl :
      (key val : Bytes) (revision ttl : ℕ) → K.State → Option Error × K.State
  unfolding create_batch after_create
  create_with_ttl key val revision ttl s =
      let (r, s') =
        create_batch (encode_revision_key key) (encode_object_key key revision) val
          (uint64_to_bytes revision) ttl s in
      after_create key val revision ttl r s'

  unfoldable pub create : (key val : Bytes) (revision : ℕ) → K.State → Option Error × K.State
  unfolding create_with_ttl
  create key val revision s = create_with_ttl key val revision 0 s
