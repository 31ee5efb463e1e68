-- ===== src/Retry/Effect.antt =====
-- What a retry does to the stored keys.
use kubebrain.Base.{ℕ, ◌<◌, ◌≡◌, ◌⊎◌, ◌++◌, Option, none, some, length}
use kubebrain.Base.Bytes.{Bytes}
use kubebrain.Coder.{encode_object_key, encode_revision_key}
use kubebrain.Storage.{Error, KvStorage, or_nil}
use kubebrain.Storage.Contents.{Contents, Map}
use kubebrain.Storage.Effect.{Effect}
use kubebrain.Creator.{uint64_to_bytes}
use kubebrain.Creator.Effect.{written}
use kubebrain.Range.{Value}
use kubebrain.Txn.{Backend}
use kubebrain.Retry.{tombstone_flag}

module _ {K : KvStorage} (C : Contents K) where
  -- The map is as before, or the value that was read of the key is of the given revision, which the
  -- revision key has, and now stands under the new revision, which the revision key has now.
  abbrev pub Rewrites :
      (key : Bytes) (old : ℕ) (read : Option Value) → Map → (ℕ × Option Error) × Backend K → Type 0
  Rewrites key old read m (r, b) =
      (C.view b.kv ≡ m)
      ⊎ ((v : Value) × (read ≡ some v)
          × (v.err ≡ none)
          × (v.mod_revision ≡ old)
          × (0 < length (or_nil v.val))
          × (m (encode_revision_key key)
              ≡ some (uint64_to_bytes old ++ tombstone_flag K (or_nil v.val)))
          × (C.view b.kv
              ≡ written (encode_revision_key key)
                  (uint64_to_bytes r.0 ++ tombstone_flag K (or_nil v.val))
                  (encode_object_key key r.0) (or_nil v.val) m))
