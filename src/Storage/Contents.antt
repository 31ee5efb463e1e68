-- ===== src/Storage/Contents.antt =====
-- What a storage engine promises of the map from keys to values that it stands for.
use kubebrain.Base.{ℕ, ◌≡◌, ◌⊎◌, List, [], ◌∷◌, Option, none, some, true, false, if◌then◌else◌}
use kubebrain.Base.Bytes.{Bytes, equal}
use kubebrain.Storage.{
  Error, is_cas_failed, is_uncertain, BatchOp, put_if_not_exist, cas, put, del, del_current, found,
  fetch_failed, key_not_found, KvStorage, or_nil,
}

abbrev pub Map : Type 0
Map = Bytes → Option Bytes

abbrev pub update : Map → Bytes → Option Bytes → Map
update m key v j = if equal key j then v else m j

-- One operation on the map; `none` if its condition fails.
unfoldable pub apply_op : BatchOp → Map → Option Map
apply_op (put_if_not_exist key val ttl) m = elim (m key) [
  | none ↦ some (update m key (some val))
  | some old ↦ none
]
apply_op (cas key new_val old_val ttl) m = elim (m key) [
  | none ↦ none
  | some old ↦ if equal old old_val then some (update m key (some new_val)) else none
]
apply_op (put key val ttl) m = some (update m key (some val))
apply_op (del key) m = some (update m key none)
apply_op (del_current key val) m =
    if equal (or_nil (m key)) val then some (update m key none) else none

-- A batch: all of its operations, or none of them.
unfoldable pub apply_ops : List BatchOp → Map → Option Map
apply_ops [] m = some m
apply_ops (op ∷ ops) m = elim (apply_op op m) [ none ↦ none | some m' ↦ apply_ops ops m' ]

-- The documented behaviour of an engine: reads show the map and leave it alone; a batch is
-- committed whole or not at all, an error that is not uncertain means not at all, and success means
-- that every condition held.
pub record Contents (K : KvStorage) : Type 1 where
  pub view : K.State → Map
  pub view-get : (key : Bytes) (s : K.State) → view (K.get key s).1 ≡ view s
  pub get-found :
      (key val : Bytes) (s : K.State) → (K.get key s).0 ≡ found val → view s key ≡ some val
  pub get-not_found :
      (key : Bytes) (s : K.State) → (K.get key s).0 ≡ fetch_failed key_not_found → view s key ≡ none
  pub view-iter :
      (start end : Bytes) (timestamp limit : ℕ) (s : K.State)
      → view (K.iter start end timestamp limit s).1 ≡ view s
  pub commit-ok :
      (ops : List BatchOp) (s : K.State)
      → (K.commit ops s).0 ≡ none
      → apply_ops ops (view s) ≡ some (view (K.commit ops s).1)
  pub commit-failed :
      (ops : List BatchOp) (e : Error) (s : K.State)
      → (K.commit ops s).0 ≡ some e
      → is_uncertain e ≡ false
      → view (K.commit ops s).1 ≡ view s
  pub commit-uncertain :
      (ops : List BatchOp) (e : Error) (s : K.State)
      → (K.commit ops s).0 ≡ some e
      → is_uncertain e ≡ true
      → (view (K.commit ops s).1 ≡ view s)
        ⊎ (apply_ops ops (view s) ≡ some (view (K.commit ops s).1))
  -- a compare that failed is known to have failed
  pub commit-cas_failed :
      (ops : List BatchOp) (e : Error) (s : K.State)
      → (K.commit ops s).0 ≡ some e
      → is_cas_failed e ≡ true
      → is_uncertain e ≡ false
  pub view-get_timestamp_oracle : (s : K.State) → view (K.get_timestamp_oracle s).1 ≡ view s
  pub view-get_partitions :
      (start end : Bytes) (s : K.State) → view (K.get_partitions start end s).1 ≡ view s
  -- a removal that succeeds is done; one that fails may be done or not
  pub del-ok :
      (key : Bytes) (s : K.State)
      → (K.del key s).0 ≡ none
      → view (K.del key s).1 ≡ update (view s) key none
  pub del-failed :
      (key : Bytes) (e : Error) (s : K.State)
      → (K.del key s).0 ≡ some e
      → (view (K.del key s).1 ≡ view s) ⊎ (view (K.del key s).1 ≡ update (view s) key none)
  -- a removal of the current entry is done only if the entry is still there
  pub del_current-ok :
      (entry : Bytes × Bytes) (s : K.State)
      → (K.del_current entry s).0 ≡ none
      → view (K.del_current entry s).1 ≡ update (view s) entry.0 none
  pub del_current-failed :
      (entry : Bytes × Bytes) (e : Error) (s : K.State)
      → (K.del_current entry s).0 ≡ some e
      → (view (K.del_current entry s).1 ≡ view s)
        ⊎ (view (K.del_current entry s).1 ≡ update (view s) entry.0 none)
