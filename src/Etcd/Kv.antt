-- ===== src/Etcd/Kv.antt =====
-- pkg/server/etcd/kv.go: which request of the backend a request of etcd is.
use kubebrain.Base.{
  ℕ, List, [], ◌∷◌, Option, none, some, Bool, true, false, ◌&&◌, length, ◌==◌, if◌then◌else◌,
}
use kubebrain.Base.Bytes.{Bytes, equal}
use kubebrain.Storage.{Error, other}
use kubebrain.Range.{Result, reply, failed}
use kubebrain.Etcd.Message.{
  target_mod, target_version, result_equal, Compare, PutRequest, RangeRequest, RequestOp,
  request_range, request_put, request_delete_range, TxnRequest, EtcdRangeResponse, response_range,
  EtcdTxnResponse,
}
use kubebrain.Etcd.Shim.{
  BackendApi, shim_create, shim_delete, shim_update, shim_get, shim_list, shim_count,
  shim_get_partitions,
}

abbrev pub get_partition_magic : ℕ
get_partition_magic = 1888

abbrev pub is_mod_equal : Compare → Bool
is_mod_equal c = elim c.target [
  | target_mod ↦ elim c.result [ result_equal ↦ true | _ ↦ false ]
  | _ ↦ false
]

abbrev pub is_version_equal : Compare → Bool
is_version_equal c = elim c.target [
  | target_version ↦ elim c.result [ result_equal ↦ true | _ ↦ false ]
  | _ ↦ false
]

unfoldable pub create_of : List Compare → (success failure : List RequestOp) → Option PutRequest
create_of (c ∷ []) (request_put put ∷ []) [] =
    if is_mod_equal c && c.mod_revision == 0 then some put else none
create_of _ _ _ = none

unfoldable pub is_create : TxnRequest → Option PutRequest
unfolding create_of
is_create txn = create_of txn.compare txn.success txn.failure

unfoldable pub delete_of : List Compare → (success failure : List RequestOp) → Option (ℕ × Bytes)
delete_of [] (request_range r ∷ request_delete_range key ∷ []) [] = some (0, key)
delete_of (c ∷ []) (request_delete_range key ∷ []) (request_range r ∷ []) =
    if is_mod_equal c then some (c.mod_revision, key) else none
delete_of _ _ _ = none

unfoldable pub is_delete : TxnRequest → Option (ℕ × Bytes)
unfolding delete_of
is_delete txn = delete_of txn.compare txn.success txn.failure

-- The key is that of the compare.
unfoldable pub update_of :
    List Compare → (success failure : List RequestOp) → Option (ℕ × Bytes × Bytes × ℕ)
update_of (c ∷ []) (request_put put ∷ []) (request_range r ∷ []) =
    if is_mod_equal c then some (c.mod_revision, c.key, put.value, put.lease) else none
update_of _ _ _ = none

unfoldable pub is_update : TxnRequest → Option (ℕ × Bytes × Bytes × ℕ)
unfolding update_of
is_update txn = update_of txn.compare txn.success txn.failure

-- compact_rev_key
abbrev pub compact_rev_key : Bytes
compact_rev_key =
    b'c' ∷ b'o' ∷ b'm' ∷ b'p' ∷ b'a' ∷ b'c' ∷ b't' ∷ b'_' ∷ b'r' ∷ b'e' ∷ b'v' ∷ b'_' ∷ b'k' ∷ b'e'
    ∷ b'y' ∷ []

unfoldable pub compact_of : List Compare → (success failure : List RequestOp) → Bool
compact_of (c ∷ []) (request_put put ∷ []) (request_range r ∷ []) =
    is_version_equal c && equal c.key compact_rev_key
compact_of _ _ _ = false

unfoldable pub is_compact : TxnRequest → Bool
unfolding compact_of
is_compact txn = compact_of txn.compare txn.success txn.failure

-- The compaction that the API server asks for is not done: the transaction fails.
abbrev pub compact_response : EtcdTxnResponse
compact_response = record {
  header_revision = 0;
  succeeded = false;
  responses =
      response_range (record {
        header_revision = 0;
        kvs = record { key = []; value = []; mod_revision = 0; create_revision = 0 } ∷ [];
        count = 1;
        more = false;
      })
      ∷ [];
}

abbrev pub unsupported_transaction : Error
unsupported_transaction = other 5

abbrev pub not_leader : Error
not_leader = other 6

-- The other servers, as far as the requests call them.
pub record Peers (State : Type 0) : Type 0 where
  pub is_leader : Bool
  pub etcd_proxy_enabled : Bool
  pub sync_read_revision : State → Option Error × State
  pub txn : TxnRequest → State → Option (Result EtcdTxnResponse × State)

module _ (B : BackendApi) (peers : Peers B.State) where
  -- The request that a transaction is, on the leader.
  unfoldable pub leader_txn : TxnRequest → B.State → Option (Result EtcdTxnResponse × B.State)
  unfolding is_create is_delete is_update is_compact shim_create shim_delete shim_update
  leader_txn txn s = elim (is_create txn) [
    | some put ↦ shim_create B put s
    | none ↦ elim (is_delete txn) [
      | some (rev, key) ↦ shim_delete B key rev s
      | none ↦ elim (is_update txn) [
        | some (rev, key, value, lease) ↦ shim_update B rev key value lease s
        | none ↦
            if is_compact txn
            then some (reply compact_response, s)
            else some (failed unsupported_transaction, s)
      ]
    ]
  ]

  -- `Txn`, before its deadline.
  unfoldable pub txn : TxnRequest → B.State → Option (Result EtcdTxnResponse × B.State)
  unfolding leader_txn
  txn r s =
      if peers.is_leader
      then leader_txn r s
      else if peers.etcd_proxy_enabled
      then peers.txn r s
      else some (failed not_leader, s)

  -- The read that a range is.
  unfoldable pub read_synced :
      RangeRequest → Option Error × B.State → Option (Result EtcdRangeResponse × B.State)
  unfolding shim_get shim_list shim_count shim_get_partitions
  read_synced r (some e, s) = some (failed e, s)
  read_synced r (none, s) =
      if length r.range_end == 0
      then shim_get B r s
      else if r.revision == get_partition_magic
      then shim_get_partitions B r s
      else if r.count_only
      then shim_count B r s
      else shim_list B r s

  unfoldable pub range : RangeRequest → B.State → Option (Result EtcdRangeResponse × B.State)
  unfolding read_synced
  range r s = read_synced r (peers.sync_read_revision s)
