-- ===== src/Etcd/Message.antt =====
-- The messages of etcd's API (generated code of a third party): the fields that pkg/server/etcd uses.
-- An int64 is its 64 bits, as the number that a uint64 of them is.
use kubebrain.Base.{ℕ, List, Bool}
use kubebrain.Base.Bytes.{Bytes}

pub data CompareTarget : Type 0 where
  target_version target_create target_mod target_value target_lease : CompareTarget

pub data CompareResult : Type 0 where
  result_equal result_greater result_less result_not_equal : CompareResult

-- `mod_revision` is what GetModRevision returns, 0 for another target
pub record Compare : Type 0 where
  pub target : CompareTarget
  pub result : CompareResult
  pub key : Bytes
  pub mod_revision : ℕ

pub record PutRequest : Type 0 where
  pub key : Bytes
  pub value : Bytes
  pub lease : ℕ
  pub ignore_lease : Bool
  pub ignore_value : Bool
  pub prev_kv : Bool

pub record RangeRequest : Type 0 where
  pub key : Bytes
  pub range_end : Bytes
  pub limit : ℕ
  pub revision : ℕ
  pub count_only : Bool

-- `request_txn` is a transaction inside of a transaction.
pub data RequestOp : Type 0 where
  request_range : RangeRequest → RequestOp
  request_put : PutRequest → RequestOp
  request_delete_range : (key : Bytes) → RequestOp
  request_txn : RequestOp

pub record TxnRequest : Type 0 where
  pub compare : List Compare
  pub success : List RequestOp
  pub failure : List RequestOp

-- mvccpb.KeyValue
pub record EtcdKeyValue : Type 0 where
  pub key : Bytes
  pub value : Bytes
  pub mod_revision : ℕ
  pub create_revision : ℕ

pub record EtcdRangeResponse : Type 0 where
  pub header_revision : ℕ
  pub kvs : List EtcdKeyValue
  pub count : ℕ
  pub more : Bool

pub data ResponseOp : Type 0 where
  response_put : (header_revision : ℕ) → ResponseOp
  response_delete_range :
      (header_revision : ℕ) (deleted : ℕ) (prev_kvs : List EtcdKeyValue) → ResponseOp
  response_range : EtcdRangeResponse → ResponseOp

pub record EtcdTxnResponse : Type 0 where
  pub header_revision : ℕ
  pub succeeded : Bool
  pub responses : List ResponseOp

pub data EventType : Type 0 where
  event_put event_delete : EventType

-- mvccpb.Event; nil is an empty list.
pub record EtcdEvent : Type 0 where
  pub event_type : EventType
  pub kv : EtcdKeyValue
  pub prev_kv : List EtcdKeyValue

pub record WatchResponse : Type 0 where
  pub header_revision : ℕ
  pub watch_id : ℕ
  pub created : Bool
  pub canceled : Bool
  pub compact_revision : ℕ
  pub events : List EtcdEvent
