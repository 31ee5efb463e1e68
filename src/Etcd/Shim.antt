-- ===== src/Etcd/Shim.antt =====
-- backendShim of pkg/server/etcd/backendshim.go: requests of etcd as requests of the backend, and the
-- answers of the backend as answers of etcd. `none` is a panic of the backend.
use kubebrain.Base.{
  ℕ, ◌+◌, List, [], ◌∷◌, Option, none, some, Bool, true, false, length, if◌then◌else◌,
}
use kubebrain.Base.Bytes.{Bytes}
use kubebrain.Message.{KeyValue, Event, Verb}
use kubebrain.Storage.{Error, other}
use kubebrain.Range.{Result, reply, failed, GetResponse}
use kubebrain.Range.Page.{RangeResponse}
use kubebrain.Range.Lists.{CountResponse, ListPartitionResponse}
use kubebrain.Scanner.Receiver.{StreamRangeResponse}
use kubebrain.Txn.{TxnResponse}
use kubebrain.Etcd.Message.{
  PutRequest, RangeRequest, EtcdKeyValue, EtcdRangeResponse, response_put, response_delete_range,
  response_range, EtcdTxnResponse, event_put, event_delete, EtcdEvent,
}

-- backend.Backend, as far as the requests call it.
pub record BackendApi : Type 1 where
  pub State : Type 0
  pub create : (key value : Bytes) (lease : ℕ) → State → Option (Result TxnResponse × State)
  pub update :
      (key value : Bytes) (revision lease : ℕ) → State → Option (Result TxnResponse × State)
  pub delete : (key : Bytes) (revision : ℕ) → State → Option (Result TxnResponse × State)
  pub get : (key : Bytes) (revision : ℕ) → State → Option (Result GetResponse × State)
  pub list : (key end : Bytes) (revision limit : ℕ) → State → Option (Result RangeResponse × State)
  pub count : (key end : Bytes) → State → Option (Result CountResponse × State)
  pub get_partitions : (key end : Bytes) → State → Option (Result ListPartitionResponse × State)

-- What becomes of an answer; an error is passed on.
abbrev pub map_result : {A B : Type 0} → (A → B) → Result A → Result B
map_result f (reply a) = reply (f a)
map_result f (failed e) = failed e

abbrev pub map_answer : {A B S : Type 0} → (A → B) → Option (Result A × S) → Option (Result B × S)
map_answer f none = none
map_answer f (some (r, s)) = some (map_result f r, s)

unfoldable pub kv_to_etcd_kv : KeyValue → EtcdKeyValue
kv_to_etcd_kv kv = record {
  key = kv.key;
  value = kv.value;
  mod_revision = kv.revision;
  create_revision = 0;
}

abbrev pub etcd_kvs : List KeyValue → List EtcdKeyValue
etcd_kvs [] = []
etcd_kvs (kv ∷ kvs) = kv_to_etcd_kv kv ∷ etcd_kvs kvs

abbrev pub option_kvs : Option KeyValue → List EtcdKeyValue
option_kvs none = []
option_kvs (some kv) = kv_to_etcd_kv kv ∷ []

abbrev pub unsupported : Error
unsupported = other 4

unfoldable pub create_response : TxnResponse → EtcdTxnResponse
create_response r = record {
  header_revision = r.header_revision;
  succeeded = r.succeeded;
  responses = response_put r.header_revision ∷ [];
}

unfoldable pub delete_response : TxnResponse → EtcdTxnResponse
unfolding kv_to_etcd_kv
delete_response r = record {
  header_revision = r.header_revision;
  succeeded = r.succeeded;
  responses =
      if r.succeeded
      then response_delete_range r.header_revision (length (option_kvs r.kv)) (option_kvs r.kv) ∷ []
      else response_range (record {
        header_revision = r.header_revision;
        kvs = option_kvs r.kv;
        count = length (option_kvs r.kv);
        more = false;
      })
        ∷ [];
}

-- The range of a failed update has no count.
unfoldable pub update_response : TxnResponse → EtcdTxnResponse
unfolding kv_to_etcd_kv
update_response r = record {
  header_revision = r.header_revision;
  succeeded = r.succeeded;
  responses =
      if r.succeeded
      then response_put r.header_revision ∷ []
      else response_range (record {
        header_revision = r.header_revision;
        kvs = option_kvs r.kv;
        count = 0;
        more = false;
      })
        ∷ [];
}

abbrev pub get_response : GetResponse → EtcdRangeResponse
get_response r = record {
  header_revision = r.header_revision;
  kvs = option_kvs r.kv;
  count = length (option_kvs r.kv);
  more = false;
}

-- One more is counted if there is more.
unfoldable pub list_response : RangeResponse → EtcdRangeResponse
unfolding kv_to_etcd_kv
list_response r = record {
  header_revision = r.header_revision;
  kvs = etcd_kvs r.kvs;
  count = if r.more then length r.kvs + 1 else length r.kvs;
  more = r.more;
}

abbrev pub count_response : CountResponse → EtcdRangeResponse
count_response r = record {
  header_revision = r.header_revision;
  kvs = [];
  count = r.count;
  more = false;
}

abbrev pub key_kvs : List Bytes → List EtcdKeyValue
key_kvs [] = []
key_kvs (key ∷ keys) =
    record { key = key; value = []; mod_revision = 0; create_revision = 0 } ∷ key_kvs keys

unfoldable pub partitions_response : ListPartitionResponse → EtcdRangeResponse
partitions_response r = record {
  header_revision = r.header_revision;
  kvs = key_kvs r.partition_keys;
  count = r.partition_num + 1;
  more = false;
}

module _ (B : BackendApi) where
  unfoldable pub shim_create : PutRequest → B.State → Option (Result EtcdTxnResponse × B.State)
  unfolding create_response
  shim_create r s =
      if r.ignore_lease
      then some (failed unsupported, s)
      else if r.ignore_value
      then some (failed unsupported, s)
      else if r.prev_kv
      then some (failed unsupported, s)
      else map_answer create_response (B.create r.key r.value r.lease s)

  unfoldable pub shim_delete :
      (key : Bytes) (revision : ℕ) → B.State → Option (Result EtcdTxnResponse × B.State)
  unfolding delete_response
  shim_delete key revision s = map_answer delete_response (B.delete key revision s)

  unfoldable pub shim_update :
      (rev : ℕ) (key value : Bytes) (lease : ℕ)
      → B.State
      → Option (Result EtcdTxnResponse × B.State)
  unfolding update_response
  shim_update rev key value lease s = map_answer update_response (B.update key value rev lease s)

  unfoldable pub shim_get : RangeRequest → B.State → Option (Result EtcdRangeResponse × B.State)
  shim_get r s = map_answer get_response (B.get r.key r.revision s)

  unfoldable pub shim_list : RangeRequest → B.State → Option (Result EtcdRangeResponse × B.State)
  unfolding list_response
  shim_list r s = map_answer list_response (B.list r.key r.range_end r.revision r.limit s)

  unfoldable pub shim_count : RangeRequest → B.State → Option (Result EtcdRangeResponse × B.State)
  shim_count r s = map_answer count_response (B.count r.key r.range_end s)

  unfoldable pub shim_get_partitions :
      RangeRequest → B.State → Option (Result EtcdRangeResponse × B.State)
  unfolding partitions_response
  shim_get_partitions r s = map_answer partitions_response (B.get_partitions r.key r.range_end s)

-- An event of the backend as an event of etcd: the value of a deletion is the one before it.
unfoldable pub etcd_event : Event → EtcdEvent
unfolding kv_to_etcd_kv
etcd_event e = elim e.verb [
  | Verb.delete ↦ record {
    event_type = event_delete;
    kv = record { key = e.kv.key; value = []; mod_revision = e.revision; create_revision = 0 };
    prev_kv = kv_to_etcd_kv e.kv ∷ [];
  }
  | _ ↦ record {
    event_type = event_put;
    kv = record (kv_to_etcd_kv e.kv) { create_revision = e.kv.revision };
    prev_kv = [];
  }
]

unfoldable pub etcd_events : List Event → List EtcdEvent
unfolding etcd_event
etcd_events [] = []
etcd_events (e ∷ es) = etcd_event e ∷ etcd_events es

-- What Watch sends on the channel, for what it receives.
unfoldable pub shim_watch : List (List Event) → List (List EtcdEvent)
unfolding etcd_events
shim_watch [] = []
shim_watch (es ∷ ess) = etcd_events es ∷ shim_watch ess

-- The part of a list stream's response that the server reads: its events, and with the last one the
-- error.
pub record StreamResponse : Type 0 where
  pub header_revision : ℕ
  pub events : List EtcdEvent
  pub canceled : Bool
  pub cancel_reason : Option Error

abbrev pub kv_events : List KeyValue → List EtcdEvent
kv_events [] = []
kv_events (kv ∷ kvs) =
    record { event_type = event_put; kv = kv_to_etcd_kv kv; prev_kv = [] } ∷ kv_events kvs

unfoldable pub stream_response : StreamRangeResponse → StreamResponse
unfolding kv_to_etcd_kv
stream_response r = record {
  header_revision = r.header_revision;
  events = if r.more then kv_events r.kvs else [];
  canceled = if r.more then false else true;
  cancel_reason = if r.more then none else r.err;
}

unfoldable pub shim_list_by_stream : List StreamRangeResponse → List StreamResponse
unfolding stream_response
shim_list_by_stream [] = []
shim_list_by_stream (r ∷ rs) = stream_response r ∷ shim_list_by_stream rs
