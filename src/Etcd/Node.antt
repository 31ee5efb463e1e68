-- ===== src/Etcd/Node.antt =====
-- The backend behind pkg/server/etcd: its requests as the interface that the shim calls.
use kubebrain.Base.{List, Option, none, some, Bool}
use kubebrain.Storage.{KvStorage}
use kubebrain.Range.{Result, get_request}
use kubebrain.Range.Lists.{list_request, count_request, get_partitions_request}
use kubebrain.Scanner.Partitions.{ScannerConfig, CompactRecord, ScannerState}
use kubebrain.Txn.{Backend, create_request, update_request, delete_request}
use kubebrain.Etcd.Shim.{BackendApi}

module _ (K : KvStorage) where
  -- the backend with its scanner
  pub record Node : Type 0 where
    pub backend : Backend K
    pub compact_histories : List CompactRecord

  abbrev with_backend :
      {A : Type 0} → Node → Option (Result A × Backend K) → Option (Result A × Node)
  with_backend n none = none
  with_backend n (some (r, b)) = some (r, record n { backend = b })

  abbrev with_kv : {A : Type 0} → Node → Option (Result A) × K.State → Option (Result A × Node)
  with_kv n (none, s) = none
  with_kv n (some r, s) = some (r, record n { backend = record n.backend { kv = s } })

  abbrev scanner_of : Node → ScannerState K
  scanner_of n = record { compact_histories = n.compact_histories; kv = n.backend.kv }

  abbrev with_scanner :
      {A : Type 0} → Node → Option (Result A × ScannerState K) → Option (Result A × Node)
  with_scanner n none = none
  with_scanner n (some (r, st)) = some (
    r,
    record { backend = record n.backend { kv = st.kv }; compact_histories = st.compact_histories },
  )

  unfoldable pub backend_api : ScannerConfig → (enable_etcd_compatibility : Bool) → BackendApi
  unfolding create_request update_request delete_request get_request list_request count_request
      get_partitions_request
  backend_api config enable_etcd_compatibility = record {
    State = Node;
    create = λ key value lease n. with_backend n (create_request K key value lease n.backend);
    update = λ key value revision lease n.
        with_backend n (update_request K key value revision lease n.backend);
    delete = λ key revision n. with_backend n (delete_request K key revision n.backend);
    get = λ key revision n.
        with_kv n (get_request K key revision n.backend.pipeline.tso n.backend.kv);
    list = λ key end revision limit n.
        with_scanner n
          (list_request K config key end revision limit n.backend.pipeline.tso (scanner_of n));
    count = λ key end n. with_scanner n (
        count_request K config enable_etcd_compatibility key end n.backend.pipeline.tso
          (scanner_of n));
    get_partitions = λ key end n.
        (let (r, s) = get_partitions_request K config key end n.backend.pipeline.tso n.backend.kv in
          some (r, record n { backend = record n.backend { kv = s } }));
  }
