-- ===== src/Etcd/Tests.antt =====
-- A transaction that updates a key, on a backend that answers with the current version; and a watch.
use kubebrain.Base.{
  ℕ, ◌≡◌, ◌≢◌, refl, inr, List, [], ◌∷◌, ◌++◌, concat, none, some, true, false, arith,
}
use kubebrain.Base.Bytes.{Bytes, has_prefix}
use kubebrain.Message.{KeyValue}
use kubebrain.Range.{reply, failed}
use kubebrain.Etcd.Message.{
  target_mod, result_equal, request_range, request_put, TxnRequest, response_range, EtcdTxnResponse,
  event_put, EtcdEvent,
}
use kubebrain.Etcd.Shim.{BackendApi, unsupported, update_response, kv_to_etcd_kv, shim_update}
use kubebrain.Etcd.Kv.{
  Peers, leader_txn, is_create, create_of, is_delete, delete_of, is_update, update_of,
}
use kubebrain.Etcd.Answers.{Answers, leader_txn-Answers}
use kubebrain.Etcd.Watcher.{Watcher, WatchCreateRequest, run_watch, is_pure_watch_request}
use kubebrain.Etcd.Delivery.{messages, events_of, end_message, find_watch, run_watch-sent}

abbrev key_a : Bytes
key_a = b'/' ∷ b'a' ∷ []

abbrev stored : KeyValue
stored = record { key = key_a; value = 1 ∷ []; revision = 6 }

-- its state counts the requests
abbrev backend : BackendApi
backend = record {
  State = ℕ;
  create = λ key value lease n. some (failed unsupported, n);
  update = λ key value revision lease n.
      some (reply (record { header_revision = 7; succeeded = false; kv = some stored }), n);
  delete = λ key revision n. some (failed unsupported, n);
  get = λ key revision n. some (failed unsupported, n);
  list = λ key end revision limit n. some (failed unsupported, n);
  count = λ key end n. some (failed unsupported, n);
  get_partitions = λ key end n. some (failed unsupported, n);
}

abbrev peers : Peers ℕ
peers = record {
  is_leader = true;
  etcd_proxy_enabled = false;
  sync_read_revision = λ n. (none, n);
  txn = λ r n. some (failed unsupported, n);
}

abbrev update_txn : TxnRequest
update_txn = record {
  compare =
      record { target = target_mod; result = result_equal; key = key_a; mod_revision = 5 } ∷ [];
  success =
      request_put (record {
        key = key_a;
        value = 2 ∷ [];
        lease = 0;
        ignore_lease = false;
        ignore_value = false;
        prev_kv = false;
      })
      ∷ [];
  failure =
      request_range
        (record { key = key_a; range_end = []; limit = 0; revision = 0; count_only = false })
      ∷ [];
}

abbrev refused : EtcdTxnResponse
refused = record {
  header_revision = 7;
  succeeded = false;
  responses =
      response_range (record {
        header_revision = 7;
        kvs = record { key = key_a; value = 1 ∷ []; mod_revision = 6; create_revision = 0 } ∷ [];
        count = 0;
        more = false;
      })
      ∷ [];
}

updated : leader_txn backend peers update_txn 3 ≡ some (reply refused, 3)
unfolding leader_txn is_create create_of is_delete delete_of is_update update_of shim_update
    update_response kv_to_etcd_kv
updated = refl

not_a_create : is_create update_txn ≡ none
unfolding is_create create_of
not_a_create = refl

has_compare : update_txn.compare ≢ []
has_compare e = ground (arith, e)

leader_txn-Answers_example : Answers update_txn refused
leader_txn-Answers_example =
    leader_txn-Answers backend peers update_txn 3 3 refused has_compare updated (inr not_a_create)

abbrev event : EtcdEvent
event = record {
  event_type = event_put;
  kv = record { key = key_a; value = 1 ∷ []; mod_revision = 6; create_revision = 6 };
  prev_kv = [];
}

abbrev watch_a : WatchCreateRequest
watch_a = record { key = key_a; range_end = []; start_revision = 6 }

abbrev watcher : Watcher
watcher = record {
  watches = (4, record { start = key_a; end = [] }) ∷ (3, record { start = key_a; end = [] }) ∷ [];
  next_id = 4;
  sent = [];
  sends = 0;
}

abbrev batches : List (List EtcdEvent)
batches = (event ∷ []) ∷ [] ∷ (event ∷ event ∷ []) ∷ []

pure : is_pure_watch_request watch_a ≡ true
unfolding is_pure_watch_request has_prefix
pure = refl

run_watch-sent_example :
    ((run_watch (λ n. true) 4 watch_a (some batches) watcher).sent
      ≡ messages 4 batches ++ end_message 4 ∷ [])
    × (events_of (messages 4 batches) ≡ concat batches)
    × (find_watch 4 (run_watch (λ n. true) 4 watch_a (some batches) watcher).watches ≡ none)
    × ((k : ℕ)
        → k ≢ 4
        → find_watch k (run_watch (λ n. true) 4 watch_a (some batches) watcher).watches
          ≡ find_watch k watcher.watches)
run_watch-sent_example = run_watch-sent (λ n. true) (λ n. refl) 4 watch_a batches watcher pure
