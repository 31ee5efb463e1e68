-- ===== src/Txn/Tests.antt =====
-- Writes on the engine in memory.
use kubebrain.Base.{ℕ, ◌+◌, ◌≡◌, refl, [], ◌∷◌, ◌++◌, Option, none, some, true, arith}
use kubebrain.Base.Bytes.{cmp, equal, contains, big_endian}
use kubebrain.Base.Int.{pos}
use kubebrain.Message.{Verb}
use kubebrain.Tso.{get_revision}
use kubebrain.WatchCache.{add}
use kubebrain.MemKv.{mem_kv}
use kubebrain.MemKv.SortedList.{sorted_list}
use kubebrain.MemKv.Engine.{mem_kv-Contents}
use kubebrain.Coder.{decode, encode_object_key, encode_revision_key}
use kubebrain.Storage.{revision_drift_back, Error}
use kubebrain.Storage.Effect.{Effect}
use kubebrain.Creator
use kubebrain.Creator.{uint64_to_bytes}
use kubebrain.Creator.Effect.{Creates, written}
use kubebrain.Range.{reply, failed}
use kubebrain.Sequencer.{Pipeline, proto_event, collect_round}
use kubebrain.Sequencer.Pending.{IsPending}
use kubebrain.Txn.{
  Backend, KeyVal, create, update, delete, create_reply, create_request, update_request,
}
use kubebrain.Txn.Effect.{Deletes, create-Effect, update-Effect, delete-Effect}
use kubebrain.Txn.Published.{
  write_event, IsSettled, Told, create_request-IsPending, create_request-published,
  update_request-drift,
}

abbrev pipeline : Pipeline
pipeline = record {
  tso = record { committed_revision = 4; deal_revision = 4 };
  watch_events_ring_buffer = λ j. none;
  watch_cache = record { s = 0; e = 0; l = 2; arr = none ∷ none ∷ [] };
  async_fifo_retry = record { heap = []; queue_size = pos 0; head = none; tail = none };
  watch_chan = [];
}

empty_store : (mem_kv sorted_list).State
unfolding mem_kv
empty_store = record { skl = ([], tt); timers = []; clock = 0 }

abbrev backend : Backend (mem_kv sorted_list)
backend = record { pipeline = pipeline; kv = empty_store }

-- one object, of revision 4
one_object : (mem_kv sorted_list).State
unfolding mem_kv cmp encode_object_key encode_revision_key big_endian
one_object = record {
  skl = (
    (encode_revision_key (b'k' ∷ []), uint64_to_bytes 4)
        ∷ (encode_object_key (b'k' ∷ []) 4, b'v' ∷ [])
        ∷ [],
    ((refl, tt), (tt, tt)),
  );
  timers = [];
  clock = 0;
}

abbrev full : Backend (mem_kv sorted_list)
full = record { pipeline = pipeline; kv = one_object }

pipeline-IsSettled : IsSettled pipeline []
unfolding get_revision
pipeline-IsSettled = record {
  pending = record { pending = refl; fits = omega arith; small = omega arith };
  dealt = refl;
  room = omega arith;
  small = omega arith;
  next = refl;
}

create-Effect_example :
    let (q, b') = create (mem_kv sorted_list) (b'k' ∷ []) (b'v' ∷ []) 0 backend in
    (q.0 ≡ 5)
    × Creates
        (mem_kv-Contents sorted_list)
        (b'k' ∷ [])
        (b'v' ∷ [])
        q.0
        ((mem_kv-Contents sorted_list).view backend.kv)
        (q.1, b'.kv)
create-Effect_example =
    create-Effect (mem_kv-Contents sorted_list) (b'k' ∷ []) (b'v' ∷ []) 0 backend (omega arith)

update_request-drift_example :
    (b' : Backend (mem_kv sorted_list)) × (update_request
        (mem_kv sorted_list)
        (b'k' ∷ [])
        (b'v' ∷ [])
        9
        0
        backend
      ≡ some (failed revision_drift_back, b'))
    × (b'.pipeline.watch_events_ring_buffer ≡ backend.pipeline.watch_events_ring_buffer)
    × (b'.pipeline.tso.deal_revision ≡ backend.pipeline.tso.deal_revision + 1)
    × (b'.pipeline.tso.committed_revision ≡ backend.pipeline.tso.committed_revision)
    × (b'.kv ≡ backend.kv)
update_request-drift_example =
    update_request-drift (b'k' ∷ []) (b'v' ∷ []) 9 0 backend (omega arith) (omega arith)

created : (create (mem_kv sorted_list) (b'k' ∷ []) (b'v' ∷ []) 0 backend).0.1 ≡ none
unfolding create contains Creator.create mem_kv empty_store
created = refl

deleted :
    (p : (ℕ × KeyVal × Option Error) × Backend (mem_kv sorted_list)) × (delete
        (mem_kv sorted_list)
        0
        (b'k' ∷ [])
        full
      ≡ some p)
unfolding delete mem_kv one_object cmp encode_object_key encode_revision_key big_endian equal decode
deleted = (_, refl)

delete-Effect_example :
    Deletes
      (mem_kv-Contents sorted_list)
      (b'k' ∷ [])
      0
      ((mem_kv-Contents sorted_list).view full.kv)
      deleted.0
delete-Effect_example =
    delete-Effect (mem_kv-Contents sorted_list) 0 (b'k' ∷ []) full deleted.0 deleted.1

update-Effect_example :
    let (q, b') = update (mem_kv sorted_list) 4 (b'k' ∷ []) (b'w' ∷ []) 0 full in
    let m = (mem_kv-Contents sorted_list).view full.kv in
    (q.0 ≡ 5)
    × Effect
        (m (encode_revision_key (b'k' ∷ [])) ≡ some (uint64_to_bytes 4))
        m
        (written
          (encode_revision_key (b'k' ∷ []))
          (uint64_to_bytes q.0)
          (encode_object_key (b'k' ∷ []) q.0)
          (b'w' ∷ [])
          m)
        ((mem_kv-Contents sorted_list).view b'.kv)
        q.1
update-Effect_example =
    update-Effect (mem_kv-Contents sorted_list) 4 (b'k' ∷ []) (b'w' ∷ []) 0 full (omega arith)
      (omega arith)

create_request-IsPending_example :
    let ((rev, err), b') = create (mem_kv sorted_list) (b'k' ∷ []) (b'v' ∷ []) 0 backend in
    (b'' : Backend (mem_kv sorted_list)) × (create_request
        (mem_kv sorted_list)
        (b'k' ∷ [])
        (b'v' ∷ [])
        0
        backend
      ≡ some (create_reply (mem_kv sorted_list) rev err, b''))
    × Told rev err (create_reply (mem_kv sorted_list) rev err)
    × IsPending b''.pipeline ([] ++ write_event (b'k' ∷ []) (b'v' ∷ []) rev 0 Verb.create err ∷ [])
    × (rev ≡ backend.pipeline.tso.deal_revision + 1)
    × (b''.pipeline.tso.deal_revision ≡ rev)
    × (get_revision b''.pipeline.tso ≡ get_revision backend.pipeline.tso)
    × (b''.pipeline.watch_cache ≡ backend.pipeline.watch_cache)
    × (b''.pipeline.watch_chan ≡ backend.pipeline.watch_chan)
    × (b''.kv ≡ b'.kv)
create_request-IsPending_example =
    create_request-IsPending (b'k' ∷ []) (b'v' ∷ []) 0 backend [] pipeline-IsSettled

create_request-published_example :
    let event = proto_event (write_event (b'k' ∷ []) (b'v' ∷ []) 5 0 Verb.create none) in
    (b' : Backend (mem_kv sorted_list)) × (p : Pipeline) × (create_request
        (mem_kv sorted_list)
        (b'k' ∷ [])
        (b'v' ∷ [])
        0
        backend
      ≡ some (reply (record { header_revision = 5; succeeded = true; kv = none }), b'))
    × (collect_round 2 0 b'.pipeline ≡ some p)
    × (get_revision p.tso ≡ 5)
    × (p.watch_cache ≡ add pipeline.watch_cache event)
    × (p.watch_chan ≡ (event ∷ []) ∷ [])
create_request-published_example =
    create_request-published (b'k' ∷ []) (b'v' ∷ []) 0 2 0 backend pipeline-IsSettled created
      (omega arith)
