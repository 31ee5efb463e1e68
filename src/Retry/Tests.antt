-- ===== src/Retry/Tests.antt =====
-- The retry of a write that turns out to be the last one.
use kubebrain.Base.{refl, [], ◌∷◌, none}
use kubebrain.Base.Bytes.{cmp, big_endian}
use kubebrain.Base.Int.{pos}
use kubebrain.MemKv.{mem_kv}
use kubebrain.MemKv.SortedList.{sorted_list}
use kubebrain.Coder.{encode_object_key, encode_revision_key}
use kubebrain.Creator.{uint64_to_bytes}
use kubebrain.Txn.{Backend}

one_object : (mem_kv sorted_list).State
unfolding mem_kv cmp encode_object_key encode_revision_key big_endian
one_object = record {
  skl = (
    (encode_revision_key (b'k' ∷ []), uint64_to_bytes 4)
        ∷ (encode_object_key (b'k' ∷ []) 4, b'v' ∷ [])
        ∷ [],
    ((refl, tt), (tt, tt)),
  );
  timers = [];
  clock = 0;
}

abbrev backend : Backend (mem_kv sorted_list)
backend = record {
  pipeline = record {
    tso = record { committed_revision = 4; deal_revision = 4 };
    watch_events_ring_buffer = λ j. none;
    watch_cache = record { s = 0; e = 0; l = 2; arr = none ∷ none ∷ [] };
    async_fifo_retry = record { heap = []; queue_size = pos 0; head = none; tail = none };
    watch_chan = [];
  };
  kv = one_object;
}
