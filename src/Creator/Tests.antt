-- ===== src/Creator/Tests.antt =====
-- The creation of an object whose last version is a deletion, on the engine in memory.
use kubebrain.Base.{[], ◌∷◌, ◌++◌}
use kubebrain.Coder.{encode_revision_key}
use kubebrain.MemKv.{mem_kv}
use kubebrain.MemKv.SortedList.{sorted_list}
use kubebrain.MemKv.Engine.{mem_kv-Contents}
use kubebrain.Creator.{uint64_to_bytes, create_with_ttl}
use kubebrain.Creator.Effect.{Creates, create_with_ttl-Effect}

-- after the deletion with revision 3
deleted_state : (mem_kv sorted_list).State
unfolding mem_kv
deleted_state = record {
  skl = ((encode_revision_key (b'k' ∷ []), uint64_to_bytes 3 ++ 0 ∷ []) ∷ [], (tt, tt));
  timers = [];
  clock = 0;
}

create_with_ttl-Effect_example :
    Creates
      (mem_kv-Contents sorted_list)
      (b'k' ∷ [])
      (b'v' ∷ [])
      5
      ((mem_kv-Contents sorted_list).view deleted_state)
      (create_with_ttl (mem_kv sorted_list) (b'k' ∷ []) (b'v' ∷ []) 5 0 deleted_state)
create_with_ttl-Effect_example =
    create_with_ttl-Effect (mem_kv-Contents sorted_list) (b'k' ∷ []) (b'v' ∷ []) 5 0 deleted_state
