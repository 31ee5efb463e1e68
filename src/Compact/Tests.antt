-- ===== src/Compact/Tests.antt =====
-- The end of a prefix, a clamped compaction and its record.
use kubebrain.Base.{ℕ, ◌≤◌, ◌<◌, ◌≡◌, ◌⊎◌, refl, [], ◌∷◌, Option, some, arith}
use kubebrain.Base.Bytes.{Bytes, equal, big_endian, big_endian_value, has_prefix}
use kubebrain.MemKv.{mem_kv}
use kubebrain.MemKv.SortedList.{sorted_list}
use kubebrain.MemKv.Engine.{mem_kv-Contents}
use kubebrain.Storage.{Error}
use kubebrain.Compact.{compact_revision, get_compact_key, set_compact_record, prefix_end}
use kubebrain.Compact.Bounds.{compact_revision_lem, Records, set_compact_record-Records}
use kubebrain.Compact.Prefix.{within, prefix_end_lem}
use kubebrain.Compact.{raise_last}

abbrev prefix : Bytes
prefix = b'/' ∷ b'a' ∷ 255 ∷ []

prefix_raised : raise_last prefix ≡ some (b'/' ∷ b'b' ∷ [])
unfolding raise_last
prefix_raised = refl

prefix_end_lem_example :
    has_prefix (b'/' ∷ b'a' ∷ 255 ∷ 7 ∷ []) prefix
    ≡ within prefix (prefix_end prefix) (b'/' ∷ b'a' ∷ 255 ∷ 7 ∷ [])
prefix_end_lem_example =
    prefix_end_lem prefix (b'/' ∷ b'a' ∷ 255 ∷ 7 ∷ []) (b'/' ∷ b'b' ∷ [])
      (omega arith, (omega arith, (omega arith, (omega arith, tt)))) prefix_raised

abbrev uncertain_rev : ℕ
uncertain_rev = 6

abbrev cur_rev : ℕ
cur_rev = 7

abbrev asked_rev : ℕ
asked_rev = 9

compact_revision_lem_example :
    (compact_revision asked_rev cur_rev uncertain_rev ≤ cur_rev)
    × ((uncertain_rev ≡ 0) ⊎ (compact_revision asked_rev cur_rev uncertain_rev < uncertain_rev))
    × ((asked_rev ≡ 0) ⊎ (compact_revision asked_rev cur_rev uncertain_rev ≤ asked_rev))
    × ((asked_rev ≡ 0) ⊎ (cur_rev < asked_rev) ⊎ (compact_revision asked_rev cur_rev 0 ≡ asked_rev))
compact_revision_lem_example = compact_revision_lem asked_rev cur_rev uncertain_rev

-- with a record of revision 3
recorded_store : (mem_kv sorted_list).State
unfolding mem_kv
recorded_store = record {
  skl = ((get_compact_key prefix, big_endian 8 3) ∷ [], (tt, tt));
  timers = [];
  clock = 0;
}

written_again :
    (p : Option Error × (mem_kv sorted_list).State) × (set_compact_record
        (mem_kv sorted_list)
        prefix
        5
        recorded_store
      ≡ some p)
unfolding set_compact_record mem_kv recorded_store equal big_endian big_endian_value
written_again = (_, refl)

set_compact_record-Records_example :
    Records
      (get_compact_key prefix)
      5
      ((mem_kv-Contents sorted_list).view recorded_store)
      ((mem_kv-Contents sorted_list).view written_again.0.1)
set_compact_record-Records_example =
    set_compact_record-Records (mem_kv-Contents sorted_list) prefix 5 recorded_store written_again.0
      written_again.1
