-- ===== src/Scanner/Tests.antt =====
-- Scans of two versions of one object on the engine in memory.
use mathlib.Core.List.{Perm}
use kubebrain.Base.{
  ◌≡◌, ◌≢◌, refl, inr, List, [], ◌∷◌, none, some, false, length, ltb, take, Ordering, arith, All,
  ◌∙◌,
}
use kubebrain.Base.Bytes.{Bytes, IsByte, cmp, equal, big_endian, big_endian_value}
use kubebrain.Message.{KeyValue}
use kubebrain.Coder.{encode_object_key, encode_revision_key, decode}
use kubebrain.Coder.Roundtrip.{decode-encode_object_key}
use kubebrain.Storage.{Partition, KvStorage, listed}
use kubebrain.MemKv.{IsSorted, Store, mem_kv, store_get, iter, skip_before, take_before}
use kubebrain.MemKv.SortedList.{sorted_list}
use kubebrain.MemKv.Refine.{view}
use kubebrain.MemKv.Engine.{mem_kv-Contents, mem_kv-view}
use kubebrain.Range.{reply, tomb_stone_bytes}
use kubebrain.Range.Lists.{read_revision, list_request}
use kubebrain.Range.Pages.{list_request-page}
use kubebrain.Tso.{Tso, get_revision}
use kubebrain.Scanner.Visible.{Ordered, HasRevision, entries_of, replaced, shown, visible}
use kubebrain.Scanner.Visible.Stored.{lookup_version, some→not_none}
use kubebrain.Scanner.Compaction.Visit.{key_of}
use kubebrain.Scanner.Partitions.{
  ScannerConfig, ScannerState, timed, raced, check_compact_race, check_compact_record, begin_scan,
  range, adjust_partitions_borders, sort_partitions, insert_partition, adjust_from, adjust_end,
}
use kubebrain.Scanner.Ranges.{range-limited}
use kubebrain.Scanner.Joined.{versions_of, range-unlimited}
use kubebrain.Scanner.Borders.Sorted.{IsSortedByStart}
use kubebrain.Scanner.Borders.{
  IsWhole, Follows, first_start, adjust_partitions_borders-Follows, revision_key-IsWhole,
  border-apart,
}

abbrev key_a : Bytes
key_a = b'a' ∷ []

abbrev pub old_version : KeyValue
old_version = record { key = key_a; value = 1 ∷ []; revision = 3 }

abbrev pub new_version : KeyValue
new_version = record { key = key_a; value = 2 ∷ []; revision = 5 }

abbrev pub versions : List KeyValue
versions = old_version ∷ new_version ∷ []

pub versions-IsSorted : IsSorted (entries_of versions)
unfolding cmp encode_object_key big_endian
versions-IsSorted = ((refl, tt), (tt, tt))

abbrev pub store : Store sorted_list
store = record { skl = (entries_of versions, versions-IsSorted); timers = []; clock = 9 }

abbrev pub engine : KvStorage
engine = mem_kv sorted_list

pub versions-Ordered : Ordered versions
versions-Ordered = ((inr (refl, omega arith), tt), (tt, tt))

pub versions-HasRevision : All HasRevision versions
versions-HasRevision = (omega arith, (omega arith, tt))

found_old : view sorted_list store (key_of old_version) ≡ some (1 ∷ [])
unfolding equal encode_object_key big_endian
found_old = refl

found_new : view sorted_list store (key_of new_version) ≡ some (2 ∷ [])
unfolding equal encode_object_key big_endian
found_new = refl

pub store_state : engine.State
unfolding mem_kv
store_state = store

pub versions-present :
    All (λ v. lookup_version ((mem_kv-Contents sorted_list).view store_state) v ≢ none) versions
unfolding mem_kv store_state
versions-present = (
  some→not_none (mem_kv-view sorted_list store_state (key_of old_version) ∙ found_old),
  (some→not_none (mem_kv-view sorted_list store_state (key_of new_version) ∙ found_new), tt),
)

abbrev config : ScannerConfig
config = record { compact_key = b'c' ∷ []; tombstone = tomb_stone_bytes; ttl = 60 }

abbrev scanner : ScannerState engine
scanner = record { compact_histories = []; kv = store_state }

abbrev start_key : Bytes
start_key = encode_object_key key_a 0

abbrev end_key : Bytes
end_key = encode_object_key (b'b' ∷ []) 0

begun : begin_scan engine config 4 false scanner.kv ≡ (some (9, none), store_state)
unfolding begin_scan timed raced check_compact_race check_compact_record mem_kv store_get
    store_state equal encode_object_key big_endian
begun = refl

iterated :
    engine.iter start_key end_key 9 0 store_state
    ≡ (listed (record { entries = entries_of versions; ends = none }), store_state)
unfolding mem_kv iter skip_before take_before cmp encode_object_key big_endian store_state
iterated = refl

range-limited_example :
    range engine config start_key end_key 4 2 scanner
    ≡ some (reply (take 2 (visible 4 tomb_stone_bytes versions)), scanner)
range-limited_example =
    range-limited engine config start_key end_key 4 2 9 scanner store_state store_state versions
      (omega arith) begun iterated versions-HasRevision versions-Ordered

abbrev whole : Partition
whole = record { start = start_key; end = end_key }

got_partitions :
    engine.get_partitions start_key end_key store_state ≡ ((whole ∷ [], none), store_state)
unfolding mem_kv
got_partitions = refl

adjusted : adjust_partitions_borders (whole ∷ []) ≡ some (whole ∷ [])
unfolding adjust_partitions_borders sort_partitions insert_partition adjust_from
adjusted = refl

range-unlimited_example :
    range engine config start_key end_key 4 0 scanner
    ≡ some (reply (visible 4 tomb_stone_bytes (versions_of ((whole, versions) ∷ []))), scanner)
range-unlimited_example =
    range-unlimited engine config 9 4 start_key end_key scanner store_state store_state store_state
      (whole ∷ []) ((whole, versions) ∷ []) begun got_partitions adjusted
      ((versions-HasRevision, versions-Ordered), tt) ((tt, (tt, tt)), tt)
      (store_state, iterated, refl)

-- a read at revision 4 sees the old version
visible_test : visible 4 tomb_stone_bytes versions ≡ old_version ∷ []
unfolding visible shown replaced equal
visible_test = refl

abbrev cut : List Partition
cut =
    record { start = encode_object_key key_a 4; end = end_key }
    ∷ record { start = start_key; end = encode_object_key key_a 4 }
    ∷ []

abbrev mended : List Partition
mended =
    record { start = start_key; end = encode_object_key key_a 0 }
    ∷ record { start = encode_object_key key_a 0; end = end_key }
    ∷ []

cut_adjusted : adjust_partitions_borders cut ≡ some mended
unfolding adjust_partitions_borders sort_partitions insert_partition adjust_from adjust_end cmp
    decode encode_object_key encode_revision_key big_endian big_endian_value equal
cut_adjusted = refl

adjust_partitions_borders-Follows_example :
    (rs : List Partition) × Perm rs cut × IsSortedByStart rs × Follows (first_start rs) rs mended
adjust_partitions_borders-Follows_example =
    adjust_partitions_borders-Follows cut mended cut_adjusted

border_before : cmp (encode_object_key key_a 5) (encode_object_key (b'b' ∷ []) 0) ≡ Ordering.lt
unfolding cmp encode_object_key big_endian
border_before = refl

border_from : cmp (encode_object_key (b'b' ∷ []) 3) (encode_object_key (b'b' ∷ []) 0) ≢ Ordering.lt
unfolding cmp encode_object_key big_endian
border_from h = ground (arith, h)

end_key-IsWhole : IsWhole end_key
unfolding encode_revision_key
end_key-IsWhole = revision_key-IsWhole (b'b' ∷ [])

end_key-IsByte : All IsByte end_key
unfolding encode_object_key big_endian
end_key-IsByte = (
  omega arith,
  (
    omega arith,
    (
      omega arith,
      (
        omega arith,
        (
          omega arith,
          (
            omega arith,
            (
              omega arith,
              (
                omega arith,
                (
                  omega arith,
                  (omega arith, (omega arith, (omega arith, (omega arith, (omega arith, tt))))),
                ),
              ),
            ),
          ),
        ),
      ),
    ),
  ),
)

border-apart_example : (b'b' ∷ []) ≢ key_a
border-apart_example =
    border-apart end_key (b'b' ∷ []) key_a (b'b' ∷ []) 0 5 3 end_key-IsWhole end_key-IsByte
      (decode-encode_object_key (b'b' ∷ []) 0 (omega arith)) (omega arith, tt) (omega arith, tt)
      (omega arith, tt) (omega arith) (omega arith) border_before border_from

abbrev tso : Tso
tso = record { committed_revision = 4; deal_revision = 4 }

ends_after : cmp key_a (b'b' ∷ []) ≡ Ordering.lt
unfolding cmp
ends_after = refl

begun_published :
    begin_scan engine config (read_revision 0 tso) false scanner.kv ≡ (some (9, none), store_state)
unfolding begin_scan timed raced check_compact_race check_compact_record mem_kv store_get
    store_state equal encode_object_key big_endian get_revision
begun_published = refl

-- at the published revision, which is 4
list_request-page_example :
    list_request engine config key_a (b'b' ∷ []) 0 2 tso scanner
    ≡ some (
      reply (record {
        header_revision = get_revision tso;
        more = ltb 2 (length (visible (read_revision 0 tso) tomb_stone_bytes versions));
        kvs = take 2 (visible (read_revision 0 tso) tomb_stone_bytes versions);
      }),
      scanner,
    )
list_request-page_example =
    list_request-page engine config key_a (b'b' ∷ []) 0 2 9 tso scanner store_state store_state
      versions (omega arith) (omega arith) (omega arith) ends_after begun_published iterated
      versions-HasRevision versions-Ordered
