-- ===== src/MemKv.antt =====
-- pkg/storage/memkv: the engine in memory, over a skip list of a third party. The lock is held from
-- BeginBatchWrite to Commit, so a batch is one step; a put with a lifetime starts a timer that
-- deletes the key later.
pub mod Refine
pub mod Engine
pub mod SortedList
mod Tests
use mathlib.Core.List.{reverse}
use kubebrain.Base.{
  ℕ, zero, suc, ◌+◌, ◌≡◌, List, [], ◌∷◌, ◌++◌, Option, none, some, Bool, true, false, not, ◌==◌,
  if◌then◌else◌, Ordering, All,
}
use kubebrain.Base.Bytes.{Bytes, cmp, equal}
use kubebrain.Storage.{
  Error, cas_failed, conflict, BatchOp, put_if_not_exist, cas, put, del, del_current, Fetch, found,
  fetch_failed, key_not_found, Entry, Listing, Iterated, listed, KvStorage, or_nil,
}

abbrev pub same_ordering : Ordering → Ordering → Bool
same_ordering Ordering.lt Ordering.lt = true
same_ordering Ordering.eq Ordering.eq = true
same_ordering Ordering.gt Ordering.gt = true
same_ordering _ _ = false

-- Keys increase along the list.
abbrev pub IsSorted : List Entry → Type 0
IsSorted [] = Unit
IsSorted (x ∷ xs) = All (λ y. cmp x.0 y.0 ≡ Ordering.lt) xs × IsSorted xs

abbrev pub find : Bytes → List Entry → Option Bytes
find key [] = none
find key ((j, v) ∷ entries) = if equal j key then some v else find key entries

-- What the engine relies on of github.com/huandu/skiplist: a map from keys to values whose elements
-- stand in the order of their keys.
pub record SkipList : Type 1 where
  pub List' : Type 0
  pub get : List' → Bytes → Option Bytes
  pub set : Bytes → Bytes → List' → List'
  pub remove : Bytes → List' → List'
  pub get-set :
      (key val : Bytes) (l : List') (j : Bytes)
      → get (set key val l) j ≡ (if equal key j then some val else get l j)
  pub get-remove :
      (key : Bytes) (l : List') (j : Bytes)
      → get (remove key l) j ≡ (if equal key j then none else get l j)
  -- by Next from the front on
  pub elements : List' → List Entry
  pub elements-IsSorted : (l : List') → IsSorted (elements l)
  pub elements-get : (l : List') (key : Bytes) → find key (elements l) ≡ get l key

pub record CacheVal : Type 0 where
  pub is_deleted : Bool
  pub val : Option Bytes
  pub ttl : ℕ

-- Go's map[string]cacheVal
abbrev pub Cache : Type 0
Cache = List (Bytes × CacheVal)

unfoldable pub lookup : Bytes → Cache → Option CacheVal
lookup key [] = none
lookup key ((j, v) ∷ cache) = if equal j key then some v else lookup key cache

unfoldable pub insert : Bytes → CacheVal → Cache → Cache
insert key v [] = (key, v) ∷ []
insert key v ((j, w) ∷ cache) = if equal j key then (j, v) ∷ cache else (j, w) ∷ insert key v cache

module _ (sl : SkipList) where
  -- the list, the keys that timers will delete, with the seconds that they wait, and time.Now
  pub record Store : Type 0 where
    pub skl : sl.List'
    pub timers : List (Bytes × ℕ)
    pub clock : ℕ

  pub record Batch : Type 0 where
    pub store : Store
    pub err : Option Error
    pub cache : Cache
    pub op_count : ℕ

  unfoldable pub begin_batch_write : Store → Batch
  begin_batch_write s = record { store = s; err = none; cache = []; op_count = 0 }

  -- `batch.get`: nil for a key that the batch has deleted
  unfoldable pub batch_get : Batch → Bytes → Option Bytes
  unfolding lookup
  batch_get b key = elim (lookup key b.cache) [ none ↦ sl.get b.store.skl key | some v ↦ v.val ]

  abbrev pub write : Bytes → CacheVal → Batch → Batch
  write key v b = record b { cache = insert key v b.cache; op_count = b.op_count + 1 }

  abbrev pub live : Bytes → ℕ → CacheVal
  live val ttl = record { is_deleted = false; val = some val; ttl = ttl }

  abbrev pub deleted : CacheVal
  deleted = record { is_deleted = true; val = none; ttl = 0 }

  -- The operations, on a batch with no error yet. A compare that fails sets the error and, but for
  -- the missing key, goes on to write.
  unfoldable pub batch_step : BatchOp → Batch → Batch
  unfolding batch_get insert
  batch_step (put_if_not_exist key val ttl) b = elim (batch_get b key) [
    | some old ↦ record b { err = some (conflict b.op_count key (some old)) }
    | none ↦ write key (live val ttl) b
  ]
  batch_step (cas key new_val old_val ttl) b = elim (batch_get b key) [
    | none ↦ record b { err = some (conflict b.op_count key none) }
    | some val ↦ write key (live new_val ttl) (
        if equal val old_val
        then b
        else record b { err = some (conflict b.op_count key (some old_val)) })
  ]
  batch_step (put key val ttl) b = write key (live val ttl) b
  batch_step (del key) b = write key deleted b
  batch_step (del_current key val) b =
      write key deleted
        (if equal (or_nil (batch_get b key)) val then b else record b { err = some cas_failed })

  unfoldable pub batch_op : BatchOp → Batch → Batch
  unfolding batch_step
  batch_op op b = elim b.err [ some e ↦ b | none ↦ batch_step op b ]

  unfoldable pub batch_ops : List BatchOp → Batch → Batch
  unfolding batch_op
  batch_ops [] b = b
  batch_ops (op ∷ ops) b = batch_ops ops (batch_op op b)

  unfoldable pub flush_entry : Bytes × CacheVal → Store → Store
  flush_entry (key, v) s =
      if v.is_deleted then record s { skl = sl.remove key s.skl } else elim v.val [
        | none ↦ s
        | some val ↦ record s {
          skl = sl.set key val s.skl;
          timers = if v.ttl == 0 then s.timers else (key, v.ttl) ∷ s.timers;
        }
      ]

  -- The cache has each key once, so the order in which the map is walked does not matter.
  unfoldable pub flush : Cache → Store → Store
  unfolding flush_entry
  flush [] s = s
  flush (entry ∷ cache) s = flush_entry entry (flush cache s)

  unfoldable pub batch_commit : Batch → Option Error × Store
  unfolding flush
  batch_commit b = elim b.err [ some e ↦ (some e, b.store) | none ↦ (none, flush b.cache b.store) ]

  unfoldable pub commit : List BatchOp → Store → Option Error × Store
  unfolding begin_batch_write batch_ops batch_commit
  commit ops s = batch_commit (batch_ops ops (begin_batch_write s))

  unfoldable pub store_get : Bytes → Store → Fetch × Store
  store_get key s =
      (elim (sl.get s.skl key) [ none ↦ fetch_failed key_not_found | some v ↦ found v ], s)

-- The walk of `iter.init`: the elements from the first that is not before `start`, in the order of
-- the walk, as long as they are before `end`.
unfoldable pub skip_before : Ordering → Bytes → List Entry → List Entry
skip_before before start [] = []
skip_before before start ((k, v) ∷ entries) =
    let rest = skip_before before start entries in
    if same_ordering (cmp k start) before then rest else (k, v) ∷ entries

unfoldable pub take_before : Ordering → Bytes → List Entry → List Entry
take_before before end [] = []
take_before before end ((k, v) ∷ entries) =
    let rest = take_before before end entries in
    if same_ordering (cmp k end) before then (k, v) ∷ rest else []

module _ (sl : SkipList) where
  -- Ascending if `start` is before `end`, else descending. The limit is kept in the iterator and
  -- read nowhere.
  unfoldable pub iter : (start end : Bytes) (limit : ℕ) → Store sl → List Entry
  unfolding skip_before take_before
  iter start end limit s = elim (cmp start end) [
    | Ordering.lt ↦ take_before Ordering.lt end (skip_before Ordering.lt start (sl.elements s.skl))
    | _ ↦ take_before Ordering.gt end (skip_before Ordering.gt start (reverse (sl.elements s.skl)))
  ]

  -- What the timers' function does when it runs.
  unfoldable pub async_removed : Bytes → Store sl → Store sl
  unfolding commit
  async_removed key s = (commit sl (del key ∷ []) s).1

  -- memkv as a storage engine; its timestamp is the clock's and selects nothing
  unfoldable pub mem_kv : KvStorage
  unfolding commit store_get iter
  mem_kv = record {
    State = Store sl;
    get = store_get sl;
    iter = λ start end timestamp limit s.
        (listed (record { entries = iter start end limit s; ends = none }), s);
    commit = commit sl;
    support_ttl = true;
    get_timestamp_oracle = λ s. ((s.clock, none), s);
    get_partitions = λ start end s. ((record { start = start; end = end } ∷ [], none), s);
    del = λ key. commit sl (del key ∷ []);
    del_current = λ entry. commit sl (del_current entry.0 entry.1 ∷ []);
  }
