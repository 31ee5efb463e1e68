-- ===== src/Sequencer.antt =====
-- The way of a write event to the watchers: `notify` of pkg/backend/txn.go puts it into a slot by its
-- revision, and `collectStorageWriteEvents` of pkg/backend/backend.go takes the slots in the order of
-- revisions into the watch cache, the retry queue and the watch channel.
pub mod Notify
pub mod Ordered
pub mod Pending
mod Tests
use kubebrain.Base.{
  ℕ, zero, suc, ◌+◌, ◌-◌, ◌%◌, List, [], ◌∷◌, ◌++◌, Option, none, some, Bool, true, false, length,
  ltb, leb, ◌==◌, if◌then◌else◌,
}
use kubebrain.Base.Bytes.{Bytes}
use kubebrain.Message.{Verb, Event}
use kubebrain.Storage.{Error, is_uncertain}
use kubebrain.Tso
use kubebrain.Tso.{Tso, uint64_mod, get_revision}
use kubebrain.WatchCache
use kubebrain.WatchCache.{Ring}
use kubebrain.RetryQueue
use kubebrain.RetryQueue.{EventQueue}
use kubebrain.Watch.{event_batch_size}

abbrev pub watchers_chan_capacity : ℕ
watchers_chan_capacity = 100000

-- common.WatchEvent; the resource type is never set
pub record WatchEvent : Type 0 where
  pub revision : ℕ
  pub prev_revision : ℕ
  pub resource_verb : Verb
  pub valid : Bool
  pub key : Bytes
  pub value : Bytes
  pub err : Option Error

abbrev pub Slots : Type 0
Slots = ℕ → Option WatchEvent

abbrev pub store_slot : ℕ → Option WatchEvent → Slots → Slots
store_slot i v slots j = if i == j then v else slots j

-- The part of the backend that a write event passes through. The channel is the list of the
-- batches sent on it.
pub record Pipeline : Type 0 where
  pub tso : Tso
  pub watch_events_ring_buffer : Slots
  pub watch_cache : Ring
  pub async_fifo_retry : EventQueue WatchEvent
  pub watch_chan : List (List Event)

-- The index of a uint64 taken as an int64: of one that is negative the remainder is not positive, and
-- an index below 0 panics.
unfoldable pub int64_slot : ℕ → Option ℕ
int64_slot revision =
    if ltb revision 9223372036854775808
    then some (revision % watchers_chan_capacity)
    else if (uint64_mod - revision) % watchers_chan_capacity == 0
    then some 0
    else none

-- `none` is the panic "watch push buffer full" or that of the index. The lag is a uint64, which wraps
-- for a revision that is behind the published one.
unfoldable pub notify :
    (key val : Bytes) (revision pre_revision : ℕ) (valid : Bool) (verb : Verb) (err : Option Error)
    → Pipeline
    → Option Pipeline
unfolding get_revision int64_slot
notify key val revision pre_revision valid verb err b =
    if revision == 0
    then some b
    else if leb watchers_chan_capacity ((revision + uint64_mod - get_revision b.tso) % uint64_mod)
    then none
    else elim (int64_slot revision) [
      | none ↦ none
      | some slot ↦ some (record b {
        watch_events_ring_buffer =
            store_slot slot
              (some (record {
                revision = revision;
                prev_revision = pre_revision;
                resource_verb = verb;
                valid = valid;
                key = key;
                value = val;
                err = err;
              }))
              b.watch_events_ring_buffer;
      })
    ]

-- The event that the watchers see: of a delete, the revision of the deleted value.
unfoldable pub proto_event : WatchEvent → Event
proto_event w = record {
  verb = w.resource_verb;
  revision = w.revision;
  kv = record {
    key = w.key;
    value = w.value;
    revision = elim w.resource_verb [ Verb.delete ↦ w.prev_revision | _ ↦ w.revision ];
  };
}

abbrev pub needs_retry : Option Error → Bool
needs_retry none = false
needs_retry (some e) = is_uncertain e

-- The slot of the revision behind the published one.
unfoldable pub load_next : Pipeline → Option WatchEvent
unfolding get_revision
load_next b =
    b.watch_events_ring_buffer ((get_revision b.tso + 1) % uint64_mod % watchers_chan_capacity)

-- The body of the inner loop for a loaded event: its slot is cleared; an invalid event goes to the
-- retry queue if its error is uncertain, before its revision is published; a valid one is published
-- and goes to the cache.
unfoldable pub take_event : (now : ℕ) → WatchEvent → Pipeline → Pipeline
unfolding proto_event
take_event now w b =
    let slots = store_slot (w.revision % watchers_chan_capacity) none b.watch_events_ring_buffer in
    let tso = Tso.commit w.revision b.tso in
    if w.valid
    then record b {
      tso = tso;
      watch_events_ring_buffer = slots;
      watch_cache = WatchCache.add b.watch_cache (proto_event w);
    }
    else record b {
      tso = tso;
      watch_events_ring_buffer = slots;
      async_fifo_retry =
          if needs_retry w.err
          then RetryQueue.push w now b.async_fifo_retry
          else b.async_fifo_retry;
    }

-- The inner loop: up to a full batch of valid events, as long as the next slot is filled; as long as
-- the batch is empty, an empty slot is looked at again. The events of the batch come back beside the
-- pipeline; `none` is a loop that did not end on this fuel, and with no write beside it a loop that
-- waits for a valid event does not end.
unfoldable pub collect : ℕ → (cnt now : ℕ) → Pipeline → Option (Pipeline × List Event)
unfolding load_next take_event
collect zero cnt now b = none
collect (suc fuel) cnt now b = elim (ltb cnt event_batch_size) [
  | false ↦ some (b, [])
  | true ↦ elim (load_next b) [
    | none ↦ elim (cnt == 0) [ true ↦ collect fuel cnt now b | false ↦ some (b, []) ]
    | some w ↦ elim w.valid [
      | false ↦ collect fuel cnt now (take_event now w b)
      | true ↦ elim (collect fuel (cnt + 1) now (take_event now w b)) [
        | none ↦ none
        | some (b', events) ↦ some (b', proto_event w ∷ events)
      ]
    ]
  ]
]

-- The channel once a batch is sent: one that is not empty.
abbrev pub sent : List (List Event) → List Event → List (List Event)
sent chan [] = chan
sent chan (e ∷ events) = chan ++ (e ∷ events) ∷ []

-- One round of the outer loop.
unfoldable pub collect_round : (fuel now : ℕ) → Pipeline → Option Pipeline
unfolding collect
collect_round fuel now b = elim (collect fuel 0 now b) [
  | none ↦ none
  | some (b', events) ↦ some (record b' { watch_chan = sent b'.watch_chan events })
]
