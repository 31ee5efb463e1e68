-- ===== src/Watch.antt =====
-- pkg/backend/watch.go: how a watch starts (from the cache, or from now on), what it replays, and
-- how it filters the broadcast batches. A channel is the list of what is sent on it.
pub mod Batches
pub mod Filters
mod Started
pub mod Delivery
mod Tests
use kubebrain.Base.{
  ℕ, zero, suc, ◌+◌, ◌*◌, ◌-◌, ◌/◌, ◌%◌, List, [], ◌∷◌, Option, none, some, Bool, true, false,
  length, take, drop, ltb, ◌==◌, if◌then◌else◌,
}
use kubebrain.Base.Bytes.{Bytes, has_prefix}
use kubebrain.Message.{Event}
use kubebrain.Tso.{Tso, get_revision, uint64_mod}
use kubebrain.WatchCache.{Ring, FindRet, find_events}

abbrev pub event_batch_size : ℕ
event_batch_size = 300

abbrev pub result_chan_length : ℕ
result_chan_length = 100

unfoldable pub filter_by_prefix : List Event → Bytes → List Event
filter_by_prefix [] prefix = []
filter_by_prefix (event ∷ events) prefix =
    let rest = filter_by_prefix events prefix in
    if has_prefix event.kv.key prefix then event ∷ rest else rest

-- Only the head of the batch is looked at: the events of a batch have increasing revisions.
unfoldable pub filter_by_revision : List Event → ℕ → List Event
filter_by_revision [] rev = []
filter_by_revision (event ∷ events) rev =
    let rest = filter_by_revision events rev in
    if ltb event.revision rev then rest else event ∷ events

-- Larger batches for a long history, so that the result channel takes all of it.
unfoldable pub batch_size : List Event → ℕ
batch_size events =
    if ltb (result_chan_length * event_batch_size) (length events)
    then length events / (result_chan_length - 1)
    else event_batch_size

-- The loop of `catchUpEvents`: the batches that it sends. `none` is a loop that did not end.
unfoldable pub send_batches : ℕ → ℕ → List Event → Option (List (List Event))
send_batches zero size events = none
send_batches (suc fuel) size events = elim (ltb size (length events)) [
  | false ↦ some (events ∷ [])
  | true ↦ elim (send_batches fuel size (drop size events)) [
    | none ↦ none
    | some batches ↦ some (take size events ∷ batches)
  ]
]

-- Every round but the last sends an event at least, so this fuel is enough.
unfoldable pub catch_up_events : List Event → Option (List (List Event))
unfolding batch_size send_batches
catch_up_events events = send_batches (suc (length events)) (batch_size events) events

-- `processEvents`: the batches passed on, of those received.
unfoldable pub process_events : List (List Event) → Bytes → ℕ → List (List Event)
unfolding filter_by_prefix filter_by_revision
process_events [] prefix revision = []
process_events (events ∷ input) prefix revision =
    let evs = filter_by_prefix (filter_by_revision events revision) prefix in
    let rest = process_events input prefix revision in
    if ltb 0 (length evs) then evs ∷ rest else rest

-- What Watch returns: an error, or a channel with the batches already sent on it, behind which the
-- batches of the hub follow, filtered from a revision on.
pub data WatchRet : Type 0 where
  streaming : (sent : List (List Event)) (from : ℕ) → WatchRet
  empty_cache : WatchRet
  too_old : WatchRet

-- dereferencing the events of the cache; nil panics
unfoldable pub deref : List (Option Event) → Option (List Event)
deref [] = some []
deref (none ∷ events) = none
deref (some ev ∷ events) = elim (deref events) [ none ↦ none | some evs ↦ some (ev ∷ evs) ]

-- The replay of the cached events from the requested revision on.
unfoldable pub replay : List Event → ℕ → ℕ → Option WatchRet
unfolding catch_up_events
replay events newest_revision revision =
    if ltb 0 (length events)
    then elim (catch_up_events events) [
      | none ↦ none
      | some batches ↦ some (streaming batches ((newest_revision + 1) % uint64_mod))
    ]
    else some (streaming [] revision)

-- What Watch does with the answer of the cache.
unfoldable pub start_from : FindRet → Tso → Bytes → ℕ → Option WatchRet
unfolding replay deref filter_by_prefix get_revision
start_from ret tso prefix revision =
    if ret.empty
    then (if ltb (get_revision tso) revision
        then some (streaming [] revision)
        else some empty_cache)
    else if ret.high
    then some (streaming [] revision)
    else if ret.low
    then some too_old
    else elim (deref ret.events) [
      | none ↦ none
      | some events ↦ elim ret.newest [
        | none ↦ none
        | some new ↦ replay (filter_by_prefix events prefix) new.revision revision
      ]
    ]

unfoldable pub watch : Ring → Tso → Bytes → ℕ → Option WatchRet
unfolding start_from
watch cache tso prefix revision =
    if revision == 0 then some (streaming [] revision) else elim (find_events cache revision) [
      | none ↦ none
      | some ret ↦ start_from ret tso prefix revision
    ]
