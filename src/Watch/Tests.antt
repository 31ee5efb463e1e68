-- ===== src/Watch/Tests.antt =====
-- A watch on a cache that has lost its first event, and the theorems at it.
use kubebrain.Base.{ℕ, ◌≤◌, ◌≡◌, refl, List, [], ◌∷◌, ◌++◌, some, arith, length, concat}
use kubebrain.Base.Bytes.{has_prefix}
use kubebrain.Base.Search.{search_index}
use kubebrain.Message.{Event, Verb}
use kubebrain.Tso.{Tso}
use kubebrain.WatchCache.{Ring, find_events}
use kubebrain.WatchCache.Contents.{Holds, last_n}
use kubebrain.Watch.{streaming, result_chan_length, catch_up_events, process_events, watch}
use kubebrain.Watch.Batches.{catch_up_events_lem}
use kubebrain.Watch.Filters.{watched, process_events_lem}
use kubebrain.Watch.Delivery.{watch_delivers}

abbrev event_at : ℕ → ℕ → Event
event_at first rev = record {
  verb = Verb.create;
  revision = rev;
  kv = record { key = first ∷ []; value = []; revision = rev };
}

abbrev past : List Event
past = event_at b'a' 1 ∷ event_at b'a' 2 ∷ event_at b'b' 3 ∷ []

abbrev future : List Event
future = event_at b'b' 4 ∷ event_at b'a' 5 ∷ []

abbrev cache : Ring
cache = record { s = 1; e = 3; l = 2; arr = some (event_at b'b' 3) ∷ some (event_at b'a' 2) ∷ [] }

abbrev tso : Tso
tso = record { committed_revision = 3; deal_revision = 3 }

-- the broadcast begins inside the past
abbrev stream : List (List Event)
stream = (event_at b'b' 3 ∷ event_at b'b' 4 ∷ []) ∷ (event_at b'a' 5 ∷ []) ∷ []

cache-Holds : Holds cache (last_n 2 past)
unfolding last_n
cache-Holds = record {
  slots = refl;
  room = omega arith;
  bound = omega arith;
  ends = refl;
  fresh = λ e. absurd (omega arith);
  window = (refl, (refl, tt));
}

watch_run : watch cache tso (b'a' ∷ []) 2 ≡ some (streaming ((event_at b'a' 2 ∷ []) ∷ []) 4)
unfolding watch find_events search_index has_prefix
watch_run = refl

delivered_run : process_events stream (b'a' ∷ []) 4 ≡ (event_at b'a' 5 ∷ []) ∷ []
unfolding process_events has_prefix
delivered_run = refl

catch_up_events_lem_example :
    (batches : List (List Event)) × (catch_up_events past ≡ some batches)
    × (concat batches ≡ past)
    × (length batches ≤ result_chan_length)
catch_up_events_lem_example = catch_up_events_lem past

process_events_lem_example :
    concat (process_events stream (b'a' ∷ []) 4) ≡ watched (b'a' ∷ []) 4 (event_at b'b' 3 ∷ future)
process_events_lem_example = process_events_lem stream (b'a' ∷ []) 4 (omega arith)

watch_delivers_example :
    concat ((event_at b'a' 2 ∷ []) ∷ []) ++ concat (process_events stream (b'a' ∷ []) 4)
    ≡ watched (b'a' ∷ []) 2 (past ++ future)
watch_delivers_example =
    watch_delivers cache tso (b'a' ∷ []) 2 4 2 past future stream ((event_at b'a' 2 ∷ []) ∷ [])
      cache-Holds (omega arith) (omega arith) (omega arith) refl (omega arith) watch_run
