-- ===== src/WatchCache/Tests.antt =====
-- Runs of the watch cache, and its theorems at a ring that has gone round.
use kubebrain.Base.{ℕ, ◌≡◌, refl, List, [], ◌∷◌, some, arith}
use kubebrain.Base.Search.{search_index}
use kubebrain.Message.{Event, Verb}
use kubebrain.WatchCache.{Ring, new_ring, add, no_ret, find_events, find_within}
use kubebrain.WatchCache.Contents.{Holds, add_all, last_n, add_all-new_ring}
use kubebrain.WatchCache.Find.{find_spec, find_events_lem}

abbrev event_at : ℕ → Event
event_at rev = record {
  verb = Verb.put;
  revision = rev;
  kv = record { key = b'k' ∷ []; value = []; revision = rev };
}

abbrev history : List Event
history = event_at 3 ∷ event_at 5 ∷ event_at 6 ∷ event_at 9 ∷ []

-- three slots, one of them written twice
abbrev wrapped : Ring
wrapped = record {
  s = 1;
  e = 4;
  l = 3;
  arr = some (event_at 9) ∷ some (event_at 5) ∷ some (event_at 6) ∷ [];
}

wrapped_run : add_all (new_ring 3) history ≡ wrapped
unfolding add_all new_ring add
wrapped_run = refl

find_six :
    find_events wrapped 6
    ≡ some (record no_ret {
      newest = some (event_at 9);
      oldest = some (event_at 5);
      events = some (event_at 6) ∷ some (event_at 9) ∷ [];
    })
unfolding find_events find_within search_index
find_six = refl

wrapped-Holds : Holds wrapped (event_at 5 ∷ event_at 6 ∷ event_at 9 ∷ [])
wrapped-Holds = record {
  slots = refl;
  room = omega arith;
  bound = omega arith;
  ends = refl;
  fresh = λ e. absurd (omega arith);
  window = (refl, (refl, (refl, tt)));
}

add_all-new_ring_example : Holds (add_all (new_ring 3) history) (last_n 3 history)
add_all-new_ring_example = add_all-new_ring 3 history (omega arith)

find_events_lem_example :
    find_events wrapped 6 ≡ some (find_spec (event_at 5 ∷ event_at 6 ∷ event_at 9 ∷ []) 6)
find_events_lem_example =
    find_events_lem (event_at 5 ∷ event_at 6 ∷ event_at 9 ∷ []) 6 wrapped-Holds (omega arith)
