-- ===== src/WatcherHub/Tests.antt =====
-- A hub with a subscriber that has room, and a channel that was deleted.
use kubebrain.Base.{
  ℕ, ◌≡◌, ◌&&◌, refl, List, [], ◌∷◌, some, true, false, not, ◌==◌, if◌then◌else◌, arith,
}
use kubebrain.Message.{Event, Verb}
use kubebrain.WatcherHub.{WatcherHub, subscribed, stream_item}
use kubebrain.WatcherHub.Broadcast.{IsLive, has_room, received, stream_item_lem}

abbrev hub : WatcherHub
hub = record {
  subs = 1 ∷ [];
  chans = λ i.
      if i == 1
      then record { queue = []; closed = false }
      else record { queue = []; closed = true };
  next = 2;
}

hub-IsLive : IsLive hub
hub-IsLive = record { open_ = (refl, tt); known = (omega arith, tt); distinct = (refl, tt) }

abbrev item : List Event
item =
    record {
      verb = Verb.put;
      revision = 5;
      kv = record { key = b'k' ∷ []; value = []; revision = 5 };
    }
    ∷ []

stream_item_lem_example :
    (w' : WatcherHub) × (slow : List ℕ) × (stream_item item hub ≡ some (w', slow))
    × IsLive w'
    × (w'.subs ≡ hub.subs)
    × (w'.chans 1 ≡ received item (subscribed 1 hub.subs && has_room (hub.chans 1)) (hub.chans 1))
    × (subscribed 1 slow ≡ (subscribed 1 hub.subs && not (has_room (hub.chans 1))))
stream_item_lem_example = stream_item_lem item hub 1 hub-IsLive
