-- ===== src/WatcherHub.antt =====
-- pkg/backend/watcherhub.go: the subscribers of the broadcast. A channel is an address with what waits
-- in it. The goroutines that wait for a context, or delete a slow subscriber, are calls of
-- delete_watcher that come later.
pub mod Broadcast
pub mod Members
mod Tests
use kubebrain.Base.{
  ℕ, ◌+◌, List, [], ◌∷◌, ◌++◌, Option, none, some, Bool, true, false, ◌||◌, length, ltb, ◌==◌,
  if◌then◌else◌,
}
use kubebrain.Message.{Event}

abbrev pub watch_buffer : ℕ
watch_buffer = 10000

pub record Chan : Type 0 where
  pub queue : List (List Event)
  pub closed : Bool

abbrev pub Chans : Type 0
Chans = ℕ → Chan

abbrev pub set_chan : ℕ → Chan → Chans → Chans
set_chan i c chans j = if i == j then c else chans j

-- `subs` are the keys of the map; `next` is the address of the next channel.
pub record WatcherHub : Type 0 where
  pub subs : List ℕ
  pub chans : Chans
  pub next : ℕ

abbrev pub subscribed : ℕ → List ℕ → Bool
subscribed i [] = false
subscribed i (j ∷ subs) = i == j || subscribed i subs

abbrev pub without : ℕ → List ℕ → List ℕ
without i [] = []
without i (j ∷ subs) = let rest = without i subs in if i == j then rest else j ∷ rest

unfoldable pub add_watcher : WatcherHub → WatcherHub × ℕ
add_watcher w = (
  record {
    subs = w.next ∷ w.subs;
    chans = set_chan w.next (record { queue = []; closed = false }) w.chans;
    next = w.next + 1;
  },
  w.next,
)

unfoldable pub delete_watcher : ℕ → WatcherHub → WatcherHub
delete_watcher sub w =
    if subscribed sub w.subs
    then record w {
      subs = without sub w.subs;
      chans = set_chan sub (record (w.chans sub) { closed = true }) w.chans;
    }
    else w

-- The loop over the subscribers, with those that are dropped as too slow; `none` is the panic of a
-- send on a closed channel.
unfoldable pub push_all : List Event → List ℕ → Chans → Option (Chans × List ℕ)
push_all item [] chans = some (chans, [])
push_all item (sub ∷ subs) chans = elim (chans sub).closed [
  | true ↦ none
  | false ↦ elim (ltb (length (chans sub).queue) watch_buffer) [
    | true ↦
        push_all item subs
          (set_chan sub (record (chans sub) { queue = (chans sub).queue ++ item ∷ [] }) chans)
    | false ↦ elim (push_all item subs chans) [
      | none ↦ none
      | some (chans', slow) ↦ some (chans', sub ∷ slow)
    ]
  ]
]

-- `Stream` for one item of its input.
unfoldable pub stream_item : List Event → WatcherHub → Option (WatcherHub × List ℕ)
unfolding push_all
stream_item item w = elim (push_all item w.subs w.chans) [
  | none ↦ none
  | some (chans, slow) ↦ some (record w { chans = chans }, slow)
]

unfoldable pub delete_all : List ℕ → WatcherHub → WatcherHub
unfolding delete_watcher
delete_all [] w = w
delete_all (sub ∷ subs) w = delete_all subs (delete_watcher sub w)

-- `Stream` after its input is closed.
unfoldable pub close_all : WatcherHub → WatcherHub
unfolding delete_all
close_all w = delete_all w.subs w
