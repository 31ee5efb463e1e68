-- ===== src/Etcd/Watcher.antt =====
-- pkg/server/etcd/watch.go: a watcher, that is one stream of a client with its watches. What is sent
-- on the stream is a list. Whether a send succeeds is given, by the number of the sends before it.
-- Each step is one hold of the lock or one message; the goroutines of the watches take their steps
-- in any order.
use kubebrain.Base.{
  ℕ, ◌+◌, ◌-◌, ◌%◌, ◌^◌, List, [], ◌∷◌, ◌++◌, Option, none, some, Bool, true, false, not, ltb, ◌==◌,
  if◌then◌else◌,
}
use kubebrain.Base.Bytes.{Bytes, has_prefix}
use kubebrain.Etcd.Message.{EtcdEvent, event_put, WatchResponse}
use kubebrain.Etcd.Shim.{StreamResponse}
use kubebrain.Etcd.Kv.{get_partition_magic}

pub record WatchInfo : Type 0 where
  pub start : Bytes
  pub end : Bytes

-- `watches` is the map by the id, each id once; `sent` is what was sent, `sends` the number of tries;
-- `next_id` is the counter that all watchers share.
pub record Watcher : Type 0 where
  pub watches : List (ℕ × WatchInfo)
  pub next_id : ℕ
  pub sent : List WatchResponse
  pub sends : ℕ

pub record WatchCreateRequest : Type 0 where
  pub key : Bytes
  pub range_end : Bytes
  pub start_revision : ℕ

abbrev pub new_watcher : (next_id : ℕ) → Watcher
new_watcher next_id = record { watches = []; next_id = next_id; sent = []; sends = 0 }

-- Whether a send succeeds, and the watcher after it.
unfoldable pub send : (ℕ → Bool) → WatchResponse → Watcher → Bool × Watcher
send ok m w =
    if ok w.sends
    then (true, record w { sent = w.sent ++ m ∷ []; sends = w.sends + 1 })
    else (false, record w { sends = w.sends + 1 })

unfoldable pub delete_watch : (id : ℕ) → List (ℕ × WatchInfo) → List (ℕ × WatchInfo)
delete_watch id [] = []
delete_watch id ((j, x) ∷ watches) =
    let rest = delete_watch id watches in if j == id then rest else (j, x) ∷ rest

abbrev pub created_response : ℕ → WatchResponse
created_response id = record {
  header_revision = 0;
  watch_id = id;
  created = true;
  canceled = false;
  compact_revision = 0;
  events = [];
}

-- With compact revision 1 the client lists anew, with 0 it only watches anew.
abbrev pub canceled_response : (id : ℕ) (compact : Bool) → WatchResponse
canceled_response id compact = record {
  header_revision = 0;
  watch_id = id;
  created = false;
  canceled = true;
  compact_revision = if compact then 1 else 0;
  events = [];
}

unfoldable pub cancel : (ℕ → Bool) → (id : ℕ) (compact : Bool) → Watcher → Watcher
unfolding send delete_watch
cancel ok id compact w =
    (send ok (canceled_response id compact) (record w { watches = delete_watch id w.watches })).1

-- What `Start` leaves to run: nothing, a list by stream, or a watch.
pub data Started : Type 0 where
  nothing : Started
  listing : (id : ℕ) → Started
  watching : (id : ℕ) → Started

-- a negative int64
abbrev pub is_negative : ℕ → Bool
is_negative n = not (ltb n (2 ^ 63))

unfoldable pub start_sent :
    (id : ℕ) → WatchCreateRequest → Bool × Watcher → (ℕ → Bool) → Started × Watcher
unfolding cancel
start_sent id r (false, w) ok = (nothing, cancel ok id false w)
start_sent id r (true, w) ok = (if is_negative r.start_revision then listing id else watching id, w)

unfoldable pub start_watch : (ℕ → Bool) → WatchCreateRequest → Watcher → Started × Watcher
unfolding send start_sent
start_watch ok r w =
    let id = w.next_id + 1 in
    start_sent id r
      (send ok (created_response id) (record w {
        watches = (id, record { start = r.key; end = r.range_end }) ∷ w.watches;
        next_id = id;
      }))
      ok

-- Only a key that starts with a slash is watched.
unfoldable pub is_pure_watch_request : WatchCreateRequest → Bool
is_pure_watch_request r = has_prefix r.key (b'/' ∷ [])

-- The revision of the last event.
abbrev pub last_revision : ℕ → List EtcdEvent → ℕ
last_revision r [] = r
last_revision r (e ∷ es) = last_revision e.kv.mod_revision es

abbrev pub events_response : (id : ℕ) → List EtcdEvent → WatchResponse
events_response id es = record {
  header_revision = last_revision 0 es;
  watch_id = id;
  created = false;
  canceled = false;
  compact_revision = 0;
  events = es;
}

-- The loop over the batches of a watch: after a failed send the rest is only taken off the channel.
unfoldable pub push_batches :
    (ℕ → Bool) → (id : ℕ) (send_err : Bool) → List (List EtcdEvent) → Watcher → Watcher
unfolding send cancel
push_batches ok id send_err [] w = w
push_batches ok id true (es ∷ ess) w = push_batches ok id true ess w
push_batches ok id false ([] ∷ ess) w = push_batches ok id false ess w
push_batches ok id false ((e ∷ es) ∷ ess) w =
    let (is_sent, w') = send ok (events_response id (e ∷ es)) w in
    elim is_sent [
      | true ↦ push_batches ok id false ess w'
      | false ↦ push_batches ok id true ess (cancel ok id false w')
    ]

-- `Watch`, with what the backend's channel delivers until it is closed; `none` is an error of the
-- backend.
unfoldable pub run_watch :
    (ℕ → Bool) → (id : ℕ) → WatchCreateRequest → Option (List (List EtcdEvent)) → Watcher → Watcher
unfolding cancel push_batches is_pure_watch_request
run_watch ok id r batches w =
    if not (is_pure_watch_request r) then cancel ok id true w else elim batches [
      | none ↦ cancel ok id true w
      | some ess ↦ cancel ok id false (push_batches ok id false ess w)
    ]

-- The sign of an int64 changed.
abbrev pub negated : ℕ → ℕ
negated n = (2 ^ 64 - n) % 2 ^ 64

-- The last message of a list by stream: revision -1, and one event that tells the error.
abbrev pub eof_event : (reason : Bytes) → EtcdEvent
eof_event reason = record {
  event_type = event_put;
  kv = record {
    key = b'e' ∷ b'o' ∷ b'f' ∷ [];
    value = reason;
    mod_revision = get_partition_magic;
    create_revision = 0;
  };
  prev_kv = [];
}

-- `reason` is the text of an error, empty for none.
unfoldable pub list_stream_message :
    (reason : StreamResponse → Bytes) → (id start_revision : ℕ) → StreamResponse → WatchResponse
list_stream_message reason id start_revision r = record {
  header_revision = if r.canceled then negated 1 else negated start_revision;
  watch_id = id;
  created = false;
  canceled = false;
  compact_revision = 0;
  events = if r.canceled then eof_event (reason r) ∷ [] else r.events;
}

unfoldable pub push_stream :
    (reason : StreamResponse → Bytes) (ok : ℕ → Bool) (id start_revision : ℕ)
    → List StreamResponse
    → Watcher
    → Watcher
unfolding send cancel list_stream_message
push_stream reason ok id start_revision [] w = w
push_stream reason ok id start_revision (r ∷ rs) w =
    let (is_sent, w') = send ok (list_stream_message reason id start_revision r) w in
    elim is_sent [
      | true ↦ push_stream reason ok id start_revision rs w'
      | false ↦ push_stream reason ok id start_revision rs (cancel ok id true w')
    ]

-- `List`, once the read revision is synced: in the end the watch is forgotten, without a message.
unfoldable pub run_list :
    (reason : StreamResponse → Bytes) (ok : ℕ → Bool) (id start_revision : ℕ)
    → Option (List StreamResponse)
    → Watcher
    → Watcher
unfolding cancel push_stream delete_watch
run_list reason ok id start_revision none w = cancel ok id true w
run_list reason ok id start_revision (some rs) w =
    let w' = push_stream reason ok id start_revision rs w in
    record w' { watches = delete_watch id w'.watches }
