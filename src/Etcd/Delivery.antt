-- ===== src/Etcd/Delivery.antt =====
-- What a watch of pkg/server/etcd/watch.go sends on the stream of its client.
use kubebrain.Base.{
  ℕ, ◌+◌, ◌≡◌, refl, List, [], ◌∷◌, ◌++◌, append-nil, append_assoc, concat, Option, some, none,
  Bool, true, false, ap, ◌∙◌, sym, ◌≢◌, ◌==◌, if◌then◌else◌, Bool-cases, inl, inr, arith,
}
use kubebrain.Etcd.Message.{EtcdEvent, WatchResponse}
use kubebrain.Etcd.Watcher.{
  Watcher, WatchInfo, WatchCreateRequest, last_revision, send, delete_watch, canceled_response,
  cancel, events_response, push_batches, run_watch, is_pure_watch_request,
}

-- The revision of the last one of some events, of which `e` is the first.
unfoldable pub newest_of : EtcdEvent → List EtcdEvent → ℕ
newest_of e [] = e.kv.mod_revision
newest_of e (e' ∷ es) = newest_of e' es

-- One message for each batch that is not empty.
unfoldable pub messages : (id : ℕ) → List (List EtcdEvent) → List WatchResponse
unfolding newest_of
messages id [] = []
messages id ([] ∷ ess) = messages id ess
messages id ((e ∷ es) ∷ ess) =
    record {
      header_revision = newest_of e es;
      watch_id = id;
      created = false;
      canceled = false;
      compact_revision = 0;
      events = e ∷ es;
    }
    ∷ messages id ess

-- The last message: the watch is over, and the client need not list anew.
abbrev pub end_message : ℕ → WatchResponse
end_message id = record {
  header_revision = 0;
  watch_id = id;
  created = false;
  canceled = true;
  compact_revision = 0;
  events = [];
}

-- what is known of a watch
unfoldable pub find_watch : (id : ℕ) → List (ℕ × WatchInfo) → Option WatchInfo
find_watch id [] = none
find_watch id ((j, x) ∷ watches) = if j == id then some x else find_watch id watches

find_watch-deleted :
    (id : ℕ) (ws : List (ℕ × WatchInfo)) → find_watch id (delete_watch id ws) ≡ none
unfolding find_watch delete_watch
find_watch-deleted id [] = refl
find_watch-deleted id ((j, x) ∷ ws) = elim (Bool-cases (j == id)) [
  | inl same ↦ rw same (find_watch-deleted id ws)
  | inr other ↦ rw (other, find_watch, other) (find_watch-deleted id ws)
]

find_watch-others :
    (id k : ℕ) (ws : List (ℕ × WatchInfo))
    → k ≢ id
    → find_watch k (delete_watch id ws) ≡ find_watch k ws
unfolding find_watch delete_watch
find_watch-others id k [] ne = refl
find_watch-others id k ((j, x) ∷ ws) ne = ground (arith, ne, find_watch-others id k ws ne)

last_revision-newest_of :
    (r : ℕ) (e : EtcdEvent) (es : List EtcdEvent) → last_revision r (e ∷ es) ≡ newest_of e es
unfolding newest_of
last_revision-newest_of r e [] = refl
last_revision-newest_of r e (e' ∷ es) = last_revision-newest_of e.kv.mod_revision e' es

abbrev response_first : WatchResponse → List WatchResponse → List WatchResponse
response_first m ms = m ∷ ms

events_response-messages :
    (id : ℕ) (e : EtcdEvent) (es : List EtcdEvent) (ess : List (List EtcdEvent))
    → events_response id (e ∷ es) ∷ messages id ess ≡ messages id ((e ∷ es) ∷ ess)
unfolding messages
events_response-messages id e es ess =
    ap
      (λ (r : ℕ).
        response_first
          (record {
            header_revision = r;
            watch_id = id;
            created = false;
            canceled = false;
            compact_revision = 0;
            events = e ∷ es;
          })
          (messages id ess))
      (last_revision-newest_of 0 e es)

abbrev pub events_of : List WatchResponse → List EtcdEvent
events_of [] = []
events_of (m ∷ ms) = m.events ++ events_of ms

events_of-messages :
    (id : ℕ) (ess : List (List EtcdEvent)) → events_of (messages id ess) ≡ concat ess
unfolding messages
events_of-messages id [] = refl
events_of-messages id ([] ∷ ess) = events_of-messages id ess
events_of-messages id ((e ∷ es) ∷ ess) = ap (λ l. e ∷ (es ++ l)) (events_of-messages id ess)

module _ (ok : ℕ → Bool) (h : (n : ℕ) → ok n ≡ true) where
  abbrev sent_to : Watcher → WatchResponse → Watcher
  sent_to w m = record w { sent = w.sent ++ m ∷ []; sends = w.sends + 1 }

  send-true : (m : WatchResponse) (w : Watcher) → send ok m w ≡ (true, sent_to w m)
  unfolding send
  send-true m w = rw (send, h w.sends) refl

  push_batches-step :
      (id : ℕ) (e : EtcdEvent) (es : List EtcdEvent) (ess : List (List EtcdEvent)) (w : Watcher)
      → push_batches ok id false ((e ∷ es) ∷ ess) w
        ≡ push_batches ok id false ess (sent_to w (events_response id (e ∷ es)))
  unfolding push_batches
  push_batches-step id e es ess w =
      ap
        (λ (x : Bool × Watcher). elim x.0 as (λ b. Watcher) [
          | true ↦ push_batches ok id false ess x.1
          | false ↦ push_batches ok id true ess (cancel ok id false x.1)
        ])
        (send-true (events_response id (e ∷ es)) w)

  push_batches-sent :
      (id : ℕ) (ess : List (List EtcdEvent)) (w : Watcher)
      → ((push_batches ok id false ess w).sent ≡ w.sent ++ messages id ess)
        × ((push_batches ok id false ess w).watches ≡ w.watches)
  unfolding push_batches messages
  push_batches-sent id [] w = (sym (append-nil w.sent), refl)
  push_batches-sent id ([] ∷ ess) w = push_batches-sent id ess w
  push_batches-sent id ((e ∷ es) ∷ ess) w =
      let m = events_response id (e ∷ es) in
      let (sent, watches) = push_batches-sent id ess (sent_to w m) in
      let step = push_batches-step id e es ess w in
      (
        ap (λ x. x.sent) step
            ∙ sent
            ∙ append_assoc w.sent (m ∷ []) (messages id ess)
            ∙ ap (λ l. w.sent ++ l) (events_response-messages id e es ess),
        ap (λ x. x.watches) step ∙ watches,
      )

  cancel-sent :
      (id : ℕ) (compact : Bool) (w : Watcher)
      → ((cancel ok id compact w).sent ≡ w.sent ++ canceled_response id compact ∷ [])
        × ((cancel ok id compact w).watches ≡ delete_watch id w.watches)
  unfolding cancel send
  cancel-sent id compact w = rw (cancel, h w.sends) (refl, refl)

  -- A watch on a key that starts with a slash, whose sends succeed: when the channel of the backend is
  -- closed, it has sent one message for each batch that is not empty, in order, with the events of the
  -- batch and the revision of the last of them, so that their events are those of the channel, and then
  -- that the watch is canceled, with compact revision 0; and the watch is not found any more, while
  -- all other watches are as before.
  pub run_watch-sent :
      (id : ℕ) (r : WatchCreateRequest) (ess : List (List EtcdEvent)) (w : Watcher)
      → is_pure_watch_request r ≡ true
      → ((run_watch ok id r (some ess) w).sent ≡ w.sent ++ messages id ess ++ end_message id ∷ [])
        × (events_of (messages id ess) ≡ concat ess)
        × (find_watch id (run_watch ok id r (some ess) w).watches ≡ none)
        × ((k : ℕ)
            → k ≢ id
            → find_watch k (run_watch ok id r (some ess) w).watches ≡ find_watch k w.watches)
  unfolding run_watch
  run_watch-sent id r ess w pure =
      let (sent, watches) = push_batches-sent id ess w in
      let (sent', watches') = cancel-sent id false (push_batches ok id false ess w) in
      rw (run_watch, pure)
        (
          sent' ∙ ap (λ l. l ++ canceled_response id false ∷ []) sent,
          events_of-messages id ess,
          ap (find_watch id) (watches' ∙ ap (delete_watch id) watches)
              ∙ find_watch-deleted id w.watches,
          λ k ne.
              ap (find_watch k) (watches' ∙ ap (delete_watch id) watches)
              ∙ find_watch-others id k w.watches ne,
        )
