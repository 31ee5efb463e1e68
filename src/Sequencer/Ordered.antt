-- ===== src/Sequencer/Ordered.antt =====
-- The watchers see the valid events in the order of their revisions, without a gap.
use kubebrain.Base.{
  ℕ, zero, suc, ◌+◌, ◌<◌, ◌≡◌, refl, ap, sym, subst, ◌∙◌, List, [], ◌∷◌, ◌++◌, some, length, drop,
  ltb, true, false, if◌then◌else◌, arith, Bool-cases, inl, inr,
}
use kubebrain.Message.{Event}
use kubebrain.Tso.{get_revision}
use kubebrain.WatchCache.{Ring, add}
use kubebrain.WatchCache.Contents.{add_all}
use kubebrain.RetryQueue.{EventQueue, push}
use kubebrain.Watch.{event_batch_size}
use kubebrain.Sequencer.{
  WatchEvent, Pipeline, proto_event, needs_retry, sent, take_event, collect, collect_round,
}
use kubebrain.Sequencer.Pending.{IsPending, load_next-empty, load_next-first, take_event-IsPending}

-- Of the pending events, those that a batch with `cnt` events takes.
unfoldable pub batch_prefix : ℕ → List WatchEvent → List WatchEvent
batch_prefix cnt [] = []
batch_prefix cnt (w ∷ ws) =
    let rest = batch_prefix (if w.valid then cnt + 1 else cnt) ws in
    if ltb cnt event_batch_size then w ∷ rest else []

-- what the watchers are told of events: the valid ones
unfoldable pub valid_events : List WatchEvent → List Event
valid_events [] = []
valid_events (w ∷ ws) = let rest = valid_events ws in if w.valid then proto_event w ∷ rest else rest

-- what is put into the retry queue of events: the invalid ones whose outcome is uncertain
unfoldable pub push_uncertain : ℕ → List WatchEvent → EventQueue WatchEvent → EventQueue WatchEvent
push_uncertain now [] q = q
push_uncertain now (w ∷ ws) q =
    push_uncertain now ws (if w.valid then q else if needs_retry w.err then push w now q else q)

take_events : ℕ → List WatchEvent → Pipeline → Pipeline
take_events now [] b = b
take_events now (w ∷ ws) b = take_events now ws (take_event now w b)

-- a loop that is to take a valid event, or has taken one
abbrev HasValid : ℕ → List WatchEvent → Type 0
HasValid cnt ws = 0 < cnt + length (valid_events (batch_prefix cnt ws))

HasValid-bad :
    (cnt : ℕ) (w : WatchEvent) (ws : List WatchEvent)
    → ltb cnt event_batch_size ≡ true
    → w.valid ≡ false
    → HasValid cnt (w ∷ ws)
    → HasValid cnt ws
unfolding batch_prefix valid_events
HasValid-bad cnt w ws room bad h = ground (arith, room, bad, h)

collect-take_events :
    (fuel cnt now : ℕ) (b : Pipeline) (ws : List WatchEvent)
    → length ws < fuel
    → IsPending b ws
    → HasValid cnt ws
    → collect fuel cnt now b
      ≡ some (take_events now (batch_prefix cnt ws) b, valid_events (batch_prefix cnt ws))
unfolding collect batch_prefix valid_events take_events
collect-take_events zero cnt now b ws h p v = absurd (omega arith)
collect-take_events (suc fuel) cnt now b [] h p v = elim (Bool-cases (ltb cnt event_batch_size)) [
  | inl room ↦ ground (arith, room, load_next-empty p, v)
  | inr full ↦ ground (arith, full)
]
collect-take_events (suc fuel) cnt now b (w ∷ ws) h p v =
    let ih = λ (n : ℕ) (v' : HasValid n ws).
      collect-take_events fuel n now (take_event now w b) ws (omega arith)
        (take_event-IsPending now w ws p).0 v' in
    elim (Bool-cases (ltb cnt event_batch_size)) [
      | inr full ↦ ground (arith, full)
      | inl room ↦ elim (Bool-cases w.valid) [
        | inl good ↦ ground (arith, room, load_next-first w ws p, good, ih (cnt + 1) (omega arith))
        | inr bad ↦
            ground
              (arith, room, load_next-first w ws p, bad, ih cnt (HasValid-bad cnt w ws room bad v))
      ]
    ]

-- What taking the first `prefix` of the pending events does to the pipeline.
record Taken (now : ℕ) (prefix rest : List WatchEvent) (b b' : Pipeline) : Type 0 where
  published : get_revision b'.tso ≡ get_revision b.tso + length prefix
  left : IsPending b' rest
  cached : b'.watch_cache ≡ add_all b.watch_cache (valid_events prefix)
  retried : b'.async_fifo_retry ≡ push_uncertain now prefix b.async_fifo_retry
  unsent : b'.watch_chan ≡ b.watch_chan

watch_cache-take_event :
    (now : ℕ) (w : WatchEvent) (b : Pipeline)
    → (take_event now w b).watch_cache
      ≡ (if w.valid then add b.watch_cache (proto_event w) else b.watch_cache)
unfolding take_event
watch_cache-take_event now w b = ground arith

retry-take_event :
    (now : ℕ) (w : WatchEvent) (b : Pipeline)
    → (take_event now w b).async_fifo_retry ≡ (
        if w.valid
        then b.async_fifo_retry
        else if needs_retry w.err
        then push w now b.async_fifo_retry
        else b.async_fifo_retry)
unfolding take_event
retry-take_event now w b = ground arith

watch_chan-take_event :
    (now : ℕ) (w : WatchEvent) (b : Pipeline) → (take_event now w b).watch_chan ≡ b.watch_chan
unfolding take_event
watch_chan-take_event now w b = ground arith

add_all-valid_events :
    (cache : Ring) (w : WatchEvent) (ws : List WatchEvent)
    → add_all (if w.valid then add cache (proto_event w) else cache) (valid_events ws)
      ≡ add_all cache (valid_events (w ∷ ws))
unfolding add_all valid_events
add_all-valid_events cache w ws = elim (Bool-cases w.valid) [
  | inl good ↦ rw good refl
  | inr bad ↦ rw bad refl
]

take_events-Taken :
    (now : ℕ) (prefix rest : List WatchEvent) (b : Pipeline)
    → IsPending b (prefix ++ rest)
    → Taken now prefix rest b (take_events now prefix b)
unfolding take_events valid_events push_uncertain add_all
take_events-Taken now [] rest b p = record {
  published = omega arith;
  left = p;
  cached = refl;
  retried = refl;
  unsent = refl;
}
take_events-Taken now (w ∷ prefix) rest b p =
    let (left, c) = take_event-IsPending now w (prefix ++ rest) p in
    let t = take_events-Taken now prefix rest (take_event now w b) left in
    record {
      published = omega (arith, t.published, c);
      left = t.left;
      cached =
          t.cached
          ∙ ap (λ cache. add_all cache (valid_events prefix)) (watch_cache-take_event now w b)
          ∙ add_all-valid_events b.watch_cache w prefix;
      retried = t.retried ∙ ap (push_uncertain now prefix) (retry-take_event now w b);
      unsent = t.unsent ∙ watch_chan-take_event now w b;
    }

batch_prefix-split :
    (cnt : ℕ) (ws : List WatchEvent)
    → batch_prefix cnt ws ++ drop (length (batch_prefix cnt ws)) ws ≡ ws
unfolding batch_prefix
batch_prefix-split cnt [] = refl
batch_prefix-split cnt (w ∷ ws) =
    let ih = batch_prefix-split (if w.valid then cnt + 1 else cnt) ws in
    elim (Bool-cases (ltb cnt event_batch_size)) [
      | inl room ↦ rw room (ap (λ l. w ∷ l) ih)
      | inr full ↦ rw full refl
    ]

sent-some :
    (chan : List (List Event)) (events : List Event)
    → 0 < length events
    → sent chan events ≡ chan ++ events ∷ []
sent-some chan [] h = absurd (omega (arith, h))
sent-some chan (e ∷ events) h = refl

-- A round of the sequencer, if a valid event is among the pending events of one batch, and with more
-- fuel than events that are pending, ends. It takes the pending events of one batch from the front:
-- the published revision rises by one for each of them and the others are pending behind it; the valid
-- ones are added to the watch cache and sent, all of them, as one batch, in the order of their
-- revisions; the invalid ones with an uncertain outcome are put into the retry queue.
pub collect_round_lem :
    (fuel now : ℕ) (b : Pipeline) (ws : List WatchEvent)
    → IsPending b ws
    → length ws < fuel
    → 0 < length (valid_events (batch_prefix 0 ws))
    → (b' : Pipeline) × (collect_round fuel now b ≡ some b')
      × (get_revision b'.tso ≡ get_revision b.tso + length (batch_prefix 0 ws))
      × IsPending b' (drop (length (batch_prefix 0 ws)) ws)
      × (b'.watch_cache ≡ add_all b.watch_cache (valid_events (batch_prefix 0 ws)))
      × (b'.watch_chan ≡ b.watch_chan ++ valid_events (batch_prefix 0 ws) ∷ [])
      × (b'.async_fifo_retry ≡ push_uncertain now (batch_prefix 0 ws) b.async_fifo_retry)
unfolding collect_round
collect_round_lem fuel now b ws p h v =
    let prefix = batch_prefix 0 ws in
    let e = collect-take_events fuel 0 now b ws h p (omega (arith, v)) in
    let t =
      take_events-Taken now prefix (drop (length prefix) ws) b
        (subst (IsPending b) (sym (batch_prefix-split 0 ws)) p) in
    let b' = take_events now prefix b in
    (
      record b' { watch_chan = sent b'.watch_chan (valid_events prefix) },
      rw (collect_round, e) refl,
      t.published,
      record { pending = t.left.pending; fits = t.left.fits; small = t.left.small },
      t.cached,
      ap (λ chan. sent chan (valid_events prefix)) t.unsent
          ∙ sent-some b.watch_chan (valid_events prefix) v,
      t.retried,
    )
