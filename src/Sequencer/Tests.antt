-- ===== src/Sequencer/Tests.antt =====
-- A valid event and one of an uncertain write behind it, and the theorems at them.
use kubebrain.Base.{
  ◌+◌, ◌<◌, ◌≡◌, refl, [], ◌∷◌, ◌++◌, none, some, true, false, length, drop, arith,
}
use kubebrain.Base.Int.{pos}
use kubebrain.Message.{Verb}
use kubebrain.Tso.{get_revision}
use kubebrain.WatchCache.Contents.{add_all}
use kubebrain.Storage.{uncertain_result}
use kubebrain.Sequencer.{WatchEvent, Slots, store_slot, Pipeline, notify, collect_round}
use kubebrain.Sequencer.Pending.{IsPending}
use kubebrain.Sequencer.Notify.{notify_lem}
use kubebrain.Sequencer.Ordered.{batch_prefix, valid_events, push_uncertain, collect_round_lem}

abbrev fifth : WatchEvent
fifth = record {
  revision = 5;
  prev_revision = 3;
  resource_verb = Verb.put;
  valid = true;
  key = b'k' ∷ [];
  value = b'v' ∷ [];
  err = none;
}

abbrev sixth : WatchEvent
sixth = record fifth { revision = 6; valid = false; err = some uncertain_result }

abbrev seventh : WatchEvent
seventh = record fifth { revision = 7; prev_revision = 5; resource_verb = Verb.delete }

abbrev slots : Slots
slots = store_slot 6 (some sixth) (store_slot 5 (some fifth) (λ j. none))

abbrev pipeline : Pipeline
pipeline = record {
  tso = record { committed_revision = 4; deal_revision = 7 };
  watch_events_ring_buffer = slots;
  watch_cache = record { s = 0; e = 0; l = 2; arr = none ∷ none ∷ [] };
  async_fifo_retry = record { heap = []; queue_size = pos 0; head = none; tail = none };
  watch_chan = [];
}

pipeline-IsPending : IsPending pipeline (fifth ∷ sixth ∷ [])
unfolding get_revision
pipeline-IsPending = record {
  pending = (refl, refl, (refl, refl, refl));
  fits = omega arith;
  small = omega arith;
}

has_valid : 0 < length (valid_events (batch_prefix 0 (fifth ∷ sixth ∷ [])))
unfolding valid_events batch_prefix
has_valid = omega arith

collect_round_lem_example :
    (b' : Pipeline) × (collect_round 3 9 pipeline ≡ some b')
    × (get_revision b'.tso
        ≡ get_revision pipeline.tso + length (batch_prefix 0 (fifth ∷ sixth ∷ [])))
    × IsPending b' (drop (length (batch_prefix 0 (fifth ∷ sixth ∷ []))) (fifth ∷ sixth ∷ []))
    × (b'.watch_cache
        ≡ add_all pipeline.watch_cache (valid_events (batch_prefix 0 (fifth ∷ sixth ∷ []))))
    × (b'.watch_chan
        ≡ pipeline.watch_chan ++ valid_events (batch_prefix 0 (fifth ∷ sixth ∷ [])) ∷ [])
    × (b'.async_fifo_retry
        ≡ push_uncertain 9 (batch_prefix 0 (fifth ∷ sixth ∷ [])) pipeline.async_fifo_retry)
collect_round_lem_example =
    collect_round_lem 3 9 pipeline (fifth ∷ sixth ∷ []) pipeline-IsPending (omega arith) has_valid

published : get_revision pipeline.tso ≡ 4
unfolding get_revision
published = refl

notify_lem_example :
    (b' : Pipeline) × (notify seventh.key seventh.value seventh.revision seventh.prev_revision
        seventh.valid seventh.resource_verb seventh.err pipeline
      ≡ some b')
    × IsPending b' ((fifth ∷ sixth ∷ []) ++ seventh ∷ [])
    × (b'.tso ≡ pipeline.tso)
    × (b'.watch_cache ≡ pipeline.watch_cache)
    × (b'.watch_chan ≡ pipeline.watch_chan)
notify_lem_example =
    notify_lem pipeline (fifth ∷ sixth ∷ []) seventh pipeline-IsPending (omega (arith, published))
      (omega arith) (omega arith) refl
