-- ===== src/Txn/Published.antt =====
-- Every write leaves an event for the revision that it was dealt, and the watchers see it.
use kubebrain.Base.{
  ℕ, ◌+◌, ◌%◌, ◌<◌, ◌≡◌, refl, ap, ap₂, subst, ◌∙◌, List, [], ◌∷◌, ◌++◌, Option, none, some, true,
  false, length, ◌==◌, arith,
}
use kubebrain.Base.Bytes.{Bytes}
use kubebrain.Message.{Verb}
use kubebrain.Tso.{uint64_mod, get_revision, backend_deal}
use kubebrain.Storage.{Error, revision_drift_back, is_cas_failed, KvStorage}
use kubebrain.Range.{Result, reply, failed}
use kubebrain.Sequencer.{
  watchers_chan_capacity, WatchEvent, Pipeline, proto_event, notify, collect_round,
}
use kubebrain.Sequencer.Pending.{IsPending}
use kubebrain.Sequencer.Notify.{notify_lem}
use kubebrain.WatchCache.{add}
use kubebrain.WatchCache.Contents.{add_all}
use kubebrain.Sequencer.Ordered.{batch_prefix, valid_events, collect_round_lem}
use kubebrain.Txn.{
  Backend, TxnResponse, is_nil, deal, create, update, update_dealt, create_reply, notify_backend,
  create_request, update_request, update_written, update_reply,
}

-- the event of a write
abbrev pub write_event :
    (key val : Bytes) (rev prev : ℕ) (verb : Verb) (err : Option Error) → WatchEvent
write_event key val rev prev verb err = record {
  revision = rev;
  prev_revision = prev;
  resource_verb = verb;
  valid = is_nil err;
  key = key;
  value = val;
  err = err;
}

-- All dealt revisions but these are published, no event lies ahead, and nothing wraps.
pub record IsSettled (p : Pipeline) (ws : List WatchEvent) : Type 0 where
  pub pending : IsPending p ws
  pub dealt : p.tso.deal_revision ≡ get_revision p.tso + length ws
  pub room : length ws + 1 < watchers_chan_capacity
  pub small : p.tso.deal_revision + 2 < 9223372036854775808
  pub next : p.watch_events_ring_buffer ((p.tso.deal_revision + 2) % watchers_chan_capacity) ≡ none

-- the round that publishes a single valid event
publish_one :
    (fuel now : ℕ) (p : Pipeline) (key value : Bytes) (rev prev : ℕ) (verb : Verb)
    → 1 < fuel
    → IsPending p (write_event key value rev prev verb none ∷ [])
    → let event = proto_event (write_event key value rev prev verb none) in
      (p' : Pipeline) × (collect_round fuel now p ≡ some p')
      × (get_revision p'.tso ≡ get_revision p.tso + 1)
      × (p'.watch_cache ≡ add p.watch_cache event)
      × (p'.watch_chan ≡ p.watch_chan ++ (event ∷ []) ∷ [])
unfolding batch_prefix valid_events add_all
publish_one fuel now p key value rev prev verb h pending =
    let (p', ends, committed, _, cache, chan, _) =
      collect_round_lem fuel now p _ pending h (omega arith) in
    (p', ends, committed, cache, chan)

-- What a create tells the client: its revision, with success if and only if it is done, or the error
-- that is not a failed compare.
abbrev pub Told : ℕ → Option Error → Result TxnResponse → Type 0
Told rev none answer =
    answer ≡ reply (record { header_revision = rev; succeeded = true; kv = none })
Told rev (some e) answer =
    (is_cas_failed e ≡ true
      → answer ≡ reply (record { header_revision = rev; succeeded = false; kv = none }))
    × (is_cas_failed e ≡ false → answer ≡ failed e)

create_reply-Told :
    (K : KvStorage) (rev : ℕ) (err : Option Error) → Told rev err (create_reply K rev err)
unfolding create_reply
create_reply-Told K rev none = refl
create_reply-Told K rev (some e) = (λ h. rw h refl, λ h. rw h refl)

module _ {K : KvStorage} where
  notify_backend_lem :
      (b : Backend K) (ws : List WatchEvent) (key val : Bytes) (rev prev : ℕ) (verb : Verb)
      (err : Option Error)
      → IsPending b.pipeline ws
      → rev ≡ get_revision b.pipeline.tso + length ws + 1
      → length ws + 1 < watchers_chan_capacity
      → rev + 1 < 9223372036854775808
      → b.pipeline.watch_events_ring_buffer ((rev + 1) % watchers_chan_capacity) ≡ none
      → (b' : Backend K) × (notify_backend K key val rev prev verb err b ≡ some b')
        × IsPending b'.pipeline (ws ++ write_event key val rev prev verb err ∷ [])
        × (b'.pipeline.tso ≡ b.pipeline.tso)
        × (b'.pipeline.watch_cache ≡ b.pipeline.watch_cache)
        × (b'.pipeline.watch_chan ≡ b.pipeline.watch_chan)
        × (b'.kv ≡ b.kv)
  unfolding notify_backend
  notify_backend_lem b ws key val rev prev verb err p e room small next =
      let (pipeline, done, pending, same, cache, chan) =
        notify_lem b.pipeline ws (write_event key val rev prev verb err) p e room small next in
      (
        record b { pipeline = pipeline },
        ap (λ o. elim o [ none ↦ none | some x ↦ some (record b { pipeline = x }) ]) done,
        pending,
        same,
        cache,
        chan,
        refl,
      )

  pipeline-create :
      (key value : Bytes) (lease : ℕ) (b : Backend K)
      → b.pipeline.tso.deal_revision + 1 < uint64_mod
      → ((create K key value lease b).0.0 ≡ b.pipeline.tso.deal_revision + 1)
        × ((create K key value lease b).1.pipeline ≡ (deal K 0 b).1.pipeline)
  unfolding create
  pipeline-create key value lease b small = (omega (arith, small), refl)

  IsPending-deal :
      (prev : ℕ) (b : Backend K) (ws : List WatchEvent)
      → IsPending b.pipeline ws
      → IsPending (deal K prev b).1.pipeline ws
  unfolding deal get_revision
  IsPending-deal prev b ws p = record { pending = p.pending; fits = p.fits; small = p.small }

  next-deal :
      (b : Backend K) (rev : ℕ)
      → rev ≡ b.pipeline.tso.deal_revision + 1
      → b.pipeline.watch_events_ring_buffer
          ((b.pipeline.tso.deal_revision + 2) % watchers_chan_capacity)
        ≡ none
      → b.pipeline.watch_events_ring_buffer ((rev + 1) % watchers_chan_capacity) ≡ none
  next-deal b rev e h =
      subst (λ n. b.pipeline.watch_events_ring_buffer (n % watchers_chan_capacity) ≡ none)
        (omega (arith, e)) h

  -- A create request on a backend that has published all dealt revisions but those that are pending,
  -- with a free slot: it does not panic, its answer is that of the create: success with the revision,
  -- no success if a compare failed, or another error; and whatever that is, the event of the new revision is pending behind the others, valid if and only if the create succeeded;
  -- nothing is published or sent by it, and the stored keys are those that the create left.
  pub create_request-IsPending :
      (key value : Bytes) (lease : ℕ) (b : Backend K) (ws : List WatchEvent)
      → IsSettled b.pipeline ws
      → let ((rev, err), b') = create K key value lease b in
        (b'' : Backend K) × (create_request K key value lease b
          ≡ some (create_reply K rev err, b''))
        × Told rev err (create_reply K rev err)
        × IsPending b''.pipeline (ws ++ write_event key value rev 0 Verb.create err ∷ [])
        × (rev ≡ b.pipeline.tso.deal_revision + 1)
        × (b''.pipeline.tso.deal_revision ≡ rev)
        × (get_revision b''.pipeline.tso ≡ get_revision b.pipeline.tso)
        × (b''.pipeline.watch_cache ≡ b.pipeline.watch_cache)
        × (b''.pipeline.watch_chan ≡ b.pipeline.watch_chan)
        × (b''.kv ≡ b'.kv)
  unfolding create_request create deal get_revision
  create_request-IsPending key value lease b ws p =
      let ((rev, err), b1) = create K key value lease b in
      let (fresh, same) = pipeline-create key value lease b (omega (arith, p.small)) in
      let (b2, done, left, tso, cache, chan, kv) =
        notify_backend_lem b1 ws key value rev 0 Verb.create err (IsPending-deal 0 b ws p.pending)
          (omega (arith, fresh, p.dealt)) p.room (omega (arith, fresh, p.small))
          (next-deal b rev fresh p.next) in
      (
        b2,
        ap (λ o. elim o [ none ↦ none | some x ↦ some (create_reply K rev err, x) ]) done,
        create_reply-Told K rev err,
        left,
        fresh,
        ap (λ n. n.deal_revision) tso ∙ omega (arith, fresh, p.small),
        ap get_revision tso,
        cache,
        chan,
        kv,
      )

  deal-drift :
      (prev : ℕ) (b : Backend K)
      → b.pipeline.tso.deal_revision + 1 < prev
      → b.pipeline.tso.deal_revision + 1 < uint64_mod
      → (deal K prev b).0 ≡ (b.pipeline.tso.deal_revision + 1, some revision_drift_back)
  unfolding deal backend_deal
  deal-drift prev b ahead small = ground arith

  drift_written :
      (key value : Bytes) (prev_rev : ℕ) (b : Backend K)
      → update_written K key value prev_rev Verb.put ((0, some revision_drift_back), b)
        ≡ some (failed revision_drift_back, b)
  unfolding update_written notify_backend notify update_reply is_cas_failed
  drift_written key value prev_rev b = refl

  update-drift :
      (key value : Bytes) (prev_rev lease : ℕ) (b : Backend K)
      → b.pipeline.tso.deal_revision + 1 < prev_rev
      → b.pipeline.tso.deal_revision + 1 < uint64_mod
      → update K prev_rev key value lease b ≡ ((0, some revision_drift_back), (deal K prev_rev b).1)
  unfolding update
  update-drift key value prev_rev lease b ahead small =
      ap (λ r. update_dealt K prev_rev key value r (deal K prev_rev b).1)
        (deal-drift prev_rev b ahead small)

  -- An update whose client names a revision above the next one, but not 0: the request fails with a
  -- drift, and uses up a revision for which it leaves no event; the slots and the stored keys are as
  -- before.
  pub update_request-drift :
      (key value : Bytes) (prev_rev lease : ℕ) (b : Backend K)
      → b.pipeline.tso.deal_revision + 1 < prev_rev
      → b.pipeline.tso.deal_revision + 1 < uint64_mod
      → (b' : Backend K) × (update_request K key value prev_rev lease b
          ≡ some (failed revision_drift_back, b'))
        × (b'.pipeline.watch_events_ring_buffer ≡ b.pipeline.watch_events_ring_buffer)
        × (b'.pipeline.tso.deal_revision ≡ b.pipeline.tso.deal_revision + 1)
        × (b'.pipeline.tso.committed_revision ≡ b.pipeline.tso.committed_revision)
        × (b'.kv ≡ b.kv)
  unfolding update_request deal
  update_request-drift key value prev_rev lease b ahead small =
      let given : (prev_rev == 0) ≡ false = ground (arith, ahead) in
      (
        (deal K prev_rev b).1,
        rw given (
            ap (update_written K key value prev_rev Verb.put)
              (update-drift key value prev_rev lease b ahead small)
            ∙ drift_written key value prev_rev (deal K prev_rev b).1),
        refl,
        omega (arith, small),
        refl,
        refl,
      )

  -- A create that succeeds, with no other revision pending: the client is told the next revision, and
  -- the next round of the sequencer publishes it, adds the event of the creation to the watch cache
  -- and sends it, alone, to the watchers.
  pub create_request-published :
      (key value : Bytes) (lease fuel now : ℕ) (b : Backend K)
      → IsSettled b.pipeline []
      → (create K key value lease b).0.1 ≡ none
      → 1 < fuel
      → let rev = b.pipeline.tso.deal_revision + 1 in
        let event = proto_event (write_event key value rev 0 Verb.create none) in
        (b' : Backend K) × (p : Pipeline) × (create_request K key value lease b
          ≡ some (reply (record { header_revision = rev; succeeded = true; kv = none }), b'))
        × (collect_round fuel now b'.pipeline ≡ some p)
        × (get_revision p.tso ≡ rev)
        × (p.watch_cache ≡ add b.pipeline.watch_cache event)
        × (p.watch_chan ≡ b.pipeline.watch_chan ++ (event ∷ []) ∷ [])
  unfolding create_reply
  create_request-published key value lease fuel now b p ok h =
      let (b', done, told, left, fresh, dealt, same, cache, chan, kv) =
        create_request-IsPending key value lease b [] p in
      let answer : (create K key value lease b).0 ≡ (b.pipeline.tso.deal_revision + 1, none) =
        ap₂ (λ rev err. (rev, err)) fresh ok in
      let (p', ends, committed, cache', chan') =
        publish_one fuel now b'.pipeline key value (b.pipeline.tso.deal_revision + 1) 0 Verb.create
          h
          (subst (λ q. IsPending b'.pipeline (write_event key value q.0 0 Verb.create q.1 ∷ []))
            answer left) in
      (
        b',
        p',
        done ∙ ap (λ (q : ℕ × Option Error). some (create_reply K q.0 q.1, b')) answer,
        ends,
        omega (arith, committed, same, p.dealt),
        cache'
            ∙ ap
                (λ c. add c (
                  proto_event
                    (write_event key value (b.pipeline.tso.deal_revision + 1) 0 Verb.create none)))
                cache,
        chan'
            ∙ ap
                (λ c.
                  c
                  ++ (proto_event (
                        write_event key value (b.pipeline.tso.deal_revision + 1) 0 Verb.create none)
                      ∷ [])
                    ∷ [])
                chan,
      )
