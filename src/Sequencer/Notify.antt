-- ===== src/Sequencer/Notify.antt =====
-- A finished write gives its event to the sequencer.
use kubebrain.Base.{
  ℕ, ◌+◌, ◌-◌, ◌%◌, ◌<◌, ◌≡◌, ◌≢◌, refl, ap, sym, subst, ◌∙◌, List, [], ◌∷◌, ◌++◌, Option, none,
  some, length, length-append, arith,
}
use kubebrain.Base.Modular.{mod-ne}
use kubebrain.Tso.{uint64_mod, get_revision}
use kubebrain.Sequencer.{
  watchers_chan_capacity, WatchEvent, Slots, store_slot, Pipeline, notify, int64_slot,
}
use kubebrain.Sequencer.Pending.{Pending, IsPending, ne→==-false}

-- Slots of different revisions that are less than a turn apart are different.
slot-other :
    (slots : Slots) (v : Option WatchEvent) (i j : ℕ)
    → i < j
    → j < i + watchers_chan_capacity
    → (store_slot (j % watchers_chan_capacity) v slots (i % watchers_chan_capacity)
        ≡ slots (i % watchers_chan_capacity))
      × (store_slot (i % watchers_chan_capacity) v slots (j % watchers_chan_capacity)
          ≡ slots (j % watchers_chan_capacity))
slot-other slots v i j a b =
    let e : i + (j - i) ≡ j = omega arith in
    let apart : i % watchers_chan_capacity ≢ j % watchers_chan_capacity = λ same.
      mod-ne watchers_chan_capacity i (j - i) (omega arith) (omega arith)
        (ap (λ n. n % watchers_chan_capacity) e ∙ sym same) in
    (rw (ne→==-false _ _ (λ same. apart (sym same))) refl, rw (ne→==-false _ _ apart) refl)

slot-same : (slots : Slots) (v : Option WatchEvent) (i : ℕ) → store_slot i v slots i ≡ v
slot-same slots v i = ground arith

Pending-append :
    (slots : Slots) (c : ℕ) (ws : List WatchEvent) (w : WatchEvent)
    → w.revision ≡ c + length ws + 1
    → length ws + 1 < watchers_chan_capacity
    → slots ((w.revision + 1) % watchers_chan_capacity) ≡ none
    → Pending slots c ws
    → Pending (store_slot (w.revision % watchers_chan_capacity) (some w) slots) c (ws ++ w ∷ [])
Pending-append slots c [] w r room next p =
    let e : w.revision + 1 ≡ c + 1 + 1 = omega (arith, r) in
    (
      omega (arith, r),
      slot-same slots (some w) (w.revision % watchers_chan_capacity),
      subst
          (λ n.
            store_slot (w.revision % watchers_chan_capacity) (some w) slots
              (n % watchers_chan_capacity)
            ≡ none)
          e
          ((slot-other slots (some w) w.revision (w.revision + 1) (omega arith) (omega arith)).1
            ∙ next),
    )
Pending-append slots c (v ∷ ws) w r room next p = (
  p.0,
  (slot-other slots (some w) v.revision w.revision (omega (arith, r, p.0))
        (omega (arith, r, p.0, room))).0
      ∙ p.1,
  Pending-append slots (c + 1) ws w (omega (arith, r)) (omega arith) next p.2,
)

accepted :
    (w : WatchEvent) (b : Pipeline)
    → 0 < w.revision
    → (w.revision + uint64_mod - get_revision b.tso) % uint64_mod < watchers_chan_capacity
    → w.revision < 9223372036854775808
    → notify w.key w.value w.revision w.prev_revision w.valid w.resource_verb w.err b
      ≡ some (record b {
        watch_events_ring_buffer =
            store_slot (w.revision % watchers_chan_capacity) (some w) b.watch_events_ring_buffer;
      })
unfolding notify int64_slot
accepted w b pos lag small = ground arith

-- A write that finishes with the revision behind the pending ones, as long as it is fewer than a
-- turn of the slots behind the published one, below 2^63 - 1, and no later write has finished yet:
-- the event is accepted, whatever the outcome of the write, and is pending behind the others, the published
-- revision and what was sent being as before.
pub notify_lem :
    (b : Pipeline) (ws : List WatchEvent) (w : WatchEvent)
    → IsPending b ws
    → w.revision ≡ get_revision b.tso + length ws + 1
    → length ws + 1 < watchers_chan_capacity
    → w.revision + 1 < 9223372036854775808
    → b.watch_events_ring_buffer ((w.revision + 1) % watchers_chan_capacity) ≡ none
    → (b' : Pipeline) × (notify w.key w.value w.revision w.prev_revision w.valid w.resource_verb
          w.err b
        ≡ some b')
      × IsPending b' (ws ++ w ∷ [])
      × (b'.tso ≡ b.tso)
      × (b'.watch_cache ≡ b.watch_cache)
      × (b'.watch_chan ≡ b.watch_chan)
notify_lem b ws w p r room small next =
    let slots =
      store_slot (w.revision % watchers_chan_capacity) (some w) b.watch_events_ring_buffer in
    let lag : (w.revision + uint64_mod - get_revision b.tso) % uint64_mod ≡ length ws + 1 =
      omega (arith, r, room) in
    let fits : length (ws ++ w ∷ []) ≡ length ws + 1 = length-append ws (w ∷ []) in
    (
      record b { watch_events_ring_buffer = slots },
      accepted w b (omega (arith, r)) (omega (arith, lag, room)) (omega (arith, small)),
      record {
        pending =
            Pending-append b.watch_events_ring_buffer (get_revision b.tso) ws w r room next
              p.pending;
        fits = omega (arith, fits, room);
        small = omega (arith, fits, small, r);
      },
      refl,
      refl,
      refl,
    )
