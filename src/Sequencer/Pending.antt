-- ===== src/Sequencer/Pending.antt =====
-- The filled slots behind the published revision.
use kubebrain.Base.{
  ℕ, ◌+◌, ◌-◌, ◌%◌, ◌≤◌, ◌<◌, ◌≡◌, ◌≢◌, refl, ap, sym, ◌∙◌, List, [], ◌∷◌, none, some, false,
  length, ◌==◌, arith, Bool-cases, inl, inr,
}
use kubebrain.Base.Modular.{mod-ne}
use kubebrain.Tso.{uint64_mod, get_revision}
use kubebrain.Tso.Sequence.{commit_lem}
use kubebrain.Sequencer.{
  watchers_chan_capacity, WatchEvent, Slots, store_slot, Pipeline, load_next, take_event,
}

-- The slots hold these events for the revisions from `c + 1` on, and nothing for the next one.
abbrev pub Pending : Slots → ℕ → List WatchEvent → Type 0
Pending slots c [] = slots ((c + 1) % watchers_chan_capacity) ≡ none
Pending slots c (w ∷ ws) =
    (w.revision ≡ c + 1)
    × (slots (w.revision % watchers_chan_capacity) ≡ some w)
    × Pending slots (c + 1) ws

pub ne→==-false : (i j : ℕ) → i ≢ j → (i == j) ≡ false
ne→==-false i j h = ground arith

-- Clearing the slot of an earlier revision, less than a turn away, leaves the pending events.
Pending-clear :
    (slots : Slots) (i c : ℕ) (ws : List WatchEvent)
    → i ≤ c
    → c + length ws < i + watchers_chan_capacity
    → Pending slots c ws
    → Pending (store_slot (i % watchers_chan_capacity) none slots) c ws
Pending-clear slots i c [] a b p =
    elim (Bool-cases (i % watchers_chan_capacity == (c + 1) % watchers_chan_capacity)) [
      | inl same ↦ rw same refl
      | inr other ↦ rw other p
    ]
Pending-clear slots i c (w ∷ ws) a b p =
    let e : i + (c + 1 - i) ≡ w.revision = omega (arith, p.0) in
    let other : (i % watchers_chan_capacity == w.revision % watchers_chan_capacity) ≡ false =
      ne→==-false _ _ (λ same.
        mod-ne watchers_chan_capacity i (c + 1 - i) (omega arith) (omega arith)
          (ap (λ n. n % watchers_chan_capacity) e ∙ sym same)) in
    (p.0, rw other p.1, Pending-clear slots i (c + 1) ws (omega arith) (omega arith) p.2)

committed-take_event :
    (now : ℕ) (w : WatchEvent) (b : Pipeline) → get_revision (take_event now w b).tso ≡ w.revision
unfolding take_event
committed-take_event now w b = elim (Bool-cases w.valid) [
  | inl good ↦ ground (arith, good, (commit_lem w.revision b.tso).0)
  | inr bad ↦ ground (arith, bad, (commit_lem w.revision b.tso).0)
]

slots-take_event :
    (now : ℕ) (w : WatchEvent) (b : Pipeline)
    → (take_event now w b).watch_events_ring_buffer
      ≡ store_slot (w.revision % watchers_chan_capacity) none b.watch_events_ring_buffer
unfolding take_event
slots-take_event now w b = ground arith

-- What the loop relies on: the events are pending behind the published revision, fewer than there
-- are slots, and the revisions do not wrap.
pub record IsPending (b : Pipeline) (ws : List WatchEvent) : Type 0 where
  pub pending : Pending b.watch_events_ring_buffer (get_revision b.tso) ws
  pub fits : length ws < watchers_chan_capacity
  pub small : get_revision b.tso + length ws + 1 < uint64_mod

pub load_next-empty : {b : Pipeline} → IsPending b [] → load_next b ≡ none
unfolding load_next
load_next-empty {b} p =
    let e : (get_revision b.tso + 1) % uint64_mod ≡ get_revision b.tso + 1 =
      omega (arith, p.small) in
    ap (λ n. b.watch_events_ring_buffer (n % watchers_chan_capacity)) e ∙ p.pending

pub load_next-first :
    {b : Pipeline} (w : WatchEvent) (ws : List WatchEvent)
    → IsPending b (w ∷ ws)
    → load_next b ≡ some w
unfolding load_next
load_next-first {b} w ws p =
    let e : (get_revision b.tso + 1) % uint64_mod ≡ w.revision =
      omega (arith, p.small, p.pending.0) in
    ap (λ n. b.watch_events_ring_buffer (n % watchers_chan_capacity)) e ∙ p.pending.1

-- Taking the first event publishes its revision and leaves the others pending.
pub take_event-IsPending :
    {b : Pipeline} (now : ℕ) (w : WatchEvent) (ws : List WatchEvent)
    → IsPending b (w ∷ ws)
    → IsPending (take_event now w b) ws
      × (get_revision (take_event now w b).tso ≡ get_revision b.tso + 1)
take_event-IsPending {b} now w ws p =
    let c = committed-take_event now w b ∙ p.pending.0 in
    (
      record {
        pending =
            rw (slots-take_event now w b, c)
              (Pending-clear b.watch_events_ring_buffer w.revision (get_revision b.tso + 1) ws
                (omega (arith, p.pending.0)) (omega (arith, p.pending.0, p.fits)) p.pending.2);
        fits = omega (arith, p.fits);
        small = omega (arith, p.small, c);
      },
      c,
    )
