-- ===== src/Watch/Batches.antt =====
-- The replayed history is sent whole, in order, and never fills the result channel.
use kubebrain.Base.{
  ℕ, zero, suc, ◌*◌, ◌-◌, ◌≤◌, ◌<◌, ◌≡◌, ap, ◌∙◌, List, [], ◌∷◌, ◌++◌, Option, some, length, take,
  drop, arith, append-nil, take-append-drop, length-drop, concat, ltb, Bool-cases, inl, inr, ltb→lt,
}
use kubebrain.Message.{Event}
use kubebrain.Watch.{result_chan_length, batch_size, send_batches, catch_up_events}

-- The batches make up the events, and there are at most `k` if `k` of them have room.
record Sends (events : List Event) (k : ℕ) (out : Option (List (List Event))) : Type 0 where
  batches : List (List Event)
  ends : out ≡ some batches
  whole : concat batches ≡ events
  few : length batches ≤ k

send_batches-Sends :
    (fuel size k : ℕ) (events : List Event)
    → 0 < size
    → 0 < k
    → length events < fuel
    → length events ≤ k * size
    → Sends events k (send_batches fuel size events)
unfolding send_batches
send_batches-Sends zero size k events p q f b = absurd (omega arith)
send_batches-Sends (suc fuel) size zero events p q f b = absurd (omega arith)
send_batches-Sends (suc fuel) size (suc k) events p q f b =
    elim (Bool-cases (ltb size (length events))) [
      | inr done ↦ record {
        batches = events ∷ [];
        ends = ground (arith, done);
        whole = append-nil events;
        few = omega arith;
      }
      | inl more ↦
          let lt : size < length events = ltb→lt _ _ more in
          let shorter : length (drop size events) ≡ length events - size =
            length-drop size events in
          let ih : Sends (drop size events) k (send_batches fuel size (drop size events)) =
            send_batches-Sends fuel size k (drop size events) p (grind (arith, lt, b))
              (omega (arith, shorter)) (grind (arith, shorter, lt, b)) in
          record {
            batches = take size events ∷ ih.batches;
            ends = ground (arith, more, ih.ends);
            whole = ap (λ t. take size events ++ t) ih.whole ∙ take-append-drop size events;
            few = omega (arith, ih.few);
          }
    ]

enough_batches :
    (events : List Event)
    → (0 < batch_size events) × (length events ≤ result_chan_length * batch_size events)
unfolding batch_size
enough_batches events = ground arith

-- The catch-up of a watch always ends, sends exactly the given events in their order, and sends at
-- most as many batches as the result channel buffers, so it never blocks on a channel that nobody
-- reads yet.
pub catch_up_events_lem :
    (events : List Event)
    → (batches : List (List Event)) × (catch_up_events events ≡ some batches)
      × (concat batches ≡ events)
      × (length batches ≤ result_chan_length)
unfolding catch_up_events
catch_up_events_lem events =
    let s : Sends events result_chan_length (catch_up_events events) =
      send_batches-Sends (suc (length events)) (batch_size events) result_chan_length events
        (enough_batches events).0 (omega arith) (omega arith) (enough_batches events).1 in
    (s.batches, s.ends, s.whole, s.few)
