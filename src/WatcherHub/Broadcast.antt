-- ===== src/WatcherHub/Broadcast.antt =====
-- The broadcast reaches every subscriber that has room, once, and nobody else.
use kubebrain.Base.{
  ℕ, ◌<◌, ◌≡◌, refl, ap, subst, ◌∙◌, inl, inr, List, [], ◌∷◌, ◌++◌, none, some, Bool, true, false,
  ◌&&◌, not, length, ltb, ◌==◌, if◌then◌else◌, All, All-map, arith, Bool-cases,
}
use kubebrain.Message.{Event}
use kubebrain.WatcherHub.{
  watch_buffer, Chan, Chans, set_chan, WatcherHub, subscribed, push_all, stream_item,
}

abbrev pub IsOpen : Chans → ℕ → Type 0
IsOpen chans i = (chans i).closed ≡ false

abbrev pub AreDistinct : List ℕ → Type 0
AreDistinct [] = Unit
AreDistinct (i ∷ subs) = (subscribed i subs ≡ false) × AreDistinct subs

-- Every subscriber is an open channel of this hub, and is there once.
pub record IsLive (w : WatcherHub) : Type 0 where
  pub open_ : All (IsOpen w.chans) w.subs
  pub known : All (λ i. i < w.next) w.subs
  pub distinct : AreDistinct w.subs

abbrev pub has_room : Chan → Bool
has_room c = ltb (length c.queue) watch_buffer

-- The channel after the item was sent to the subscribers that have room.
abbrev pub received : List Event → Bool → Chan → Chan
received item sent c = record c { queue = if sent then c.queue ++ item ∷ [] else c.queue }

pub IsOpen-set_chan :
    (i : ℕ) (c : Chan) (chans : Chans) (subs : List ℕ)
    → c.closed ≡ false
    → All (IsOpen chans) subs
    → All (IsOpen (set_chan i c chans)) subs
IsOpen-set_chan i c chans subs h =
    All-map subs (λ j open_j. elim (Bool-cases (i == j)) [
      | inl same ↦ rw same h
      | inr other ↦ rw other open_j
    ])

record Pushed (item : List Event) (subs : List ℕ) (chans chans' : Chans) (slow : List ℕ)
    : Type 0 where
  each : (j : ℕ) → chans' j ≡ received item (subscribed j subs && has_room (chans j)) (chans j)
  slow_each : (j : ℕ) → subscribed j slow ≡ (subscribed j subs && not (has_room (chans j)))

push_all-sent :
    (item : List Event) (sub : ℕ) (subs : List ℕ) (chans : Chans)
    → (chans sub).closed ≡ false
    → has_room (chans sub) ≡ true
    → push_all item (sub ∷ subs) chans
      ≡ push_all item subs
          (set_chan sub (record (chans sub) { queue = (chans sub).queue ++ item ∷ [] }) chans)
unfolding push_all
push_all-sent item sub subs chans live room = ground (arith, live, room)

push_all-slow :
    (item : List Event) (sub : ℕ) (subs : List ℕ) (chans : Chans) (chans' : Chans) (slow : List ℕ)
    → (chans sub).closed ≡ false
    → has_room (chans sub) ≡ false
    → push_all item subs chans ≡ some (chans', slow)
    → push_all item (sub ∷ subs) chans ≡ some (chans', sub ∷ slow)
unfolding push_all
push_all-slow item sub subs chans chans' slow live full rest = ground (arith, live, full, rest)

-- what sending to one subscriber more changes
abbrev Each : List Event → ℕ → List ℕ → Chans → ℕ → Type 0
Each item sub subs chans j =
    let c = record (chans sub) { queue = (chans sub).queue ++ item ∷ [] } in
    let chans1 = set_chan sub c chans in
    (received item (subscribed j subs && has_room (chans1 j)) (chans1 j)
      ≡ received item (subscribed j (sub ∷ subs) && has_room (chans j)) (chans j))
    × ((subscribed j subs && not (has_room (chans1 j)))
        ≡ (subscribed j (sub ∷ subs) && not (has_room (chans j))))

Each-sent_self :
    (item : List Event) (sub : ℕ) (subs : List ℕ) (chans : Chans)
    → subscribed sub subs ≡ false
    → has_room (chans sub) ≡ true
    → Each item sub subs chans sub
Each-sent_self item sub subs chans once room =
    let self : (sub == sub) ≡ true = ground arith in
    (rw (self, once, room) refl, rw (self, once, room) refl)

Each-sent :
    (item : List Event) (sub : ℕ) (subs : List ℕ) (chans : Chans) (j : ℕ)
    → subscribed sub subs ≡ false
    → has_room (chans sub) ≡ true
    → Each item sub subs chans j
Each-sent item sub subs chans j once room = elim (Bool-cases (sub == j)) [
  | inl same ↦
      subst (Each item sub subs chans) (ground (arith, same))
        (Each-sent_self item sub subs chans once room)
  | inr other ↦
      let other' : (j == sub) ≡ false = ground (arith, other) in
      (rw (other, other') refl, rw (other, other') refl)
]

each-slow :
    (item : List Event) (sub : ℕ) (subs : List ℕ) (chans : Chans) (slow : List ℕ) (j : ℕ)
    → subscribed sub subs ≡ false
    → has_room (chans sub) ≡ false
    → (received item (subscribed j subs && has_room (chans j)) (chans j)
        ≡ received item (subscribed j (sub ∷ subs) && has_room (chans j)) (chans j))
      × (subscribed j slow ≡ (subscribed j subs && not (has_room (chans j)))
          → subscribed j (sub ∷ slow) ≡ (subscribed j (sub ∷ subs) && not (has_room (chans j))))
each-slow item sub subs chans slow j once full = elim (Bool-cases (j == sub)) [
  | inl same ↦
      let e : sub ≡ j = ground (arith, same) in
      let full_j : has_room (chans j) ≡ false = subst (λ i. has_room (chans i) ≡ false) e full in
      (ground (arith, same, full_j), λ h. ground (arith, same, full_j))
  | inr other ↦ (rw other refl, λ h. rw other h)
]

push_all-Pushed :
    (item : List Event) (subs : List ℕ) (chans : Chans)
    → All (IsOpen chans) subs
    → AreDistinct subs
    → (chans' : Chans) × (slow : List ℕ) × (push_all item subs chans ≡ some (chans', slow))
      × Pushed item subs chans chans' slow
unfolding push_all
push_all-Pushed item [] chans h d =
    (chans, [], refl, record { each = λ j. refl; slow_each = λ j. refl })
push_all-Pushed item (sub ∷ subs) chans h d = elim (Bool-cases (has_room (chans sub))) [
  | inl room ↦
      let c = record (chans sub) { queue = (chans sub).queue ++ item ∷ [] } in
      let (chans', slow, done, p) =
        push_all-Pushed item subs (set_chan sub c chans) (IsOpen-set_chan sub c chans subs h.0 h.1)
          d.1 in
      let e = λ (j : ℕ). Each-sent item sub subs chans j d.0 room in
      (
        chans',
        slow,
        push_all-sent item sub subs chans h.0 room ∙ done,
        record { each = λ j. p.each j ∙ (e j).0; slow_each = λ j. p.slow_each j ∙ (e j).1 },
      )
  | inr full ↦
      let (chans', slow, done, p) = push_all-Pushed item subs chans h.1 d.1 in
      let e = λ (j : ℕ). each-slow item sub subs chans slow j d.0 full in
      (
        chans',
        sub ∷ slow,
        push_all-slow item sub subs chans chans' slow h.0 full done,
        record { each = λ j. p.each j ∙ (e j).0; slow_each = λ j. (e j).1 (p.slow_each j) },
      )
]

-- One item of the stream, on a hub whose subscribers are open channels, each there once: no send
-- panics, the subscribers stay as they are and open, a channel has received the item once if it is
-- subscribed and had room and is else as before, and the subscribers without room are those that are
-- dropped.
pub stream_item_lem :
    (item : List Event) (w : WatcherHub) (j : ℕ)
    → IsLive w
    → (w' : WatcherHub) × (slow : List ℕ) × (stream_item item w ≡ some (w', slow))
      × IsLive w'
      × (w'.subs ≡ w.subs)
      × (w'.chans j ≡ received item (subscribed j w.subs && has_room (w.chans j)) (w.chans j))
      × (subscribed j slow ≡ (subscribed j w.subs && not (has_room (w.chans j))))
unfolding stream_item
stream_item_lem item w j live =
    let (chans', slow, done, p) = push_all-Pushed item w.subs w.chans live.open_ live.distinct in
    (
      record w { chans = chans' },
      slow,
      ap (λ o. elim o [ none ↦ none | some (cs, sl) ↦ some (record w { chans = cs }, sl) ]) done,
      record {
        open_ = All-map w.subs (λ i is_open. ap (λ c. c.closed) (p.each i) ∙ is_open) live.open_;
        known = live.known;
        distinct = live.distinct;
      },
      refl,
      p.each j,
      p.slow_each j,
    )
