-- ===== src/WatcherHub/Members.antt =====
-- The subscribers of the hub come and go.
use kubebrain.Base.{
  ℕ, ◌<◌, ◌≡◌, refl, inl, inr, List, [], ◌∷◌, true, false, ◌==◌, All, All-map, arith, Bool-cases,
}
use kubebrain.WatcherHub.{WatcherHub, subscribed, without, add_watcher, delete_watcher}
use kubebrain.WatcherHub.Broadcast.{AreDistinct, IsLive, IsOpen-set_chan}

fresh : (n : ℕ) (subs : List ℕ) → All (λ i. i < n) subs → subscribed n subs ≡ false
fresh n [] h = refl
fresh n (i ∷ subs) h = ground (arith, h.0, fresh n subs h.1)

-- A new subscriber, which gets an open empty channel of its own, keeps the subscribers open and
-- distinct.
pub add_watcher-IsLive : (w : WatcherHub) → IsLive w → IsLive (add_watcher w).0
unfolding add_watcher
add_watcher-IsLive w live = record {
  open_ = (
    rw (self w.next) refl,
    IsOpen-set_chan w.next (record { queue = []; closed = false }) w.chans w.subs refl live.open_,
  );
  known = (omega arith, All-map w.subs (λ i low. omega (arith, low)) live.known);
  distinct = (fresh w.next w.subs live.known, live.distinct);
}
  where
    self : (n : ℕ) → (n == n) ≡ true
    self n = ground arith

subscribed-without :
    (i sub : ℕ) (subs : List ℕ)
    → subscribed i subs ≡ false
    → subscribed i (without sub subs) ≡ false
subscribed-without i sub [] h = refl
subscribed-without i sub (j ∷ subs) h =
    let (apart, rest) : ((i == j) ≡ false) × (subscribed i subs ≡ false) =
      (ground (arith, h), ground (arith, h)) in
    elim (Bool-cases (sub == j)) [
      | inl same ↦ rw same (subscribed-without i sub subs rest)
      | inr other ↦ rw (other, apart) (subscribed-without i sub subs rest)
    ]

-- What holds of every other subscriber holds of those that are left.
All-without :
    (P Q : ℕ → Type 0) (sub : ℕ) (subs : List ℕ)
    → ((i : ℕ) → (sub == i) ≡ false → P i → Q i)
    → All P subs
    → All Q (without sub subs)
All-without P Q sub [] f h = tt
All-without P Q sub (i ∷ subs) f h = elim (Bool-cases (sub == i)) [
  | inl same ↦ rw same (All-without P Q sub subs f h.1)
  | inr other ↦ rw other (f i other h.0, All-without P Q sub subs f h.1)
]

without-AreDistinct : (sub : ℕ) (subs : List ℕ) → AreDistinct subs → AreDistinct (without sub subs)
without-AreDistinct sub [] h = tt
without-AreDistinct sub (i ∷ subs) h = elim (Bool-cases (sub == i)) [
  | inl same ↦ rw same (without-AreDistinct sub subs h.1)
  | inr other ↦ rw other (subscribed-without i sub subs h.0, without-AreDistinct sub subs h.1)
]

-- Deleting a subscriber, or what is none any more, leaves the other subscribers open and distinct.
pub delete_watcher-IsLive : (sub : ℕ) (w : WatcherHub) → IsLive w → IsLive (delete_watcher sub w)
unfolding delete_watcher
delete_watcher-IsLive sub w live = elim (Bool-cases (subscribed sub w.subs)) [
  | inr gone ↦ rw gone live
  | inl there ↦ rw there (record {
    open_ = All-without _ _ sub w.subs (λ i other is_open. rw other is_open) live.open_;
    known = All-without _ _ sub w.subs (λ i other low. low) live.known;
    distinct = without-AreDistinct sub w.subs live.distinct;
  })
]
