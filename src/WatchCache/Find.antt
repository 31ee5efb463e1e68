-- ===== src/WatchCache/Find.antt =====
-- FindEvents on a ring that holds a window of events with increasing revisions.
use mathlib.Core.List.{map}
use native.Mathlib.Nat.{add-zero}
use kubebrain.Base.{
  ℕ, zero, suc, ◌+◌, ◌-◌, ◌%◌, ◌≤◌, ◌<◌, ◌≡◌, subst, refl, ap, sym, ◌∙◌, List, [], ◌∷◌, ◌++◌,
  Option, none, some, true, false, length, get_or, ltb, leb, if◌then◌else◌, arith, length-append,
  inl, inr, Bool-cases, All, le→leb, leb→le, All-map,
}
use kubebrain.Base.Search.{Switches, search_index_lem}
use kubebrain.Message.{Event}
use kubebrain.WatchCache.{
  Ring, index, is_empty, newest, oldest, FindRet, no_ret, slot_at_least, at_least, find_within,
  find_events,
}
use kubebrain.WatchCache.Contents.{Window, Holds, Window-split}
use kubebrain.WatchCache.Copy.{copy_from-contents}

-- Revisions increase along the list.
abbrev pub IsIncreasing : List Event → Type 0
IsIncreasing [] = Unit
IsIncreasing (x ∷ h) = All (λ y. x.revision < y.revision) h × IsIncreasing h

-- the events at or above a revision
unfoldable pub from_revision : ℕ → List Event → List Event
from_revision rev [] = []
from_revision rev (x ∷ h) =
    let rest = from_revision rev h in if leb rev x.revision then x ∷ rest else rest

-- the events below a revision
unfoldable pub below_revision : ℕ → List Event → List Event
below_revision rev [] = []
below_revision rev (x ∷ h) =
    let rest = below_revision rev h in if leb rev x.revision then rest else x ∷ rest

first : List Event → Option Event
first [] = none
first (x ∷ h) = some x

unfoldable pub last : List Event → Option Event
last [] = none
last (x ∷ []) = some x
last (x ∷ y ∷ h) = last (y ∷ h)

-- What FindEvents promises of the events that the ring holds.
unfoldable pub find_spec : List Event → ℕ → FindRet
unfolding first last
find_spec [] rev = record no_ret { empty = true }
find_spec (x ∷ h) rev = elim (last (x ∷ h)) [
  | none ↦ no_ret
  | some new ↦
      let ret = record no_ret { newest = some new; oldest = some x } in
      if ltb new.revision rev
      then record ret { high = true }
      else if ltb rev x.revision
      then record ret { low = true }
      else record ret { events = map some (from_revision rev (x ∷ h)) }
]

-- above a revision that is reached, nothing is left out
pub from-above :
    (rev : ℕ) (x : Event) (h : List Event)
    → rev ≤ x.revision
    → All (λ y. x.revision < y.revision) h
    → (from_revision rev h ≡ h) × (below_revision rev h ≡ [])
unfolding below_revision from_revision
from-above rev x [] p a = (refl, refl)
from-above rev x (y ∷ h) p a =
    let (f, b) = from-above rev x h p a.1 in
    rw (le→leb rev y.revision (omega (arith, a.0))) (ap (λ t. y ∷ t) f, b)

-- In an increasing list the events below a revision stand before the others.
below-append-from :
    (rev : ℕ) (h : List Event) → IsIncreasing h → below_revision rev h ++ from_revision rev h ≡ h
unfolding below_revision from_revision
below-append-from rev [] s = refl
below-append-from rev (x ∷ h) s = elim (Bool-cases (leb rev x.revision)) [
  | inl above ↦
      let (f, b) = from-above rev x h (leb→le rev x.revision above) s.0 in
      rw above (ap (λ t. t ++ x ∷ from_revision rev h) b ∙ ap (λ t. x ∷ t) f)
  | inr below ↦ rw below (ap (λ t. x ∷ t) (below-append-from rev h s.1))
]

below_revision-All :
    (rev : ℕ) (h : List Event) → All (λ y. leb rev y.revision ≡ false) (below_revision rev h)
unfolding below_revision
below_revision-All rev [] = tt
below_revision-All rev (x ∷ h) = elim (Bool-cases (leb rev x.revision)) [
  | inl above ↦ rw above (below_revision-All rev h)
  | inr below ↦ rw below (below, below_revision-All rev h)
]

from_revision-All :
    (rev : ℕ) (h : List Event) → All (λ y. leb rev y.revision ≡ true) (from_revision rev h)
unfolding from_revision
from_revision-All rev [] = tt
from_revision-All rev (x ∷ h) = elim (Bool-cases (leb rev x.revision)) [
  | inl above ↦ rw above (above, from_revision-All rev h)
  | inr below ↦ rw below (from_revision-All rev h)
]

length-from_revision-pos :
    (rev : ℕ) (h : List Event) (new : Event)
    → last h ≡ some new
    → rev ≤ new.revision
    → 0 < length (from_revision rev h)
unfolding last from_revision
length-from_revision-pos rev [] new e p = absurd (cc)
length-from_revision-pos rev (x ∷ []) new e p = ground arith
length-from_revision-pos rev (x ∷ y ∷ h) new e p =
    let ih = length-from_revision-pos rev (y ∷ h) new e p in
    elim (Bool-cases (leb rev x.revision)) [
      | inl above ↦ rw above (omega arith)
      | inr below ↦ rw below ih
    ]

-- What holds of every event of a window holds of the slot of each.
Window-All :
    (P : Option Event → Type 0) (arr : List (Option Event)) (l i j : ℕ) (h : List Event)
    → Window arr l i h
    → All (λ y. P (some y)) h
    → j < length h
    → P (get_or arr ((i + j) % l) none)
Window-All P arr l i j [] w a lt = absurd (omega arith)
Window-All P arr l i zero (x ∷ h) w a lt = rw (add-zero, w.0) a.0
Window-All P arr l i (suc j) (x ∷ h) w a lt =
    subst (λ n. P (get_or arr (n % l) none)) (omega arith)
      (Window-All P arr l (suc i) j h w.1 a.1 (omega arith))

pub last-split :
    (x : Event) (h : List Event)
    → (init : List Event) × (new : Event) × (x ∷ h ≡ init ++ new ∷ []) × (last (x ∷ h) ≡ some new)
unfolding last
last-split x [] = ([], x, refl, refl)
last-split x (y ∷ h) =
    let (init, new, e, l) = last-split y h in (x ∷ init, new, ap (λ t. x ∷ t) e, l)

newest-last : {r : Ring} (x : Event) (h : List Event) → Holds r (x ∷ h) → newest r ≡ last (x ∷ h)
unfolding newest index
newest-last {r} x h v =
    let (init, new, e, l) = last-split x h in
    let at : r.e - 1 ≡ r.s + length init =
      omega (arith, v.ends, ap length e, length-append init (new ∷ [])) in
    ap (λ n. get_or r.arr (n % r.l) none) at
    ∙ (Window-split r.arr r.l r.s init (new ∷ []) (subst (Window r.arr r.l r.s) e v.window)).1.0
    ∙ sym l

oldest-first : {r : Ring} (x : Event) (h : List Event) → Holds r (x ∷ h) → oldest r ≡ some x
unfolding oldest index
oldest-first x h v = v.window.0

is_empty-false : {r : Ring} (x : Event) (h : List Event) → Holds r (x ∷ h) → is_empty r ≡ false
unfolding is_empty
is_empty-false x h v = ground (arith, v.ends)

module _ (r : Ring) (h k : List Event) (rev : ℕ) (v : Holds r (h ++ k))
    (below : All (λ y. leb rev y.revision ≡ false) h)
    (from : All (λ y. leb rev y.revision ≡ true) k) where
  windows : Window r.arr r.l r.s h × Window r.arr r.l (r.s + length h) k
  windows = Window-split r.arr r.l r.s h k v.window

  at_least-Switches : Switches (r.e - r.s) (length h) (at_least r rev)
  unfolding at_least
  at_least-Switches = record {
    below = λ i lt.
        Window-All (λ o. slot_at_least rev o ≡ some false) r.arr r.l r.s i h windows.0
          (All-map h (λ y e. ap some e) below) lt;
    above = λ i ge lt.
        let at : r.s + length h + (i - length h) ≡ r.s + i = omega (arith, ge) in
        subst (λ n. slot_at_least rev (get_or r.arr (n % r.l) none) ≡ some true) at
          (Window-All (λ o. slot_at_least rev o ≡ some true) r.arr r.l (r.s + length h)
            (i - length h) k windows.1 (All-map k (λ y e. ap some e) from)
            (omega (arith, v.ends, length-append h k)));
  }

  find_within-contents :
      (ret : FindRet)
      → 0 < length k
      → find_within r rev ret ≡ some (record ret { events = map some k })
  unfolding find_within
  find_within-contents ret p = ground (
    arith,
    search_index_lem (r.e - r.s) (length h) (at_least r rev)
        (omega (arith, v.ends, length-append h k)) at_least-Switches,
    copy_from-contents r h k v p,
  )

-- The search below the newest revision finds the events from the revision on.
find_within-from :
    (r : Ring) (h : List Event) (rev : ℕ) (new : Event) (ret : FindRet)
    → Holds r h
    → IsIncreasing h
    → last h ≡ some new
    → ltb new.revision rev ≡ false
    → find_within r rev ret ≡ some (record ret { events = map some (from_revision rev h) })
find_within-from r h rev new ret v inc l reached =
    find_within-contents r (below_revision rev h) (from_revision rev h) rev
      (subst (Holds r) (sym (below-append-from rev h inc)) v) (below_revision-All rev h)
      (from_revision-All rev h) ret (length-from_revision-pos rev h new l (ground arith))

-- FindEvents, on a ring that holds events with increasing revisions, never panics, and answers as
-- promised: that there are none; that the revision is above the newest or below the oldest; or else
-- with exactly the events from the revision on, in order.
pub find_events_lem :
    {r : Ring} (h : List Event) (rev : ℕ)
    → Holds r h
    → IsIncreasing h
    → find_events r rev ≡ some (find_spec h rev)
unfolding find_events find_spec
find_events_lem {r} [] rev v inc = rw (v.fresh refl)
find_events_lem {r} (x ∷ h) rev v inc =
    let (init, new, e, l) = last-split x h in
    ground (
      arith,
      is_empty-false x h v,
      newest-last x h v,
      oldest-first x h v,
      l,
      find_within-from r (x ∷ h) rev new (record no_ret { newest = some new; oldest = some x }) v
          inc l,
    )
