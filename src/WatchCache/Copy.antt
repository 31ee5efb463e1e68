-- ===== src/WatchCache/Copy.antt =====
-- The slices that FindEvents copies are the tail of the ring's contents.
use native.Mathlib.Nat.{mod-lt}
use mathlib.Core.List.{map, map-append}
use kubebrain.Base.{
  ℕ, zero, suc, ◌+◌, ◌-◌, ◌%◌, ◌≤◌, ◌<◌, ◌≡◌, subst, refl, ap, sym, ◌∙◌, List, [], ◌∷◌, ◌++◌,
  Option, none, some, length, get_or, take, drop, replicate, arith, length-append, length-drop,
  length-take, drop-suc, inl, inr, lt→ltb, le→ltb-false, take-append_length, drop-append_length,
  append-nil, take-append-drop, length-replicate,
}
use kubebrain.Base.Modular.{mod-add_cases}
use kubebrain.Message.{Event}
use kubebrain.WatchCache.{Ring, index, copy, copy_slices, copy_from}
use kubebrain.WatchCache.Contents.{Window, Holds, Window-split}

mod-suc : (l i a : ℕ) → suc a < l → a ≡ i % l → suc a ≡ suc i % l
mod-suc l i a h e = elim (mod-add_cases l i 1 (omega arith) (omega arith)) [
  | inl c ↦ ap suc e ∙ plus_one (i % l) ∙ sym c.1 ∙ ap (λ k. k % l) (sym (plus_one i))
  | inr c ↦ omega arith
]
  where
    plus_one : (n : ℕ) → suc n ≡ n + 1
    plus_one n = omega arith

-- A window that does not go round is a slice.
take-drop-Window :
    (arr : List (Option Event)) (l i a : ℕ) (h : List Event)
    → length arr ≡ l
    → a ≡ i % l
    → a < l
    → a + length h ≤ l
    → Window arr l i h
    → take (length h) (drop a arr) ≡ map some h
take-drop-Window arr l i a [] e m p b w = refl
take-drop-Window arr l i a (x ∷ []) e m p b w =
    rw (drop-suc arr a none (omega (arith, e)), ap (λ k. get_or arr k none) m, w.0)
take-drop-Window arr l i a (x ∷ y ∷ h) e m p b w =
    rw (drop-suc arr a none (omega (arith, e)), ap (λ k. get_or arr k none) m, w.0)
      (ap (λ t. some x ∷ t)
        (take-drop-Window arr l (suc i) (suc a) (y ∷ h) e (mod-suc l i a (omega arith) m)
          (omega arith) (omega arith) w.1))

module _ {A : Type 0} where
  take_all : (n : ℕ) (xs : List A) → length xs ≤ n → take n xs ≡ xs
  take_all zero [] h = refl
  take_all zero (x ∷ xs) h = absurd (omega arith)
  take_all (suc n) [] h = refl
  take_all (suc n) (x ∷ xs) h = ap (λ t. x ∷ t) (take_all n xs (omega arith))

  drop_all : (n : ℕ) (xs : List A) → length xs ≤ n → drop n xs ≡ []
  drop_all zero [] h = refl
  drop_all zero (x ∷ xs) h = absurd (omega arith)
  drop_all (suc n) [] h = refl
  drop_all (suc n) (x ∷ xs) h = drop_all n xs (omega arith)

-- Copying as many items as there is room for gives those items.
copy_same : (dst src : List (Option Event)) → length dst ≡ length src → copy dst src ≡ src
copy_same dst src e =
    ap (λ t. t ++ drop (length src) dst) (take_all (length dst) src (omega (arith, e)))
    ∙ ap (λ t. src ++ t) (drop_all (length src) dst (omega (arith, e)))
    ∙ append-nil src

pub length-map : (h : List Event) → length (map some h) ≡ length h
length-map [] = refl
length-map (x ∷ h) = ap suc (length-map h)

copy_slices_straight :
    (arr : List (Option Event)) (l start stop m : ℕ) (src : List (Option Event))
    → start < stop
    → take (stop - start) (drop start arr) ≡ src
    → m ≡ length src
    → copy_slices arr l start stop m ≡ some src
unfolding copy_slices
copy_slices_straight arr l start stop m src lt e len =
    rw (lt→ltb start stop lt, e)
      (ap some (copy_same (replicate m none) src (length-replicate m none ∙ len)))

module _ (arr : List (Option Event)) (l start stop : ℕ) (slots : length arr ≡ l)
    (inside : start ≤ l) (round : stop ≤ start) where
  abbrev gap : List (Option Event)
  gap = drop (length (drop start arr)) (replicate (l - start + stop) none)

  length-after : length (drop start arr) ≡ l - start
  length-after = length-drop start arr ∙ ap (λ n. n - start) slots

  first-copy : copy (replicate (l - start + stop) none) (drop start arr) ≡ drop start arr ++ gap
  first-copy =
      ap (λ t. t ++ gap)
        (take_all (length (replicate {A = Option Event} (l - start + stop) none)) (drop start arr) (
          omega (arith, length-after, length-replicate {A = Option Event} (l - start + stop) none)))

  length-gap : length gap ≡ stop
  length-gap = omega (
    arith,
    length-drop (length (drop start arr)) (replicate {A = Option Event} (l - start + stop) none),
    length-after,
    length-replicate {A = Option Event} (l - start + stop) none,
  )

  length-take_stop : length (take stop arr) ≡ stop
  length-take_stop = length-take stop arr (omega (arith, slots))

  take-first : take (l - start) (drop start arr ++ gap) ≡ drop start arr
  take-first =
      subst (λ n. take n (drop start arr ++ gap) ≡ drop start arr) length-after
        (take-append_length (drop start arr) gap)

  drop-first : drop (l - start) (drop start arr ++ gap) ≡ gap
  drop-first =
      subst (λ n. drop n (drop start arr ++ gap) ≡ gap) length-after
        (drop-append_length (drop start arr) gap)

  copy_slices_round :
      copy_slices arr l start stop (l - start + stop) ≡ some (drop start arr ++ take stop arr)
  unfolding copy_slices
  copy_slices_round =
      rw
        (
          le→ltb-false start stop round,
          first-copy,
          le→ltb-false (length (drop start arr ++ gap)) (l - start)
              (omega (arith, length-append (drop start arr) gap, length-after)),
          take-first,
          drop-first,
        )
        (ap (λ t. some (drop start arr ++ t))
          (copy_same gap (take stop arr) (length-gap ∙ sym length-take_stop)))

-- The copy out of the ring is the tail of its contents.
module _ (r : Ring) (h k : List Event) (v : Holds r (h ++ k)) (some_left : 0 < length k) where
  tail-Window : Window r.arr r.l (r.s + length h) k
  tail-Window = (Window-split r.arr r.l r.s h k v.window).1

  stop_eq : r.e ≡ r.s + length h + length k
  stop_eq = omega (arith, v.ends, length-append h k)

  tail_fits : length k ≤ r.l
  tail_fits = omega (arith, v.bound, length-append h k)

  start_lt : (r.s + length h) % r.l < r.l
  start_lt = mod-lt (r.s + length h) v.room

  abbrev start : ℕ
  start = (r.s + length h) % r.l

  -- the part of the tail up to the end of the array, and the part that goes round
  abbrev front : List Event
  front = take (r.l - start) k

  abbrev back : List Event
  back = drop (r.l - start) k

  length-slice : length (drop start r.arr) ≡ r.l - start
  length-slice = length-drop start r.arr ∙ ap (λ n. n - start) v.slots

  copy_straight :
      start + length k < r.l
      → r.e % r.l ≡ start + length k
      → copy_slices r.arr r.l start (r.e % r.l) (r.e - r.s - length h) ≡ some (map some k)
  copy_straight lt stop =
      let n : length k ≡ r.e % r.l - start = omega (arith, stop) in
      copy_slices_straight r.arr r.l start (r.e % r.l) (r.e - r.s - length h) (map some k)
        (omega (arith, stop))
        (subst (λ n. take n (drop start r.arr) ≡ map some k) n
          (take-drop-Window r.arr r.l (r.s + length h) start k v.slots refl start_lt (omega arith)
            tail-Window))
        (omega (arith, stop_eq, length-map k))

  module _ (le : r.l ≤ start + length k) where
    length-front : length front ≡ r.l - start
    length-front = length-take (r.l - start) k (omega arith)

    both_windows :
        Window r.arr r.l (r.s + length h) front
        × Window r.arr r.l (r.s + length h + length front) back
    both_windows =
        Window-split r.arr r.l (r.s + length h) front back
          (rw (take-append-drop (r.l - start) k) tail-Window)

    front-slice : drop start r.arr ≡ map some front
    front-slice =
        sym (take_all (length front) (drop start r.arr) (omega (arith, length-front, length-slice)))
        ∙ take-drop-Window r.arr r.l (r.s + length h) start front v.slots refl start_lt
            (omega (arith, length-front, start_lt)) both_windows.0

    back_start : 0 ≡ (r.s + length h + length front) % r.l
    back_start =
        elim (mod-add_cases r.l (r.s + length h) (length front) v.room
          (omega (arith, length-front))) [
            | inl c ↦ omega (arith, length-front, start_lt)
            | inr c ↦ omega (arith, c.1, length-front, start_lt)
          ]

    back-slice : take (length back) r.arr ≡ map some back
    back-slice =
        take-drop-Window r.arr r.l (r.s + length h + length front) 0 back v.slots back_start v.room
          (omega (arith, length-drop (r.l - start) k, tail_fits)) both_windows.1

    copy_round :
        r.e % r.l ≡ start + length k - r.l
        → copy_slices r.arr r.l start (r.e % r.l) (r.e - r.s - length h) ≡ some (map some k)
    copy_round stop =
        let m : r.e - r.s - length h ≡ r.l - start + r.e % r.l =
          omega (arith, stop, stop_eq, start_lt) in
        let n : r.e % r.l ≡ length back = omega (arith, stop, length-drop (r.l - start) k) in
        ap (copy_slices r.arr r.l start (r.e % r.l)) m
        ∙ copy_slices_round r.arr r.l start (r.e % r.l) v.slots (omega (arith, start_lt))
            (omega (arith, stop, tail_fits))
        ∙ ap (λ t. some (t ++ take (r.e % r.l) r.arr)) front-slice
        ∙ ap (λ t. some (map some front ++ t)) (ap (λ b. take b r.arr) n ∙ back-slice)
        ∙ ap some (sym (map-append some front back))
        ∙ ap (λ t. some (map some t)) (take-append-drop (r.l - start) k)

  pub copy_from-contents : copy_from r (length h) ≡ some (map some k)
  unfolding copy_from index
  copy_from-contents = elim (mod-add_cases r.l (r.s + length h) (length k) v.room tail_fits) [
    | inl (lt, stop) ↦ copy_straight lt (ap (λ n. n % r.l) stop_eq ∙ stop)
    | inr (le, stop) ↦ copy_round le (ap (λ n. n % r.l) stop_eq ∙ stop)
  ]
