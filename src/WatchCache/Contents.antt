-- ===== src/WatchCache/Contents.antt =====
-- The ring holds the last `l` events that were added, in order.
use native.Mathlib.Nat.{mod-lt, add-zero}
use kubebrain.Base.Modular.{mod-ne}
use kubebrain.Base.{
  ℕ, suc, ◌+◌, ◌-◌, ◌%◌, ◌≤◌, ◌<◌, ◌≡◌, subst, refl, ap, sym, ◌∙◌, List, [], ◌∷◌, ◌++◌, Option,
  none, some, length, get_or, set, drop, ◌==◌, if◌then◌else◌, arith, length-append, length-drop,
  drop-append, drop_one-drop, length-set, length-replicate, get_or-set_self, get_or-set_ne, inl,
  inr, Bool-cases, ==→eq, append-nil, append_assoc,
}
use kubebrain.Message.{Event}
use kubebrain.WatchCache.{Ring, new_ring, add, index}

-- The slots from position `i` on, taken round at `l`, hold the events.
abbrev pub Window : List (Option Event) → ℕ → ℕ → List Event → Type 0
Window arr l i [] = Unit
Window arr l i (x ∷ h) = (get_or arr (i % l) none ≡ some x) × Window arr l (suc i) h

-- The ring holds exactly these events, the oldest first.
pub record Holds (r : Ring) (h : List Event) : Type 0 where
  pub slots : length r.arr ≡ r.l
  pub room : 0 < r.l
  pub bound : length h ≤ r.l
  pub ends : r.e ≡ r.s + length h
  pub fresh : length h ≡ 0 → r.e ≡ 0
  pub window : Window r.arr r.l r.s h

-- A write to a slot outside a window leaves the window.
Window-set :
    (arr : List (Option Event)) (l i j : ℕ) (v : Option Event) (h : List Event)
    → i + length h ≤ j
    → j < i + l
    → Window arr l i h
    → Window (set arr (j % l) v) l i h
Window-set arr l i j v [] a b w = tt
Window-set arr l i j v (x ∷ h) a b w = (
  get_or-set_ne arr v none
        (λ e. mod-ne l i (j - i) (omega arith) (omega arith) (ap (λ k. k % l) (omega arith) ∙ e))
      ∙ w.0,
  Window-set arr l (suc i) j v h (omega arith) (omega arith) w.1,
)

pub Window-append :
    (arr : List (Option Event)) (l i : ℕ) (h k : List Event)
    → Window arr l i h
    → Window arr l (i + length h) k
    → Window arr l i (h ++ k)
Window-append arr l i [] k w v = rw add-zero at v
Window-append arr l i (x ∷ h) k w v =
    (w.0, Window-append arr l (suc i) h k w.1 (subst (λ n. Window arr l n k) (omega arith) v))

pub Window-split :
    (arr : List (Option Event)) (l i : ℕ) (h k : List Event)
    → Window arr l i (h ++ k)
    → Window arr l i h × Window arr l (i + length h) k
Window-split arr l i [] k w = (tt, rw add-zero w)
Window-split arr l i (x ∷ h) k w =
    let (a, b) = Window-split arr l (suc i) h k w.1 in
    ((w.0, a), subst (λ n. Window arr l n k) (omega arith) b)

-- What the ring keeps of its contents and one more event.
unfoldable pub keep_last : ℕ → List Event → Event → List Event
keep_last l h x = if length h == l then drop 1 h ++ x ∷ [] else h ++ x ∷ []

module _ {r : Ring} {h : List Event} (x : Event) (v : Holds r h) where
  open v use {slots, room, bound, ends, window}

  written : get_or (set r.arr (r.e % r.l) (some x)) (r.e % r.l) none ≡ some x
  written = get_or-set_self r.arr (r.e % r.l) (some x) none (omega (arith, mod-lt r.e room))

  -- the slot behind the window now holds the event
  Window-written : (i : ℕ) → i ≡ r.e → Window (set r.arr (r.e % r.l) (some x)) r.l i (x ∷ [])
  Window-written i e =
      (ap (λ k. get_or (set r.arr (r.e % r.l) (some x)) (k % r.l) none) e ∙ written, tt)

  Holds-room :
      (s' : ℕ)
      → s' ≡ r.s
      → length h < r.l
      → Holds (record r { s = s'; e = r.e + 1; arr = set r.arr (r.e % r.l) (some x) }) (h ++ x ∷ [])
  Holds-room s' same lt = record {
    slots = length-set r.arr (r.e % r.l) (some x) ∙ slots;
    room = room;
    bound = omega (arith, length-append h (x ∷ []));
    ends = omega (arith, length-append h (x ∷ []));
    fresh = λ z. absurd (omega (arith, length-append h (x ∷ [])));
    window = rw same (
        Window-append (set r.arr (r.e % r.l) (some x)) r.l r.s h (x ∷ [])
          (Window-set r.arr r.l r.s r.e (some x) h (omega arith) (omega arith) window)
          (Window-written (r.s + length h) (sym ends)));
  }

Holds-full :
    {r : Ring} (y : Event) (h : List Event) (x : Event)
    → Holds r (y ∷ h)
    → (s' : ℕ) → s' ≡ r.s + 1
    → length (y ∷ h) ≡ r.l
    → Holds (record r { s = s'; e = r.e + 1; arr = set r.arr (r.e % r.l) (some x) }) (h ++ x ∷ [])
Holds-full {r} y h x v s' next full = record {
  slots = length-set r.arr (r.e % r.l) (some x) ∙ v.slots;
  room = v.room;
  bound = omega (arith, length-append h (x ∷ []));
  ends = omega (arith, v.ends, length-append h (x ∷ []));
  fresh = λ z. absurd (omega (arith, length-append h (x ∷ [])));
  window = rw next (
      subst (λ k. Window (set r.arr (r.e % r.l) (some x)) r.l k (h ++ x ∷ [])) (omega arith)
        (Window-append (set r.arr (r.e % r.l) (some x)) r.l (suc r.s) h (x ∷ [])
          (Window-set r.arr r.l (suc r.s) r.e (some x) h (omega (arith, v.ends))
            (omega (arith, v.ends)) v.window.1)
          (Window-written x v (suc r.s + length h) (omega (arith, v.ends)))));
}

-- Add keeps the ring in step with its contents: it appends the event, and drops the oldest one
-- exactly if the ring was full.
pub add-Holds :
    {r : Ring} (h : List Event) (x : Event) → Holds r h → Holds (add r x) (keep_last r.l h x)
unfolding add index keep_last
add-Holds {r} h x v = elim (Bool-cases (length h == r.l)) [
  | inl full ↦ rw full (add_full h v (==→eq (length h) r.l full))
  | inr short ↦ rw short (
      Holds-room x v (if r.e == r.s + r.l then r.s + 1 else r.s) (ground (arith, v.ends))
        (ground (arith, v.bound)))
]
  where
    add_full :
        (k : List Event)
        → Holds r k
        → length k ≡ r.l
        → Holds
            (record r {
              arr = set r.arr (r.e % r.l) (some x);
              s = if r.e == r.s + r.l then r.s + 1 else r.s;
              e = r.e + 1;
            })
            (drop 1 k ++ x ∷ [])
    add_full [] w e = absurd (omega (arith, w.room))
    add_full (y ∷ k) w e =
        Holds-full y k x w (if r.e == r.s + r.l then r.s + 1 else r.s) (ground (arith, w.ends)) e

pub l-add : (r : Ring) (x : Event) → (add r x).l ≡ r.l
unfolding add
l-add r x = refl

unfoldable pub add_all : Ring → List Event → Ring
add_all r [] = r
add_all r (x ∷ xs) = add_all (add r x) xs

-- the last `l` of a history, the oldest first
unfoldable pub last_n : ℕ → List Event → List Event
last_n l h = drop (length h - l) h

keep_last-last_n :
    (l : ℕ) (h : List Event) (x : Event)
    → 0 < l
    → keep_last l (last_n l h) x ≡ last_n l (h ++ x ∷ [])
unfolding keep_last last_n
keep_last-last_n l h x p = elim (Bool-cases (length (drop (length h - l) h) == l)) [
  | inl full ↦
      let e : length h - (length h - l) ≡ l = sym (length-drop (length h - l) h) ∙ ==→eq _ l full in
      let q : suc (length h - l) ≡ length (h ++ x ∷ []) - l =
        omega (arith, e, p, length-append h (x ∷ [])) in
      rw full (
        ap (λ d. d ++ x ∷ []) (drop_one-drop (length h - l) h)
        ∙ sym (drop-append (suc (length h - l)) h (x ∷ []) (omega (arith, e, p)))
        ∙ ap (λ n. drop n (h ++ x ∷ [])) q)
  | inr short ↦
      let lt : length h < l = ground (arith, length-drop (length h - l) h) in
      let e : length h - l ≡ 0 = omega (arith, lt) in
      let q : 0 ≡ length (h ++ x ∷ []) - l = omega (arith, lt, length-append h (x ∷ [])) in
      rw (short, e) (ap (λ n. drop n (h ++ x ∷ [])) q)
]

Holds-new_ring : (l : ℕ) → 0 < l → Holds (new_ring l) []
unfolding new_ring
Holds-new_ring l p = record {
  slots = length-replicate l none;
  room = p;
  bound = omega arith;
  ends = refl;
  fresh = λ _. refl;
  window = tt;
}

last_n-nil : (l : ℕ) → [] ≡ last_n l []
unfolding last_n
last_n-nil l = let e : 0 ≡ 0 - l = omega arith in ap (λ n. drop {A = Event} n []) e

add_all-Holds :
    (r : Ring) (l : ℕ) (h es : List Event)
    → 0 < l
    → r.l ≡ l
    → Holds r (last_n l h)
    → Holds (add_all r es) (last_n l (h ++ es))
unfolding add_all
add_all-Holds r l h [] p c v = rw append-nil v
add_all-Holds r l h (x ∷ es) p c v =
    subst (λ k. Holds (add_all (add r x) es) (last_n l k)) (append_assoc h (x ∷ []) es)
      (add_all-Holds (add r x) l (h ++ x ∷ []) es p (l-add r x ∙ c) (
        subst (Holds (add r x)) (ap (λ n. keep_last n (last_n l h) x) c ∙ keep_last-last_n l h x p)
          (add-Holds (last_n l h) x v)))

-- A ring of `l > 0` slots to which any events were added, one by one, holds exactly the last `l`
-- of them (all, if there were fewer), in order.
pub add_all-new_ring :
    (l : ℕ) (es : List Event) → 0 < l → Holds (add_all (new_ring l) es) (last_n l es)
add_all-new_ring l es p =
    add_all-Holds (new_ring l) l [] es p (unfold new_ring in refl)
      (subst (Holds (new_ring l)) (last_n-nil l) (Holds-new_ring l p))
