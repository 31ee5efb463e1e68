-- ===== src/Scanner/Visible/Order.antt =====
-- How what a read sees changes with the version at the front.
use kubebrain.Base.{
  ◌≢◌, ◌≡◌, refl, inl, inr, List, [], ◌∷◌, true, false, ltb, Ordering, arith, All, All-map,
  Bool-cases, ap, ℕ, sym, subst,
}
use kubebrain.Base.Bytes.{Bytes, cmp, equal, equal→eq, cmp_refl, equal_refl, cmp-lt_trans}
use kubebrain.Message.{KeyValue}
use kubebrain.Scanner.Visible.{Before, replaced, shown, visible}

pub cmp-lt→unequal : (a b : Bytes) → cmp a b ≡ Ordering.lt → equal b a ≡ false
cmp-lt→unequal a b h = elim (Bool-cases (equal b a)) [
  | inr ne ↦ ne
  | inl e ↦ absurd (ground (arith, cmp_refl b, h, ap (λ x. cmp x b) (equal→eq b a e)))
]

pub replaced-above :
    (r : ℕ) (key : Bytes) (ws : List KeyValue)
    → All (λ w. cmp key w.key ≡ Ordering.lt) ws
    → replaced r key ws ≡ false
unfolding replaced
replaced-above r key [] h = refl
replaced-above r key (w ∷ ws) h =
    ground (arith, cmp-lt→unequal key w.key h.0, replaced-above r key ws h.1)

above_trans :
    (a : Bytes) (v : KeyValue) (ws : List KeyValue)
    → cmp a v.key ≡ Ordering.lt
    → All (Before v) ws
    → All (λ w. cmp a w.key ≡ Ordering.lt) ws
above_trans a v ws h b =
    All-map ws
      (λ w o. elim o [
        | inl l ↦ cmp-lt_trans a v.key w.key h l
        | inr e ↦ subst (λ k. cmp a k ≡ Ordering.lt) e.0 h
      ])
      b

-- A version of another key follows: nothing behind it has this key.
pub replaced-other :
    (r : ℕ) (p v : KeyValue) (ws : List KeyValue)
    → Before p v
    → All (Before v) ws
    → equal v.key p.key ≡ false
    → replaced r p.key (v ∷ ws) ≡ false
replaced-other r p v ws b h ne = elim b [
  | inl l ↦ replaced-above r p.key (v ∷ ws) (l, above_trans p.key v ws l h)
  | inr e ↦ absurd (ground (arith, ne, equal_refl v.key, ap (λ k. equal v.key k) e.0))
]

-- A version above the revision neither shows nor replaces.
pub visible-above :
    (r : ℕ) (t : Bytes) (p v : KeyValue) (vs : List KeyValue)
    → ltb r v.revision ≡ true
    → visible r t (p ∷ v ∷ vs) ≡ visible r t (p ∷ vs)
unfolding visible replaced shown
visible-above r t p v vs h = ground arith

-- A version with the same key and a revision up to `r` replaces the one before it.
pub visible-replaced :
    (r : ℕ) (t : Bytes) (p v : KeyValue) (vs : List KeyValue)
    → ltb r v.revision ≡ false
    → equal v.key p.key ≡ true
    → visible r t (p ∷ v ∷ vs) ≡ visible r t (v ∷ vs)
unfolding visible replaced
visible-replaced r t p v vs h e =
    ground (arith, equal_refl p.key, ap (λ k. equal k p.key) (equal→eq v.key p.key e))

-- ... and no later one.
pub other-keys :
    (p v : KeyValue) (ws : List KeyValue)
    → Before p v
    → All (Before v) ws
    → v.key ≢ p.key
    → All (λ w. w.key ≢ p.key) (v ∷ ws)
other-keys p v ws (inr e) h ne = absurd (ne (sym e.0))
other-keys p v ws (inl l) h ne =
    (ne, All-map ws (λ w lt e. absurd (cmp_lt_ne p.key w.key lt e)) (above_trans p.key v ws l h))
  where
    cmp_lt_ne : (a b : Bytes) → cmp a b ≡ Ordering.lt → b ≢ a
    cmp_lt_ne a b lt e = ground (arith, lt, cmp_refl b, ap (λ x. cmp x b) e)
