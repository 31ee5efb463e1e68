-- ===== src/Compact/Prefix.antt =====
-- PrefixEnd is the end of the range of the keys with a prefix.
use kubebrain.Base.{
  ◌+◌, ◌≡◌, refl, ap, subst, inl, inr, [], ◌∷◌, none, some, Bool, true, false, not, ◌&&◌, ltb,
  Ordering, All, arith, Bool-cases, Option-cases, some_injective,
}
use kubebrain.Base.Bytes.{Bytes, IsByte, cmp, has_prefix}
use kubebrain.MemKv.{same_ordering}
use kubebrain.Compact.{raise_last, no_prefix_end, prefix_end}

-- in the range from `start` on and before `end`
abbrev pub within : (start end key : Bytes) → Bool
within start end key =
    not (same_ordering (cmp key start) Ordering.lt) && same_ordering (cmp key end) Ordering.lt

nil-least : (key : Bytes) → same_ordering (cmp key []) Ordering.lt ≡ false
unfolding cmp
nil-least [] = refl
nil-least (k ∷ key) = refl

-- If no byte can be raised, every key from the prefix on has it.
unraised :
    (prefix key : Bytes)
    → All IsByte key
    → raise_last prefix ≡ none
    → has_prefix key prefix ≡ not (same_ordering (cmp key prefix) Ordering.lt)
unfolding raise_last cmp has_prefix
unraised [] [] hk h = refl
unraised [] (k ∷ key) hk h = refl
unraised (p ∷ prefix) [] hk h = refl
unraised (p ∷ prefix) (k ∷ key) hk h = elim (Option-cases (raise_last prefix)) [
  | inl rest ↦ ground (arith, h, rest, hk.0, unraised prefix key hk.1 rest)
  | inr (end, rest) ↦ absurd (ground (arith, h, rest))
]

raised :
    (prefix key end : Bytes)
    → All IsByte key
    → raise_last prefix ≡ some end
    → has_prefix key prefix ≡ within prefix end key
unfolding raise_last cmp has_prefix
raised [] key end hk h = absurd (cc)
raised (p ∷ prefix) [] end hk h = ground arith
raised (p ∷ prefix) (k ∷ key) end hk h = elim (Option-cases (raise_last prefix)) [
  | inl rest ↦
      let low : (ltb p 255) ≡ true = elim (Bool-cases (ltb p 255)) [
        | inl low ↦ low
        | inr high ↦ absurd (ground (arith, h, rest, high))
      ] in
      let e : (p + 1) ∷ [] ≡ end = some_injective (ground (arith, h, rest, low)) in
      subst (λ (x : Bytes). has_prefix (k ∷ key) (p ∷ prefix) ≡ within (p ∷ prefix) x (k ∷ key)) e
        (ground (arith, low, unraised prefix key hk.1 rest, nil-least key))
  | inr (end', rest) ↦
      let e : p ∷ end' ≡ end = some_injective (ground (arith, h, rest)) in
      subst (λ (x : Bytes). has_prefix (k ∷ key) (p ∷ prefix) ≡ within (p ∷ prefix) x (k ∷ key)) e
        (ground (arith, raised prefix key end' hk.1 rest))
]

-- The keys, of bytes, that are in the range from a prefix to its PrefixEnd are exactly those that have
-- the prefix, if some byte of the prefix can be raised.
pub prefix_end_lem :
    (prefix key end : Bytes)
    → All IsByte key
    → raise_last prefix ≡ some end
    → has_prefix key prefix ≡ within prefix (prefix_end prefix) key
unfolding prefix_end
prefix_end_lem prefix key end hk h =
    let e : prefix_end prefix ≡ end = ap (λ o. elim o [ none ↦ no_prefix_end | some x ↦ x ]) h in
    rw e (raised prefix key end hk h)
