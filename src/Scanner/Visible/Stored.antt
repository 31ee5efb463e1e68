-- ===== src/Scanner/Visible/Stored.antt =====
-- Which versions may be missing from a storage without any later read seeing it.
use kubebrain.Base.{
  ℕ, ◌<◌, ◌≤◌, ◌≡◌, ◌≢◌, ◌⊎◌, refl, inl, inr, List, [], ◌∷◌, Option, none, some, true, ◌&&◌, ◌||◌,
  ltb, leb, arith, All, Bool-cases, Option-cases, ap, ◌∙◌, sym,
}
use kubebrain.Base.Bytes.{Bytes, equal, equal→eq}
use kubebrain.Message.{KeyValue}
use kubebrain.Coder.{encode_object_key}
use kubebrain.Storage.Contents.{Map}
use kubebrain.Scanner.Visible.{replaced, shown, visible}

abbrev pub lookup_version : Map → KeyValue → Option Bytes
lookup_version m v = m (encode_object_key v.key v.revision)

-- The versions of the list that the storage has.
unfoldable pub stored : Map → List KeyValue → List KeyValue
stored m [] = []
stored m (v ∷ vs) = elim (lookup_version m v) [ none ↦ stored m vs | some val ↦ v ∷ stored m vs ]

-- A version that no read from `c` on sees: it is no version, or a deletion, or replaced.
abbrev pub Unseen : (c : ℕ) (tombstone : Bytes) → KeyValue → List KeyValue → Type 0
Unseen c tombstone v vs =
    (v.revision ≤ c)
    × ((v.revision ≡ 0) ⊎ ((equal v.value tombstone ≡ true) ⊎ (replaced c v.key vs ≡ true)))

-- Behind a version that is there, every version of its key is there.
abbrev pub Unbroken : Map → KeyValue → List KeyValue → Type 0
Unbroken m v vs =
    0 < v.revision
    → lookup_version m v ≢ none
    → All (λ y. y.key ≡ v.key → lookup_version m y ≢ none) vs

abbrev pub Trimmed : (c : ℕ) (tombstone : Bytes) → Map → List KeyValue → Type 0
Trimmed c tombstone m [] = Unit
Trimmed c tombstone m (v ∷ vs) =
    (lookup_version m v ≡ none → Unseen c tombstone v vs)
    × Unbroken m v vs
    × Trimmed c tombstone m vs

pub stored-gone :
    (m : Map) (v : KeyValue) (vs : List KeyValue)
    → lookup_version m v ≡ none
    → stored m (v ∷ vs) ≡ stored m vs
unfolding stored
stored-gone m v vs e = ap (λ o. elim o [ none ↦ stored m vs | some val ↦ v ∷ stored m vs ]) e

pub stored-there :
    (m : Map) (v : KeyValue) (vs : List KeyValue) {val : Bytes}
    → lookup_version m v ≡ some val
    → stored m (v ∷ vs) ≡ v ∷ stored m vs
unfolding stored
stored-there m v vs e = ap (λ o. elim o [ none ↦ stored m vs | some val ↦ v ∷ stored m vs ]) e

pub some→not_none : {o : Option Bytes} {val : Bytes} → o ≡ some val → o ≢ none
some→not_none e gone = ground (arith, e, gone)

replaced-le :
    (c r : ℕ) (key : Bytes) (ws : List KeyValue)
    → c ≤ r
    → replaced c key ws ≡ true
    → replaced r key ws ≡ true
unfolding replaced
replaced-le c r key [] h e = e
replaced-le c r key (w ∷ ws) h e = ground (arith, h, e, replaced-le c r key ws h)

replaced-stored :
    (r : ℕ) (key : Bytes) (m : Map) (ws : List KeyValue)
    → All (λ y. y.key ≡ key → lookup_version m y ≢ none) ws
    → replaced r key (stored m ws) ≡ replaced r key ws
unfolding replaced stored
replaced-stored r key m [] h = refl
replaced-stored r key m (w ∷ ws) h = elim (Option-cases (lookup_version m w)) [
  | inr there ↦
      ap (replaced r key) (stored-there m w ws there.1)
      ∙ ap (λ b. equal w.key key && leb w.revision r || b) (replaced-stored r key m ws h.1)
  | inl gone ↦ elim (Bool-cases (equal w.key key)) [
    | inl same ↦ absurd (h.0 (equal→eq w.key key same) gone)
    | inr other ↦
        ap (replaced r key) (stored-gone m w ws gone)
        ∙ replaced-stored r key m ws h.1
        ∙ ground (arith, other)
  ]
]

visible-Unseen :
    (c r : ℕ) (t : Bytes) (v : KeyValue) (vs : List KeyValue)
    → c ≤ r
    → Unseen c t v vs
    → visible r t (v ∷ vs) ≡ visible r t vs
unfolding visible shown
visible-Unseen c r t v vs h (le, inl z) = ground (arith, z)
visible-Unseen c r t v vs h (le, inr (inl d)) = ground (arith, d)
visible-Unseen c r t v vs h (le, inr (inr e)) = ground (arith, replaced-le c r v.key vs h e)

visible-cons :
    (r : ℕ) (t : Bytes) (v : KeyValue) (vs ws : List KeyValue)
    → visible r t vs ≡ visible r t ws
    → (0 < v.revision → replaced r v.key vs ≡ replaced r v.key ws)
    → visible r t (v ∷ vs) ≡ visible r t (v ∷ ws)
unfolding visible shown
visible-cons r t v vs ws e f = elim (Bool-cases (ltb 0 v.revision)) [
  | inl pos ↦ rw (e, f (ground (arith, pos))) refl
  | inr zero_ ↦ rw zero_ e
]

-- If what is missing of some versions is trimmed at `c`, then every read from `c` on sees the same in
-- what is there as in all of them.
pub visible-stored :
    (c r : ℕ) (t : Bytes) (m : Map) (vs : List KeyValue)
    → c ≤ r
    → Trimmed c t m vs
    → visible r t (stored m vs) ≡ visible r t vs
unfolding stored
visible-stored c r t m [] h q = refl
visible-stored c r t m (v ∷ vs) h (unseen, unbroken, q) = elim (Option-cases (lookup_version m v)) [
  | inl gone ↦
      ap (visible r t) (stored-gone m v vs gone)
      ∙ visible-stored c r t m vs h q
      ∙ sym (visible-Unseen c r t v vs h (unseen gone))
  | inr there ↦
      ap (visible r t) (stored-there m v vs there.1)
      ∙ visible-cons r t v (stored m vs) vs (visible-stored c r t m vs h q)
          (λ pos. replaced-stored r v.key m vs (unbroken pos (some→not_none there.1)))
]
