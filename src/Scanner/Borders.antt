-- ===== src/Scanner/Borders.antt =====
-- The borders of the partitions of a scan in pkg/backend/scanner/scanner.go.
pub mod Sorted
use mathlib.Core.List.{Perm}
use kubebrain.Base.{
  ℕ, suc, ◌<◌, ◌≡◌, ◌≢◌, refl, inl, inr, ◌⊎◌, List, [], ◌∷◌, Option, none, some, length, ◌==◌,
  if◌then◌else◌, Ordering, compare, arith, All, Bool-cases, Option-cases, some_injective, ap, ◌∙◌,
  sym, subst,
}
use kubebrain.Base.Bytes.{Bytes, IsByte, cmp, or_else}
use kubebrain.Coder.{
  uint64_mod, encode_object_key, encode_revision_key, Decoded, decoded, bad_magic, bad_split, panic,
  decode,
}
use kubebrain.MemKv.{same_ordering}
use kubebrain.Coder.Roundtrip.{decode-encode_object_key, encode_object_key-decode}
use kubebrain.Coder.KeyOrder.{IsUserKey, cmp-encode_object_key}
use kubebrain.Storage.{Partition}
use kubebrain.Scanner.Borders.Sorted.{
  IsSortedByStart, sort_partitions-IsSortedByStart, sort_partitions-perm,
}
use kubebrain.Scanner.Partitions.{
  adjust_end, insert_partition, adjust_from, adjust_sorted, sort_partitions,
  adjust_partitions_borders,
}

-- A border that, if it is an internal key, is the revision key of an object, its first key.
abbrev pub IsWhole : Bytes → Type 0
IsWhole border = (key : Bytes) (revision : ℕ) → decode border ≡ decoded key revision → revision ≡ 0

-- A border that is whole: the given one, or the revision key of the object that the given one, an
-- internal key, is of.
abbrev pub Mended : Bytes → Bytes → Type 0
Mended border end =
    IsWhole end
    × ((end ≡ border)
        ⊎ ((key : Bytes) × (revision : ℕ) × (decode border ≡ decoded key revision)
            × (end ≡ encode_revision_key key)))

-- One partition for each of the given ones, without gap or overlap from `start` on: the inner ends are
-- mended, the last one stays.
abbrev pub Follows : Bytes → List Partition → List Partition → Type 0
Follows start [] [] = Unit
Follows start [] (q ∷ qs) = ⊥
Follows start (r ∷ rs) [] = ⊥
Follows start (r ∷ []) (q ∷ qs) = (q.start ≡ start) × (q.end ≡ r.end) × (qs ≡ [])
Follows start (r ∷ r' ∷ rs) (q ∷ qs) =
    (q.start ≡ start) × Mended r.end q.end × Follows q.end (r' ∷ rs) qs

revision_of : Decoded → ℕ
revision_of d = elim d [ decoded k r ↦ r | _ ↦ 0 ]

zero-IsWhole :
    (border : Bytes) (d : Decoded) → decode border ≡ d → revision_of d ≡ 0 → IsWhole border
unfolding revision_of
zero-IsWhole border d e z key revision e' = sym (ap revision_of e') ∙ ap revision_of e ∙ z

pub revision_key-IsWhole : (key : Bytes) → IsWhole (encode_revision_key key)
unfolding encode_revision_key revision_of
revision_key-IsWhole key k r e =
    sym (ap revision_of e) ∙ ap revision_of (decode-encode_object_key key 0 (omega arith))

adjust_end-Mended :
    (border end : Bytes) (d : Decoded)
    → decode border ≡ d
    → adjust_end border d ≡ some end
    → Mended border end
unfolding adjust_end revision_of
adjust_end-Mended border end panic e h = absurd (ground (arith, h))
adjust_end-Mended border end bad_magic e h =
    subst (Mended border) (some_injective h) (zero-IsWhole border bad_magic e refl, inl refl)
adjust_end-Mended border end bad_split e h =
    subst (Mended border) (some_injective h) (zero-IsWhole border bad_split e refl, inl refl)
adjust_end-Mended border end (decoded k r) e h = elim (Bool-cases (r == 0)) [
  | inl z ↦
      subst (Mended border)
        (some_injective (ap (λ b. some (if b then border else encode_revision_key k)) (sym z) ∙ h))
        (zero-IsWhole border (decoded k r) e (ground (arith, z)), inl refl)
  | inr nz ↦
      subst (Mended border)
        (some_injective (ap (λ b. some (if b then border else encode_revision_key k)) (sym nz) ∙ h))
        (revision_key-IsWhole k, inr (k, r, e, refl))
]

-- What the loop gives.
abbrev Adjusted : Bytes → List Partition → Option (List Partition) → Type 0
Adjusted start rs o = (qs : List Partition) → o ≡ some qs → Follows start rs qs

prepend :
    (start : Bytes) (p p' : Partition) (ps : List Partition) (end : Option Bytes)
    (rest : Bytes → Option (List Partition))
    → ((e : Bytes) → end ≡ some e → Mended p.end e)
    → ((e : Bytes) → Adjusted e (p' ∷ ps) (rest e))
    → Adjusted start (p ∷ p' ∷ ps) (elim end [
      | none ↦ none
      | some e ↦ elim (rest e) [
        | none ↦ none
        | some qs ↦ some (record { start = start; end = e } ∷ qs)
      ]
    ])
prepend start p p' ps none rest w a qs e = absurd (ground (arith, e))
prepend start p p' ps (some b) rest w a qs e = elim (Option-cases (rest b)) [
  | inl stuck ↦ absurd (
      none_some (
        sym (
          ap (λ o. elim o [ none ↦ none | some r ↦ some (record { start = start; end = b } ∷ r) ])
            stuck)
        ∙ e))
  | inr (r, got) ↦
      let same = some_injective (
        sym (
          ap (λ o. elim o [ none ↦ none | some r' ↦ some (record { start = start; end = b } ∷ r') ])
            got)
        ∙ e) in
      subst (Follows start (p ∷ p' ∷ ps)) same (refl, w b refl, a b r got)
]
  where
    none_some : {A : Type 0} {x : A} → none ≡ some x → ⊥
    none_some h = ground (arith, h)

adjust_from-Follows :
    (ps : List Partition) (start : Bytes) → Adjusted start ps (adjust_from start ps)
unfolding adjust_from
adjust_from-Follows [] start qs e = subst (Follows start []) (some_injective e) tt
adjust_from-Follows (p ∷ []) start qs e =
    subst (Follows start (p ∷ [])) (some_injective e) (refl, refl, refl)
adjust_from-Follows (p ∷ q ∷ ps) start qs e =
    prepend start p q ps (adjust_end p.end (decode p.end)) (λ end. adjust_from end (q ∷ ps))
      (λ b h. adjust_end-Mended p.end b (decode p.end) refl h) (λ b. adjust_from-Follows (q ∷ ps) b)
      qs e

-- where the first partition starts
abbrev pub first_start : List Partition → Bytes
first_start [] = []
first_start (p ∷ ps) = p.start

-- If the decoder does not panic on a border: with the partitions in an order in which the starts do
-- not go down, there is one adjusted partition for each; they follow one another without a gap from
-- the start of the first; an inner end is the given one or, of an internal key, the revision key of
-- its object, and if it is an internal key it is the first one of its object; and the last end stays.
pub adjust_partitions_borders-Follows :
    (ps qs : List Partition)
    → adjust_partitions_borders ps ≡ some qs
    → (rs : List Partition) × Perm rs ps × IsSortedByStart rs × Follows (first_start rs) rs qs
unfolding adjust_partitions_borders
adjust_partitions_borders-Follows ps qs e = (
  sort_partitions ps,
  sort_partitions-perm ps,
  sort_partitions-IsSortedByStart ps,
  go (sort_partitions ps) e,
)
  where
    go : (rs : List Partition) → adjust_sorted rs ≡ some qs → Follows (first_start rs) rs qs
    go [] h = subst (Follows [] []) (some_injective h) tt
    go (r ∷ rs) h = adjust_from-Follows (r ∷ rs) r.start qs h

-- The first key of an object cuts no object: for user keys whose bytes exceed the split byte, a version
-- before it and a version from it on are of different objects.
pub border-apart :
    (border key j k : Bytes) (revision q r : ℕ)
    → IsWhole border
    → All IsByte border
    → decode border ≡ decoded key revision
    → IsUserKey key
    → IsUserKey j
    → IsUserKey k
    → q < uint64_mod
    → r < uint64_mod
    → cmp (encode_object_key j q) border ≡ Ordering.lt
    → cmp (encode_object_key k r) border ≢ Ordering.lt
    → k ≢ j
border-apart border key j k revision q r whole bytes dec hkey hj hk hq hr before from e = from (
    cmp_of k r hk hr ∙ rw e (ground (arith, lower (cmp j key) q (sym (cmp_of j q hj hq) ∙ before))))
  where
    cmp_of :
        (i : Bytes) (p : ℕ)
        → IsUserKey i
        → p < uint64_mod
        → cmp (encode_object_key i p) border ≡ or_else (cmp i key) (compare p 0)
    cmp_of i p hi hp =
        ap (cmp (encode_object_key i p)) (
          sym (encode_object_key-decode border key revision bytes dec)
          ∙ ap (encode_object_key key) (whole key revision dec))
        ∙ cmp-encode_object_key i key p 0 hi hkey hp (omega arith)

    lower : (o : Ordering) (p : ℕ) → or_else o (compare p 0) ≡ Ordering.lt → o ≡ Ordering.lt
    lower o p h = ground (arith, h)
