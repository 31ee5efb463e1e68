-- ===== src/Scanner/Borders/Sorted.antt =====
-- The order in which adjustPartitionsBorders of pkg/backend/scanner/scanner.go takes the partitions.
use mathlib.Core.List.{Perm}
use mathlib.Core.List.Perm
use kubebrain.Base.{
  ◌≡◌, ◌≢◌, refl, inl, inr, ◌⊎◌, List, [], ◌∷◌, true, false, Ordering, arith, All, All-map,
  Bool-cases, subst, sym,
}
use kubebrain.Base.Bytes.{Bytes, cmp, cmp_refl, cmp-eq→eq, cmp-lt_trans}
use kubebrain.MemKv.{same_ordering}
use kubebrain.MemKv.SortedList.{cmp_flip}
use kubebrain.Storage.{Partition}
use kubebrain.Scanner.Partitions.{insert_partition, sort_partitions}

-- The starts do not go down.
abbrev pub IsSortedByStart : List Partition → Type 0
IsSortedByStart [] = Unit
IsSortedByStart (p ∷ ps) = All (λ q. cmp q.start p.start ≢ Ordering.lt) ps × IsSortedByStart ps

Ordering-cases : (o : Ordering) → (o ≡ Ordering.lt) ⊎ (o ≡ Ordering.eq) ⊎ (o ≡ Ordering.gt)
Ordering-cases Ordering.lt = inl refl
Ordering-cases Ordering.eq = inr (inl refl)
Ordering-cases Ordering.gt = inr (inr refl)

not_lt_trans :
    (a b c : Bytes) → cmp a b ≢ Ordering.lt → cmp b c ≢ Ordering.lt → cmp a c ≢ Ordering.lt
not_lt_trans a b c ab bc ac = elim (Ordering-cases (cmp b c)) [
  | inl lt ↦ bc lt
  | inr (inl e) ↦ ab (subst (λ x. cmp a x ≡ Ordering.lt) (sym (cmp-eq→eq b c e)) ac)
  | inr (inr gt) ↦ ab (cmp-lt_trans a c b ac (cmp_flip b c gt))
]

lt-asym : (a b : Bytes) → cmp a b ≡ Ordering.lt → cmp b a ≢ Ordering.lt
lt-asym a b h k = ground (arith, cmp_refl a, cmp-lt_trans a b a h k)

same_ordering-lt : (o : Ordering) → same_ordering o Ordering.lt ≡ true → o ≡ Ordering.lt
same_ordering-lt Ordering.lt h = refl
same_ordering-lt Ordering.eq h = absurd (cc)
same_ordering-lt Ordering.gt h = absurd (cc)

same_ordering-not_lt : (o : Ordering) → same_ordering o Ordering.lt ≡ false → o ≢ Ordering.lt
same_ordering-not_lt o h e = ground (arith, h, e)

All-insert_partition :
    (P : Partition → Type 0) (p : Partition) (ps : List Partition)
    → P p
    → All P ps
    → All P (insert_partition p ps)
unfolding insert_partition
All-insert_partition P p [] h a = (h, tt)
All-insert_partition P p (q ∷ ps) h a =
    elim (Bool-cases (same_ordering (cmp q.start p.start) Ordering.lt)) [
      | inl on ↦ rw on (a.0, All-insert_partition P p ps h a.1)
      | inr off ↦ rw off (h, (a.0, a.1))
    ]

insert_partition-IsSortedByStart :
    (p : Partition) (ps : List Partition)
    → IsSortedByStart ps
    → IsSortedByStart (insert_partition p ps)
unfolding insert_partition
insert_partition-IsSortedByStart p [] s = (tt, tt)
insert_partition-IsSortedByStart p (q ∷ ps) s =
    elim (Bool-cases (same_ordering (cmp q.start p.start) Ordering.lt)) [
      | inl on ↦
          let below = same_ordering-lt (cmp q.start p.start) on in
          rw on (
            All-insert_partition (λ r. cmp r.start q.start ≢ Ordering.lt) p ps
                (lt-asym q.start p.start below) s.0,
            insert_partition-IsSortedByStart p ps s.1,
          )
      | inr off ↦
          let above = same_ordering-not_lt (cmp q.start p.start) off in
          rw off ((above, All-map ps (λ r h. not_lt_trans r.start q.start p.start h above) s.0), s)
    ]

insert_partition-perm :
    (p : Partition) (ps : List Partition) → Perm (insert_partition p ps) (p ∷ ps)
unfolding insert_partition
insert_partition-perm p [] = Perm.rfl
insert_partition-perm p (q ∷ ps) =
    elim (Bool-cases (same_ordering (cmp q.start p.start) Ordering.lt)) [
      | inl on ↦ rw on (Perm.trans (Perm.cons q (insert_partition-perm p ps)) (Perm.swap p q ps))
      | inr off ↦ rw off Perm.rfl
    ]

pub sort_partitions-IsSortedByStart : (ps : List Partition) → IsSortedByStart (sort_partitions ps)
unfolding sort_partitions
sort_partitions-IsSortedByStart [] = tt
sort_partitions-IsSortedByStart (p ∷ ps) =
    insert_partition-IsSortedByStart p (sort_partitions ps) (sort_partitions-IsSortedByStart ps)

pub sort_partitions-perm : (ps : List Partition) → Perm (sort_partitions ps) ps
unfolding sort_partitions
sort_partitions-perm [] = Perm.rfl
sort_partitions-perm (p ∷ ps) =
    Perm.trans (insert_partition-perm p (sort_partitions ps))
      (Perm.cons p (sort_partitions-perm ps))
