-- ===== src/Scanner/Partitions/Adjust.antt =====
-- adjustPartitionsBorders of pkg/backend/scanner/scanner.go: the borders of partitions are moved to
-- where no object's versions are cut apart.
use kubebrain.Base.{List, [], ◌∷◌, Option, none, some, ◌==◌, if◌then◌else◌, Ordering}
use kubebrain.Base.Bytes.{Bytes, cmp}
use kubebrain.Coder.{encode_revision_key, Decoded, decoded, bad_magic, bad_split, panic, decode}
use kubebrain.MemKv.{same_ordering}
use kubebrain.Storage.{Partition}

-- sort.Slice by the start; partitions with one start may come in any order, here in the given one.
unfoldable pub insert_partition : Partition → List Partition → List Partition
insert_partition p [] = p ∷ []
insert_partition p (q ∷ ps) =
    let rest = insert_partition p ps in
    if same_ordering (cmp q.start p.start) Ordering.lt then q ∷ rest else p ∷ q ∷ ps

unfoldable pub sort_partitions : List Partition → List Partition
unfolding insert_partition
sort_partitions [] = []
sort_partitions (p ∷ ps) = insert_partition p (sort_partitions ps)

-- The end of a partition that is not the last: an object key is moved back to the revision key of
-- its object. `none` is the panic of the decoder.
unfoldable pub adjust_end : Bytes → Decoded → Option Bytes
adjust_end end panic = none
adjust_end end (decoded user_key revision) =
    some (if revision == 0 then end else encode_revision_key user_key)
adjust_end end bad_magic = some end
adjust_end end bad_split = some end

-- The loop, at a partition whose start is given by the one before it.
unfoldable pub adjust_from : (start : Bytes) → List Partition → Option (List Partition)
unfolding adjust_end
adjust_from start [] = some []
adjust_from start (p ∷ []) = some (record { start = start; end = p.end } ∷ [])
adjust_from start (p ∷ q ∷ ps) = elim (adjust_end p.end (decode p.end)) [
  | none ↦ none
  | some end ↦ elim (adjust_from end (q ∷ ps)) [
    | none ↦ none
    | some rest ↦ some (record { start = start; end = end } ∷ rest)
  ]
]

abbrev pub adjust_sorted : List Partition → Option (List Partition)
adjust_sorted [] = some []
adjust_sorted (p ∷ ps) = adjust_from p.start (p ∷ ps)

unfoldable pub adjust_partitions_borders : List Partition → Option (List Partition)
unfolding sort_partitions adjust_from
adjust_partitions_borders ps = adjust_sorted (sort_partitions ps)
