-- ===== src/MemKv/Tests.antt =====
-- Concrete batches on the engine in memory.
use kubebrain.Base.{◌≡◌, refl, List, [], ◌∷◌, none, some, false}
use kubebrain.Base.Bytes.{equal}
use kubebrain.Storage.{Error, is_uncertain, BatchOp, put_if_not_exist, cas, put, del}
use kubebrain.Storage.Contents.{Map, update, apply_op, apply_ops}
use kubebrain.MemKv.{Store, commit}
use kubebrain.MemKv.SortedList.{sorted_list}
use kubebrain.MemKv.Refine.{view, commit-applied, commit-refused}

abbrev one_key : Store sorted_list
one_key = record { skl = ((1 ∷ [], 7 ∷ []) ∷ [], (tt, tt)); timers = []; clock = 0 }

abbrev swap : List BatchOp
swap = cas (1 ∷ []) (8 ∷ []) (7 ∷ []) 0 ∷ put (2 ∷ []) (9 ∷ []) 5 ∷ del (1 ∷ []) ∷ []

abbrev swapped : Map
swapped =
    update
      (update (update (view sorted_list one_key) (1 ∷ []) (some (8 ∷ []))) (2 ∷ []) (some (9 ∷ [])))
      (1 ∷ []) none

swap_applies : apply_ops swap (view sorted_list one_key) ≡ some swapped
unfolding apply_ops apply_op equal
swap_applies = refl

commit-applied_example :
    ((commit sorted_list swap one_key).0 ≡ none)
    × (view sorted_list (commit sorted_list swap one_key).1 ≡ swapped)
commit-applied_example = commit-applied sorted_list swap one_key swapped swap_applies

abbrev clash : List BatchOp
clash = put (3 ∷ []) (3 ∷ []) 0 ∷ put_if_not_exist (1 ∷ []) (8 ∷ []) 0 ∷ []

clash_refused : apply_ops clash (view sorted_list one_key) ≡ none
unfolding apply_ops apply_op equal
clash_refused = refl

commit-refused_example :
    ((e : Error) × ((commit sorted_list clash one_key).0 ≡ some e) × (is_uncertain e ≡ false))
    × ((commit sorted_list clash one_key).1 ≡ one_key)
commit-refused_example = commit-refused sorted_list clash one_key clash_refused
