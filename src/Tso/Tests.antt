-- ===== src/Tso/Tests.antt =====
-- Theorems on the revision generator at concrete states.
use kubebrain.Base.{◌<◌, ◌≤◌, ◌≡◌, refl, [], ◌∷◌, false, arith, max}
use kubebrain.Tso.{Tso, new_tso, deal, commit, commit_step, CommitStep, get_revision, backend_deal}
use kubebrain.Tso.Sequence.{commit_lem, backend_deal-commit, IsAhead}
use kubebrain.Tso.Interleaving.{
  System, idle, Reach, here, next, dealing, starting, stepping, IsDecreasing, dealt-IsDecreasing,
  commit_lost,
}

abbrev busy : Tso
busy = record { committed_revision = 4; deal_revision = 7 }

commit_lem_example : (get_revision (commit 9 busy) ≡ 9) × ((commit 9 busy).deal_revision ≡ max 7 9)
commit_lem_example = commit_lem 9 busy

backend_deal-commit_example :
    let (n', dealt, drift) = backend_deal 6 (commit 5 busy) in
    (5 < dealt) × (7 < dealt) × (6 < dealt) × (drift ≡ false) × IsAhead n'
backend_deal-commit_example = backend_deal-commit 5 6 busy (omega arith) (omega arith)

-- two deals around the first step of a commit
abbrev two_deals : System
two_deals = record {
  tso = record { committed_revision = 3; deal_revision = 9 };
  commits = CommitStep.load_deal 3 ∷ [];
  dealt = 9 ∷ 8 ∷ [];
}

two_deals-Reach : Reach (idle busy) two_deals
unfolding deal commit_step
two_deals-Reach =
    next
      (next (next (next here (dealing (omega arith))) (starting 3))
        (stepping 0 (CommitStep.store_committed 3) refl))
      (dealing (omega arith))

dealt-IsDecreasing_example : IsDecreasing (9 ∷ 8 ∷ [])
dealt-IsDecreasing_example = dealt-IsDecreasing busy two_deals-Reach

commit_lost_example :
    (t : System) × Reach (idle new_tso) t
    × (t.commits ≡ CommitStep.finished ∷ [])
    × (t.tso ≡ record { committed_revision = 100; deal_revision = 1 })
    × ((deal t.tso).1 ≤ 100)
commit_lost_example = commit_lost 100 (omega arith)
