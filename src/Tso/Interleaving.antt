-- ===== src/Tso/Interleaving.antt =====
-- Deals and commits of any number of callers, interleaved between their atomic accesses.
use kubebrain.Base.{
  ℕ, ◌+◌, ◌≤◌, ◌<◌, ◌≡◌, List, [], ◌∷◌, some, get_elem?, set, refl, All, lt→ltb, arith,
}
use kubebrain.Tso.{Tso, new_tso, uint64_mod, CommitStep, commit_step, deal}

-- The generator, the commits in progress, and the revisions dealt so far, the latest first.
pub record System : Type 0 where
  pub tso : Tso
  pub commits : List CommitStep
  pub dealt : List ℕ

-- One atomic access: a deal while the counter does not wrap, the start of a commit of any
-- revision, or the next step of a commit in progress.
pub data Step (s : System) : System → Type 0 where
  dealing :
      s.tso.deal_revision + 1 < uint64_mod
      → Step s (record s { tso = (deal s.tso).0; dealt = (deal s.tso).1 ∷ s.dealt })
  starting : (rev : ℕ) → Step s (record s { commits = CommitStep.store_committed rev ∷ s.commits })
  stepping :
      (i : ℕ) (c : CommitStep)
      → get_elem? s.commits i ≡ some c
      → Step s (record s {
        tso = (commit_step c s.tso).1;
        commits = set s.commits i (commit_step c s.tso).0;
      })

pub data Reach (s : System) : System → Type 0 where
  here : Reach s s
  next : {t u : System} → Reach s t → Step t u → Reach s u

-- Each revision is greater than all that stand behind it.
abbrev pub IsDecreasing : List ℕ → Type 0
IsDecreasing [] = Unit
IsDecreasing (x ∷ xs) = All (λ y. y < x) xs × IsDecreasing xs

record IsOrdered (s : System) : Type 0 where
  below : All (λ y. y ≤ s.tso.deal_revision) s.dealt
  decreasing : IsDecreasing s.dealt

deal_revision-commit_step :
    (c : CommitStep) (n : Tso) → n.deal_revision ≤ (commit_step c n).1.deal_revision
unfolding commit_step
deal_revision-commit_step (CommitStep.store_committed rev) n = ground arith
deal_revision-commit_step (CommitStep.load_deal rev) n = ground arith
deal_revision-commit_step (CommitStep.compare_and_swap rev pre) n = ground arith
deal_revision-commit_step CommitStep.finished n = ground arith

All-le_trans : {m n : ℕ} (xs : List ℕ) → m ≤ n → All (λ y. y ≤ m) xs → All (λ y. y ≤ n) xs
All-le_trans [] h a = tt
All-le_trans (x ∷ xs) h a = (omega (arith, a.0), All-le_trans xs h a.1)

All-lt : {m n : ℕ} (xs : List ℕ) → m < n → All (λ y. y ≤ m) xs → All (λ y. y < n) xs
All-lt [] h a = tt
All-lt (x ∷ xs) h a = (omega (arith, a.0), All-lt xs h a.1)

deal_grows :
    (n : Tso)
    → n.deal_revision + 1 < uint64_mod
    → ((deal n).0.deal_revision ≡ n.deal_revision + 1) × ((deal n).1 ≡ n.deal_revision + 1)
unfolding deal
deal_grows n h = omega arith

Step-IsOrdered : {s t : System} → Step s t → IsOrdered s → IsOrdered t
Step-IsOrdered {s} (dealing h) v =
    let (a, b) = deal_grows s.tso h in
    record {
      below = (omega (arith, a, b), All-le_trans s.dealt (omega (arith, a)) v.below);
      decreasing = (All-lt s.dealt (omega (arith, b)) v.below, v.decreasing);
    }
Step-IsOrdered (starting rev) v = record { below = v.below; decreasing = v.decreasing }
Step-IsOrdered {s} (stepping i c e) v = record {
  below = All-le_trans s.dealt (deal_revision-commit_step c s.tso) v.below;
  decreasing = v.decreasing;
}

Reach-IsOrdered : {s t : System} → Reach s t → IsOrdered s → IsOrdered t
Reach-IsOrdered here v = v
Reach-IsOrdered (next r st) v = Step-IsOrdered st (Reach-IsOrdered r v)

abbrev pub idle : Tso → System
idle n = record { tso = n; commits = []; dealt = [] }

-- However deals and commits of any number of callers interleave, from a state in which nothing was
-- dealt, the dealt revisions strictly increase, so no two transactions get one revision, as long
-- as the counter does not wrap.
pub dealt-IsDecreasing : (n : Tso) {t : System} → Reach (idle n) t → IsDecreasing t.dealt
dealt-IsDecreasing n r = (Reach-IsOrdered r (record { below = tt; decreasing = tt })).decreasing

-- A deal between the load and the compare-and-swap of a commit makes the swap fail, and the commit
-- ends all the same: for every revision above 1 there is a run of one commit and one deal from the
-- initial state after which the published revision is the committed one and the counter stands at
-- 1, so that a later deal gives out a revision that is not above the published one.
pub commit_lost :
    (rev : ℕ)
    → 1 < rev
    → (t : System) × Reach (idle new_tso) t
      × (t.commits ≡ CommitStep.finished ∷ [])
      × (t.tso ≡ record { committed_revision = rev; deal_revision = 1 })
      × ((deal t.tso).1 ≤ rev)
unfolding deal commit_step
commit_lost rev h =
    let before : Reach (idle new_tso) (record {
      tso = record { committed_revision = rev; deal_revision = 1 };
      commits = CommitStep.compare_and_swap rev 0 ∷ [];
      dealt = 1 ∷ [];
    }) =
      next
        (next (next (next here (starting rev)) (stepping 0 (CommitStep.store_committed rev) refl))
          (stepping 0 (CommitStep.load_deal rev) refl))
        (dealing (omega arith)) in
    let swapped = next before (stepping 0 (CommitStep.compare_and_swap rev 0) refl) in
    (
      record {
        tso = record { committed_revision = rev; deal_revision = 1 };
        commits = CommitStep.finished ∷ [];
        dealt = 1 ∷ [];
      },
      rw (lt→ltb 0 rev (omega arith)) at swapped,
      refl,
      refl,
      omega arith,
    )
