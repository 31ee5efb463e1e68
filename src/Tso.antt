-- ===== src/Tso.antt =====
-- pkg/backend/tso/tso.go: the revision generator, and `deal` of pkg/backend/backend.go on top of it.
-- Both counters are uint64; the addition of `Deal` wraps.
pub mod Sequence
pub mod Interleaving
mod Tests
use kubebrain.Base.{ℕ, ◌+◌, ◌%◌, ◌^◌, Bool, true, false, ltb, ◌==◌, ◌&&◌, if◌then◌else◌}

abbrev pub uint64_mod : ℕ
uint64_mod = 2 ^ 64

pub record Tso : Type 0 where
  pub committed_revision : ℕ
  pub deal_revision : ℕ

abbrev pub new_tso : Tso
new_tso = record { committed_revision = 0; deal_revision = 0 }

unfoldable pub get_revision : Tso → ℕ
get_revision n = n.committed_revision

-- `Deal` never fails: its error is always nil.
unfoldable pub deal : Tso → Tso × ℕ
deal n = let rev = (n.deal_revision + 1) % uint64_mod in (record n { deal_revision = rev }, rev)

-- The steps of `Commit`, each one atomic access to a counter.
pub data CommitStep : Type 0 where
  store_committed : ℕ → CommitStep
  load_deal : ℕ → CommitStep
  compare_and_swap : (revision pre_tso : ℕ) → CommitStep
  finished : CommitStep

unfoldable pub commit_step : CommitStep → Tso → CommitStep × Tso
commit_step (store_committed revision) n =
    (load_deal revision, record n { committed_revision = revision })
commit_step (load_deal revision) n = (compare_and_swap revision n.deal_revision, n)
commit_step (compare_and_swap revision pre_tso) n = (
  finished,
  if ltb pre_tso revision
      then (if n.deal_revision == pre_tso then record n { deal_revision = revision } else n)
      else n,
)
commit_step finished n = (finished, n)

-- `Commit` with no other access between its steps.
unfoldable pub commit : ℕ → Tso → Tso
unfolding commit_step
commit revision n =
    let (c, n') = commit_step (store_committed revision) n in
    let (c', n'') = commit_step c n' in (commit_step c' n'').1

unfoldable pub init : ℕ → Tso → Tso
init start n = record { committed_revision = start; deal_revision = start }

-- `deal` of the backend: the revision, and whether it drifted back behind `prev_revision`
-- (ErrRevisionDriftBack).
unfoldable pub backend_deal : ℕ → Tso → Tso × ℕ × Bool
unfolding deal
backend_deal prev_revision n =
    let (n', rev) = deal n in (n', rev, ltb 0 prev_revision && ltb rev prev_revision)
