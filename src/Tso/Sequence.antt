-- ===== src/Tso/Sequence.antt =====
-- The revision generator used by one caller at a time.
use kubebrain.Base.{ℕ, ◌+◌, ◌≤◌, ◌<◌, ◌≡◌, false, arith, max}
use kubebrain.Tso.{Tso, uint64_mod, commit, get_revision, backend_deal}

-- Commit publishes its revision, and lifts the next revision to deal above it if it has to.
pub commit_lem :
    (rev : ℕ) (n : Tso)
    → (get_revision (commit rev n) ≡ rev) × ((commit rev n).deal_revision ≡ max n.deal_revision rev)
unfolding commit get_revision
commit_lem rev n = ground arith

-- no revision is published that a later deal could give out again
pub record IsAhead (n : Tso) : Type 0 where
  pub ahead : n.committed_revision ≤ n.deal_revision

pub commit-IsAhead : (rev : ℕ) (n : Tso) → IsAhead (commit rev n)
unfolding commit
commit-IsAhead rev n = record { ahead = ground arith }

-- After a commit of any revision, and for a client that knows no revision above the dealt ones, the
-- next deal of the backend returns a revision above the committed one, above every revision dealt
-- before and above the client's, does not report a drift, and keeps the counter ahead of the
-- published revision; the counter must not wrap.
pub backend_deal-commit :
    (rev prev : ℕ) (n : Tso)
    → max n.deal_revision rev + 1 < uint64_mod
    → prev ≤ max n.deal_revision rev
    → let (n', dealt, drift) = backend_deal prev (commit rev n) in
      (rev < dealt) × (n.deal_revision < dealt) × (prev < dealt) × (drift ≡ false) × IsAhead n'
unfolding backend_deal commit
backend_deal-commit rev prev n h p =
    (ground arith, ground arith, ground arith, ground arith, record { ahead = ground arith })
