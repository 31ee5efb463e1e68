-- ===== src/Scanner/Compaction/Tests.antt =====
-- A compaction of two versions of one object, on the engine in memory with removals that fail.
use kubebrain.Base.{
  ℕ, ◌≤◌, ◌≡◌, ◌≢◌, ◌⊎◌, refl, inl, inr, [], ◌∷◌, Option, none, some, false, true, if◌then◌else◌,
  arith, All, Bool-cases, subst, some_injective,
}
use kubebrain.Base.Bytes.{Bytes, equal}
use kubebrain.Storage.{Error, is_cas_failed, other, del, KvStorage, listed}
use kubebrain.Storage.Contents.{Contents, update, apply_op, apply_ops}
use kubebrain.MemKv.{Store, commit, mem_kv}
use kubebrain.MemKv.SortedList.{sorted_list}
use kubebrain.MemKv.Refine.{view, commit-applied}
use kubebrain.MemKv.Engine.{mem_kv-Contents}
use kubebrain.Range.{tomb_stone_bytes}
use kubebrain.Scanner.Receiver.{empty_result}
use kubebrain.Scanner.Worker.{WorkerConfig, Scan, run_iterated}
use kubebrain.Scanner.Visible.{entries_of, visible}
use kubebrain.Scanner.Visible.Stored.{stored}
use kubebrain.Scanner.Compaction.{stored_keys}
use kubebrain.Scanner.Compaction.Visit.{key_of}
use kubebrain.Scanner.Compaction.Run.{CanCompact, IsListed, run_iterated-compacts}
use kubebrain.Scanner.Tests.{
  old_version, versions, engine, versions-Ordered, versions-HasRevision, versions-present,
  store_state,
}

-- The removal of the first version by its key fails, and is not done.
abbrev failing : KvStorage
failing = record engine {
  del = λ key s. if equal key (key_of old_version) then (some (other 0), s) else engine.del key s;
}

abbrev contents : Contents engine
contents = mem_kv-Contents sorted_list

failing-del_ok :
    (key : Bytes) (s : failing.State)
    → (failing.del key s).0 ≡ none
    → contents.view (failing.del key s).1 ≡ update (contents.view s) key none
failing-del_ok key s = elim (Bool-cases (equal key (key_of old_version))) [
  | inl on ↦ rw on (λ h. absurd (ground (arith, h)))
  | inr off ↦ rw off (contents.del-ok key s)
]

failing-del_failed :
    (key : Bytes) (e : Error) (s : failing.State)
    → (failing.del key s).0 ≡ some e
    → (contents.view (failing.del key s).1 ≡ contents.view s)
      ⊎ (contents.view (failing.del key s).1 ≡ update (contents.view s) key none)
failing-del_failed key e s = elim (Bool-cases (equal key (key_of old_version))) [
  | inl on ↦ rw on (λ h. inl refl)
  | inr off ↦ rw off (contents.del-failed key e s)
]

abbrev failing-Contents : Contents failing
failing-Contents = record {
  view = contents.view;
  view-get = contents.view-get;
  get-found = contents.get-found;
  get-not_found = contents.get-not_found;
  view-iter = contents.view-iter;
  commit-ok = contents.commit-ok;
  commit-failed = contents.commit-failed;
  commit-uncertain = contents.commit-uncertain;
  commit-cas_failed = contents.commit-cas_failed;
  view-get_timestamp_oracle = contents.view-get_timestamp_oracle;
  view-get_partitions = contents.view-get_partitions;
  del-ok = failing-del_ok;
  del-failed = failing-del_failed;
  del_current-ok = contents.del_current-ok;
  del_current-failed = contents.del_current-failed;
}

del-succeeds :
    (key : Bytes) (s : Store sorted_list) → (commit sorted_list (del key ∷ []) s).0 ≡ none
unfolding apply_ops apply_op
del-succeeds key s =
    (commit-applied sorted_list (del key ∷ []) s (update (view sorted_list s) key none) refl).0

engine-del : (key : Bytes) (s : engine.State) → (engine.del key s).0 ≡ none
unfolding mem_kv
engine-del key s = del-succeeds key s

failing-plain :
    (key : Bytes) (e : Error) (s : failing.State)
    → (failing.del key s).0 ≡ some e
    → is_cas_failed e ≡ false
unfolding is_cas_failed
failing-plain key e s = elim (Bool-cases (equal key (key_of old_version))) [
  | inl on ↦ rw on (λ h. subst (λ x. is_cas_failed x ≡ false) (some_injective h) refl)
  | inr off ↦ rw off (λ h. absurd (ground (arith, h, engine-del key s)))
]

abbrev compaction : WorkerConfig
compaction = record {
  partition = record { start = []; end = [] };
  tso = 9;
  revision = 5;
  tombstone = tomb_stone_bytes;
  compact = true;
  timeout_revision = 0;
}

can_compact : CanCompact failing compaction
unfolding mem_kv
can_compact = record {
  compacts = refl;
  no_expiry = refl;
  plain = record { del-plain = failing-plain };
}

versions-IsListed : IsListed failing failing-Contents store_state versions
versions-IsListed = record {
  ordered = versions-Ordered;
  revisions = versions-HasRevision;
  keys = (omega arith, (omega arith, tt));
  present = versions-present;
}

run_iterated-compacts_example :
    (out : (ℕ × Option Error) × Scan failing) × (run_iterated failing compaction
        (listed (record { entries = entries_of versions; ends = none }))
        empty_result
        []
        store_state
      ≡ some out)
    × ((r : ℕ)
        → 5 ≤ r
        → visible r tomb_stone_bytes (stored (stored_keys failing failing-Contents out.1) versions)
          ≡ visible r tomb_stone_bytes versions)
    × ((j : Bytes)
        → All (λ v. j ≢ key_of v) versions
        → stored_keys failing failing-Contents out.1 j ≡ failing-Contents.view store_state j)
    × ((j : Bytes)
        → (stored_keys failing failing-Contents out.1 j ≡ none)
          ⊎ (stored_keys failing failing-Contents out.1 j ≡ failing-Contents.view store_state j))
run_iterated-compacts_example =
    run_iterated-compacts failing failing-Contents compaction versions none empty_result []
      store_state can_compact versions-IsListed
