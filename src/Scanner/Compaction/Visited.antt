-- ===== src/Scanner/Compaction/Visited.antt =====
-- The visit of one entry by a compacting worker of pkg/backend/scanner, as a whole.
use kubebrain.Base.{
  ◌<◌, ◌≡◌, ◌≢◌, ◌⊎◌, inl, inr, none, true, false, ltb, ◌==◌, if◌then◌else◌, length, arith,
  Bool-cases, ap, ◌∙◌,
}
use kubebrain.Base.Bytes.{Bytes, equal, equal_refl}
use kubebrain.Message.{KeyValue}
use kubebrain.Storage.{KvStorage}
use kubebrain.Storage.Contents.{Map, update, Contents}
use kubebrain.Scanner.Worker.{
  WorkerConfig, Scan, compact_key, process_prev, compact_tombstone, compact_index, visit,
}
use kubebrain.Scanner.Visible.{entry_of}
use kubebrain.Scanner.Compaction.{
  PlainRemovals, stored_keys, IsBlocked, SamePrev, Trims, Trims-rest, Trims-shrinks, Trims-gone,
}
use kubebrain.Scanner.Compaction.Visit.{
  key_of, prev_of, HasPrev, Quiet, process_prev-cases, process_prev-Trims, process_prev-SamePrev,
  process_prev-Removes, compact_tombstone-Trims, compact_tombstone-quiet,
  compact_tombstone-SamePrev, compact_index-Trims, compact_index-version, compact_index-prev,
}

module _ (K : KvStorage) (C : Contents K) where
  -- What a visit of a version up to the revision of the compaction does.
  pub record Visited (conf : WorkerConfig) (v : KeyValue) (sc sc' : Scan K) : Type 0 where
    pub rest :
        (j : Bytes)
        → j ≢ key_of v
        → (HasPrev K C v.key sc → j ≢ key_of (prev_of K C sc))
        → stored_keys K C sc' j ≡ stored_keys K C sc j
    pub shrinks :
        (j : Bytes)
        → (stored_keys K C sc' j ≡ none) ⊎ (stored_keys K C sc' j ≡ stored_keys K C sc j)
    pub idle :
        IsBlocked K C v.key sc
        → (stored_keys K C sc' ≡ stored_keys K C sc) × IsBlocked K C v.key sc'
    -- a live version is left alone
    pub current :
        0 < v.revision
        → equal v.value conf.tombstone ≡ false
        → (HasPrev K C v.key sc → key_of v ≢ key_of (prev_of K C sc))
        → stored_keys K C sc' (key_of v) ≡ stored_keys K C sc (key_of v)
    -- the version that it replaces is gone, or nothing is touched from there on
    pub previous :
        HasPrev K C v.key sc
        → (stored_keys K C sc' (key_of (prev_of K C sc)) ≡ none)
          ⊎ ((stored_keys K C sc' ≡ stored_keys K C sc) × IsBlocked K C v.key sc')
    pub next : (prev_of K C sc' ≡ v) ⊎ ((v.revision ≡ 0) × (prev_of K C sc' ≡ prev_of K C sc))

  module _ (conf : WorkerConfig) (v : KeyValue) (sc : Scan K) where
    abbrev processed : Scan K
    processed = process_prev K conf v.key sc

    abbrev cleared : Scan K
    cleared = compact_tombstone K conf (entry_of v) v.key processed

    abbrev indexed : Scan K
    indexed = compact_index K conf (entry_of v) v.key v.revision cleared

    second : Trims K C (key_of v) v.key processed cleared
    second = compact_tombstone-Trims K C conf v processed

    third : Trims K C (key_of v) v.key cleared indexed
    third = compact_index-Trims K C conf v cleared

    shrinks_again :
        {key raw_key : Bytes} {b c : Scan K}
        → Trims K C key raw_key b c
        → (j : Bytes) → (stored_keys K C b j ≡ none) ⊎ (stored_keys K C b j ≡ stored_keys K C sc j)
        → (stored_keys K C c j ≡ none) ⊎ (stored_keys K C c j ≡ stored_keys K C sc j)
    shrinks_again t j (inl gone) = inl (Trims-gone K C t j gone)
    shrinks_again t j (inr same) = elim (Trims-shrinks K C t j) [
      | inl gone ↦ inl gone
      | inr e ↦ inr (e ∙ same)
    ]

    idle_again :
        {key raw_key : Bytes} {b c : Scan K}
        → Trims K C key raw_key b c
        → (stored_keys K C b ≡ stored_keys K C sc) × IsBlocked K C raw_key b
        → (stored_keys K C c ≡ stored_keys K C sc) × IsBlocked K C raw_key c
    idle_again t (e, b) = ((t.idle b).0 ∙ e, (t.idle b).1)

    prev_same : (a b : Scan K) → SamePrev K C a b → prev_of K C b ≡ prev_of K C a
    prev_same a b (k, r, val) i = record { key = k i; value = val i; revision = r i }

    visited : PlainRemovals K → conf.compact ≡ true → 0 < length v.key → Visited conf v sc indexed
    visited lost c len = record {
      rest = λ j. λ ne. λ np.
          Trims-rest K C third j ne
          ∙ Trims-rest K C second j ne
          ∙ rest_of j np (process_prev-cases K C conf v.key sc c);
      shrinks = λ j. shrinks_again third j (shrinks_again second j (Trims-shrinks K C first j));
      idle = λ b. idle_again third (idle_again second (first.idle b));
      current = λ pos. λ live. λ np.
          ap (λ s. stored_keys K C s (key_of v)) (compact_index-version K C conf v cleared pos)
          ∙ ap (λ s. stored_keys K C s (key_of v))
              (compact_tombstone-quiet K C conf v processed live)
          ∙ rest_of (key_of v) np (process_prev-cases K C conf v.key sc c);
      previous = λ p. elim (process_prev-Removes K C conf v.key sc lost c len p) [
        | inl gone ↦ inl (
            Trims-gone K C third _
              (Trims-gone K C second _ (update_self (stored_keys K C processed) gone)))
        | inr blocked ↦ inr (idle_again third (idle_again second blocked))
      ];
      next = next_of (compact_index-prev K C conf v cleared);
    }
      where
        update_self :
            (m : Map)
            → m ≡ update (stored_keys K C sc) (key_of (prev_of K C sc)) none
            → m (key_of (prev_of K C sc)) ≡ none
        update_self m gone =
            ap (λ f. f (key_of (prev_of K C sc))) gone
            ∙ ap (λ b. if b then none else stored_keys K C sc (key_of (prev_of K C sc)))
                (equal_refl (key_of (prev_of K C sc)))

        cleared_prev : prev_of K C cleared ≡ prev_of K C sc
        cleared_prev =
            prev_same processed cleared (compact_tombstone-SamePrev K C conf v processed)
            ∙ prev_same sc processed (process_prev-SamePrev K C conf v.key sc c)

        next_of :
            (prev_of K C indexed ≡ v) ⊎ (prev_of K C indexed ≡ prev_of K C cleared)
            → (prev_of K C indexed ≡ v)
              ⊎ ((v.revision ≡ 0) × (prev_of K C indexed ≡ prev_of K C sc))
        next_of (inl e) = inl e
        next_of (inr e) = elim (Bool-cases (v.revision == 0)) [
          | inl z ↦ inr (ground (arith, z), e ∙ cleared_prev)
          | inr nz ↦
              inl (ap (prev_of K C) (compact_index-version K C conf v cleared (ground (arith, nz))))
        ]

        first : Trims K C (key_of (prev_of K C sc)) v.key sc processed
        first = process_prev-Trims K C conf v.key sc c

        rest_of :
            (j : Bytes)
            → (HasPrev K C v.key sc → j ≢ key_of (prev_of K C sc))
            → (HasPrev K C v.key sc
                × (process_prev K conf v.key sc
                    ≡ compact_key K (key_of (prev_of K C sc)) sc.prev_user_key sc))
              ⊎ ((¬ HasPrev K C v.key sc) × Quiet K C sc (process_prev K conf v.key sc))
            → stored_keys K C processed j ≡ stored_keys K C sc j
        rest_of j np (inl own) = Trims-rest K C first j (np own.0)
        rest_of j np (inr quiet) = ap (λ s. C.view s j) quiet.1.0

  pub visit-Visited :
      (conf : WorkerConfig) (v : KeyValue) (sc : Scan K)
      → PlainRemovals K
      → conf.compact ≡ true
      → 0 < length v.key
      → ltb conf.revision v.revision ≡ false
      → Visited conf v sc (visit K conf (entry_of v) v.key v.revision sc)
  unfolding visit
  visit-Visited conf v sc lost c len below = rw below (visited conf v sc lost c len)
