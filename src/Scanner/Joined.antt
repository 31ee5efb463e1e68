-- ===== src/Scanner/Joined.antt =====
-- A list with no limit: the workers of pkg/backend/scanner read the partitions, and what they find is
-- put together.
use kubebrain.Base.{
  ℕ, ◌≡◌, ◌≢◌, refl, inl, inr, List, [], ◌∷◌, ◌++◌, append-nil, append_assoc, none, some, false,
  not, ◌&&◌, ◌||◌, length, leb, All, Bool-cases, ap, ◌∙◌, sym,
}
use kubebrain.Base.Bytes.{Bytes, equal, equal→eq}
use kubebrain.Message.{KeyValue}
use kubebrain.Storage.{Partition, KvStorage, listed}
use kubebrain.Range.{reply}
use kubebrain.Scanner.Receiver.{common_result, flush, reset, fork, merge, collect-unlimited}
use kubebrain.Scanner.Worker.{WorkerConfig, Scan, run_with_backoff_retry, scan_backoff_steps}
use kubebrain.Scanner.Partitions.{
  ScannerConfig, ScannerState, WorkerResult, worker_config, range, range_result, run_workers,
  first_error, merge_results, scan_result, scan_partitions, scan, adjust_partitions_borders,
  begin_scan, scan_begun, scan_partitioned, scanned,
}
use kubebrain.Scanner.Visible.{Ordered, HasRevision, entries_of, replaced, shown, visible}
use kubebrain.Scanner.Reads.{run-read}

-- partitions with the versions in them
abbrev pub Parts : Type 0
Parts = List (Partition × List KeyValue)

abbrev pub partitions_of : Parts → List Partition
partitions_of [] = []
partitions_of ((p, vs) ∷ parts) = p ∷ partitions_of parts

abbrev pub versions_of : Parts → List KeyValue
versions_of [] = []
versions_of ((p, vs) ∷ parts) = vs ++ versions_of parts

-- No object has versions in two partitions.
abbrev pub NoneCut : Parts → Type 0
NoneCut [] = Unit
NoneCut ((p, vs) ∷ parts) =
    All (λ v. All (λ w. w.key ≢ v.key) (versions_of parts)) vs × NoneCut parts

abbrev pub AreOrdered : Parts → Type 0
AreOrdered parts = All (λ part. All HasRevision part.1 × Ordered part.1) parts

replaced-append :
    (r : ℕ) (key : Bytes) (vs ws : List KeyValue)
    → All (λ w. w.key ≢ key) ws
    → replaced r key (vs ++ ws) ≡ replaced r key vs
unfolding replaced
replaced-append r key [] [] h = refl
replaced-append r key [] (w ∷ ws) h = elim (Bool-cases (equal w.key key)) [
  | inl same ↦ absurd (h.0 (equal→eq w.key key same))
  | inr other ↦ rw other (replaced-append r key [] ws h.1)
]
replaced-append r key (v ∷ vs) ws h =
    ap (λ b. equal v.key key && leb v.revision r || b) (replaced-append r key vs ws h)

visible-append :
    (r : ℕ) (t : Bytes) (vs ws : List KeyValue)
    → All (λ v. All (λ w. w.key ≢ v.key) ws) vs
    → visible r t (vs ++ ws) ≡ visible r t vs ++ visible r t ws
unfolding visible
visible-append r t [] ws h = refl
visible-append r t (v ∷ vs) ws h = elim (Bool-cases (shown r t v && not (replaced r v.key vs))) [
  | inl on ↦
      rw (replaced-append r v.key vs ws h.0, on) (ap (λ l. v ∷ l) (visible-append r t vs ws h.1))
  | inr off ↦ rw (replaced-append r v.key vs ws h.0, off) (visible-append r t vs ws h.1)
]

module _ (K : KvStorage) (config : ScannerConfig) (tso revision : ℕ) where
  -- The iterators of the partitions, one after the other, list the versions.
  abbrev pub Lists : Parts → K.State → K.State → Type 0
  Lists [] s s' = s ≡ s'
  Lists ((p, vs) ∷ parts) s s' =
      (s1 : K.State) × (K.iter p.start p.end tso 0 s
        ≡ (listed (record { entries = entries_of vs; ends = none }), s1))
      × Lists parts s1 s'

  abbrev found_by : List KeyValue → List KeyValue
  found_by vs = visible revision config.tombstone vs

  abbrev results_of : Parts → List (WorkerResult K)
  results_of [] = []
  results_of ((p, vs) ∷ parts) =
      (length (found_by vs), none, common_result (found_by vs) 0) ∷ results_of parts

  abbrev all_found : Parts → List KeyValue
  all_found [] = []
  all_found ((p, vs) ∷ parts) = found_by vs ++ all_found parts

  all_found-visible :
      (parts : Parts) → NoneCut parts → all_found parts ≡ found_by (versions_of parts)
  unfolding visible
  all_found-visible [] h = refl
  all_found-visible ((p, vs) ∷ parts) h =
      ap (λ l. found_by vs ++ l) (all_found-visible parts h.1)
      ∙ sym (visible-append revision config.tombstone vs (versions_of parts) h.0)

  first_error-none : (parts : Parts) → first_error K (results_of parts) ≡ none
  unfolding first_error
  first_error-none [] = refl
  first_error-none ((p, vs) ∷ parts) = first_error-none parts

  merged :
      (parts : Parts) (result : List KeyValue)
      → (merge_results K (common_result result 0) (results_of parts)).1
        ≡ common_result (result ++ all_found parts) 0
  unfolding merge_results merge
  merged [] result = ap (λ l. common_result l 0) (sym (append-nil result))
  merged ((p, vs) ∷ parts) result =
      merged parts (result ++ found_by vs)
      ∙ ap (λ l. common_result l 0) (append_assoc result (found_by vs) (all_found parts))

  abbrev reader_config : Partition → WorkerConfig
  reader_config = worker_config K config tso revision false 0

  -- The first run of a worker succeeds.
  worker-read :
      (p : Partition) (vs : List KeyValue) (s s1 : K.State)
      → All HasRevision vs
      → Ordered vs
      → K.iter p.start p.end tso 0 s
        ≡ (listed (record { entries = entries_of vs; ends = none }), s1)
      → (sc : Scan K) × (run_with_backoff_retry K scan_backoff_steps
            (reader_config p)
            (common_result [] 0)
            []
            s
          ≡ some ((length (found_by vs), none), sc))
        × (sc.receiver ≡ common_result (found_by vs) 0)
        × (sc.kv ≡ s1)
  unfolding run_with_backoff_retry flush reset
  worker-read p vs s s1 hr ho it =
      let (out, ran, ok, rc, kv, counted) =
        run-read K (reader_config p) (common_result [] 0) vs [] s s1
          (record { no_compaction = refl; no_timeout = refl }) hr ho it in
      let same : out ≡ ((length (found_by vs), none), out.1) =
        λ i. ((counted refl i, ok i), out.1) in
      (
        out.1,
        rw (run_with_backoff_retry, ran ∙ ap some same) refl,
        rc ∙ ap flush (collect-unlimited [] (found_by vs)),
        kv,
      )

  run_workers-read :
      (parts : Parts) (s s' : K.State)
      → AreOrdered parts
      → Lists parts s s'
      → run_workers K reader_config (common_result [] 0) (partitions_of parts) s
        ≡ some (results_of parts, s')
  unfolding run_workers fork
  run_workers-read [] s s' h e = ap (λ x. some ([], x)) e
  run_workers-read ((p, vs) ∷ parts) s s' h (s1, it, ls) =
      let (sc, ran, rc, kv) = worker-read p vs s s1 h.0.0 h.0.1 it in
      rw (run_workers, ran, kv, run_workers-read parts s1 s' h.1 ls, rc) refl

  found_result :
      (parts : Parts)
      → NoneCut parts
      → range_result K (scan_result K (common_result [] 0) (results_of parts))
        ≡ reply (found_by (versions_of parts))
  unfolding scan_result range_result
  found_result parts hc =
      rw (scan_result, first_error-none parts, merged parts [], all_found-visible parts hc) refl

  scan-read :
      (start end : Bytes) (st : ScannerState K) (s s1 s2 : K.State) (given : List Partition)
      (parts : Parts)
      → begin_scan K config revision false st.kv ≡ (some (tso, none), s)
      → K.get_partitions start end s ≡ ((given, none), s1)
      → adjust_partitions_borders given ≡ some (partitions_of parts)
      → AreOrdered parts
      → Lists parts s1 s2
      → scan K config start end revision false 0 (common_result [] 0) st
        ≡ some (scan_result K (common_result [] 0) (results_of parts), record st { kv = s2 })
  unfolding scan scan_begun scan_partitioned scan_partitions
  scan-read start end st s s1 s2 given parts begun got adj ho ls =
      ap (scan_begun K config start end revision false 0 (common_result [] 0) st.compact_histories)
        begun
      ∙ ap
          (scan_partitioned K config revision false 0 tso (common_result [] 0) st.compact_histories)
          got
      ∙ ap
          (λ ps.
            scanned K st.compact_histories
              (scan_partitions K reader_config (common_result [] 0) ps s1))
          adj
      ∙ rw (scan_partitions, run_workers-read parts s1 s2 ho ls) refl

  -- A list with no limit: if the engine gives a timestamp, the compact record allows the revision,
  -- the partitions, with their borders adjusted, list some versions each, in the order of the storage,
  -- and no object is cut by a border, then the answer is what is visible at the revision in all the
  -- versions.
  pub range-unlimited :
      (start end : Bytes) (st : ScannerState K) (s s1 s2 : K.State) (given : List Partition)
      (parts : Parts)
      → begin_scan K config revision false st.kv ≡ (some (tso, none), s)
      → K.get_partitions start end s ≡ ((given, none), s1)
      → adjust_partitions_borders given ≡ some (partitions_of parts)
      → AreOrdered parts
      → NoneCut parts
      → Lists parts s1 s2
      → range K config start end revision 0 st
        ≡ some
            (reply (visible revision config.tombstone (versions_of parts)), record st { kv = s2 })
  unfolding range
  range-unlimited start end st s s1 s2 given parts begun got adj ho hc ls =
      rw (range, scan-read start end st s s1 s2 given parts begun got adj ho ls)
        (ap (λ r. some (r, record { compact_histories = st.compact_histories; kv = s2 }))
          (found_result parts hc))
