-- ===== src/Scanner/Ranges.antt =====
-- What Range of pkg/backend/scanner/scanner.go answers.
use kubebrain.Base.{
  ℕ, ◌<◌, ◌≡◌, refl, List, [], Option, none, some, false, take, arith, All, lt→ltb, ap, ap₂, ◌∙◌,
}
use kubebrain.Base.Bytes.{Bytes}
use kubebrain.Message.{KeyValue}
use kubebrain.Storage.{Error, KvStorage, listed}
use kubebrain.Range.{reply}
use kubebrain.Scanner.Receiver.{Receiver, common_result, flush, reset, collect, collect-limited}
use kubebrain.Scanner.Partitions.{
  ScannerConfig, ScannerState, worker_config, range_with_limit, range, range_result, begin_scan,
  range_begun, ranged,
}
use kubebrain.Scanner.Visible.{Ordered, HasRevision, entries_of, visible}
use kubebrain.Scanner.Reads.{run-read}

module _ (K : KvStorage) where
  result_of :
      (x : ℕ × Option Error) (r : Receiver) (kvs : List KeyValue) (limit : ℕ)
      → x.1 ≡ none
      → r ≡ common_result kvs limit
      → range_result K (x, r) ≡ reply kvs
  unfolding range_result
  result_of x r kvs limit ok rc = rw (ok, rc) refl

  limited_receiver :
      (limit : ℕ) (kvs : List KeyValue)
      → 0 < limit
      → flush (collect (reset (common_result [] limit)) kvs) ≡ common_result (take limit kvs) limit
  unfolding flush reset
  limited_receiver limit kvs pos = ap flush (collect-limited limit limit [] kvs pos (omega arith))

  -- A list with a limit: if the engine gives a timestamp, the compact record allows the revision and
  -- the iterator lists some versions, in the order of the storage, then the answer is the first of
  -- those that are visible at the revision, as many as the limit.
  pub range-limited :
      (config : ScannerConfig) (start end : Bytes) (revision limit tso : ℕ) (st : ScannerState K)
      (s s' : K.State) (vs : List KeyValue)
      → 0 < limit
      → begin_scan K config revision false st.kv ≡ (some (tso, none), s)
      → K.iter start end tso 0 s ≡ (listed (record { entries = entries_of vs; ends = none }), s')
      → All HasRevision vs
      → Ordered vs
      → range K config start end revision limit st
        ≡ some (reply (take limit (visible revision config.tombstone vs)), record st { kv = s' })
  unfolding range range_with_limit range_begun
  range-limited config start end revision limit tso st s s' vs pos begun it hr ho =
      let conf =
        worker_config K config tso revision false 0 (record { start = start; end = end }) in
      let (out, ran, ok, rc, kv, _) =
        run-read K conf (common_result [] limit) vs [] s s'
          (record { no_compaction = refl; no_timeout = refl }) hr ho it in
      rw (range, lt→ltb 0 limit pos)
        (ap (range_begun K config start end revision limit st.compact_histories) begun
          ∙ ap (ranged K st.compact_histories) ran
          ∙ ap₂ (λ r k. some (r, record { compact_histories = st.compact_histories; kv = k }))
              (result_of out.0 out.1.receiver (take limit (visible revision config.tombstone vs))
                limit ok (rc ∙ limited_receiver limit (visible revision config.tombstone vs) pos))
              kv)
