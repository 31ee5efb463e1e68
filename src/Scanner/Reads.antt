-- ===== src/Scanner/Reads.antt =====
-- What a worker of pkg/backend/scanner passes on when it does not compact.
mod Rounds
use kubebrain.Base.{
  ℕ, ◌+◌, ◌≡◌, ◌⊎◌, refl, inl, inr, List, [], ◌∷◌, Option, none, some, Bool, true, false, not, ◌&&◌,
  length, ltb, leb, if◌then◌else◌, arith, All, Bool-cases, ap, ◌∙◌, sym, subst,
}
use native.Mathlib.Nat.{zero-add}
use kubebrain.Base.Bytes.{Bytes, equal}
use kubebrain.Message.{KeyValue}
use kubebrain.Storage.{Error, KvStorage, listed}
use kubebrain.Scanner.Receiver.{
  Receiver, need_more, append, flush, reset, collect, is_unlimited, need_more-unlimited, flush-full,
  collect-full, collect-more, is_unlimited-append, is_unlimited-reset,
}
use kubebrain.Scanner.Worker.{
  WorkerConfig, Scan, eof, start_scan, visit, process_prev, compact_tombstone, compact_index,
  remember, loop, finish, conclude, run_iterated, run,
}
use kubebrain.Scanner.Steps.{HasNoExpiry, loop-step, loop-full}
use kubebrain.Scanner.Visible.{
  Before, Ordered, HasRevision, entry_of, entries_of, shown, replaced, visible,
}
use kubebrain.Scanner.Visible.Order.{replaced-other, visible-above, visible-replaced}
use kubebrain.Scanner.Reads.Rounds.{
  IsRead, no_expiry, visit-above, visit-same, prev_of, outcome_of, Passes, Passes-from, Passes-full,
  is_shown_prev, passed_prev, visible-last, loop-last, outcome-step, visit-other, visible-other,
  Passes-eq, prev_of-not_replaced, Passes-other, prev_of-tail,
}

module _ (K : KvStorage) where
  module _ (conf : WorkerConfig) (h : IsRead conf) where
    loop-read :
        (vs : List KeyValue) (sc : Scan K)
        → All HasRevision vs
        → Ordered vs
        → (sc.prev_revision ≡ 0) ⊎ All (Before (prev_of K sc)) vs
        → leb sc.prev_revision conf.revision ≡ true
        → Passes K conf h sc
            (visible conf.revision conf.tombstone (prev_of K sc ∷ vs))
            (outcome_of K conf h vs sc)
    loop-read [] sc hr ho hp hl = elim (Bool-cases (need_more sc.receiver)) [
      | inr full ↦ Passes-full K conf h [] sc _ full
      | inl more ↦
          Passes-eq K conf h sc (visible-last K conf h sc hl) refl (loop-last K conf h sc more)
    ]
    loop-read (v ∷ vs) sc hr ho hp hl = elim (Bool-cases (need_more sc.receiver)) [
      | inr full ↦ Passes-full K conf h (v ∷ vs) sc _ full
      | inl more ↦ elim (Bool-cases (ltb conf.revision v.revision)) [
        | inl above ↦
            Passes-eq K conf h sc
              (visible-above conf.revision conf.tombstone (prev_of K sc) v vs above)
              (outcome-step K conf h v vs sc sc hr.0 more (visit-above K conf v sc above))
              (loop-read vs sc hr.1 ho.1 (prev_of-tail K conf h v vs sc hp) hl)
        | inr below ↦ elim (Bool-cases (equal v.key sc.prev_user_key)) [
          | inl same ↦
              let sc' = remember K (entry_of v) v.key v.revision sc in
              Passes-eq K conf h sc
                (visible-replaced conf.revision conf.tombstone (prev_of K sc) v vs below same)
                (outcome-step K conf h v vs sc sc' hr.0 more (visit-same K conf v sc h below same))
                (Passes-from K conf h sc sc' _ _ (outcome_of K conf h vs sc') refl refl refl refl
                  (loop-read vs sc' hr.1 ho.1 (inr ho.0) (ground (arith, below))))
          | inr other ↦
              let base = if is_shown_prev K conf h sc then passed_prev K conf h sc else sc in
              let sc' = remember K (entry_of v) v.key v.revision base in
              Passes-eq K conf h sc
                (visible-other K conf h v vs sc hl
                  (prev_of-not_replaced K conf h v vs sc ho.0 hp other))
                (outcome-step K conf h v vs sc sc' hr.0 more
                  (visit-other K conf h v sc below other))
                (Passes-other K conf h v _ sc (outcome_of K conf h vs sc') more
                  (loop-read vs sc' hr.1 ho.1 (inr ho.0) (ground (arith, below))))
        ]
      ]
    ]

  -- A worker that reads the listed versions of some objects, in the order of the storage, at a
  -- revision, ends with no error and without a write: its receiver, emptied first, is offered the
  -- newest version up to the revision of each object that is not deleted in it, one after the other
  -- until it has enough; and if it never has, the worker counts them.
  pub run_iterated-read :
      (conf : WorkerConfig) (receiver : Receiver) (vs : List KeyValue) (last : Bytes) (s : K.State)
      → IsRead conf
      → All HasRevision vs
      → Ordered vs
      → (out : (ℕ × Option Error) × Scan K) × (run_iterated K conf
            (listed (record { entries = entries_of vs; ends = none }))
            receiver
            last
            s
          ≡ some out)
        × (out.0.1 ≡ none)
        × (out.1.receiver
            ≡ flush (collect (reset receiver) (visible conf.revision conf.tombstone vs)))
        × (out.1.kv ≡ s)
        × (is_unlimited receiver ≡ true
            → out.0.0 ≡ length (visible conf.revision conf.tombstone vs))
  unfolding run_iterated visible shown
  run_iterated-read conf receiver vs last s h hr ho =
      let p =
        loop-read conf h vs (start_scan K (reset receiver) last s) hr ho (inl refl)
          (ground arith) in
      (
        p.end,
        p.ran,
        p.no_error,
        p.passed,
        p.kept,
        λ u. p.counted (is_unlimited-reset receiver ∙ u) ∙ zero-add _,
      )

  pub run-read :
      (conf : WorkerConfig) (receiver : Receiver) (vs : List KeyValue) (last : Bytes)
      (s s' : K.State)
      → IsRead conf
      → All HasRevision vs
      → Ordered vs
      → K.iter conf.partition.start conf.partition.end conf.tso 0 s
        ≡ (listed (record { entries = entries_of vs; ends = none }), s')
      → (out : (ℕ × Option Error) × Scan K) × (run K conf receiver last s ≡ some out)
        × (out.0.1 ≡ none)
        × (out.1.receiver
            ≡ flush (collect (reset receiver) (visible conf.revision conf.tombstone vs)))
        × (out.1.kv ≡ s')
        × (is_unlimited receiver ≡ true
            → out.0.0 ≡ length (visible conf.revision conf.tombstone vs))
  unfolding run
  run-read conf receiver vs last s s' h hr ho it =
      let (out, ran, ok, rc, kv, counted) = run_iterated-read conf receiver vs last s' h hr ho in
      (out, ap (λ a. run_iterated K conf a.0 receiver last a.1) it ∙ ran, ok, rc, kv, counted)
