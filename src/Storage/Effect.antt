-- ===== src/Storage/Effect.antt =====
-- What a batch of a compare and a write leaves behind, whatever the engine answers.
use kubebrain.Base.{◌≡◌, ◌⊎◌, inl, inr, List, Option, none, some, true, Bool-cases, Option-cases}
use kubebrain.Storage.{Error, is_uncertain, BatchOp, KvStorage}
use kubebrain.Storage.Contents.{Contents, Map, apply_ops}

-- An answer, the maps before and after it, and the map `done` that a write is to leave behind,
-- which it may do where `Allowed` holds: success means that it was done, an error that nothing
-- changed or that the error is uncertain and it was done.
abbrev pub Effect : (Allowed : Type 0) (before done after : Map) → Option Error → Type 0
Effect Allowed before done after none = Allowed × (after ≡ done)
Effect Allowed before done after (some e) =
    (after ≡ before) ⊎ ((is_uncertain e ≡ true) × Allowed × (after ≡ done))

pub commit-Effect :
    {K : KvStorage} (C : Contents K) {Allowed : Type 0} (ops : List BatchOp) (s : K.State)
    (done : Map)
    → ((m : Map) → apply_ops ops (C.view s) ≡ some m → Allowed × (m ≡ done))
    → Effect Allowed (C.view s) done (C.view (K.commit ops s).1) (K.commit ops s).0
commit-Effect {K} C ops s done all = elim (Option-cases (K.commit ops s).0) [
  | inl ok ↦ rw ok (all _ (C.commit-ok ops s ok))
  | inr (e, failed) ↦ rw failed (elim (Bool-cases (is_uncertain e)) [
    | inr sure ↦ inl (C.commit-failed ops e s failed sure)
    | inl unsure ↦ elim (C.commit-uncertain ops e s failed unsure) [
      | inl same ↦ inl same
      | inr applied ↦ (let (allowed, eq) = all _ applied in inr (unsure, allowed, eq))
    ]
  ])
]
