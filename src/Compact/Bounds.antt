-- ===== src/Compact/Bounds.antt =====
-- A compaction spares what may still be needed, and its record does not go back.
use kubebrain.Base.{
  ℕ, ◌≤◌, ◌<◌, ◌≡◌, ap, sym, subst, ◌⊎◌, inl, inr, [], ◌∷◌, Option, none, some, length, take, ltb,
  ◌==◌, arith, Bool-cases, Option-cases, some_injective,
}
use kubebrain.Base.Bytes.{Bytes, equal, equal→eq, big_endian, big_endian_value}
use kubebrain.Storage.{
  Error, key_not_found, put_if_not_exist, cas, Fetch, found, fetch_failed, KvStorage,
}
use kubebrain.Storage.Contents.{Contents, Map, update, apply_op, apply_ops}
use kubebrain.Storage.Effect.{Effect, commit-Effect}
use kubebrain.Compact.{
  compact_revision, get_compact_key, write_compact_record, compact_record_read, set_compact_record,
}

-- A compaction goes no further than the published revision, stays below the first uncertain
-- revision, if there is one, and no further than the revision that is asked for, if that is not 0;
-- with no uncertain revision, an asked one that is published is the one that is used.
pub compact_revision_lem :
    (revision cur uncertain : ℕ)
    → (compact_revision revision cur uncertain ≤ cur)
      × ((uncertain ≡ 0) ⊎ (compact_revision revision cur uncertain < uncertain))
      × ((revision ≡ 0) ⊎ (compact_revision revision cur uncertain ≤ revision))
      × ((revision ≡ 0) ⊎ (cur < revision) ⊎ (compact_revision revision cur 0 ≡ revision))
unfolding compact_revision
compact_revision_lem revision cur uncertain = (
  ground arith,
  elim (Bool-cases (uncertain == 0)) [
    | inl certain ↦ inl (ground (arith, certain))
    | inr open_ ↦ inr (ground (arith, open_))
  ],
  elim (Bool-cases (revision == 0)) [
    | inl latest ↦ inl (ground (arith, latest))
    | inr asked ↦ inr (ground (arith, asked))
  ],
  elim (Bool-cases (revision == 0)) [
    | inl latest ↦ inl (ground (arith, latest))
    | inr asked ↦ inr (elim (Bool-cases (ltb cur revision)) [
      | inl ahead ↦ inl (ground (arith, ahead))
      | inr past ↦ inr (ground (arith, asked, past))
    ])
  ],
)

-- the revision of a record
abbrev pub recorded : Option Bytes → ℕ
recorded none = 0
recorded (some val) = big_endian_value (take 8 val)

abbrev pub Records : (key : Bytes) (revision : ℕ) → Map → Map → Type 0
Records key revision m m' =
    (m' ≡ m) ⊎ ((recorded (m key) ≤ revision) × (m' ≡ update m key (some (big_endian 8 revision))))

apply-first :
    (key : Bytes) (revision : ℕ) (m m' : Map)
    → apply_ops (put_if_not_exist key (big_endian 8 revision) 0 ∷ []) m ≡ some m'
    → (recorded (m key) ≤ revision) × (m' ≡ update m key (some (big_endian 8 revision)))
unfolding apply_ops apply_op
apply-first key revision m m' h = elim (Option-cases (m key)) [
  | inl absent ↦ (rw absent (omega arith), ground (arith, h, absent))
  | inr (old, present) ↦ absurd (ground (arith, h, present))
]

apply-next :
    (key val : Bytes) (revision : ℕ) (m : Map)
    → big_endian_value (take 8 val) ≤ revision
    → (m' : Map) → apply_ops (cas key (big_endian 8 revision) val 0 ∷ []) m ≡ some m'
    → (recorded (m key) ≤ revision) × (m' ≡ update m key (some (big_endian 8 revision)))
unfolding apply_ops apply_op
apply-next key val revision m low m' h = elim (Option-cases (m key)) [
  | inl absent ↦ absurd (ground (arith, h, absent))
  | inr (v, present) ↦ elim (Bool-cases (equal v val)) [
    | inl same ↦ (rw (present, equal→eq v val same) low, ground (arith, h, present, same))
    | inr other ↦ absurd (ground (arith, h, present, other))
  ]
]

module _ {K : KvStorage} (C : Contents K) where
  Effect-Records :
      (key : Bytes) (revision : ℕ) (m m' : Map) (r : Option Error)
      → Effect (recorded (m key) ≤ revision) m (update m key (some (big_endian 8 revision))) m' r
      → Records key revision m m'
  Effect-Records key revision m m' none h = inr h
  Effect-Records key revision m m' (some e) (inl same) = inl same
  Effect-Records key revision m m' (some e) (inr (_, low, done)) = inr (low, done)

  write_compact_record-Records :
      (key : Bytes) (revision : ℕ) (val : Bytes) (s : K.State) (p : Option Error × K.State)
      → write_compact_record K key revision val s ≡ some p
      → Records key revision (C.view s) (C.view p.1)
  unfolding write_compact_record
  write_compact_record-Records key revision val s p h = elim (Bool-cases (ltb 0 (length val))) [
    | inr first ↦
        let e : K.commit (put_if_not_exist key (big_endian 8 revision) 0 ∷ []) s ≡ p =
          some_injective (ground (arith, h, first)) in
        subst (λ (q : Option Error × K.State). Records key revision (C.view s) (C.view q.1)) e
          (Effect-Records key revision _ _ _
            (commit-Effect C _ s _ (apply-first key revision (C.view s))))
    | inl given ↦ elim (Bool-cases (ltb (length val) 8)) [
      | inl short ↦ absurd (ground (arith, h, given, short))
      | inr full ↦ elim (Bool-cases (ltb revision (big_endian_value (take 8 val)))) [
        | inl done ↦
            let e : (none, s) ≡ p = some_injective (ground (arith, h, given, full, done)) in
            inl (sym (ap (λ (q : Option Error × K.State). C.view q.1) e))
        | inr low ↦
            let e : K.commit (cas key (big_endian 8 revision) val 0 ∷ []) s ≡ p =
              some_injective (ground (arith, h, given, full, low)) in
            subst (λ (q : Option Error × K.State). Records key revision (C.view s) (C.view q.1)) e
              (Effect-Records key revision _ _ _ (
                commit-Effect C _ s _
                  (apply-next key val revision (C.view s) (ground (arith, low)))))
      ]
    ]
  ]

  compact_record_read-Records :
      (key : Bytes) (revision : ℕ) (val : Fetch) (s : K.State) (p : Option Error × K.State)
      → compact_record_read K key revision val s ≡ some p
      → Records key revision (C.view s) (C.view p.1)
  unfolding compact_record_read
  compact_record_read-Records key revision (found val) s p h =
      write_compact_record-Records key revision val s p h
  compact_record_read-Records key revision (fetch_failed key_not_found) s p h =
      write_compact_record-Records key revision [] s p h
  compact_record_read-Records key revision (fetch_failed e) s p h =
      inl (sym (ap (λ (q : Option Error × K.State). C.view q.1) (some_injective h)))

  -- Setting the compact record, over any engine, if it does not panic on a damaged record: either the
  -- stored keys are as before, or the record stood at a smaller or equal revision, none counting as
  -- 0, and now holds the new revision, with nothing else changed.
  pub set_compact_record-Records :
      (prefix : Bytes) (revision : ℕ) (s : K.State) (p : Option Error × K.State)
      → set_compact_record K prefix revision s ≡ some p
      → Records (get_compact_key prefix) revision (C.view s) (C.view p.1)
  unfolding set_compact_record
  set_compact_record-Records prefix revision s p h =
      let (val, s') = K.get (get_compact_key prefix) s in
      subst (λ m. Records (get_compact_key prefix) revision m (C.view p.1)) (C.view-get _ s)
        (compact_record_read-Records (get_compact_key prefix) revision val s' p h)
