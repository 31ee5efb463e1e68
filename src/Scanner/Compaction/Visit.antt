-- ===== src/Scanner/Compaction/Visit.antt =====
-- What the visit of one entry does to the storage when a worker of pkg/backend/scanner compacts.
use kubebrain.Base.{
  ◌<◌, ◌≡◌, ◌⊎◌, refl, inl, inr, true, false, not, ◌&&◌, ltb, ◌==◌, length, take, arith, Bool-cases,
  ap, ◌∙◌, sym, subst,
}
use kubebrain.Base.Bytes.{Bytes, equal, equal→eq, equal_refl, big_endian_value}
use kubebrain.Message.{KeyValue}
use kubebrain.Coder.{encode_object_key}
use kubebrain.Storage.{KvStorage}
use kubebrain.Storage.Contents.{Contents}
use kubebrain.Scanner.Worker.{
  WorkerConfig, Scan, compact_key, process_prev, compact_tombstone, compact_index, remember,
  is_deleted_index,
}
use kubebrain.Scanner.Visible.{entry_of}
use kubebrain.Scanner.Compaction.{
  PlainRemovals, stored_keys, SamePrev, Trims, Removes, Trims-self, compact_key-Trims,
  compact_current-Trims, compact_key-Removes, compact_key-SamePrev,
}

abbrev pub key_of : KeyValue → Bytes
key_of v = encode_object_key v.key v.revision

module _ (K : KvStorage) (C : Contents K) where
  abbrev pub prev_of : Scan K → KeyValue
  prev_of sc = record { key = sc.prev_user_key; value = sc.prev_value; revision = sc.prev_revision }

  -- whether the version before is one of the same object
  abbrev pub HasPrev : Bytes → Scan K → Type 0
  HasPrev key sc = (0 < sc.prev_revision) × (key ≡ sc.prev_user_key)

  -- no removal
  abbrev pub Quiet : Scan K → Scan K → Type 0
  Quiet sc sc' =
      (sc'.kv ≡ sc.kv)
      × (sc'.last_compact_failed_raw_key ≡ sc.last_compact_failed_raw_key)
      × SamePrev K C sc sc'

  pub process_prev-cases :
      (conf : WorkerConfig) (key : Bytes) (sc : Scan K)
      → conf.compact ≡ true
      → (HasPrev key sc
          × (process_prev K conf key sc ≡ compact_key K (key_of (prev_of sc)) sc.prev_user_key sc))
        ⊎ ((¬ HasPrev key sc) × Quiet sc (process_prev K conf key sc))
  unfolding process_prev
  process_prev-cases conf key sc c = elim (Bool-cases (equal key sc.prev_user_key)) [
    | inr other ↦ inr (
      λ h. ground (arith, other, equal_refl key, ap (equal key) h.1),
      elim (Bool-cases (ltb 0 sc.prev_revision && not (equal sc.prev_value conf.tombstone))) [
        | inl on ↦ rw (other, on) (refl, refl, (refl, refl, refl))
        | inr off ↦ rw (other, off) (refl, refl, (refl, refl, refl))
      ],
    )
    | inl same ↦ elim (Bool-cases (ltb 0 sc.prev_revision)) [
      | inl pos ↦
          inl ((ground (arith, pos), equal→eq key sc.prev_user_key same), rw (same, c, pos) refl)
      | inr zero_ ↦
          inr
            (λ h. ground (arith, zero_, h.0), rw (same, c, zero_) (refl, refl, (refl, refl, refl)))
    ]
  ]

  Quiet-Trims :
      (key raw_key : Bytes) (sc sc' : Scan K) → Quiet sc sc' → Trims K C key raw_key sc sc'
  Quiet-Trims key raw_key sc sc' (kv, last, prev) = record {
    keys = inl (ap C.view kv);
    idle = λ b. (ap C.view kv, ap (λ l. ltb 0 (length l) && equal l raw_key) last ∙ b);
  }

  pub process_prev-Trims :
      (conf : WorkerConfig) (key : Bytes) (sc : Scan K)
      → conf.compact ≡ true
      → Trims K C (key_of (prev_of sc)) key sc (process_prev K conf key sc)
  process_prev-Trims conf key sc c = elim (process_prev-cases conf key sc c) [
    | inr quiet ↦ Quiet-Trims _ key sc _ quiet.1
    | inl own ↦ subst (Trims K C (key_of (prev_of sc)) key sc) (sym own.1) (
        subst
          (λ k.
            Trims K C (key_of (prev_of sc)) k sc
              (compact_key K (key_of (prev_of sc)) sc.prev_user_key sc))
          (sym own.0.1) (compact_key-Trims K C (key_of (prev_of sc)) sc.prev_user_key sc))
  ]

  pub process_prev-quiet :
      (conf : WorkerConfig) (key : Bytes) (sc : Scan K)
      → conf.compact ≡ true
      → (¬ HasPrev key sc)
      → stored_keys K C (process_prev K conf key sc) ≡ stored_keys K C sc
  process_prev-quiet conf key sc c h = elim (process_prev-cases conf key sc c) [
    | inr quiet ↦ ap C.view quiet.1.0
    | inl own ↦ absurd (h own.0)
  ]

  pub process_prev-SamePrev :
      (conf : WorkerConfig) (key : Bytes) (sc : Scan K)
      → conf.compact ≡ true
      → SamePrev K C sc (process_prev K conf key sc)
  process_prev-SamePrev conf key sc c = elim (process_prev-cases conf key sc c) [
    | inr quiet ↦ quiet.1.2
    | inl own ↦ subst (SamePrev K C sc) (sym own.1) (compact_key-SamePrev K C _ _ sc)
  ]

  pub process_prev-Removes :
      (conf : WorkerConfig) (key : Bytes) (sc : Scan K)
      → PlainRemovals K
      → conf.compact ≡ true
      → 0 < length key
      → HasPrev key sc
      → Removes K C (key_of (prev_of sc)) key sc (process_prev K conf key sc)
  process_prev-Removes conf key sc lost c len h = elim (process_prev-cases conf key sc c) [
    | inr quiet ↦ absurd (quiet.0 h)
    | inl own ↦ subst (Removes K C (key_of (prev_of sc)) key sc) (sym own.1) (
        subst
          (λ k.
            Removes K C (key_of (prev_of sc)) k sc
              (compact_key K (key_of (prev_of sc)) sc.prev_user_key sc))
          (sym h.1)
          (compact_key-Removes K C (key_of (prev_of sc)) sc.prev_user_key sc lost
            (subst (λ k. 0 < length k) h.1 len)))
  ]

  pub compact_tombstone-Trims :
      (conf : WorkerConfig) (v : KeyValue) (sc : Scan K)
      → Trims K C (key_of v) v.key sc (compact_tombstone K conf (entry_of v) v.key sc)
  unfolding compact_tombstone
  compact_tombstone-Trims conf v sc =
      elim (Bool-cases (conf.compact && equal v.value conf.tombstone)) [
        | inl on ↦ rw on (compact_key-Trims K C (key_of v) v.key sc)
        | inr off ↦ rw off (Trims-self K C (key_of v) v.key sc)
      ]

  pub compact_tombstone-quiet :
      (conf : WorkerConfig) (v : KeyValue) (sc : Scan K)
      → equal v.value conf.tombstone ≡ false
      → compact_tombstone K conf (entry_of v) v.key sc ≡ sc
  unfolding compact_tombstone
  compact_tombstone-quiet conf v sc h = ground (arith, h)

  pub compact_tombstone-SamePrev :
      (conf : WorkerConfig) (v : KeyValue) (sc : Scan K)
      → SamePrev K C sc (compact_tombstone K conf (entry_of v) v.key sc)
  unfolding compact_tombstone
  compact_tombstone-SamePrev conf v sc =
      elim (Bool-cases (conf.compact && equal v.value conf.tombstone)) [
        | inl on ↦ rw on (compact_key-SamePrev K C (key_of v) v.key sc)
        | inr off ↦ rw off (refl, refl, refl)
      ]

  remembered-Trims :
      (v : KeyValue) (sc sc' : Scan K)
      → Trims K C (key_of v) v.key sc sc'
      → Trims K C (key_of v) v.key sc (remember K (entry_of v) v.key v.revision sc')
  remembered-Trims v sc sc' t = record { keys = t.keys; idle = t.idle }

  pub compact_index-Trims :
      (conf : WorkerConfig) (v : KeyValue) (sc : Scan K)
      → Trims K C (key_of v) v.key sc (compact_index K conf (entry_of v) v.key v.revision sc)
  unfolding compact_index
  compact_index-Trims conf v sc =
      elim (Bool-cases (is_deleted_index K conf (entry_of v) v.revision)) [
        | inr off ↦ rw off (remembered-Trims v sc sc (Trims-self K C (key_of v) v.key sc))
        | inl on ↦ elim (Bool-cases (ltb conf.revision (big_endian_value (take 8 v.value)))) [
          | inl above ↦ rw (on, above) (Trims-self K C (key_of v) v.key sc)
          | inr below ↦
              rw (on, below)
                (remembered-Trims v sc _ (compact_current-Trims K C (entry_of v) v.key sc))
        ]
      ]

  -- a version, not a revision key
  pub compact_index-version :
      (conf : WorkerConfig) (v : KeyValue) (sc : Scan K)
      → 0 < v.revision
      → compact_index K conf (entry_of v) v.key v.revision sc
        ≡ remember K (entry_of v) v.key v.revision sc
  unfolding compact_index
  compact_index-version conf v sc pos = elim (Bool-cases (v.revision == 0)) [
    | inl z ↦ absurd (ground (arith, z, pos))
    | inr nz ↦ elim (Bool-cases conf.compact) [ inl c ↦ rw (c, nz) refl | inr c ↦ rw c refl ]
  ]

  pub compact_index-prev :
      (conf : WorkerConfig) (v : KeyValue) (sc : Scan K)
      → (prev_of (compact_index K conf (entry_of v) v.key v.revision sc) ≡ v)
        ⊎ (prev_of (compact_index K conf (entry_of v) v.key v.revision sc) ≡ prev_of sc)
  unfolding compact_index
  compact_index-prev conf v sc =
      elim (Bool-cases (is_deleted_index K conf (entry_of v) v.revision)) [
        | inr off ↦ rw off (inl refl)
        | inl on ↦ elim (Bool-cases (ltb conf.revision (big_endian_value (take 8 v.value)))) [
          | inl above ↦ rw (on, above) (inr refl)
          | inr below ↦ rw (on, below) (inl refl)
        ]
      ]
