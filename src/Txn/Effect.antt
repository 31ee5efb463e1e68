-- ===== src/Txn/Effect.antt =====
-- What the writes do to the stored keys, and to the revisions.
use kubebrain.Base.{
  ℕ, ◌+◌, ◌≤◌, ◌<◌, ◌≡◌, refl, ap, subst, ◌∙◌, ◌⊎◌, inl, inr, [], ◌∷◌, ◌++◌, Option, none, some,
  false, not, ◌&&◌, ltb, leb, ◌==◌, if◌then◌else◌, arith, Bool-cases, Option-cases, some_injective,
}
use kubebrain.Base.Bytes.{Bytes, contains}
use kubebrain.Coder.{encode_object_key, encode_revision_key}
use kubebrain.Tso.{uint64_mod, backend_deal}
use kubebrain.Storage.{Error, KvStorage}
use kubebrain.Storage.Contents.{Contents, Map}
use kubebrain.Storage.Effect.{Effect, commit-Effect}
use kubebrain.Creator
use kubebrain.Creator.{uint64_to_bytes}
use kubebrain.Creator.Effect.{written, apply-cas, Creates, create_with_ttl-Effect}
use kubebrain.Range.{tomb_stone_bytes, Value, get, get_internal_val}
use kubebrain.Txn.{
  Backend, KeyVal, deal, create, create_dealt, update, update_dealt, delete, delete_dealt,
  delete_read, events, events_ttl,
}

-- A client that knows no revision above the next one gets the next one.
pub deal_lem :
    {K : KvStorage} (prev : ℕ) (b : Backend K)
    → b.pipeline.tso.deal_revision + 1 < uint64_mod
    → prev ≤ b.pipeline.tso.deal_revision + 1
    → ((deal K prev b).0 ≡ (b.pipeline.tso.deal_revision + 1, none))
unfolding deal backend_deal
deal_lem {K} prev b h p = ground arith

expected-asked :
    (asked found : ℕ)
    → (ltb 0 asked && not (asked == found)) ≡ false
    → ((if leb asked 0 then found else asked) ≡ found) × ((asked ≡ 0) ⊎ (asked ≡ found))
expected-asked asked found h = elim (Bool-cases (leb asked 0)) [
  | inl any ↦ (rw any refl, inl (ground (arith, any)))
  | inr given ↦ (ground (arith, given, h), inr (ground (arith, given, h)))
]

module _ {K : KvStorage} (C : Contents K) where
  create_dealt-Effect :
      (key value : Bytes) (lease : ℕ) (r : ℕ × Option Error) (b : Backend K)
      → let (q, b') = create_dealt K key value lease r b in
        Creates C key value q.0 (C.view b.kv) (q.1, b'.kv)
  unfolding create_dealt
  create_dealt-Effect key value lease (rev, some e) b = inl refl
  create_dealt-Effect key value lease (rev, none) b =
      elim (Bool-cases (not ((if contains key events then events_ttl else lease) == 0))) [
        | inl kept ↦ rw kept (create_with_ttl-Effect C key value rev _ b.kv)
        | inr plain ↦
            rw plain (unfold Creator.create in create_with_ttl-Effect C key value rev 0 b.kv)
      ]

  -- The backend's create is dealt the next revision, unless the counter wraps. If it succeeds, the
  -- object was absent or its last version was a deletion with a smaller revision, and now its
  -- revision key holds the new revision and its object key of that revision the value, with nothing
  -- else changed; if it fails, nothing is changed, but for an uncertain error, after which it may
  -- have been done, where that was allowed.
  pub create-Effect :
      (key value : Bytes) (lease : ℕ) (b : Backend K)
      → b.pipeline.tso.deal_revision + 1 < uint64_mod
      → let (q, b') = create K key value lease b in
        (q.0 ≡ b.pipeline.tso.deal_revision + 1)
        × Creates C key value q.0 (C.view b.kv) (q.1, b'.kv)
  unfolding create deal backend_deal
  create-Effect key value lease b small =
      let (r, b') = deal K 0 b in (omega (arith, small), create_dealt-Effect key value lease r b')

  update_dealt-Effect :
      (old_revision : ℕ) (key value : Bytes) (r : ℕ × Option Error) (b : Backend K)
      → let (q, b') = update_dealt K old_revision key value r b in
        Effect
          (C.view b.kv (encode_revision_key key) ≡ some (uint64_to_bytes old_revision))
          (C.view b.kv)
          (written
            (encode_revision_key key)
            (uint64_to_bytes q.0)
            (encode_object_key key q.0)
            value
            (C.view b.kv))
          (C.view b'.kv)
          q.1
  unfolding update_dealt
  update_dealt-Effect old_revision key value (rev, some e) b = inl refl
  update_dealt-Effect old_revision key value (rev, none) b =
      commit-Effect C _ b.kv _ (apply-cas _ _ value _ _ 0 (C.view b.kv))

  -- The backend's update, for a client that knows no revision above the next one, is dealt the next
  -- revision, unless the counter wraps. If it succeeds, the revision that is stored for the object was
  -- the client's, without a deletion flag, and now its revision key holds the new revision and its
  -- object key of that revision the value, with nothing else changed; if it fails, nothing is changed,
  -- but for an uncertain error, after which it may have been done, where that was allowed.
  pub update-Effect :
      (old_revision : ℕ) (key value : Bytes) (lease : ℕ) (b : Backend K)
      → b.pipeline.tso.deal_revision + 1 < uint64_mod
      → old_revision ≤ b.pipeline.tso.deal_revision + 1
      → let (q, b') = update K old_revision key value lease b in
        (q.0 ≡ b.pipeline.tso.deal_revision + 1)
        × Effect
            (C.view b.kv (encode_revision_key key) ≡ some (uint64_to_bytes old_revision))
            (C.view b.kv)
            (written
              (encode_revision_key key)
              (uint64_to_bytes q.0)
              (encode_object_key key q.0)
              value
              (C.view b.kv))
            (C.view b'.kv)
            q.1
  unfolding update update_dealt deal
  update-Effect old_revision key value lease b small known =
      let (r, b') = deal K old_revision b in
      (
        ap (λ (r : ℕ × Option Error). (update_dealt K old_revision key value r b').0.0)
            (deal_lem old_revision b small known),
        update_dealt-Effect old_revision key value r b',
      )

  -- What a delete of a given revision, or 0 for any, needs: the stored revision is that of the
  -- version that was read, which is older than the deletion and the one that is asked for.
  abbrev pub Deletable : (key : Bytes) (asked old rev : ℕ) → Map → Type 0
  Deletable key asked old rev m =
      (m (encode_revision_key key) ≡ some (uint64_to_bytes old))
      × ((asked ≡ 0) ⊎ (asked ≡ old))
      × (old < rev)

  abbrev pub Deletes :
      (key : Bytes) (asked : ℕ) → Map → (ℕ × KeyVal × Option Error) × Backend K → Type 0
  Deletes key asked m (r, b) =
      Effect (Deletable key asked r.1.revision r.0 m) m
        (written (encode_revision_key key) (uint64_to_bytes r.0 ++ 0 ∷ [])
          (encode_object_key key r.0) tomb_stone_bytes m)
        (C.view b.kv) r.2

  delete_dealt-Effect :
      (old_revision : ℕ) (key : Bytes) (v : Value) (r : ℕ × Option Error) (b : Backend K)
      → Deletes key old_revision (C.view b.kv) (delete_dealt K old_revision key v r b)
  unfolding delete_dealt
  delete_dealt-Effect old_revision key v (rev, some e) b = inl refl
  delete_dealt-Effect old_revision key v (rev, none) b =
      elim (Bool-cases (ltb 0 old_revision && not (old_revision == v.mod_revision))) [
        | inl differs ↦ rw differs (inl refl)
        | inr agrees ↦ rw agrees (elim (Bool-cases (leb rev v.mod_revision)) [
          | inl late ↦ rw late (inl refl)
          | inr newer ↦ rw newer (
              commit-Effect C _ b.kv _ (λ m applied.
                let (stored, done) = apply-cas _ _ _ _ _ 0 (C.view b.kv) m applied in
                let (expected, which) = expected-asked old_revision v.mod_revision agrees in
                (
                  (
                    stored ∙ ap (λ n. some (uint64_to_bytes n)) expected,
                    which,
                    ground (arith, newer),
                  ),
                  done,
                )))
        ])
      ]

  delete_read-Effect :
      (old_revision : ℕ) (key : Bytes) (v : Value) (b : Backend K)
      → Deletes key old_revision (C.view b.kv) (delete_read K old_revision key v b)
  unfolding delete_read deal
  delete_read-Effect old_revision key v b = elim (Option-cases v.err) [
    | inr (e, unread) ↦ rw unread (inl refl)
    | inl read ↦
        let (r, b') = deal K old_revision b in rw read (delete_dealt-Effect old_revision key v r b')
  ]

  after_read-Effect :
      (old_revision : ℕ) (key : Bytes) (v : Option Value) (b : Backend K)
      (p : (ℕ × KeyVal × Option Error) × Backend K)
      → (elim v [ none ↦ none | some w ↦ some (delete_read K old_revision key w b) ]) ≡ some p
      → Deletes key old_revision (C.view b.kv) p
  after_read-Effect old_revision key none b p h = absurd (cc)
  after_read-Effect old_revision key (some w) b p h =
      subst (Deletes key old_revision (C.view b.kv)) (some_injective h)
        (delete_read-Effect old_revision key w b)

  -- The backend's delete, if it does not panic. If it succeeds, the version that it read was the one
  -- stored last and not a deletion, has the revision that the client asked for, if any, and is older
  -- than the new revision; and now the object's revision key holds the new revision with the deletion
  -- flag and its object key of that revision the tombstone, with nothing else changed; if it fails,
  -- nothing is changed, but for an uncertain error, after which it may have been done, where that was
  -- allowed.
  pub delete-Effect :
      (old_revision : ℕ) (key : Bytes) (b : Backend K) (p : (ℕ × KeyVal × Option Error) × Backend K)
      → delete K old_revision key b ≡ some p
      → Deletes key old_revision (C.view b.kv) p
  unfolding delete get get_internal_val
  delete-Effect old_revision key b p h =
      let (v, s) = get K key 0 b.kv in
      subst (λ m. Deletes key old_revision m p) (C.view-iter _ _ _ _ b.kv)
        (after_read-Effect old_revision key v (record b { kv = s }) p h)
