-- ===== src/Creator/Effect.antt =====
-- What the creation of an object does to the stored keys.
use kubebrain.Base.{
  ℕ, zero, suc, ◌<◌, ◌≡◌, refl, ap, subst, ◌∙◌, ◌⊎◌, inl, inr, [], ◌∷◌, Option, none, some, true,
  ◌&&◌, ltb, arith, Bool-cases, Option-cases,
}
use kubebrain.Base.Bytes.{Bytes, equal, equal→eq}
use kubebrain.Coder.{
  encode_object_key, encode_revision_key, parse_revision, RevisionValue, parsed, invalid_format,
}
use kubebrain.Storage.{
  Error, is_cas_failed, is_key_not_found, conflict, Fetch, found, fetch_failed, put_if_not_exist,
  cas, put, KvStorage,
}
use kubebrain.Storage.Contents.{Contents, Map, update, apply_op, apply_ops}
use kubebrain.Storage.Effect.{Effect, commit-Effect}
use kubebrain.Creator.{
  uint64_to_bytes, create_batch, update_batch, old_revision, replace_parsed, replace_deleted,
  after_create, create_with_ttl,
}

-- The map once a version is written: the key's revision and the version's value.
abbrev pub written : (key revision value : Bytes) → Bytes → Map → Map
written revision_key revision object_key value m =
    update (update m revision_key (some revision)) object_key (some value)

-- The object is absent, or its last version is an older deletion.
abbrev pub Free : Bytes → ℕ → Map → Type 0
Free key revision m =
    (m (encode_revision_key key) ≡ none)
    ⊎ ((old : Bytes) × (prev : ℕ) × (m (encode_revision_key key) ≡ some old)
        × (parse_revision old ≡ parsed prev true)
        × (prev < revision))

apply-create :
    (rk ok value revision : Bytes) (ttl : ℕ) (m m' : Map)
    → apply_ops (put_if_not_exist rk revision ttl ∷ put ok value ttl ∷ []) m ≡ some m'
    → (m rk ≡ none) × (m' ≡ written rk revision ok value m)
unfolding apply_ops apply_op
apply-create rk ok value revision ttl m m' h = elim (Option-cases (m rk)) [
  | inl absent ↦ (absent, ground (arith, h, absent))
  | inr (old, present) ↦ absurd (ground (arith, h, present))
]

pub apply-cas :
    (rk ok value new old : Bytes) (ttl : ℕ) (m m' : Map)
    → apply_ops (cas rk new old ttl ∷ put ok value ttl ∷ []) m ≡ some m'
    → (m rk ≡ some old) × (m' ≡ written rk new ok value m)
unfolding apply_ops apply_op
apply-cas rk ok value new old ttl m m' h = elim (Option-cases (m rk)) [
  | inl absent ↦ absurd (ground (arith, h, absent))
  | inr (v, present) ↦ elim (Bool-cases (equal v old)) [
    | inl same ↦ (present ∙ ap some (equal→eq v old same), ground (arith, h, present, same))
    | inr other ↦ absurd (ground (arith, h, present, other))
  ]
]

module _ {K : KvStorage} (C : Contents K) where
  create_batch-Effect :
      (rk ok value revision : Bytes) (ttl : ℕ) (s : K.State)
      → let (r, s') = create_batch K rk ok value revision ttl s in
        Effect
          (C.view s rk ≡ none)
          (C.view s)
          (written rk revision ok value (C.view s))
          (C.view s')
          r
  unfolding create_batch
  create_batch-Effect rk ok value revision ttl s =
      commit-Effect C _ s _ (apply-create rk ok value revision ttl (C.view s))

  update_batch-Effect :
      (rk ok value new old : Bytes) (ttl : ℕ) (s : K.State)
      → let (r, s') = update_batch K rk ok value new old ttl s in
        Effect
          (C.view s rk ≡ some old)
          (C.view s)
          (written rk new ok value (C.view s))
          (C.view s')
          r
  unfolding update_batch
  update_batch-Effect rk ok value new old ttl s =
      commit-Effect C _ s _ (apply-cas rk ok value new old ttl (C.view s))

  view-old_revision :
      (e : Error) (rk : Bytes) (s : K.State) → C.view (old_revision K e rk s).1 ≡ C.view s
  unfolding old_revision
  view-old_revision (conflict zero j val) rk s = refl
  view-old_revision (conflict (suc n) j val) rk s = C.view-get rk s
  view-old_revision _ rk s = C.view-get rk s

  Effect-weaken :
      {A B : Type 0} (m done m' : Map) (r : Option Error)
      → (A → B)
      → Effect A m done m' r
      → Effect B m done m' r
  Effect-weaken m done m' none f (a, e) = (f a, e)
  Effect-weaken m done m' (some e) f (inl same) = inl same
  Effect-weaken m done m' (some e) f (inr (u, a, d)) = inr (u, f a, d)

  -- an answer of the creation of an object in the map `m`
  abbrev pub Creates : (key val : Bytes) (revision : ℕ) → Map → Option Error × K.State → Type 0
  Creates key val revision m (r, s) =
      Effect (Free key revision m) m
        (written (encode_revision_key key) (uint64_to_bytes revision)
          (encode_object_key key revision) val m)
        (C.view s) r

  replace_parsed-Effect :
      (key val : Bytes) (revision ttl : ℕ) (old : Bytes) (p : RevisionValue) (s : K.State)
      → parse_revision old ≡ p
      → Creates key val revision (C.view s) (replace_parsed K key val revision ttl old p s)
  unfolding replace_parsed
  replace_parsed-Effect key val revision ttl old invalid_format s e = inl refl
  replace_parsed-Effect key val revision ttl old (parsed prev is_tombstone) s e =
      elim (Bool-cases (is_tombstone && ltb prev revision)) [
        | inr live ↦ rw live (inl refl)
        | inl deleted ↦ rw deleted (
            Effect-weaken _ _ _ _
              (λ stored.
                inr (old, prev, stored, e ∙ ground (arith, deleted), ground (arith, deleted)))
              (update_batch-Effect _ _ val _ old ttl s))
      ]

  replace_deleted-Effect :
      (key val : Bytes) (revision ttl : ℕ) (old : Fetch) (s : K.State)
      → Creates key val revision (C.view s) (replace_deleted K key val revision ttl old s)
  unfolding replace_deleted
  replace_deleted-Effect key val revision ttl (fetch_failed e) s =
      elim (Bool-cases (is_key_not_found e)) [
        | inl gone ↦ rw gone (Effect-weaken _ _ _ _ inl (create_batch-Effect _ _ val _ ttl s))
        | inr unread ↦ rw unread (inl refl)
      ]
  replace_deleted-Effect key val revision ttl (found old) s =
      replace_parsed-Effect key val revision ttl old (parse_revision old) s refl

  after_create-Effect :
      (key val : Bytes) (revision ttl : ℕ) (m : Map) (r : Option Error) (s : K.State)
      → Creates key val revision m (r, s)
      → ((e : Error) → r ≡ some e → is_cas_failed e ≡ true → C.view s ≡ m)
      → Creates key val revision m (after_create K key val revision ttl r s)
  unfolding after_create
  after_create-Effect key val revision ttl m none s h same = h
  after_create-Effect key val revision ttl m (some e) s h same =
      elim (Bool-cases (is_cas_failed e)) [
        | inr kept ↦ rw kept h
        | inl refused ↦
            let (old, s') = old_revision K e (encode_revision_key key) s in
            let unread = view-old_revision e (encode_revision_key key) s ∙ same e refl refused in
            rw refused (
              subst
                (λ n. Creates key val revision n (replace_deleted K key val revision ttl old s'))
                unread (replace_deleted-Effect key val revision ttl old s'))
      ]

  -- The creation of an object with a revision, over any engine: if it succeeds, the object was
  -- absent or its last version was a deletion with a smaller revision, and now the object's revision
  -- key holds the revision and its object key the value, all other keys being as before; if it fails,
  -- nothing has changed, but for an error that is marked uncertain, after which the creation may as
  -- well be done, and then it was allowed.
  pub create_with_ttl-Effect :
      (key val : Bytes) (revision ttl : ℕ) (s : K.State)
      → Creates key val revision (C.view s) (create_with_ttl K key val revision ttl s)
  unfolding create_with_ttl create_batch
  create_with_ttl-Effect key val revision ttl s =
      let (r, s') =
        create_batch K (encode_revision_key key) (encode_object_key key revision) val
          (uint64_to_bytes revision) ttl s in
      after_create-Effect key val revision ttl (C.view s) r s'
        (Effect-weaken _ _ _ _ inl (create_batch-Effect _ _ val _ ttl s))
        (λ e failed refused.
          C.commit-failed _ e s failed (C.commit-cas_failed _ e s failed refused))
