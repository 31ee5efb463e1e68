-- ===== src/Scanner/Compaction/Below.antt =====
-- A compacting worker of pkg/backend/scanner over a version up to its revision.
use kubebrain.Base.{
  ℕ, ◌<◌, ◌≡◌, ◌≢◌, ◌⊎◌, inl, inr, List, [], ◌∷◌, none, true, false, ltb, ◌==◌, arith, All, All-map,
  All-zip, All-when, Bool-cases, ap, ◌∙◌, sym, subst,
}
use kubebrain.Base.Bytes.{Bytes, equal, equal→eq, equal_refl}
use kubebrain.Message.{KeyValue}
use kubebrain.Coder.{uint64_mod, encode_object_key}
use kubebrain.Storage.{KvStorage}
use kubebrain.Storage.Contents.{Contents}
use kubebrain.Scanner.Worker.{WorkerConfig, Scan}
use kubebrain.Scanner.Visible.{Before, HasRevision, replaced}
use kubebrain.Scanner.Visible.Stored.{lookup_version, Unseen, Unbroken}
use kubebrain.Scanner.Compaction.{stored_keys, IsBlocked}
use kubebrain.Scanner.Compaction.Visit.{key_of, prev_of}
use kubebrain.Scanner.Compaction.Visited.{Visited}
use kubebrain.Scanner.Visible.Order.{other-keys}
use kubebrain.Scanner.Compaction.Swept.{
  key_of-injective, Before-key_of, Before-revision, Precedes, IsAt, Swept,
}

module _ (K : KvStorage) (C : Contents K) (conf : WorkerConfig) where
  abbrev Next : KeyValue → Scan K → Scan K → Type 0
  Next v sc sc' = (prev_of K C sc' ≡ v) ⊎ ((v.revision ≡ 0) × (prev_of K C sc' ≡ prev_of K C sc))

  prev_of-Precedes :
      (v : KeyValue) (vs : List KeyValue) (sc sc' : Scan K)
      → ltb conf.revision v.revision ≡ false
      → IsAt K C conf sc (v ∷ vs)
      → Next v sc sc'
      → Precedes K C conf (prev_of K C sc') vs
  prev_of-Precedes v vs sc sc' below at (inl e) =
      subst (λ x. Precedes K C conf x vs) (sym e)
        (λ pos. at.ordered.0, at.revisions.0, ground (arith, below))
  prev_of-Precedes v vs sc sc' below at (inr (z, e)) =
      subst (λ x. Precedes K C conf x vs) (sym e) (λ pos. (at.prev.0 pos).1, at.prev.1, at.prev.2)

  -- The worker at the next version.
  pub visit-IsAt :
      (v : KeyValue) (vs : List KeyValue) (sc sc' : Scan K)
      → ltb conf.revision v.revision ≡ false
      → IsAt K C conf sc (v ∷ vs)
      → Visited K C conf v sc sc'
      → IsAt K C conf sc' vs
  visit-IsAt v vs sc sc' below at vis = record {
    ordered = at.ordered.1;
    revisions = at.revisions.1;
    keys = at.keys.1;
    present =
        All-map vs
          (λ w h gone. h.0 (
            sym (
              vis.rest (key_of w) (Before-key_of v w at.revisions.0 h.1.0 h.1.1.0)
                (λ p. Before-key_of (prev_of K C sc) w at.prev.1 h.1.0 (h.1.1.1 p.0)))
            ∙ gone))
          (All-zip (λ w. lookup_version (stored_keys K C sc) w ≢ none) _ vs at.present.1
            (All-zip HasRevision _ vs at.revisions.1 (
              All-zip (Before v) (λ w. 0 < sc.prev_revision → Before (prev_of K C sc) w) vs
                at.ordered.0 (All-when (Before (prev_of K C sc)) vs (λ pos. (at.prev.0 pos).1)))));
    prev = prev_of-Precedes v vs sc sc' below at vis.next;
  }

  -- A version, not a revision key, is remembered.
  prev_of-version :
      (v : KeyValue) (sc sc' : Scan K) → 0 < v.revision → Next v sc sc' → prev_of K C sc' ≡ v
  prev_of-version v sc sc' pos (inl e) = e
  prev_of-version v sc sc' pos (inr (z, e)) = absurd (omega (arith, pos, z))

  module _ (v : KeyValue) (vs : List KeyValue) (sc sc1 sc' : Scan K)
      (below : ltb conf.revision v.revision ≡ false) (at : IsAt K C conf sc (v ∷ vs))
      (vis : Visited K C conf v sc sc1) (q : Swept K C conf sc1 vs sc') where
    shrinks_both :
        (j : Bytes)
        → (stored_keys K C sc' j ≡ none) ⊎ (stored_keys K C sc' j ≡ stored_keys K C sc j)
    shrinks_both j = elim (q.shrinks j) [
      | inl gone ↦ inl gone
      | inr same ↦ elim (vis.shrinks j) [ inl gone ↦ inl (same ∙ gone) | inr e ↦ inr (same ∙ e) ]
    ]

    others_both :
        (k : Bytes) (r : ℕ)
        → r < uint64_mod
        → All (λ w. w.key ≢ k) (v ∷ vs)
        → stored_keys K C sc' (encode_object_key k r) ≡ stored_keys K C sc (encode_object_key k r)
    others_both k r h a =
        q.others k r h a.1
        ∙ vis.rest (encode_object_key k r)
            (λ e. a.0 (sym (key_of-injective (version k r) v h at.revisions.0 e).0))
            (λ p. λ e.
              a.0 (p.1 ∙ sym (key_of-injective (version k r) (prev_of K C sc) h at.prev.1 e).0))
      where
        version : Bytes → ℕ → KeyValue
        version k' r' = record { key = k'; value = []; revision = r' }

    rest_both :
        (j : Bytes)
        → (0 < sc.prev_revision → j ≢ key_of (prev_of K C sc))
        → All (λ w. j ≢ key_of w) (v ∷ vs)
        → stored_keys K C sc' j ≡ stored_keys K C sc j
    rest_both j np a = q.rest j (np_of vis.next) a.1 ∙ vis.rest j a.0 (λ p. np p.0)
      where
        np_of : Next v sc sc1 → 0 < sc1.prev_revision → j ≢ key_of (prev_of K C sc1)
        np_of (inl e) pos ej = a.0 (ej ∙ ap key_of e)
        np_of (inr (z, e)) pos ej = np (subst (λ x. 0 < x.revision) e pos) (ej ∙ ap key_of e)

    -- The object of the version, when it is blocked.
    blocked_both :
        0 < v.revision
        → (stored_keys K C sc1 ≡ stored_keys K C sc) × IsBlocked K C v.key sc1
        → (r : ℕ) → r < uint64_mod
        → stored_keys K C sc' (encode_object_key v.key r)
          ≡ stored_keys K C sc (encode_object_key v.key r)
    blocked_both pos (same, b) r h =
        let e = prev_of-version v sc sc1 pos vis.next in
        subst
          (λ x.
            0 < x.revision
            → IsBlocked K C x.key sc1
            → stored_keys K C sc' (encode_object_key x.key r)
              ≡ stored_keys K C sc1 (encode_object_key x.key r))
          e (λ p. λ b'. q.idle p b' r h) pos b
        ∙ ap (λ m. m (encode_object_key v.key r)) same

    version_after : 0 < sc.prev_revision → v.key ≡ sc.prev_user_key → 0 < v.revision
    version_after pos e = omega (arith, Before-revision (prev_of K C sc) v (at.prev.0 pos).0 e)

    idle_both :
        0 < sc.prev_revision
        → IsBlocked K C sc.prev_user_key sc
        → (r : ℕ) → r < uint64_mod
        → stored_keys K C sc' (encode_object_key sc.prev_user_key r)
          ≡ stored_keys K C sc (encode_object_key sc.prev_user_key r)
    idle_both pos b r h = elim (Bool-cases (equal v.key sc.prev_user_key)) [
      | inl same ↦
          let e = equal→eq v.key sc.prev_user_key same in
          subst
            (λ k.
              stored_keys K C sc' (encode_object_key k r)
              ≡ stored_keys K C sc (encode_object_key k r))
            e
            (blocked_both (version_after pos e)
              (vis.idle (subst (λ k. IsBlocked K C k sc) (sym e) b)) r h)
      | inr other ↦ others_both sc.prev_user_key r h (
          other-keys (prev_of K C sc) v vs (at.prev.0 pos).0 at.ordered.0 (λ e.
            ground
              (arith, other, ap (λ k. equal k sc.prev_user_key) e, equal_refl sc.prev_user_key)))
    ]

    unseen :
        lookup_version (stored_keys K C sc') v ≡ none → Unseen conf.revision conf.tombstone v vs
    unseen gone = (
      ground (arith, below),
      elim (Bool-cases (v.revision == 0)) [
        | inl z ↦ inl (ground (arith, z))
        | inr nz ↦ elim (Bool-cases (equal v.value conf.tombstone)) [
          | inl t ↦ inr (inl t)
          | inr live ↦ inr (inr (replaced_or (ground (arith, nz)) live gone))
        ]
      ],
    )
      where
        replaced_or :
            0 < v.revision
            → equal v.value conf.tombstone ≡ false
            → lookup_version (stored_keys K C sc') v ≡ none
            → replaced conf.revision v.key vs ≡ true
        replaced_or pos live g =
            elim (subst
              (λ x.
                0 < x.revision
                → lookup_version (stored_keys K C sc') x ≡ none
                → (lookup_version (stored_keys K C sc1) x ≡ none)
                  ⊎ (replaced conf.revision x.key vs ≡ true))
              (prev_of-version v sc sc1 pos vis.next) q.prev_gone pos g) [
                | inr r ↦ r
                | inl g1 ↦ absurd (
                    at.present.0 (
                      sym (
                        vis.current pos live (λ p.
                          Before-key_of (prev_of K C sc) v at.prev.1 at.revisions.0
                            (at.prev.0 p.0).0))
                      ∙ g1))
              ]

    unbroken : Unbroken (stored_keys K C sc') v vs
    unbroken pos =
        subst (λ x. Unbroken (stored_keys K C sc') x vs) (prev_of-version v sc sc1 pos vis.next)
          q.prev_unbroken pos

    other_keys :
        0 < sc.prev_revision
        → equal v.key sc.prev_user_key ≡ false
        → All (λ w. w.key ≢ sc.prev_user_key) (v ∷ vs)
    other_keys pos other = other-keys (prev_of K C sc) v vs (at.prev.0 pos).0 at.ordered.0 (λ e.
        ground (arith, other, ap (λ k. equal k sc.prev_user_key) e, equal_refl sc.prev_user_key))

    replaced_now :
        equal v.key sc.prev_user_key ≡ true
        → replaced conf.revision sc.prev_user_key (v ∷ vs) ≡ true
    unfolding replaced
    replaced_now same = ground (arith, same, below)

    prev_gone_both :
        0 < sc.prev_revision
        → lookup_version (stored_keys K C sc') (prev_of K C sc) ≡ none
        → (lookup_version (stored_keys K C sc) (prev_of K C sc) ≡ none)
          ⊎ (replaced conf.revision sc.prev_user_key (v ∷ vs) ≡ true)
    prev_gone_both pos gone = elim (Bool-cases (equal v.key sc.prev_user_key)) [
      | inl same ↦ inr (replaced_now same)
      | inr other ↦ inl (
          sym (others_both sc.prev_user_key sc.prev_revision at.prev.1 (other_keys pos other))
          ∙ gone)
    ]

    -- A blocked object is as it was, from this version on.
    blocked_present :
        0 < v.revision
        → (stored_keys K C sc1 ≡ stored_keys K C sc) × IsBlocked K C v.key sc1
        → All (λ y. y.key ≡ v.key → lookup_version (stored_keys K C sc') y ≢ none) (v ∷ vs)
    blocked_present pos b =
        All-map (v ∷ vs)
          (λ y h e gone. h.0 (
            sym (
              subst
                (λ k.
                  stored_keys K C sc' (encode_object_key k y.revision)
                  ≡ stored_keys K C sc (encode_object_key k y.revision))
                (sym e) (blocked_both pos b y.revision h.1))
            ∙ gone))
          (All-zip (λ y. lookup_version (stored_keys K C sc) y ≢ none) HasRevision (v ∷ vs)
            at.present at.revisions)

    prev_of-Unbroken : Unbroken (stored_keys K C sc') (prev_of K C sc) (v ∷ vs)
    prev_of-Unbroken pos there = elim (Bool-cases (equal v.key sc.prev_user_key)) [
      | inr other ↦ All-map (v ∷ vs) (λ y ne e. absurd (ne e)) (other_keys pos other)
      | inl same ↦
          let e = equal→eq v.key sc.prev_user_key same in
          elim (vis.previous (pos, e)) [
            | inl gone ↦ absurd (
                there (elim (q.shrinks (key_of (prev_of K C sc))) [ inl g ↦ g | inr s ↦ s ∙ gone ]))
            | inr b ↦
                subst
                  (λ k.
                    All (λ y. y.key ≡ k → lookup_version (stored_keys K C sc') y ≢ none) (v ∷ vs))
                  e (blocked_present (version_after pos e) b)
          ]
    ]

    pub Swept-below : Swept K C conf sc (v ∷ vs) sc'
    Swept-below = record {
      shrinks = shrinks_both;
      others = others_both;
      rest = rest_both;
      idle = idle_both;
      trimmed = (unseen, unbroken, q.trimmed);
      prev_gone = prev_gone_both;
      prev_unbroken = prev_of-Unbroken;
    }
