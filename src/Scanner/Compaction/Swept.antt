-- ===== src/Scanner/Compaction/Swept.antt =====
-- What a compacting worker of pkg/backend/scanner has done when it is through with some versions, and
-- that a version above its revision does not matter.
use kubebrain.Base.{
  ℕ, ◌<◌, ◌≤◌, ◌≡◌, ◌≢◌, ◌⊎◌, refl, inl, inr, List, [], ◌∷◌, none, true, ltb, length, arith, All,
  All-map, All-zip, ap, ◌∙◌, sym,
}
use kubebrain.Base.Bytes.{Bytes, cmp, cmp_refl}
use kubebrain.Message.{KeyValue}
use kubebrain.Coder.{uint64_mod, encode_object_key, Decoded, decoded, decode}
use kubebrain.Coder.Roundtrip.{decode-encode_object_key}
use kubebrain.Storage.{KvStorage}
use kubebrain.Storage.Contents.{Map, Contents}
use kubebrain.Scanner.Worker.{WorkerConfig, Scan}
use kubebrain.Scanner.Visible.{Before, Ordered, HasRevision, replaced}
use kubebrain.Scanner.Visible.Stored.{lookup_version, Unbroken, Trimmed}
use kubebrain.Scanner.Compaction.{stored_keys, IsBlocked}
use kubebrain.Scanner.Compaction.Visit.{key_of, prev_of}

-- Internal keys of different objects, or of different versions, are different.
pub key_of-injective :
    (v w : KeyValue)
    → HasRevision v
    → HasRevision w
    → key_of v ≡ key_of w
    → (v.key ≡ w.key) × (v.revision ≡ w.revision)
key_of-injective v w hv hw e = (ap user_key same, ap revision_of same)
  where
    same : decoded v.key v.revision ≡ decoded w.key w.revision
    same =
        sym (decode-encode_object_key v.key v.revision hv)
        ∙ ap decode e
        ∙ decode-encode_object_key w.key w.revision hw

    user_key : Decoded → Bytes
    user_key d = elim d [ decoded k r ↦ k | _ ↦ [] ]

    revision_of : Decoded → ℕ
    revision_of d = elim d [ decoded k r ↦ r | _ ↦ 0 ]

pub Before-key_of :
    (v w : KeyValue) → HasRevision v → HasRevision w → Before v w → key_of w ≢ key_of v
Before-key_of v w hv hw (inl lt) e =
    ground (arith, lt, cmp_refl w.key, ap (λ k. cmp k w.key) (key_of-injective w v hw hv e).0)
Before-key_of v w hv hw (inr (k, r)) e = omega (arith, (key_of-injective w v hw hv e).1, r)

-- In one object, the versions that stand behind have greater revisions.
pub Before-revision : (v w : KeyValue) → Before v w → w.key ≡ v.key → v.revision < w.revision
Before-revision v w (inr (k, r)) e = r
Before-revision v w (inl lt) e =
    absurd (ground (arith, lt, cmp_refl w.key, ap (λ k. cmp k w.key) e))

module _ (K : KvStorage) (C : Contents K) (conf : WorkerConfig) where
  -- A version before others.
  abbrev pub Precedes : KeyValue → List KeyValue → Type 0
  Precedes p vs =
      (0 < p.revision → All (Before p) vs) × HasRevision p × (p.revision ≤ conf.revision)

  -- The worker at the version before, and what is behind it.
  pub record IsAt (sc : Scan K) (vs : List KeyValue) : Type 0 where
    pub ordered : Ordered vs
    pub revisions : All HasRevision vs
    pub keys : All (λ v. 0 < length v.key) vs
    pub present : All (λ v. lookup_version (stored_keys K C sc) v ≢ none) vs
    pub prev : Precedes (prev_of K C sc) vs

  -- What the worker has done when it is through with `vs`.
  pub record Swept (sc : Scan K) (vs : List KeyValue) (sc' : Scan K) : Type 0 where
    pub shrinks :
        (j : Bytes)
        → (stored_keys K C sc' j ≡ none) ⊎ (stored_keys K C sc' j ≡ stored_keys K C sc j)
    -- other objects
    pub others :
        (k : Bytes) (r : ℕ)
        → r < uint64_mod
        → All (λ v. v.key ≢ k) vs
        → stored_keys K C sc' (encode_object_key k r) ≡ stored_keys K C sc (encode_object_key k r)
    -- other keys
    pub rest :
        (j : Bytes)
        → (0 < sc.prev_revision → j ≢ key_of (prev_of K C sc))
        → All (λ v. j ≢ key_of v) vs
        → stored_keys K C sc' j ≡ stored_keys K C sc j
    pub idle :
        0 < sc.prev_revision
        → IsBlocked K C sc.prev_user_key sc
        → (r : ℕ) → r < uint64_mod
        → stored_keys K C sc' (encode_object_key sc.prev_user_key r)
          ≡ stored_keys K C sc (encode_object_key sc.prev_user_key r)
    pub trimmed : Trimmed conf.revision conf.tombstone (stored_keys K C sc') vs
    pub prev_gone :
        0 < sc.prev_revision
        → lookup_version (stored_keys K C sc') (prev_of K C sc) ≡ none
        → (lookup_version (stored_keys K C sc) (prev_of K C sc) ≡ none)
          ⊎ (replaced conf.revision sc.prev_user_key vs ≡ true)
    pub prev_unbroken : Unbroken (stored_keys K C sc') (prev_of K C sc) vs

  pub present-Trimmed :
      (m : Map) (vs : List KeyValue)
      → All (λ v. lookup_version m v ≢ none) vs
      → Trimmed conf.revision conf.tombstone m vs
  present-Trimmed m [] a = tt
  present-Trimmed m (v ∷ vs) a = (
    λ gone. absurd (a.0 gone),
    λ pos. λ there. All-map vs (λ y h e. h) a.1,
    present-Trimmed m vs a.1,
  )

  -- The loop ends here.
  pub Swept-stop : (sc : Scan K) (vs : List KeyValue) → IsAt sc vs → Swept sc vs sc
  Swept-stop sc vs at = record {
    shrinks = λ j. inr refl;
    others = λ k. λ r. λ h. λ a. refl;
    rest = λ j. λ h. λ a. refl;
    idle = λ p. λ b. λ r. λ h. refl;
    trimmed = present-Trimmed (stored_keys K C sc) vs at.present;
    prev_gone = λ p. λ g. inl g;
    prev_unbroken = λ p. λ g. All-map vs (λ y h e. h) at.present;
  }

  -- A version that is only looked at stays.
  untouched :
      (v : KeyValue) (vs : List KeyValue) (sc sc' : Scan K)
      → IsAt sc (v ∷ vs)
      → Swept sc vs sc'
      → lookup_version (stored_keys K C sc') v ≢ none
  untouched v vs sc sc' at q gone = at.present.0 (
      sym (
        q.rest (key_of v)
          (λ pos. Before-key_of (prev_of K C sc) v at.prev.1 at.revisions.0 (at.prev.0 pos).0)
          (All-map vs (λ w h e. Before-key_of v w at.revisions.0 h.1 h.0 (sym e))
            (All-zip (Before v) HasRevision vs at.ordered.0 at.revisions.1)))
      ∙ gone)

  unbroken_above :
      (m : Map) (v : KeyValue) (vs : List KeyValue)
      → conf.revision < v.revision
      → All (Before v) vs
      → Trimmed conf.revision conf.tombstone m vs
      → All (λ y. y.key ≡ v.key → lookup_version m y ≢ none) vs
  unbroken_above m v [] h b t = tt
  unbroken_above m v (y ∷ ys) h b t = (
    λ e. λ gone. omega (arith, h, (t.0 gone).0, Before-revision v y b.0 e),
    unbroken_above m v ys h b.1 t.2,
  )

  pub replaced-tail :
      (r : ℕ) (k : Bytes) (v : KeyValue) (vs : List KeyValue)
      → replaced r k vs ≡ true
      → replaced r k (v ∷ vs) ≡ true
  unfolding replaced
  replaced-tail r k v vs e = ground (arith, e)

  -- Over a version above the revision of the compaction.
  pub Swept-above :
      (v : KeyValue) (vs : List KeyValue) (sc sc' : Scan K)
      → ltb conf.revision v.revision ≡ true
      → IsAt sc (v ∷ vs)
      → Swept sc vs sc'
      → Swept sc (v ∷ vs) sc'
  Swept-above v vs sc sc' above at q = record {
    shrinks = q.shrinks;
    others = λ k. λ r. λ h. λ a. q.others k r h a.1;
    rest = λ j. λ h. λ a. q.rest j h a.1;
    idle = q.idle;
    trimmed = (
      λ gone. absurd (untouched v vs sc sc' at q gone),
      λ pos. λ there.
          unbroken_above (stored_keys K C sc') v vs (ground (arith, above)) at.ordered.0 q.trimmed,
      q.trimmed,
    );
    prev_gone = λ p. λ g. elim (q.prev_gone p g) [
      | inl e ↦ inl e
      | inr e ↦ inr (replaced-tail conf.revision sc.prev_user_key v vs e)
    ];
    prev_unbroken = λ p. λ g. (λ e. untouched v vs sc sc' at q, q.prev_unbroken p g);
  }
