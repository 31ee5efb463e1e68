-- ===== src/Election/Exclusion.antt =====
-- The lock of pkg/backend/election is exclusive: it only passes from the record that a candidate has
-- seen to the one that it writes.
use kubebrain.Base.{
  ◌≡◌, ◌⊎◌, refl, inl, inr, [], ◌∷◌, Option, none, some, true, false, ◌==◌, if◌then◌else◌, arith,
  Bool-cases, Option-cases, some_injective, ap, ◌∙◌, sym, subst,
}
use kubebrain.Base.Bytes.{Bytes, equal, equal→eq, equal_refl}
use kubebrain.Storage.{Error, is_uncertain, cas, KvStorage}
use kubebrain.Storage.Contents.{Map, update, Contents, apply_op, apply_ops}
use kubebrain.Election
use kubebrain.Election.{Encoding, ResourceLock, Outcome, updated, update_marshalled, get_tso}

module _ {Ler : Type 0} (E : Encoding Ler) (K : KvStorage) (C : Contents K) (key : Bytes) where
  -- The record passes from the one that was seen to the one that is written, and nothing else changes.
  pub record Passes (seen : Bytes) (ler : Ler) (m m' : Map) : Type 0 where
    pub val : Bytes
    pub written : E.marshal ler ≡ some val
    pub before : m key ≡ some seen
    pub after : m' ≡ update m key (some val)

  cas-applied :
      (val seen : Bytes) (m m' : Map)
      → apply_ops (cas key val seen 0 ∷ []) m ≡ some m'
      → (m key ≡ some seen) × (m' ≡ update m key (some val))
  unfolding apply_ops apply_op
  cas-applied val seen m m' h = elim (Option-cases (m key)) [
    | inl gone ↦ absurd (ground (arith, h, gone))
    | inr old ↦ elim (Bool-cases (equal old.0 seen)) [
      | inl same ↦ (
        old.1 ∙ ap some (equal→eq old.0 seen same),
        sym (some_injective (ground (arith, h, old.1, same))),
      )
      | inr other ↦ absurd (ground (arith, h, old.1, other))
    ]
  ]

  get_tso-view : (o : Outcome E K key) → C.view (get_tso E K key o).2 ≡ C.view o.2
  unfolding get_tso
  get_tso-view (some e, l, s) = refl
  get_tso-view (none, l, s) = C.view-get_timestamp_oracle s

  get_tso-none : (o : Outcome E K key) → (get_tso E K key o).0 ≡ none → o.0 ≡ none
  unfolding get_tso
  get_tso-none (some e, l, s) h = h
  get_tso-none (none, l, s) h = refl

  module _ (ler : Ler) (l : ResourceLock E K key) (s : K.State) where
    -- Nothing has changed, or the record was passed on; if there is no error, it was.
    abbrev pub Updates : Outcome E K key → Type 0
    Updates o =
        ((C.view o.2 ≡ C.view s) ⊎ Passes l.last_val ler (C.view s) (C.view o.2))
        × (o.0 ≡ none → Passes l.last_val ler (C.view s) (C.view o.2))

    committed :
        (val : Bytes) (r : Option Error × K.State)
        → E.marshal ler ≡ some val
        → K.commit (cas key val l.last_val 0 ∷ []) s ≡ r
        → Updates (r.0, l, r.1)
    committed val (none, s') m e =
        let done = cas-applied val l.last_val (C.view s) (C.view s') (
          subst
            (λ (x : Option Error × K.State).
              x.0 ≡ none → apply_ops (cas key val l.last_val 0 ∷ []) (C.view s) ≡ some (C.view x.1))
            e (C.commit-ok (cas key val l.last_val 0 ∷ []) s) refl) in
        let p : Passes l.last_val ler (C.view s) (C.view s') = record {
          val = val;
          written = m;
          before = done.0;
          after = done.1;
        } in
        (inr p, λ h. p)
    committed val (some err, s') m e =
        (go (Bool-cases (is_uncertain err)), λ h. absurd (ground (arith, h)))
      where
        failed_with : (K.commit (cas key val l.last_val 0 ∷ []) s).0 ≡ some err
        failed_with = ap (λ x. x.0) e

        same_view : C.view (K.commit (cas key val l.last_val 0 ∷ []) s).1 ≡ C.view s'
        same_view = ap (λ x. C.view x.1) e

        go :
            (is_uncertain err ≡ true) ⊎ (is_uncertain err ≡ false)
            → (C.view s' ≡ C.view s) ⊎ Passes l.last_val ler (C.view s) (C.view s')
        go (inr sure) =
            inl (
              sym same_view
              ∙ C.commit-failed (cas key val l.last_val 0 ∷ []) err s failed_with sure)
        go (inl open_) =
            elim (C.commit-uncertain (cas key val l.last_val 0 ∷ []) err s failed_with open_) [
              | inl kept ↦ inl (sym same_view ∙ kept)
              | inr done ↦
                  let (before, after) =
                    cas-applied val l.last_val (C.view s) (C.view s') (done ∙ ap some same_view) in
                  inr (record { val = val; written = m; before = before; after = after })
            ]

    get_tso-Updates : (o : Outcome E K key) → Updates o → Updates (get_tso E K key o)
    get_tso-Updates o (u, p) = (
      elim u [
        | inl kept ↦ inl (get_tso-view o ∙ kept)
        | inr done ↦ inr (subst (Passes l.last_val ler (C.view s)) (sym (get_tso-view o)) done)
      ],
      λ h. subst (Passes l.last_val ler (C.view s)) (sym (get_tso-view o)) (p (get_tso-none o h)),
    )

    refused : (e : Error) → Updates (some e, l, s)
    refused e = (inl refl, λ h. absurd (ground (arith, h)))

    marshalled : (v : Option Bytes) → E.marshal ler ≡ v → Updates (update_marshalled E K key v l s)
    unfolding update_marshalled updated
    marshalled none m = refused Election.bad_json
    marshalled (some val) m =
        get_tso-Updates _ (committed val (K.commit (cas key val l.last_val 0 ∷ []) s) m refl)

    -- An update of the lock, over any engine: either the stored keys are as before, or the record in
    -- the storage was the last one that the candidate has seen and now is the one that it writes, with
    -- nothing else changed; and if the update returns no error, it was so. An error says neither.
    pub update-Updates : Updates (Election.update E K key ler l s)
    unfolding Election.update
    update-Updates = elim (Bool-cases (l.tso == 0)) [
      | inl z ↦ rw z (refused Election.not_initialized)
      | inr ready ↦ rw ready (marshalled (E.marshal ler) refl)
    ]

  -- Two candidates that have seen the same record and update one after the other: if both succeed, then
  -- the first has written once more what both had seen.
  pub update-excludes :
      (a b : Ler) (l k : ResourceLock E K key) (s : K.State)
      → l.last_val ≡ k.last_val
      → (Election.update E K key a l s).0 ≡ none
      → (Election.update E K key b k (Election.update E K key a l s).2).0 ≡ none
      → E.marshal a ≡ some l.last_val
  update-excludes a b l k s same first second =
      let p = (update-Updates a l s).1 first in
      let q = (update-Updates b k (Election.update E K key a l s).2).1 second in
      p.written
      ∙ (sym (ap (λ c. if c then some p.val else C.view s key) (equal_refl key))
          ∙ ap (λ m. m key) (sym p.after)
          ∙ q.before)
      ∙ ap some (sym same)
