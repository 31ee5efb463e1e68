-- ===== src/Scanner/Compaction.antt =====
-- The removals of a worker of pkg/backend/scanner: each takes one key away or leaves the keys as they
-- are, and after one that failed no other is tried for the object.
pub mod Visit
pub mod Visited
pub mod Swept
pub mod Below
pub mod Run
mod Tests
use kubebrain.Base.{
  ◌<◌, ◌≡◌, ◌≢◌, ◌⊎◌, refl, inl, inr, List, [], ◌∷◌, Option, none, some, Bool, true, false, not,
  ◌&&◌, ltb, if◌then◌else◌, length, arith, Bool-cases, Option-cases, ap, ◌∙◌, sym, subst,
}
use kubebrain.Base.Bytes.{Bytes, equal, equal→eq, equal_refl}
use kubebrain.Storage.{Error, is_cas_failed, Entry, KvStorage}
use kubebrain.Storage.Contents.{Map, update, Contents}
use kubebrain.Scanner.Worker.{Scan, is_skipped_raw_key, removed, compact_key, compact_current}

-- A removal by the key alone does not answer that a compare failed: storage/interface.go has that error
-- of the operations with a condition only.
pub record PlainRemovals (K : KvStorage) : Type 0 where
  pub del-plain :
      (key : Bytes) (e : Error) (s : K.State) → (K.del key s).0 ≡ some e → is_cas_failed e ≡ false

module _ (K : KvStorage) (C : Contents K) where
  abbrev pub stored_keys : Scan K → Map
  stored_keys sc = C.view sc.kv

  abbrev pub IsBlocked : (raw_key : Bytes) → Scan K → Type 0
  IsBlocked raw_key sc = is_skipped_raw_key K raw_key sc ≡ true

  abbrev pub SamePrev : Scan K → Scan K → Type 0
  SamePrev sc sc' =
      (sc'.prev_user_key ≡ sc.prev_user_key)
      × (sc'.prev_revision ≡ sc.prev_revision)
      × (sc'.prev_value ≡ sc.prev_value)

  -- At most the removal of `key`, and none for a blocked object, which stays blocked.
  pub record Trims (key raw_key : Bytes) (sc sc' : Scan K) : Type 0 where
    pub keys :
        (stored_keys sc' ≡ stored_keys sc) ⊎ (stored_keys sc' ≡ update (stored_keys sc) key none)
    pub idle : IsBlocked raw_key sc → (stored_keys sc' ≡ stored_keys sc) × IsBlocked raw_key sc'

  -- The removal of `key`, or a blocked object.
  abbrev pub Removes : (key raw_key : Bytes) → Scan K → Scan K → Type 0
  Removes key raw_key sc sc' =
      (stored_keys sc' ≡ update (stored_keys sc) key none)
      ⊎ ((stored_keys sc' ≡ stored_keys sc) × IsBlocked raw_key sc')

  pub Trims-self : (key raw_key : Bytes) (sc : Scan K) → Trims key raw_key sc sc
  Trims-self key raw_key sc = record { keys = inl refl; idle = λ b. (refl, b) }

  removed-Trims :
      (key raw_key : Bytes) (r : Option Error × K.State) (sc : Scan K)
      → is_skipped_raw_key K raw_key sc ≡ false
      → (C.view r.1 ≡ stored_keys sc) ⊎ (C.view r.1 ≡ update (stored_keys sc) key none)
      → Trims key raw_key sc (removed K raw_key r sc)
  unfolding removed
  removed-Trims key raw_key (none, s) sc off h = record {
    keys = h;
    idle = λ b. absurd (ground (arith, b, off));
  }
  removed-Trims key raw_key (some e, s) sc off h = elim (Bool-cases (is_cas_failed e)) [
    | inl lost ↦ rw lost (record { keys = h; idle = λ b. absurd (ground (arith, b, off)) })
    | inr other ↦ rw other (record { keys = h; idle = λ b. absurd (ground (arith, b, off)) })
  ]

  compact_key-Trims :
      (key raw_key : Bytes) (sc : Scan K) → Trims key raw_key sc (compact_key K key raw_key sc)
  unfolding compact_key
  compact_key-Trims key raw_key sc = elim (Bool-cases (is_skipped_raw_key K raw_key sc)) [
    | inl on ↦ rw on (Trims-self key raw_key sc)
    | inr off ↦ rw off (
        removed-Trims key raw_key (K.del key sc.kv) sc off
          (answered (Option-cases (K.del key sc.kv).0)))
  ]
    where
      answered :
          ((K.del key sc.kv).0 ≡ none) ⊎ ((e : Error) × ((K.del key sc.kv).0 ≡ some e))
          → (C.view (K.del key sc.kv).1 ≡ stored_keys sc)
            ⊎ (C.view (K.del key sc.kv).1 ≡ update (stored_keys sc) key none)
      answered (inl ok) = inr (C.del-ok key sc.kv ok)
      answered (inr (e, failed)) = C.del-failed key e sc.kv failed

  compact_current-Trims :
      (entry : Entry) (raw_key : Bytes) (sc : Scan K)
      → Trims entry.0 raw_key sc (compact_current K entry raw_key sc)
  unfolding compact_current
  compact_current-Trims entry raw_key sc = elim (Bool-cases (is_skipped_raw_key K raw_key sc)) [
    | inl on ↦ rw on (Trims-self entry.0 raw_key sc)
    | inr off ↦ rw off (
        removed-Trims entry.0 raw_key (K.del_current entry sc.kv) sc off
          (answered (Option-cases (K.del_current entry sc.kv).0)))
  ]
    where
      answered :
          ((K.del_current entry sc.kv).0 ≡ none)
            ⊎ ((e : Error) × ((K.del_current entry sc.kv).0 ≡ some e))
          → (C.view (K.del_current entry sc.kv).1 ≡ stored_keys sc)
            ⊎ (C.view (K.del_current entry sc.kv).1 ≡ update (stored_keys sc) entry.0 none)
      answered (inl ok) = inr (C.del_current-ok entry sc.kv ok)
      answered (inr (e, failed)) = C.del_current-failed entry e sc.kv failed

  removed-Removes :
      (key raw_key : Bytes) (sc : Scan K) (r : Option Error × K.State)
      → PlainRemovals K
      → 0 < length raw_key
      → K.del key sc.kv ≡ r
      → Removes key raw_key sc (removed K raw_key r sc)
  unfolding removed
  removed-Removes key raw_key sc (none, s) lost h e =
      inl (ap (λ x. C.view x.1) (sym e) ∙ C.del-ok key sc.kv (ap (λ x. x.0) e))
  removed-Removes key raw_key sc (some err, s) lost h e = elim (Bool-cases (is_cas_failed err)) [
    | inl c ↦ absurd (ground (arith, c, lost.del-plain key err sc.kv (ap (λ x. x.0) e)))
    | inr c ↦ rw c (elim (C.del-failed key err sc.kv (ap (λ x. x.0) e)) [
      | inl kept ↦ inr (ap (λ x. C.view x.1) (sym e) ∙ kept, ground (arith, h, equal_refl raw_key))
      | inr done ↦ inl (ap (λ x. C.view x.1) (sym e) ∙ done)
    ])
  ]

  pub compact_key-Removes :
      (key raw_key : Bytes) (sc : Scan K)
      → PlainRemovals K
      → 0 < length raw_key
      → Removes key raw_key sc (compact_key K key raw_key sc)
  unfolding compact_key
  compact_key-Removes key raw_key sc lost h = elim (Bool-cases (is_skipped_raw_key K raw_key sc)) [
    | inl on ↦ rw on (inr (refl, on))
    | inr off ↦ rw off (removed-Removes key raw_key sc (K.del key sc.kv) lost h refl)
  ]

  removed-SamePrev :
      (raw_key : Bytes) (r : Option Error × K.State) (sc : Scan K)
      → SamePrev sc (removed K raw_key r sc)
  unfolding removed
  removed-SamePrev raw_key (none, s) sc = (refl, refl, refl)
  removed-SamePrev raw_key (some e, s) sc = elim (Bool-cases (is_cas_failed e)) [
    | inl lost ↦ rw lost (refl, refl, refl)
    | inr other ↦ rw other (refl, refl, refl)
  ]

  pub compact_key-SamePrev :
      (key raw_key : Bytes) (sc : Scan K) → SamePrev sc (compact_key K key raw_key sc)
  unfolding compact_key
  compact_key-SamePrev key raw_key sc = elim (Bool-cases (is_skipped_raw_key K raw_key sc)) [
    | inl on ↦ rw on (refl, refl, refl)
    | inr off ↦ rw off (removed-SamePrev raw_key (K.del key sc.kv) sc)
  ]

  pub Trims-rest :
      {key raw_key : Bytes} {sc sc' : Scan K}
      → Trims key raw_key sc sc'
      → (j : Bytes) → j ≢ key
      → stored_keys sc' j ≡ stored_keys sc j
  Trims-rest {key = key} {sc = sc} t j ne = elim t.keys [
    | inl same ↦ ap (λ m. m j) same
    | inr gone ↦ elim (Bool-cases (equal key j)) [
      | inl e ↦ absurd (ne (sym (equal→eq key j e)))
      | inr e ↦ ap (λ m. m j) gone ∙ ap (λ b. if b then none else stored_keys sc j) e
    ]
  ]

  pub Trims-shrinks :
      {key raw_key : Bytes} {sc sc' : Scan K}
      → Trims key raw_key sc sc'
      → (j : Bytes) → (stored_keys sc' j ≡ none) ⊎ (stored_keys sc' j ≡ stored_keys sc j)
  Trims-shrinks {key = key} {sc = sc} t j = elim t.keys [
    | inl same ↦ inr (ap (λ m. m j) same)
    | inr gone ↦ elim (Bool-cases (equal key j)) [
      | inl e ↦ inl (ap (λ m. m j) gone ∙ ap (λ b. if b then none else stored_keys sc j) e)
      | inr e ↦ inr (ap (λ m. m j) gone ∙ ap (λ b. if b then none else stored_keys sc j) e)
    ]
  ]

  -- A key that is gone stays away.
  pub Trims-gone :
      {key raw_key : Bytes} {sc sc' : Scan K}
      → Trims key raw_key sc sc'
      → (j : Bytes) → stored_keys sc j ≡ none
      → stored_keys sc' j ≡ none
  Trims-gone t j g = elim (Trims-shrinks t j) [ inl e ↦ e | inr e ↦ e ∙ g ]
